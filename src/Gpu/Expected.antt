-- ===== src/Gpu/Expected.antt =====
-- The hits that a search is to find.
use velkar_gpu.Base.{ℕ, ◌+◌, ◌≡◌, refl, arith, true, List, [], ◌∷◌}
use velkar_gpu.Word.{Bytes}
use velkar_gpu.Target.{Uint256, le}
use velkar_gpu.Packages.{Packages}
use velkar_gpu.Pow.State.{
  State, calculate_pow, calculate_pow_from_gpu_stage4, stage1_for_nonce, stage2_for_stage1,
  stage3_for_stage2, cpu_stage4_from_parts, final_hash,
}
use velkar_gpu.Gpu.{GpuHit, Candidate, candidate, hit_if}
use velkar_gpu.Gpu.Candidates.{cpu_candidate, stages_agree, push_hit}

module _ (p : Packages) {Body : Type 0} (state : State Body) where
  -- Whether the device's stages are the CPU's, job by job from job `i` on.
  abbrev pub StagesMatch : (job_inputs stage4 : Bytes) (i : ℕ) → List ℕ → Type 0
  StagesMatch job_inputs stage4 i [] = Unit
  StagesMatch job_inputs stage4 i (nonce ∷ nonces) =
      (candidate job_inputs stage4 i nonce ≡ cpu_candidate p state nonce)
      × StagesMatch job_inputs stage4 (i + 1) nonces

  -- The specification of a search: the nonces of the batch, in order, whose proof of work on the
  -- CPU is at most the target.
  abbrev pub expected_hits : (check_target : Uint256) → List ℕ → List GpuHit
  expected_hits check_target [] = []
  expected_hits check_target (nonce ∷ nonces) =
      let pow = calculate_pow p (record state { nonce = nonce }) in
      hit_if (le pow check_target) (record { nonce = nonce; pow = pow })
        (expected_hits check_target nonces)

  pub push_hit-cpu :
      (check_target : Uint256) (nonce : ℕ) (hits : List GpuHit)
      → push_hit p state check_target (cpu_candidate p state nonce) hits
        ≡ hit_if
            (le (calculate_pow p (record state { nonce = nonce })) check_target)
            (record { nonce = nonce; pow = calculate_pow p (record state { nonce = nonce }) })
            hits
  unfolding push_hit cpu_candidate calculate_pow calculate_pow_from_gpu_stage4 stage1_for_nonce
      stage2_for_stage1 stage3_for_stage2 cpu_stage4_from_parts final_hash
  push_hit-cpu check_target nonce hits = refl

  pub stages_agree_sound :
      (c : Candidate) → stages_agree p state c ≡ true → c ≡ cpu_candidate p state c.nonce
  unfolding stages_agree cpu_candidate
  stages_agree_sound c h = grind arith

  pub stages_agree_complete :
      (c : Candidate) → c ≡ cpu_candidate p state c.nonce → stages_agree p state c ≡ true
  unfolding stages_agree cpu_candidate
  stages_agree_complete c h = grind arith
