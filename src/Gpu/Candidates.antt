-- ===== src/Gpu/Candidates.antt =====
-- What src/gpu.rs and src/cuda.rs do with a candidate: its stages against the CPU's, and its proof
-- of work.
use velkar_gpu.Base.{ℕ, Bool, ◌&&◌, List}
use velkar_gpu.Target.{Uint256, uint256_eq, le}
use velkar_gpu.Packages.{Packages}
use velkar_gpu.Pow.State.{
  State, stage1_for_nonce, stage2_for_stage1, stage3_for_stage2, cpu_stage4_from_parts,
  calculate_pow_from_gpu_stage4,
}
use velkar_gpu.Gpu.{GpuHit, Candidate, hit_if}

module _ (p : Packages) {Body : Type 0} (state : State Body) where
  -- The stages of the CPU for a nonce.
  unfoldable pub cpu_candidate : ℕ → Candidate
  cpu_candidate nonce =
      let cpu_stage1 = stage1_for_nonce p state nonce in
      let cpu_stage2 = stage2_for_stage1 p state cpu_stage1 in
      let cpu_stage3 = stage3_for_stage2 p state cpu_stage2 in
      record {
        stage1 = cpu_stage1;
        stage2 = cpu_stage2;
        stage3 = cpu_stage3;
        stage4 = cpu_stage4_from_parts p state cpu_stage1 cpu_stage3 nonce;
        nonce = nonce;
      }

  unfoldable pub stages_agree : Candidate → Bool
  unfolding cpu_candidate
  stages_agree c =
      let cpu = cpu_candidate c.nonce in
      uint256_eq c.stage1 cpu.stage1
      && uint256_eq c.stage2 cpu.stage2
      && uint256_eq c.stage3 cpu.stage3
      && uint256_eq c.stage4 cpu.stage4

  -- `if pow <= check_target { hits.push(GpuHit { nonce, pow }) }`
  unfoldable pub push_hit : (check_target : Uint256) → Candidate → List GpuHit → List GpuHit
  push_hit check_target c hits =
      let pow = calculate_pow_from_gpu_stage4 p state c.stage1 c.stage2 c.stage3 c.stage4 c.nonce in
      hit_if (le pow check_target) (record { nonce = c.nonce; pow = pow }) hits
