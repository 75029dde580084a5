-- ===== src/Gpu/Cuda/Checked.antt =====
-- The check of the CUDA searcher against the CPU, and what it finds, for every device.
use velkar_gpu.Base.{
  ℕ, ◌+◌, ◌≡◌, ◌≢◌, refl, sym, ap, ap₂, ◌∙◌, arith, false, List, [], ◌∷◌, Bool-cases, inl, inr,
  Outcome, ok, ◌>>=◌, >>=-eq-ok, ok-injective,
}
use velkar_gpu.Word.{Bytes}
use velkar_gpu.Target.{Uint256}
use velkar_gpu.Packages.{Packages}
use velkar_gpu.Pow.State.{State}
use velkar_gpu.Gpu.{Searched, Candidate, candidate}
use velkar_gpu.Gpu.Candidates.{cpu_candidate, stages_agree, push_hit}
use velkar_gpu.Gpu.Expected.{StagesMatch, expected_hits, push_hit-cpu, stages_agree_sound}
use velkar_gpu.Gpu.Cuda.{
  Cust, CudaSearcher, validation_failed, Copied, run_batch, copy_back, validate_first,
  filter_candidates, search,
}

module _ (c : Cust) (p : Packages) {Body : Type 0} (state : State Body) where
  validate_first-keeps :
      (i : ℕ) (a : Candidate) (s t : CudaSearcher c.Device)
      → validate_first c p state i a s ≡ ok t
      → (t.device ≡ s.device) × (t.batch_size ≡ s.batch_size)
  unfolding validate_first
  validate_first-keeps i a s t e = ground arith

  filter_candidates-keeps :
      (check_target : Uint256) (inputs stages : Bytes) (i : ℕ) (tried : List ℕ)
      (s : CudaSearcher c.Device) (r : Searched (CudaSearcher c.Device))
      → filter_candidates c p state check_target inputs stages i tried s ≡ ok r
      → (r.searcher.device ≡ s.device) × (r.searcher.batch_size ≡ s.batch_size)
  unfolding filter_candidates
  filter_candidates-keeps check_target inputs stages i [] s r e = ground arith
  filter_candidates-keeps check_target inputs stages i (nonce ∷ tried) s r e = grind (
    arith,
    validate_first-keeps,
    filter_candidates-keeps check_target inputs stages (i + 1) tried,
  )

  push_same :
      (check_target : Uint256) (a : Candidate) (nonce : ℕ) (tried : List ℕ)
      → a ≡ cpu_candidate p state nonce
      → push_hit p state check_target a (expected_hits p state check_target tried)
        ≡ expected_hits p state check_target (nonce ∷ tried)
  push_same check_target a nonce tried same =
      ap (λ t. push_hit p state check_target t (expected_hits p state check_target tried)) same
      ∙ push_hit-cpu p state check_target nonce (expected_hits p state check_target tried)

  filter_candidates-hits :
      (check_target : Uint256) (inputs stages : Bytes) (i : ℕ) (tried : List ℕ)
      (s : CudaSearcher c.Device) (r : Searched (CudaSearcher c.Device))
      → filter_candidates c p state check_target inputs stages i tried s ≡ ok r
      → StagesMatch p state inputs stages i tried
      → r.hits ≡ expected_hits p state check_target tried
  unfolding filter_candidates
  filter_candidates-hits check_target inputs stages i [] s r e same = ground arith
  filter_candidates-hits check_target inputs stages i (nonce ∷ tried) s r e same = grind (
    arith,
    filter_candidates-hits check_target inputs stages (i + 1) tried,
    push_same check_target (candidate inputs stages i nonce) nonce tried same.0,
  )

  run_batch-keeps :
      (nonce_base : ℕ) (s t : CudaSearcher c.Device)
      → run_batch c state nonce_base s ≡ ok t
      → (t.batch_size ≡ s.batch_size) × (t.validation_done ≡ s.validation_done)
  unfolding run_batch
  run_batch-keeps nonce_base s t e = ground arith

  first_agrees :
      (check_target : Uint256) (inputs stages : Bytes) (nonce : ℕ) (tried : List ℕ)
      (s : CudaSearcher c.Device) (r : Searched (CudaSearcher c.Device))
      → filter_candidates c p state check_target inputs stages 0 (nonce ∷ tried) s ≡ ok r
      → s.validation_done ≡ false
      → candidate inputs stages 0 nonce ≡ cpu_candidate p state nonce
  unfolding filter_candidates validate_first candidate
  first_agrees check_target inputs stages nonce tried s r e pending =
      stages_agree_sound p state (candidate inputs stages 0 nonce) (grind arith)

  first_differs :
      (check_target : Uint256) (inputs stages : Bytes) (nonce : ℕ) (tried : List ℕ)
      (s : CudaSearcher c.Device)
      → candidate inputs stages 0 nonce ≢ cpu_candidate p state nonce
      → s.validation_done ≡ false
      → filter_candidates c p state check_target inputs stages 0 (nonce ∷ tried) s
        ≡ validation_failed
  unfolding filter_candidates validate_first candidate
  first_differs check_target inputs stages nonce tried s differ pending =
      elim (Bool-cases (stages_agree p state (candidate inputs stages 0 nonce))) [
        | inl agree ↦ absurd (differ (stages_agree_sound p state _ agree))
        | inr disagree ↦ rw (pending, disagree) refl
      ]

  -- On any device, for the first search of a searcher: when it returns, the stages that the device
  -- holds for the first job of the batch are the CPU's, and if those of the other jobs are too, the
  -- hits are exactly the nonces of the batch, in their order, whose proof of work on the CPU is at
  -- most the target, each with that proof of work.
  pub search-checked :
      (nonce_base : ℕ) (check_target : Uint256) (s : CudaSearcher c.Device)
      (r : Searched (CudaSearcher c.Device)) (inputs stages : Bytes) (nonce : ℕ) (tried : List ℕ)
      → search c p state nonce_base check_target s ≡ ok r
      → s.validation_done ≡ false
      → copy_back c s.batch_size r.searcher.device
        ≡ ok (record { inputs = inputs; stages = stages; tried = nonce ∷ tried })
      → StagesMatch p state inputs stages 1 tried
      → (candidate inputs stages 0 nonce ≡ cpu_candidate p state nonce)
        × (r.hits ≡ expected_hits p state check_target (nonce ∷ tried))
  unfolding search
  search-checked nonce_base check_target s r inputs stages nonce tried e pending copied same =
      let loop : Copied → CudaSearcher c.Device → Outcome (Searched (CudaSearcher c.Device)) =
        λ x t. filter_candidates c p state check_target x.inputs x.stages 0 x.tried t in
      let first =
        >>=-eq-ok (run_batch c state nonce_base s)
          (λ t. copy_back c t.batch_size t.device >>= λ x. loop x t) e in
      let t = first.0 in
      let second = >>=-eq-ok (copy_back c t.batch_size t.device) (λ x. loop x t) first.2 in
      let x = second.0 in
      let kept = filter_candidates-keeps check_target x.inputs x.stages 0 x.tried t r second.2 in
      let ran = run_batch-keeps nonce_base s t first.1 in
      let read =
        ok-injective (sym second.1 ∙ ap₂ (λ n d. copy_back c n d) ran.0 (sym kept.0) ∙ copied) in
      let looped = sym (ap (λ y. loop y t) read) ∙ second.2 in
      let agree =
        first_agrees check_target inputs stages nonce tried t r looped (ran.1 ∙ pending) in
      (
        agree,
        filter_candidates-hits check_target inputs stages 0 (nonce ∷ tried) t r looped
            (agree, same),
      )

  -- On any device: if the first search of a searcher runs its batch and copies it back, and the
  -- stages of the first job are not the CPU's, the search is refused with the error of the check,
  -- whatever the other jobs hold.
  pub search-rejects :
      (nonce_base : ℕ) (check_target : Uint256) (s t : CudaSearcher c.Device)
      (inputs stages : Bytes) (nonce : ℕ) (tried : List ℕ)
      → run_batch c state nonce_base s ≡ ok t
      → copy_back c t.batch_size t.device
        ≡ ok (record { inputs = inputs; stages = stages; tried = nonce ∷ tried })
      → candidate inputs stages 0 nonce ≢ cpu_candidate p state nonce
      → s.validation_done ≡ false
      → search c p state nonce_base check_target s ≡ validation_failed
  unfolding search
  search-rejects nonce_base check_target s t inputs stages nonce tried run copied differ pending =
      let kept = run_batch-keeps nonce_base s t run in
      rw (run, copied)
        (first_differs check_target inputs stages nonce tried t differ (kept.1 ∙ pending))
