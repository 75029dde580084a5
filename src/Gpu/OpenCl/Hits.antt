-- ===== src/Gpu/OpenCl/Hits.antt =====
-- What a search of the OpenCL searcher finds, for every device.
use velkar_gpu.Base.{
  ℕ, ◌+◌, ◌*◌, ◌≡◌, sym, ap, ◌∙◌, arith, true, List, [], ◌∷◌, length, ◌≤◌, Outcome, ok, ◌>>=◌,
  >>=-eq-ok, ok-injective,
}
use velkar_gpu.Word.{Bytes}
use velkar_gpu.Target.{Uint256, le}
use velkar_gpu.Packages.{Packages}
use velkar_gpu.Pow.State.{State, calculate_pow}
use velkar_gpu.Gpu.{Searched, candidate, chunk, hit_if, job_input_bytes}
use velkar_gpu.Gpu.Candidates.{push_hit}
use velkar_gpu.Gpu.Expected.{StagesMatch, expected_hits, push_hit-cpu}
use velkar_gpu.Gpu.OpenCl.{
  OpenCl, OpenClSearcher, job_inputs_buffer, stage4_buffer, nonce_out_buffer,
}
use velkar_gpu.Gpu.OpenCl.Steps.{
  SameSizes, upload_constants-keeps, prepare_jobs-keeps, run_init_kernel-keeps,
  validate_initial_blocks_once-keeps, run_argon_kernel-keeps, validate_first-keeps,
}
use velkar_gpu.Gpu.OpenCl.Search.{
  validate_first, filter_candidates, export_and_filter_candidates, search,
}

module _ (o : OpenCl) (p : Packages) {Body : Type 0} (state : State Body) where
  filter_candidates-hits :
      (check_target : Uint256) (job_inputs stage4 : Bytes) (i : ℕ) (nonces : List ℕ)
      (s : OpenClSearcher o.Device) (r : Searched (OpenClSearcher o.Device))
      → filter_candidates o p state check_target job_inputs stage4 i nonces s ≡ ok r
      → StagesMatch p state job_inputs stage4 i nonces
      → r.hits ≡ expected_hits p state check_target nonces
  unfolding filter_candidates
  filter_candidates-hits check_target job_inputs stage4 i [] s r e same =
      ap (λ t. t.hits) (sym (ok-injective e))
  filter_candidates-hits check_target job_inputs stage4 i (nonce ∷ nonces) s r e same =
      let c = candidate job_inputs stage4 i nonce in
      let push : Searched (OpenClSearcher o.Device) → Outcome (Searched (OpenClSearcher o.Device)) =
        λ x. ok (record x { hits = push_hit p state check_target c x.hits }) in
      let checked =
        >>=-eq-ok (validate_first o p state i (chunk job_input_bytes i job_inputs) c s)
          (λ s'.
            filter_candidates o p state check_target job_inputs stage4 (i + 1) nonces s' >>= push)
          e in
      let rest =
        >>=-eq-ok
          (filter_candidates o p state check_target job_inputs stage4 (i + 1) nonces checked.0) push
          checked.2 in
      let tail =
        filter_candidates-hits check_target job_inputs stage4 (i + 1) nonces checked.0 rest.0 rest.1
          same.1 in
      ap (λ t. t.hits) (sym (ok-injective rest.2))
      ∙ ap (λ t. push_hit p state check_target t rest.0.hits) same.0
      ∙ push_hit-cpu p state check_target nonce rest.0.hits
      ∙ ap
          (λ t.
            hit_if (le (calculate_pow p (record state { nonce = nonce })) check_target)
              (record { nonce = nonce; pow = calculate_pow p (record state { nonce = nonce }) }) t)
          tail

  filter_candidates-keeps :
      (check_target : Uint256) (job_inputs stage4 : Bytes) (i : ℕ) (nonces : List ℕ)
      (s : OpenClSearcher o.Device) (r : Searched (OpenClSearcher o.Device))
      → filter_candidates o p state check_target job_inputs stage4 i nonces s ≡ ok r
      → SameSizes s r.searcher
        × (r.searcher.device ≡ s.device)
        × (r.searcher.initial_validation_done ≡ s.initial_validation_done)
        × (s.full_validation_done ≡ true
            → (r.searcher.full_validation_done ≡ true) × (r.searcher.notices ≡ s.notices))
  unfolding filter_candidates
  filter_candidates-keeps check_target job_inputs stage4 i [] s r e = ground arith
  filter_candidates-keeps check_target job_inputs stage4 i (nonce ∷ nonces) s r e = grind (
    arith,
    validate_first-keeps,
    filter_candidates-keeps check_target job_inputs stage4 (i + 1) nonces,
  )

  filter_candidates-validates :
      (check_target : Uint256) (job_inputs stage4 : Bytes) (nonces : List ℕ)
      (s : OpenClSearcher o.Device) (r : Searched (OpenClSearcher o.Device))
      → filter_candidates o p state check_target job_inputs stage4 0 nonces s ≡ ok r
      → 1 ≤ length nonces
      → r.searcher.full_validation_done ≡ true
  unfolding filter_candidates
  filter_candidates-validates check_target job_inputs stage4 [] s r e h = absurd (omega arith)
  filter_candidates-validates check_target job_inputs stage4 (nonce ∷ nonces) s r e h =
      grind (arith, validate_first-keeps, filter_candidates-keeps)

  export-hits :
      (check_target : Uint256) (s : OpenClSearcher o.Device)
      (r : Searched (OpenClSearcher o.Device)) (job_inputs stage4 : Bytes) (nonces : List ℕ)
      → export_and_filter_candidates o p state check_target s ≡ ok r
      → o.read job_inputs_buffer 0 (job_input_bytes * s.batch_size) r.searcher.device
        ≡ ok job_inputs
      → o.read stage4_buffer 0 (32 * s.batch_size) r.searcher.device ≡ ok stage4
      → o.read_words nonce_out_buffer s.batch_size r.searcher.device ≡ ok nonces
      → StagesMatch p state job_inputs stage4 0 nonces
      → r.hits ≡ expected_hits p state check_target nonces
  unfolding export_and_filter_candidates
  export-hits check_target s r job_inputs stage4 nonces e h1 h2 h3 same =
      grind (arith, filter_candidates-hits, filter_candidates-keeps)

  -- On any device: when a search returns, and what the device then holds for each job of the batch
  -- are the stages that the CPU computes for the job's nonce, the hits are exactly the nonces of the
  -- batch, in their order, whose proof of work on the CPU is at most the target, each with that
  -- proof of work.
  pub search-hits :
      (nonce_base : ℕ) (check_target : Uint256) (s : OpenClSearcher o.Device)
      (r : Searched (OpenClSearcher o.Device)) (job_inputs stage4 : Bytes) (nonces : List ℕ)
      → search o p state nonce_base check_target s ≡ ok r
      → o.read job_inputs_buffer 0 (job_input_bytes * s.batch_size) r.searcher.device
        ≡ ok job_inputs
      → o.read stage4_buffer 0 (32 * s.batch_size) r.searcher.device ≡ ok stage4
      → o.read_words nonce_out_buffer s.batch_size r.searcher.device ≡ ok nonces
      → StagesMatch p state job_inputs stage4 0 nonces
      → r.hits ≡ expected_hits p state check_target nonces
  unfolding search
  search-hits nonce_base check_target s r job_inputs stage4 nonces e h1 h2 h3 same = grind (
    arith, export-hits, upload_constants-keeps, prepare_jobs-keeps, run_init_kernel-keeps,
    validate_initial_blocks_once-keeps, run_argon_kernel-keeps,
  )

  export-checks :
      (check_target : Uint256) (s : OpenClSearcher o.Device)
      (r : Searched (OpenClSearcher o.Device))
      → export_and_filter_candidates o p state check_target s ≡ ok r
      → 1 ≤ s.batch_size
      → SameSizes s r.searcher
        × (r.searcher.initial_validation_done ≡ s.initial_validation_done)
        × (r.searcher.full_validation_done ≡ true)
        × (s.full_validation_done ≡ true → r.searcher.notices ≡ s.notices)
  unfolding export_and_filter_candidates
  export-checks check_target s r e h =
      grind (arith, filter_candidates-keeps, filter_candidates-validates, o.length-read_words)

  search-checks :
      (nonce_base : ℕ) (check_target : Uint256) (s : OpenClSearcher o.Device)
      (r : Searched (OpenClSearcher o.Device))
      → search o p state nonce_base check_target s ≡ ok r
      → 1 ≤ s.batch_size
      → SameSizes s r.searcher
        × (r.searcher.initial_validation_done ≡ true)
        × (r.searcher.full_validation_done ≡ true)
        × (s.initial_validation_done ≡ true
            → s.full_validation_done ≡ true
            → r.searcher.notices ≡ s.notices)
  unfolding search
  search-checks nonce_base check_target s r e h = grind (
    arith, export-checks, upload_constants-keeps, prepare_jobs-keeps, run_init_kernel-keeps,
    validate_initial_blocks_once-keeps, run_argon_kernel-keeps,
  )

-- On any device, for two searches in a row that return, whatever jobs they are for: both leave the
-- sizes of the searcher as they are, the first leaves both checks against the CPU done, and the
-- second repeats neither and logs nothing about them.
pub search_validates_once :
    (o : OpenCl) (p : Packages) {Body : Type 0} (state state' : State Body) (base base' : ℕ)
    (target target' : Uint256) (s : OpenClSearcher o.Device)
    (r q : Searched (OpenClSearcher o.Device))
    → 1 ≤ s.batch_size
    → search o p state base target s ≡ ok r
    → search o p state' base' target' r.searcher ≡ ok q
    → SameSizes s q.searcher
      × (r.searcher.initial_validation_done ≡ true)
      × (r.searcher.full_validation_done ≡ true)
      × (q.searcher.notices ≡ r.searcher.notices)
search_validates_once o p state state' base base' target target' s r q h e e' =
    let first = search-checks o p state base target s r e h in
    let second = search-checks o p state' base' target' r.searcher q e' (rw first.0.batch_size h) in
    (
      record {
        memory_per_job = second.0.memory_per_job ∙ first.0.memory_per_job;
        jobs_per_block = second.0.jobs_per_block ∙ first.0.jobs_per_block;
        batch_size = second.0.batch_size ∙ first.0.batch_size;
      },
      first.1,
      first.2,
      second.3 first.1 first.2,
    )
