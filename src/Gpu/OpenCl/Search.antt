-- ===== src/Gpu/OpenCl/Search.antt =====
-- `export_and_filter_candidates` and `search` of src/gpu.rs.
use velkar_gpu.Base.{
  ℕ, ◌+◌, ◌-◌, ◌*◌, true, not, ◌&&◌, List, [], ◌∷◌, ◌==◌, if◌then◌else◌, Outcome, ok, ◌>>=◌, expect,
}
use velkar_gpu.Word.{Bytes}
use velkar_gpu.Target.{Uint256}
use velkar_gpu.Packages.{Packages}
use velkar_gpu.Pow.State.{State}
use velkar_gpu.Gpu.{Searched, Candidate, candidate, chunk, argon2_block_bytes, job_input_bytes}
use velkar_gpu.Gpu.FirstBlocks.{digest_long_cpu}
use velkar_gpu.Gpu.Candidates.{stages_agree, push_hit}
use velkar_gpu.Gpu.OpenCl.{
  OpenCl, OpenClSearcher, validation_passed, validation_mismatch, report, with_device, buffer,
  word64, memory, job_inputs_buffer, stage4_buffer, nonce_out_buffer, export_kernel, set_args,
  upload_constants, prepare_jobs, run_init_kernel, validate_initial_blocks_once, run_argon_kernel,
  diagnose_argon_memory,
}

-- What is read back from the device when its kernels have finished.
pub record Exported (Device : Type 0) : Type 0 where
  pub device : Device
  pub job_inputs : Bytes
  pub stage4 : Bytes
  pub nonces : List ℕ

module _ (o : OpenCl) (p : Packages) {Body : Type 0} (state : State Body) where
  -- The checks of the first candidate of the first search; a mismatch is only logged.
  unfoldable pub validate_candidate :
      (input : Bytes) → Candidate → OpenClSearcher o.Device → Outcome (OpenClSearcher o.Device)
  unfolding stages_agree
  validate_candidate input c s = do
    gpu_last_block ←
        o.read memory (s.memory_per_job - argon2_block_bytes) argon2_block_bytes s.device
    cpu_digest_of_gpu_last ← expect (digest_long_cpu p.blake2b 32 gpu_last_block)
    s' ← diagnose_argon_memory o p.argon2 input s
    ok (
        report
          (if stages_agree p state c
            then validation_passed c.nonce
            else validation_mismatch c.nonce)
          (record s' { full_validation_done = true }))

  -- `if i == 0 && !self.full_validation_done`
  unfoldable pub validate_first :
      ℕ → (input : Bytes) → Candidate → OpenClSearcher o.Device → Outcome (OpenClSearcher o.Device)
  validate_first i input c s =
      if i == 0 && not s.full_validation_done then validate_candidate input c s else ok s

  -- The loop over the nonces, from job `i` on.
  unfoldable pub filter_candidates :
      (check_target : Uint256) (job_inputs stage4 : Bytes) (i : ℕ)
      → List ℕ
      → OpenClSearcher o.Device
      → Outcome (Searched (OpenClSearcher o.Device))
  filter_candidates check_target job_inputs stage4 i [] s = ok (record { searcher = s; hits = [] })
  filter_candidates check_target job_inputs stage4 i (nonce ∷ nonces) s = do
    let c = candidate job_inputs stage4 i nonce
    s' ← validate_first i (chunk job_input_bytes i job_inputs) c s
    r ← filter_candidates check_target job_inputs stage4 (i + 1) nonces s'
    ok (record r { hits = push_hit p state check_target c r.hits })

  -- The reads of `export_and_filter_candidates`, and the loop over what they give.
  abbrev pub read_back : (batch_size : ℕ) → o.Device → Outcome (Exported o.Device)
  read_back batch_size finished =
      o.read job_inputs_buffer 0 (job_input_bytes * batch_size) finished >>= λ job_inputs.
      o.read stage4_buffer 0 (32 * batch_size) finished >>= λ stage4.
      o.read_words nonce_out_buffer batch_size finished >>= λ nonces.
      ok (record { device = finished; job_inputs = job_inputs; stage4 = stage4; nonces = nonces })

  abbrev pub filter_exported :
      Uint256
      → OpenClSearcher o.Device
      → Exported o.Device
      → Outcome (Searched (OpenClSearcher o.Device))
  filter_exported check_target s x =
      filter_candidates check_target x.job_inputs x.stage4 0 x.nonces (with_device s x.device)

  unfoldable pub export_and_filter_candidates :
      Uint256 → OpenClSearcher o.Device → Outcome (Searched (OpenClSearcher o.Device))
  export_and_filter_candidates check_target s = do
    d ←
        set_args o export_kernel 0
          (buffer memory
            ∷ buffer job_inputs_buffer
            ∷ buffer stage4_buffer
            ∷ buffer nonce_out_buffer
            ∷ word64 s.memory_per_job
            ∷ word64 job_input_bytes
            ∷ [])
          s.device
    d' ← o.enqueue_nd_range_kernel export_kernel (s.batch_size ∷ []) [] d
    finished ← o.finish d'
    x ← read_back s.batch_size finished
    filter_exported check_target s x

  unfoldable pub search :
      (nonce_base : ℕ)
      → Uint256
      → OpenClSearcher o.Device
      → Outcome (Searched (OpenClSearcher o.Device))
  search nonce_base check_target s = do
    uploaded ← upload_constants o state s
    prepared ← prepare_jobs o state nonce_base uploaded
    initialised ← run_init_kernel o prepared
    validated ← validate_initial_blocks_once o p initialised
    filled ← run_argon_kernel o validated
    export_and_filter_candidates check_target filled
