-- ===== src/Gpu/OpenCl/Steps.antt =====
-- What the steps of a search leave of the searcher beside the device.
use velkar_gpu.Base.{ℕ, ◌≡◌, arith, true, ok}
use velkar_gpu.Word.{Bytes}
use velkar_gpu.Packages.{Packages}
use velkar_gpu.Pow.State.{State}
use velkar_gpu.Gpu.{Candidate}
use velkar_gpu.Gpu.OpenCl.{
  OpenCl, OpenClSearcher, diagnose_argon_memory, upload_constants, prepare_jobs, run_init_kernel,
  validate_initial_blocks_once, run_argon_kernel,
}
use velkar_gpu.Gpu.OpenCl.Search.{validate_candidate, validate_first}

-- The sizes of a searcher stay as they are.
pub record SameSizes {Device : Type 0} (s t : OpenClSearcher Device) : Type 0 where
  pub memory_per_job : t.memory_per_job ≡ s.memory_per_job
  pub jobs_per_block : t.jobs_per_block ≡ s.jobs_per_block
  pub batch_size : t.batch_size ≡ s.batch_size

-- So do the flags and the log.
pub record SameChecks {Device : Type 0} (s t : OpenClSearcher Device) : Type 0 where
  pub initial : t.initial_validation_done ≡ s.initial_validation_done
  pub full : t.full_validation_done ≡ s.full_validation_done
  pub notices : t.notices ≡ s.notices

module _ (o : OpenCl) where
  pub run_init_kernel-keeps :
      (s t : OpenClSearcher o.Device) → run_init_kernel o s ≡ ok t → SameSizes s t × SameChecks s t
  unfolding run_init_kernel
  run_init_kernel-keeps s t e = ground arith

  pub run_argon_kernel-keeps :
      (s t : OpenClSearcher o.Device) → run_argon_kernel o s ≡ ok t → SameSizes s t × SameChecks s t
  unfolding run_argon_kernel
  run_argon_kernel-keeps s t e = ground arith

  pub validate_initial_blocks_once-keeps :
      (p : Packages) (s t : OpenClSearcher o.Device)
      → validate_initial_blocks_once o p s ≡ ok t
      → SameSizes s t
        × (t.initial_validation_done ≡ true)
        × (t.full_validation_done ≡ s.full_validation_done)
        × (s.initial_validation_done ≡ true → t.notices ≡ s.notices)
  unfolding validate_initial_blocks_once
  validate_initial_blocks_once-keeps p s t e = ground arith

module _ (o : OpenCl) {Body : Type 0} (state : State Body) where
  pub upload_constants-keeps :
      (s t : OpenClSearcher o.Device)
      → upload_constants o state s ≡ ok t
      → SameSizes s t × SameChecks s t
  unfolding upload_constants
  upload_constants-keeps s t e = ground arith

  pub prepare_jobs-keeps :
      (nonce_base : ℕ) (s t : OpenClSearcher o.Device)
      → prepare_jobs o state nonce_base s ≡ ok t
      → SameSizes s t × SameChecks s t
  unfolding prepare_jobs
  prepare_jobs-keeps nonce_base s t e = ground arith

module _ (o : OpenCl) (p : Packages) {Body : Type 0} (state : State Body) where
  validate_candidate-keeps :
      (input : Bytes) (c : Candidate) (s t : OpenClSearcher o.Device)
      → validate_candidate o p state input c s ≡ ok t
      → SameSizes s t
        × (t.device ≡ s.device)
        × (t.initial_validation_done ≡ s.initial_validation_done)
        × (t.full_validation_done ≡ true)
  unfolding validate_candidate diagnose_argon_memory
  validate_candidate-keeps input c s t e = ground arith

  pub validate_first-keeps :
      (i : ℕ) (input : Bytes) (c : Candidate) (s t : OpenClSearcher o.Device)
      → validate_first o p state i input c s ≡ ok t
      → SameSizes s t
        × (t.device ≡ s.device)
        × (t.initial_validation_done ≡ s.initial_validation_done)
        × (s.full_validation_done ≡ true
            → (t.full_validation_done ≡ true) × (t.notices ≡ s.notices))
        × (i ≡ 0 → t.full_validation_done ≡ true)
  unfolding validate_first
  validate_first-keeps i input c s t e = grind (arith, validate_candidate-keeps)
