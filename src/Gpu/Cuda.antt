-- ===== src/Gpu/Cuda.antt =====
-- `CudaSearcher` of src/cuda.rs over a device that is a parameter: its module, its stream and its
-- buffers.
pub mod Checked
pub mod Start
use velkar_gpu.Base.{
  ℕ, ◌+◌, ◌*◌, ◌/◌, ◌≡◌, Bool, true, false, not, ◌&&◌, List, [], ◌∷◌, ◌++◌, length, ◌==◌,
  if◌then◌else◌, Outcome, ok, err, ◌>>=◌, ◌>>◌, message,
}
use velkar_gpu.Word.{Bytes}
use velkar_gpu.Target.{Uint256}
use velkar_gpu.Packages.{Packages}
use velkar_gpu.Pow.State.{State, gpu_hash_header, gpu_matrix_u16_le_bytes}
use velkar_gpu.Gpu.{
  Searched, Candidate, candidate, job_input_bytes, memory_per_job_bytes, argon_memory_kib,
  helper_block,
}
use velkar_gpu.Gpu.Candidates.{stages_agree, push_hit}

pub data CudaBuffer : Type 0 where
  memory : CudaBuffer
  constants : CudaBuffer
  job_inputs : CudaBuffer
  stage4 : CudaBuffer
  nonces : CudaBuffer
  refs : CudaBuffer
  shuffle_scratch : CudaBuffer

pub data Function : Type 0 where
  velkar_prepare_jobs : Function
  velkar_init_first_blocks : Function
  argon2_kernel_oneshot_precompute : Function
  velkar_export_stage4 : Function
  argon2_precompute_kernel : Function

pub data CudaArg : Type 0 where
  device_ptr : CudaBuffer → CudaArg
  word64 : ℕ → CudaArg
  word32 : ℕ → CudaArg

-- A grid, or a block.
pub record Dim : Type 0 where
  pub x : ℕ
  pub y : ℕ
  pub z : ℕ

-- The crate `cust`: a device with its module, its stream and its buffers. A copy of a buffer of
-- `n` items gives `n` items.
pub record Cust : Type 1 where
  pub Device : Type 0
  pub get_function : Function → Device → Outcome (Unit {0})
  pub copy_from : CudaBuffer → Bytes → Device → Outcome Device
  pub launch : Function → (grid block : Dim) → List CudaArg → Device → Outcome Device
  pub synchronize : Device → Outcome Device
  pub copy_to : CudaBuffer → (n : ℕ) → Device → Outcome Bytes
  pub copy_words_to : CudaBuffer → (n : ℕ) → Device → Outcome (List ℕ)
  pub length-copy_to :
      (b : CudaBuffer) (n : ℕ) (d : Device) (bytes : Bytes)
      → copy_to b n d ≡ ok bytes
      → length bytes ≡ n
  pub length-copy_words_to :
      (b : CudaBuffer) (n : ℕ) (d : Device) (ws : List ℕ)
      → copy_words_to b n d ≡ ok ws
      → length ws ≡ n

pub record CudaSearcher (Device : Type 0) : Type 0 where
  pub device : Device
  pub batch_size : ℕ
  pub validation_done : Bool

-- What is copied back when the stream is synchronized.
pub record Copied : Type 0 where
  pub inputs : Bytes
  pub stages : Bytes
  pub tried : List ℕ

-- The error of a first candidate whose stages differ, without the values that it prints.
abbrev pub validation_failed {ℓ} : {A : Type ℓ} → Outcome A
validation_failed = err (message "CUDA Velkar startup validation failed")

abbrev with_device : {Device : Type 0} → CudaSearcher Device → Device → CudaSearcher Device
with_device s d = record s { device = d }

module _ (c : Cust) {Body : Type 0} (state : State Body) where
  -- The launches of `search`, on the grid of the helper kernels.
  unfoldable pub launch_all :
      (nonce_base batch_size : ℕ) → (grid_1d block_1d : Dim) → c.Device → Outcome c.Device
  launch_all nonce_base batch_size grid_1d block_1d d = do
    let target = state.block_target
    prepared ←
        c.launch velkar_prepare_jobs grid_1d block_1d
          (device_ptr job_inputs
            ∷ device_ptr constants
            ∷ word64 job_input_bytes
            ∷ word64 nonce_base
            ∷ word64 state.nonce_mask
            ∷ word64 state.nonce_fixed
            ∷ word64 target.w0
            ∷ word64 target.w1
            ∷ word64 target.w2
            ∷ word64 target.w3
            ∷ [])
          d
    initialised ←
        c.launch velkar_init_first_blocks grid_1d block_1d
          (device_ptr memory
            ∷ device_ptr job_inputs
            ∷ word64 memory_per_job_bytes
            ∷ word64 job_input_bytes
            ∷ [])
          prepared
    filled ←
        c.launch argon2_kernel_oneshot_precompute (record { x = 1; y = batch_size; z = 1 })
          (record { x = 32; y = 1; z = 1 })
          (device_ptr shuffle_scratch
            ∷ device_ptr memory
            ∷ device_ptr refs
            ∷ word32 1
            ∷ word32 1
            ∷ word32 (argon_memory_kib / 4)
            ∷ [])
          initialised
    c.launch velkar_export_stage4 grid_1d block_1d
        (device_ptr memory
          ∷ device_ptr job_inputs
          ∷ device_ptr stage4
          ∷ device_ptr nonces
          ∷ word64 memory_per_job_bytes
          ∷ word64 job_input_bytes
          ∷ [])
        filled

  -- `search` up to `synchronize`.
  unfoldable pub run_batch :
      (nonce_base : ℕ) → CudaSearcher c.Device → Outcome (CudaSearcher c.Device)
  run_batch nonce_base s = do
    d ← c.copy_from constants (gpu_hash_header state ++ gpu_matrix_u16_le_bytes state) s.device
    c.get_function velkar_prepare_jobs d
    c.get_function velkar_init_first_blocks d
    c.get_function argon2_kernel_oneshot_precompute d
    c.get_function velkar_export_stage4 d
    block ← helper_block s.batch_size
    launched ←
        launch_all nonce_base s.batch_size (record { x = s.batch_size / block; y = 1; z = 1 })
          (record { x = block; y = 1; z = 1 }) d
    finished ← c.synchronize launched
    ok (with_device s finished)

module _ (c : Cust) where
  unfoldable pub copy_back : (batch_size : ℕ) → c.Device → Outcome Copied
  copy_back batch_size d = do
    inputs ← c.copy_to job_inputs (job_input_bytes * batch_size) d
    stages ← c.copy_to stage4 (32 * batch_size) d
    tried ← c.copy_words_to nonces batch_size d
    ok (record { inputs = inputs; stages = stages; tried = tried })

module _ (c : Cust) (p : Packages) {Body : Type 0} (state : State Body) where
  -- The check of the first candidate of the first search.
  unfoldable pub validate_first :
      ℕ → Candidate → CudaSearcher c.Device → Outcome (CudaSearcher c.Device)
  validate_first i a s =
      if i == 0 && not s.validation_done
      then if stages_agree p state a
        then ok (record s { validation_done = true })
        else validation_failed
      else ok s

  -- The loop over the nonces, from job `i` on.
  unfoldable pub filter_candidates :
      (check_target : Uint256) (inputs stages : Bytes) (i : ℕ)
      → List ℕ
      → CudaSearcher c.Device
      → Outcome (Searched (CudaSearcher c.Device))
  filter_candidates check_target inputs stages i [] s = ok (record { searcher = s; hits = [] })
  filter_candidates check_target inputs stages i (nonce ∷ tried) s = do
    let a = candidate inputs stages i nonce
    s' ← validate_first i a s
    r ← filter_candidates check_target inputs stages (i + 1) tried s'
    ok (record r { hits = push_hit p state check_target a r.hits })

  unfoldable pub search :
      (nonce_base : ℕ)
      → Uint256
      → CudaSearcher c.Device
      → Outcome (Searched (CudaSearcher c.Device))
  search nonce_base check_target s = do
    s' ← run_batch c state nonce_base s
    x ← copy_back c s'.batch_size s'.device
    filter_candidates check_target x.inputs x.stages 0 x.tried s'
