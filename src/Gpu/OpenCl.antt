-- ===== src/Gpu/OpenCl.antt =====
-- `OpenClSearcher` of src/gpu.rs over a device that is a parameter: the calls of its queue, its
-- kernels and its buffers. What the searcher logs of its validations is kept as a list.
pub mod Search
pub mod Steps
pub mod Hits
pub mod Start
use mathlib.Core.Option
use velkar_gpu.Base.{
  ℕ, zero, suc, ◌+◌, ◌-◌, ◌*◌, ◌/◌, ◌≡◌, Bool, true, false, not, ◌&&◌, List, [], ◌∷◌, ◌++◌, Option,
  none, some, length, take, drop, replicate, ◌==◌, if◌then◌else◌, Outcome, ok, ◌>>=◌, expect,
}
use velkar_gpu.Word.{Bytes, from_le_bytes}
use velkar_gpu.Text.{bytes_eq}
use velkar_gpu.Target.{Uint256, to_le_u64, uint256_eq, zero_target, le}
use velkar_gpu.Packages.{Packages, Argon2}
use velkar_gpu.Pow.State.{
  State, gpu_hash_header, gpu_matrix_u16_le_bytes, stage1_for_nonce, stage2_for_stage1,
  stage3_for_stage2, cpu_stage4_from_parts, calculate_pow_from_gpu_stage4,
}
use velkar_gpu.Gpu.{
  GpuHit, Searched, hit_if, Candidate, candidate, argon_memory_kib, argon_time_cost, argon_lanes,
  argon2_block_bytes, threads_per_lane, job_input_bytes, segment_blocks,
}
use velkar_gpu.Gpu.FirstBlocks.{fill_first_blocks_cpu, digest_long_cpu}

pub data Buffer : Type 0 where
  memory : Buffer
  constants_buffer : Buffer
  job_inputs_buffer : Buffer
  found_nonces_buffer : Buffer
  stage4_buffer : Buffer
  nonce_out_buffer : Buffer
  refs_buffer : Buffer

pub data Kernel : Type 0 where
  argon_kernel : Kernel
  prepare_kernel : Kernel
  init_kernel : Kernel
  finalize_kernel : Kernel
  export_kernel : Kernel
  precompute_kernel : Kernel

pub data Arg : Type 0 where
  buffer : Buffer → Arg
  word64 : ℕ → Arg
  word32 : ℕ → Arg
  local_buffer : ℕ → Arg

-- The crate `opencl3`: a device with its in-order queue, the arguments of its kernels and its
-- buffers. A blocking read of `n` items gives `n` items.
pub record OpenCl : Type 1 where
  pub Device : Type 0
  pub set_arg : Kernel → (index : ℕ) → Arg → Device → Outcome Device
  pub enqueue_nd_range_kernel :
      Kernel → (global_work_sizes local_work_sizes : List ℕ) → Device → Outcome Device
  pub finish : Device → Outcome Device
  pub write : Buffer → Bytes → Device → Outcome Device
  pub write_words : Buffer → List ℕ → Device → Outcome Device
  pub read : Buffer → (offset n : ℕ) → Device → Outcome Bytes
  pub read_words : Buffer → (n : ℕ) → Device → Outcome (List ℕ)
  pub length-read :
      (b : Buffer) (offset n : ℕ) (d : Device) (bytes : Bytes)
      → read b offset n d ≡ ok bytes
      → length bytes ≡ n
  pub length-read_words :
      (b : Buffer) (n : ℕ) (d : Device) (ws : List ℕ) → read_words b n d ≡ ok ws → length ws ≡ n

-- What the searcher writes to the log about its checks against the CPU.
pub data Notice : Type 0 where
  initial_blocks_match : Notice
  initial_block_mismatch : Notice
  memory_matches : Notice
  memory_divergence : (block_index word_index : ℕ) → Notice
  validation_passed : (nonce : ℕ) → Notice
  validation_mismatch : (nonce : ℕ) → Notice

pub record OpenClSearcher (Device : Type 0) : Type 0 where
  pub device : Device
  pub memory_per_job : ℕ
  pub jobs_per_block : ℕ
  pub batch_size : ℕ
  pub initial_validation_done : Bool
  pub full_validation_done : Bool
  pub notices : List Notice

-- The device of a searcher after a call of its queue.
abbrev pub with_device : {Device : Type 0} → OpenClSearcher Device → Device → OpenClSearcher Device
with_device s d = record s { device = d }

-- The words of a target, as arguments.
abbrev target_args : Uint256 → List Arg
target_args target = word64 target.w0 ∷ word64 target.w1 ∷ word64 target.w2 ∷ word64 target.w3 ∷ []

-- `info!` and `warn!`
abbrev pub report : {Device : Type 0} → Notice → OpenClSearcher Device → OpenClSearcher Device
report n s = record s { notices = s.notices ++ n ∷ [] }

-- The nested loops of `diagnose_argon_memory`: the first word of a block, and of the blocks, that
-- differs from the device's.
unfoldable pub diverging_word :
    (gpu_memory : Bytes) (block_index word_index : ℕ) → List ℕ → Option Notice
diverging_word gpu_memory block_index word_index [] = none
diverging_word gpu_memory block_index word_index (cpu_word ∷ words) =
    let byte_offset = block_index * argon2_block_bytes + word_index * 8 in
    let rest = diverging_word gpu_memory block_index (word_index + 1) words in
    if from_le_bytes (take 8 (drop byte_offset gpu_memory)) == cpu_word
    then rest
    else some (memory_divergence block_index word_index)

unfoldable pub diverging_block : (gpu_memory : Bytes) (block_index : ℕ) → List (List ℕ) → Notice
unfolding diverging_word
diverging_block gpu_memory block_index [] = memory_matches
diverging_block gpu_memory block_index (words ∷ blocks) =
    elim (diverging_word gpu_memory block_index 0 words) [
      | some n ↦ n
      | none ↦ diverging_block gpu_memory (block_index + 1) blocks
    ]

module _ (o : OpenCl) where
  -- The calls of `set_arg`, from the index on.
  unfoldable pub set_args : Kernel → (index : ℕ) → List Arg → o.Device → Outcome o.Device
  set_args k index [] d = ok d
  set_args k index (a ∷ args) d = o.set_arg k index a d >>= set_args k (index + 1) args

  unfoldable pub run_init_kernel : OpenClSearcher o.Device → Outcome (OpenClSearcher o.Device)
  unfolding set_args
  run_init_kernel s = do
    d ←
        set_args init_kernel 0
          (buffer memory
            ∷ buffer job_inputs_buffer
            ∷ word64 s.memory_per_job
            ∷ word64 job_input_bytes
            ∷ [])
          s.device
    d' ← o.enqueue_nd_range_kernel init_kernel (s.batch_size ∷ []) [] d
    ok (with_device s d')

  unfoldable pub run_argon_kernel : OpenClSearcher o.Device → Outcome (OpenClSearcher o.Device)
  unfolding set_args
  run_argon_kernel s = do
    let shmem_bytes = threads_per_lane * 1 * s.jobs_per_block * 4 * 2
    d ←
        set_args argon_kernel 0
          (local_buffer shmem_bytes
            ∷ buffer memory
            ∷ buffer refs_buffer
            ∷ word32 argon_time_cost
            ∷ word32 argon_lanes
            ∷ word32 segment_blocks
            ∷ [])
          s.device
    d' ←
        o.enqueue_nd_range_kernel argon_kernel (threads_per_lane * 1 ∷ s.batch_size ∷ [])
          (threads_per_lane * 1 ∷ s.jobs_per_block ∷ []) d
    d'' ← o.finish d'
    ok (with_device s d'')

  -- `validate_initial_blocks_once`; the loops of `fill_first_blocks_cpu` end, so that the `expect`
  -- meets no `none`.
  unfoldable pub validate_initial_blocks_once :
      Packages → OpenClSearcher o.Device → Outcome (OpenClSearcher o.Device)
  validate_initial_blocks_once p s =
      let checked = (do
        input ← o.read job_inputs_buffer 0 job_input_bytes s.device
        gpu_first_blocks ← o.read memory 0 (argon2_block_bytes * 2) s.device
        cpu_first_blocks ←
            expect (fill_first_blocks_cpu p.blake2b (take 72 input) (take 16 (drop 72 input)))
        ok (
            report
              (if bytes_eq gpu_first_blocks cpu_first_blocks
                then initial_blocks_match
                else initial_block_mismatch)
              (record s { initial_validation_done = true }))) in
      if s.initial_validation_done then ok s else checked

  unfoldable pub diagnose_argon_memory :
      Argon2 → Bytes → OpenClSearcher o.Device → Outcome (OpenClSearcher o.Device)
  unfolding diverging_block
  diagnose_argon_memory a input s = do
    gpu_memory ← o.read memory 0 s.memory_per_job s.device
    cpu_memory ←
        a.fill_memory argon_memory_kib argon_time_cost argon_lanes 32 (take 72 input)
          (take 16 (drop 72 input))
    ok (report (diverging_block gpu_memory 0 cpu_memory) s)

-- `into_iter().filter(|nonce| *nonce != 0)`, and the hits made of them.
abbrev found_hits : List ℕ → List GpuHit
found_hits [] = []
found_hits (nonce ∷ nonces) =
    hit_if (not (nonce == 0)) (record { nonce = nonce; pow = zero_target }) (found_hits nonces)

module _ (o : OpenCl) {Body : Type 0} (state : State Body) where
  unfoldable pub upload_constants : OpenClSearcher o.Device → Outcome (OpenClSearcher o.Device)
  upload_constants s = do
    d ← o.write constants_buffer (gpu_hash_header state ++ gpu_matrix_u16_le_bytes state) s.device
    ok (with_device s d)

  unfoldable pub prepare_jobs : ℕ → OpenClSearcher o.Device → Outcome (OpenClSearcher o.Device)
  unfolding set_args
  prepare_jobs nonce_base s = do
    d ←
        set_args o prepare_kernel 0
          (buffer job_inputs_buffer
            ∷ buffer constants_buffer
            ∷ word64 job_input_bytes
            ∷ word64 nonce_base
            ∷ word64 state.nonce_mask
            ∷ word64 state.nonce_fixed
            ∷ target_args state.block_target)
          s.device
    d' ← o.enqueue_nd_range_kernel prepare_kernel (s.batch_size ∷ []) [] d
    ok (with_device s d')

  -- `finalize_candidates`, which nothing calls.
  unfoldable pub finalize_candidates :
      Uint256 → OpenClSearcher o.Device → Outcome (Searched (OpenClSearcher o.Device))
  unfolding set_args
  finalize_candidates check_target s = do
    zeroed ← o.write_words found_nonces_buffer (replicate s.batch_size 0) s.device
    d ←
        set_args o finalize_kernel 0
          (buffer memory
            ∷ buffer job_inputs_buffer
            ∷ buffer found_nonces_buffer
            ∷ word64 s.memory_per_job
            ∷ word64 job_input_bytes
            ∷ (target_args state.block_target ++ target_args check_target))
          zeroed
    d' ← o.enqueue_nd_range_kernel finalize_kernel (s.batch_size ∷ []) [] d
    finished ← o.finish d'
    found ← o.read_words found_nonces_buffer s.batch_size finished
    ok (record { searcher = with_device s finished; hits = found_hits found })
