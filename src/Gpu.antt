-- ===== src/Gpu.antt =====
-- src/gpu.rs and src/cuda.rs: the configuration of a GPU searcher, the sizes of its buffers and
-- batches, and a candidate as the device hands it back.
pub mod Sizes
pub mod FirstBlocks
pub mod LongHash
pub mod Candidates
pub mod Expected
pub mod OpenCl
pub mod Cuda
pub mod Searcher
use velkar_gpu.Base.{
  ℕ, zero, suc, ◌+◌, ◌-◌, ◌*◌, ◌/◌, ◌%◌, min, max, Bool, true, false, not, ◌&&◌, List, ◌∷◌, Option,
  none, some, take, drop, get_or, ltb, ◌==◌, if◌then◌else◌, Outcome, ok, err, panic,
}
use velkar_gpu.Base.Chain.{unwrap_or}
use velkar_gpu.Word.{Bytes}
use velkar_gpu.Target.{Uint256, of_le_bytes}

abbrev pub argon_memory_kib : ℕ
argon_memory_kib = 8 * 1024

abbrev pub argon_time_cost : ℕ
argon_time_cost = 1

abbrev pub argon_lanes : ℕ
argon_lanes = 1

abbrev pub argon2_block_bytes : ℕ
argon2_block_bytes = 1024

abbrev pub argon2_sync_points : ℕ
argon2_sync_points = 4

abbrev pub threads_per_lane : ℕ
threads_per_lane = 32

abbrev pub job_input_bytes : ℕ
job_input_bytes = 72 + 16 + 8 + 32 + 32 + 32

abbrev pub constants_bytes : ℕ
constants_bytes = 72 + 64 * 64 * 2

pub data GpuBackend : Type 0 where
  open_cl : GpuBackend
  cuda : GpuBackend

pub record GpuConfig : Type 0 where
  pub backend : GpuBackend
  pub platform_index : Option ℕ
  pub device_index : Option ℕ
  pub batch_size : ℕ
  pub jobs_per_block : Option ℕ

pub record GpuHit : Type 0 where
  pub nonce : ℕ
  pub pow : Uint256

-- `ARGON_MEMORY_KIB / (ARGON2_SYNC_POINTS * ARGON_LANES)`
abbrev pub segment_blocks : ℕ
segment_blocks = argon_memory_kib / (argon2_sync_points * argon_lanes)

abbrev pub memory_per_job_bytes : ℕ
memory_per_job_bytes = segment_blocks * argon2_sync_points * argon2_block_bytes

-- `ARGON2_REFS_PER_BLOCK`, and the address blocks and segments of the reference table.
abbrev pub refs_per_block : ℕ
refs_per_block = argon2_block_bytes / (2 * 4)

abbrev pub segment_addr_blocks : ℕ
segment_addr_blocks = (segment_blocks + refs_per_block - 1) / refs_per_block

abbrev pub reference_segments : ℕ
reference_segments = argon_lanes * (argon2_sync_points / 2)

abbrev pub refs_buffer_bytes : ℕ
refs_buffer_bytes = reference_segments * segment_addr_blocks * refs_per_block * 2 * 4

-- `clamp(low, high)` where `low` is at most `high`.
abbrev pub clamp : ℕ → ℕ → ℕ → ℕ
clamp low high x = max low (min high x)

-- What a device reports, with the defaults of `unwrap_or` put in.
pub record DeviceLimits : Type 0 where
  pub max_mem_alloc_size : ℕ
  pub global_mem_size : ℕ
  pub max_work_group_size : ℕ

unfoldable pub max_jobs_by_mem : DeviceLimits → ℕ
max_jobs_by_mem d =
    clamp 1 4096 (min d.max_mem_alloc_size (d.global_mem_size / 2) / memory_per_job_bytes)

unfoldable pub opencl_batch_size : DeviceLimits → ℕ → ℕ
unfolding max_jobs_by_mem
opencl_batch_size d requested = min (max 1 requested) (max_jobs_by_mem d)

-- `while jobs_per_block > 1 && batch_size % jobs_per_block != 0 { jobs_per_block -= 1; }`
unfoldable pub fit_jobs : (batch jobs : ℕ) → ℕ
fit_jobs batch zero = zero
fit_jobs batch (suc j) =
    let rest = fit_jobs batch j in if ltb 1 (suc j) && not (batch % suc j == 0) then rest else suc j

unfoldable pub opencl_jobs_per_block : DeviceLimits → (batch : ℕ) → Option ℕ → ℕ
unfolding fit_jobs
opencl_jobs_per_block d batch jobs =
    let limit = min (clamp 1 32 (d.max_work_group_size / threads_per_lane)) batch in
    fit_jobs batch (clamp 1 limit (unwrap_or jobs 1))

unfoldable pub cuda_batch_size : (total_memory requested : ℕ) → ℕ
cuda_batch_size total_memory requested =
    min (max requested 1) (clamp 1 4096 (total_memory / 2 / memory_per_job_bytes))

-- `while batch_size % helper_block != 0 { helper_block -= 1; }`; a remainder by 0 panics.
unfoldable pub exact_divisor : (batch block : ℕ) → Outcome ℕ
exact_divisor batch zero = panic
exact_divisor batch (suc b) =
    let rest = exact_divisor batch b in if batch % suc b == 0 then ok (suc b) else rest

unfoldable pub helper_block : ℕ → Outcome ℕ
unfolding exact_divisor
helper_block batch = exact_divisor batch (min batch 256)

-- The stages of job `i` in what was read back from the device, and its nonce.
pub record Candidate : Type 0 where
  pub stage1 : Uint256
  pub stage2 : Uint256
  pub stage3 : Uint256
  pub stage4 : Uint256
  pub nonce : ℕ

-- `&bytes[i * n..(i + 1) * n]`
abbrev pub chunk : (n i : ℕ) → Bytes → Bytes
chunk n i bytes = take n (drop (i * n) bytes)

unfoldable pub candidate : (job_inputs stage4 : Bytes) → (i nonce : ℕ) → Candidate
candidate job_inputs stage4 i nonce =
    let input = chunk job_input_bytes i job_inputs in
    record {
      stage1 = of_le_bytes (take 32 (drop 96 input));
      stage2 = of_le_bytes (take 32 (drop 128 input));
      stage3 = of_le_bytes (take 32 (drop 160 input));
      stage4 = of_le_bytes (chunk 32 i stage4);
      nonce = nonce;
    }

-- A searcher after a search, and the hits.
pub record Searched (S : Type 0) : Type 0 where
  pub searcher : S
  pub hits : List GpuHit

-- `hits.push(GpuHit { nonce, pow })` where the proof of work is at most the target.
abbrev pub hit_if : Bool → GpuHit → List GpuHit → List GpuHit
hit_if true hit hits = hit ∷ hits
hit_if false hit hits = hits
