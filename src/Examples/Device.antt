-- ===== src/Examples/Device.antt =====
-- Devices that compute as the CPU does, and the theorems on the searchers at them.
use mathlib.Core.List
use mathlib.Core.List.{reverse}
use velkar_gpu.Base.{
  ℕ, ◌*◌, ◌/◌, ◌%◌, ◌≤◌, ◌<◌, ◌^◌, ◌≡◌, ◌≢◌, refl, sym, ap, ◌∙◌, arith, true, false, List, [], ◌∷◌,
  ◌++◌, take, length, replicate, length-take, length-append, length-replicate, some, ok,
  ok-injective,
}
use velkar_gpu.Word.{Bytes}
use velkar_gpu.Text.{codes}
use velkar_gpu.Target.{le, cmp, Uint256, le_bytes, of_le_bytes}
use velkar_gpu.Pow.Hasher
use velkar_gpu.Pow.Xoshiro.{next_u64}
use velkar_gpu.Pow.Hasher.{
  pow_initial_state, heavy_initial_state, argon_password, argon_salt, finalize_with_nonce,
  heavy_hasher, memory_hard_hash,
}
use velkar_gpu.Pow.Matrix.{
  fill_row, nibbles, dot, heavy_hash, product, product_byte, rand_matrix_no_rank_check, fill_rows,
}
use velkar_gpu.Word.{rotate_right, rotate_left}
use velkar_gpu.Pow.State.{
  stage1_for_nonce, stage2_for_stage1, stage3_for_stage2, cpu_stage4_from_parts, final_hash,
  mix_words, calculate_pow, calculate_pow_from_gpu_stage4,
}
use velkar_gpu.Gpu.{
  GpuHit, Candidate, candidate, DeviceLimits, opencl_batch_size, opencl_jobs_per_block,
  memory_per_job_bytes, threads_per_lane, cuda_batch_size, helper_block,
}
use velkar_gpu.Gpu.Sizes.{opencl_sizes, cuda_grid_lem}
use velkar_gpu.Gpu.FirstBlocks.{fill_first_blocks_cpu, digest_rest, digest_long_cpu}
use velkar_gpu.Gpu.LongHash.{variable_hash, digest_long_cpu_lem}
use velkar_gpu.Gpu.Candidates.{cpu_candidate, stages_agree, push_hit}
use velkar_gpu.Gpu.Expected.{expected_hits}
use velkar_gpu.Gpu.OpenCl.{
  OpenCl, OpenClSearcher, initial_blocks_match, memory_matches, validation_passed, Buffer, Kernel,
  job_inputs_buffer, stage4_buffer, nonce_out_buffer, memory, constants_buffer, found_nonces_buffer,
  refs_buffer, upload_constants, prepare_jobs, run_init_kernel, run_argon_kernel,
  validate_initial_blocks_once, diagnose_argon_memory, set_args, prepare_kernel, init_kernel,
  argon_kernel, export_kernel,
}
use velkar_gpu.Gpu.OpenCl.Search.{
  search, export_and_filter_candidates, filter_candidates, validate_first, validate_candidate,
}
use velkar_gpu.Gpu.OpenCl.Hits.{search-hits}
use velkar_gpu.Examples.Stub.{packages, some_job_state, zero_blake2b}

abbrev small : DeviceLimits
small = record { max_mem_alloc_size = 2 ^ 28; global_mem_size = 2 ^ 29; max_work_group_size = 256 }

opencl_sizes_example :
    (1 ≤ opencl_batch_size small 1000)
    × (opencl_batch_size small 1000 ≤ 4096)
    × (memory_per_job_bytes * opencl_batch_size small 1000 ≤ 2 ^ 28)
    × (memory_per_job_bytes * opencl_batch_size small 1000 ≤ 2 ^ 29 / 2)
    × (1 ≤ opencl_jobs_per_block small (opencl_batch_size small 1000) (some 5))
    × (opencl_jobs_per_block small (opencl_batch_size small 1000) (some 5) ≤ 32)
    × (opencl_batch_size small 1000
          % opencl_jobs_per_block small (opencl_batch_size small 1000) (some 5)
        ≡ 0)
    × (threads_per_lane * opencl_jobs_per_block small (opencl_batch_size small 1000) (some 5) ≤ 256)
opencl_sizes_example = opencl_sizes small 1000 (some 5) (omega arith) (omega arith) (omega arith)

cuda_grid_example :
    (1 ≤ cuda_batch_size (2 ^ 33) 300)
    × (cuda_batch_size (2 ^ 33) 300 ≤ 4096)
    × ((h : ℕ) × (helper_block (cuda_batch_size (2 ^ 33) 300) ≡ ok h)
        × (1 ≤ h)
        × (h ≤ 256)
        × (cuda_batch_size (2 ^ 33) 300 / h * h ≡ cuda_batch_size (2 ^ 33) 300)
        × ((k : ℕ) → h < k → k ≤ 256 → cuda_batch_size (2 ^ 33) 300 % k ≢ 0))
cuda_grid_example = cuda_grid_lem (2 ^ 33) 300

digest_long_cpu_example :
    (digest_long_cpu zero_blake2b 1024 (codes "block")
      ≡ some (variable_hash zero_blake2b 1024 (codes "block")))
    × (length (variable_hash zero_blake2b 1024 (codes "block")) ≡ 1024)
digest_long_cpu_example = digest_long_cpu_lem zero_blake2b 1024 (codes "block") (omega arith)

-- `n` items that start with the given ones.
abbrev pub fit : ℕ → List ℕ → List ℕ
fit n xs = take n (xs ++ replicate n 0)

pub length-fit : (n : ℕ) (xs : List ℕ) → length (fit n xs) ≡ n
length-fit n xs = omega (
  arith,
  length-take n (xs ++ replicate n 0),
  length-append xs (replicate n 0),
  length-replicate {A = ℕ} n 0,
)

-- The candidate of nonce 5, as the CPU computes it.
unfoldable pub seen : Candidate
unfolding cpu_candidate
seen = cpu_candidate packages some_job_state 5

abbrev pub mirrored : Bytes
mirrored =
    replicate 96 0 ++ (le_bytes seen.stage1 ++ (le_bytes seen.stage2 ++ le_bytes seen.stage3))

abbrev pub read_mirror : Buffer → ℕ → Bytes
read_mirror job_inputs_buffer n = fit n mirrored
read_mirror stage4_buffer n = fit n (le_bytes seen.stage4)
read_mirror memory n = fit n []
read_mirror constants_buffer n = fit n []
read_mirror found_nonces_buffer n = fit n []
read_mirror nonce_out_buffer n = fit n []
read_mirror refs_buffer n = fit n []

pub length-read_mirror : (b : Buffer) (n : ℕ) → length (read_mirror b n) ≡ n
length-read_mirror job_inputs_buffer n = length-fit n mirrored
length-read_mirror stage4_buffer n = length-fit n (le_bytes seen.stage4)
length-read_mirror memory n = length-fit n []
length-read_mirror constants_buffer n = length-fit n []
length-read_mirror found_nonces_buffer n = length-fit n []
length-read_mirror nonce_out_buffer n = length-fit n []
length-read_mirror refs_buffer n = length-fit n []

-- A device that lists the kernels it is given, and holds the stages of nonce 5.
abbrev pub mirror : OpenCl
mirror = record {
  Device = List Kernel;
  set_arg = λ k index a d. ok d;
  enqueue_nd_range_kernel = λ k global local d. ok (d ++ k ∷ []);
  finish = λ d. ok d;
  write = λ b bytes d. ok d;
  write_words = λ b ws d. ok d;
  read = λ b offset n d. ok (read_mirror b n);
  read_words = λ b n d. ok (fit n (5 ∷ []));
  length-read = λ b offset n d bytes e. ap length (ok-injective (sym e)) ∙ length-read_mirror b n;
  length-read_words = λ b n d ws e. ap length (ok-injective (sym e)) ∙ length-fit n (5 ∷ []);
}

abbrev pub idle_searcher : OpenClSearcher (List Kernel)
idle_searcher = record {
  device = [];
  memory_per_job = 2048;
  jobs_per_block = 1;
  batch_size = 1;
  initial_validation_done = false;
  full_validation_done = false;
  notices = [];
}

abbrev pub any_target : Uint256
any_target = record { w0 = 0; w1 = 0; w2 = 0; w3 = 2 ^ 63 }

-- The searcher after its first search: the kernels in their order, and the checks passed.
abbrev pub used_searcher : OpenClSearcher (List Kernel)
used_searcher = record {
  device = prepare_kernel ∷ init_kernel ∷ argon_kernel ∷ export_kernel ∷ [];
  memory_per_job = 2048;
  jobs_per_block = 1;
  batch_size = 1;
  initial_validation_done = true;
  full_validation_done = true;
  notices = initial_blocks_match ∷ memory_matches ∷ validation_passed 5 ∷ [];
}

abbrev pub mirror_hits : List GpuHit
mirror_hits = expected_hits packages some_job_state any_target (5 ∷ [])

searched_once :
    search mirror packages some_job_state 5 any_target idle_searcher
    ≡ ok (record { searcher = used_searcher; hits = mirror_hits })
unfolding search upload_constants prepare_jobs run_init_kernel run_argon_kernel
    validate_initial_blocks_once fill_first_blocks_cpu digest_rest digest_long_cpu
    export_and_filter_candidates filter_candidates validate_first validate_candidate push_hit
    diagnose_argon_memory set_args seen candidate calculate_pow calculate_pow_from_gpu_stage4
    le_bytes of_le_bytes stages_agree stage1_for_nonce stage2_for_stage1 stage3_for_stage2
    cpu_stage4_from_parts finalize_with_nonce heavy_hash heavy_hasher product product_byte
    memory_hard_hash final_hash mix_words rotate_right rand_matrix_no_rank_check fill_rows fill_row
    next_u64 nibbles dot argon_password argon_salt pow_initial_state heavy_initial_state Hasher.new
    cmp le rotate_left List.flat_map reverse
searched_once = refl

mirror_candidate :
    candidate (fit 192 mirrored) (fit 32 (le_bytes seen.stage4)) 0 5
    ≡ cpu_candidate packages some_job_state 5
unfolding search upload_constants prepare_jobs run_init_kernel run_argon_kernel
    validate_initial_blocks_once fill_first_blocks_cpu digest_rest digest_long_cpu
    export_and_filter_candidates filter_candidates validate_first validate_candidate push_hit
    diagnose_argon_memory set_args seen candidate calculate_pow calculate_pow_from_gpu_stage4
    le_bytes of_le_bytes stages_agree stage1_for_nonce stage2_for_stage1 stage3_for_stage2
    cpu_stage4_from_parts finalize_with_nonce heavy_hash heavy_hasher product product_byte
    memory_hard_hash final_hash mix_words rotate_right rand_matrix_no_rank_check fill_rows fill_row
    next_u64 nibbles dot argon_password argon_salt pow_initial_state heavy_initial_state Hasher.new
    cmp le rotate_left List.flat_map reverse
mirror_candidate = refl

search-hits_example : mirror_hits ≡ expected_hits packages some_job_state any_target (5 ∷ [])
search-hits_example =
    search-hits mirror packages some_job_state 5 any_target idle_searcher
      (record { searcher = used_searcher; hits = mirror_hits }) (fit 192 mirrored)
      (fit 32 (le_bytes seen.stage4)) (5 ∷ []) searched_once refl refl refl (mirror_candidate, tt)
