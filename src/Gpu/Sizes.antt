-- ===== src/Gpu/Sizes.antt =====
-- The sizes of batches and workgroups that src/gpu.rs and src/cuda.rs choose.
use velkar_gpu.Base.{
  ℕ, zero, suc, ◌*◌, ◌/◌, ◌%◌, ◌≤◌, ◌<◌, min, ◌≡◌, ◌≢◌, refl, arith, true, false, Option, ltb, leb,
  ◌==◌, ==_iff, Bool-cases, inl, inr, ok,
}
use velkar_gpu.Base.Chain.{unwrap_or}
use velkar_gpu.Gpu.{
  DeviceLimits, clamp, memory_per_job_bytes, threads_per_lane, opencl_batch_size, fit_jobs,
  opencl_jobs_per_block, cuda_batch_size, exact_divisor, helper_block,
}

clamp_bounds : (low high x : ℕ) → low ≤ high → (low ≤ clamp low high x) × (clamp low high x ≤ high)
clamp_bounds low high x h = omega arith

-- The chosen number divides the batch, is positive, and is not above the start of the search.
fit_jobs_lem :
    (batch jobs : ℕ)
    → 1 ≤ jobs
    → (1 ≤ fit_jobs batch jobs) × (fit_jobs batch jobs ≤ jobs) × (batch % fit_jobs batch jobs ≡ 0)
unfolding fit_jobs
fit_jobs_lem batch zero h = absurd (omega arith)
fit_jobs_lem batch (suc zero) h = (omega arith, omega arith, omega arith)
fit_jobs_lem batch (suc (suc j)) h =
    let below = fit_jobs_lem batch (suc j) (omega arith) in
    elim (Bool-cases (batch % suc (suc j) == 0)) [
      | inl divides ↦ ground arith
      | inr odd ↦ ground arith
    ]

opencl_batch_size-range :
    (d : DeviceLimits) (requested : ℕ)
    → (1 ≤ opencl_batch_size d requested) × (opencl_batch_size d requested ≤ 4096)
unfolding opencl_batch_size
opencl_batch_size-range d requested = omega arith

-- The memory of a batch is within the two limits that it is computed from.
opencl_batch_size_fits :
    (d : DeviceLimits) (requested : ℕ)
    → memory_per_job_bytes ≤ d.max_mem_alloc_size
    → memory_per_job_bytes ≤ d.global_mem_size / 2
    → (memory_per_job_bytes * opencl_batch_size d requested ≤ d.max_mem_alloc_size)
      × (memory_per_job_bytes * opencl_batch_size d requested ≤ d.global_mem_size / 2)
unfolding opencl_batch_size
opencl_batch_size_fits d requested alloc half = omega arith

-- On a device that can allocate the memory of one job at once and within half of its memory, and
-- that allows workgroups of 32 threads: the batch has between 1 and 4,096 jobs, its memory fits in
-- one allocation and in half of the device's memory, the jobs of a workgroup are between 1 and 32
-- and divide the batch, and the threads of a workgroup are within the limit of the device.
pub opencl_sizes :
    (d : DeviceLimits) (requested : ℕ) (jobs : Option ℕ)
    → memory_per_job_bytes ≤ d.max_mem_alloc_size
    → memory_per_job_bytes ≤ d.global_mem_size / 2
    → 32 ≤ d.max_work_group_size
    → (1 ≤ opencl_batch_size d requested)
      × (opencl_batch_size d requested ≤ 4096)
      × (memory_per_job_bytes * opencl_batch_size d requested ≤ d.max_mem_alloc_size)
      × (memory_per_job_bytes * opencl_batch_size d requested ≤ d.global_mem_size / 2)
      × (1 ≤ opencl_jobs_per_block d (opencl_batch_size d requested) jobs)
      × (opencl_jobs_per_block d (opencl_batch_size d requested) jobs ≤ 32)
      × (opencl_batch_size d requested
            % opencl_jobs_per_block d (opencl_batch_size d requested) jobs
          ≡ 0)
      × (threads_per_lane * opencl_jobs_per_block d (opencl_batch_size d requested) jobs
          ≤ d.max_work_group_size)
unfolding opencl_jobs_per_block
opencl_sizes d requested jobs alloc half group =
    let batch = opencl_batch_size d requested in
    let range = opencl_batch_size-range d requested in
    let memory = opencl_batch_size_fits d requested alloc half in
    let limit = min (clamp 1 32 (d.max_work_group_size / 32)) batch in
    let fit = fit_jobs_lem batch (clamp 1 limit (unwrap_or jobs 1)) (omega arith) in
    (range.0, range.1, memory.0, memory.1, fit.0, omega (arith, fit.1), fit.2, omega (arith, fit.1))

not_divisor :
    (batch top k : ℕ) → (batch % top == 0) ≡ false → k ≤ top → ltb k top ≡ false → batch % k ≢ 0
not_divisor batch top k odd below not_lower zero_mod =
    let same : k ≡ top = ground arith in
    let e : batch % top ≡ 0 = rw (← same) zero_mod in
    let t : (batch % top == 0) ≡ true = (==_iff _ 0).1 e in cc

-- The divisor found divides the batch, and no larger one up to the start of the search does.
exact_divisor_lem :
    (batch block : ℕ)
    → 1 ≤ block
    → (h : ℕ) × (exact_divisor batch block ≡ ok h)
      × (1 ≤ h)
      × (h ≤ block)
      × (batch % h ≡ 0)
      × ((k : ℕ) → h < k → k ≤ block → batch % k ≢ 0)
unfolding exact_divisor
exact_divisor_lem batch zero h = absurd (omega arith)
exact_divisor_lem batch (suc zero) h =
    (1, ground arith, omega arith, omega arith, omega arith, λ k above below. absurd (omega arith))
exact_divisor_lem batch (suc (suc b)) h =
    let below = exact_divisor_lem batch (suc b) (omega arith) in
    elim (Bool-cases (batch % suc (suc b) == 0)) [
      | inl divides ↦ (
        suc (suc b),
        rw divides refl,
        omega arith,
        omega arith,
        (==_iff _ 0).0 divides,
        λ k above top. absurd (omega arith),
      )
      | inr odd ↦ (
        below.0,
        rw odd below.1,
        below.2,
        omega (arith, below.3),
        below.4,
        λ k above top. elim (Bool-cases (ltb k (suc (suc b)))) [
          | inl lower ↦ below.5 k above (ground arith)
          | inr same ↦ λ zero_mod. not_divisor batch (suc (suc b)) k odd top same zero_mod
        ],
      )
    ]

cuda_batch_size-range :
    (total_memory requested : ℕ)
    → (1 ≤ cuda_batch_size total_memory requested) × (cuda_batch_size total_memory requested ≤ 4096)
unfolding cuda_batch_size
cuda_batch_size-range total_memory requested = omega arith

helper_block_lem :
    (batch : ℕ)
    → 1 ≤ batch
    → (h : ℕ) × (helper_block batch ≡ ok h)
      × (1 ≤ h)
      × (h ≤ 256)
      × (batch / h * h ≡ batch)
      × ((k : ℕ) → h < k → k ≤ 256 → batch % k ≢ 0)
unfolding helper_block
helper_block_lem batch h =
    let r = exact_divisor_lem batch (min batch 256) (omega arith) in
    (
      r.0,
      r.1,
      r.2,
      omega (arith, r.3),
      grind arith,
      λ k above top. elim (Bool-cases (leb k batch)) [
        | inl lower ↦ r.5 k above (ground arith)
        | inr over ↦ larger k over
      ],
    )
  where
    larger : (k : ℕ) → leb k batch ≡ false → batch % k ≢ 0
    larger k over zero_mod = grind arith

-- Whatever memory the CUDA device has and whatever batch is asked for, the batch has between 1 and
-- 4,096 jobs, the loop that chooses the size of the helper kernels' blocks ends without a panic,
-- and it ends with the largest divisor of the batch that is at most 256, so that the blocks of the
-- grid have together one thread for each job and no other.
pub cuda_grid_lem :
    (total_memory requested : ℕ)
    → (1 ≤ cuda_batch_size total_memory requested)
      × (cuda_batch_size total_memory requested ≤ 4096)
      × ((h : ℕ) × (helper_block (cuda_batch_size total_memory requested) ≡ ok h)
          × (1 ≤ h)
          × (h ≤ 256)
          × (cuda_batch_size total_memory requested / h * h
              ≡ cuda_batch_size total_memory requested)
          × ((k : ℕ) → h < k → k ≤ 256 → cuda_batch_size total_memory requested % k ≢ 0))
cuda_grid_lem total_memory requested =
    let range = cuda_batch_size-range total_memory requested in
    (range.0, range.1, helper_block_lem (cuda_batch_size total_memory requested) range.0)
