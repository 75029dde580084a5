-- ===== src/Gpu/OpenCl/Start.antt =====
-- `OpenClSearcher::new` and `precompute_argon2_refs` of src/gpu.rs.
use velkar_gpu.Base.{
  ℕ, ◌*◌, List, [], ◌∷◌, Option, none, some, get_elem?, false, Outcome, ok, err, ◌>>=◌, message,
}
use velkar_gpu.Gpu.{
  GpuConfig, DeviceLimits, argon_time_cost, argon_lanes, threads_per_lane, job_input_bytes,
  constants_bytes, segment_blocks, segment_addr_blocks, reference_segments, refs_buffer_bytes,
  memory_per_job_bytes, opencl_batch_size, opencl_jobs_per_block,
}
use velkar_gpu.Gpu.OpenCl.{
  OpenCl, OpenClSearcher, Buffer, memory, constants_buffer, job_inputs_buffer, found_nonces_buffer,
  stage4_buffer, nonce_out_buffer, refs_buffer, precompute_kernel, local_buffer, buffer, word32,
  set_args,
}

-- The platforms and devices of the crate `opencl3`: `get_devices` has its default put in, `open`
-- makes the context, the program, its kernels and the queue, and `create` a buffer of some items.
pub record Platforms (o : OpenCl) : Type 1 where
  pub Platform : Type 0
  pub DeviceId : Type 0
  pub get_platforms : Outcome (List Platform)
  pub get_devices : Platform → List DeviceId
  pub limits : DeviceId → DeviceLimits
  pub open_device : DeviceId → Outcome o.Device
  pub create : Buffer → (count : ℕ) → o.Device → Outcome o.Device

module _ {A : Type 0} where
  -- `ok_or(e)?` of an index that may be out of range.
  abbrev pub or_else : Outcome A → Option A → Outcome A
  or_else invalid none = invalid
  or_else invalid (some a) = ok a

  -- `match index { Some(idx) => list.get(idx).ok_or(e)?, None => &list[0] }` behind the check that
  -- the list is not empty; `missing` is the error of an empty list, `invalid` that of an index.
  abbrev pub chosen : (missing invalid : Outcome A) → Option ℕ → List A → Outcome A
  chosen missing invalid index [] = missing
  chosen missing invalid none (a ∷ rest) = ok a
  chosen missing invalid (some i) (a ∷ rest) = or_else invalid (get_elem? (a ∷ rest) i)

module _ (o : OpenCl) where
  unfoldable pub precompute_argon2_refs : o.Device → Outcome o.Device
  unfolding set_args
  precompute_argon2_refs d = do
    d₁ ←
        set_args o precompute_kernel 0
          (local_buffer (threads_per_lane * 4 * 2)
            ∷ buffer refs_buffer
            ∷ word32 argon_time_cost
            ∷ word32 argon_lanes
            ∷ word32 segment_blocks
            ∷ [])
          d
    d₂ ←
        o.enqueue_nd_range_kernel precompute_kernel
          ((threads_per_lane * reference_segments * segment_addr_blocks) ∷ [])
          (threads_per_lane ∷ []) d₁
    o.finish d₂

  -- The buffers of a batch.
  unfoldable pub create_buffers : Platforms o → (batch_size : ℕ) → o.Device → Outcome o.Device
  create_buffers platforms batch_size d₀ = do
    d₁ ← platforms.create memory (memory_per_job_bytes * batch_size) d₀
    d₂ ← platforms.create constants_buffer constants_bytes d₁
    d₃ ← platforms.create job_inputs_buffer (job_input_bytes * batch_size) d₂
    d₄ ← platforms.create found_nonces_buffer batch_size d₃
    d₅ ← platforms.create stage4_buffer (32 * batch_size) d₄
    d₆ ← platforms.create nonce_out_buffer batch_size d₅
    platforms.create refs_buffer refs_buffer_bytes d₆

  unfoldable pub new : Platforms o → GpuConfig → Outcome (OpenClSearcher o.Device)
  new platforms config = do
    found ← platforms.get_platforms
    platform ←
        chosen (err (message "No OpenCL platforms found"))
          (err (message "Invalid OpenCL platform index")) config.platform_index found
    device_id ←
        chosen (err (message "No OpenCL GPU devices found on platform"))
          (err (message "Invalid OpenCL device index")) config.device_index
          (platforms.get_devices platform)
    let limits = platforms.limits device_id
    let batch_size = opencl_batch_size limits config.batch_size
    let jobs_per_block = opencl_jobs_per_block limits batch_size config.jobs_per_block
    opened ← platforms.open_device device_id
    created ← create_buffers platforms batch_size opened
    device ← precompute_argon2_refs created
    ok (record {
      device = device;
      memory_per_job = memory_per_job_bytes;
      jobs_per_block = jobs_per_block;
      batch_size = batch_size;
      initial_validation_done = false;
      full_validation_done = false;
      notices = [];
    })
