-- ===== src/Gpu/Cuda/Start.antt =====
-- `CudaSearcher::new` of src/cuda.rs.
use velkar_gpu.Base.{ℕ, ◌*◌, [], ◌∷◌, false, Outcome, ok, ◌>>=◌, ◌>>◌}
use velkar_gpu.Base.Chain.{unwrap_or}
use velkar_gpu.Gpu.{
  GpuConfig, job_input_bytes, constants_bytes, memory_per_job_bytes, segment_blocks,
  segment_addr_blocks, reference_segments, refs_buffer_bytes, cuda_batch_size,
}
use velkar_gpu.Gpu.Cuda.{
  Cust, CudaSearcher, CudaBuffer, device_ptr, word32, memory, constants, job_inputs, stage4, nonces,
  refs, shuffle_scratch, argon2_precompute_kernel,
}

-- The start of the crate `cust`: `open_device` makes the context, the module and the stream, and
-- `zeroed` a buffer of some items.
pub record Driver (c : Cust) : Type 1 where
  pub DeviceId : Type 0
  pub get_device : ℕ → Outcome DeviceId
  pub total_memory : DeviceId → Outcome ℕ
  pub open_device : DeviceId → Outcome c.Device
  pub zeroed : CudaBuffer → (count : ℕ) → c.Device → Outcome c.Device

module _ (c : Cust) where
  unfoldable pub create_buffers : Driver c → (batch_size : ℕ) → c.Device → Outcome c.Device
  create_buffers driver batch_size d₀ = do
    d₁ ← driver.zeroed memory (memory_per_job_bytes * batch_size) d₀
    d₂ ← driver.zeroed constants constants_bytes d₁
    d₃ ← driver.zeroed job_inputs (job_input_bytes * batch_size) d₂
    d₄ ← driver.zeroed stage4 (32 * batch_size) d₃
    d₅ ← driver.zeroed nonces batch_size d₄
    d₆ ← driver.zeroed refs refs_buffer_bytes d₅
    driver.zeroed shuffle_scratch 256 d₆

  unfoldable pub new : Driver c → GpuConfig → Outcome (CudaSearcher c.Device)
  new driver config = do
    device_id ← driver.get_device (unwrap_or config.device_index 0)
    total_memory ← driver.total_memory device_id
    opened ← driver.open_device device_id
    let batch_size = cuda_batch_size total_memory config.batch_size
    created ← create_buffers driver batch_size opened
    c.get_function argon2_precompute_kernel created
    launched ←
        c.launch argon2_precompute_kernel
          (record { x = reference_segments * segment_addr_blocks; y = 1; z = 1 })
          (record { x = 32; y = 1; z = 1 })
          (device_ptr shuffle_scratch
            ∷ device_ptr refs
            ∷ word32 1
            ∷ word32 1
            ∷ word32 segment_blocks
            ∷ [])
          created
    device ← c.synchronize launched
    ok (record { device = device; batch_size = batch_size; validation_done = false })
