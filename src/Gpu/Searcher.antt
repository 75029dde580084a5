-- ===== src/Gpu/Searcher.antt =====
-- `GpuSearcher` of src/gpu.rs: a searcher of either backend, and the interface that the mining
-- threads use.
use velkar_gpu.Base.{ℕ, Outcome, ok, ◌>>=◌}
use velkar_gpu.Word.{Bytes}
use velkar_gpu.Text.{codes}
use velkar_gpu.Target.{Uint256}
use velkar_gpu.Packages.{Packages}
use velkar_gpu.Pow.State.{State}
use velkar_gpu.Gpu.{GpuConfig, GpuBackend, open_cl, cuda, Searched}
use velkar_gpu.Gpu.OpenCl.{OpenCl, OpenClSearcher}
use velkar_gpu.Gpu.OpenCl.Search
use velkar_gpu.Gpu.OpenCl.Start.{Platforms}
use velkar_gpu.Gpu.OpenCl.Start
use velkar_gpu.Gpu.Cuda.{Cust, CudaSearcher}
use velkar_gpu.Gpu.Cuda
use velkar_gpu.Gpu.Cuda.Start.{Driver}
use velkar_gpu.Gpu.Cuda.Start as CudaStart

pub data GpuSearcher (Device CudaDevice : Type 0) : Type 0 where
  with_opencl : OpenClSearcher Device → GpuSearcher Device CudaDevice
  with_cuda : CudaSearcher CudaDevice → GpuSearcher Device CudaDevice

-- What a mining thread needs of a searcher.
pub record Searching (Body : Type 0) : Type 1 where
  pub Searcher : Type 0
  pub batch_size : Searcher → ℕ
  pub search : Searcher → State Body → (nonce_base : ℕ) → Uint256 → Outcome (Searched Searcher)

abbrev pub backend_name : GpuBackend → Bytes
backend_name open_cl = codes "OpenCL"
backend_name cuda = codes "CUDA"

module _ {Device CudaDevice : Type 0} where
  unfoldable pub name : GpuSearcher Device CudaDevice → Bytes
  name (with_opencl s) = codes "OpenCL"
  name (with_cuda s) = codes "CUDA"

  unfoldable pub batch_size : GpuSearcher Device CudaDevice → ℕ
  batch_size (with_opencl s) = s.batch_size
  batch_size (with_cuda s) = s.batch_size

-- `Self::OpenCl(searcher) => searcher.search(state, nonce_base, target)`
abbrev searched_by : {S T : Type 0} → (S → T) → Searched S → Searched T
searched_by wrap r = record { searcher = wrap r.searcher; hits = r.hits }

module _ (o : OpenCl) (c : Cust) where
  unfoldable pub new : Platforms o → Driver c → GpuConfig → Outcome (GpuSearcher o.Device c.Device)
  new platforms driver config = elim config.backend [
    | open_cl ↦ Start.new o platforms config >>= λ s. ok (with_opencl s)
    | cuda ↦ CudaStart.new c driver config >>= λ s. ok (with_cuda s)
  ]

  unfoldable pub search :
      (p : Packages) {Body : Type 0}
      → GpuSearcher o.Device c.Device
      → State Body
      → (nonce_base : ℕ) → Uint256
      → Outcome (Searched (GpuSearcher o.Device c.Device))
  search p (with_opencl s) state nonce_base target =
      Search.search o p state nonce_base target s >>= λ r. ok (searched_by with_opencl r)
  search p (with_cuda s) state nonce_base target =
      Cuda.search c p state nonce_base target s >>= λ r. ok (searched_by with_cuda r)

  -- A searcher as the threads use it.
  abbrev pub gpu_searching : Packages → (Body : Type 0) → Searching Body
  gpu_searching p Body = record {
    Searcher = GpuSearcher o.Device c.Device;
    batch_size = batch_size;
    search = λ s state nonce_base target. search p s state nonce_base target;
  }
