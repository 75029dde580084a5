-- ===== src/Miner/Launch.antt =====
-- `StratumMinerManager` of src/miner.rs: the store that the pool's miner shares, its threads as they
-- are started, and the jobs it hands to them.
use velkar_gpu.Base.{ℕ, ◌+◌, Bool, true, false, Option, none, some, Outcome, ok, err, panic, ◌>>=◌}
use velkar_gpu.Word.{u64}
use velkar_gpu.Packages.{Packages}
use velkar_gpu.Pow.State.{State}
use velkar_gpu.Stratum.{Job}
use velkar_gpu.Watch.{WatchSwap, empty}
use velkar_gpu.Gpu.{GpuConfig}
use velkar_gpu.Miner.{process_job}
use velkar_gpu.Miner.Pool.{PoolThread}
use velkar_gpu.Start.{launched}

-- Its handles are the first `workers` of a family of threads.
pub record StratumMinerManager (Searcher Body : Type 0) : Type 0 where
  pub workers : ℕ
  pub handles : ℕ → PoolThread Searcher Body
  pub job_channel : WatchSwap (State Body)
  pub current_state_id : ℕ
  pub last_share_submit_ms : ℕ

module _ {Searcher Body : Type 0} where
  -- A thread at its first nonce; a searcher that does not start ends its thread at once.
  abbrev pub idle_thread :
      (nonce : ℕ) → Option Searcher → (returned : Bool) → PoolThread Searcher Body
  idle_thread nonce gpu returned = record {
    gpu = gpu;
    thread = record {
      nonce = nonce;
      state = none;
      job_channel = empty;
      hashes_tried = 0;
      returned = returned;
    };
  }

  abbrev pub with_searcher : (nonce : ℕ) → Outcome Searcher → PoolThread Searcher Body
  with_searcher nonce (ok gpu) = idle_thread nonce (some gpu) false
  with_searcher nonce (err e) = idle_thread nonce none true
  with_searcher nonce panic = idle_thread nonce none true

  -- `launch_cpu_miner` up to its loop; `new` is `GpuSearcher::new`.
  unfoldable pub launch_cpu_miner :
      (new : GpuConfig → Outcome Searcher)
      → Option GpuConfig
      → (nonce : ℕ) → PoolThread Searcher Body
  launch_cpu_miner new none nonce = idle_thread nonce none false
  launch_cpu_miner new (some config) nonce = with_searcher nonce (new config)

  -- `StratumMinerManager::new`, with `launch_cpu_threads`; `nonces` are the random first nonces.
  unfoldable pub new :
      (physical : ℕ)
      → (GpuConfig → Outcome Searcher)
      → (nonces : ℕ → ℕ) → Option ℕ
      → Option GpuConfig
      → Outcome (StratumMinerManager Searcher Body)
  new physical searcher nonces n_cpus config = launched physical n_cpus config >>= λ workers.
      ok (record {
        workers = workers;
        handles = λ i. launch_cpu_miner searcher config (nonces i);
        job_channel = empty;
        current_state_id = 0;
        last_share_submit_ms = 0;
      })

module _ (p : Packages) (fuel : ℕ) {Searcher Body : Type 0} where
  abbrev with_channel :
      StratumMinerManager Searcher Body
      → Option (WatchSwap (State Body))
      → Option (StratumMinerManager Searcher Body)
  with_channel m none = none
  with_channel m (some channel) =
      some (record m { job_channel = channel; current_state_id = u64 (m.current_state_id + 1) })

  -- What a line of the pool hands to the manager: no job, or one, for `process_job`; `none` where
  -- `fuel` draws give no matrix.
  unfoldable pub receive_job :
      StratumMinerManager Searcher Body
      → (fresh : ℕ) → Option Job
      → Option (StratumMinerManager Searcher Body)
  unfolding process_job
  receive_job m fresh none = some m
  receive_job m fresh (some job) =
      with_channel m (process_job p fuel m.current_state_id m.job_channel fresh job)
