-- ===== src/Miner/Gpu/Start.antt =====
-- How the thread of `GpuStratumDevfundManager` of src/miner.rs starts, and what the manager waits
-- for.
use velkar_gpu.Base.{
  ℕ, ◌≡◌, refl, Bool, true, false, none, inl, inr, ◌⊎◌, Outcome, ok, err, panic, Error, message,
}
use velkar_gpu.Pow.State.{State}
use velkar_gpu.Watch.{WatchSwap}
use velkar_gpu.Gpu.{GpuConfig}
use velkar_gpu.Miner.Gpu.{Scheduler}

module _ {Searcher Body : Type 0} where
  -- What `launch` makes up to its loop; the outcome is also what the thread tells of its start.
  abbrev pub start_loop :
      (nonce : ℕ)
      → (main_jobs dev_jobs : WatchSwap (State Body)) → Outcome Searcher
      → Outcome (Scheduler Searcher Body)
  start_loop nonce main_jobs dev_jobs (ok gpu) = ok (record {
    gpu = gpu;
    nonce = nonce;
    main_jobs = main_jobs;
    dev_jobs = dev_jobs;
    main_state = none;
    dev_state = none;
    batch_index = 0;
    main_last_submit = 0;
    dev_last_submit = 0;
    hashes_tried = 0;
  })
  start_loop nonce main_jobs dev_jobs (err e) = err (message "GPU initialization failed")
  start_loop nonce main_jobs dev_jobs panic = panic

  unfoldable pub launch_scheduler :
      (GpuConfig → Outcome Searcher)
      → GpuConfig
      → (nonce : ℕ) → (main_jobs dev_jobs : WatchSwap (State Body))
      → Outcome (Scheduler Searcher Body)
  launch_scheduler searcher config nonce main_jobs dev_jobs =
      start_loop nonce main_jobs dev_jobs (searcher config)

  -- The match on `startup_recv.recv_timeout`: a thread that panics drops its end of the channel.
  abbrev pub await_start :
      (in_time : Bool) → Outcome (Scheduler Searcher Body) → Outcome (Scheduler Searcher Body)
  await_start true (ok s) = ok s
  await_start true (err e) = err e
  await_start true panic = err (message "GPU initialization did not complete")
  await_start false told = err (message "GPU initialization did not complete")

  -- `GpuStratumDevfundManager::new`; `in_time` says whether the thread told of its start within 120
  -- seconds.
  unfoldable pub new_scheduler :
      (GpuConfig → Outcome Searcher)
      → GpuConfig
      → (nonce : ℕ) → (main_jobs dev_jobs : WatchSwap (State Body)) → (in_time : Bool)
      → Outcome (Scheduler Searcher Body)
  unfolding launch_scheduler
  new_scheduler searcher config nonce main_jobs dev_jobs in_time =
      await_start in_time (launch_scheduler searcher config nonce main_jobs dev_jobs)

  -- A panic of the searcher's start never reaches the manager.
  started_or_refused :
      (nonce : ℕ) (main_jobs dev_jobs : WatchSwap (State Body)) (in_time : Bool)
      (m : Outcome Searcher)
      → ((gpu : Searcher) × (m ≡ ok gpu)
          × (in_time ≡ true)
          × (await_start in_time (start_loop nonce main_jobs dev_jobs m)
              ≡ start_loop nonce main_jobs dev_jobs m))
        ⊎ ((e : Error) × (await_start in_time (start_loop nonce main_jobs dev_jobs m) ≡ err e))
  started_or_refused nonce main_jobs dev_jobs true (ok gpu) = inl (gpu, refl, refl, refl)
  started_or_refused nonce main_jobs dev_jobs true (err e) = inr (_, refl)
  started_or_refused nonce main_jobs dev_jobs true panic = inr (_, refl)
  started_or_refused nonce main_jobs dev_jobs false m = inr (_, refl)

  -- `GpuStratumDevfundManager::new` gives the fresh scheduler of a searcher that started in time, or
  -- an error. It never panics, not even when the start of the searcher does.
  new_scheduler_lem :
      (searcher : GpuConfig → Outcome Searcher) (config : GpuConfig) (nonce : ℕ)
      (main_jobs dev_jobs : WatchSwap (State Body)) (in_time : Bool)
      → ((gpu : Searcher) × (searcher config ≡ ok gpu)
          × (in_time ≡ true)
          × (new_scheduler searcher config nonce main_jobs dev_jobs in_time
              ≡ start_loop nonce main_jobs dev_jobs (searcher config)))
        ⊎ ((e : Error) × (new_scheduler searcher config nonce main_jobs dev_jobs in_time ≡ err e))
  unfolding new_scheduler
  new_scheduler_lem searcher config nonce main_jobs dev_jobs in_time =
      started_or_refused nonce main_jobs dev_jobs in_time (searcher config)
