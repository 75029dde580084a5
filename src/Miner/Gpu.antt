-- ===== src/Miner/Gpu.antt =====
-- `GpuStratumDevfundManager` of src/miner.rs: one thread with a GPU for the pool's jobs and for the
-- jobs of the devfund's pool. A round of its loop is a function of what it finds outside.
pub mod Shares
pub mod Start
use mathlib.Core.Option
use velkar_gpu.Base.Chain.{unwrap_or}
use velkar_gpu.Base.{
  ℕ, ◌+◌, ◌*◌, Bool, true, false, List, [], ◌∷◌, ◌++◌, Option, none, some, if◌then◌else◌, Outcome,
  ok, err, panic, ◌>>=◌,
}
use velkar_gpu.Word.{u64}
use velkar_gpu.Target.{Uint256}
use velkar_gpu.Packages.{Packages}
use velkar_gpu.Pow.State.{State}
use velkar_gpu.Stratum.{StratumCommand, Job}
use velkar_gpu.Watch.{Cell, WatchSwap, empty, observe, wait_for_change, get_changed, update_cached}
use velkar_gpu.Gpu.{Searched, GpuHit}
use velkar_gpu.Gpu.Searcher.{Searching}
use velkar_gpu.Miner.{use_devfund, process_job}
use velkar_gpu.Miner.Hits.{Submitted, own_reading, submit_hits}

-- `StratumJobSlot`: the watched job, and the counter of states.
pub record StratumJobSlot (Body : Type 0) : Type 0 where
  pub job_channel : WatchSwap (State Body)
  pub current_state_id : ℕ

pub record Scheduler (Searcher Body : Type 0) : Type 0 where
  pub gpu : Searcher
  pub nonce : ℕ
  pub main_jobs : WatchSwap (State Body)
  pub dev_jobs : WatchSwap (State Body)
  pub main_state : Option (State Body)
  pub dev_state : Option (State Body)
  pub batch_index : ℕ
  pub main_last_submit : ℕ
  pub dev_last_submit : ℕ
  pub hashes_tried : ℕ

-- What a round finds: the values of the watched jobs at the looks of its wait and after it, the
-- clock and the receiver of the channel at each hit, and the shutdown.
pub record Found (Body : Type 0) : Type 0 where
  pub looks : List (Cell (State Body))
  pub main_seen : Cell (State Body)
  pub dev_seen : Cell (State Body)
  pub now : ℕ → ℕ
  pub receiving : ℕ → Bool
  pub shutdown : Bool

-- The thread after a round, what it sent on its two channels, and whether it returned.
pub record Ran (Searcher Body : Type 0) : Type 0 where
  pub scheduler : Scheduler Searcher Body
  pub main_messages : List StratumCommand
  pub dev_messages : List StratumCommand
  pub returned : Bool

abbrev pub is_some {ℓ} : {A : Type ℓ} → Option A → Bool
is_some none = false
is_some (some a) = true

module _ {Body : Type 0} where
  unfoldable pub new : StratumJobSlot Body
  unfolding empty
  new = record { job_channel = empty; current_state_id = 0 }

module _ (p : Packages) (fuel : ℕ) {Body : Type 0} where
  abbrev pub with_job :
      StratumJobSlot Body → Option (WatchSwap (State Body)) → Option (StratumJobSlot Body)
  with_job slot none = none
  with_job slot (some channel) =
      some (record { job_channel = channel; current_state_id = u64 (slot.current_state_id + 1) })

  -- `StratumJobSlot::process_job`; `none` where `fuel` draws give no matrix.
  unfoldable pub slot_process_job : StratumJobSlot Body → ℕ → Job → Option (StratumJobSlot Body)
  unfolding process_job
  slot_process_job slot fresh job =
      with_job slot (process_job p fuel slot.current_state_id slot.job_channel fresh job)

module _ {Body : Type 0} where
  -- `if let Some(changed) = jobs.get_changed() { state = changed... }`
  abbrev pub changed_state : WatchSwap (State Body) → Option (State Body) → Option (State Body)
  changed_state w state = unwrap_or (get_changed w) state

module _ {Searcher Body : Type 0} where
  abbrev pub idle : Scheduler Searcher Body → Ran Searcher Body
  idle t = record { scheduler = t; main_messages = []; dev_messages = []; returned = false }

  abbrev pub taken_main : Scheduler Searcher Body → WatchSwap (State Body) → Scheduler Searcher Body
  taken_main t w = record t { main_jobs = w; main_state = w.cached.value }

  -- `if main_state.is_none() { main_state = main_jobs.wait_for_change()... }`; `none` where the
  -- thread still waits.
  abbrev pub awaited_main :
      Scheduler Searcher Body
      → List (Cell (State Body))
      → Option (State Body)
      → Option (Scheduler Searcher Body)
  awaited_main t looks (some s) = some t
  awaited_main t looks none = Option.map (taken_main t) (wait_for_change looks t.main_jobs)

  abbrev pub look_at_jobs : Scheduler Searcher Body → Found Body → Scheduler Searcher Body
  look_at_jobs t f =
      let main_jobs = observe f.main_seen t.main_jobs in
      let dev_jobs = observe f.dev_seen t.dev_jobs in
      record t {
        main_state = changed_state main_jobs t.main_state;
        main_jobs = update_cached main_jobs;
        dev_state = changed_state dev_jobs t.dev_state;
        dev_jobs = update_cached dev_jobs;
      }

  -- The counters after a batch.
  abbrev pub next_batch : Scheduler Searcher Body → Searcher → ℕ → Scheduler Searcher Body
  next_batch t gpu batch = record t {
    gpu = gpu;
    nonce = u64 (t.nonce + batch);
    hashes_tried = u64 (t.hashes_tried + batch);
    batch_index = u64 (t.batch_index + 1);
  }

module _ (p : Packages) {Body : Type 0} (g : Searching Body) where
  -- The batch of the pool's job, and that of the devfund's.
  unfoldable pub mine_main :
      Scheduler g.Searcher Body → Found Body → Option (State Body) → Outcome (Ran g.Searcher Body)
  mine_main t f none = ok (idle t)
  mine_main t f (some s) = do
    r ← g.search t.gpu s t.nonce s.share_target
    let batch = g.batch_size r.searcher
    sent ← submit_hits p s t.main_last_submit (own_reading f.now f.receiving) 0 r.hits
    ok (record {
      scheduler = record (next_batch t r.searcher batch) {
        main_state = some sent.state;
        main_last_submit = sent.last_submit;
      };
      main_messages = sent.messages;
      dev_messages = [];
      returned = f.shutdown;
    })

  unfoldable pub mine_dev :
      Scheduler g.Searcher Body → Found Body → Option (State Body) → Outcome (Ran g.Searcher Body)
  mine_dev t f none = panic
  mine_dev t f (some s) = do
    r ← g.search t.gpu s t.nonce s.share_target
    let batch = g.batch_size r.searcher
    sent ← submit_hits p s t.dev_last_submit (own_reading f.now f.receiving) 0 r.hits
    ok (record {
      scheduler = record (next_batch t r.searcher batch) {
        dev_state = some sent.state;
        dev_last_submit = sent.last_submit;
      };
      main_messages = [];
      dev_messages = sent.messages;
      returned = f.shutdown;
    })

  unfoldable pub mine_batch : Scheduler g.Searcher Body → Found Body → Outcome (Ran g.Searcher Body)
  mine_batch t f =
      if use_devfund t.batch_index (is_some t.dev_state)
      then mine_dev t f t.dev_state
      else mine_main t f t.main_state

  abbrev pub after_wait :
      Scheduler g.Searcher Body
      → Found Body
      → Option (Scheduler g.Searcher Body)
      → Outcome (Ran g.Searcher Body)
  after_wait t f none = ok (idle t)
  after_wait t f (some t') = mine_batch (look_at_jobs t' f) f

  -- A round of the loop. A thread that still waits after the looks found is left as it was.
  unfoldable pub scheduler_round :
      Scheduler g.Searcher Body → Found Body → Outcome (Ran g.Searcher Body)
  scheduler_round t f = after_wait t f (awaited_main t f.looks t.main_state)
