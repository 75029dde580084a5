-- ===== src/Miner/Pool.antt =====
-- The threads of the pool's miner in src/miner.rs (`StratumMinerManager::launch_cpu_miner`), with a
-- GPU or without one. A round of the loop is a function of what the thread finds outside.
pub mod Sends
pub mod Looks
pub mod Rounds
use mathlib.Core.Option
use velkar_gpu.Base.{
  ℕ, ◌+◌, Bool, true, false, List, [], ◌∷◌, Option, none, some, Outcome, ok, err, panic, ◌>>=◌,
}
use velkar_gpu.Base.Chain.{unwrap_or}
use velkar_gpu.Word.{u64}
use velkar_gpu.Packages.{Packages}
use velkar_gpu.Pow.State.{State}
use velkar_gpu.Stratum.{StratumCommand}
use velkar_gpu.Watch.{Cell, WatchSwap, observe, wait_for_change, get_changed, update_cached}
use velkar_gpu.Gpu.{Searched, GpuHit}
use velkar_gpu.Gpu.Searcher.{Searching}
use velkar_gpu.Miner.{Sent, Thread, prepared, mine_nonce, next_nonce}
use velkar_gpu.Miner.Hits.{Submitted, Reading, submit_hits}
use velkar_gpu.Miner.Node.{search_failed}

pub record PoolThread (Searcher Body : Type 0) : Type 0 where
  pub gpu : Option Searcher
  pub thread : Thread Body

-- What a round finds: the values of the watched job at the looks of its wait and at the look of the
-- round, the shared counter of submissions, what is in it and on the clock at each submission (when
-- the thread left it at some number before), and the shutdown.
pub record PoolFound (Body : Type 0) : Type 0 where
  pub looks : List (Cell (State Body))
  pub seen : Cell (State Body)
  pub last_submit : ℕ
  pub reading : (last_submit index : ℕ) → Reading
  pub shutdown : Bool

-- The thread after a round, the counter of submissions, and what was sent.
pub record PoolRan (Searcher Body : Type 0) : Type 0 where
  pub miner : PoolThread Searcher Body
  pub last_submit : ℕ
  pub messages : List StratumCommand

module _ {Body : Type 0} where
  abbrev pub taken_job : Thread Body → WatchSwap (State Body) → Thread Body
  taken_job t w = record t { job_channel = w; state = w.cached.value }

  -- `if state.is_none() { state = job_channel.wait_for_change()... }`; a thread that still waits is
  -- as it was.
  abbrev pub awaited_job :
      Thread Body → List (Cell (State Body)) → Option (State Body) → Thread Body
  awaited_job t looks (some s) = t
  awaited_job t looks none =
      unwrap_or (Option.map (taken_job t) (wait_for_change looks t.job_channel)) t

  -- The look of a thread with a GPU: a job that was taken back leaves the state as it is.
  abbrev pub switched : Thread Body → Option (Option (State Body)) → Thread Body
  switched t none = t
  switched t (some none) = record t { job_channel = update_cached t.job_channel }
  switched t (some (some s)) = record t {
    state = some s;
    job_channel = update_cached t.job_channel;
  }

  abbrev pub look_at_job : Thread Body → Cell (State Body) → Thread Body
  look_at_job t seen =
      let w = observe seen t.job_channel in switched (record t { job_channel = w }) (get_changed w)

module _ {Searcher Body : Type 0} where
  abbrev pub resting : Option Searcher → PoolFound Body → Thread Body → PoolRan Searcher Body
  resting gpu f t = record {
    miner = record { gpu = gpu; thread = t };
    last_submit = f.last_submit;
    messages = [];
  }

module _ (p : Packages) {Body : Type 0} (g : Searching Body) where
  -- A round without a GPU.
  unfoldable pub mine_on_cpu :
      Thread Body → PoolFound Body → State Body → Outcome (PoolRan g.Searcher Body)
  mine_on_cpu t f s = do
    let at_share = f.reading f.last_submit 0
    sent ←
        mine_nonce p s t.nonce at_share.previous at_share.stored at_share.now_ms at_share.receiving
    let tried = record t {
      state = some (prepared s t.nonce);
      job_channel = observe f.seen t.job_channel;
    }
    ok (record {
      miner = record { gpu = none; thread = next_nonce tried f.shutdown };
      last_submit = sent.stored;
      messages = sent.messages;
    })

  -- A round with a GPU, on the job that its look left.
  unfoldable pub gpu_batch :
      Thread Body
      → PoolFound Body
      → g.Searcher
      → Option (State Body)
      → Outcome (PoolRan g.Searcher Body)
  gpu_batch t f gpu none = ok (resting (some gpu) f t)
  gpu_batch t f gpu (some s) = do
    r ← search_failed (g.search gpu s t.nonce s.share_target)
    let batch = g.batch_size r.searcher
    sent ← submit_hits p s f.last_submit f.reading 0 r.hits
    ok (record {
      miner = record {
        gpu = some r.searcher;
        thread = record t {
          nonce = u64 (t.nonce + batch);
          hashes_tried = u64 (t.hashes_tried + batch);
          state = some sent.state;
        };
      };
      last_submit = sent.last_submit;
      messages = sent.messages;
    })

  abbrev pub mine_on_gpu :
      Thread Body → PoolFound Body → g.Searcher → Outcome (PoolRan g.Searcher Body)
  mine_on_gpu t f gpu = let t' = look_at_job t f.seen in gpu_batch t' f gpu t'.state

  abbrev pub mine_job :
      Thread Body
      → PoolFound Body
      → Option g.Searcher
      → Option (State Body)
      → Outcome (PoolRan g.Searcher Body)
  mine_job t f gpu none = ok (resting gpu f t)
  mine_job t f (some gpu) (some s) = mine_on_gpu t f gpu
  mine_job t f none (some s) = mine_on_cpu t f s

  -- A round of the loop. A thread that still waits after the looks found goes on waiting in the next
  -- round.
  unfoldable pub pool_round :
      PoolThread g.Searcher Body → PoolFound Body → Outcome (PoolRan g.Searcher Body)
  pool_round t f =
      let waited = awaited_job t.thread f.looks t.thread.state in
      mine_job waited f t.gpu waited.state
