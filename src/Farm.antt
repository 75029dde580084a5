-- ===== src/Farm.antt =====
-- The miner of a pool as a whole: the client of src/stratum.rs and the threads of src/miner.rs, with
-- the store and the channel between them, interleaved in any order.
pub mod Genuine
pub mod Wire
pub mod Invariant
pub mod Opened
use velkar_gpu.Base.{
  update, ℕ, ◌<◌, ◌≡◌, Bool, true, false, List, [], ◌∷◌, ◌++◌, Option, none, some, All, Occurs,
  Outcome, ok, err, Error,
}
use velkar_gpu.Word.{Bytes}
use velkar_gpu.Packages.{Packages, BigUint, Json}
use velkar_gpu.Pow.State.{State}
use velkar_gpu.Stratum.{StratumCommand, Job}
use velkar_gpu.Stratum.Lines.{Event, command, Session, push_job, listen_round, connect, started}
use velkar_gpu.Watch.{Cell}
use velkar_gpu.Gpu.Searcher.{Searching}
use velkar_gpu.Miner.Pool.{PoolThread, PoolFound, PoolRan, pool_round}
use velkar_gpu.Miner.Launch.{StratumMinerManager, receive_job}

-- The session with the pool, the manager with its threads, the channel of commands between the two,
-- and every value that the watched job has had.
pub record Farm (Searcher Body : Type 0) : Type 0 where
  pub session : Session
  pub manager : StratumMinerManager Searcher Body
  pub queue : List StratumCommand
  pub cells : List (Cell (State Body))

module _ {Searcher Body : Type 0} where
  abbrev pub with_thread :
      StratumMinerManager Searcher Body
      → (i : ℕ) → PoolThread Searcher Body
      → (last_submit : ℕ) → StratumMinerManager Searcher Body
  with_thread m i miner last_submit = record m {
    handles = update m.handles i miner;
    last_share_submit_ms = last_submit;
  }

  -- A thread that an error ended.
  abbrev pub ended : PoolThread Searcher Body → PoolThread Searcher Body
  ended t = record t { thread = record t.thread { returned = true } }

  -- A farm before its first step.
  abbrev pub opened : Session → StratumMinerManager Searcher Body → Farm Searcher Body
  opened session manager = record {
    session = session;
    manager = manager;
    queue = [];
    cells = manager.job_channel.inner ∷ [];
  }

-- What comes from outside, not from the channel of commands.
abbrev pub IsOutside : Event → Type 0
IsOutside (command (some cmd)) = ⊥
IsOutside event = Unit

module _ (p : Packages) (fuel : ℕ) (j : Json) (n : BigUint) {Body : Type 0}
    (g : Searching Body) where
  -- A round of a thread looks at any values that the job has had, for other threads and the client go
  -- on while it runs.
  pub record CanFind (s : Farm g.Searcher Body) (f : PoolFound Body) : Type 0 where
    pub looks : All (λ c. Occurs c s.cells) f.looks
    pub seen : Occurs f.seen s.cells
    pub counter : f.last_submit ≡ s.manager.last_share_submit_ms

  pub data Step (s : Farm g.Searcher Body) : Farm g.Searcher Body → Type 0 where
    takes :
        (cmd : StratumCommand) (rest : List StratumCommand) (shutdown : Bool)
        → s.queue ≡ cmd ∷ rest
        → Step s (record s {
          session = listen_round j n s.session (command (some cmd)) shutdown;
          queue = rest;
        })
    hears :
        (event : Event) (shutdown : Bool) (job : Option Job) (fresh : ℕ)
        (manager : StratumMinerManager g.Searcher Body)
        → IsOutside event
        → (listen_round j n s.session event shutdown).jobs ≡ push_job s.session.jobs job
        → receive_job p fuel s.manager fresh job ≡ some manager
        → Step s (record s {
          session = listen_round j n s.session event shutdown;
          manager = manager;
          cells = manager.job_channel.inner ∷ s.cells;
        })
    mines :
        (i : ℕ) (f : PoolFound Body) (r : PoolRan g.Searcher Body)
        → i < s.manager.workers
        → (s.manager.handles i).thread.returned ≡ false
        → CanFind s f
        → pool_round p g (s.manager.handles i) f ≡ ok r
        → Step s (record s {
          manager = with_thread s.manager i r.miner r.last_submit;
          queue = s.queue ++ r.messages;
        })
    -- A round that fails may have passed the limit on shares before its send, so the counter is left
    -- anywhere.
    fails :
        (i : ℕ) (f : PoolFound Body) (e : Error) (last_submit : ℕ)
        → i < s.manager.workers
        → (s.manager.handles i).thread.returned ≡ false
        → CanFind s f
        → pool_round p g (s.manager.handles i) f ≡ err e
        → Step s (record s {
          manager = with_thread s.manager i (ended (s.manager.handles i)) last_submit;
        })

  pub data Reach (s : Farm g.Searcher Body) : Farm g.Searcher Body → Type 0 where
    here : Reach s s
    next : {t u : Farm g.Searcher Body} → Reach s t → Step t u → Reach s u
