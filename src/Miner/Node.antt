-- ===== src/Miner/Node.antt =====
-- The threads of the node's miner in src/miner.rs, with a GPU or without one. A round of the loop is
-- a function of what the thread finds outside.
pub mod Mined
pub mod Looks
pub mod Blocks
pub mod Stale
use mathlib.Core.Option
use velkar_gpu.Base.{
  ℕ, ◌+◌, ◌%◌, Bool, true, false, List, [], ◌∷◌, Option, none, some, ◌==◌, if◌then◌else◌, Outcome,
  ok, err, panic, ◌>>=◌, message,
}
use velkar_gpu.Base.Chain.{unwrap_or}
use velkar_gpu.Word.{u64}
use velkar_gpu.Packages.{Packages}
use velkar_gpu.Pow.Header.{RpcBlock}
use velkar_gpu.Pow.State.{State, generate_block_if_pow}
use velkar_gpu.Watch.{Cell, WatchSwap, observe, wait_for_change, get_changed, update_cached}
use velkar_gpu.Gpu.{Searched, GpuHit}
use velkar_gpu.Gpu.Searcher.{Searching}
use velkar_gpu.Miner.{Sent, found_block}

pub record NodeThread (Searcher Body : Type 0) : Type 0 where
  pub gpu : Option Searcher
  pub nonce : ℕ
  pub state : Option (State Body)
  pub block_channel : WatchSwap (State Body)
  pub hashes_tried : ℕ
  pub returned : Bool

-- What a round finds: the values at the looks of its wait, the id of the solved state, the values
-- at the looks of the wait behind a solved state, the id at the exchange of `found_block`, whether
-- its channel has a receiver, the value at the look of every 128th nonce, and the shutdown.
pub record NodeFound (Body : Type 0) : Type 0 where
  pub looks : List (Cell (State Body))
  pub already_solved : ℕ
  pub looks_solved : List (Cell (State Body))
  pub solved_state_id : ℕ
  pub receiving : Bool
  pub seen : Cell (State Body)
  pub shutdown : Bool

-- The thread after a round, the id that it left as solved, and the blocks that it sent.
pub record NodeRan (Searcher Body : Type 0) : Type 0 where
  pub thread : NodeThread Searcher Body
  pub solved_state_id : ℕ
  pub messages : List (RpcBlock Body)

-- `Err(e) => return Err(format!("{} search failed: {e}", gpu.name()).into())`
abbrev pub search_failed {ℓ} : {A : Type ℓ} → Outcome A → Outcome A
search_failed (ok a) = ok a
search_failed (err e) = err (message "search failed")
search_failed panic = panic

module _ {Searcher Body : Type 0} where
  abbrev pub quiet : NodeThread Searcher Body → ℕ → NodeRan Searcher Body
  quiet t solved = record { thread = t; solved_state_id = solved; messages = [] }

  abbrev pub taken : NodeThread Searcher Body → WatchSwap (State Body) → NodeThread Searcher Body
  taken t w = record t { block_channel = w; state = w.cached.value }

  -- The thread after `wait_for_change`, or as it was where it still waits.
  abbrev pub awaited :
      NodeThread Searcher Body → List (Cell (State Body)) → NodeThread Searcher Body
  awaited t looks = unwrap_or (Option.map (taken t) (wait_for_change looks t.block_channel)) t

  -- `if state.is_none() { state = block_channel.wait_for_change()... }`
  abbrev pub awaited_state :
      NodeThread Searcher Body
      → List (Cell (State Body))
      → Option (State Body)
      → NodeThread Searcher Body
  awaited_state t looks (some s) = t
  awaited_state t looks none = awaited t looks

  abbrev pub taken_change :
      NodeThread Searcher Body → Option (Option (State Body)) → NodeThread Searcher Body
  taken_change t none = t
  taken_change t (some state) = record t {
    state = state;
    block_channel = update_cached t.block_channel;
  }

  -- The end of a round of the CPU: `nonce += 1`, and every 128 nonces a look outside.
  unfoldable pub next_nonce : NodeThread Searcher Body → NodeFound Body → NodeThread Searcher Body
  next_nonce t f =
      let nonce = u64 (t.nonce + 1) in
      let t' = record t {
        nonce = nonce;
        hashes_tried = u64 (t.hashes_tried + 128);
        block_channel = observe f.seen t.block_channel;
      } in
      if nonce % 128 == 0
      then if f.shutdown
        then record t' { returned = true }
        else taken_change t' (get_changed t'.block_channel)
      else record t { nonce = nonce }

module _ (p : Packages) {Body : Type 0} (g : Searching Body) where
  -- `found_block(...)?; state = None;`
  abbrev pub submit_found :
      NodeThread g.Searcher Body
      → (solved : ℕ) → (receiving : Bool) → State Body
      → RpcBlock Body
      → Outcome (NodeRan g.Searcher Body)
  submit_found t solved receiving s b = found_block p b s.id solved receiving >>= λ sent.
      ok (record {
        thread = record t { state = none };
        solved_state_id = sent.stored;
        messages = sent.messages;
      })

  -- `if let Some(block) = state_ref.generate_block_if_pow()`; `missed` is the thread where there is
  -- no block.
  abbrev pub submit_if :
      NodeThread g.Searcher Body
      → (solved : ℕ) → (receiving : Bool) → State Body
      → (missed : NodeThread g.Searcher Body) → Option (RpcBlock Body)
      → Outcome (NodeRan g.Searcher Body)
  submit_if t solved receiving s missed none = ok (quiet missed solved)
  submit_if t solved receiving s missed (some b) = submit_found t solved receiving s b

  unfoldable pub cpu_round :
      NodeThread g.Searcher Body → NodeFound Body → State Body → Outcome (NodeRan g.Searcher Body)
  cpu_round t f s =
      let s' = record s { nonce = t.nonce } in
      generate_block_if_pow p s'
      >>= submit_if t f.solved_state_id f.receiving s' (next_nonce (record t { state = some s' }) f)

  -- Only the first hit of a batch is looked at.
  abbrev pub first_hit :
      NodeThread g.Searcher Body
      → (solved : ℕ) → (receiving : Bool) → State Body
      → List GpuHit
      → Outcome (NodeRan g.Searcher Body)
  first_hit t solved receiving s [] = ok (quiet t solved)
  first_hit t solved receiving s (hit ∷ hits) =
      let s' = record s { nonce = hit.nonce } in
      generate_block_if_pow p s' >>= submit_if t solved receiving s' (record t { state = some s' })

  unfoldable pub gpu_round :
      NodeThread g.Searcher Body
      → (solved : ℕ) → (receiving : Bool) → State Body
      → g.Searcher
      → Outcome (NodeRan g.Searcher Body)
  gpu_round t solved receiving s gpu =
      search_failed (g.search gpu s t.nonce s.block_target) >>= λ r.
      let batch = g.batch_size r.searcher in
      first_hit
        (record t {
          gpu = some r.searcher;
          nonce = u64 (t.nonce + batch);
          hashes_tried = u64 (t.hashes_tried + batch);
        })
        solved receiving s r.hits

  abbrev pub try_state :
      NodeThread g.Searcher Body
      → NodeFound Body
      → State Body
      → Option g.Searcher
      → Outcome (NodeRan g.Searcher Body)
  try_state t f s (some gpu) = gpu_round t f.solved_state_id f.receiving s gpu
  try_state t f s none = cpu_round t f s

  abbrev pub round_on :
      NodeThread g.Searcher Body
      → NodeFound Body
      → Option (State Body)
      → Outcome (NodeRan g.Searcher Body)
  round_on t f none = ok (quiet t f.solved_state_id)
  round_on t f (some s) =
      if f.already_solved == s.id
      then ok (quiet (awaited (record t { state = none }) f.looks_solved) f.solved_state_id)
      else try_state t f s t.gpu

  -- A round of the loop. A thread that still waits after the looks found goes on waiting in the next
  -- round; the state that it holds in the wait behind a solved state is not used again.
  unfoldable pub node_round :
      NodeThread g.Searcher Body → NodeFound Body → Outcome (NodeRan g.Searcher Body)
  node_round t f = let t' = awaited_state t f.looks t.state in round_on t' f t'.state
