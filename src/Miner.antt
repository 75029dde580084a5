-- ===== src/Miner.antt =====
-- src/miner.rs: the managers that hand work to the threads, the rounds of a CPU thread, the limit on
-- submitted shares and the batches of the GPU scheduler.
pub mod Shares
pub mod Blocks
pub mod Scheduler
pub mod Hits
pub mod Gpu
pub mod Node
pub mod Pool
pub mod Launch
use velkar_gpu.Base.{
  ℕ, zero, suc, ◌+◌, ◌-◌, ◌%◌, ◌^◌, Bool, true, false, not, ◌&&◌, List, [], ◌∷◌, ◌++◌, Option, none,
  some, ltb, leb, ◌==◌, if◌then◌else◌, Outcome, ok, err, panic, ◌>>=◌, ◌>>◌, ok_or, expect, Error,
  message, external,
}
use velkar_gpu.Word.{Bytes, u64}
use velkar_gpu.Text.{hex_fixed}
use velkar_gpu.Target.{Uint256, le}
use velkar_gpu.Packages.{Packages}
use velkar_gpu.Pow.Header.{RpcBlock, block_hash}
use velkar_gpu.Pow.State.{
  State, PowMatch, no_match, share_match, block_match, new, from_stratum, apply_extranonce,
  calculate_pow, pow_match, generate_block_if_pow,
}
use velkar_gpu.Stratum.{Job, StratumCommand, submit_share}
use velkar_gpu.Watch.{WatchSwap, swap, get_changed, update_cached}

-- The store that the manager and the threads of a node's miner share.
pub record MinerManager (Body : Type 0) : Type 0 where
  pub block_channel : WatchSwap (State Body)
  pub is_synced : Bool
  pub current_state_id : ℕ
  pub solved_state_id : ℕ

-- `usize::MAX`
abbrev pub usize_max : ℕ
usize_max = 2 ^ 64 - 1

module _ (p : Packages) (fuel : ℕ) {Body : Type 0} where
  -- The end of `process_block`: a new state, or none, reaches the threads.
  abbrev pub publish : MinerManager Body → ℕ → Option (State Body) → MinerManager Body
  publish m fresh state = record m {
    solved_state_id = usize_max;
    block_channel = swap fresh state m.block_channel;
  }

  -- The state of a template; `none` inside `ok` where its matrix is not found within `fuel` draws.
  abbrev pub published : MinerManager Body → ℕ → Option (State Body) → Option (MinerManager Body)
  published m fresh none = none
  published m fresh (some s) = some (publish m fresh (some s))

  -- `MinerManager::process_block`; `fresh` is the address of the state.
  unfoldable pub process_block :
      MinerManager Body → ℕ → Option (RpcBlock Body) → Outcome (Option (MinerManager Body))
  process_block m fresh (some b) = new p fuel m.current_state_id b >>= λ state. ok (
      published (record m { is_synced = true; current_state_id = u64 (m.current_state_id + 1) })
        fresh state)
  process_block m fresh none =
      if m.is_synced
      then ok (some (publish (record m { is_synced = false }) fresh none))
      else ok (some m)

  -- `StratumMinerManager::process_job` and `StratumJobSlot::process_job`, with the counter of states
  -- and the watched job.
  unfoldable pub process_job :
      ℕ → WatchSwap (State Body) → ℕ → Job → Option (WatchSwap (State Body))
  process_job id channel fresh job = stored (
      from_stratum p fuel id job.job_id job.pre_pow_hash job.timestamp job.block_target
        job.share_target job.nonce_mask job.nonce_fixed)
    where
      stored : Option (State Body) → Option (WatchSwap (State Body))
      stored none = none
      stored (some s) = some (swap fresh (some s) channel)

-- A shared counter after an attempt, and whether the attempt succeeded.
pub record Attempt : Type 0 where
  pub stored : ℕ
  pub success : Bool

abbrev pub min_share_submit_interval_ms : ℕ
min_share_submit_interval_ms = 250

-- `compare_exchange(current, new)` on a counter.
abbrev pub compare_exchange : ℕ → ℕ → ℕ → Attempt
compare_exchange stored current new' =
    if stored == current
    then record { stored = new'; success = true }
    else record { stored = stored; success = false }

-- `should_submit_share` at `now_ms`: `previous` was loaded, and `stored` is there at the exchange.
unfoldable pub should_submit_share : (previous stored now_ms : ℕ) → Attempt
should_submit_share previous stored now_ms =
    if ltb (now_ms - previous) min_share_submit_interval_ms
    then record { stored = stored; success = false }
    else compare_exchange stored previous now_ms

-- What a thread sends on its channel, and the counter that it leaves.
pub record Sent (M : Type 0) : Type 0 where
  pub stored : ℕ
  pub messages : List M

-- `blocking_send(...)?`, which fails when the receiver of the channel is gone.
abbrev pub blocking_send {ℓ} : {A : Type ℓ} → (receiving : Bool) → A → Outcome A
blocking_send true sent = ok sent
blocking_send false sent = err external

module _ {Body : Type 0} where
  -- `found_share`, with the outcome of `should_submit_share`; `receiving` says whether the channel has
  -- a receiver at the send.
  unfoldable pub found_share : State Body → Attempt → Bool → Outcome (Sent StratumCommand)
  found_share s attempt receiving =
      if attempt.success
      then (do
        job_id ← ok_or s.job_id (message "missing stratum job id")
        blocking_send receiving (record {
          stored = attempt.stored;
          messages = submit_share job_id (hex_fixed 16 s.nonce) ∷ [];
        }))
      else ok (record { stored = attempt.stored; messages = [] })

-- The match on `pow_match` in a round of a CPU thread of the pool's miner.
abbrev pub share_if : PowMatch → Outcome (Sent StratumCommand) → ℕ → Outcome (Sent StratumCommand)
share_if block_match found stored = found
share_if share_match found stored = found
share_if no_match found stored = ok (record { stored = stored; messages = [] })

module _ {Body : Type 0} where
  -- The nonce that a round tries, put into the state.
  abbrev pub prepared : State Body → ℕ → State Body
  prepared s nonce = record s { nonce = apply_extranonce s nonce }

module _ (p : Packages) {Body : Type 0} where
  -- `found_block`: the first to set the solved state sends its block.
  unfoldable pub found_block : RpcBlock Body → ℕ → ℕ → Bool → Outcome (Sent (RpcBlock Body))
  found_block block state_id solved_state_id receiving =
      let attempt = compare_exchange solved_state_id usize_max state_id in
      if attempt.success
      then (do
        hash ← block_hash p.blake2b block
        own ← expect hash
        blocking_send receiving (record { stored = attempt.stored; messages = block ∷ [] }))
      else ok (record { stored = attempt.stored; messages = [] })

  -- A round up to the increment of the nonce.
  unfoldable pub mine_nonce :
      State Body
      → (nonce previous stored now_ms : ℕ) → (receiving : Bool) → Outcome (Sent StratumCommand)
  mine_nonce s nonce previous stored now_ms receiving =
      let s' = prepared s nonce in
      share_if (pow_match p s')
        (found_share s' (should_submit_share previous stored now_ms) receiving) stored

-- A CPU thread of the pool's miner: its nonce, its job, and its share of the counter of hashes.
pub record Thread (Body : Type 0) : Type 0 where
  pub nonce : ℕ
  pub state : Option (State Body)
  pub job_channel : WatchSwap (State Body)
  pub hashes_tried : ℕ
  pub returned : Bool

-- The end of a round: every 128 nonces the counter, the shutdown and the job are looked at.
module _ {Body : Type 0} where
  abbrev pub take_job : Thread Body → Option (Option (State Body)) → Thread Body
  take_job t none = t
  take_job t (some state) = record t { state = state; job_channel = update_cached t.job_channel }

  unfoldable pub next_nonce : Thread Body → Bool → Thread Body
  next_nonce t shutdown =
      let nonce = u64 (t.nonce + 1) in
      let t' = record t { nonce = nonce; hashes_tried = u64 (t.hashes_tried + 128) } in
      if nonce % 128 == 0
      then if shutdown
        then record t' { returned = true }
        else take_job t' (get_changed t'.job_channel)
      else record t { nonce = nonce }

-- `use_devfund` of the GPU scheduler.
abbrev pub devfund_batch_period : ℕ
devfund_batch_period = 100

unfoldable pub use_devfund : ℕ → Bool → Bool
use_devfund batch_index has_dev_state =
    (batch_index % devfund_batch_period == devfund_batch_period - 1) && has_dev_state

-- `submit_hit`: the hit is checked again, then limited as a share is.
module _ (p : Packages) {Body : Type 0} where
  unfoldable pub submit_hit :
      State Body
      → (nonce previous stored now_ms : ℕ) → (receiving : Bool) → Outcome (Sent StratumCommand)
  submit_hit s nonce previous stored now_ms receiving =
      let s' = record s { nonce = nonce } in
      if le (calculate_pow p s') s'.share_target
      then found_share s' (should_submit_share previous stored now_ms) receiving
      else ok (record { stored = stored; messages = [] })
