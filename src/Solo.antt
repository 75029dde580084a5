-- ===== src/Solo.antt =====
-- The miner of a node as a whole: the client of src/client.rs and the threads of src/miner.rs, with
-- the store between them and the channel to the node, interleaved in any order.
pub mod Proper
pub mod Wire
pub mod Invariant
pub mod Opened
pub mod Once
use mathlib.Core.List.{map}
use velkar_gpu.Base.{
  update, ℕ, ◌<◌, ◌≡◌, Bool, true, false, List, [], ◌∷◌, ◌++◌, Option, none, some, All, Occurs, ◌⊎◌,
  Outcome, ok, err, panic, ◌>>=◌, Error,
}
use velkar_gpu.Word.{Bytes}
use velkar_gpu.Packages.{Packages}
use velkar_gpu.Pow.Header.{RpcBlock}
use velkar_gpu.Pow.State.{State}
use velkar_gpu.Client.{
  VelkardHandler, VelkardMessage, submit_block, Payload, get_block_template_response, Received,
  connect, add_devfund, client_send, notify_new_block_template_request, client_get_block_template,
  handle_payload,
}
use velkar_gpu.Watch.{Cell, empty}
use velkar_gpu.Gpu.{GpuConfig}
use velkar_gpu.Gpu.Searcher.{Searching}
use velkar_gpu.Miner.{MinerManager, usize_max, process_block}
use velkar_gpu.Miner.Node.{NodeThread, NodeFound, NodeRan, node_round}
use velkar_gpu.Start.{rpc_devfund_address, devfund_percent, launched}

-- The client, the store with the threads that share it, every value that the watched template has
-- had, and the templates that the node has sent.
pub record Solo (Searcher Body : Type 0) : Type 0 where
  pub handler : VelkardHandler Body
  pub manager : MinerManager Body
  pub workers : ℕ
  pub threads : ℕ → NodeThread Searcher Body
  pub cells : List (Cell (State Body))
  pub templates : List (RpcBlock Body)

module _ {Body : Type 0} where
  -- `MinerManager::new`, the store.
  abbrev pub new_manager : MinerManager Body
  new_manager = record {
    block_channel = empty;
    is_synced = true;
    current_state_id = 0;
    solved_state_id = usize_max;
  }

  -- The messages of a round behind those that were sent.
  abbrev pub with_blocks : VelkardHandler Body → List (RpcBlock Body) → VelkardHandler Body
  with_blocks h bs = record h { sent = h.sent ++ map submit_block bs }

module _ {Searcher Body : Type 0} where
  abbrev pub idle_thread :
      (nonce : ℕ) → Option Searcher → (returned : Bool) → NodeThread Searcher Body
  idle_thread nonce gpu returned = record {
    gpu = gpu;
    nonce = nonce;
    state = none;
    block_channel = empty;
    hashes_tried = 0;
    returned = returned;
  }

  abbrev pub with_searcher : (nonce : ℕ) → Outcome Searcher → NodeThread Searcher Body
  with_searcher nonce (ok gpu) = idle_thread nonce (some gpu) false
  with_searcher nonce (err e) = idle_thread nonce none true
  with_searcher nonce panic = idle_thread nonce none true

  -- `launch_cpu_miner` up to its loop; a searcher that does not start ends its thread at once.
  unfoldable pub launch_node_thread :
      (new : GpuConfig → Outcome Searcher)
      → Option GpuConfig
      → (nonce : ℕ) → NodeThread Searcher Body
  launch_node_thread new none nonce = idle_thread nonce none false
  launch_node_thread new (some config) nonce = with_searcher nonce (new config)

  abbrev pub ended : NodeThread Searcher Body → NodeThread Searcher Body
  ended t = record t { returned = true }

  -- A connection's parts as it starts.
  abbrev pub begun :
      VelkardHandler Body → (workers : ℕ) → (ℕ → NodeThread Searcher Body) → Solo Searcher Body
  begun handler workers threads = record {
    handler = handler;
    manager = new_manager;
    workers = workers;
    threads = threads;
    cells = empty.inner ∷ [];
    templates = [];
  }

  -- The start of a connection to a node, once it stands: its requests, and the threads.
  unfoldable pub opened :
      (physical : ℕ)
      → (GpuConfig → Outcome Searcher)
      → (nonces : ℕ → ℕ) → Option ℕ
      → Option GpuConfig
      → (miner_address : Bytes) → Bool
      → (extra_data : Bytes) → Outcome (Solo Searcher Body)
  opened physical searcher nonces n_cpus config miner_address not_synced extra_data = do
    let client = connect miner_address not_synced extra_data
    asked ←
        client_send (add_devfund client rpc_devfund_address devfund_percent)
          notify_new_block_template_request
    ready ← client_get_block_template asked
    workers ← launched physical n_cpus config
    ok (begun ready workers (λ i. launch_node_thread searcher config (nonces i)))

module _ {Body : Type 0} where
  -- The template in a payload.
  abbrev pub offered : Option (Payload Body) → List (RpcBlock Body)
  offered (some (get_block_template_response (some block) is_synced error)) = block ∷ []
  offered payload = []

module _ (p : Packages) (fuel : ℕ) {Body : Type 0} where
  -- `process_block` as the client calls it; `none` stays where no matrix was found.
  abbrev pub process_with :
      (fresh : ℕ)
      → Option (MinerManager Body)
      → Option (RpcBlock Body)
      → Outcome (Option (MinerManager Body))
  process_with fresh none block = ok none
  process_with fresh (some m) block = process_block p fuel m fresh block

module _ (p : Packages) (fuel : ℕ) {Body : Type 0} (g : Searching Body) where
  -- A round looks at any values that the template has had, and finds the solved state as it is at its
  -- exchange.
  pub record CanFind (s : Solo g.Searcher Body) (f : NodeFound Body) : Type 0 where
    pub looks : All (λ c. Occurs c s.cells) f.looks
    pub looks_solved : All (λ c. Occurs c s.cells) f.looks_solved
    pub seen : Occurs f.seen s.cells
    pub solved : f.solved_state_id ≡ s.manager.solved_state_id

  pub data Step (s : Solo g.Searcher Body) : Solo g.Searcher Body → Type 0 where
    listens :
        (payload : Option (Payload Body)) (fresh : ℕ)
        (r : Received Body (Option (MinerManager Body))) (manager : MinerManager Body)
        → handle_payload (process_with p fuel fresh) s.handler (some s.manager) payload ≡ ok r
        → r.miner ≡ some manager
        → Step s (record s {
          handler = r.handler;
          manager = manager;
          cells = manager.block_channel.inner ∷ s.cells;
          templates = offered payload ++ s.templates;
        })
    mines :
        (i : ℕ) (f : NodeFound Body) (r : NodeRan g.Searcher Body)
        → i < s.workers
        → (s.threads i).returned ≡ false
        → CanFind s f
        → node_round p g (s.threads i) f ≡ ok r
        → Step s (record s {
          handler = with_blocks s.handler r.messages;
          manager = record s.manager { solved_state_id = r.solved_state_id };
          threads = update s.threads i r.thread;
        })
    -- A round that fails at its send has taken the mark, if it was free; other failures leave it.
    fails :
        (i : ℕ) (f : NodeFound Body) (e : Error) (mark : ℕ)
        → i < s.workers
        → (s.threads i).returned ≡ false
        → CanFind s f
        → node_round p g (s.threads i) f ≡ err e
        → (mark ≡ s.manager.solved_state_id) ⊎ (s.manager.solved_state_id ≡ usize_max)
        → Step s (record s {
          manager = record s.manager { solved_state_id = mark };
          threads = update s.threads i (ended (s.threads i));
        })

  pub data Reach (s : Solo g.Searcher Body) : Solo g.Searcher Body → Type 0 where
    here : Reach s s
    next : {t u : Solo g.Searcher Body} → Reach s t → Step t u → Reach s u
