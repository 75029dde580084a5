-- ===== src/Miner/Node/Stale.antt =====
-- A block for an older template that is found behind a new one.
use velkar_gpu.Base.{
  ℕ, Bool, true, ◌+◌, ◌≡◌, ◌≢◌, sym, ap, ◌∙◌, [], ◌∷◌, Option, none, some, inl, inr, ok, >>=-eq-ok,
  ok-injective,
}
use mathlib.Core.Option.{some-injective}
use velkar_gpu.Word.{u64}
use velkar_gpu.Packages.{Packages}
use velkar_gpu.Pow.Header.{RpcBlock}
use velkar_gpu.Pow.State.{State, new}
use velkar_gpu.Gpu.Searcher.{Searching}
use velkar_gpu.Miner.{MinerManager, Sent, usize_max, published, process_block, found_block}
use velkar_gpu.Miner.Node.{NodeThread, NodeFound, NodeRan, node_round}
use velkar_gpu.Miner.Node.Mined.{found_block-SentFor}
use velkar_gpu.Miner.Node.Blocks.{node_round-NodeRoundOf}

module _ (p : Packages) (fuel : ℕ) {Body : Type 0} where
  process_block-solved :
      (m m' : MinerManager Body) (fresh : ℕ) (template : RpcBlock Body)
      → process_block p fuel m fresh (some template) ≡ ok (some m')
      → m'.solved_state_id ≡ usize_max
  unfolding process_block
  process_block-solved m m' fresh template e =
      let made = >>=-eq-ok (new p {Body = Body} fuel m.current_state_id template) _ e in
      by_state made.0 (ok-injective made.2)
    where
      by_state :
          (o : Option (State Body))
          → published p fuel
              (record m { is_synced = true; current_state_id = u64 (m.current_state_id + 1) })
              fresh
              o
            ≡ some m'
          → m'.solved_state_id ≡ usize_max
      by_state none stored = absurd (cc stored)
      by_state (some s) stored = ap (λ t. t.solved_state_id) (sym (some-injective _ _ stored))

  -- After a new template, when a block is found under another id than `usize::MAX`, such as that of an
  -- older state, the block is submitted and takes the mark of the solved state. A round of a thread
  -- that finds this mark at its exchange, when it returns, submits nothing for the state that the
  -- thread holds, be it that of the new template, and leaves the mark as it is.
  pub stale_block_lem :
      (g : Searching Body) (m m' : MinerManager Body) (fresh : ℕ)
      (template older_block : RpcBlock Body) (older_id : ℕ) (receiving : Bool)
      (sent : Sent (RpcBlock Body)) (s : State Body) (t : NodeThread g.Searcher Body)
      (f : NodeFound Body) (r : NodeRan g.Searcher Body)
      → process_block p fuel m fresh (some template) ≡ ok (some m')
      → older_id ≢ usize_max
      → found_block p older_block older_id m'.solved_state_id receiving ≡ ok sent
      → t.state ≡ some s
      → f.solved_state_id ≡ sent.stored
      → node_round p g t f ≡ ok r
      → (sent.messages ≡ older_block ∷ []) × (r.messages ≡ []) × (r.solved_state_id ≡ older_id)
  stale_block_lem g m m' fresh template older_block older_id receiving sent s t f r e distinct found
        held at_exchange ran =
      let free = process_block-solved m m' fresh template e in
      elim (found_block-SentFor p older_block older_id m'.solved_state_id receiving sent found) [
        | inl lost ↦ absurd (lost.2 free)
        | inr won ↦ elim (node_round-NodeRoundOf p g s t f r held ran).once [
          | inl quiet ↦ (won.0, quiet.0, quiet.1 ∙ at_exchange ∙ won.1)
          | inr mined ↦ absurd (distinct (sym won.1 ∙ sym at_exchange ∙ mined.1))
        ]
      ]
