-- ===== src/Miner/Blocks.antt =====
-- The blocks that the threads of the node's miner submit while nothing resets the mark.
use velkar_gpu.Base.{
  ok-injective, Bool, ℕ, ◌≤◌, ◌≡◌, ◌≢◌, ◌∙◌, sym, ap, arith, List, [], ◌∷◌, ◌++◌, length, All,
  length-append, inl, inr, Outcome, ok, ◌>>=◌, >>=-eq-ok,
}
use velkar_gpu.Packages.{Packages}
use velkar_gpu.Pow.Header.{RpcBlock}
use velkar_gpu.Miner.{usize_max, found_block}
use velkar_gpu.Miner.Node.Mined.{found_block-SentFor}

-- A thread's block, the id of the state that it was found for, and whether the channel has a
-- receiver at the send.
pub record Found (Body : Type 0) : Type 0 where
  pub block : RpcBlock Body
  pub state_id : ℕ
  pub receiving : Bool

module _ (p : Packages) {Body : Type 0} where
  -- The calls of `found_block` by the threads, in the order of their exchanges, and all that they send.
  abbrev pub found_blocks : ℕ → List (Found Body) → Outcome (List (RpcBlock Body))
  found_blocks stored [] = ok []
  found_blocks stored (f ∷ fs) = found_block p f.block f.state_id stored f.receiving >>= λ r.
      found_blocks r.stored fs >>= λ rest. ok (r.messages ++ rest)

  solved_sends_nothing :
      (stored : ℕ) (fs : List (Found Body)) (ms : List (RpcBlock Body))
      → stored ≢ usize_max
      → found_blocks stored fs ≡ ok ms
      → ms ≡ []
  solved_sends_nothing stored [] ms h e = sym (ok-injective e)
  solved_sends_nothing stored (f ∷ fs) ms h e =
      let first =
        >>=-eq-ok (found_block p f.block f.state_id stored f.receiving)
          (λ r. found_blocks r.stored fs >>= λ rest. ok (r.messages ++ rest)) e in
      let rest =
        >>=-eq-ok (found_blocks first.0.stored fs) (λ rest. ok (first.0.messages ++ rest))
          first.2 in
      elim (found_block-SentFor p f.block f.state_id stored f.receiving first.0 first.1) [
        | inr sent ↦ absurd (h sent.2)
        | inl quiet ↦
            sym (ok-injective rest.2)
            ∙ ap (λ t. t ++ rest.0) quiet.0
            ∙ solved_sends_nothing first.0.stored fs rest.0 (λ same. h (sym quiet.1 ∙ same)) rest.1
      ]

  -- Of the calls of `found_block` that run while nothing resets the mark, however many threads make
  -- them, for whatever states, and in whatever order they come, at most one sends a block, when all
  -- of them return without an error and the ids of the states are not `usize::MAX`.
  pub found_blocks-once :
      (stored : ℕ) (fs : List (Found Body)) (ms : List (RpcBlock Body))
      → All (λ f. f.state_id ≢ usize_max) fs
      → found_blocks stored fs ≡ ok ms
      → length ms ≤ 1
  found_blocks-once stored [] ms h e = omega (arith, ap length (ok-injective e))
  found_blocks-once stored (f ∷ fs) ms h e =
      let first =
        >>=-eq-ok (found_block p f.block f.state_id stored f.receiving)
          (λ r. found_blocks r.stored fs >>= λ rest. ok (r.messages ++ rest)) e in
      let rest =
        >>=-eq-ok (found_blocks first.0.stored fs) (λ rest. ok (first.0.messages ++ rest))
          first.2 in
      let total = sym (ap length (ok-injective rest.2)) ∙ length-append first.0.messages rest.0 in
      elim (found_block-SentFor p f.block f.state_id stored f.receiving first.0 first.1) [
        | inr sent ↦
            let nothing =
              solved_sends_nothing first.0.stored fs rest.0 (λ same. h.0 (sym sent.1 ∙ same))
                rest.1 in
            omega (arith, total, ap length sent.0, ap length nothing)
        | inl quiet ↦
            omega (
              arith,
              total,
              ap length quiet.0,
              found_blocks-once first.0.stored fs rest.0 h.1 rest.1,
            )
      ]
