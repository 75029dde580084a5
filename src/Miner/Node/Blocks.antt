-- ===== src/Miner/Node/Blocks.antt =====
-- The blocks that the threads of the node's miner send, and what a thread with a GPU overlooks.
use velkar_gpu.Base.{
  ℕ, ◌+◌, ◌≡◌, ◌≢◌, refl, sym, ap, subst, ◌∙◌, arith, Bool, false, List, [], ◌∷◌, length, Option,
  none, some, All, Occurs, ◌==◌, Bool-cases, inl, inr, ◌⊎◌, ok, ◌>>=◌, >>=-eq-ok, ok-injective,
}
use velkar_gpu.Word.{u64}
use velkar_gpu.Packages.{Packages}
use velkar_gpu.Pow.Header.{RpcBlock}
use velkar_gpu.Pow.State.{State, generate_block_if_pow}
use velkar_gpu.Watch.{Cell}
use velkar_gpu.Gpu.{Searched, GpuHit}
use velkar_gpu.Gpu.Searcher.{Searching}
use velkar_gpu.Miner.{Sent, found_block, usize_max}
use velkar_gpu.Miner.Node.Mined.{
  IsMined, generate_block_if_pow-IsMined, SentFor, found_block-SentFor,
}
use velkar_gpu.Miner.Node.Looks.{LeftState, awaited-state, next_nonce-state}
use velkar_gpu.Miner.Node.{
  NodeThread, NodeFound, NodeRan, quiet, awaited, awaited_state, next_nonce, submit_found,
  submit_if, cpu_round, first_hit, gpu_round, try_state, round_on, node_round, search_failed,
}

module _ (p : Packages) {Body : Type 0} (g : Searching Body) where
  -- A round on a state: it sends at most one block, mined for the state; if it sends one, no state
  -- was solved at the exchange, the state is solved now, and the thread waits for the next one.
  pub record NodeRoundOf (s : State Body) (f : NodeFound Body) (r : NodeRan g.Searcher Body)
      : Type 0 where
    pub mined : All (IsMined p s) r.messages
    pub once :
        ((r.messages ≡ []) × (r.solved_state_id ≡ f.solved_state_id))
        ⊎ ((length r.messages ≡ 1)
            × (f.solved_state_id ≡ usize_max)
            × (r.solved_state_id ≡ s.id)
            × (r.thread.state ≡ none))
    pub left : LeftState s f r.thread.state

  quiet-NodeRoundOf :
      (s : State Body) (f : NodeFound Body) (t : NodeThread g.Searcher Body)
      → LeftState s f t.state
      → NodeRoundOf s f (quiet t f.solved_state_id)
  quiet-NodeRoundOf s f t left = record { mined = tt; once = inl (refl, refl); left = left }

  sent-NodeRoundOf :
      (s : State Body) (f : NodeFound Body) (t : NodeThread g.Searcher Body) (b : RpcBlock Body)
      (left : ℕ) (ms : List (RpcBlock Body))
      → IsMined p s b
      → SentFor p b s.id f.solved_state_id ms left
      → NodeRoundOf s f
          (record { thread = record t { state = none }; solved_state_id = left; messages = ms })
  sent-NodeRoundOf s f t b left ms mined (inl lost) = record {
    mined = rw lost.0 tt;
    once = inl (lost.0, lost.1);
    left = inl refl;
  }
  sent-NodeRoundOf s f t b left ms mined (inr won) = record {
    mined = rw won.0 (mined, tt);
    once = inr (rw won.0 refl, won.2, won.1, refl);
    left = inl refl;
  }

  submit_found-NodeRoundOf :
      (s : State Body) (f : NodeFound Body) (t : NodeThread g.Searcher Body) (nonce : ℕ)
      (b : RpcBlock Body) (r : NodeRan g.Searcher Body)
      → IsMined p s b
      → submit_found p g t f.solved_state_id f.receiving (record s { nonce = nonce }) b ≡ ok r
      → NodeRoundOf s f r
  submit_found-NodeRoundOf s f t nonce b r mined e =
      let end : Sent (RpcBlock Body) → NodeRan g.Searcher Body = λ sent. record {
        thread = record t { state = none };
        solved_state_id = sent.stored;
        messages = sent.messages;
      } in
      let sent =
        >>=-eq-ok (found_block p b s.id f.solved_state_id f.receiving) (λ q. ok (end q)) e in
      subst (NodeRoundOf s f) (ok-injective sent.2) (
        sent-NodeRoundOf s f t b sent.0.stored sent.0.messages mined
          (found_block-SentFor p b s.id f.solved_state_id f.receiving sent.0 sent.1))

  try_nonce-NodeRoundOf :
      (s : State Body) (f : NodeFound Body) (t missed : NodeThread g.Searcher Body) (nonce : ℕ)
      (r : NodeRan g.Searcher Body)
      → LeftState s f missed.state
      → (generate_block_if_pow p (record s { nonce = nonce })
          >>= submit_if p g t f.solved_state_id f.receiving (record s { nonce = nonce }) missed)
        ≡ ok r
      → NodeRoundOf s f r
  try_nonce-NodeRoundOf s f t missed nonce r left e =
      let tried =
        >>=-eq-ok (generate_block_if_pow p (record s { nonce = nonce }))
          (submit_if p g t f.solved_state_id f.receiving (record s { nonce = nonce }) missed) e in
      by_block tried.0 tried.1 tried.2
    where
      by_block :
          (o : Option (RpcBlock Body))
          → generate_block_if_pow p (record s { nonce = nonce }) ≡ ok o
          → submit_if p g t f.solved_state_id f.receiving (record s { nonce = nonce }) missed o
            ≡ ok r
          → NodeRoundOf s f r
      by_block none made ended =
          subst (NodeRoundOf s f) (ok-injective ended) (quiet-NodeRoundOf s f missed left)
      by_block (some b) made sent =
          submit_found-NodeRoundOf s f t nonce b r (generate_block_if_pow-IsMined p s nonce b made)
            sent

  gpu_round-NodeRoundOf :
      (s : State Body) (f : NodeFound Body) (t : NodeThread g.Searcher Body) (gpu : g.Searcher)
      (r : NodeRan g.Searcher Body)
      → t.state ≡ some s
      → gpu_round p g t f.solved_state_id f.receiving s gpu ≡ ok r
      → NodeRoundOf s f r
  unfolding gpu_round
  gpu_round-NodeRoundOf s f t gpu r held e =
      let mined : Searched g.Searcher → NodeThread g.Searcher Body = λ x. record t {
        gpu = some x.searcher;
        nonce = u64 (t.nonce + g.batch_size x.searcher);
        hashes_tried = u64 (t.hashes_tried + g.batch_size x.searcher);
      } in
      let found =
        >>=-eq-ok (search_failed (g.search gpu s t.nonce s.block_target))
          (λ x. first_hit p g (mined x) f.solved_state_id f.receiving s x.hits) e in
      by_hits (mined found.0) found.0.hits held found.2
    where
      by_hits :
          (t' : NodeThread g.Searcher Body) (hits : List GpuHit)
          → t'.state ≡ some s
          → first_hit p g t' f.solved_state_id f.receiving s hits ≡ ok r
          → NodeRoundOf s f r
      by_hits t' [] kept ended =
          subst (NodeRoundOf s f) (ok-injective ended)
            (quiet-NodeRoundOf s f t' (inr (inl (s.nonce, kept))))
      by_hits t' (hit ∷ hits) kept tried =
          try_nonce-NodeRoundOf s f t' (record t' { state = some (record s { nonce = hit.nonce }) })
            hit.nonce r (inr (inl (hit.nonce, refl))) tried

  cpu_round-left :
      (s : State Body) (t : NodeThread g.Searcher Body) (f : NodeFound Body)
      → LeftState s f
          (next_nonce (record t { state = some (record s { nonce = t.nonce }) }) f).state
  cpu_round-left s t f =
      elim (next_nonce-state (record t { state = some (record s { nonce = t.nonce }) }) f) [
        | inl kept ↦ inr (inl (t.nonce, kept))
        | inr seen ↦ inr (inr (inl seen))
      ]

  solved_left :
      (s : State Body) (t : NodeThread g.Searcher Body) (f : NodeFound Body)
      → LeftState s f (awaited (record t { state = none }) f.looks_solved).state
  solved_left s t f = elim (awaited-state (record t { state = none }) f.looks_solved refl) [
    | inl waits ↦ inl waits
    | inr saw ↦ inr (inr (inr saw))
  ]

  -- A round on a state that the thread holds.
  round_on-NodeRoundOf :
      (s : State Body) (t : NodeThread g.Searcher Body) (f : NodeFound Body)
      (r : NodeRan g.Searcher Body)
      → t.state ≡ some s
      → round_on p g t f (some s) ≡ ok r
      → NodeRoundOf s f r
  unfolding cpu_round
  round_on-NodeRoundOf s t f r held ran = elim (Bool-cases (f.already_solved == s.id)) [
    | inl solved ↦ subst (NodeRoundOf s f) (ok-injective (rw solved at ran)) (
        quiet-NodeRoundOf s f (awaited (record t { state = none }) f.looks_solved)
          (solved_left s t f))
    | inr unsolved ↦ by_gpu t.gpu (rw unsolved at ran)
  ]
    where
      by_gpu : (o : Option g.Searcher) → try_state p g t f s o ≡ ok r → NodeRoundOf s f r
      by_gpu (some gpu) tried = gpu_round-NodeRoundOf s f t gpu r held tried
      by_gpu none tried =
          try_nonce-NodeRoundOf s f t
            (next_nonce (record t { state = some (record s { nonce = t.nonce }) }) f) t.nonce r
            (cpu_round-left s t f) tried

  -- A round of a thread of the node's miner that returns, with a GPU or without one and whatever the
  -- GPU reports, when the thread holds a state at its start: it sends at most one block, which is the
  -- template of the state with a nonce whose proof of work on the CPU is at most the block target; if
  -- it sends one, no state was marked as solved at its exchange, this one is afterwards, and the
  -- thread waits for the next. It ends without a state, or with this one, or with one that it saw.
  pub node_round-NodeRoundOf :
      (s : State Body) (t : NodeThread g.Searcher Body) (f : NodeFound Body)
      (r : NodeRan g.Searcher Body)
      → t.state ≡ some s
      → node_round p g t f ≡ ok r
      → NodeRoundOf s f r
  unfolding node_round
  node_round-NodeRoundOf s t f r held e =
      let start : awaited_state t f.looks t.state ≡ t = ap (awaited_state t f.looks) held in
      round_on-NodeRoundOf s t f r held
        (sym (ap (round_on p g t f) held) ∙ sym (ap (λ u. round_on p g u f u.state) start) ∙ e)

  -- The same for a thread that waits: it goes on waiting and sends nothing, or works on a state that
  -- it saw.
  pub waiting_round-NodeRoundOf :
      (t : NodeThread g.Searcher Body) (f : NodeFound Body) (r : NodeRan g.Searcher Body)
      → t.state ≡ none
      → node_round p g t f ≡ ok r
      → (r ≡ quiet r.thread f.solved_state_id) × (r.thread.state ≡ none)
        ⊎ ((s : State Body) × (c : Cell (State Body)) × Occurs c f.looks
            × (c.value ≡ some s)
            × NodeRoundOf s f r)
  unfolding node_round
  waiting_round-NodeRoundOf t f r waits e =
      let start : awaited_state t f.looks t.state ≡ t' = ap (awaited_state t f.looks) waits in
      by_state t'.state refl (sym (ap (λ u. round_on p g u f u.state) start) ∙ e)
    where
      t' : NodeThread g.Searcher Body
      t' = awaited t f.looks

      IsOutcome : Type 0
      IsOutcome =
          (r ≡ quiet r.thread f.solved_state_id) × (r.thread.state ≡ none)
          ⊎ ((s : State Body) × (c : Cell (State Body)) × Occurs c f.looks
              × (c.value ≡ some s)
              × NodeRoundOf s f r)

      by_state : (o : Option (State Body)) → t'.state ≡ o → round_on p g t' f o ≡ ok r → IsOutcome
      by_state none held ran = inl (
          subst (λ q. (q ≡ quiet q.thread f.solved_state_id) × (q.thread.state ≡ none))
            (ok-injective ran) (refl, held))
      by_state (some s) held ran = elim (awaited-state t f.looks waits) [
        | inl still ↦ absurd (cc (sym still ∙ held))
        | inr (c, place, saw) ↦
            inr (s, c, place, sym saw ∙ held, round_on-NodeRoundOf s t' f r held ran)
      ]

  node_round-gpu :
      (s : State Body) (gpu : g.Searcher) (t : NodeThread g.Searcher Body) (f : NodeFound Body)
      → t.state ≡ some s
      → t.gpu ≡ some gpu
      → f.already_solved ≢ s.id
      → node_round p g t f ≡ gpu_round p g t f.solved_state_id f.receiving s gpu
  unfolding node_round
  node_round-gpu s gpu t f held with_gpu unsolved =
      let start : awaited_state t f.looks t.state ≡ t = ap (awaited_state t f.looks) held in
      let other : (f.already_solved == s.id) ≡ false = ground arith in
      ap (λ u. round_on p g u f u.state) start
      ∙ ap (round_on p g t f) held
      ∙ rw other (ap (try_state p g t f s) with_gpu)

  -- A thread with a GPU that holds a state not marked as solved pays no heed to new templates or to
  -- the shutdown: with other values of both, its round is the same.
  pub gpu_overlooks :
      (s : State Body) (gpu : g.Searcher) (t : NodeThread g.Searcher Body) (f : NodeFound Body)
      (seen : Cell (State Body)) (shutdown : Bool)
      → t.state ≡ some s
      → t.gpu ≡ some gpu
      → f.already_solved ≢ s.id
      → node_round p g t f ≡ node_round p g t (record f { seen = seen; shutdown = shutdown })
  gpu_overlooks s gpu t f seen shutdown held with_gpu unsolved =
      node_round-gpu s gpu t f held with_gpu unsolved
      ∙ sym (
          node_round-gpu s gpu t (record f { seen = seen; shutdown = shutdown }) held with_gpu
            unsolved)
