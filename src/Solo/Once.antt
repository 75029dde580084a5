-- ===== src/Solo/Once.antt =====
-- The blocks that the threads of a node's miner submit while the store gets no new template.
use mathlib.Core.List.{map, append-nil}
use velkar_gpu.Base.{
  ℕ, arith, ◌≡◌, ◌≢◌, refl, sym, ap, subst, ◌∙◌, List, [], ◌∷◌, ◌++◌, some, none, Option-cases, All,
  ForSome, Occurs, All-Occurs, update-all, length, inl, inr, ◌⊎◌, ok,
}
use velkar_gpu.Packages.{Packages}
use velkar_gpu.Pow.Header.{RpcBlock}
use velkar_gpu.Pow.State.{State}
use velkar_gpu.Client.{
  VelkardHandler, VelkardMessage, submit_block, get_info_request, get_block_template_request,
  submit_block_request, notify_block_added_request, notify_new_block_template_request,
}
use velkar_gpu.Solo.Wire.{AskedMore, handle_payload-AskedMore}
use velkar_gpu.Watch.{Cell}
use velkar_gpu.Gpu.Searcher.{Searching}
use velkar_gpu.Miner.{usize_max}
use velkar_gpu.Miner.Node.{NodeFound, NodeRan, node_round}
use velkar_gpu.Miner.Node.Looks.{left-ForSome}
use velkar_gpu.Miner.Node.Blocks.{NodeRoundOf, node_round-NodeRoundOf, waiting_round-NodeRoundOf}
use velkar_gpu.Solo.{Solo, Step, listens, mines, fails, CanFind, ended, process_with}

length-one : {A : Type 0} (xs : List A) → length xs ≡ 1 → (x : A) × (xs ≡ x ∷ [])
length-one [] h = absurd (omega arith)
length-one (x ∷ []) h = (x, refl)
length-one (x ∷ y ∷ xs) h = absurd (omega arith)

module _ {Body : Type 0} where
  -- The id of the state does not look like a mark that is free.
  abbrev pub IsMarkable : State Body → Type 0
  IsMarkable w = w.id ≢ usize_max

  abbrev IsMarkableCell : Cell (State Body) → Type 0
  IsMarkableCell c = ForSome IsMarkable c.value

  -- The blocks among the messages to the node.
  abbrev pub blocks_of : List (VelkardMessage Body) → List (RpcBlock Body)
  blocks_of [] = []
  blocks_of (submit_block_request (some b) allow_non_daa_blocks ∷ ms) = b ∷ blocks_of ms
  blocks_of (m ∷ ms) = blocks_of ms

module _ {Body : Type 0} where
  blocks_of-append :
      (xs ys : List (VelkardMessage Body)) → blocks_of (xs ++ ys) ≡ blocks_of xs ++ blocks_of ys
  blocks_of-append [] ys = refl
  blocks_of-append (submit_block_request (some b) allow ∷ xs) ys =
      ap (λ bs. b ∷ bs) (blocks_of-append xs ys)
  blocks_of-append (submit_block_request none allow ∷ xs) ys = blocks_of-append xs ys
  blocks_of-append (get_info_request ∷ xs) ys = blocks_of-append xs ys
  blocks_of-append (get_block_template_request address extra ∷ xs) ys = blocks_of-append xs ys
  blocks_of-append (notify_block_added_request ∷ xs) ys = blocks_of-append xs ys
  blocks_of-append (notify_new_block_template_request ∷ xs) ys = blocks_of-append xs ys

module _ (p : Packages) (fuel : ℕ) {Body : Type 0} (g : Searching Body) where
  -- The step is a round of a thread, or a payload of the node that leaves the store as it is, such as
  -- a notification, for which the client asks for a template, or an answer to a block.
  abbrev pub IsBetween : {s t : Solo g.Searcher Body} → Step p fuel g s t → Type 0
  IsBetween {s} (listens payload fresh r manager heard stored) = manager ≡ s.manager
  IsBetween (mines i f r bounded alive found ran) = Unit
  IsBetween (fails i f e mark bounded alive found ran left) = Unit

  -- Such steps, in any order.
  pub data Rounds (s : Solo g.Searcher Body) : Solo g.Searcher Body → Type 0 where
    done : Rounds s s
    also :
        {t u : Solo g.Searcher Body}
        → Rounds s t
        → (step : Step p fuel g t u) → IsBetween step
        → Rounds s u

  -- No state that the threads hold, or can still see, has the id `usize::MAX`.
  pub record IsNumbered (s : Solo g.Searcher Body) : Type 0 where
    pub cells : All IsMarkableCell s.cells
    pub channel : IsMarkableCell s.manager.block_channel.inner
    pub threads : (i : ℕ) → ForSome IsMarkable (s.threads i).state

  -- Nothing is sent and the mark stays, or one block is sent, which takes the mark.
  abbrev IsSingle : NodeFound Body → NodeRan g.Searcher Body → Type 0
  IsSingle f r =
      (r.messages ≡ []) × (r.solved_state_id ≡ f.solved_state_id)
      ⊎ ((b : RpcBlock Body) × (r.messages ≡ b ∷ [])
          × (f.solved_state_id ≡ usize_max)
          × (r.solved_state_id ≢ usize_max))

  abbrev RoundIsSingle : NodeFound Body → NodeRan g.Searcher Body → Type 0
  RoundIsSingle f r = IsSingle f r × ForSome IsMarkable r.thread.state

  worked_once :
      (s : Solo g.Searcher Body) (f : NodeFound Body) (r : NodeRan g.Searcher Body)
      (work : State Body)
      → IsNumbered s
      → CanFind p fuel g s f
      → IsMarkable work
      → NodeRoundOf p g work f r
      → RoundIsSingle f r
  worked_once s f r work numbered found h round = (
    elim round.once [
      | inl quiet ↦ inl quiet
      | inr (one, free, marked, left) ↦
          let sent = length-one r.messages one in
          inr (sent.0, sent.1, free, subst (λ n. n ≢ usize_max) (sym marked) h)
    ],
    left-ForSome IsMarkable (λ w nonce k. k) s.cells numbered.cells f found.seen found.looks_solved
        work r.thread.state h round.left,
  )

  round_once :
      (s : Solo g.Searcher Body) (i : ℕ) (f : NodeFound Body) (r : NodeRan g.Searcher Body)
      → IsNumbered s
      → CanFind p fuel g s f
      → node_round p g (s.threads i) f ≡ ok r
      → RoundIsSingle f r
  round_once s i f r numbered found ran = elim (Option-cases (s.threads i).state) [
    | inr (work, held) ↦
        worked_once s f r work numbered found (subst (ForSome IsMarkable) held (numbered.threads i))
          (node_round-NodeRoundOf p g work (s.threads i) f r held ran)
    | inl waits ↦ elim (waiting_round-NodeRoundOf p g (s.threads i) f r waits ran) [
      | inl (quiet, still) ↦
          (inl (ap (λ q. q.messages) quiet, ap (λ q. q.solved_state_id) quiet), rw still tt)
      | inr (work, c, place, saw, round) ↦
          worked_once s f r work numbered found
            (subst (ForSome IsMarkable) saw (
              All-Occurs IsMarkableCell numbered.cells
                (All-Occurs (λ c. Occurs c s.cells) found.looks place)))
            round
    ]
  ]

  Step-IsNumbered :
      {s t : Solo g.Searcher Body} (step : Step p fuel g s t)
      → IsBetween step
      → IsNumbered s
      → IsNumbered t
  Step-IsNumbered (listens payload fresh r manager heard stored) between numbered =
      let channel =
        subst (λ m. IsMarkableCell m.block_channel.inner) (sym between) numbered.channel in
      record { cells = (channel, numbered.cells); channel = channel; threads = numbered.threads }
  Step-IsNumbered {s} (mines i f r bounded alive found ran) between numbered = record {
    cells = numbered.cells;
    channel = numbered.channel;
    threads =
        update-all (λ t. ForSome IsMarkable t.state) s.threads i r.thread
          (round_once s i f r numbered found ran).1 numbered.threads;
  }
  Step-IsNumbered {s} (fails i f e mark bounded alive found ran left) between numbered = record {
    cells = numbered.cells;
    channel = numbered.channel;
    threads =
        update-all (λ t. ForSome IsMarkable t.state) s.threads i (ended (s.threads i))
          (numbered.threads i) numbered.threads;
  }

  -- The mark is the same, or it was free.
  abbrev IsKept : ℕ → ℕ → Type 0
  IsKept before after = (after ≡ before) ⊎ (before ≡ usize_max)

  -- No block is added to those that were sent, or one is, for which the mark was free and is taken.
  abbrev pub IsOnce : Solo g.Searcher Body → Solo g.Searcher Body → Type 0
  IsOnce s t =
      (blocks_of t.handler.sent ≡ blocks_of s.handler.sent)
        × IsKept s.manager.solved_state_id t.manager.solved_state_id
      ⊎ ((b : RpcBlock Body) × (blocks_of t.handler.sent ≡ blocks_of s.handler.sent ++ b ∷ [])
          × (s.manager.solved_state_id ≡ usize_max)
          × (t.manager.solved_state_id ≢ usize_max))

  asks_nothing_else :
      (h h' : VelkardHandler Body) → AskedMore h h' → blocks_of h'.sent ≡ blocks_of h.sent
  asks_nothing_else h h' (inl same) = ap blocks_of same
  asks_nothing_else h h' (inr (address, extra, asked)) =
      ap blocks_of asked ∙ blocks_of-append h.sent _ ∙ append-nil _

  Step-IsOnce :
      {s t : Solo g.Searcher Body} (step : Step p fuel g s t)
      → IsBetween step
      → IsNumbered s
      → IsOnce s t
  Step-IsOnce {s} (listens payload fresh r manager heard stored) between numbered = inl (
    asks_nothing_else s.handler r.handler (
        handle_payload-AskedMore (process_with p fuel fresh) s.handler (some s.manager) payload r
          heard),
    inl (ap (λ m. m.solved_state_id) between),
  )
  Step-IsOnce {s} (mines i f r bounded alive found ran) between numbered =
      let behind =
        λ (ms : List (RpcBlock Body)). blocks_of (s.handler.sent ++ map submit_block ms) in
      elim (round_once s i f r numbered found ran).0 [
        | inl (quiet, kept) ↦
            inl (
              ap behind quiet ∙ ap blocks_of (append-nil s.handler.sent),
              inl (kept ∙ found.solved),
            )
        | inr (b, one, free, taken) ↦
            inr
              (b, ap behind one ∙ blocks_of-append s.handler.sent _, sym found.solved ∙ free, taken)
      ]
  Step-IsOnce (fails i f e mark bounded alive found ran left) between numbered = inl (refl, left)

  IsKept-trans : (l m n : ℕ) → IsKept l m → IsKept m n → IsKept l n
  IsKept-trans l m n (inr free) after = inr free
  IsKept-trans l m n (inl same) (inl again) = inl (again ∙ same)
  IsKept-trans l m n (inl same) (inr free) = inr (sym same ∙ free)

  was_free : (m n : ℕ) → IsKept m n → n ≡ usize_max → m ≡ usize_max
  was_free m n (inl same) free = sym same ∙ free
  was_free m n (inr free) h = free

  still_taken : (m n : ℕ) → IsKept m n → m ≢ usize_max → n ≢ usize_max
  still_taken m n (inl same) taken = subst (λ k. k ≢ usize_max) (sym same) taken
  still_taken m n (inr free) taken = absurd (taken free)

  IsOnce-trans : (s t u : Solo g.Searcher Body) → IsOnce s t → IsOnce t u → IsOnce s u
  IsOnce-trans s t u (inl before) (inl after) =
      inl (after.0 ∙ before.0, IsKept-trans _ _ _ before.1 after.1)
  IsOnce-trans s t u (inl before) (inr (b, one, free, taken)) =
      inr (b, one ∙ ap (λ bs. bs ++ b ∷ []) before.0, was_free _ _ before.1 free, taken)
  IsOnce-trans s t u (inr (b, one, free, taken)) (inl after) =
      inr (b, after.0 ∙ one, free, still_taken _ _ after.1 taken)
  IsOnce-trans s t u (inr (b, one, free, taken)) (inr again) = absurd (taken again.2)

  Rounds-IsNumbered : {s t : Solo g.Searcher Body} → IsNumbered s → Rounds s t → IsNumbered t
  Rounds-IsNumbered numbered done = numbered
  Rounds-IsNumbered numbered (also rounds step between) =
      Step-IsNumbered step between (Rounds-IsNumbered numbered rounds)

  -- In any rounds of the threads of a node's miner, interleaved in any order with payloads of the
  -- node that leave the store as it is, notifications with their requests included, with a GPU or
  -- without one, and whatever the threads see of earlier templates, at most one block is submitted:
  -- no block is added to those that were sent, or one is, for which the mark of the solved state was
  -- free and is taken. So once the mark is taken, no block is submitted. The ids of the states that
  -- the threads hold or can still see, and of the watched state, are not `usize::MAX`.
  pub Rounds-IsOnce : {s t : Solo g.Searcher Body} → IsNumbered s → Rounds s t → IsOnce s t
  Rounds-IsOnce numbered done = inl (refl, inl refl)
  Rounds-IsOnce {s} {t = u} numbered (also {t = m} rounds step between) =
      IsOnce-trans s m u (Rounds-IsOnce numbered rounds)
        (Step-IsOnce step between (Rounds-IsNumbered numbered rounds))
