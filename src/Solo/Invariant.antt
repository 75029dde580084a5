-- ===== src/Solo/Invariant.antt =====
-- What holds of the miner of a node after any steps.
use mathlib.Core.List.{map}
use velkar_gpu.Base.{
  ℕ, ◌≡◌, sym, subst, true, false, List, [], ◌∷◌, ◌++◌, none, some, All, All-append, All-map,
  ForSome, ForSome-map, Occurs, All-Occurs, update-all, Option-cases, inl, inr, ok,
}
use velkar_gpu.Packages.{Packages}
use velkar_gpu.Pow.Header.{RpcBlock}
use velkar_gpu.Pow.State.{State}
use velkar_gpu.Client.{
  VelkardHandler, VelkardMessage, get_info_request, get_block_template_request,
  submit_block_request, notify_block_added_request, notify_new_block_template_request, submit_block,
}
use velkar_gpu.Gpu.Searcher.{Searching}
use velkar_gpu.Miner.Node.{NodeFound, NodeRan, node_round}
use velkar_gpu.Miner.Node.Looks.{left-ForSome}
use velkar_gpu.Miner.Node.Blocks.{NodeRoundOf, node_round-NodeRoundOf, waiting_round-NodeRoundOf}
use velkar_gpu.Solo.{Solo, Step, listens, mines, fails, Reach, here, next, CanFind, offered, ended}
use velkar_gpu.Solo.Proper.{
  IsWork, IsProper, IsCell, IsWork-later, IsProper-later, IsWork-nonce, IsMined-IsProper,
}
use velkar_gpu.Solo.Wire.{AskedMore, handle_payload-AskedMore, handle_payload-IsCell}

module _ (p : Packages) (fuel : ℕ) {Body : Type 0} where
  -- A block that is submitted is proper; other messages have no block.
  abbrev pub IsProperMessage : List (RpcBlock Body) → VelkardMessage Body → Type 0
  IsProperMessage templates get_info_request = Unit
  IsProperMessage templates (get_block_template_request pay_address extra_data) = Unit
  IsProperMessage templates (submit_block_request none allow_non_daa_blocks) = ⊥
  IsProperMessage templates (submit_block_request (some b) true) = ⊥
  IsProperMessage templates (submit_block_request (some b) false) = IsProper p fuel Body templates b
  IsProperMessage templates notify_block_added_request = Unit
  IsProperMessage templates notify_new_block_template_request = Unit

module _ (p : Packages) (fuel : ℕ) {Body : Type 0} (templates : List (RpcBlock Body)) where
  message_later :
      (bs : List (RpcBlock Body)) (m : VelkardMessage Body)
      → IsProperMessage p fuel templates m
      → IsProperMessage p fuel (bs ++ templates) m
  message_later bs get_info_request h = tt
  message_later bs (get_block_template_request pay_address extra_data) h = tt
  message_later bs (submit_block_request none allow_non_daa_blocks) h = h
  message_later bs (submit_block_request (some b) true) h = h
  message_later bs (submit_block_request (some b) false) h =
      IsProper-later p fuel Body {templates = templates} bs b h
  message_later bs notify_block_added_request h = tt
  message_later bs notify_new_block_template_request h = tt

  submitted_proper :
      (bs : List (RpcBlock Body))
      → All (IsProper p fuel Body templates) bs
      → All (IsProperMessage p fuel templates) (map submit_block bs)
  submitted_proper [] h = tt
  submitted_proper (b ∷ bs) h = (h.0, submitted_proper bs h.1)

  pub asked_proper :
      (h h' : VelkardHandler Body)
      → AskedMore h h'
      → All (IsProperMessage p fuel templates) h.sent
      → All (IsProperMessage p fuel templates) h'.sent
  asked_proper h h' (inl same) sent = subst (All (IsProperMessage p fuel templates)) (sym same) sent
  asked_proper h h' (inr (pay_address, extra_data, more)) sent =
      subst (All (IsProperMessage p fuel templates)) (sym more) (
        All-append (IsProperMessage p fuel templates) h.sent
          (get_block_template_request pay_address extra_data ∷ []) sent (tt, tt))

module _ (p : Packages) (fuel : ℕ) {Body : Type 0} (g : Searching Body) where
  -- All blocks sent are proper, and the threads work on the states of templates of the node.
  pub record IsSound (s : Solo g.Searcher Body) : Type 0 where
    pub sent : All (IsProperMessage p fuel s.templates) s.handler.sent
    pub cells : All (IsCell p fuel Body s.templates) s.cells
    pub channel : IsCell p fuel Body s.templates s.manager.block_channel.inner
    pub threads : (i : ℕ) → ForSome (IsWork p fuel Body s.templates) (s.threads i).state

  -- What a round sends is proper, and what the thread is left with is work.
  abbrev RoundIsSound : Solo g.Searcher Body → NodeRan g.Searcher Body → Type 0
  RoundIsSound s r =
      All (IsProper p fuel Body s.templates) r.messages
      × ForSome (IsWork p fuel Body s.templates) r.thread.state

  worked :
      (s : Solo g.Searcher Body) (f : NodeFound Body) (r : NodeRan g.Searcher Body)
      (work : State Body)
      → IsSound s
      → CanFind p fuel g s f
      → IsWork p fuel Body s.templates work
      → NodeRoundOf p g work f r
      → RoundIsSound s r
  worked s f r work sound found h round = (
    All-map (λ b. IsMined-IsProper p fuel Body work b h) r.messages round.mined,
    left-ForSome (IsWork p fuel Body s.templates) (IsWork-nonce p fuel Body) s.cells sound.cells f
        found.seen found.looks_solved work r.thread.state h round.left,
  )

  round_sound :
      (s : Solo g.Searcher Body) (i : ℕ) (f : NodeFound Body) (r : NodeRan g.Searcher Body)
      → IsSound s
      → CanFind p fuel g s f
      → node_round p g (s.threads i) f ≡ ok r
      → RoundIsSound s r
  round_sound s i f r sound found ran = elim (Option-cases (s.threads i).state) [
    | inr (work, held) ↦
        worked s f r work sound found
          (subst (ForSome (IsWork p fuel Body s.templates)) held (sound.threads i))
          (node_round-NodeRoundOf p g work (s.threads i) f r held ran)
    | inl waits ↦ elim (waiting_round-NodeRoundOf p g (s.threads i) f r waits ran) [
      | inl (quiet, still) ↦ (rw quiet tt, rw still tt)
      | inr (work, c, place, saw, round) ↦
          worked s f r work sound found
            (subst (ForSome (IsWork p fuel Body s.templates)) saw (
              All-Occurs (IsCell p fuel Body s.templates) sound.cells
                (All-Occurs (λ c. Occurs c s.cells) found.looks place)))
            round
    ]
  ]

  Step-IsSound : {s t : Solo g.Searcher Body} → Step p fuel g s t → IsSound s → IsSound t
  Step-IsSound {s} (listens payload fresh r manager handled last) sound =
      let bs = offered payload in
      let cell =
        handle_payload-IsCell p fuel s.templates s.handler s.manager manager fresh payload r handled
          last sound.channel in
      let later = IsWork-later p fuel Body {templates = s.templates} bs in
      record {
        sent =
            asked_proper p fuel (bs ++ s.templates) s.handler r.handler
              (handle_payload-AskedMore _ s.handler (some s.manager) payload r handled)
              (All-map (message_later p fuel s.templates bs) s.handler.sent sound.sent);
        cells = (cell, All-map (λ c. ForSome-map later c.value) s.cells sound.cells);
        channel = cell;
        threads = λ i. ForSome-map later (s.threads i).state (sound.threads i);
      }
  Step-IsSound {s} (mines i f r low alive found ran) sound =
      let round = round_sound s i f r sound found ran in
      record {
        sent =
            All-append (IsProperMessage p fuel s.templates) s.handler.sent
              (map submit_block r.messages) sound.sent
              (submitted_proper p fuel s.templates r.messages round.0);
        cells = sound.cells;
        channel = sound.channel;
        threads =
            update-all (λ t. ForSome (IsWork p fuel Body s.templates) t.state) s.threads i r.thread
              round.1 sound.threads;
      }
  Step-IsSound {s} (fails i f e mark low alive found ran left) sound = record {
    sent = sound.sent;
    cells = sound.cells;
    channel = sound.channel;
    threads =
        update-all (λ t. ForSome (IsWork p fuel Body s.templates) t.state) s.threads i
          (ended (s.threads i)) (sound.threads i) sound.threads;
  }

  pub Reach-IsSound : {s t : Solo g.Searcher Body} → IsSound s → Reach p fuel g s t → IsSound t
  Reach-IsSound sound here = sound
  Reach-IsSound sound (next r st) = Step-IsSound st (Reach-IsSound sound r)
