-- ===== src/Miner/Node/Looks.antt =====
-- How the looks at the watched template change a thread of the node's miner.
use mathlib.Core.Option
use mathlib.Core.Option.{some-injective}
use velkar_gpu.Base.Chain.{unwrap_or}
use velkar_gpu.Base.{
  All, ForSome, All-Occurs, subst, ℕ, ◌+◌, ◌%◌, ◌≡◌, refl, sym, ap, List, [], ◌∷◌, Option, none,
  some, Occurs, here, there, ◌==◌, Bool-cases, inl, inr, ◌⊎◌,
}
use velkar_gpu.Word.{u64}
use velkar_gpu.Pow.State.{State}
use velkar_gpu.Watch.{Cell, WatchSwap, wait_for_change, has_changed, get_changed, observe}
use velkar_gpu.Miner.Node.{taken, NodeThread, NodeFound, awaited, next_nonce}

module _ {Body : Type 0} where
  -- A state that a thread can be left with: none, the one it worked on with some nonce, or one that
  -- it saw.
  abbrev pub LeftState : State Body → NodeFound Body → Option (State Body) → Type 0
  LeftState s f o =
      (o ≡ none)
      ⊎ ((nonce : ℕ) × (o ≡ some (record s { nonce = nonce })))
      ⊎ (o ≡ f.seen.value)
      ⊎ ((c : Cell (State Body)) × Occurs c f.looks_solved × (o ≡ c.value))

  -- What holds for the state whatever its nonce, and for all that was seen, holds for what is left.
  pub left-ForSome :
      (P : State Body → Type 0)
      → ((w : State Body) (nonce : ℕ) → P w → P (record w { nonce = nonce }))
      → (cells : List (Cell (State Body))) → All (λ c. ForSome P c.value) cells
      → (f : NodeFound Body) → Occurs f.seen cells
      → All (λ c. Occurs c cells) f.looks_solved
      → (s : State Body) (o : Option (State Body)) → P s
      → LeftState s f o
      → ForSome P o
  left-ForSome P with_nonce cells all f seen looks s o h (inl gone) = rw gone tt
  left-ForSome P with_nonce cells all f seen looks s o h (inr (inl (nonce, left))) =
      subst (ForSome P) (sym left) (with_nonce s nonce h)
  left-ForSome P with_nonce cells all f seen looks s o h (inr (inr (inl saw))) =
      subst (ForSome P) (sym saw) (All-Occurs (λ c. ForSome P c.value) all seen)
  left-ForSome P with_nonce cells all f seen looks s o h (inr (inr (inr (c, place, saw)))) =
      subst (ForSome P) (sym saw)
        (All-Occurs (λ c. ForSome P c.value) all (All-Occurs (λ c. Occurs c cells) looks place))

  awaited_watch :
      (looks : List (Cell (State Body))) (w w' : WatchSwap (State Body))
      → wait_for_change looks w ≡ some w'
      → Occurs w'.cached looks
  unfolding wait_for_change
  awaited_watch [] w w' e = absurd (cc e)
  awaited_watch (c ∷ looks) w w' e = elim (Bool-cases (has_changed (observe c w))) [
    | inl changed ↦ here (ap (λ t. t.cached) (sym (some-injective _ _ (rw changed at e))))
    | inr same ↦ there (awaited_watch looks (observe c w) w' (rw same at e))
  ]

module _ {Searcher Body : Type 0} where
  -- A thread without a state waits on without one, or has one that it saw.
  pub awaited-state :
      (t : NodeThread Searcher Body) (looks : List (Cell (State Body)))
      → t.state ≡ none
      → ((awaited t looks).state ≡ none)
        ⊎ ((c : Cell (State Body)) × Occurs c looks × ((awaited t looks).state ≡ c.value))
  awaited-state t looks start =
      by_wait (wait_for_change looks t.block_channel) (awaited_watch looks t.block_channel)
    where
      by_wait :
          (o : Option (WatchSwap (State Body)))
          → ((w : WatchSwap (State Body)) → o ≡ some w → Occurs w.cached looks)
          → ((unwrap_or (Option.map (taken t) o) t).state ≡ none)
            ⊎ ((c : Cell (State Body)) × Occurs c looks
                × ((unwrap_or (Option.map (taken t) o) t).state ≡ c.value))
      by_wait none looked = inl start
      by_wait (some w) looked = inr (w.cached, looked w refl, refl)

  pub next_nonce-state :
      (t : NodeThread Searcher Body) (f : NodeFound Body)
      → ((next_nonce t f).state ≡ t.state) ⊎ ((next_nonce t f).state ≡ f.seen.value)
  unfolding next_nonce get_changed
  next_nonce-state t f = elim (Bool-cases (u64 (t.nonce + 1) % 128 == 0)) [
    | inr no_look ↦ rw no_look (inl refl)
    | inl look ↦ elim (Bool-cases f.shutdown) [
      | inl down ↦ rw (look, down) (inl refl)
      | inr up ↦ elim (Bool-cases (has_changed (observe f.seen t.block_channel))) [
        | inl changed ↦ rw (look, up, changed) (inr refl)
        | inr same ↦ rw (look, up, same) (inl refl)
      ]
    ]
  ]
