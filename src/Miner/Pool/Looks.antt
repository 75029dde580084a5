-- ===== src/Miner/Pool/Looks.antt =====
-- How the looks at the watched job change a thread of the pool's miner.
use mathlib.Core.Option
use mathlib.Core.Option.{some-injective}
use velkar_gpu.Base.{
  ◌+◌, ◌%◌, ◌≡◌, refl, subst, Bool, List, [], ◌∷◌, Option, none, some, ForSome, All, ◌==◌,
  Bool-cases, inl, inr, ◌⊎◌,
}
use velkar_gpu.Base.Chain.{unwrap_or}
use velkar_gpu.Word.{u64}
use velkar_gpu.Pow.State.{State}
use velkar_gpu.Watch.{Cell, WatchSwap, observe, has_changed, get_changed, wait_for_change}
use velkar_gpu.Miner.{Thread, next_nonce, take_job}
use velkar_gpu.Miner.Pool.{taken_job, awaited_job, switched, look_at_job}

module _ {Body : Type 0} where
  pub next_nonce-nonce :
      (t : Thread Body) (shutdown : Bool) → (next_nonce t shutdown).nonce ≡ u64 (t.nonce + 1)
  unfolding next_nonce
  next_nonce-nonce t shutdown = elim (Bool-cases (u64 (t.nonce + 1) % 128 == 0)) [
    | inr no_look ↦ rw no_look refl
    | inl look ↦ elim (Bool-cases shutdown) [
      | inl down ↦ rw (look, down) refl
      | inr up ↦ rw (look, up) (taken_nonce (get_changed t.job_channel))
    ]
  ]
    where
      taken_nonce :
          (o : Option (Option (State Body)))
          → (take_job
              (record t { nonce = u64 (t.nonce + 1); hashes_tried = u64 (t.hashes_tried + 128) })
              o).nonce
            ≡ u64 (t.nonce + 1)
      taken_nonce none = refl
      taken_nonce (some state) = refl

  -- Between two threads, the nonce is the same, and whether they returned.
  abbrev pub Kept : Thread Body → Thread Body → Type 0
  Kept t t' = (t'.nonce ≡ t.nonce) × (t'.returned ≡ t.returned)

  pub awaited_job-Kept :
      (t : Thread Body) (looks : List (Cell (State Body))) (o : Option (State Body))
      → Kept t (awaited_job t looks o)
  awaited_job-Kept t looks (some s) = (refl, refl)
  awaited_job-Kept t looks none = by_wait (wait_for_change looks t.job_channel)
    where
      by_wait :
          (o : Option (WatchSwap (State Body))) → Kept t (unwrap_or (Option.map (taken_job t) o) t)
      by_wait none = (refl, refl)
      by_wait (some w) = (refl, refl)

  -- A look leaves the job as it was or as it was seen.
  pub look_at_job-state :
      (t : Thread Body) (seen : Cell (State Body))
      → Kept t (look_at_job t seen)
        × (((look_at_job t seen).state ≡ t.state) ⊎ ((look_at_job t seen).state ≡ seen.value))
  unfolding get_changed
  look_at_job-state t seen = elim (Bool-cases (has_changed (observe seen t.job_channel))) [
    | inr same ↦ rw same ((refl, refl), inl refl)
    | inl changed ↦ rw changed (by_value seen.value)
  ]
    where
      observed : Thread Body
      observed = record t { job_channel = observe seen t.job_channel }

      by_value :
          (o : Option (State Body))
          → Kept t (switched observed (some o))
            × (((switched observed (some o)).state ≡ t.state)
                ⊎ ((switched observed (some o)).state ≡ o))
      by_value none = ((refl, refl), inl refl)
      by_value (some s) = ((refl, refl), inr refl)

  -- The end of a round leaves the job as it was or as it was seen.
  pub next_nonce-state :
      (t : Thread Body) (shutdown : Bool)
      → ((next_nonce t shutdown).state ≡ t.state)
        ⊎ ((next_nonce t shutdown).state ≡ t.job_channel.inner.value)
  unfolding next_nonce get_changed
  next_nonce-state t shutdown = elim (Bool-cases (u64 (t.nonce + 1) % 128 == 0)) [
    | inr no_look ↦ rw no_look (inl refl)
    | inl look ↦ elim (Bool-cases shutdown) [
      | inl down ↦ rw (look, down) (inl refl)
      | inr up ↦ elim (Bool-cases (has_changed t.job_channel)) [
        | inl changed ↦ rw (look, up, changed) (inr refl)
        | inr same ↦ rw (look, up, same) (inl refl)
      ]
    ]
  ]

module _ {Body : Type 0} (P : State Body → Type 0) where
  awaited_watch :
      (looks : List (Cell (State Body))) (w w' : WatchSwap (State Body))
      → All (λ c. ForSome P c.value) looks
      → wait_for_change looks w ≡ some w'
      → ForSome P w'.cached.value
  unfolding wait_for_change
  awaited_watch [] w w' h e = absurd (cc e)
  awaited_watch (c ∷ looks) w w' h e = elim (Bool-cases (has_changed (observe c w))) [
    | inl changed ↦ subst (λ t. ForSome P t.cached.value) (some-injective _ _ (rw changed at e)) h.0
    | inr same ↦ awaited_watch looks (observe c w) w' h.1 (rw same at e)
  ]

  -- A property of the job at hand and of those at the looks is one of the job behind the wait.
  pub awaited_job-ForSome :
      (t : Thread Body) (looks : List (Cell (State Body))) (o : Option (State Body))
      → o ≡ t.state
      → ForSome P o
      → All (λ c. ForSome P c.value) looks
      → ForSome P (awaited_job t looks o).state
  awaited_job-ForSome t looks (some s) same h seen = subst (ForSome P) same h
  awaited_job-ForSome t looks none same h seen =
      by_wait (wait_for_change looks t.job_channel) (λ w. awaited_watch looks t.job_channel w seen)
    where
      by_wait :
          (o : Option (WatchSwap (State Body)))
          → ((w : WatchSwap (State Body)) → o ≡ some w → ForSome P w.cached.value)
          → ForSome P (unwrap_or (Option.map (taken_job t) o) t).state
      by_wait none at_end = subst (ForSome P) same h
      by_wait (some w) at_end = at_end w refl
