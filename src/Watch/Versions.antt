-- ===== src/Watch/Versions.antt =====
-- What a watched value promises, without addresses: every value stored has a version of its own,
-- and a look reports the current value unless its handle has seen that version.
use velkar_gpu.Base.{
  ℕ, zero, suc, ◌+◌, ◌≡◌, ◌≢◌, ◌<◌, ◌↔◌, refl, ap₂, arith, true, false, List, [], ◌∷◌, ◌++◌, Option,
  none, some, All, ◌==◌, if◌then◌else◌, Bool-cases, inl, inr,
}
use velkar_gpu.Watch.{Cell, cell, get_changed, update_cached}
use velkar_gpu.Watch.Handles.{
  Handles, Use, store, clone_handle, look, Looked, clone_at, look_at, use_handles, reports, IsFresh,
  AllFresh,
}

-- The current version and its value, the versions that the handles have seen, and the next one. The
-- version of nothing is 0.
pub record Versions (A : Type 0) : Type 0 where
  pub current : ℕ
  pub value : Option A
  pub seen : List ℕ
  pub next : ℕ

module _ {A : Type 0} where
  abbrev pub spec_look : ℕ → Option A → ℕ → List ℕ → Looked (List ℕ) A
  spec_look current value i [] = record { after = []; reported = none }
  spec_look current value zero (n ∷ ns) =
      if n == current
      then record { after = n ∷ ns; reported = none }
      else record { after = current ∷ ns; reported = some value }
  spec_look current value (suc i) (n ∷ ns) =
      let r = spec_look current value i ns in record { after = n ∷ r.after; reported = r.reported }

  abbrev pub spec_use : Use A → Versions A → Looked (Versions A) A
  spec_use (store fresh none) v = record {
    after = record v { current = 0; value = none };
    reported = none;
  }
  spec_use (store fresh (some a)) v = record {
    after = record v { current = v.next; value = some a; next = v.next + 1 };
    reported = none;
  }
  spec_use (clone_handle i) v = record {
    after = record v { seen = clone_at i v.seen };
    reported = none;
  }
  spec_use (look i) v =
      let r = spec_look v.current v.value i v.seen in
      record { after = record v { seen = r.after }; reported = r.reported }

  abbrev pub spec_reports : List (Use A) → Versions A → List (Option (Option A))
  spec_reports [] v = []
  spec_reports (u ∷ us) v = let r = spec_use u v in r.reported ∷ spec_reports us r.after

  -- A cached address stands for a version: it is the shared address, or the null address, exactly
  -- when the version is the current one, or 0.
  abbrev StandsFor : (inner current next : ℕ) → Cell A → ℕ → Type 0
  StandsFor inner current next c n =
      ((c.address ≡ inner) ↔ (n ≡ current)) × ((c.address ≡ 0) ↔ (n ≡ 0)) × (n < next)

  abbrev AllStandFor : (inner current next : ℕ) → List (Cell A) → List ℕ → Type 0
  AllStandFor inner current next [] [] = Unit
  AllStandFor inner current next [] (n ∷ ns) = ⊥
  AllStandFor inner current next (c ∷ cs) [] = ⊥
  AllStandFor inner current next (c ∷ cs) (n ∷ ns) =
      StandsFor inner current next c n × AllStandFor inner current next cs ns

  record Refines (h : Handles A) (v : Versions A) : Type 0 where
    same_value : h.inner.value ≡ v.value
    null : (h.inner.address ≡ 0) ↔ (v.current ≡ 0)
    below : v.current < v.next
    handles : AllStandFor h.inner.address v.current v.next h.cached v.seen

  store_none :
      (inner current next : ℕ) (cs : List (Cell A)) (ns : List ℕ)
      → AllStandFor inner current next cs ns
      → AllStandFor 0 0 next cs ns
  store_none inner current next [] [] h = tt
  store_none inner current next [] (n ∷ ns) h = h
  store_none inner current next (c ∷ cs) [] h = h
  store_none inner current next (c ∷ cs) (n ∷ ns) h =
      ((h.0.1, h.0.1, h.0.2), store_none inner current next cs ns h.1)

  store_some :
      (inner current next fresh : ℕ) (cs : List (Cell A)) (ns : List ℕ)
      → AllStandFor inner current next cs ns
      → All (λ c. c.address ≢ fresh) cs
      → AllStandFor fresh next (next + 1) cs ns
  store_some inner current next fresh [] [] h new = tt
  store_some inner current next fresh [] (n ∷ ns) h new = h
  store_some inner current next fresh (c ∷ cs) [] h new = h
  store_some inner current next fresh (c ∷ cs) (n ∷ ns) h new = (
    ((λ e. absurd (new.0 e), λ e. absurd (omega arith)), h.0.1, omega arith),
    store_some inner current next fresh cs ns h.1 new.1,
  )

  clone_lem :
      (inner current next i : ℕ) (cs : List (Cell A)) (ns : List ℕ)
      → AllStandFor inner current next cs ns
      → AllStandFor inner current next (clone_at i cs) (clone_at i ns)
  clone_lem inner current next i [] [] h = tt
  clone_lem inner current next i [] (n ∷ ns) h = absurd h
  clone_lem inner current next i (c ∷ cs) [] h = absurd h
  clone_lem inner current next zero (c ∷ cs) (n ∷ ns) h =
      (h.0, append_one inner current next c n cs ns h.0 h.1)
    where
      append_one :
          (inner current next : ℕ) (c : Cell A) (n : ℕ) (cs : List (Cell A)) (ns : List ℕ)
          → StandsFor inner current next c n
          → AllStandFor inner current next cs ns
          → AllStandFor inner current next (cs ++ c ∷ []) (ns ++ n ∷ [])
      append_one inner current next c n [] [] one h = (one, tt)
      append_one inner current next c n [] (m ∷ ns) one h = absurd h
      append_one inner current next c n (d ∷ cs) [] one h = absurd h
      append_one inner current next c n (d ∷ cs) (m ∷ ns) one h =
          (h.0, append_one inner current next c n cs ns one h.1)
  clone_lem inner current next (suc i) (c ∷ cs) (n ∷ ns) h =
      (h.0, clone_lem inner current next i cs ns h.1)

  -- A look of the handles and one of the versions report the same, and go on standing for another.
  look_lem :
      (inner : Cell A) (current next i : ℕ) (cs : List (Cell A)) (ns : List ℕ)
      → (inner.address ≡ 0) ↔ (current ≡ 0)
      → current < next
      → AllStandFor inner.address current next cs ns
      → ((look_at inner i cs).reported ≡ (spec_look current inner.value i ns).reported)
        × AllStandFor inner.address current next
            (look_at inner i cs).after
            (spec_look current inner.value i ns).after
  unfolding get_changed update_cached
  look_lem inner current next i [] [] null below h = (refl, tt)
  look_lem inner current next i [] (n ∷ ns) null below h = absurd h
  look_lem inner current next i (c ∷ cs) [] null below h = absurd h
  look_lem inner current next (suc i) (c ∷ cs) (n ∷ ns) null below h =
      let rest = look_lem inner current next i cs ns null below h.1 in (rest.0, (h.0, rest.1))
  look_lem inner current next zero (c ∷ cs) (n ∷ ns) null below h =
      elim (Bool-cases (n == current)) [
        | inl same ↦
            let address : (c.address == inner.address) ≡ true = ground arith in
            (rw (same, address) refl, rw (same, address) h)
        | inr other ↦
            let address : (c.address == inner.address) ≡ false = ground arith in
            (
              rw (other, address) refl,
              rw (other, address) (((λ e. refl, λ e. refl), null, below), h.1),
            )
      ]

  use_lem :
      (u : Use A) (h : Handles A) (v : Versions A)
      → Refines h v
      → IsFresh u h
      → ((use_handles u h).reported ≡ (spec_use u v).reported)
        × Refines (use_handles u h).after (spec_use u v).after
  unfolding use_handles
  use_lem (store fresh none) h v r new = (
    refl,
    record {
      same_value = refl;
      null = (λ e. refl, λ e. refl);
      below = omega (arith, r.below);
      handles = store_none h.inner.address v.current v.next h.cached v.seen r.handles;
    },
  )
  use_lem (store fresh (some a)) h v r new = (
    refl,
    record {
      same_value = refl;
      null = (λ e. absurd (new.0 e), λ e. absurd (omega (arith, r.below)));
      below = omega arith;
      handles = store_some h.inner.address v.current v.next fresh h.cached v.seen r.handles new.1;
    },
  )
  use_lem (clone_handle i) h v r new = (
    refl,
    record {
      same_value = r.same_value;
      null = r.null;
      below = r.below;
      handles = clone_lem h.inner.address v.current v.next i h.cached v.seen r.handles;
    },
  )
  use_lem (look i) h v r new =
      let l = look_lem h.inner v.current v.next i h.cached v.seen r.null r.below r.handles in
      (
        rw (← r.same_value) l.0,
        record {
          same_value = r.same_value;
          null = r.null;
          below = r.below;
          handles = rw (← r.same_value) l.1;
        },
      )

  reports_lem :
      (us : List (Use A)) (h : Handles A) (v : Versions A)
      → Refines h v
      → AllFresh us h
      → reports us h ≡ spec_reports us v
  reports_lem [] h v r new = refl
  reports_lem (u ∷ us) h v r new =
      let one = use_lem u h v r new.0 in
      ap₂ (λ a b. a ∷ b) one.0
        (reports_lem us (use_handles u h).after (spec_use u v).after one.1 new.1)

  -- A watched value that starts empty with one handle, used by any number of clones in any order of
  -- stores and looks, reports at every look what its versions would, if the allocator never gives a
  -- stored value the null address or the address of a value that some handle has cached: the current
  -- value when the handle has not seen its version, and nothing otherwise, whichever addresses are
  -- used again.
  pub reports-versions :
      (us : List (Use A))
      → AllFresh us (record { inner = cell 0 none; cached = cell 0 none ∷ [] })
      → reports us (record { inner = cell 0 none; cached = cell 0 none ∷ [] })
        ≡ spec_reports us (record { current = 0; value = none; seen = 0 ∷ []; next = 1 })
  reports-versions us new = reports_lem us _ _ start new
    where
      start :
          Refines
            (record { inner = cell 0 none; cached = cell 0 none ∷ [] })
            (record { current = 0; value = none; seen = 0 ∷ []; next = 1 })
      start = record {
        same_value = refl;
        null = (λ e. refl, λ e. refl);
        below = omega arith;
        handles = (((λ e. refl, λ e. refl), (λ e. refl, λ e. refl), omega arith), tt);
      }
