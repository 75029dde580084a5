-- ===== src/Watch/Handles.antt =====
-- Several handles of one watched value of src/swap_rust.rs: clones that look at it while others
-- store into it.
use velkar_gpu.Base.{ℕ, zero, suc, ◌≢◌, List, [], ◌∷◌, ◌++◌, Option, none, All}
use velkar_gpu.Watch.{Cell, WatchSwap, cell, get_changed, update_cached}

-- The shared cell, and what each handle has cached.
pub record Handles (A : Type 0) : Type 0 where
  pub inner : Cell A
  pub cached : List (Cell A)

-- What the threads do, each by its handle: store a value at the address that the allocator gives,
-- clone a handle, and look for a change.
pub data Use (A : Type 0) : Type 0 where
  store : (fresh : ℕ) → Option A → Use A
  clone_handle : (i : ℕ) → Use A
  look : (i : ℕ) → Use A

-- The handles after a use, and what a look reported.
pub record Looked (S A : Type 0) : Type 0 where
  pub after : S
  pub reported : Option (Option A)

-- `clone`: the new handle has the same cached value.
abbrev pub clone_at {ℓ} : {B : Type ℓ} → ℕ → List B → List B
clone_at i [] = []
clone_at zero (b ∷ bs) = b ∷ bs ++ b ∷ []
clone_at (suc i) (b ∷ bs) = b ∷ clone_at i bs

module _ {A : Type 0} where
  -- `get_changed` by handle `i`.
  abbrev pub look_at : Cell A → ℕ → List (Cell A) → Looked (List (Cell A)) A
  look_at inner i [] = record { after = []; reported = none }
  look_at inner zero (c ∷ cs) =
      let w : WatchSwap A = record { inner = inner; cached = c } in
      record { after = (update_cached w).cached ∷ cs; reported = get_changed w }
  look_at inner (suc i) (c ∷ cs) =
      let r = look_at inner i cs in record { after = c ∷ r.after; reported = r.reported }

  unfoldable pub use_handles : Use A → Handles A → Looked (Handles A) A
  unfolding get_changed update_cached
  use_handles (store fresh val) h = record {
    after = record h { inner = cell fresh val };
    reported = none;
  }
  use_handles (clone_handle i) h = record {
    after = record h { cached = clone_at i h.cached };
    reported = none;
  }
  use_handles (look i) h =
      let r = look_at h.inner i h.cached in
      record { after = record h { cached = r.after }; reported = r.reported }

  -- What the looks of a run report, in their order.
  abbrev pub reports : List (Use A) → Handles A → List (Option (Option A))
  reports [] h = []
  reports (u ∷ us) h = let r = use_handles u h in r.reported ∷ reports us r.after

  -- The allocator gives no address of a value that is still alive: neither the null address nor one
  -- that a handle has cached.
  abbrev pub IsFresh : Use A → Handles A → Type 0
  IsFresh (store fresh val) h = (fresh ≢ 0) × All (λ c. c.address ≢ fresh) h.cached
  IsFresh (clone_handle i) h = Unit
  IsFresh (look i) h = Unit

  abbrev pub AllFresh : List (Use A) → Handles A → Type 0
  AllFresh [] h = Unit
  AllFresh (u ∷ us) h = IsFresh u h × AllFresh us (use_handles u h).after
