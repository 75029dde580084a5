-- ===== src/Watch/Changes.antt =====
-- A change is seen once.
use velkar_gpu.Base.{ℕ, ◌≡◌, ◌≢◌, refl, arith, true, false, none, some, ◌==◌, ==_iff}
use velkar_gpu.Watch.{WatchSwap, swap, update_cached, get_changed}

same_address : (a : ℕ) → (a == a) ≡ true
same_address a = (==_iff a a).1 refl

other_address : (a b : ℕ) → a ≢ b → (a == b) ≡ false
other_address a b h = ground arith

module _ {A : Type 0} where
  -- A value stored at an address that is not the one seen last is reported, with its value, by
  -- the next look of a handle and not by the one after.
  pub get_changed-swap :
      (w : WatchSwap A) (fresh : ℕ) (a : A)
      → w.cached.address ≢ fresh
      → (get_changed (swap fresh (some a) w) ≡ some (some a))
        × (get_changed (update_cached (swap fresh (some a) w)) ≡ none)
        × ((update_cached (swap fresh (some a) w)).cached.value ≡ some a)
  unfolding get_changed update_cached swap
  get_changed-swap w fresh a new =
      let e = other_address w.cached.address fresh new in
      (rw e refl, rw (e, same_address fresh) refl, rw e refl)
