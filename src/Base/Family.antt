-- ===== src/Base/Family.antt =====
-- Families `ℕ → A` of threads, with an update at one index.
use Prim.Native.Nat.{ℕ}
use mathlib.Core.Path.{◌≡◌}
use mathlib.Core.Logic.{ite}
use native.Mathlib.Decide.{ℕ_discrete}

abbrev pub update {ℓ} : {A : Type ℓ} → (ℕ → A) → ℕ → A → ℕ → A
update f i a j = ite (ℕ_discrete i j) a (f j)

pub update-all {ℓ κ} :
    {A : Type ℓ} (P : A → Type κ) (f : ℕ → A) (i : ℕ) (a : A)
    → P a
    → ((k : ℕ) → P (f k))
    → (k : ℕ) → P (update f i a k)
update-all P f i a h hf k = go (ℕ_discrete i k)
  where
    go : (d : Dec (i ≡ k)) → P (ite d a (f k))
    go (yes same) = h
    go (no other) = hf k
