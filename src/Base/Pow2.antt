-- ===== src/Base/Pow2.antt =====
-- Powers of two at a variable exponent, and the two halves of a product by one.
use Prim.Native.Nat.{ℕ, zero, suc, ◌+◌, ◌-◌, ◌*◌, ◌/◌, ◌%◌, ◌^◌, ◌≤◌, ◌<◌}
use mathlib.Core.Path.{◌≡◌, sym, ap, ◌∙◌}
use native.Mathlib.Nat.{
  add-zero, mul-one, add-suc, pow-zero, pow-suc, mul_assoc, one-le-pow, mul-div-mul_right,
  mod-eq-sub-div-mul, mod-add-div, mul_comm, mul-sub, mul_left_comm,
}
use native.Mathlib.Omega.{arith}

pub pow-add : (b m n : ℕ) → b ^ (m + n) ≡ b ^ m * b ^ n
pow-add b m zero = simp (add-zero, pow-zero, mul-one)
pow-add b m (suc n) =
    rw (add-suc m n, pow-suc b (m + n), pow-suc b n, pow-add b m n) (mul_assoc (b ^ m) (b ^ n) b)

pub two_pow-pos : (k : ℕ) → 0 < 2 ^ k
two_pow-pos k = one-le-pow k 2 (omega arith)

-- The exponent of a power that divides another.
pub two_pow-split : (k w : ℕ) → k ≤ w → 2 ^ w ≡ 2 ^ (w - k) * 2 ^ k
two_pow-split k w h = ap (λ (t : ℕ). 2 ^ t) (omega arith) ∙ pow-add 2 (w - k) k

-- Scaling scales the remainder.
pub mul-mod-mul : (x m p : ℕ) → 0 < p → x * p % (m * p) ≡ x % m * p
mul-mod-mul x m p h =
    rw (mod-eq-sub-div-mul (x * p) (m * p), mul-div-mul_right x m h, mod-eq-sub-div-mul x m)
      (scale (x / m))
  where
    scale : (q : ℕ) → x * p - q * (m * p) ≡ (x - q * m) * p
    scale q = sym (simp (mul_comm _ p, mul-sub, mul_left_comm))

-- A product by `2 ^ k` falls into the part that `w` bits hold and the part that is shifted out.
module _ (x : ℕ) {k w : ℕ} (h : k ≤ w) where
  pub shl_high : x * 2 ^ k / 2 ^ w ≡ x / 2 ^ (w - k)
  shl_high = rw (two_pow-split k w h) (mul-div-mul_right x (2 ^ (w - k)) (two_pow-pos k))

  pub shl_low : x * 2 ^ k % 2 ^ w ≡ x % 2 ^ (w - k) * 2 ^ k
  shl_low = rw (two_pow-split k w h) (mul-mod-mul x (2 ^ (w - k)) (2 ^ k) (two_pow-pos k))

  pub shl_parts : x * 2 ^ k ≡ x * 2 ^ k % 2 ^ w + 2 ^ w * (x / 2 ^ (w - k))
  shl_parts = sym (ap (λ (t : ℕ). x * 2 ^ k % 2 ^ w + 2 ^ w * t) (sym shl_high) ∙ mod-add-div _ _)
