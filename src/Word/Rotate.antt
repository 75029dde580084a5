-- ===== src/Word/Rotate.antt =====
-- Shifts and rotations of 64-bit words.
use velkar_gpu.Base.{
  ℕ, ◌+◌, ◌-◌, ◌*◌, ◌/◌, ◌%◌, ◌^◌, ◌<◌, ◌≡◌, arith, bit_or, two_pow-pos, shl_low, two_pow-split,
}
use native.Mathlib.Nat.{le_of_lt, mod-lt, mul-le-mul_right, div-lt_iff_lt-mul}
use velkar_gpu.Base.Bits.{bit_or_high_low}

infixl 75 ◌<<<◌ ◌>>>◌
abbrev pub ◌<<<◌ : ℕ → ℕ → ℕ
x <<< k = x * 2 ^ (k % 64) % 2 ^ 64

abbrev pub ◌>>>◌ : ℕ → ℕ → ℕ
x >>> k = x / 2 ^ (k % 64)

unfoldable pub rotate_left : ℕ → ℕ → ℕ
rotate_left x k = bit_or (x <<< k) (x / 2 ^ (64 - k % 64))

unfoldable pub rotate_right : ℕ → ℕ → ℕ
rotate_right x k = rotate_left x (64 - k % 64)

rotated_out : (x k : ℕ) → x < 2 ^ 64 → k < 64 → x / 2 ^ (64 - k) < 2 ^ k
rotated_out x k hx hk =
    (div-lt_iff_lt-mul (two_pow-pos (64 - k))).1 (omega (arith, two_pow-split k 64 (le_of_lt hk)))

-- A rotation moves the high bits below the low ones, and loses none.
pub rotate_left_lem :
    (x k : ℕ) → x < 2 ^ 64 → k < 64 → rotate_left x k ≡ x % 2 ^ (64 - k) * 2 ^ k + x / 2 ^ (64 - k)
unfolding rotate_left
rotate_left_lem x k hx hk =
    rw (small, shl_low x (le_of_lt hk))
      (bit_or_high_low k (x % 2 ^ (64 - k)) (x / 2 ^ (64 - k)) (rotated_out x k hx hk))
  where
    small : k % 64 ≡ k
    small = omega arith

pub rotate_left-lt : (x k : ℕ) → x < 2 ^ 64 → k < 64 → rotate_left x k < 2 ^ 64
rotate_left-lt x k hx hk = omega (
  arith,
  rotate_left_lem x k hx hk,
  two_pow-split k 64 (le_of_lt hk),
  mul-le-mul_right (2 ^ k) (mod-lt x (two_pow-pos (64 - k))),
  rotated_out x k hx hk,
)
