-- ===== src/Base/Bits.antt =====
-- The operations `&`, `|` and `^` at variables: one equation for the lowest digit each, and what
-- follows for masks, disjoint fields and ranges.
use Prim.Native.Nat.{
  ℕ, zero, suc, ◌+◌, ◌-◌, ◌*◌, ◌/◌, ◌%◌, ◌^◌, ◌≤◌, ◌<◌, min, max, bit_and, bit_or, bit_xor, digits,
  differ, bit_and-bitwise, bit_or-bitwise, bit_xor-bitwise,
}
use mathlib.Core.Path.{◌≡◌, refl, ap, sym, ◌∙◌}
use native.Mathlib.Nat.{pow-suc, add-mul-mod_self_right, mod-eq_of_lt, mod-lt, mod-add-div'}
use velkar_gpu.Base.Pow2.{two_pow-pos}
use native.Mathlib.Omega.{arith}

-- The count of digits to go does not matter once it covers the first number.
module _ (rest : ℕ → ℕ) (op : ℕ → ℕ → ℕ) where
  enough_digits : (f g a b : ℕ) → a ≤ f → a ≤ g → digits rest op f a b ≡ digits rest op g a b
  enough_digits f g zero b p q = digits_zero f b ∙ sym (digits_zero g b)
    where
      digits_zero : (n b : ℕ) → digits rest op n zero b ≡ rest b
      digits_zero zero b = refl
      digits_zero (suc n) b = refl
  enough_digits zero g (suc a) b p q = absurd (omega arith)
  enough_digits (suc f) zero (suc a) b p q = absurd (omega arith)
  enough_digits (suc f) (suc g) (suc a) b p q =
      ap (λ (t : ℕ). t * 2 + op (suc a % 2) (b % 2))
        (enough_digits f g (suc a / 2) (b / 2) (omega arith) (omega arith))

  lowest_digit :
      (a b : ℕ)
      → digits rest op (suc a) (suc a) b
        ≡ digits rest op (suc a / 2) (suc a / 2) (b / 2) * 2 + op (suc a % 2) (b % 2)
  lowest_digit a b =
      ap (λ (t : ℕ). t * 2 + op (suc a % 2) (b % 2))
        (enough_digits a (suc a / 2) (suc a / 2) (b / 2) (omega arith) (omega arith))

pub bit_and_step : (x y : ℕ) → bit_and x y ≡ bit_and (x / 2) (y / 2) * 2 + min (x % 2) (y % 2)
bit_and_step zero y = omega (arith, bit_and-bitwise 0 y, bit_and-bitwise 0 (y / 2))
bit_and_step (suc x) y = omega (
  arith,
  bit_and-bitwise (suc x) y,
  bit_and-bitwise (suc x / 2) (y / 2),
  lowest_digit (λ _. zero) min x y,
)

pub bit_or_step : (x y : ℕ) → bit_or x y ≡ bit_or (x / 2) (y / 2) * 2 + max (x % 2) (y % 2)
bit_or_step zero y = omega (arith, bit_or-bitwise 0 y, bit_or-bitwise 0 (y / 2))
bit_or_step (suc x) y = omega (
  arith,
  bit_or-bitwise (suc x) y,
  bit_or-bitwise (suc x / 2) (y / 2),
  lowest_digit (λ d. d) max x y,
)

pub bit_xor_step : (a b : ℕ) → bit_xor a b ≡ bit_xor (a / 2) (b / 2) * 2 + differ (a % 2) (b % 2)
bit_xor_step zero b = omega (arith, bit_xor-bitwise 0 b, bit_xor-bitwise 0 (b / 2))
bit_xor_step (suc a) b = omega (
  arith,
  bit_xor-bitwise (suc a) b,
  bit_xor-bitwise (suc a / 2) (b / 2),
  lowest_digit (λ x. x) differ a b,
)

zero-bit_or : (b : ℕ) → bit_or 0 b ≡ b
zero-bit_or b = bit_or-bitwise 0 b

zero-bit_xor : (b : ℕ) → bit_xor 0 b ≡ b
zero-bit_xor b = bit_xor-bitwise 0 b

-- The laws by induction on a bound of the numbers, since a step halves them.
bit_or-zero_upto : (n a : ℕ) → a ≤ n → bit_or a 0 ≡ a
bit_or-zero_upto n zero h = refl
bit_or-zero_upto zero (suc a) h = absurd (omega arith)
bit_or-zero_upto (suc n) (suc a) h =
    omega (arith, bit_or_step (suc a) 0, bit_or-zero_upto n (suc a / 2) (omega arith))

pub bit_or-zero : (a : ℕ) → bit_or a 0 ≡ a
bit_or-zero a = bit_or-zero_upto a a (omega arith)

bit_and-zero_upto : (n a : ℕ) → a ≤ n → bit_and a 0 ≡ 0
bit_and-zero_upto n zero h = refl
bit_and-zero_upto zero (suc a) h = absurd (omega arith)
bit_and-zero_upto (suc n) (suc a) h =
    omega (arith, bit_and_step (suc a) 0, bit_and-zero_upto n (suc a / 2) (omega arith))

pub bit_and-zero : (a : ℕ) → bit_and a 0 ≡ 0
bit_and-zero a = bit_and-zero_upto a a (omega arith)

differ_comm : (x y : ℕ) → differ x y ≡ differ y x
differ_comm zero zero = refl
differ_comm zero (suc y) = refl
differ_comm (suc x) zero = refl
differ_comm (suc x) (suc y) = differ_comm x y

differ_self : (x : ℕ) → differ x x ≡ 0
differ_self zero = refl
differ_self (suc x) = differ_self x

bit_xor_self_upto : (n a : ℕ) → a ≤ n → bit_xor a a ≡ 0
bit_xor_self_upto n zero h = refl
bit_xor_self_upto zero (suc a) h = absurd (omega arith)
bit_xor_self_upto (suc n) (suc a) h = omega (
  arith,
  bit_xor_step (suc a) (suc a),
  differ_self (suc a % 2),
  bit_xor_self_upto n (suc a / 2) (omega arith),
)

pub bit_xor_self : (a : ℕ) → bit_xor a a ≡ 0
bit_xor_self a = bit_xor_self_upto a a (omega arith)

-- Fields that share no bit are added by `|`.
double-two_pow : (q k : ℕ) → q * 2 ^ suc k ≡ 2 * (q * 2 ^ k)
double-two_pow q k = omega (arith, ap (λ (t : ℕ). q * t) (pow-suc 2 k))

pub bit_or_high_low : (k q r : ℕ) → r < 2 ^ k → bit_or (q * 2 ^ k) r ≡ q * 2 ^ k + r
bit_or_high_low zero q r h = ground (arith, bit_or-zero q)
bit_or_high_low (suc k) q r h = ground (
  arith,
  bit_or_step (q * 2 ^ suc k) r,
  double-two_pow q k,
  bit_or_high_low k q (r / 2) (omega arith),
)

pub bit_or_low_high : (k q r : ℕ) → r < 2 ^ k → bit_or r (q * 2 ^ k) ≡ r + q * 2 ^ k
bit_or_low_high zero q r h = ground (arith, zero-bit_or q)
bit_or_low_high (suc k) q r h = ground (
  arith,
  bit_or_step r (q * 2 ^ suc k),
  double-two_pow q k,
  bit_or_low_high k q (r / 2) (omega arith),
)

mod_double : (a : ℕ) {m : ℕ} → 0 < m → a % (m * 2) ≡ a / 2 % m * 2 + a % 2
mod_double a {m} h =
    ap (λ (t : ℕ). t % (m * 2)) whole
    ∙ add-mul-mod_self_right (a / 2 % m * 2 + a % 2) (a / 2 / m) (m * 2)
    ∙ mod-eq_of_lt (omega (arith, mod-lt (a / 2) h))
  where
    whole : a ≡ a / 2 % m * 2 + a % 2 + a / 2 / m * (m * 2)
    whole = omega (arith, mod-add-div' (a / 2) m)

-- A mask of low ones is a remainder.
pub bit_and_mask : (k a : ℕ) → bit_and a (2 ^ k - 1) ≡ a % 2 ^ k
bit_and_mask zero a = ground (arith, bit_and-zero a)
bit_and_mask (suc k) a = omega (
  arith,
  bit_and_step a (2 ^ suc k - 1),
  pow-suc 2 k,
  two_pow-pos k,
  ap (λ (t : ℕ). bit_and (a / 2) t) (half_mask (2 ^ suc k) (2 ^ k) (pow-suc 2 k)),
  bit_and_mask k (a / 2),
  mod_double a (two_pow-pos k),
  ap (λ (t : ℕ). a % t) (pow-suc 2 k),
)
  where
    half_mask : (p q : ℕ) → p ≡ q * 2 → (p - 1) / 2 ≡ q - 1
    half_mask p q e = omega arith

pub bit_xor_lt : (k a b : ℕ) → a < 2 ^ k → b < 2 ^ k → bit_xor a b < 2 ^ k
bit_xor_lt zero a b ha hb = ground (arith, bit_xor_self 0)
bit_xor_lt (suc k) a b ha hb =
    ground (
      arith,
      bit_xor_step a b,
      differ_lt (a % 2) (b % 2),
      pow-suc 2 k,
      bit_xor_lt k (a / 2) (b / 2),
    )
  where
    differ_lt : (x y : ℕ) → x < 2 → y < 2 → differ x y < 2
    differ_lt zero y hx hy = hy
    differ_lt (suc zero) zero hx hy = hx
    differ_lt (suc zero) (suc zero) hx hy = omega arith
    differ_lt (suc zero) (suc (suc y)) hx hy = absurd (omega arith)
    differ_lt (suc (suc x)) y hx hy = absurd (omega arith)

pub bit_or_lt : (k a b : ℕ) → a < 2 ^ k → b < 2 ^ k → bit_or a b < 2 ^ k
bit_or_lt zero a b ha hb = ground (arith, bit_or-zero 0)
bit_or_lt (suc k) a b ha hb =
    ground (arith, bit_or_step a b, pow-suc 2 k, bit_or_lt k (a / 2) (b / 2))
