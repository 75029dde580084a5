-- ===== src/Word/LittleEndian.antt =====
-- Casts between widths, and `to_le_bytes` and `from_le_bytes` at every width.
use velkar_gpu.Base.{
  ℕ, zero, suc, ◌+◌, ◌*◌, ◌/◌, ◌%◌, ◌^◌, ◌<◌, ◌≡◌, refl, ap, ap₂, ◌∙◌, arith, List, [], ◌∷◌, ◌++◌,
  All, length,
}
use native.Mathlib.Nat.{pow-suc}

abbrev pub u8 : ℕ → ℕ
u8 n = n % 2 ^ 8

abbrev pub u16 : ℕ → ℕ
u16 n = n % 2 ^ 16

abbrev pub u32 : ℕ → ℕ
u32 n = n % 2 ^ 32

abbrev pub u64 : ℕ → ℕ
u64 n = n % 2 ^ 64

abbrev pub IsByte : ℕ → Type 0
IsByte b = b < 256

abbrev pub IsU64 : ℕ → Type 0
IsU64 x = x < 2 ^ 64

abbrev pub Bytes : Type 0
Bytes = List ℕ

-- `x.to_le_bytes()` of an integer of `n` bytes.
abbrev pub to_le_bytes : ℕ → ℕ → Bytes
to_le_bytes zero x = []
to_le_bytes (suc n) x = (x % 256) ∷ to_le_bytes n (x / 256)

-- The number that bytes spell, lowest first.
abbrev pub from_le_bytes : Bytes → ℕ
from_le_bytes [] = 0
from_le_bytes (b ∷ bs) = b + 256 * from_le_bytes bs

pub length-to_le_bytes : (n x : ℕ) → length (to_le_bytes n x) ≡ n
length-to_le_bytes zero x = refl
length-to_le_bytes (suc n) x = ap suc (length-to_le_bytes n (x / 256))

pub to_le_bytes-IsByte : (n x : ℕ) → All IsByte (to_le_bytes n x)
to_le_bytes-IsByte zero x = tt
to_le_bytes-IsByte (suc n) x = (omega arith, to_le_bytes-IsByte n (x / 256))

pub from_le_bytes-to_le_bytes : (n x : ℕ) → x < 256 ^ n → from_le_bytes (to_le_bytes n x) ≡ x
from_le_bytes-to_le_bytes zero x h = omega arith
from_le_bytes-to_le_bytes (suc n) x h =
    omega (arith, from_le_bytes-to_le_bytes n (x / 256) (omega (arith, pow-suc 256 n)))

pub to_le_bytes-from_le_bytes :
    (n : ℕ) (bs : Bytes) → length bs ≡ n → All IsByte bs → to_le_bytes n (from_le_bytes bs) ≡ bs
to_le_bytes-from_le_bytes zero [] e h = refl
to_le_bytes-from_le_bytes zero (b ∷ bs) e h = absurd (omega arith)
to_le_bytes-from_le_bytes (suc n) [] e h = absurd (omega arith)
to_le_bytes-from_le_bytes (suc n) (b ∷ bs) e h = ap₂ ◌∷◌ (omega (arith, h.0)) (
    ap (λ (t : ℕ). to_le_bytes n t) (omega (arith, h.0))
    ∙ to_le_bytes-from_le_bytes n bs (omega arith) h.1)

pub from_le_bytes-lt : (bs : Bytes) → All IsByte bs → from_le_bytes bs < 256 ^ length bs
from_le_bytes-lt [] h = omega arith
from_le_bytes-lt (b ∷ bs) h = omega (arith, h.0, pow-suc 256 (length bs), from_le_bytes-lt bs h.1)

pub from_le_bytes-append :
    (xs ys : Bytes)
    → from_le_bytes (xs ++ ys) ≡ from_le_bytes xs + 256 ^ length xs * from_le_bytes ys
from_le_bytes-append [] ys = omega arith
from_le_bytes-append (x ∷ xs) ys = omega (
  arith,
  from_le_bytes-append xs ys,
  ap (λ (t : ℕ). t * from_le_bytes ys) (pow-suc 256 (length xs)),
)
