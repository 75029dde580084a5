-- ===== src/Pow/Matrix/Product.antt =====
-- The product of a matrix with the nibbles of a hash is exact: no sum wraps around in `u16`.
use mathlib.Core.List.{flat_map}
use velkar_gpu.Base.{
  ℕ, ◌+◌, ◌*◌, ◌/◌, ◌%◌, ◌^◌, ◌≤◌, ◌<◌, ◌≡◌, ◌∙◌, refl, ap, ap₂, arith, List, [], ◌∷◌, length, All,
  bit_or,
}
use velkar_gpu.Base.Bits.{bit_and_mask, bit_or_high_low}
use velkar_gpu.Word.{Bytes, IsByte}
use velkar_gpu.Target.{Uint256, le_bytes, of_le_bytes}
use velkar_gpu.Target.Octets.{le_bytes-IsByte}
use velkar_gpu.Packages.{Keccak}
use velkar_gpu.Pow.Hasher.{heavy_hasher, zip_xor}
use velkar_gpu.Pow.Matrix.{
  Matrix, nibbles, dot, product_byte, product, heavy_hash, IsNibble, IsRow, IsMatrix,
}

-- The inner product over the natural numbers.
abbrev pub inner : List ℕ → Bytes → ℕ
inner [] vec = 0
inner (m ∷ row) [] = 0
inner (m ∷ row) (e ∷ vec) = m * e + inner row vec

-- A byte for each two rows: the four high bits of each 14-bit sum.
abbrev pub exact_product : List (List ℕ) → Bytes → Bytes
exact_product [] vec = []
exact_product (row1 ∷ []) vec = []
exact_product (row1 ∷ row2 ∷ rows) vec =
    (inner row1 vec / 2 ^ 10 * 16 + inner row2 vec / 2 ^ 10) ∷ exact_product rows vec

nibble-mul-le : (m e : ℕ) → m < 16 → e < 16 → m * e ≤ 225
nibble-mul-le m e hm he = grind arith

inner-le :
    (row : List ℕ) (vec : Bytes)
    → All IsNibble row
    → All IsNibble vec
    → inner row vec ≤ 225 * length row
inner-le [] vec hr hv = omega arith
inner-le (m ∷ row) [] hr hv = omega arith
inner-le (m ∷ row) (e ∷ vec) hr hv =
    omega (arith, nibble-mul-le m e hr.0 hv.0, inner-le row vec hr.1 hv.1)

dot-inner :
    (row : List ℕ) (vec : Bytes) (sum : ℕ)
    → All IsNibble row
    → All IsNibble vec
    → sum + 225 * length row < 2 ^ 16
    → dot row vec sum ≡ sum + inner row vec
unfolding dot
dot-inner [] vec sum hr hv fits = omega arith
dot-inner (m ∷ row) [] sum hr hv fits = omega arith
dot-inner (m ∷ row) (e ∷ vec) sum hr hv fits =
    let small = nibble-mul-le m e hr.0 hv.0 in
    omega (
      arith,
      no_wrap small,
      dot-inner row vec ((sum + m * e % 2 ^ 16) % 2 ^ 16) hr.1 hv.1 (omega (arith, no_wrap small)),
    )
  where
    no_wrap : m * e ≤ 225 → (sum + m * e % 2 ^ 16) % 2 ^ 16 ≡ sum + m * e
    no_wrap small = omega arith

dot_row :
    (row : List ℕ) (vec : Bytes)
    → IsRow row
    → All IsNibble vec
    → (dot row vec 0 ≡ inner row vec) × (inner row vec ≤ 14400)
dot_row row vec hr hv =
    omega (arith, hr.0, dot-inner row vec 0 hr.1 hv (omega (arith, hr.0)), inner-le row vec hr.1 hv)

product_byte_lem :
    (a b : ℕ) → a ≤ 14400 → b ≤ 14400 → product_byte a b ≡ a / 2 ^ 10 * 16 + b / 2 ^ 10
unfolding product_byte
product_byte_lem a b ha hb =
    ap₂ bit_or_of (omega arith) (omega arith)
    ∙ bit_or_high_low 4 (a / 2 ^ 10) (b / 2 ^ 10) (omega arith)
  where
    bit_or_of : ℕ → ℕ → ℕ
    bit_or_of = bit_or

product-exact :
    (rows : List (List ℕ)) (vec : Bytes)
    → All IsRow rows
    → All IsNibble vec
    → product rows vec ≡ exact_product rows vec
unfolding product
product-exact [] vec hr hv = refl
product-exact (row1 ∷ []) vec hr hv = refl
product-exact (row1 ∷ row2 ∷ rows) vec hr hv =
    let first = dot_row row1 vec hr.0 hv in
    let second = dot_row row2 vec hr.1.0 hv in
    ap₂ ◌∷◌ (ap₂ product_byte first.0 second.0 ∙ product_byte_lem _ _ first.1 second.1)
      (product-exact rows vec hr.1.1 hv)

nibbles-IsNibble : (bs : Bytes) → All IsByte bs → All IsNibble (nibbles bs)
unfolding nibbles flat_map
nibbles-IsNibble [] h = tt
nibbles-IsNibble (b ∷ bs) h =
    (omega (arith, h.0), (omega (arith, bit_and_mask 4 b), nibbles-IsNibble bs h.1))

-- For a matrix of 64 rows of 64 nibbles, `heavy_hash` is the exact matrix product, cut to the
-- four high bits of each sum, combined with the hash by `^` and hashed once more.
pub heavy_hash-exact :
    (k : Keccak) (m : Matrix) (hash : Uint256)
    → IsMatrix m
    → heavy_hash k m hash
      ≡ heavy_hasher k
          (of_le_bytes (zip_xor (exact_product m.rows (nibbles (le_bytes hash))) (le_bytes hash)))
unfolding heavy_hash
heavy_hash-exact k m hash h =
    ap (λ t. heavy_hasher k (of_le_bytes (zip_xor t (le_bytes hash))))
      (product-exact m.rows (nibbles (le_bytes hash)) h.1
        (nibbles-IsNibble (le_bytes hash) (le_bytes-IsByte hash)))
