-- ===== src/Pow/Matrix.antt =====
-- src/pow/heavy_hash.rs: a random matrix, its product with the nibbles of a hash, and its bytes for
-- the device.
pub mod Entries
pub mod Product
use mathlib.Core.List.{flat_map}
use velkar_gpu.Base.{
  ℕ, zero, suc, ◌≡◌, ◌<◌, All, ◌+◌, ◌-◌, ◌*◌, ◌/◌, ◌%◌, ◌^◌, List, [], ◌∷◌, ◌++◌, Bool, true, false,
  not, ◌&&◌, Option, none, some, map, get_or, set, bit_and, bit_or, length, ltb, ◌==◌,
  if◌then◌else◌,
}
use velkar_gpu.Word.{Bytes, u8, u16, ◌>>>◌, to_le_bytes}
use velkar_gpu.Target.{Uint256, le_bytes, of_le_bytes}
use velkar_gpu.Packages.{Packages, Float, Keccak}
use velkar_gpu.Pow.Xoshiro.{XoShiRo256PlusPlus, seed, next_u64}
use velkar_gpu.Pow.Hasher.{heavy_hasher, zip_xor}

-- `Matrix([[u16; 64]; 64])`
pub record Matrix : Type 0 where
  pub rows : List (List ℕ)

-- The variables of the closure that fills a row: the generator, and `val` behind it.
pub record Filled {ℓ} (A : Type ℓ) : Type ℓ where
  pub cells : List A
  pub generator : XoShiRo256PlusPlus

abbrev put_cell {ℓ} : {A : Type ℓ} → A → Filled A → Filled A
put_cell c f = record f { cells = c ∷ f.cells }

-- Cells `j` on of a row, `left` of them; every sixteenth draws a word.
unfoldable pub fill_row : ℕ → ℕ → ℕ → XoShiRo256PlusPlus → Filled ℕ
fill_row zero j val g = record { cells = []; generator = g }
fill_row (suc left) j val g =
    let shift = j % 16 in
    let draw = next_u64 g in
    let val' = if shift == 0 then draw.res else val in
    let g' = if shift == 0 then draw.generator else g in
    put_cell (u16 (bit_and (val' >>> (4 * shift)) 0x0f)) (fill_row left (j + 1) val' g')

unfoldable pub fill_rows : ℕ → XoShiRo256PlusPlus → Filled (List ℕ)
fill_rows zero g = record { cells = []; generator = g }
fill_rows (suc left) g =
    let row = fill_row 64 0 0 g in put_cell row.cells (fill_rows left row.generator)

pub record Candidate : Type 0 where
  pub matrix : Matrix
  pub generator : XoShiRo256PlusPlus

unfoldable pub rand_matrix_no_rank_check : XoShiRo256PlusPlus → Candidate
rand_matrix_no_rank_check g =
    let f = fill_rows 64 g in record { matrix = record { rows = f.cells }; generator = f.generator }

-- The nibbles of the hash, the high one first.
unfoldable pub nibbles : Bytes → Bytes
nibbles = flat_map (λ b. (b / 2 ^ 4) ∷ bit_and b 0x0f ∷ [])

-- `sum += row[j] * u16::from(elem)`, in `u16`
unfoldable pub dot : List ℕ → Bytes → ℕ → ℕ
dot [] vec sum = sum
dot (m ∷ row) [] sum = sum
dot (m ∷ row) (e ∷ vec) sum = dot row vec (u16 (sum + u16 (m * e)))

-- `((sum1 >> 10) << 4) as u8 | (sum2 >> 10) as u8`
unfoldable pub product_byte : ℕ → ℕ → ℕ
product_byte sum1 sum2 = bit_or (u8 (u16 (sum1 / 2 ^ 10 * 2 ^ 4))) (u8 (sum2 / 2 ^ 10))

-- A byte for each two rows.
unfoldable pub product : List (List ℕ) → Bytes → Bytes
unfolding dot product_byte
product [] vec = []
product (row1 ∷ []) vec = []
product (row1 ∷ row2 ∷ rows) vec = product_byte (dot row1 vec 0) (dot row2 vec 0) ∷ product rows vec

unfoldable pub heavy_hash : Keccak → Matrix → Uint256 → Uint256
unfolding nibbles product
heavy_hash keccak m hash =
    let bytes = le_bytes hash in
    heavy_hasher keccak (of_le_bytes (zip_xor (product m.rows (nibbles bytes)) bytes))

unfoldable pub as_u8_bytes : Matrix → Bytes
as_u8_bytes m = flat_map (map (λ v. u8 (bit_and v 0x0f))) m.rows

unfoldable pub as_u16_le_bytes : Matrix → Bytes
as_u16_le_bytes m = flat_map (flat_map (to_le_bytes 2)) m.rows

abbrev pub IsNibble : ℕ → Type 0
IsNibble x = x < 16

abbrev pub IsRow : List ℕ → Type 0
IsRow row = (length row ≡ 64) × All IsNibble row

-- 64 rows of 64 entries below 16.
abbrev pub IsMatrix : Matrix → Type 0
IsMatrix m = (length m.rows ≡ 64) × All IsRow m.rows
