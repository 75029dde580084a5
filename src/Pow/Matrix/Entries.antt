-- ===== src/Pow/Matrix/Entries.antt =====
-- The shape of a random matrix, and the matrix that a zero generator draws.
use native.Mathlib.Nat.{zero-div}
use velkar_gpu.Base.{
  ℕ, zero, suc, ◌+◌, ◌/◌, ◌%◌, ◌^◌, ◌<◌, ◌≡◌, refl, ap, arith, length, All, bit_and, ◌==◌,
  Bool-cases, inl, inr,
}
use velkar_gpu.Base.Bits.{bit_and_mask}
use velkar_gpu.Word.{u16}
use velkar_gpu.Target.{zero_target}
use velkar_gpu.Pow.Xoshiro.{XoShiRo256PlusPlus, seed, next_u64_zero}
use velkar_gpu.Pow.Matrix.{
  fill_row, fill_rows, rand_matrix_no_rank_check, IsMatrix, IsRow, IsNibble,
}

nibble-lt : (x : ℕ) → u16 (bit_and x 0x0f) < 16
nibble-lt x = omega (arith, bit_and_mask 4 x)

length-fill_row : (n j val : ℕ) (g : XoShiRo256PlusPlus) → length (fill_row n j val g).cells ≡ n
unfolding fill_row
length-fill_row zero j val g = refl
length-fill_row (suc n) j val g = ap suc (length-fill_row n (j + 1) _ _)

fill_row-IsNibble : (n j val : ℕ) (g : XoShiRo256PlusPlus) → All IsNibble (fill_row n j val g).cells
unfolding fill_row
fill_row-IsNibble zero j val g = tt
fill_row-IsNibble (suc n) j val g = (nibble-lt _, fill_row-IsNibble n (j + 1) _ _)

length-fill_rows : (n : ℕ) (g : XoShiRo256PlusPlus) → length (fill_rows n g).cells ≡ n
unfolding fill_rows
length-fill_rows zero g = refl
length-fill_rows (suc n) g = ap suc (length-fill_rows n (fill_row 64 0 0 g).generator)

fill_rows-IsRow : (n : ℕ) (g : XoShiRo256PlusPlus) → All IsRow (fill_rows n g).cells
unfolding fill_rows
fill_rows-IsRow zero g = tt
fill_rows-IsRow (suc n) g = (
  (length-fill_row 64 0 0 g, fill_row-IsNibble 64 0 0 g),
  fill_rows-IsRow n (fill_row 64 0 0 g).generator,
)

pub rand_matrix-IsMatrix : (g : XoShiRo256PlusPlus) → IsMatrix (rand_matrix_no_rank_check g).matrix
unfolding rand_matrix_no_rank_check
rand_matrix-IsMatrix g = (length-fill_rows 64 g, fill_rows-IsRow 64 g)

-- From the zero state every cell is zero, and the state stays.
abbrev pub IsZero : ℕ → Type 0
IsZero x = x ≡ 0

abbrev pub zero_state : XoShiRo256PlusPlus
zero_state = seed zero_target

zero_cell : (k : ℕ) → bit_and (0 / 2 ^ k) 0x0f % 2 ^ 16 ≡ 0
zero_cell k = rw zero-div

fill_row-IsZero :
    (n j : ℕ)
    → All IsZero (fill_row n j 0 zero_state).cells
      × ((fill_row n j 0 zero_state).generator ≡ zero_state)
unfolding fill_row
fill_row-IsZero zero j = (tt, refl)
fill_row-IsZero (suc n) j = elim (Bool-cases (j % 16 == 0)) [
  | inl start ↦
      rw (start, next_u64_zero)
        ((zero_cell _, (fill_row-IsZero n (j + 1)).0), (fill_row-IsZero n (j + 1)).1)
  | inr inside ↦
      rw inside ((zero_cell _, (fill_row-IsZero n (j + 1)).0), (fill_row-IsZero n (j + 1)).1)
]

fill_rows-IsZero :
    (n : ℕ)
    → All (All IsZero) (fill_rows n zero_state).cells
      × ((fill_rows n zero_state).generator ≡ zero_state)
unfolding fill_rows
fill_rows-IsZero zero = (tt, refl)
fill_rows-IsZero (suc n) =
    let row = fill_row-IsZero 64 0 in
    rw row.1 ((row.0, (fill_rows-IsZero n).0), (fill_rows-IsZero n).1)

-- From the zero state every matrix is zero, and the state stays.
pub rand_matrix-IsZero :
    All (All IsZero) (rand_matrix_no_rank_check zero_state).matrix.rows
    × ((rand_matrix_no_rank_check zero_state).generator ≡ zero_state)
unfolding rand_matrix_no_rank_check
rand_matrix-IsZero = fill_rows-IsZero 64
