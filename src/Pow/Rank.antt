-- ===== src/Pow/Rank.antt =====
-- `Matrix::compute_rank` of src/pow/heavy_hash.rs: Gauss elimination over `f64`.
use velkar_gpu.Base.{
  ℕ, zero, suc, ◌+◌, ◌≤◌, ◌≡◌, ◌∙◌, refl, ap, arith, List, [], ◌∷◌, Bool, true, false, not, ◌&&◌,
  Option, none, some, map, get_or, set, length, replicate, ltb, ◌==◌, if◌then◌else◌, length-set,
  All,
}
use velkar_gpu.Packages.{Float}
use velkar_gpu.Pow.Matrix.{Matrix}

-- `compute_rank`, over the operations of `f64`.
module _ (float : Float) where
  open float use {F, from_u16, exceeds_eps, div, mul, sub}

  abbrev pub convert_to_float : Matrix → List (List F)
  convert_to_float m = map (map from_u16) m.rows

  abbrev pub cell : List F → ℕ → F
  cell row i = get_or row i (from_u16 0)

  -- The columns `p > i` of a row, from column `q` on, by `f p`.
  abbrev pub above : ℕ → (ℕ → F → F) → ℕ → List F → List F
  above i f q [] = []
  above i f q (x ∷ row) = (if ltb i q then f q x else x) ∷ above i f (q + 1) row

  abbrev pub normalise : ℕ → List F → List F
  normalise i row = above i (λ p x. div x (cell row i)) 0 row

  abbrev pub eliminate : ℕ → List F → List F → List F
  eliminate i pivot row =
      if exceeds_eps (cell row i)
      then above i (λ p x. sub x (mul (cell pivot p) (cell row i))) 0 row
      else row

  -- The first row `j` that is not selected and whose column `i` is not zero.
  unfoldable pub find_pivot : ℕ → ℕ → List Bool → List (List F) → Option ℕ
  find_pivot i j [] rows = none
  find_pivot i j (s ∷ selected) [] = none
  find_pivot i j (s ∷ selected) (row ∷ rows) =
      let rest = find_pivot i (j + 1) selected rows in
      if not s && exceeds_eps (cell row i) then some j else rest

  -- Every row but `j`, from row `k` on.
  abbrev pub eliminate_all : ℕ → ℕ → List F → ℕ → List (List F) → List (List F)
  eliminate_all i j pivot k [] = []
  eliminate_all i j pivot k (row ∷ rows) =
      (if k == j then row else eliminate i pivot row) ∷ eliminate_all i j pivot (k + 1) rows

  pub record Sweep : Type 0 where
    pub mat : List (List F)
    pub rank : ℕ
    pub selected : List Bool

  -- What column `i` does with its pivot row.
  unfoldable pub select_row : ℕ → Sweep → Option ℕ → Sweep
  select_row i s none = s
  select_row i s (some j) =
      let pivot = normalise i (get_or s.mat j []) in
      record {
        mat = eliminate_all i j pivot 0 (set s.mat j pivot);
        rank = s.rank + 1;
        selected = set s.selected j true;
      }

  -- Column `i` of the loop.
  unfoldable pub sweep_column : ℕ → Sweep → Sweep
  unfolding find_pivot select_row
  sweep_column i s = select_row i s (find_pivot i 0 s.selected s.mat)

  unfoldable pub sweep : ℕ → ℕ → Sweep → Sweep
  sweep zero i s = s
  sweep (suc left) i s = sweep left (i + 1) (sweep_column i s)

  unfoldable pub compute_rank : Matrix → ℕ
  compute_rank m =
      (sweep 64 0
        (record { mat = convert_to_float m; rank = 0; selected = replicate 64 false })).rank

-- How many rows are selected.
abbrev count_true : List Bool → ℕ
count_true [] = 0
count_true (true ∷ bs) = suc (count_true bs)
count_true (false ∷ bs) = count_true bs

count_true-le : (bs : List Bool) → count_true bs ≤ length bs
count_true-le [] = omega arith
count_true-le (true ∷ bs) = omega (arith, count_true-le bs)
count_true-le (false ∷ bs) = omega (arith, count_true-le bs)

count_true-replicate : (n : ℕ) → count_true (replicate n false) ≡ 0
count_true-replicate zero = refl
count_true-replicate (suc n) = count_true-replicate n

module _ (float : Float) where
  open float use {F, exceeds_eps}

  find_pivot-ge :
      (i j : ℕ) (selected : List Bool) (rows : List (List F)) (r : ℕ)
      → find_pivot float i j selected rows ≡ some r
      → j ≤ r
  unfolding find_pivot
  find_pivot-ge i j [] rows r e = cc
  find_pivot-ge i j (s ∷ selected) [] r e = cc
  find_pivot-ge i j (s ∷ selected) (row ∷ rows) r e =
      ground (arith, find_pivot-ge i (j + 1) selected rows r)

  -- A pivot is a row that was not selected, so selecting it adds one.
  find_pivot-count :
      (i j : ℕ) (selected : List Bool) (rows : List (List F)) (d r : ℕ)
      → find_pivot float i j selected rows ≡ some r
      → d + j ≡ r
      → count_true (set selected d true) ≡ suc (count_true selected)
  unfolding find_pivot
  find_pivot-count i j [] rows d r e h = cc
  find_pivot-count i j (s ∷ selected) [] d r e h = cc
  find_pivot-count i j (true ∷ selected) (row ∷ rows) zero r e h =
      absurd (omega (arith, find_pivot-ge i (j + 1) selected rows r e))
  find_pivot-count i j (true ∷ selected) (row ∷ rows) (suc d) r e h =
      omega (arith, find_pivot-count i (j + 1) selected rows d r e (omega arith))
  find_pivot-count i j (false ∷ selected) (row ∷ rows) zero r e h = refl
  find_pivot-count i j (false ∷ selected) (row ∷ rows) (suc d) r e h =
      ground (arith, find_pivot-count i (j + 1) selected rows d r)

  -- The rank so far counts the selected rows.
  record IsSweep (s : Sweep float) : Type 0 where
    counted : s.rank ≡ count_true s.selected
    width : length s.selected ≡ 64

  select_row-IsSweep :
      (i : ℕ) (s : Sweep float) (o : Option ℕ)
      → find_pivot float i 0 s.selected s.mat ≡ o
      → IsSweep s
      → IsSweep (select_row float i s o)
  unfolding select_row
  select_row-IsSweep i s none e h = h
  select_row-IsSweep i s (some j) e h = record {
    counted = omega (arith, h.counted, find_pivot-count i 0 s.selected s.mat j j e (omega arith));
    width = length-set s.selected j true ∙ h.width;
  }

  sweep_column-IsSweep : (i : ℕ) (s : Sweep float) → IsSweep s → IsSweep (sweep_column float i s)
  sweep_column-IsSweep i s h =
      unfold sweep_column in select_row-IsSweep i s (find_pivot float i 0 s.selected s.mat) refl h

  sweep-IsSweep : (n i : ℕ) (s : Sweep float) → IsSweep s → IsSweep (sweep float n i s)
  unfolding sweep
  sweep-IsSweep zero i s h = h
  sweep-IsSweep (suc n) i s h =
      sweep-IsSweep n (i + 1) (sweep_column float i s) (sweep_column-IsSweep i s h)

  -- Whatever the floating point does, the rank is at most 64: it counts selected rows.
  pub compute_rank-le : (m : Matrix) → compute_rank float m ≤ 64
  unfolding compute_rank
  compute_rank-le m =
      let last =
        sweep-IsSweep 64 0
          (record { mat = convert_to_float float m; rank = 0; selected = replicate 64 false })
          (record { counted = refl; width = refl }) in
      omega (arith, last.counted, last.width, count_true-le (sweep float 64 0 _).selected)

-- Where no entry of any row is above the threshold, no column has a pivot.
module _ (float : Float) where
  open float use {F, from_u16, exceeds_eps}

  abbrev AllSmall : List (List F) → Type 0
  AllSmall = All (All (λ x. exceeds_eps x ≡ false))

  cell-small :
      (row : List F) (i : ℕ)
      → exceeds_eps (from_u16 0) ≡ false
      → All (λ x. exceeds_eps x ≡ false) row
      → exceeds_eps (cell float row i) ≡ false
  cell-small [] i z h = z
  cell-small (x ∷ row) zero z h = h.0
  cell-small (x ∷ row) (suc i) z h = cell-small row i z h.1

  find_pivot-none :
      (i j : ℕ) (selected : List Bool) (rows : List (List F))
      → exceeds_eps (from_u16 0) ≡ false
      → AllSmall rows
      → find_pivot float i j selected rows ≡ none
  unfolding find_pivot
  find_pivot-none i j [] rows z h = refl
  find_pivot-none i j (s ∷ selected) [] z h = refl
  find_pivot-none i j (s ∷ selected) (row ∷ rows) z h =
      ground (arith, cell-small row i z h.0, find_pivot-none i (j + 1) selected rows z h.1)

  sweep_column-none :
      (i : ℕ) (s : Sweep float)
      → exceeds_eps (from_u16 0) ≡ false
      → AllSmall s.mat
      → sweep_column float i s ≡ s
  unfolding sweep_column
  sweep_column-none i s z h = ap (select_row float i s) (find_pivot-none i 0 s.selected s.mat z h)

  sweep-none :
      (n i : ℕ) (s : Sweep float)
      → exceeds_eps (from_u16 0) ≡ false
      → AllSmall s.mat
      → sweep float n i s ≡ s
  unfolding sweep
  sweep-none zero i s z h = refl
  sweep-none (suc n) i s z h =
      ap (sweep float n (i + 1)) (sweep_column-none i s z h) ∙ sweep-none n (i + 1) s z h

  map_zero-small :
      (row : List ℕ)
      → exceeds_eps (from_u16 0) ≡ false
      → All (λ x. x ≡ 0) row
      → All (λ x. exceeds_eps x ≡ false) (map from_u16 row)
  map_zero-small [] z h = tt
  map_zero-small (x ∷ row) z h = (rw h.0 z, map_zero-small row z h.1)

  rows_zero-small :
      (rows : List (List ℕ))
      → exceeds_eps (from_u16 0) ≡ false
      → All (All (λ x. x ≡ 0)) rows
      → AllSmall (map (map from_u16) rows)
  rows_zero-small [] z h = tt
  rows_zero-small (row ∷ rows) z h = (map_zero-small row z h.0, rows_zero-small rows z h.1)

  -- The rank of a matrix of zeros is 0, if the float 0 is not above the threshold.
  pub compute_rank_zero :
      (m : Matrix)
      → exceeds_eps (from_u16 0) ≡ false
      → All (All (λ x. x ≡ 0)) m.rows
      → compute_rank float m ≡ 0
  unfolding compute_rank
  compute_rank_zero m z h =
      ap (λ (t : Sweep float). t.rank)
        (sweep-none 64 0
          (record { mat = convert_to_float float m; rank = 0; selected = replicate 64 false }) z
          (rows_zero-small m.rows z h))
