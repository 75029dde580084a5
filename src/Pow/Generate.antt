-- ===== src/Pow/Generate.antt =====
-- `Matrix::generate` of src/pow/heavy_hash.rs: draws matrices until one has rank 64.
use mathlib.Core.Option.{some-injective}
use velkar_gpu.Base.{
  ℕ, zero, suc, ◌<◌, ◌≡◌, ◌≢◌, refl, arith, false, Option, none, some, ◌==◌, if◌then◌else◌,
  Bool-cases, inl, inr, subst, ==_iff,
}
use velkar_gpu.Target.{Uint256, zero_target}
use velkar_gpu.Packages.{Float}
use velkar_gpu.Pow.Xoshiro.{XoShiRo256PlusPlus, seed}
use velkar_gpu.Pow.Matrix.{Matrix, Candidate, rand_matrix_no_rank_check, IsMatrix}
use velkar_gpu.Pow.Matrix.Entries.{rand_matrix-IsMatrix, rand_matrix-IsZero, zero_state}
use velkar_gpu.Pow.Rank.{compute_rank, compute_rank_zero}

module _ (float : Float) where
  -- The loop of `generate`, with fuel: `none` means that no matrix among so many draws had rank 64.
  unfoldable pub generate_loop : ℕ → XoShiRo256PlusPlus → Option Matrix
  generate_loop zero g = none
  generate_loop (suc fuel) g =
      let c = rand_matrix_no_rank_check g in
      let rest = generate_loop fuel c.generator in
      if compute_rank float c.matrix == 64 then some c.matrix else rest

  unfoldable pub generate : ℕ → Uint256 → Option Matrix
  unfolding generate_loop
  generate fuel hash = generate_loop fuel (seed hash)

-- The matrices that the loop draws, in order.
abbrev pub drawn : ℕ → XoShiRo256PlusPlus → Candidate
drawn zero g = rand_matrix_no_rank_check g
drawn (suc n) g = drawn n (rand_matrix_no_rank_check g).generator

module _ (float : Float) where
  -- A matrix that `generate` returns has rank 64, and its entries are nibbles.
  pub generate_sound :
      (fuel : ℕ) (hash : Uint256) (m : Matrix)
      → generate float fuel hash ≡ some m
      → (compute_rank float m ≡ 64) × IsMatrix m
  unfolding generate
  generate_sound fuel hash m = go fuel (seed hash)
    where
      go :
          (fuel : ℕ) (g : XoShiRo256PlusPlus)
          → generate_loop float fuel g ≡ some m
          → (compute_rank float m ≡ 64) × IsMatrix m
      go zero g e = cc
      go (suc fuel) g e =
          elim (Bool-cases (compute_rank float (rand_matrix_no_rank_check g).matrix == 64)) [
            | inl full ↦
                subst (λ t. (compute_rank float t ≡ 64) × IsMatrix t)
                  (some-injective _ _ (rw full at e)) ((==_iff _ 64).0 full, rand_matrix-IsMatrix g)
            | inr low ↦ go fuel (rand_matrix_no_rank_check g).generator (rw low at e)
          ]

  -- `generate` returns the first matrix of rank 64 that the generator draws: with `n` the index of
  -- that draw, any fuel above `n` is enough.
  pub generate-first :
      (n fuel : ℕ) (hash : Uint256)
      → n < fuel
      → compute_rank float (drawn n (seed hash)).matrix ≡ 64
      → ((k : ℕ) → k < n → compute_rank float (drawn k (seed hash)).matrix ≢ 64)
      → generate float fuel hash ≡ some (drawn n (seed hash)).matrix
  unfolding generate
  generate-first n fuel hash = go n fuel (seed hash)
    where
      go :
          (n fuel : ℕ) (g : XoShiRo256PlusPlus)
          → n < fuel
          → compute_rank float (drawn n g).matrix ≡ 64
          → ((k : ℕ) → k < n → compute_rank float (drawn k g).matrix ≢ 64)
          → generate_loop float fuel g ≡ some (drawn n g).matrix
      go n zero g h full early = absurd (omega arith)
      go zero (suc fuel) g h full early = rw ((==_iff _ 64).1 full)
      go (suc n) (suc fuel) g h full early =
          rw (low (compute_rank float (drawn 0 g).matrix) (early 0 (omega arith))) (
            go n fuel (rand_matrix_no_rank_check g).generator (omega arith) full
              (λ k lt. early (suc k) (omega arith)))
        where
          low : (r : ℕ) → r ≢ 64 → (r == 64) ≡ false
          low r ne = ground arith

  -- From a zero hash, where 0 counts as zero for the floating point, every draw is the zero
  -- matrix, of rank 0, so no number of draws is enough: the loop of `generate` does not end.
  pub generate_zero :
      (fuel : ℕ)
      → float.exceeds_eps (float.from_u16 0) ≡ false
      → generate float fuel zero_target ≡ none
  unfolding generate
  generate_zero fuel z = go fuel
    where
      go : (fuel : ℕ) → generate_loop float fuel zero_state ≡ none
      go zero = refl
      go (suc fuel) =
          rw (compute_rank_zero float _ z rand_matrix-IsZero.0, rand_matrix-IsZero.1) (go fuel)
