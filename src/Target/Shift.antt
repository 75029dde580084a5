-- ===== src/Target/Shift.antt =====
-- The left shift of a `Uint256` is a product by a power of two, modulo 2 ^ 256.
use native.Mathlib.Nat.{le_of_lt, div-lt_iff_lt-mul, mod-lt, mul-le-mul_right, mul-mod_left}
use velkar_gpu.Base.{
  ℕ, zero, suc, ◌+◌, ◌-◌, ◌*◌, ◌/◌, ◌%◌, ◌^◌, ◌<◌, ◌≡◌, refl, sym, ap, ◌∙◌, arith, true, false, ltb,
  List, inl, inr, shl_low, shl_parts, two_pow-pos, two_pow-split, pow-add, lt→ltb, ltb→lt,
  Bool-cases, [], ◌∷◌,
}
use velkar_gpu.Word.{u64, ◌<<<◌, ◌>>>◌}
use velkar_gpu.Target.{Uint256, IsUint256, to_le_u64, from_le_u64, shl_words, shl}
use velkar_gpu.Target.Value.{value}

-- The part of `x * 2 ^ b` that stays in a word, and the carry.
abbrev low : ℕ → ℕ → ℕ
low x b = x * 2 ^ b % 2 ^ 64

abbrev carry : ℕ → ℕ → ℕ
carry x b = x / 2 ^ (64 - b)

-- A carry fits under the shifted word above it.
low-add-carry-lt : (x y b : ℕ) → y < 2 ^ 64 → b < 64 → low x b + carry y b < 2 ^ 64
low-add-carry-lt x y b hy hb = omega (
  arith,
  shl_low x (le_of_lt hb),
  two_pow-split b 64 (le_of_lt hb),
  mul-le-mul_right (2 ^ b) (mod-lt x (two_pow-pos (64 - b))),
  (div-lt_iff_lt-mul {x = y} {y = 2 ^ b} (two_pow-pos (64 - b))).1
      (omega (arith, two_pow-split b 64 (le_of_lt hb))),
)

module _ (b : ℕ) (hb : b < 64) where
  word_alone : (x : ℕ) → u64 (0 + x <<< b) ≡ low x b
  word_alone x = omega (arith, ap (λ (t : ℕ). x * 2 ^ t % 2 ^ 64) (small b hb))
    where
      small : (n : ℕ) → n < 64 → n % 64 ≡ n
      small n h = omega arith

  word_carry :
      (x y : ℕ)
      → ltb 0 b ≡ true
      → y < 2 ^ 64
      → u64 (u64 (0 + y >>> (64 - b)) + x <<< b) ≡ low x b + carry y b
  word_carry x y pos hy = omega (
    arith,
    ap (λ (t : ℕ). x * 2 ^ t % 2 ^ 64) (small b hb),
    ap (λ (t : ℕ). y / 2 ^ t) (small (64 - b) (omega (arith, ltb→lt 0 b pos))),
    low-add-carry-lt x y b hy hb,
  )
    where
      small : (n : ℕ) → n < 64 → n % 64 ≡ n
      small n h = omega arith

  word_no_carry : (x y : ℕ) → ltb 0 b ≡ false → y < 2 ^ 64 → u64 (0 + x <<< b) ≡ low x b + carry y b
  word_no_carry x y zer hy =
      omega (arith, word_alone x, ap (λ (t : ℕ). y / 2 ^ (64 - t)) {x = b} {y = 0} (ground arith))

abbrev four : ℕ → ℕ → ℕ → ℕ → List ℕ
four a b c d = a ∷ b ∷ c ∷ d ∷ []

four_eq :
    {a b c d a' b' c' d' : ℕ} → a ≡ a' → b ≡ b' → c ≡ c' → d ≡ d' → four a b c d ≡ four a' b' c' d'
four_eq p q r s = λ i. four (p i) (q i) (r i) (s i)

-- The result of the loop, for each number of whole words that the shift skips.
abbrev shifted : ℕ → ℕ → Uint256 → List ℕ
shifted zero b u =
    four (low u.w0 b) (low u.w1 b + carry u.w0 b) (low u.w2 b + carry u.w1 b)
      (low u.w3 b + carry u.w2 b)
shifted (suc zero) b u = four 0 (low u.w0 b) (low u.w1 b + carry u.w0 b) (low u.w2 b + carry u.w1 b)
shifted (suc (suc zero)) b u = four 0 0 (low u.w0 b) (low u.w1 b + carry u.w0 b)
shifted (suc (suc (suc zero))) b u = four 0 0 0 (low u.w0 b)
shifted (suc (suc (suc (suc n)))) b u = four 0 0 0 0

module _ (u : Uint256) (b : ℕ) (hu : IsUint256 u) (hb : b < 64) where
  shl_words_lem : (ws : ℕ) → shl_words (to_le_u64 u) ws b ≡ shifted ws b u
  unfolding shl_words
  shl_words_lem zero = elim (Bool-cases (ltb 0 b)) [
    | inl pos ↦
        rw (lt→ltb b 64 hb, pos)
          (four_eq (word_alone b hb _) (word_carry b hb _ _ pos hu.0) (word_carry b hb _ _ pos hu.1)
            (word_carry b hb _ _ pos hu.2))
    | inr zer ↦
        rw (lt→ltb b 64 hb, zer)
          (four_eq (word_alone b hb _) (word_no_carry b hb _ _ zer hu.0)
            (word_no_carry b hb _ _ zer hu.1) (word_no_carry b hb _ _ zer hu.2))
  ]
  shl_words_lem (suc zero) = elim (Bool-cases (ltb 0 b)) [
    | inl pos ↦
        rw (lt→ltb b 64 hb, pos)
          (four_eq refl (word_alone b hb _) (word_carry b hb _ _ pos hu.0)
            (word_carry b hb _ _ pos hu.1))
    | inr zer ↦
        rw (lt→ltb b 64 hb, zer)
          (four_eq refl (word_alone b hb _) (word_no_carry b hb _ _ zer hu.0)
            (word_no_carry b hb _ _ zer hu.1))
  ]
  shl_words_lem (suc (suc zero)) = elim (Bool-cases (ltb 0 b)) [
    | inl pos ↦
        rw (lt→ltb b 64 hb, pos)
          (four_eq refl refl (word_alone b hb _) (word_carry b hb _ _ pos hu.0))
    | inr zer ↦
        rw (lt→ltb b 64 hb, zer)
          (four_eq refl refl (word_alone b hb _) (word_no_carry b hb _ _ zer hu.0))
  ]
  shl_words_lem (suc (suc (suc zero))) = elim (Bool-cases (ltb 0 b)) [
    | inl pos ↦ rw (lt→ltb b 64 hb, pos) (four_eq refl refl refl (word_alone b hb _))
    | inr zer ↦ rw (lt→ltb b 64 hb, zer) (four_eq refl refl refl (word_alone b hb _))
  ]
  shl_words_lem (suc (suc (suc (suc n)))) = ground arith

  -- `value u * 2 ^ b`, word by word.
  scaled :
      value u * 2 ^ b
      ≡ low u.w0 b
        + 2 ^ 64 * (low u.w1 b + carry u.w0 b)
        + 2 ^ 128 * (low u.w2 b + carry u.w1 b)
        + 2 ^ 192 * (low u.w3 b + carry u.w2 b)
        + 2 ^ 256 * carry u.w3 b
  scaled = omega (
    arith,
    shl_parts u.w0 (le_of_lt hb),
    shl_parts u.w1 (le_of_lt hb),
    shl_parts u.w2 (le_of_lt hb),
    shl_parts u.w3 (le_of_lt hb),
  )

  top_fits :
      (low u.w0 b < 2 ^ 64)
      × (low u.w1 b + carry u.w0 b < 2 ^ 64)
      × (low u.w2 b + carry u.w1 b < 2 ^ 64)
      × (low u.w3 b + carry u.w2 b < 2 ^ 64)
  top_fits = (
    omega arith,
    low-add-carry-lt u.w1 u.w0 b hu.0 hb,
    low-add-carry-lt u.w2 u.w1 b hu.1 hb,
    low-add-carry-lt u.w3 u.w2 b hu.2 hb,
  )

  shifted-value :
      (ws : ℕ) → value (from_le_u64 (shifted ws b u)) ≡ value u * (2 ^ (64 * ws) * 2 ^ b) % 2 ^ 256
  shifted-value zero = omega (arith, scaled, top_fits)
  shifted-value (suc zero) = omega (arith, scaled, top_fits)
  shifted-value (suc (suc zero)) = omega (arith, scaled, top_fits)
  shifted-value (suc (suc (suc zero))) = omega (arith, scaled, top_fits)
  shifted-value (suc (suc (suc (suc n)))) = sym (
      ap (λ (t : ℕ). value u * (t * 2 ^ b) % 2 ^ 256) many
      ∙ ap (λ (t : ℕ). t % 2 ^ 256) regrouped
      ∙ mul-mod_left (value u * (2 ^ (64 * n) * 2 ^ b)) (2 ^ 256))
    where
      many : 2 ^ (64 * suc (suc (suc (suc n)))) ≡ 2 ^ (64 * n) * 2 ^ 256
      many = ap (λ (t : ℕ). 2 ^ t) (omega arith) ∙ pow-add 2 (64 * n) 256

      regrouped :
          value u * (2 ^ (64 * n) * 2 ^ 256 * 2 ^ b) ≡ value u * (2 ^ (64 * n) * 2 ^ b) * 2 ^ 256
      regrouped = omega arith

  shifted-IsUint256 : (ws : ℕ) → IsUint256 (from_le_u64 (shifted ws b u))
  shifted-IsUint256 zero = top_fits
  shifted-IsUint256 (suc zero) = omega (arith, top_fits)
  shifted-IsUint256 (suc (suc zero)) = omega (arith, top_fits)
  shifted-IsUint256 (suc (suc (suc zero))) = omega (arith, top_fits)
  shifted-IsUint256 (suc (suc (suc (suc n)))) = omega arith

mod_64-lt : (s : ℕ) → s % 64 < 64
mod_64-lt s = omega arith

module _ (u : Uint256) (s : ℕ) (hu : IsUint256 u) where
  -- The shift of a well-formed integer multiplies its value by `2 ^ s`, modulo `2 ^ 256`.
  pub shl-value : value (shl u s) ≡ value u * 2 ^ s % 2 ^ 256
  unfolding shl
  shl-value = rw (shl_words_lem u (s % 64) hu (mod_64-lt s) (s / 64)) (
      shifted-value u (s % 64) hu (mod_64-lt s) (s / 64)
      ∙ ap (λ (t : ℕ). value u * t % 2 ^ 256) whole)
    where
      whole : 2 ^ (64 * (s / 64)) * 2 ^ (s % 64) ≡ 2 ^ s
      whole = sym (pow-add 2 (64 * (s / 64)) (s % 64)) ∙ ap (λ (t : ℕ). 2 ^ t) (omega arith)

  pub shl-IsUint256 : IsUint256 (shl u s)
  unfolding shl
  shl-IsUint256 =
      rw (shl_words_lem u (s % 64) hu (mod_64-lt s) (s / 64))
        (shifted-IsUint256 u (s % 64) hu (mod_64-lt s) (s / 64))
