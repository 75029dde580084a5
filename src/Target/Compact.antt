-- ===== src/Target/Compact.antt =====
-- The compact encoding of a target, against its arithmetic meaning.
use native.Mathlib.Nat.{div-le_self}
use velkar_gpu.Base.{
  ℕ, ◌-◌, ◌*◌, ◌/◌, ◌%◌, ◌^◌, ◌<◌, ◌≡◌, ◌∙◌, ap, arith, true, false, leb, ltb, if◌then◌else◌,
  Bool-cases, inl, inr,
}
use velkar_gpu.Base.Bits.{bit_and_mask}
use velkar_gpu.Word.{u32}
use velkar_gpu.Target.{
  IsUint256, from_u64, zero_target, shl, unpack_compact, u256_from_compact_target,
}
use velkar_gpu.Target.Value.{value}
use velkar_gpu.Target.Shift.{shl-value, shl-IsUint256}

-- The meaning of `bits`, an exponent byte `e` above a mantissa `m` of 24 bits:
-- `m * 256 ^ (e - 3)`, with the low bytes cut off for `e < 3`.
abbrev pub compact_value : ℕ → ℕ → ℕ
compact_value e m = if leb e 3 then m / 2 ^ (8 * (3 - e)) else m * 2 ^ (8 * (e - 3))

-- A mantissa above 0x7fffff stands for a negative target, which is read as zero.
abbrev pub compact_target : ℕ → ℕ → ℕ
compact_target e m =
    if ltb 0x7fffff (if leb e 3 then m / 2 ^ (8 * (3 - e)) else m)
    then 0
    else compact_value e m % 2 ^ 256

abbrev pub exponent : ℕ → ℕ
exponent bits = bits / 2 ^ 24

abbrev pub mantissa : ℕ → ℕ
mantissa bits = bits % 2 ^ 24

module _ (bits : ℕ) (h : bits < 2 ^ 32) where
  unpack_small :
      leb (exponent bits) 3 ≡ true
      → unpack_compact bits
        ≡ record { mant = mantissa bits / 2 ^ (8 * (3 - exponent bits)); expt = 0 }
  unfolding unpack_compact
  unpack_small small = rw (small, bit_and_mask 24 bits)

  unpack_large :
      leb (exponent bits) 3 ≡ false
      → unpack_compact bits ≡ record { mant = mantissa bits; expt = 8 * (exponent bits - 3) }
  unfolding unpack_compact
  unpack_large large =
      rw (large, bit_and_mask 24 bits) (λ i. record { mant = mantissa bits; expt = wide i })
    where
      wide : u32 (8 * (exponent bits - 3)) ≡ 8 * (exponent bits - 3)
      wide = omega arith

  small_word : (m e : ℕ) → m < 2 ^ 64 → value (shl (from_u64 m) e) ≡ m * 2 ^ e % 2 ^ 256
  small_word m e hm =
      shl-value (from_u64 m) e (omega arith) ∙ ap (λ (t : ℕ). t * 2 ^ e % 2 ^ 256) (omega arith)

  decoded :
      (m e : ℕ)
      → m < 2 ^ 64
      → value (if ltb 0x7fffff m then zero_target else shl (from_u64 m) e)
        ≡ (if ltb 0x7fffff m then 0 else m * 2 ^ e % 2 ^ 256)
  decoded m e hm = elim (Bool-cases (ltb 0x7fffff m)) [
    | inl negative ↦ rw negative
    | inr positive ↦ rw positive (small_word m e hm)
  ]

  unshifted :
      (m : ℕ)
      → (if ltb 0x7fffff m then 0 else m * 2 ^ 0 % 2 ^ 256)
        ≡ (if ltb 0x7fffff m then 0 else m % 2 ^ 256)
  unshifted m = ap (λ (t : ℕ). if ltb 0x7fffff m then 0 else t % 2 ^ 256) (omega arith)

  small_mantissa : (k : ℕ) → mantissa bits / 2 ^ k < 2 ^ 64
  small_mantissa k = omega (arith, div-le_self (mantissa bits) (2 ^ k))

  -- A compact target of 32 bits is decoded to its arithmetic meaning, modulo 2 ^ 256, and to
  -- zero where the mantissa is negative.
  pub u256_from_compact_target-value :
      value (u256_from_compact_target bits) ≡ compact_target (exponent bits) (mantissa bits)
  unfolding u256_from_compact_target
  u256_from_compact_target-value = elim (Bool-cases (leb (exponent bits) 3)) [
    | inl small ↦
        rw (unpack_small small, small)
          (decoded _ 0 (small_mantissa (8 * (3 - exponent bits))) ∙ unshifted _)
    | inr large ↦ rw (unpack_large large, large) (decoded (mantissa bits) _ (omega arith))
  ]

pub u256_from_compact_target-IsUint256 : (bits : ℕ) → IsUint256 (u256_from_compact_target bits)
unfolding u256_from_compact_target
u256_from_compact_target-IsUint256 bits =
    elim (Bool-cases (ltb 0x7fffff (unpack_compact bits).mant)) [
      | inl negative ↦ rw negative (omega arith)
      | inr positive ↦
          rw positive (shl-IsUint256 (from_u64 (unpack_compact bits).mant) _ (ground arith))
    ]
