-- ===== src/Target/Difficulty.antt =====
-- `u256_from_stratum_difficulty_str` of src/target.rs: the target of a decimal difficulty.
use velkar_gpu.Base.{
  ℕ, zero, suc, ◌+◌, ◌-◌, ◌*◌, ◌/◌, ◌%◌, ◌^◌, ◌<◌, ◌≤◌, ◌≡◌, ◌≢◌, ◌∙◌, refl, sym, ap, subst, arith,
  true, false, ◌||◌, [], ◌∷◌, ◌++◌, Option, none, some, length, take, drop, replicate, ◌==◌,
  if◌then◌else◌, Bool-cases, inl, inr, min, All, take-append-drop, take_all, All-drop, ◌⊎◌, leb,
  leb→le, All-take, All-append, length-append, length-take, length-replicate,
}
use velkar_gpu.Base.Chain.{◌>>=◌}
use velkar_gpu.Word.{from_le_bytes-append, from_le_bytes-lt, Bytes, IsByte, u32, from_le_bytes}
use velkar_gpu.Text.{codes, trim, starts_with, split_once, Halves, trim_end_matches}
use velkar_gpu.Target.{Uint256, IsUint256, of_le_bytes, le_bytes}
use velkar_gpu.Target.Value.{value}
use velkar_gpu.Target.Octets.{of_le_bytes-IsUint256, le_bytes-of_le_bytes}
use velkar_gpu.Packages.{BigUint}

-- The digits before and behind the point, and the power of ten of the latter.
pub record Scaled (Big : Type 0) : Type 0 where
  pub whole : Bytes
  pub frac : Bytes
  pub scale : Big

-- `target_bytes`, after the copy of at most 32 bytes.
unfoldable pub target_bytes : Bytes → Bytes
target_bytes bytes = let len = min (length bytes) 32 in take len bytes ++ drop len (replicate 32 0)

module _ (n : BigUint) where
  abbrev split_difficulty : Bytes → Option Halves → Scaled n.Big
  split_difficulty difficulty none = record { whole = difficulty; frac = []; scale = n.from_u8 1 }
  split_difficulty difficulty (some h) =
      let frac = trim_end_matches b'0' h.after in
      if length frac == 0
      then record { whole = h.before; frac = []; scale = n.from_u8 1 }
      else record {
        whole = h.before;
        frac = frac;
        scale = n.pow (n.from_u8 10) (u32 (length frac));
      }

  -- `if s.is_empty() { 0 } else { BigUint::parse_bytes(s, 10)? }`
  abbrev parse_part : Bytes → Option n.Big
  parse_part s = if length s == 0 then some (n.from_u8 0) else n.parse_bytes s 10

  abbrev diff1_digits : Bytes
  diff1_digits = codes "00ffff0000000000000000000000000000000000000000000000000000000000"

  -- The target of `scaled / scale`, none for a difficulty of zero.
  unfoldable pub target_of : n.Big → n.Big → Option Uint256
  unfolding target_bytes
  target_of scaled scale = if n.eq scaled (n.from_u8 0) then none else do
    diff1 ← n.parse_bytes diff1_digits 16
    some (of_le_bytes (target_bytes (n.to_bytes_le (n.div (n.mul diff1 scale) scaled))))

  unfoldable pub u256_from_stratum_difficulty_str : Bytes → Option Uint256
  unfolding target_of
  u256_from_stratum_difficulty_str text =
      let difficulty = trim text in
      let s = split_difficulty difficulty (split_once b'.' difficulty) in
      if length difficulty == 0 || starts_with (b'-' ∷ []) difficulty then none else do
        whole_value ← parse_part s.whole
        frac_value ← parse_part s.frac
        target_of (n.add (n.mul whole_value s.scale) frac_value) s.scale

from_le_bytes-le_bytes : (u : Uint256) → IsUint256 u → from_le_bytes (le_bytes u) ≡ value u
unfolding le_bytes
from_le_bytes-le_bytes u h = omega arith

value-of_le_bytes :
    (bs : Bytes) → length bs ≡ 32 → All IsByte bs → value (of_le_bytes bs) ≡ from_le_bytes bs
value-of_le_bytes bs e h =
    sym (from_le_bytes-le_bytes (of_le_bytes bs) (of_le_bytes-IsUint256 bs e h))
    ∙ ap from_le_bytes (le_bytes-of_le_bytes bs e h)

zeros-value : (n : ℕ) → from_le_bytes (replicate n 0) ≡ 0
zeros-value zero = refl
zeros-value (suc n) = omega (arith, zeros-value n)

drop-replicate : (k n : ℕ) → drop {A = ℕ} k (replicate n 0) ≡ replicate (n - k) 0
drop-replicate zero n = ap (λ m. replicate m 0) {x = n} (omega arith)
drop-replicate (suc k) zero = ap (λ m. replicate m 0) {x = 0} (omega arith)
drop-replicate (suc k) (suc n) =
    drop-replicate k n ∙ ap (λ m. replicate m 0) {x = n - k} (omega arith)

-- The low bytes of a number are its remainder.
low_bytes :
    (bs : Bytes)
    → All IsByte bs
    → 32 ≤ length bs
    → from_le_bytes (take 32 bs) ≡ from_le_bytes bs % 2 ^ 256
low_bytes bs h le = omega (
  arith,
  sym (ap from_le_bytes (take-append-drop 32 bs)) ∙ from_le_bytes-append (take 32 bs) (drop 32 bs),
  ap (λ k. 256 ^ k * from_le_bytes (drop 32 bs)) size,
  subst (λ k. from_le_bytes (take 32 bs) < 256 ^ k) size
      (from_le_bytes-lt (take 32 bs) (All-take IsByte 32 bs h)),
)
  where
    size : length (take 32 bs) ≡ 32
    size = omega (arith, length-take 32 bs)

module _ (k : ℕ) (bs : Bytes) (h : All IsByte bs) (small : k ≤ 32) (fits : k ≤ length bs) where
  abbrev copied : Bytes
  copied = take k bs ++ drop k (replicate 32 0)

  length-copied : length copied ≡ 32
  length-copied = omega (
    arith,
    length-append (take k bs) (drop k (replicate 32 0)),
    length-take k bs,
    ap length (drop-replicate k 32),
    length-replicate {A = ℕ} (32 - k) 0,
  )

  copied-IsByte : All IsByte copied
  copied-IsByte =
      All-append IsByte (take k bs) (drop k (replicate 32 0)) (All-take IsByte k bs h)
        (All-drop IsByte k (replicate 32 0) (omega arith))

  copied-value : from_le_bytes copied ≡ from_le_bytes (take k bs)
  copied-value =
      from_le_bytes-append (take k bs) (drop k (replicate 32 0))
      ∙ ap (λ z. from_le_bytes (take k bs) + 256 ^ length (take k bs) * z)
          (ap from_le_bytes (drop-replicate k 32) ∙ zeros-value (32 - k))
      ∙ omega arith

  copied-lt : from_le_bytes copied < 2 ^ 256
  copied-lt =
      subst (λ n. from_le_bytes copied < 256 ^ n) length-copied
        (from_le_bytes-lt copied copied-IsByte)

-- The buffer holds the number of the bytes, modulo 2 ^ 256.
target_bytes-value :
    (bs : Bytes)
    → All IsByte bs
    → (length (target_bytes bs) ≡ 32)
      × All IsByte (target_bytes bs)
      × (from_le_bytes (target_bytes bs) ≡ from_le_bytes bs % 2 ^ 256)
unfolding target_bytes
target_bytes-value bs h =
    let k = min (length bs) 32 in
    let small : k ≤ 32 = omega arith in
    let fits : k ≤ length bs = omega arith in
    (
      length-copied k bs h small fits,
      copied-IsByte k bs h small fits,
      copied-value k bs h small fits ∙ by_size (Bool-cases (leb 32 (length bs))),
    )
  where
    by_size :
        ((leb 32 (length bs) ≡ true) ⊎ (leb 32 (length bs) ≡ false))
        → from_le_bytes (take (min (length bs) 32) bs) ≡ from_le_bytes bs % 2 ^ 256
    by_size (inl long) =
        ap (λ n. from_le_bytes (take n bs)) {x = min (length bs) 32} {y = 32} (ground arith)
        ∙ low_bytes bs h (leb→le 32 (length bs) long)
    by_size (inr short) =
        let all =
          ap (λ n. from_le_bytes (take n bs)) {x = min (length bs) 32} {y = length bs}
            (ground arith)
          ∙ ap from_le_bytes (take_all (length bs) bs refl) in
        let k = min (length bs) 32 in
        omega (
          arith,
          all,
          copied-value k bs h (omega arith) (omega arith),
          copied-lt k bs h (omega arith) (omega arith),
        )

module _ (n : BigUint) where
  -- The target of a difficulty `scaled / scale` that is not zero is the whole part of 0xffff * 2
  -- ^ 232 divided by it, modulo 2 ^ 256.
  pub target_of-value :
      (scaled scale : n.Big)
      → n.to_nat scaled ≢ 0
      → (u : Uint256) × (target_of n scaled scale ≡ some u)
        × IsUint256 u
        × (value u ≡ 0xffff * 2 ^ 232 * n.to_nat scale / n.to_nat scaled % 2 ^ 256)
  unfolding target_of
  target_of-value scaled scale nonzero =
      let diff1 =
        n.parse_bytes-digits b'0'
          (codes "0ffff0000000000000000000000000000000000000000000000000000000000") 16
          (0xffff * 2 ^ 232) refl in
      let quotient = n.div (n.mul diff1.0 scale) scaled in
      let bytes = n.to_bytes_le quotient in
      let read = target_bytes-value bytes (n.to_bytes_le-IsByte quotient) in
      (
        of_le_bytes (target_bytes bytes),
        rw (not_zero, diff1.1),
        of_le_bytes-IsUint256 (target_bytes bytes) read.0 read.1,
        value-of_le_bytes (target_bytes bytes) read.0 read.1
            ∙ read.2
            ∙ ap (λ (t : ℕ). t % 2 ^ 256)
                (n.from_le_bytes-to_bytes_le quotient
                  ∙ n.to_nat-div (n.mul diff1.0 scale) scaled nonzero
                  ∙ ap (λ (t : ℕ). t / n.to_nat scaled)
                      (n.to_nat-mul diff1.0 scale ∙ ap (λ (t : ℕ). t * n.to_nat scale) diff1.2)),
      )
    where
      not_zero : n.eq scaled (n.from_u8 0) ≡ false
      not_zero = elim (Bool-cases (n.eq scaled (n.from_u8 0))) [
        | inl same ↦
            absurd
              (nonzero ((n.eq-true scaled (n.from_u8 0)).0 same ∙ n.to_nat-from_u8 0 (omega arith)))
        | inr other ↦ other
      ]
