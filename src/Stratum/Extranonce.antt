-- ===== src/Stratum/Extranonce.antt =====
-- What a pool's extranonce configures: a mask of low bits and a fixed part above them.
use native.Mathlib.Nat.{
  mod-eq_of_lt, pow-suc, mul-mod_left, mod-lt, pow-le-pow_right, mul-le-mul_right,
}
use mathlib.Core.Option.{some-injective}
use velkar_gpu.Base.{
  ◌⊎◌, inl, inr, Bool-cases, ltb, length, ok-injective, ok-injective, ℕ, suc, ◌+◌, ◌-◌, ◌*◌, ◌%◌,
  ◌^◌, ◌≤◌, ◌<◌, ◌≡◌, ◌∙◌, refl, sym, ap, ap₂, arith, subst, [], ◌∷◌, Option, none, some, length,
  bit_and, bit_or, ltb, leb, ◌==◌, if◌then◌else◌, Bool-cases, inl, inr, ok, ok_or, parse_int,
  >>=-eq-ok, pow-add, two_pow-pos, shl_low, ==_iff, two_pow-split,
}
use velkar_gpu.Base.Bits.{bit_and_mask, bit_or_low_high}
use velkar_gpu.Word.{Bytes, u32, ◌<<<◌}
use velkar_gpu.Base.Chain.{>>=-eq-some}
use velkar_gpu.Text.{
  push_digit, codes, trim_start_matches, length-trim_start_matches, from_str_radix16, scan_hex,
  to_digit,
}
use velkar_gpu.Pow.State.{State, apply_extranonce}
use velkar_gpu.Stratum.{StratumHandler, set_extranonce, parse_fixed, configure, fixed_bits}

-- An extranonce of a handler or a job: `k` low bits are free, and the fixed part is a multiple of
-- 2 ^ k that 64 bits hold, so with 64 free bits it is zero. The exception is a text of 2 ^ 28 or more
-- digits, whose number of bits wraps around.
abbrev pub IsExtranonce : ℕ → ℕ → Type 0
IsExtranonce mask fixed =
    (k : ℕ) × (k ≤ 64)
    × (mask ≡ 2 ^ k - 1)
    × (fixed < 2 ^ 64)
    × ((fixed % 2 ^ k ≡ 0)
        ⊎ ((digits : Bytes) × (v : ℕ) × (2 ^ 28 ≤ length digits)
            × (parse_fixed digits ≡ ok v)
            × (fixed ≡ v <<< k)))

to_digit-lt : (c d : ℕ) → to_digit c ≡ some d → d < 16
to_digit-lt c d e = ground arith

four_more : (n : ℕ) → 2 ^ (4 * suc n) ≡ 16 * 2 ^ (4 * n)
four_more n =
    ap (λ (t : ℕ). 2 ^ t) {x = 4 * suc n} {y = 4 + 4 * n} (omega arith) ∙ pow-add 2 4 (4 * n)

push_digit-eq : (bound acc d v : ℕ) → push_digit bound acc d ≡ some v → v ≡ acc * 16 + d
push_digit-eq bound acc d v e = ground arith

-- `n` digits spell a number below 16 ^ n.
scan_hex-lt :
    (bound : ℕ) (s : Bytes) (acc v : ℕ)
    → scan_hex bound s acc ≡ some v
    → v < (acc + 1) * 2 ^ (4 * length s)
unfolding scan_hex
scan_hex-lt bound [] acc v e = omega (arith, some-injective _ _ e)
scan_hex-lt bound (c ∷ s) acc v e =
    let digit = >>=-eq-some (to_digit c) _ e in
    let pushed = >>=-eq-some (push_digit bound acc digit.0) _ digit.2 in
    let sum = push_digit-eq bound acc digit.0 pushed.0 pushed.1 in
    let below : pushed.0 + 1 ≤ acc * 16 + 16 = omega (arith, to_digit-lt c digit.0 digit.1, sum) in
    omega (
      arith,
      scan_hex-lt bound s pushed.0 v pushed.2,
      ap (λ t. (acc + 1) * t) (four_more (length s)),
      mul-le-mul_right (2 ^ (4 * length s)) below,
    )

from_str_radix16-lt :
    (bound : ℕ) (s : Bytes) (v : ℕ) → from_str_radix16 bound s ≡ some v → v < 2 ^ (4 * length s)
unfolding from_str_radix16
from_str_radix16-lt bound [] v e = absurd (cc e)
from_str_radix16-lt bound (c ∷ []) v e = omega (arith, scan_hex-lt bound (c ∷ []) 0 v e)
from_str_radix16-lt bound (c ∷ d ∷ s) v e = elim (Bool-cases (c == b'+')) [
  | inl plus ↦
      omega (arith, scan_hex-lt bound (d ∷ s) 0 v (rw plus at e), four_more (length (d ∷ s)))
  | inr digits ↦ omega (arith, scan_hex-lt bound (c ∷ d ∷ s) 0 v (rw digits at e))
]

parse_fixed-lt : (s : Bytes) (v : ℕ) → parse_fixed s ≡ ok v → v < 2 ^ (4 * length s)
parse_fixed-lt [] v e = grind arith
parse_fixed-lt (c ∷ s) v e =
    from_str_radix16-lt (2 ^ 64) (c ∷ s) v (ok_or-eq-ok (from_str_radix16 (2 ^ 64) (c ∷ s)) e)
  where
    ok_or-eq-ok : (o : Option ℕ) → ok_or o parse_int ≡ ok v → o ≡ some v
    ok_or-eq-ok none h = cc
    ok_or-eq-ok (some a) h = cc

-- The two shifts of `set_extranonce`.
mask_lem : (k : ℕ) → k ≤ 64 → (if k == 64 then 2 ^ 64 - 1 else (1 <<< k) - 1) ≡ 2 ^ k - 1
mask_lem k h = elim (Bool-cases (k == 64)) [
  | inl full ↦ rw full (ap (λ (t : ℕ). 2 ^ t - 1) {x = 64} {y = k} (sym ((==_iff k 64).0 full)))
  | inr partial ↦
      let small : k < 64 = ground arith in
      let reduced : k % 64 ≡ k = omega arith in
      let room : 1 < 2 ^ (64 - k) = omega (
        arith,
        ap (λ (t : ℕ). 2 ^ t) {x = 64 - k} {y = suc (63 - k)} (omega arith),
        pow-suc 2 (63 - k),
        two_pow-pos (63 - k),
      ) in
      rw (partial, reduced, shl_low 1 h, mod-eq_of_lt room) (omega arith)
]

shifted_aligned : (fixed k : ℕ) → (fixed <<< k) % 2 ^ (k % 64) ≡ 0
shifted_aligned fixed k =
    let j = k % 64 in
    let within : j ≤ 64 = omega arith in
    rw (shl_low fixed {k = j} {w = 64} within) (mul-mod_left (fixed % 2 ^ (64 - j)) (2 ^ j))

-- What a successful call read and stored.
accepted :
    (h h' : StratumHandler) (extranonce : Bytes) (nonce_size : ℕ)
    → set_extranonce h extranonce nonce_size ≡ ok h'
    → (fixed : ℕ) × (nonce_size * 8 ≤ 64)
      × (parse_fixed (trim_start_matches (codes "0x") extranonce) ≡ ok fixed)
      × (u32 (fixed_bits (trim_start_matches (codes "0x") extranonce) + nonce_size * 8) ≤ 64)
      × (record h {
        nonce_mask = 2 ^ (nonce_size * 8) - 1;
        nonce_fixed = fixed <<< (nonce_size * 8);
      }
          ≡ h')
unfolding set_extranonce
accepted h h' extranonce nonce_size e = elim (Bool-cases (leb (2 ^ 32) (nonce_size * 8))) [
  | inl huge ↦ absurd (cc (rw huge at e))
  | inr checked ↦ elim (Bool-cases (ltb 64 (nonce_size * 8))) [
    | inl wide ↦ absurd (cc (rw (checked, wide) at e))
    | inr narrow ↦
        let digits = trim_start_matches (codes "0x") extranonce in
        let read =
          >>=-eq-ok (parse_fixed digits) (configure h (nonce_size * 8) (fixed_bits digits))
            (rw (checked, narrow) at e) in
        let size : nonce_size * 8 ≤ 64 = ground arith in
        elim (Bool-cases (ltb 64 (u32 (fixed_bits digits + nonce_size * 8)))) [
          | inl wide ↦ absurd (cc (rw wide at read.2))
          | inr fits ↦ (
            read.0,
            size,
            read.1,
            ground arith,
            ap (λ t. record h { nonce_mask = t; nonce_fixed = read.0 <<< (nonce_size * 8) })
                  (sym (mask_lem (nonce_size * 8) size))
                ∙ ok-injective (rw fits at read.2),
          )
        ]
  ]
]

no_digits : (digits : Bytes) (v : ℕ) → length digits ≡ 0 → parse_fixed digits ≡ ok v → v ≡ 0
no_digits [] v h e = sym (ok-injective e)
no_digits (c ∷ s) v h e = absurd (omega (arith, h))

accepted-above :
    (digits : Bytes) (v k : ℕ)
    → k ≤ 64
    → parse_fixed digits ≡ ok v
    → u32 (fixed_bits digits + k) ≤ 64
    → ((v <<< k) % 2 ^ k ≡ 0)
      ⊎ ((digits : Bytes) × (w : ℕ) × (2 ^ 28 ≤ length digits)
          × (parse_fixed digits ≡ ok w)
          × (v <<< k ≡ w <<< k))
accepted-above digits v k size read fits = elim (Bool-cases (ltb k 64)) [
  | inl some_fixed ↦
      let low : k < 64 = ground arith in
      let same : k % 64 ≡ k = omega arith in
      inl (subst (λ n. (v <<< k) % 2 ^ n ≡ 0) same (shifted_aligned v k))
  | inr all_free ↦
      let full : k ≡ 64 = ground arith in
      elim (Bool-cases (ltb (length digits) (2 ^ 28))) [
        | inl short ↦
            let less : length digits < 2 ^ 28 = ground arith in
            let none_left : length digits ≡ 0 = omega arith in
            let zero_v = no_digits digits v none_left read in inl (rw (full, zero_v) refl)
        | inr long ↦ inr (digits, v, ground arith, read, refl)
      ]
]

-- Whatever extranonce is accepted, the mask has the low `8 * nonce_size` bits, at most 64, the fixed
-- part is a 64-bit multiple of their power unless the text has 2 ^ 28 digits or more, and nothing else
-- of the handler changes.
pub set_extranonce-IsExtranonce :
    (h h' : StratumHandler) (extranonce : Bytes) (nonce_size : ℕ)
    → set_extranonce h extranonce nonce_size ≡ ok h'
    → IsExtranonce h'.nonce_mask h'.nonce_fixed
      × (record h { nonce_mask = h'.nonce_mask; nonce_fixed = h'.nonce_fixed } ≡ h')
set_extranonce-IsExtranonce h h' extranonce nonce_size e =
    let a = accepted h h' extranonce nonce_size e in
    let digits = trim_start_matches (codes "0x") extranonce in
    subst
      (λ t.
        IsExtranonce t.nonce_mask t.nonce_fixed
        × (record h { nonce_mask = t.nonce_mask; nonce_fixed = t.nonce_fixed } ≡ t))
      a.4
      (
        (
          nonce_size * 8,
          a.1,
          refl,
          omega arith,
          accepted-above digits a.0 (nonce_size * 8) a.1 a.2 a.3,
        ),
        refl,
      )

placed_lt : (fixed bits k : ℕ) → fixed < 2 ^ bits → bits + k ≤ 64 → fixed * 2 ^ k < 2 ^ 64
placed_lt fixed bits k small fits =
    let top : 2 ^ 64 ≡ 2 ^ (64 - k) * 2 ^ k = two_pow-split k 64 (omega arith) in
    let room : 2 ^ bits ≤ 2 ^ (64 - k) = pow-le-pow_right (omega arith) (omega arith) in
    let low : fixed + 1 ≤ 2 ^ (64 - k) = omega arith in
    omega (arith, top, mul-le-mul_right (2 ^ k) low, two_pow-pos k)

placed : (fixed bits k : ℕ) → fixed < 2 ^ bits → bits + k ≤ 64 → fixed <<< k ≡ fixed * 2 ^ k
placed fixed bits k small fits = elim (Bool-cases (k == 64)) [
  | inl full ↦
      let e : k ≡ 64 = (==_iff k 64).0 full in
      let none_fixed : bits ≡ 0 = omega arith in
      let zero_fixed : fixed ≡ 0 = omega (arith, ap (λ (t : ℕ). 2 ^ t) none_fixed) in
      rw zero_fixed (omega arith)
  | inr partial ↦
      let reduced : k % 64 ≡ k = ground arith in
      rw reduced (mod-eq_of_lt (placed_lt fixed bits k small fits))
]

-- An accepted extranonce of ordinary length sets the high bits of every nonce: with `fixed` the
-- number that its digits spell, the state of a job applies it to a nonce by keeping the low
-- `8 * nonce_size` bits of the nonce and putting `fixed` above them, within 64 bits.
pub set_extranonce-apply_extranonce :
    {Body : Type 0} (s : State Body) (h h' : StratumHandler) (extranonce : Bytes)
    (nonce_size nonce : ℕ)
    → length extranonce < 2 ^ 28
    → set_extranonce h extranonce nonce_size ≡ ok h'
    → s.nonce_mask ≡ h'.nonce_mask
    → s.nonce_fixed ≡ h'.nonce_fixed
    → (fixed : ℕ) × (parse_fixed (trim_start_matches (codes "0x") extranonce) ≡ ok fixed)
      × (apply_extranonce s nonce ≡ nonce % 2 ^ (8 * nonce_size) + fixed * 2 ^ (8 * nonce_size))
      × (fixed * 2 ^ (8 * nonce_size) < 2 ^ 64)
unfolding apply_extranonce
set_extranonce-apply_extranonce s h h' extranonce nonce_size nonce short e em ef =
    let a = accepted h h' extranonce nonce_size e in
    let digits = trim_start_matches (codes "0x") extranonce in
    let len = length-trim_start_matches (codes "0x") extranonce in
    let k = nonce_size * 8 in
    let fits : 4 * length digits + k ≤ 64 = omega (arith, a.3, len) in
    let small = parse_fixed-lt digits a.0 a.2 in
    let mask : s.nonce_mask ≡ 2 ^ k - 1 = em ∙ sym (ap (λ t. t.nonce_mask) a.4) in
    let high : s.nonce_fixed ≡ a.0 * 2 ^ k =
      ef ∙ sym (ap (λ t. t.nonce_fixed) a.4) ∙ placed a.0 (4 * length digits) k small fits in
    let same : 8 * nonce_size ≡ k = omega arith in
    (
      a.0,
      a.2,
      ap₂ bit_or (ap (bit_and nonce) mask ∙ bit_and_mask k nonce) high
          ∙ bit_or_low_high k a.0 (nonce % 2 ^ k) (mod-lt nonce (two_pow-pos k))
          ∙ ap (λ (t : ℕ). nonce % 2 ^ t + a.0 * 2 ^ t) (sym same),
      subst (λ (t : ℕ). a.0 * 2 ^ t < 2 ^ 64) (sym same)
          (placed_lt a.0 (4 * length digits) k small fits),
    )
