-- ===== src/Cli/Percent.antt =====
-- The range of `--devfund-percent`.
use velkar_gpu.Base.{
  ok-injective, sym, subst, ap, ◌++◌, ◌∷◌, [], ◌==◌, ==_iff, ◌⊎◌, refl, ℕ, ◌+◌, ◌*◌, max, ◌≤◌, ◌<◌,
  ◌≡◌, arith, ◌||◌, Option, none, some, length, leb, ltb, Bool-cases, inl, inr, ok, ◌>>=◌,
  >>=-eq-ok,
}
use velkar_gpu.Word.{Bytes, u16}
use mathlib.Core.Option.{some-injective}
use velkar_gpu.Text.{put_before, codes, split_once, contains, Halves}
use velkar_gpu.Cli.{parse_devfund_percent, percent_split, percent_parts, percent_of, parse_u16}

-- The two numbers of a percentage, and its value in hundredths of a percent.
abbrev pub Parsed : Bytes → Bytes → ℕ → Type 0
Parsed before after v =
    (high : ℕ) × (low : ℕ) × (parse_u16 before ≡ ok high)
    × (parse_u16 after ≡ ok low)
    × (100 ≤ v)
    × (v ≤ 9999)
    × (v ≡ max (100 * high + low) 100)

-- The texts before and behind the dot of a text, the second "0" without a dot.
abbrev pub IsSplit : Bytes → Bytes → Bytes → Type 0
IsSplit s before after = ((before ≡ s) × (after ≡ codes "0")) ⊎ (s ≡ before ++ b'.' ∷ after)

percent_of-le :
    (high low v : ℕ)
    → percent_of high low ≡ ok v
    → (100 ≤ v) × (v ≤ 9999) × (v ≡ max (100 * high + low) 100)
percent_of-le high low v e = elim (Bool-cases (leb 100 high)) [
  | inl large ↦ absurd (cc (rw large at e))
  | inr small ↦ elim (Bool-cases (leb 100 low)) [
    | inl large ↦ absurd (cc (rw (small, large) at e))
    | inr both ↦ bounded (ground arith) (ground arith) (ok-injective (rw (small, both) at e))
  ]
]
  where
    bounded :
        high < 100
        → low < 100
        → max (u16 (u16 (high * 100) + low)) 100 ≡ v
        → (100 ≤ v) × (v ≤ 9999) × (v ≡ max (100 * high + low) 100)
    bounded hh hl e = omega arith

put_before-eq :
    (b : ℕ) (o : Option Halves) (h : Halves)
    → put_before b o ≡ some h
    → (h' : Halves) × (o ≡ some h') × (h ≡ record { before = b ∷ h'.before; after = h'.after })
put_before-eq b none h e = absurd (cc e)
put_before-eq b (some h') h e = (h', refl, sym (some-injective _ _ e))

-- The halves of a split, joined at the separator, are the text.
split_once-eq :
    (c : ℕ) (s : Bytes) (h : Halves) → split_once c s ≡ some h → s ≡ h.before ++ c ∷ h.after
split_once-eq c [] h e = absurd (cc e)
split_once-eq c (b ∷ s) h e = elim (Bool-cases (b == c)) [
  | inl here ↦
      subst (λ t. b ∷ s ≡ t.before ++ c ∷ t.after) (some-injective _ _ (rw here at e))
        (ap (λ t. t ∷ s) ((==_iff b c).0 here))
  | inr later ↦
      let rest = put_before-eq b (split_once c s) h (rw later at e) in
      subst (λ t. b ∷ s ≡ t.before ++ c ∷ t.after) (sym rest.2)
        (ap (λ t. b ∷ t) (split_once-eq c s rest.0 rest.1))
]

module _ (v : ℕ) where
  parts-range : (before after : Bytes) → percent_parts before after ≡ ok v → Parsed before after v
  parts-range before after e = elim (Bool-cases (ltb 2 (length before) || ltb 2 (length after))) [
    | inl long ↦ absurd (cc (rw long at e))
    | inr short ↦
        let low =
          >>=-eq-ok (parse_u16 after) (λ low. parse_u16 before >>= λ high. percent_of high low)
            (rw short at e) in
        let high = >>=-eq-ok (parse_u16 before) (λ high. percent_of high low.0) low.2 in
        let range = percent_of-le high.0 low.0 v high.2 in
        (high.0, low.0, high.1, low.1, range.0, range.1, range.2)
  ]

-- An accepted percentage is 100 times the number before the dot plus the number behind it, which
-- is 0 without a dot, but at least 100; it is at most 9999.
pub parse_devfund_percent-range :
    (s : Bytes) (v : ℕ)
    → parse_devfund_percent s ≡ ok v
    → (before : Bytes) × (after : Bytes) × IsSplit s before after × Parsed before after v
unfolding parse_devfund_percent
parse_devfund_percent-range s v e = go (split_once b'.' s) refl e
  where
    go :
        (halves : Option Halves)
        → split_once b'.' s ≡ halves
        → percent_split s halves ≡ ok v
        → (before : Bytes) × (after : Bytes) × IsSplit s before after × Parsed before after v
    go none split e = (s, codes "0", inl (refl, refl), parts-range v s (codes "0") e)
    go (some h) split e = elim (Bool-cases (contains b'.' h.after)) [
      | inl dots ↦ absurd (cc (rw dots at e))
      | inr one ↦ (
        h.before,
        h.after,
        inr (split_once-eq b'.' s h split),
        parts-range v h.before h.after (rw one at e),
      )
    ]
