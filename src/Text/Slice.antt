-- ===== src/Text/Slice.antt =====
-- Bytes of a text, prefixes, and slices, which panic off a character boundary.
use Prim.Native.Char.{code}
use Prim.Native.String.{String}
use mathlib.Core.Option
use velkar_gpu.Base.Chain.{unwrap_or}
use mathlib.Core.Option.{some-injective}
use velkar_gpu.Base.{
  ap, ◌≤◌, Bool-cases, Option-cases, inl, inr, ℕ, zero, suc, ◌-◌, ◌≡◌, arith, Bool, true, false,
  ◌&&◌, ◌||◌, [], ◌∷◌, Option, none, some, length, get_elem?, take, drop, ltb, leb, ◌==◌,
  if◌then◌else◌, Outcome, ok, panic,
}
use velkar_gpu.Word.{Bytes}

-- The code points of a literal, which are its bytes where the text is ASCII.
abbrev pub codes : String → Bytes
codes String.[] = []
codes (String.◌∷◌ c s) = code c ∷ codes s

-- Not a byte inside a character.
abbrev pub starts_char : ℕ → Bool
starts_char b = ltb b 0x80 || leb 0xc0 b

abbrev boundary_at : Bytes → ℕ → ℕ → Bool
boundary_at s i n = elim (get_elem? s i) [ some b ↦ starts_char b | none ↦ i == n ]

abbrev pub is_char_boundary : Bytes → ℕ → Bool
is_char_boundary s i = boundary_at s i (length s)

-- `&s[a..b]`
unfoldable pub slice : Bytes → ℕ → ℕ → Outcome Bytes
slice s a b =
    if leb a b && is_char_boundary s a && is_char_boundary s b
    then ok (take (b - a) (drop a s))
    else panic

-- `s.chars().count()`
abbrev pub count_chars : Bytes → ℕ
count_chars [] = 0
count_chars (b ∷ s) = if starts_char b then suc (count_chars s) else count_chars s

abbrev pub strip_prefix : Bytes → Bytes → Option Bytes
strip_prefix [] s = some s
strip_prefix (p ∷ ps) [] = none
strip_prefix (p ∷ ps) (c ∷ s) = if p == c then strip_prefix ps s else none

abbrev pub starts_with : Bytes → Bytes → Bool
starts_with p s = elim (strip_prefix p s) [ none ↦ false | some _ ↦ true ]

abbrev pub contains : ℕ → Bytes → Bool
contains b [] = false
contains b (c ∷ s) = c == b || contains b s

-- `==` on texts.
abbrev pub bytes_eq : Bytes → Bytes → Bool
bytes_eq [] [] = true
bytes_eq [] (c ∷ s) = false
bytes_eq (b ∷ r) [] = false
bytes_eq (b ∷ r) (c ∷ s) = b == c && bytes_eq r s

-- `s.split_once(c)` at an ASCII character.
pub record Halves : Type 0 where
  pub before : Bytes
  pub after : Bytes

abbrev pub put_before : ℕ → Option Halves → Option Halves
put_before b none = none
put_before b (some h) = some (record { before = b ∷ h.before; after = h.after })

abbrev pub split_once : ℕ → Bytes → Option Halves
split_once c [] = none
split_once c (b ∷ s) =
    if b == c then some (record { before = []; after = s }) else put_before b (split_once c s)

-- `s.trim_start_matches(p)`; each round but the last drops a byte at least.
trim_start_rounds : ℕ → Bytes → Bytes → Bytes
trim_start_rounds zero p s = s
trim_start_rounds (suc n) p s =
    unwrap_or (Option.map (λ rest. trim_start_rounds n p rest) (strip_prefix p s)) s

unfoldable pub trim_start_matches : Bytes → Bytes → Bytes
unfolding trim_start_rounds
trim_start_matches p s = trim_start_rounds (length s) p s

length-strip_prefix : (p s r : Bytes) → strip_prefix p s ≡ some r → length r ≤ length s
length-strip_prefix [] s r e = omega (arith, ap length (some-injective _ _ e))
length-strip_prefix (p ∷ ps) [] r e = absurd (cc e)
length-strip_prefix (p ∷ ps) (c ∷ s) r e = elim (Bool-cases (p == c)) [
  | inl same ↦ omega (arith, length-strip_prefix ps s r (rw same at e))
  | inr other ↦ absurd (cc (rw other at e))
]

pub length-trim_start_matches : (p s : Bytes) → length (trim_start_matches p s) ≤ length s
unfolding trim_start_matches
length-trim_start_matches p s = go (length s) s
  where
    go : (n : ℕ) (s : Bytes) → length (trim_start_rounds n p s) ≤ length s
    go zero s = omega arith
    go (suc n) s = elim (Option-cases (strip_prefix p s)) [
      | inl same ↦ rw same (omega arith)
      | inr rest ↦
          let shorter = length-strip_prefix p s rest.0 rest.1 in
          rw (rest.1) (omega (arith, go n rest.0, shorter))
    ]
