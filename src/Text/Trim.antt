-- ===== src/Text/Trim.antt =====
-- `str::trim`: White_Space at both ends, by the UTF-8 forms of its characters.
use velkar_gpu.Base.{ℕ, ◌≡◌, refl, Bool, ◌&&◌, ◌||◌, [], ◌∷◌, leb, ◌==◌, if◌then◌else◌}
use mathlib.Core.List.{reverse}
use velkar_gpu.Word.{Bytes}

-- U+0009 to U+000D and U+0020.
abbrev is_space₁ : ℕ → Bool
is_space₁ a = (leb 9 a && leb a 13) || a == 32

-- U+0085 and U+00A0.
abbrev is_space₂ : ℕ → ℕ → Bool
is_space₂ a b = a == 0xc2 && (b == 0x85 || b == 0xa0)

-- U+1680, U+2000 to U+200A, U+2028, U+2029, U+202F, U+205F and U+3000.
abbrev is_space₃ : ℕ → ℕ → ℕ → Bool
is_space₃ a b c =
    (a == 0xe1 && b == 0x9a && c == 0x80)
    || (a == 0xe2
        && b == 0x80
        && ((leb 0x80 c && leb c 0x8a) || c == 0xa8 || c == 0xa9 || c == 0xaf))
    || (a == 0xe2 && b == 0x81 && c == 0x9f)
    || (a == 0xe3 && b == 0x80 && c == 0x80)

module _ (one : ℕ → Bool) (two : ℕ → ℕ → Bool) (three : ℕ → ℕ → ℕ → Bool) where
  trim_front : Bytes → Bytes
  trim_front [] = []
  trim_front (a ∷ []) = if one a then [] else a ∷ []
  trim_front (a ∷ b ∷ []) =
      let next = trim_front (b ∷ []) in if one a then next else if two a b then [] else a ∷ b ∷ []
  trim_front (a ∷ b ∷ c ∷ s) =
      let after_one = trim_front (b ∷ c ∷ s) in
      let after_two = trim_front (c ∷ s) in
      let after_three = trim_front s in
      if one a
      then after_one
      else if two a b
      then after_two
      else if three a b c
      then after_three
      else a ∷ b ∷ c ∷ s

unfoldable pub trim_start : Bytes → Bytes
unfolding trim_front
trim_start = trim_front is_space₁ is_space₂ is_space₃

unfoldable pub trim_end : Bytes → Bytes
unfolding trim_front
trim_end s =
    reverse (trim_front is_space₁ (λ a b. is_space₂ b a) (λ a b c. is_space₃ c b a) (reverse s))

unfoldable pub trim : Bytes → Bytes
unfolding trim_start trim_end
trim s = trim_end (trim_start s)

-- `s.trim_end_matches(c)` at an ASCII character.
drop_leading : ℕ → Bytes → Bytes
drop_leading c [] = []
drop_leading c (b ∷ s) = let rest = drop_leading c s in if b == c then rest else b ∷ s

unfoldable pub trim_end_matches : ℕ → Bytes → Bytes
unfolding drop_leading
trim_end_matches c s = reverse (drop_leading c (reverse s))

trims_both_ends : trim (32 ∷ 9 ∷ b'x' ∷ 32 ∷ b'y' ∷ 0xc2 ∷ 0xa0 ∷ 10 ∷ []) ≡ b'x' ∷ 32 ∷ b'y' ∷ []
unfolding trim
trims_both_ends = refl
