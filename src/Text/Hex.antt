-- ===== src/Text/Hex.antt =====
-- Hexadecimal digits, `from_str_radix(_, 16)` and the formats `{:02x}` and `{:016x}`.
use velkar_gpu.Base.{
  ℕ, zero, suc, ◌+◌, ◌-◌, ◌*◌, ◌/◌, ◌%◌, true, false, ◌&&◌, [], ◌∷◌, ◌++◌, Option, none, some, ltb,
  leb, ◌==◌, if◌then◌else◌,
}
use velkar_gpu.Base.Chain.{◌>>=◌}
use velkar_gpu.Word.{Bytes}

-- `char::to_digit(16)`
abbrev pub to_digit : ℕ → Option ℕ
to_digit c =
    if leb b'0' c && leb c b'9'
    then some (c - b'0')
    else if leb b'a' c && leb c b'f'
    then some (c - b'a' + 10)
    else if leb b'A' c && leb c b'F'
    then some (c - b'A' + 10)
    else none

abbrev pub hex_digit : ℕ → ℕ
hex_digit d = if ltb d 10 then b'0' + d else b'a' + (d - 10)

-- `acc * 16 + d`, checked against the bound of the type.
abbrev pub push_digit : ℕ → ℕ → ℕ → Option ℕ
push_digit bound acc d = if ltb (acc * 16 + d) bound then some (acc * 16 + d) else none

-- Digits of a number below `bound`, behind the number `acc` read so far.
unfoldable pub scan_hex : ℕ → Bytes → ℕ → Option ℕ
scan_hex bound [] acc = some acc
scan_hex bound (c ∷ s) acc = do d ← to_digit c; acc' ← push_digit bound acc d; scan_hex bound s acc'

-- `uN::from_str_radix(s, 16)` with `bound` 2 ^ N. A leading `+` is accepted, if digits follow.
unfoldable pub from_str_radix16 : ℕ → Bytes → Option ℕ
unfolding scan_hex
from_str_radix16 bound [] = none
from_str_radix16 bound (c ∷ []) = scan_hex bound (c ∷ []) 0
from_str_radix16 bound (c ∷ d ∷ s) =
    if c == b'+' then scan_hex bound (d ∷ s) 0 else scan_hex bound (c ∷ d ∷ s) 0

-- `{:02x}` of a byte
abbrev pub hex2 : ℕ → Bytes
hex2 b = hex_digit (b / 16) ∷ hex_digit (b % 16) ∷ []

-- `n` digits, highest first: `{:016x}` of a `u64` is `hex_fixed 16`.
abbrev pub hex_fixed : ℕ → ℕ → Bytes
hex_fixed zero x = []
hex_fixed (suc n) x = hex_fixed n (x / 16) ++ hex_digit (x % 16) ∷ []

-- The number that digits below a radix of at most 16 spell.
abbrev pub digits_value : ℕ → Bytes → ℕ → Option ℕ
digits_value radix [] acc = some acc
digits_value radix (c ∷ s) acc = elim (to_digit c) [
  | none ↦ none
  | some d ↦ elim (ltb d radix) [ true ↦ digits_value radix s (acc * radix + d) | false ↦ none ]
]

-- `acc * 10 + d` of a decimal digit, checked against the bound of the type.
abbrev pub push_decimal : ℕ → ℕ → ℕ → Option ℕ
push_decimal bound acc c =
    if leb b'0' c && leb c b'9'
    then if ltb (acc * 10 + (c - b'0')) bound then some (acc * 10 + (c - b'0')) else none
    else none

unfoldable pub scan_decimal : ℕ → Bytes → ℕ → Option ℕ
scan_decimal bound [] acc = some acc
scan_decimal bound (c ∷ s) acc = do acc' ← push_decimal bound acc c; scan_decimal bound s acc'

-- `s.parse::<uN>()` with `bound` 2 ^ N. A leading `+` is accepted, if digits follow.
unfoldable pub from_str_radix10 : ℕ → Bytes → Option ℕ
unfolding scan_decimal
from_str_radix10 bound [] = none
from_str_radix10 bound (c ∷ []) = scan_decimal bound (c ∷ []) 0
from_str_radix10 bound (c ∷ d ∷ s) =
    if c == b'+' then scan_decimal bound (d ∷ s) 0 else scan_decimal bound (c ∷ d ∷ s) 0

-- `{}` of a number below 10 ^ n.
abbrev pub decimal : ℕ → ℕ → Bytes
decimal zero x = []
decimal (suc n) x = if ltb x 10 then (b'0' + x) ∷ [] else decimal n (x / 10) ++ (b'0' + x % 10) ∷ []
