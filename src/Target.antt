-- ===== src/Target.antt =====
-- src/target.rs: the 256-bit integer `Uint256`, its order, shift, bytes and hexadecimal forms, and
-- the compact and stratum encodings of a target.
pub mod Value
pub mod Shift
pub mod Compact
pub mod Octets
pub mod Difficulty
use Prim.Native.Nat.{compare, Ordering}
use mathlib.Core.List.{reverse, flat_map}
use velkar_gpu.Base.{
  ℕ, zero, suc, ◌+◌, ◌-◌, ◌*◌, ◌/◌, ◌%◌, ◌^◌, ◌<◌, List, [], ◌∷◌, ◌++◌, ◌&&◌, Bool, true, false,
  bit_and, take, drop, get_or, set, ltb, leb, ◌==◌, if◌then◌else◌,
}
use velkar_gpu.Word.{Bytes, IsU64, u32, u64, ◌<<<◌, ◌>>>◌, to_le_bytes, from_le_bytes}
use velkar_gpu.Text.{hex2}

-- `Uint256(pub [u64; 4])`, the lowest word first.
pub record Uint256 : Type 0 where
  pub w0 : ℕ
  pub w1 : ℕ
  pub w2 : ℕ
  pub w3 : ℕ

abbrev pub IsUint256 : Uint256 → Type 0
IsUint256 u = IsU64 u.w0 × IsU64 u.w1 × IsU64 u.w2 × IsU64 u.w3

-- `to_le_u64`
abbrev pub to_le_u64 : Uint256 → List ℕ
to_le_u64 u = u.w0 ∷ u.w1 ∷ u.w2 ∷ u.w3 ∷ []

-- `from_le_u64`, and `new`
abbrev pub from_le_u64 : List ℕ → Uint256
from_le_u64 a = record {
  w0 = get_or a 0 0;
  w1 = get_or a 1 0;
  w2 = get_or a 2 0;
  w3 = get_or a 3 0;
}

abbrev pub from_u64 : ℕ → Uint256
from_u64 init = record { w0 = init; w1 = 0; w2 = 0; w3 = 0 }

-- `Default::default()`
abbrev pub zero_target : Uint256
zero_target = from_u64 0

-- `Uint256::from_le_bytes`, over 32 bytes in chunks of eight.
unfoldable pub of_le_bytes : Bytes → Uint256
of_le_bytes bytes = record {
  w0 = from_le_bytes (take 8 bytes);
  w1 = from_le_bytes (take 8 (drop 8 bytes));
  w2 = from_le_bytes (take 8 (drop 16 bytes));
  w3 = from_le_bytes (take 8 (drop 24 bytes));
}

-- `Uint256::to_le_bytes`
unfoldable pub le_bytes : Uint256 → Bytes
le_bytes u =
    to_le_bytes 8 u.w0 ++ (to_le_bytes 8 u.w1 ++ (to_le_bytes 8 u.w2 ++ to_le_bytes 8 u.w3))

unfoldable pub to_be_hex : Uint256 → Bytes
unfolding le_bytes
to_be_hex u = flat_map hex2 (reverse (le_bytes u))

-- `fmt::LowerHex`, as in `{:x}`
unfoldable pub lower_hex : Uint256 → Bytes
unfolding le_bytes
lower_hex u = flat_map hex2 (le_bytes u)

-- `Iterator::cmp` of two word sequences.
lexicographic : List ℕ → List ℕ → Ordering
lexicographic [] [] = Ordering.eq
lexicographic [] (b ∷ bs) = Ordering.lt
lexicographic (a ∷ as') [] = Ordering.gt
lexicographic (a ∷ as') (b ∷ bs) = elim (compare a b) [
  | Ordering.lt ↦ Ordering.lt
  | Ordering.eq ↦ lexicographic as' bs
  | Ordering.gt ↦ Ordering.gt
]

-- `Ord::cmp`
unfoldable pub cmp : Uint256 → Uint256 → Ordering
unfolding lexicographic
cmp u v = lexicographic (reverse (to_le_u64 u)) (reverse (to_le_u64 v))

-- `<=`, which `PartialOrd` takes from `cmp`.
unfoldable pub le : Uint256 → Uint256 → Bool
unfolding cmp
le u v = elim (cmp u v) [ Ordering.gt ↦ false | _ ↦ true ]

-- `==` on `Uint256`, word by word.
abbrev pub uint256_eq : Uint256 → Uint256 → Bool
uint256_eq u v = u.w0 == v.w0 && u.w1 == v.w1 && u.w2 == v.w2 && u.w3 == v.w3

-- `ret[j] += v`
abbrev add_at : List ℕ → ℕ → ℕ → List ℕ
add_at ret j v = set ret j (u64 (get_or ret j 0 + v))

-- One round of the loop of `Shl::shl`: the shifted word, then its carry.
abbrev shl_round : List ℕ → ℕ → ℕ → ℕ → List ℕ → List ℕ
shl_round original word_shift bit_shift i ret =
    let word = get_or original i 0 in
    let shifted =
      if ltb bit_shift 64 && ltb (i + word_shift) 4
      then add_at ret (i + word_shift) (word <<< bit_shift)
      else ret in
    if ltb 0 bit_shift && ltb (i + word_shift + 1) 4
    then add_at shifted (i + word_shift + 1) (word >>> (64 - bit_shift))
    else shifted

shl_words : List ℕ → ℕ → ℕ → List ℕ
shl_words original word_shift bit_shift =
    let round = shl_round original word_shift bit_shift in
    round 3 (round 2 (round 1 (round 0 (0 ∷ 0 ∷ 0 ∷ 0 ∷ []))))

unfoldable pub shl : Uint256 → ℕ → Uint256
unfolding shl_words
shl u shift = from_le_u64 (shl_words (to_le_u64 u) (shift / 64) (shift % 64))

-- The mantissa and the exponent of a compact target.
pub record CompactParts : Type 0 where
  pub mant : ℕ
  pub expt : ℕ

unfoldable pub unpack_compact : ℕ → CompactParts
unpack_compact bits =
    let unshifted_expt = bits / 2 ^ 24 in
    if leb unshifted_expt 3
    then record { mant = bit_and bits 0xffffff / 2 ^ (8 * (3 - unshifted_expt)); expt = 0 }
    else record { mant = bit_and bits 0xffffff; expt = u32 (8 * (bits / 2 ^ 24 - 3)) }

unfoldable pub u256_from_compact_target : ℕ → Uint256
u256_from_compact_target bits =
    let c = unpack_compact bits in
    if ltb 0x7fffff c.mant then zero_target else shl (from_u64 c.mant) c.expt
