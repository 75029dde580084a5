-- ===== src/Pow/Header/Hex.antt =====
-- `decode_to_slice` reads what `{:02x}` prints, and nothing else but capital digits.
use mathlib.Core.List.{flat_map}
use velkar_gpu.Base.{
  ℕ, suc, ◌+◌, ◌*◌, ◌/◌, ◌%◌, ◌^◌, ◌<◌, ◌≡◌, ◌∙◌, refl, ap, ap₂, arith, true, false, ◌&&◌, [], ◌∷◌,
  length, All, bit_or, map, leb, ◌==◌, if◌then◌else◌, Bool-cases, inl, inr, ==_iff, sym, subst,
}
use velkar_gpu.Base.Bits.{bit_or_high_low}
use velkar_gpu.Word.{Bytes, IsByte, u8}
use velkar_gpu.Text.{hex2, hex_digit}
use velkar_gpu.Pow.Header.{
  Decoded, decoded, failed, val, join_digits, decode_digits, decode_to_slice,
}

-- Capital hexadecimal digits in small.
abbrev pub to_lower : ℕ → ℕ
to_lower c = if leb b'A' c && leb c b'F' then c + 32 else c

val-hex_digit : (d i : ℕ) → d < 16 → val (hex_digit d) i ≡ decoded d
val-hex_digit d i h = ground arith

val_sound : (c i d : ℕ) → val c i ≡ decoded d → (d < 16) × (to_lower c ≡ hex_digit d)
val_sound c i d h = ground arith

joined_byte : (h l : ℕ) → h < 16 → l < 16 → bit_or (u8 (h * 2 ^ 4)) l ≡ h * 16 + l
joined_byte h l hh hl = ap (λ (t : ℕ). bit_or t l) (omega arith) ∙ bit_or_high_low 4 h l hl

decode_digits-hex :
    (i : ℕ) (bs : Bytes) → All IsByte bs → decode_digits i (flat_map hex2 bs) ≡ decoded bs
unfolding decode_digits flat_map
decode_digits-hex i [] h = refl
decode_digits-hex i (b ∷ bs) h =
    let read : decode_digits i (flat_map hex2 (b ∷ bs))
        ≡ decoded (bit_or (u8 (b / 16 * 2 ^ 4)) (b % 16) ∷ bs) =
      rw (
        val-hex_digit (b / 16) i (omega (arith, h.0)),
        val-hex_digit (b % 16) (i + 1) (omega arith),
        decode_digits-hex (i + 2) bs h.1,
      ) in
    read
    ∙ ap (λ (t : ℕ). decoded (t ∷ bs))
        (omega (arith, joined_byte (b / 16) (b % 16) (omega (arith, h.0)) (omega arith)))

length-hex : (bs : Bytes) → length (flat_map hex2 bs) ≡ 2 * length bs
unfolding flat_map
length-hex [] = refl
length-hex (b ∷ bs) = omega (arith, length-hex bs)

le_even : (n : ℕ) → (2 * n % 2 == 1) ≡ false
le_even n = ground arith

half : (n : ℕ) → (2 * n / 2 == n) ≡ true
half n = ground arith

-- A buffer of bytes is read back from its hexadecimal form.
pub decode_to_slice-hex :
    (bs : Bytes) → All IsByte bs → decode_to_slice (flat_map hex2 bs) (length bs) ≡ decoded bs
unfolding decode_to_slice
decode_to_slice-hex bs h =
    rw (length-hex bs, le_even (length bs), half (length bs), decode_digits-hex 0 bs h)

length-map : (s : Bytes) → length (map to_lower s) ≡ length s
length-map [] = refl
length-map (c ∷ s) = ap suc (length-map s)

-- What a successful step read.
join_digits-eq :
    (x y : Decoded ℕ) (r : Decoded Bytes) {bs : Bytes}
    → join_digits x y r ≡ decoded bs
    → (h : ℕ) × (l : ℕ) × (rest : Bytes) × (x ≡ decoded h)
      × (y ≡ decoded l)
      × (r ≡ decoded rest)
      × (bit_or (u8 (h * 2 ^ 4)) l ∷ rest ≡ bs)
join_digits-eq (failed e) y r h = cc
join_digits-eq (decoded x) (failed e) r h = cc
join_digits-eq (decoded x) (decoded y) (failed e) h = cc
join_digits-eq (decoded x) (decoded y) (decoded r) h = (x, y, r, refl, refl, refl, cc)

decode_digits_sound :
    (i : ℕ) (s : Bytes) (bs : Bytes)
    → length s % 2 ≡ 0
    → decode_digits i s ≡ decoded bs
    → (map to_lower s ≡ flat_map hex2 bs) × All IsByte bs
unfolding decode_digits flat_map
decode_digits_sound i [] [] even h = (refl, tt)
decode_digits_sound i [] (b ∷ bs) even h = cc
decode_digits_sound i (a ∷ []) bs even h = absurd (omega arith)
decode_digits_sound i (a ∷ b ∷ s) bs even h =
    let j = join_digits-eq (val a i) (val b (i + 1)) (decode_digits (i + 2) s) h in
    let high = val_sound a i j.0 j.3 in
    let low = val_sound b (i + 1) j.1 j.4 in
    let rest = decode_digits_sound (i + 2) s j.2 (omega arith) j.5 in
    let byte = joined_byte j.0 j.1 high.0 low.0 in
    subst (λ t. (map to_lower (a ∷ b ∷ s) ≡ flat_map hex2 t) × All IsByte t) j.6
      (
        ap₂ ◌∷◌ (high.1 ∙ ap hex_digit (omega (arith, high.0, low.0, byte)))
            (ap₂ ◌∷◌ (low.1 ∙ ap hex_digit (omega (arith, high.0, low.0, byte))) rest.0),
        (omega (arith, high.0, low.0, byte), rest.1),
      )

-- Whatever the decoding accepts into a buffer of `n` bytes has 2n digits, and they are the
-- hexadecimal form of the bytes written, in capital or small letters.
pub decode_to_slice_sound :
    (s : Bytes) (n : ℕ) (bs : Bytes)
    → decode_to_slice s n ≡ decoded bs
    → (map to_lower s ≡ flat_map hex2 bs) × (length bs ≡ n) × All IsByte bs
unfolding decode_to_slice
decode_to_slice_sound s n bs h = elim (Bool-cases (length s % 2 == 1)) [
  | inl odd ↦ absurd (cc (rw odd at h))
  | inr even ↦ elim (Bool-cases (length s / 2 == n)) [
    | inr other ↦ absurd (cc (rw (even, other) at h))
    | inl fits ↦
        let read = decode_digits_sound 0 s bs (ground arith) (rw (even, fits) at h) in
        (read.0, sizes read.0 (ground arith) fits, read.1)
  ]
]
  where
    sizes :
        map to_lower s ≡ flat_map hex2 bs
        → length s % 2 ≡ 0
        → (length s / 2 == n) ≡ true
        → length bs ≡ n
    sizes e even fits =
        omega (
          arith,
          sym (length-map s) ∙ ap length e ∙ length-hex bs,
          (==_iff (length s / 2) n).0 fits,
        )
