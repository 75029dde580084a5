-- ===== src/Target/Octets.antt =====
-- The little-endian bytes of a `Uint256`.
use mathlib.Core.Path.{◌≡⟨◌⟩◌, ◌∎}
use native.Mathlib.Nat.{zero-add, suc-add}
use velkar_gpu.Base.{
  ℕ, zero, suc, ◌≤◌, ◌+◌, ◌^◌, ◌<◌, ◌≡◌, ◌∙◌, refl, subst, ap, arith, List, [], ◌∷◌, ◌++◌, All,
  All-take, All-drop, length, length-take, length-drop, take, drop, take_all, take-append-drop,
}
use velkar_gpu.Word.{
  Bytes, IsByte, to_le_bytes, from_le_bytes, from_le_bytes-to_le_bytes, to_le_bytes-from_le_bytes,
  from_le_bytes-lt,
}
use velkar_gpu.Target.{Uint256, IsUint256, of_le_bytes, le_bytes}

drop_none {ℓ} : {A : Type ℓ} (n : ℕ) → drop {A = A} n [] ≡ []
drop_none zero = refl
drop_none (suc n) = refl

drop-drop {ℓ} : {A : Type ℓ} (m n : ℕ) (xs : List A) → drop n (drop m xs) ≡ drop (m + n) xs
drop-drop zero n xs = rw zero-add
drop-drop (suc m) n [] = rw suc-add (drop_none n)
drop-drop (suc m) n (x ∷ xs) = rw suc-add (drop-drop m n xs)

pub length-le_bytes : (u : Uint256) → length (le_bytes u) ≡ 32
unfolding le_bytes
length-le_bytes u = refl

pub le_bytes-IsByte : (u : Uint256) → All IsByte (le_bytes u)
unfolding le_bytes
le_bytes-IsByte u = omega arith

-- Every well-formed integer is read back from its bytes.
pub of_le_bytes-le_bytes : (u : Uint256) → IsUint256 u → of_le_bytes (le_bytes u) ≡ u
unfolding of_le_bytes le_bytes
of_le_bytes-le_bytes u h = λ i. record {
  w0 = from_le_bytes-to_le_bytes 8 u.w0 (omega arith) i;
  w1 = from_le_bytes-to_le_bytes 8 u.w1 (omega arith) i;
  w2 = from_le_bytes-to_le_bytes 8 u.w2 (omega arith) i;
  w3 = from_le_bytes-to_le_bytes 8 u.w3 (omega arith) i;
}

module _ (bs : Bytes) (h : length bs ≡ 32) where
  -- Thirty-two bytes are four chunks of eight.
  chunks : take 8 bs ++ (take 8 (drop 8 bs) ++ (take 8 (drop 16 bs) ++ take 8 (drop 24 bs))) ≡ bs
  chunks =
      take 8 bs ++ (take 8 (drop 8 bs) ++ (take 8 (drop 16 bs) ++ take 8 (drop 24 bs)))
      ≡⟨ ap (λ t. take 8 bs ++ (take 8 (drop 8 bs) ++ (take 8 (drop 16 bs) ++ t))) last_chunk ⟩
        take 8 bs ++ (take 8 (drop 8 bs) ++ (take 8 (drop 16 bs) ++ drop 24 bs))
      ≡⟨ ap (λ t. take 8 bs ++ (take 8 (drop 8 bs) ++ t)) (join_at 16) ⟩
        take 8 bs ++ (take 8 (drop 8 bs) ++ drop 16 bs)
      ≡⟨ ap (λ t. take 8 bs ++ t) (join_at 8) ⟩ take 8 bs ++ drop 8 bs
      ≡⟨ take-append-drop 8 bs ⟩ bs ∎
    where
      last_chunk : take 8 (drop 24 bs) ≡ drop 24 bs
      last_chunk = take_all 8 (drop 24 bs) (omega (arith, length-drop 24 bs))

      join_at : (k : ℕ) → take 8 (drop k bs) ++ drop (k + 8) bs ≡ drop k bs
      join_at k = rw (← drop-drop k 8 bs) (take-append-drop 8 (drop k bs))

  chunk_bytes :
      (k : ℕ)
      → k + 8 ≤ 32
      → All IsByte bs
      → to_le_bytes 8 (from_le_bytes (take 8 (drop k bs))) ≡ take 8 (drop k bs)
  chunk_bytes k hk hb =
      to_le_bytes-from_le_bytes 8 (take 8 (drop k bs))
        (omega (arith, length-take 8 (drop k bs), length-drop k bs))
        (All-take IsByte 8 (drop k bs) (All-drop IsByte k bs hb))

  -- Thirty-two bytes are read into an integer that has just these bytes.
  pub le_bytes-of_le_bytes : All IsByte bs → le_bytes (of_le_bytes bs) ≡ bs
  unfolding of_le_bytes le_bytes
  le_bytes-of_le_bytes hb =
      (λ i.
        chunk_bytes 0 (omega arith) hb i
        ++ (chunk_bytes 8 (omega arith) hb i
            ++ (chunk_bytes 16 (omega arith) hb i ++ chunk_bytes 24 (omega arith) hb i)))
      ∙ chunks

  word_bound : (k : ℕ) → k + 8 ≤ 32 → All IsByte bs → from_le_bytes (take 8 (drop k bs)) < 2 ^ 64
  word_bound k hk hb =
      let e : length (take 8 (drop k bs)) ≡ 8 =
        omega (arith, length-take 8 (drop k bs), length-drop k bs) in
      subst (λ n. from_le_bytes (take 8 (drop k bs)) < 256 ^ n) e
        (from_le_bytes-lt (take 8 (drop k bs))
          (All-take IsByte 8 (drop k bs) (All-drop IsByte k bs hb)))

  pub of_le_bytes-IsUint256 : All IsByte bs → IsUint256 (of_le_bytes bs)
  unfolding of_le_bytes
  of_le_bytes-IsUint256 hb = (
    word_bound 0 (omega arith) hb,
    word_bound 8 (omega arith) hb,
    word_bound 16 (omega arith) hb,
    word_bound 24 (omega arith) hb,
  )
