-- ===== src/Pow/Stages.antt =====
-- The stages of src/pow/hasher.rs and src/pow/heavy_hash.rs give 256-bit integers.
use velkar_gpu.Base.{
  ℕ, zero, suc, ◌*◌, ◌/◌, ◌%◌, ◌^◌, ◌<◌, ◌≡◌, ◌∙◌, refl, ap, arith, List, [], ◌∷◌, length, All,
  take, get_or, bit_xor, length-set,
}
use velkar_gpu.Base.Bits.{bit_xor_lt, bit_or_lt}
use velkar_gpu.Word.{Bytes, IsByte, IsU64}
use velkar_gpu.Target.{Uint256, IsUint256, to_le_u64, from_le_u64, le_bytes, of_le_bytes}
use velkar_gpu.Target.Octets.{length-le_bytes, le_bytes-IsByte, of_le_bytes-IsUint256}
use velkar_gpu.Packages.{Keccak, Argon2}
use velkar_gpu.Pow.Hasher.{
  PowHasher, new, finalize_with_nonce, heavy_hasher, zip_xor, xor_front, xor_at, pow_initial_state,
  heavy_initial_state, memory_hard_hash,
}
use velkar_gpu.Pow.Matrix.{Matrix, IsMatrix, nibbles, dot, product_byte, product, heavy_hash}

-- A Keccak state: 25 words of 64 bits.
abbrev pub IsKeccakState : List ℕ → Type 0
IsKeccakState ws = (length ws ≡ 25) × All IsU64 ws

front_word : (i : ℕ) (ws : List ℕ) → All IsU64 ws → get_or (take 4 ws) i 0 < 2 ^ 64
front_word i ws h = go 4 i ws h
  where
    go : (n i : ℕ) (ws : List ℕ) → All IsU64 ws → get_or (take n ws) i 0 < 2 ^ 64
    go zero i ws h = omega arith
    go (suc n) i [] h = omega arith
    go (suc n) zero (w ∷ ws) h = h.0
    go (suc n) (suc i) (w ∷ ws) h = go n i ws h.1

squeezed-IsUint256 :
    (k : Keccak) (ws : List ℕ) → IsKeccakState ws → IsUint256 (from_le_u64 (take 4 (k.f1600 ws)))
squeezed-IsUint256 k ws h =
    let words = k.f1600-IsU64 ws h.0 h.1 in
    (
      front_word 0 (k.f1600 ws) words,
      front_word 1 (k.f1600 ws) words,
      front_word 2 (k.f1600 ws) words,
      front_word 3 (k.f1600 ws) words,
    )

length-xor_front : (ws state : List ℕ) → length (xor_front ws state) ≡ length state
length-xor_front [] state = refl
length-xor_front (w ∷ ws) [] = refl
length-xor_front (w ∷ ws) (s ∷ state) = ap suc (length-xor_front ws state)

xor_front-IsU64 :
    (ws state : List ℕ) → All IsU64 ws → All IsU64 state → All IsU64 (xor_front ws state)
xor_front-IsU64 [] state hw hs = hs
xor_front-IsU64 (w ∷ ws) [] hw hs = tt
xor_front-IsU64 (w ∷ ws) (s ∷ state) hw hs =
    (bit_xor_lt 64 s w hs.0 hw.0, xor_front-IsU64 ws state hw.1 hs.1)

xor_at-IsU64 : (state : List ℕ) (i x : ℕ) → All IsU64 state → IsU64 x → All IsU64 (xor_at state i x)
xor_at-IsU64 [] i x hs hx = tt
xor_at-IsU64 (s ∷ state) zero x hs hx = (bit_xor_lt 64 s x hs.0 hx, hs.1)
xor_at-IsU64 (s ∷ state) (suc i) x hs hx = (hs.0, xor_at-IsU64 state i x hs.1 hx)

xor_at-IsKeccakState :
    (state : List ℕ) (i x : ℕ) → IsKeccakState state → IsU64 x → IsKeccakState (xor_at state i x)
xor_at-IsKeccakState state i x h hx =
    (length-set state i (bit_xor (get_or state i 0) x) ∙ h.0, xor_at-IsU64 state i x h.1 hx)

pow_initial_state-IsKeccakState : IsKeccakState pow_initial_state
unfolding pow_initial_state
pow_initial_state-IsKeccakState = (refl, omega arith)

heavy_initial_state-IsKeccakState : IsKeccakState heavy_initial_state
unfolding heavy_initial_state
heavy_initial_state-IsKeccakState = (refl, omega arith)

words-IsU64 : (u : Uint256) → IsUint256 u → All IsU64 (to_le_u64 u)
words-IsU64 u h = (h.0, (h.1, (h.2, (h.3, tt))))

pub new-IsKeccakState :
    (hash : Uint256) (timestamp : ℕ)
    → IsUint256 hash
    → IsU64 timestamp
    → IsKeccakState (new hash timestamp).words
unfolding new
new-IsKeccakState hash timestamp hh ht =
    let s = pow_initial_state-IsKeccakState in
    xor_at-IsKeccakState (xor_front (to_le_u64 hash) pow_initial_state) 4 timestamp
      (
        length-xor_front (to_le_u64 hash) pow_initial_state ∙ s.0,
        xor_front-IsU64 (to_le_u64 hash) pow_initial_state (words-IsU64 hash hh) s.1,
      )
      ht

pub finalize_with_nonce-IsUint256 :
    (k : Keccak) (h : PowHasher) (nonce : ℕ)
    → IsKeccakState h.words
    → IsU64 nonce
    → IsUint256 (finalize_with_nonce k h nonce)
unfolding finalize_with_nonce
finalize_with_nonce-IsUint256 k h nonce hs hn =
    squeezed-IsUint256 k (xor_at h.words 9 nonce) (xor_at-IsKeccakState h.words 9 nonce hs hn)

pub heavy_hasher-IsUint256 : (k : Keccak) (u : Uint256) → IsUint256 u → IsUint256 (heavy_hasher k u)
unfolding heavy_hasher
heavy_hasher-IsUint256 k u h =
    let s = heavy_initial_state-IsKeccakState in
    squeezed-IsUint256 k (xor_front (to_le_u64 u) heavy_initial_state) (
      length-xor_front (to_le_u64 u) heavy_initial_state ∙ s.0,
      xor_front-IsU64 (to_le_u64 u) heavy_initial_state (words-IsU64 u h) s.1,
    )

zip_xor-IsByte : (xs ys : Bytes) → All IsByte xs → All IsByte ys → All IsByte (zip_xor xs ys)
zip_xor-IsByte [] ys hx hy = tt
zip_xor-IsByte (x ∷ xs) [] hx hy = tt
zip_xor-IsByte (x ∷ xs) (y ∷ ys) hx hy =
    (bit_xor_lt 8 x y hx.0 hy.0, zip_xor-IsByte xs ys hx.1 hy.1)

length-zip_xor : (xs ys : Bytes) → length xs ≡ length ys → length (zip_xor xs ys) ≡ length ys
length-zip_xor [] [] e = refl
length-zip_xor [] (y ∷ ys) e = absurd (omega arith)
length-zip_xor (x ∷ xs) [] e = refl
length-zip_xor (x ∷ xs) (y ∷ ys) e = ap suc (length-zip_xor xs ys (omega arith))

product-IsByte : (rows : List (List ℕ)) (vec : Bytes) → All IsByte (product rows vec)
unfolding product product_byte
product-IsByte [] vec = tt
product-IsByte (a ∷ []) vec = tt
product-IsByte (a ∷ b ∷ rows) vec = (
  bit_or_lt 8 (dot a vec 0 / 2 ^ 10 * 2 ^ 4 % 2 ^ 16 % 2 ^ 8) (dot b vec 0 / 2 ^ 10 % 2 ^ 8)
      (omega arith) (omega arith),
  product-IsByte rows vec,
)

length-product : (rows : List (List ℕ)) (vec : Bytes) → length (product rows vec) ≡ length rows / 2
unfolding product
length-product [] vec = refl
length-product (a ∷ []) vec = refl
length-product (a ∷ b ∷ rows) vec = omega (arith, length-product rows vec)

pub heavy_hash-IsUint256 :
    (k : Keccak) (m : Matrix) (u : Uint256) → IsMatrix m → IsUint256 (heavy_hash k m u)
unfolding heavy_hash
heavy_hash-IsUint256 k m u h = heavy_hasher-IsUint256 k (of_le_bytes (zip_xor bytes (le_bytes u))) (
    of_le_bytes-IsUint256 (zip_xor bytes (le_bytes u))
      (length-zip_xor bytes (le_bytes u) sizes ∙ length-le_bytes u)
      (zip_xor-IsByte bytes (le_bytes u) (product-IsByte m.rows (nibbles (le_bytes u)))
        (le_bytes-IsByte u)))
  where
    bytes : Bytes
    bytes = product m.rows (nibbles (le_bytes u))

    sizes : length bytes ≡ length (le_bytes u)
    sizes = omega (arith, length-product m.rows (nibbles (le_bytes u)), h.0, length-le_bytes u)

pub memory_hard_hash-IsUint256 :
    (a : Argon2) (stage3 stage1 : Uint256) (nonce : ℕ) (target : Uint256)
    → IsUint256 (memory_hard_hash a stage3 stage1 nonce target)
unfolding memory_hard_hash
memory_hard_hash-IsUint256 a stage3 stage1 nonce target =
    of_le_bytes-IsUint256 _ (a.length-hash_password _ _ _ _ _ _)
      (a.hash_password-IsByte _ _ _ _ _ _)
