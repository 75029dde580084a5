-- ===== src/Pow/Xoshiro.antt =====
-- src/pow/xoshiro.rs: the generator of the matrix.
use velkar_gpu.Base.{ℕ, ◌+◌, ◌≡◌, refl, arith, bit_xor}
use velkar_gpu.Base.Bits.{bit_xor_lt}
use velkar_gpu.Word.{u64, IsU64, ◌<<<◌, rotate_left, rotate_left-lt}
use velkar_gpu.Target.{Uint256}

pub record XoShiRo256PlusPlus : Type 0 where
  pub s0 : ℕ
  pub s1 : ℕ
  pub s2 : ℕ
  pub s3 : ℕ

-- `XoShiRo256PlusPlus::new`
abbrev pub seed : Uint256 → XoShiRo256PlusPlus
seed h = record { s0 = h.w0; s1 = h.w1; s2 = h.w2; s3 = h.w3 }

pub record Draw : Type 0 where
  pub res : ℕ
  pub generator : XoShiRo256PlusPlus

-- `XoShiRo256PlusPlus::u64`, an assignment a line.
unfoldable pub next_u64 : XoShiRo256PlusPlus → Draw
next_u64 g =
    let res = u64 (g.s0 + rotate_left (u64 (g.s0 + g.s3)) 23) in
    let t = g.s1 <<< 17 in
    let s2 = bit_xor g.s2 g.s0 in
    let s3 = bit_xor g.s3 g.s1 in
    let s1 = bit_xor g.s1 s2 in
    let s0 = bit_xor g.s0 s3 in
    let s2' = bit_xor s2 t in
    let s3' = rotate_left s3 45 in
    record { res = res; generator = record { s0 = s0; s1 = s1; s2 = s2'; s3 = s3' } }

abbrev pub IsGenerator : XoShiRo256PlusPlus → Type 0
IsGenerator g = IsU64 g.s0 × IsU64 g.s1 × IsU64 g.s2 × IsU64 g.s3

-- A draw keeps the generator's words, and its result, within 64 bits.
pub next_u64-IsU64 :
    (g : XoShiRo256PlusPlus)
    → IsGenerator g
    → IsU64 (next_u64 g).res × IsGenerator (next_u64 g).generator
unfolding next_u64
next_u64-IsU64 g (h0, h1, h2, h3) =
    let s2 = bit_xor_lt 64 g.s2 g.s0 h2 h0 in
    let s3 = bit_xor_lt 64 g.s3 g.s1 h3 h1 in
    (
      omega arith,
      (
        bit_xor_lt 64 g.s0 _ h0 s3,
        bit_xor_lt 64 g.s1 _ h1 s2,
        bit_xor_lt 64 _ (g.s1 <<< 17) s2 (omega arith),
        rotate_left-lt _ 45 s3 (omega arith),
      ),
    )

-- The zero state draws zero and stays, so a zero seed gives zeros for ever.
pub next_u64_zero :
    next_u64 (record { s0 = 0; s1 = 0; s2 = 0; s3 = 0 })
    ≡ record { res = 0; generator = record { s0 = 0; s1 = 0; s2 = 0; s3 = 0 } }
unfolding next_u64 rotate_left
next_u64_zero = refl
