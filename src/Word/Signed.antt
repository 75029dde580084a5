-- ===== src/Word/Signed.antt =====
-- `i64`, and its casts to `u64`.
use velkar_gpu.Base.{ℕ, suc, ◌-◌, ◌%◌, ◌^◌, ◌<◌, arith}

-- `pos n` is n and `negsuc n` is -(n + 1).
pub data ℤ : Type 0 where
  pos : ℕ → ℤ
  negsuc : ℕ → ℤ

-- `x as u64`, and the bits of `x`.
abbrev pub cast_u64 : ℤ → ℕ
cast_u64 (pos n) = n % 2 ^ 64
cast_u64 (negsuc n) = 2 ^ 64 - suc (n % 2 ^ 64)

pub cast_u64-lt : (x : ℤ) → cast_u64 x < 2 ^ 64
cast_u64-lt (pos n) = omega arith
cast_u64-lt (negsuc n) = omega arith
