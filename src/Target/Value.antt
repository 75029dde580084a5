-- ===== src/Target/Value.antt =====
-- The number that a `Uint256` stands for, and its order.
use velkar_gpu.Base.{ℕ, ◌+◌, ◌*◌, ◌^◌, ◌≤◌, ◌<◌, ◌≡◌, ◌↔◌, true, arith}
use velkar_gpu.Target.{Uint256, IsUint256, cmp, le}

abbrev pub value : Uint256 → ℕ
value u = u.w0 + 2 ^ 64 * u.w1 + 2 ^ 128 * u.w2 + 2 ^ 192 * u.w3

pub value-lt : {u : Uint256} → IsUint256 u → value u < 2 ^ 256
value-lt h = omega arith

-- On well-formed integers, the order of the words from the highest down is the order of the
-- numbers.
pub le-value : (u v : Uint256) → IsUint256 u → IsUint256 v → (le u v ≡ true) ↔ (value u ≤ value v)
unfolding le cmp
le-value u v hu hv = ground arith

pub value-injective : (u v : Uint256) → IsUint256 u → IsUint256 v → value u ≡ value v → u ≡ v
value-injective u v hu hv h = ground arith
