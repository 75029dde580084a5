-- ===== src/Examples/Targets.antt =====
-- The theorems on targets at concrete inputs.
use velkar_gpu.Base.{◌*◌, ◌%◌, ◌^◌, ◌≤◌, ◌≡◌, ◌↔◌, arith, true}
use velkar_gpu.Target.{le, shl, le_bytes, of_le_bytes, u256_from_compact_target}
use velkar_gpu.Target.Value.{value, le-value}
use velkar_gpu.Target.Shift.{shl-value}
use velkar_gpu.Target.Compact.{u256_from_compact_target-value, compact_target, exponent, mantissa}
use velkar_gpu.Target.Octets.{of_le_bytes-le_bytes}
use velkar_gpu.Examples.Stub.{some_hash, some_target, some_hash-IsUint256, some_target-IsUint256}

le-value_example : (le some_hash some_target ≡ true) ↔ (value some_hash ≤ value some_target)
le-value_example = le-value some_hash some_target some_hash-IsUint256 some_target-IsUint256

shl-value_example : value (shl some_hash 100) ≡ value some_hash * 2 ^ 100 % 2 ^ 256
shl-value_example = shl-value some_hash 100 some_hash-IsUint256

compact_example :
    value (u256_from_compact_target 0x1e7fffff)
    ≡ compact_target (exponent 0x1e7fffff) (mantissa 0x1e7fffff)
compact_example = u256_from_compact_target-value 0x1e7fffff (omega arith)

bytes_example : of_le_bytes (le_bytes some_hash) ≡ some_hash
bytes_example = of_le_bytes-le_bytes some_hash some_hash-IsUint256
