-- ===== src/Gpu/FirstBlocks.antt =====
-- The host computation of the first Argon2 blocks in src/gpu.rs: `initial_hash_cpu`,
-- `digest_long_cpu`, `fill_first_blocks_cpu`, and `hex32`.
use mathlib.Core.List.{flat_map}
use mathlib.Core.Option
use velkar_gpu.Base.{
  ℕ, zero, suc, ◌-◌, [], ◌++◌, Option, none, some, length, take, ltb, leb, if◌then◌else◌,
}
use velkar_gpu.Base.Chain.{◌>>=◌}
use velkar_gpu.Word.{Bytes, u32, to_le_bytes}
use velkar_gpu.Text.{hex2}
use velkar_gpu.Packages.{Blake2b}
use velkar_gpu.Gpu.{argon_lanes, argon_memory_kib, argon_time_cost, argon2_block_bytes}

-- `x.to_le_bytes()` of a `u32`.
abbrev pub le32 : ℕ → Bytes
le32 n = to_le_bytes 4 (u32 n)

module _ (b : Blake2b) where
  -- `Params::new().hash_length(n).to_state().update(data).finalize()`
  abbrev pub hash : ℕ → Bytes → Bytes
  hash n message = b.finalize (b.update (b.to_state n []) message)

  -- The bytes hashed by `initial_hash_cpu`.
  abbrev pub initial_message : (password salt : Bytes) → Bytes
  initial_message password salt =
      le32 argon_lanes
      ++ (le32 32
          ++ (le32 argon_memory_kib
              ++ (le32 argon_time_cost
                  ++ (le32 0x13
                      ++ (le32 2
                          ++ (le32 (length password)
                              ++ (password
                                  ++ (le32 (length salt) ++ (salt ++ (le32 0 ++ le32 0))))))))))

  unfoldable pub initial_hash_cpu : (out_len : ℕ) → (password salt : Bytes) → Bytes
  initial_hash_cpu out_len password salt = hash out_len (initial_message password salt)

  -- The loop of `digest_long_cpu` with `remaining` bytes of `out` to fill, and its last digest.
  unfoldable pub digest_rest : (fuel remaining : ℕ) → Bytes → Option Bytes
  digest_rest zero remaining buffer = none
  digest_rest (suc fuel) remaining buffer =
      let next = hash 64 buffer in
      let rest = Option.map (λ t. take 32 next ++ t) (digest_rest fuel (remaining - 32) next) in
      if ltb 64 remaining then rest else some (hash remaining buffer)

  -- `out_len` rounds are more than the loop makes.
  unfoldable pub digest_long_cpu : (out_len : ℕ) → Bytes → Option Bytes
  digest_long_cpu out_len input =
      let message = le32 out_len ++ input in
      let buffer = hash 64 message in
      if leb out_len 64
      then some (hash out_len message)
      else Option.map (λ t. take 32 buffer ++ t) (digest_rest out_len (out_len - 32) buffer)

  -- The first two blocks of the memory of a job.
  unfoldable pub fill_first_blocks_cpu : (password salt : Bytes) → Option Bytes
  unfolding digest_long_cpu initial_hash_cpu
  fill_first_blocks_cpu password salt = do
    let init_hash = initial_hash_cpu 64 password salt
    first ← digest_long_cpu argon2_block_bytes (init_hash ++ (le32 0 ++ le32 0))
    second ← digest_long_cpu argon2_block_bytes (init_hash ++ (le32 1 ++ le32 0))
    some (first ++ second)

unfoldable pub hex32 : Bytes → Bytes
hex32 bytes = flat_map hex2 bytes
