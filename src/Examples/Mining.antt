-- ===== src/Examples/Mining.antt =====
-- The theorems on the proof of work at concrete inputs.
use velkar_gpu.Base.{
  ℕ, ◌^◌, ◌≤◌, ◌<◌, ◌≡◌, ◌↔◌, refl, arith, [], ◌∷◌, none, some, length, leb, map, if◌then◌else◌,
  All, ok,
}
use mathlib.Core.List.{flat_map}
use velkar_gpu.Word.{IsByte}
use velkar_gpu.Text.{codes, hex2}
use velkar_gpu.Target.{zero_target, le_bytes, of_le_bytes}
use velkar_gpu.Target.Value.{value}
use velkar_gpu.Pow.Hasher.{heavy_hasher, zip_xor}
use velkar_gpu.Pow.Matrix.{nibbles, heavy_hash}
use velkar_gpu.Pow.Matrix.Product.{heavy_hash-exact, exact_product}
use velkar_gpu.Pow.Generate.{generate, generate-first, generate_zero}
use velkar_gpu.Pow.Header.{decode_to_slice, decoded}
use velkar_gpu.Pow.Header.Hex.{decode_to_slice-hex, decode_to_slice_sound, to_lower}
use velkar_gpu.Pow.State.{
  block_match, share_match, no_match, calculate_pow, calculate_pow_from_parts,
  calculate_pow_from_gpu_stage4, pow_match, generate_block_if_pow,
}
use velkar_gpu.Pow.State.Work.{calculate_pow_agrees, pow_match_lem, stage1, stage2, stage3, stage4}
use velkar_gpu.Pow.State.Job.{generate_block_if_pow_lem}
use velkar_gpu.Examples.Stub.{
  packages, far_float, near_float, still_keccak, some_hash, some_target, some_matrix, some_rank,
  some_header, some_block, some_job_state, some_job_state-IsState, some_block_state,
  some_block_state-IsState,
}

generate-first_example : generate far_float 5 some_hash ≡ some some_matrix
generate-first_example =
    generate-first far_float 0 5 some_hash (omega arith) some_rank (λ k h. absurd (omega arith))

generate_zero_example : generate near_float 3 zero_target ≡ none
generate_zero_example = generate_zero near_float 3 refl

heavy_hash-exact_example :
    heavy_hash still_keccak some_matrix some_hash
    ≡ heavy_hasher still_keccak (
        of_le_bytes (
          zip_xor
            (exact_product some_matrix.rows (nibbles (le_bytes some_hash)))
            (le_bytes some_hash)))
heavy_hash-exact_example =
    heavy_hash-exact still_keccak some_matrix some_hash (some_job_state-IsState).1

decode_example : decode_to_slice (flat_map hex2 (1 ∷ 254 ∷ [])) 2 ≡ decoded (1 ∷ 254 ∷ [])
decode_example = decode_to_slice-hex (1 ∷ 254 ∷ []) (omega arith)

decode-sound_example :
    (map to_lower (codes "0AfE") ≡ flat_map hex2 (10 ∷ 254 ∷ []))
    × (length {A = ℕ} (10 ∷ 254 ∷ []) ≡ 2)
    × All IsByte (10 ∷ 254 ∷ [])
unfolding decode_to_slice
decode-sound_example = decode_to_slice_sound (codes "0AfE") 2 (10 ∷ 254 ∷ []) refl

calculate_pow_example :
    (calculate_pow_from_parts packages some_job_state
        (stage1 packages some_job_state 9)
        (stage2 packages some_job_state 9)
        (stage3 packages some_job_state 9)
        9
      ≡ calculate_pow packages (record some_job_state { nonce = 9 }))
    × (calculate_pow_from_gpu_stage4 packages some_job_state
          (stage1 packages some_job_state 9)
          (stage2 packages some_job_state 9)
          (stage3 packages some_job_state 9)
          (stage4 packages some_job_state 9)
          9
        ≡ calculate_pow packages (record some_job_state { nonce = 9 }))
calculate_pow_example = calculate_pow_agrees packages some_job_state 9

pow_match_example :
    (value (calculate_pow packages some_job_state) < 2 ^ 256)
    × ((pow_match packages some_job_state ≡ block_match)
        ↔ (value (calculate_pow packages some_job_state) ≤ value some_target))
    × ((pow_match packages some_job_state ≡ share_match) ↔ (
        (value some_target < value (calculate_pow packages some_job_state))
        × (value (calculate_pow packages some_job_state) ≤ value some_target)))
    × ((pow_match packages some_job_state ≡ no_match) ↔ (
        (value some_target < value (calculate_pow packages some_job_state))
        × (value some_target < value (calculate_pow packages some_job_state))))
pow_match_example = pow_match_lem packages some_job_state some_job_state-IsState (omega arith)

generate_block_example :
    generate_block_if_pow packages some_block_state
    ≡ ok (
        if leb
          (value (calculate_pow packages some_block_state))
          (value some_block_state.block_target)
        then some (record some_block { header = some (record some_header { nonce = 0 }) })
        else none)
generate_block_example =
    generate_block_if_pow_lem packages some_block_state some_block some_header
      some_block_state-IsState (omega arith) refl refl
