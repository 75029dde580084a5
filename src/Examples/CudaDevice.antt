-- ===== src/Examples/CudaDevice.antt =====
-- CUDA devices, one that computes as the CPU does and one that does not, and the theorems on the
-- searcher at them.
use mathlib.Core.List
use mathlib.Core.List.{reverse}
use velkar_gpu.Base.{
  ℕ, suc, ◌≡◌, refl, sym, ap, ◌∙◌, true, false, [], ◌∷◌, length, ok, ok-injective,
}
use velkar_gpu.Word.{Bytes, rotate_right, rotate_left}
use velkar_gpu.Target.{le_bytes, of_le_bytes, le, cmp}
use velkar_gpu.Pow.Hasher
use velkar_gpu.Pow.Hasher.{
  pow_initial_state, heavy_initial_state, argon_password, argon_salt, finalize_with_nonce,
  heavy_hasher, memory_hard_hash,
}
use velkar_gpu.Pow.Xoshiro.{next_u64}
use velkar_gpu.Pow.Matrix.{
  fill_row, nibbles, dot, heavy_hash, product, product_byte, rand_matrix_no_rank_check, fill_rows,
}
use velkar_gpu.Pow.State.{
  stage1_for_nonce, stage2_for_stage1, stage3_for_stage2, cpu_stage4_from_parts, final_hash,
  mix_words, calculate_pow, calculate_pow_from_gpu_stage4,
}
use velkar_gpu.Gpu.{candidate, helper_block, exact_divisor}
use velkar_gpu.Gpu.Candidates.{cpu_candidate, stages_agree, push_hit}
use velkar_gpu.Gpu.Expected.{expected_hits}
use velkar_gpu.Gpu.Cuda.{
  Cust, CudaSearcher, CudaBuffer, job_inputs, stage4, memory, constants, nonces, refs,
  shuffle_scratch, launch_all, run_batch, copy_back, validate_first, filter_candidates, search,
}
use velkar_gpu.Gpu.Cuda.Checked.{search-checked}
use velkar_gpu.Examples.Stub.{packages, some_job_state}
use velkar_gpu.Examples.Device.{fit, length-fit, seen, mirrored, any_target, mirror_hits}

module _ (inputs stages : Bytes) where
  abbrev pub copied : CudaBuffer → ℕ → Bytes
  copied job_inputs n = fit n inputs
  copied stage4 n = fit n stages
  copied memory n = fit n []
  copied constants n = fit n []
  copied nonces n = fit n []
  copied refs n = fit n []
  copied shuffle_scratch n = fit n []

  pub length-copied : (b : CudaBuffer) (n : ℕ) → length (copied b n) ≡ n
  length-copied job_inputs n = length-fit n inputs
  length-copied stage4 n = length-fit n stages
  length-copied memory n = length-fit n []
  length-copied constants n = length-fit n []
  length-copied nonces n = length-fit n []
  length-copied refs n = length-fit n []
  length-copied shuffle_scratch n = length-fit n []

  -- A device that counts its launches and holds nonce 5 with the stages given.
  abbrev pub fixed_device : Cust
  fixed_device = record {
    Device = ℕ;
    get_function = λ k d. ok tt;
    copy_from = λ b bytes d. ok d;
    launch = λ k grid block args d. ok (suc d);
    synchronize = λ d. ok d;
    copy_to = λ b n d. ok (copied b n);
    copy_words_to = λ b n d. ok (fit n (5 ∷ []));
    length-copy_to = λ b n d bytes e. ap length (ok-injective (sym e)) ∙ length-copied b n;
    length-copy_words_to = λ b n d ws e. ap length (ok-injective (sym e)) ∙ length-fit n (5 ∷ []);
  }

abbrev fresh_searcher : CudaSearcher ℕ
fresh_searcher = record { device = 0; batch_size = 1; validation_done = false }

abbrev pub true_device : Cust
true_device = fixed_device mirrored (le_bytes seen.stage4)

abbrev checked_searcher : CudaSearcher ℕ
checked_searcher = record { device = 4; batch_size = 1; validation_done = true }

searched_first :
    search true_device packages some_job_state 5 any_target fresh_searcher
    ≡ ok (record { searcher = checked_searcher; hits = mirror_hits })
unfolding search run_batch launch_all helper_block exact_divisor copy_back validate_first
    filter_candidates push_hit seen candidate calculate_pow calculate_pow_from_gpu_stage4 le_bytes
    of_le_bytes stages_agree stage1_for_nonce stage2_for_stage1 stage3_for_stage2
    cpu_stage4_from_parts finalize_with_nonce heavy_hash heavy_hasher product product_byte
    memory_hard_hash final_hash mix_words rotate_right rand_matrix_no_rank_check fill_rows fill_row
    next_u64 nibbles dot argon_password argon_salt pow_initial_state heavy_initial_state Hasher.new
    cmp le rotate_left List.flat_map reverse
searched_first = refl

search-checked_example :
    (candidate (fit 192 mirrored) (fit 32 (le_bytes seen.stage4)) 0 5
      ≡ cpu_candidate packages some_job_state 5)
    × (mirror_hits ≡ expected_hits packages some_job_state any_target (5 ∷ []))
unfolding copy_back
search-checked_example =
    search-checked true_device packages some_job_state 5 any_target fresh_searcher
      (record { searcher = checked_searcher; hits = mirror_hits }) (fit 192 mirrored)
      (fit 32 (le_bytes seen.stage4)) 5 [] searched_first refl refl tt
