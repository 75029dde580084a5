-- ===== src/Examples/PoolThread.antt =====
-- A round of a thread of the pool's miner with a GPU, at a concrete job.
use mathlib.Core.List
use mathlib.Core.List.{reverse}
use velkar_gpu.Base.{ℕ, ◌+◌, ◌≡◌, refl, true, false, List, [], ◌∷◌, none, some, ok}
use velkar_gpu.Text.{codes, hex_fixed}
use velkar_gpu.Word.{rotate_right, rotate_left}
use velkar_gpu.Target.{le_bytes, of_le_bytes, le, cmp}
use velkar_gpu.Pow.Hasher
use velkar_gpu.Pow.Hasher.{
  pow_initial_state, heavy_initial_state, argon_password, argon_salt, finalize_with_nonce,
  heavy_hasher, memory_hard_hash,
}
use velkar_gpu.Pow.Xoshiro.{next_u64}
use velkar_gpu.Pow.Matrix.{
  fill_row, nibbles, dot, heavy_hash, product, product_byte, rand_matrix_no_rank_check, fill_rows,
}
use velkar_gpu.Pow.State.{
  stage1_for_nonce, stage2_for_stage1, stage3_for_stage2, cpu_stage4_from_parts, final_hash,
  mix_words, calculate_pow, calculate_pow_from_gpu_stage4,
}
use velkar_gpu.Gpu.{candidate}
use velkar_gpu.Gpu.FirstBlocks.{fill_first_blocks_cpu, digest_rest, digest_long_cpu}
use velkar_gpu.Gpu.Candidates.{stages_agree, push_hit}
use velkar_gpu.Gpu.OpenCl.{
  Kernel, upload_constants, prepare_jobs, run_init_kernel, run_argon_kernel,
  validate_initial_blocks_once, diagnose_argon_memory, set_args,
}
use velkar_gpu.Gpu.OpenCl.Search as OpenClSearch
use velkar_gpu.Gpu.OpenCl.Search.{
  export_and_filter_candidates, filter_candidates, validate_first, validate_candidate,
}
use velkar_gpu.Gpu.Searcher.{GpuSearcher, with_opencl}
use velkar_gpu.Gpu.Searcher
use velkar_gpu.Stratum.{submit_share}
use velkar_gpu.Watch.{cell, has_changed, get_changed, update_cached, wait_for_change}
use velkar_gpu.Miner.{submit_hit, found_share, should_submit_share}
use velkar_gpu.Miner.Hits.{submit_hits, own_reading}
use velkar_gpu.Miner.Pool.{PoolThread, PoolFound, PoolRan, gpu_batch, pool_round}
use velkar_gpu.Miner.Pool.Rounds.{PoolRoundOf, pool_round-PoolRoundOf}
use velkar_gpu.Examples.Stub.{packages, some_job_state}
use velkar_gpu.Examples.Device.{seen, idle_searcher, used_searcher}
use velkar_gpu.Examples.Rounds.{both_devices, no_work}

-- A thread without a job, at nonce 5.
abbrev waiting : PoolThread (GpuSearcher (List Kernel) ℕ) ℕ
waiting = record {
  gpu = some (with_opencl idle_searcher);
  thread = record {
    nonce = 5;
    state = none;
    job_channel = no_work;
    hashes_tried = 0;
    returned = false;
  };
}

-- The job is there at the second look of the wait; the miner is shutting down.
abbrev job_comes : PoolFound ℕ
job_comes = record {
  looks = cell 0 none ∷ cell 3 (some some_job_state) ∷ [];
  seen = cell 3 (some some_job_state);
  last_submit = 0;
  reading = own_reading (λ i. 1000 + i) (λ i. true);
  shutdown = true;
}

abbrev submitted : PoolRan (GpuSearcher (List Kernel) ℕ) ℕ
submitted = record {
  miner = record {
    gpu = some (with_opencl used_searcher);
    thread = record {
      nonce = 6;
      state = some (record some_job_state { nonce = 5 });
      job_channel = record {
        inner = cell 3 (some some_job_state);
        cached = cell 3 (some some_job_state);
      };
      hashes_tried = 1;
      returned = false;
    };
  };
  last_submit = 1000;
  messages = submit_share (codes "job1") (hex_fixed 16 5) ∷ [];
}

ran : pool_round packages both_devices waiting job_comes ≡ ok submitted
unfolding pool_round gpu_batch submit_hits submit_hit found_share should_submit_share
    Searcher.search Searcher.batch_size OpenClSearch.search upload_constants prepare_jobs
    run_init_kernel run_argon_kernel validate_initial_blocks_once fill_first_blocks_cpu digest_rest
    digest_long_cpu export_and_filter_candidates filter_candidates validate_first validate_candidate
    push_hit diagnose_argon_memory set_args seen candidate calculate_pow
    calculate_pow_from_gpu_stage4 le_bytes of_le_bytes stages_agree stage1_for_nonce
    stage2_for_stage1 stage3_for_stage2 cpu_stage4_from_parts finalize_with_nonce heavy_hash
    heavy_hasher product product_byte memory_hard_hash final_hash mix_words rotate_right
    rand_matrix_no_rank_check fill_rows fill_row next_u64 nibbles dot argon_password argon_salt
    pow_initial_state heavy_initial_state Hasher.new cmp le has_changed get_changed update_cached
    rotate_left List.flat_map reverse wait_for_change
ran = refl

pool_round-PoolRoundOf_example : PoolRoundOf packages both_devices waiting job_comes submitted
pool_round-PoolRoundOf_example =
    pool_round-PoolRoundOf packages both_devices waiting job_comes submitted ran
