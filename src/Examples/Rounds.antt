-- ===== src/Examples/Rounds.antt =====
-- Rounds of the mining threads with a GPU, clones of a watched value, and the start-up, at concrete
-- inputs.
use mathlib.Core.List
use mathlib.Core.List.{reverse}
use velkar_gpu.Base.{true, ℕ, ◌+◌, ◌≡◌, refl, false, List, [], ◌∷◌, none, some, ok}
use velkar_gpu.Text.{codes, hex_fixed}
use velkar_gpu.Word.{rotate_right, rotate_left}
use velkar_gpu.Target.{le_bytes, of_le_bytes, le, cmp}
use velkar_gpu.Pow.Hasher
use velkar_gpu.Pow.Hasher.{
  pow_initial_state, heavy_initial_state, argon_password, argon_salt, finalize_with_nonce,
  heavy_hasher, memory_hard_hash,
}
use velkar_gpu.Pow.Xoshiro.{next_u64}
use velkar_gpu.Pow.Matrix.{
  fill_row, nibbles, dot, heavy_hash, product, product_byte, rand_matrix_no_rank_check, fill_rows,
}
use velkar_gpu.Pow.State.{
  State, stage1_for_nonce, stage2_for_stage1, stage3_for_stage2, cpu_stage4_from_parts, final_hash,
  mix_words, calculate_pow, calculate_pow_from_gpu_stage4,
}
use velkar_gpu.Gpu.{candidate}
use velkar_gpu.Gpu.FirstBlocks.{fill_first_blocks_cpu, digest_rest, digest_long_cpu}
use velkar_gpu.Gpu.Candidates.{stages_agree, push_hit}
use velkar_gpu.Gpu.OpenCl.{
  Kernel, upload_constants, prepare_jobs, run_init_kernel, run_argon_kernel,
  validate_initial_blocks_once, diagnose_argon_memory, set_args,
}
use velkar_gpu.Gpu.OpenCl.Search as OpenClSearch
use velkar_gpu.Gpu.OpenCl.Search.{
  export_and_filter_candidates, filter_candidates, validate_first, validate_candidate,
}
use velkar_gpu.Gpu.Searcher.{Searching, GpuSearcher, with_opencl, with_cuda, gpu_searching}
use velkar_gpu.Gpu.Searcher
use velkar_gpu.Stratum.{submit_share}
use velkar_gpu.Watch.{WatchSwap, cell, has_changed, get_changed, update_cached}
use velkar_gpu.Miner.{submit_hit, found_share, should_submit_share, use_devfund}
use velkar_gpu.Miner.Hits.{submit_hits}
use velkar_gpu.Miner.Gpu.{Scheduler, Found, Ran, mine_main, mine_batch, scheduler_round}
use velkar_gpu.Miner.Gpu.Shares.{RoundOf, scheduler_round-RoundOf}
use velkar_gpu.Examples.Stub.{packages, some_job_state}
use velkar_gpu.Examples.Device.{seen, mirror, idle_searcher, used_searcher}
use velkar_gpu.Examples.CudaDevice.{true_device}

abbrev pub both_devices : Searching ℕ
both_devices = gpu_searching mirror true_device packages ℕ

abbrev pub no_work : WatchSwap (State ℕ)
no_work = record { inner = cell 0 none; cached = cell 0 none }

abbrev starting : Scheduler (GpuSearcher (List Kernel) ℕ) ℕ
starting = record {
  gpu = with_opencl idle_searcher;
  nonce = 5;
  main_jobs = no_work;
  dev_jobs = no_work;
  main_state = some some_job_state;
  dev_state = none;
  batch_index = 0;
  main_last_submit = 0;
  dev_last_submit = 0;
  hashes_tried = 0;
}

abbrev unchanged : Found ℕ
unchanged = record {
  looks = [];
  main_seen = cell 0 none;
  dev_seen = cell 0 none;
  now = λ i. 1000 + i;
  receiving = λ i. true;
  shutdown = false;
}

abbrev one_share : Ran (GpuSearcher (List Kernel) ℕ) ℕ
one_share = record {
  scheduler = record starting {
    gpu = with_opencl used_searcher;
    nonce = 6;
    main_state = some (record some_job_state { nonce = 5 });
    batch_index = 1;
    main_last_submit = 1000;
    hashes_tried = 1;
  };
  main_messages = submit_share (codes "job1") (hex_fixed 16 5) ∷ [];
  dev_messages = [];
  returned = false;
}

ran_once : scheduler_round packages both_devices starting unchanged ≡ ok one_share
unfolding scheduler_round mine_batch mine_main use_devfund submit_hits submit_hit found_share
    should_submit_share Searcher.search Searcher.batch_size OpenClSearch.search upload_constants
    prepare_jobs run_init_kernel run_argon_kernel validate_initial_blocks_once fill_first_blocks_cpu
    digest_rest digest_long_cpu export_and_filter_candidates filter_candidates validate_first
    validate_candidate push_hit diagnose_argon_memory set_args seen candidate calculate_pow
    calculate_pow_from_gpu_stage4 le_bytes of_le_bytes stages_agree stage1_for_nonce
    stage2_for_stage1 stage3_for_stage2 cpu_stage4_from_parts finalize_with_nonce heavy_hash
    heavy_hasher product product_byte memory_hard_hash final_hash mix_words rotate_right
    rand_matrix_no_rank_check fill_rows fill_row next_u64 nibbles dot argon_password argon_salt
    pow_initial_state heavy_initial_state Hasher.new cmp le has_changed get_changed update_cached
    rotate_left List.flat_map reverse
ran_once = refl

scheduler_round-RoundOf_example : RoundOf packages both_devices starting one_share
scheduler_round-RoundOf_example =
    scheduler_round-RoundOf packages both_devices starting unchanged one_share ran_once
