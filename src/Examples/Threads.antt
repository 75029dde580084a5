-- ===== src/Examples/Threads.antt =====
-- The threads of the node's miner, clones of a watched value, and the start-up, at concrete inputs.
use mathlib.Core.List
use mathlib.Core.List.{reverse}
use velkar_gpu.Base.{
  ℕ, ◌≡◌, ◌-◌, All, max, refl, arith, true, false, List, [], ◌∷◌, none, some, ltb, if◌then◌else◌,
  ok,
}
use velkar_gpu.Text.{codes}
use velkar_gpu.Word.{rotate_right, rotate_left}
use velkar_gpu.Target.{
  le_bytes, of_le_bytes, le, cmp, u256_from_compact_target, unpack_compact, shl,
}
use velkar_gpu.Pow.Hasher
use velkar_gpu.Pow.Hasher.{
  pow_initial_state, heavy_initial_state, argon_password, argon_salt, finalize_with_nonce,
  heavy_hasher, memory_hard_hash,
}
use velkar_gpu.Pow.Xoshiro.{next_u64}
use velkar_gpu.Pow.Matrix.{
  fill_row, nibbles, dot, heavy_hash, product, product_byte, rand_matrix_no_rank_check, fill_rows,
}
use velkar_gpu.Pow.Header.{
  block_hash, serialize_header, write_fields, write_parents, write_hashes, write_hash,
  write_blue_work, decode_blue_work, decode_to_slice,
}
use velkar_gpu.Pow.State.{final_hash, mix_words, calculate_pow, generate_block_if_pow, pow_match}
use velkar_gpu.Gpu.OpenCl.{Kernel}
use velkar_gpu.Gpu.Searcher.{GpuSearcher, with_opencl}
use velkar_gpu.Watch.{cell, swap}
use velkar_gpu.Watch.Handles.{Use, store, clone_handle, look, Handles, use_handles, reports}
use velkar_gpu.Watch.Versions.{spec_reports, reports-versions}
use velkar_gpu.Miner.{MinerManager, Sent, process_block, found_block, usize_max}
use velkar_gpu.Pow.Header.{RpcBlock}
use velkar_gpu.Miner.Node.Stale.{stale_block_lem}
use velkar_gpu.Miner.Node.{NodeThread, NodeFound, NodeRan, node_round, cpu_round, next_nonce}
use velkar_gpu.Miner.Node.Blocks.{NodeRoundOf, node_round-NodeRoundOf, gpu_overlooks}
use velkar_gpu.Cli.{stratum}
use velkar_gpu.Start.{MainOpt, Connected, pool, plan}
use velkar_gpu.Start.Threads.{IsUsers, IsDevfund, workers_of, plan_threads}
use velkar_gpu.Examples.Stub.{
  packages, some_block, some_header, some_block_state, some_block_state_made,
}
use velkar_gpu.Examples.Device.{idle_searcher}
use velkar_gpu.Examples.Rounds.{both_devices, no_work}

abbrev working : NodeThread (GpuSearcher (List Kernel) ℕ) ℕ
working = record {
  gpu = none;
  nonce = 6;
  state = some some_block_state;
  block_channel = no_work;
  hashes_tried = 0;
  returned = false;
}

abbrev unsolved : NodeFound ℕ
unsolved = record {
  looks = [];
  already_solved = usize_max;
  looks_solved = [];
  solved_state_id = usize_max;
  receiving = true;
  seen = cell 0 none;
  shutdown = false;
}

abbrev solved_one : NodeRan (GpuSearcher (List Kernel) ℕ) ℕ
solved_one = record {
  thread = record working { state = none };
  solved_state_id = 7;
  messages = record some_block { header = some (record some_header { nonce = 6 }) } ∷ [];
}

ran : node_round packages both_devices working unsolved ≡ ok solved_one
unfolding node_round cpu_round next_nonce generate_block_if_pow pow_match found_block block_hash
    serialize_header write_fields write_parents write_hashes write_hash write_blue_work
    decode_blue_work decode_to_slice Hasher.finalize Hasher.write Hasher.header_hasher calculate_pow
    le_bytes of_le_bytes finalize_with_nonce heavy_hash heavy_hasher product product_byte
    memory_hard_hash final_hash mix_words rotate_right rand_matrix_no_rank_check fill_rows fill_row
    next_u64 nibbles dot argon_password argon_salt pow_initial_state heavy_initial_state Hasher.new
    cmp le u256_from_compact_target unpack_compact shl rotate_left List.flat_map reverse
ran = refl

node_round-NodeRoundOf_example :
    NodeRoundOf packages both_devices some_block_state unsolved solved_one
node_round-NodeRoundOf_example =
    node_round-NodeRoundOf packages both_devices some_block_state working unsolved solved_one refl
      ran

gpu_overlooks_example :
    node_round packages both_devices
      (record working { gpu = some (with_opencl idle_searcher) })
      unsolved
    ≡ node_round packages both_devices
        (record working { gpu = some (with_opencl idle_searcher) })
        (record unsolved { seen = cell 9 (some some_block_state); shutdown = true })
gpu_overlooks_example =
    gpu_overlooks packages both_devices some_block_state (with_opencl idle_searcher)
      (record working { gpu = some (with_opencl idle_searcher) }) unsolved
      (cell 9 (some some_block_state)) true refl refl (omega arith)

-- Behind the template of state 7, a block of state 6 is found, and then one of state 7.
abbrev older : MinerManager ℕ
older = record {
  block_channel = no_work;
  is_synced = true;
  current_state_id = 7;
  solved_state_id = usize_max;
}

abbrev newer : MinerManager ℕ
newer = record {
  block_channel = swap 3 (some some_block_state) no_work;
  is_synced = true;
  current_state_id = 8;
  solved_state_id = usize_max;
}

newer_made : process_block packages 1 older 3 (some some_block) ≡ ok (some newer)
unfolding process_block
newer_made = rw some_block_state_made refl

abbrev stale_sent : Sent (RpcBlock ℕ)
stale_sent = record { stored = 6; messages = some_block ∷ [] }

stale_found : found_block packages some_block 6 usize_max true ≡ ok stale_sent
unfolding found_block block_hash serialize_header write_fields write_parents write_hashes write_hash
    write_blue_work decode_blue_work decode_to_slice Hasher.finalize Hasher.write
    Hasher.header_hasher
stale_found = refl

abbrev marked : NodeFound ℕ
marked = record unsolved { solved_state_id = 6 }

abbrev dropped : NodeRan (GpuSearcher (List Kernel) ℕ) ℕ
dropped = record { thread = record working { state = none }; solved_state_id = 6; messages = [] }

dropped_ran : node_round packages both_devices working marked ≡ ok dropped
unfolding node_round cpu_round next_nonce generate_block_if_pow pow_match found_block block_hash
    serialize_header write_fields write_parents write_hashes write_hash write_blue_work
    decode_blue_work decode_to_slice Hasher.finalize Hasher.write Hasher.header_hasher calculate_pow
    le_bytes of_le_bytes finalize_with_nonce heavy_hash heavy_hasher product product_byte
    memory_hard_hash final_hash mix_words rotate_right rand_matrix_no_rank_check fill_rows fill_row
    next_u64 nibbles dot argon_password argon_salt pow_initial_state heavy_initial_state Hasher.new
    cmp le u256_from_compact_target unpack_compact shl rotate_left List.flat_map reverse
dropped_ran = refl

stale_block_lem_example :
    (stale_sent.messages ≡ some_block ∷ [])
    × (dropped.messages ≡ [])
    × (dropped.solved_state_id ≡ 6)
stale_block_lem_example =
    stale_block_lem packages 1 both_devices older newer 3 some_block some_block 6 true stale_sent
      some_block_state working marked dropped newer_made (omega arith) stale_found refl refl
      dropped_ran

-- A value stored, seen, stored anew and seen by two handles; the first address is used again.
abbrev some_uses : List (Use ℕ)
some_uses =
    store 8 (some 10)
    ∷ look 0
    ∷ clone_handle 0
    ∷ store 16 (some 20)
    ∷ look 1
    ∷ look 0
    ∷ store 8 (some 30)
    ∷ look 0
    ∷ store 24 none
    ∷ look 1
    ∷ look 1
    ∷ []

abbrev one_handle : Handles ℕ
one_handle = record { inner = cell 0 none; cached = cell 0 none ∷ [] }

reports-versions_example :
    reports some_uses one_handle
    ≡ spec_reports some_uses (record { current = 0; value = none; seen = 0 ∷ []; next = 1 })
unfolding use_handles
reports-versions_example = reports-versions some_uses (omega arith)

abbrev eight_threads : MainOpt
eight_threads = record {
  opt = record {
    velkard_address = codes "pool.example:3333";
    port = none;
    testnet = false;
    user_agent_suffix = none;
    opencl_enable = false;
    cuda_enable = false;
    mode = stratum;
  };
  mining_address = codes "worker";
  num_threads = some 8;
  throttle = none;
  mine_when_not_synced = false;
  opencl_platform = none;
  opencl_device = none;
  opencl_workload = none;
  opencl_jobs_per_block = none;
  cuda_device = none;
  cuda_workload = none;
}

plan_threads_example :
    (main : Connected) × (others : List Connected) × (plan false 16 eight_threads
      ≡ ok (pool (main ∷ others)))
    × IsUsers eight_threads main
    × (main.workers ≡ max 1 (8 - 1))
    × All IsDevfund others
    × (workers_of others ≡ (if ltb 1 8 then 1 else 0))
plan_threads_example = plan_threads false 16 8 eight_threads refl refl refl refl
