-- ===== src/Examples/Pool.antt =====
-- The theorems on the pool, the node, the options and the miner at concrete inputs.
use velkar_gpu.Base.{
  ℕ, ◌+◌, ◌-◌, ◌*◌, ◌/◌, ◌%◌, ◌^◌, ◌≤◌, ◌<◌, ◌≡◌, ◌⊎◌, refl, arith, true, false, List, [], ◌∷◌,
  none, some, length, ok,
}
use velkar_gpu.Word.{Bytes}
use velkar_gpu.Text.{codes, trim_start_matches, from_str_radix16, from_str_radix10}
use velkar_gpu.Target.{Uint256, IsUint256}
use velkar_gpu.Target.Value.{value}
use velkar_gpu.Target.Difficulty.{target_of, target_of-value}
use velkar_gpu.Pow.State.{apply_extranonce, check_pow}
use velkar_gpu.Pow.Header.{
  block_hash, serialize_header, write_fields, write_parents, write_hashes, write_hash,
  write_blue_work, decode_blue_work, decode_to_slice,
}
use velkar_gpu.Stratum.{StratumHandler, set_extranonce, parse_fixed}
use velkar_gpu.Stratum.Extranonce.{set_extranonce-apply_extranonce}
use velkar_gpu.Stratum.Lines.{Session, Round, line, end_of_lines, finished}
use velkar_gpu.Cli.{parse_devfund_percent, Opt, rpc, stratum}
use velkar_gpu.Cli.Percent.{Parsed, IsSplit, parse_devfund_percent-range}
use velkar_gpu.Miner.{should_submit_share, mine_nonce, prepared, usize_max, found_block}
use velkar_gpu.Miner.Shares.{
  Try, submissions, Spaced, submissions-Spaced, IsShareOutcome, mine_nonce_lem,
}
use velkar_gpu.Miner.Blocks.{Found, found_blocks, found_blocks-once}
use velkar_gpu.Examples.Stub.{packages, some_block, some_job_state, nat_big}

abbrev some_handler : StratumHandler
some_handler = record {
  writer = record { sent = []; connected = true };
  worker_name = codes "worker";
  request_id = 3;
  current_difficulty = none;
  nonce_mask = 2 ^ 64 - 1;
  nonce_fixed = 0;
}

-- The handler of the test of src/stratum.rs, behind its call.
abbrev configured_handler : StratumHandler
configured_handler = record some_handler {
  nonce_mask = 0x0000ffffffffffff;
  nonce_fixed = 0xfe93000000000000;
}

set_extranonce_run : set_extranonce some_handler (codes "fe93") 6 ≡ ok configured_handler
unfolding set_extranonce trim_start_matches from_str_radix16
set_extranonce_run = refl

apply_example :
    (fixed : ℕ) × (parse_fixed (trim_start_matches (codes "0x") (codes "fe93")) ≡ ok fixed)
    × (apply_extranonce some_job_state 0x0fad665a2fb9291b
        ≡ 0x0fad665a2fb9291b % 2 ^ 48 + fixed * 2 ^ 48)
    × (fixed * 2 ^ 48 < 2 ^ 64)
apply_example =
    set_extranonce-apply_extranonce some_job_state some_handler configured_handler (codes "fe93") 6
      0x0fad665a2fb9291b (omega arith) set_extranonce_run refl refl

abbrev some_rounds : List Round
some_rounds =
    record { event = line (codes "{}"); shutdown = false }
    ∷ record { event = end_of_lines; shutdown = false }
    ∷ []

abbrev finished_session : Session
finished_session = record { handler = some_handler; jobs = []; status = finished }

target_example :
    (u : Uint256) × (target_of nat_big 16384 1 ≡ some u)
    × IsUint256 u
    × (value u ≡ 0xffff * 2 ^ 232 * 1 / 16384 % 2 ^ 256)
target_example = target_of-value nat_big 16384 1 (λ e. absurd (omega (arith, e)))

percent_run : parse_devfund_percent (codes "12.5") ≡ ok 1205
unfolding parse_devfund_percent from_str_radix10
percent_run = refl

percent_example :
    (before : Bytes) × (after : Bytes) × IsSplit (codes "12.5") before after
    × Parsed before after 1205
percent_example = parse_devfund_percent-range (codes "12.5") 1205 percent_run

abbrev pool_options : Opt
pool_options = record {
  velkard_address = codes "stratum+tcp://pool:4312";
  port = none;
  testnet = false;
  user_agent_suffix = none;
  opencl_enable = true;
  cuda_enable = false;
  mode = rpc;
}

abbrev pool_options_processed : Opt
pool_options_processed = record pool_options { velkard_address = codes "pool:4312"; mode = stratum }

abbrev some_tries : List Try
some_tries =
    record { previous = 0; now_ms = 1000 }
    ∷ record { previous = 0; now_ms = 1300 }
    ∷ record { previous = 1000; now_ms = 1400 }
    ∷ []

submissions-Spaced_example : Spaced 0 (submissions 0 some_tries)
submissions-Spaced_example = submissions-Spaced 0 some_tries

mine_nonce_example :
    (check_pow packages (prepared some_job_state 77) ≡ false)
      × (mine_nonce packages some_job_state 77 0 0 1000 true
          ≡ ok (record { stored = 0; messages = [] }))
    ⊎ ((check_pow packages (prepared some_job_state 77) ≡ true)
        × IsShareOutcome
            (codes "job1")
            (apply_extranonce some_job_state 77)
            (should_submit_share 0 0 1000)
            true
            (mine_nonce packages some_job_state 77 0 0 1000 true))
mine_nonce_example = mine_nonce_lem packages some_job_state (codes "job1") 77 0 0 1000 true refl

abbrev two_found : List (Found ℕ)
two_found =
    record { block = some_block; state_id = 7; receiving = true }
    ∷ record { block = some_block; state_id = 7; receiving = true }
    ∷ []

two_found_run : found_blocks packages usize_max two_found ≡ ok (some_block ∷ [])
unfolding found_block block_hash serialize_header write_fields write_parents write_hashes write_hash
    write_blue_work decode_blue_work decode_to_slice
two_found_run = refl

found_blocks_example : length (some_block ∷ []) ≤ 1
found_blocks_example =
    found_blocks-once packages usize_max two_found (some_block ∷ [])
      (λ e. absurd (omega (arith, e)), (λ e. absurd (omega (arith, e)), tt)) two_found_run
