-- ===== src/Examples/Farm.antt =====
-- A miner of a pool from its connection to its first share, at a concrete job.
use mathlib.Core.List
use mathlib.Core.Option
use mathlib.Core.List.{reverse}
use velkar_gpu.Base.{
  ℕ, ◌+◌, ◌-◌, ◌^◌, ◌≡◌, refl, ap, arith, true, false, List, [], ◌∷◌, ◌++◌, Option, none, some,
  ◌==◌, if◌then◌else◌, All, here, Outcome, ok, err, external,
}
use velkar_gpu.Text.{codes, bytes_eq, hex_fixed}
use velkar_gpu.Text.{
  slice, from_str_radix16, scan_hex, trim, trim_start, trim_end, trim_end_matches,
}
use velkar_gpu.Target.{of_le_bytes}
use velkar_gpu.Target.Difficulty.{u256_from_stratum_difficulty_str, target_of}
use velkar_gpu.Stratum.{parse_target_text, parse_pairs}
use velkar_gpu.Stratum.Lines.{handle_line, handle_method, set_difficulty, notify, parse_target_hex}
use velkar_gpu.Word.{Bytes, pos}
use velkar_gpu.Packages.{Json}
use velkar_gpu.Word.{rotate_right, rotate_left}
use velkar_gpu.Target.{le_bytes, le, cmp}
use velkar_gpu.Pow.Hasher
use velkar_gpu.Pow.Hasher.{
  pow_initial_state, heavy_initial_state, argon_password, argon_salt, finalize_with_nonce,
  heavy_hasher, memory_hard_hash,
}
use velkar_gpu.Pow.Xoshiro.{next_u64}
use velkar_gpu.Pow.Matrix.{
  fill_row, nibbles, dot, heavy_hash, product, product_byte, rand_matrix_no_rank_check, fill_rows,
}
use velkar_gpu.Pow.State.{
  State, state_with, from_stratum, final_hash, mix_words, calculate_pow, pow_match,
  apply_extranonce,
}
use velkar_gpu.Miner.{mine_nonce, next_nonce, found_share, should_submit_share}
use velkar_gpu.Stratum.{StratumCommand, submit_share, Job}
use velkar_gpu.Stratum.Lines.{line, command, listen_round, connect, started, Session}
use velkar_gpu.Watch.{cell, empty, swap, has_changed, wait_for_change}
use velkar_gpu.Gpu.{GpuConfig}
use velkar_gpu.Miner.Hits.{own_reading}
use velkar_gpu.Miner.Pool.{PoolFound, PoolRan, mine_on_cpu, pool_round}
use velkar_gpu.Miner.Launch.{StratumMinerManager, launch_cpu_miner, receive_job}
use velkar_gpu.Miner.Launch
use velkar_gpu.Farm.{Farm, Step, takes, hears, mines, Reach, next, opened, with_thread, CanFind}
use velkar_gpu.Farm as FarmSteps
use velkar_gpu.Farm.Genuine.{IsGenuine}
use velkar_gpu.Farm.Wire.{IsSubmission}
use velkar_gpu.Farm.Opened.{greeting, written-IsGenuine}
use velkar_gpu.Examples.Stub.{
  packages, some_hash, some_target, some_matrix, some_matrix_drawn, nat_big,
}
use velkar_gpu.Examples.Rounds.{both_devices}

-- The texts and numbers of a difficulty line and of a job line are numbered.
abbrev text_of : ℕ → Option Bytes
text_of v =
    if v == 11
    then some (codes "mining.set_difficulty")
    else if v == 12
    then some (codes "mining.notify")
    else if v == 13
    then some (codes "job1")
    else if v == 14
    then some (codes "8000000000000000000000000000000000000000000000000000000000000000")
    else none

abbrev array_of : ℕ → Option (List ℕ)
array_of v =
    if v == 21
    then some (1 ∷ [])
    else if v == 22
    then some (13 ∷ 23 ∷ 9 ∷ 14 ∷ 14 ∷ [])
    else if v == 23
    then some (1 ∷ 2 ∷ 3 ∷ 4 ∷ [])
    else none

abbrev member_of : ℕ → Bytes → Option ℕ
member_of v key =
    if bytes_eq key (codes "method")
    then some (if v == b'd' then 11 else 12)
    else if bytes_eq key (codes "params")
    then some (if v == b'd' then 21 else 22)
    else none

abbrev head_of : Bytes → Option ℕ
head_of [] = none
head_of (c ∷ s) = some c

abbrev two_lines : Json
two_lines = record {
  Value = ℕ;
  parse = head_of;
  get = member_of;
  as_str = text_of;
  as_array = array_of;
  as_u64 = λ v. some v;
  as_i64 = λ v. some (pos v);
  is_null = λ v. true;
  is_true = λ v. false;
  to_string = λ v. codes "1";
  request = λ id method params. id ∷ List.flat_map (λ param. param) (method ∷ params);
}

abbrev greeted : Session
greeted = started (connect two_lines (codes "1.0") (codes "worker") none)

abbrev no_searcher : GpuConfig → Outcome both_devices.Searcher
no_searcher config = err external

abbrev manager : StratumMinerManager both_devices.Searcher ℕ
manager = record {
  workers = 1;
  handles = λ i. launch_cpu_miner no_searcher none 5;
  job_channel = empty;
  current_state_id = 0;
  last_share_submit_ms = 0;
}

manager_made : Launch.new 8 no_searcher (λ i. 5) (some 1) none ≡ ok manager
unfolding Launch.new
manager_made = refl

abbrev job : Job
job = record {
  job_id = codes "job1";
  pre_pow_hash = some_hash;
  timestamp = 9;
  block_target = some_target;
  share_target = some_target;
  nonce_mask = 2 ^ 64 - 1;
  nonce_fixed = 0;
}

abbrev with_difficulty : Session
with_difficulty = listen_round two_lines nat_big greeted (line (codes "d")) false

abbrev with_job : Session
with_job = listen_round two_lines nat_big with_difficulty (line (codes "n")) false

job_pushed : with_job.jobs ≡ job ∷ []
unfolding listen_round connect handle_line handle_method set_difficulty notify parse_target_hex
    parse_target_text parse_pairs slice from_str_radix16 scan_hex trim trim_start trim_end
    of_le_bytes u256_from_stratum_difficulty_str target_of trim_end_matches reverse
job_pushed = refl

abbrev job_state : State ℕ
job_state =
    state_with 0 (some (codes "job1")) some_hash 9 some_target some_target none (2 ^ 64 - 1) 0
      some_matrix

job_state_made :
    from_stratum packages {Body = ℕ} 1 0
      (codes "job1")
      some_hash
      9
      some_target
      some_target
      (2 ^ 64 - 1)
      0
    ≡ some job_state
unfolding from_stratum
job_state_made =
    ap
      (Option.map (
        state_with 0 (some (codes "job1")) some_hash 9 some_target some_target none (2 ^ 64 - 1) 0))
      some_matrix_drawn

abbrev manager_with_job : StratumMinerManager both_devices.Searcher ℕ
manager_with_job = record manager {
  job_channel = record { inner = cell 3 (some job_state); cached = cell 0 none };
  current_state_id = 1;
}

job_received : receive_job packages 1 manager 3 (some job) ≡ some manager_with_job
unfolding receive_job empty swap
job_received = rw job_state_made refl

abbrev job_found : PoolFound ℕ
job_found = record {
  looks = cell 3 (some job_state) ∷ [];
  seen = cell 3 (some job_state);
  last_submit = 0;
  reading = own_reading (λ i. 1000 + i) (λ i. true);
  shutdown = false;
}

abbrev first_share : PoolRan both_devices.Searcher ℕ
first_share = record {
  miner = record {
    gpu = none;
    thread = record {
      nonce = 6;
      state = some (record job_state { nonce = 5 });
      job_channel = record { inner = cell 3 (some job_state); cached = cell 3 (some job_state) };
      hashes_tried = 0;
      returned = false;
    };
  };
  last_submit = 1000;
  messages = submit_share (codes "job1") (hex_fixed 16 5) ∷ [];
}

round_ran :
    pool_round packages both_devices (launch_cpu_miner no_searcher none 5) job_found
    ≡ ok first_share
unfolding pool_round mine_on_cpu mine_nonce next_nonce launch_cpu_miner empty found_share
    should_submit_share pow_match calculate_pow apply_extranonce le_bytes of_le_bytes
    finalize_with_nonce heavy_hash heavy_hasher product product_byte memory_hard_hash final_hash
    mix_words rotate_right rand_matrix_no_rank_check fill_rows fill_row next_u64 nibbles dot
    argon_password argon_salt pow_initial_state heavy_initial_state Hasher.new cmp le rotate_left
    has_changed wait_for_change List.flat_map reverse
round_ran = refl

abbrev sent : List StratumCommand
sent = submit_share (codes "job1") (hex_fixed 16 5) ∷ []

-- Behind the two lines of the pool, behind the round of the thread, and with its share written.
abbrev informed : Farm both_devices.Searcher ℕ
informed = record {
  session = with_job;
  manager = manager_with_job;
  queue = [];
  cells = cell 3 (some job_state) ∷ cell 0 none ∷ cell 0 none ∷ [];
}

abbrev mined : Farm both_devices.Searcher ℕ
mined = record informed {
  manager = with_thread manager_with_job 0 first_share.miner 1000;
  queue = sent;
}

abbrev submitted : Farm both_devices.Searcher ℕ
submitted = record mined {
  session =
      listen_round two_lines nat_big with_job
        (command (some (submit_share (codes "job1") (hex_fixed 16 5)))) false;
  queue = [];
}

abbrev alerted : Farm both_devices.Searcher ℕ
alerted = record informed {
  session = with_difficulty;
  manager = manager;
  cells = cell 0 none ∷ cell 0 none ∷ [];
}

abbrev Steps : Farm both_devices.Searcher ℕ → Farm both_devices.Searcher ℕ → Type 0
Steps = Step packages 1 two_lines nat_big both_devices

hears_difficulty : Steps (opened greeted manager) alerted
unfolding empty receive_job listen_round connect handle_line handle_method set_difficulty
hears_difficulty = hears (line (codes "d")) false none 0 manager tt refl refl

hears_job : Steps alerted informed
unfolding empty listen_round connect handle_line handle_method set_difficulty notify
    parse_target_hex parse_target_text parse_pairs slice from_str_radix16 scan_hex trim trim_start
    trim_end of_le_bytes u256_from_stratum_difficulty_str target_of trim_end_matches reverse
hears_job = hears (line (codes "n")) false (some job) 3 manager_with_job tt refl job_received

mines_share : Steps informed mined
unfolding launch_cpu_miner
mines_share =
    mines 0 job_found first_share (omega arith) refl
      (record { looks = (here refl, tt); seen = here refl; counter = refl }) round_ran

takes_share : Steps mined submitted
takes_share = takes (submit_share (codes "job1") (hex_fixed 16 5)) [] false refl

submitted_reached :
    Reach packages 1 two_lines nat_big both_devices (opened greeted manager) submitted
submitted_reached =
    next (next (next (next FarmSteps.here hears_difficulty) hears_job) mines_share) takes_share

written-IsGenuine_example :
    ((lines : List Bytes) × (submitted.session.handler.writer.sent
        ≡ greeting two_lines (codes "1.0") (codes "worker") none ++ lines)
      × All
          (IsSubmission two_lines
            (codes "worker")
            (greeting two_lines (codes "1.0") (codes "worker") none)
            (IsGenuine packages 1 ℕ true submitted.session.jobs))
          lines)
    × All (IsGenuine packages 1 ℕ true submitted.session.jobs) []
written-IsGenuine_example =
    written-IsGenuine packages 1 two_lines nat_big both_devices (codes "1.0") (codes "worker") none
      8 no_searcher (λ i. 5) (some 1) none manager submitted manager_made submitted_reached
