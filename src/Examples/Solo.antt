-- ===== src/Examples/Solo.antt =====
-- A miner of a node from its connection to its first block, at a concrete template.
use mathlib.Core.List
use mathlib.Core.List.{reverse}
use velkar_gpu.Base.{
  ℕ, ◌≡◌, refl, arith, true, false, [], ◌∷◌, ◌++◌, update, Option, none, some, All, here, Outcome,
  ok, err, external,
}
use velkar_gpu.Text.{codes}
use velkar_gpu.Word.{rotate_right, rotate_left}
use velkar_gpu.Target.{
  le_bytes, of_le_bytes, le, cmp, u256_from_compact_target, unpack_compact, shl,
}
use velkar_gpu.Pow.Hasher
use velkar_gpu.Pow.Hasher.{
  pow_initial_state, heavy_initial_state, argon_password, argon_salt, finalize_with_nonce,
  heavy_hasher, memory_hard_hash,
}
use velkar_gpu.Pow.Xoshiro.{next_u64}
use velkar_gpu.Pow.Matrix.{
  fill_row, nibbles, dot, heavy_hash, product, product_byte, rand_matrix_no_rank_check, fill_rows,
}
use velkar_gpu.Pow.Header.{
  block_hash, serialize_header, write_fields, write_parents, write_hashes, write_hash,
  write_blue_work, decode_blue_work, decode_to_slice,
}
use velkar_gpu.Pow.State.{final_hash, mix_words, calculate_pow, generate_block_if_pow, pow_match}
use velkar_gpu.Client.{
  VelkardHandler, get_info_request, get_block_template_request, notify_new_block_template_request,
  submit_block, get_block_template_response, connect, add_devfund, client_get_block_template,
  handle_message, handle_template, Payload,
}
use velkar_gpu.Gpu.{GpuConfig}
use velkar_gpu.Pow.State.{State}
use velkar_gpu.Start.{rpc_devfund_address, devfund_percent}
use velkar_gpu.Watch.{cell, empty, swap, has_changed, wait_for_change}
use velkar_gpu.Miner.{MinerManager, usize_max, process_block, found_block}
use velkar_gpu.Miner.Node.{NodeThread, NodeFound, NodeRan, node_round, cpu_round, next_nonce}
use velkar_gpu.Solo.{
  Solo, opened, begun, new_manager, launch_node_thread, Step, listens, mines, Reach, next,
}
use velkar_gpu.Solo as SoloSteps
use velkar_gpu.Solo.Invariant.{IsProperMessage}
use velkar_gpu.Solo.Once.{IsNumbered, IsOnce, Rounds-IsOnce, done, also}
use velkar_gpu.Solo.Opened.{sent-IsProperMessage}
use velkar_gpu.Examples.Stub.{
  packages, some_block, some_header, state_of_block, state_of_block_made,
}
use velkar_gpu.Examples.Rounds.{both_devices}

abbrev no_searcher : GpuConfig → Outcome both_devices.Searcher
no_searcher config = err external

abbrev Miners : Type 0
Miners = Solo both_devices.Searcher ℕ

abbrev thread : ℕ → NodeThread both_devices.Searcher ℕ
thread i = launch_node_thread no_searcher none 5

-- Connected, with one thread.
abbrev asked : VelkardHandler ℕ
asked = record {
  sent =
      get_info_request
      ∷ get_block_template_request (codes "miner") []
      ∷ notify_new_block_template_request
      ∷ get_block_template_request rpc_devfund_address []
      ∷ [];
  connected = true;
  miner_address = codes "miner";
  mine_when_not_synced = false;
  devfund_address = some rpc_devfund_address;
  devfund_percent = devfund_percent;
  block_template_ctr = 1;
  extra_data = [];
}

abbrev started : Miners
started = begun asked 1 thread

started_made : opened 8 no_searcher (λ i. 5) (some 1) none (codes "miner") false [] ≡ ok started
unfolding opened connect add_devfund client_get_block_template
started_made = refl

abbrev template_state : State ℕ
template_state = state_of_block 0

abbrev template : Option (Payload ℕ)
template = some (get_block_template_response (some some_block) true none)

abbrev manager : MinerManager ℕ
manager = record {
  block_channel = swap 3 (some template_state) empty;
  is_synced = true;
  current_state_id = 1;
  solved_state_id = usize_max;
}

manager_made : process_block packages 1 new_manager 3 (some some_block) ≡ ok (some manager)
unfolding process_block empty swap
manager_made = rw (state_of_block_made 0) refl

abbrev informed : Miners
informed = record started {
  manager = manager;
  cells = cell 3 (some template_state) ∷ empty.inner ∷ [];
  templates = some_block ∷ [];
}

abbrev block_found : NodeFound ℕ
block_found = record {
  looks = cell 3 (some template_state) ∷ [];
  already_solved = usize_max;
  looks_solved = [];
  solved_state_id = usize_max;
  receiving = true;
  seen = cell 3 (some template_state);
  shutdown = false;
}

abbrev first_block : NodeRan both_devices.Searcher ℕ
first_block = record {
  thread = record {
    gpu = none;
    nonce = 5;
    state = none;
    block_channel = record {
      inner = cell 3 (some template_state);
      cached = cell 3 (some template_state);
    };
    hashes_tried = 0;
    returned = false;
  };
  solved_state_id = 0;
  messages = record some_block { header = some (record some_header { nonce = 5 }) } ∷ [];
}

round_ran : node_round packages both_devices (thread 0) block_found ≡ ok first_block
unfolding node_round cpu_round next_nonce generate_block_if_pow pow_match found_block block_hash
    serialize_header write_fields write_parents write_hashes write_hash write_blue_work
    decode_blue_work decode_to_slice Hasher.finalize Hasher.write Hasher.header_hasher calculate_pow
    le_bytes of_le_bytes finalize_with_nonce heavy_hash heavy_hasher product product_byte
    memory_hard_hash final_hash mix_words rotate_right rand_matrix_no_rank_check fill_rows fill_row
    next_u64 nibbles dot argon_password argon_salt pow_initial_state heavy_initial_state Hasher.new
    cmp le u256_from_compact_target unpack_compact shl rotate_left List.flat_map reverse
    launch_node_thread empty has_changed wait_for_change
round_ran = refl

abbrev mined : Miners
mined = record informed {
  handler = record asked {
    sent =
        asked.sent
        ++ submit_block (record some_block { header = some (record some_header { nonce = 5 }) })
          ∷ [];
  };
  manager = record manager { solved_state_id = 0 };
  threads = update thread 0 first_block.thread;
}

abbrev Steps : Miners → Miners → Type 0
Steps = Step packages 1 both_devices

listens_template : Steps started informed
unfolding handle_message handle_template empty swap
listens_template =
    listens template 3 (record { handler = asked; miner = some manager }) manager
      (rw manager_made refl) refl

mines_block : Steps informed mined
unfolding launch_node_thread
mines_block =
    mines 0 block_found first_block (omega arith) refl
      (record { looks = (here refl, tt); looks_solved = tt; seen = here refl; solved = refl })
      round_ran

mined_reached : Reach packages 1 both_devices started mined
mined_reached = next (next SoloSteps.here listens_template) mines_block

sent-IsProperMessage_example : All (IsProperMessage packages 1 mined.templates) mined.handler.sent
sent-IsProperMessage_example =
    sent-IsProperMessage packages 1 both_devices 8 no_searcher (λ i. 5) (some 1) none
      (codes "miner") false [] started mined started_made mined_reached

informed-IsNumbered : IsNumbered packages 1 both_devices informed
unfolding launch_node_thread empty swap
informed-IsNumbered = record {
  cells = (omega arith, (tt, tt));
  channel = omega arith;
  threads = λ i. tt;
}

Rounds-IsOnce_example : IsOnce packages 1 both_devices informed mined
unfolding launch_node_thread
Rounds-IsOnce_example =
    Rounds-IsOnce packages 1 both_devices {s = informed} {t = mined} informed-IsNumbered (
      also done
        (mines 0 block_found first_block (omega arith) refl
          (record { looks = (here refl, tt); looks_solved = tt; seen = here refl; solved = refl })
          round_ran)
        tt)
