-- ===== src/Stratum/Lines.antt =====
-- `handle_line` and `listen` of src/stratum.rs, over the JSON values of a package.
use velkar_gpu.Base.{
  ℕ, ◌-◌, ◌^◌, Bool, true, false, not, ◌||◌, List, [], ◌∷◌, ◌++◌, Option, none, some, length,
  get_elem?, ltb, ◌==◌, if◌then◌else◌, Outcome, ok, err, panic, ◌>>=◌, ok_or, Error, message, json,
  external,
}
use velkar_gpu.Base.Chain.{and_then, unwrap_or}
use velkar_gpu.Word.{Bytes, cast_u64, u32, to_le_bytes}
use velkar_gpu.Text.{codes, bytes_eq}
use velkar_gpu.Target.{Uint256, of_le_bytes}
use velkar_gpu.Target.Difficulty.{u256_from_stratum_difficulty_str}
use velkar_gpu.Packages.{BigUint, Json}
use velkar_gpu.Stratum.{
  StratumHandler, StratumCommand, Job, set_extranonce, parse_target_text, parse_large_job,
  send_command,
}

-- `(pre_pow_hash, timestamp, block_target, job_share_target)`
pub record JobParts : Type 0 where
  pub hash : Uint256
  pub ts : ℕ
  pub block_target : Uint256
  pub job_share_target : Option Uint256

-- The handler behind a line, and the job that the line hands to the miner.
pub record Handled : Type 0 where
  pub handler : StratumHandler
  pub job : Option Job

abbrev pub unchanged : StratumHandler → Handled
unchanged h = record { handler = h; job = none }

abbrev make_job : StratumHandler → Bytes → Uint256 → JobParts → Handled
make_job h job_id fallback parts = record {
  handler = h;
  job = some (record {
    job_id = job_id;
    pre_pow_hash = parts.hash;
    timestamp = parts.ts;
    block_target = parts.block_target;
    share_target = unwrap_or parts.job_share_target fallback;
    nonce_mask = h.nonce_mask;
    nonce_fixed = h.nonce_fixed;
  });
}

-- The job of a payload; there is none for a payload that is ignored.
abbrev pub deliver : StratumHandler → Bytes → Uint256 → Option JobParts → Handled
deliver h job_id fallback none = unchanged h
deliver h job_id fallback (some parts) = make_job h job_id fallback parts

module _ (j : Json) (n : BigUint) where
  abbrev member : j.Value → Bytes → Option j.Value
  member value key = j.get value key

  abbrev target_text : Option Bytes → Outcome (Option Uint256)
  target_text none = ok none
  target_text (some text) = parse_target_text text

  unfoldable pub parse_target_hex : Option j.Value → Outcome (Option Uint256)
  parse_target_hex value = target_text (and_then value j.as_str)

  -- The bytes of the four words of a hash.
  abbrev pub word_bytes : List j.Value → Outcome Bytes
  word_bytes [] = ok []
  word_bytes (word ∷ words) = do
    value ← ok_or (j.as_u64 word) (message "invalid job word")
    rest ← word_bytes words
    ok (to_le_bytes 8 value ++ rest)

  -- The targets at the places `i` and `i + 1` of the parameters.
  abbrev pub job_parts : Uint256 → ℕ → Option j.Value → Option j.Value → Outcome (Option JobParts)
  job_parts hash ts block_value share_value = do
    block_read ← parse_target_hex block_value
    block_target ← ok_or block_read (message "missing block target")
    job_share_target ← parse_target_hex share_value
    ok (
        some (record {
          hash = hash;
          ts = ts;
          block_target = block_target;
          job_share_target = job_share_target;
        }))

  abbrev pub four_words : List j.Value → List j.Value → Outcome (Option JobParts)
  four_words words params = do
    bytes ← word_bytes words
    ts ← ok_or (and_then (get_elem? params 2) j.as_i64) (message "missing timestamp")
    job_parts (of_le_bytes bytes) (cast_u64 ts) (get_elem? params 3) (get_elem? params 4)

  abbrev pub array_payload : List j.Value → List j.Value → Outcome (Option JobParts)
  array_payload words params = if length words == 4 then four_words words params else ok none

  abbrev pub text_payload : Bytes → List j.Value → Outcome (Option JobParts)
  text_payload large_job params = if ltb (length large_job) 80 then ok none else do
    large ← parse_large_job large_job
    job_parts large.hash large.ts (get_elem? params 2) (get_elem? params 3)

  -- An array of words, else a text, else nothing.
  abbrev pub payload :
      Option (List j.Value) → Option Bytes → List j.Value → Outcome (Option JobParts)
  payload (some words) text params = array_payload words params
  payload none (some large_job) params = text_payload large_job params
  payload none none params = ok none

  abbrev pub notify_with : StratumHandler → List j.Value → Bytes → Option Uint256 → Outcome Handled
  notify_with h params job_id none = ok (unchanged h)
  notify_with h params job_id (some fallback) = do
    parts ←
        payload (and_then (get_elem? params 1) j.as_array) (and_then (get_elem? params 1) j.as_str)
          params
    ok (deliver h job_id fallback parts)

  -- `let Some(diff) = self.current_difficulty.as_ref() else { .. }` and on
  abbrev pub notify_job : StratumHandler → List j.Value → Bytes → Option Bytes → Outcome Handled
  notify_job h params job_id none = ok (unchanged h)
  notify_job h params job_id (some diff) =
      notify_with h params job_id (u256_from_stratum_difficulty_str n diff)

  abbrev pub notify_params : StratumHandler → List j.Value → Option Bytes → Outcome Handled
  notify_params h params none = ok (unchanged h)
  notify_params h params (some job_id) = notify_job h params job_id h.current_difficulty

  -- `"mining.notify"`
  unfoldable pub notify : StratumHandler → Option (List j.Value) → Outcome Handled
  notify h none = ok (unchanged h)
  notify h (some params) = notify_params h params (and_then (get_elem? params 0) j.as_str)

  -- `"mining.set_difficulty"`
  unfoldable pub set_difficulty : StratumHandler → Option j.Value → Handled
  set_difficulty h none = unchanged h
  set_difficulty h (some diff_value) =
      unchanged (record h { current_difficulty = some (j.to_string diff_value) })

  -- `"set_extranonce" | "mining.set_extranonce"`
  unfoldable pub extranonce_request : StratumHandler → Option (List j.Value) → Outcome Handled
  extranonce_request h params = do
    params' ← ok_or params (message "missing extranonce parameters")
    extranonce ← ok_or (and_then (get_elem? params' 0) j.as_str) (message "missing extranonce1")
    nonce_size ←
        ok_or (and_then (get_elem? params' 1) j.as_u64) (message "missing extranonce2 size")
    h' ← set_extranonce h extranonce (u32 nonce_size)
    ok (unchanged h')

  -- The extranonce in the answer to the subscription.
  abbrev pub extranonce_result : StratumHandler → Option Bytes → Option ℕ → Outcome Handled
  extranonce_result h (some extranonce) (some nonce_size) = do
    h' ← set_extranonce h extranonce (u32 nonce_size)
    ok (unchanged h')
  extranonce_result h (some extranonce) none = ok (unchanged h)
  extranonce_result h none nonce_size = ok (unchanged h)

  abbrev pub result_array : StratumHandler → Option (List j.Value) → Outcome Handled
  result_array h none = ok (unchanged h)
  result_array h (some result) =
      extranonce_result h (and_then (get_elem? result 1) j.as_str)
        (and_then (get_elem? result 2) j.as_u64)

  -- `value.get("error").is_some() && !value.get("error").unwrap().is_null()`
  abbrev pub is_error : Option j.Value → Bool
  is_error none = false
  is_error (some e) = not (j.is_null e)

  -- The lines without a method: errors and results.
  unfoldable pub handle_answer : StratumHandler → j.Value → Outcome Handled
  handle_answer h value =
      if is_error (j.get value (codes "error"))
      then ok (unchanged h)
      else result_array h (and_then (j.get value (codes "result")) j.as_array)

  unfoldable pub handle_method : StratumHandler → j.Value → Bytes → Outcome Handled
  handle_method h value method =
      let params = and_then (j.get value (codes "params")) j.as_array in
      if bytes_eq method (codes "mining.set_difficulty")
      then ok (set_difficulty h (and_then params (λ x. get_elem? x 0)))
      else if bytes_eq method (codes "set_extranonce")
          || bytes_eq method (codes "mining.set_extranonce")
      then extranonce_request h params
      else if bytes_eq method (codes "mining.notify")
      then notify h params
      else ok (unchanged h)

  abbrev pub handle_value : StratumHandler → j.Value → Option Bytes → Outcome Handled
  handle_value h value none = handle_answer h value
  handle_value h value (some method) = handle_method h value method

  unfoldable pub handle_line : StratumHandler → Bytes → Outcome Handled
  handle_line h line = do
    value ← ok_or (j.parse line) json
    handle_value h value (and_then (j.get value (codes "method")) j.as_str)

-- What `tokio::select!` of `listen` takes up: a command of the miner, `none` when its channel is
-- closed; or a line of the pool, an error of the connection, or its end.
pub data Event : Type 0 where
  command : Option StratumCommand → Event
  line : Bytes → Event
  line_error : Event
  end_of_lines : Event

pub data Status : Type 0 where
  running : Status
  finished : Status
  failed : Error → Status
  panicked : Status

-- The session: its handler, the jobs handed to the miner so far, and how the loop stands.
pub record Session : Type 0 where
  pub handler : StratumHandler
  pub jobs : List Job
  pub status : Status

abbrev pub push_job : List Job → Option Job → List Job
push_job jobs none = jobs
push_job jobs (some job) = jobs ++ job ∷ []

-- `?` of the loop, and the test of `shutdown` behind a round.
abbrev pub next_round : Session → Bool → Outcome Handled → Session
next_round s shutdown (ok r) = record {
  handler = r.handler;
  jobs = push_job s.jobs r.job;
  status = if shutdown then finished else running;
}
next_round s shutdown (err e) = record s { status = failed e }
next_round s shutdown panic = record s { status = panicked }

-- What a round takes up, and the state of `shutdown` behind it.
pub record Round : Type 0 where
  pub event : Event
  pub shutdown : Bool

module _ (j : Json) (n : BigUint) where
  abbrev pub take_up : Session → Event → Bool → Session
  take_up s (command none) shutdown = record s { status = finished }
  take_up s (command (some cmd)) shutdown =
      next_round s shutdown (send_command j s.handler cmd >>= λ h. ok (unchanged h))
  take_up s (line text) shutdown = next_round s shutdown (handle_line j n s.handler text)
  take_up s line_error shutdown = record s { status = failed external }
  take_up s end_of_lines shutdown = record s { status = finished }

  abbrev pub while_running : Status → Session → Session → Session
  while_running running s s' = s'
  while_running finished s s' = s
  while_running (failed e) s s' = s
  while_running panicked s s' = s

  -- One round of the loop of `listen`, with `shutdown.is_shutdown()` behind it.
  unfoldable pub listen_round : Session → Event → Bool → Session
  listen_round s event shutdown = while_running s.status s (take_up s event shutdown)

  unfoldable pub listen : Session → List Round → Session
  listen s [] = s
  listen s (r ∷ rounds) = listen (listen_round s r.event r.shutdown) rounds

module _ (j : Json) where
  -- `format!("{}/{}", version, suffix)`, or the version
  abbrev pub user_agent : Bytes → Option Bytes → Bytes
  user_agent version none = version
  user_agent version (some suffix) = version ++ b'/' ∷ suffix

  -- `connect`, once the connection stands: the handler, after the subscription and the authorization.
  unfoldable pub connect : Bytes → Bytes → Option Bytes → StratumHandler
  connect version mining_address suffix = record {
    writer = record {
      sent =
          j.request 1 (codes "mining.subscribe") (user_agent version suffix ∷ [])
          ∷ j.request 2 (codes "mining.authorize") (mining_address ∷ codes "x" ∷ [])
          ∷ [];
      connected = true;
    };
    worker_name = mining_address;
    request_id = 3;
    current_difficulty = none;
    nonce_mask = 2 ^ 64 - 1;
    nonce_fixed = 0;
  }

-- The state in which `listen` is entered.
abbrev pub started : StratumHandler → Session
started h = record { handler = h; jobs = []; status = running }
