-- ===== src/Stratum.antt =====
-- src/stratum.rs: the pool's lines, the extranonce and the jobs they hand to the miner. A channel is
-- the list of lines sent on it and whether its receiver lives.
pub mod Extranonce
pub mod Lines
pub mod Keeps
pub mod Session
use mathlib.Core.List.{reverse}
use mathlib.Core.Option
use velkar_gpu.Base.{
  ℕ, zero, suc, ◌+◌, ◌-◌, ◌*◌, ◌/◌, ◌%◌, ◌^◌, Bool, true, false, not, ◌&&◌, ◌||◌, List, [], ◌∷◌,
  ◌++◌, Option, none, some, length, get_elem?, replicate, ltb, leb, ◌==◌, if◌then◌else◌, Outcome,
  ok, err, panic, ◌>>=◌, ◌>>◌, ok_or, Error, message, parse_int, json, external,
}
use velkar_gpu.Base.Chain.{unwrap_or}
use velkar_gpu.Word.{Bytes, ℤ, cast_u64, u32, u64, ◌<<<◌, to_le_bytes}
use velkar_gpu.Text.{
  codes, trim, strip_prefix, trim_start_matches, slice, count_chars, bytes_eq, from_str_radix16,
}
use velkar_gpu.Target.{Uint256, of_le_bytes}
use velkar_gpu.Target.Difficulty.{u256_from_stratum_difficulty_str}
use velkar_gpu.Packages.{BigUint, Json}

pub record Channel : Type 0 where
  pub sent : List Bytes
  pub connected : Bool

-- `Sender::send`, which fails once the receiver is gone.
abbrev pub send : Channel → Bytes → Outcome Channel
send c line = if c.connected then ok (record c { sent = c.sent ++ line ∷ [] }) else err external

pub data StratumCommand : Type 0 where
  submit_share : (job_id nonce : Bytes) → StratumCommand

pub record StratumHandler : Type 0 where
  pub writer : Channel
  pub worker_name : Bytes
  pub request_id : ℕ
  pub current_difficulty : Option Bytes
  pub nonce_mask : ℕ
  pub nonce_fixed : ℕ

-- The job that `process_job` of a `StratumJobSink` is called with.
pub record Job : Type 0 where
  pub job_id : Bytes
  pub pre_pow_hash : Uint256
  pub timestamp : ℕ
  pub block_target : Uint256
  pub share_target : Uint256
  pub nonce_mask : ℕ
  pub nonce_fixed : ℕ

-- `fixed_bits` of an extranonce, in `u32`
abbrev pub fixed_bits : Bytes → ℕ
fixed_bits extranonce = u32 (u32 (length extranonce) * 4)

-- `if extranonce.is_empty() { 0 } else { u64::from_str_radix(extranonce, 16)? }`
abbrev pub parse_fixed : Bytes → Outcome ℕ
parse_fixed [] = ok 0
parse_fixed (c ∷ s) = ok_or (from_str_radix16 (2 ^ 64) (c ∷ s)) parse_int

-- `set_extranonce` from the parse of the digits on; `<<` takes its count modulo 64.
abbrev pub configure : StratumHandler → ℕ → ℕ → ℕ → Outcome StratumHandler
configure h free_bits fixed_bits fixed =
    if ltb 64 (u32 (fixed_bits + free_bits))
    then err (message "extranonce1 and extranonce2 exceed the 64-bit Velkar nonce")
    else ok (record h {
      nonce_mask = if free_bits == 64 then 2 ^ 64 - 1 else (1 <<< free_bits) - 1;
      nonce_fixed = fixed <<< free_bits;
    })

unfoldable pub set_extranonce : StratumHandler → Bytes → ℕ → Outcome StratumHandler
set_extranonce h extranonce nonce_size =
    if leb (2 ^ 32) (nonce_size * 8)
    then err (message "invalid extranonce2 size")
    else if ltb 64 (nonce_size * 8)
    then err (message "extranonce2 is larger than the 64-bit Velkar nonce")
    else let digits = trim_start_matches (codes "0x") extranonce in
      parse_fixed digits >>= configure h (nonce_size * 8) (fixed_bits digits)

-- `*byte = parse.ok()?` before the bytes behind it.
abbrev push_byte : Option ℕ → Outcome (Option Bytes) → Outcome (Option Bytes)
push_byte none rest = ok none
push_byte (some b) rest = rest >>= λ bs. ok (Option.map (λ t. b ∷ t) bs)

-- Pairs of digits from the pair `i` on, `left` of them.
unfoldable pub parse_pairs : ℕ → ℕ → Bytes → Outcome (Option Bytes)
parse_pairs zero i s = ok (some [])
parse_pairs (suc left) i s = do
  pair ← slice s (2 * i) (2 * i + 2)
  push_byte (from_str_radix16 256 pair) (parse_pairs left (i + 1) s)

-- `format!("{hex:0>64}")`
abbrev pub pad_zeros : Bytes → Bytes
pad_zeros hex = replicate (64 - count_chars hex) b'0' ++ hex

-- `parse_target_hex` of a text.
unfoldable pub parse_target_text : Bytes → Outcome (Option Uint256)
unfolding parse_pairs
parse_target_text value =
    let text = trim value in
    let hex = unwrap_or (strip_prefix (codes "0x") text) text in
    if length hex == 0 || ltb 64 (length hex) then ok none else do
      pairs ← parse_pairs 32 0 (pad_zeros hex)
      ok (Option.map (λ bs. of_le_bytes (reverse bs)) pairs)

-- The hash and the timestamp of a large job.
pub record LargeJob : Type 0 where
  pub hash : Uint256
  pub ts : ℕ

-- `&large_job[..64]` and `&large_job[64..80]`, read as digits.
unfoldable pub parse_large_job : Bytes → Outcome LargeJob
unfolding parse_pairs
parse_large_job large_job = do
  hash_hex ← slice large_job 0 64
  ts_hex ← slice large_job 64 80
  pairs ← parse_pairs 32 0 hash_hex
  bytes ← ok_or pairs parse_int
  ts ← ok_or (from_str_radix16 (2 ^ 64) ts_hex) parse_int
  ok (record { hash = of_le_bytes bytes; ts = ts })

-- `next_id` and `send_command`
abbrev pub next_id : StratumHandler → StratumHandler
next_id h = record h { request_id = u64 (h.request_id + 1) }

unfoldable pub send_command : Json → StratumHandler → StratumCommand → Outcome StratumHandler
send_command j h (submit_share job_id nonce) = do
  let line = j.request h.request_id (codes "mining.submit") (h.worker_name ∷ job_id ∷ nonce ∷ [])
  writer ← send h.writer line
  ok (record (next_id h) { writer = writer })
