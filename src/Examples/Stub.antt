-- ===== src/Examples/Stub.antt =====
-- Instances of the packages that are simple enough to compute with.
use mathlib.Core.Option
use velkar_gpu.Base.{
  ℕ, zero, suc, ◌+◌, ◌-◌, ◌*◌, ◌/◌, ◌==◌, ==_iff, ◌^◌, ◌<◌, ◌≡◌, refl, ap, arith, Bool, true, false,
  [], ◌∷◌, ◌++◌, Option, none, some, replicate, length-replicate, All, ok,
}
use native.Mathlib.Nat.{pow-suc}
use velkar_gpu.Word.{
  to_le_bytes, from_le_bytes, from_le_bytes-to_le_bytes, to_le_bytes-IsByte, Bytes, IsByte, pos,
}
use velkar_gpu.Text.{codes, digits_value}
use velkar_gpu.Pow.Hasher.{finalize, write, header_hasher}
use velkar_gpu.Target.{of_le_bytes, Uint256, IsUint256, u256_from_compact_target}
use velkar_gpu.Packages.{Packages, Keccak, Blake2b, Argon2, Float, Json, BigUint}
use velkar_gpu.Pow.Xoshiro.{seed}
use velkar_gpu.Pow.Matrix.{Matrix, rand_matrix_no_rank_check, fill_rows}
use velkar_gpu.Pow.Rank.{compute_rank, sweep, sweep_column, find_pivot, select_row}
use velkar_gpu.Pow.Generate.{generate, drawn, generate-first}
use velkar_gpu.Pow.Header.{
  RpcBlockHeader, RpcBlock, serialize_header, write_fields, write_parents, write_hashes, write_hash,
  write_blue_work, decode_blue_work, decode_to_slice,
}
use velkar_gpu.Pow.State.{State, state_with, from_stratum, new}
use velkar_gpu.Pow.State.Work.{IsState}
use velkar_gpu.Pow.State.Job.{from_stratum-IsState, new-IsState}

-- A permutation that moves nothing.
abbrev pub still_keccak : Keccak
still_keccak = record { f1600 = λ s. s; length-f1600 = λ s h. h; f1600-IsU64 = λ s h w. w }

pub zeros-IsByte : (n : ℕ) → All IsByte (replicate n 0)
zeros-IsByte zero = tt
zeros-IsByte (suc n) = (omega arith, zeros-IsByte n)

pub append_assoc : (a b c : Bytes) → (a ++ b) ++ c ≡ a ++ (b ++ c)
append_assoc [] b c = refl
append_assoc (x ∷ a) b c = ap (λ t. x ∷ t) (append_assoc a b c)

-- The length of the output, and the message so far.
pub record Absorbed : Type 0 where
  pub output : ℕ
  pub absorbed : Bytes

abbrev pub zero_blake2b : Blake2b
zero_blake2b = record {
  State = Absorbed;
  to_state = λ n key. record { output = n; absorbed = key };
  update = λ s a. record s { absorbed = s.absorbed ++ a };
  finalize = λ s. replicate s.output 0;
  update-update = λ s a b. ap (λ t. record s { absorbed = t }) (append_assoc s.absorbed a b);
  output_length = λ s. s.output;
  output_length-to_state = λ n key. refl;
  output_length-update = λ s a. refl;
  length-finalize = λ s. length-replicate s.output 0;
  finalize-IsByte = λ s. zeros-IsByte s.output;
}

abbrev pub zero_argon2 : Argon2
zero_argon2 = record {
  hash_password = λ m t l n password salt. replicate n 0;
  fill_memory = λ m t l n password salt. ok [];
  length-hash_password = λ m t l n password salt. length-replicate n 0;
  hash_password-IsByte = λ m t l n password salt. zeros-IsByte n;
}

-- No number is near zero, so every matrix has rank 64.
abbrev pub far_float : Float
far_float = record {
  F = Bool;
  from_u16 = λ n. true;
  exceeds_eps = λ x. true;
  div = λ x y. x;
  mul = λ x y. x;
  sub = λ x y. x;
}

abbrev pub packages : Packages
packages = record {
  keccak = still_keccak;
  blake2b = zero_blake2b;
  argon2 = zero_argon2;
  float = far_float;
}

abbrev pub some_hash : Uint256
some_hash = record { w0 = 1; w1 = 2; w2 = 3; w3 = 4 }

pub some_rank : compute_rank far_float (drawn 0 (seed some_hash)).matrix ≡ 64
unfolding compute_rank sweep sweep_column find_pivot select_row rand_matrix_no_rank_check fill_rows
some_rank = refl

pub some_hash-IsUint256 : IsUint256 some_hash
some_hash-IsUint256 = omega arith

abbrev pub some_target : Uint256
some_target = record { w0 = 0; w1 = 0; w2 = 0; w3 = 2 ^ 63 }

pub some_target-IsUint256 : IsUint256 some_target
some_target-IsUint256 = omega arith

abbrev pub some_matrix : Matrix
some_matrix = (drawn 0 (seed some_hash)).matrix

pub some_matrix_drawn : generate far_float 1 some_hash ≡ some some_matrix
some_matrix_drawn =
    generate-first far_float 0 1 some_hash (omega arith) some_rank (λ k h. absurd (omega arith))

-- A digest of 32 zero bytes.
abbrev pub zero_digest : Bytes
zero_digest = codes "0000000000000000000000000000000000000000000000000000000000000000"

abbrev pub some_header : RpcBlockHeader
some_header = record {
  version = 1;
  parents = record { parent_hashes = zero_digest ∷ [] } ∷ [];
  hash_merkle_root = zero_digest;
  accepted_id_merkle_root = zero_digest;
  utxo_commitment = zero_digest;
  timestamp = pos 654654353;
  bits = 0x1e7fffff;
  nonce = 5;
  daa_score = 654456;
  blue_work = codes "d8e28a0323478";
  pruning_point = zero_digest;
  blue_score = 1164419;
}

abbrev pub some_block : RpcBlock ℕ
some_block = record { header = some some_header; body = 0 }

-- The state of a job of the pool.
abbrev pub some_job_state : State ℕ
some_job_state =
    state_with 0 (some (codes "job1")) some_hash 9 some_target some_target none (2 ^ 48 - 1)
      0xfe93000000000000 some_matrix

pub some_job_state_made :
    from_stratum packages 1 0
      (codes "job1")
      some_hash
      9
      some_target
      some_target
      (2 ^ 48 - 1)
      0xfe93000000000000
    ≡ some some_job_state
unfolding from_stratum
some_job_state_made =
    ap
      (Option.map (
        state_with 0 (some (codes "job1")) some_hash 9 some_target some_target none (2 ^ 48 - 1)
          0xfe93000000000000))
      some_matrix_drawn

pub some_job_state-IsState : IsState some_job_state
some_job_state-IsState =
    (from_stratum-IsState packages 1 0 (codes "job1") some_hash 9 some_target some_target
      (2 ^ 48 - 1) 0xfe93000000000000 some_job_state some_hash-IsUint256 (omega arith)
      some_target-IsUint256 some_target-IsUint256 some_job_state_made).0

-- Every number is near zero.
abbrev pub near_float : Float
near_float = record far_float { exceeds_eps = λ x. false }

abbrev pub zero_hash : Uint256
zero_hash = record { w0 = 0; w1 = 0; w2 = 0; w3 = 0 }

zero_rank : compute_rank far_float (drawn 0 (seed zero_hash)).matrix ≡ 64
unfolding compute_rank sweep sweep_column find_pivot select_row rand_matrix_no_rank_check fill_rows
zero_rank = refl

-- The state of the template of a node: the stub hashes every header to zero.
abbrev pub state_of_block : (id : ℕ) → State ℕ
state_of_block id =
    state_with id none zero_hash 654654353 (u256_from_compact_target 0x1e7fffff)
      (u256_from_compact_target 0x1e7fffff) (some some_block) (2 ^ 64 - 1) 0
      (drawn 0 (seed zero_hash)).matrix

pub state_of_block_made : (id : ℕ) → new packages 1 id some_block ≡ ok (some (state_of_block id))
unfolding new serialize_header write_fields write_parents write_hashes write_hash write_blue_work
    decode_blue_work decode_to_slice finalize of_le_bytes write header_hasher
state_of_block_made id =
    ap
      (λ m. ok (
        Option.map
          (state_with id none zero_hash 654654353 (u256_from_compact_target 0x1e7fffff)
            (u256_from_compact_target 0x1e7fffff) (some some_block) (2 ^ 64 - 1) 0)
          m))
      (generate-first far_float 0 1 zero_hash (omega arith) zero_rank (λ k h. absurd (omega arith)))

abbrev pub some_block_state : State ℕ
some_block_state = state_of_block 7

pub some_block_state_made : new packages 1 7 some_block ≡ ok (some some_block_state)
some_block_state_made = state_of_block_made 7

pub some_block_state-IsState : IsState some_block_state
some_block_state-IsState =
    (new-IsState packages 1 7 some_block some_header some_block_state refl some_block_state_made).0

-- A package that reads every line as an empty value.
abbrev pub silent_json : Json
silent_json = record {
  Value = Bool;
  parse = λ s. some true;
  get = λ v k. none;
  as_str = λ v. none;
  as_array = λ v. none;
  as_u64 = λ v. none;
  as_i64 = λ v. none;
  is_null = λ v. true;
  is_true = λ v. false;
  to_string = λ v. [];
  request = λ id method params. method;
}

below_power : (a : ℕ) → a < 256 ^ a
below_power zero = omega arith
below_power (suc a) = omega (arith, below_power a, pow-suc 256 a)

pub to_le_bytes-own : (a : ℕ) → from_le_bytes (to_le_bytes a a) ≡ a
to_le_bytes-own a = from_le_bytes-to_le_bytes a a (below_power a)

abbrev pub parse_nat : Bytes → ℕ → Option ℕ
parse_nat [] radix = none
parse_nat (c ∷ s) radix = digits_value radix (c ∷ s) 0

-- The natural numbers as big integers, with more bytes than are needed.
abbrev pub nat_big : BigUint
nat_big = record {
  Big = ℕ;
  from_u8 = λ n. n;
  pow = λ a k. a ^ k;
  add = λ a b. a + b;
  mul = λ a b. a * b;
  div = λ a b. a / b;
  eq = λ a b. a == b;
  parse_bytes = parse_nat;
  to_bytes_le = λ a. to_le_bytes a a;
  to_nat = λ a. a;
  to_nat-from_u8 = λ n h. refl;
  to_nat-pow = λ a k. refl;
  to_nat-add = λ a b. refl;
  to_nat-mul = λ a b. refl;
  to_nat-div = λ a b h. refl;
  eq-true = λ a b. ==_iff a b;
  parse_bytes-digits = λ c s radix v h. (v, h, refl);
  to_bytes_le-IsByte = λ a. to_le_bytes-IsByte a a;
  from_le_bytes-to_bytes_le = λ a. to_le_bytes-own a;
}
