-- ===== src/Pow/State.antt =====
-- `State` of src/pow.rs: a job being mined, its proof of work for a nonce, and the block it yields.
pub mod Work
pub mod Job
use mathlib.Core.Option
use velkar_gpu.Base.{
  ℕ, zero, suc, ◌+◌, ◌-◌, ◌*◌, ◌^◌, Bool, true, false, not, List, [], ◌∷◌, ◌++◌, replicate, Option,
  none, some, bit_and, bit_or, bit_xor, if◌then◌else◌, Outcome, ok, err, panic, ◌>>=◌, ◌>>◌, ok_or,
  Error, message, expect,
}
use velkar_gpu.Word.{Bytes, cast_u64, to_le_bytes, rotate_left, rotate_right}
use velkar_gpu.Text.{codes}
use velkar_gpu.Target.{Uint256, le_bytes, of_le_bytes, le, u256_from_compact_target}
use velkar_gpu.Packages.{Packages, Blake2b}
use velkar_gpu.Pow.Hasher.{
  PowHasher, finalize_with_nonce, heavy_hasher, memory_hard_hash, header_hasher, write, finalize,
}
use velkar_gpu.Pow.Hasher
use velkar_gpu.Pow.Matrix.{Matrix, heavy_hash, as_u8_bytes, as_u16_le_bytes}
use velkar_gpu.Pow.Generate.{generate}
use velkar_gpu.Pow.Header.{RpcBlock, RpcBlockHeader, serialize_header}

pub record State (Body : Type 0) : Type 0 where
  pub id : ℕ
  pub job_id : Option Bytes
  pub matrix : Matrix
  pub nonce : ℕ
  pub block_target : Uint256
  pub share_target : Uint256
  pub block : Option (RpcBlock Body)
  pub pre_pow_hash : Uint256
  pub timestamp : ℕ
  pub nonce_mask : ℕ
  pub nonce_fixed : ℕ
  pub hasher : PowHasher

pub data PowMatch : Type 0 where
  no_match : PowMatch
  share_match : PowMatch
  block_match : PowMatch

-- `!= PowMatch::None`
abbrev pub is_match : PowMatch → Bool
is_match no_match = false
is_match share_match = true
is_match block_match = true

-- The words of `stage5` mixed with one word of each stage and with the nonce.
unfoldable pub mix_words : Uint256 → Uint256 → Uint256 → Uint256 → Uint256 → ℕ → Uint256
mix_words stage1 stage2 stage3 stage4 stage5 nonce = record {
  w0 = bit_xor stage5.w0 (rotate_left stage1.w0 17);
  w1 = bit_xor stage5.w1 (rotate_right stage2.w1 11);
  w2 = bit_xor stage5.w2 (rotate_left stage3.w2 7);
  w3 = bit_xor stage5.w3 (bit_xor (rotate_left stage4.w3 13) (rotate_left nonce 13));
}

module _ {Body : Type 0} where
  -- `from_components`, with the matrix that `Matrix::generate` returned.
  abbrev pub state_with :
      ℕ
      → Option Bytes
      → Uint256
      → ℕ
      → Uint256
      → Uint256
      → Option (RpcBlock Body)
      → ℕ
      → ℕ
      → Matrix
      → State Body
  state_with id job_id pre_pow_hash timestamp block_target share_target block nonce_mask nonce_fixed
        matrix =
      record {
        id = id;
        job_id = job_id;
        matrix = matrix;
        nonce = 0;
        block_target = block_target;
        share_target = share_target;
        block = block;
        pre_pow_hash = pre_pow_hash;
        timestamp = timestamp;
        nonce_mask = nonce_mask;
        nonce_fixed = nonce_fixed;
        hasher = Hasher.new pre_pow_hash timestamp;
      }

  unfoldable pub apply_extranonce : State Body → ℕ → ℕ
  apply_extranonce s nonce = bit_or (bit_and nonce s.nonce_mask) s.nonce_fixed

  unfoldable pub gpu_pow_state : State Body → List ℕ
  gpu_pow_state s = s.hasher.words

  unfoldable pub gpu_matrix_bytes : State Body → Bytes
  gpu_matrix_bytes s = as_u8_bytes s.matrix

  unfoldable pub gpu_matrix_u16_le_bytes : State Body → Bytes
  gpu_matrix_u16_le_bytes s = as_u16_le_bytes s.matrix

  -- `gpu_hash_header`: 72 bytes, the last 32 of them zero.
  unfoldable pub gpu_hash_header : State Body → Bytes
  gpu_hash_header s = le_bytes s.pre_pow_hash ++ (to_le_bytes 8 s.timestamp ++ replicate 32 0)

  -- The comparisons of `pow_match`.
  abbrev pub match_targets : State Body → Uint256 → PowMatch
  match_targets s pow =
      if le pow s.block_target
      then block_match
      else if le pow s.share_target
      then share_match
      else no_match

  -- The closure of `then`: the block template with a nonce, two `expect`s on the way.
  abbrev pub filled_template : State Body → ℕ → Outcome (Option (RpcBlock Body))
  filled_template s nonce = do
    template ← expect s.block
    header ← expect template.header
    ok (some (record template { header = some (record header { nonce = nonce }) }))

  abbrev pub block_if :
      PowMatch → Outcome (Option (RpcBlock Body)) → Outcome (Option (RpcBlock Body))
  block_if block_match filled = filled
  block_if share_match filled = ok none
  block_if no_match filled = ok none

module _ (p : Packages) {Body : Type 0} where
  -- `none` where `fuel` draws give no matrix of rank 64.
  unfoldable pub from_components :
      (fuel : ℕ)
      → ℕ
      → Option Bytes
      → Uint256
      → ℕ
      → Uint256
      → Uint256
      → Option (RpcBlock Body)
      → ℕ
      → ℕ
      → Option (State Body)
  from_components fuel id job_id pre_pow_hash timestamp block_target share_target block nonce_mask
        nonce_fixed =
      Option.map
        (state_with id job_id pre_pow_hash timestamp block_target share_target block nonce_mask
          nonce_fixed)
        (generate p.float fuel pre_pow_hash)

  unfoldable pub from_stratum :
      (fuel : ℕ) → ℕ → Bytes → Uint256 → ℕ → Uint256 → Uint256 → ℕ → ℕ → Option (State Body)
  unfolding from_components
  from_stratum fuel id job_id pre_pow_hash timestamp block_target share_target nonce_mask
        nonce_fixed =
      from_components fuel id (some job_id) pre_pow_hash timestamp block_target share_target none
        nonce_mask nonce_fixed

  -- `State::new`
  unfoldable pub new : (fuel : ℕ) → ℕ → RpcBlock Body → Outcome (Option (State Body))
  unfolding from_components
  new fuel id block = do
    header ← ok_or block.header (message "Header is missing")
    let target = u256_from_compact_target header.bits
    hasher ← serialize_header (write p.blake2b) (header_hasher p.blake2b) header true
    let pre_pow_hash = finalize p.blake2b hasher
    ok (
        from_components fuel id none pre_pow_hash (cast_u64 header.timestamp) target target
          (some block) (2 ^ 64 - 1) 0)

  unfoldable pub stage1_for_nonce : State Body → ℕ → Uint256
  stage1_for_nonce s nonce = finalize_with_nonce p.keccak s.hasher nonce

  unfoldable pub stage2_for_stage1 : State Body → Uint256 → Uint256
  stage2_for_stage1 s stage1 = heavy_hash p.keccak s.matrix stage1

  unfoldable pub stage3_for_stage2 : State Body → Uint256 → Uint256
  stage3_for_stage2 s stage2 = heavy_hasher p.keccak stage2

  unfoldable pub cpu_stage4_from_parts : State Body → Uint256 → Uint256 → ℕ → Uint256
  cpu_stage4_from_parts s stage1 stage3 nonce =
      memory_hard_hash p.argon2 stage3 stage1 nonce s.block_target

  -- The keyed hash `stage5`.
  unfoldable pub final_hash : State Body → Uint256 → ℕ → Uint256
  final_hash s stage4 nonce =
      let s₀ = p.blake2b.to_state 32 (codes "ProofOfWorkHash") in
      let s₁ = p.blake2b.update s₀ (le_bytes stage4) in
      let s₂ = p.blake2b.update s₁ (to_le_bytes 8 nonce) in
      let s₃ = p.blake2b.update s₂ (le_bytes s.block_target) in of_le_bytes (p.blake2b.finalize s₃)

  unfoldable pub calculate_pow_from_gpu_stage4 :
      State Body → Uint256 → Uint256 → Uint256 → Uint256 → ℕ → Uint256
  calculate_pow_from_gpu_stage4 s stage1 stage2 stage3 stage4 nonce =
      let final₀ = p.blake2b.to_state 32 (codes "ProofOfWorkHash") in
      let final₁ = p.blake2b.update final₀ (le_bytes stage4) in
      let final₂ = p.blake2b.update final₁ (to_le_bytes 8 nonce) in
      let final₃ = p.blake2b.update final₂ (le_bytes s.block_target) in
      let stage5 = of_le_bytes (p.blake2b.finalize final₃) in
      record {
        w0 = bit_xor stage5.w0 (rotate_left stage1.w0 17);
        w1 = bit_xor stage5.w1 (rotate_right stage2.w1 11);
        w2 = bit_xor stage5.w2 (rotate_left stage3.w2 7);
        w3 = bit_xor stage5.w3 (bit_xor (rotate_left stage4.w3 13) (rotate_left nonce 13));
      }

  unfoldable pub calculate_pow_from_parts : State Body → Uint256 → Uint256 → Uint256 → ℕ → Uint256
  calculate_pow_from_parts s stage1 stage2 stage3 nonce =
      let stage4 = memory_hard_hash p.argon2 stage3 stage1 nonce s.block_target in
      let final₀ = p.blake2b.to_state 32 (codes "ProofOfWorkHash") in
      let final₁ = p.blake2b.update final₀ (le_bytes stage4) in
      let final₂ = p.blake2b.update final₁ (to_le_bytes 8 nonce) in
      let final₃ = p.blake2b.update final₂ (le_bytes s.block_target) in
      let stage5 = of_le_bytes (p.blake2b.finalize final₃) in
      record {
        w0 = bit_xor stage5.w0 (rotate_left stage1.w0 17);
        w1 = bit_xor stage5.w1 (rotate_right stage2.w1 11);
        w2 = bit_xor stage5.w2 (rotate_left stage3.w2 7);
        w3 = bit_xor stage5.w3 (bit_xor (rotate_left stage4.w3 13) (rotate_left nonce 13));
      }

  unfoldable pub calculate_pow : State Body → Uint256
  unfolding final_hash mix_words
  calculate_pow s =
      let stage1 = finalize_with_nonce p.keccak s.hasher s.nonce in
      let stage2 = heavy_hash p.keccak s.matrix stage1 in
      let stage3 = heavy_hasher p.keccak stage2 in
      let stage4 = memory_hard_hash p.argon2 stage3 stage1 s.nonce s.block_target in
      mix_words stage1 stage2 stage3 stage4 (final_hash s stage4 s.nonce) s.nonce

  unfoldable pub pow_match_from_parts : State Body → Uint256 → Uint256 → Uint256 → ℕ → PowMatch
  pow_match_from_parts s stage1 stage2 stage3 nonce =
      match_targets s (calculate_pow_from_parts s stage1 stage2 stage3 nonce)

  unfoldable pub pow_match : State Body → PowMatch
  pow_match s = match_targets s (calculate_pow s)

  unfoldable pub check_pow : State Body → Bool
  check_pow s = is_match (pow_match s)

  unfoldable pub generate_block_if_pow_from_parts :
      State Body → Uint256 → Uint256 → Uint256 → ℕ → Outcome (Option (RpcBlock Body))
  generate_block_if_pow_from_parts s stage1 stage2 stage3 nonce =
      block_if (pow_match_from_parts s stage1 stage2 stage3 nonce) (filled_template s nonce)

  unfoldable pub generate_block_if_pow : State Body → Outcome (Option (RpcBlock Body))
  generate_block_if_pow s = block_if (pow_match s) (filled_template s s.nonce)
