-- ===== src/Pow/Header.antt =====
-- `serialize_header` and `decode_to_slice` of src/pow.rs, `RpcBlock` and its header of
-- proto/rpc.proto as the code sees them, and `block_hash` of src/velkard_messages.rs.
pub mod Hex
pub mod Stream
use velkar_gpu.Base.{
  ℕ, zero, suc, ◌+◌, ◌-◌, ◌*◌, ◌/◌, ◌%◌, ◌^◌, Bool, true, false, ◌&&◌, List, [], ◌∷◌, length,
  Option, none, some, bit_or, ltb, leb, ◌==◌, if◌then◌else◌, Outcome, ok, err, panic, ◌>>=◌, ◌>>◌,
}
use velkar_gpu.Word.{Bytes, u8, ℤ, pos, cast_u64, to_le_bytes}
use velkar_gpu.Target.{Uint256}
use velkar_gpu.Packages.{Blake2b}
use velkar_gpu.Pow.Hasher

pub record RpcBlockLevelParents : Type 0 where
  pub parent_hashes : List Bytes

pub record RpcBlockHeader : Type 0 where
  pub version : ℕ
  pub parents : List RpcBlockLevelParents
  pub hash_merkle_root : Bytes
  pub accepted_id_merkle_root : Bytes
  pub utxo_commitment : Bytes
  pub timestamp : ℤ
  pub bits : ℕ
  pub nonce : ℕ
  pub daa_score : ℕ
  pub blue_work : Bytes
  pub pruning_point : Bytes
  pub blue_score : ℕ

-- A block over a type for its transactions and verbose data, which the miner only passes on.
pub record RpcBlock (Body : Type 0) : Type 0 where
  pub header : Option RpcBlockHeader
  pub body : Body

pub data FromHexError : Type 0 where
  odd_length : FromHexError
  invalid_string_length : FromHexError
  invalid_hex_character : (c index : ℕ) → FromHexError

-- `Result<_, FromHexError>`
pub data Decoded (A : Type 0) : Type 0 where
  decoded : A → Decoded A
  failed : FromHexError → Decoded A

-- `val`
abbrev pub val : ℕ → ℕ → Decoded ℕ
val c idx =
    if leb b'A' c && leb c b'F'
    then decoded (c - b'A' + 10)
    else if leb b'a' c && leb c b'f'
    then decoded (c - b'a' + 10)
    else if leb b'0' c && leb c b'9'
    then decoded (c - b'0')
    else failed (invalid_hex_character c idx)

-- `val(hi)? << 4 | val(lo)?` before the bytes behind it.
abbrev join_digits : Decoded ℕ → Decoded ℕ → Decoded Bytes → Decoded Bytes
join_digits (failed e) low rest = failed e
join_digits (decoded h) (failed e) rest = failed e
join_digits (decoded h) (decoded l) (failed e) = failed e
join_digits (decoded h) (decoded l) (decoded bs) = decoded (bit_or (u8 (h * 2 ^ 4)) l ∷ bs)

-- The loop of `decode_to_slice` from index `i` on.
unfoldable pub decode_digits : ℕ → Bytes → Decoded Bytes
decode_digits i [] = decoded []
decode_digits i (a ∷ []) = decoded []
decode_digits i (a ∷ b ∷ s) = join_digits (val a i) (val b (i + 1)) (decode_digits (i + 2) s)

-- `decode_to_slice`, with the length of `out` and its contents as the result.
unfoldable pub decode_to_slice : Bytes → ℕ → Decoded Bytes
unfolding decode_digits
decode_to_slice data' out_len =
    if length data' % 2 == 1
    then failed odd_length
    else if length data' / 2 == out_len
    then decode_digits 0 data'
    else failed invalid_string_length

-- `.unwrap()` of a decoding
abbrev pub unwrap_decoded : Decoded Bytes → Outcome Bytes
unwrap_decoded (decoded bs) = ok bs
unwrap_decoded (failed e) = panic

-- The digits of the blue work, an even number of them.
abbrev pub padded_blue_work : Bytes → Bytes
padded_blue_work work = if length work % 2 == 0 then work else b'0' ∷ work

-- `decode_to_slice(.., &mut hash[..blue_work_len]).unwrap()`; `hash` has 32 bytes.
unfoldable pub decode_blue_work : Bytes → Outcome Bytes
decode_blue_work work =
    let blue_work_len = (length work + 1) / 2 in
    if leb blue_work_len 32
    then unwrap_decoded (decode_to_slice (padded_blue_work work) blue_work_len)
    else panic

-- A hasher is a state and its `update`.
module _ {ℓ} {H : Type ℓ} (update : H → Bytes → H) where
  -- `decode_to_slice(s, &mut hash).unwrap(); hasher.update(hash)`
  unfoldable pub write_hash : H → Bytes → Outcome H
  write_hash hasher s = do hash ← unwrap_decoded (decode_to_slice s 32); ok (update hasher hash)

  unfoldable pub write_hashes : H → List Bytes → Outcome H
  write_hashes hasher [] = ok hasher
  write_hashes hasher (s ∷ ss) = do hasher' ← write_hash hasher s; write_hashes hasher' ss

  unfoldable pub write_parents : H → List RpcBlockLevelParents → Outcome H
  write_parents hasher [] = ok hasher
  write_parents hasher (p ∷ ps) = do
    hasher' ← write_hashes (update hasher (to_le_bytes 8 (length p.parent_hashes))) p.parent_hashes
    write_parents hasher' ps

  unfoldable pub write_blue_work : H → Bytes → Outcome H
  write_blue_work hasher work = do
    bytes ← decode_blue_work work
    ok (update (update hasher (to_le_bytes 8 ((length work + 1) / 2))) bytes)

  -- Timestamp, bits, nonce and scores.
  unfoldable pub write_scores : H → RpcBlockHeader → ℕ → ℤ → H
  write_scores hasher header nonce timestamp =
      let h₁ = update hasher (to_le_bytes 8 (cast_u64 timestamp)) in
      let h₂ = update h₁ (to_le_bytes 4 header.bits) in
      let h₃ = update h₂ (to_le_bytes 8 nonce) in
      let h₄ = update h₃ (to_le_bytes 8 header.daa_score) in
      update h₄ (to_le_bytes 8 header.blue_score)

  -- What follows the version, which a `u16` holds.
  unfoldable pub write_fields : H → RpcBlockHeader → ℕ → ℤ → Outcome H
  unfolding write_scores
  write_fields hasher header nonce timestamp = do
    h₁ ← write_parents (update hasher (to_le_bytes 8 (length header.parents))) header.parents
    h₂ ← write_hash h₁ header.hash_merkle_root
    h₃ ← write_hash h₂ header.accepted_id_merkle_root
    h₄ ← write_hash h₃ header.utxo_commitment
    h₅ ← write_blue_work (write_scores h₄ header nonce timestamp) header.blue_work
    write_hash h₅ header.pruning_point

  unfoldable pub serialize_header : H → RpcBlockHeader → Bool → Outcome H
  serialize_header hasher header for_pre_pow =
      let nonce = if for_pre_pow then 0 else header.nonce in
      let timestamp = if for_pre_pow then pos 0 else header.timestamp in
      if ltb header.version (2 ^ 16)
      then write_fields (update hasher (to_le_bytes 2 header.version)) header nonce timestamp
      else panic

module _ (b : Blake2b) where
  -- `RpcBlock::block_hash`
  unfoldable pub block_hash : {Body : Type 0} → RpcBlock Body → Outcome (Option Uint256)
  block_hash block = elim block.header [
    | none ↦ ok none
    | some header ↦ do
      hasher ← serialize_header (Hasher.write b) (Hasher.header_hasher b) header false
      ok (some (Hasher.finalize b hasher))
  ]
