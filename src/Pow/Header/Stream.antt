-- ===== src/Pow/Header/Stream.antt =====
-- The header is hashed as one stream of bytes: how the writer cuts it into pieces does not matter.
use velkar_gpu.Base.{
  ℕ, ◌+◌, ◌/◌, ◌^◌, ◌≡◌, ◌∙◌, refl, ap, Bool, false, List, [], ◌∷◌, ◌++◌, length, some, ltb,
  if◌then◌else◌, Bool-cases, inl, inr, Outcome, ok, err, panic, ◌>>=◌,
}
use velkar_gpu.Word.{Bytes, ℤ, cast_u64, pos, to_le_bytes}
use velkar_gpu.Target.{of_le_bytes}
use velkar_gpu.Text.{codes}
use velkar_gpu.Packages.{Blake2b}
use velkar_gpu.Pow.Hasher.{write, header_hasher, finalize}
use velkar_gpu.Pow.Header.{
  RpcBlock, RpcBlockHeader, RpcBlockLevelParents, decode_to_slice, unwrap_decoded, decode_blue_work,
  write_hash, write_hashes, write_parents, write_blue_work, write_scores, write_fields,
  serialize_header, block_hash,
}

-- The bytes that a header is written as, or a panic.
abbrev pub header_bytes : RpcBlockHeader → Bool → Outcome Bytes
header_bytes header for_pre_pow = serialize_header ◌++◌ [] header for_pre_pow

-- `write_fields` from behind the parents on, one step further each.
module _ {κ} {G : Type κ} (u : G → Bytes → G) (header : RpcBlockHeader) (nonce : ℕ)
    (timestamp : ℤ) where
  abbrev fields₅ : G → Outcome G
  fields₅ x = write_hash u x header.pruning_point

  abbrev fields₄ : G → Outcome G
  fields₄ x =
      write_blue_work u (write_scores u x header nonce timestamp) header.blue_work >>= fields₅

  abbrev fields₃ : G → Outcome G
  fields₃ x = write_hash u x header.utxo_commitment >>= fields₄

  abbrev fields₂ : G → Outcome G
  fields₂ x = write_hash u x header.accepted_id_merkle_root >>= fields₃

  abbrev fields₁ : G → Outcome G
  fields₁ x = write_hash u x header.hash_merkle_root >>= fields₂

module _ {ℓ} {H : Type ℓ} (update : H → Bytes → H)
    (update-update : (s : H) (a b : Bytes) → update (update s a) b ≡ update s (a ++ b))
    (s : H) where
  -- `s` fed with the bytes written so far.
  abbrev fed : Outcome Bytes → Outcome H
  fed m = m >>= λ bs. ok (update s bs)

  Follows : (H → Outcome H) → (Bytes → Outcome Bytes) → Type ℓ
  Follows f g = (acc : Bytes) → f (update s acc) ≡ fed (g acc)

  fed-then :
      (f : H → Outcome H) (g : Bytes → Outcome Bytes)
      → Follows f g
      → (m : Outcome Bytes) → (fed m >>= f) ≡ fed (m >>= g)
  unfolding Follows
  fed-then f g h (ok acc) = h acc
  fed-then f g h (err e) = refl
  fed-then f g h panic = refl

  Follows-then :
      (f f' : H → Outcome H) (g g' : Bytes → Outcome Bytes)
      → Follows f g
      → Follows f' g'
      → Follows (λ x. f x >>= f') (λ x. g x >>= g')
  unfolding Follows
  Follows-then f f' g g' h h' acc = ap (λ m. m >>= f') (h acc) ∙ fed-then f' g' h' (g acc)

  -- One more piece in front of a step.
  Follows-after :
      (f : H → Outcome H) (g : Bytes → Outcome Bytes) (piece : Bytes)
      → Follows f g
      → Follows (λ x. f (update x piece)) (λ x. g (x ++ piece))
  unfolding Follows
  Follows-after f g piece h acc = ap f (update-update s acc piece) ∙ h (acc ++ piece)

  write_bytes-Follows :
      (m : Outcome Bytes)
      → Follows (λ x. m >>= λ bs. ok (update x bs)) (λ x. m >>= λ bs. ok (x ++ bs))
  unfolding Follows
  write_bytes-Follows (ok bs) acc = ap ok (update-update s acc bs)
  write_bytes-Follows (err e) acc = refl
  write_bytes-Follows panic acc = refl

  write_hash-Follows : (t : Bytes) → Follows (λ x. write_hash update x t) (λ x. write_hash ◌++◌ x t)
  unfolding write_hash
  write_hash-Follows t = write_bytes-Follows (unwrap_decoded (decode_to_slice t 32))

  write_hashes-Follows :
      (ts : List Bytes) → Follows (λ x. write_hashes update x ts) (λ x. write_hashes ◌++◌ x ts)
  unfolding write_hashes Follows
  write_hashes-Follows [] acc = refl
  write_hashes-Follows (t ∷ ts) acc =
      Follows-then (λ x. write_hash update x t) (λ x. write_hashes update x ts)
        (λ x. write_hash ◌++◌ x t) (λ x. write_hashes ◌++◌ x ts) (write_hash-Follows t)
        (write_hashes-Follows ts) acc

  write_parents-Follows :
      (ps : List RpcBlockLevelParents)
      → Follows (λ x. write_parents update x ps) (λ x. write_parents ◌++◌ x ps)
  unfolding write_parents Follows
  write_parents-Follows [] acc = refl
  write_parents-Follows (p ∷ ps) acc =
      Follows-after (λ x. write_hashes update x p.parent_hashes >>= λ y. write_parents update y ps)
        (λ x. write_hashes ◌++◌ x p.parent_hashes >>= λ y. write_parents ◌++◌ y ps)
        (to_le_bytes 8 (length p.parent_hashes))
        (Follows-then (λ x. write_hashes update x p.parent_hashes) (λ x. write_parents update x ps)
          (λ x. write_hashes ◌++◌ x p.parent_hashes) (λ x. write_parents ◌++◌ x ps)
          (write_hashes-Follows p.parent_hashes) (write_parents-Follows ps))
        acc

  write_blue_work-Follows :
      (w : Bytes) → Follows (λ x. write_blue_work update x w) (λ x. write_blue_work ◌++◌ x w)
  unfolding write_blue_work
  write_blue_work-Follows w =
      Follows-after (λ x. decode_blue_work w >>= λ bs. ok (update x bs))
        (λ x. decode_blue_work w >>= λ bs. ok (x ++ bs)) (to_le_bytes 8 ((length w + 1) / 2))
        (write_bytes-Follows (decode_blue_work w))

  write_scores-Follows :
      (f : H → Outcome H) (g : Bytes → Outcome Bytes) (header : RpcBlockHeader) (nonce : ℕ)
      (timestamp : ℤ)
      → Follows f g
      → Follows
          (λ x. f (write_scores update x header nonce timestamp))
          (λ x. g (write_scores ◌++◌ x header nonce timestamp))
  unfolding write_scores
  write_scores-Follows f g header nonce timestamp h =
      let time = to_le_bytes 8 (cast_u64 timestamp) in
      let bits = to_le_bytes 4 header.bits in
      let nonce' = to_le_bytes 8 nonce in
      let daa = to_le_bytes 8 header.daa_score in
      let blue = to_le_bytes 8 header.blue_score in
      Follows-after (λ x. f (update (update (update (update x bits) nonce') daa) blue))
        (λ x. g ((((x ++ bits) ++ nonce') ++ daa) ++ blue)) time
        (Follows-after (λ x. f (update (update (update x nonce') daa) blue))
          (λ x. g (((x ++ nonce') ++ daa) ++ blue)) bits
          (Follows-after (λ x. f (update (update x daa) blue)) (λ x. g ((x ++ daa) ++ blue)) nonce'
            (Follows-after (λ x. f (update x blue)) (λ x. g (x ++ blue)) daa
              (Follows-after f g blue h))))

  write_fields-Follows :
      (header : RpcBlockHeader) (nonce : ℕ) (timestamp : ℤ)
      → Follows
          (λ x. write_fields update x header nonce timestamp)
          (λ x. write_fields ◌++◌ x header nonce timestamp)
  unfolding write_fields
  write_fields-Follows header nonce timestamp =
      Follows-after
        (λ x. write_parents update x header.parents >>= fields₁ update header nonce timestamp)
        (λ x. write_parents ◌++◌ x header.parents >>= fields₁ ◌++◌ header nonce timestamp)
        (to_le_bytes 8 (length header.parents))
        (Follows-then (λ x. write_parents update x header.parents)
          (fields₁ update header nonce timestamp) (λ x. write_parents ◌++◌ x header.parents)
          (fields₁ ◌++◌ header nonce timestamp) (write_parents-Follows header.parents)
          (Follows-then (λ x. write_hash update x header.hash_merkle_root)
            (fields₂ update header nonce timestamp) (λ x. write_hash ◌++◌ x header.hash_merkle_root)
            (fields₂ ◌++◌ header nonce timestamp) (write_hash-Follows header.hash_merkle_root)
            (Follows-then (λ x. write_hash update x header.accepted_id_merkle_root)
              (fields₃ update header nonce timestamp)
              (λ x. write_hash ◌++◌ x header.accepted_id_merkle_root)
              (fields₃ ◌++◌ header nonce timestamp)
              (write_hash-Follows header.accepted_id_merkle_root)
              (Follows-then (λ x. write_hash update x header.utxo_commitment)
                (fields₄ update header nonce timestamp)
                (λ x. write_hash ◌++◌ x header.utxo_commitment)
                (fields₄ ◌++◌ header nonce timestamp) (write_hash-Follows header.utxo_commitment)
                (Follows-then
                  (λ x.
                    write_blue_work update (write_scores update x header nonce timestamp)
                      header.blue_work)
                  (fields₅ update header nonce timestamp)
                  (λ x.
                    write_blue_work ◌++◌ (write_scores ◌++◌ x header nonce timestamp)
                      header.blue_work)
                  (fields₅ ◌++◌ header nonce timestamp)
                  (write_scores-Follows (λ x. write_blue_work update x header.blue_work)
                    (λ x. write_blue_work ◌++◌ x header.blue_work) header nonce timestamp
                    (write_blue_work-Follows header.blue_work))
                  (write_hash-Follows header.pruning_point))))))

  -- Writing a header to a hasher is to write its bytes to a buffer and feed them to the hasher at
  -- once, when two updates of the hasher are one with the bytes of both.
  pub serialize_header_stream :
      (header : RpcBlockHeader) (for_pre_pow : Bool)
      → serialize_header update s header for_pre_pow
        ≡ (header_bytes header for_pre_pow >>= λ bs. ok (update s bs))
  unfolding serialize_header Follows
  serialize_header_stream header for_pre_pow = elim (Bool-cases (ltb header.version (2 ^ 16))) [
    | inl fits ↦
        let nonce = if for_pre_pow then 0 else header.nonce in
        let timestamp = if for_pre_pow then pos 0 else header.timestamp in
        rw (fits, write_fields-Follows header nonce timestamp (to_le_bytes 2 header.version))
    | inr big ↦ rw big
  ]

module _ (b : Blake2b) where
  -- The hash of a block with a header is the keyed hash of the bytes of its header, with its
  -- nonce and timestamp, as one message.
  pub block_hash-header_bytes :
      {Body : Type 0} (block : RpcBlock Body) (header : RpcBlockHeader)
      → block.header ≡ some header
      → block_hash b block ≡ (
          header_bytes header false >>= λ bs.
          ok (some (of_le_bytes (b.finalize (b.update (b.to_state 32 (codes "BlockHash")) bs)))))
  unfolding block_hash write header_hasher finalize
  block_hash-header_bytes block header e =
      rw (e, serialize_header_stream (write b) b.update-update (header_hasher b) header false)
        (assoc (header_bytes header false))
    where
      assoc :
          (m : Outcome Bytes)
          → ((m >>= λ bs. ok (write b (header_hasher b) bs)) >>= λ h. ok (some (finalize b h))) ≡ (
              m >>= λ bs.
              ok
                (some (of_le_bytes (b.finalize (b.update (b.to_state 32 (codes "BlockHash")) bs)))))
      assoc (ok bs) = refl
      assoc (err e) = refl
      assoc panic = refl
