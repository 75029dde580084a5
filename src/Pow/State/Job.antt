-- ===== src/Pow/State/Job.antt =====
-- What `State::new` and `State::from_stratum` establish, and the block that a state yields.
use mathlib.Core.Option
use mathlib.Core.Option.{some-injective}
use velkar_gpu.Base.{
  ok-injective, ℕ, ◌-◌, ◌^◌, ◌≤◌, ◌≡◌, ◌∙◌, refl, sym, ap, subst, Bool, true, false, Option, none,
  some, leb, if◌then◌else◌, Bool-cases, inl, inr, ◌↔◌, Outcome, ok, ◌>>=◌, ok_or, message,
  >>=-eq-ok, le→leb, leb→le,
}
use velkar_gpu.Word.{Bytes, IsU64, cast_u64, cast_u64-lt}
use velkar_gpu.Target.{Uint256, IsUint256, le, u256_from_compact_target}
use velkar_gpu.Target.{of_le_bytes}
use velkar_gpu.Target.Octets.{of_le_bytes-IsUint256}
use velkar_gpu.Target.Compact.{u256_from_compact_target-IsUint256}
use velkar_gpu.Text.{codes}
use velkar_gpu.Pow.Header.Stream.{header_bytes, serialize_header_stream}
use velkar_gpu.Target.Value.{value, le-value}
use velkar_gpu.Packages.{Packages}
use velkar_gpu.Pow.Hasher.{header_hasher, write, finalize}
use velkar_gpu.Pow.Rank.{compute_rank}
use velkar_gpu.Pow.Generate.{generate, generate_sound}
use velkar_gpu.Pow.Header.{RpcBlock, RpcBlockHeader, serialize_header}
use velkar_gpu.Pow.Stages.{new-IsKeccakState}
use velkar_gpu.Pow.State.{
  State, no_match, share_match, state_with, from_components, from_stratum, new, calculate_pow,
  pow_match, generate_block_if_pow, filled_template, block_if, match_targets,
}
use velkar_gpu.Pow.State.Work.{IsState, calculate_pow-IsUint256}

Option-map-eq-some :
    {A B : Type 0} (f : A → B) (o : Option A) {b : B}
    → Option.map f o ≡ some b
    → (a : A) × (o ≡ some a) × (f a ≡ b)
Option-map-eq-some f none e = cc
Option-map-eq-some f (some a) e = (a, refl, some-injective _ _ e)

module _ (p : Packages) where
  header_hash-IsUint256 :
      (header : RpcBlockHeader) (hasher : p.blake2b.State)
      → serialize_header (write p.blake2b) (header_hasher p.blake2b) header true ≡ ok hasher
      → IsUint256 (finalize p.blake2b hasher)
  unfolding finalize header_hasher write
  header_hash-IsUint256 header hasher e =
      let b = p.blake2b in
      let fed =
        >>=-eq-ok (header_bytes header true)
          (λ bs. ok (b.update (b.to_state 32 (codes "BlockHash")) bs))
          (sym (
              serialize_header_stream b.update b.update-update (b.to_state 32 (codes "BlockHash"))
                header true)
            ∙ e) in
      let start = b.to_state 32 (codes "BlockHash") in
      subst (λ t. IsUint256 (of_le_bytes (b.finalize t))) (ok-injective fed.2)
        (of_le_bytes-IsUint256 (b.finalize (b.update start fed.0))
          (b.length-finalize _ ∙ b.output_length-update start fed.0 ∙ b.output_length-to_state 32 _)
          (b.finalize-IsByte _))

module _ (p : Packages) {Body : Type 0} where
  -- A job of the pool with 256-bit hash and targets and a 64-bit timestamp, when it becomes a
  -- state, is ready to mine: its matrix has rank 64, it starts at nonce 0, has no block, and
  -- keeps the targets and the extranonce of the job.
  pub from_stratum-IsState :
      (fuel id : ℕ) (job_id : Bytes) (hash : Uint256) (timestamp : ℕ)
      (block_target share_target : Uint256) (mask fixed : ℕ) (s : State Body)
      → IsUint256 hash
      → IsU64 timestamp
      → IsUint256 block_target
      → IsUint256 share_target
      → from_stratum p fuel id job_id hash timestamp block_target share_target mask fixed ≡ some s
      → IsState s
        × (compute_rank p.float s.matrix ≡ 64)
        × (s.nonce ≡ 0)
        × (s.block ≡ none)
        × (s.job_id ≡ some job_id)
        × (s.nonce_mask ≡ mask)
        × (s.nonce_fixed ≡ fixed)
        × (s.block_target ≡ block_target)
        × (s.share_target ≡ share_target)
  unfolding from_stratum
  from_stratum-IsState fuel id job_id hash timestamp bt st mask fixed s hh ht hb hs e =
      let made = Option-map-eq-some _ (generate p.float fuel hash) e in
      let sound = generate_sound p.float fuel hash made.0 made.1 in
      subst
        (λ t.
          IsState t
          × (compute_rank p.float t.matrix ≡ 64)
          × (t.nonce ≡ 0)
          × (t.block ≡ none)
          × (t.job_id ≡ some job_id)
          × (t.nonce_mask ≡ mask)
          × (t.nonce_fixed ≡ fixed)
          × (t.block_target ≡ bt)
          × (t.share_target ≡ st))
        made.2
        (
          (new-IsKeccakState hash timestamp hh ht, sound.1, hb, hs),
          sound.0,
          refl,
          refl,
          refl,
          refl,
          refl,
          refl,
          refl,
        )

  -- The template of a node with a header, when it becomes a state, is ready to mine: its matrix
  -- has rank 64, it keeps the template, both targets are the one of the compact bits, and the
  -- nonce is free.
  pub new-IsState :
      (fuel id : ℕ) (block : RpcBlock Body) (header : RpcBlockHeader) (s : State Body)
      → block.header ≡ some header
      → new p fuel id block ≡ ok (some s)
      → IsState s
        × (compute_rank p.float s.matrix ≡ 64)
        × (s.nonce ≡ 0)
        × (s.block ≡ some block)
        × (s.job_id ≡ none)
        × (s.nonce_mask ≡ 2 ^ 64 - 1)
        × (s.nonce_fixed ≡ 0)
        × (s.block_target ≡ u256_from_compact_target header.bits)
        × (s.share_target ≡ u256_from_compact_target header.bits)
  unfolding new
  new-IsState fuel id block header s eh e =
      let hashed =
        >>=-eq-ok (serialize_header (write p.blake2b) (header_hasher p.blake2b) header true)
          (prepared header)
          (ap (λ o. ok_or o (message "Header is missing") >>= after) (sym eh) ∙ e) in
      let hash = finalize p.blake2b hashed.0 in
      let target = u256_from_compact_target header.bits in
      let made =
        Option-map-eq-some
          (state_with id none hash (cast_u64 header.timestamp) target target (some block)
            (2 ^ 64 - 1) 0)
          (generate p.float fuel hash) (ok-injective hashed.2) in
      let sound = generate_sound p.float fuel hash made.0 made.1 in
      let ht = u256_from_compact_target-IsUint256 header.bits in
      subst
        (λ t.
          IsState t
          × (compute_rank p.float t.matrix ≡ 64)
          × (t.nonce ≡ 0)
          × (t.block ≡ some block)
          × (t.job_id ≡ none)
          × (t.nonce_mask ≡ 2 ^ 64 - 1)
          × (t.nonce_fixed ≡ 0)
          × (t.block_target ≡ target)
          × (t.share_target ≡ target))
        made.2
        (
          (
            new-IsKeccakState hash (cast_u64 header.timestamp)
                (header_hash-IsUint256 p header hashed.0 hashed.1) (cast_u64-lt header.timestamp),
            sound.1,
            ht,
            ht,
          ),
          sound.0,
          refl,
          refl,
          refl,
          refl,
          refl,
          refl,
          refl,
        )
    where
      prepared : RpcBlockHeader → p.blake2b.State → Outcome (Option (State Body))
      prepared h hasher = ok (
          from_components p fuel id none (finalize p.blake2b hasher) (cast_u64 h.timestamp)
            (u256_from_compact_target h.bits) (u256_from_compact_target h.bits) (some block)
            (2 ^ 64 - 1) 0)

      after : RpcBlockHeader → Outcome (Option (State Body))
      after h = serialize_header (write p.blake2b) (header_hasher p.blake2b) h true >>= prepared h

  -- A well-formed state with a template yields a block exactly when its proof of work is at most
  -- the block target as a number, and it never panics. The block is the template, with the nonce
  -- of the state in its header and nothing else changed.
  pub generate_block_if_pow_lem :
      (s : State Body) (template : RpcBlock Body) (header : RpcBlockHeader)
      → IsState s
      → IsU64 s.nonce
      → s.block ≡ some template
      → template.header ≡ some header
      → generate_block_if_pow p s
        ≡ ok (
            if leb (value (calculate_pow p s)) (value s.block_target)
            then some (record template { header = some (record header { nonce = s.nonce }) })
            else none)
  unfolding generate_block_if_pow pow_match
  generate_block_if_pow_lem s template header hs hn eb eh =
      rw (filled_template_lem s s.nonce template header eb eh) (
        by_target (calculate_pow p s)
          (le-value (calculate_pow p s) s.block_target (calculate_pow-IsUint256 p s hs hn) hs.2)
          (record template { header = some (record header { nonce = s.nonce }) }))
    where
      filled_template_lem :
          (s : State Body) (nonce : ℕ) (template : RpcBlock Body) (header : RpcBlockHeader)
          → s.block ≡ some template
          → template.header ≡ some header
          → filled_template s nonce
            ≡ ok (some (record template { header = some (record header { nonce = nonce }) }))
      filled_template_lem s nonce template header eb eh = rw (eb, eh)

      unmet :
          (shares : Bool) (t : RpcBlock Body)
          → block_if (if shares then share_match else no_match) (ok (some t)) ≡ ok none
      unmet true t = refl
      unmet false t = refl

      by_target :
          (u : Uint256)
          → (le u s.block_target ≡ true) ↔ (value u ≤ value s.block_target)
          → (b : RpcBlock Body)
          → block_if (match_targets s u) (ok (some b))
            ≡ ok (if leb (value u) (value s.block_target) then some b else none)
      by_target u h b = elim (Bool-cases (le u s.block_target)) [
        | inl meets ↦ rw (meets, le→leb (value u) (value s.block_target) (h.0 meets))
        | inr misses ↦
            let above : leb (value u) (value s.block_target) ≡ false =
              elim (Bool-cases (leb (value u) (value s.block_target))) [
                | inl low ↦ absurd (cc (h.1 (leb→le (value u) (value s.block_target) low), misses))
                | inr high ↦ high
              ] in
            rw (misses, above) (unmet (le u s.share_target) b)
      ]
