-- ===== src/Pow/State/Work.antt =====
-- The proof of work of a nonce: the three ways to compute it agree, it is a 256-bit number, and
-- `pow_match` compares it with the targets as numbers.
use velkar_gpu.Base.{ℕ, ◌^◌, ◌≤◌, ◌<◌, ◌≡◌, ◌∙◌, refl, ap, arith, true, ◌++◌, ◌↔◌}
use velkar_gpu.Base.Bits.{bit_xor_lt}
use velkar_gpu.Word.{IsU64, rotate_right, rotate_left-lt, to_le_bytes}
use velkar_gpu.Text.{codes}
use velkar_gpu.Target.{Uint256, IsUint256, le, le_bytes, of_le_bytes}
use velkar_gpu.Target.Value.{value, value-lt, le-value}
use velkar_gpu.Target.Octets.{of_le_bytes-IsUint256}
use velkar_gpu.Packages.{Packages}
use velkar_gpu.Pow.Hasher.{finalize_with_nonce, heavy_hasher}
use velkar_gpu.Pow.Matrix.{heavy_hash, IsMatrix}
use velkar_gpu.Pow.Stages.{
  IsKeccakState, finalize_with_nonce-IsUint256, heavy_hash-IsUint256, heavy_hasher-IsUint256,
  memory_hard_hash-IsUint256,
}
use velkar_gpu.Pow.State.{
  State, no_match, share_match, block_match, match_targets, final_hash, mix_words, stage1_for_nonce,
  stage2_for_stage1, stage3_for_stage2, cpu_stage4_from_parts, calculate_pow,
  calculate_pow_from_parts, calculate_pow_from_gpu_stage4, pow_match,
}

module _ (p : Packages) {Body : Type 0} (s : State Body) where
  -- The stages for a nonce, each from the one before.
  abbrev pub stage1 : ℕ → Uint256
  stage1 nonce = stage1_for_nonce p s nonce

  abbrev pub stage2 : ℕ → Uint256
  stage2 nonce = stage2_for_stage1 p s (stage1 nonce)

  abbrev pub stage3 : ℕ → Uint256
  stage3 nonce = stage3_for_stage2 p s (stage2 nonce)

  abbrev pub stage4 : ℕ → Uint256
  stage4 nonce = cpu_stage4_from_parts p s (stage1 nonce) (stage3 nonce) nonce

  -- For every nonce, with the stages that the state computes for it, the proof of work from the parts
  -- and the one from a fourth stage of the device are the one that `calculate_pow` gives once the
  -- nonce is put into the state.
  pub calculate_pow_agrees :
      (nonce : ℕ)
      → (calculate_pow_from_parts p s (stage1 nonce) (stage2 nonce) (stage3 nonce) nonce
          ≡ calculate_pow p (record s { nonce = nonce }))
        × (calculate_pow_from_gpu_stage4 p s
              (stage1 nonce)
              (stage2 nonce)
              (stage3 nonce)
              (stage4 nonce)
              nonce
            ≡ calculate_pow p (record s { nonce = nonce }))
  unfolding calculate_pow calculate_pow_from_parts calculate_pow_from_gpu_stage4 stage1_for_nonce
      stage2_for_stage1 stage3_for_stage2 cpu_stage4_from_parts final_hash mix_words
  calculate_pow_agrees nonce = (refl, refl)

  -- The last hash is one keyed hash of stage 4, the nonce and the block target, end to end.
  pub final_hash_stream :
      (stage4 : Uint256) (nonce : ℕ)
      → final_hash p s stage4 nonce
        ≡ of_le_bytes (
            p.blake2b.finalize (
              p.blake2b.update
                (p.blake2b.to_state 32 (codes "ProofOfWorkHash"))
                ((le_bytes stage4 ++ to_le_bytes 8 nonce) ++ le_bytes s.block_target)))
  unfolding final_hash
  final_hash_stream stage4 nonce =
      ap (λ t. of_le_bytes (p.blake2b.finalize t))
        (ap (λ t. p.blake2b.update t (le_bytes s.block_target))
            (p.blake2b.update-update (p.blake2b.to_state 32 (codes "ProofOfWorkHash"))
              (le_bytes stage4) (to_le_bytes 8 nonce))
          ∙ p.blake2b.update-update (p.blake2b.to_state 32 (codes "ProofOfWorkHash"))
              (le_bytes stage4 ++ to_le_bytes 8 nonce) (le_bytes s.block_target))

  final_hash-IsUint256 : (stage4 : Uint256) (nonce : ℕ) → IsUint256 (final_hash p s stage4 nonce)
  unfolding final_hash
  final_hash-IsUint256 stage4 nonce =
      of_le_bytes-IsUint256 _
        (p.blake2b.length-finalize _
          ∙ p.blake2b.output_length-update _ _
          ∙ p.blake2b.output_length-update _ _
          ∙ p.blake2b.output_length-update _ _
          ∙ p.blake2b.output_length-to_state 32 _)
        (p.blake2b.finalize-IsByte _)

mix_words-IsUint256 :
    (a b c d e : Uint256) (nonce : ℕ)
    → IsUint256 a
    → IsUint256 b
    → IsUint256 c
    → IsUint256 d
    → IsUint256 e
    → IsU64 nonce
    → IsUint256 (mix_words a b c d e nonce)
unfolding mix_words rotate_right
mix_words-IsUint256 a b c d e nonce ha hb hc hd he hn = (
  bit_xor_lt 64 e.w0 _ he.0 (rotate_left-lt a.w0 17 ha.0 (omega arith)),
  bit_xor_lt 64 e.w1 _ he.1 (rotate_left-lt b.w1 53 hb.1 (omega arith)),
  bit_xor_lt 64 e.w2 _ he.2 (rotate_left-lt c.w2 7 hc.2 (omega arith)),
  bit_xor_lt 64 e.w3 _ he.3 (
      bit_xor_lt 64 _ _ (rotate_left-lt d.w3 13 hd.3 (omega arith))
        (rotate_left-lt nonce 13 hn (omega arith))),
)

-- What the constructors of a state establish.
abbrev pub IsState : {Body : Type 0} → State Body → Type 0
IsState s =
    IsKeccakState s.hasher.words
    × IsMatrix s.matrix
    × IsUint256 s.block_target
    × IsUint256 s.share_target

module _ (p : Packages) {Body : Type 0} (s : State Body) (hs : IsState s) (hn : IsU64 s.nonce) where
  pub calculate_pow-IsUint256 : IsUint256 (calculate_pow p s)
  unfolding calculate_pow
  calculate_pow-IsUint256 =
      let stage1 = finalize_with_nonce p.keccak s.hasher s.nonce in
      let h1 : IsUint256 stage1 = finalize_with_nonce-IsUint256 p.keccak s.hasher s.nonce hs.0 hn in
      let stage2 = heavy_hash p.keccak s.matrix stage1 in
      let h2 : IsUint256 stage2 = heavy_hash-IsUint256 p.keccak s.matrix stage1 hs.1 in
      let stage3 = heavy_hasher p.keccak stage2 in
      let h3 : IsUint256 stage3 = heavy_hasher-IsUint256 p.keccak stage2 h2 in
      let h4 = memory_hard_hash-IsUint256 p.argon2 stage3 stage1 s.nonce s.block_target in
      mix_words-IsUint256 _ _ _ _ _ s.nonce h1 h2 h3 h4 (final_hash-IsUint256 p s _ s.nonce) hn

  -- For a well-formed state and a 64-bit nonce, the proof of work is a number below 2 ^ 256, and
  -- `pow_match` compares it with the targets as numbers: a block is at most the block target; a
  -- share is above it and at most the share target; the rest is above both.
  pub pow_match_lem :
      (value (calculate_pow p s) < 2 ^ 256)
      × ((pow_match p s ≡ block_match) ↔ (value (calculate_pow p s) ≤ value s.block_target))
      × ((pow_match p s ≡ share_match) ↔ (
          (value s.block_target < value (calculate_pow p s))
          × (value (calculate_pow p s) ≤ value s.share_target)))
      × ((pow_match p s ≡ no_match) ↔ (
          (value s.block_target < value (calculate_pow p s))
          × (value s.share_target < value (calculate_pow p s))))
  unfolding pow_match
  pow_match_lem =
      let h = calculate_pow-IsUint256 in
      let c =
        classify (calculate_pow p s) (le-value (calculate_pow p s) s.block_target h hs.2)
          (le-value (calculate_pow p s) s.share_target h hs.3) in
      (value-lt h, c.0, c.1, c.2)
    where
      classify :
          (u : Uint256)
          → (le u s.block_target ≡ true) ↔ (value u ≤ value s.block_target)
          → (le u s.share_target ≡ true) ↔ (value u ≤ value s.share_target)
          → ((match_targets s u ≡ block_match) ↔ (value u ≤ value s.block_target))
            × ((match_targets s u ≡ share_match)
                ↔ ((value s.block_target < value u) × (value u ≤ value s.share_target)))
            × ((match_targets s u ≡ no_match)
                ↔ ((value s.block_target < value u) × (value s.share_target < value u)))
      classify u b t = ground arith
