-- ===== src/Miner/Pool/Sends.antt =====
-- What a thread of the pool's miner may send for a job.
use velkar_gpu.Base.{
  ℕ, ◌≡◌, refl, ap, subst, Bool, true, List, [], ◌∷◌, Option, none, some, All, Bool-cases, inl, inr,
  ok, ok-injective,
}
use velkar_gpu.Word.{Bytes}
use velkar_gpu.Text.{hex_fixed}
use velkar_gpu.Target.{le}
use velkar_gpu.Packages.{Packages}
use velkar_gpu.Pow.State.{
  State, calculate_pow, PowMatch, no_match, share_match, block_match, apply_extranonce, is_match,
  pow_match, check_pow,
}
use velkar_gpu.Stratum.{StratumCommand, submit_share}
use velkar_gpu.Miner.{
  Sent, Attempt, prepared, share_if, should_submit_share, found_share, mine_nonce,
}
use velkar_gpu.Miner.Hits.{IsValidShare, found_share-eq-ok}

module _ (p : Packages) {Body : Type 0} where
  -- A share of the state's job with a nonce whose proof of work on the CPU meets one of the two
  -- targets of the state.
  pub record IsPoolShare (s : State Body) (m : StratumCommand) : Type 0 where
    pub job_id : Bytes
    pub nonce : ℕ
    pub of_job : s.job_id ≡ some job_id
    pub matches : check_pow p (record s { nonce = nonce }) ≡ true
    pub is_share : m ≡ submit_share job_id (hex_fixed 16 nonce)

  le-check_pow :
      (s : State Body) → le (calculate_pow p s) s.share_target ≡ true → check_pow p s ≡ true
  unfolding check_pow pow_match
  le-check_pow s meets = elim (Bool-cases (le (calculate_pow p s) s.block_target)) [
    | inl block ↦ rw block refl
    | inr above ↦ rw (above, meets) refl
  ]

  -- A submission whose nonce carries the extranonce of the state.
  abbrev pub HasExtranonce : State Body → StratumCommand → Type 0
  HasExtranonce s m =
      (job_id : Bytes) × (nonce : ℕ) × (m
        ≡ submit_share job_id (hex_fixed 16 (apply_extranonce s nonce)))

  -- A share, with the extranonce where it comes from a thread without a GPU.
  abbrev pub IsRoundShare {ℓ} :
      {Searcher : Type ℓ} → Option Searcher → State Body → StratumCommand → Type ℓ
  IsRoundShare gpu s m = IsPoolShare s m × (gpu ≡ none → HasExtranonce s m)

  pub valid-IsRoundShare :
      {Searcher : Type 0} (gpu : Searcher) (s : State Body) (ms : List StratumCommand)
      → All (IsValidShare p s) ms
      → All (IsRoundShare (some gpu) s) ms
  valid-IsRoundShare gpu s [] h = tt
  valid-IsRoundShare gpu s (m ∷ ms) (v, rest) = (
    (
      record {
        job_id = v.job_id;
        nonce = v.nonce;
        of_job = v.of_job;
        matches = le-check_pow (record s { nonce = v.nonce }) v.meets_target;
        is_share = v.is_share;
      },
      λ e. absurd (cc e),
    ),
    valid-IsRoundShare gpu s ms rest,
  )

  found_share-IsRoundShare :
      {Searcher : Type 0} (gpu : Option Searcher) (s : State Body) (nonce : ℕ) (attempt : Attempt)
      (receiving : Bool) (r : Sent StratumCommand)
      → check_pow p (prepared s nonce) ≡ true
      → found_share (prepared s nonce) attempt receiving ≡ ok r
      → All (IsRoundShare gpu s) r.messages
  found_share-IsRoundShare gpu s nonce attempt receiving r matches e =
      elim (found_share-eq-ok (prepared s nonce) attempt receiving r e) [
        | inl silent ↦ rw silent tt
        | inr sent ↦ rw sent.2 (
          (
            record {
              job_id = sent.0;
              nonce = apply_extranonce s nonce;
              of_job = sent.1;
              matches = matches;
              is_share = refl;
            },
            λ no_gpu. (sent.0, nonce, refl),
          ),
          tt,
        )
      ]

  pub mine_nonce-IsRoundShare :
      {Searcher : Type 0} (gpu : Option Searcher) (s : State Body)
      (nonce previous stored now_ms : ℕ) (receiving : Bool) (r : Sent StratumCommand)
      → mine_nonce p s nonce previous stored now_ms receiving ≡ ok r
      → All (IsRoundShare gpu s) r.messages
  unfolding mine_nonce check_pow
  mine_nonce-IsRoundShare gpu s nonce previous stored now_ms receiving r e =
      by_match (pow_match p s') (λ h. found_share-IsRoundShare gpu s nonce attempt receiving r h)
        refl e
    where
      s' : State Body
      s' = prepared s nonce

      attempt : Attempt
      attempt = should_submit_share previous stored now_ms

      by_match :
          (m : PowMatch)
          → (is_match (pow_match p s') ≡ true
              → found_share s' attempt receiving ≡ ok r
              → All (IsRoundShare gpu s) r.messages)
          → pow_match p s' ≡ m
          → share_if m (found_share s' attempt receiving) stored ≡ ok r
          → All (IsRoundShare gpu s) r.messages
      by_match no_match found same ended =
          subst (λ t. All (IsRoundShare gpu s) t.messages) (ok-injective ended) tt
      by_match share_match found same ended = found (ap is_match same) ended
      by_match block_match found same ended = found (ap is_match same) ended
