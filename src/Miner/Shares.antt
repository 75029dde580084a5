-- ===== src/Miner/Shares.antt =====
-- The shares that the pool's miner submits: which nonces, and how often.
use velkar_gpu.Base.{
  ℕ, ◌+◌, ◌-◌, ◌≤◌, ◌≡◌, refl, arith, Bool, true, false, List, [], ◌∷◌, some, ltb, ◌==◌,
  if◌then◌else◌, Bool-cases, inl, inr, ◌⊎◌, Outcome, ok, err, external,
}
use velkar_gpu.Word.{Bytes}
use velkar_gpu.Text.{hex_fixed}
use velkar_gpu.Packages.{Packages}
use velkar_gpu.Pow.State.{
  State, PowMatch, no_match, share_match, block_match, is_match, check_pow, pow_match,
  apply_extranonce,
}
use velkar_gpu.Stratum.{StratumCommand, submit_share}
use velkar_gpu.Miner.{
  Attempt, should_submit_share, Sent, found_share, mine_nonce, prepared, share_if,
}

-- One attempt of a thread: what it loaded, and when.
pub record Try : Type 0 where
  pub previous : ℕ
  pub now_ms : ℕ

-- The times at which attempts succeed, in their order, from what is stored first.
abbrev pub submissions : ℕ → List Try → List ℕ
submissions stored [] = []
submissions stored (t ∷ ts) =
    let a = should_submit_share t.previous stored t.now_ms in
    let rest = submissions a.stored ts in if a.success then t.now_ms ∷ rest else rest

-- Times behind `t`, each at least 250 ms behind the one before.
abbrev pub Spaced : ℕ → List ℕ → Type 0
Spaced t [] = Unit
Spaced t (u ∷ us) = (t + 250 ≤ u) × Spaced u us

-- However the attempts of threads interleave and whatever they loaded, the shares that get through
-- are at least 250 ms apart, counted from the time stored at first.
pub submissions-Spaced : (stored : ℕ) (ts : List Try) → Spaced stored (submissions stored ts)
unfolding should_submit_share
submissions-Spaced stored [] = tt
submissions-Spaced stored (t ∷ ts) = elim (Bool-cases (ltb (t.now_ms - t.previous) 250)) [
  | inl early ↦ rw early (submissions-Spaced stored ts)
  | inr late ↦ elim (Bool-cases (stored == t.previous)) [
    | inl same ↦ rw (late, same) (ground arith, submissions-Spaced t.now_ms ts)
    | inr lost ↦ rw (late, lost) (submissions-Spaced stored ts)
  ]
]

-- What a share of a job with a nonce comes to: it is sent, or the limit holds it back, or the
-- channel has no receiver.
abbrev pub IsShareOutcome :
    Bytes → ℕ → Attempt → (receiving : Bool) → Outcome (Sent StratumCommand) → Type 0
IsShareOutcome job_id nonce attempt receiving o =
    if attempt.success
    then (if receiving
        then o
          ≡ ok (record {
            stored = attempt.stored;
            messages = submit_share job_id (hex_fixed 16 nonce) ∷ [];
          })
        else o ≡ err external)
    else o ≡ ok (record { stored = attempt.stored; messages = [] })

module _ (p : Packages) {Body : Type 0} where
  found_share-IsShareOutcome :
      (s : State Body) (job_id : Bytes) (attempt : Attempt) (receiving : Bool)
      → s.job_id ≡ some job_id
      → IsShareOutcome job_id s.nonce attempt receiving (found_share s attempt receiving)
  unfolding found_share
  found_share-IsShareOutcome s job_id attempt true e = elim (Bool-cases attempt.success) [
    | inl through ↦ rw (through, e) refl
    | inr limited ↦ rw limited refl
  ]
  found_share-IsShareOutcome s job_id attempt false e = elim (Bool-cases attempt.success) [
    | inl through ↦ rw (through, e) refl
    | inr limited ↦ rw limited refl
  ]

  -- A round of the pool's miner on a state with a job, on a CPU, up to the increment of the nonce. A
  -- nonce whose proof of work, with the extranonce, meets neither target sends nothing and leaves
  -- the counter. For one that meets a target, the job is submitted with the nonce that carries the
  -- extranonce when the limit lets the attempt through and the channel has a receiver; without a
  -- receiver the round fails with the error of the channel; and nothing is sent when the limit holds
  -- it back.
  pub mine_nonce_lem :
      (s : State Body) (job_id : Bytes) (nonce previous stored now_ms : ℕ) (receiving : Bool)
      → s.job_id ≡ some job_id
      → (check_pow p (prepared s nonce) ≡ false)
          × (mine_nonce p s nonce previous stored now_ms receiving
              ≡ ok (record { stored = stored; messages = [] }))
        ⊎ ((check_pow p (prepared s nonce) ≡ true)
            × IsShareOutcome job_id
                (apply_extranonce s nonce)
                (should_submit_share previous stored now_ms)
                receiving
                (mine_nonce p s nonce previous stored now_ms receiving))
  unfolding mine_nonce check_pow
  mine_nonce_lem s job_id nonce previous stored now_ms receiving e =
      by_match (pow_match p (prepared s nonce))
    where
      attempt : Attempt
      attempt = should_submit_share previous stored now_ms

      found : Outcome (Sent StratumCommand)
      found = found_share (prepared s nonce) attempt receiving

      by_match :
          (m : PowMatch)
          → (is_match m ≡ false)
              × (share_if m found stored ≡ ok (record { stored = stored; messages = [] }))
            ⊎ ((is_match m ≡ true)
                × IsShareOutcome job_id
                    (apply_extranonce s nonce)
                    attempt
                    receiving
                    (share_if m found stored))
      by_match no_match = inl (refl, refl)
      by_match share_match =
          inr (refl, found_share-IsShareOutcome (prepared s nonce) job_id attempt receiving e)
      by_match block_match =
          inr (refl, found_share-IsShareOutcome (prepared s nonce) job_id attempt receiving e)
