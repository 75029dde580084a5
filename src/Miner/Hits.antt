-- ===== src/Miner/Hits.antt =====
-- The hits of a batch of the GPU, submitted one by one by a thread of src/miner.rs.
use velkar_gpu.Base.{
  ℕ, ◌+◌, ◌≡◌, refl, sym, ap, subst, arith, Bool, true, false, List, [], ◌∷◌, ◌++◌, some, All,
  All-append, Bool-cases, inl, inr, ◌⊎◌, Outcome, ok, ◌>>=◌, >>=-eq-ok, ok-injective, ok_or,
  message,
}
use velkar_gpu.Word.{Bytes}
use velkar_gpu.Text.{hex_fixed}
use velkar_gpu.Target.{le}
use velkar_gpu.Packages.{Packages}
use velkar_gpu.Pow.State.{State, calculate_pow}
use velkar_gpu.Stratum.{StratumCommand, submit_share}
use velkar_gpu.Gpu.{GpuHit}
use velkar_gpu.Miner.{Sent, Attempt, should_submit_share, found_share, submit_hit, blocking_send}

-- The clock, the shared counter and whether the channel has a receiver, as a thread finds them at a
-- hit.
pub record Reading : Type 0 where
  pub previous : ℕ
  pub stored : ℕ
  pub now_ms : ℕ
  pub receiving : Bool

-- The state after the hits, with the nonce of the last, the counter, and what was sent.
pub record Submitted (Body : Type 0) : Type 0 where
  pub state : State Body
  pub last_submit : ℕ
  pub messages : List StratumCommand

-- The counter belongs to the thread alone; `now` is the clock at the hit of an index, and `receiving`
-- whether the channel has a receiver then.
abbrev pub own_reading : (now : ℕ → ℕ) → (receiving : ℕ → Bool) → (last_submit index : ℕ) → Reading
own_reading now receiving last_submit index = record {
  previous = last_submit;
  stored = last_submit;
  now_ms = now index;
  receiving = receiving index;
}

pub blocking_send-eq-ok :
    {A : Type 0} (receiving : Bool) (a b : A) → blocking_send receiving a ≡ ok b → a ≡ b
blocking_send-eq-ok true a b e = ok-injective e
blocking_send-eq-ok false a b e = absurd (cc e)

-- An attempt that returns sends nothing, or the state's nonce for its job.
pub found_share-eq-ok :
    {Body : Type 0} (s : State Body) (attempt : Attempt) (receiving : Bool)
    (r : Sent StratumCommand)
    → found_share s attempt receiving ≡ ok r
    → (r.messages ≡ [])
      ⊎ ((job_id : Bytes) × (s.job_id ≡ some job_id)
          × (r.messages ≡ submit_share job_id (hex_fixed 16 s.nonce) ∷ []))
unfolding found_share
found_share-eq-ok s attempt receiving r e = elim (Bool-cases attempt.success) [
  | inr lost ↦ inl (sym (ap (λ t. t.messages) (ok-injective (rw lost at e))))
  | inl won ↦
      let named =
        >>=-eq-ok (ok_or s.job_id (message "missing stratum job id"))
          (λ job_id. blocking_send receiving (record {
            stored = attempt.stored;
            messages = submit_share job_id (hex_fixed 16 s.nonce) ∷ [];
          }))
          (rw won at e) in
      inr (
        named.0,
        ground arith,
        sym (ap (λ t. t.messages) (blocking_send-eq-ok receiving _ r named.2)),
      )
]

module _ (p : Packages) {Body : Type 0} where
  -- `for hit in hits`; `reading` is what the thread finds at the hit of an index, when the counter
  -- was left at some number at the hit before.
  unfoldable pub submit_hits :
      State Body
      → (last_submit : ℕ) → (reading : (last_submit index : ℕ) → Reading) → (index : ℕ)
      → List GpuHit
      → Outcome (Submitted Body)
  submit_hits s last_submit reading index [] =
      ok (record { state = s; last_submit = last_submit; messages = [] })
  submit_hits s last_submit reading index (hit ∷ hits) = do
    let at_hit = reading last_submit index
    r ← submit_hit p s hit.nonce at_hit.previous at_hit.stored at_hit.now_ms at_hit.receiving
    rest ← submit_hits (record s { nonce = hit.nonce }) r.stored reading (index + 1) hits
    ok (record rest { messages = r.messages ++ rest.messages })

  -- A share of the state's job with a nonce whose proof of work on the CPU is at most the share
  -- target.
  pub record IsValidShare (s : State Body) (m : StratumCommand) : Type 0 where
    pub job_id : Bytes
    pub nonce : ℕ
    pub of_job : s.job_id ≡ some job_id
    pub meets_target : le (calculate_pow p (record s { nonce = nonce })) s.share_target ≡ true
    pub is_share : m ≡ submit_share job_id (hex_fixed 16 nonce)

  found_share-valid :
      (s : State Body) (attempt : Attempt) (receiving : Bool) (r : Sent StratumCommand)
      → le (calculate_pow p s) s.share_target ≡ true
      → found_share s attempt receiving ≡ ok r
      → All (IsValidShare s) r.messages
  found_share-valid s attempt receiving r meets e =
      elim (found_share-eq-ok s attempt receiving r e) [
        | inl silent ↦ rw silent tt
        | inr sent ↦ rw sent.2 (
          record {
            job_id = sent.0;
            nonce = s.nonce;
            of_job = sent.1;
            meets_target = meets;
            is_share = refl;
          },
          tt,
        )
      ]

  -- A valid share of a state is one of the state with any nonce put in.
  pub renonced :
      (s : State Body) (nonce : ℕ) (ms : List StratumCommand)
      → All (IsValidShare (record s { nonce = nonce })) ms
      → All (IsValidShare s) ms
  renonced s nonce [] h = tt
  renonced s nonce (m ∷ ms) (v, rest) = (
    record {
      job_id = v.job_id;
      nonce = v.nonce;
      of_job = v.of_job;
      meets_target = v.meets_target;
      is_share = v.is_share;
    },
    renonced s nonce ms rest,
  )

  submit_hit-valid :
      (s : State Body) (nonce previous stored now_ms : ℕ) (receiving : Bool)
      (r : Sent StratumCommand)
      → submit_hit p s nonce previous stored now_ms receiving ≡ ok r
      → All (IsValidShare s) r.messages
  unfolding submit_hit
  submit_hit-valid s nonce previous stored now_ms receiving r e =
      elim (Bool-cases (le (calculate_pow p (record s { nonce = nonce })) s.share_target)) [
        | inl meets ↦ renonced s nonce r.messages (
            found_share-valid (record s { nonce = nonce })
              (should_submit_share previous stored now_ms) receiving r meets (rw meets at e))
        | inr above ↦ subst (λ t. All (IsValidShare s) t.messages) (ok-injective (rw above at e)) tt
      ]

  -- Every message of the loop is a valid share, and the state changes in its nonce only.
  pub submit_hits-valid :
      (s : State Body) (last_submit : ℕ) (reading : (last_submit index : ℕ) → Reading) (index : ℕ)
      (hits : List GpuHit) (r : Submitted Body)
      → submit_hits s last_submit reading index hits ≡ ok r
      → All (IsValidShare s) r.messages × (r.state ≡ record s { nonce = r.state.nonce })
  unfolding submit_hits
  submit_hits-valid s last_submit reading index [] r e =
      let done = sym (ok-injective e) in (rw done tt, rw done refl)
  submit_hits-valid s last_submit reading index (hit ∷ hits) r e =
      let s' = record s { nonce = hit.nonce } in
      let at_hit = reading last_submit index in
      let sent =
        >>=-eq-ok
          (submit_hit p s hit.nonce at_hit.previous at_hit.stored at_hit.now_ms at_hit.receiving)
          (λ t. submit_hits s' t.stored reading (index + 1) hits >>= λ rest.
            ok (record rest { messages = t.messages ++ rest.messages }))
          e in
      let after =
        >>=-eq-ok (submit_hits s' sent.0.stored reading (index + 1) hits)
          (λ rest. ok (record rest { messages = sent.0.messages ++ rest.messages })) sent.2 in
      let valid = submit_hits-valid s' sent.0.stored reading (index + 1) hits after.0 after.1 in
      let done = sym (ok-injective after.2) in
      (
        rw done (
            All-append (IsValidShare s) sent.0.messages after.0.messages
              (submit_hit-valid s hit.nonce at_hit.previous at_hit.stored at_hit.now_ms
                at_hit.receiving sent.0 sent.1)
              (renonced s hit.nonce after.0.messages valid.0)),
        rw done valid.1,
      )
