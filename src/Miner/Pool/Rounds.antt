-- ===== src/Miner/Pool/Rounds.antt =====
-- What the rounds of the pool's miner send, with a GPU or without one.
use velkar_gpu.Base.{
  ℕ, ◌+◌, ◌≡◌, refl, sym, ap, subst, ◌∙◌, [], Option, none, some, All, inl, inr, ◌⊎◌, Outcome, ok,
  ◌>>=◌, >>=-eq-ok, ok-injective,
}
use velkar_gpu.Word.{u64}
use velkar_gpu.Packages.{Packages}
use velkar_gpu.Pow.State.{State, apply_extranonce}
use velkar_gpu.Stratum.{StratumCommand}
use velkar_gpu.Watch.{observe}
use velkar_gpu.Gpu.{Searched}
use velkar_gpu.Gpu.Searcher.{Searching}
use velkar_gpu.Miner.{Sent, Thread, prepared, mine_nonce, next_nonce}
use velkar_gpu.Miner.Hits.{Submitted, submit_hits, submit_hits-valid}
use velkar_gpu.Miner.Node.{search_failed}
use velkar_gpu.Miner.Pool.Sends.{IsRoundShare, valid-IsRoundShare, mine_nonce-IsRoundShare}
use velkar_gpu.Miner.Pool.Looks.{
  next_nonce-nonce, next_nonce-state, Kept, awaited_job-Kept, look_at_job-state,
}
use velkar_gpu.Miner.Pool.{
  PoolThread, PoolFound, PoolRan, awaited_job, look_at_job, resting, mine_on_cpu, gpu_batch,
  mine_job, pool_round,
}

module _ (p : Packages) {Body : Type 0} (g : Searching Body) where
  -- The nonces that a thread goes on by in a round that mines.
  abbrev pub stride : Option g.Searcher → ℕ
  stride none = 1
  stride (some gpu) = g.batch_size gpu

  -- A job that a thread works on in a round: the one it holds, or waited for, or saw at its look.
  abbrev pub FoundJob : PoolThread g.Searcher Body → PoolFound Body → State Body → Type 0
  FoundJob t f s =
      ((awaited_job t.thread f.looks t.thread.state).state ≡ some s) ⊎ (f.seen.value ≡ some s)

  -- The thread holds no job, or one that it found, with some nonce.
  abbrev pub LeftJob : PoolThread g.Searcher Body → PoolFound Body → Option (State Body) → Type 0
  LeftJob t f o =
      (o ≡ none)
      ⊎ ((s : State Body) × (nonce : ℕ) × FoundJob t f s × (o ≡ some (record s { nonce = nonce })))

  LeftJob-found :
      (t : PoolThread g.Searcher Body) (f : PoolFound Body) (o : Option (State Body))
      → (o ≡ (awaited_job t.thread f.looks t.thread.state).state) ⊎ (o ≡ f.seen.value)
      → LeftJob t f o
  LeftJob-found t f none h = inl refl
  LeftJob-found t f (some s) (inl held) = inr (s, s.nonce, inl (sym held), refl)
  LeftJob-found t f (some s) (inr seen) = inr (s, s.nonce, inr (sym seen), refl)

  -- A round sends nothing, or shares of one job, which the thread held or finds at its looks; and it
  -- either leaves the nonce and sends nothing, or goes on by one nonce or by a batch. Only a thread
  -- without a GPU returns, and its shares carry the extranonce.
  pub record PoolRoundOf (t : PoolThread g.Searcher Body) (f : PoolFound Body)
      (r : PoolRan g.Searcher Body) : Type 0 where
    pub shares :
        (r.messages ≡ [])
        ⊎ ((s : State Body) × FoundJob t f s × All (IsRoundShare p r.miner.gpu s) r.messages)
    pub left : LeftJob t f r.miner.thread.state
    pub keeps_cpu : t.gpu ≡ none → r.miner.gpu ≡ none
    pub keeps_gpu :
        (gpu : g.Searcher) → t.gpu ≡ some gpu → (after : g.Searcher) × (r.miner.gpu ≡ some after)
    pub advance :
        ((r.miner.thread.nonce ≡ t.thread.nonce) × (r.messages ≡ []))
        ⊎ (r.miner.thread.nonce ≡ u64 (t.thread.nonce + stride r.miner.gpu))
    pub running : (t.gpu ≡ none) ⊎ (r.miner.thread.returned ≡ t.thread.returned)

  -- A round of a thread of the pool's miner that returns, with a GPU or without one and whatever the
  -- GPU reports, and whatever the other threads do to the shared counter: it sends nothing, or only
  -- shares of one job, the one that the thread held, or waited for, or saw at the look of this
  -- round, and the CPU's proof of work of each share meets a target of that job; without a
  -- GPU the nonces carry the extranonce of that job. The thread ends without a job, or with one of
  -- those. It either left the nonce and sent nothing, or went on by one nonce, with a GPU by one batch,
  -- modulo 2 ^ 64. A thread that starts the round with a GPU still has one, and does not return from
  -- the loop in it, whatever the shutdown says; one without a GPU gets none.
  pub pool_round-PoolRoundOf :
      (t : PoolThread g.Searcher Body) (f : PoolFound Body) (r : PoolRan g.Searcher Body)
      → pool_round p g t f ≡ ok r
      → PoolRoundOf t f r
  unfolding pool_round mine_on_cpu gpu_batch
  pool_round-PoolRoundOf t f r e = by_state t.gpu waited.state refl refl e
    where
      waited : Thread Body
      waited = awaited_job t.thread f.looks t.thread.state

      kept : Kept t.thread waited
      kept = awaited_job-Kept t.thread f.looks t.thread.state

      rests :
          (gpu : Option g.Searcher) (t' : Thread Body)
          → t.gpu ≡ gpu
          → Kept t.thread t'
          → (t'.state ≡ waited.state) ⊎ (t'.state ≡ f.seen.value)
          → ok (resting gpu f t') ≡ ok r
          → PoolRoundOf t f r
      rests gpu t' device same of_look ended =
          subst (PoolRoundOf t f) (ok-injective ended) (record {
            shares = inl refl;
            left = LeftJob-found t f t'.state of_look;
            keeps_cpu = λ no_gpu. sym device ∙ no_gpu;
            keeps_gpu = λ used h. (used, sym device ∙ h);
            advance = inl (same.0, refl);
            running = inr same.1;
          })

      left_by_cpu :
          (s : State Body) (nonce : ℕ) (o : Option (State Body))
          → waited.state ≡ some s
          → (o ≡ some (record s { nonce = nonce })) ⊎ (o ≡ f.seen.value)
          → LeftJob t f o
      left_by_cpu s nonce o held (inl kept) = inr (s, nonce, inl held, kept)
      left_by_cpu s nonce o held (inr seen) = LeftJob-found t f o (inr seen)

      cpu :
          (s : State Body)
          → t.gpu ≡ none
          → waited.state ≡ some s
          → mine_on_cpu p g waited f s ≡ ok r
          → PoolRoundOf t f r
      cpu s device held ran =
          let at_share = f.reading f.last_submit 0 in
          let tried = record waited {
            state = some (prepared s waited.nonce);
            job_channel = observe f.seen waited.job_channel;
          } in
          let end : Sent StratumCommand → PoolRan g.Searcher Body = λ q. record {
            miner = record { gpu = none; thread = next_nonce tried f.shutdown };
            last_submit = q.stored;
            messages = q.messages;
          } in
          let sent =
            >>=-eq-ok
              (mine_nonce p s waited.nonce at_share.previous at_share.stored at_share.now_ms
                at_share.receiving)
              (λ q. ok (end q)) ran in
          subst (PoolRoundOf t f) (ok-injective sent.2) (record {
            shares = inr (
              s,
              inl held,
              mine_nonce-IsRoundShare p {Searcher = g.Searcher} none s waited.nonce
                  at_share.previous at_share.stored at_share.now_ms at_share.receiving sent.0
                  sent.1,
            );
            left =
                left_by_cpu s (apply_extranonce s waited.nonce) (next_nonce tried f.shutdown).state
                  held (next_nonce-state tried f.shutdown);
            keeps_cpu = λ no_gpu. refl;
            keeps_gpu = λ used h. absurd (cc (sym device ∙ h));
            advance = inr (next_nonce-nonce tried f.shutdown ∙ ap (λ (n : ℕ). u64 (n + 1)) kept.0);
            running = inl device;
          })

      batch :
          (t' : Thread Body) (gpu : g.Searcher) (o : Option (State Body))
          → t.gpu ≡ some gpu
          → t'.state ≡ o
          → Kept t.thread t'
          → (o ≡ waited.state) ⊎ (o ≡ f.seen.value)
          → gpu_batch p g t' f gpu o ≡ ok r
          → PoolRoundOf t f r
      batch t' gpu none device held same of_look ran =
          rests (some gpu) t' device same (rw held of_look) ran
      batch t' gpu (some s) device held same of_look ran =
          let end : Searched g.Searcher → Submitted Body → PoolRan g.Searcher Body = λ x q. record {
            miner = record {
              gpu = some x.searcher;
              thread = record t' {
                nonce = u64 (t'.nonce + g.batch_size x.searcher);
                hashes_tried = u64 (t'.hashes_tried + g.batch_size x.searcher);
                state = some q.state;
              };
            };
            last_submit = q.last_submit;
            messages = q.messages;
          } in
          let submits : Searched g.Searcher → Outcome (Submitted Body) =
            λ x. submit_hits p s f.last_submit f.reading 0 x.hits in
          let found =
            >>=-eq-ok (search_failed (g.search gpu s t'.nonce s.share_target))
              (λ x. submits x >>= λ q. ok (end x q)) ran in
          let sent = >>=-eq-ok (submits found.0) (λ q. ok (end found.0 q)) found.2 in
          let valid = submit_hits-valid p s f.last_submit f.reading 0 found.0.hits sent.0 sent.1 in
          subst (PoolRoundOf t f) (ok-injective sent.2) (record {
            shares = inr (
              s,
              job_of of_look,
              valid-IsRoundShare p found.0.searcher s sent.0.messages valid.0,
            );
            left = inr (s, sent.0.state.nonce, job_of of_look, ap some valid.1);
            keeps_cpu = λ no_gpu. absurd (cc (sym device ∙ no_gpu));
            keeps_gpu = λ used h. (found.0.searcher, refl);
            advance = inr (ap (λ (n : ℕ). u64 (n + g.batch_size found.0.searcher)) same.0);
            running = inr same.1;
          })
        where
          job_of :
              (some s ≡ waited.state) ⊎ (some s ≡ f.seen.value)
              → (waited.state ≡ some s) ⊎ (f.seen.value ≡ some s)
          job_of (inl kept) = inl (sym kept)
          job_of (inr new) = inr (sym new)

      by_state :
          (gpu : Option g.Searcher) (o : Option (State Body))
          → t.gpu ≡ gpu
          → waited.state ≡ o
          → mine_job p g waited f gpu o ≡ ok r
          → PoolRoundOf t f r
      by_state gpu none device held ran = rests gpu waited device kept (inl refl) ran
      by_state none (some s) device held ran = cpu s device held ran
      by_state (some gpu) (some s) device held ran =
          let looked = look_at_job-state waited f.seen in
          let t' = look_at_job waited f.seen in
          batch t' gpu t'.state device refl (looked.0.0 ∙ kept.0, looked.0.1 ∙ kept.1) looked.1 ran
