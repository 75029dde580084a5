-- ===== src/Miner/Gpu/Shares.antt =====
-- What the rounds of the GPU scheduler send, whatever the device reports.
use mathlib.Core.Option
use velkar_gpu.Watch.{WatchSwap, wait_for_change}
use velkar_gpu.Base.{
  ℕ, ◌+◌, ◌%◌, ◌≡◌, refl, subst, arith, Bool, true, List, [], Option, none, some, All, Bool-cases,
  inl, inr, ◌⊎◌, Outcome, ok, ◌>>=◌, >>=-eq-ok, ok-injective,
}
use velkar_gpu.Word.{u64}
use velkar_gpu.Packages.{Packages}
use velkar_gpu.Pow.State.{State}
use velkar_gpu.Stratum.{StratumCommand}
use velkar_gpu.Gpu.{Searched, GpuHit}
use velkar_gpu.Gpu.Searcher.{Searching}
use velkar_gpu.Miner.{use_devfund}
use velkar_gpu.Miner.Hits.{
  Submitted, own_reading, submit_hits, IsValidShare, submit_hits-valid, renonced,
}
use velkar_gpu.Miner.Gpu.{
  Scheduler, Found, Ran, idle, is_some, next_batch, mine_main, mine_dev, mine_batch, awaited_main,
  look_at_jobs, scheduler_round, after_wait, taken_main,
}

module _ (p : Packages) {Body : Type 0} where
  -- Valid shares of the job that a state is for; without a state, no message.
  abbrev pub SharesOf : Option (State Body) → List StratumCommand → Type 0
  SharesOf none ms = ms ≡ []
  SharesOf (some s) ms = All (IsValidShare p s) ms

  no_shares : (o : Option (State Body)) → SharesOf o []
  no_shares none = refl
  no_shares (some s) = tt

  -- The shares of a batch are shares of the state that it leaves.
  submitted-SharesOf :
      (s : State Body) (last_submit : ℕ) (now : ℕ → ℕ) (receiving : ℕ → Bool) (hits : List GpuHit)
      (q : Submitted Body)
      → submit_hits p s last_submit (own_reading now receiving) 0 hits ≡ ok q
      → SharesOf (some q.state) q.messages
  submitted-SharesOf s last_submit now receiving hits q e =
      let valid = submit_hits-valid p s last_submit (own_reading now receiving) 0 hits q e in
      rw valid.1 (renonced p (record s { nonce = q.state.nonce }) s.nonce q.messages valid.0)

devfund_turn : (n : ℕ) (b : Bool) → use_devfund n b ≡ true → n % 100 ≡ 99
unfolding use_devfund
devfund_turn n b h = ground arith

module _ (p : Packages) {Body : Type 0} (g : Searching Body) where
  -- A round without a batch sends nothing; a round with one passes the nonces of the batch, and the
  -- devfund's pool gets messages only in the last round of a hundred, in which the pool gets none.
  pub record RoundOf (t : Scheduler g.Searcher Body) (r : Ran g.Searcher Body) : Type 0 where
    pub main_shares : SharesOf p r.scheduler.main_state r.main_messages
    pub dev_shares : SharesOf p r.scheduler.dev_state r.dev_messages
    pub one_pool : (r.dev_messages ≡ []) ⊎ ((r.main_messages ≡ []) × (t.batch_index % 100 ≡ 99))
    pub advance :
        ((r.scheduler.nonce ≡ t.nonce)
          × (r.scheduler.batch_index ≡ t.batch_index)
          × (r.main_messages ≡ [])
          × (r.dev_messages ≡ []))
        ⊎ ((r.scheduler.nonce ≡ u64 (t.nonce + g.batch_size r.scheduler.gpu))
            × (r.scheduler.batch_index ≡ u64 (t.batch_index + 1)))

  idle-RoundOf : (t : Scheduler g.Searcher Body) → RoundOf t (idle t)
  idle-RoundOf t = record {
    main_shares = no_shares p t.main_state;
    dev_shares = no_shares p t.dev_state;
    one_pool = inl refl;
    advance = inl (refl, refl, refl, refl);
  }

  mine_main-RoundOf :
      (t : Scheduler g.Searcher Body) (f : Found Body) (o : Option (State Body))
      (r : Ran g.Searcher Body)
      → mine_main p g t f o ≡ ok r
      → RoundOf t r
  unfolding mine_main
  mine_main-RoundOf t f none r e = subst (RoundOf t) (ok-injective e) (idle-RoundOf t)
  mine_main-RoundOf t f (some s) r e =
      let end : Searched g.Searcher → Submitted Body → Ran g.Searcher Body = λ x sent. record {
        scheduler = record (next_batch t x.searcher (g.batch_size x.searcher)) {
          main_state = some sent.state;
          main_last_submit = sent.last_submit;
        };
        main_messages = sent.messages;
        dev_messages = [];
        returned = f.shutdown;
      } in
      let submits : Searched g.Searcher → Outcome (Submitted Body) =
        λ x. submit_hits p s t.main_last_submit (own_reading f.now f.receiving) 0 x.hits in
      let found =
        >>=-eq-ok (g.search t.gpu s t.nonce s.share_target)
          (λ x. submits x >>= λ sent. ok (end x sent)) e in
      let sent = >>=-eq-ok (submits found.0) (λ q. ok (end found.0 q)) found.2 in
      subst (RoundOf t) (ok-injective sent.2) (record {
        main_shares =
            submitted-SharesOf p s t.main_last_submit f.now f.receiving found.0.hits sent.0 sent.1;
        dev_shares = no_shares p t.dev_state;
        one_pool = inl refl;
        advance = inr (refl, refl);
      })

  mine_dev-RoundOf :
      (t : Scheduler g.Searcher Body) (f : Found Body) (o : Option (State Body))
      (r : Ran g.Searcher Body)
      → t.batch_index % 100 ≡ 99
      → mine_dev p g t f o ≡ ok r
      → RoundOf t r
  unfolding mine_dev
  mine_dev-RoundOf t f none r turn e = cc
  mine_dev-RoundOf t f (some s) r turn e =
      let end : Searched g.Searcher → Submitted Body → Ran g.Searcher Body = λ x sent. record {
        scheduler = record (next_batch t x.searcher (g.batch_size x.searcher)) {
          dev_state = some sent.state;
          dev_last_submit = sent.last_submit;
        };
        main_messages = [];
        dev_messages = sent.messages;
        returned = f.shutdown;
      } in
      let submits : Searched g.Searcher → Outcome (Submitted Body) =
        λ x. submit_hits p s t.dev_last_submit (own_reading f.now f.receiving) 0 x.hits in
      let found =
        >>=-eq-ok (g.search t.gpu s t.nonce s.share_target)
          (λ x. submits x >>= λ sent. ok (end x sent)) e in
      let sent = >>=-eq-ok (submits found.0) (λ q. ok (end found.0 q)) found.2 in
      subst (RoundOf t) (ok-injective sent.2) (record {
        main_shares = no_shares p t.main_state;
        dev_shares =
            submitted-SharesOf p s t.dev_last_submit f.now f.receiving found.0.hits sent.0 sent.1;
        one_pool = inr (refl, turn);
        advance = inr (refl, refl);
      })

  mine_batch-RoundOf :
      (t : Scheduler g.Searcher Body) (f : Found Body) (r : Ran g.Searcher Body)
      → mine_batch p g t f ≡ ok r
      → RoundOf t r
  unfolding mine_batch
  mine_batch-RoundOf t f r e = elim (Bool-cases (use_devfund t.batch_index (is_some t.dev_state))) [
    | inl dev ↦ mine_dev-RoundOf t f t.dev_state r (devfund_turn t.batch_index _ dev) (rw dev at e)
    | inr main ↦ mine_main-RoundOf t f t.main_state r (rw main at e)
  ]

  -- A round of the GPU scheduler that returns, with any device and whatever it reports as hits: what
  -- it sends to the pool are shares of the job that it holds for the pool, what it sends to the
  -- devfund's pool are shares of the job that it holds for that one, and the CPU's proof of work of
  -- each is at most the share target of its job; it sends to one of the two only, to the devfund's
  -- only in the last of each hundred batches; and either it mined nothing, sent nothing and left the
  -- nonce, or it went on by one batch of nonces modulo 2 ^ 64.
  pub scheduler_round-RoundOf :
      (t : Scheduler g.Searcher Body) (f : Found Body) (r : Ran g.Searcher Body)
      → scheduler_round p g t f ≡ ok r
      → RoundOf t r
  unfolding scheduler_round
  scheduler_round-RoundOf t f r e = by_wait t.main_state e
    where
      looked :
          (t' : Scheduler g.Searcher Body)
          → t'.nonce ≡ t.nonce
          → t'.batch_index ≡ t.batch_index
          → mine_batch p g (look_at_jobs t' f) f ≡ ok r
          → RoundOf t r
      looked t' same_nonce same_index mined =
          let round = mine_batch-RoundOf (look_at_jobs t' f) f r mined in
          record {
            main_shares = round.main_shares;
            dev_shares = round.dev_shares;
            one_pool = rw (← same_index) round.one_pool;
            advance = rw (← same_nonce, ← same_index) round.advance;
          }

      waited :
          (o : Option (WatchSwap (State Body)))
          → after_wait p g t f (Option.map (taken_main t) o) ≡ ok r
          → RoundOf t r
      waited none idled = subst (RoundOf t) (ok-injective idled) (idle-RoundOf t)
      waited (some w) mined = looked (taken_main t w) refl refl mined

      by_wait :
          (o : Option (State Body))
          → after_wait p g t f (awaited_main t f.looks o) ≡ ok r
          → RoundOf t r
      by_wait none ran = waited (wait_for_change f.looks t.main_jobs) ran
      by_wait (some s) ran = looked t refl refl ran
