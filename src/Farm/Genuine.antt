-- ===== src/Farm/Genuine.antt =====
-- Genuine shares: of a job that the pool announced, with a proof of work for it.
use mathlib.Core.Option.{some-injective}
use velkar_gpu.Base.{
  Option-cases, ℕ, ◌≡◌, refl, sym, ap, subst, Bool, true, List, [], ◌∷◌, ◌++◌, Option, none, some,
  ForSome, Occurs, Occurs-append_left, Occurs-last, inl, inr,
}
use velkar_gpu.Packages.{Packages}
use velkar_gpu.Pow.State.{State, from_stratum, apply_extranonce}
use velkar_gpu.Stratum.{StratumCommand, Job}
use velkar_gpu.Stratum.Lines.{push_job}
use velkar_gpu.Watch.{Cell, WatchSwap, swap}
use velkar_gpu.Miner.{process_job}
use velkar_gpu.Miner.Pool.Sends.{IsPoolShare, HasExtranonce, IsRoundShare}
use velkar_gpu.Miner.Launch.{StratumMinerManager, receive_job}

Occurs-push_job :
    {a : Job} {jobs : List Job} (o : Option Job) → Occurs a jobs → Occurs a (push_job jobs o)
Occurs-push_job none h = h
Occurs-push_job (some job) h = Occurs-append_left (job ∷ []) h

module _ (p : Packages) (fuel : ℕ) (Body : Type 0) where
  -- The state is that of one of the jobs.
  pub record IsStateOf (jobs : List Job) (made : State Body) : Type 0 where
    pub job : Job
    pub id : ℕ
    pub announced : Occurs job jobs
    pub built :
        from_stratum p fuel id job.job_id job.pre_pow_hash job.timestamp job.block_target
          job.share_target job.nonce_mask job.nonce_fixed
        ≡ some made

  -- The same, but for the nonce.
  abbrev pub IsWork : List Job → State Body → Type 0
  IsWork jobs s =
      (made : State Body) × (nonce : ℕ) × IsStateOf jobs made × (s ≡ record made { nonce = nonce })

  -- A submission for one of the jobs: its nonce meets a target of the job on the CPU, and if only
  -- CPUs mine, it carries the extranonce of the job.
  abbrev pub IsGenuine : (only_cpus : Bool) → List Job → StratumCommand → Type 0
  IsGenuine only_cpus jobs m =
      (made : State Body) × IsStateOf jobs made
      × IsPoolShare p made m
      × (only_cpus ≡ true → HasExtranonce p made m)

  abbrev later_jobs :
      {jobs : List Job} (o : Option Job) (made : State Body)
      → IsStateOf jobs made
      → IsStateOf (push_job jobs o) made
  later_jobs o made h = record {
    job = h.job;
    id = h.id;
    announced = Occurs-push_job o h.announced;
    built = h.built;
  }

  pub IsWork-push_job :
      {jobs : List Job} (o : Option Job) (s : State Body)
      → IsWork jobs s
      → IsWork (push_job jobs o) s
  IsWork-push_job o s h = (h.0, h.1, later_jobs o h.0 h.2, h.3)

  pub IsGenuine-push_job :
      {only_cpus : Bool} {jobs : List Job} (o : Option Job) (m : StratumCommand)
      → IsGenuine only_cpus jobs m
      → IsGenuine only_cpus (push_job jobs o) m
  IsGenuine-push_job o m h = (h.0, later_jobs o h.0 h.1, h.2, h.3)

  pub IsWork-nonce :
      {jobs : List Job} (s : State Body) (nonce : ℕ)
      → IsWork jobs s
      → IsWork jobs (record s { nonce = nonce })
  IsWork-nonce s nonce h =
      let put : State Body → State Body = λ t. record t { nonce = nonce } in
      (h.0, nonce, h.2, ap put h.3)

  renonced :
      {Searcher : Type 0} (gpu : Option Searcher) (made : State Body) (nonce : ℕ)
      (m : StratumCommand)
      → IsRoundShare p gpu (record made { nonce = nonce }) m
      → IsRoundShare p gpu made m
  unfolding apply_extranonce
  renonced gpu made nonce m (share, own) = (
    record {
      job_id = share.job_id;
      nonce = share.nonce;
      of_job = share.of_job;
      matches = share.matches;
      is_share = share.is_share;
    },
    own,
  )

  -- A share of a round on such a state is genuine.
  pub IsRoundShare-IsGenuine :
      {Searcher : Type 0} {only_cpus : Bool} {jobs : List Job} (gpu : Option Searcher)
      (s : State Body) (m : StratumCommand)
      → (only_cpus ≡ true → gpu ≡ none)
      → IsWork jobs s
      → IsRoundShare p gpu s m
      → IsGenuine only_cpus jobs m
  IsRoundShare-IsGenuine gpu s m cpus h share =
      let of_made = renonced gpu h.0 h.1 m (rw (← h.3) share) in
      (h.0, h.2, of_made.0, λ only. of_made.1 (cpus only))

  abbrev pub IsCell : List Job → Cell (State Body) → Type 0
  IsCell jobs c = ForSome (IsWork jobs) c.value

  process_job-eq-some :
      (id : ℕ) (channel w : WatchSwap (State Body)) (fresh : ℕ) (job : Job)
      → process_job p fuel id channel fresh job ≡ some w
      → (made : State Body) × (from_stratum p fuel id job.job_id job.pre_pow_hash job.timestamp
            job.block_target job.share_target job.nonce_mask job.nonce_fixed
          ≡ some made)
        × (w.inner.value ≡ some made)
  unfolding process_job swap
  process_job-eq-some id channel w fresh job e =
      elim (Option-cases (
        from_stratum p {Body = Body} fuel id job.job_id job.pre_pow_hash job.timestamp
          job.block_target job.share_target job.nonce_mask job.nonce_fixed)) [
            | inl nothing ↦ absurd (cc (rw nothing at e))
            | inr made ↦ (
              made.0,
              made.1,
              ap (λ t. t.inner.value) (sym (some-injective _ _ (rw made.1 at e))),
            )
          ]

  -- The manager puts the state of the job into the watched cell.
  pub receive_job-IsCell :
      {Searcher : Type 0} (jobs : List Job) (m m' : StratumMinerManager Searcher Body) (fresh : ℕ)
      (o : Option Job)
      → receive_job p fuel m fresh o ≡ some m'
      → IsCell jobs m.job_channel.inner
      → IsCell (push_job jobs o) m'.job_channel.inner × (m'.handles ≡ m.handles)
  unfolding receive_job
  receive_job-IsCell jobs m m' fresh none e h =
      let same = some-injective _ _ e in (rw (← same) h, ap (λ t. t.handles) (sym same))
  receive_job-IsCell jobs m m' fresh (some job) e h =
      elim (Option-cases (process_job p fuel m.current_state_id m.job_channel fresh job)) [
        | inl nothing ↦ absurd (cc (rw nothing at e))
        | inr w ↦
            let stored = process_job-eq-some m.current_state_id m.job_channel w.0 fresh job w.1 in
            let same = some-injective _ _ (rw w.1 at e) in
            let work : IsWork (jobs ++ job ∷ []) stored.0 = (
              stored.0,
              stored.0.nonce,
              record {
                job = job;
                id = m.current_state_id;
                announced = Occurs-last jobs job;
                built = stored.1;
              },
              refl,
            ) in
            (
              subst (λ t. IsCell (jobs ++ job ∷ []) t.job_channel.inner) same
                  (subst (ForSome (IsWork (jobs ++ job ∷ []))) (sym stored.2) work),
              ap (λ t. t.handles) (sym same),
            )
      ]
