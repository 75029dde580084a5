-- ===== src/Farm/Invariant.antt =====
-- What holds in every farm that a connection can come to.
use velkar_gpu.Base.{
  update-all, ℕ, ◌≡◌, refl, sym, ap, subst, Bool, true, List, ◌∷◌, Option, none, some, All,
  All-append, All-map, ForSome, ForSome-map, All-Occurs, inl, inr,
}
use velkar_gpu.Word.{Bytes}
use velkar_gpu.Packages.{Packages, BigUint, Json}
use velkar_gpu.Pow.State.{State}
use velkar_gpu.Stratum.{Job}
use velkar_gpu.Stratum.Lines.{command, push_job, listen_round}
use velkar_gpu.Gpu.Searcher.{Searching}
use velkar_gpu.Miner.Pool.{PoolThread, PoolFound, PoolRan}
use velkar_gpu.Miner.Pool.Looks.{awaited_job-ForSome}
use velkar_gpu.Miner.Pool.Rounds.{FoundJob, LeftJob, PoolRoundOf, pool_round-PoolRoundOf}
use velkar_gpu.Farm.{Farm, Step, takes, hears, mines, fails, Reach, here, next, CanFind, ended}
use velkar_gpu.Farm.Genuine.{
  IsWork, IsGenuine, IsCell, IsWork-push_job, IsGenuine-push_job, IsWork-nonce,
  IsRoundShare-IsGenuine, receive_job-IsCell,
}
use velkar_gpu.Farm.Wire.{Written, Written-map, takes-Written, hears-Written, takes-jobs}

module _ (p : Packages) (fuel : ℕ) (j : Json) (n : BigUint) {Body : Type 0} (g : Searching Body)
    (only_cpus : Bool) (worker : Bytes) (hello : List Bytes) where
  abbrev ThreadWorks : List Job → PoolThread g.Searcher Body → Type 0
  ThreadWorks jobs t =
      ForSome (IsWork p fuel Body jobs) t.thread.state × (only_cpus ≡ true → t.gpu ≡ none)

  -- What is written and queued are genuine submissions for the jobs announced, and the threads work
  -- on those jobs.
  pub record IsSound (jobs : List Job) (s : Farm g.Searcher Body) : Type 0 where
    pub written : Written j worker hello (IsGenuine p fuel Body only_cpus jobs) s.session.handler
    pub queued : All (IsGenuine p fuel Body only_cpus jobs) s.queue
    pub cells : All (IsCell p fuel Body jobs) s.cells
    pub channel : IsCell p fuel Body jobs s.manager.job_channel.inner
    pub threads : (i : ℕ) → ThreadWorks jobs (s.manager.handles i)

  found-IsWork :
      (jobs : List Job) (s : Farm g.Searcher Body) (i : ℕ) (f : PoolFound Body) (made : State Body)
      → IsSound jobs s
      → CanFind p fuel j n g s f
      → FoundJob p g (s.manager.handles i) f made
      → IsWork p fuel Body jobs made
  found-IsWork jobs s i f made sound found (inl held) =
      let t = (s.manager.handles i).thread in
      subst (ForSome (IsWork p fuel Body jobs)) held (
        awaited_job-ForSome (IsWork p fuel Body jobs) t f.looks t.state refl (sound.threads i).0
          (All-map (λ c. All-Occurs (IsCell p fuel Body jobs) sound.cells) f.looks found.looks))
  found-IsWork jobs s i f made sound found (inr seen) =
      subst (ForSome (IsWork p fuel Body jobs)) seen
        (All-Occurs (IsCell p fuel Body jobs) sound.cells found.seen)

  left-IsWork :
      (jobs : List Job) (s : Farm g.Searcher Body) (i : ℕ) (f : PoolFound Body)
      (o : Option (State Body))
      → IsSound jobs s
      → CanFind p fuel j n g s f
      → LeftJob p g (s.manager.handles i) f o
      → ForSome (IsWork p fuel Body jobs) o
  left-IsWork jobs s i f o sound found (inl gone) = rw gone tt
  left-IsWork jobs s i f o sound found (inr (made, nonce, origin, left)) =
      subst (ForSome (IsWork p fuel Body jobs)) (sym left)
        (IsWork-nonce p fuel Body made nonce (found-IsWork jobs s i f made sound found origin))

  round_sends :
      (jobs : List Job) (s : Farm g.Searcher Body) (i : ℕ) (f : PoolFound Body)
      (r : PoolRan g.Searcher Body)
      → IsSound jobs s
      → CanFind p fuel j n g s f
      → PoolRoundOf p g (s.manager.handles i) f r
      → All (IsGenuine p fuel Body only_cpus jobs) r.messages
  round_sends jobs s i f r sound found round = elim round.shares [
    | inl silent ↦ rw silent tt
    | inr sent ↦
        All-map
          (λ m.
            IsRoundShare-IsGenuine p fuel Body r.miner.gpu sent.0 m
              (λ only. round.keeps_cpu ((sound.threads i).1 only))
              (found-IsWork jobs s i f sent.0 sound found sent.1))
          r.messages sent.2
  ]

  Step-IsSound :
      {s t : Farm g.Searcher Body}
      → Step p fuel j n g s t
      → IsSound s.session.jobs s
      → IsSound t.session.jobs t
  Step-IsSound {s} (takes cmd rest shutdown queue) sound =
      let G = IsGenuine p fuel Body only_cpus s.session.jobs in
      let queued = subst (All G) queue sound.queued in
      subst
        (λ jobs. IsSound jobs (record s {
          session = listen_round j n s.session (command (some cmd)) shutdown;
          queue = rest;
        }))
        (sym (takes-jobs j n s.session cmd shutdown))
        (record {
          written = takes-Written j worker hello G n s.session shutdown sound.written cmd queued.0;
          queued = queued.1;
          cells = sound.cells;
          channel = sound.channel;
          threads = sound.threads;
        })
  Step-IsSound {s} (hears event shutdown job fresh manager outside pushed received) sound =
      let jobs = s.session.jobs in
      let G = IsGenuine p fuel Body only_cpus jobs in
      let stored =
        receive_job-IsCell p fuel Body jobs s.manager manager fresh job received sound.channel in
      let work = IsWork-push_job p fuel Body {jobs = jobs} job in
      let genuine = IsGenuine-push_job p fuel Body {only_cpus = only_cpus} {jobs = jobs} job in
      subst
        (λ jobs'. IsSound jobs' (record s {
          session = listen_round j n s.session event shutdown;
          manager = manager;
          cells = manager.job_channel.inner ∷ s.cells;
        }))
        (sym pushed)
        (record {
          written =
              Written-map j worker hello genuine (listen_round j n s.session event shutdown).handler
                (hears-Written j worker hello G n s.session shutdown sound.written event outside);
          queued = All-map genuine s.queue sound.queued;
          cells = (stored.0, All-map (λ c. ForSome-map work c.value) s.cells sound.cells);
          channel = stored.0;
          threads = λ i. subst (ThreadWorks (push_job jobs job)) (ap (λ f. f i) (sym stored.1)) (
            ForSome-map work (s.manager.handles i).thread.state (sound.threads i).0,
            (sound.threads i).1,
          );
        })
  Step-IsSound {s} (mines i f r low alive found ran) sound =
      let jobs = s.session.jobs in
      let round = pool_round-PoolRoundOf p g (s.manager.handles i) f r ran in
      record {
        written = sound.written;
        queued =
            All-append (IsGenuine p fuel Body only_cpus jobs) s.queue r.messages sound.queued
              (round_sends jobs s i f r sound found round);
        cells = sound.cells;
        channel = sound.channel;
        threads =
            update-all (ThreadWorks jobs) s.manager.handles i r.miner
              (
                left-IsWork jobs s i f r.miner.thread.state sound found round.left,
                λ only. round.keeps_cpu ((sound.threads i).1 only),
              )
              sound.threads;
      }
  Step-IsSound {s} (fails i f e last_submit low alive found ran) sound = record {
    written = sound.written;
    queued = sound.queued;
    cells = sound.cells;
    channel = sound.channel;
    threads =
        update-all (ThreadWorks s.session.jobs) s.manager.handles i (ended (s.manager.handles i))
          (sound.threads i) sound.threads;
  }

  pub Reach-IsSound :
      {s t : Farm g.Searcher Body}
      → IsSound s.session.jobs s
      → Reach p fuel j n g s t
      → IsSound t.session.jobs t
  Reach-IsSound sound here = sound
  Reach-IsSound sound (next r st) = Step-IsSound st (Reach-IsSound sound r)
