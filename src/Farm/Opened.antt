-- ===== src/Farm/Opened.antt =====
-- A miner of a pool from its connection on: what it writes to the pool.
use velkar_gpu.Base.{
  ℕ, ◌≡◌, refl, subst, Bool, true, false, List, [], ◌∷◌, ◌++◌, Option, none, some, All, ForSome,
  Outcome, ok, err, panic, >>=-eq-ok, ok-injective,
}
use velkar_gpu.Word.{Bytes}
use velkar_gpu.Packages.{Packages, BigUint, Json}
use velkar_gpu.Pow.State.{State}
use velkar_gpu.Stratum.Lines.{user_agent, connect, started}
use velkar_gpu.Watch.{empty}
use velkar_gpu.Gpu.{GpuConfig}
use velkar_gpu.Gpu.Searcher.{Searching}
use velkar_gpu.Miner.Launch.{
  StratumMinerManager, receive_job, launch_cpu_miner, with_searcher, idle_thread,
}
use velkar_gpu.Start.{launched}
use velkar_gpu.Text.{codes}
use velkar_gpu.Miner.Launch
use velkar_gpu.Farm.{Farm, Reach, opened}
use velkar_gpu.Farm.Invariant.{IsSound, Reach-IsSound}
use velkar_gpu.Farm.Genuine.{IsWork, IsGenuine}
use velkar_gpu.Farm.Wire.{IsSubmission}

abbrev pub is_none {ℓ} : {A : Type ℓ} → Option A → Bool
is_none none = true
is_none (some a) = false

-- What the threads of a new manager work on: nothing.
new_thread :
    {Searcher Body : Type 0} (P : State Body → Type 0) (searcher : GpuConfig → Outcome Searcher)
    (nonce : ℕ) (config : Option GpuConfig)
    → ForSome P (launch_cpu_miner {Body = Body} searcher config nonce).thread.state
      × (config ≡ none → (launch_cpu_miner {Body = Body} searcher config nonce).gpu ≡ none)
unfolding launch_cpu_miner
new_thread {Searcher} {Body} P searcher nonce none = (tt, λ e. refl)
new_thread {Searcher} {Body} P searcher nonce (some config) = by_searcher (searcher config)
  where
    by_searcher :
        (m : Outcome Searcher)
        → ForSome P (with_searcher {Body = Body} nonce m).thread.state
          × (some config ≡ none → (with_searcher {Body = Body} nonce m).gpu ≡ none)
    by_searcher (ok gpu) = (tt, λ e. absurd (cc e))
    by_searcher (err x) = (tt, λ e. refl)
    by_searcher panic = (tt, λ e. refl)

-- The two lines that a connection starts with.
abbrev pub greeting : Json → (version address : Bytes) → Option Bytes → List Bytes
greeting j version address suffix =
    j.request 1 (codes "mining.subscribe") (user_agent j version suffix ∷ [])
    ∷ j.request 2 (codes "mining.authorize") (address ∷ codes "x" ∷ [])
    ∷ []

module _ (p : Packages) (fuel : ℕ) (j : Json) (n : BigUint) {Body : Type 0} (g : Searching Body)
    (version address : Bytes) (suffix : Option Bytes) (physical : ℕ)
    (searcher : GpuConfig → Outcome g.Searcher) (nonces : ℕ → ℕ) (n_cpus : Option ℕ)
    (config : Option GpuConfig) where
  opened-IsSound :
      (manager : StratumMinerManager g.Searcher Body)
      → Launch.new physical searcher nonces n_cpus config ≡ ok manager
      → IsSound p fuel j n g
          (is_none config)
          address
          (greeting j version address suffix)
          []
          (opened (started (connect j version address suffix)) manager)
  unfolding Launch.new connect empty
  opened-IsSound manager e =
      let counted = >>=-eq-ok (launched physical n_cpus config) _ e in
      subst
        (λ m.
          IsSound p fuel j n g (is_none config) address (greeting j version address suffix) []
            (opened (started (connect j version address suffix)) m))
        (ok-injective counted.2)
        (record {
          written = (refl, [], refl, tt);
          queued = tt;
          cells = (tt, tt);
          channel = tt;
          threads = λ i.
              let new = new_thread (IsWork p fuel Body []) searcher (nonces i) config in
              (new.0, λ only. new.1 (is_none-eq config only));
        })
    where
      is_none-eq : (o : Option GpuConfig) → is_none o ≡ true → o ≡ none
      is_none-eq none e = refl
      is_none-eq (some x) e = absurd (cc e)

  -- A miner of a pool, from its connection on, in any interleaving of its client and its threads,
  -- with a GPU or without one, whatever the pool sends, the GPU reports, and the clock and the
  -- shutdown say: the lines it has written are the subscription, the authorization, and then only
  -- submissions for its worker, each of a job that the pool announced to it, with a nonce whose proof
  -- of work on the CPU meets a target of the job, and without a GPU with the extranonce of the job.
  -- So is every submission that waits in the channel.
  pub written-IsGenuine :
      (manager : StratumMinerManager g.Searcher Body) (s : Farm g.Searcher Body)
      → Launch.new physical searcher nonces n_cpus config ≡ ok manager
      → Reach p fuel j n g (opened (started (connect j version address suffix)) manager) s
      → ((lines : List Bytes) × (s.session.handler.writer.sent
            ≡ greeting j version address suffix ++ lines)
          × All
              (IsSubmission j address
                (greeting j version address suffix)
                (IsGenuine p fuel Body (is_none config) s.session.jobs))
              lines)
        × All (IsGenuine p fuel Body (is_none config) s.session.jobs) s.queue
  written-IsGenuine manager s made reached =
      let sound =
        Reach-IsSound p fuel j n g (is_none config) address (greeting j version address suffix)
          (opened-IsSound manager made) reached in
      ((sound.written.1, sound.written.2, sound.written.3), sound.queued)
