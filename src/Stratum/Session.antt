-- ===== src/Stratum/Session.antt =====
-- The session with a pool: every job that reaches the miner carries a well-formed extranonce, and a
-- session that stopped stays stopped.
use velkar_gpu.Base.{◌≡◌, ◌≢◌, ◌∙◌, refl, ap, List, [], ◌∷◌, All}
use velkar_gpu.Packages.{BigUint, Json}
use velkar_gpu.Stratum.{StratumHandler, Job}
use velkar_gpu.Stratum.Extranonce.{IsExtranonce}
use velkar_gpu.Stratum.Keeps.{Keeps}
use velkar_gpu.Stratum.Lines.{
  Handled, Status, running, finished, failed, panicked, Session, take_up, listen_round,
  while_running, Round, listen,
}

abbrev pub HandlerFits : StratumHandler → Type 0
HandlerFits h = IsExtranonce h.nonce_mask h.nonce_fixed

abbrev pub JobFits : Job → Type 0
JobFits job = IsExtranonce job.nonce_mask job.nonce_fixed

abbrev Fits : Handled → Type 0
Fits = Keeps HandlerFits JobFits

-- The handler of a session and all the jobs handed to the miner carry extranonces.
abbrev pub IsSession : Session → Type 0
IsSession s = HandlerFits s.handler × All JobFits s.jobs

module _ (j : Json) (n : BigUint) where
  -- A session that has finished, failed or panicked does nothing more.
  pub listen_stopped :
      (s : Session) (rounds : List Round) → s.status ≢ running → listen j n s rounds ≡ s
  unfolding listen listen_round
  listen_stopped s [] h = refl
  listen_stopped s (r ∷ rounds) h =
      ap (λ t. listen j n t rounds) (stays s.status h) ∙ listen_stopped s rounds h
    where
      stays :
          (status : Status)
          → status ≢ running
          → while_running j n status s (take_up j n s r.event r.shutdown) ≡ s
      stays running bad = absurd (bad refl)
      stays finished bad = refl
      stays (failed e) bad = refl
      stays panicked bad = refl
