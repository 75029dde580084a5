-- ===== src/Farm/Wire.antt =====
-- What a session writes to the pool: its greeting, and then only submissions of the commands taken.
use mathlib.Core.List.{append_assoc}
use velkar_gpu.Base.{
  ℕ, ◌≡◌, refl, ap, subst, ◌∙◌, Bool, List, [], ◌∷◌, ◌++◌, none, some, All, All-append, All-map,
  Bool-cases, inl, inr, Outcome, ok, err, panic, ◌>>=◌,
}
use velkar_gpu.Word.{Bytes}
use velkar_gpu.Text.{codes}
use velkar_gpu.Packages.{BigUint, Json}
use velkar_gpu.Stratum.{StratumHandler, StratumCommand, submit_share, send_command}
use velkar_gpu.Stratum.Extranonce.{set_extranonce-IsExtranonce}
use velkar_gpu.Stratum.Keeps.{Returns, Keeps, handle_line-Keeps}
use velkar_gpu.Stratum.Lines.{
  Handled, unchanged, Event, command, line, line_error, end_of_lines, Status, running, finished,
  failed, panicked, Session, next_round, take_up, listen_round, while_running, handle_line,
}
use velkar_gpu.Farm.{IsOutside}

-- The line of a submission.
abbrev pub submission : Json → (id : ℕ) → (worker : Bytes) → StratumCommand → Bytes
submission j id worker (submit_share job_id nonce) =
    j.request id (codes "mining.submit") (worker ∷ job_id ∷ nonce ∷ [])

module _ (j : Json) (worker : Bytes) (hello : List Bytes) where
  -- Submissions of commands with a property.
  abbrev pub IsSubmission : (StratumCommand → Type 0) → Bytes → Type 0
  IsSubmission G text = (id : ℕ) × (m : StratumCommand) × G m × (text ≡ submission j id worker m)

  -- The lines of a handler are the greeting and submissions.
  abbrev pub Written : (StratumCommand → Type 0) → StratumHandler → Type 0
  Written G h =
      (h.worker_name ≡ worker)
      × (lines : List Bytes) × (h.writer.sent ≡ hello ++ lines)
      × All (IsSubmission G) lines

  pub Written-map :
      {G K : StratumCommand → Type 0} (f : (m : StratumCommand) → G m → K m) (h : StratumHandler)
      → Written G h
      → Written K h
  Written-map f h w = (w.0, w.1, w.2, All-map (λ text s. (s.0, s.1, f s.1 s.2, s.3)) w.1 w.3)

  module _ (G : StratumCommand → Type 0) where
    abbrev StaysWritten : Handled → Type 0
    StaysWritten = Keeps (Written G) (λ job. Unit)

    sent-Written :
        (h : StratumHandler) (cmd : StratumCommand)
        → G cmd
        → Written G h
        → Returns StaysWritten (send_command j h cmd >>= λ h'. ok (unchanged h'))
    unfolding send_command Returns
    sent-Written h (submit_share job_id nonce) genuine w = elim (Bool-cases h.writer.connected) [
      | inr gone ↦ rw gone tt
      | inl up ↦ rw up (
        (
          w.0,
          w.1 ++ text ∷ [],
          ap (λ sent. sent ++ text ∷ []) w.2 ∙ append_assoc hello w.1 (text ∷ []),
          All-append (IsSubmission G) w.1 (text ∷ []) w.3
              ((h.request_id, submit_share job_id nonce, genuine, rw (← w.0) refl), tt),
        ),
        tt,
      )
    ]
      where
        text : Bytes
        text = submission j h.request_id h.worker_name (submit_share job_id nonce)

    next_round-Written :
        (s : Session) (shutdown : Bool) (m : Outcome Handled)
        → Written G s.handler
        → Returns StaysWritten m
        → Written G (next_round s shutdown m).handler
    unfolding Returns
    next_round-Written s shutdown (ok r) w h = h.0
    next_round-Written s shutdown (err e) w h = w
    next_round-Written s shutdown panic w h = w

    module _ (n : BigUint) (s : Session) (shutdown : Bool) (w : Written G s.handler) where
      by_status :
          (event : Event)
          → Written G (take_up j n s event shutdown).handler
          → Written G (listen_round j n s event shutdown).handler
      unfolding listen_round
      by_status event taken = go s.status
        where
          go :
              (status : Status)
              → Written G (while_running j n status s (take_up j n s event shutdown)).handler
          go running = taken
          go finished = w
          go (failed e) = w
          go panicked = w

      -- A command that is taken is written at most once, and nothing else.
      pub takes-Written :
          (cmd : StratumCommand)
          → G cmd
          → Written G (listen_round j n s (command (some cmd)) shutdown).handler
      takes-Written cmd genuine = by_status (command (some cmd)) (
          next_round-Written s shutdown (send_command j s.handler cmd >>= λ h. ok (unchanged h)) w
            (sent-Written s.handler cmd genuine w))

      -- Lines of the pool and all else from outside write nothing.
      pub hears-Written :
          (event : Event) → IsOutside event → Written G (listen_round j n s event shutdown).handler
      hears-Written (command (some cmd)) outside = elim outside [ ]
      hears-Written (command none) outside = by_status (command none) w
      hears-Written (line text) outside = by_status (line text) (
          next_round-Written s shutdown (handle_line j n s.handler text) w (
            handle_line-Keeps j n (Written G) (λ job. Unit)
              (λ h h' extranonce size e.
                subst (Written G) (set_extranonce-IsExtranonce h h' extranonce size e).1)
              (λ h difficulty kept. kept) (λ h job mask fixed kept. tt) s.handler w text))
      hears-Written line_error outside = by_status line_error w
      hears-Written end_of_lines outside = by_status end_of_lines w

-- Taking a command hands out no job.
pub takes-jobs :
    (j : Json) (n : BigUint) (s : Session) (cmd : StratumCommand) (shutdown : Bool)
    → (listen_round j n s (command (some cmd)) shutdown).jobs ≡ s.jobs
unfolding listen_round
takes-jobs j n s cmd shutdown = go s.status
  where
    taken :
        (m : Outcome StratumHandler)
        → (next_round s shutdown (m >>= λ h. ok (unchanged h))).jobs ≡ s.jobs
    taken (ok h) = refl
    taken (err e) = refl
    taken panic = refl

    go :
        (status : Status)
        → (while_running j n status s (take_up j n s (command (some cmd)) shutdown)).jobs ≡ s.jobs
    go running = taken (send_command j s.handler cmd)
    go finished = refl
    go (failed e) = refl
    go panicked = refl
