-- ===== src/Stratum/Keeps.antt =====
-- What every line of the pool keeps of a handler, and what it makes true of the jobs it hands out.
use velkar_gpu.Base.{
  ℕ, ◌≡◌, refl, Bool, true, false, ◌||◌, List, Option, none, some, get_elem?, ForSome,
  if◌then◌else◌, Outcome, ok, err, panic, ◌>>=◌, ok_or, message, json,
}
use velkar_gpu.Base.Chain.{and_then}
use velkar_gpu.Word.{Bytes, u32}
use velkar_gpu.Text.{codes, bytes_eq}
use velkar_gpu.Target.{Uint256}
use velkar_gpu.Target.Difficulty.{u256_from_stratum_difficulty_str}
use velkar_gpu.Packages.{BigUint, Json}
use velkar_gpu.Stratum.{StratumHandler, Job, set_extranonce}
use velkar_gpu.Stratum.Lines.{
  Handled, JobParts, unchanged, deliver, payload, notify_with, notify_job, notify_params, notify,
  set_difficulty, extranonce_request, extranonce_result, result_array, is_error, handle_answer,
  handle_method, handle_value, handle_line,
}

-- What a result that is returned satisfies.
unfoldable pub Returns : {A : Type 0} → (A → Type 0) → Outcome A → Type 0
Returns P (ok a) = P a
Returns P (err e) = Unit
Returns P panic = Unit

Returns-bind :
    {A B : Type 0} (Q : A → Type 0) (P : B → Type 0) (m : Outcome A) (f : A → Outcome B)
    → Returns Q m
    → ((a : A) → Q a → Returns P (f a))
    → Returns P (m >>= f)
unfolding Returns
Returns-bind Q P (ok a) f h k = k a h
Returns-bind Q P (err e) f h k = tt
Returns-bind Q P panic f h k = tt

-- With no condition on the first result.
Returns-then :
    {A B : Type 0} (P : B → Type 0) (m : Outcome A) (f : A → Outcome B)
    → ((a : A) → Returns P (f a))
    → Returns P (m >>= f)
unfolding Returns
Returns-then P (ok a) f k = k a
Returns-then P (err e) f k = tt
Returns-then P panic f k = tt

Returns-if :
    {A : Type 0} (P : A → Type 0) (b : Bool) (m m' : Outcome A)
    → Returns P m
    → Returns P m'
    → Returns P (if b then m else m')
Returns-if P true m m' h h' = h
Returns-if P false m m' h h' = h'

-- `F` is a condition on handlers that a new extranonce and a new difficulty keep, and `J` one on the
-- jobs that are made with the extranonce of such a handler.
abbrev pub Keeps : (StratumHandler → Type 0) → (Job → Type 0) → Handled → Type 0
Keeps F J r = F r.handler × ForSome J r.job

module _ (j : Json) (n : BigUint) (F : StratumHandler → Type 0) (J : Job → Type 0)
    (keeps_extranonce : (h h' : StratumHandler) (extranonce : Bytes) (size : ℕ)
      → set_extranonce h extranonce size ≡ ok h'
      → F h
      → F h')
    (keeps_difficulty : (h : StratumHandler) (difficulty : Bytes)
      → F h
      → F (record h { current_difficulty = some difficulty }))
    (of_job : (h : StratumHandler) (job : Job)
      → job.nonce_mask ≡ h.nonce_mask
      → job.nonce_fixed ≡ h.nonce_fixed
      → F h
      → J job) where
  module _ (h : StratumHandler) (hf : F h) where
    configured :
        (extranonce : Bytes) (size : ℕ)
        → Returns (Keeps F J) (set_extranonce h extranonce size >>= λ h'. ok (unchanged h'))
    unfolding Returns
    configured extranonce size = go (set_extranonce h extranonce size) refl
      where
        go :
            (m : Outcome StratumHandler)
            → set_extranonce h extranonce size ≡ m
            → Returns (Keeps F J) (m >>= λ h'. ok (unchanged h'))
        go (ok h') e = (keeps_extranonce h h' extranonce size e hf, tt)
        go (err x) e = tt
        go panic e = tt

    deliver-Keeps :
        (job_id : Bytes) (fallback : Uint256) (parts : Option JobParts)
        → Keeps F J (deliver h job_id fallback parts)
    deliver-Keeps job_id fallback none = (hf, tt)
    deliver-Keeps job_id fallback (some parts) = (hf, of_job h _ refl refl hf)

    notify-Keeps : (params : Option (List j.Value)) → Returns (Keeps F J) (notify j n h params)
    unfolding notify Returns
    notify-Keeps none = (hf, tt)
    notify-Keeps (some params) = by_id (and_then (get_elem? params 0) j.as_str)
      where
        by_target :
            (job_id : Bytes) (target : Option Uint256)
            → Returns (Keeps F J) (notify_with j n h params job_id target)
        by_target job_id none = (hf, tt)
        by_target job_id (some fallback) =
            Returns-then (Keeps F J)
              (payload j n (and_then (get_elem? params 1) j.as_array)
                (and_then (get_elem? params 1) j.as_str) params)
              (λ parts. ok (deliver h job_id fallback parts)) (deliver-Keeps job_id fallback)

        by_difficulty :
            (job_id : Bytes) (diff : Option Bytes)
            → Returns (Keeps F J) (notify_job j n h params job_id diff)
        by_difficulty job_id none = (hf, tt)
        by_difficulty job_id (some diff) =
            by_target job_id (u256_from_stratum_difficulty_str n diff)

        by_id : (job_id : Option Bytes) → Returns (Keeps F J) (notify_params j n h params job_id)
        by_id none = (hf, tt)
        by_id (some job_id) = by_difficulty job_id h.current_difficulty

    set_difficulty-Keeps : (value : Option j.Value) → Keeps F J (set_difficulty j n h value)
    unfolding set_difficulty
    set_difficulty-Keeps none = (hf, tt)
    set_difficulty-Keeps (some value) = (keeps_difficulty h _ hf, tt)

    extranonce_request-Keeps :
        (params : Option (List j.Value)) → Returns (Keeps F J) (extranonce_request j n h params)
    unfolding extranonce_request
    extranonce_request-Keeps params =
        Returns-then (Keeps F J) (ok_or params (message "missing extranonce parameters")) _
          (λ params'.
            Returns-then (Keeps F J)
              (ok_or (and_then (get_elem? params' 0) j.as_str) (message "missing extranonce1")) _
              (λ extranonce.
                Returns-then (Keeps F J)
                  (ok_or (and_then (get_elem? params' 1) j.as_u64)
                    (message "missing extranonce2 size"))
                  _ (λ size. configured extranonce (u32 size))))

    handle_answer-Keeps : (value : j.Value) → Returns (Keeps F J) (handle_answer j n h value)
    unfolding handle_answer Returns
    handle_answer-Keeps value =
        Returns-if (Keeps F J) (is_error j n (j.get value (codes "error"))) (ok (unchanged h))
          (result_array j n h (and_then (j.get value (codes "result")) j.as_array)) (hf, tt)
          (by_array (and_then (j.get value (codes "result")) j.as_array))
      where
        by_fields :
            (extranonce : Option Bytes) (size : Option ℕ)
            → Returns (Keeps F J) (extranonce_result j n h extranonce size)
        by_fields (some extranonce) (some size) = configured extranonce (u32 size)
        by_fields (some extranonce) none = (hf, tt)
        by_fields none size = (hf, tt)

        by_array :
            (result : Option (List j.Value)) → Returns (Keeps F J) (result_array j n h result)
        by_array none = (hf, tt)
        by_array (some result) =
            by_fields (and_then (get_elem? result 1) j.as_str)
              (and_then (get_elem? result 2) j.as_u64)

    handle_method-Keeps :
        (value : j.Value) (method : Bytes) → Returns (Keeps F J) (handle_method j n h value method)
    unfolding handle_method Returns
    handle_method-Keeps value method =
        let params = and_then (j.get value (codes "params")) j.as_array in
        Returns-if (Keeps F J) (bytes_eq method (codes "mining.set_difficulty")) _ _
          (set_difficulty-Keeps (and_then params (λ x. get_elem? x 0)))
          (Returns-if (Keeps F J)
            (bytes_eq method (codes "set_extranonce")
              || bytes_eq method (codes "mining.set_extranonce"))
            _ _ (extranonce_request-Keeps params)
            (Returns-if (Keeps F J) (bytes_eq method (codes "mining.notify")) _ _
              (notify-Keeps params) (hf, tt)))

    pub handle_line-Keeps : (text : Bytes) → Returns (Keeps F J) (handle_line j n h text)
    unfolding handle_line
    handle_line-Keeps text =
        Returns-then (Keeps F J) (ok_or (j.parse text) json) _
          (λ value. by_method value (and_then (j.get value (codes "method")) j.as_str))
      where
        by_method :
            (value : j.Value) (method : Option Bytes)
            → Returns (Keeps F J) (handle_value j n h value method)
        by_method value none = handle_answer-Keeps value
        by_method value (some method) = handle_method-Keeps value method
