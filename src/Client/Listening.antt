-- ===== src/Client/Listening.antt =====
-- What the loop of `listen` in src/client.rs makes of the messages of the node.
use velkar_gpu.Base.{
  ℕ, ◌+◌, ◌≡◌, refl, sym, ap, subst, ◌∙◌, arith, Bool, true, false, List, [], ◌∷◌, length,
  length-append, Option, none, some, Bool-cases, inl, inr, Outcome, ok, ◌>>=◌, >>=-eq-ok,
  ok-injective,
}
use velkar_gpu.Pow.Header.{RpcBlock}
use velkar_gpu.Client.{
  VelkardHandler, Payload, Arrival, Received, new_block_template_notification,
  get_block_template_response, submit_block_response, get_block_response, get_info_response,
  notify_new_block_template_response, other, message_arrived, stream_ended, stream_failed,
  client_get_block_template, handle_message, handle_payload, listen,
}
use velkar_gpu.Client.Templates.{
  Instruction, nothing, instruction, obey, handle_message-instruction,
}

module _ {Body : Type 0} where
  -- What a message tells the miner: a template is read as the rule says, others say nothing.
  abbrev pub told : Bool → Option (Payload Body) → Instruction Body
  told anyway (some (get_block_template_response block synced error)) =
      instruction anyway block synced error
  told anyway payload = nothing

  -- What the messages tell the miner, up to the shutdown or the end of the stream.
  abbrev pub heard : Bool → List (Arrival Body) → List (Instruction Body)
  heard anyway [] = []
  heard anyway (stream_ended ∷ arrivals) = []
  heard anyway (stream_failed ∷ arrivals) = []
  heard anyway (message_arrived payload true ∷ arrivals) = []
  heard anyway (message_arrived payload false ∷ arrivals) =
      told anyway payload ∷ heard anyway arrivals

  abbrev pub asked : Option (Payload Body) → ℕ
  asked (some new_block_template_notification) = 1
  asked payload = 0

  -- How many notifications of a new template arrive before the shutdown or the end of the stream.
  abbrev pub notified : List (Arrival Body) → ℕ
  notified [] = 0
  notified (stream_ended ∷ arrivals) = 0
  notified (stream_failed ∷ arrivals) = 0
  notified (message_arrived payload true ∷ arrivals) = 0
  notified (message_arrived payload false ∷ arrivals) = asked payload + notified arrivals

  asks :
      (h h' : VelkardHandler Body)
      → client_get_block_template h ≡ ok h'
      → (h'.mine_when_not_synced ≡ h.mine_when_not_synced) × (length h'.sent ≡ length h.sent + 1)
  unfolding client_get_block_template
  asks h h' e = elim (Bool-cases h.connected) [
    | inl on ↦ grind (arith, length-append)
    | inr off ↦ absurd (ground arith)
  ]

module _ {Body Miner : Type 0}
    (process_block : Miner → Option (RpcBlock Body) → Outcome Miner) where
  -- The miner does what it is told, in order.
  abbrev pub obey_all : Miner → List (Instruction Body) → Outcome Miner
  obey_all miner [] = ok miner
  obey_all miner (i ∷ is) = obey process_block miner i >>= λ m. obey_all m is

  -- What a handler has sent and asked for behind a message.
  abbrev pub Answered : VelkardHandler Body → ℕ → VelkardHandler Body → Type 0
  Answered h n h' =
      (h'.mine_when_not_synced ≡ h.mine_when_not_synced) × (length h'.sent ≡ length h.sent + n)

  kept :
      (h : VelkardHandler Body) (miner : Miner) (r : Received Body Miner)
      → ok (record { handler = h; miner = miner }) ≡ ok r
      → Answered h 0 r.handler × (ok miner ≡ ok r.miner)
  kept h miner r e = ground arith

  pub handle_payload-told :
      (h : VelkardHandler Body) (miner : Miner) (payload : Option (Payload Body))
      (r : Received Body Miner)
      → handle_payload process_block h miner payload ≡ ok r
      → Answered h (asked payload) r.handler
        × (obey process_block miner (told h.mine_when_not_synced payload) ≡ ok r.miner)
  unfolding handle_message
  handle_payload-told h miner none r e = kept h miner r e
  handle_payload-told h miner (some new_block_template_notification) r e =
      let sent =
        >>=-eq-ok (client_get_block_template h) (λ h'. ok (record { handler = h'; miner = miner }))
          e in
      subst (λ x. Answered h 1 x.handler × (ok miner ≡ ok x.miner)) (ok-injective sent.2)
        (asks h sent.0 sent.1, refl)
  handle_payload-told h miner (some (get_block_template_response block synced error)) r e =
      let given =
        >>=-eq-ok (obey process_block miner (instruction h.mine_when_not_synced block synced error))
          (λ m. ok (record { handler = h; miner = m }))
          (sym (handle_message-instruction process_block h miner block synced error) ∙ e) in
      grind arith
  handle_payload-told h miner (some (submit_block_response error)) r e = kept h miner r e
  handle_payload-told h miner (some (get_block_response none)) r e = kept h miner r e
  handle_payload-told h miner (some (get_block_response (some error))) r e = absurd (ground arith)
  handle_payload-told h miner (some get_info_response) r e = kept h miner r e
  handle_payload-told h miner (some (notify_new_block_template_response error)) r e =
      kept h miner r e
  handle_payload-told h miner (some other) r e = kept h miner r e

  -- The loop of the node's client, when it returns without an error or waits for more, whatever the
  -- miner is: of what arrived before the shutdown was seen or the stream ended, the miner has been
  -- told what the rule makes of each template, in order and nothing else, and one request has been
  -- sent for each notification of a new template.
  pub listen-heard :
      (h : VelkardHandler Body) (miner : Miner) (arrivals : List (Arrival Body))
      (r : Received Body Miner)
      → listen process_block h miner arrivals ≡ ok r
      → (obey_all miner (heard h.mine_when_not_synced arrivals) ≡ ok r.miner)
        × (length r.handler.sent ≡ length h.sent + notified arrivals)
  unfolding listen
  listen-heard h miner [] r e = let end = kept h miner r e in (end.1, end.0.1)
  listen-heard h miner (stream_ended ∷ arrivals) r e =
      let end = kept h miner r e in (end.1, end.0.1)
  listen-heard h miner (stream_failed ∷ arrivals) r e = absurd (ground arith)
  listen-heard h miner (message_arrived payload true ∷ arrivals) r e =
      let end = kept h miner r e in (end.1, end.0.1)
  listen-heard h miner (message_arrived payload false ∷ arrivals) r e =
      let first =
        >>=-eq-ok (handle_payload process_block h miner payload)
          (λ x. listen process_block x.handler x.miner arrivals) e in
      let told_first = handle_payload-told h miner payload first.0 first.1 in
      let rest = listen-heard first.0.handler first.0.miner arrivals r first.2 in
      (
        ap (λ x. x >>= λ m. obey_all m (heard h.mine_when_not_synced arrivals)) told_first.1
            ∙ ap (λ anyway. obey_all first.0.miner (heard anyway arrivals)) (sym told_first.0.0)
            ∙ rest.0,
        omega (arith, rest.1, told_first.0.1),
      )
