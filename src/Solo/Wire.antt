-- ===== src/Solo/Wire.antt =====
-- What a message of the node makes of the client, and of the watched template.
use mathlib.Core.Option.{some-injective}
use velkar_gpu.Base.{
  ℕ, ◌+◌, ◌≡◌, refl, sym, ap, subst, ◌∙◌, Bool, true, false, ◌||◌, List, [], ◌∷◌, ◌++◌, Option,
  none, some, ForSome-map, Occurs, here, inl, inr, ◌⊎◌, if◌then◌else◌, Bool-cases, Outcome, ok,
  ◌>>=◌, >>=-eq-ok, ok-injective,
}
use velkar_gpu.Word.{Bytes, u64}
use velkar_gpu.Packages.{Packages}
use velkar_gpu.Pow.Header.{RpcBlock}
use velkar_gpu.Client.{
  VelkardHandler, VelkardMessage, Payload, Received, get_block_template_request,
  new_block_template_notification, get_block_template_response, submit_block_response,
  get_block_response, get_info_response, notify_new_block_template_response, other, client_send,
  client_get_block_template, handle_message, handle_payload, pay_address,
}
use velkar_gpu.Client.Templates.{
  Instruction, nothing, mine, stop, instruction, obey, handle_message-instruction,
}
use velkar_gpu.Client.Listening.{told, handle_payload-told}
use velkar_gpu.Miner.{MinerManager}
use velkar_gpu.Solo.{offered, process_with}
use velkar_gpu.Solo.Proper.{IsCell, IsWork-later, process_block-IsCell}

module _ {Body : Type 0} where
  -- The handler is the same, or has sent one more request for a template.
  abbrev pub AskedMore : VelkardHandler Body → VelkardHandler Body → Type 0
  AskedMore h h' =
      (h'.sent ≡ h.sent)
      ⊎ ((pay_address : Bytes) × (extra_data : Bytes) × (h'.sent
            ≡ h.sent ++ get_block_template_request pay_address extra_data ∷ []))

  client_send-sent :
      (h h' : VelkardHandler Body) (m : VelkardMessage Body)
      → client_send h m ≡ ok h'
      → h'.sent ≡ h.sent ++ m ∷ []
  client_send-sent h h' m e = elim (Bool-cases h.connected) [
    | inr gone ↦ absurd (cc (rw gone at e))
    | inl up ↦ ap (λ t. t.sent) (sym (ok-injective (rw up at e)))
  ]

  pub asks-AskedMore :
      (h h' : VelkardHandler Body) → client_get_block_template h ≡ ok h' → AskedMore h h'
  unfolding client_get_block_template
  asks-AskedMore h h' e = inr (
    pay_address h.devfund_address h,
    h.extra_data,
    client_send-sent (record h { block_template_ctr = u64 (h.block_template_ctr + 1) }) h' _ e,
  )

module _ {Body Miner : Type 0}
    (process_block : Miner → Option (RpcBlock Body) → Outcome Miner) where
  same :
      (h : VelkardHandler Body) (m : Outcome Miner) (r : Received Body Miner)
      → (m >>= λ miner. ok (record { handler = h; miner = miner })) ≡ ok r
      → AskedMore h r.handler
  same h m r e =
      let given = >>=-eq-ok m (λ miner. ok (record { handler = h; miner = miner })) e in
      inl (ap (λ t. t.handler.sent) (sym (ok-injective given.2)))

  pub handle_payload-AskedMore :
      (h : VelkardHandler Body) (miner : Miner) (payload : Option (Payload Body))
      (r : Received Body Miner)
      → handle_payload process_block h miner payload ≡ ok r
      → AskedMore h r.handler
  unfolding handle_message
  handle_payload-AskedMore h miner none r e = same h (ok miner) r e
  handle_payload-AskedMore h miner (some new_block_template_notification) r e =
      let sent =
        >>=-eq-ok (client_get_block_template h) (λ h'. ok (record { handler = h'; miner = miner }))
          e in
      subst (λ t. AskedMore h t.handler) (ok-injective sent.2) (asks-AskedMore h sent.0 sent.1)
  handle_payload-AskedMore h miner (some (get_block_template_response block synced error)) r e =
      same h (obey process_block miner (instruction h.mine_when_not_synced block synced error)) r
        (sym (handle_message-instruction process_block h miner block synced error) ∙ e)
  handle_payload-AskedMore h miner (some (submit_block_response error)) r e = same h (ok miner) r e
  handle_payload-AskedMore h miner (some (get_block_response none)) r e = same h (ok miner) r e
  handle_payload-AskedMore h miner (some (get_block_response (some error))) r e = absurd (cc e)
  handle_payload-AskedMore h miner (some get_info_response) r e = same h (ok miner) r e
  handle_payload-AskedMore h miner (some (notify_new_block_template_response error)) r e =
      same h (ok miner) r e
  handle_payload-AskedMore h miner (some other) r e = same h (ok miner) r e

module _ (p : Packages) (fuel : ℕ) {Body : Type 0} (templates : List (RpcBlock Body)) where
  -- The block that the miner is told to mine is one of those at hand.
  abbrev Placed : List (RpcBlock Body) → Instruction Body → Type 0
  Placed bs nothing = Unit
  Placed bs (mine b) = Occurs b (bs ++ templates)
  Placed bs stop = Unit

  told-Placed :
      (anyway : Bool) (payload : Option (Payload Body))
      → Placed (offered payload) (told anyway payload)
  told-Placed anyway none = tt
  told-Placed anyway (some new_block_template_notification) = tt
  told-Placed anyway (some (get_block_template_response (some b) synced none)) =
      go (synced || anyway)
    where
      go : (c : Bool) → Placed (b ∷ []) (if c then mine b else stop)
      go true = here refl
      go false = tt
  told-Placed anyway (some (get_block_template_response none true none)) = tt
  told-Placed anyway (some (get_block_template_response none false none)) = tt
  told-Placed anyway (some (get_block_template_response block synced (some e))) = tt
  told-Placed anyway (some (submit_block_response error)) = tt
  told-Placed anyway (some (get_block_response error)) = tt
  told-Placed anyway (some get_info_response) = tt
  told-Placed anyway (some (notify_new_block_template_response error)) = tt
  told-Placed anyway (some other) = tt

  obey-IsCell :
      (bs : List (RpcBlock Body)) (m m' : MinerManager Body) (fresh : ℕ) (i : Instruction Body)
      → Placed bs i
      → obey (process_with p fuel fresh) (some m) i ≡ ok (some m')
      → IsCell p fuel Body templates m.block_channel.inner
      → IsCell p fuel Body (bs ++ templates) m'.block_channel.inner
  obey-IsCell bs m m' fresh nothing place e h =
      subst (λ t. IsCell p fuel Body (bs ++ templates) t.block_channel.inner)
        (some-injective _ _ (ok-injective e))
        (ForSome-map (IsWork-later p fuel Body bs) m.block_channel.inner.value h)
  obey-IsCell bs m m' fresh (mine b) place e h =
      process_block-IsCell p fuel Body templates bs m m' fresh (some b) place e h
  obey-IsCell bs m m' fresh stop place e h =
      process_block-IsCell p fuel Body templates bs m m' fresh none tt e h

  -- A message puts only states of templates into the watched cell.
  pub handle_payload-IsCell :
      (h : VelkardHandler Body) (m m' : MinerManager Body) (fresh : ℕ)
      (payload : Option (Payload Body)) (r : Received Body (Option (MinerManager Body)))
      → handle_payload (process_with p fuel fresh) h (some m) payload ≡ ok r
      → r.miner ≡ some m'
      → IsCell p fuel Body templates m.block_channel.inner
      → IsCell p fuel Body (offered payload ++ templates) m'.block_channel.inner
  handle_payload-IsCell h m m' fresh payload r e last cell =
      obey-IsCell (offered payload) m m' fresh (told h.mine_when_not_synced payload)
        (told-Placed h.mine_when_not_synced payload)
        ((handle_payload-told (process_with p fuel fresh) h (some m) payload r e).1 ∙ ap ok last)
        cell
