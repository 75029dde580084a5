-- ===== src/Client/Devfund.antt =====
-- The share of the devfund in the block templates that the client asks for.
use velkar_gpu.Base.{
  ℕ, zero, suc, ◌+◌, ◌%◌, ◌≤◌, ◌<◌, min, ◌≡◌, ◌∙◌, refl, ap, arith, true, false, List, [], ◌∷◌,
  ◌++◌, some, leb, leb→le, if◌then◌else◌, Bool-cases, inl, inr, ◌⊎◌, Outcome, ok, ◌>>=◌, ==_iff,
}
use velkar_gpu.Word.{Bytes, u16, u64}
use velkar_gpu.Text.{bytes_eq}
use velkar_gpu.Client.{
  VelkardMessage, get_info_request, get_block_template_request, submit_block_request,
  notify_block_added_request, notify_new_block_template_request, VelkardHandler,
  client_get_block_template, pay_address,
}

module _ {Body : Type 0} where
  -- Requests for templates that pay an address.
  abbrev pub paying : Bytes → List (VelkardMessage Body) → ℕ
  paying address [] = 0
  paying address (get_block_template_request pay extra ∷ rest) =
      (if bytes_eq address pay then 1 else 0) + paying address rest
  paying address (get_info_request ∷ rest) = paying address rest
  paying address (submit_block_request block allow ∷ rest) = paying address rest
  paying address (notify_block_added_request ∷ rest) = paying address rest
  paying address (notify_new_block_template_request ∷ rest) = paying address rest

  -- `n` requests in a row.
  abbrev pub ask : ℕ → VelkardHandler Body → Outcome (VelkardHandler Body)
  ask zero h = ok h
  ask (suc n) h = ask n h >>= client_get_block_template

bytes_eq_refl : (s : Bytes) → bytes_eq s s ≡ true
bytes_eq_refl [] = refl
bytes_eq_refl (c ∷ s) = rw ((==_iff c c).1 refl, bytes_eq_refl s) refl

not-leb : (a b : ℕ) → leb a b ≡ false → b < a
not-leb a b h = ground arith

module _ {Body : Type 0} where
  paying-append :
      (address : Bytes) (ms : List (VelkardMessage Body)) (pay extra : Bytes)
      → paying address (ms ++ get_block_template_request pay extra ∷ [])
        ≡ paying address ms + (if bytes_eq address pay then 1 else 0)
  paying-append address [] pay extra = omega arith
  paying-append address (get_info_request ∷ ms) pay extra = paying-append address ms pay extra
  paying-append address (get_block_template_request p e ∷ ms) pay extra =
      omega (arith, paying-append address ms pay extra)
  paying-append address (submit_block_request b a ∷ ms) pay extra =
      paying-append address ms pay extra
  paying-append address (notify_block_added_request ∷ ms) pay extra =
      paying-append address ms pay extra
  paying-append address (notify_new_block_template_request ∷ ms) pay extra =
      paying-append address ms pay extra

  module _ (h : VelkardHandler Body) (devfund : Bytes) (up : h.connected ≡ true)
      (at_start : h.block_template_ctr ≡ 0) (given : h.devfund_address ≡ some devfund)
      (other_address : bytes_eq devfund h.miner_address ≡ false) where
    -- For a connected handler at counter 0 with a devfund address that is not the miner's: among
    -- the first `n` of 10,000 requests, `devfund_percent + 1` pay the devfund, or all while `n`
    -- is no more; the counter is `n` then.
    pub ask-paying :
        (n : ℕ)
        → n ≤ 10000
        → (sent : List (VelkardMessage Body)) × (ask n h
            ≡ ok (record h { sent = sent; block_template_ctr = n }))
          × (paying devfund sent ≡ paying devfund h.sent + min n (h.devfund_percent + 1))
    unfolding client_get_block_template
    ask-paying zero le =
        (h.sent, ap (λ t. ok (record h { block_template_ctr = t })) at_start, omega arith)
    ask-paying (suc n) le =
        let before = ask-paying n (omega arith) in
        let pay = pay_address (some devfund) (record h { block_template_ctr = n }) in
        let counted : u64 (n + 1) ≡ suc n = omega arith in
        (
          before.0 ++ get_block_template_request pay h.extra_data ∷ [],
          rw (before.1, up, given, counted) refl,
          paying-append devfund before.0 pay h.extra_data
              ∙ counts before.2 (Bool-cases (leb (u16 (n % 10000)) h.devfund_percent)),
        )
      where
        counts :
            {m : ℕ}
            → m ≡ paying devfund h.sent + min n (h.devfund_percent + 1)
            → ((leb (u16 (n % 10000)) h.devfund_percent ≡ true)
                ⊎ (leb (u16 (n % 10000)) h.devfund_percent ≡ false))
            → m
                + (if bytes_eq devfund
                      (pay_address (some devfund) (record h { block_template_ctr = n }))
                    then 1
                    else 0)
              ≡ paying devfund h.sent + min (suc n) (h.devfund_percent + 1)
        counts before (inl low) =
            rw (low, bytes_eq_refl devfund)
              (omega (arith, leb→le (u16 (n % 10000)) h.devfund_percent low))
        counts before (inr high) =
            rw (high, other_address)
              (omega (arith, not-leb (u16 (n % 10000)) h.devfund_percent high))
