-- ===== src/Miner/Node/Mined.antt =====
-- What a block of a thread of the node's miner is, and what `found_block` makes of it.
use velkar_gpu.Base.{
  ℕ, ◌≡◌, ◌≢◌, arith, sym, ap, Bool, ==_iff, true, List, [], ◌∷◌, Option, some, ◌==◌, Bool-cases,
  inl, inr, ◌⊎◌, Outcome, ok, ◌>>=◌, >>=-eq-ok, expect,
}
use velkar_gpu.Target.{le}
use velkar_gpu.Packages.{Packages}
use velkar_gpu.Pow.Header.{RpcBlock, RpcBlockHeader, block_hash}
use velkar_gpu.Pow.State.{State, calculate_pow, generate_block_if_pow, pow_match, filled_template}
use velkar_gpu.Miner.{Sent, found_block, usize_max, blocking_send}
use velkar_gpu.Miner.Hits.{blocking_send-eq-ok}

module _ (p : Packages) {Body : Type 0} where
  -- The template of a state with a nonce whose proof of work is at most the block target.
  pub record IsMined (s : State Body) (b : RpcBlock Body) : Type 0 where
    pub template : RpcBlock Body
    pub header : RpcBlockHeader
    pub nonce : ℕ
    pub of_state : s.block ≡ some template
    pub of_template : template.header ≡ some header
    pub meets_target : le (calculate_pow p (record s { nonce = nonce })) s.block_target ≡ true
    pub is_filled : b ≡ record template { header = some (record header { nonce = nonce }) }

  filled_template-eq-ok :
      (s : State Body) (nonce : ℕ) (b : RpcBlock Body)
      → filled_template s nonce ≡ ok (some b)
      → (template : RpcBlock Body) × (header : RpcBlockHeader) × (s.block ≡ some template)
        × (template.header ≡ some header)
        × (b ≡ record template { header = some (record header { nonce = nonce }) })
  filled_template-eq-ok s nonce b e =
      let fill : RpcBlock Body → RpcBlockHeader → Outcome (Option (RpcBlock Body)) =
        λ t h. ok (some (record t { header = some (record h { nonce = nonce }) })) in
      let first = >>=-eq-ok (expect s.block) (λ t. expect t.header >>= fill t) e in
      let second = >>=-eq-ok (expect first.0.header) (fill first.0) first.2 in
      (first.0, second.0, ground arith, ground arith, ground (arith, second.2))

  pub generate_block_if_pow-IsMined :
      (s : State Body) (nonce : ℕ) (b : RpcBlock Body)
      → generate_block_if_pow p (record s { nonce = nonce }) ≡ ok (some b)
      → IsMined s b
  unfolding generate_block_if_pow pow_match
  generate_block_if_pow-IsMined s nonce b e =
      elim (Bool-cases (le (calculate_pow p (record s { nonce = nonce })) s.block_target)) [
        | inr above ↦ absurd (ground arith)
        | inl meets ↦
            let filled =
              filled_template-eq-ok (record s { nonce = nonce }) nonce b (rw meets at e) in
            record {
              template = filled.0;
              header = filled.1;
              nonce = nonce;
              of_state = filled.2;
              of_template = filled.3;
              meets_target = meets;
              is_filled = filled.4;
            }
      ]

  -- What a call of `found_block` sends and leaves.
  abbrev pub SentFor :
      RpcBlock Body → (id stored : ℕ) → (messages : List (RpcBlock Body)) → ℕ → Type 0
  SentFor b id stored messages left =
      ((messages ≡ []) × (left ≡ stored) × (stored ≢ usize_max))
      ⊎ ((messages ≡ b ∷ []) × (left ≡ id) × (stored ≡ usize_max))

  pub found_block-SentFor :
      (b : RpcBlock Body) (id stored : ℕ) (receiving : Bool) (r : Sent (RpcBlock Body))
      → found_block p b id stored receiving ≡ ok r
      → SentFor b id stored r.messages r.stored
  unfolding found_block
  found_block-SentFor b id stored receiving r e = elim (Bool-cases (stored == usize_max)) [
    | inl free ↦
        let sent : Sent (RpcBlock Body) = record { stored = id; messages = b ∷ [] } in
        let hashed =
          >>=-eq-ok (block_hash p.blake2b b)
            (λ hash. expect hash >>= λ own. blocking_send receiving sent) (rw free at e) in
        let own = >>=-eq-ok (expect hashed.0) (λ own. blocking_send receiving sent) hashed.2 in
        let same = sym (blocking_send-eq-ok receiving sent r own.2) in
        inr (ap (λ t. t.messages) same, ap (λ t. t.stored) same, (==_iff stored usize_max).0 free)
    | inr taken ↦ inl (ground arith)
  ]
