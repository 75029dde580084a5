-- ===== src/Solo/Proper.antt =====
-- Proper blocks: a template that the node sent, with a nonce that solves it.
use mathlib.Core.Option.{some-injective}
use velkar_gpu.Base.{
  ℕ, ◌≡◌, refl, sym, ap, subst, ◌∙◌, true, List, [], ◌∷◌, ◌++◌, Option, none, some, ForSome,
  ForSome-map, ◌+◌, Option-cases, Occurs, there, inl, inr, ok, >>=-eq-ok, ok-injective, Bool-cases,
}
use velkar_gpu.Word.{u64}
use velkar_gpu.Packages.{Packages}
use velkar_gpu.Target.{le, u256_from_compact_target}
use velkar_gpu.Pow.Header.{RpcBlock, RpcBlockHeader}
use velkar_gpu.Pow.State.{State, new, calculate_pow}
use velkar_gpu.Pow.State.Job.{new-IsState}
use velkar_gpu.Watch.{Cell, swap}
use velkar_gpu.Miner.{MinerManager, process_block, published}
use velkar_gpu.Miner.Node.Mined.{IsMined}

Occurs-behind : {A : Type 0} {a : A} (xs : List A) {ys : List A} → Occurs a ys → Occurs a (xs ++ ys)
Occurs-behind [] h = h
Occurs-behind (x ∷ xs) h = there (Occurs-behind xs h)

module _ (p : Packages) (fuel : ℕ) (Body : Type 0) where
  -- The state is that of one of the templates.
  pub record IsStateOf (templates : List (RpcBlock Body)) (made : State Body) : Type 0 where
    pub template : RpcBlock Body
    pub id : ℕ
    pub offered : Occurs template templates
    pub built : new p fuel id template ≡ ok (some made)

  abbrev pub IsWork : List (RpcBlock Body) → State Body → Type 0
  IsWork templates s =
      (made : State Body) × (nonce : ℕ) × IsStateOf templates made
      × (s ≡ record made { nonce = nonce })

  -- One of the templates with a nonce in its header, and nothing else changed; with that nonce, the
  -- proof of work of the template's state is at most the target of the compact bits.
  pub record IsProper (templates : List (RpcBlock Body)) (b : RpcBlock Body) : Type 0 where
    pub made : State Body
    pub of_template : IsStateOf templates made
    pub header : RpcBlockHeader
    pub nonce : ℕ
    pub has_header : of_template.template.header ≡ some header
    pub meets_target :
        le (calculate_pow p (record made { nonce = nonce })) (u256_from_compact_target header.bits)
        ≡ true
    pub is_filled :
        b ≡ record of_template.template { header = some (record header { nonce = nonce }) }

  abbrev later :
      {templates : List (RpcBlock Body)} (bs : List (RpcBlock Body)) (made : State Body)
      → IsStateOf templates made
      → IsStateOf (bs ++ templates) made
  later bs made h = record {
    template = h.template;
    id = h.id;
    offered = Occurs-behind bs h.offered;
    built = h.built;
  }

  pub IsWork-later :
      {templates : List (RpcBlock Body)} (bs : List (RpcBlock Body)) (s : State Body)
      → IsWork templates s
      → IsWork (bs ++ templates) s
  IsWork-later bs s h = (h.0, h.1, later bs h.0 h.2, h.3)

  pub IsProper-later :
      {templates : List (RpcBlock Body)} (bs : List (RpcBlock Body)) (b : RpcBlock Body)
      → IsProper templates b
      → IsProper (bs ++ templates) b
  IsProper-later bs b h = record {
    made = h.made;
    of_template = later bs h.made h.of_template;
    header = h.header;
    nonce = h.nonce;
    has_header = h.has_header;
    meets_target = h.meets_target;
    is_filled = h.is_filled;
  }

  pub IsWork-nonce :
      {templates : List (RpcBlock Body)} (s : State Body) (nonce : ℕ)
      → IsWork templates s
      → IsWork templates (record s { nonce = nonce })
  IsWork-nonce s nonce h =
      let put : State Body → State Body = λ t. record t { nonce = nonce } in
      (h.0, nonce, h.2, ap put h.3)

  new-header :
      (id : ℕ) (template : RpcBlock Body) (made : State Body)
      → new p fuel id template ≡ ok (some made)
      → (header : RpcBlockHeader) × (template.header ≡ some header)
  unfolding new
  new-header id template made e = elim (Option-cases template.header) [
    | inl nothing ↦ absurd (cc (rw nothing at e))
    | inr header ↦ header
  ]

  -- A block that a thread mined on such a state is proper.
  pub IsMined-IsProper :
      {templates : List (RpcBlock Body)} (s : State Body) (b : RpcBlock Body)
      → IsWork templates s
      → IsMined p s b
      → IsProper templates b
  IsMined-IsProper s b (made, nonce, of_template, same) m =
      let mined = subst (λ t. IsMined p t b) same m in
      let read = new-header of_template.id of_template.template made of_template.built in
      let facts =
        new-IsState p fuel of_template.id of_template.template read.0 made read.1
          of_template.built in
      let template : mined.template ≡ of_template.template =
        some-injective _ _ (sym mined.of_state ∙ facts.3) in
      let has_header = sym (ap (λ t. t.header) template) ∙ mined.of_template in
      let same_header : read.0 ≡ mined.header = some-injective _ _ (sym read.1 ∙ has_header) in
      let fill : RpcBlock Body → RpcBlock Body =
        λ t. record t { header = some (record mined.header { nonce = mined.nonce }) } in
      record {
        made = made;
        of_template = of_template;
        header = mined.header;
        nonce = mined.nonce;
        has_header = has_header;
        meets_target =
            subst (λ t. le (calculate_pow p (record made { nonce = mined.nonce })) t ≡ true)
              (facts.7 ∙ ap (λ h. u256_from_compact_target h.bits) same_header) mined.meets_target;
        is_filled = mined.is_filled ∙ ap fill template;
      }

  abbrev pub IsCell : List (RpcBlock Body) → Cell (State Body) → Type 0
  IsCell templates c = ForSome (IsWork templates) c.value

  -- The manager puts the state of the template into the watched cell, or takes the old one out, or
  -- does nothing.
  pub process_block-IsCell :
      (templates bs : List (RpcBlock Body)) (m m' : MinerManager Body) (fresh : ℕ)
      (o : Option (RpcBlock Body))
      → ForSome (λ b. Occurs b (bs ++ templates)) o
      → process_block p fuel m fresh o ≡ ok (some m')
      → IsCell templates m.block_channel.inner
      → IsCell (bs ++ templates) m'.block_channel.inner
  unfolding process_block swap
  process_block-IsCell templates bs m m' fresh none place e h = elim (Bool-cases m.is_synced) [
    | inl synced ↦
        subst (λ t. IsCell (bs ++ templates) t.block_channel.inner)
          (some-injective _ _ (ok-injective (rw synced at e))) tt
    | inr not_synced ↦
        subst (λ t. IsCell (bs ++ templates) t.block_channel.inner)
          (some-injective _ _ (ok-injective (rw not_synced at e)))
          (ForSome-map (IsWork-later bs) m.block_channel.inner.value h)
  ]
  process_block-IsCell templates bs m m' fresh (some b) place e h =
      let made = >>=-eq-ok (new p {Body = Body} fuel m.current_state_id b) _ e in
      by_state made.0 made.1 (ok-injective made.2)
    where
      raised : MinerManager Body
      raised = record m { is_synced = true; current_state_id = u64 (m.current_state_id + 1) }

      by_state :
          (o : Option (State Body))
          → new p fuel m.current_state_id b ≡ ok o
          → published p fuel raised fresh o ≡ some m'
          → IsCell (bs ++ templates) m'.block_channel.inner
      by_state none built stored = absurd (cc stored)
      by_state (some s) built stored =
          let work : IsWork (bs ++ templates) s = (
            s,
            s.nonce,
            record { template = b; id = m.current_state_id; offered = place; built = built },
            refl,
          ) in
          subst (λ t. IsCell (bs ++ templates) t.block_channel.inner) (some-injective _ _ stored)
            work
