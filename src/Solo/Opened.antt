-- ===== src/Solo/Opened.antt =====
-- The miner of a node from its connection on: what it sends to the node.
use velkar_gpu.Base.{
  ℕ, ◌≡◌, subst, Bool, [], ◌∷◌, ◌++◌, Option, none, some, All, ForSome, Outcome, ok, err, panic,
  ◌>>=◌, >>=-eq-ok, ok-injective,
}
use velkar_gpu.Word.{Bytes}
use velkar_gpu.Packages.{Packages}
use velkar_gpu.Pow.State.{State}
use velkar_gpu.Client.{
  VelkardHandler, connect, add_devfund, client_send, client_get_block_template,
  notify_new_block_template_request,
}
use velkar_gpu.Watch.{empty}
use velkar_gpu.Gpu.{GpuConfig}
use velkar_gpu.Gpu.Searcher.{Searching}
use velkar_gpu.Miner.Node.{NodeThread}
use velkar_gpu.Start.{rpc_devfund_address, devfund_percent, launched}
use velkar_gpu.Solo.{Solo, Reach, opened, begun, launch_node_thread, with_searcher}
use velkar_gpu.Solo.Proper.{IsWork}
use velkar_gpu.Solo.Wire.{asks-AskedMore}
use velkar_gpu.Solo.Invariant.{IsProperMessage, asked_proper, IsSound, Reach-IsSound}

new_thread :
    {Searcher Body : Type 0} (P : State Body → Type 0) (searcher : GpuConfig → Outcome Searcher)
    (nonce : ℕ) (config : Option GpuConfig)
    → ForSome P (launch_node_thread {Body = Body} searcher config nonce).state
unfolding launch_node_thread
new_thread {Searcher} {Body} P searcher nonce none = tt
new_thread {Searcher} {Body} P searcher nonce (some config) = by_searcher (searcher config)
  where
    by_searcher : (m : Outcome Searcher) → ForSome P (with_searcher {Body = Body} nonce m).state
    by_searcher (ok gpu) = tt
    by_searcher (err x) = tt
    by_searcher panic = tt

module _ (p : Packages) (fuel : ℕ) {Body : Type 0} (g : Searching Body) where
  opened-IsSound :
      (physical : ℕ) (searcher : GpuConfig → Outcome g.Searcher) (nonces : ℕ → ℕ)
      (n_cpus : Option ℕ) (config : Option GpuConfig) (miner_address : Bytes) (not_synced : Bool)
      (extra_data : Bytes) (s : Solo g.Searcher Body)
      → opened physical searcher nonces n_cpus config miner_address not_synced extra_data ≡ ok s
      → IsSound p fuel g s
  unfolding opened connect empty add_devfund
  opened-IsSound physical searcher nonces n_cpus config miner_address not_synced extra_data s e =
      let threads : ℕ → NodeThread g.Searcher Body =
        λ i. launch_node_thread searcher config (nonces i) in
      let then_start : VelkardHandler Body → ℕ → Outcome (Solo g.Searcher Body) =
        λ ready workers. ok (begun ready workers threads) in
      let then_count : VelkardHandler Body → Outcome (Solo g.Searcher Body) =
        λ ready. launched physical n_cpus config >>= then_start ready in
      let then_ask : VelkardHandler Body → Outcome (Solo g.Searcher Body) =
        λ asked. client_get_block_template asked >>= then_count in
      let client =
        add_devfund (connect {Body = Body} miner_address not_synced extra_data) rpc_devfund_address
          devfund_percent in
      let asked = >>=-eq-ok (client_send client notify_new_block_template_request) then_ask e in
      let ready = >>=-eq-ok (client_get_block_template asked.0) then_count asked.2 in
      let counted = >>=-eq-ok (launched physical n_cpus config) (then_start ready.0) ready.2 in
      let requested : All (IsProperMessage p fuel [])
          (client.sent ++ notify_new_block_template_request ∷ []) =
        (tt, (tt, (tt, tt))) in
      let first =
        subst (λ h. All (IsProperMessage p fuel []) h.sent) (ok-injective asked.1) requested in
      let begun_sound : IsSound p fuel g (begun ready.0 counted.0 threads) = record {
        sent =
            asked_proper p fuel [] asked.0 ready.0 (asks-AskedMore asked.0 ready.0 ready.1) first;
        cells = (tt, tt);
        channel = tt;
        threads = λ i. new_thread (IsWork p fuel Body []) searcher (nonces i) config;
      } in
      subst (IsSound p fuel g) (ok-injective counted.2) begun_sound

  -- A miner of a node, from its connection on, in any interleaving of its client and its threads,
  -- with a GPU or without one, whatever the node sends, the GPU reports, and the shutdown says: every
  -- block that it has submitted is a template that the node sent to it, with only the nonce of its
  -- header changed, and with that nonce the proof of work of the template's state on the CPU is at
  -- most the target of the template's compact bits.
  pub sent-IsProperMessage :
      (physical : ℕ) (searcher : GpuConfig → Outcome g.Searcher) (nonces : ℕ → ℕ)
      (n_cpus : Option ℕ) (config : Option GpuConfig) (miner_address : Bytes) (not_synced : Bool)
      (extra_data : Bytes) (s t : Solo g.Searcher Body)
      → opened physical searcher nonces n_cpus config miner_address not_synced extra_data ≡ ok s
      → Reach p fuel g s t
      → All (IsProperMessage p fuel t.templates) t.handler.sent
  sent-IsProperMessage physical searcher nonces n_cpus config miner_address not_synced extra_data s
        t e reached =
      (Reach-IsSound p fuel g
        (opened-IsSound physical searcher nonces n_cpus config miner_address not_synced extra_data s
          e)
        reached).sent
