-- ===== src/Start/Threads.antt =====
-- The threads of the start-up, and the devfund's part of them.
use velkar_gpu.Base.{
  ℕ, ◌+◌, ◌-◌, ◌≡◌, ◌∙◌, ap, All, Bool-cases, inl, inr, none, ◌==◌, max, refl, arith, Bool, false,
  List, [], ◌∷◌, some, ltb, if◌then◌else◌, ok,
}
use velkar_gpu.Cli.{stratum}
use velkar_gpu.Start.{
  MainOpt, Connected, pool, pool_miners, main_miner, fee_miner, plan, fee_threads,
  stratum_devfund_endpoint, stratum_devfund_worker,
}

abbrev pub workers_of : List Connected → ℕ
workers_of [] = 0
workers_of (c ∷ cs) = c.workers + workers_of cs

-- A miner for the devfund: its endpoint, its worker, and no GPU.
abbrev pub IsDevfund : Connected → Type 0
IsDevfund c =
    (c.endpoint ≡ stratum_devfund_endpoint) × (c.worker ≡ stratum_devfund_worker) × (c.gpu ≡ none)

-- A miner for the user: the address and the worker of the options, and no GPU.
abbrev pub IsUsers : MainOpt → Connected → Type 0
IsUsers o c =
    (c.endpoint ≡ o.opt.velkard_address)
    × (c.worker ≡ o.mining_address)
    × (c.throttle ≡ o.throttle)
    × (c.gpu ≡ none)

-- Which miners are started, for whom, and with how many threads.
pool_miners_lem :
    (o : MainOpt) (total : ℕ)
    → (main : Connected) × (others : List Connected) × (pool_miners o total ≡ main ∷ others)
      × IsUsers o main
      × (main.workers ≡ max 1 (total - 1))
      × All IsDevfund others
      × (workers_of others ≡ (if ltb 1 total then 1 else 0))
unfolding pool_miners main_miner fee_miner
pool_miners_lem o total = elim (Bool-cases (fee_threads total == 0)) [
  | inl alone ↦ (
    main_miner o total,
    [],
    rw alone refl,
    (refl, refl, refl, refl),
    ground arith,
    tt,
    ground arith,
  )
  | inr paying ↦ (
    main_miner o total,
    fee_miner o total ∷ [],
    rw paying refl,
    (refl, refl, refl, refl),
    ground arith,
    ((refl, refl, refl), tt),
    ground arith,
  )
]

-- With the pool, without a GPU, and with a number of threads given in the options, the start-up
-- succeeds. The first miner is for the address and the worker of the options and has all threads but
-- one, and at least one. All others are for the devfund's address and worker; they have one thread
-- when the options give two or more, and none when they give one or none.
pub plan_threads :
    (cuda_built : Bool) (physical total : ℕ) (o : MainOpt)
    → o.opt.mode ≡ stratum
    → o.opt.opencl_enable ≡ false
    → o.opt.cuda_enable ≡ false
    → o.num_threads ≡ some total
    → (main : Connected) × (others : List Connected) × (plan cuda_built physical o
        ≡ ok (pool (main ∷ others)))
      × IsUsers o main
      × (main.workers ≡ max 1 (total - 1))
      × All IsDevfund others
      × (workers_of others ≡ (if ltb 1 total then 1 else 0))
unfolding plan
plan_threads cuda_built physical total o mode no_opencl no_cuda threads =
    let split = pool_miners_lem o total in
    let planned : plan cuda_built physical o ≡ ok (pool (pool_miners o total)) =
      rw (mode, no_opencl, no_cuda, threads) refl in
    (
      split.0,
      split.1,
      planned ∙ ap (λ cs. ok (pool cs)) split.2,
      split.3,
      split.4,
      split.5,
      split.6,
    )
