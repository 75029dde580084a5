-- ===== src/Start.antt =====
-- src/main.rs: what the start-up makes of the options: the configuration of the GPU, the shutdown
-- flag, and which miners a round of the connection loop starts.
pub mod Threads
use velkar_gpu.Base.{
  ℕ, ◌+◌, ◌-◌, ◌*◌, ◌^◌, min, Bool, true, false, ◌||◌, List, [], ◌∷◌, Option, none, some, ltb, ◌==◌,
  if◌then◌else◌, Outcome, ok, panic, ◌>>=◌,
}
use velkar_gpu.Base.Chain.{unwrap_or}
use velkar_gpu.Word.{Bytes}
use velkar_gpu.Text.{codes}
use velkar_gpu.Cli.{Opt, ConnectionMode, rpc, stratum}
use velkar_gpu.Gpu.{GpuConfig, GpuBackend, open_cl, cuda}

abbrev pub devfund_percent : ℕ
devfund_percent = 100

abbrev pub rpc_devfund_address : Bytes
rpc_devfund_address = codes "velkar:qpvl5vme9rs8rpewszgx6vmt9xwrr42cqgez54ewgfklgw3kyhgp747mnxcsu"

abbrev pub stratum_devfund_worker : Bytes
stratum_devfund_worker = codes "adrislipknot"

abbrev pub stratum_devfund_endpoint : Bytes
stratum_devfund_endpoint = codes "pool.liquidpool.net:4001"

-- The options that `main` reads, with those that `process` sets.
pub record MainOpt : Type 0 where
  pub opt : Opt
  pub mining_address : Bytes
  pub num_threads : Option ℕ
  pub throttle : Option ℕ
  pub mine_when_not_synced : Bool
  pub opencl_platform : Option ℕ
  pub opencl_device : Option ℕ
  pub opencl_workload : Option ℕ
  pub opencl_jobs_per_block : Option ℕ
  pub cuda_device : Option ℕ
  pub cuda_workload : Option ℕ

abbrev pub mines_when_not_synced : MainOpt → Bool
mines_when_not_synced o = o.mine_when_not_synced || o.opt.opencl_enable || o.opt.cuda_enable

unfoldable pub gpu_config : (cuda_built : Bool) → MainOpt → Option GpuConfig
gpu_config cuda_built o =
    if o.opt.opencl_enable
    then some (record {
      backend = open_cl;
      platform_index = o.opencl_platform;
      device_index = o.opencl_device;
      batch_size = unwrap_or o.opencl_workload 256;
      jobs_per_block = o.opencl_jobs_per_block;
    })
    else if o.opt.cuda_enable
    then if cuda_built
      then some (record {
        backend = cuda;
        platform_index = none;
        device_index = o.cuda_device;
        batch_size = unwrap_or o.cuda_workload 128;
        jobs_per_block = none;
      })
      else none
    else none

-- `get_num_cpus` of src/miner.rs; `physical` is what the crate `num_cpus` counts.
abbrev pub get_num_cpus : (physical : ℕ) → Option ℕ → Outcome ℕ
get_num_cpus physical (some n) = ok n
get_num_cpus physical none = if ltb physical (2 ^ 16) then ok physical else panic

-- The number of workers that `launch_cpu_threads` starts.
abbrev pub launched : (physical : ℕ) → Option ℕ → Option GpuConfig → Outcome ℕ
launched physical n_cpus (some config) = ok 1
launched physical n_cpus none = get_num_cpus physical n_cpus

-- A miner that the start-up connects: where to, as whom, and with which workers. A GPU scheduler
-- has one worker for its two connections.
pub record Connected : Type 0 where
  pub endpoint : Bytes
  pub worker : Bytes
  pub workers : ℕ
  pub throttle : Option ℕ
  pub gpu : Option GpuConfig

pub data Plan : Type 0 where
  node : Connected → (devfund_address : Bytes) → (percent : ℕ) → (not_synced : Bool) → Plan
  scheduler : (main devfund : Connected) → Plan
  pool : List Connected → Plan

-- Milliseconds: twenty times the throttle of the options, or 19.
unfoldable pub fee_throttle : Option ℕ → Option ℕ
fee_throttle (some ms) = some (min (ms * 20) (2 ^ 64 - 1))
fee_throttle none = some 19

abbrev pub main_threads : ℕ → ℕ
main_threads total = if ltb 1 total then total - 1 else 1

abbrev pub fee_threads : ℕ → ℕ
fee_threads total = if ltb 1 total then 1 else 0

-- The miner of the options, and the one for the devfund.
unfoldable pub main_miner : MainOpt → (total_threads : ℕ) → Connected
main_miner o total = record {
  endpoint = o.opt.velkard_address;
  worker = o.mining_address;
  workers = main_threads total;
  throttle = o.throttle;
  gpu = none;
}

unfoldable pub fee_miner : MainOpt → (total_threads : ℕ) → Connected
unfolding fee_throttle
fee_miner o total = record {
  endpoint = stratum_devfund_endpoint;
  worker = stratum_devfund_worker;
  workers = fee_threads total;
  throttle = fee_throttle o.throttle;
  gpu = none;
}

-- The miners of the pool without a GPU, for all threads.
unfoldable pub pool_miners : MainOpt → (total_threads : ℕ) → List Connected
pool_miners o total =
    if fee_threads total == 0
    then main_miner o total ∷ []
    else main_miner o total ∷ fee_miner o total ∷ []

abbrev pub plan_node : (physical : ℕ) → MainOpt → Option GpuConfig → Outcome Plan
plan_node physical o config = launched physical o.num_threads config >>= λ workers. ok (
    node
      (record {
        endpoint = o.opt.velkard_address;
        worker = o.mining_address;
        workers = workers;
        throttle = o.throttle;
        gpu = config;
      })
      rpc_devfund_address devfund_percent (mines_when_not_synced o))

abbrev pub plan_pool : (physical : ℕ) → MainOpt → Option GpuConfig → Outcome Plan
plan_pool physical o (some config) = ok (
    scheduler
      (record {
        endpoint = o.opt.velkard_address;
        worker = o.mining_address;
        workers = 1;
        throttle = none;
        gpu = some config;
      })
      (record {
        endpoint = stratum_devfund_endpoint;
        worker = stratum_devfund_worker;
        workers = 0;
        throttle = none;
        gpu = none;
      }))
plan_pool physical o none =
    get_num_cpus physical o.num_threads >>= λ total. ok (pool (pool_miners o total))

abbrev pub plan_mode : ConnectionMode → (physical : ℕ) → MainOpt → Option GpuConfig → Outcome Plan
plan_mode rpc physical o config = plan_node physical o config
plan_mode stratum physical o config = plan_pool physical o config

-- A round of `main`, up to the connections.
unfoldable pub plan : (cuda_built : Bool) → (physical : ℕ) → MainOpt → Outcome Plan
unfolding gpu_config
plan cuda_built physical o = plan_mode o.opt.mode physical o (gpu_config cuda_built o)
