-- ===== src/Miner/Scheduler.antt =====
-- The share of the devfund in the batches of the GPU scheduler.
use velkar_gpu.Base.{ℕ, zero, suc, ◌+◌, ◌/◌, ◌≡◌, refl, arith, Bool, true, false, if◌then◌else◌}
use velkar_gpu.Miner.{use_devfund}

-- How many of the batches below `n` are mined for the devfund.
abbrev devfund_batches : Bool → ℕ → ℕ
devfund_batches has_dev_state zero = 0
devfund_batches has_dev_state (suc n) =
    devfund_batches has_dev_state n + (if use_devfund n has_dev_state then 1 else 0)

-- While the devfund has a job, it gets one batch in each hundred; without a job it gets none.
devfund_batches_lem : (n : ℕ) → (devfund_batches true n ≡ n / 100) × (devfund_batches false n ≡ 0)
unfolding use_devfund
devfund_batches_lem zero = (refl, refl)
devfund_batches_lem (suc n) = ground (arith, devfund_batches_lem n)
