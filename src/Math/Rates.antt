-- ===== src/Math/Rates.antt =====
-- The two rates of math.rs.
use mm_staking.Base.{ℕ, ◌≡◌, arith}
use mm_staking.Int.{ℤ, ◌≤ℤ◌}
use mm_staking.Math.{compute_reward_rate, leftover, notify_rate}

-- Where the running period is over, the rate that `notify_rate` gives, or its failure, is that of
-- `compute_reward_rate`.
pub notify_rate-fresh :
    (amount rate unused : ℕ) (now finish duration : ℤ)
    → finish ≤ℤ now
    → notify_rate amount rate now finish duration ≡ compute_reward_rate amount unused duration
unfolding notify_rate compute_reward_rate leftover
notify_rate-fresh amount rate unused now finish duration over = ground arith
