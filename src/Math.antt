-- ===== src/Math.antt =====
-- math.rs: rates and accrued rewards, in checked u128 arithmetic scaled by `precision`.
pub mod Exact
pub mod Rates
pub mod Shares
use mm_staking.Base.{ℕ, ◌||◌, ◌==◌, if◌then◌else◌}
use mm_staking.Int.{ℤ, pos, ltb_ℤ, leb_ℤ}
use mm_staking.Word.{
  u64_limit, u128_limit, fit, and_then, checked_add, checked_mul, checked_sub, checked_div, as_u128,
  sub_i64,
}
use mm_staking.Outcome.{StakingError, Result, ok, ◌>>=◌, ◌>>◌, require, ok_or, or_panic}
use mm_staking.State.{precision}

abbrev overflow : StakingError
overflow = StakingError.math_overflow

unfoldable pub compute_reward_rate : ℕ → ℕ → ℤ → Result ℕ
compute_reward_rate amount unused duration = do
  require (ltb_ℤ (pos 0) duration) StakingError.invalid_duration
  ok_or (and_then (checked_mul u128_limit amount precision) λ x. checked_div x (as_u128 duration))
      overflow

unfoldable pub accrue_rpt : ℕ → ℤ → ℕ → ℕ → Result ℕ
accrue_rpt rpt_stored elapsed_secs reward_rate total_staked =
    if total_staked == 0 || leb_ℤ elapsed_secs (pos 0) then ok rpt_stored else do
      delta ←
          ok_or
            (and_then (checked_mul u128_limit (as_u128 elapsed_secs) reward_rate)
              λ x. checked_div x total_staked)
            overflow
      ok_or (checked_add u128_limit rpt_stored delta) overflow

unfoldable pub earned : ℕ → ℕ → ℕ → ℕ → Result ℕ
earned staked_amount reward_per_token reward_per_token_paid rewards_accrued = do
  delta ← ok_or (checked_sub reward_per_token reward_per_token_paid) overflow
  new_rewards ←
      ok_or (and_then (checked_mul u128_limit staked_amount delta) λ x. checked_div x precision)
        overflow
  total ← ok_or (checked_add u128_limit rewards_accrued new_rewards) overflow
  ok_or (fit u64_limit total) overflow

-- The leftover of the running period, in scaled tokens.
unfoldable pub leftover : ℕ → ℤ → ℤ → Result ℕ
leftover current_rate now period_finish =
    if ltb_ℤ now period_finish
    then (do
      left ← or_panic (sub_i64 period_finish now)
      ok_or (checked_mul u128_limit (as_u128 left) current_rate) overflow)
    else ok 0

unfoldable pub notify_rate : ℕ → ℕ → ℤ → ℤ → ℤ → Result ℕ
notify_rate amount current_rate now period_finish duration = do
  require (ltb_ℤ (pos 0) duration) StakingError.invalid_duration
  remaining ← leftover current_rate now period_finish
  scaled_amount ← ok_or (checked_mul u128_limit amount precision) overflow
  ok_or
      (and_then (checked_add u128_limit scaled_amount remaining)
        λ x. checked_div x (as_u128 duration))
      overflow
