-- ===== src/UnitTests/StakeTests.antt =====
-- The unit tests of logic.rs on `stake`, `unstake` and `emergency_withdraw`.
use mm_staking.Base.{ℕ, zero, suc, ◌+◌, ◌-◌, ◌*◌, ◌≡◌, refl, true, List, [], ◌∷◌}
use mm_staking.Int.{pos, ◌+ℤ◌, ◌-ℤ◌, min_ℤ}
use mm_staking.Word.{u64_limit, sub_i64, checked_add_i64}
use mm_staking.Outcome.{StakingError, ok, ◌>>=◌, ◌>>◌}
use mm_staking.State.{default_key, precision, Pool, StakerAccount}
use mm_staking.Math.{accrue_rpt, earned}
use mm_staking.Update.{
  settle_slot, settle_round, settle_slots, accrue_round, accrue_entries, update_globals,
  update_reward,
}
use mm_staking.Logic.{init_staker, stake, unstake, forfeit, emergency_withdraw}
use mm_staking.UnitTests.{Test, assert_eq, assert_error, unwrap, all_pass}
use mm_staking.UnitTests.Builders.{
  new_unique, edit_slot, edit_entry, entry_at, empty_pool, pool_with_one_reward, staker,
}

abbrev u64_max : ℕ
u64_max = u64_limit - 1

-- The pool with one reward has made two keys.
abbrev stake_success_first_use_initialises_staker : Test
stake_success_first_use_initialises_staker = do
  let owner = new_unique 2
  let pool_key = new_unique 3
  (pool, s) ← unwrap (stake (pool_with_one_reward 0) staker owner pool_key 42 100 (pos 0))
  assert_eq s.owner owner
  assert_eq s.pool pool_key
  assert_eq s.bump 42
  assert_eq s.staked_amount 100
  assert_eq pool.total_staked 100

abbrev stake_second_use_skips_init_branch : Test
stake_second_use_skips_init_branch = do
  let owner = new_unique 2
  let pool_key = new_unique 3
  (pool, s) ← unwrap (stake (pool_with_one_reward 100) staker owner pool_key 11 100 (pos 0))
  assert_eq s.staked_amount 100
  let different_owner = new_unique 4
  (pool', s') ← unwrap (stake pool s different_owner pool_key 99 50 (pos 0))
  assert_eq s'.owner owner
  assert_eq s'.staked_amount 150
  assert_eq pool'.total_staked 250

abbrev stake_zero_amount_returns_zero_amount : Test
stake_zero_amount_returns_zero_amount =
    assert_error (stake (pool_with_one_reward 0) staker default_key default_key 0 0 (pos 0))
      StakingError.zero_amount

abbrev stake_paused_pool_returns_paused : Test
stake_paused_pool_returns_paused = do
  let pool : Pool = record (pool_with_one_reward 0) { paused = 1 }
  assert_error (stake pool staker default_key default_key 0 1 (pos 0)) StakingError.paused

abbrev stake_staked_amount_overflow_returns_math_overflow : Test
stake_staked_amount_overflow_returns_math_overflow = do
  let s : StakerAccount = record staker { owner = new_unique 0; staked_amount = u64_max }
  let pool : Pool = record empty_pool { total_staked = u64_max }
  assert_error (stake pool s default_key default_key 0 1 (pos 0)) StakingError.math_overflow

abbrev stake_total_staked_overflow_returns_math_overflow : Test
stake_total_staked_overflow_returns_math_overflow = do
  let s : StakerAccount = record staker { owner = new_unique 0; staked_amount = 0 }
  let pool : Pool = record empty_pool { total_staked = u64_max }
  assert_error (stake pool s default_key default_key 0 1 (pos 0)) StakingError.math_overflow

abbrev unstake_success_decrements_amounts : Test
unstake_success_decrements_amounts = do
  let s : StakerAccount = record staker { owner = new_unique 2; staked_amount = 200 }
  (pool, s') ← unwrap (unstake (pool_with_one_reward 200) s 80 (pos 0))
  assert_eq s'.staked_amount 120
  assert_eq pool.total_staked 120

abbrev unstake_full_amount_zeroes_staked : Test
unstake_full_amount_zeroes_staked = do
  let s : StakerAccount = record staker { owner = new_unique 2; staked_amount = 50 }
  (pool, s') ← unwrap (unstake (pool_with_one_reward 50) s 50 (pos 0))
  assert_eq s'.staked_amount 0
  assert_eq pool.total_staked 0

abbrev unstake_zero_amount_returns_zero_amount : Test
unstake_zero_amount_returns_zero_amount = do
  let s : StakerAccount = record staker { staked_amount = 100 }
  assert_error (unstake (pool_with_one_reward 100) s 0 (pos 0)) StakingError.zero_amount

abbrev unstake_more_than_staked_returns_insufficient_stake : Test
unstake_more_than_staked_returns_insufficient_stake = do
  let s : StakerAccount = record staker { staked_amount = 50 }
  assert_error (unstake (pool_with_one_reward 50) s 51 (pos 0)) StakingError.insufficient_stake

abbrev unstake_allowed_when_pool_paused : Test
unstake_allowed_when_pool_paused = do
  let pool : Pool = record (pool_with_one_reward 100) { paused = 1 }
  let s : StakerAccount = record staker { owner = new_unique 2; staked_amount = 100 }
  (pool', s') ← unwrap (unstake pool s 100 (pos 0))
  assert_eq s'.staked_amount 0

abbrev emergency_withdraw_returns_staked_amount_and_zeroes_state : Test
emergency_withdraw_returns_staked_amount_and_zeroes_state = do
  let pool =
      edit_slot (pool_with_one_reward 500) 0
        (λ slot. record slot { reward_per_token_stored = 7 * precision })
  let s =
      edit_entry (record staker { staked_amount = 500 }) 0
        (λ entry. record entry { rewards_accrued = 999; reward_per_token_paid = 3 * precision })
  (amt, pool', s') ← unwrap (emergency_withdraw pool s)
  entry ← entry_at s' 0
  assert_eq amt 500
  assert_eq s'.staked_amount 0
  assert_eq pool'.total_staked 0
  assert_eq entry.rewards_accrued 0
  assert_eq entry.reward_per_token_paid (7 * precision)

abbrev emergency_withdraw_zero_stake_returns_zero : Test
emergency_withdraw_zero_stake_returns_zero = do
  let s : StakerAccount = record staker { staked_amount = 0 }
  (amt, pool, s') ← unwrap (emergency_withdraw (pool_with_one_reward 0) s)
  assert_eq amt 0
  assert_eq pool.total_staked 0

abbrev emergency_withdraw_saturating_sub_does_not_underflow : Test
emergency_withdraw_saturating_sub_does_not_underflow = do
  let s : StakerAccount = record staker { staked_amount = 999 }
  (amt, pool, s') ← unwrap (emergency_withdraw (pool_with_one_reward 10) s)
  assert_eq amt 999
  assert_eq pool.total_staked 0

-- The loops of `emergency_withdraw_syncs_all_reward_slots`: `n` rounds, of which the last is at
-- index `n - 1`.
abbrev register_slots : ℕ → Pool → Pool
register_slots zero pool = pool
register_slots (suc i) pool =
    edit_slot (register_slots i pool) i
      (λ slot. record slot { mint = new_unique i; reward_per_token_stored = (i + 1) * precision })

abbrev accrue_some : ℕ → StakerAccount → StakerAccount
accrue_some zero s = s
accrue_some (suc i) s =
    edit_entry (accrue_some i s) i (λ entry. record entry { rewards_accrued = (i + 1) * 1000 })

abbrev assert_synced : ℕ → StakerAccount → Test
assert_synced zero s = ok tt
assert_synced (suc i) s = do
  assert_synced i s
  entry ← entry_at s i
  assert_eq entry.rewards_accrued 0
  assert_eq entry.reward_per_token_paid ((i + 1) * precision)

-- The `n` indices from 3 on.
abbrev assert_unpaid : ℕ → StakerAccount → Test
assert_unpaid zero s = ok tt
assert_unpaid (suc i) s = do
  assert_unpaid i s
  entry ← entry_at s (3 + i)
  assert_eq entry.reward_per_token_paid 0

abbrev emergency_withdraw_syncs_all_reward_slots : Test
emergency_withdraw_syncs_all_reward_slots = do
  let pool : Pool = record (register_slots 3 empty_pool) { total_staked = 100 }
  let s = accrue_some 3 (record staker { staked_amount = 100 })
  (amt, pool', s') ← unwrap (emergency_withdraw pool s)
  assert_synced 3 s'
  assert_unpaid 5 s'

abbrev stake_tests : List Test
stake_tests =
    stake_success_first_use_initialises_staker ∷ stake_second_use_skips_init_branch
    ∷ stake_zero_amount_returns_zero_amount ∷ stake_paused_pool_returns_paused
    ∷ stake_staked_amount_overflow_returns_math_overflow
    ∷ stake_total_staked_overflow_returns_math_overflow ∷ unstake_success_decrements_amounts
    ∷ unstake_full_amount_zeroes_staked ∷ unstake_zero_amount_returns_zero_amount
    ∷ unstake_more_than_staked_returns_insufficient_stake ∷ unstake_allowed_when_pool_paused
    ∷ emergency_withdraw_returns_staked_amount_and_zeroes_state
    ∷ emergency_withdraw_zero_stake_returns_zero
    ∷ emergency_withdraw_saturating_sub_does_not_underflow
    ∷ emergency_withdraw_syncs_all_reward_slots ∷ []

stake_tests_pass : all_pass stake_tests ≡ true
unfolding init_staker stake unstake forfeit emergency_withdraw accrue_rpt earned settle_slot
    settle_round settle_slots accrue_round accrue_entries update_globals update_reward sub_i64
    checked_add_i64 ◌-ℤ◌ ◌+ℤ◌ min_ℤ
stake_tests_pass = refl
