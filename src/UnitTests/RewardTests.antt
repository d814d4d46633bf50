-- ===== src/UnitTests/RewardTests.antt =====
-- The unit tests of logic.rs on `deposit_rewards`, `claim_settle_all` and `claim_take_slot`, and the
-- one on a whole flow.
use mm_staking.Base.{◌-◌, ◌*◌, ◌≡◌, refl, true, List, [], ◌∷◌}
use mm_staking.Int.{pos, ◌+ℤ◌, ◌-ℤ◌, min_ℤ}
use mm_staking.Word.{u128_limit, i64_limit, sub_i64, checked_add_i64}
use mm_staking.Outcome.{StakingError, ok, ◌>>=◌, ◌>>◌}
use mm_staking.State.{precision, StakerAccount}
use mm_staking.Math.{accrue_rpt, earned, leftover, notify_rate}
use mm_staking.Update.{
  settle_slot, settle_round, settle_slots, accrue_round, accrue_entries, update_globals,
  update_reward, find_slot,
}
use mm_staking.Logic.{
  new_slot, add_reward, init_staker, stake, unstake, rerate, deposit_rewards, claim_settle_all,
  claim_take_slot,
}
use mm_staking.UnitTests.{Test, assert_eq, assert_eq_i64, assert_error, unwrap, all_pass}
use mm_staking.UnitTests.Builders.{
  new_unique, edit_slot, edit_entry, slot_at, entry_at, empty_pool, pool_with_one_reward, staker,
}

abbrev deposit_rewards_success_sets_rate_and_finish : Test
deposit_rewards_success_sets_rate_and_finish = do
  let pool = edit_slot (pool_with_one_reward 100) 0 (λ slot. record slot { duration = pos 3600 })
  slot ← slot_at pool 0
  let now = pos 1000
  pool' ← unwrap (deposit_rewards pool slot.mint 3600 now)
  slot' ← slot_at pool' 0
  assert_eq slot'.reward_rate precision
  assert_eq_i64 slot'.last_update_time now
  assert_eq_i64 slot'.period_finish (now +ℤ pos 3600)

-- The pool with one reward has made two keys.
abbrev deposit_rewards_unregistered_mint_returns_not_found : Test
deposit_rewards_unregistered_mint_returns_not_found =
    assert_error (deposit_rewards (pool_with_one_reward 0) (new_unique 2) 100 (pos 0))
      StakingError.reward_not_found

abbrev deposit_rewards_inactive_slot_returns_reward_inactive : Test
deposit_rewards_inactive_slot_returns_reward_inactive = do
  let pool = edit_slot (pool_with_one_reward 0) 0 (λ slot. record slot { active = 0 })
  slot ← slot_at pool 0
  assert_error (deposit_rewards pool slot.mint 100 (pos 0)) StakingError.reward_inactive

abbrev deposit_rewards_period_finish_overflow_returns_math_overflow : Test
deposit_rewards_period_finish_overflow_returns_math_overflow = do
  let pool =
      edit_slot (pool_with_one_reward 0) 0
        (λ slot. record slot { duration = pos (i64_limit - 1); active = 1 })
  slot ← slot_at pool 0
  assert_error (deposit_rewards pool slot.mint 1 (pos 1)) StakingError.math_overflow

abbrev deposit_rewards_notify_rate_error_propagates : Test
deposit_rewards_notify_rate_error_propagates = do
  let pool = edit_slot (pool_with_one_reward 0) 0 (λ slot. record slot {
    active = 1;
    duration = pos 3600;
    period_finish = pos 2;
    reward_rate = u128_limit - 1;
  })
  slot ← slot_at pool 0
  assert_error (deposit_rewards pool slot.mint 1 (pos 0)) StakingError.math_overflow

abbrev claim_settle_all_ok_with_no_rewards : Test
claim_settle_all_ok_with_no_rewards = do
  (pool, s) ← unwrap (claim_settle_all empty_pool staker (pos 100))
  ok tt

abbrev claim_settle_all_accrues_rewards : Test
claim_settle_all_accrues_rewards = do
  let pool = edit_slot (pool_with_one_reward 10) 0 (λ slot. record slot {
    reward_rate = precision;
    period_finish = pos 1000;
    last_update_time = pos 0;
  })
  let s : StakerAccount = record staker { owner = new_unique 2; staked_amount = 10 }
  (pool', s') ← unwrap (claim_settle_all pool s (pos 100))
  slot ← slot_at pool' 0
  entry ← entry_at s' 0
  assert_eq entry.rewards_accrued 100
  assert_eq slot.reward_per_token_stored (10 * precision)

abbrev claim_settle_all_advances_rpt_even_after_period_finish : Test
claim_settle_all_advances_rpt_even_after_period_finish = do
  let pool = edit_slot (pool_with_one_reward 10) 0 (λ slot. record slot {
    reward_rate = precision;
    period_finish = pos 50;
    last_update_time = pos 0;
  })
  let s : StakerAccount = record staker { owner = new_unique 2; staked_amount = 10 }
  (pool', s') ← unwrap (claim_settle_all pool s (pos 200))
  entry ← entry_at s' 0
  assert_eq entry.rewards_accrued 50

abbrev claim_take_slot_returns_idx_and_amount_then_zeroes : Test
claim_take_slot_returns_idx_and_amount_then_zeroes = do
  let pool = pool_with_one_reward 0
  slot ← slot_at pool 0
  let s = edit_entry staker 0 (λ entry. record entry { rewards_accrued = 4242 })
  (idx, amt, s') ← unwrap (claim_take_slot pool s slot.vault)
  entry ← entry_at s' 0
  assert_eq idx 0
  assert_eq amt 4242
  assert_eq entry.rewards_accrued 0

abbrev claim_take_slot_non_matching_vault_returns_vault_mismatch : Test
claim_take_slot_non_matching_vault_returns_vault_mismatch = do
  let wrong_vault = new_unique 2
  assert_error (claim_take_slot (pool_with_one_reward 0) staker wrong_vault)
      StakingError.vault_mismatch

abbrev claim_take_slot_zero_accrued_returns_zero : Test
claim_take_slot_zero_accrued_returns_zero = do
  let pool = pool_with_one_reward 0
  slot ← slot_at pool 0
  let s = edit_entry staker 0 (λ entry. record entry { rewards_accrued = 0 })
  (idx, amt, s') ← unwrap (claim_take_slot pool s slot.vault)
  assert_eq idx 0
  assert_eq amt 0

abbrev claim_take_slot_matches_slot7 : Test
claim_take_slot_matches_slot7 = do
  let pool =
      edit_slot empty_pool 7 (λ slot. record slot { mint = new_unique 0; vault = new_unique 1 })
  slot ← slot_at pool 7
  let s = edit_entry staker 7 (λ entry. record entry { rewards_accrued = 777 })
  (idx, amt, s') ← unwrap (claim_take_slot pool s slot.vault)
  entry ← entry_at s' 7
  assert_eq idx 7
  assert_eq amt 777
  assert_eq entry.rewards_accrued 0

abbrev full_stake_reward_claim_flow : Test
full_stake_reward_claim_flow = do
  let mint = new_unique 0
  let vault = new_unique 1
  pool1 ← unwrap (add_reward empty_pool mint vault (pos 3600) (pos 0))
  let owner = new_unique 2
  (pool2, s2) ← unwrap (stake pool1 staker owner (new_unique 3) 1 100 (pos 0))
  assert_eq pool2.total_staked 100
  pool3 ← unwrap (deposit_rewards pool2 mint 3600 (pos 0))
  slot ← slot_at pool3 0
  assert_eq slot.reward_rate precision
  assert_eq_i64 slot.period_finish (pos 3600)
  (pool4, s4) ← unwrap (claim_settle_all pool3 s2 (pos 1800))
  accrued ← entry_at s4 0
  assert_eq accrued.rewards_accrued 1800
  (idx, amt, s5) ← unwrap (claim_take_slot pool4 s4 vault)
  taken ← entry_at s5 0
  assert_eq idx 0
  assert_eq amt 1800
  assert_eq taken.rewards_accrued 0
  (pool6, s6) ← unwrap (unstake pool4 s5 100 (pos 1800))
  assert_eq pool6.total_staked 0
  assert_eq s6.staked_amount 0

abbrev reward_tests : List Test
reward_tests =
    deposit_rewards_success_sets_rate_and_finish
    ∷ deposit_rewards_unregistered_mint_returns_not_found
    ∷ deposit_rewards_inactive_slot_returns_reward_inactive
    ∷ deposit_rewards_period_finish_overflow_returns_math_overflow
    ∷ deposit_rewards_notify_rate_error_propagates ∷ claim_settle_all_ok_with_no_rewards
    ∷ claim_settle_all_accrues_rewards ∷ claim_settle_all_advances_rpt_even_after_period_finish
    ∷ claim_take_slot_returns_idx_and_amount_then_zeroes
    ∷ claim_take_slot_non_matching_vault_returns_vault_mismatch
    ∷ claim_take_slot_zero_accrued_returns_zero ∷ claim_take_slot_matches_slot7
    ∷ full_stake_reward_claim_flow ∷ []

reward_tests_pass : all_pass reward_tests ≡ true
unfolding new_slot add_reward init_staker stake unstake rerate deposit_rewards claim_settle_all
    claim_take_slot accrue_rpt earned leftover notify_rate settle_slot settle_round settle_slots
    accrue_round accrue_entries update_globals update_reward find_slot sub_i64 checked_add_i64 ◌-ℤ◌
    ◌+ℤ◌ min_ℤ
reward_tests_pass = refl
