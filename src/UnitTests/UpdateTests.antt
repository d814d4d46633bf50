-- ===== src/UnitTests/UpdateTests.antt =====
-- The unit tests of update.rs.
use mm_staking.Base.{
  ℕ, ◌-◌, ◌*◌, ◌≡◌, refl, true, false, Option, none, some, List, [], ◌∷◌, ltb, map,
}
use mm_staking.Int.{ℤ, pos, ◌+ℤ◌, ◌-ℤ◌, min_ℤ}
use mm_staking.Word.{u128_limit, i64_limit, sub_i64, checked_add_i64}
use mm_staking.Outcome.{StakingError, ok, ◌>>=◌, ◌>>◌}
use mm_staking.State.{precision, RewardInfo, RewardEntry}
use mm_staking.Math.{accrue_rpt, earned}
use mm_staking.Update.{
  settle_slot, settle_round, settle_slots, accrue_round, accrue_entries, update_globals,
  update_reward, find_slot,
}
use mm_staking.UnitTests.{Test, assert, assert_eq, assert_eq_i64, assert_error, unwrap, all_pass}
use mm_staking.UnitTests.Builders.{
  new_unique, edit_slot, edit_entry, slot_at, entry_at, empty_pool, make_pool, make_staker,
}

abbrev u128_max : ℕ
u128_max = u128_limit - 1

abbrev i64_max : ℤ
i64_max = pos (i64_limit - 1)

-- `assert_eq!` on what `find_slot` returns.
abbrev assert_found : Option ℕ → Option ℕ → Test
assert_found (some a) (some b) = assert_eq a b
assert_found none none = assert true
assert_found found expected = assert false

-- `assert_eq!` on a field that all the entries or slots of a list should have at 0.
abbrev assert_zeros : List ℕ → Test
assert_zeros [] = ok tt
assert_zeros (n ∷ rest) = assert_eq n 0 >> assert_zeros rest

abbrev find_slot_returns_index_for_registered_mint : Test
find_slot_returns_index_for_registered_mint = do
  let pool = make_pool 100 precision (pos 1000) (pos 0)
  slot ← slot_at pool 0
  assert_found (find_slot pool slot.mint) (some 0)

abbrev find_slot_returns_none_for_unregistered_mint : Test
find_slot_returns_none_for_unregistered_mint = do
  let pool = make_pool 100 precision (pos 1000) (pos 0)
  let unknown = new_unique 1
  assert_found (find_slot pool unknown) none

abbrev find_slot_returns_none_on_empty_pool : Test
find_slot_returns_none_on_empty_pool = assert_found (find_slot empty_pool (new_unique 0)) none

abbrev settle_advances_rpt_when_total_staked_positive : Test
settle_advances_rpt_when_total_staked_positive = do
  let now = pos 100
  pool ← unwrap (update_globals (make_pool 10 precision (pos 1000) (pos 0)) now)
  slot ← slot_at pool 0
  assert_eq slot.reward_per_token_stored (10 * precision)
  assert_eq_i64 slot.last_update_time now

abbrev settle_caps_applicable_at_period_finish : Test
settle_caps_applicable_at_period_finish = do
  pool ← unwrap (update_globals (make_pool 10 precision (pos 50) (pos 0)) (pos 200))
  slot ← slot_at pool 0
  assert_eq slot.reward_per_token_stored (5 * precision)
  assert_eq_i64 slot.last_update_time (pos 200)

abbrev settle_no_op_when_applicable_lte_last_update_time : Test
settle_no_op_when_applicable_lte_last_update_time = do
  let pool =
      edit_slot (make_pool 10 precision (pos 50) (pos 100)) 0
        (λ slot. record slot { reward_per_token_stored = 77 * precision })
  pool' ← unwrap (update_globals pool (pos 100))
  slot ← slot_at pool' 0
  assert_eq slot.reward_per_token_stored (77 * precision)
  assert_eq_i64 slot.last_update_time (pos 100)

abbrev settle_extends_period_finish_on_zero_stake : Test
settle_extends_period_finish_on_zero_stake = do
  let now = pos 200
  pool ← unwrap (update_globals (make_pool 0 precision (pos 1000) (pos 0)) now)
  slot ← slot_at pool 0
  assert_eq_i64 slot.period_finish (pos 1200)
  assert_eq_i64 slot.last_update_time now
  assert_eq slot.reward_per_token_stored 0

abbrev settle_zero_stake_no_roll_when_past_period_finish : Test
settle_zero_stake_no_roll_when_past_period_finish = do
  pool ← unwrap (update_globals (make_pool 0 precision (pos 100) (pos 50)) (pos 200))
  slot ← slot_at pool 0
  assert_eq_i64 slot.period_finish (pos 100)
  assert_eq_i64 slot.last_update_time (pos 200)

abbrev settle_zero_stake_no_roll_when_last_update_gte_now : Test
settle_zero_stake_no_roll_when_last_update_gte_now = do
  let pool =
      edit_slot (make_pool 0 precision (pos 1000) (pos 300)) 0
        (λ slot. record slot { period_finish = pos 1000 })
  pool' ← unwrap (update_globals pool (pos 300))
  slot ← slot_at pool' 0
  assert_eq_i64 slot.period_finish (pos 1000)
  assert_eq_i64 slot.last_update_time (pos 300)

abbrev update_reward_with_staker_accrues_entries : Test
update_reward_with_staker_accrues_entries = do
  (pool, staker) ←
      unwrap (update_reward (make_pool 10 precision (pos 1000) (pos 0)) (make_staker 10) (pos 100))
  slot ← slot_at pool 0
  entry ← entry_at staker 0
  assert_eq slot.reward_per_token_stored (10 * precision)
  assert_eq entry.rewards_accrued 100
  assert_eq entry.reward_per_token_paid (10 * precision)

abbrev update_reward_with_staker_accumulates_accrued : Test
update_reward_with_staker_accumulates_accrued = do
  let pool =
      edit_slot (make_pool 10 precision (pos 1000) (pos 100)) 0
        (λ slot. record slot { reward_per_token_stored = 10 * precision })
  let staker =
      edit_entry (make_staker 10) 0
        (λ entry. record entry { reward_per_token_paid = 10 * precision; rewards_accrued = 100 })
  (pool', staker') ← unwrap (update_reward pool staker (pos 150))
  slot ← slot_at pool' 0
  entry ← entry_at staker' 0
  assert_eq slot.reward_per_token_stored (15 * precision)
  assert_eq entry.rewards_accrued 150
  assert_eq entry.reward_per_token_paid (15 * precision)

-- The entries past the first.
abbrev others : List RewardEntry → List RewardEntry
others [] = []
others (entry ∷ entries) = entries

abbrev update_reward_skips_empty_slots_for_staker : Test
update_reward_skips_empty_slots_for_staker = do
  (pool, staker) ←
      unwrap (update_reward (make_pool 10 precision (pos 1000) (pos 0)) (make_staker 10) (pos 100))
  assert_zeros (map (λ entry. entry.rewards_accrued) (others staker.entries))
  assert_zeros (map (λ entry. entry.reward_per_token_paid) (others staker.entries))

abbrev update_reward_skips_empty_slots_global : Test
update_reward_skips_empty_slots_global = do
  pool ← unwrap (update_globals (record empty_pool { total_staked = 10 }) (pos 100))
  assert_zeros (map (λ (slot : RewardInfo). slot.reward_per_token_stored) pool.rewards)

abbrev update_reward_no_staker_is_ok : Test
update_reward_no_staker_is_ok = do
  pool ← unwrap (update_globals (make_pool 10 precision (pos 1000) (pos 0)) (pos 50))
  slot ← slot_at pool 0
  assert (ltb 0 slot.reward_per_token_stored)

abbrev settle_slot_propagates_accrue_rpt_overflow_error : Test
settle_slot_propagates_accrue_rpt_overflow_error = do
  let pool =
      edit_slot (make_pool 1 u128_max (pos 1000) (pos 0)) 0
        (λ slot. record slot { reward_per_token_stored = u128_max })
  assert_error (update_globals pool (pos 1)) StakingError.math_overflow

abbrev update_reward_with_staker_propagates_earned_error : Test
update_reward_with_staker_propagates_earned_error = do
  let pool =
      edit_slot (make_pool 10 precision (pos 1000) (pos 100)) 0
        (λ slot. record slot { reward_per_token_stored = 5 * precision })
  let staker =
      edit_entry (make_staker 10) 0
        (λ entry. record entry { reward_per_token_paid = 10 * precision })
  assert_error (update_reward pool staker (pos 100)) StakingError.math_overflow

abbrev settle_slot_period_finish_overflow_propagates : Test
settle_slot_period_finish_overflow_propagates =
    assert_error (update_globals (make_pool 0 precision i64_max (pos 0)) (pos 1))
      StakingError.math_overflow

abbrev update_tests : List Test
update_tests =
    find_slot_returns_index_for_registered_mint ∷ find_slot_returns_none_for_unregistered_mint
    ∷ find_slot_returns_none_on_empty_pool ∷ settle_advances_rpt_when_total_staked_positive
    ∷ settle_caps_applicable_at_period_finish ∷ settle_no_op_when_applicable_lte_last_update_time
    ∷ settle_extends_period_finish_on_zero_stake ∷ settle_zero_stake_no_roll_when_past_period_finish
    ∷ settle_zero_stake_no_roll_when_last_update_gte_now ∷ update_reward_with_staker_accrues_entries
    ∷ update_reward_with_staker_accumulates_accrued ∷ update_reward_skips_empty_slots_for_staker
    ∷ update_reward_skips_empty_slots_global ∷ update_reward_no_staker_is_ok
    ∷ settle_slot_propagates_accrue_rpt_overflow_error
    ∷ update_reward_with_staker_propagates_earned_error
    ∷ settle_slot_period_finish_overflow_propagates ∷ []

update_tests_pass : all_pass update_tests ≡ true
unfolding accrue_rpt earned settle_slot settle_round settle_slots accrue_round accrue_entries
    update_globals update_reward find_slot sub_i64 checked_add_i64 ◌-ℤ◌ ◌+ℤ◌ min_ℤ
update_tests_pass = refl
