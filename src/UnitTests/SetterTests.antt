-- ===== src/UnitTests/SetterTests.antt =====
-- The unit tests of logic.rs on the setters of the admin.
use mm_staking.Base.{◌≡◌, refl, true, false, List, [], ◌∷◌}
use mm_staking.Int.{pos, negsuc}
use mm_staking.Outcome.{StakingError, ◌>>=◌}
use mm_staking.Logic.{registered_slot, set_paused, set_keeper_authority, set_admin, set_duration}
use mm_staking.UnitTests.{Test, assert_eq, assert_eq_i64, assert_error, unwrap, all_pass}
use mm_staking.UnitTests.Builders.{new_unique, edit_slot, slot_at, empty_pool, pool_with_one_reward}

abbrev set_paused_true_sets_paused_to_1 : Test
set_paused_true_sets_paused_to_1 = do
  pool ← unwrap (set_paused empty_pool true)
  assert_eq pool.paused 1

abbrev set_paused_false_sets_paused_to_0 : Test
set_paused_false_sets_paused_to_0 = do
  pool ← unwrap (set_paused (record empty_pool { paused = 1 }) false)
  assert_eq pool.paused 0

abbrev set_keeper_authority_updates_field : Test
set_keeper_authority_updates_field = do
  let new_keeper = new_unique 0
  pool ← unwrap (set_keeper_authority empty_pool new_keeper)
  assert_eq pool.keeper_authority new_keeper

abbrev set_admin_updates_field : Test
set_admin_updates_field = do
  let new_admin = new_unique 0
  pool ← unwrap (set_admin empty_pool new_admin)
  assert_eq pool.admin new_admin

abbrev set_duration_success_updates_slot_duration : Test
set_duration_success_updates_slot_duration = do
  pool ← unwrap (set_duration (pool_with_one_reward 0) 0 (pos 9999))
  slot ← slot_at pool 0
  assert_eq_i64 slot.duration (pos 9999)

abbrev set_duration_zero_duration_returns_invalid_duration : Test
set_duration_zero_duration_returns_invalid_duration =
    assert_error (set_duration (pool_with_one_reward 0) 0 (pos 0)) StakingError.invalid_duration

abbrev set_duration_negative_duration_returns_invalid_duration : Test
set_duration_negative_duration_returns_invalid_duration =
    assert_error (set_duration (pool_with_one_reward 0) 0 (negsuc 0)) StakingError.invalid_duration

abbrev set_duration_out_of_range_slot_returns_not_found : Test
set_duration_out_of_range_slot_returns_not_found =
    assert_error (set_duration (pool_with_one_reward 0) 8 (pos 100)) StakingError.reward_not_found

abbrev set_duration_empty_slot_returns_not_found : Test
set_duration_empty_slot_returns_not_found =
    assert_error (set_duration empty_pool 0 (pos 100)) StakingError.reward_not_found

abbrev set_duration_slot7_works : Test
set_duration_slot7_works = do
  let pool = edit_slot empty_pool 7 (λ slot. record slot { mint = new_unique 0 })
  pool' ← unwrap (set_duration pool 7 (pos 1234))
  slot ← slot_at pool' 7
  assert_eq_i64 slot.duration (pos 1234)

abbrev setter_tests : List Test
setter_tests =
    set_paused_true_sets_paused_to_1 ∷ set_paused_false_sets_paused_to_0
    ∷ set_keeper_authority_updates_field ∷ set_admin_updates_field
    ∷ set_duration_success_updates_slot_duration
    ∷ set_duration_zero_duration_returns_invalid_duration
    ∷ set_duration_negative_duration_returns_invalid_duration
    ∷ set_duration_out_of_range_slot_returns_not_found ∷ set_duration_empty_slot_returns_not_found
    ∷ set_duration_slot7_works ∷ []

setter_tests_pass : all_pass setter_tests ≡ true
unfolding registered_slot set_paused set_keeper_authority set_admin set_duration
setter_tests_pass = refl
