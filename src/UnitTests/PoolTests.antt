-- ===== src/UnitTests/PoolTests.antt =====
-- The unit tests of logic.rs on `init_pool`, `add_reward` and `set_reward_active`.
use mm_staking.Base.{ℕ, zero, suc, ◌+◌, ◌-◌, ◌*◌, ◌≡◌, refl, true, false, List, [], ◌∷◌}
use mm_staking.Int.{pos, negsuc}
use mm_staking.Word.{u8_limit}
use mm_staking.Outcome.{StakingError, Result, ok, ◌>>=◌, ◌>>◌}
use mm_staking.State.{default_key, max_rewards, Pool, RewardInfo}
use mm_staking.Update.{find_slot}
use mm_staking.Logic.{init_pool, new_slot, add_reward, registered_slot, set_reward_active}
use mm_staking.UnitTests.{Test, assert_eq, assert_ne, assert_eq_i64, assert_error, unwrap, all_pass}
use mm_staking.UnitTests.Builders.{
  new_unique, edit_slot, slot_at, empty_pool, pool_with_one_reward, full_pool,
}

abbrev init_pool_success_sets_all_fields : Test
init_pool_success_sets_all_fields = do
  let dirty : Pool = record empty_pool { total_staked = 999; reward_count = 7; paused = 1 }
  let admin = new_unique 0
  let keeper = new_unique 1
  let stake_mint = new_unique 2
  let stake_vault = new_unique 3
  pool ← unwrap (init_pool dirty admin keeper stake_mint stake_vault (pos 7200) 42)
  assert_eq pool.admin admin
  assert_eq pool.keeper_authority keeper
  assert_eq pool.stake_mint stake_mint
  assert_eq pool.stake_vault stake_vault
  assert_eq pool.total_staked 0
  assert_eq_i64 pool.default_duration (pos 7200)
  assert_eq pool.reward_count 0
  assert_eq pool.paused 0
  assert_eq pool.bump 42

abbrev init_pool_rejects_zero_duration : Test
init_pool_rejects_zero_duration =
    assert_error (init_pool empty_pool default_key default_key default_key default_key (pos 0) 0)
      StakingError.invalid_duration

abbrev init_pool_rejects_negative_duration : Test
init_pool_rejects_negative_duration =
    assert_error (init_pool empty_pool default_key default_key default_key default_key (negsuc 0) 0)
      StakingError.invalid_duration

abbrev add_reward_success_slot0_uses_positive_duration_arg : Test
add_reward_success_slot0_uses_positive_duration_arg = do
  let mint = new_unique 0
  let vault = new_unique 1
  let now = pos 500
  pool ← unwrap (add_reward empty_pool mint vault (pos 1800) now)
  slot ← slot_at pool 0
  assert_eq slot.mint mint
  assert_eq slot.vault vault
  assert_eq slot.reward_rate 0
  assert_eq slot.reward_per_token_stored 0
  assert_eq_i64 slot.period_finish (pos 0)
  assert_eq_i64 slot.last_update_time now
  assert_eq_i64 slot.duration (pos 1800)
  assert_eq slot.active 1
  assert_eq pool.reward_count 1

abbrev add_reward_zero_duration_arg_uses_pool_default : Test
add_reward_zero_duration_arg_uses_pool_default = do
  let pool : Pool = record empty_pool { default_duration = pos 9999 }
  let mint = new_unique 0
  pool' ← unwrap (add_reward pool mint (new_unique 1) (pos 0) (pos 0))
  slot ← slot_at pool' 0
  assert_eq_i64 slot.duration (pos 9999)

abbrev add_reward_negative_duration_arg_uses_pool_default : Test
add_reward_negative_duration_arg_uses_pool_default = do
  let pool : Pool = record empty_pool { default_duration = pos 7200 }
  let mint = new_unique 0
  pool' ← unwrap (add_reward pool mint (new_unique 1) (negsuc 4) (pos 0))
  slot ← slot_at pool' 0
  assert_eq_i64 slot.duration (pos 7200)

abbrev add_reward_duplicate_mint_returns_already_exists : Test
add_reward_duplicate_mint_returns_already_exists = do
  let mint = new_unique 0
  pool ← unwrap (add_reward empty_pool mint (new_unique 1) (pos 1) (pos 0))
  assert_error (add_reward pool mint (new_unique 2) (pos 1) (pos 0))
      StakingError.reward_already_exists

-- `full_pool` has made sixteen keys.
abbrev add_reward_all_slots_full_returns_slots_full : Test
add_reward_all_slots_full_returns_slots_full =
    assert_error (add_reward full_pool (new_unique 16) (new_unique 17) (pos 1) (pos 0))
      StakingError.reward_slots_full

-- The first loop of `add_reward_fills_all_8_slots_sequentially`, with `left` rounds to go from the
-- i-th on.
abbrev fill : ℕ → ℕ → Pool → Result Pool
fill zero i pool = ok pool
fill (suc left) i pool = do
  pool' ← unwrap (add_reward pool (new_unique (2 * i)) (new_unique (2 * i + 1)) (pos 1) (pos 0))
  assert_eq pool'.reward_count (i + 1)
  fill left (suc i) pool'

-- The second.
abbrev assert_occupied : List RewardInfo → Test
assert_occupied [] = ok tt
assert_occupied (slot ∷ slots) = assert_ne slot.mint default_key >> assert_occupied slots

abbrev add_reward_fills_all_8_slots_sequentially : Test
add_reward_fills_all_8_slots_sequentially = do
  pool ← fill max_rewards 0 empty_pool
  assert_occupied pool.rewards

abbrev add_reward_reward_count_overflow : Test
add_reward_reward_count_overflow = do
  let pool : Pool = record empty_pool { reward_count = u8_limit - 1 }
  assert_error (add_reward pool (new_unique 0) (new_unique 1) (pos 1) (pos 0))
      StakingError.math_overflow

abbrev set_reward_active_deactivates_slot : Test
set_reward_active_deactivates_slot = do
  let pool = pool_with_one_reward 0
  slot ← slot_at pool 0
  assert_eq slot.active 1
  pool' ← unwrap (set_reward_active pool 0 false)
  slot' ← slot_at pool' 0
  assert_eq slot'.active 0

abbrev set_reward_active_reactivates_slot : Test
set_reward_active_reactivates_slot = do
  let pool = edit_slot (pool_with_one_reward 0) 0 (λ slot. record slot { active = 0 })
  pool' ← unwrap (set_reward_active pool 0 true)
  slot ← slot_at pool' 0
  assert_eq slot.active 1

abbrev set_reward_active_out_of_range_slot_returns_not_found : Test
set_reward_active_out_of_range_slot_returns_not_found =
    assert_error (set_reward_active (pool_with_one_reward 0) 8 true) StakingError.reward_not_found

abbrev set_reward_active_empty_slot_returns_not_found : Test
set_reward_active_empty_slot_returns_not_found =
    assert_error (set_reward_active empty_pool 0 true) StakingError.reward_not_found

abbrev set_reward_active_slot7_works : Test
set_reward_active_slot7_works = do
  let pool = edit_slot empty_pool 7 (λ slot. record slot { mint = new_unique 0; active = 0 })
  pool' ← unwrap (set_reward_active pool 7 true)
  slot ← slot_at pool' 7
  assert_eq slot.active 1

abbrev pool_tests : List Test
pool_tests =
    init_pool_success_sets_all_fields ∷ init_pool_rejects_zero_duration
    ∷ init_pool_rejects_negative_duration ∷ add_reward_success_slot0_uses_positive_duration_arg
    ∷ add_reward_zero_duration_arg_uses_pool_default
    ∷ add_reward_negative_duration_arg_uses_pool_default
    ∷ add_reward_duplicate_mint_returns_already_exists
    ∷ add_reward_all_slots_full_returns_slots_full ∷ add_reward_fills_all_8_slots_sequentially
    ∷ add_reward_reward_count_overflow ∷ set_reward_active_deactivates_slot
    ∷ set_reward_active_reactivates_slot ∷ set_reward_active_out_of_range_slot_returns_not_found
    ∷ set_reward_active_empty_slot_returns_not_found ∷ set_reward_active_slot7_works ∷ []

pool_tests_pass : all_pass pool_tests ≡ true
unfolding init_pool new_slot add_reward registered_slot set_reward_active find_slot
pool_tests_pass = refl
