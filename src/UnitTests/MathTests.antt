-- ===== src/UnitTests/MathTests.antt =====
-- The unit tests of math.rs.
use mm_staking.Base.{ℕ, ◌+◌, ◌-◌, ◌*◌, ◌/◌, ◌≡◌, refl, true, List, [], ◌∷◌}
use mm_staking.Int.{pos, negsuc, ◌-ℤ◌}
use mm_staking.Word.{u64_limit, u128_limit, sub_i64, as_u128}
use mm_staking.Outcome.{StakingError, ◌>>=◌, ◌>>◌}
use mm_staking.State.{precision}
use mm_staking.State.Layout.{size_of, reward_info_fields, reward_entry_fields}
use mm_staking.Math.{compute_reward_rate, accrue_rpt, earned, leftover, notify_rate}
use mm_staking.UnitTests.{Test, assert_eq, assert_error, unwrap, all_pass}

-- `u64::MAX` and `u128::MAX`.
abbrev u64_max : ℕ
u64_max = u64_limit - 1

abbrev u128_max : ℕ
u128_max = u128_limit - 1

abbrev rate_is_scaled_amount_over_duration : Test
rate_is_scaled_amount_over_duration = do
  rate ← unwrap (compute_reward_rate 3600 3600 (pos 3600))
  assert_eq rate precision

abbrev rpt_accrues_pro_rata : Test
rpt_accrues_pro_rata = do rpt ← unwrap (accrue_rpt 0 (pos 10) precision 10); assert_eq rpt precision

abbrev rpt_does_not_advance_with_zero_stake : Test
rpt_does_not_advance_with_zero_stake = do
  rpt ← unwrap (accrue_rpt (5 * precision) (pos 10) precision 0)
  assert_eq rpt (5 * precision)

abbrev earned_rounds_down_toward_vault : Test
earned_rounds_down_toward_vault = do e ← unwrap (earned 3 (precision / 2) 0 0); assert_eq e 1

abbrev earned_includes_accrued_buffer : Test
earned_includes_accrued_buffer = do e ← unwrap (earned 0 precision 0 7); assert_eq e 7

abbrev notify_fresh_period_sets_rate : Test
notify_fresh_period_sets_rate = do
  rate ← unwrap (notify_rate 1000 0 (pos 0) (pos 100) (pos 100))
  assert_eq rate (1000 * precision / 100)

abbrev notify_folds_leftover : Test
notify_folds_leftover = do
  let prior_rate = 10 * precision
  let remaining = as_u128 (pos 100 -ℤ pos 50) * prior_rate
  let expected = (1000 * precision + remaining) / 100
  rate ← unwrap (notify_rate 1000 prior_rate (pos 50) (pos 100) (pos 100))
  assert_eq rate expected

-- The sizes where a u128 is aligned to 16 bytes.
abbrev struct_sizes_are_stable : Test
struct_sizes_are_stable = do
  assert_eq (size_of (reward_info_fields 16)) 128
  assert_eq (size_of (reward_entry_fields 16)) 32

abbrev compute_reward_rate_rejects_zero_duration : Test
compute_reward_rate_rejects_zero_duration =
    assert_error (compute_reward_rate 1000 0 (pos 0)) StakingError.invalid_duration

abbrev compute_reward_rate_rejects_negative_duration : Test
compute_reward_rate_rejects_negative_duration =
    assert_error (compute_reward_rate 1000 0 (negsuc 0)) StakingError.invalid_duration

abbrev notify_rate_past_period_finish_no_leftover : Test
notify_rate_past_period_finish_no_leftover = do
  rate ← unwrap (notify_rate 1000 (9999 * precision) (pos 200) (pos 100) (pos 100))
  assert_eq rate (1000 * precision / 100)

abbrev notify_rate_exactly_at_period_finish : Test
notify_rate_exactly_at_period_finish = do
  rate ← unwrap (notify_rate 500 (5 * precision) (pos 100) (pos 100) (pos 50))
  assert_eq rate (500 * precision / 50)

abbrev notify_rate_rejects_zero_duration : Test
notify_rate_rejects_zero_duration =
    assert_error (notify_rate 1000 0 (pos 0) (pos 0) (pos 0)) StakingError.invalid_duration

abbrev notify_rate_rejects_negative_duration : Test
notify_rate_rejects_negative_duration =
    assert_error (notify_rate 1000 0 (pos 0) (pos 0) (negsuc 4)) StakingError.invalid_duration

abbrev accrue_rpt_no_op_when_elapsed_zero : Test
accrue_rpt_no_op_when_elapsed_zero = do
  rpt ← unwrap (accrue_rpt (42 * precision) (pos 0) precision 100)
  assert_eq rpt (42 * precision)

abbrev accrue_rpt_no_op_when_elapsed_negative : Test
accrue_rpt_no_op_when_elapsed_negative = do
  rpt ← unwrap (accrue_rpt (7 * precision) (negsuc 4) precision 100)
  assert_eq rpt (7 * precision)

abbrev accrue_rpt_errors_on_mul_overflow : Test
accrue_rpt_errors_on_mul_overflow =
    assert_error (accrue_rpt 0 (pos 2) u128_max 1) StakingError.math_overflow

abbrev accrue_rpt_errors_on_add_overflow : Test
accrue_rpt_errors_on_add_overflow =
    assert_error (accrue_rpt u128_max (pos 1) 1 1) StakingError.math_overflow

abbrev earned_errors_on_mul_overflow : Test
earned_errors_on_mul_overflow = assert_error (earned 2 u128_max 0 0) StakingError.math_overflow

abbrev earned_errors_on_u64_cast_overflow : Test
earned_errors_on_u64_cast_overflow = do
  let big_rpt = (u64_max + 1) * precision
  assert_error (earned 1 big_rpt 0 0) StakingError.math_overflow

abbrev notify_rate_errors_on_remaining_mul_overflow : Test
notify_rate_errors_on_remaining_mul_overflow =
    assert_error (notify_rate 0 u128_max (pos 0) (pos 2) (pos 1)) StakingError.math_overflow

abbrev notify_rate_errors_on_final_add_overflow : Test
notify_rate_errors_on_final_add_overflow = do
  let current_rate = u128_max - u64_max * precision + 1
  assert_error (notify_rate u64_max current_rate (pos 0) (pos 1) (pos 1)) StakingError.math_overflow

abbrev math_tests : List Test
math_tests =
    rate_is_scaled_amount_over_duration ∷ rpt_accrues_pro_rata
    ∷ rpt_does_not_advance_with_zero_stake ∷ earned_rounds_down_toward_vault
    ∷ earned_includes_accrued_buffer ∷ notify_fresh_period_sets_rate ∷ notify_folds_leftover
    ∷ struct_sizes_are_stable ∷ compute_reward_rate_rejects_zero_duration
    ∷ compute_reward_rate_rejects_negative_duration ∷ notify_rate_past_period_finish_no_leftover
    ∷ notify_rate_exactly_at_period_finish ∷ notify_rate_rejects_zero_duration
    ∷ notify_rate_rejects_negative_duration ∷ accrue_rpt_no_op_when_elapsed_zero
    ∷ accrue_rpt_no_op_when_elapsed_negative ∷ accrue_rpt_errors_on_mul_overflow
    ∷ accrue_rpt_errors_on_add_overflow ∷ earned_errors_on_mul_overflow
    ∷ earned_errors_on_u64_cast_overflow ∷ notify_rate_errors_on_remaining_mul_overflow
    ∷ notify_rate_errors_on_final_add_overflow ∷ []

math_tests_pass : all_pass math_tests ≡ true
unfolding compute_reward_rate accrue_rpt earned leftover notify_rate sub_i64 ◌-ℤ◌
math_tests_pass = refl
