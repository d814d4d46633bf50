-- ===== src/Tests/Updates.antt =====
-- The theorems on math.rs and update.rs, at the slots of Demo.
use mm_staking.Base.{◌+◌, ◌*◌, ◌≤◌, ◌≡◌, refl, arith}
use mm_staking.Int.{pos, span, ◌-ℤ◌, ◌+ℤ◌, min_ℤ}
use mm_staking.Word.{sub_i64}
use mm_staking.Outcome.{ok}
use mm_staking.State.{Pool, RewardInfo, StakerAccount}
use mm_staking.Math.{notify_rate, compute_reward_rate, accrue_rpt, earned}
use mm_staking.Math.Rates.{notify_rate-fresh}
use mm_staking.Update.{
  settle_slot, settle_round, settle_slots, accrue_round, accrue_entries, update_globals,
  update_reward,
}
use mm_staking.Update.Settle.{settled, pending, settle_slot_lem, settle_slot-conserves}
use mm_staking.Update.Fits.{CanSettle, settle_slot-fits}
use mm_staking.Update.Total.{AllSettle, AllAccrue, refreshed_all, credited_all, update_reward-fits}
use mm_staking.Update.Again.{update_reward-again}
use mm_staking.Tests.Demo.{unused_settle, unused_accrue, pool_with, slot_with, staker_with, slot_d}

abbrev later_d : RewardInfo
later_d = slot_with 10_000_000_000_000 5_000_000_000_000 120 70

abbrev pool_d : Pool
pool_d = pool_with 100 1 slot_d

abbrev staker_d : StakerAccount
staker_d = staker_with 100 0 0

settles : settle_slot slot_d 100 (pos 70) ≡ ok later_d
unfolding settle_slot accrue_rpt sub_i64 ◌-ℤ◌ min_ℤ
settles = refl

updates :
    update_reward pool_d staker_d (pos 70)
    ≡ ok (pool_with 100 1 later_d, staker_with 100 5_000_000_000_000 500)
unfolding update_reward update_globals settle_slots settle_round settle_slot accrue_entries
    accrue_round accrue_rpt earned sub_i64 ◌-ℤ◌ min_ℤ
updates = refl

settle_slot-conserves_example :
    (0 ≤ 5_000_000_000_000) × (5_000_000_000_000 * 100 + pending later_d ≤ pending slot_d)
settle_slot-conserves_example =
    settle_slot-conserves slot_d later_d 100 (pos 70) settles (omega arith)

settle_slot_lem_example : later_d ≡ settled slot_d 100 (pos 70)
settle_slot_lem_example = settle_slot_lem slot_d later_d 100 (pos 70) settles

can_settle : CanSettle slot_d (pos 70)
unfolding span ◌+ℤ◌
can_settle = record {
  past = omega arith;
  ordered = omega arith;
  running = omega arith;
  in_range = omega arith;
  room = omega arith;
  fits = omega arith;
}

-- Nothing is staked, so the finish is put off.
settle_slot-fits_example : settle_slot slot_d 0 (pos 70) ≡ ok (settled slot_d 0 (pos 70))
settle_slot-fits_example = settle_slot-fits slot_d 0 (pos 70) can_settle

all_settle : AllSettle (pos 70) pool_d.rewards
all_settle = ((λ named. can_settle), unused_settle (pos 70) 7)

all_accrue : AllAccrue 100 (refreshed_all 100 (pos 70) pool_d.rewards) staker_d.entries
unfolding span min_ℤ
all_accrue = (
  (λ named. record { paid = omega arith; product = omega arith; total = omega arith }),
  unused_accrue 100 100 (pos 70) 7,
)

update_reward-fits_example :
    update_reward pool_d staker_d (pos 70)
    ≡ ok (
      record pool_d { rewards = refreshed_all 100 (pos 70) pool_d.rewards },
      record staker_d {
        entries = credited_all 100 (refreshed_all 100 (pos 70) pool_d.rewards) staker_d.entries;
      },
    )
update_reward-fits_example = update_reward-fits pool_d staker_d (pos 70) all_settle all_accrue

update_reward-again_example :
    update_reward (pool_with 300 1 later_d) (staker_with 250 5_000_000_000_000 500) (pos 70)
    ≡ ok (pool_with 300 1 later_d, staker_with 250 5_000_000_000_000 500)
update_reward-again_example =
    update_reward-again pool_d staker_d (pos 70) (pool_with 100 1 later_d)
      (staker_with 100 5_000_000_000_000 500) 300 250 updates

notify_rate-fresh_example :
    notify_rate 1000 7 (pos 200) (pos 120) (pos 100) ≡ compute_reward_rate 1000 0 (pos 100)
notify_rate-fresh_example = notify_rate-fresh 1000 7 0 (pos 200) (pos 120) (pos 100) (omega arith)
