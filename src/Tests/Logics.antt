-- ===== src/Tests/Logics.antt =====
-- The theorems on logic.rs, at the pools of Demo.
use mm_staking.Base.{ℕ, ◌+◌, ◌-◌, ◌*◌, ◌/◌, ◌≤◌, ◌<◌, ◌≡◌, refl, arith, some, get_elem?}
use mm_staking.Int.{pos, span, ◌+ℤ◌, ◌-ℤ◌, min_ℤ}
use mm_staking.Word.{checked_add_i64, sub_i64}
use mm_staking.Outcome.{ok}
use mm_staking.State.{precision, Pool, RewardInfo, RewardEntry, StakerAccount}
use mm_staking.Math
use mm_staking.Update
use mm_staking.Update.{find_slot}
use mm_staking.Update.Settle.{settled, pending}
use mm_staking.Update.Fits.{CanSettle}
use mm_staking.Update.Total.{AllSettle, AllAccrue, refreshed_all, credited_all}
use mm_staking.Logic
use mm_staking.Logic.Emergency.{emergency_withdraw-total}
use mm_staking.Logic.RoundTrip.{stake-unstake}
use mm_staking.Logic.Taking.{claim_take_slot-again, claim_settle_all-entry}
use mm_staking.Logic.Rerating.{rerate-conserves}
use mm_staking.Logic.Leaving.{unstake-fits}
use mm_staking.Solvency.Forfeit.{forfeited}
use mm_staking.Tests.Demo.{unused_settle, unused_accrue, pool_with, slot_with, staker_with, slot_d}

abbrev old_pool : Pool
old_pool = pool_with 100 1 slot_d

abbrev old_staker : StakerAccount
old_staker = staker_with 100 0 0

-- After fifty seconds of the hundred.
abbrev new_slot_d : RewardInfo
new_slot_d = slot_with 10_000_000_000_000 5_000_000_000_000 120 70

abbrev pool_70 : Pool
pool_70 = pool_with 100 1 new_slot_d

abbrev staker_70 : StakerAccount
staker_70 = staker_with 100 5_000_000_000_000 500

stakes_70 :
    Logic.stake old_pool old_staker 3 1050 255 40 (pos 70)
    ≡ ok (pool_with 140 1 new_slot_d, staker_with 140 5_000_000_000_000 500)
unfolding Logic.stake Logic.init_staker Update.update_reward Update.update_globals
    Update.settle_slots Update.settle_round Update.settle_slot Update.accrue_entries
    Update.accrue_round Math.accrue_rpt Math.earned sub_i64 ◌-ℤ◌ min_ℤ
stakes_70 = refl

settles_70 : Logic.claim_settle_all old_pool old_staker (pos 70) ≡ ok (pool_70, staker_70)
unfolding Logic.claim_settle_all Update.update_reward Update.update_globals Update.settle_slots
    Update.settle_round Update.settle_slot Update.accrue_entries Update.accrue_round Math.accrue_rpt
    Math.earned sub_i64 ◌-ℤ◌ min_ℤ
settles_70 = refl

takes_70 :
    Logic.claim_take_slot pool_70 staker_70 10501072
    ≡ ok (0, 500, staker_with 100 5_000_000_000_000 0)
unfolding Logic.claim_take_slot
takes_70 = refl

rates_70 :
    Logic.rerate new_slot_d 500 (pos 70)
    ≡ ok (slot_with 10_000_000_000_000 5_000_000_000_000 170 70)
unfolding Logic.rerate Math.notify_rate Math.leftover sub_i64 checked_add_i64 ◌-ℤ◌ ◌+ℤ◌
rates_70 = refl

stake-unstake_example :
    (pool'' : Pool) × (s'' : StakerAccount) × (Logic.unstake
        (pool_with 140 1 new_slot_d)
        (staker_with 140 5_000_000_000_000 500)
        40
        (pos 70)
      ≡ ok (pool'', s''))
    × (pool''.total_staked ≡ 100)
    × (s''.staked_amount ≡ 100)
    × (pool''.rewards ≡ pool_70.rewards)
    × (s''.entries ≡ staker_70.entries)
stake-unstake_example =
    stake-unstake old_pool old_staker 3 1050 255 40 (pos 70) (pool_with 140 1 new_slot_d)
      (staker_with 140 5_000_000_000_000 500) stakes_70

claim_settle_all-entry_example :
    (slot : RewardInfo) × (e e' : RewardEntry) × (get_elem? old_pool.rewards 0 ≡ some slot)
    × (new_slot_d ≡ settled slot 100 (pos 70))
    × (get_elem? old_staker.entries 0 ≡ some e)
    × (get_elem? staker_70.entries 0 ≡ some e')
    × (e'.reward_per_token_paid ≡ 5_000_000_000_000)
    × (e'.rewards_accrued
        ≡ e.rewards_accrued + 100 * (5_000_000_000_000 - e.reward_per_token_paid) / precision)
claim_settle_all-entry_example =
    claim_settle_all-entry old_pool old_staker (pos 70) pool_70 staker_70 settles_70 0 new_slot_d
      refl (omega arith)

claim_take_slot-again_example :
    (s'' : StakerAccount) × (Logic.claim_take_slot pool_70
        (staker_with 100 5_000_000_000_000 0)
        10501072
      ≡ ok (0, 0, s''))
claim_take_slot-again_example =
    claim_take_slot-again pool_70 staker_70 10501072 0 500 (staker_with 100 5_000_000_000_000 0)
      takes_70

rerate-conserves_example :
    (pos 170 ≡ pos 70 +ℤ pos 100)
    × (pending (slot_with 10_000_000_000_000 5_000_000_000_000 170 70)
        ≤ 500 * precision + span (pos 120) (pos 70) * 10_000_000_000_000)
    × (500 * precision + span (pos 120) (pos 70) * 10_000_000_000_000
        < pending (slot_with 10_000_000_000_000 5_000_000_000_000 170 70) + 100)
rerate-conserves_example =
    rerate-conserves new_slot_d 500 (pos 70) (slot_with 10_000_000_000_000 5_000_000_000_000 170 70)
      rates_70

can_settle : CanSettle new_slot_d (pos 70)
unfolding span ◌+ℤ◌
can_settle = record {
  past = omega arith;
  ordered = omega arith;
  running = omega arith;
  in_range = omega arith;
  room = omega arith;
  fits = omega arith;
}

all_settle : AllSettle (pos 70) pool_70.rewards
all_settle = ((λ named. can_settle), unused_settle (pos 70) 7)

all_accrue : AllAccrue 100 (refreshed_all 100 (pos 70) pool_70.rewards) staker_70.entries
unfolding span min_ℤ
all_accrue = (
  (λ named. record { paid = omega arith; product = omega arith; total = omega arith }),
  unused_accrue 100 100 (pos 70) 7,
)

unstake-fits_example :
    Logic.unstake pool_70 staker_70 40 (pos 70)
    ≡ ok (
      record pool_70 { rewards = refreshed_all 100 (pos 70) pool_70.rewards; total_staked = 60 },
      record staker_70 {
        staked_amount = 60;
        entries = credited_all 100 (refreshed_all 100 (pos 70) pool_70.rewards) staker_70.entries;
      },
    )
unstake-fits_example =
    unstake-fits pool_70 staker_70 40 (pos 70) (omega arith) (omega arith) (omega arith) all_settle
      all_accrue

emergency_withdraw-total_example :
    (s' : StakerAccount) × (Logic.emergency_withdraw pool_70 staker_70
      ≡ ok (100, record pool_70 { total_staked = 0 }, s'))
    × (s'.staked_amount ≡ 0)
    × ((i : ℕ) (slot : RewardInfo)
        → get_elem? pool_70.rewards i ≡ some slot
        → get_elem? s'.entries i ≡ some (forfeited slot))
emergency_withdraw-total_example = emergency_withdraw-total pool_70 staker_70 refl
