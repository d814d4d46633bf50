-- ===== src/Tests/Stakes.antt =====
-- The theorems on the share of a stake and on the order of two stakes, at the pools of Demo.
use mm_staking.Base.{◌+◌, ◌*◌, ◌≤◌, ◌<◌, ◌≡◌, refl, arith, ◌∷◌, replicate}
use mm_staking.Int.{pos, span, ◌-ℤ◌, min_ℤ}
use mm_staking.Word.{sub_i64}
use mm_staking.Outcome.{ok}
use mm_staking.State.{precision, Pool, RewardInfo, StakerAccount, empty_entry, zeroed_staker}
use mm_staking.Math
use mm_staking.Update
use mm_staking.Logic
use mm_staking.Logic.ProRata.{claim_settle_all-pro_rata}
use mm_staking.Logic.Ordering.{stake-commutes}
use mm_staking.Tests.Demo.{pool_with, slot_with, staker_with, slot_d}

abbrev before : Pool
before = pool_with 100 1 slot_d

abbrev old_owner : StakerAccount
old_owner = staker_with 100 0 0

-- After fifty seconds of the hundred.
abbrev streamed_slot : RewardInfo
streamed_slot = slot_with 10_000_000_000_000 5_000_000_000_000 120 70

abbrev newcomer : StakerAccount
newcomer = record {
  owner = 4;
  pool = 1050;
  staked_amount = 60;
  bump = 254;
  entries =
      record { reward_per_token_paid = 5_000_000_000_000; rewards_accrued = 0 }
      ∷ replicate 7 empty_entry;
}

settles :
    Logic.claim_settle_all before old_owner (pos 70)
    ≡ ok (pool_with 100 1 streamed_slot, staker_with 100 5_000_000_000_000 500)
unfolding Logic.claim_settle_all Update.update_reward Update.update_globals Update.settle_slots
    Update.settle_round Update.settle_slot Update.accrue_entries Update.accrue_round Math.accrue_rpt
    Math.earned sub_i64 ◌-ℤ◌ min_ℤ
settles = refl

first_stake :
    Logic.stake before old_owner 3 1050 255 40 (pos 70)
    ≡ ok (pool_with 140 1 streamed_slot, staker_with 140 5_000_000_000_000 500)
unfolding Logic.stake Logic.init_staker Update.update_reward Update.update_globals
    Update.settle_slots Update.settle_round Update.settle_slot Update.accrue_entries
    Update.accrue_round Math.accrue_rpt Math.earned sub_i64 ◌-ℤ◌ min_ℤ
first_stake = refl

second_stake :
    Logic.stake (pool_with 140 1 streamed_slot) zeroed_staker 4 1050 254 60 (pos 70)
    ≡ ok (pool_with 200 1 streamed_slot, newcomer)
unfolding Logic.stake Logic.init_staker Update.update_reward Update.update_globals
    Update.settle_slots Update.settle_round Update.settle_slot Update.accrue_entries
    Update.accrue_round Math.accrue_rpt Math.earned sub_i64 ◌-ℤ◌ min_ℤ
second_stake = refl

claim_settle_all-pro_rata_example :
    (0 ≤ 500)
    × (100 * (precision * 500) ≤ 100 * (50 * 10_000_000_000_000))
    × (100 * (50 * 10_000_000_000_000) < 100 * (precision * 501) + 100 * 100)
unfolding span min_ℤ
claim_settle_all-pro_rata_example =
    claim_settle_all-pro_rata before old_owner (pos 70) (pool_with 100 1 streamed_slot)
      (staker_with 100 5_000_000_000_000 500) settles 0 slot_d streamed_slot
      (record { reward_per_token_paid = 0; rewards_accrued = 0 })
      (record { reward_per_token_paid = 5_000_000_000_000; rewards_accrued = 500 }) refl refl
      (omega arith) refl refl (omega arith) refl

stake-commutes_example :
    (q : Pool) × (Logic.stake before zeroed_staker 4 1050 254 60 (pos 70) ≡ ok (q, newcomer))
    × (Logic.stake q old_owner 3 1050 255 40 (pos 70)
        ≡ ok (pool_with 200 1 streamed_slot, staker_with 140 5_000_000_000_000 500))
stake-commutes_example =
    stake-commutes before old_owner zeroed_staker 3 4 1050 255 254 40 60 (pos 70)
      (pool_with 140 1 streamed_slot) (pool_with 200 1 streamed_slot)
      (staker_with 140 5_000_000_000_000 500) newcomer first_stake second_stake
