-- ===== src/Tests/Sharing.antt =====
-- The theorems on shares, steps, layouts and the pause switch, at concrete inputs.
use mm_staking.Base.{ℕ, ◌+◌, ◌≤◌, ◌≡◌, inr, refl, arith, if◌then◌else◌}
use mm_staking.Int.{pos, ltb_ℤ, ◌-ℤ◌, min_ℤ}
use mm_staking.Word.{sub_i64}
use mm_staking.Outcome.{ok}
use mm_staking.State.{RewardInfo}
use mm_staking.State.Layout.{
  IsPacked, layout-IsPacked, reward_info_fields, reward_entry_fields, pool_fields,
  staker_account_fields, size_of, pool_len, staker_account_len,
}
use mm_staking.Math.{accrue_rpt, earned}
use mm_staking.Math.Shares.{earned-split}
use mm_staking.Update.{settle_slot}
use mm_staking.Update.Settle.{pending}
use mm_staking.Update.Steps.{settle_slot-steps, settle_slot-idle}
use mm_staking.Runtime.Toy.{toy}
use mm_staking.Program.{process}
use mm_staking.Program.Pausing.{with_switch, map_result, process-pause}
use mm_staking.Tests.Demo.{world_d, slot_d, slot_with, claims}

-- Stakes of 3 and of 5 at half a token each, next to one of 8.
earns_seven : earned (3 + 5) 500_000_000_000 0 (1 + 2) ≡ ok 7
unfolding earned
earns_seven = refl

earned-split_example :
    (q s : ℕ) × (earned 3 500_000_000_000 0 1 ≡ ok q)
    × (earned 5 500_000_000_000 0 2 ≡ ok s)
    × (q + s ≤ 7)
    × (7 ≤ q + s + 1)
earned-split_example = earned-split 3 5 500_000_000_000 0 1 2 7 earns_seven

-- Three tokens share 10 tokens a second.
abbrev at_45 : RewardInfo
at_45 = slot_with 10_000_000_000_000 83_333_333_333_333 120 45

abbrev at_70_later : RewardInfo
at_70_later = slot_with 10_000_000_000_000 166_666_666_666_666 120 70

settles_45 : settle_slot slot_d 3 (pos 45) ≡ ok at_45
unfolding settle_slot accrue_rpt sub_i64 ◌-ℤ◌ min_ℤ
settles_45 = refl

settles_70 : settle_slot at_45 3 (pos 70) ≡ ok at_70_later
unfolding settle_slot accrue_rpt sub_i64 ◌-ℤ◌ min_ℤ
settles_70 = refl

settles_at_once : settle_slot slot_d 3 (pos 70) ≡ ok at_70_later
unfolding settle_slot accrue_rpt sub_i64 ◌-ℤ◌ min_ℤ
settles_at_once = refl

settle_slot-steps_example :
    (166_666_666_666_666 ≤ 166_666_666_666_666)
    × (166_666_666_666_666 ≤ 166_666_666_666_667)
    × (pos 120 ≡ pos 120)
    × (pos 70 ≡ pos 70)
settle_slot-steps_example =
    settle_slot-steps slot_d at_45 at_70_later at_70_later 3 (pos 45) (pos 70) (omega arith)
      (omega arith) (omega arith) settles_45 settles_70 settles_at_once

-- Nobody stakes until after the finish.
abbrev idle_past_finish : RewardInfo
idle_past_finish = slot_with 10_000_000_000_000 0 120 130

idles : settle_slot slot_d 0 (pos 130) ≡ ok idle_past_finish
unfolding settle_slot
idles = refl

settle_slot-idle_example :
    (idle_past_finish.reward_per_token_stored ≡ slot_d.reward_per_token_stored)
    × (pending idle_past_finish ≡ (if ltb_ℤ (pos 130) (pos 120) then pending slot_d else 0))
settle_slot-idle_example = settle_slot-idle slot_d idle_past_finish (pos 130) idles (omega arith)

layout-IsPacked_example :
    IsPacked (reward_info_fields 16)
    × IsPacked (reward_entry_fields 16)
    × IsPacked (pool_fields 16)
    × IsPacked (staker_account_fields 16)
    × (8 + size_of (pool_fields 16) ≡ pool_len)
    × (8 + size_of (staker_account_fields 16) ≡ staker_account_len)
layout-IsPacked_example = layout-IsPacked 16 (inr refl)

process-pause_example :
    process toy (with_switch toy 1 world_d) claims (pos 70)
    ≡ map_result (with_switch toy 1) (process toy world_d claims (pos 70))
process-pause_example = process-pause toy 1 world_d (pos 70) claims tt
