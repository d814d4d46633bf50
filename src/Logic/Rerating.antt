-- ===== src/Logic/Rerating.antt =====
-- What a deposit streams.
use mm_staking.Base.{ℕ, ◌+◌, ◌*◌, ◌/◌, ◌≤◌, ◌<◌, ◌≡◌, refl, ap, arith}
use mm_staking.Int.{ℤ, pos, pos_part, span, ◌+ℤ◌, ◌<ℤ◌}
use mm_staking.Outcome.{ok}
use mm_staking.State.{precision, RewardInfo}
use mm_staking.Logic.{rerate}
use mm_staking.Update.Settle.{pending}
use mm_staking.Solvency.Rewards.{rerate-parts, span-now}
use native.Mathlib.Nat.{mul-div-le, lt-mul-div-succ}

pos_part-positive : (a : ℤ) → pos 0 <ℤ a → 0 < pos_part a
pos_part-positive (pos n) h = omega (arith, h)
pos_part-positive a h = omega (arith, h)

-- A new rate that is set with success finishes one duration from now, and streams until then no
-- more than what was received and what the old period had left, and less than one scaled unit per
-- second of the duration short of that.
pub rerate-conserves :
    (slot : RewardInfo) (received : ℕ) (now : ℤ) (slot' : RewardInfo)
    → rerate slot received now ≡ ok slot'
    → (slot'.period_finish ≡ now +ℤ slot.duration)
      × (pending slot' ≤ received * precision + span slot.period_finish now * slot.reward_rate)
      × (received * precision + span slot.period_finish now * slot.reward_rate
          < pending slot' + pos_part slot.duration)
rerate-conserves slot received now slot' h =
    let (p, e) = rerate-parts slot received now slot' h in
    let due = received * precision + span slot.period_finish now * slot.reward_rate in
    let length = pos_part slot.duration in
    let streams : pending slot' ≡ length * (due / length) =
      rw e (rw (span-now now slot.duration p) refl) in
    (
      ap (λ s. s.period_finish) e,
      omega (arith, streams, mul-div-le due length),
      omega (arith, streams, lt-mul-div-succ due (pos_part-positive slot.duration p)),
    )
