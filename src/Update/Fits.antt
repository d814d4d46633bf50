-- ===== src/Update/Fits.antt =====
-- When a settlement cannot fail.
use mm_staking.Base.{ℕ, zero, suc, ◌+◌, ◌-◌, ◌*◌, ◌/◌, ◌≤◌, ◌<◌, ◌≡◌, arith, lt→ltb}
use mm_staking.Int.{ℤ, pos, span, span_lem, ◌+ℤ◌, +ℤ_parts, min_ℤ, ◌≤ℤ◌}
use mm_staking.Word.{u128_limit, i64_limit}
use mm_staking.Word.Laws.{sub_i64-fits, checked_add_i64-fits}
use mm_staking.Outcome.{ok}
use mm_staking.State.{RewardInfo}
use mm_staking.Math.Exact.{accrue_rpt-fits}
use mm_staking.Update.{settle_slot}
use mm_staking.Update.Settle.{settled, streamed, postponed, pending, min_ℤ_lem, span-split, +ℤ-zero}
use native.Mathlib.Nat.{div-le_self, mul-le-mul_right, zero-mul, zero-div}

-- The clock has not gone back, no time is negative, and putting the finish off by the time gone by
-- stays in range; all that the slot may still stream fits beside what it has streamed.
pub record CanSettle (slot : RewardInfo) (now : ℤ) : Type 0 where
  pub past : pos 0 ≤ℤ slot.last_update_time
  pub ordered : slot.last_update_time ≤ℤ now
  pub running : pos 0 ≤ℤ slot.period_finish
  pub in_range : now ≤ℤ pos (i64_limit - 1)
  pub room : slot.period_finish +ℤ pos (span now slot.last_update_time) ≤ℤ pos (i64_limit - 1)
  pub fits : slot.reward_per_token_stored + pending slot < u128_limit

module _ (slot : RewardInfo) (now : ℤ) (c : CanSettle slot now) where
  -- The seconds to stream.
  abbrev seconds : ℕ
  seconds = span (min_ℤ now slot.period_finish) slot.last_update_time

  seconds-lt : seconds < i64_limit
  unfolding span
  seconds-lt = ground (arith, min_ℤ_lem now slot.period_finish, c.in_range, c.past, c.ordered)

  seconds-mul-le : seconds * slot.reward_rate ≤ pending slot
  seconds-mul-le =
      mul-le-mul_right slot.reward_rate
        (omega (arith, span-split now slot.period_finish slot.last_update_time c.ordered))

  streams_fits :
      (total : ℕ) → slot.reward_per_token_stored + seconds * slot.reward_rate / total < u128_limit
  streams_fits total =
      omega (arith, seconds-mul-le, div-le_self (seconds * slot.reward_rate) total, c.fits)

  settle_slot-streams_fits :
      (total : ℕ) → settle_slot slot (suc total) now ≡ ok (streamed slot (suc total) now)
  unfolding settle_slot
  settle_slot-streams_fits total =
      let end = min_ℤ now slot.period_finish in
      let last = slot.last_update_time in
      ground (
        arith,
        span_lem end last,
        zero-mul slot.reward_rate,
        zero-div (suc total),
        sub_i64-fits end last,
        seconds-lt,
        seconds-mul-le,
        c.fits,
        streams_fits (suc total),
        accrue_rpt-fits slot.reward_per_token_stored (pos seconds) slot.reward_rate (suc total),
      )

  settle_slot-postpones_fits : settle_slot slot 0 now ≡ ok (postponed slot now)
  unfolding settle_slot
  settle_slot-postpones_fits =
      let last = slot.last_update_time in
      ground (
        arith,
        span_lem now last,
        sub_i64-fits now last,
        checked_add_i64-fits slot.period_finish (pos (span now last)),
        +ℤ_parts slot.period_finish (pos (span now last)),
        +ℤ-zero slot.period_finish,
        c.past,
        c.ordered,
        c.running,
        c.in_range,
        c.room,
      )

-- A settlement succeeds, with its exact value, where the last settlement is neither negative nor
-- after now, the finish is not negative and stays in range when it is put off, now is in range, and
-- the reward per token and what is still to stream fit together in 128 bits.
pub settle_slot-fits :
    (slot : RewardInfo) (total : ℕ) (now : ℤ)
    → CanSettle slot now
    → settle_slot slot total now ≡ ok (settled slot total now)
settle_slot-fits slot zero now c = settle_slot-postpones_fits slot now c
settle_slot-fits slot (suc n) now c =
    rw (lt→ltb 0 (suc n) (omega arith)) (settle_slot-streams_fits slot now c n)
