-- ===== src/Math/Exact.antt =====
-- What math.rs computes, in exact arithmetic, and when it fits.
use mm_staking.Base.{ℕ, ◌+◌, ◌-◌, ◌*◌, ◌/◌, ◌≤◌, ◌<◌, ◌≡◌, inl, inr, arith, Option-cases}
use mm_staking.Int.{ℤ, pos, pos_part, span, span_lem, ◌<ℤ◌}
use mm_staking.Word.{u64_limit, u128_limit, i64_limit, sub_i64}
use mm_staking.Outcome.{ok, ok-cases}
use mm_staking.State.{precision}
use mm_staking.Math.{accrue_rpt, earned, leftover, notify_rate}
use mm_staking.Word.Laws.{sub_i64-some, sub_i64-fits}
use native.Mathlib.Nat.{div-zero, zero-div, zero-mul}

pub accrue_rpt-ok :
    (rpt : ℕ) (elapsed : ℤ) (rate total : ℕ) (r : ℕ)
    → accrue_rpt rpt elapsed rate total ≡ ok r
    → r ≡ rpt + pos_part elapsed * rate / total
unfolding accrue_rpt
accrue_rpt-ok rpt (pos e) rate total r h =
    ground (arith, div-zero (e * rate), zero-div total, zero-mul rate)
accrue_rpt-ok rpt elapsed rate total r h = ground (arith, zero-div total, zero-mul rate)

pub accrue_rpt-fits :
    (rpt : ℕ) (elapsed : ℤ) (rate total : ℕ)
    → pos_part elapsed * rate < u128_limit
    → rpt + pos_part elapsed * rate / total < u128_limit
    → accrue_rpt rpt elapsed rate total ≡ ok (rpt + pos_part elapsed * rate / total)
unfolding accrue_rpt
accrue_rpt-fits rpt (pos e) rate total h k =
    ground (arith, div-zero (e * rate), zero-div total, zero-mul rate)
accrue_rpt-fits rpt elapsed rate total h k = ground (arith, zero-div total, zero-mul rate)

pub earned-ok :
    (staked rpt paid accrued : ℕ) (r : ℕ)
    → earned staked rpt paid accrued ≡ ok r
    → (paid ≤ rpt) × (r ≡ accrued + staked * (rpt - paid) / precision) × (r < u64_limit)
unfolding earned
earned-ok staked rpt paid accrued r h = ground arith

pub earned-fits :
    (staked rpt paid accrued : ℕ)
    → paid ≤ rpt
    → staked * (rpt - paid) < u128_limit
    → accrued + staked * (rpt - paid) / precision < u64_limit
    → earned staked rpt paid accrued ≡ ok (accrued + staked * (rpt - paid) / precision)
unfolding earned
earned-fits staked rpt paid accrued h k l = ground arith

pub leftover-ok :
    (rate : ℕ) (now finish : ℤ) (r : ℕ)
    → leftover rate now finish ≡ ok r
    → r ≡ span finish now * rate
unfolding leftover
leftover-ok rate now finish r h = elim (Option-cases (sub_i64 finish now)) [
  | inl e ↦ ground (arith, zero-mul rate, span_lem finish now)
  | inr (d, e) ↦ ground (arith, zero-mul rate, sub_i64-some finish now d e, span_lem finish now)
]

pub leftover-fits :
    (rate : ℕ) (now finish : ℤ)
    → span finish now < i64_limit
    → span finish now * rate < u128_limit
    → leftover rate now finish ≡ ok (span finish now * rate)
unfolding leftover
leftover-fits rate now finish h k =
    ground (arith, zero-mul rate, sub_i64-fits finish now, span_lem finish now)

pub notify_rate-ok :
    (amount rate : ℕ) (now finish duration : ℤ) (r : ℕ)
    → notify_rate amount rate now finish duration ≡ ok r
    → (pos 0 <ℤ duration) × (r ≡ (amount * precision + span finish now * rate) / pos_part duration)
unfolding notify_rate
notify_rate-ok amount rate now finish (pos d) r h = elim (ok-cases (leftover rate now finish)) [
  | inl (f, e) ↦ ground arith
  | inr (left, e) ↦ ground (arith, leftover-ok rate now finish left e)
]
notify_rate-ok amount rate now finish duration r h = ground arith

pub notify_rate-fits :
    (amount rate : ℕ) (now finish duration : ℤ)
    → pos 0 <ℤ duration
    → span finish now < i64_limit
    → amount * precision + span finish now * rate < u128_limit
    → notify_rate amount rate now finish duration
      ≡ ok ((amount * precision + span finish now * rate) / pos_part duration)
unfolding notify_rate
notify_rate-fits amount rate now finish (pos d) p h k =
    ground (arith, leftover-fits rate now finish h)
notify_rate-fits amount rate now finish duration p h k = ground arith
