-- ===== src/Update/Settle.antt =====
-- `settle_slot` of update.rs: what one settlement streams.
use mm_staking.Base.{
  ℕ, zero, suc, ◌+◌, ◌-◌, ◌*◌, ◌/◌, ◌≤◌, ◌<◌, ◌≡◌, ◌⊎◌, inl, inr, arith, Option-cases, ltb,
  if◌then◌else◌, lt→ltb,
}
use mm_staking.Int.{ℤ, pos, span, span_lem, ◌+ℤ◌, +ℤ_parts, min_ℤ, ◌≤ℤ◌, ltb_ℤ}
use mm_staking.Word.{sub_i64, checked_add_i64}
use mm_staking.Word.Laws.{sub_i64-some, checked_add_i64-some}
use mm_staking.Outcome.{ok, ok-cases}
use mm_staking.State.{RewardInfo}
use mm_staking.Math.{accrue_rpt}
use mm_staking.Math.Exact.{accrue_rpt-ok}
use mm_staking.Update.{settle_slot}
use native.Mathlib.Nat.{div-mul-le_self, mul-le-mul_right, add-mul, zero-mul, zero-div}

pub min_ℤ_lem :
    (a b : ℤ) → (min_ℤ a b ≤ℤ a) × (min_ℤ a b ≤ℤ b) × ((min_ℤ a b ≡ a) ⊎ (min_ℤ a b ≡ b))
unfolding min_ℤ
min_ℤ_lem a b = ground arith

-- The slot after a settlement with tokens staked: the seconds since the last one, up to the finish,
-- have been streamed.
abbrev pub streamed : RewardInfo → ℕ → ℤ → RewardInfo
streamed slot total_staked now = record slot {
  reward_per_token_stored =
      slot.reward_per_token_stored
      + span (min_ℤ now slot.period_finish) slot.last_update_time * slot.reward_rate / total_staked;
  last_update_time = now;
}

-- The slot after a settlement with nothing staked: a period that still runs is pushed back by the
-- idle time.
abbrev pub postponed : RewardInfo → ℤ → RewardInfo
postponed slot now = record slot {
  period_finish =
      if ltb_ℤ now slot.period_finish
      then slot.period_finish +ℤ pos (span now slot.last_update_time)
      else slot.period_finish;
  last_update_time = now;
}

abbrev pub settled : RewardInfo → ℕ → ℤ → RewardInfo
settled slot total_staked now =
    if ltb 0 total_staked then streamed slot total_staked now else postponed slot now

pub settle_slot-streams :
    (slot slot' : RewardInfo) (total : ℕ) (now : ℤ)
    → 0 < total
    → settle_slot slot total now ≡ ok slot'
    → slot' ≡ streamed slot total now
unfolding settle_slot
settle_slot-streams slot slot' total now p h =
    let end = min_ℤ now slot.period_finish in
    let last = slot.last_update_time in
    let seconds = span end last in
    elim (Option-cases (sub_i64 end last)) [
      | inl none_left ↦ ground (arith, span_lem end last, zero-mul slot.reward_rate, zero-div total)
      | inr (d, e) ↦
          elim (ok-cases (accrue_rpt slot.reward_per_token_stored d slot.reward_rate total)) [
            | inl (f, stop) ↦
                ground (arith, span_lem end last, zero-mul slot.reward_rate, zero-div total)
            | inr (r, go) ↦ ground (
              arith,
              span_lem end last,
              zero-mul slot.reward_rate,
              zero-div total,
              sub_i64-some end last d e,
              accrue_rpt-ok slot.reward_per_token_stored d slot.reward_rate total r go,
            )
          ]
    ]

pub +ℤ-zero : (a : ℤ) → a +ℤ pos 0 ≡ a
unfolding ◌+ℤ◌
+ℤ-zero a = ground arith

settle_slot-postpones :
    (slot slot' : RewardInfo) (now : ℤ)
    → settle_slot slot 0 now ≡ ok slot'
    → slot' ≡ postponed slot now
unfolding settle_slot
settle_slot-postpones slot slot' now h =
    let last = slot.last_update_time in
    elim (Option-cases (sub_i64 now last)) [
      | inl none_left ↦ ground (arith, span_lem now last, +ℤ-zero slot.period_finish)
      | inr (d, e) ↦ elim (Option-cases (checked_add_i64 slot.period_finish d)) [
        | inl too_late ↦ ground (arith, span_lem now last, +ℤ-zero slot.period_finish)
        | inr (finish, go) ↦ ground (
          arith,
          span_lem now last,
          +ℤ-zero slot.period_finish,
          sub_i64-some now last d e,
          checked_add_i64-some slot.period_finish d finish go,
        )
      ]
    ]

-- A settlement that succeeds gives the exact value: with tokens staked, the reward per token rises
-- by the seconds from the last settlement to now or to the finish, whichever is first, times the
-- rate and over the stake; with none staked, a period that still runs finishes later by the time
-- gone by since the last settlement; the slot is then settled up to now.
pub settle_slot_lem :
    (slot slot' : RewardInfo) (total : ℕ) (now : ℤ)
    → settle_slot slot total now ≡ ok slot'
    → slot' ≡ settled slot total now
settle_slot_lem slot slot' zero now h = settle_slot-postpones slot slot' now h
settle_slot_lem slot slot' (suc n) now h =
    ground (arith, settle_slot-streams slot slot' (suc n) now (omega arith) h)

-- The scaled tokens that a slot has still to stream.
abbrev pub pending : RewardInfo → ℕ
pending slot = span slot.period_finish slot.last_update_time * slot.reward_rate

pub span-split :
    (now finish last : ℤ)
    → last ≤ℤ now
    → span (min_ℤ now finish) last + span finish now ≤ span finish last
unfolding span
span-split now finish last h = ground (arith, min_ℤ_lem now finish)

span-postponed :
    (now finish last : ℤ)
    → last ≤ℤ now
    → span (if ltb_ℤ now finish then finish +ℤ pos (span now last) else finish) now
      ≤ span finish last
unfolding span
span-postponed now finish last h = ground (arith, +ℤ_parts finish (pos (span now last)))

streamed-le :
    (slot : RewardInfo) (total : ℕ) (now : ℤ)
    → slot.last_update_time ≤ℤ now
    → ((streamed slot total now).reward_per_token_stored - slot.reward_per_token_stored) * total
        + pending (streamed slot total now)
      ≤ pending slot
streamed-le slot total now h =
    let seconds = span (min_ℤ now slot.period_finish) slot.last_update_time in
    let left = span slot.period_finish now in
    grind (
      arith,
      div-mul-le_self (seconds * slot.reward_rate) total,
      mul-le-mul_right slot.reward_rate (span-split now slot.period_finish slot.last_update_time h),
      add-mul seconds left slot.reward_rate,
    )

-- What a settlement adds to each staked token, over all of them, and what is then left, come to no
-- more than what was left before. Without stake nothing is added.
pub settled-le :
    (slot : RewardInfo) (total : ℕ) (now : ℤ)
    → slot.last_update_time ≤ℤ now
    → (slot.reward_per_token_stored ≤ (settled slot total now).reward_per_token_stored)
      × (((settled slot total now).reward_per_token_stored - slot.reward_per_token_stored) * total
            + pending (settled slot total now)
          ≤ pending slot)
settled-le slot zero now h = (
  omega arith,
  grind (
    arith,
    mul-le-mul_right slot.reward_rate
        (span-postponed now slot.period_finish slot.last_update_time h),
  ),
)
settled-le slot (suc n) now h =
    rw (lt→ltb 0 (suc n) (omega arith)) (omega arith, streamed-le slot (suc n) now h)

-- A settlement that succeeds, at a time not before the last one, never lowers the reward per token;
-- and what it adds to each staked token, over all of them, and what the slot then has still to
-- stream come to no more than what it had to stream before.
pub settle_slot-conserves :
    (slot slot' : RewardInfo) (total : ℕ) (now : ℤ)
    → settle_slot slot total now ≡ ok slot'
    → slot.last_update_time ≤ℤ now
    → (slot.reward_per_token_stored ≤ slot'.reward_per_token_stored)
      × ((slot'.reward_per_token_stored - slot.reward_per_token_stored) * total + pending slot'
          ≤ pending slot)
settle_slot-conserves slot slot' total now h later =
    rw (settle_slot_lem slot slot' total now h) (settled-le slot total now later)
