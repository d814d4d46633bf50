-- ===== src/Update/Steps.antt =====
-- `settle_slot` of update.rs in several steps, and over an idle time.
use mm_staking.Base.{
  ℕ, ◌+◌, ◌*◌, ◌/◌, ◌≤◌, ◌<◌, ◌≡◌, inl, inr, sym, ap, ◌∙◌, arith, Bool-cases, if◌then◌else◌, false,
}
use mm_staking.Int.{ℤ, pos, span, ◌+ℤ◌, +ℤ_parts, span_lem, min_ℤ, ◌≤ℤ◌, ltb_ℤ}
use mm_staking.Outcome.{ok}
use mm_staking.State.{RewardInfo}
use mm_staking.Update.{settle_slot}
use mm_staking.Update.Settle.{streamed, pending, settle_slot_lem, settle_slot-streams, min_ℤ_lem}
use native.Mathlib.Nat.{
  add-mul, zero-mul, le-div_iff_mul-le, div-lt_iff_lt-mul, lt-div-mul-add, div-mul-le_self,
}

-- The seconds to stream until `t2`, from `last`, are those until `t1` and those after it.
span-steps :
    (last t1 t2 finish : ℤ)
    → last ≤ℤ t1
    → t1 ≤ℤ t2
    → span (min_ℤ t2 finish) last ≡ span (min_ℤ t1 finish) last + span (min_ℤ t2 finish) t1
unfolding span
span-steps last t1 t2 finish a b = ground (arith, min_ℤ_lem t1 finish, min_ℤ_lem t2 finish)

span-over : (now finish : ℤ) → ltb_ℤ now finish ≡ false → span finish now ≡ 0
unfolding span
span-over now finish over = ground arith

-- A settlement with nothing staked that succeeds, at a time not before the last one, leaves the
-- reward per token; it keeps all that the slot had still to stream where now is before the finish,
-- and leaves the slot nothing to stream where it is not.
pub settle_slot-idle :
    (slot slot' : RewardInfo) (now : ℤ)
    → settle_slot slot 0 now ≡ ok slot'
    → slot.last_update_time ≤ℤ now
    → (slot'.reward_per_token_stored ≡ slot.reward_per_token_stored)
      × (pending slot' ≡ (if ltb_ℤ now slot.period_finish then pending slot else 0))
settle_slot-idle slot slot' now h later =
    let e = settle_slot_lem slot slot' 0 now h in
    let finish = slot.period_finish in
    let last = slot.last_update_time in
    let gap = pos (span now last) in
    (
      ap (λ s. s.reward_per_token_stored) e,
      ap pending e ∙ elim (Bool-cases (ltb_ℤ now finish)) [
        | inl runs ↦ rw runs (
            ap (λ n. n * slot.reward_rate)
              (omega (
                arith,
                span_lem (finish +ℤ gap) now,
                +ℤ_parts finish gap,
                span_lem now last,
                span_lem finish last,
                later,
              )))
        | inr over ↦ rw over (rw (span-over now finish over) (zero-mul slot.reward_rate))
      ],
    )

-- A quotient of a sum is that of the parts, or one more.
div-sum : (x y t : ℕ) → 0 < t → (x / t + y / t ≤ (x + y) / t) × ((x + y) / t ≤ x / t + y / t + 1)
div-sum x y t p =
    let below : (x / t + y / t) * t ≤ x + y =
      omega (arith, add-mul (x / t) (y / t) t, div-mul-le_self x t, div-mul-le_self y t) in
    let above : x + y < (x / t + y / t + 2) * t = omega (
      arith,
      add-mul (x / t + y / t) 2 t,
      add-mul (x / t) (y / t) t,
      lt-div-mul-add {a = x} p,
      lt-div-mul-add {a = y} p,
    ) in
    (
      (le-div_iff_mul-le {k = t} {x = x / t + y / t} {y = x + y} p).1 below,
      omega (arith, (div-lt_iff_lt-mul {k = t} {x = x + y} {y = x / t + y / t + 2} p).1 above),
    )

-- With tokens staked, a slot that is settled in two steps ends with the finish and the time that
-- one settlement at the later time gives, and with its reward per token or one scaled unit less,
-- where the settlements succeed and their times do not go back.
pub settle_slot-steps :
    (slot first second direct : RewardInfo) (total : ℕ) (t1 t2 : ℤ)
    → 0 < total
    → slot.last_update_time ≤ℤ t1
    → t1 ≤ℤ t2
    → settle_slot slot total t1 ≡ ok first
    → settle_slot first total t2 ≡ ok second
    → settle_slot slot total t2 ≡ ok direct
    → (second.reward_per_token_stored ≤ direct.reward_per_token_stored)
      × (direct.reward_per_token_stored ≤ second.reward_per_token_stored + 1)
      × (second.period_finish ≡ direct.period_finish)
      × (second.last_update_time ≡ direct.last_update_time)
settle_slot-steps slot first second direct total t1 t2 p a b h1 h2 h3 =
    let e1 = settle_slot-streams slot first total t1 p h1 in
    let e2 = settle_slot-streams first second total t2 p h2 in
    let e3 = settle_slot-streams slot direct total t2 p h3 in
    let again : second ≡ streamed (streamed slot total t1) total t2 =
      e2 ∙ ap (λ s. streamed s total t2) e1 in
    let finish = slot.period_finish in
    let x = span (min_ℤ t1 finish) slot.last_update_time * slot.reward_rate in
    let y = span (min_ℤ t2 finish) t1 * slot.reward_rate in
    let rpt2 : second.reward_per_token_stored
        ≡ slot.reward_per_token_stored + x / total + y / total =
      ap (λ s. s.reward_per_token_stored) again in
    let rpt3 : direct.reward_per_token_stored ≡ slot.reward_per_token_stored + (x + y) / total =
      ap (λ s. s.reward_per_token_stored) e3
      ∙ ap (λ n. slot.reward_per_token_stored + n / total)
          (ap (λ n. n * slot.reward_rate) (span-steps slot.last_update_time t1 t2 finish a b)
            ∙ add-mul (span (min_ℤ t1 finish) slot.last_update_time) (span (min_ℤ t2 finish) t1)
                slot.reward_rate) in
    let (low, high) = div-sum x y total p in
    (
      omega (arith, rpt2, rpt3, low),
      omega (arith, rpt2, rpt3, high),
      ap (λ s. s.period_finish) again ∙ sym (ap (λ s. s.period_finish) e3),
      ap (λ s. s.last_update_time) again ∙ sym (ap (λ s. s.last_update_time) e3),
    )
