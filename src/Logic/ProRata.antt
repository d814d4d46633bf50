-- ===== src/Logic/ProRata.antt =====
-- The share of one staker in what a slot streams.
use mm_staking.Base.{
  ℕ, ◌+◌, ◌-◌, ◌*◌, ◌/◌, ◌≤◌, ◌<◌, ◌≡◌, ◌≢◌, refl, sym, ap, ◌∙◌, arith, some, get_elem?,
  some-injective, lt→ltb,
}
use mm_staking.Int.{ℤ, span, min_ℤ}
use mm_staking.Outcome.{ok}
use mm_staking.State.{default_key, precision, Pool, StakerAccount, RewardInfo, RewardEntry}
use mm_staking.Update.Settle.{settled, streamed}
use mm_staking.Logic.{claim_settle_all}
use mm_staking.Logic.Taking.{claim_settle_all-entry}
use native.Mathlib.Nat.{
  mul-div-le, lt-mul-div-succ, mul-le-mul_left, mul-lt-mul_of_pos_left, mul_comm, mul_assoc,
  mul-add,
}

-- The exact share of the streamed amount `x` is `staked * x` over `total`, scaled by the precision.
share-bounds :
    (staked x total : ℕ)
    → 0 < total
    → let gain = staked * (x / total) / precision in
      (total * (precision * gain) ≤ staked * x)
      × (staked * x < total * (precision * (gain + 1)) + total * staked)
share-bounds staked x total p =
    let d = x / total in
    let gain = staked * d / precision in
    let swap : total * (staked * d) ≡ staked * (total * d) =
      sym (mul_assoc total staked d)
      ∙ ap (λ n. n * d) (mul_comm total staked)
      ∙ mul_assoc staked total d in
    let below : staked * (total * d) ≤ staked * x = mul-le-mul_left staked (mul-div-le x total) in
    let scaled : total * (precision * gain) ≤ total * (staked * d) =
      mul-le-mul_left total (mul-div-le (staked * d) precision) in
    let above : total * (staked * d) < total * (precision * (gain + 1)) =
      mul-lt-mul_of_pos_left (lt-mul-div-succ (staked * d) {b = precision} (omega arith)) p in
    let upper : staked * x ≤ staked * (total * (d + 1)) =
      mul-le-mul_left staked (omega (arith, lt-mul-div-succ x {b = total} p)) in
    let spread : staked * (total * (d + 1)) ≡ staked * (total * d) + total * staked =
      ap (λ n. staked * n) (mul-add total d 1 ∙ ap (λ n. total * d + n) (omega arith))
      ∙ mul-add staked (total * d) total
      ∙ ap (λ n. staked * (total * d) + n) (mul_comm staked total) in
    (omega (arith, swap, below, scaled), omega (arith, swap, above, upper, spread))

-- Where tokens are staked and an entry is paid up to its registered slot, the settlement of a claim
-- that succeeds never lowers what the entry has accrued, and raises it by the staker's proportional
-- share of what the slot streams up to now: the gain, times the precision and the pool's count, is
-- at most the stake times the streamed amount, which stays below the same product for a gain of one
-- unit more, plus the stake times the pool's count.
pub claim_settle_all-pro_rata :
    (pool : Pool) (s : StakerAccount) (now : ℤ) (p : Pool) (t : StakerAccount)
    → claim_settle_all pool s now ≡ ok (p, t)
    → (i : ℕ) (slot new : RewardInfo) (e e' : RewardEntry) → get_elem? pool.rewards i ≡ some slot
    → get_elem? p.rewards i ≡ some new
    → new.mint ≢ default_key
    → get_elem? s.entries i ≡ some e
    → get_elem? t.entries i ≡ some e'
    → 0 < pool.total_staked
    → e.reward_per_token_paid ≡ slot.reward_per_token_stored
    → let seconds = span (min_ℤ now slot.period_finish) slot.last_update_time in
      let due = s.staked_amount * (seconds * slot.reward_rate) in
      let gain = e'.rewards_accrued - e.rewards_accrued in
      (e.rewards_accrued ≤ e'.rewards_accrued)
      × (pool.total_staked * (precision * gain) ≤ due)
      × (due < pool.total_staked * (precision * (gain + 1)) + pool.total_staked * s.staked_amount)
claim_settle_all-pro_rata pool s now p t h i slot new e e' was at named had has positive paid =
    let (slot', d, d', was', is, had', has', up, accrued) =
      claim_settle_all-entry pool s now p t h i new at named in
    let total = pool.total_staked in
    let x = span (min_ℤ now slot.period_finish) slot.last_update_time * slot.reward_rate in
    let same : slot' ≡ slot = some-injective (sym was' ∙ was) in
    let streams : new ≡ streamed slot total now =
      is ∙ ap (λ r. settled r total now) same ∙ rw (lt→ltb 0 total positive) refl in
    let rises : new.reward_per_token_stored ≡ slot.reward_per_token_stored + x / total =
      ap (λ r. r.reward_per_token_stored) streams in
    let step : new.reward_per_token_stored - d.reward_per_token_paid ≡ x / total =
      omega
        (arith, rises, ap (λ r. r.reward_per_token_paid) (some-injective (sym had' ∙ had)), paid) in
    let gains : e'.rewards_accrued ≡ e.rewards_accrued + s.staked_amount * (x / total) / precision =
      ap (λ r. r.rewards_accrued) (some-injective (sym has ∙ has'))
      ∙ accrued
      ∙ ap (λ n. d.rewards_accrued + s.staked_amount * n / precision) step
      ∙ ap (λ r. r.rewards_accrued + s.staked_amount * (x / total) / precision)
          (some-injective (sym had' ∙ had)) in
    let gain : e'.rewards_accrued - e.rewards_accrued ≡ s.staked_amount * (x / total) / precision =
      omega (arith, gains) in
    let bounds = share-bounds s.staked_amount x total positive in
    (omega (arith, gains), rw gain bounds.0, rw gain bounds.1)
