-- ===== src/Solvency/Fits.antt =====
-- The widths of the source in a pool that is sound.
use mm_staking.Base.{
  ℕ, ◌+◌, ◌-◌, ◌*◌, ◌≤◌, ◌<◌, ◌≡◌, ◌≢◌, ap, ◌∙◌, subst, arith, some, length, get_elem?, lookup,
  value_or, total_of-lookup_le, AllValues-value_or,
}
use mm_staking.Int.{ℤ, pos, span, ◌+ℤ◌, ◌≤ℤ◌}
use mm_staking.Word.{u64_limit, u128_limit, i64_limit}
use mm_staking.State.{
  default_key, precision, Pool, StakerAccount, zeroed_staker, RewardInfo, RewardEntry,
}
use mm_staking.Update.Fits.{CanSettle}
use mm_staking.Update.Total.{
  CanAccrue, AllSettle, AllSettle-of, AllAccrue, AllAccrue-of, refreshed_all, refreshed_all-length,
  refreshed_all-at, update_globals-fits,
}
use mm_staking.Solvency.{Stakers, PoolSound, SlotSound, claim_of, entry_claim, EntryInStep, InStep}
use mm_staking.Solvency.Claims.{InStep-zeroed}
use mm_staking.Solvency.Pooled.{update_globals-PoolSound}
use native.Mathlib.Nat.{mul-div-le}

-- A slot whose times are in the range of the clock, with room for what can still be streamed.
pub record InRange (slot : RewardInfo) (now : ℤ) : Type 0 where
  pub past : pos 0 ≤ℤ slot.last_update_time
  pub running : pos 0 ≤ℤ slot.period_finish
  pub room : slot.period_finish +ℤ pos (span now slot.last_update_time) ≤ℤ pos (i64_limit - 1)
  pub stored : slot.reward_per_token_stored + precision * u64_limit ≤ u128_limit

SlotSound-CanSettle :
    (i : ℕ) (slot : RewardInfo) (stakers : Stakers) (clock now : ℤ) (funds : ℕ)
    → SlotSound i slot stakers clock funds
    → clock ≤ℤ now
    → now ≤ℤ pos (i64_limit - 1)
    → funds < u64_limit
    → InRange slot now
    → CanSettle slot now
SlotSound-CanSettle i slot stakers clock now funds v later clock_range small r = record {
  past = r.past;
  ordered = omega (arith, v.timely);
  running = r.running;
  in_range = clock_range;
  room = r.room;
  fits = omega (arith, v.solvent.backed, r.stored);
}

-- What one staker accrues beside a slot is within what backs it.
accrual-fits :
    (staked : ℕ) (slot : RewardInfo) (e : RewardEntry) (funds : ℕ)
    → e.reward_per_token_paid ≤ slot.reward_per_token_stored
    → entry_claim staked slot.reward_per_token_stored (some e) ≤ precision * funds
    → funds < u64_limit
    → CanAccrue staked slot e
accrual-fits staked slot e funds paid backed small =
    let new = staked * (slot.reward_per_token_stored - e.reward_per_token_paid) in
    record {
      paid = paid;
      product = omega (arith, backed);
      total = omega (arith, backed, mul-div-le new precision);
    }

module _ (pool : Pool) (stakers : Stakers) (clock now : ℤ) (funds : ℕ → ℕ)
    (v : PoolSound pool stakers clock funds) (later : clock ≤ℤ now)
    (clock_range : now ≤ℤ pos (i64_limit - 1))
    (small : (i : ℕ) (slot : RewardInfo)
      → get_elem? pool.rewards i ≡ some slot
      → funds i < u64_limit)
    (ranges : (i : ℕ) (slot : RewardInfo)
      → get_elem? pool.rewards i ≡ some slot
      → slot.mint ≢ default_key
      → InRange slot now) where
  pub PoolSound-AllSettle : AllSettle now pool.rewards
  PoolSound-AllSettle = AllSettle-of now pool.rewards (λ i slot at named.
      SlotSound-CanSettle i slot stakers clock now (funds i) (v.slots i slot at) later clock_range
        (small i slot at) (ranges i slot at named))

  pub PoolSound-AllAccrue :
      (key : ℕ) (s : StakerAccount)
      → lookup key stakers ≡ some s
      → length pool.rewards ≡ length s.entries
      → AllAccrue s.staked_amount (refreshed_all pool.total_staked now pool.rewards) s.entries
  PoolSound-AllAccrue key s there same =
      let slots = refreshed_all pool.total_staked now pool.rewards in
      let pool' : Pool = record pool { rewards = slots } in
      let after =
        update_globals-PoolSound pool pool' stakers clock now funds
          (update_globals-fits pool now PoolSound-AllSettle) later v in
      AllAccrue-of s.staked_amount slots s.entries
        (refreshed_all-length pool.total_staked now pool.rewards ∙ same)
        (λ i new e at entry named.
          let (slot, was, is_named, vault) =
            refreshed_all-at pool.total_staked now pool.rewards i new at named in
          let rpt = new.reward_per_token_stored in
          let sound = (after.slots i new at).solvent in
          let step : InStep i rpt s =
            subst (λ o. InStep i rpt (value_or zeroed_staker o)) there
              (AllValues-value_or (InStep i rpt) zeroed_staker key stakers (InStep-zeroed i rpt)
                sound.in_step) in
          accrual-fits s.staked_amount new e (funds i) (subst (EntryInStep rpt) entry step)
            (omega (
              arith,
              sound.backed,
              total_of-lookup_le (claim_of i rpt) key s stakers there,
              ap (entry_claim s.staked_amount rpt) entry,
            ))
            (small i slot was))
