-- ===== src/Solvency/Rewards.antt =====
-- Writes to one slot, `deposit_rewards` of logic.rs, and the soundness of a pool.
use mm_staking.Base.{
  ℕ, ◌+◌, ◌*◌, ◌/◌, ◌≤◌, ◌≡◌, ◌≢◌, sym, ap, ◌∙◌, subst, inl, inr, arith, some, some-injective,
  total_of, AllValues, ◌==◌, get_elem?, set, get_elem?-set_cases,
}
use mm_staking.Int.{ℤ, pos, span, span_lem, pos_part, neg_part, +ℤ_parts, ◌+ℤ◌, ◌≤ℤ◌, ◌<ℤ◌}
use mm_staking.Word.{checked_add_i64}
use mm_staking.Word.Laws.{checked_add_i64-some}
use mm_staking.Outcome.{
  StakingError, ok, >>=-eq-ok, ok_or, or_panic, require, ok_or-ok, or_panic-ok, ok-injective,
}
use mm_staking.State.{Pubkey, precision, Pool, RewardInfo}
use mm_staking.Math.{notify_rate}
use mm_staking.Math.Exact.{notify_rate-ok}
use mm_staking.Update.{find_slot, update_globals}
use mm_staking.Update.Settle.{pending}
use mm_staking.Logic.{rerate, deposit_rewards}
use mm_staking.Solvency.{Stakers, PoolSound, SlotSound, claim_of, InStep}
use mm_staking.Solvency.Pooled.{update_globals-PoolSound}
use native.Mathlib.Nat.{mul-div-le, mul-le-mul_right}

-- One slot is written, and the tokens behind the others stay.
pub set-PoolSound :
    (pool : Pool) (stakers : Stakers) (clock : ℤ) (funds funds' : ℕ → ℕ) (i : ℕ)
    (old slot : RewardInfo)
    → PoolSound pool stakers clock funds
    → get_elem? pool.rewards i ≡ some old
    → SlotSound i slot stakers clock (funds' i)
    → ((j : ℕ) → j ≢ i → funds' j ≡ funds j)
    → PoolSound (record pool { rewards = set pool.rewards i slot }) stakers clock funds'
set-PoolSound pool stakers clock funds funds' i old slot v at sound rest = record {
  counted = v.counted;
  slots = λ j t g. elim (get_elem?-set_cases pool.rewards i j slot at g) [
    | inl (e, same) ↦
        subst (λ k. SlotSound k t stakers clock (funds' k)) (sym e)
          (subst (λ u. SlotSound i u stakers clock (funds' i)) (sym same) sound)
    | inr (ne, was) ↦ subst (SlotSound j t stakers clock) (sym (rest j ne)) (v.slots j t was)
  ];
}

pub rerate-parts :
    (slot : RewardInfo) (received : ℕ) (now : ℤ) (slot' : RewardInfo)
    → rerate slot received now ≡ ok slot'
    → (pos 0 <ℤ slot.duration)
      × (slot' ≡ record slot {
        reward_rate =
            (received * precision + span slot.period_finish now * slot.reward_rate)
            / pos_part slot.duration;
        last_update_time = now;
        period_finish = now +ℤ slot.duration;
      })
unfolding rerate
rerate-parts slot received now slot' h =
    let (rate, go, more) =
      >>=-eq-ok (notify_rate received slot.reward_rate now slot.period_finish slot.duration) _ h in
    let (p, e) =
      notify_rate-ok received slot.reward_rate now slot.period_finish slot.duration rate go in
    let (finish, sum, last) =
      >>=-eq-ok (ok_or (checked_add_i64 now slot.duration) StakingError.math_overflow) _ more in
    let added = checked_add_i64-some now slot.duration finish (ok_or-ok _ _ sum) in
    (p, ground arith)

span-later : (finish last now : ℤ) → last ≤ℤ now → span finish now ≤ span finish last
span-later finish last now h = omega (arith, span_lem finish now, span_lem finish last)

pub span-now :
    (now duration : ℤ) → pos 0 <ℤ duration → span (now +ℤ duration) now ≡ pos_part duration
span-now now (pos d) p = omega (arith, span_lem (now +ℤ pos d) now, +ℤ_parts now (pos d))
span-now now duration p = absurd (omega arith)

-- What a new rate will stream is no more than what was received and what was left.
rerate-pending :
    (slot : RewardInfo) (received : ℕ) (now : ℤ) (slot' : RewardInfo)
    → rerate slot received now ≡ ok slot'
    → slot.last_update_time ≤ℤ now
    → pending slot' ≤ pending slot + precision * received
rerate-pending slot received now slot' h timely =
    let (p, e) = rerate-parts slot received now slot' h in
    let left = span slot.period_finish now * slot.reward_rate in
    rw e (
      rw (span-now now slot.duration p) (
        omega (
          arith,
          mul-div-le (received * precision + left) (pos_part slot.duration),
          mul-le-mul_right slot.reward_rate
              (span-later slot.period_finish slot.last_update_time now timely),
        )))

rerate-SlotSound :
    (i : ℕ) (slot : RewardInfo) (stakers : Stakers) (funds received : ℕ) (now : ℤ)
    (slot' : RewardInfo)
    → rerate slot received now ≡ ok slot'
    → SlotSound i slot stakers now funds
    → SlotSound i slot' stakers now (funds + received)
rerate-SlotSound i slot stakers funds received now slot' h v =
    let (p, e) = rerate-parts slot received now slot' h in
    let less = rerate-pending slot received now slot' h v.timely in
    let same : slot'.reward_per_token_stored ≡ slot.reward_per_token_stored =
      ap (λ s. s.reward_per_token_stored) e in
    record {
      solvent = record {
        backed =
            omega
              (arith, ap (λ rpt. total_of (claim_of i rpt) stakers) same, v.solvent.backed, less);
        in_step = subst (λ rpt. AllValues (InStep i rpt) stakers) (sym same) v.solvent.in_step;
        blank = λ m. same ∙ v.solvent.blank (sym (ap (λ s. s.mint) e) ∙ m);
      };
      timely =
          omega (
            arith,
            ap (λ s. pos_part s.last_update_time) e,
            ap (λ s. neg_part s.last_update_time) e,
          );
    }

pub deposit_rewards-parts :
    (pool : Pool) (mint : Pubkey) (received : ℕ) (now : ℤ) (pool' : Pool)
    → deposit_rewards pool mint received now ≡ ok pool'
    → (i : ℕ) × (p : Pool) × (slot slot' : RewardInfo) × (find_slot pool mint ≡ some i)
      × (update_globals pool now ≡ ok p)
      × (get_elem? p.rewards i ≡ some slot)
      × (rerate slot received now ≡ ok slot')
      × (pool' ≡ record p { rewards = set p.rewards i slot' })
unfolding deposit_rewards
deposit_rewards-parts pool mint received now pool' h =
    let (i, found, h1) =
      >>=-eq-ok (ok_or (find_slot pool mint) StakingError.reward_not_found) _ h in
    let (old, at, h2) = >>=-eq-ok (or_panic (get_elem? pool.rewards i)) _ h1 in
    let (u, active, h3) = >>=-eq-ok (require (old.active == 1) StakingError.reward_inactive) _ h2 in
    let (p, go, h4) = >>=-eq-ok (update_globals pool now) _ h3 in
    let (slot, at', h5) = >>=-eq-ok (or_panic (get_elem? p.rewards i)) _ h4 in
    let (slot', rated, h6) = >>=-eq-ok (rerate slot received now) _ h5 in
    (i, p, slot, slot', ok_or-ok _ _ found, go, or_panic-ok _ at', rated, sym (ok-injective h6))

-- A deposit keeps the pool sound, where the slot of its mint has the tokens received behind it.
pub deposit_rewards-PoolSound :
    (pool : Pool) (stakers : Stakers) (clock now : ℤ) (funds funds' : ℕ → ℕ) (mint : Pubkey)
    (received : ℕ) (pool' : Pool)
    → deposit_rewards pool mint received now ≡ ok pool'
    → clock ≤ℤ now
    → ((i : ℕ) → find_slot pool mint ≡ some i → funds' i ≡ funds i + received)
    → ((i : ℕ) → find_slot pool mint ≢ some i → funds' i ≡ funds i)
    → PoolSound pool stakers clock funds
    → PoolSound pool' stakers now funds'
deposit_rewards-PoolSound pool stakers clock now funds funds' mint received pool' h later here there
      v =
    let (i, p, slot, slot', found, go, at, rated, e) =
      deposit_rewards-parts pool mint received now pool' h in
    let settled = update_globals-PoolSound pool p stakers clock now funds go later v in
    let sound =
      rerate-SlotSound i slot stakers (funds i) received now slot' rated
        (settled.slots i slot at) in
    subst (λ q. PoolSound q stakers now funds') (sym e)
      (set-PoolSound p stakers now funds funds' i slot slot' settled at
        (subst (SlotSound i slot' stakers now) (sym (here i found)) sound)
        (λ j ne. there j (λ f. ne (some-injective (sym f ∙ found)))))
