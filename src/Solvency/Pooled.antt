-- ===== src/Solvency/Pooled.antt =====
-- `update_reward` of update.rs, the writes around it, and the soundness of a pool.
use mm_staking.Base.{
  ℕ, ◌+◌, ◌≡◌, refl, sym, ap, ap₂, ◌∙◌, inl, inr, arith, lookup, insert, value_or, total_of-insert,
  AllValues-value_or, ◌==◌, Bool-cases,
}
use mm_staking.Int.{ℤ, ◌≤ℤ◌}
use mm_staking.Outcome.{ok, >>=-eq-ok}
use mm_staking.State.{default_key, RewardInfo, Pool, StakerAccount, zeroed_staker}
use mm_staking.Update.{settle_round, settle_slots, accrue_entries, update_globals, update_reward}
use mm_staking.Update.PerSlot.{settle_slots-at}
use mm_staking.Update.Settle.{settle_slot_lem}
use mm_staking.Solvency.{Stakers, stake_of, InStep, PoolSound}
use mm_staking.Solvency.Settling.{settle_round-IsSolvent}
use mm_staking.Solvency.Claims.{InStep-zeroed, IsSolvent-insert, accrue_entries-claim}

-- The parts of an update of the pool alone.
pub update_globals-parts :
    (pool : Pool) (now : ℤ) (pool' : Pool)
    → update_globals pool now ≡ ok pool'
    → (settle_slots pool.rewards pool.total_staked now ≡ ok pool'.rewards)
      × (pool' ≡ record pool { rewards = pool'.rewards })
unfolding update_globals
update_globals-parts pool now pool' h =
    let (rewards, go, e) = >>=-eq-ok (settle_slots pool.rewards pool.total_staked now) _ h in
    ground arith

-- The parts of an update of the pool and a staker.
pub update_reward-parts :
    (pool : Pool) (s : StakerAccount) (now : ℤ) (pool' : Pool) (s' : StakerAccount)
    → update_reward pool s now ≡ ok (pool', s')
    → (update_globals pool now ≡ ok pool')
      × (accrue_entries pool'.rewards s.staked_amount s.entries ≡ ok s'.entries)
      × (s' ≡ record s { entries = s'.entries })
unfolding update_reward
update_reward-parts pool s now pool' s' h =
    let (p, go, more) = >>=-eq-ok (update_globals pool now) _ h in
    let (entries, go_on, e) =
      >>=-eq-ok (accrue_entries p.rewards s.staked_amount s.entries) _ more in
    ground arith

settle_round-timely :
    (slot slot' : RewardInfo) (total : ℕ) (now : ℤ)
    → settle_round slot total now ≡ ok slot'
    → slot.last_update_time ≤ℤ now
    → slot'.last_update_time ≤ℤ now
unfolding settle_round
settle_round-timely slot slot' total now h timely = elim (Bool-cases (slot.mint == default_key)) [
  | inl empty ↦ ground arith
  | inr taken ↦ ground (arith, settle_slot_lem slot slot' total now)
]

-- An update of the pool keeps it sound.
pub update_globals-PoolSound :
    (pool pool' : Pool) (stakers : Stakers) (clock now : ℤ) (funds : ℕ → ℕ)
    → update_globals pool now ≡ ok pool'
    → clock ≤ℤ now
    → PoolSound pool stakers clock funds
    → PoolSound pool' stakers now funds
update_globals-PoolSound pool pool' stakers clock now funds h later v =
    let (go, e) = update_globals-parts pool now pool' h in
    record {
      counted = ap (λ p. p.total_staked) e ∙ v.counted;
      slots = λ i slot' at.
          let (slot, was, round) =
            settle_slots-at pool.rewards pool'.rewards pool.total_staked now i slot' go at in
          let old = v.slots i slot was in
          let timely : slot.last_update_time ≤ℤ now = omega (arith, old.timely) in
          record {
            solvent =
                settle_round-IsSolvent i slot slot' stakers (funds i) pool.total_staked now
                  v.counted timely round old.solvent;
            timely = settle_round-timely slot slot' pool.total_staked now round timely;
          };
    }

-- A staker whose entries have been accrued is written back, with a new stake that the pool counts.
pub write-PoolSound :
    (pool : Pool) (stakers : Stakers) (clock : ℤ) (funds : ℕ → ℕ) (key total : ℕ)
    (s s' : StakerAccount)
    → PoolSound pool stakers clock funds
    → s.staked_amount ≡ (value_or zeroed_staker (lookup key stakers)).staked_amount
    → s.entries ≡ (value_or zeroed_staker (lookup key stakers)).entries
    → accrue_entries pool.rewards s.staked_amount s.entries ≡ ok s'.entries
    → total + s.staked_amount ≡ pool.total_staked + s'.staked_amount
    → PoolSound (record pool { total_staked = total }) (insert key s' stakers) clock funds
write-PoolSound pool stakers clock funds key total s s' v staked entries go balance =
    let old = value_or zeroed_staker (lookup key stakers) in
    record {
      counted =
          omega
            (arith, v.counted, staked, total_of-insert stake_of zeroed_staker key s' stakers refl);
      slots = λ i slot at.
          let sound = v.slots i slot at in
          let rpt = slot.reward_per_token_stored in
          let step =
            AllValues-value_or (InStep i rpt) zeroed_staker key stakers (InStep-zeroed i rpt)
              sound.solvent.in_step in
          let accrued =
            accrue_entries-claim i pool.rewards slot old s'.entries s'.staked_amount at
              (ap₂ (accrue_entries pool.rewards) (sym staked) (sym entries) ∙ go)
              sound.solvent.blank step in
          record {
            solvent =
                IsSolvent-insert i slot stakers (funds i) (funds i) 0 key s' sound.solvent
                  (omega (arith, accrued.0)) accrued.1 (omega arith);
            timely = sound.timely;
          };
    }
