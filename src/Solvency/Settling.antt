-- ===== src/Solvency/Settling.antt =====
-- The settlement of one slot, the accrual of one entry, and what backs them.
use mm_staking.Base.{
  ℕ, ◌+◌, ◌-◌, ◌*◌, ◌≤◌, ◌≡◌, ◌≢◌, arith, Option, none, some, [], ◌∷◌, total_of, AllValues,
  get_elem?, Bool-cases, inl, inr, ◌==◌, subst, sym, ◌∙◌, ap, ==-false→ne,
}
use mm_staking.Int.{ℤ, ◌≤ℤ◌}
use mm_staking.Outcome.{ok, ok-cases}
use mm_staking.State.{precision, default_key, RewardInfo, RewardEntry}
use mm_staking.Math.{earned}
use mm_staking.Math.Exact.{earned-ok}
use mm_staking.Update.{settle_round, accrue_round}
use mm_staking.Update.Settle.{settled, settled-le, settle_slot_lem}
use mm_staking.Solvency.{Stakers, stake_of, claim_of, entry_claim, InStep, EntryInStep, IsSolvent}
use native.Mathlib.Nat.{mul-add, add-mul, mul_comm}

entry_claim-raise :
    (staked rpt rpt' : ℕ) (e : Option RewardEntry)
    → rpt ≤ rpt'
    → EntryInStep rpt e
    → entry_claim staked rpt' e ≤ entry_claim staked rpt e + staked * (rpt' - rpt)
entry_claim-raise staked rpt rpt' none h k = omega arith
entry_claim-raise staked rpt rpt' (some e) h k =
    let gap = rpt - e.reward_per_token_paid in
    let rise = rpt' - rpt in
    let whole : rpt' - e.reward_per_token_paid ≡ gap + rise = omega arith in
    rw (whole, mul-add staked gap rise) (omega arith)

InStep-raise :
    (rpt rpt' : ℕ) (e : Option RewardEntry) → rpt ≤ rpt' → EntryInStep rpt e → EntryInStep rpt' e
InStep-raise rpt rpt' none h k = tt
InStep-raise rpt rpt' (some e) h k = omega arith

-- A rise of the reward per token adds at most that much for each staked token.
total_claims-raise :
    (i rpt rpt' : ℕ) (stakers : Stakers)
    → rpt ≤ rpt'
    → AllValues (InStep i rpt) stakers
    → total_of (claim_of i rpt') stakers
      ≤ total_of (claim_of i rpt) stakers + total_of stake_of stakers * (rpt' - rpt)
total_claims-raise i rpt rpt' [] h k = omega arith
total_claims-raise i rpt rpt' ((a, s) ∷ stakers) h k = omega (
  arith,
  entry_claim-raise s.staked_amount rpt rpt' (get_elem? s.entries i) h k.0,
  total_claims-raise i rpt rpt' stakers h k.1,
  add-mul s.staked_amount (total_of stake_of stakers) (rpt' - rpt),
)

AllInStep-raise :
    (i rpt rpt' : ℕ) (stakers : Stakers)
    → rpt ≤ rpt'
    → AllValues (InStep i rpt) stakers
    → AllValues (InStep i rpt') stakers
AllInStep-raise i rpt rpt' [] h k = tt
AllInStep-raise i rpt rpt' ((a, s) ∷ stakers) h k =
    (InStep-raise rpt rpt' (get_elem? s.entries i) h k.0, AllInStep-raise i rpt rpt' stakers h k.1)

settled-mint : (slot : RewardInfo) (total : ℕ) (now : ℤ) → (settled slot total now).mint ≡ slot.mint
settled-mint slot total now = ground arith

settled-IsSolvent :
    (i : ℕ) (slot : RewardInfo) (stakers : Stakers) (funds total : ℕ) (now : ℤ)
    → slot.mint ≢ default_key
    → total ≡ total_of stake_of stakers
    → slot.last_update_time ≤ℤ now
    → IsSolvent i slot stakers funds
    → IsSolvent i (settled slot total now) stakers funds
settled-IsSolvent i slot stakers funds total now named staked clock v =
    let rpt = slot.reward_per_token_stored in
    let rpt' = (settled slot total now).reward_per_token_stored in
    let step = settled-le slot total now clock in
    record {
      backed = omega (
        arith,
        step.1,
        total_claims-raise i rpt rpt' stakers step.0 v.in_step,
        mul_comm (rpt' - rpt) total,
        ap (λ n. n * (rpt' - rpt)) staked,
        v.backed,
      );
      in_step = AllInStep-raise i rpt rpt' stakers step.0 v.in_step;
      blank = λ e. absurd (named (sym (settled-mint slot total now) ∙ e));
    }

-- A round of the first loop of `update_reward`.
pub settle_round-IsSolvent :
    (i : ℕ) (slot slot' : RewardInfo) (stakers : Stakers) (funds total : ℕ) (now : ℤ)
    → total ≡ total_of stake_of stakers
    → slot.last_update_time ≤ℤ now
    → settle_round slot total now ≡ ok slot'
    → IsSolvent i slot stakers funds
    → IsSolvent i slot' stakers funds
unfolding settle_round
settle_round-IsSolvent i slot slot' stakers funds total now staked clock h v =
    elim (Bool-cases (slot.mint == default_key)) [
      | inl empty ↦ subst (λ s. IsSolvent i s stakers funds) (ground arith) v
      | inr taken ↦
          subst (λ s. IsSolvent i s stakers funds)
            (sym (settle_slot_lem slot slot' total now (ground arith)))
            (settled-IsSolvent i slot stakers funds total now (==-false→ne _ _ taken) staked clock
              v)
    ]

-- A round of the second loop: the entry's claim does not grow, and is then in step.
pub accrue_round-claim :
    (slot : RewardInfo) (staked : ℕ) (e e' : RewardEntry)
    → accrue_round slot staked e ≡ ok e'
    → (slot.mint ≡ default_key → slot.reward_per_token_stored ≡ 0)
    → e.reward_per_token_paid ≤ slot.reward_per_token_stored
    → (e'.reward_per_token_paid ≡ slot.reward_per_token_stored)
      × (precision * e'.rewards_accrued
          ≤ precision * e.rewards_accrued
            + staked * (slot.reward_per_token_stored - e.reward_per_token_paid))
unfolding accrue_round
accrue_round-claim slot staked e e' h blank step =
    let rpt = slot.reward_per_token_stored in
    elim (ok-cases (earned staked rpt e.reward_per_token_paid e.rewards_accrued)) [
      | inl (f, stop) ↦ ground arith
      | inr (r, go) ↦
          ground (arith, earned-ok staked rpt e.reward_per_token_paid e.rewards_accrued r go)
    ]
