-- ===== src/Solvency.antt =====
-- What the pool owes: for one slot of the pool, the rewards that the stakers can still claim and
-- those that the slot has still to stream, against the tokens that back them. Amounts are scaled by
-- `precision`, so that nothing is rounded here.
pub mod Settling
pub mod Claims
pub mod Pooled
pub mod Principal
pub mod Forfeit
pub mod Rewards
pub mod Slots
pub mod Paying
pub mod Fits
use mm_staking.Base.{
  ℕ, ◌+◌, ◌-◌, ◌*◌, ◌≤◌, ◌≡◌, Option, none, some, Dict, total_of, AllValues, get_elem?,
}
use mm_staking.Int.{ℤ, ◌≤ℤ◌}
use mm_staking.State.{precision, default_key, RewardInfo, RewardEntry, Pool, StakerAccount}
use mm_staking.Update.Settle.{pending}

abbrev pub Stakers : Type 0
Stakers = Dict StakerAccount

abbrev pub stake_of : StakerAccount → ℕ
stake_of s = s.staked_amount

-- The scaled rewards of one entry, for a staker with so many tokens, at so much reward per token.
abbrev pub entry_claim : ℕ → ℕ → Option RewardEntry → ℕ
entry_claim staked rpt none = 0
entry_claim staked rpt (some e) =
    precision * e.rewards_accrued + staked * (rpt - e.reward_per_token_paid)

abbrev pub claim_of : ℕ → ℕ → StakerAccount → ℕ
claim_of i rpt s = entry_claim s.staked_amount rpt (get_elem? s.entries i)

-- No entry has been paid ahead of the slot.
abbrev pub EntryInStep : ℕ → Option RewardEntry → Type 0
EntryInStep rpt none = Unit
EntryInStep rpt (some e) = e.reward_per_token_paid ≤ rpt

abbrev pub InStep : ℕ → ℕ → StakerAccount → Type 0
InStep i rpt s = EntryInStep rpt (get_elem? s.entries i)

-- Slot `i`, with so many tokens behind it.
pub record IsSolvent (i : ℕ) (slot : RewardInfo) (stakers : Stakers) (funds : ℕ) : Type 0 where
  pub backed :
      total_of (claim_of i slot.reward_per_token_stored) stakers + pending slot ≤ precision * funds
  pub in_step : AllValues (InStep i slot.reward_per_token_stored) stakers
  pub blank : slot.mint ≡ default_key → slot.reward_per_token_stored ≡ 0

-- A slot that is backed, and was settled no later than the clock.
pub record SlotSound (i : ℕ) (slot : RewardInfo) (stakers : Stakers) (clock : ℤ) (funds : ℕ)
    : Type 0 where
  pub solvent : IsSolvent i slot stakers funds
  pub timely : slot.last_update_time ≤ℤ clock

-- The pool counts the staked tokens exactly, and each slot is backed by the tokens that are set
-- against it.
pub record PoolSound (pool : Pool) (stakers : Stakers) (clock : ℤ) (funds : ℕ → ℕ) : Type 0 where
  pub counted : pool.total_staked ≡ total_of stake_of stakers
  pub slots :
      (i : ℕ) (slot : RewardInfo)
      → get_elem? pool.rewards i ≡ some slot
      → SlotSound i slot stakers clock (funds i)
