-- ===== src/Solvency/Claims.antt =====
-- A staker's account rewritten: its claim on each slot.
use mm_staking.Base.{
  ℕ, zero, suc, ◌+◌, ◌-◌, ◌*◌, ◌≤◌, ◌≡◌, arith, some, List, get_elem?, lookup, insert, value_or,
  total_of-insert, AllValues-insert, refl, subst, replicate,
}
use mm_staking.Outcome.{ok}
use mm_staking.State.{
  precision, default_key, RewardInfo, RewardEntry, StakerAccount, zeroed_staker, empty_entry,
  max_rewards,
}
use mm_staking.Update.{accrue_entries}
use mm_staking.Update.PerSlot.{accrue_entries-at}
use native.Mathlib.Nat.{zero-mul, mul-zero}
use mm_staking.Solvency.{Stakers, claim_of, entry_claim, InStep, EntryInStep, IsSolvent}
use mm_staking.Solvency.Settling.{accrue_round-claim}

entry_claim-empty : (n i rpt : ℕ) → entry_claim 0 rpt (get_elem? (replicate n empty_entry) i) ≡ 0
entry_claim-empty zero i rpt = refl
entry_claim-empty (suc n) zero rpt = rw zero-mul
entry_claim-empty (suc n) (suc i) rpt = entry_claim-empty n i rpt

EntryInStep-empty : (n i rpt : ℕ) → EntryInStep rpt (get_elem? (replicate n empty_entry) i)
EntryInStep-empty zero i rpt = tt
EntryInStep-empty (suc n) zero rpt = omega arith
EntryInStep-empty (suc n) (suc i) rpt = EntryInStep-empty n i rpt

-- A staker account of zeros has no claim.
claim_of-zeroed : (i rpt : ℕ) → claim_of i rpt zeroed_staker ≡ 0
claim_of-zeroed i rpt = entry_claim-empty max_rewards i rpt

pub InStep-zeroed : (i rpt : ℕ) → InStep i rpt zeroed_staker
InStep-zeroed i rpt = EntryInStep-empty max_rewards i rpt

-- An entry that is paid up to the slot has a claim on what it accrued, whatever is staked.
pub entry_claim-paid :
    (staked rpt : ℕ) (e : RewardEntry)
    → e.reward_per_token_paid ≡ rpt
    → entry_claim staked rpt (some e) ≡ precision * e.rewards_accrued
entry_claim-paid staked rpt e h =
    let gap : rpt - e.reward_per_token_paid ≡ 0 = omega arith in
    rw (gap, mul-zero staked) (omega arith)

-- A write that lowers a staker's claim by what is paid out keeps the slot solvent.
pub IsSolvent-insert :
    (i : ℕ) (slot : RewardInfo) (stakers : Stakers) (funds funds' paid key : ℕ) (s' : StakerAccount)
    → IsSolvent i slot stakers funds
    → claim_of i slot.reward_per_token_stored s' + precision * paid
      ≤ claim_of i slot.reward_per_token_stored (value_or zeroed_staker (lookup key stakers))
    → InStep i slot.reward_per_token_stored s'
    → funds ≤ funds' + paid
    → IsSolvent i slot (insert key s' stakers) funds'
IsSolvent-insert i slot stakers funds funds' paid key s' v less step enough =
    let rpt = slot.reward_per_token_stored in
    record {
      backed = omega (
        arith,
        v.backed,
        total_of-insert (claim_of i rpt) zeroed_staker key s' stakers (claim_of-zeroed i rpt),
      );
      in_step = AllValues-insert (InStep i rpt) key s' stakers v.in_step step;
      blank = v.blank;
    }

-- After an accrual the claim is no larger, however many tokens are then staked.
pub accrue_entries-claim :
    (i : ℕ) (slots : List RewardInfo) (slot : RewardInfo) (s : StakerAccount)
    (entries' : List RewardEntry) (staked' : ℕ)
    → get_elem? slots i ≡ some slot
    → accrue_entries slots s.staked_amount s.entries ≡ ok entries'
    → (slot.mint ≡ default_key → slot.reward_per_token_stored ≡ 0)
    → InStep i slot.reward_per_token_stored s
    → (entry_claim staked' slot.reward_per_token_stored (get_elem? entries' i)
        ≤ claim_of i slot.reward_per_token_stored s)
      × EntryInStep slot.reward_per_token_stored (get_elem? entries' i)
accrue_entries-claim i slots slot s entries' staked' at h blank step =
    let (e, e', p, q, go) =
      accrue_entries-at slots s.staked_amount s.entries entries' i slot h at in
    let rpt = slot.reward_per_token_stored in
    let before : e.reward_per_token_paid ≤ rpt = subst (EntryInStep rpt) p step in
    let after = accrue_round-claim slot s.staked_amount e e' go blank before in
    rw (p, q) (rw (entry_claim-paid staked' rpt e' after.0) after.1, omega (arith, after.0))
