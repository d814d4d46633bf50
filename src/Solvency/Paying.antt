-- ===== src/Solvency/Paying.antt =====
-- `claim_take_slot` of logic.rs and the soundness of a pool.
use mm_staking.Base.{
  ℕ, ◌+◌, ◌*◌, ◌≤◌, ◌≡◌, ◌≢◌, refl, sym, ap, ap₂, ◌∙◌, subst, inl, inr, arith, some, Bool-cases,
  ◌==◌, get_elem?, set, get_elem?-set_self, get_elem?-set_ne, find_index, find_index-some, ==→eq,
  ==-false→ne, lookup, insert, value_or, total_of-insert, AllValues-value_or,
}
use mm_staking.Int.{ℤ}
use mm_staking.Outcome.{StakingError, ok, >>=-eq-ok, ok_or, or_panic, ok_or-ok, or_panic-ok}
use mm_staking.State.{
  Pubkey, precision, Pool, StakerAccount, zeroed_staker, RewardInfo, RewardEntry,
}
use mm_staking.Logic.{claim_take_slot}
use mm_staking.Solvency.{Stakers, PoolSound, stake_of, claim_of, entry_claim, InStep, EntryInStep}
use mm_staking.Solvency.Claims.{IsSolvent-insert, InStep-zeroed}

-- What a successful `claim_take_slot` did: the first slot with that vault was found, and the entry
-- beside it was emptied.
pub claim_take_slot-parts :
    (pool : Pool) (s : StakerAccount) (vault_key : Pubkey) (idx amount : ℕ) (s' : StakerAccount)
    → claim_take_slot pool s vault_key ≡ ok (idx, amount, s')
    → (slot : RewardInfo) × (e : RewardEntry) × (get_elem? pool.rewards idx ≡ some slot)
      × (slot.vault ≡ vault_key)
      × (get_elem? s.entries idx ≡ some e)
      × (amount ≡ e.rewards_accrued)
      × (s' ≡ record s { entries = set s.entries idx (record e { rewards_accrued = 0 }) })
unfolding claim_take_slot
claim_take_slot-parts pool s vault_key idx amount s' h =
    let test = λ (slot : RewardInfo). slot.vault == vault_key in
    let (i, found, h1) =
      >>=-eq-ok (ok_or (find_index test pool.rewards) StakingError.vault_mismatch) _ h in
    let (e, at, h2) = >>=-eq-ok (or_panic (get_elem? s.entries i)) _ h1 in
    let (slot, here, hit) = find_index-some test pool.rewards i (ok_or-ok _ _ found) in
    let same : i ≡ idx = ground arith in
    let at' = or_panic-ok _ at in
    (
      slot,
      e,
      ap (get_elem? pool.rewards) (sym same) ∙ here,
      ==→eq _ _ hit,
      ap (get_elem? s.entries) (sym same) ∙ at',
      ground arith,
      ground arith,
    )

-- The entry taken gives up its claim on what is paid; it stays in step.
taken-claim :
    (staked rpt : ℕ) (e : RewardEntry)
    → entry_claim staked rpt (some (record e { rewards_accrued = 0 }))
        + precision * e.rewards_accrued
      ≡ entry_claim staked rpt (some e)
taken-claim staked rpt e = omega arith

-- Where the tokens behind the slot fall by no more than the amount taken, and none other's fall,
-- the pool stays sound.
pub claim_take_slot-PoolSound :
    (pool : Pool) (stakers : Stakers) (clock : ℤ) (funds funds' : ℕ → ℕ) (key : ℕ)
    (vault_key : Pubkey) (idx amount : ℕ) (s' : StakerAccount)
    → claim_take_slot pool (value_or zeroed_staker (lookup key stakers)) vault_key
      ≡ ok (idx, amount, s')
    → funds idx ≤ funds' idx + amount
    → ((j : ℕ) (slot : RewardInfo)
        → j ≢ idx
        → get_elem? pool.rewards j ≡ some slot
        → funds j ≤ funds' j)
    → PoolSound pool stakers clock funds
    → PoolSound pool (insert key s' stakers) clock funds'
claim_take_slot-PoolSound pool stakers clock funds funds' key vault_key idx amount s' h here there
      v =
    let old = value_or zeroed_staker (lookup key stakers) in
    let (slot, e, at, hit, entry, sum, f) =
      claim_take_slot-parts pool old vault_key idx amount s' h in
    let left : RewardEntry = record e { rewards_accrued = 0 } in
    let staked : s'.staked_amount ≡ old.staked_amount = ap (λ t. t.staked_amount) f in
    let entries : s'.entries ≡ set old.entries idx left = ap (λ t. t.entries) f in
    record {
      counted =
          omega
            (arith, v.counted, staked, total_of-insert stake_of zeroed_staker key s' stakers refl);
      slots = λ j t g.
          let sound = v.slots j t g in
          let rpt = t.reward_per_token_stored in
          let step =
            AllValues-value_or (InStep j rpt) zeroed_staker key stakers (InStep-zeroed j rpt)
              sound.solvent.in_step in
          elim (Bool-cases (j == idx)) [
            | inl same ↦
                let is : j ≡ idx = ==→eq j idx same in
                let was : get_elem? old.entries j ≡ some e =
                  ap (get_elem? old.entries) is ∙ entry in
                let now : get_elem? s'.entries j ≡ some left =
                  ap₂ get_elem? entries is ∙ get_elem?-set_self old.entries idx left entry in
                let before : claim_of j rpt old ≡ entry_claim old.staked_amount rpt (some e) =
                  ap (entry_claim old.staked_amount rpt) was in
                let after : claim_of j rpt s' ≡ entry_claim old.staked_amount rpt (some left) =
                  ap₂ (λ n o. entry_claim n rpt o) staked now in
                record {
                  solvent =
                      IsSolvent-insert j t stakers (funds j) (funds' j) amount key s' sound.solvent
                        (omega (arith, before, after, sum, taken-claim old.staked_amount rpt e))
                        (subst (EntryInStep rpt) (sym now) (subst (EntryInStep rpt) was step))
                        (omega (arith, here, ap funds is, ap funds' is));
                  timely = sound.timely;
                }
            | inr apart ↦
                let ne : j ≢ idx = ==-false→ne j idx apart in
                let kept : get_elem? s'.entries j ≡ get_elem? old.entries j =
                  ap (λ l. get_elem? l j) entries
                  ∙ get_elem?-set_ne old.entries idx j left (λ e. ne (sym e)) in
                let same_claim : claim_of j rpt s' ≡ claim_of j rpt old =
                  ap₂ (λ n o. entry_claim n rpt o) staked kept in
                record {
                  solvent =
                      IsSolvent-insert j t stakers (funds j) (funds' j) 0 key s' sound.solvent
                        (omega (arith, same_claim)) (subst (EntryInStep rpt) (sym kept) step)
                        (omega (arith, there j t ne g));
                  timely = sound.timely;
                }
          ];
    }
