-- ===== src/Solvency/Forfeit.antt =====
-- `emergency_withdraw` of logic.rs and the soundness of a pool.
use mm_staking.Base.{
  ℕ, zero, suc, ◌-◌, ◌≡◌, refl, sym, ap, ap₂, ◌∙◌, subst, arith, some, List, [], ◌∷◌, get_elem?,
  lookup, insert, value_or, total_of-insert,
}
use mm_staking.Int.{ℤ}
use mm_staking.Outcome.{ok, >>=-eq-ok}
use mm_staking.State.{Pool, StakerAccount, zeroed_staker, RewardInfo, RewardEntry}
use mm_staking.Logic.{emergency_withdraw, forfeit}
use mm_staking.Solvency.{Stakers, PoolSound, stake_of, claim_of, entry_claim, InStep, EntryInStep}
use mm_staking.Solvency.Claims.{IsSolvent-insert, entry_claim-paid}

-- An entry that is paid up to its slot and holds nothing.
abbrev pub forfeited : RewardInfo → RewardEntry
forfeited slot = record {
  reward_per_token_paid = slot.reward_per_token_stored;
  rewards_accrued = 0;
}

pub forfeit-cons :
    (s : RewardInfo) (slots : List RewardInfo) (entries entries' : List RewardEntry)
    → forfeit (s ∷ slots) entries ≡ ok entries'
    → (e : RewardEntry) × (rest rest' : List RewardEntry) × (entries ≡ e ∷ rest)
      × (forfeit slots rest ≡ ok rest')
      × (entries' ≡ forfeited s ∷ rest')
unfolding forfeit
forfeit-cons s slots [] entries' h = absurd (cc)
forfeit-cons s slots (e ∷ rest) entries' h =
    let (rest', go, last) = >>=-eq-ok (forfeit slots rest) _ h in
    (e, rest, rest', refl, go, ground arith)

pub forfeit-at :
    (slots : List RewardInfo) (entries entries' : List RewardEntry) (i : ℕ) (slot : RewardInfo)
    → forfeit slots entries ≡ ok entries'
    → get_elem? slots i ≡ some slot
    → get_elem? entries' i ≡ some (forfeited slot)
forfeit-at [] entries entries' i slot h g = absurd (cc)
forfeit-at (s ∷ slots) entries entries' zero slot h g =
    let (e, rest, rest', p, go, q) = forfeit-cons s slots entries entries' h in
    let same : s ≡ slot = ground arith in
    ap (λ l. get_elem? l 0) q ∙ ap (λ t. some (forfeited t)) same
forfeit-at (s ∷ slots) entries entries' (suc i) slot h g =
    let (e, rest, rest', p, go, q) = forfeit-cons s slots entries entries' h in
    ap (λ l. get_elem? l (suc i)) q ∙ forfeit-at slots rest rest' i slot go g

pub emergency_withdraw-parts :
    (pool : Pool) (s : StakerAccount) (amount : ℕ) (pool' : Pool) (s' : StakerAccount)
    → emergency_withdraw pool s ≡ ok (amount, pool', s')
    → (amount ≡ s.staked_amount)
      × (pool' ≡ record pool { total_staked = pool.total_staked - s.staked_amount })
      × (forfeit pool.rewards s.entries ≡ ok s'.entries)
      × (s' ≡ record s { staked_amount = 0; entries = s'.entries })
unfolding emergency_withdraw
emergency_withdraw-parts pool s amount pool' s' h =
    let (entries, go, e) = >>=-eq-ok (forfeit pool.rewards s.entries) _ h in ground arith

forfeited-claim :
    (slot : RewardInfo) → entry_claim 0 slot.reward_per_token_stored (some (forfeited slot)) ≡ 0
forfeited-claim slot =
    entry_claim-paid 0 slot.reward_per_token_stored (forfeited slot) refl ∙ omega arith

pub emergency_withdraw-PoolSound :
    (pool : Pool) (stakers : Stakers) (clock : ℤ) (funds : ℕ → ℕ) (key amount : ℕ) (pool' : Pool)
    (s' : StakerAccount)
    → emergency_withdraw pool (value_or zeroed_staker (lookup key stakers)) ≡ ok (amount, pool', s')
    → PoolSound pool stakers clock funds
    → PoolSound pool' (insert key s' stakers) clock funds
emergency_withdraw-PoolSound pool stakers clock funds key amount pool' s' h v =
    let old = value_or zeroed_staker (lookup key stakers) in
    let (a, e, go, f) = emergency_withdraw-parts pool old amount pool' s' h in
    let none_left : s'.staked_amount ≡ 0 = ap (λ t. t.staked_amount) f in
    record {
      counted = omega (
        arith,
        v.counted,
        ap (λ p. p.total_staked) e,
        none_left,
        total_of-insert stake_of zeroed_staker key s' stakers refl,
      );
      slots = λ i slot at.
          let at' : get_elem? pool.rewards i ≡ some slot =
            ap (λ p. get_elem? p.rewards i) (sym e) ∙ at in
          let sound = v.slots i slot at' in
          let rpt = slot.reward_per_token_stored in
          let entry = forfeit-at pool.rewards old.entries s'.entries i slot go at' in
          let claim : claim_of i rpt s' ≡ 0 =
            ap₂ (λ n t. entry_claim n rpt t) none_left entry ∙ forfeited-claim slot in
          let paid : InStep i rpt s' = subst (EntryInStep rpt) (sym entry) (omega arith) in
          record {
            solvent =
                IsSolvent-insert i slot stakers (funds i) (funds i) 0 key s' sound.solvent
                  (omega (arith, claim)) paid (omega arith);
            timely = sound.timely;
          };
    }
