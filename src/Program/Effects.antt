-- ===== src/Program/Effects.antt =====
-- What an instruction does to the staker's account that it writes, and to the lengths of the arrays.
use mm_staking.Base.{
  ℕ, ◌≤◌, ◌≡◌, ◌⊎◌, refl, sym, ap, ◌∙◌, arith, inl, inr, List, [], ◌∷◌, length, length-set, lookup,
  insert, value_or, Bool-cases, ◌==◌, ==→eq,
}
use mm_staking.Int.{ℤ}
use mm_staking.Outcome.{ok, >>=-eq-ok, ok-injective}
use mm_staking.State.{Pubkey, default_key, Pool, StakerAccount, zeroed_staker}
use mm_staking.Logic
use mm_staking.Logic.{init_staker, registered_slot}
use mm_staking.Update.Lengths.{update_reward-Accrued}
use mm_staking.Solvency.Principal.{stake-parts, unstake-parts}
use mm_staking.Solvency.Paying.{claim_take_slot-parts}
use mm_staking.Runtime.{Runtime, World}
use mm_staking.Instructions.Claim.{Claim, claim_loop, claim_round}
use mm_staking.Custody.ClaimParts.{claim_round-parts}

-- What a signer may do to a staker's account.
pub record StakerEffect (signer : Pubkey) (s s' : StakerAccount) : Type 0 where
  pub entries : length s'.entries ≡ length s.entries
  pub owner : (s'.owner ≡ s.owner) ⊎ (s.owner ≡ default_key)
  pub staked : (s.staked_amount ≤ s'.staked_amount) ⊎ (s.owner ≡ signer)

init_staker-owner :
    (s : StakerAccount) (owner pool_key : Pubkey) (bump : ℕ)
    → ((init_staker s owner pool_key bump).entries ≡ s.entries)
      × ((init_staker s owner pool_key bump).staked_amount ≡ s.staked_amount)
      × (((init_staker s owner pool_key bump).owner ≡ s.owner) ⊎ (s.owner ≡ default_key))
unfolding init_staker
init_staker-owner s owner pool_key bump = elim (Bool-cases (s.owner == default_key)) [
  | inl fresh ↦ rw fresh (refl, refl, inr (==→eq _ _ fresh))
  | inr old ↦ rw old (refl, refl, inl refl)
]

pub stake-StakerEffect :
    (pool : Pool) (s : StakerAccount) (owner pool_key : Pubkey) (bump amount : ℕ) (now : ℤ)
    (pool' : Pool) (s' : StakerAccount)
    → Logic.stake pool s owner pool_key bump amount now ≡ ok (pool', s')
    → (length pool'.rewards ≡ length pool.rewards) × StakerEffect owner s s'
stake-StakerEffect pool s owner pool_key bump amount now pool' s' h =
    let (p, t, go, e, f) = stake-parts pool s owner pool_key bump amount now pool' s' h in
    let (entries, staked, owned) = init_staker-owner s owner pool_key bump in
    let u = update_reward-Accrued pool (init_staker s owner pool_key bump) now p t go in
    (
      ap (λ q. length q.rewards) e ∙ u.slots,
      record {
        entries = ap (λ q. length q.entries) f ∙ u.entries ∙ ap length entries;
        owner = elim owned [
          | inl kept ↦ inl (ap (λ q. q.owner) f ∙ u.owner ∙ kept)
          | inr fresh ↦ inr fresh
        ];
        staked = inl (omega (arith, ap (λ q. q.staked_amount) f, u.staked, staked));
      },
    )

pub unstake-StakerEffect :
    (pool : Pool) (s : StakerAccount) (amount : ℕ) (now : ℤ) (pool' : Pool) (s' : StakerAccount)
    → Logic.unstake pool s amount now ≡ ok (pool', s')
    → (length pool'.rewards ≡ length pool.rewards) × StakerEffect s.owner s s'
unstake-StakerEffect pool s amount now pool' s' h =
    let (p, t, go, le, le', e, f) = unstake-parts pool s amount now pool' s' h in
    let u = update_reward-Accrued pool s now p t go in
    (
      ap (λ q. length q.rewards) e ∙ u.slots,
      record {
        entries = ap (λ q. length q.entries) f ∙ u.entries;
        owner = inl (ap (λ q. q.owner) f ∙ u.owner);
        staked = inr refl;
      },
    )

module _ (rt : Runtime) where
  -- A claim leaves the stake.
  pub claim_loop-effect :
      (pool : Pool) (a : Claim) (pairs : List Pubkey) (s : StakerAccount) (bank : rt.Bank)
      (s' : StakerAccount) (bank' : rt.Bank)
      → claim_loop rt pool a pairs (s, bank) ≡ ok (s', bank')
      → (length s'.entries ≡ length s.entries)
        × (s'.owner ≡ s.owner)
        × (s'.staked_amount ≡ s.staked_amount)
  unfolding claim_loop
  claim_loop-effect pool a [] s bank s' bank' h =
      let e = ap (λ (r : StakerAccount × rt.Bank). r.0) (sym (ok-injective h)) in
      (ap (λ q. length q.entries) e, ap (λ q. q.owner) e, ap (λ q. q.staked_amount) e)
  claim_loop-effect pool a (vault_ai ∷ []) s bank s' bank' h = absurd (cc)
  claim_loop-effect pool a (vault_ai ∷ user_ai ∷ rest) s bank s' bank' h =
      let (r, round, h1) = >>=-eq-ok (claim_round rt pool a vault_ai user_ai (s, bank)) _ h in
      let (idx, amount, slot, taken, at, effect) =
        claim_round-parts rt pool a vault_ai user_ai s bank r.0 r.1 round in
      let (slot', e, at', is_vault, entry, sum, f) =
        claim_take_slot-parts pool s vault_ai idx amount r.0 taken in
      let (entries, owner, staked) = claim_loop-effect pool a rest r.0 r.1 s' bank' h1 in
      (
        entries
            ∙ ap (λ q. length q.entries) f
            ∙ length-set s.entries idx (record e { rewards_accrued = 0 }),
        owner ∙ ap (λ q. q.owner) f,
        staked ∙ ap (λ q. q.staked_amount) f,
      )

  -- The change of a world by a signer's call.
  pub record WorldEffect (signer : Pubkey) (w w' : World rt) : Type 0 where
    pub slots : length w'.pool.rewards ≡ length w.pool.rewards
    pub stakers :
        (w'.stakers ≡ w.stakers)
        ⊎ ((key : Pubkey) × (s' : StakerAccount) × (w'.stakers ≡ insert key s' w.stakers)
            × StakerEffect signer (value_or zeroed_staker (lookup key w.stakers)) s')
