-- ===== src/Custody/ClaimParts.antt =====
-- What a successful claim, and a round of its loop, went through.
use mm_staking.Base.{
  ℕ, ◌%◌, ◌≡◌, ◌≢◌, sym, ap, ◌∙◌, ◌⊎◌, some, inl, inr, ◌==◌, Bool-cases, List, length, get_elem?,
  ==→eq, ==-false→ne, lookup, insert, if◌then◌else◌,
}
use mm_staking.Int.{ℤ}
use mm_staking.Outcome.{
  StakingError, ok, >>=-eq-ok, ok-injective, require, or_panic, or_panic-ok, staking,
}
use mm_staking.State.{Pubkey, Pool, RewardInfo, StakerAccount}
use mm_staking.Logic
use mm_staking.Runtime.{Runtime, World, owner_of, owner_in, check, loaded, loaded-ok, pool_account}
use mm_staking.Instructions.Staking.{staker_account}
use mm_staking.Instructions.Claim.{Claim, pay_reward, claim_round, claim_loop, claim}
use mm_staking.Custody.Staking.{check-ok}
use mm_staking.Custody.Exits.{staker_account-parts}

module _ (rt : Runtime) where
  -- What a payment went through.
  pay_reward-parts :
      (bank : rt.Bank) (a : Claim) (vault_ai user_ai vault_key : Pubkey) (amount : ℕ)
      (bank' : rt.Bank)
      → pay_reward rt bank a vault_ai user_ai vault_key amount ≡ ok bank'
      → (owner_of rt bank user_ai ≡ some a.owner)
        × (rt.transfer bank vault_ai user_ai a.pool amount ≡ ok bank')
  unfolding pay_reward
  pay_reward-parts bank a vault_ai user_ai vault_key amount bank' h =
      let (u1, c1, h1) =
        >>=-eq-ok (check (vault_ai == vault_key) (staking StakingError.vault_mismatch)) _ h in
      let (vault_acc, c2, h2) = >>=-eq-ok (loaded (rt.account bank vault_ai)) _ h1 in
      let (user_acc, c3, h3) = >>=-eq-ok (loaded (rt.account bank user_ai)) _ h2 in
      let (u4, c4, h4) =
        >>=-eq-ok (check (user_acc.owner == a.owner) (staking StakingError.unauthorized)) _ h3 in
      let (u5, c5, h5) =
        >>=-eq-ok (check (user_acc.mint == vault_acc.mint) (staking StakingError.mint_mismatch)) _
          h4 in
      (ap owner_in (loaded-ok _ c3) ∙ ap some (==→eq _ _ (check-ok _ _ c4)), h5)

  pub claim_round-parts :
      (pool : Pool) (a : Claim) (vault_ai user_ai : Pubkey) (s : StakerAccount) (bank : rt.Bank)
      (s' : StakerAccount) (bank' : rt.Bank)
      → claim_round rt pool a vault_ai user_ai (s, bank) ≡ ok (s', bank')
      → (idx amount : ℕ) × (slot : RewardInfo) × (Logic.claim_take_slot pool s vault_ai
          ≡ ok (idx, amount, s'))
        × (get_elem? pool.rewards idx ≡ some slot)
        × (((amount ≡ 0) × (bank' ≡ bank))
            ⊎ ((amount ≢ 0)
                × (owner_of rt bank user_ai ≡ some a.owner)
                × (rt.transfer bank vault_ai user_ai a.pool amount ≡ ok bank')))
  unfolding claim_round
  claim_round-parts pool a vault_ai user_ai s bank s' bank' h =
      let (r, taken, h1) = >>=-eq-ok (Logic.claim_take_slot pool s vault_ai) _ h in
      let (slot, at, h2) = >>=-eq-ok (or_panic (get_elem? pool.rewards r.0)) _ h1 in
      let (b, paid, h3) =
        >>=-eq-ok
          (if r.1 == 0 then ok bank else pay_reward rt bank a vault_ai user_ai slot.vault r.1) _
          h2 in
      let same_s : r.2 ≡ s' = ap (λ p. p.0) (ok-injective h3) in
      let same_b : b ≡ bank' = ap (λ p. p.1) (ok-injective h3) in
      (
        r.0,
        r.1,
        slot,
        taken ∙ ap (λ t. ok (r.0, r.1, t)) same_s,
        or_panic-ok _ at,
        elim (Bool-cases (r.1 == 0)) [
          | inl nothing ↦
              let kept : bank ≡ b = ok-injective (rw nothing at paid) in
              inl (==→eq r.1 0 nothing, sym (kept ∙ same_b))
          | inr something ↦
              let (user, moved) =
                pay_reward-parts bank a vault_ai user_ai slot.vault r.1 b (rw something at paid) in
              inr (==-false→ne r.1 0 something, user, moved ∙ ap ok same_b)
        ],
      )

  pub claim-calls :
      (w : World rt) (a : Claim) (remaining : List Pubkey) (now : ℤ) (w' : World rt)
      → claim rt w a remaining now ≡ ok w'
      → (s : StakerAccount) × (pool' : Pool) × (s' : StakerAccount) × (t : StakerAccount)
        × (bank' : rt.Bank) × ((lookup a.staker w.stakers ≡ some s) × (s.owner ≡ a.owner))
        × (Logic.claim_settle_all w.pool s now ≡ ok (pool', s'))
        × (claim_loop rt pool' a remaining (s', w.bank) ≡ ok (t, bank'))
        × (w' ≡ record w { pool = pool'; stakers = insert a.staker t w.stakers; bank = bank' })
  unfolding claim
  claim-calls w a remaining now w' h =
      let (u1, c1, h1) = >>=-eq-ok (pool_account rt w a.pool w.pool.stake_mint) _ h in
      let (s, c2, h2) = >>=-eq-ok (staker_account rt w a.owner a.pool a.staker) _ h1 in
      let (r, go, h3) = >>=-eq-ok (Logic.claim_settle_all w.pool s now) _ h2 in
      let (u4, c4, h4) =
        >>=-eq-ok (require (length remaining % 2 == 0) StakingError.vault_mismatch) _ h3 in
      let (q, looped, h5) = >>=-eq-ok (claim_loop rt r.0 a remaining (r.1, w.bank)) _ h4 in
      (
        s,
        r.0,
        r.1,
        q.0,
        q.1,
        staker_account-parts rt w a.owner a.pool a.staker s c2,
        go,
        looped,
        sym (ok-injective h5),
      )
