-- ===== src/Custody/DepositParts.antt =====
-- What a successful deposit went through.
use mm_staking.Base.{
  ℕ, ◌-◌, ◌≡◌, ◌≢◌, sym, ap, ◌∙◌, subst, arith, some, true, ◌==◌, ltb, get_elem?, ==→eq,
  some-injective, ne→==-false, find_index-some,
}
use mathlib.Core.Bool.{false≢true}
use mm_staking.Int.{ℤ}
use mm_staking.Word.{checked_sub}
use mm_staking.Outcome.{
  StakingError, ok, >>=-eq-ok, require, ok-injective, constraint, staking, ok_or, or_panic,
  ok_or-ok, or_panic-ok,
}
use mm_staking.State.{Pubkey, default_key, Pool, RewardInfo}
use mm_staking.Update.{find_slot}
use mm_staking.Logic
use mm_staking.Solvency.Pooled.{update_globals-parts}
use mm_staking.Solvency.Rewards.{deposit_rewards-parts, rerate-parts}
use mm_staking.Runtime.{
  Runtime, World, TokenLaws, balance, owner_of, check, pool_account, loaded, token_account,
}
use mm_staking.Instructions.DepositRewards.{
  DepositRewards, find_reward_vault, deposit_accounts, deposit_rewards,
}
use mm_staking.Custody.{funds, funds_at}
use mm_staking.Custody.Labels.{SameLabels, SameLabels-trans, update_globals-labels, set-labels}
use mm_staking.Custody.Moves.{token_account-owner}
use mm_staking.Custody.Staking.{check-ok}

-- The vault of a mint is the vault of the slot that `find_slot` finds.
pub find_reward_vault-parts :
    (pool : Pool) (mint vault : Pubkey)
    → find_reward_vault pool mint ≡ ok vault
    → (i : ℕ) × (slot : RewardInfo) × (find_slot pool mint ≡ some i)
      × (get_elem? pool.rewards i ≡ some slot)
      × (slot.vault ≡ vault)
      × (slot.mint ≡ mint)
unfolding find_reward_vault find_slot
find_reward_vault-parts pool mint vault h =
    let (i, found, h1) =
      >>=-eq-ok (ok_or (find_slot pool mint) StakingError.reward_not_found) _ h in
    let (slot, at, h2) = >>=-eq-ok (or_panic (get_elem? pool.rewards i)) _ h1 in
    let found' = ok_or-ok _ _ found in
    let (t, at', named) = find_index-some (λ s. s.mint == mint) pool.rewards i found' in
    let same : t ≡ slot = some-injective (sym at' ∙ or_panic-ok _ at) in
    (
      i,
      slot,
      found',
      or_panic-ok _ at,
      ok-injective h2,
      ap (λ s. s.mint) (sym same) ∙ ==→eq _ _ named,
    )

pub deposit_rewards-labels :
    (pool : Pool) (mint : Pubkey) (received : ℕ) (now : ℤ) (pool' : Pool)
    → Logic.deposit_rewards pool mint received now ≡ ok pool'
    → SameLabels pool pool' × (pool'.total_staked ≡ pool.total_staked)
deposit_rewards-labels pool mint received now pool' h =
    let (i, p, slot, slot', found, go, at, rated, e) =
      deposit_rewards-parts pool mint received now pool' h in
    let (positive, f) = rerate-parts slot received now slot' rated in
    let (settles, g) = update_globals-parts pool now p go in
    let l = set-labels p i slot slot' at (ap (λ s. s.mint) f) (ap (λ s. s.vault) f) in
    (
      SameLabels-trans pool p pool' (update_globals-labels pool p now go)
          (subst (SameLabels p) (sym e) l),
      ap (λ q. q.total_staked) e ∙ ap (λ q. q.total_staked) g,
    )

pub no_mint_key :
    (rt : Runtime) (laws : TokenLaws rt) (bank : rt.Bank) (mint : Pubkey)
    → rt.is_mint bank mint ≡ true
    → mint ≢ default_key
no_mint_key rt laws bank mint h e =
    false≢true (sym (laws.no_mint bank) ∙ ap (rt.is_mint bank) (sym e) ∙ h)

-- Behind a registered slot are the tokens in its vault.
pub named_funds :
    (rt : Runtime) (bank : rt.Bank) (pool : Pool) (i : ℕ) (slot : RewardInfo)
    → get_elem? pool.rewards i ≡ some slot
    → slot.mint ≢ default_key
    → funds rt bank pool i ≡ balance rt bank slot.vault
named_funds rt bank pool i slot at named =
    ap (funds_at rt bank) at ∙ rw (ne→==-false slot.mint default_key named)

module _ (rt : Runtime) where
  pub deposit_accounts-parts :
      (w : World rt) (a : DepositRewards) {u : Unit {0}}
      → deposit_accounts rt w a ≡ ok u
      → (owner_of rt w.bank a.keeper_token_account ≡ some a.keeper)
        × (find_reward_vault w.pool a.reward_mint ≡ ok a.reward_vault)
        × (rt.is_mint w.bank a.reward_mint ≡ true)
  unfolding deposit_accounts
  deposit_accounts-parts w a h =
      let (u1, c1, h1) =
        >>=-eq-ok (check (a.keeper == w.pool.keeper_authority) (staking StakingError.unauthorized))
          _ h in
      let (u2, c2, h2) = >>=-eq-ok (pool_account rt w a.pool w.pool.stake_mint) _ h1 in
      let (v, is_mint, h2') = >>=-eq-ok (check (rt.is_mint w.bank a.reward_mint) constraint) _ h2 in
      let (u3, c3, h3) =
        >>=-eq-ok (token_account rt w.bank a.keeper_token_account a.reward_mint a.keeper) _ h2' in
      let (t, c4, h4) = >>=-eq-ok (loaded (rt.account w.bank a.reward_vault)) _ h3 in
      let (u5, c5, h5) = >>=-eq-ok (check (t.mint == a.reward_mint) constraint) _ h4 in
      let (vault, found, h6) = >>=-eq-ok (find_reward_vault w.pool a.reward_mint) _ h5 in
      (
        token_account-owner rt w.bank a.keeper_token_account a.reward_mint a.keeper c3,
        found ∙ ap ok (sym (==→eq _ _ (check-ok _ _ h6))),
        check-ok _ _ is_mint,
      )

  pub deposit_rewards-calls :
      (w : World rt) (a : DepositRewards) (amount : ℕ) (now : ℤ) (w' : World rt)
      → deposit_rewards rt w a amount now ≡ ok w'
      → (bank' : rt.Bank) × (received : ℕ) × (pool' : Pool) × (owner_of rt w.bank
            a.keeper_token_account
          ≡ some a.keeper)
        × (find_reward_vault w.pool a.reward_mint ≡ ok a.reward_vault)
        × (rt.is_mint w.bank a.reward_mint ≡ true)
        × (rt.transfer w.bank a.keeper_token_account a.reward_vault a.keeper amount ≡ ok bank')
        × (received ≡ balance rt bank' a.reward_vault - balance rt w.bank a.reward_vault)
        × (Logic.deposit_rewards w.pool a.reward_mint received now ≡ ok pool')
        × (w' ≡ record w { pool = pool'; bank = bank' })
  unfolding deposit_rewards
  deposit_rewards-calls w a amount now w' h =
      let (u1, c1, h1) = >>=-eq-ok (deposit_accounts rt w a) _ h in
      let (keeper, vault, is_mint) = deposit_accounts-parts w a c1 in
      let (u2, c2, h2) = >>=-eq-ok (require (ltb 0 amount) StakingError.zero_amount) _ h1 in
      let (bank', paid, h3) =
        >>=-eq-ok (rt.transfer w.bank a.keeper_token_account a.reward_vault a.keeper amount) _ h2 in
      let (received, c4, h4) =
        >>=-eq-ok
          (ok_or (checked_sub (balance rt bank' a.reward_vault) (balance rt w.bank a.reward_vault))
            StakingError.math_overflow)
          _ h3 in
      let (pool', go, h5) =
        >>=-eq-ok (Logic.deposit_rewards w.pool a.reward_mint received now) _ h4 in
      (
        bank',
        received,
        pool',
        keeper,
        vault,
        is_mint,
        paid,
        ground (arith, ok_or-ok _ _ c4),
        go,
        sym (ok-injective h5),
      )
