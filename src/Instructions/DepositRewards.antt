-- ===== src/Instructions/DepositRewards.antt =====
-- instructions/deposit_rewards.rs.
use mm_staking.Base.{ℕ, ◌==◌, ltb, get_elem?}
use mm_staking.Int.{ℤ}
use mm_staking.Word.{checked_sub}
use mm_staking.Outcome.{
  StakingError, Result, ok, staking, constraint, ◌>>=◌, ◌>>◌, require, ok_or, or_panic,
}
use mm_staking.State.{Pubkey, Pool}
use mm_staking.Update.{find_slot}
use mm_staking.Logic
use mm_staking.Runtime.{Runtime, World, check, loaded, balance, token_account, pool_account}

pub record DepositRewards : Type 0 where
  pub keeper : Pubkey
  pub pool : Pubkey
  pub reward_mint : Pubkey
  pub keeper_token_account : Pubkey
  pub reward_vault : Pubkey

unfoldable pub find_reward_vault : Pool → Pubkey → Result Pubkey
find_reward_vault p mint = do
  i ← ok_or (find_slot p mint) StakingError.reward_not_found
  slot ← or_panic (get_elem? p.rewards i)
  ok slot.vault

module _ (rt : Runtime) where
  unfoldable pub deposit_accounts : World rt → DepositRewards → Result (Unit {0})
  deposit_accounts w accounts = do
    check (accounts.keeper == w.pool.keeper_authority) (staking StakingError.unauthorized)
    pool_account rt w accounts.pool w.pool.stake_mint
    check (rt.is_mint w.bank accounts.reward_mint) constraint
    token_account rt w.bank accounts.keeper_token_account accounts.reward_mint accounts.keeper
    vault ← loaded (rt.account w.bank accounts.reward_vault)
    check (vault.mint == accounts.reward_mint) constraint
    expected ← find_reward_vault w.pool accounts.reward_mint
    check (accounts.reward_vault == expected) constraint

  -- What the vault received is measured, not taken from the argument.
  unfoldable pub deposit_rewards : World rt → DepositRewards → ℕ → ℤ → Result (World rt)
  deposit_rewards w accounts amount now = do
    deposit_accounts w accounts
    require (ltb 0 amount) StakingError.zero_amount
    let before = balance rt w.bank accounts.reward_vault
    bank' ←
        rt.transfer w.bank accounts.keeper_token_account accounts.reward_vault accounts.keeper
          amount
    received ←
        ok_or (checked_sub (balance rt bank' accounts.reward_vault) before)
          StakingError.math_overflow
    pool' ← Logic.deposit_rewards w.pool accounts.reward_mint received now
    ok (record w { pool = pool'; bank = bank' })
