-- ===== src/Instructions/EmergencyWithdraw.antt =====
-- instructions/emergency_withdraw.rs.
use mm_staking.Base.{ltb, insert}
use mm_staking.Outcome.{StakingError, Result, ok, ◌>>=◌, ◌>>◌, require}
use mm_staking.State.{Pubkey}
use mm_staking.Logic
use mm_staking.Instructions.Staking.{stake_accounts, staker_account}
use mm_staking.Runtime.{Runtime, World, pool_account}

pub record EmergencyWithdraw : Type 0 where
  pub owner : Pubkey
  pub pool : Pubkey
  pub staker : Pubkey
  pub stake_mint : Pubkey
  pub user_token_account : Pubkey
  pub stake_vault : Pubkey

-- The account list has the constraints of `unstake`.
unfoldable pub emergency_withdraw :
    (rt : Runtime) → World rt → EmergencyWithdraw → Result (World rt)
emergency_withdraw rt w accounts = do
  pool_account rt w accounts.pool accounts.stake_mint
  staker ← staker_account rt w accounts.owner accounts.pool accounts.staker
  stake_accounts rt w accounts.owner accounts.stake_mint accounts.user_token_account
      accounts.stake_vault
  (amount, pool', staker') ← Logic.emergency_withdraw w.pool staker
  require (ltb 0 amount) StakingError.zero_amount
  bank' ← rt.transfer w.bank accounts.stake_vault accounts.user_token_account accounts.pool amount
  ok (record w { pool = pool'; stakers = insert accounts.staker staker' w.stakers; bank = bank' })
