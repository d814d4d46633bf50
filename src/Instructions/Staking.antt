-- ===== src/Instructions/Staking.antt =====
-- instructions/stake.rs: `stake` and `unstake`. `init_if_needed` makes a missing staker account from
-- zeros.
use mm_staking.Base.{ℕ, ◌==◌, ltb, lookup, insert, value_or}
use mm_staking.Int.{ℤ}
use mm_staking.Outcome.{StakingError, Result, ok, staking, constraint, ◌>>=◌, ◌>>◌, require}
use mm_staking.State.{Pubkey, StakerAccount, zeroed_staker}
use mm_staking.Logic
use mm_staking.Runtime.{Runtime, World, check, loaded, token_account, pool_account, staker_seed}

pub record Stake : Type 0 where
  pub owner : Pubkey
  pub pool : Pubkey
  pub staker : Pubkey
  pub stake_mint : Pubkey
  pub user_token_account : Pubkey
  pub stake_vault : Pubkey

pub record Unstake : Type 0 where
  pub owner : Pubkey
  pub pool : Pubkey
  pub staker : Pubkey
  pub stake_mint : Pubkey
  pub user_token_account : Pubkey
  pub stake_vault : Pubkey

module _ (rt : Runtime) where
  -- The constraints on the mint, the user's token account and the stake vault, which the account
  -- lists share.
  unfoldable pub stake_accounts : World rt → Pubkey → Pubkey → Pubkey → Pubkey → Result (Unit {0})
  stake_accounts w owner stake_mint user_token_account stake_vault = do
    check (rt.is_mint w.bank stake_mint) constraint
    check (stake_mint == w.pool.stake_mint) constraint
    token_account rt w.bank user_token_account stake_mint owner
    check (stake_vault == w.pool.stake_vault) constraint

  unfoldable pub stake : World rt → Stake → ℕ → ℤ → Result (World rt)
  stake w accounts amount now = do
    let seeds = staker_seed accounts.pool accounts.owner
    let staker_bump = rt.bump_of seeds
    pool_account rt w accounts.pool accounts.stake_mint
    check (accounts.staker == rt.address seeds staker_bump) constraint
    stake_accounts w accounts.owner accounts.stake_mint accounts.user_token_account
        accounts.stake_vault
    require (ltb 0 amount) StakingError.zero_amount
    require (w.pool.paused == 0) StakingError.paused
    (pool', staker') ←
        Logic.stake w.pool (value_or zeroed_staker (lookup accounts.staker w.stakers))
          accounts.owner accounts.pool staker_bump amount now
    bank' ←
        rt.transfer w.bank accounts.user_token_account accounts.stake_vault accounts.owner amount
    ok (record w { pool = pool'; stakers = insert accounts.staker staker' w.stakers; bank = bank' })

  -- The constraints on `staker`: its own bump gives its address, and `has_one = owner`.
  unfoldable pub staker_account : World rt → Pubkey → Pubkey → Pubkey → Result StakerAccount
  staker_account w owner pool key = do
    s ← loaded (lookup key w.stakers)
    check (key == rt.address (staker_seed pool owner) s.bump) constraint
    check (s.owner == owner) (staking StakingError.unauthorized)
    ok s

  unfoldable pub unstake : World rt → Unstake → ℕ → ℤ → Result (World rt)
  unstake w accounts amount now = do
    pool_account rt w accounts.pool accounts.stake_mint
    staker ← staker_account w accounts.owner accounts.pool accounts.staker
    stake_accounts w accounts.owner accounts.stake_mint accounts.user_token_account
        accounts.stake_vault
    (pool', staker') ← Logic.unstake w.pool staker amount now
    bank' ← rt.transfer w.bank accounts.stake_vault accounts.user_token_account accounts.pool amount
    ok (record w { pool = pool'; stakers = insert accounts.staker staker' w.stakers; bank = bank' })
