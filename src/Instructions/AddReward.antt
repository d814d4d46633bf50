-- ===== src/Instructions/AddReward.antt =====
-- instructions/add_reward.rs.
use mm_staking.Base.{ℕ, Bool, ◌==◌}
use mm_staking.Int.{ℤ}
use mm_staking.Outcome.{StakingError, Result, ok, staking, constraint, ◌>>=◌, ◌>>◌}
use mm_staking.State.{Pubkey}
use mm_staking.Logic
use mm_staking.Runtime.{Runtime, World, check, pool_account, reward_vault_seed}

pub record AddReward : Type 0 where
  pub admin : Pubkey
  pub pool : Pubkey
  pub reward_mint : Pubkey
  pub reward_vault : Pubkey

pub record SetRewardActive : Type 0 where
  pub admin : Pubkey
  pub pool : Pubkey

module _ (rt : Runtime) where
  -- The constraints on `admin` and `pool`, the same in both account lists.
  unfoldable pub admin_and_pool : World rt → Pubkey → Pubkey → Result (Unit {0})
  admin_and_pool w admin pool = do
    check (admin == w.pool.admin) (staking StakingError.unauthorized)
    pool_account rt w pool w.pool.stake_mint

  -- The reward vault is created at its canonical address, with the pool as its owner.
  unfoldable pub add_reward : World rt → AddReward → ℤ → ℤ → Result (World rt)
  add_reward w accounts duration now = do
    let seeds = reward_vault_seed accounts.pool accounts.reward_mint
    admin_and_pool w accounts.admin accounts.pool
    check (rt.is_mint w.bank accounts.reward_mint) constraint
    check (accounts.reward_vault == rt.address seeds (rt.bump_of seeds)) constraint
    bank' ← rt.create w.bank accounts.reward_vault accounts.reward_mint accounts.pool
    pool' ← Logic.add_reward w.pool accounts.reward_mint accounts.reward_vault duration now
    ok (record w { pool = pool'; bank = bank' })

  unfoldable pub set_reward_active : World rt → SetRewardActive → ℕ → Bool → Result (World rt)
  set_reward_active w accounts slot active = do
    admin_and_pool w accounts.admin accounts.pool
    pool' ← Logic.set_reward_active w.pool slot active
    ok (record w { pool = pool' })
