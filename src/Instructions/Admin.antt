-- ===== src/Instructions/Admin.antt =====
-- instructions/admin.rs: the setters of the admin.
use mm_staking.Base.{ℕ, Bool, ◌==◌}
use mm_staking.Int.{ℤ}
use mm_staking.Outcome.{StakingError, Result, ok, staking, ◌>>=◌, ◌>>◌}
use mm_staking.State.{Pubkey, Pool}
use mm_staking.Logic
use mm_staking.Runtime.{Runtime, World, check, pool_account}

pub record AdminOnly : Type 0 where
  pub admin : Pubkey
  pub pool : Pubkey

module _ (rt : Runtime) where
  -- The signer is the pool's admin, and the account is the pool's.
  unfoldable pub admin_only : World rt → AdminOnly → Result (Unit {0})
  admin_only w accounts = do
    check (accounts.admin == w.pool.admin) (staking StakingError.unauthorized)
    pool_account rt w accounts.pool w.pool.stake_mint

  abbrev pub with_pool : World rt → Result Pool → Result (World rt)
  with_pool w r = r >>= λ pool. ok (record w { pool = pool })

  unfoldable pub set_paused : World rt → AdminOnly → Bool → Result (World rt)
  set_paused w accounts paused = do
    admin_only w accounts
    with_pool w (Logic.set_paused w.pool paused)

  unfoldable pub set_keeper_authority : World rt → AdminOnly → Pubkey → Result (World rt)
  set_keeper_authority w accounts keeper = do
    admin_only w accounts
    with_pool w (Logic.set_keeper_authority w.pool keeper)

  unfoldable pub set_admin : World rt → AdminOnly → Pubkey → Result (World rt)
  set_admin w accounts new_admin = do
    admin_only w accounts
    with_pool w (Logic.set_admin w.pool new_admin)

  unfoldable pub set_duration : World rt → AdminOnly → ℕ → ℤ → Result (World rt)
  set_duration w accounts slot duration = do
    admin_only w accounts
    with_pool w (Logic.set_duration w.pool slot duration)
