-- ===== src/Instructions/InitializePool.antt =====
-- instructions/initialize_pool.rs.
use mm_staking.Base.{◌==◌, []}
use mm_staking.Int.{ℤ}
use mm_staking.Outcome.{Result, ok, constraint, ◌>>=◌, ◌>>◌}
use mm_staking.State.{Pubkey, zeroed_pool}
use mm_staking.Logic.{init_pool}
use mm_staking.Runtime.{Runtime, World, check, pool_seed, stake_vault_seed}

pub record InitializePool : Type 0 where
  pub admin : Pubkey
  pub stake_mint : Pubkey
  pub pool : Pubkey
  pub stake_vault : Pubkey

-- The pool and its stake vault are created at their canonical addresses; the pool starts from zeros.
unfoldable pub initialize_pool :
    (rt : Runtime) → rt.Bank → InitializePool → ℤ → Pubkey → Result (World rt)
initialize_pool rt bank accounts default_duration keeper_authority = do
  let seeds = pool_seed accounts.stake_mint
  let bump = rt.bump_of seeds
  let vault_seeds = stake_vault_seed accounts.pool
  check (rt.is_mint bank accounts.stake_mint) constraint
  check (accounts.pool == rt.address seeds bump) constraint
  check (accounts.stake_vault == rt.address vault_seeds (rt.bump_of vault_seeds)) constraint
  bank' ← rt.create bank accounts.stake_vault accounts.stake_mint accounts.pool
  pool ←
      init_pool zeroed_pool accounts.admin keeper_authority accounts.stake_mint accounts.stake_vault
        default_duration bump
  ok (record { pool_key = accounts.pool; pool = pool; stakers = []; bank = bank' })
