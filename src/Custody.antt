-- ===== src/Custody.antt =====
-- The tokens that the program holds: each slot of the pool against the vault that the slot names,
-- and the count of staked tokens against the stake vault.
pub mod Labels
pub mod Registered
pub mod Moves
pub mod Staking
pub mod Exits
pub mod DepositParts
pub mod Rewarding
pub mod Adding
pub mod ClaimParts
pub mod Claiming
pub mod Admin
pub mod Starting
use mm_staking.Base.{ℕ, ◌≤◌, ◌≡◌, ◌≢◌, Option, none, some, ◌==◌, if◌then◌else◌, get_elem?}
use mm_staking.Int.{ℤ}
use mm_staking.State.{Pubkey, default_key, Pool, RewardInfo}
use mm_staking.Runtime.{Runtime, World, balance, owner_of}
use mm_staking.Solvency.{PoolSound}

-- The tokens behind a slot: those in its vault, and none for an empty slot.
abbrev pub slot_funds : (rt : Runtime) → rt.Bank → RewardInfo → ℕ
slot_funds rt bank slot = if slot.mint == default_key then 0 else balance rt bank slot.vault

abbrev pub funds_at : (rt : Runtime) → rt.Bank → Option RewardInfo → ℕ
funds_at rt bank none = 0
funds_at rt bank (some slot) = slot_funds rt bank slot

abbrev pub funds : (rt : Runtime) → rt.Bank → Pool → ℕ → ℕ
funds rt bank pool i = funds_at rt bank (get_elem? pool.rewards i)

-- The pool owns the stake vault and the vault of each registered slot, and these differ.
pub record Vaults (rt : Runtime) (pool_key : Pubkey) (bank : rt.Bank) (pool : Pool) : Type 0 where
  pub stake_owner : owner_of rt bank pool.stake_vault ≡ some pool_key
  pub owner :
      (i : ℕ) (slot : RewardInfo)
      → get_elem? pool.rewards i ≡ some slot
      → slot.mint ≢ default_key
      → owner_of rt bank slot.vault ≡ some pool_key
  pub not_stake :
      (i : ℕ) (slot : RewardInfo)
      → get_elem? pool.rewards i ≡ some slot
      → slot.mint ≢ default_key
      → slot.vault ≢ pool.stake_vault
  pub apart :
      (i j : ℕ) (slot other : RewardInfo)
      → get_elem? pool.rewards i ≡ some slot
      → get_elem? pool.rewards j ≡ some other
      → slot.mint ≢ default_key
      → other.mint ≢ default_key
      → slot.vault ≡ other.vault
      → i ≡ j

-- All that the program owes is in its vaults.
pub record WorldSound (rt : Runtime) (w : World rt) (clock : ℤ) : Type 0 where
  pub pooled : PoolSound w.pool w.stakers clock (funds rt w.bank w.pool)
  pub principal : w.pool.total_staked ≤ balance rt w.bank w.pool.stake_vault
  pub vaults : Vaults rt w.pool_key w.bank w.pool
