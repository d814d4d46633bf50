-- ===== src/State.antt =====
-- constants.rs and state.rs: the pool with its eight reward slots, and a staker's account with an
-- entry for each slot. The padding, which nothing reads, is left out.
pub mod Layout
use mm_staking.Base.{ℕ, List, replicate}
use mm_staking.Int.{ℤ, pos}

-- A public key is only compared, so it is a number; the default key is all zeros.
abbrev pub Pubkey : Type 0
Pubkey = ℕ

abbrev pub default_key : Pubkey
default_key = 0

abbrev pub max_rewards : ℕ
max_rewards = 8

abbrev pub precision : ℕ
precision = 1_000_000_000_000

pub record RewardInfo : Type 0 where
  pub mint : Pubkey
  pub vault : Pubkey
  pub reward_rate : ℕ
  pub reward_per_token_stored : ℕ
  pub period_finish : ℤ
  pub last_update_time : ℤ
  pub duration : ℤ
  pub active : ℕ

pub record RewardEntry : Type 0 where
  pub reward_per_token_paid : ℕ
  pub rewards_accrued : ℕ

pub record Pool : Type 0 where
  pub admin : Pubkey
  pub keeper_authority : Pubkey
  pub stake_mint : Pubkey
  pub stake_vault : Pubkey
  pub total_staked : ℕ
  pub default_duration : ℤ
  pub reward_count : ℕ
  pub paused : ℕ
  pub bump : ℕ
  pub rewards : List RewardInfo

pub record StakerAccount : Type 0 where
  pub owner : Pubkey
  pub pool : Pubkey
  pub staked_amount : ℕ
  pub bump : ℕ
  pub entries : List RewardEntry

-- What an account that was just created holds: zeros.
abbrev pub empty_slot : RewardInfo
empty_slot = record {
  mint = default_key;
  vault = default_key;
  reward_rate = 0;
  reward_per_token_stored = 0;
  period_finish = pos 0;
  last_update_time = pos 0;
  duration = pos 0;
  active = 0;
}

abbrev pub empty_entry : RewardEntry
empty_entry = record { reward_per_token_paid = 0; rewards_accrued = 0 }

abbrev pub zeroed_pool : Pool
zeroed_pool = record {
  admin = default_key;
  keeper_authority = default_key;
  stake_mint = default_key;
  stake_vault = default_key;
  total_staked = 0;
  default_duration = pos 0;
  reward_count = 0;
  paused = 0;
  bump = 0;
  rewards = replicate max_rewards empty_slot;
}

abbrev pub zeroed_staker : StakerAccount
zeroed_staker = record {
  owner = default_key;
  pool = default_key;
  staked_amount = 0;
  bump = 0;
  entries = replicate max_rewards empty_entry;
}
