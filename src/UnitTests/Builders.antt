-- ===== src/UnitTests/Builders.antt =====
-- What the unit tests of update.rs and logic.rs build their pools and stakers with.
use mm_staking.Base.{ℕ, suc, zero, ◌+◌, ◌*◌, List, [], ◌∷◌, get_elem?, replicate}
use mm_staking.Int.{ℤ, pos}
use mm_staking.Outcome.{Result, or_panic}
use mm_staking.State.{
  Pubkey, default_key, max_rewards, RewardInfo, RewardEntry, Pool, StakerAccount, empty_slot,
  empty_entry,
}

-- The key of the n-th call of `Pubkey::new_unique` in a test: keys that differ from each other and
-- from the default.
abbrev pub new_unique : ℕ → Pubkey
new_unique n = suc n

-- `array[i]` as a place: its field is written by `f`.
abbrev pub modify {ℓ} : {A : Type ℓ} → List A → ℕ → (A → A) → List A
modify [] i f = []
modify (x ∷ xs) zero f = f x ∷ xs
modify (x ∷ xs) (suc i) f = x ∷ modify xs i f

abbrev pub edit_slot : Pool → ℕ → (RewardInfo → RewardInfo) → Pool
edit_slot pool i f = record pool { rewards = modify pool.rewards i f }

abbrev pub edit_entry : StakerAccount → ℕ → (RewardEntry → RewardEntry) → StakerAccount
edit_entry staker i f = record staker { entries = modify staker.entries i f }

abbrev pub slot_at : Pool → ℕ → Result RewardInfo
slot_at pool i = or_panic (get_elem? pool.rewards i)

abbrev pub entry_at : StakerAccount → ℕ → Result RewardEntry
entry_at staker i = or_panic (get_elem? staker.entries i)

-- `Pool` with all reward slots empty.
abbrev pub empty_pool : Pool
empty_pool = record {
  admin = default_key;
  keeper_authority = default_key;
  stake_mint = default_key;
  stake_vault = default_key;
  total_staked = 0;
  default_duration = pos 3600;
  reward_count = 0;
  paused = 0;
  bump = 255;
  rewards = replicate max_rewards empty_slot;
}

-- One reward at slot 0.
abbrev pub pool_with_one_reward : ℕ → Pool
pool_with_one_reward total_staked =
    edit_slot (record empty_pool { total_staked = total_staked; reward_count = 1 }) 0
      (λ slot. record slot {
        mint = new_unique 0;
        vault = new_unique 1;
        active = 1;
        duration = pos 3600;
        last_update_time = pos 0;
        period_finish = pos 0;
        reward_rate = 0;
        reward_per_token_stored = 0;
      })

-- The slots of `full_pool`, from the n-th on.
abbrev pub full_slots : ℕ → List RewardInfo → List RewardInfo
full_slots n [] = []
full_slots n (slot ∷ slots) =
    record slot {
      mint = new_unique (2 * n);
      vault = new_unique (2 * n + 1);
      active = 1;
      duration = pos 3600;
    }
    ∷ full_slots (suc n) slots

abbrev pub full_pool : Pool
full_pool = record empty_pool {
  rewards = full_slots 0 empty_pool.rewards;
  reward_count = max_rewards;
}

-- An account that is not initialized.
abbrev pub staker : StakerAccount
staker = record {
  owner = default_key;
  pool = default_key;
  staked_amount = 0;
  bump = 255;
  entries = replicate max_rewards empty_entry;
}

-- The builders of update.rs.
abbrev pub make_pool : ℕ → ℕ → ℤ → ℤ → Pool
make_pool total_staked reward_rate period_finish last_update_time =
    edit_slot (record empty_pool { total_staked = total_staked; reward_count = 1 }) 0
      (λ slot. record slot {
        mint = new_unique 0;
        reward_rate = reward_rate;
        period_finish = period_finish;
        last_update_time = last_update_time;
        reward_per_token_stored = 0;
      })

abbrev pub make_staker : ℕ → StakerAccount
make_staker staked_amount = record staker { staked_amount = staked_amount }
