-- ===== src/Tests/Demo.antt =====
-- A pool with one reward slot and one staker, over the token program of Runtime/Toy.
use mm_staking.Base.{ℕ, zero, suc, refl, [], ◌∷◌, Dict, replicate}
use mm_staking.Int.{ℤ, pos}
use mm_staking.State.{Pool, RewardInfo, StakerAccount, empty_slot, empty_entry}
use mm_staking.Runtime.{World}
use mm_staking.Runtime.Toy.{toy, Accounts}
use mm_staking.Instructions.EmergencyWithdraw.{EmergencyWithdraw}
use mm_staking.Instructions.Staking.{Unstake}
use mm_staking.Update.Total.{AllSettle, AllAccrue, refreshed_all}
use mm_staking.Program.{Instruction}
use mm_staking.Program

abbrev pub first_bank : Accounts
first_bank =
    (31, record { mint = 5; owner = 3; amount = 1000 })
    ∷ (21, record { mint = 7; owner = 2; amount = 5000 })
    ∷ (37, record { mint = 7; owner = 3; amount = 0 })
    ∷ []

-- The bank once the pool and its reward slot are there.
abbrev pub bank_with : ℕ → ℕ → ℕ → ℕ → ℕ → Accounts
bank_with user keeper rewards stake_vault reward_vault =
    (31, record { mint = 5; owner = 3; amount = user })
    ∷ (21, record { mint = 7; owner = 2; amount = keeper })
    ∷ (37, record { mint = 7; owner = 3; amount = rewards })
    ∷ (11501, record { mint = 5; owner = 1050; amount = stake_vault })
    ∷ (10501072, record { mint = 7; owner = 1050; amount = reward_vault })
    ∷ []

abbrev pub pool_with : ℕ → ℕ → RewardInfo → Pool
pool_with total count slot = record {
  admin = 1;
  keeper_authority = 2;
  stake_mint = 5;
  stake_vault = 11501;
  total_staked = total;
  default_duration = pos 100;
  reward_count = count;
  paused = 0;
  bump = 255;
  rewards = slot ∷ replicate 7 empty_slot;
}

abbrev pub slot_with : ℕ → ℕ → ℕ → ℕ → RewardInfo
slot_with rate rpt finish last = record {
  mint = 7;
  vault = 10501072;
  reward_rate = rate;
  reward_per_token_stored = rpt;
  period_finish = pos finish;
  last_update_time = pos last;
  duration = pos 100;
  active = 1;
}

abbrev pub staker_with : ℕ → ℕ → ℕ → StakerAccount
staker_with staked paid accrued = record {
  owner = 3;
  pool = 1050;
  staked_amount = staked;
  bump = 255;
  entries =
      record { reward_per_token_paid = paid; rewards_accrued = accrued } ∷ replicate 7 empty_entry;
}

abbrev pub at_pool : Pool → Dict StakerAccount → Accounts → World toy
at_pool pool stakers bank = record { pool_key = 1050; pool = pool; stakers = stakers; bank = bank }

-- Initialized at 0, with a slot at 0, a stake at 10, a deposit at 20 and a claim at 70.
abbrev pub world_a : World toy
world_a = at_pool (pool_with 0 0 empty_slot) [] (
    (31, record { mint = 5; owner = 3; amount = 1000 })
    ∷ (21, record { mint = 7; owner = 2; amount = 5000 })
    ∷ (37, record { mint = 7; owner = 3; amount = 0 })
    ∷ (11501, record { mint = 5; owner = 1050; amount = 0 })
    ∷ [])

abbrev pub world_b : World toy
world_b = at_pool (pool_with 0 1 (slot_with 0 0 0 0)) [] (bank_with 1000 5000 0 0 0)

abbrev pub world_c : World toy
world_c =
    at_pool (pool_with 100 1 (slot_with 0 0 0 10)) ((10501033, staker_with 100 0 0) ∷ [])
      (bank_with 900 5000 0 100 0)

abbrev pub slot_d : RewardInfo
slot_d = slot_with 10_000_000_000_000 0 120 20

abbrev pub world_d : World toy
world_d =
    at_pool (pool_with 100 1 slot_d) ((10501033, staker_with 100 0 0) ∷ [])
      (bank_with 900 4000 0 100 1000)

abbrev pub world_e : World toy
world_e =
    at_pool (pool_with 100 1 (slot_with 10_000_000_000_000 5_000_000_000_000 120 70))
      ((10501033, staker_with 100 5_000_000_000_000 0) ∷ []) (bank_with 900 4000 500 100 500)

abbrev pub adds : Instruction
adds =
    Program.add_reward (record { admin = 1; pool = 1050; reward_mint = 7; reward_vault = 10501072 })
      (pos 0)

abbrev pub stakes : Instruction
stakes =
    Program.stake
      (record {
        owner = 3;
        pool = 1050;
        staker = 10501033;
        stake_mint = 5;
        user_token_account = 31;
        stake_vault = 11501;
      })
      100

abbrev pub deposits : Instruction
deposits =
    Program.deposit_rewards
      (record {
        keeper = 2;
        pool = 1050;
        reward_mint = 7;
        keeper_token_account = 21;
        reward_vault = 10501072;
      })
      1000

abbrev pub claims : Instruction
claims = Program.claim (record { owner = 3; pool = 1050; staker = 10501033 }) (10501072 ∷ 37 ∷ [])

abbrev pub leaves : Unstake
leaves = record {
  owner = 3;
  pool = 1050;
  staker = 10501033;
  stake_mint = 5;
  user_token_account = 31;
  stake_vault = 11501;
}

abbrev pub flees : EmergencyWithdraw
flees = record {
  owner = 3;
  pool = 1050;
  staker = 10501033;
  stake_mint = 5;
  user_token_account = 31;
  stake_vault = 11501;
}

-- An array of empty slots can always be settled, and nothing is accrued beside it.
pub unused_settle : (now : ℤ) (n : ℕ) → AllSettle now (replicate n empty_slot)
unused_settle now zero = tt
unused_settle now (suc n) = ((λ named. absurd (named refl)), unused_settle now n)

pub unused_accrue :
    (staked total : ℕ) (now : ℤ) (n : ℕ)
    → AllAccrue staked (refreshed_all total now (replicate n empty_slot)) (replicate n empty_entry)
unused_accrue staked total now zero = tt
unused_accrue staked total now (suc n) =
    ((λ named. absurd (named refl)), unused_accrue staked total now n)
