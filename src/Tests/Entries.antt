-- ===== src/Tests/Entries.antt =====
-- The theorems on stakes, deposits and claims that succeed, at the worlds of Demo.
use mm_staking.Base.{
  ℕ, zero, suc, ◌+◌, ◌<◌, ◌≡◌, ◌≢◌, ◌↔◌, refl, sym, ap, arith, some, [], ◌∷◌, get_elem?, lookup,
  replicate, subst, some-injective,
}
use mm_staking.Int.{ℤ, pos, ◌+ℤ◌, span, min_ℤ}
use mm_staking.Word.{u64_limit}
use mm_staking.Outcome.{ok}
use mm_staking.State.{Pool, default_key, empty_slot, RewardInfo, StakerAccount}
use mm_staking.Update.{find_slot}
use mm_staking.Update.Settle.{settled}
use mm_staking.Logic.Depositing.{rerated, CanRerate}
use mm_staking.Solvency.Fits.{InRange}
use mm_staking.Runtime.{World, balance}
use mm_staking.Logic
use mm_staking.Runtime
use mm_staking.Runtime.Toy.{toy, toy-TokenLaws, toy-TransferSucceeds, toy_address, Accounts}
use mm_staking.Instructions.Staking.{Stake, stake, stake_accounts, staker_account}
use mm_staking.Instructions.DepositRewards.{
  DepositRewards, find_reward_vault, deposit_accounts, deposit_rewards,
}
use mm_staking.Instructions.Claim.{Claim, claim}
use mm_staking.Custody.Starting.{get_elem?-empty}
use mm_staking.Program.Payment.{owed}
use mm_staking.Program.Depositing.{Reachable-deposit}
use mm_staking.Program.Admitting.{Reachable-stake_iff}
use mm_staking.Program.Joining.{Reachable-stake}
use mm_staking.Program.Claiming.{Claimable, Reachable-claim}
use mm_staking.Program.Picks.{Pick, Received}
use mm_staking.Tests.Demo.{world_b, world_c, world_d, slot_d, slot_with, staker_with}
use mm_staking.Tests.History.{reach_b, reach_c, reach_d}

-- The one registered slot of a pool of the tests.
one_slot :
    (slot : RewardInfo) (now : ℤ) (bank : Accounts)
    → InRange slot now
    → balance toy bank slot.vault < u64_limit
    → (i : ℕ) (t : RewardInfo) → get_elem? (slot ∷ replicate 7 empty_slot) i ≡ some t
    → t.mint ≢ default_key
    → InRange t now × (balance toy bank t.vault < u64_limit)
one_slot slot now bank fits small zero t at named =
    subst (λ s. InRange s now × (balance toy bank s.vault < u64_limit)) (some-injective at)
      (fits, small)
one_slot slot now bank fits small (suc i) t at named =
    absurd (named (ap (λ s. s.mint) (get_elem?-empty 7 i t at)))

range_b : InRange (slot_with 0 0 0 0) (pos 10)
unfolding ◌+ℤ◌ span
range_b = record {
  past = omega arith;
  running = omega arith;
  room = omega arith;
  stored = omega arith;
}

range_c : InRange (slot_with 0 0 0 10) (pos 20)
unfolding ◌+ℤ◌ span
range_c = record {
  past = omega arith;
  running = omega arith;
  room = omega arith;
  stored = omega arith;
}

range_d : InRange slot_d (pos 70)
unfolding ◌+ℤ◌ span
range_d = record {
  past = omega arith;
  running = omega arith;
  room = omega arith;
  stored = omega arith;
}

abbrev enters : Stake
enters = record {
  owner = 3;
  pool = 1050;
  staker = 10501033;
  stake_mint = 5;
  user_token_account = 31;
  stake_vault = 11501;
}

b_pool : Runtime.pool_account toy world_b 1050 5 ≡ ok tt
unfolding Runtime.pool_account toy_address
b_pool = refl

b_accounts : stake_accounts toy world_b 3 5 31 11501 ≡ ok tt
unfolding stake_accounts Runtime.token_account
b_accounts = refl

b_address :
    10501033 ≡ toy.address (Runtime.staker_seed 1050 3) (toy.bump_of (Runtime.staker_seed 1050 3))
unfolding toy_address
b_address = refl

Reachable-stake_example :
    (w' : World toy) × (s' : StakerAccount) × (stake toy world_b enters 100 (pos 10) ≡ ok w')
    × (balance toy w'.bank 11501 ≡ 100)
    × (balance toy w'.bank 31 + 100 ≡ 1000)
    × (lookup 10501033 w'.stakers ≡ some s')
    × (s'.staked_amount ≡ 100)
    × (w'.pool.total_staked ≡ 100)
Reachable-stake_example =
    Reachable-stake toy toy-TokenLaws toy-TransferSucceeds world_b (pos 0) (pos 10) reach_b
      (omega arith) (omega arith)
      (one_slot (slot_with 0 0 0 0) (pos 10) world_b.bank range_b (omega arith)) enters 100
      (record { mint = 5; owner = 3; amount = 1000 })
      (record { mint = 5; owner = 1050; amount = 0 }) b_pool b_address b_accounts (omega arith) refl
      refl refl refl (omega arith) (omega arith) (omega arith)

Reachable-stake_iff_example :
    ((p : Pool) × (t : StakerAccount) × (Logic.stake world_d.pool
          (staker_with 100 0 0)
          3
          1050
          255
          40
          (pos 70)
        ≡ ok (p, t)))
    ↔ ((0 < 40) × (world_d.pool.paused ≡ 0) × (100 + 40 < u64_limit))
Reachable-stake_iff_example =
    Reachable-stake_iff toy toy-TokenLaws world_d (pos 20) (pos 70) reach_d (omega arith)
      (omega arith) (one_slot slot_d (pos 70) world_d.bank range_d (omega arith)) 10501033 3 255 40

abbrev pays_in : DepositRewards
pays_in = record {
  keeper = 2;
  pool = 1050;
  reward_mint = 7;
  keeper_token_account = 21;
  reward_vault = 10501072;
}

c_accounts : deposit_accounts toy world_c pays_in ≡ ok tt
unfolding deposit_accounts Runtime.pool_account Runtime.token_account find_reward_vault find_slot
    toy_address
c_accounts = refl

c_slot : find_slot world_c.pool 7 ≡ some 0
unfolding find_slot
c_slot = refl

c_rerate : CanRerate (settled (slot_with 0 0 0 10) 100 (pos 20)) 1000 (pos 20)
unfolding ◌+ℤ◌ span min_ℤ
c_rerate = record {
  lasts = omega arith;
  past = omega arith;
  finish = omega arith;
  left = omega arith;
  fits = omega arith;
}

Reachable-deposit_example :
    (w' : World toy) × (deposit_rewards toy world_c pays_in 1000 (pos 20) ≡ ok w')
    × (balance toy w'.bank 10501072 ≡ 1000)
    × (balance toy w'.bank 21 + 1000 ≡ 5000)
    × (get_elem? w'.pool.rewards 0
        ≡ some (rerated (settled (slot_with 0 0 0 10) 100 (pos 20)) 1000 (pos 20)))
Reachable-deposit_example =
    Reachable-deposit toy toy-TokenLaws toy-TransferSucceeds world_c (pos 10) (pos 20) reach_c
      (omega arith) (omega arith)
      (one_slot (slot_with 0 0 0 10) (pos 20) world_c.bank range_c (omega arith)) pays_in 1000 0
      (slot_with 0 0 0 10) (record { mint = 7; owner = 2; amount = 5000 })
      (record { mint = 7; owner = 1050; amount = 0 }) c_accounts (omega arith) c_slot refl refl
      c_rerate refl refl refl (omega arith) (omega arith) (omega arith)

d_pool : Runtime.pool_account toy world_d 1050 5 ≡ ok tt
unfolding Runtime.pool_account toy_address
d_pool = refl

d_staker : staker_account toy world_d 3 1050 10501033 ≡ ok (staker_with 100 0 0)
unfolding staker_account toy_address
d_staker = refl

d_owed :
    owed 100
      (settled slot_d 100 (pos 70))
      (record { reward_per_token_paid = 0; rewards_accrued = 0 })
    ≡ 500
unfolding span min_ℤ
d_owed = refl

abbrev d_claim : Claim
d_claim = record { owner = 3; pool = 1050; staker = 10501033 }

abbrev d_pick : Pick
d_pick = record {
  index = 0;
  vault_ai = 10501072;
  user_ai = 37;
  due = 500;
  user = record { mint = 7; owner = 3; amount = 0 };
  vault = record { mint = 7; owner = 1050; amount = 1000 };
}

d_pick-Claimable : Claimable toy world_d d_claim (staker_with 100 0 0) (pos 70) d_pick
d_pick-Claimable = record {
  slot = slot_d;
  entry = record { reward_per_token_paid = 0; rewards_accrued = 0 };
  at = refl;
  named = omega arith;
  real = omega arith;
  is_slot = refl;
  has = refl;
  due = sym d_owed;
  is_vault = refl;
  is_user = refl;
  mine = refl;
  mint = refl;
  room = omega arith;
}

Reachable-claim_example :
    (w' : World toy) × (t : StakerAccount) × (claim toy world_d d_claim
        (10501072 ∷ 37 ∷ [])
        (pos 70)
      ≡ ok w')
    × (lookup 10501033 w'.stakers ≡ some t)
    × (t.staked_amount ≡ 100)
    × (Received toy t w'.bank d_pick × Unit {0})
Reachable-claim_example =
    Reachable-claim toy toy-TokenLaws toy-TransferSucceeds world_d (pos 20) (pos 70) reach_d
      (omega arith) (omega arith) (one_slot slot_d (pos 70) world_d.bank range_d (omega arith))
      d_claim (staker_with 100 0 0) d_pool d_staker (omega arith) (d_pick ∷ [])
      (d_pick-Claimable, tt) (tt, tt)
