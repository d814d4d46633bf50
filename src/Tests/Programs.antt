-- ===== src/Tests/Programs.antt =====
-- The theorems on the whole program, at the worlds of Demo.
use mm_staking.Base.{ℕ, ◌+◌, ◌≤◌, ◌≡◌, refl, arith, some, true, total_of, lookup, get_elem?}
use mm_staking.Int.{pos}
use mm_staking.Outcome.{Fault, err}
use mm_staking.State.{StakerAccount, RewardInfo, RewardEntry}
use mm_staking.Update.Settle.{settled}
use mm_staking.Program.Payment.{owed, Reachable-claim_pays}
use mm_staking.Runtime.Toy.{toy, toy-TokenLaws}
use mm_staking.Custody.{WorldSound}
use mm_staking.Program.{Instruction, process}
use mm_staking.Program
use mm_staking.Program.Sound.{Reachable-WorldSound}
use mm_staking.Program.Owed.{accrued, Reachable-rewards}
use mm_staking.Program.Shape.{process-keeps_stake}
use mm_staking.Program.Mints.{Reachable-DistinctMints}
use mm_staking.Program.Registry.{RegistryEffect, DistinctMints, process-RegistryEffect}
use mm_staking.Program.Ledger.{ledger, process-ledger}
use mm_staking.Program.Roles.{process-unauthorized}
use mm_staking.Tests.Demo.{
  world_c, world_d, world_e, slot_d, staker_with, deposits, stakes, world_b,
}
use mm_staking.Tests.History.{reach_d, reach_e, deposit_runs, claim_runs, stake_runs}

Reachable-WorldSound_example : WorldSound toy world_e (pos 70)
Reachable-WorldSound_example = Reachable-WorldSound toy toy-TokenLaws world_e (pos 70) reach_e

Reachable-rewards_example : total_of (accrued 0) world_d.stakers ≤ 1000
Reachable-rewards_example =
    Reachable-rewards toy toy-TokenLaws world_d (pos 20) reach_d 0 slot_d refl (omega arith)

process-keeps_stake_example :
    (t : StakerAccount) × (lookup 10501033 world_d.stakers ≡ some t)
    × (t.owner ≡ 3)
    × (100 ≤ t.staked_amount)
process-keeps_stake_example =
    process-keeps_stake toy world_c deposits (pos 20) world_d deposit_runs 10501033
      (staker_with 100 0 0) refl (omega arith) (omega arith)

-- The staker tries to pause the pool.
abbrev pauses : Instruction
pauses = Program.set_paused (record { admin = 3; pool = 1050 }) true

process-unauthorized_example : (fault : Fault) × (process toy world_d pauses (pos 30) ≡ err fault)
process-unauthorized_example = process-unauthorized toy world_d pauses (pos 30) 1 refl (omega arith)

process-RegistryEffect_example : RegistryEffect world_c.pool world_d.pool
process-RegistryEffect_example =
    process-RegistryEffect toy world_c (pos 20) world_d deposits deposit_runs

Reachable-DistinctMints_example : DistinctMints world_e.pool
Reachable-DistinctMints_example = Reachable-DistinctMints toy world_e (pos 70) reach_e

Reachable-claim_pays_example :
    (i : ℕ) × (slot : RewardInfo) × (e : RewardEntry) × (get_elem? world_d.pool.rewards i
      ≡ some slot)
    × (slot.vault ≡ 10501072)
    × (get_elem? (staker_with 100 0 0).entries i ≡ some e)
    × (500 ≡ 0 + owed 100 (settled slot 100 (pos 70)) e)
    × (500 + owed 100 (settled slot 100 (pos 70)) e ≡ 1000)
Reachable-claim_pays_example =
    Reachable-claim_pays toy toy-TokenLaws world_d (pos 20) reach_d
      (record { owner = 3; pool = 1050; staker = 10501033 }) 10501072 37 (pos 70) world_e
      (staker_with 100 0 0) claim_runs refl (omega arith) (omega arith)

process-ledger_example : ledger toy world_c 10501033 ≡ 0 + 100
process-ledger_example = process-ledger toy world_b (pos 10) world_c stakes stake_runs 10501033
