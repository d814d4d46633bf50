-- ===== src/Tests/Registering.antt =====
-- The theorems on the registration of rewards, at the worlds of Demo.
use mm_staking.Base.{ℕ, ◌+◌, ◌≤◌, ◌≡◌, refl, arith, some, none, get_elem?}
use mm_staking.Int.{pos}
use mm_staking.Outcome.{ok}
use mm_staking.Update.{find_slot}
use mm_staking.Runtime.{World, balance, owner_of}
use mm_staking.Runtime
use mm_staking.Runtime.Toy.{toy, toy-TokenLaws, toy-CreateSucceeds, toy_address}
use mm_staking.Instructions.AddReward.{AddReward, admin_and_pool, add_reward}
use mm_staking.Solvency.Slots.{duration_for}
use mm_staking.Custody.Registered.{registered}
use mm_staking.Program.Counting.{Reachable-count}
use mm_staking.Program.Registering.{
  fresh_slot, AddOutcome, Reachable-add_reward, Reachable-AddOutcome,
}
use mm_staking.Tests.Demo.{world_a, world_e}
use mm_staking.Tests.History.{reach_a, reach_e}

Reachable-count_example : (world_e.pool.reward_count ≡ registered world_e.pool.rewards) × (1 ≤ 8)
Reachable-count_example = Reachable-count toy world_e (pos 70) reach_e

abbrev registers : AddReward
registers = record { admin = 1; pool = 1050; reward_mint = 7; reward_vault = 10501072 }

by_admin : admin_and_pool toy world_a 1 1050 ≡ ok tt
unfolding admin_and_pool Runtime.pool_account toy_address
by_admin = refl

vault_address :
    10501072
    ≡ toy.address
        (Runtime.reward_vault_seed 1050 7)
        (toy.bump_of (Runtime.reward_vault_seed 1050 7))
unfolding toy_address
vault_address = refl

not_there : find_slot world_a.pool 7 ≡ none
unfolding find_slot
not_there = refl

Reachable-add_reward_example :
    (w' : World toy) × (i : ℕ) × (add_reward toy world_a registers (pos 0) (pos 0) ≡ ok w')
    × (find_slot w'.pool 7 ≡ some i)
    × (get_elem? w'.pool.rewards i
        ≡ some (fresh_slot 7 10501072 (duration_for world_a.pool (pos 0)) (pos 0)))
    × (w'.pool.reward_count ≡ 0 + 1)
    × (balance toy w'.bank 10501072 ≡ 0)
    × (owner_of toy w'.bank 10501072 ≡ some 1050)
Reachable-add_reward_example =
    Reachable-add_reward toy toy-TokenLaws toy-CreateSucceeds world_a (pos 0) reach_a registers
      (pos 0) (pos 0) by_admin refl vault_address refl not_there (omega arith)

Reachable-AddOutcome_example : AddOutcome world_e.pool 9 10501092 (pos 30) (pos 70)
Reachable-AddOutcome_example =
    Reachable-AddOutcome toy world_e (pos 70) reach_e 9 10501092 (pos 30) (pos 70)
