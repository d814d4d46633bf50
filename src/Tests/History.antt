-- ===== src/Tests/History.antt =====
-- The calls that lead to the worlds of the tests.
use mm_staking.Base.{◌≡◌, refl, arith}
use mm_staking.Int.{ℤ, pos, ◌+ℤ◌, ◌-ℤ◌, min_ℤ}
use mm_staking.Word.{checked_add_i64, sub_i64}
use mm_staking.Outcome.{Result, ok}
use mm_staking.Runtime.{World}
use mm_staking.Runtime
use mm_staking.Runtime.Toy.{toy, toy_transfer, toy_create, toy_address}
use mm_staking.Math
use mm_staking.Update
use mm_staking.Logic
use mm_staking.Instructions.InitializePool.{initialize_pool}
use mm_staking.Instructions.AddReward
use mm_staking.Instructions.Staking
use mm_staking.Instructions.DepositRewards
use mm_staking.Instructions.Claim
use mm_staking.Instructions.EmergencyWithdraw
use mm_staking.Instructions.Admin
use mm_staking.Program
use mm_staking.Program.{Instruction, process, Reachable}
use mm_staking.Tests.Demo.{
  first_bank, world_a, world_b, world_c, world_d, world_e, adds, stakes, deposits, claims,
}

-- A call, with the definitions that it runs.
unfoldable pub exec : World toy → Instruction → ℤ → Result (World toy)
unfolding toy_transfer toy_create toy_address Program.process Runtime.token_account
    Runtime.pool_account AddReward.admin_and_pool AddReward.add_reward AddReward.set_reward_active
    Staking.stake_accounts Staking.stake Staking.staker_account Staking.unstake
    DepositRewards.find_reward_vault DepositRewards.deposit_accounts DepositRewards.deposit_rewards
    Claim.pay_reward Claim.claim_round Claim.claim_loop Claim.claim
    EmergencyWithdraw.emergency_withdraw Admin.admin_only Admin.set_paused Admin.set_duration
    Logic.new_slot Logic.add_reward Logic.registered_slot Logic.init_staker Logic.stake
    Logic.unstake Logic.rerate Logic.deposit_rewards Logic.forfeit Logic.emergency_withdraw
    Logic.set_paused Logic.set_duration Logic.claim_settle_all Logic.claim_take_slot
    Update.settle_slot Update.settle_round Update.settle_slots Update.accrue_round
    Update.accrue_entries Update.update_globals Update.update_reward Update.find_slot
    Math.accrue_rpt Math.earned Math.leftover Math.notify_rate checked_add_i64 sub_i64 ◌+ℤ◌ ◌-ℤ◌
    min_ℤ
exec w i now = Program.process toy w i now

initializes :
    initialize_pool toy first_bank
      (record { admin = 1; stake_mint = 5; pool = 1050; stake_vault = 11501 })
      (pos 100)
      2
    ≡ ok world_a
unfolding initialize_pool toy_create toy_address Logic.init_pool
initializes = refl

pub reach_a : Reachable toy world_a (pos 0)
reach_a =
    Program.initialized first_bank
      (record { admin = 1; stake_mint = 5; pool = 1050; stake_vault = 11501 }) (pos 100) 2
      (omega arith) initializes

pub add_runs : process toy world_a adds (pos 0) ≡ ok world_b
unfolding exec
add_runs = refl

pub stake_runs : process toy world_b stakes (pos 10) ≡ ok world_c
unfolding exec
stake_runs = refl

pub deposit_runs : process toy world_c deposits (pos 20) ≡ ok world_d
unfolding exec
deposit_runs = refl

pub claim_runs : process toy world_d claims (pos 70) ≡ ok world_e
unfolding exec
claim_runs = refl

pub reach_b : Reachable toy world_b (pos 0)
reach_b = Program.later reach_a (Program.called adds (omega arith) (omega arith) add_runs)

pub reach_c : Reachable toy world_c (pos 10)
reach_c = Program.later reach_b (Program.called stakes (omega arith) (omega arith) stake_runs)

pub reach_d : Reachable toy world_d (pos 20)
reach_d = Program.later reach_c (Program.called deposits (omega arith) (omega arith) deposit_runs)

pub reach_e : Reachable toy world_e (pos 70)
reach_e = Program.later reach_d (Program.called claims (omega arith) (omega arith) claim_runs)
