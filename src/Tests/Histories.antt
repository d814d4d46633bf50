-- ===== src/Tests/Histories.antt =====
-- The theorems on lists of calls, from the worlds of Demo.
use mm_staking.Base.{◌≤◌, ◌≡◌, refl, arith, some, true, [], ◌∷◌, List}
use mm_staking.Int.{pos}
use mm_staking.Outcome.{ok}
use mm_staking.Runtime.{World, balance}
use mm_staking.Runtime
use mm_staking.Runtime.Toy.{toy, toy-TokenLaws, toy-TransferSucceeds}
use mm_staking.Instructions.Staking.{stake_accounts, staker_account}
use mm_staking.Instructions.EmergencyWithdraw.{emergency_withdraw}
use mm_staking.Program.{Instruction}
use mm_staking.Program
use mm_staking.Program.Ledger.{ledger}
use mm_staking.Program.History.{Call, run, replay, run-ledger}
use mm_staking.Program.Later.{run-exit}
use mm_staking.Tests.Demo.{
  world_a, world_c, world_d, world_e, staker_with, adds, stakes, deposits, claims, flees,
}
use mm_staking.Tests.History.{exec, reach_c}

-- The staker tries to pause the pool.
abbrev pauses : Instruction
pauses = Program.set_paused (record { admin = 3; pool = 1050 }) true

abbrev first_calls : List Call
first_calls =
    (pos 0, adds) ∷ (pos 10, stakes) ∷ (pos 15, pauses) ∷ (pos 20, deposits) ∷ (pos 70, claims) ∷ []

run-ledger_example :
    ledger toy world_e 10501033
    ≡ replay (adds ∷ stakes ∷ deposits ∷ claims ∷ []) (ledger toy world_a) 10501033
unfolding exec
run-ledger_example = run-ledger toy first_calls world_a 10501033

-- The admin pauses the pool after a deposit.
abbrev admin_pauses : Instruction
admin_pauses = Program.set_paused (record { admin = 1; pool = 1050 }) true

abbrev others_call : List Call
others_call = (pos 20, deposits) ∷ (pos 25, admin_pauses) ∷ []

abbrev paused_world : World toy
paused_world = record world_d { pool = record world_d.pool { paused = 1 } }

others_run : run toy world_c others_call ≡ paused_world
unfolding exec
others_run = refl

passes_pool : Runtime.pool_account toy (run toy world_c others_call) 1050 5 ≡ ok tt
unfolding exec
passes_pool = refl

passes_staker :
    staker_account toy (run toy world_c others_call) 3 1050 10501033 ≡ ok (staker_with 100 0 0)
unfolding exec
passes_staker = refl

passes_accounts : stake_accounts toy (run toy world_c others_call) 3 5 31 11501 ≡ ok tt
unfolding exec
passes_accounts = refl

has_user :
    toy.account (run toy world_c others_call).bank 31
    ≡ some (record { mint = 5; owner = 3; amount = 900 })
unfolding exec
has_user = refl

has_vault :
    toy.account (run toy world_c others_call).bank 11501
    ≡ some (record { mint = 5; owner = 1050; amount = 100 })
unfolding exec
has_vault = refl

run-exit_example :
    (w2 : World toy) × (emergency_withdraw toy (run toy world_c others_call) flees ≡ ok w2)
    × (1000 ≤ balance toy w2.bank 31)
run-exit_example =
    run-exit toy toy-TokenLaws toy-TransferSucceeds world_c (pos 10) reach_c others_call flees
      (staker_with 100 0 0) (staker_with 100 0 0) (record { mint = 5; owner = 3; amount = 900 })
      (record { mint = 5; owner = 1050; amount = 100 })
      (omega arith, omega arith, (omega arith, omega arith, tt)) refl (omega arith)
      (omega arith, (omega arith, tt)) passes_pool passes_staker passes_accounts (omega arith)
      has_user has_vault refl (omega arith) (omega arith)
