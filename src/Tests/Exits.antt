-- ===== src/Tests/Exits.antt =====
-- The theorems on exits, at the worlds of Demo.
use mm_staking.Base.{
  ℕ, zero, suc, ◌<◌, ◌≡◌, ◌≢◌, refl, ap, arith, some, get_elem?, lookup, subst, some-injective,
}
use mm_staking.Int.{pos, ◌+ℤ◌, span}
use mm_staking.Word.{u64_limit}
use mm_staking.Outcome.{ok}
use mm_staking.State.{default_key, RewardInfo, StakerAccount}
use mm_staking.Runtime.{World, balance}
use mm_staking.Runtime
use mm_staking.Runtime.Toy.{toy, toy-TokenLaws, toy-TransferSucceeds, toy_address}
use mm_staking.Instructions.Staking.{unstake, stake_accounts, staker_account}
use mm_staking.Instructions.EmergencyWithdraw.{emergency_withdraw}
use mm_staking.Solvency.Fits.{InRange}
use mm_staking.Custody.Starting.{get_elem?-empty}
use mm_staking.Program.Exit.{Reachable-exit}
use mm_staking.Program.Unstaking.{Reachable-unstake}
use mm_staking.Tests.Demo.{world_e, slot_with, staker_with, leaves, flees}
use mm_staking.Tests.History.{reach_e}

passes_pool : Runtime.pool_account toy world_e 1050 5 ≡ ok tt
unfolding Runtime.pool_account toy_address
passes_pool = refl

passes_staker :
    staker_account toy world_e 3 1050 10501033 ≡ ok (staker_with 100 5_000_000_000_000 0)
unfolding staker_account toy_address
passes_staker = refl

passes_accounts : stake_accounts toy world_e 3 5 31 11501 ≡ ok tt
unfolding stake_accounts Runtime.token_account
passes_accounts = refl

Reachable-exit_example :
    (w' : World toy) × (s' : StakerAccount) × (emergency_withdraw toy world_e flees ≡ ok w')
    × (balance toy w'.bank 31 ≡ 1000)
    × (lookup 10501033 w'.stakers ≡ some s')
    × (s'.staked_amount ≡ 0)
Reachable-exit_example =
    Reachable-exit toy toy-TokenLaws toy-TransferSucceeds world_e (pos 70) reach_e flees
      (staker_with 100 5_000_000_000_000 0) (record { mint = 5; owner = 3; amount = 900 })
      (record { mint = 5; owner = 1050; amount = 100 }) passes_pool passes_staker passes_accounts
      (omega arith) refl refl refl (omega arith) (omega arith)

in_range : InRange (slot_with 10_000_000_000_000 5_000_000_000_000 120 70) (pos 90)
unfolding ◌+ℤ◌ span
in_range = record {
  past = omega arith;
  running = omega arith;
  room = omega arith;
  stored = omega arith;
}

ranges :
    (i : ℕ) (slot : RewardInfo)
    → get_elem? world_e.pool.rewards i ≡ some slot
    → slot.mint ≢ default_key
    → InRange slot (pos 90) × (balance toy world_e.bank slot.vault < u64_limit)
ranges zero slot at named =
    subst (λ s. InRange s (pos 90) × (balance toy world_e.bank s.vault < u64_limit))
      (some-injective at) (in_range, omega arith)
ranges (suc i) slot at named = absurd (named (ap (λ s. s.mint) (get_elem?-empty 7 i slot at)))

Reachable-unstake_example :
    (w' : World toy) × (s' : StakerAccount) × (unstake toy world_e leaves 40 (pos 90) ≡ ok w')
    × (balance toy w'.bank 31 ≡ 940)
    × (lookup 10501033 w'.stakers ≡ some s')
    × (s'.staked_amount ≡ 60)
Reachable-unstake_example =
    Reachable-unstake toy toy-TokenLaws toy-TransferSucceeds world_e (pos 70) (pos 90) reach_e
      (omega arith) (omega arith) ranges leaves 40 (staker_with 100 5_000_000_000_000 0)
      (record { mint = 5; owner = 3; amount = 900 })
      (record { mint = 5; owner = 1050; amount = 100 }) passes_pool passes_staker passes_accounts
      (omega arith) refl refl refl (omega arith) (omega arith) (omega arith)
