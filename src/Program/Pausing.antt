-- ===== src/Program/Pausing.antt =====
-- The pause switch over the instructions.
use mm_staking.Base.{ℕ, ◌-◌, ◌≡◌, refl, ap, arith, inl, inr, List, [], ◌∷◌, Bool}
use mathlib.Core.Path.{fun_ext}
use mm_staking.Int.{ℤ}
use mm_staking.Outcome.{ok-cases, Result, ok, err, ◌>>=◌}
use mm_staking.State.{Pubkey, Pool, StakerAccount}
use mm_staking.Update.{update_globals, update_reward, find_slot}
use mm_staking.Logic
use mm_staking.Logic.{registered_slot}
use mm_staking.Logic.Leaving.{switched, switch_result, update_reward-pause, unstake-pause}
use mm_staking.Runtime.{Runtime, World, balance, pool_account}
use mm_staking.Instructions.AddReward.{admin_and_pool}
use mm_staking.Instructions.AddReward
use mm_staking.Instructions.Staking.{staker_account, stake_accounts}
use mm_staking.Instructions.Staking
use mm_staking.Instructions.DepositRewards.{deposit_accounts, find_reward_vault}
use mm_staking.Instructions.DepositRewards
use mm_staking.Instructions.Claim.{Claim, claim_round, claim_loop}
use mm_staking.Instructions.Claim
use mm_staking.Instructions.EmergencyWithdraw
use mm_staking.Instructions.Admin.{AdminOnly, admin_only, with_pool}
use mm_staking.Instructions.Admin
use mm_staking.Program.{
  Instruction, add_reward, set_reward_active, stake, unstake, deposit_rewards, claim,
  emergency_withdraw, set_paused, set_keeper_authority, set_admin, set_duration, process,
}

module _ {ℓ κ} {A : Type ℓ} {B : Type κ} where
  abbrev pub map_result : (A → B) → Result A → Result B
  map_result f (ok a) = ok (f a)
  map_result f (err fault) = err fault

abbrev pub set_switch : ℕ → Pool → Pool
set_switch p pool = record pool { paused = p }

-- A world with the pause switch set to `p`.
abbrev pub with_switch : (rt : Runtime) → ℕ → World rt → World rt
with_switch rt p w = record w { pool = set_switch p w.pool }

-- `stake` reads the switch, and `set_paused` writes it.
abbrev pub IgnoresSwitch : Instruction → Type 0
IgnoresSwitch (add_reward a duration) = Unit
IgnoresSwitch (set_reward_active a slot active) = Unit
IgnoresSwitch (stake a amount) = ⊥
IgnoresSwitch (unstake a amount) = Unit
IgnoresSwitch (deposit_rewards a amount) = Unit
IgnoresSwitch (claim a remaining) = Unit
IgnoresSwitch (emergency_withdraw a) = Unit
IgnoresSwitch (set_paused a paused) = ⊥
IgnoresSwitch (set_keeper_authority a keeper) = Unit
IgnoresSwitch (set_admin a new_admin) = Unit
IgnoresSwitch (set_duration a slot duration) = Unit

-- `switch_result` is a map.
switch_result-map :
    (p : ℕ) (r : Result (Pool × StakerAccount)) → switch_result p r ≡ map_result (switched p) r
switch_result-map p (ok r) = refl
switch_result-map p (err fault) = refl

module _ (p : ℕ) (pool : Pool) where
  add_reward-pause :
      (mint vault : Pubkey) (duration now : ℤ)
      → Logic.add_reward (set_switch p pool) mint vault duration now
        ≡ map_result (set_switch p) (Logic.add_reward pool mint vault duration now)
  unfolding Logic.add_reward find_slot
  add_reward-pause mint vault duration now = ground arith

  set_reward_active-pause :
      (i : ℕ) (active : Bool)
      → Logic.set_reward_active (set_switch p pool) i active
        ≡ map_result (set_switch p) (Logic.set_reward_active pool i active)
  unfolding Logic.set_reward_active registered_slot
  set_reward_active-pause i active = ground arith

  set_duration-pause :
      (i : ℕ) (duration : ℤ)
      → Logic.set_duration (set_switch p pool) i duration
        ≡ map_result (set_switch p) (Logic.set_duration pool i duration)
  unfolding Logic.set_duration registered_slot
  set_duration-pause i duration = ground arith

  deposit_rewards-pause :
      (mint : Pubkey) (received : ℕ) (now : ℤ)
      → Logic.deposit_rewards (set_switch p pool) mint received now
        ≡ map_result (set_switch p) (Logic.deposit_rewards pool mint received now)
  unfolding Logic.deposit_rewards find_slot update_globals
  deposit_rewards-pause mint received now = ground arith

  emergency_withdraw-pause :
      (s : StakerAccount)
      → Logic.emergency_withdraw (set_switch p pool) s
        ≡ map_result
            (λ (r : ℕ × Pool × StakerAccount). (r.0, set_switch p r.1, r.2))
            (Logic.emergency_withdraw pool s)
  unfolding Logic.emergency_withdraw
  emergency_withdraw-pause s = ground arith

module _ (rt : Runtime) (p : ℕ) where
  claim_loop-pause :
      (pool : Pool) (a : Claim) (pairs : List Pubkey) (state : StakerAccount × rt.Bank)
      → claim_loop rt (set_switch p pool) a pairs state ≡ claim_loop rt pool a pairs state
  unfolding claim_loop claim_round Logic.claim_take_slot
  claim_loop-pause pool a [] state = refl
  claim_loop-pause pool a (vault_ai ∷ []) state = refl
  claim_loop-pause pool a (vault_ai ∷ user_ai ∷ rest) state =
      ap (λ k. claim_round rt pool a vault_ai user_ai state >>= k)
        (fun_ext (λ next. claim_loop-pause pool a rest next))

  module _ (w : World rt) (now : ℤ) where
    with_pool-pause :
        (a : AdminOnly) (r r' : Result Pool)
        → r' ≡ map_result (set_switch p) r
        → (admin_only rt (with_switch rt p w) a >>= λ u. with_pool rt (with_switch rt p w) r')
          ≡ map_result (with_switch rt p) (admin_only rt w a >>= λ u. with_pool rt w r)
    unfolding admin_only pool_account
    with_pool-pause a r r' e = ground (arith, e)

    -- Every instruction but `stake` and `set_paused` has the same outcome whatever the pause switch
    -- holds, a failure included, but for the switch itself, which it leaves as it was.
    pub process-pause :
        (i : Instruction)
        → IgnoresSwitch i
        → process rt (with_switch rt p w) i now ≡ map_result (with_switch rt p) (process rt w i now)
    unfolding process AddReward.add_reward AddReward.set_reward_active admin_and_pool pool_account
        Staking.unstake staker_account stake_accounts DepositRewards.deposit_rewards
        deposit_accounts find_reward_vault find_slot Claim.claim Logic.claim_settle_all
        EmergencyWithdraw.emergency_withdraw Admin.set_keeper_authority Admin.set_admin
        Admin.set_duration Logic.set_keeper_authority Logic.set_admin
    process-pause (add_reward a duration) free =
        ground (arith, add_reward-pause p w.pool a.reward_mint a.reward_vault duration now)
    process-pause (set_reward_active a slot active) free =
        ground (arith, set_reward_active-pause p w.pool slot active)
    process-pause (stake a amount) free = elim free [ ]
    process-pause (unstake a amount) free =
        elim (ok-cases (staker_account rt w a.owner a.pool a.staker)) [
          | inl (fault, stop) ↦ ground arith
          | inr (s, found) ↦ ground (arith, unstake-pause w.pool s amount now p)
        ]
    process-pause (deposit_rewards a amount) free =
        let paid = rt.transfer w.bank a.keeper_token_account a.reward_vault a.keeper amount in
        elim (ok-cases paid) [
          | inl (fault, stop) ↦ ground arith
          | inr (bank', go) ↦ ground (
            arith,
            deposit_rewards-pause p w.pool a.reward_mint
                (balance rt bank' a.reward_vault - balance rt w.bank a.reward_vault) now,
          )
        ]
    process-pause (claim a remaining) free =
        elim (ok-cases (staker_account rt w a.owner a.pool a.staker)) [
          | inl (fault, stop) ↦ ground arith
          | inr (s, found) ↦ elim (ok-cases (update_reward w.pool s now)) [
            | inl (fault, stop) ↦ ground (arith, update_reward-pause w.pool s now p)
            | inr ((q, t), go) ↦ ground (
              arith,
              update_reward-pause w.pool s now p,
              claim_loop-pause q a remaining (t, w.bank),
            )
          ]
        ]
    process-pause (emergency_withdraw a) free =
        elim (ok-cases (staker_account rt w a.owner a.pool a.staker)) [
          | inl (fault, stop) ↦ ground arith
          | inr (s, found) ↦ ground (arith, emergency_withdraw-pause p w.pool s)
        ]
    process-pause (set_paused a paused) free = elim free [ ]
    process-pause (set_keeper_authority a keeper) free =
        with_pool-pause a (Logic.set_keeper_authority w.pool keeper)
          (Logic.set_keeper_authority (set_switch p w.pool) keeper) refl
    process-pause (set_admin a new_admin) free =
        with_pool-pause a (Logic.set_admin w.pool new_admin)
          (Logic.set_admin (set_switch p w.pool) new_admin) refl
    process-pause (set_duration a slot duration) free =
        with_pool-pause a (Logic.set_duration w.pool slot duration)
          (Logic.set_duration (set_switch p w.pool) slot duration)
          (set_duration-pause p w.pool slot duration)
