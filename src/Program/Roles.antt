-- ===== src/Program/Roles.antt =====
-- Who may call what.
use mm_staking.Base.{◌≡◌, ◌≢◌, refl, some, none, Option, ne→==-false, some-injective, ◌∙◌}
use mm_staking.Int.{ℤ}
use mm_staking.Outcome.{Fault, StakingError, staking, err}
use mm_staking.State.{Pubkey}
use mm_staking.Runtime.{Runtime, World}
use mm_staking.Instructions.AddReward.{admin_and_pool}
use mm_staking.Instructions.AddReward
use mm_staking.Instructions.DepositRewards.{deposit_accounts}
use mm_staking.Instructions.DepositRewards
use mm_staking.Instructions.Admin.{admin_only}
use mm_staking.Instructions.Admin
use mm_staking.Program.{
  Instruction, add_reward, set_reward_active, stake, unstake, deposit_rewards, claim,
  emergency_withdraw, set_paused, set_keeper_authority, set_admin, set_duration, signer_of, process,
}

-- The one key that may sign an instruction, for those that only the admin or the keeper may call.
abbrev pub authority_of : (rt : Runtime) → World rt → Instruction → Option Pubkey
authority_of rt w (add_reward a duration) = some w.pool.admin
authority_of rt w (set_reward_active a slot active) = some w.pool.admin
authority_of rt w (stake a amount) = none
authority_of rt w (unstake a amount) = none
authority_of rt w (deposit_rewards a amount) = some w.pool.keeper_authority
authority_of rt w (claim a remaining) = none
authority_of rt w (emergency_withdraw a) = none
authority_of rt w (set_paused a paused) = some w.pool.admin
authority_of rt w (set_keeper_authority a keeper) = some w.pool.admin
authority_of rt w (set_admin a new_admin) = some w.pool.admin
authority_of rt w (set_duration a slot duration) = some w.pool.admin

-- An instruction that only the admin may call fails when another key signs it, and so does a
-- deposit that another key than the keeper's signs.
pub process-unauthorized :
    (rt : Runtime) (w : World rt) (i : Instruction) (now : ℤ) (key : Pubkey)
    → authority_of rt w i ≡ some key
    → signer_of i ≢ key
    → (fault : Fault) × (process rt w i now ≡ err fault)
unfolding process AddReward.add_reward AddReward.set_reward_active admin_and_pool
    DepositRewards.deposit_rewards deposit_accounts admin_only Admin.set_paused
    Admin.set_keeper_authority Admin.set_admin Admin.set_duration
process-unauthorized rt w (add_reward a duration) now key h ne = (
  staking StakingError.unauthorized,
  rw (ne→==-false a.admin w.pool.admin (λ e. ne (e ∙ some-injective h))) refl,
)
process-unauthorized rt w (set_reward_active a slot active) now key h ne = (
  staking StakingError.unauthorized,
  rw (ne→==-false a.admin w.pool.admin (λ e. ne (e ∙ some-injective h))) refl,
)
process-unauthorized rt w (stake a amount) now key h ne = absurd (cc)
process-unauthorized rt w (unstake a amount) now key h ne = absurd (cc)
process-unauthorized rt w (deposit_rewards a amount) now key h ne = (
  staking StakingError.unauthorized,
  rw (ne→==-false a.keeper w.pool.keeper_authority (λ e. ne (e ∙ some-injective h))) refl,
)
process-unauthorized rt w (claim a remaining) now key h ne = absurd (cc)
process-unauthorized rt w (emergency_withdraw a) now key h ne = absurd (cc)
process-unauthorized rt w (set_paused a paused) now key h ne = (
  staking StakingError.unauthorized,
  rw (ne→==-false a.admin w.pool.admin (λ e. ne (e ∙ some-injective h))) refl,
)
process-unauthorized rt w (set_keeper_authority a keeper) now key h ne = (
  staking StakingError.unauthorized,
  rw (ne→==-false a.admin w.pool.admin (λ e. ne (e ∙ some-injective h))) refl,
)
process-unauthorized rt w (set_admin a new_admin) now key h ne = (
  staking StakingError.unauthorized,
  rw (ne→==-false a.admin w.pool.admin (λ e. ne (e ∙ some-injective h))) refl,
)
process-unauthorized rt w (set_duration a slot duration) now key h ne = (
  staking StakingError.unauthorized,
  rw (ne→==-false a.admin w.pool.admin (λ e. ne (e ∙ some-injective h))) refl,
)
