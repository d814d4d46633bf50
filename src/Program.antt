-- ===== src/Program.antt =====
-- lib.rs: the instructions of the program, and what happens to its accounts over time.
pub mod Sound
pub mod Owed
pub mod Effects
pub mod Ownership
pub mod Shape
pub mod Ready
pub mod Exit
pub mod Unstaking
pub mod Depositing
pub mod Joining
pub mod Admitting
pub mod Claimable
pub mod Picks
pub mod Rounds
pub mod Claiming
pub mod Payment
pub mod Ledger
pub mod Registry
pub mod Mints
pub mod Counting
pub mod Registering
pub mod Roles
pub mod Pausing
pub mod Identity
pub mod History
pub mod Later
use mm_staking.Base.{ℕ, Bool, List, ◌≡◌, ◌≢◌, some}
use mm_staking.Int.{ℤ, pos, ◌≤ℤ◌}
use mm_staking.Outcome.{Fault, Result, ok, err}
use mm_staking.State.{Pubkey}
use mm_staking.Runtime.{Runtime, World, owner_of}
use mm_staking.Instructions.InitializePool.{InitializePool, initialize_pool}
use mm_staking.Instructions.AddReward.{AddReward, SetRewardActive}
use mm_staking.Instructions.AddReward
use mm_staking.Instructions.Staking.{Stake, Unstake}
use mm_staking.Instructions.Staking
use mm_staking.Instructions.DepositRewards.{DepositRewards}
use mm_staking.Instructions.DepositRewards
use mm_staking.Instructions.Claim.{Claim}
use mm_staking.Instructions.Claim
use mm_staking.Instructions.EmergencyWithdraw.{EmergencyWithdraw}
use mm_staking.Instructions.EmergencyWithdraw
use mm_staking.Instructions.Admin.{AdminOnly}
use mm_staking.Instructions.Admin

-- An instruction on a pool that exists, with its accounts and arguments.
pub data Instruction : Type 0 where
  add_reward : AddReward → ℤ → Instruction
  set_reward_active : SetRewardActive → ℕ → Bool → Instruction
  stake : Stake → ℕ → Instruction
  unstake : Unstake → ℕ → Instruction
  deposit_rewards : DepositRewards → ℕ → Instruction
  claim : Claim → List Pubkey → Instruction
  emergency_withdraw : EmergencyWithdraw → Instruction
  set_paused : AdminOnly → Bool → Instruction
  set_keeper_authority : AdminOnly → Pubkey → Instruction
  set_admin : AdminOnly → Pubkey → Instruction
  set_duration : AdminOnly → ℕ → ℤ → Instruction

-- Who signs.
abbrev pub signer_of : Instruction → Pubkey
signer_of (add_reward a duration) = a.admin
signer_of (set_reward_active a slot active) = a.admin
signer_of (stake a amount) = a.owner
signer_of (unstake a amount) = a.owner
signer_of (deposit_rewards a amount) = a.keeper
signer_of (claim a remaining) = a.owner
signer_of (emergency_withdraw a) = a.owner
signer_of (set_paused a paused) = a.admin
signer_of (set_keeper_authority a keeper) = a.admin
signer_of (set_admin a new_admin) = a.admin
signer_of (set_duration a slot duration) = a.admin

unfoldable pub process : (rt : Runtime) → World rt → Instruction → ℤ → Result (World rt)
process rt w (add_reward a duration) now = AddReward.add_reward rt w a duration now
process rt w (set_reward_active a slot active) now = AddReward.set_reward_active rt w a slot active
process rt w (stake a amount) now = Staking.stake rt w a amount now
process rt w (unstake a amount) now = Staking.unstake rt w a amount now
process rt w (deposit_rewards a amount) now = DepositRewards.deposit_rewards rt w a amount now
process rt w (claim a remaining) now = Claim.claim rt w a remaining now
process rt w (emergency_withdraw a) now = EmergencyWithdraw.emergency_withdraw rt w a
process rt w (set_paused a paused) now = Admin.set_paused rt w a paused
process rt w (set_keeper_authority a keeper) now = Admin.set_keeper_authority rt w a keeper
process rt w (set_admin a new_admin) now = Admin.set_admin rt w a new_admin
process rt w (set_duration a slot duration) now = Admin.set_duration rt w a slot duration

-- What may happen to the accounts of a pool between two times. No one can sign for the pool's own
-- address, and a call that fails leaves everything as it was. Outside the program, a user may send
-- tokens to any account, and may open one.
pub data Step (rt : Runtime) (w : World rt) (clock : ℤ) : World rt → ℤ → Type 0 where
  called :
      (i : Instruction) {now : ℤ} {w' : World rt}
      → clock ≤ℤ now
      → signer_of i ≢ w.pool_key
      → process rt w i now ≡ ok w'
      → Step rt w clock w' now
  failed :
      (i : Instruction) {now : ℤ} (fault : Fault)
      → clock ≤ℤ now
      → process rt w i now ≡ err fault
      → Step rt w clock w now
  sent :
      (user from to authority : Pubkey) (n : ℕ) {bank' : rt.Bank}
      → user ≢ w.pool_key
      → owner_of rt w.bank from ≡ some user
      → rt.transfer w.bank from to authority n ≡ ok bank'
      → Step rt w clock (record w { bank = bank' }) clock
  opened :
      (key mint owner : Pubkey) {bank' : rt.Bank}
      → rt.create w.bank key mint owner ≡ ok bank'
      → Step rt w clock (record w { bank = bank' }) clock

-- The worlds that a pool can be in, each with a time that it was in it.
pub data Reachable (rt : Runtime) : World rt → ℤ → Type 0 where
  initialized :
      (bank : rt.Bank) (a : InitializePool) (default_duration : ℤ) (keeper : Pubkey) {now : ℤ}
      {w : World rt}
      → pos 0 ≤ℤ now
      → initialize_pool rt bank a default_duration keeper ≡ ok w
      → Reachable rt w now
  later :
      {w w' : World rt} {clock now : ℤ}
      → Reachable rt w clock
      → Step rt w clock w' now
      → Reachable rt w' now
