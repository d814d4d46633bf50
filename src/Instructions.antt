-- ===== src/Instructions.antt =====
-- The instructions of the program: each account list of instructions/*.rs with its constraints, and
-- the handler behind it.
pub mod InitializePool
pub mod AddReward
pub mod Staking
pub mod DepositRewards
pub mod Claim
pub mod EmergencyWithdraw
pub mod Admin
