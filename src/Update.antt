-- ===== src/Update.antt =====
-- update.rs: settling the slots of a pool and the entries of a staker up to now.
pub mod Settle
pub mod Fits
pub mod PerSlot
pub mod Lengths
pub mod Again
pub mod Total
pub mod Steps
use mm_staking.Base.{ℕ, ◌&&◌, Option, List, [], ◌∷◌, ltb, ◌==◌, if◌then◌else◌, find_index}
use mm_staking.Int.{ℤ, min_ℤ, ltb_ℤ}
use mm_staking.Word.{checked_add_i64, sub_i64}
use mm_staking.Outcome.{StakingError, Result, ok, err, panicked, ◌>>=◌, ok_or, or_panic}
use mm_staking.State.{Pubkey, default_key, RewardInfo, RewardEntry, Pool, StakerAccount}
use mm_staking.Math.{accrue_rpt, earned}

unfoldable pub settle_slot : RewardInfo → ℕ → ℤ → Result RewardInfo
settle_slot slot total_staked now =
    let applicable = min_ℤ now slot.period_finish in
    if ltb 0 total_staked
    then (if ltb_ℤ slot.last_update_time applicable
        then (do
          elapsed ← or_panic (sub_i64 applicable slot.last_update_time)
          rpt ← accrue_rpt slot.reward_per_token_stored elapsed slot.reward_rate total_staked
          ok (record slot { reward_per_token_stored = rpt; last_update_time = now }))
        else ok (record slot { last_update_time = now }))
    else (if ltb_ℤ now slot.period_finish && ltb_ℤ slot.last_update_time now
        then (do
          gap ← or_panic (sub_i64 now slot.last_update_time)
          finish ← ok_or (checked_add_i64 slot.period_finish gap) StakingError.math_overflow
          ok (record slot { period_finish = finish; last_update_time = now }))
        else ok (record slot { last_update_time = now }))

-- One round of the first loop of `update_reward`: an empty slot is passed over.
unfoldable pub settle_round : RewardInfo → ℕ → ℤ → Result RewardInfo
settle_round slot total_staked now =
    if slot.mint == default_key then ok slot else settle_slot slot total_staked now

unfoldable pub settle_slots : List RewardInfo → ℕ → ℤ → Result (List RewardInfo)
settle_slots [] total_staked now = ok []
settle_slots (slot ∷ slots) total_staked now = do
  slot' ← settle_round slot total_staked now
  slots' ← settle_slots slots total_staked now
  ok (slot' ∷ slots')

-- One round of the second loop.
unfoldable pub accrue_round : RewardInfo → ℕ → RewardEntry → Result RewardEntry
accrue_round slot staked entry = if slot.mint == default_key then ok entry else do
  let rpt = slot.reward_per_token_stored
  accrued ← earned staked rpt entry.reward_per_token_paid entry.rewards_accrued
  ok (record { reward_per_token_paid = rpt; rewards_accrued = accrued })

-- The two arrays have one length by their types; an index that is missing would panic.
unfoldable pub accrue_entries : List RewardInfo → ℕ → List RewardEntry → Result (List RewardEntry)
accrue_entries [] staked [] = ok []
accrue_entries (slot ∷ slots) staked (entry ∷ entries) = do
  entry' ← accrue_round slot staked entry
  entries' ← accrue_entries slots staked entries
  ok (entry' ∷ entries')
accrue_entries _ staked _ = err panicked

-- `update_reward(pool, None, now)`.
unfoldable pub update_globals : Pool → ℤ → Result Pool
update_globals pool now = do
  rewards ← settle_slots pool.rewards pool.total_staked now
  ok (record pool { rewards = rewards })

-- `update_reward(pool, Some(staker), now)`.
unfoldable pub update_reward : Pool → StakerAccount → ℤ → Result (Pool × StakerAccount)
update_reward pool staker now = do
  pool' ← update_globals pool now
  entries ← accrue_entries pool'.rewards staker.staked_amount staker.entries
  ok (pool', record staker { entries = entries })

unfoldable pub find_slot : Pool → Pubkey → Option ℕ
find_slot pool mint = find_index (λ slot. slot.mint == mint) pool.rewards
