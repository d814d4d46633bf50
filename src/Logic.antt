-- ===== src/Logic.antt =====
-- logic.rs: the instructions on a pool and a staker, without accounts and tokens.
pub mod Emergency
pub mod RoundTrip
pub mod Taking
pub mod ProRata
pub mod Ordering
pub mod Rerating
pub mod Leaving
pub mod Registering
pub mod Depositing
pub mod Staking
use mm_staking.Base.{
  ℕ, not, Bool, Option, List, ltb, leb, ◌==◌, if◌then◌else◌, find_index, get_elem?, set, [], ◌∷◌,
  is_none,
}
use mm_staking.Int.{ℤ, pos, ltb_ℤ}
use mm_staking.Word.{u8_limit, u64_limit, checked_add, checked_sub, saturating_sub, checked_add_i64}
use mm_staking.Outcome.{
  StakingError, Fault, Result, ok, err, panicked, ◌>>=◌, ◌>>◌, require, ok_or, or_panic,
}
use mm_staking.State.{
  Pubkey, default_key, max_rewards, RewardInfo, RewardEntry, Pool, StakerAccount,
}
use mm_staking.Math.{notify_rate}
use mm_staking.Update.{update_globals, update_reward, find_slot}

unfoldable pub init_pool : Pool → Pubkey → Pubkey → Pubkey → Pubkey → ℤ → ℕ → Result Pool
init_pool pool admin keeper stake_mint stake_vault default_duration bump = do
  require (ltb_ℤ (pos 0) default_duration) StakingError.invalid_duration
  ok (record pool {
    admin = admin;
    keeper_authority = keeper;
    stake_mint = stake_mint;
    stake_vault = stake_vault;
    total_staked = 0;
    default_duration = default_duration;
    reward_count = 0;
    paused = 0;
    bump = bump;
  })

-- What `add_reward` writes to the slot that it takes.
unfoldable pub new_slot : Pubkey → Pubkey → ℤ → ℤ → RewardInfo
new_slot mint vault duration now = record {
  mint = mint;
  vault = vault;
  reward_rate = 0;
  reward_per_token_stored = 0;
  period_finish = pos 0;
  last_update_time = now;
  duration = duration;
  active = 1;
}

unfoldable pub add_reward : Pool → Pubkey → Pubkey → ℤ → ℤ → Result Pool
unfolding new_slot
add_reward pool mint vault duration_arg now = do
  require (is_none (find_slot pool mint)) StakingError.reward_already_exists
  let duration = if ltb_ℤ (pos 0) duration_arg then duration_arg else pool.default_duration
  let free = find_index (λ slot. slot.mint == default_key) pool.rewards
  idx ← ok_or free StakingError.reward_slots_full
  count ← ok_or (checked_add u8_limit pool.reward_count 1) StakingError.math_overflow
  ok (record pool {
    rewards = set pool.rewards idx (new_slot mint vault duration now);
    reward_count = count;
  })

-- `i < MAX_REWARDS && pool.rewards[i].mint != Pubkey::default()`, then the slot at `i`.
unfoldable pub registered_slot : Pool → ℕ → Result RewardInfo
registered_slot pool i =
    if ltb i max_rewards
    then (do
      slot ← or_panic (get_elem? pool.rewards i)
      require (not (slot.mint == default_key)) StakingError.reward_not_found
      ok slot)
    else err (Fault.staking StakingError.reward_not_found)

unfoldable pub set_reward_active : Pool → ℕ → Bool → Result Pool
unfolding registered_slot
set_reward_active pool i active = do
  slot ← registered_slot pool i
  ok (record pool {
    rewards = set pool.rewards i (record slot { active = if active then 1 else 0 });
  })

-- The first lines of `stake`: a staker account with no owner yet is claimed.
unfoldable pub init_staker : StakerAccount → Pubkey → Pubkey → ℕ → StakerAccount
init_staker staker owner pool_key staker_bump =
    if staker.owner == default_key
    then record staker { owner = owner; pool = pool_key; bump = staker_bump }
    else staker

unfoldable pub stake :
    Pool → StakerAccount → Pubkey → Pubkey → ℕ → ℕ → ℤ → Result (Pool × StakerAccount)
unfolding init_staker
stake pool staker owner pool_key staker_bump amount now = do
  require (ltb 0 amount) StakingError.zero_amount
  require (pool.paused == 0) StakingError.paused
  (pool', staker') ← update_reward pool (init_staker staker owner pool_key staker_bump) now
  staked ← ok_or (checked_add u64_limit staker'.staked_amount amount) StakingError.math_overflow
  total ← ok_or (checked_add u64_limit pool'.total_staked amount) StakingError.math_overflow
  ok (record pool' { total_staked = total }, record staker' { staked_amount = staked })

-- The subtractions panic where they would wrap.
unfoldable pub unstake : Pool → StakerAccount → ℕ → ℤ → Result (Pool × StakerAccount)
unstake pool staker amount now = do
  require (ltb 0 amount) StakingError.zero_amount
  require (leb amount staker.staked_amount) StakingError.insufficient_stake
  (pool', staker') ← update_reward pool staker now
  staked ← or_panic (checked_sub staker'.staked_amount amount)
  total ← or_panic (checked_sub pool'.total_staked amount)
  ok (record pool' { total_staked = total }, record staker' { staked_amount = staked })

-- The last lines of `deposit_rewards`, on the slot after the settlement.
unfoldable pub rerate : RewardInfo → ℕ → ℤ → Result RewardInfo
rerate slot received now = do
  new_rate ← notify_rate received slot.reward_rate now slot.period_finish slot.duration
  finish ← ok_or (checked_add_i64 now slot.duration) StakingError.math_overflow
  ok (record slot { reward_rate = new_rate; last_update_time = now; period_finish = finish })

unfoldable pub deposit_rewards : Pool → Pubkey → ℕ → ℤ → Result Pool
deposit_rewards pool mint received now = do
  i ← ok_or (find_slot pool mint) StakingError.reward_not_found
  slot ← or_panic (get_elem? pool.rewards i)
  require (slot.active == 1) StakingError.reward_inactive
  pool' ← update_globals pool now
  slot' ← or_panic (get_elem? pool'.rewards i)
  slot'' ← rerate slot' received now
  ok (record pool' { rewards = set pool'.rewards i slot'' })

-- The loop of `emergency_withdraw` over the entries of the two arrays.
unfoldable pub forfeit : List RewardInfo → List RewardEntry → Result (List RewardEntry)
forfeit [] [] = ok []
forfeit (slot ∷ slots) (entry ∷ entries) = do
  entries' ← forfeit slots entries
  ok (
      record { reward_per_token_paid = slot.reward_per_token_stored; rewards_accrued = 0 }
      ∷ entries')
forfeit _ _ = err panicked

unfoldable pub emergency_withdraw : Pool → StakerAccount → Result (ℕ × Pool × StakerAccount)
emergency_withdraw pool staker = do
  let amt = staker.staked_amount
  entries ← forfeit pool.rewards staker.entries
  ok (
    amt,
    record pool { total_staked = saturating_sub pool.total_staked amt },
    record staker { staked_amount = 0; entries = entries },
  )

unfoldable pub set_paused : Pool → Bool → Result Pool
set_paused pool paused = ok (record pool { paused = if paused then 1 else 0 })

unfoldable pub set_keeper_authority : Pool → Pubkey → Result Pool
set_keeper_authority pool keeper = ok (record pool { keeper_authority = keeper })

unfoldable pub set_admin : Pool → Pubkey → Result Pool
set_admin pool new_admin = ok (record pool { admin = new_admin })

unfoldable pub set_duration : Pool → ℕ → ℤ → Result Pool
unfolding registered_slot
set_duration pool i duration = do
  require (ltb_ℤ (pos 0) duration) StakingError.invalid_duration
  slot ← registered_slot pool i
  ok (record pool { rewards = set pool.rewards i (record slot { duration = duration }) })

unfoldable pub claim_settle_all : Pool → StakerAccount → ℤ → Result (Pool × StakerAccount)
claim_settle_all pool staker now = update_reward pool staker now

unfoldable pub claim_take_slot : Pool → StakerAccount → Pubkey → Result (ℕ × ℕ × StakerAccount)
claim_take_slot pool staker vault_key = do
  idx ←
      ok_or (find_index (λ slot. slot.vault == vault_key) pool.rewards) StakingError.vault_mismatch
  entry ← or_panic (get_elem? staker.entries idx)
  ok (
    idx,
    entry.rewards_accrued,
    record staker { entries = set staker.entries idx (record entry { rewards_accrued = 0 }) },
  )
