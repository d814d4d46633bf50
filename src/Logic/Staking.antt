-- ===== src/Logic/Staking.antt =====
-- `stake` of logic.rs: when it succeeds, and with what.
use mm_staking.Base.{ℕ, ◌+◌, ◌<◌, ◌≡◌, refl, lt→ltb, eq→==}
use mm_staking.Int.{ℤ}
use mm_staking.Word.{u64_limit}
use mm_staking.Outcome.{ok}
use mm_staking.State.{Pubkey, Pool, StakerAccount}
use mm_staking.Update.Total.{AllSettle, AllAccrue, refreshed_all, credited_all, update_reward-fits}
use mm_staking.Logic.{init_staker, stake}

pub stake-fits :
    (pool : Pool) (s : StakerAccount) (owner pool_key : Pubkey) (bump amount : ℕ) (now : ℤ)
    → 0 < amount
    → pool.paused ≡ 0
    → AllSettle now pool.rewards
    → let t = init_staker s owner pool_key bump in
      AllAccrue t.staked_amount (refreshed_all pool.total_staked now pool.rewards) t.entries
      → t.staked_amount + amount < u64_limit
      → pool.total_staked + amount < u64_limit
      → let slots = refreshed_all pool.total_staked now pool.rewards in
        stake pool s owner pool_key bump amount now
        ≡ ok (
          record pool { rewards = slots; total_staked = pool.total_staked + amount },
          record t {
            staked_amount = t.staked_amount + amount;
            entries = credited_all t.staked_amount slots t.entries;
          },
        )
unfolding stake
stake-fits pool s owner pool_key bump amount now positive unpaused c d room total_room =
    let t = init_staker s owner pool_key bump in
    rw
      (
        lt→ltb 0 amount positive,
        eq→== pool.paused 0 unpaused,
        update_reward-fits pool t now c d,
        lt→ltb (t.staked_amount + amount) u64_limit room,
        lt→ltb (pool.total_staked + amount) u64_limit total_room,
      )
      refl
