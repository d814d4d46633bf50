-- ===== src/Program/Admitting.antt =====
-- When `stake` of logic.rs succeeds in the worlds that a pool can reach.
use mm_staking.Base.{
  ℕ, ◌+◌, ◌-◌, ◌<◌, ◌≡◌, ◌≢◌, ◌↔◌, refl, sym, arith, some, get_elem?, lookup, value_or,
  total_of-value_le, subst,
}
use mm_staking.Int.{ℤ, pos, ◌≤ℤ◌}
use mm_staking.Word.{u64_limit, i64_limit}
use mm_staking.Outcome.{ok}
use mm_staking.State.{Pubkey, default_key, Pool, RewardInfo, StakerAccount, zeroed_staker}
use mm_staking.Update.Total.{AllAccrue, refreshed_all, update_reward-fits}
use mm_staking.Logic
use mm_staking.Logic.{init_staker}
use mm_staking.Logic.Ordering.{stake-guards}
use mm_staking.Logic.Staking.{stake-fits}
use mm_staking.Solvency.{stake_of}
use mm_staking.Solvency.Principal.{init_staker-keeps}
use mm_staking.Solvency.Fits.{InRange}
use mm_staking.Runtime.{Runtime, World, TokenLaws, balance}
use mm_staking.Program.{Reachable}
use mm_staking.Program.Ready.{Reachable-AllSettle, Reachable-AllAccrue_or}
use mm_staking.Program.Sound.{Reachable-WorldSound}

-- In a world that a pool can reach, `stake` of logic.rs succeeds, for the staker at any address, a
-- new one included, if and only if the amount is positive, the pool is not paused and its count has
-- room for the amount in 64 bits; no settlement and no staker's own stake stands in the way. This
-- is where the clock has not gone back and the times of the registered slots and their stored
-- rewards per token leave room in their widths, their vaults hold less than 2^64, and the token
-- program has the laws.
pub Reachable-stake_iff :
    (rt : Runtime) (laws : TokenLaws rt) (w : World rt) (clock now : ℤ)
    → Reachable rt w clock
    → clock ≤ℤ now
    → now ≤ℤ pos (i64_limit - 1)
    → ((i : ℕ) (slot : RewardInfo)
        → get_elem? w.pool.rewards i ≡ some slot
        → slot.mint ≢ default_key
        → InRange slot now × (balance rt w.bank slot.vault < u64_limit))
    → (key owner : Pubkey) (bump amount : ℕ)
    → let old = value_or zeroed_staker (lookup key w.stakers) in
      ((p : Pool) × (t : StakerAccount) × (Logic.stake w.pool old owner w.pool_key bump amount now
          ≡ ok (p, t)))
      ↔ ((0 < amount) × (w.pool.paused ≡ 0) × (w.pool.total_staked + amount < u64_limit))
Reachable-stake_iff rt laws w clock now r later_on clock_range ranges key owner bump amount =
    let v = Reachable-WorldSound rt laws w clock r in
    let old = value_or zeroed_staker (lookup key w.stakers) in
    let t = init_staker old owner w.pool_key bump in
    let (staked, entries) = init_staker-keeps old owner w.pool_key bump in
    let slots = refreshed_all w.pool.total_staked now w.pool.rewards in
    let settles = Reachable-AllSettle rt laws w clock now r later_on clock_range ranges in
    let accrues : AllAccrue t.staked_amount slots t.entries =
      subst (λ e. AllAccrue t.staked_amount slots e) (sym entries)
        (subst (λ n. AllAccrue n slots old.entries) (sym staked)
          (Reachable-AllAccrue_or rt laws w clock now r later_on clock_range ranges key)) in
    let update = update_reward-fits w.pool t now settles accrues in
    (
      λ (p, s, h).
          let (positive, unpaused, room, total_room) =
            stake-guards w.pool old owner w.pool_key bump amount now _ _ p s h update in
          (positive, unpaused, total_room),
      λ (positive, unpaused, total_room). (
        _,
        _,
        stake-fits w.pool old owner w.pool_key bump amount now positive unpaused settles accrues
            (omega (
              arith,
              staked,
              v.pooled.counted,
              total_of-value_le stake_of zeroed_staker key w.stakers refl,
              total_room,
            ))
            total_room,
      ),
    )
