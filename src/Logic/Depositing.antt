-- ===== src/Logic/Depositing.antt =====
-- `deposit_rewards` of logic.rs: when it succeeds, and with what.
use mm_staking.Base.{
  ℕ, ◌+◌, ◌-◌, ◌*◌, ◌/◌, ◌<◌, ◌≡◌, ◌≢◌, refl, ap, ◌∙◌, arith, some, zero, suc, List, [], ◌∷◌,
  get_elem?, set, ne→==-false, eq→==, some-injective,
}
use mm_staking.Int.{ℤ, pos, pos_part, span, ◌+ℤ◌, +ℤ_parts, ◌≤ℤ◌, ◌<ℤ◌}
use mm_staking.Word.{u128_limit, i64_limit}
use mm_staking.Word.Laws.{checked_add_i64-fits}
use mm_staking.Outcome.{ok}
use mm_staking.State.{Pubkey, default_key, precision, Pool, RewardInfo}
use mm_staking.Math.Exact.{notify_rate-fits}
use mm_staking.Update.{find_slot}
use mm_staking.Update.Settle.{settled}
use mm_staking.Update.Total.{AllSettle, refreshed, refreshed_all, update_globals-fits}
use mm_staking.Logic.{rerate, deposit_rewards}

-- The slot with the new rate, which streams what was received and what is left.
abbrev pub rerated : RewardInfo → ℕ → ℤ → RewardInfo
rerated slot received now = record slot {
  reward_rate =
      (received * precision + span slot.period_finish now * slot.reward_rate)
      / pos_part slot.duration;
  last_update_time = now;
  period_finish = now +ℤ slot.duration;
}

-- The new rate and the new finish fit their widths.
pub record CanRerate (slot : RewardInfo) (received : ℕ) (now : ℤ) : Type 0 where
  pub lasts : pos 0 <ℤ slot.duration
  pub past : pos 0 ≤ℤ now
  pub finish : now +ℤ slot.duration ≤ℤ pos (i64_limit - 1)
  pub left : span slot.period_finish now < i64_limit
  pub fits : received * precision + span slot.period_finish now * slot.reward_rate < u128_limit

pub rerate-fits :
    (slot : RewardInfo) (received : ℕ) (now : ℤ)
    → CanRerate slot received now
    → rerate slot received now ≡ ok (rerated slot received now)
unfolding rerate
rerate-fits slot received now c =
    rw
      (
        notify_rate-fits received slot.reward_rate now slot.period_finish slot.duration c.lasts
            c.left c.fits,
        checked_add_i64-fits now slot.duration
            (omega (arith, +ℤ_parts now slot.duration, c.lasts, c.past), c.finish),
      )
      refl

-- A slot in an array that was brought up to now.
pub refreshed_all-get :
    (total : ℕ) (now : ℤ) (slots : List RewardInfo) (i : ℕ) (slot : RewardInfo)
    → get_elem? slots i ≡ some slot
    → slot.mint ≢ default_key
    → get_elem? (refreshed_all total now slots) i ≡ some (settled slot total now)
refreshed_all-get total now [] i slot h named = cc
refreshed_all-get total now (s ∷ slots) zero slot h named =
    let is : s ≡ slot = some-injective h in
    ap (λ r. some (refreshed total now r)) is ∙ rw (ne→==-false slot.mint default_key named) refl
refreshed_all-get total now (s ∷ slots) (suc i) slot h named =
    refreshed_all-get total now slots i slot h named

pub deposit_rewards-fits :
    (pool : Pool) (mint : Pubkey) (received : ℕ) (now : ℤ) (i : ℕ) (slot : RewardInfo)
    → find_slot pool mint ≡ some i
    → get_elem? pool.rewards i ≡ some slot
    → slot.mint ≢ default_key
    → slot.active ≡ 1
    → AllSettle now pool.rewards
    → CanRerate (settled slot pool.total_staked now) received now
    → let slots = refreshed_all pool.total_staked now pool.rewards in
      deposit_rewards pool mint received now
      ≡ ok (record pool {
        rewards = set slots i (rerated (settled slot pool.total_staked now) received now);
      })
unfolding deposit_rewards
deposit_rewards-fits pool mint received now i slot found at named active c d =
    rw
      (
        found,
        at,
        eq→== slot.active 1 active,
        update_globals-fits pool now c,
        refreshed_all-get pool.total_staked now pool.rewards i slot at named,
        rerate-fits (settled slot pool.total_staked now) received now d,
      )
      refl
