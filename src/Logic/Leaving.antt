-- ===== src/Logic/Leaving.antt =====
-- `unstake` of logic.rs: when it succeeds, and the pause switch.
use mm_staking.Base.{ℕ, ◌-◌, ◌≤◌, ◌<◌, ◌≡◌, refl, arith, inl, inr}
use mm_staking.Int.{ℤ}
use mm_staking.Outcome.{Result, ok, err, ok-cases}
use mm_staking.State.{Pool, StakerAccount}
use mm_staking.Update.{settle_slots, accrue_entries, update_globals, update_reward}
use mm_staking.Update.Total.{AllSettle, AllAccrue, refreshed_all, credited_all, update_reward-fits}
use mm_staking.Logic.{unstake}

-- `unstake` of a positive amount of no more than the stake, which is no more than the pool's count,
-- succeeds where every registered slot can be settled and what the staker accrues fits its widths;
-- it settles the slots, credits the entries for the stake before the call, and takes the amount off
-- the stake and the count.
pub unstake-fits :
    (pool : Pool) (s : StakerAccount) (amount : ℕ) (now : ℤ)
    → 0 < amount
    → amount ≤ s.staked_amount
    → s.staked_amount ≤ pool.total_staked
    → AllSettle now pool.rewards
    → AllAccrue s.staked_amount (refreshed_all pool.total_staked now pool.rewards) s.entries
    → let slots = refreshed_all pool.total_staked now pool.rewards in
      unstake pool s amount now
      ≡ ok (
        record pool { rewards = slots; total_staked = pool.total_staked - amount },
        record s {
          staked_amount = s.staked_amount - amount;
          entries = credited_all s.staked_amount slots s.entries;
        },
      )
unfolding unstake
unstake-fits pool s amount now positive held counted c d =
    ground (arith, update_reward-fits pool s now c d, positive, held, counted)

-- The pool with the switch set to `p`.
abbrev pub switched : ℕ → Pool × StakerAccount → Pool × StakerAccount
switched p r = (record r.0 { paused = p }, r.1)

abbrev pub switch_result : ℕ → Result (Pool × StakerAccount) → Result (Pool × StakerAccount)
switch_result p (ok r) = ok (switched p r)
switch_result p (err e) = err e

pub update_reward-pause :
    (pool : Pool) (s : StakerAccount) (now : ℤ) (p : ℕ)
    → update_reward (record pool { paused = p }) s now ≡ switch_result p (update_reward pool s now)
unfolding update_reward update_globals
update_reward-pause pool s now p =
    elim (ok-cases (settle_slots pool.rewards pool.total_staked now)) [
      | inl (e, stop) ↦ rw stop refl
      | inr (slots, go) ↦ elim (ok-cases (accrue_entries slots s.staked_amount s.entries)) [
        | inl (e, stop) ↦ rw (go, stop) refl
        | inr (entries, accrues) ↦ rw (go, accrues) refl
      ]
    ]

-- Whatever the pause switch holds, `unstake` gives the same result, a failure included, but for the
-- switch itself.
pub unstake-pause :
    (pool : Pool) (s : StakerAccount) (amount : ℕ) (now : ℤ) (p : ℕ)
    → unstake (record pool { paused = p }) s amount now
      ≡ switch_result p (unstake pool s amount now)
unfolding unstake
unstake-pause pool s amount now p = elim (ok-cases (update_reward pool s now)) [
  | inl (e, stop) ↦ ground (arith, update_reward-pause pool s now p)
  | inr ((q, t), go) ↦ ground (arith, update_reward-pause pool s now p)
]
