-- ===== src/Logic/RoundTrip.antt =====
-- Staking and leaving again at the same time.
use mm_staking.Base.{ℕ, ◌+◌, ◌<◌, ◌≡◌, refl, sym, ap, subst, arith}
use mm_staking.Int.{ℤ}
use mm_staking.Outcome.{ok}
use mm_staking.State.{Pubkey, Pool, StakerAccount}
use mm_staking.Logic.{stake, unstake, init_staker}
use mm_staking.Update.Again.{update_reward-again}
use mm_staking.Update.{update_reward}
use mm_staking.Solvency.Principal.{stake-parts, init_staker-keeps}
use mm_staking.Custody.Staking.{update_reward-labels}

-- After a `stake` that succeeds, `unstake` of the same amount at the same time succeeds; the pool's
-- count and the stake are again what they were before the two, and the second call changes neither
-- the slots nor the entries, so that a stake that is held for no time earns nothing.
pub stake-unstake :
    (pool : Pool) (s : StakerAccount) (owner pool_key : Pubkey) (bump amount : ℕ) (now : ℤ)
    (pool' : Pool) (s' : StakerAccount)
    → stake pool s owner pool_key bump amount now ≡ ok (pool', s')
    → (pool'' : Pool) × (s'' : StakerAccount) × (unstake pool' s' amount now ≡ ok (pool'', s''))
      × (pool''.total_staked ≡ pool.total_staked)
      × (s''.staked_amount ≡ s.staked_amount)
      × (pool''.rewards ≡ pool'.rewards)
      × (s''.entries ≡ s'.entries)
unfolding unstake
stake-unstake pool s owner pool_key bump amount now pool' s' h =
    let (p, t, go, e, f) = stake-parts pool s owner pool_key bump amount now pool' s' h in
    let (l, total, staked) =
      update_reward-labels pool (init_staker s owner pool_key bump) now p t go in
    let (staked', entries) = init_staker-keeps s owner pool_key bump in
    let positive : 0 < amount = unfold stake in ground arith in
    let again =
      update_reward-again pool (init_staker s owner pool_key bump) now p t (p.total_staked + amount)
        (t.staked_amount + amount) go in
    let again' : update_reward pool' s' now ≡ ok (pool', s') =
      subst (λ q. update_reward q s' now ≡ ok (q, s')) (sym e)
        (subst
          (λ q.
            update_reward (record p { total_staked = p.total_staked + amount }) q now
            ≡ ok (record p { total_staked = p.total_staked + amount }, q))
          (sym f) again) in
    (
      record pool' { total_staked = pool.total_staked },
      record s' { staked_amount = s.staked_amount },
      ground (
        arith,
        again',
        total,
        staked,
        staked',
        positive,
        ap (λ q. q.total_staked) e,
        ap (λ q. q.staked_amount) f,
      ),
      refl,
      refl,
      refl,
      refl,
    )
