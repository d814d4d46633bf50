-- ===== src/Solvency/Principal.antt =====
-- `stake`, `unstake` and `claim_settle_all` of logic.rs and the soundness of a pool.
use mm_staking.Base.{
  ℕ, ◌+◌, ◌-◌, ◌≤◌, ◌≡◌, refl, ap, ◌∙◌, sym, inl, inr, arith, lookup, insert, value_or, subst,
}
use mm_staking.Int.{ℤ, ◌≤ℤ◌}
use mm_staking.Outcome.{ok, ok-cases}
use mm_staking.State.{Pubkey, Pool, StakerAccount, zeroed_staker}
use mm_staking.Update.{update_reward}
use mm_staking.Logic.{init_staker, stake, unstake, claim_settle_all}
use mm_staking.Solvency.{Stakers, PoolSound}
use mm_staking.Solvency.Pooled.{update_reward-parts, update_globals-PoolSound, write-PoolSound}

pub init_staker-keeps :
    (s : StakerAccount) (owner pool_key : Pubkey) (bump : ℕ)
    → ((init_staker s owner pool_key bump).staked_amount ≡ s.staked_amount)
      × ((init_staker s owner pool_key bump).entries ≡ s.entries)
unfolding init_staker
init_staker-keeps s owner pool_key bump = ground arith

-- What a successful `stake` did: an update, then both counts go up by the amount.
pub stake-parts :
    (pool : Pool) (s : StakerAccount) (owner pool_key : Pubkey) (bump amount : ℕ) (now : ℤ)
    (pool' : Pool) (s' : StakerAccount)
    → stake pool s owner pool_key bump amount now ≡ ok (pool', s')
    → (p : Pool) × (t : StakerAccount) × (update_reward pool (init_staker s owner pool_key bump) now
        ≡ ok (p, t))
      × (pool' ≡ record p { total_staked = p.total_staked + amount })
      × (s' ≡ record t { staked_amount = t.staked_amount + amount })
unfolding stake
stake-parts pool s owner pool_key bump amount now pool' s' h =
    elim (ok-cases (update_reward pool (init_staker s owner pool_key bump) now)) [
      | inl (f, stop) ↦ absurd (ground arith)
      | inr ((p, t), go) ↦ (p, t, go, ground arith, ground arith)
    ]

pub unstake-parts :
    (pool : Pool) (s : StakerAccount) (amount : ℕ) (now : ℤ) (pool' : Pool) (s' : StakerAccount)
    → unstake pool s amount now ≡ ok (pool', s')
    → (p : Pool) × (t : StakerAccount) × (update_reward pool s now ≡ ok (p, t))
      × (amount ≤ t.staked_amount)
      × (amount ≤ p.total_staked)
      × (pool' ≡ record p { total_staked = p.total_staked - amount })
      × (s' ≡ record t { staked_amount = t.staked_amount - amount })
unfolding unstake
unstake-parts pool s amount now pool' s' h = elim (ok-cases (update_reward pool s now)) [
  | inl (f, stop) ↦ absurd (ground arith)
  | inr ((p, t), go) ↦ (p, t, go, ground arith, ground arith, ground arith, ground arith)
]

module _ (pool : Pool) (stakers : Stakers) (clock now : ℤ) (funds : ℕ → ℕ) (key : ℕ)
    (later : clock ≤ℤ now) (v : PoolSound pool stakers clock funds) where
  -- An update on the account at `key`, then a write of its stake.
  update_write :
      (s t s' : StakerAccount) (p : Pool) (total : ℕ)
      → update_reward pool s now ≡ ok (p, t)
      → s.staked_amount ≡ (value_or zeroed_staker (lookup key stakers)).staked_amount
      → s.entries ≡ (value_or zeroed_staker (lookup key stakers)).entries
      → s'.entries ≡ t.entries
      → total + t.staked_amount ≡ p.total_staked + s'.staked_amount
      → PoolSound (record p { total_staked = total }) (insert key s' stakers) now funds
  update_write s t s' p total h staked entries same balance =
      let (globals, accrued, e) = update_reward-parts pool s now p t h in
      write-PoolSound p stakers now funds key total s s'
        (update_globals-PoolSound pool p stakers clock now funds globals later v) staked entries
        (accrued ∙ ap ok (sym same)) (omega (arith, balance, ap (λ a. a.staked_amount) e))

  -- `stake` on the account at `key`, or on a new one, keeps the pool sound.
  pub stake-PoolSound :
      (owner pool_key : Pubkey) (bump amount : ℕ) (pool' : Pool) (s' : StakerAccount)
      → stake pool (value_or zeroed_staker (lookup key stakers)) owner pool_key bump amount now
        ≡ ok (pool', s')
      → PoolSound pool' (insert key s' stakers) now funds
  stake-PoolSound owner pool_key bump amount pool' s' h =
      let old = value_or zeroed_staker (lookup key stakers) in
      let (p, t, go, e, f) = stake-parts pool old owner pool_key bump amount now pool' s' h in
      let (staked, entries) = init_staker-keeps old owner pool_key bump in
      subst (λ q. PoolSound q (insert key s' stakers) now funds) (sym e)
        (update_write (init_staker old owner pool_key bump) t s' p (p.total_staked + amount) go
          staked entries (ap (λ a. a.entries) f) (omega (arith, ap (λ a. a.staked_amount) f)))

  pub unstake-PoolSound :
      (amount : ℕ) (pool' : Pool) (s' : StakerAccount)
      → unstake pool (value_or zeroed_staker (lookup key stakers)) amount now ≡ ok (pool', s')
      → PoolSound pool' (insert key s' stakers) now funds
  unstake-PoolSound amount pool' s' h =
      let old = value_or zeroed_staker (lookup key stakers) in
      let (p, t, go, le, le', e, f) = unstake-parts pool old amount now pool' s' h in
      subst (λ q. PoolSound q (insert key s' stakers) now funds) (sym e)
        (update_write old t s' p (p.total_staked - amount) go refl refl (ap (λ a. a.entries) f)
          (omega (arith, ap (λ a. a.staked_amount) f, le, le')))

  -- The settlement of `claim` keeps the pool sound.
  pub claim_settle_all-PoolSound :
      (pool' : Pool) (s' : StakerAccount)
      → claim_settle_all pool (value_or zeroed_staker (lookup key stakers)) now ≡ ok (pool', s')
      → PoolSound pool' (insert key s' stakers) now funds
  unfolding claim_settle_all
  claim_settle_all-PoolSound pool' s' h =
      let old = value_or zeroed_staker (lookup key stakers) in
      update_write old s' s' pool' pool'.total_staked h refl refl refl refl
