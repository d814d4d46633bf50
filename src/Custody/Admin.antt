-- ===== src/Custody/Admin.antt =====
-- The setters and the vaults, on instructions/admin.rs and add_reward.rs.
use mm_staking.Base.{
  ℕ, ◌≡◌, refl, sym, ap, ◌∙◌, subst, arith, some, Bool, get_elem?, set, if◌then◌else◌,
}
use mm_staking.Int.{ℤ, pos, ltb_ℤ}
use mm_staking.Outcome.{StakingError, ok, ◌>>=◌, >>=-eq-ok, require, ok-injective}
use mm_staking.State.{Pubkey, Pool, RewardInfo}
use mm_staking.Logic
use mm_staking.Logic.{registered_slot, init_pool}
use mm_staking.Solvency.{Stakers, PoolSound}
use mm_staking.Solvency.Slots.{
  registered_slot-parts, set_reward_active-PoolSound, set_duration-PoolSound,
}
use mm_staking.Runtime.{Runtime, World}
use mm_staking.Instructions.Admin.{
  AdminOnly, admin_only, with_pool, set_paused, set_keeper_authority, set_admin, set_duration,
}
use mm_staking.Instructions.AddReward.{SetRewardActive, admin_and_pool, set_reward_active}
use mm_staking.Custody.{funds, WorldSound}
use mm_staking.Custody.Labels.{SameLabels, set-labels}
use mm_staking.Custody.Staking.{rebuild}

-- A pool that differs from a sound one in nothing that tokens depend on.
record SamePrincipal (pool pool' : Pool) : Type 0 where
  rewards : pool'.rewards ≡ pool.rewards
  total : pool'.total_staked ≡ pool.total_staked
  vault : pool'.stake_vault ≡ pool.stake_vault
  count : pool'.reward_count ≡ pool.reward_count

SamePrincipal-labels : (pool pool' : Pool) → SamePrincipal pool pool' → SameLabels pool pool'
SamePrincipal-labels pool pool' s = record {
  stake = s.vault;
  count = s.count;
  slots = λ i slot at. (slot, ap (λ l. get_elem? l i) (sym s.rewards) ∙ at, refl, refl);
}

SamePrincipal-PoolSound :
    (pool pool' : Pool) (stakers : Stakers) (clock : ℤ) (funds : ℕ → ℕ)
    → SamePrincipal pool pool'
    → PoolSound pool stakers clock funds
    → PoolSound pool' stakers clock funds
SamePrincipal-PoolSound pool pool' stakers clock funds s v = record {
  counted = s.total ∙ v.counted;
  slots = λ i slot at. v.slots i slot (ap (λ l. get_elem? l i) (sym s.rewards) ∙ at);
}

-- A write of a registered slot that leaves its labels alone.
one_slot-labels :
    (pool pool' : Pool) (i : ℕ) (slot new : RewardInfo)
    → get_elem? pool.rewards i ≡ some slot
    → new.mint ≡ slot.mint
    → new.vault ≡ slot.vault
    → record pool { rewards = set pool.rewards i new } ≡ pool'
    → SameLabels pool pool' × (pool'.total_staked ≡ pool.total_staked)
one_slot-labels pool pool' i slot new at m v e = (
  subst (SameLabels pool) e (set-labels pool i slot new at m v),
  ap (λ q. q.total_staked) (sym e),
)

pub set_reward_active-labels :
    (pool pool' : Pool) (i : ℕ) (active : Bool)
    → Logic.set_reward_active pool i active ≡ ok pool'
    → SameLabels pool pool' × (pool'.total_staked ≡ pool.total_staked)
unfolding Logic.set_reward_active
set_reward_active-labels pool pool' i active h =
    let (slot, go, e) = >>=-eq-ok (registered_slot pool i) _ h in
    one_slot-labels pool pool' i slot (record slot { active = if active then 1 else 0 })
      (registered_slot-parts pool i slot go).1 refl refl (ok-injective e)

pub set_duration-labels :
    (pool pool' : Pool) (i : ℕ) (duration : ℤ)
    → Logic.set_duration pool i duration ≡ ok pool'
    → SameLabels pool pool' × (pool'.total_staked ≡ pool.total_staked)
unfolding Logic.set_duration
set_duration-labels pool pool' i duration h =
    let (u, positive, h1) =
      >>=-eq-ok (require (ltb_ℤ (pos 0) duration) StakingError.invalid_duration) _ h in
    let (slot, go, e) = >>=-eq-ok (registered_slot pool i) _ h1 in
    one_slot-labels pool pool' i slot (record slot { duration = duration })
      (registered_slot-parts pool i slot go).1 refl refl (ok-injective e)

module _ (rt : Runtime) (w : World rt) (clock : ℤ) (v : WorldSound rt w clock) where
  -- A new pool over the same tokens.
  repool :
      (pool' : Pool)
      → SameLabels w.pool pool'
      → pool'.total_staked ≡ w.pool.total_staked
      → PoolSound pool' w.stakers clock (funds rt w.bank w.pool)
      → WorldSound rt (record w { pool = pool' }) clock
  repool pool' l total sound =
      rebuild rt w pool' w.stakers w.bank clock l sound v.vaults (λ i slot at. omega arith)
        (omega (arith, v.principal, total))

  same :
      (pool' : Pool) → SamePrincipal w.pool pool' → WorldSound rt (record w { pool = pool' }) clock
  same pool' s =
      repool pool' (SamePrincipal-labels w.pool pool' s) s.total
        (SamePrincipal-PoolSound w.pool pool' w.stakers clock (funds rt w.bank w.pool) s v.pooled)

  -- A setter whose write is `same` keeps the world sound.
  setter-same :
      (a : AdminOnly) (pool' : Pool) (w' : World rt)
      → SamePrincipal w.pool pool'
      → (admin_only rt w a >>= λ u. with_pool rt w (ok pool')) ≡ ok w'
      → WorldSound rt w' clock
  setter-same a pool' w' s h =
      let (u, c, h1) = >>=-eq-ok (admin_only rt w a) _ h in
      subst (λ x. WorldSound rt x clock) (ok-injective h1) (same pool' s)

  pub set_paused-WorldSound :
      (a : AdminOnly) (paused : Bool) (w' : World rt)
      → set_paused rt w a paused ≡ ok w'
      → WorldSound rt w' clock
  unfolding set_paused Logic.set_paused
  set_paused-WorldSound a paused w' h =
      setter-same a (record w.pool { paused = if paused then 1 else 0 }) w'
        (record { rewards = refl; total = refl; vault = refl; count = refl }) h

  pub set_keeper_authority-WorldSound :
      (a : AdminOnly) (keeper : Pubkey) (w' : World rt)
      → set_keeper_authority rt w a keeper ≡ ok w'
      → WorldSound rt w' clock
  unfolding set_keeper_authority Logic.set_keeper_authority
  set_keeper_authority-WorldSound a keeper w' h =
      setter-same a (record w.pool { keeper_authority = keeper }) w'
        (record { rewards = refl; total = refl; vault = refl; count = refl }) h

  pub set_admin-WorldSound :
      (a : AdminOnly) (new_admin : Pubkey) (w' : World rt)
      → set_admin rt w a new_admin ≡ ok w'
      → WorldSound rt w' clock
  unfolding set_admin Logic.set_admin
  set_admin-WorldSound a new_admin w' h =
      setter-same a (record w.pool { admin = new_admin }) w'
        (record { rewards = refl; total = refl; vault = refl; count = refl }) h

  pub set_duration-WorldSound :
      (a : AdminOnly) (slot : ℕ) (duration : ℤ) (w' : World rt)
      → set_duration rt w a slot duration ≡ ok w'
      → WorldSound rt w' clock
  unfolding set_duration
  set_duration-WorldSound a slot duration w' h =
      let (u, c, h1) = >>=-eq-ok (admin_only rt w a) _ h in
      let (pool', go, e) = >>=-eq-ok (Logic.set_duration w.pool slot duration) _ h1 in
      let (l, total) = set_duration-labels w.pool pool' slot duration go in
      subst (λ x. WorldSound rt x clock) (ok-injective e)
        (repool pool' l total (
          set_duration-PoolSound w.pool w.stakers clock (funds rt w.bank w.pool) slot pool' v.pooled
            duration go))

  pub set_reward_active-WorldSound :
      (a : SetRewardActive) (slot : ℕ) (active : Bool) (w' : World rt)
      → set_reward_active rt w a slot active ≡ ok w'
      → WorldSound rt w' clock
  unfolding set_reward_active
  set_reward_active-WorldSound a slot active w' h =
      let (u, c, h1) = >>=-eq-ok (admin_and_pool rt w a.admin a.pool) _ h in
      let (pool', go, e) = >>=-eq-ok (Logic.set_reward_active w.pool slot active) _ h1 in
      let (l, total) = set_reward_active-labels w.pool pool' slot active go in
      subst (λ x. WorldSound rt x clock) (ok-injective e)
        (repool pool' l total (
          set_reward_active-PoolSound w.pool w.stakers clock (funds rt w.bank w.pool) slot pool'
            v.pooled active go))
