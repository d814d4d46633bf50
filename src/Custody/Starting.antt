-- ===== src/Custody/Starting.antt =====
-- `initialize_pool` and the vaults, on instructions/initialize_pool.rs.
use mm_staking.Base.{
  ℕ, zero, suc, ◌≡◌, refl, sym, ap, ◌∙◌, arith, some, [], replicate, get_elem?, ◌==◌,
}
use mm_staking.Int.{ℤ, pos, ◌≤ℤ◌, ltb_ℤ}
use mm_staking.Outcome.{StakingError, ok, >>=-eq-ok, require, ok-injective, constraint}
use mm_staking.State.{Pubkey, RewardInfo, max_rewards, empty_slot, zeroed_pool}
use mm_staking.Logic.{init_pool}
use mm_staking.Runtime.{Runtime, World, TokenLaws, owner_of, check, pool_seed, stake_vault_seed}
use mm_staking.Instructions.InitializePool.{InitializePool, initialize_pool}
use mm_staking.Custody.{WorldSound}

-- Each slot of an array of empty slots is empty.
pub get_elem?-empty :
    (n i : ℕ) (slot : RewardInfo)
    → get_elem? (replicate n empty_slot) i ≡ some slot
    → slot ≡ empty_slot
get_elem?-empty zero i slot h = absurd (ground arith)
get_elem?-empty (suc n) zero slot h = ground arith
get_elem?-empty (suc n) (suc i) slot h = get_elem?-empty n i slot h

module _ (rt : Runtime) where
  pub initialize_pool-calls :
      (bank : rt.Bank) (a : InitializePool) (default_duration : ℤ) (keeper : Pubkey) (w : World rt)
      → initialize_pool rt bank a default_duration keeper ≡ ok w
      → (rt.create bank a.stake_vault a.stake_mint a.pool ≡ ok w.bank)
        × (w.pool_key ≡ a.pool)
        × (w.stakers ≡ [])
        × (w.pool.rewards ≡ replicate max_rewards empty_slot)
        × (w.pool.total_staked ≡ 0)
        × (w.pool.stake_vault ≡ a.stake_vault)
        × (w.pool.reward_count ≡ 0)
  unfolding initialize_pool init_pool
  initialize_pool-calls bank a default_duration keeper w h =
      let seeds = pool_seed a.stake_mint in
      let vault_seeds = stake_vault_seed a.pool in
      let (u1, c1, h1) = >>=-eq-ok (check (rt.is_mint bank a.stake_mint) constraint) _ h in
      let (u2, c2, h2) =
        >>=-eq-ok (check (a.pool == rt.address seeds (rt.bump_of seeds)) constraint) _ h1 in
      let (u3, c3, h3) =
        >>=-eq-ok
          (check (a.stake_vault == rt.address vault_seeds (rt.bump_of vault_seeds)) constraint) _
          h2 in
      let (bank', made, h4) = >>=-eq-ok (rt.create bank a.stake_vault a.stake_mint a.pool) _ h3 in
      let (pool, started, h5) =
        >>=-eq-ok
          (init_pool zeroed_pool a.admin keeper a.stake_mint a.stake_vault default_duration
            (rt.bump_of seeds))
          _ h4 in
      let (u6, c6, h6) =
        >>=-eq-ok (require (ltb_ℤ (pos 0) default_duration) StakingError.invalid_duration) _
          started in
      let e = sym (ok-injective h5) in
      let p = sym (ok-injective h6) in
      (
        made ∙ ap (λ x. ok x.bank) (sym e),
        ap (λ x. x.pool_key) e,
        ap (λ x. x.stakers) e,
        ap (λ x. x.pool.rewards) e ∙ ap (λ q. q.rewards) p,
        ap (λ x. x.pool.total_staked) e ∙ ap (λ q. q.total_staked) p,
        ap (λ x. x.pool.stake_vault) e ∙ ap (λ q. q.stake_vault) p,
        ap (λ x. x.pool.reward_count) e ∙ ap (λ q. q.reward_count) p,
      )

  -- A new pool owes nothing.
  pub initialize_pool-WorldSound :
      (laws : TokenLaws rt) (bank : rt.Bank) (a : InitializePool) (default_duration now : ℤ)
      (keeper : Pubkey) (w : World rt)
      → pos 0 ≤ℤ now
      → initialize_pool rt bank a default_duration keeper ≡ ok w
      → WorldSound rt w now
  initialize_pool-WorldSound laws bank a default_duration now keeper w late h =
      let (made, key, nobody, rewards, total, vault, count) =
        initialize_pool-calls bank a default_duration keeper w h in
      let blank = λ (i : ℕ) (slot : RewardInfo) (at : get_elem? w.pool.rewards i ≡ some slot).
        get_elem?-empty max_rewards i slot (ap (λ l. get_elem? l i) (sym rewards) ∙ at) in
      record {
        pooled = record {
          counted = rw nobody total;
          slots = λ i slot at.
              let e = blank i slot at in
              rw (e, nobody)
                (record {
                  solvent = record { backed = omega arith; in_step = tt; blank = λ m. refl };
                  timely = late;
                });
        };
        principal = omega (arith, total);
        vaults = record {
          stake_owner =
              ap (owner_of rt w.bank) vault
              ∙ (laws.fresh bank w.bank a.stake_vault a.stake_mint a.pool made).2
              ∙ ap some (sym key);
          owner = λ i slot at named. absurd (named (ap (λ s. s.mint) (blank i slot at)));
          not_stake = λ i slot at named. absurd (named (ap (λ s. s.mint) (blank i slot at)));
          apart =
              λ i j slot other at at' named. absurd (named (ap (λ s. s.mint) (blank i slot at)));
        };
      }
