-- ===== src/Custody/Adding.antt =====
-- `add_reward` and the vaults, on instructions/add_reward.rs.
use mm_staking.Base.{
  ℕ, ◌≤◌, ◌≡◌, ◌≢◌, refl, sym, ap, ◌∙◌, subst, arith, some, none, inl, inr, ◌==◌, Bool-cases,
  get_elem?, set, get_elem?-set_cases, ==→eq, eq→==, ==-false→ne,
}
use mm_staking.Int.{ℤ, ◌≤ℤ◌}
use mm_staking.Outcome.{ok, >>=-eq-ok, ok-injective, constraint}
use mm_staking.State.{Pubkey, default_key, Pool, RewardInfo}
use mm_staking.Logic
use mm_staking.Logic.{new_slot}
use mm_staking.Solvency.Slots.{PoolSound-mono, add_reward-parts, add_reward-PoolSound, duration_for}
use mm_staking.Runtime.{
  Runtime, World, TokenLaws, balance, owner_of, check, pool_account, reward_vault_seed,
}
use mm_staking.Instructions.AddReward.{AddReward, admin_and_pool, add_reward}
use mm_staking.Custody.{funds, funds_at, Vaults, WorldSound}
use mm_staking.Custody.Staking.{check-ok}

some≢none {ℓ} : {A : Type ℓ} {a : A} → some a ≢ none
some≢none e = cc

new_slot-vault :
    (mint vault : Pubkey) (duration now : ℤ) → (new_slot mint vault duration now).vault ≡ vault
unfolding new_slot
new_slot-vault mint vault duration now = refl

module _ (rt : Runtime) where
  pub pool_account-key :
      (w : World rt) (pool mint : Pubkey) {u : Unit {0}}
      → pool_account rt w pool mint ≡ ok u
      → pool ≡ w.pool_key
  unfolding pool_account
  pool_account-key w pool mint h =
      let (u, c, h1) = >>=-eq-ok (check (pool == w.pool_key) constraint) _ h in
      ==→eq _ _ (check-ok _ _ c)

  pub admin_and_pool-key :
      (w : World rt) (admin pool : Pubkey) {u : Unit {0}}
      → admin_and_pool rt w admin pool ≡ ok u
      → pool ≡ w.pool_key
  unfolding admin_and_pool
  admin_and_pool-key w admin pool h =
      let (u, c, h1) = >>=-eq-ok (check (admin == w.pool.admin) _) _ h in
      pool_account-key w pool w.pool.stake_mint h1

  pub add_reward-calls :
      (w : World rt) (a : AddReward) (duration now : ℤ) (w' : World rt)
      → add_reward rt w a duration now ≡ ok w'
      → (bank' : rt.Bank) × (pool' : Pool) × (a.pool ≡ w.pool_key)
        × (rt.create w.bank a.reward_vault a.reward_mint a.pool ≡ ok bank')
        × (Logic.add_reward w.pool a.reward_mint a.reward_vault duration now ≡ ok pool')
        × (w' ≡ record w { pool = pool'; bank = bank' })
  unfolding add_reward
  add_reward-calls w a duration now w' h =
      let seeds = reward_vault_seed a.pool a.reward_mint in
      let (u1, c1, h1) = >>=-eq-ok (admin_and_pool rt w a.admin a.pool) _ h in
      let (u2, c2, h2) = >>=-eq-ok (check (rt.is_mint w.bank a.reward_mint) constraint) _ h1 in
      let (u3, c3, h3) =
        >>=-eq-ok (check (a.reward_vault == rt.address seeds (rt.bump_of seeds)) constraint) _ h2 in
      let (bank', made, h4) =
        >>=-eq-ok (rt.create w.bank a.reward_vault a.reward_mint a.pool) _ h3 in
      let (pool', go, h5) =
        >>=-eq-ok (Logic.add_reward w.pool a.reward_mint a.reward_vault duration now) _ h4 in
      (bank', pool', admin_and_pool-key w a.admin a.pool c1, made, go, sym (ok-injective h5))

  module _ (laws : TokenLaws rt) (bank bank' : rt.Bank) (key mint owner : Pubkey)
      (made : rt.create bank key mint owner ≡ ok bank') (pool_key : Pubkey) where
    -- An account of the pool is not the new one.
    old_ne_new : (old : Pubkey) → owner_of rt bank old ≡ some pool_key → old ≢ key
    old_ne_new old owned e =
        some≢none
          (sym owned ∙ ap (owner_of rt bank) e ∙ (laws.fresh bank bank' key mint owner made).0)

    pub old_kept :
        (old : Pubkey)
        → owner_of rt bank old ≡ some pool_key
        → (balance rt bank' old ≡ balance rt bank old)
          × (owner_of rt bank' old ≡ owner_of rt bank old)
    old_kept old owned = laws.kept bank bank' key mint owner old made (old_ne_new old owned)

  module _ (laws : TokenLaws rt) (bank bank' : rt.Bank) (key mint pool_key : Pubkey)
      (made : rt.create bank key mint pool_key ≡ ok bank') where
    -- The vaults with a new one in place of an empty slot.
    Vaults-create :
        (pool : Pool) (idx : ℕ) (old slot : RewardInfo)
        → get_elem? pool.rewards idx ≡ some old
        → slot.vault ≡ key
        → Vaults rt pool_key bank pool
        → Vaults rt pool_key bank' (record pool { rewards = set pool.rewards idx slot })
    Vaults-create pool idx old slot at new v = record {
      stake_owner =
          (old_kept laws bank bank' key mint pool_key made pool_key pool.stake_vault
            v.stake_owner).1
          ∙ v.stake_owner;
      owner = λ j t g named. elim (get_elem?-set_cases pool.rewards idx j slot at g) [
        | inl (e, same) ↦
            ap (λ s. owner_of rt bank' s.vault) same
            ∙ ap (owner_of rt bank') new
            ∙ (laws.fresh bank bank' key mint pool_key made).2
        | inr (ne, was) ↦
            let owned = v.owner j t was named in
            (old_kept laws bank bank' key mint pool_key made pool_key t.vault owned).1 ∙ owned
      ];
      not_stake = λ j t g named q. elim (get_elem?-set_cases pool.rewards idx j slot at g) [
        | inl (e, same) ↦
            old_ne_new laws bank bank' key mint pool_key made pool_key pool.stake_vault
              v.stake_owner (sym q ∙ ap (λ s. s.vault) same ∙ new)
        | inr (ne, was) ↦ v.not_stake j t was named q
      ];
      apart = λ i j s t g g' named named' q.
          elim (get_elem?-set_cases pool.rewards idx i slot at g) [
            | inl (e, same) ↦ elim (get_elem?-set_cases pool.rewards idx j slot at g') [
              | inl (e', same') ↦ e ∙ sym e'
              | inr (ne', was') ↦ absurd (
                  old_ne_new laws bank bank' key mint pool_key made pool_key t.vault
                    (v.owner j t was' named') (sym q ∙ ap (λ r. r.vault) same ∙ new))
            ]
            | inr (ne, was) ↦ elim (get_elem?-set_cases pool.rewards idx j slot at g') [
              | inl (e', same') ↦ absurd (
                  old_ne_new laws bank bank' key mint pool_key made pool_key s.vault
                    (v.owner i s was named) (q ∙ ap (λ r. r.vault) same' ∙ new))
              | inr (ne', was') ↦ v.apart i j s t was was' named named' q
            ]
          ];
    }

    -- The tokens behind each slot are there after the creation, and the slot that is taken had none.
    funds-create :
        (pool : Pool) (idx : ℕ) (old slot : RewardInfo)
        → get_elem? pool.rewards idx ≡ some old
        → old.mint ≡ default_key
        → Vaults rt pool_key bank pool
        → (j : ℕ) (t : RewardInfo) → get_elem? (set pool.rewards idx slot) j ≡ some t
        → funds rt bank pool j ≤ funds_at rt bank' (some t)
    funds-create pool idx old slot at empty v j t g =
        elim (get_elem?-set_cases pool.rewards idx j slot at g) [
          | inl (e, same) ↦
              let none_behind : funds rt bank pool idx ≡ 0 =
                ap (funds_at rt bank) at ∙ rw (eq→== old.mint default_key empty) in
              omega (arith, ap (funds rt bank pool) e, none_behind)
          | inr (ne, was) ↦
              rw (ap (funds_at rt bank) was) (elim (Bool-cases (t.mint == default_key)) [
                | inl unused ↦ rw unused (omega arith)
                | inr used ↦
                    let named = ==-false→ne t.mint default_key used in
                    rw used (
                      omega (
                        arith,
                        (old_kept laws bank bank' key mint pool_key made pool_key t.vault
                            (v.owner j t was named)).0,
                      ))
              ])
        ]

  -- A new reward slot starts with an empty vault of its own, and owes nothing.
  pub add_reward-WorldSound :
      (laws : TokenLaws rt) (w : World rt) (clock now : ℤ)
      → clock ≤ℤ now
      → WorldSound rt w clock
      → (a : AddReward) (duration : ℤ) (w' : World rt) → add_reward rt w a duration now ≡ ok w'
      → WorldSound rt w' now
  add_reward-WorldSound laws w clock now later v a duration w' h =
      let (bank', pool', is_pool, created, go, e) = add_reward-calls w a duration now w' h in
      let (idx, old, new, found, at, empty, named, room, f) =
        add_reward-parts w.pool a.reward_mint a.reward_vault duration now pool' go in
      let key = a.reward_vault in
      let mint = a.reward_mint in
      let slot = new_slot mint key (duration_for w.pool duration) now in
      let made : rt.create w.bank key mint w.pool_key ≡ ok bank' =
        ap (rt.create w.bank key mint) (sym is_pool) ∙ created in
      let sound =
        add_reward-PoolSound w.pool w.stakers clock now (funds rt w.bank w.pool) mint key duration
          pool' go later v.pooled in
      let stays =
        old_kept laws w.bank bank' key mint w.pool_key made w.pool_key w.pool.stake_vault
          v.vaults.stake_owner in
      let vaults =
        Vaults-create laws w.bank bank' key mint w.pool_key made w.pool idx old slot at
          (new_slot-vault mint key (duration_for w.pool duration) now) v.vaults in
      subst (λ x. WorldSound rt x now) (sym e)
        (record {
          pooled =
              PoolSound-mono pool' w.stakers now now (funds rt w.bank w.pool) (funds rt bank' pool')
                (omega arith)
                (λ j t g. omega (
                  arith,
                  ap (funds_at rt bank') g,
                  funds-create laws w.bank bank' key mint w.pool_key made w.pool idx old slot at
                      empty v.vaults j t (ap (λ p. get_elem? p.rewards j) (sym f) ∙ g),
                ))
                sound;
          principal = omega (
            arith,
            v.principal,
            stays.0,
            ap (λ p. p.total_staked) f,
            ap (λ p. balance rt bank' p.stake_vault) f,
          );
          vaults = subst (Vaults rt w.pool_key bank') (sym f) (record {
            stake_owner = vaults.stake_owner;
            owner = vaults.owner;
            not_stake = vaults.not_stake;
            apart = vaults.apart;
          });
        })
