-- ===== src/Custody/Staking.antt =====
-- `stake` and the vaults, on instructions/stake.rs.
use mm_staking.Base.{
  ℕ, ◌+◌, ◌≤◌, ◌≡◌, ◌≢◌, refl, sym, ap, ◌∙◌, subst, arith, Bool, true, false, some, ◌==◌, ltb,
  lookup, insert, value_or, get_elem?, ==→eq, some-injective,
}
use mm_staking.Int.{ℤ, ◌≤ℤ◌}
use mm_staking.Outcome.{StakingError, Fault, ok, >>=-eq-ok, require, ok-injective, constraint}
use mm_staking.State.{Pubkey, Pool, StakerAccount, zeroed_staker, RewardInfo}
use mm_staking.Update.{update_reward}
use mm_staking.Logic
use mm_staking.Solvency.{Stakers, PoolSound}
use mm_staking.Solvency.Pooled.{update_globals-parts, update_reward-parts}
use mm_staking.Solvency.Principal.{stake-parts, stake-PoolSound}
use mm_staking.Solvency.Slots.{PoolSound-mono}
use mm_staking.Runtime.{
  Runtime, World, TokenLaws, balance, owner_of, check, token_account, pool_account, staker_seed,
}
use mm_staking.Instructions.Staking.{Stake, stake, stake_accounts}
use mm_staking.Custody.{funds, Vaults, WorldSound}
use mm_staking.Custody.Labels.{SameLabels, update_globals-labels, funds-labels, Vaults-labels}
use mm_staking.Custody.Moves.{token_account-owner, Vaults-transfer, funds-user_pays}

pub check-ok : (b : Bool) (f : Fault) {u : Unit {0}} → check b f ≡ ok u → b ≡ true
check-ok true f h = refl
check-ok false f h = cc

pub update_reward-labels :
    (pool : Pool) (s : StakerAccount) (now : ℤ) (p : Pool) (t : StakerAccount)
    → update_reward pool s now ≡ ok (p, t)
    → SameLabels pool p × (p.total_staked ≡ pool.total_staked) × (t.staked_amount ≡ s.staked_amount)
update_reward-labels pool s now p t h =
    let (globals, accrued, e) = update_reward-parts pool s now p t h in
    let (go, f) = update_globals-parts pool now p globals in
    (
      update_globals-labels pool p now globals,
      ap (λ q. q.total_staked) f,
      ap (λ q. q.staked_amount) e,
    )

-- A new count leaves the labels.
pub counted-labels :
    (pool p q : Pool) (total : ℕ)
    → SameLabels pool p
    → q ≡ record p { total_staked = total }
    → SameLabels pool q
counted-labels pool p q total l e =
    subst (SameLabels pool) (sym e) (record { stake = l.stake; count = l.count; slots = l.slots })

module _ (rt : Runtime) where
  -- What the constraints on the mint and the token accounts settle.
  pub stake_accounts-parts :
      (w : World rt) (owner stake_mint user_token_account stake_vault : Pubkey) {u : Unit {0}}
      → stake_accounts rt w owner stake_mint user_token_account stake_vault ≡ ok u
      → (owner_of rt w.bank user_token_account ≡ some owner) × (stake_vault ≡ w.pool.stake_vault)
  unfolding stake_accounts
  stake_accounts-parts w owner stake_mint user_token_account stake_vault h =
      let (u0, is_mint, h0) = >>=-eq-ok (check (rt.is_mint w.bank stake_mint) constraint) _ h in
      let (u, mint, h1) = >>=-eq-ok (check (stake_mint == w.pool.stake_mint) constraint) _ h0 in
      let (u', user, h2) =
        >>=-eq-ok (token_account rt w.bank user_token_account stake_mint owner) _ h1 in
      (
        token_account-owner rt w.bank user_token_account stake_mint owner user,
        ==→eq _ _ (check-ok _ _ h2),
      )

  pub stake-calls :
      (w : World rt) (a : Stake) (amount : ℕ) (now : ℤ) (w' : World rt)
      → stake rt w a amount now ≡ ok w'
      → (bump : ℕ) × (pool' : Pool) × (s' : StakerAccount) × (bank' : rt.Bank) × (Logic.stake w.pool
            (value_or zeroed_staker (lookup a.staker w.stakers))
            a.owner
            a.pool
            bump
            amount
            now
          ≡ ok (pool', s'))
        × (owner_of rt w.bank a.user_token_account ≡ some a.owner)
        × (a.stake_vault ≡ w.pool.stake_vault)
        × (rt.transfer w.bank a.user_token_account a.stake_vault a.owner amount ≡ ok bank')
        × (w' ≡ record w { pool = pool'; stakers = insert a.staker s' w.stakers; bank = bank' })
  unfolding stake
  stake-calls w a amount now w' h =
      let seeds = staker_seed a.pool a.owner in
      let old = value_or zeroed_staker (lookup a.staker w.stakers) in
      let (u1, c1, h1) = >>=-eq-ok (pool_account rt w a.pool a.stake_mint) _ h in
      let (u2, c2, h2) =
        >>=-eq-ok (check (a.staker == rt.address seeds (rt.bump_of seeds)) constraint) _ h1 in
      let (u3, c3, h3) =
        >>=-eq-ok (stake_accounts rt w a.owner a.stake_mint a.user_token_account a.stake_vault) _
          h2 in
      let (user, vault) =
        stake_accounts-parts w a.owner a.stake_mint a.user_token_account a.stake_vault c3 in
      let (u4, c4, h4) = >>=-eq-ok (require (ltb 0 amount) StakingError.zero_amount) _ h3 in
      let (u5, c5, h5) = >>=-eq-ok (require (w.pool.paused == 0) StakingError.paused) _ h4 in
      let (r, go, h6) =
        >>=-eq-ok (Logic.stake w.pool old a.owner a.pool (rt.bump_of seeds) amount now) _ h5 in
      let (bank', paid, h7) =
        >>=-eq-ok (rt.transfer w.bank a.user_token_account a.stake_vault a.owner amount) _ h6 in
      (rt.bump_of seeds, r.0, r.1, bank', go, user, vault, paid, sym (ok-injective h7))

  -- The world after a call that keeps the labels, from its parts.
  pub rebuild :
      (w : World rt) (pool' : Pool) (stakers' : Stakers) (bank' : rt.Bank) (now : ℤ)
      → SameLabels w.pool pool'
      → PoolSound pool' stakers' now (funds rt w.bank w.pool)
      → Vaults rt w.pool_key bank' w.pool
      → ((i : ℕ) (slot : RewardInfo)
          → get_elem? w.pool.rewards i ≡ some slot
          → funds rt w.bank w.pool i ≤ funds rt bank' w.pool i)
      → pool'.total_staked ≤ balance rt bank' w.pool.stake_vault
      → WorldSound rt (record w { pool = pool'; stakers = stakers'; bank = bank' }) now
  rebuild w pool' stakers' bank' now l v vaults more enough = record {
    pooled =
        PoolSound-mono pool' stakers' now now (funds rt w.bank w.pool) (funds rt bank' pool')
          (omega arith)
          (λ i slot at.
            let (old, was, m, u) = l.slots i slot at in
            omega (arith, more i old was, funds-labels rt bank' w.pool pool' l i slot at))
          v;
    principal = omega (arith, enough, ap (balance rt bank') l.stake);
    vaults = Vaults-labels rt bank' w.pool pool' l w.pool_key vaults;
  }

  module _ (laws : TokenLaws rt) (w : World rt) (clock now : ℤ) (later : clock ≤ℤ now)
      (v : WorldSound rt w clock) where
    -- A user who stakes pays what the pool then counts.
    pub stake-WorldSound :
        (a : Stake) (amount : ℕ) (w' : World rt)
        → a.owner ≢ w.pool_key
        → stake rt w a amount now ≡ ok w'
        → WorldSound rt w' now
    stake-WorldSound a amount w' outside h =
        let (bump, pool', s', bank', go, user, vault, paid, e) = stake-calls w a amount now w' h in
        let old = value_or zeroed_staker (lookup a.staker w.stakers) in
        let (p, t, up, f, g) = stake-parts w.pool old a.owner a.pool bump amount now pool' s' go in
        let (l, total, same) =
          update_reward-labels w.pool (Logic.init_staker old a.owner a.pool bump) now p t up in
        let from = a.user_token_account in
        let ne : from ≢ a.stake_vault = λ q. outside (
          some-injective (sym user ∙ ap (owner_of rt w.bank) (q ∙ vault) ∙ v.vaults.stake_owner)) in
        let gained = laws.received w.bank bank' from a.stake_vault a.owner amount paid ne in
        subst (λ x. WorldSound rt x now) (sym e)
          (rebuild w pool' (insert a.staker s' w.stakers) bank' now
            (counted-labels w.pool p pool' (p.total_staked + amount) l f)
            (stake-PoolSound w.pool w.stakers clock now (funds rt w.bank w.pool) a.staker later
              v.pooled a.owner a.pool bump amount pool' s' go)
            (Vaults-transfer rt laws w.bank bank' from a.stake_vault a.owner amount paid w.pool_key
              a.owner outside w.pool v.vaults)
            (funds-user_pays rt laws w.bank bank' from a.stake_vault a.owner amount paid w.pool_key
              a.owner outside w.pool user v.vaults)
            (omega (
              arith,
              v.principal,
              gained,
              total,
              ap (λ q. q.total_staked) f,
              ap (balance rt bank') vault,
              ap (balance rt w.bank) vault,
            )))
