-- ===== src/Custody/Exits.antt =====
-- `unstake` and `emergency_withdraw` and the vaults.
use mm_staking.Base.{
  ℕ, ◌+◌, ◌-◌, ◌≤◌, ◌≡◌, ◌≢◌, sym, ap, ◌∙◌, subst, arith, some, inl, inr, ltb, lookup, insert,
  value_or, Option-cases, total_of-lookup_le,
}
use mm_staking.Int.{ℤ, ◌≤ℤ◌}
use mm_staking.Outcome.{StakingError, ok, >>=-eq-ok, require, ok-injective}
use mm_staking.State.{Pubkey, Pool, StakerAccount, zeroed_staker}
use mm_staking.Logic
use mm_staking.Solvency.{PoolSound, stake_of}
use mm_staking.Solvency.Principal.{unstake-parts, unstake-PoolSound}
use mm_staking.Solvency.Forfeit.{emergency_withdraw-parts, emergency_withdraw-PoolSound}
use mm_staking.Solvency.Slots.{PoolSound-mono}
use mm_staking.Runtime.{Runtime, World, TokenLaws, balance, owner_of, pool_account}
use mm_staking.Instructions.Staking.{Unstake, unstake, stake_accounts, staker_account}
use mm_staking.Instructions.EmergencyWithdraw.{EmergencyWithdraw, emergency_withdraw}
use mm_staking.Custody.{funds, WorldSound}
use mm_staking.Custody.Labels.{SameLabels, SameLabels-refl}
use mm_staking.Custody.Moves.{pool_pays, Vaults-transfer, funds-pool_pays}
use mm_staking.Custody.Staking.{update_reward-labels, counted-labels, stake_accounts-parts, rebuild}

module _ (rt : Runtime) where
  -- The account that a signer's call loads is at the address, and is the signer's.
  pub staker_account-parts :
      (w : World rt) (owner pool key : Pubkey) (s : StakerAccount)
      → staker_account rt w owner pool key ≡ ok s
      → (lookup key w.stakers ≡ some s) × (s.owner ≡ owner)
  unfolding staker_account
  staker_account-parts w owner pool key s h = elim (Option-cases (lookup key w.stakers)) [
    | inl missing ↦ absurd (ground arith)
    | inr (t, there) ↦ (ground arith, ground arith)
  ]

  pub unstake-calls :
      (w : World rt) (a : Unstake) (amount : ℕ) (now : ℤ) (w' : World rt)
      → unstake rt w a amount now ≡ ok w'
      → (s : StakerAccount) × (pool' : Pool) × (s' : StakerAccount) × (bank' : rt.Bank) × ((lookup
              a.staker w.stakers
            ≡ some s)
          × (s.owner ≡ a.owner))
        × (Logic.unstake w.pool s amount now ≡ ok (pool', s'))
        × (owner_of rt w.bank a.user_token_account ≡ some a.owner)
        × (a.stake_vault ≡ w.pool.stake_vault)
        × (rt.transfer w.bank a.stake_vault a.user_token_account a.pool amount ≡ ok bank')
        × (w' ≡ record w { pool = pool'; stakers = insert a.staker s' w.stakers; bank = bank' })
  unfolding unstake
  unstake-calls w a amount now w' h =
      let (u1, c1, h1) = >>=-eq-ok (pool_account rt w a.pool a.stake_mint) _ h in
      let (s, c2, h2) = >>=-eq-ok (staker_account rt w a.owner a.pool a.staker) _ h1 in
      let (u3, c3, h3) =
        >>=-eq-ok (stake_accounts rt w a.owner a.stake_mint a.user_token_account a.stake_vault) _
          h2 in
      let (user, vault) =
        stake_accounts-parts rt w a.owner a.stake_mint a.user_token_account a.stake_vault c3 in
      let (r, go, h4) = >>=-eq-ok (Logic.unstake w.pool s amount now) _ h3 in
      let (bank', paid, h5) =
        >>=-eq-ok (rt.transfer w.bank a.stake_vault a.user_token_account a.pool amount) _ h4 in
      (
        s,
        r.0,
        r.1,
        bank',
        staker_account-parts w a.owner a.pool a.staker s c2,
        go,
        user,
        vault,
        paid,
        sym (ok-injective h5),
      )

  pub emergency_withdraw-calls :
      (w : World rt) (a : EmergencyWithdraw) (w' : World rt)
      → emergency_withdraw rt w a ≡ ok w'
      → (s : StakerAccount) × (amount : ℕ) × (pool' : Pool) × (s' : StakerAccount)
        × (bank' : rt.Bank) × ((lookup a.staker w.stakers ≡ some s) × (s.owner ≡ a.owner))
        × (Logic.emergency_withdraw w.pool s ≡ ok (amount, pool', s'))
        × (owner_of rt w.bank a.user_token_account ≡ some a.owner)
        × (a.stake_vault ≡ w.pool.stake_vault)
        × (rt.transfer w.bank a.stake_vault a.user_token_account a.pool amount ≡ ok bank')
        × (w' ≡ record w { pool = pool'; stakers = insert a.staker s' w.stakers; bank = bank' })
  unfolding emergency_withdraw
  emergency_withdraw-calls w a w' h =
      let (u1, c1, h1) = >>=-eq-ok (pool_account rt w a.pool a.stake_mint) _ h in
      let (s, c2, h2) = >>=-eq-ok (staker_account rt w a.owner a.pool a.staker) _ h1 in
      let (u3, c3, h3) =
        >>=-eq-ok (stake_accounts rt w a.owner a.stake_mint a.user_token_account a.stake_vault) _
          h2 in
      let (user, vault) =
        stake_accounts-parts rt w a.owner a.stake_mint a.user_token_account a.stake_vault c3 in
      let (r, go, h4) = >>=-eq-ok (Logic.emergency_withdraw w.pool s) _ h3 in
      let (u5, c5, h5) = >>=-eq-ok (require (ltb 0 r.0) StakingError.zero_amount) _ h4 in
      let (bank', paid, h6) =
        >>=-eq-ok (rt.transfer w.bank a.stake_vault a.user_token_account a.pool r.0) _ h5 in
      (
        s,
        r.0,
        r.1,
        r.2,
        bank',
        staker_account-parts w a.owner a.pool a.staker s c2,
        go,
        user,
        vault,
        paid,
        sym (ok-injective h6),
      )

  module _ (laws : TokenLaws rt) (w : World rt) (clock now : ℤ) (later : clock ≤ℤ now)
      (v : WorldSound rt w clock) where
    -- The stake vault pays a user what the pool no longer counts.
    exit :
        (owner user vault authority key : Pubkey) (amount : ℕ) (pool' : Pool) (s' : StakerAccount)
        (bank' : rt.Bank)
        → owner ≢ w.pool_key
        → owner_of rt w.bank user ≡ some owner
        → vault ≡ w.pool.stake_vault
        → rt.transfer w.bank vault user authority amount ≡ ok bank'
        → SameLabels w.pool pool'
        → PoolSound pool' (insert key s' w.stakers) now (funds rt w.bank w.pool)
        → pool'.total_staked + amount ≤ w.pool.total_staked
        → WorldSound rt
            (record w { pool = pool'; stakers = insert key s' w.stakers; bank = bank' })
            now
    exit owner user vault authority key amount pool' s' bank' outside to_user is_vault paid l sound
          less =
        let from_pool : owner_of rt w.bank vault ≡ some w.pool_key =
          ap (owner_of rt w.bank) is_vault ∙ v.vaults.stake_owner in
        let spent =
          pool_pays rt laws w.bank bank' vault user authority amount paid w.pool_key owner outside
            from_pool to_user in
        rebuild rt w pool' (insert key s' w.stakers) bank' now l sound
          (Vaults-transfer rt laws w.bank bank' vault user authority amount paid w.pool_key owner
            outside w.pool v.vaults)
          (λ i slot at.
            funds-pool_pays rt laws w.bank bank' vault user authority amount paid w.pool_key owner
              outside w.pool i slot to_user v.vaults at
              (λ named e. v.vaults.not_stake i slot at named (e ∙ is_vault)))
          (omega (
            arith,
            v.principal,
            spent,
            less,
            ap (balance rt bank') is_vault,
            ap (balance rt w.bank) is_vault,
          ))

    -- A user who unstakes is paid what the pool no longer counts.
    pub unstake-WorldSound :
        (a : Unstake) (amount : ℕ) (w' : World rt)
        → a.owner ≢ w.pool_key
        → unstake rt w a amount now ≡ ok w'
        → WorldSound rt w' now
    unstake-WorldSound a amount w' outside h =
        let (s, pool', s', bank', (there, mine), go, user, vault, paid, e) =
          unstake-calls w a amount now w' h in
        let old = value_or zeroed_staker (lookup a.staker w.stakers) in
        let go' : Logic.unstake w.pool old amount now ≡ ok (pool', s') =
          ap (λ o. Logic.unstake w.pool (value_or zeroed_staker o) amount now) there ∙ go in
        let (p, t, up, le, le', f, g) = unstake-parts w.pool s amount now pool' s' go in
        let (l, total, same) = update_reward-labels w.pool s now p t up in
        subst (λ x. WorldSound rt x now) (sym e)
          (exit a.owner a.user_token_account a.stake_vault a.pool a.staker amount pool' s' bank'
            outside user vault paid (counted-labels w.pool p pool' (p.total_staked - amount) l f)
            (unstake-PoolSound w.pool w.stakers clock now (funds rt w.bank w.pool) a.staker later
              v.pooled amount pool' s' go')
            (omega (arith, total, le', ap (λ q. q.total_staked) f)))

    -- An emergency exit is paid the same way, at whatever time.
    pub emergency_withdraw-WorldSound :
        (a : EmergencyWithdraw) (w' : World rt)
        → a.owner ≢ w.pool_key
        → emergency_withdraw rt w a ≡ ok w'
        → WorldSound rt w' now
    emergency_withdraw-WorldSound a w' outside h =
        let (s, amount, pool', s', bank', (there, mine), go, user, vault, paid, e) =
          emergency_withdraw-calls w a w' h in
        let old = value_or zeroed_staker (lookup a.staker w.stakers) in
        let go' : Logic.emergency_withdraw w.pool old ≡ ok (amount, pool', s') =
          ap (λ o. Logic.emergency_withdraw w.pool (value_or zeroed_staker o)) there ∙ go in
        let (is, f, forfeits, g) = emergency_withdraw-parts w.pool s amount pool' s' go in
        let total = w.pool.total_staked - s.staked_amount in
        let sound =
          emergency_withdraw-PoolSound w.pool w.stakers clock (funds rt w.bank w.pool) a.staker
            amount pool' s' go' v.pooled in
        subst (λ x. WorldSound rt x now) (sym e)
          (exit a.owner a.user_token_account a.stake_vault a.pool a.staker amount pool' s' bank'
            outside user vault paid
            (counted-labels w.pool w.pool pool' total (SameLabels-refl w.pool) f)
            (PoolSound-mono pool' (insert a.staker s' w.stakers) clock now (funds rt w.bank w.pool)
              (funds rt w.bank w.pool) later (λ i slot at. omega arith) sound)
            (omega (
              arith,
              ap (λ q. q.total_staked) f,
              is,
              v.pooled.counted,
              total_of-lookup_le stake_of a.staker s w.stakers there,
            )))
