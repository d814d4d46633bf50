-- ===== src/Program/Identity.antt =====
-- What no instruction changes: the pool's address, stake mint, stake vault and bump.
use mm_staking.Base.{ℕ, ◌≡◌, ap, ◌∙◌, sym}
use mm_staking.Int.{ℤ, pos, ltb_ℤ}
use mm_staking.Outcome.{StakingError, require, Result, ok, ◌>>=◌, >>=-eq-ok, ok-injective}
use mm_staking.State.{Pubkey, Pool, StakerAccount}
use mm_staking.Update.{update_globals, update_reward, accrue_entries}
use mm_staking.Logic
use mm_staking.Logic.{registered_slot}
use mm_staking.Solvency.Pooled.{update_globals-parts}
use mm_staking.Solvency.Principal.{stake-parts, unstake-parts}
use mm_staking.Solvency.Forfeit.{emergency_withdraw-parts}
use mm_staking.Solvency.Rewards.{deposit_rewards-parts}
use mm_staking.Solvency.Slots.{add_reward-parts}
use mm_staking.Runtime.{Runtime, World}
use mm_staking.Instructions.AddReward.{admin_and_pool}
use mm_staking.Instructions.AddReward
use mm_staking.Instructions.Admin.{AdminOnly, admin_only, with_pool}
use mm_staking.Instructions.Admin
use mm_staking.Custody.Staking.{stake-calls}
use mm_staking.Custody.Exits.{unstake-calls, emergency_withdraw-calls}
use mm_staking.Custody.DepositParts.{deposit_rewards-calls}
use mm_staking.Custody.Adding.{add_reward-calls}
use mm_staking.Custody.ClaimParts.{claim-calls}
use mm_staking.Program.{
  Instruction, add_reward, set_reward_active, stake, unstake, deposit_rewards, claim,
  emergency_withdraw, set_paused, set_keeper_authority, set_admin, set_duration, process,
}

abbrev pub pool_id : Pool → Pubkey × Pubkey × ℕ
pool_id pool = (pool.stake_mint, pool.stake_vault, pool.bump)

-- The address comes first.
abbrev pub world_id : (rt : Runtime) → World rt → Pubkey × (Pubkey × Pubkey × ℕ)
world_id rt w = (w.pool_key, pool_id w.pool)

update_reward-id :
    (pool : Pool) (s : StakerAccount) (now : ℤ) (p : Pool) (t : StakerAccount)
    → update_reward pool s now ≡ ok (p, t)
    → pool_id p ≡ pool_id pool
unfolding update_reward
update_reward-id pool s now p t h =
    let (q, go, h1) = >>=-eq-ok (update_globals pool now) _ h in
    let (entries, accrues, e) =
      >>=-eq-ok (accrue_entries q.rewards s.staked_amount s.entries) _ h1 in
    let (settles, f) = update_globals-parts pool now q go in
    ap (λ (r : Pool × StakerAccount). pool_id r.0) (sym (ok-injective e)) ∙ ap pool_id f

module _ (rt : Runtime) (w : World rt) (now : ℤ) (w' : World rt) where
  same_id :
      (pool' : Pool)
      → world_id rt w' ≡ (w.pool_key, pool_id pool')
      → pool_id pool' ≡ pool_id w.pool
      → world_id rt w' ≡ world_id rt w
  same_id pool' e f = e ∙ ap (λ i. (w.pool_key, i)) f

  with_pool-id :
      (a : AdminOnly) (r : Result Pool)
      → (admin_only rt w a >>= λ u. with_pool rt w r) ≡ ok w'
      → ((pool' : Pool) → r ≡ ok pool' → pool_id pool' ≡ pool_id w.pool)
      → world_id rt w' ≡ world_id rt w
  with_pool-id a r h kept =
      let (u, c, h1) = >>=-eq-ok (admin_only rt w a) _ h in
      let (pool', go, e) = >>=-eq-ok r _ h1 in
      same_id pool' (ap (world_id rt) (sym (ok-injective e))) (kept pool' go)

  pub process-keeps_id :
      (i : Instruction) → process rt w i now ≡ ok w' → world_id rt w' ≡ world_id rt w
  unfolding process AddReward.set_reward_active Admin.set_paused Admin.set_keeper_authority
      Admin.set_admin Admin.set_duration Logic.set_paused Logic.set_keeper_authority Logic.set_admin
      Logic.claim_settle_all Logic.set_reward_active Logic.set_duration
  process-keeps_id (add_reward a duration) h =
      let (bank', pool', is_pool, created, go, e) = add_reward-calls rt w a duration now w' h in
      let (idx, old, new, found, at, empty, named, room, f) =
        add_reward-parts w.pool a.reward_mint a.reward_vault duration now pool' go in
      same_id pool' (ap (world_id rt) e) (ap pool_id f)
  process-keeps_id (set_reward_active a slot active) h =
      let (u, c, h1) = >>=-eq-ok (admin_and_pool rt w a.admin a.pool) _ h in
      let (pool', go, e) = >>=-eq-ok (Logic.set_reward_active w.pool slot active) _ h1 in
      let (s, found, f) = >>=-eq-ok (registered_slot w.pool slot) _ go in
      same_id pool' (ap (world_id rt) (sym (ok-injective e))) (ap pool_id (sym (ok-injective f)))
  process-keeps_id (stake a amount) h =
      let (bump, pool', s', bank', go, user, vault, paid, e) = stake-calls rt w a amount now w' h in
      let (p, t, up, f, g) = stake-parts w.pool _ a.owner a.pool bump amount now pool' s' go in
      same_id pool' (ap (world_id rt) e) (ap pool_id f ∙ update_reward-id w.pool _ now p t up)
  process-keeps_id (unstake a amount) h =
      let (s, pool', s', bank', (there, mine), go, user, vault, paid, e) =
        unstake-calls rt w a amount now w' h in
      let (p, t, up, le, le', f, g) = unstake-parts w.pool s amount now pool' s' go in
      same_id pool' (ap (world_id rt) e) (ap pool_id f ∙ update_reward-id w.pool s now p t up)
  process-keeps_id (deposit_rewards a amount) h =
      let (bank', received, pool', keeper, vault, is_mint, paid, measured, go, e) =
        deposit_rewards-calls rt w a amount now w' h in
      let (i, p, slot, slot', found, up, at, rated, f) =
        deposit_rewards-parts w.pool a.reward_mint received now pool' go in
      let (settles, g) = update_globals-parts w.pool now p up in
      same_id pool' (ap (world_id rt) e) (ap pool_id f ∙ ap pool_id g)
  process-keeps_id (claim a remaining) h =
      let (s, pool', s', t, bank', (there, mine), go, looped, e) =
        claim-calls rt w a remaining now w' h in
      same_id pool' (ap (world_id rt) e) (update_reward-id w.pool s now pool' s' go)
  process-keeps_id (emergency_withdraw a) h =
      let (s, amount, pool', s', bank', (there, mine), go, user, vault, paid, e) =
        emergency_withdraw-calls rt w a w' h in
      let (is, f, forfeits, g) = emergency_withdraw-parts w.pool s amount pool' s' go in
      same_id pool' (ap (world_id rt) e) (ap pool_id f)
  process-keeps_id (set_paused a paused) h =
      with_pool-id a (Logic.set_paused w.pool paused) h (λ p e. ap pool_id (sym (ok-injective e)))
  process-keeps_id (set_keeper_authority a keeper) h =
      with_pool-id a (Logic.set_keeper_authority w.pool keeper) h
        (λ p e. ap pool_id (sym (ok-injective e)))
  process-keeps_id (set_admin a new_admin) h =
      with_pool-id a (Logic.set_admin w.pool new_admin) h (λ p e. ap pool_id (sym (ok-injective e)))
  process-keeps_id (set_duration a slot duration) h =
      with_pool-id a (Logic.set_duration w.pool slot duration) h (λ p e.
        let (u, positive, h1) =
          >>=-eq-ok (require (ltb_ℤ (pos 0) duration) StakingError.invalid_duration) _ e in
        let (s, found, f) = >>=-eq-ok (registered_slot w.pool slot) _ h1 in
        ap pool_id (sym (ok-injective f)))
