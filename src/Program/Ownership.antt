-- ===== src/Program/Ownership.antt =====
-- Which accounts an instruction changes, and in whose name.
use mm_staking.Base.{
  ℕ, ◌≡◌, sym, ap, ◌∙◌, subst, inl, inr, some, List, length, length-set, lookup, insert, value_or,
  Bool, if◌then◌else◌,
}
use mm_staking.Int.{ℤ, pos, ltb_ℤ}
use mm_staking.Outcome.{StakingError, Result, ok, ◌>>=◌, >>=-eq-ok, ok-injective, require}
use mm_staking.State.{Pubkey, Pool, StakerAccount, zeroed_staker}
use mm_staking.Logic
use mm_staking.Logic.{registered_slot, new_slot}
use mm_staking.Update.Lengths.{update_globals-length, update_reward-Accrued, forfeit-length}
use mm_staking.Solvency.Forfeit.{emergency_withdraw-parts}
use mm_staking.Solvency.Rewards.{deposit_rewards-parts}
use mm_staking.Solvency.Slots.{add_reward-parts, duration_for}
use mm_staking.Runtime.{Runtime, World}
use mm_staking.Instructions.Staking.{Stake, Unstake}
use mm_staking.Instructions.Staking
use mm_staking.Instructions.EmergencyWithdraw.{EmergencyWithdraw}
use mm_staking.Instructions.EmergencyWithdraw
use mm_staking.Instructions.Claim.{Claim}
use mm_staking.Instructions.Claim
use mm_staking.Instructions.DepositRewards.{DepositRewards}
use mm_staking.Instructions.DepositRewards
use mm_staking.Instructions.AddReward.{AddReward, SetRewardActive, admin_and_pool}
use mm_staking.Instructions.AddReward
use mm_staking.Instructions.Admin.{AdminOnly, admin_only, with_pool}
use mm_staking.Instructions.Admin
use mm_staking.Custody.Staking.{stake-calls}
use mm_staking.Custody.Exits.{unstake-calls, emergency_withdraw-calls}
use mm_staking.Custody.DepositParts.{deposit_rewards-calls}
use mm_staking.Custody.Adding.{add_reward-calls}
use mm_staking.Custody.ClaimParts.{claim-calls}
use mm_staking.Program.{
  Instruction, add_reward, set_reward_active, stake, unstake, deposit_rewards, claim,
  emergency_withdraw, set_paused, set_keeper_authority, set_admin, set_duration, signer_of, process,
}
use mm_staking.Program.Effects.{
  StakerEffect, WorldEffect, stake-StakerEffect, unstake-StakerEffect, claim_loop-effect,
}

set_reward_active-length :
    (pool : Pool) (i : ℕ) (active : Bool) (pool' : Pool)
    → Logic.set_reward_active pool i active ≡ ok pool'
    → length pool'.rewards ≡ length pool.rewards
unfolding Logic.set_reward_active
set_reward_active-length pool i active pool' h =
    let (slot, go, e) = >>=-eq-ok (registered_slot pool i) _ h in
    ap (λ p. length p.rewards) (sym (ok-injective e))
    ∙ length-set pool.rewards i (record slot { active = if active then 1 else 0 })

set_duration-length :
    (pool : Pool) (i : ℕ) (duration : ℤ) (pool' : Pool)
    → Logic.set_duration pool i duration ≡ ok pool'
    → length pool'.rewards ≡ length pool.rewards
unfolding Logic.set_duration
set_duration-length pool i duration pool' h =
    let (u, positive, h1) =
      >>=-eq-ok (require (ltb_ℤ (pos 0) duration) StakingError.invalid_duration) _ h in
    let (slot, go, e) = >>=-eq-ok (registered_slot pool i) _ h1 in
    ap (λ p. length p.rewards) (sym (ok-injective e))
    ∙ length-set pool.rewards i (record slot { duration = duration })

module _ (rt : Runtime) (w : World rt) (now : ℤ) (w' : World rt) where
  -- A call that writes the pool alone.
  pool_only :
      (signer : Pubkey)
      → length w'.pool.rewards ≡ length w.pool.rewards
      → w'.stakers ≡ w.stakers
      → WorldEffect rt signer w w'
  pool_only signer slots same = record { slots = slots; stakers = inl same }

  -- A call that writes the account that it loaded.
  one_staker :
      (signer key : Pubkey) (s s' : StakerAccount)
      → length w'.pool.rewards ≡ length w.pool.rewards
      → lookup key w.stakers ≡ some s
      → w'.stakers ≡ insert key s' w.stakers
      → StakerEffect signer s s'
      → WorldEffect rt signer w w'
  one_staker signer key s s' slots there e f = record {
    slots = slots;
    stakers =
        inr (
          key,
          s',
          e,
          subst (λ o. StakerEffect signer (value_or zeroed_staker o) s') (sym there) f,
        );
  }

  stake-WorldEffect :
      (a : Stake) (amount : ℕ)
      → Staking.stake rt w a amount now ≡ ok w'
      → WorldEffect rt a.owner w w'
  stake-WorldEffect a amount h =
      let (bump, pool', s', bank', go, user, vault, paid, e) = stake-calls rt w a amount now w' h in
      let (slots, f) =
        stake-StakerEffect w.pool (value_or zeroed_staker (lookup a.staker w.stakers)) a.owner
          a.pool bump amount now pool' s' go in
      record {
        slots = ap (λ x. length x.pool.rewards) e ∙ slots;
        stakers = inr (a.staker, s', ap (λ x. x.stakers) e, f);
      }

  unstake-WorldEffect :
      (a : Unstake) (amount : ℕ)
      → Staking.unstake rt w a amount now ≡ ok w'
      → WorldEffect rt a.owner w w'
  unstake-WorldEffect a amount h =
      let (s, pool', s', bank', (there, mine), go, user, vault, paid, e) =
        unstake-calls rt w a amount now w' h in
      let (slots, f) = unstake-StakerEffect w.pool s amount now pool' s' go in
      one_staker a.owner a.staker s s' (ap (λ x. length x.pool.rewards) e ∙ slots) there
        (ap (λ x. x.stakers) e) (subst (λ o. StakerEffect o s s') mine f)

  emergency_withdraw-WorldEffect :
      (a : EmergencyWithdraw)
      → EmergencyWithdraw.emergency_withdraw rt w a ≡ ok w'
      → WorldEffect rt a.owner w w'
  emergency_withdraw-WorldEffect a h =
      let (s, amount, pool', s', bank', (there, mine), go, user, vault, paid, e) =
        emergency_withdraw-calls rt w a w' h in
      let (is, f, forfeits, g) = emergency_withdraw-parts w.pool s amount pool' s' go in
      one_staker a.owner a.staker s s'
        (ap (λ x. length x.pool.rewards) e ∙ ap (λ p. length p.rewards) f) there
        (ap (λ x. x.stakers) e)
        (record {
          entries = forfeit-length w.pool.rewards s.entries s'.entries forfeits;
          owner = inl (ap (λ t. t.owner) g);
          staked = inr mine;
        })

  claim-WorldEffect :
      (a : Claim) (remaining : List Pubkey)
      → Claim.claim rt w a remaining now ≡ ok w'
      → WorldEffect rt a.owner w w'
  unfolding Logic.claim_settle_all
  claim-WorldEffect a remaining h =
      let (s, pool', s', t, bank', (there, mine), go, looped, e) =
        claim-calls rt w a remaining now w' h in
      let u = update_reward-Accrued w.pool s now pool' s' go in
      let (entries, owner, staked) =
        claim_loop-effect rt pool' a remaining s' w.bank t bank' looped in
      one_staker a.owner a.staker s t (ap (λ x. length x.pool.rewards) e ∙ u.slots) there
        (ap (λ x. x.stakers) e)
        (record { entries = entries ∙ u.entries; owner = inl (owner ∙ u.owner); staked = inr mine })

  deposit_rewards-WorldEffect :
      (a : DepositRewards) (amount : ℕ)
      → DepositRewards.deposit_rewards rt w a amount now ≡ ok w'
      → WorldEffect rt a.keeper w w'
  deposit_rewards-WorldEffect a amount h =
      let (bank', received, pool', keeper, vault, is_mint, paid, measured, go, e) =
        deposit_rewards-calls rt w a amount now w' h in
      let (i, p, slot, slot', found, settles, at, rated, f) =
        deposit_rewards-parts w.pool a.reward_mint received now pool' go in
      pool_only a.keeper
        (ap (λ x. length x.pool.rewards) e
          ∙ ap (λ q. length q.rewards) f
          ∙ length-set p.rewards i slot'
          ∙ update_globals-length w.pool p now settles)
        (ap (λ x. x.stakers) e)

  add_reward-WorldEffect :
      (a : AddReward) (duration : ℤ)
      → AddReward.add_reward rt w a duration now ≡ ok w'
      → WorldEffect rt a.admin w w'
  add_reward-WorldEffect a duration h =
      let (bank', pool', is_pool, created, go, e) = add_reward-calls rt w a duration now w' h in
      let (idx, old, new, found, at, empty, named, room, f) =
        add_reward-parts w.pool a.reward_mint a.reward_vault duration now pool' go in
      pool_only a.admin
        (ap (λ x. length x.pool.rewards) e
          ∙ ap (λ q. length q.rewards) f
          ∙ length-set w.pool.rewards idx
              (new_slot a.reward_mint a.reward_vault (duration_for w.pool duration) now))
        (ap (λ x. x.stakers) e)

  -- A setter writes the pool alone.
  with_pool-WorldEffect :
      (a : AdminOnly) (r : Result Pool)
      → (admin_only rt w a >>= λ u. with_pool rt w r) ≡ ok w'
      → ((pool' : Pool) → r ≡ ok pool' → length pool'.rewards ≡ length w.pool.rewards)
      → WorldEffect rt a.admin w w'
  with_pool-WorldEffect a r h kept =
      let (u, c, h1) = >>=-eq-ok (admin_only rt w a) _ h in
      let (pool', go, e) = >>=-eq-ok r _ h1 in
      let f = sym (ok-injective e) in
      pool_only a.admin (ap (λ x. length x.pool.rewards) f ∙ kept pool' go) (ap (λ x. x.stakers) f)

  set_reward_active-WorldEffect :
      (a : SetRewardActive) (slot : ℕ) (active : Bool)
      → AddReward.set_reward_active rt w a slot active ≡ ok w'
      → WorldEffect rt a.admin w w'
  unfolding AddReward.set_reward_active
  set_reward_active-WorldEffect a slot active h =
      let (u, c, h1) = >>=-eq-ok (admin_and_pool rt w a.admin a.pool) _ h in
      let (pool', go, e) = >>=-eq-ok (Logic.set_reward_active w.pool slot active) _ h1 in
      let f = sym (ok-injective e) in
      pool_only a.admin
        (ap (λ x. length x.pool.rewards) f ∙ set_reward_active-length w.pool slot active pool' go)
        (ap (λ x. x.stakers) f)

  pub process-WorldEffect :
      (i : Instruction) → process rt w i now ≡ ok w' → WorldEffect rt (signer_of i) w w'
  unfolding process Admin.set_paused Admin.set_keeper_authority Admin.set_admin Admin.set_duration
      Logic.set_paused Logic.set_keeper_authority Logic.set_admin
  process-WorldEffect (add_reward a duration) h = add_reward-WorldEffect a duration h
  process-WorldEffect (set_reward_active a slot active) h =
      set_reward_active-WorldEffect a slot active h
  process-WorldEffect (stake a amount) h = stake-WorldEffect a amount h
  process-WorldEffect (unstake a amount) h = unstake-WorldEffect a amount h
  process-WorldEffect (deposit_rewards a amount) h = deposit_rewards-WorldEffect a amount h
  process-WorldEffect (claim a remaining) h = claim-WorldEffect a remaining h
  process-WorldEffect (emergency_withdraw a) h = emergency_withdraw-WorldEffect a h
  process-WorldEffect (set_paused a paused) h =
      with_pool-WorldEffect a (Logic.set_paused w.pool paused) h
        (λ p e. ap (λ q. length q.rewards) (sym (ok-injective e)))
  process-WorldEffect (set_keeper_authority a keeper) h =
      with_pool-WorldEffect a (Logic.set_keeper_authority w.pool keeper) h
        (λ p e. ap (λ q. length q.rewards) (sym (ok-injective e)))
  process-WorldEffect (set_admin a new_admin) h =
      with_pool-WorldEffect a (Logic.set_admin w.pool new_admin) h
        (λ p e. ap (λ q. length q.rewards) (sym (ok-injective e)))
  process-WorldEffect (set_duration a slot duration) h =
      with_pool-WorldEffect a (Logic.set_duration w.pool slot duration) h
        (λ p. set_duration-length w.pool slot duration p)
