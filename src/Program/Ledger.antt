-- ===== src/Program/Ledger.antt =====
-- The stakes as a ledger, which forgets rewards, tokens and accounts, and how each instruction moves
-- it.
use mm_staking.Base.{
  ℕ, ◌+◌, ◌-◌, ◌≡◌, refl, sym, ap, ◌∙◌, inl, inr, Bool-cases, ◌==◌, if◌then◌else◌, lookup, insert,
  lookup-insert, value_or, some, ==→eq,
}
use mm_staking.Int.{ℤ}
use mm_staking.Outcome.{Result, ok, ◌>>=◌, >>=-eq-ok, ok-injective}
use mm_staking.State.{Pubkey, Pool, StakerAccount, zeroed_staker}
use mm_staking.Logic
use mm_staking.Update.Lengths.{update_reward-Accrued}
use mm_staking.Solvency.Principal.{init_staker-keeps, stake-parts, unstake-parts}
use mm_staking.Solvency.Forfeit.{emergency_withdraw-parts}
use mm_staking.Runtime.{Runtime, World}
use mm_staking.Instructions.AddReward.{admin_and_pool}
use mm_staking.Instructions.AddReward
use mm_staking.Instructions.Admin.{AdminOnly, admin_only, with_pool}
use mm_staking.Instructions.Admin
use mm_staking.Custody.Staking.{stake-calls}
use mm_staking.Custody.Exits.{unstake-calls, emergency_withdraw-calls}
use mm_staking.Custody.DepositParts.{deposit_rewards-calls}
use mm_staking.Custody.Adding.{add_reward-calls}
use mm_staking.Custody.ClaimParts.{claim-calls}
use mm_staking.Program.{
  Instruction, add_reward, set_reward_active, stake, unstake, deposit_rewards, claim,
  emergency_withdraw, set_paused, set_keeper_authority, set_admin, set_duration, process,
}
use mm_staking.Program.Effects.{claim_loop-effect}

-- The stake of each staker's address.
abbrev pub Stakes : Type 0
Stakes = Pubkey → ℕ

abbrev pub ledger : (rt : Runtime) → World rt → Stakes
ledger rt w key = (value_or zeroed_staker (lookup key w.stakers)).staked_amount

abbrev pub write : Pubkey → ℕ → Stakes → Stakes
write key n stakes k = if key == k then n else stakes k

-- The promise: only `stake`, `unstake` and `emergency_withdraw` move the ledger, each at one
-- address.
abbrev pub ledger_step : Instruction → Stakes → Stakes
ledger_step (add_reward a duration) stakes = stakes
ledger_step (set_reward_active a slot active) stakes = stakes
ledger_step (stake a amount) stakes = write a.staker (stakes a.staker + amount) stakes
ledger_step (unstake a amount) stakes = write a.staker (stakes a.staker - amount) stakes
ledger_step (deposit_rewards a amount) stakes = stakes
ledger_step (claim a remaining) stakes = stakes
ledger_step (emergency_withdraw a) stakes = write a.staker 0 stakes
ledger_step (set_paused a paused) stakes = stakes
ledger_step (set_keeper_authority a keeper) stakes = stakes
ledger_step (set_admin a new_admin) stakes = stakes
ledger_step (set_duration a slot duration) stakes = stakes

module _ (rt : Runtime) (w : World rt) (now : ℤ) (w' : World rt) where
  untouched : w'.stakers ≡ w.stakers → (k : Pubkey) → ledger rt w' k ≡ ledger rt w k
  untouched e k = ap (λ d. (value_or zeroed_staker (lookup k d)).staked_amount) e

  written :
      (key : Pubkey) (s' : StakerAccount) (n : ℕ)
      → w'.stakers ≡ insert key s' w.stakers
      → s'.staked_amount ≡ n
      → (k : Pubkey) → ledger rt w' k ≡ write key n (ledger rt w) k
  written key s' n e is k =
      ap (λ d. (value_or zeroed_staker (lookup k d)).staked_amount) e
      ∙ ap (λ o. (value_or zeroed_staker o).staked_amount) (lookup-insert key k s' w.stakers)
      ∙ elim (Bool-cases (key == k)) [ inl hit ↦ rw hit is | inr miss ↦ rw miss refl ]

  -- A write of the stake that was there changes nothing.
  rewritten :
      (key : Pubkey) (s' : StakerAccount)
      → w'.stakers ≡ insert key s' w.stakers
      → s'.staked_amount ≡ ledger rt w key
      → (k : Pubkey) → ledger rt w' k ≡ ledger rt w k
  rewritten key s' e is k = written key s' (ledger rt w key) e is k ∙ elim (Bool-cases (key == k)) [
    | inl hit ↦ rw hit (ap (ledger rt w) (==→eq key k hit))
    | inr miss ↦ rw miss refl
  ]

  -- The account that a call loaded has the stake that the ledger says.
  at_ledger :
      (key : Pubkey) (s : StakerAccount)
      → lookup key w.stakers ≡ some s
      → s.staked_amount ≡ ledger rt w key
  at_ledger key s there = ap (λ o. (value_or zeroed_staker o).staked_amount) (sym there)

  with_pool-stakers :
      (a : AdminOnly) (r : Result Pool)
      → (admin_only rt w a >>= λ u. with_pool rt w r) ≡ ok w'
      → w'.stakers ≡ w.stakers
  with_pool-stakers a r h =
      let (u, c, h1) = >>=-eq-ok (admin_only rt w a) _ h in
      let (pool', go, e) = >>=-eq-ok r _ h1 in ap (λ x. x.stakers) (sym (ok-injective e))

  -- The program implements a ledger of stakes by address: an instruction that succeeds adds the
  -- amount at the staker account's address for `stake`, takes it off for `unstake`, sets it to 0
  -- for `emergency_withdraw`, and leaves every stake otherwise.
  pub process-ledger :
      (i : Instruction)
      → process rt w i now ≡ ok w'
      → (k : Pubkey) → ledger rt w' k ≡ ledger_step i (ledger rt w) k
  unfolding process AddReward.set_reward_active Admin.set_paused Admin.set_keeper_authority
      Admin.set_admin Admin.set_duration Logic.claim_settle_all
  process-ledger (add_reward a duration) h =
      let (bank', pool', is_pool, created, go, e) = add_reward-calls rt w a duration now w' h in
      untouched (ap (λ x. x.stakers) e)
  process-ledger (set_reward_active a slot active) h =
      let (u, c, h1) = >>=-eq-ok (admin_and_pool rt w a.admin a.pool) _ h in
      let (pool', go, e) = >>=-eq-ok (Logic.set_reward_active w.pool slot active) _ h1 in
      untouched (ap (λ x. x.stakers) (sym (ok-injective e)))
  process-ledger (stake a amount) h =
      let (bump, pool', s', bank', go, user, vault, paid, e) = stake-calls rt w a amount now w' h in
      let (p, t, up, f, g) = stake-parts w.pool _ a.owner a.pool bump amount now pool' s' go in
      let (staked, entries) = init_staker-keeps _ a.owner a.pool bump in
      let kept = (update_reward-Accrued w.pool _ now p t up).staked in
      written a.staker s' (ledger rt w a.staker + amount) (ap (λ x. x.stakers) e)
        (ap (λ q. q.staked_amount) g ∙ ap (λ n. n + amount) (kept ∙ staked))
  process-ledger (unstake a amount) h =
      let (s, pool', s', bank', (there, mine), go, user, vault, paid, e) =
        unstake-calls rt w a amount now w' h in
      let (p, t, up, le, le', f, g) = unstake-parts w.pool s amount now pool' s' go in
      let kept = (update_reward-Accrued w.pool s now p t up).staked in
      written a.staker s' (ledger rt w a.staker - amount) (ap (λ x. x.stakers) e)
        (ap (λ q. q.staked_amount) g ∙ ap (λ n. n - amount) (kept ∙ at_ledger a.staker s there))
  process-ledger (deposit_rewards a amount) h =
      let (bank', received, pool', keeper, vault, is_mint, paid, measured, go, e) =
        deposit_rewards-calls rt w a amount now w' h in
      untouched (ap (λ x. x.stakers) e)
  process-ledger (claim a remaining) h =
      let (s, pool', s', t, bank', (there, mine), go, looped, e) =
        claim-calls rt w a remaining now w' h in
      let (entries, owner, staked) =
        claim_loop-effect rt pool' a remaining s' w.bank t bank' looped in
      let kept = (update_reward-Accrued w.pool s now pool' s' go).staked in
      rewritten a.staker t (ap (λ x. x.stakers) e) (staked ∙ kept ∙ at_ledger a.staker s there)
  process-ledger (emergency_withdraw a) h =
      let (s, amount, pool', s', bank', (there, mine), go, user, vault, paid, e) =
        emergency_withdraw-calls rt w a w' h in
      let (is, f, forfeits, g) = emergency_withdraw-parts w.pool s amount pool' s' go in
      written a.staker s' 0 (ap (λ x. x.stakers) e) (ap (λ q. q.staked_amount) g)
  process-ledger (set_paused a paused) h =
      untouched (with_pool-stakers a (Logic.set_paused w.pool paused) h)
  process-ledger (set_keeper_authority a keeper) h =
      untouched (with_pool-stakers a (Logic.set_keeper_authority w.pool keeper) h)
  process-ledger (set_admin a new_admin) h =
      untouched (with_pool-stakers a (Logic.set_admin w.pool new_admin) h)
  process-ledger (set_duration a slot duration) h =
      untouched (with_pool-stakers a (Logic.set_duration w.pool slot duration) h)
