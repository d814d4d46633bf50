-- ===== src/Program/Later.antt =====
-- `emergency_withdraw` after the calls of others.
use mm_staking.Base.{
  ℕ, ◌+◌, ◌≤◌, ◌<◌, ◌≡◌, ◌≢◌, sym, ap, ◌∙◌, arith, some, List, lookup, some-injective,
}
use mm_staking.Int.{ℤ}
use mm_staking.Word.{u64_limit}
use mm_staking.Outcome.{ok}
use mm_staking.State.{Pubkey, default_key, StakerAccount}
use mm_staking.Runtime.{
  Runtime, World, TokenAccount, TokenLaws, TransferSucceeds, balance, pool_account,
}
use mm_staking.Instructions.Staking.{stake_accounts, staker_account}
use mm_staking.Instructions.EmergencyWithdraw.{EmergencyWithdraw, emergency_withdraw}
use mm_staking.Custody.Exits.{staker_account-parts}
use mm_staking.Program.{Reachable}
use mm_staking.Program.Exit.{Reachable-exit}
use mm_staking.Program.History.{
  Call, run, last_time, InOrder, Unsigned, run-Reachable, run-keeps_id, run-keeps_stake,
}

-- After any list of calls by others from a world that a pool can reach, of which some may fail, a
-- staker who had a stake before them, in an account with an owner, gets at least that stake by
-- `emergency_withdraw`. This is where the times of the calls do not go back, none of them is signed
-- by the pool's address or by the owner of the staker's account, the accounts pass the constraints
-- after them, the withdrawal's owner is not the pool's address, the user's account has the mint of
-- the vault and room for the stake, and the token program has the laws and transfers between good
-- accounts.
pub run-exit :
    (rt : Runtime) (laws : TokenLaws rt) (succeeds : TransferSucceeds rt) (w : World rt) (clock : ℤ)
    → Reachable rt w clock
    → (calls : List Call) (a : EmergencyWithdraw) (s t : StakerAccount) (user vault : TokenAccount)
    → InOrder w.pool_key clock calls
    → lookup a.staker w.stakers ≡ some s
    → s.owner ≢ default_key
    → Unsigned s.owner calls
    → let w1 = run rt w calls in
      pool_account rt w1 a.pool a.stake_mint ≡ ok tt
      → staker_account rt w1 a.owner a.pool a.staker ≡ ok t
      → stake_accounts rt w1 a.owner a.stake_mint a.user_token_account a.stake_vault ≡ ok tt
      → a.owner ≢ w.pool_key
      → rt.account w1.bank a.user_token_account ≡ some user
      → rt.account w1.bank a.stake_vault ≡ some vault
      → vault.mint ≡ user.mint
      → user.amount + t.staked_amount < u64_limit
      → 0 < s.staked_amount
      → (w2 : World rt) × (emergency_withdraw rt w1 a ≡ ok w2)
        × (user.amount + s.staked_amount ≤ balance rt w2.bank a.user_token_account)
run-exit rt laws succeeds w clock r calls a s t user vault order there owned unsigned c1 c2 c3
      outside is_user is_vault mint room some_stake =
    let w1 = run rt w calls in
    let key : w1.pool_key ≡ w.pool_key =
      ap (λ (d : Pubkey × (Pubkey × Pubkey × ℕ)). d.0) (run-keeps_id rt calls w) in
    let (u, at, mine, more) = run-keeps_stake rt calls w a.staker s there owned unsigned in
    let (at', mine') = staker_account-parts rt w1 a.owner a.pool a.staker t c2 in
    let same : u.staked_amount ≡ t.staked_amount =
      ap (λ x. x.staked_amount) (some-injective (sym at ∙ at')) in
    let (w2, s2, go, gains, here, gone) =
      Reachable-exit rt laws succeeds w1 (last_time clock calls)
        (run-Reachable rt calls w clock r order) a t user vault c1 c2 c3 (λ e. outside (e ∙ key))
        is_user is_vault mint room (omega (arith, same, more, some_stake)) in
    (w2, go, omega (arith, gains, same, more))
