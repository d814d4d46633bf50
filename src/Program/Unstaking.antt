-- ===== src/Program/Unstaking.antt =====
-- `unstake` in the worlds that a pool can reach.
use mm_staking.Base.{
  ℕ, ◌+◌, ◌-◌, ◌≤◌, ◌<◌, ◌≡◌, ◌≢◌, refl, ap, ◌∙◌, arith, some, lookup, insert, lookup-insert_self,
  total_of-lookup_le, get_elem?,
}
use mm_staking.Int.{ℤ, pos, ◌≤ℤ◌}
use mm_staking.Word.{u64_limit, i64_limit}
use mm_staking.Outcome.{ok}
use mm_staking.State.{default_key, RewardInfo, StakerAccount}
use mm_staking.Logic.Leaving.{unstake-fits}
use mm_staking.Update.Total.{refreshed_all, credited_all}
use mm_staking.Solvency.{stake_of}
use mm_staking.Solvency.Fits.{InRange}
use mm_staking.Runtime.{
  Runtime, World, TokenAccount, TokenLaws, TransferSucceeds, balance, amount_in, pool_account,
}
use mm_staking.Instructions.Staking.{Unstake, stake_accounts, staker_account, unstake}
use mm_staking.Program.{Reachable}
use mm_staking.Program.Sound.{Reachable-WorldSound}
use mm_staking.Program.Exit.{exit_ready}
use mm_staking.Program.Ready.{Reachable-AllSettle, Reachable-AllAccrue}

-- In a world that a pool can reach, `unstake` of a positive amount of no more than the stake
-- succeeds, paused or not, pays the user that amount and lowers the stake by it. This is where the
-- clock has not gone back and the times of the registered slots and their stored rewards per token
-- leave room in their widths, their vaults hold less than 2^64, the accounts pass the constraints,
-- the owner is not the pool's address, the user's account has the mint of the vault and room for
-- the amount, and the token program has the laws and transfers between good accounts.
pub Reachable-unstake :
    (rt : Runtime) (laws : TokenLaws rt) (succeeds : TransferSucceeds rt) (w : World rt)
    (clock now : ℤ)
    → Reachable rt w clock
    → clock ≤ℤ now
    → now ≤ℤ pos (i64_limit - 1)
    → ((i : ℕ) (slot : RewardInfo)
        → get_elem? w.pool.rewards i ≡ some slot
        → slot.mint ≢ default_key
        → InRange slot now × (balance rt w.bank slot.vault < u64_limit))
    → (a : Unstake) (amount : ℕ) (s : StakerAccount) (user vault : TokenAccount)
    → pool_account rt w a.pool a.stake_mint ≡ ok tt
    → staker_account rt w a.owner a.pool a.staker ≡ ok s
    → stake_accounts rt w a.owner a.stake_mint a.user_token_account a.stake_vault ≡ ok tt
    → a.owner ≢ w.pool_key
    → rt.account w.bank a.user_token_account ≡ some user
    → rt.account w.bank a.stake_vault ≡ some vault
    → vault.mint ≡ user.mint
    → user.amount + amount < u64_limit
    → 0 < amount
    → amount ≤ s.staked_amount
    → (w' : World rt) × (s' : StakerAccount) × (unstake rt w a amount now ≡ ok w')
      × (balance rt w'.bank a.user_token_account ≡ user.amount + amount)
      × (lookup a.staker w'.stakers ≡ some s')
      × (s'.staked_amount ≡ s.staked_amount - amount)
unfolding unstake
Reachable-unstake rt laws succeeds w clock now r later_on clock_range ranges a amount s user vault
      c1 c2 c3 outside is_user is_vault mint room positive held =
    let x =
      exit_ready rt laws w clock r a.owner a.pool a.staker a.stake_mint a.user_token_account
        a.stake_vault s vault c1 c2 c3 outside is_vault in
    let v = Reachable-WorldSound rt laws w clock r in
    let settles = Reachable-AllSettle rt laws w clock now r later_on clock_range ranges in
    let accrues =
      Reachable-AllAccrue rt laws w clock now r later_on clock_range ranges a.staker s x.there in
    let counted : s.staked_amount ≤ w.pool.total_staked =
      omega (arith, v.pooled.counted, total_of-lookup_le stake_of a.staker s w.stakers x.there) in
    let slots = refreshed_all w.pool.total_staked now w.pool.rewards in
    let s' : StakerAccount = record s {
      staked_amount = s.staked_amount - amount;
      entries = credited_all s.staked_amount slots s.entries;
    } in
    let (bank', paid) =
      succeeds.pays w.bank a.stake_vault a.user_token_account a.pool amount vault user is_vault
        is_user x.vault_owner mint (omega (arith, x.enough, held)) room in
    (
      record w {
        pool = record w.pool { rewards = slots; total_staked = w.pool.total_staked - amount };
        stakers = insert a.staker s' w.stakers;
        bank = bank';
      },
      s',
      rw (c1, c2, c3, unstake-fits w.pool s amount now positive held counted settles accrues, paid)
          refl,
      laws.received w.bank bank' a.stake_vault a.user_token_account a.pool amount paid x.apart
          ∙ ap (λ n. n + amount) (ap amount_in is_user),
      lookup-insert_self a.staker s' w.stakers,
      refl,
    )
