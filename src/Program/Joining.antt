-- ===== src/Program/Joining.antt =====
-- `stake` in the worlds that a pool can reach.
use mm_staking.Base.{
  ℕ, ◌+◌, ◌-◌, ◌≤◌, ◌<◌, ◌≡◌, ◌≢◌, refl, sym, ap, ◌∙◌, subst, arith, some, get_elem?, lookup,
  insert, lookup-insert_self, lt→ltb, eq→==, some-injective, value_or, total_of-value_le,
}
use mm_staking.Int.{ℤ, pos, ◌≤ℤ◌}
use mm_staking.Word.{u64_limit, i64_limit}
use mm_staking.Outcome.{ok}
use mm_staking.State.{default_key, RewardInfo, StakerAccount, zeroed_staker}
use mm_staking.Update.Total.{AllAccrue, refreshed_all, credited_all}
use mm_staking.Logic.{init_staker}
use mm_staking.Logic.Staking.{stake-fits}
use mm_staking.Solvency.{stake_of}
use mm_staking.Solvency.Principal.{init_staker-keeps}
use mm_staking.Solvency.Fits.{InRange}
use mm_staking.Runtime.{
  Runtime, World, TokenAccount, TokenLaws, TransferSucceeds, balance, owner_in, owner_of, amount_in,
  pool_account, staker_seed,
}
use mm_staking.Instructions.Staking.{Stake, stake_accounts, stake}
use mm_staking.Custody.Moves.{ne_of_owners}
use mm_staking.Custody.Staking.{stake_accounts-parts}
use mm_staking.Program.{Reachable}
use mm_staking.Program.Sound.{Reachable-WorldSound}
use mm_staking.Program.Ready.{Reachable-AllSettle, Reachable-AllAccrue_or}

-- In a world that a pool can reach and that is not paused, `stake` of a positive amount succeeds,
-- for a new staker or an old one: the stake vault gains the amount and the user's account pays it,
-- and the stake and the pool's count go up by it. This is where the clock has not gone back and the
-- times of the registered slots and their stored rewards per token leave room in their widths,
-- their vaults hold less than 2^64, the accounts pass the constraints, the owner is not the pool's
-- address, the user's account has the mint of the vault and holds the amount, the vault has room
-- for it, and the token program has the laws and transfers between good accounts.
pub Reachable-stake :
    (rt : Runtime) (laws : TokenLaws rt) (succeeds : TransferSucceeds rt) (w : World rt)
    (clock now : ℤ)
    → Reachable rt w clock
    → clock ≤ℤ now
    → now ≤ℤ pos (i64_limit - 1)
    → ((i : ℕ) (slot : RewardInfo)
        → get_elem? w.pool.rewards i ≡ some slot
        → slot.mint ≢ default_key
        → InRange slot now × (balance rt w.bank slot.vault < u64_limit))
    → (a : Stake) (amount : ℕ) (user vault : TokenAccount)
    → pool_account rt w a.pool a.stake_mint ≡ ok tt
    → let seeds = staker_seed a.pool a.owner in
      a.staker ≡ rt.address seeds (rt.bump_of seeds)
      → stake_accounts rt w a.owner a.stake_mint a.user_token_account a.stake_vault ≡ ok tt
      → a.owner ≢ w.pool_key
      → w.pool.paused ≡ 0
      → rt.account w.bank a.user_token_account ≡ some user
      → rt.account w.bank a.stake_vault ≡ some vault
      → user.mint ≡ vault.mint
      → 0 < amount
      → amount ≤ user.amount
      → vault.amount + amount < u64_limit
      → (w' : World rt) × (s' : StakerAccount) × (stake rt w a amount now ≡ ok w')
        × (balance rt w'.bank a.stake_vault ≡ vault.amount + amount)
        × (balance rt w'.bank a.user_token_account + amount ≡ user.amount)
        × (lookup a.staker w'.stakers ≡ some s')
        × (s'.staked_amount
            ≡ (value_or zeroed_staker (lookup a.staker w.stakers)).staked_amount + amount)
        × (w'.pool.total_staked ≡ w.pool.total_staked + amount)
unfolding stake
Reachable-stake rt laws succeeds w clock now r later_on clock_range ranges a amount user vault c1
      at_address c3 outside unpaused is_user is_vault mint positive enough room =
    let v = Reachable-WorldSound rt laws w clock r in
    let seeds = staker_seed a.pool a.owner in
    let bump = rt.bump_of seeds in
    let old = value_or zeroed_staker (lookup a.staker w.stakers) in
    let t = init_staker old a.owner a.pool bump in
    let (staked, entries) = init_staker-keeps old a.owner a.pool bump in
    let slots = refreshed_all w.pool.total_staked now w.pool.rewards in
    let (owned, is_stake) =
      stake_accounts-parts rt w a.owner a.stake_mint a.user_token_account a.stake_vault c3 in
    let pool_owns : owner_of rt w.bank a.stake_vault ≡ some w.pool_key =
      ap (owner_of rt w.bank) is_stake ∙ v.vaults.stake_owner in
    let apart : a.user_token_account ≢ a.stake_vault =
      ne_of_owners rt w.bank a.user_token_account a.stake_vault a.owner w.pool_key owned pool_owns
        outside in
    let held : w.pool.total_staked ≤ vault.amount =
      omega (arith, v.principal, ap amount_in is_vault, ap (balance rt w.bank) is_stake) in
    let mine : old.staked_amount ≤ w.pool.total_staked =
      omega (
        arith,
        v.pooled.counted,
        total_of-value_le stake_of zeroed_staker a.staker w.stakers refl,
      ) in
    let accrues : AllAccrue t.staked_amount slots t.entries =
      subst (λ e. AllAccrue t.staked_amount slots e) (sym entries)
        (subst (λ n. AllAccrue n slots old.entries) (sym staked)
          (Reachable-AllAccrue_or rt laws w clock now r later_on clock_range ranges a.staker)) in
    let s' : StakerAccount = record t {
      staked_amount = t.staked_amount + amount;
      entries = credited_all t.staked_amount slots t.entries;
    } in
    let (bank', paid) =
      succeeds.pays w.bank a.user_token_account a.stake_vault a.owner amount user vault is_user
        is_vault (some-injective (sym (ap owner_in is_user) ∙ owned)) mint enough room in
    (
      record w {
        pool = record w.pool { rewards = slots; total_staked = w.pool.total_staked + amount };
        stakers = insert a.staker s' w.stakers;
        bank = bank';
      },
      s',
      rw
          (
            c1,
            eq→== a.staker (rt.address seeds bump) at_address,
            c3,
            lt→ltb 0 amount positive,
            eq→== w.pool.paused 0 unpaused,
            stake-fits w.pool old a.owner a.pool bump amount now positive unpaused
                (Reachable-AllSettle rt laws w clock now r later_on clock_range ranges) accrues
                (omega (arith, staked, mine, held, room)) (omega (arith, held, room)),
            paid,
          )
          refl,
      laws.received w.bank bank' a.user_token_account a.stake_vault a.owner amount paid apart
          ∙ ap (λ n. n + amount) (ap amount_in is_vault),
      laws.spent w.bank bank' a.user_token_account a.stake_vault a.owner amount paid apart
          ∙ ap amount_in is_user,
      lookup-insert_self a.staker s' w.stakers,
      ap (λ n. n + amount) staked,
      refl,
    )
