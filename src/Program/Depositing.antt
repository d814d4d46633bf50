-- ===== src/Program/Depositing.antt =====
-- `deposit_rewards` in the worlds that a pool can reach.
use mm_staking.Base.{
  ℕ, ◌+◌, ◌-◌, ◌≤◌, ◌<◌, ◌≡◌, ◌≢◌, refl, sym, ap, ◌∙◌, arith, some, get_elem?, set,
  get_elem?-set_self, lt→ltb, some-injective,
}
use mm_staking.Int.{ℤ, pos, ◌≤ℤ◌}
use mm_staking.Word.{u64_limit, i64_limit, checked_sub}
use mm_staking.Outcome.{ok}
use mm_staking.State.{default_key, RewardInfo}
use mm_staking.Update.{find_slot}
use mm_staking.Update.Settle.{settled}
use mm_staking.Update.Total.{refreshed_all}
use mm_staking.Logic.Depositing.{rerated, CanRerate, refreshed_all-get, deposit_rewards-fits}
use mm_staking.Solvency.Fits.{InRange}
use mm_staking.Runtime.{
  Runtime, World, TokenAccount, TokenLaws, TransferSucceeds, balance, owner_in, owner_of, amount_in,
}
use mm_staking.Instructions.DepositRewards.{DepositRewards, deposit_accounts, deposit_rewards}
use mm_staking.Custody.Moves.{ne_of_owners}
use mm_staking.Custody.DepositParts.{deposit_accounts-parts, find_reward_vault-parts, no_mint_key}
use mm_staking.Program.{Reachable}
use mm_staking.Program.Sound.{Reachable-WorldSound}
use mm_staking.Program.Ready.{Reachable-AllSettle}

checked_sub-gain : (b a n : ℕ) → b ≡ a + n → checked_sub b a ≡ some n
checked_sub-gain b a n h = ground arith

-- In a world that a pool can reach, a deposit of a positive amount into an active slot succeeds:
-- the vault gains the amount and the keeper's account pays it, and the slot has the rate that
-- streams the amount and what the old period had left over one duration from now. This is where the
-- clock has not gone back and the times of the registered slots and their stored rewards per token
-- leave room in their widths, their vaults hold less than 2^64, the new rate and the new finish fit
-- theirs, the accounts pass the constraints, the keeper is not the pool's address, the keeper's
-- account has the mint of the vault and holds the amount, the vault has room for it, and the token
-- program has the laws and transfers between good accounts.
pub Reachable-deposit :
    (rt : Runtime) (laws : TokenLaws rt) (succeeds : TransferSucceeds rt) (w : World rt)
    (clock now : ℤ)
    → Reachable rt w clock
    → clock ≤ℤ now
    → now ≤ℤ pos (i64_limit - 1)
    → ((i : ℕ) (slot : RewardInfo)
        → get_elem? w.pool.rewards i ≡ some slot
        → slot.mint ≢ default_key
        → InRange slot now × (balance rt w.bank slot.vault < u64_limit))
    → (a : DepositRewards) (amount i : ℕ) (slot : RewardInfo) (keeper vault : TokenAccount)
    → deposit_accounts rt w a ≡ ok tt
    → a.keeper ≢ w.pool_key
    → find_slot w.pool a.reward_mint ≡ some i
    → get_elem? w.pool.rewards i ≡ some slot
    → slot.active ≡ 1
    → CanRerate (settled slot w.pool.total_staked now) amount now
    → rt.account w.bank a.keeper_token_account ≡ some keeper
    → rt.account w.bank a.reward_vault ≡ some vault
    → keeper.mint ≡ vault.mint
    → 0 < amount
    → amount ≤ keeper.amount
    → vault.amount + amount < u64_limit
    → (w' : World rt) × (deposit_rewards rt w a amount now ≡ ok w')
      × (balance rt w'.bank a.reward_vault ≡ vault.amount + amount)
      × (balance rt w'.bank a.keeper_token_account + amount ≡ keeper.amount)
      × (get_elem? w'.pool.rewards i
          ≡ some (rerated (settled slot w.pool.total_staked now) amount now))
unfolding deposit_rewards
Reachable-deposit rt laws succeeds w clock now r later_on clock_range ranges a amount i slot keeper
      vault passes outside found at active can is_keeper is_vault mint positive enough room =
    let v = Reachable-WorldSound rt laws w clock r in
    let (owned, vault_of, is_mint) = deposit_accounts-parts rt w a passes in
    let (j, slot', found', at', hit, is_named) =
      find_reward_vault-parts w.pool a.reward_mint a.reward_vault vault_of in
    let same : slot' ≡ slot =
      some-injective
        (sym at' ∙ ap (get_elem? w.pool.rewards) (some-injective (sym found' ∙ found)) ∙ at) in
    let named : slot.mint ≢ default_key = λ e.
      no_mint_key rt laws w.bank a.reward_mint is_mint (sym is_named ∙ ap (λ s. s.mint) same ∙ e) in
    let pool_owns : owner_of rt w.bank a.reward_vault ≡ some w.pool_key =
      ap (owner_of rt w.bank) (sym (ap (λ s. s.vault) (sym same) ∙ hit))
      ∙ v.vaults.owner i slot at named in
    let apart : a.keeper_token_account ≢ a.reward_vault =
      ne_of_owners rt w.bank a.keeper_token_account a.reward_vault a.keeper w.pool_key owned
        pool_owns outside in
    let (bank', paid) =
      succeeds.pays w.bank a.keeper_token_account a.reward_vault a.keeper amount keeper vault
        is_keeper is_vault (some-injective (sym (ap owner_in is_keeper) ∙ owned)) mint enough
        room in
    let gained =
      laws.received w.bank bank' a.keeper_token_account a.reward_vault a.keeper amount paid apart in
    let spent =
      laws.spent w.bank bank' a.keeper_token_account a.reward_vault a.keeper amount paid apart in
    let total = w.pool.total_staked in
    let slots = refreshed_all total now w.pool.rewards in
    let new = rerated (settled slot total now) amount now in
    (
      record w { pool = record w.pool { rewards = set slots i new }; bank = bank' },
      rw
          (
            passes,
            lt→ltb 0 amount positive,
            paid,
            checked_sub-gain (balance rt bank' a.reward_vault) (balance rt w.bank a.reward_vault)
                amount gained,
            deposit_rewards-fits w.pool a.reward_mint amount now i slot found at named active
                (Reachable-AllSettle rt laws w clock now r later_on clock_range ranges) can,
          )
          refl,
      gained ∙ ap (λ n. n + amount) (ap amount_in is_vault),
      spent ∙ ap amount_in is_keeper,
      get_elem?-set_self slots i new (refreshed_all-get total now w.pool.rewards i slot at named),
    )
