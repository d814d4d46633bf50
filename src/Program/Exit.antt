-- ===== src/Program/Exit.antt =====
-- `emergency_withdraw` in the worlds that a pool can reach.
use mm_staking.Base.{
  ◌+◌, ◌-◌, ◌≤◌, ◌<◌, ◌≡◌, ◌≢◌, refl, sym, ap, ◌∙◌, subst, arith, some, length, lookup, insert,
  lookup-insert_self, total_of-lookup_le, lt→ltb, some-injective, value_or, AllValues-value_or,
}
use mm_staking.Int.{ℤ}
use mm_staking.Word.{u64_limit}
use mm_staking.Outcome.{ok}
use mm_staking.State.{Pubkey, max_rewards, StakerAccount, zeroed_staker}
use mm_staking.Logic.Emergency.{emergency_withdraw-total}
use mm_staking.Solvency.{stake_of}
use mm_staking.Runtime.{
  Runtime, World, TokenAccount, TokenLaws, TransferSucceeds, balance, owner_of, owner_in, amount_in,
  pool_account,
}
use mm_staking.Instructions.Staking.{stake_accounts, staker_account}
use mm_staking.Instructions.EmergencyWithdraw.{EmergencyWithdraw, emergency_withdraw}
use mm_staking.Custody.Adding.{pool_account-key}
use mm_staking.Custody.Moves.{ne_of_owners}
use mm_staking.Custody.Staking.{stake_accounts-parts}
use mm_staking.Custody.Exits.{staker_account-parts}
use mm_staking.Program.{Reachable}
use mm_staking.Program.Sound.{Reachable-WorldSound}
use mm_staking.Program.Shape.{EightEntries, Reachable-Shaped}

-- What holds when an exit's accounts have passed their constraints.
pub record ExitReady (rt : Runtime) (w : World rt) (a_pool stake_vault user_account key : Pubkey)
    (s : StakerAccount) (vault : TokenAccount) : Type 0 where
  pub there : lookup key w.stakers ≡ some s
  pub eight : length s.entries ≡ max_rewards
  pub vault_owner : vault.owner ≡ a_pool
  pub enough : s.staked_amount ≤ vault.amount
  pub apart : stake_vault ≢ user_account

pub exit_ready :
    (rt : Runtime) (laws : TokenLaws rt) (w : World rt) (clock : ℤ)
    → Reachable rt w clock
    → (owner pool key mint user_account stake_vault : Pubkey) (s : StakerAccount)
      (vault : TokenAccount)
    → pool_account rt w pool mint ≡ ok tt
    → staker_account rt w owner pool key ≡ ok s
    → stake_accounts rt w owner mint user_account stake_vault ≡ ok tt
    → owner ≢ w.pool_key
    → rt.account w.bank stake_vault ≡ some vault
    → ExitReady rt w pool stake_vault user_account key s vault
exit_ready rt laws w clock r owner pool key mint user_account stake_vault s vault c1 c2 c3 outside
      is_vault =
    let v = Reachable-WorldSound rt laws w clock r in
    let shape = Reachable-Shaped rt w clock r in
    let (there, mine) = staker_account-parts rt w owner pool key s c2 in
    let (owned, is_stake) = stake_accounts-parts rt w owner mint user_account stake_vault c3 in
    let pool_owns : owner_of rt w.bank stake_vault ≡ some w.pool_key =
      ap (owner_of rt w.bank) is_stake ∙ v.vaults.stake_owner in
    record {
      there = there;
      eight =
          subst (λ o. EightEntries (value_or zeroed_staker o)) there
            (AllValues-value_or EightEntries zeroed_staker key w.stakers refl shape.entries);
      vault_owner =
          some-injective (sym (ap owner_in is_vault) ∙ pool_owns)
          ∙ sym (pool_account-key rt w pool mint c1);
      enough = omega (
        arith,
        v.principal,
        v.pooled.counted,
        total_of-lookup_le stake_of key s w.stakers there,
        ap amount_in is_vault,
        ap (balance rt w.bank) is_stake,
      );
      apart =
          ne_of_owners rt w.bank stake_vault user_account w.pool_key owner pool_owns owned
            (λ e. outside (sym e));
    }

-- In a world that a pool can reach, a staker with a stake whose accounts pass the constraints of
-- `emergency_withdraw` gets the whole stake by it, paused or not and at whatever time: the call
-- succeeds, the user's token account grows by the stake, and the staker's account has none left.
-- This is where the token program has the laws and a transfer between good accounts succeeds, the
-- owner is not the pool's address, the user's account has the mint of the vault and room for the
-- stake.
pub Reachable-exit :
    (rt : Runtime) (laws : TokenLaws rt) (succeeds : TransferSucceeds rt) (w : World rt) (clock : ℤ)
    → Reachable rt w clock
    → (a : EmergencyWithdraw) (s : StakerAccount) (user vault : TokenAccount)
    → pool_account rt w a.pool a.stake_mint ≡ ok tt
    → staker_account rt w a.owner a.pool a.staker ≡ ok s
    → stake_accounts rt w a.owner a.stake_mint a.user_token_account a.stake_vault ≡ ok tt
    → a.owner ≢ w.pool_key
    → rt.account w.bank a.user_token_account ≡ some user
    → rt.account w.bank a.stake_vault ≡ some vault
    → vault.mint ≡ user.mint
    → user.amount + s.staked_amount < u64_limit
    → 0 < s.staked_amount
    → (w' : World rt) × (s' : StakerAccount) × (emergency_withdraw rt w a ≡ ok w')
      × (balance rt w'.bank a.user_token_account ≡ user.amount + s.staked_amount)
      × (lookup a.staker w'.stakers ≡ some s')
      × (s'.staked_amount ≡ 0)
unfolding emergency_withdraw
Reachable-exit rt laws succeeds w clock r a s user vault c1 c2 c3 outside is_user is_vault mint room
      some_stake =
    let x =
      exit_ready rt laws w clock r a.owner a.pool a.staker a.stake_mint a.user_token_account
        a.stake_vault s vault c1 c2 c3 outside is_vault in
    let shape = Reachable-Shaped rt w clock r in
    let (s', go, gone, forfeits) = emergency_withdraw-total w.pool s (shape.slots ∙ sym x.eight) in
    let (bank', paid) =
      succeeds.pays w.bank a.stake_vault a.user_token_account a.pool s.staked_amount vault user
        is_vault is_user x.vault_owner mint x.enough room in
    let received =
      laws.received w.bank bank' a.stake_vault a.user_token_account a.pool s.staked_amount paid
        x.apart in
    (
      record w {
        pool = record w.pool { total_staked = w.pool.total_staked - s.staked_amount };
        stakers = insert a.staker s' w.stakers;
        bank = bank';
      },
      s',
      rw (c1, c2, c3, go, lt→ltb 0 s.staked_amount some_stake, paid) refl,
      received ∙ ap (λ n. n + s.staked_amount) (ap amount_in is_user),
      lookup-insert_self a.staker s' w.stakers,
      gone,
    )
