-- ===== src/Program/Claiming.antt =====
-- `claim` in the worlds that a pool can reach.
use mm_staking.Base.{
  ℕ, ◌+◌, ◌-◌, ◌%◌, ◌<◌, ◌≡◌, ◌≢◌, refl, sym, ap, ◌∙◌, arith, some, List, [], ◌∷◌, length, All,
  All-map, All-map2, get_elem?, lookup, insert, lookup-insert_self, subst, find_index, ◌==◌, eq→==,
  some-injective,
}
use mm_staking.Int.{ℤ, pos, ◌≤ℤ◌}
use mm_staking.Word.{u64_limit, i64_limit}
use mm_staking.Outcome.{ok}
use mm_staking.State.{default_key, Pool, RewardInfo, RewardEntry, StakerAccount}
use mm_staking.Update.Settle.{settled}
use mm_staking.Update.Total.{credited}
use mm_staking.Logic.Depositing.{refreshed_all-get}
use mm_staking.Solvency.Fits.{InRange}
use mm_staking.Runtime.{
  Runtime, World, TokenLaws, TransferSucceeds, balance, amount_in, owner_in, owner_of, pool_account,
}
use mm_staking.Instructions.Staking.{staker_account}
use mm_staking.Instructions.Claim.{Claim, claim}
use mm_staking.Custody.Adding.{pool_account-key}
use mm_staking.Custody.Exits.{staker_account-parts}
use mm_staking.Custody.Moves.{ne_of_owners}
use mm_staking.Program.{Reachable}
use mm_staking.Program.Claimable.{
  credited_all-get, credited-accrued, settled-labels, pool_now, staker_now, settles, finds, covers,
}
use mm_staking.Program.Picks.{Pick, pairs, pairs_even, Apart, Pairwise, Payable, Received}
use mm_staking.Program.Rounds.{claim_loop-fits}
use mm_staking.Program.Sound.{Reachable-WorldSound}
use mm_staking.Program.Payment.{owed}

-- A pair that a claim of the staker `s` can name at `now`: the vault of a registered slot, which is
-- not the default key, with what `s` is owed there, and an account of the owner that has the mint
-- of the vault and room for the amount.
pub record Claimable (rt : Runtime) (w : World rt) (a : Claim) (s : StakerAccount) (now : ℤ)
    (p : Pick) : Type 0 where
  pub slot : RewardInfo
  pub entry : RewardEntry
  pub at : get_elem? w.pool.rewards p.index ≡ some slot
  pub named : slot.mint ≢ default_key
  pub real : slot.vault ≢ default_key
  pub is_slot : slot.vault ≡ p.vault_ai
  pub has : get_elem? s.entries p.index ≡ some entry
  pub due : p.due ≡ owed s.staked_amount (settled slot w.pool.total_staked now) entry
  pub is_vault : rt.account w.bank p.vault_ai ≡ some p.vault
  pub is_user : rt.account w.bank p.user_ai ≡ some p.user
  pub mine : p.user.owner ≡ a.owner
  pub mint : p.user.mint ≡ p.vault.mint
  pub room : p.user.amount + p.due < u64_limit

-- Two pairs with other slots and other accounts of the user.
pub record Differ (p q : Pick) : Type 0 where
  pub index : p.index ≢ q.index
  pub users : p.user_ai ≢ q.user_ai

module _ (rt : Runtime) (laws : TokenLaws rt) (succeeds : TransferSucceeds rt) (w : World rt)
    (clock now : ℤ) (r : Reachable rt w clock) (later_on : clock ≤ℤ now)
    (clock_range : now ≤ℤ pos (i64_limit - 1))
    (ranges : (i : ℕ) (slot : RewardInfo)
      → get_elem? w.pool.rewards i ≡ some slot
      → slot.mint ≢ default_key
      → InRange slot now × (balance rt w.bank slot.vault < u64_limit))
    (a : Claim) (s : StakerAccount) (c1 : pool_account rt w a.pool w.pool.stake_mint ≡ ok tt)
    (c2 : staker_account rt w a.owner a.pool a.staker ≡ ok s) (outside : a.owner ≢ w.pool_key) where
  abbrev here : Pool
  here = pool_now rt laws w clock now r later_on clock_range ranges

  abbrev mine_now : StakerAccount
  mine_now = staker_now rt laws w clock now r later_on clock_range ranges s

  pool_owns :
      (p : Pick) → Claimable rt w a s now p → owner_of rt w.bank p.vault_ai ≡ some w.pool_key
  pool_owns p v =
      ap (owner_of rt w.bank) (sym v.is_slot)
      ∙ (Reachable-WorldSound rt laws w clock r).vaults.owner p.index v.slot v.at v.named

  vault_not_user :
      (p q : Pick) → Claimable rt w a s now p → Claimable rt w a s now q → p.vault_ai ≢ q.user_ai
  vault_not_user p q v u =
      ne_of_owners rt w.bank p.vault_ai q.user_ai w.pool_key a.owner (pool_owns p v)
        (ap owner_in u.is_user ∙ ap some u.mine) (λ e. outside (sym e))

  Claimable-Apart :
      (p q : Pick) → Claimable rt w a s now p → Claimable rt w a s now q → Differ p q → Apart p q
  Claimable-Apart p q v u d =
      let sound = Reachable-WorldSound rt laws w clock r in
      record {
        index = d.index;
        vaults = λ e. d.index (
            sound.vaults.apart p.index q.index v.slot u.slot v.at u.at v.named u.named
              (v.is_slot ∙ e ∙ sym u.is_slot));
        users = d.users;
        vault_user = vault_not_user p q v u;
        user_vault = λ e. vault_not_user q p u v (sym e);
      }

  Claimable-Payable : (p : Pick) → Claimable rt w a s now p → Payable rt here a mine_now w.bank p
  Claimable-Payable p v =
      let (there, own) = staker_account-parts rt w a.owner a.pool a.staker s c2 in
      let new = settled v.slot w.pool.total_staked now in
      let owned : p.vault.owner ≡ a.pool =
        some-injective (sym (ap owner_in v.is_vault) ∙ pool_owns p v)
        ∙ sym (pool_account-key rt w a.pool w.pool.stake_mint c1) in
      let at =
        refreshed_all-get w.pool.total_staked now w.pool.rewards p.index v.slot v.at v.named in
      record {
        slot = new;
        entry = credited s.staked_amount new v.entry;
        found =
            subst (λ k. find_index (λ t. t.vault == k) here.rewards ≡ some p.index) v.is_slot
              (finds rt laws w clock now r later_on clock_range ranges p.index v.slot v.at v.named
                v.real);
        at = at;
        is_slot = (settled-labels v.slot w.pool.total_staked now).1 ∙ v.is_slot;
        has = credited_all-get s.staked_amount here.rewards s.entries p.index new v.entry at v.has;
        accrued =
            credited-accrued s.staked_amount w.pool.total_staked now v.slot v.entry v.named
            ∙ sym v.due;
        apart = vault_not_user p p v v;
        is_vault = v.is_vault;
        is_user = v.is_user;
        owned = owned;
        mine = v.mine;
        mint = v.mint;
        enough = omega (
          arith,
          covers rt laws w clock now r later_on clock_range ranges a.staker s p.index v.slot v.entry
              there v.at v.named v.has,
          v.due,
          ap (balance rt w.bank) v.is_slot,
          ap amount_in v.is_vault,
        );
        room = v.room;
      }

  Pairwise-Apart :
      (ps : List Pick) → All (Claimable rt w a s now) ps → Pairwise Differ ps → Pairwise Apart ps
  Pairwise-Apart [] all far = tt
  Pairwise-Apart (p ∷ ps) (v, all) (far, fars) =
      (All-map2 ps (λ q u d. Claimable-Apart p q v u d) all far, Pairwise-Apart ps all fars)

  -- In a world that a pool can reach, a claim of any number of vaults, those of different
  -- registered slots, succeeds: it pays into each of the user's accounts exactly what the staker is
  -- owed in its slot, settled up to now, takes that from the slot's vault, and leaves the staker's
  -- entry for the slot with nothing accrued and the stake as it was. This is where the clock has
  -- not gone back and the times of the registered slots and their stored rewards per token leave
  -- room in their widths, their vaults hold less than 2^64, the accounts pass the constraints, the
  -- owner is not the pool's address, no claimed vault is the default key, the accounts that are
  -- paid into are different, are the owner's, have the mint of their vault and room for the amount,
  -- and the token program has the laws and transfers between good accounts.
  pub Reachable-claim :
      (ps : List Pick)
      → All (Claimable rt w a s now) ps
      → Pairwise Differ ps
      → (w' : World rt) × (t : StakerAccount) × (claim rt w a (pairs ps) now ≡ ok w')
        × (lookup a.staker w'.stakers ≡ some t)
        × (t.staked_amount ≡ s.staked_amount)
        × All (Received rt t w'.bank) ps
  unfolding claim
  Reachable-claim ps all far =
      let (there, own) = staker_account-parts rt w a.owner a.pool a.staker s c2 in
      let (t, bank', looped, paid, same, keeps) =
        claim_loop-fits rt laws succeeds here a ps mine_now w.bank
          (All-map ps Claimable-Payable all) (Pairwise-Apart ps all far) in
      (
        record w { pool = here; stakers = insert a.staker t w.stakers; bank = bank' },
        t,
        rw
            (
              c1,
              c2,
              settles rt laws w clock now r later_on clock_range ranges a.staker s there,
              eq→== (length (pairs ps) % 2) 0 (pairs_even ps),
              looped,
            )
            refl,
        lookup-insert_self a.staker t w.stakers,
        same,
        paid,
      )
