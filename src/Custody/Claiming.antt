-- ===== src/Custody/Claiming.antt =====
-- `claim` and the vaults, on instructions/claim.rs.
use mm_staking.Base.{
  ℕ, ◌+◌, ◌≤◌, ◌≡◌, ◌≢◌, sym, ap, ◌∙◌, subst, arith, some, inl, inr, List, [], ◌∷◌, get_elem?,
  some-injective, lookup, insert, value_or, lookup-insert_self, insert-insert, eq→==,
  total_of-lookup_le,
}
use mm_staking.Int.{ℤ, ◌≤ℤ◌}
use mm_staking.Outcome.{ok, >>=-eq-ok, ok-injective}
use mm_staking.State.{
  Pubkey, default_key, Pool, RewardInfo, RewardEntry, StakerAccount, zeroed_staker,
}
use mm_staking.Logic
use mm_staking.Solvency.{Stakers, PoolSound, claim_of, entry_claim}
use mm_staking.Solvency.Principal.{claim_settle_all-PoolSound}
use mm_staking.Solvency.Paying.{claim_take_slot-parts, claim_take_slot-PoolSound}
use mm_staking.Runtime.{Runtime, World, TokenLaws, balance, owner_of}
use mm_staking.Instructions.Claim.{Claim, claim_round, claim_loop, claim}
use mm_staking.Custody.{funds, funds_at, WorldSound}
use mm_staking.Custody.Moves.{pool_pays, others_keep, Vaults-transfer, funds-pool_pays}
use mm_staking.Custody.Staking.{update_reward-labels, rebuild}
use mm_staking.Custody.DepositParts.{named_funds}
use mm_staking.Custody.ClaimParts.{claim_round-parts, claim-calls}

module _ (rt : Runtime) where
  module _ (laws : TokenLaws rt) (pool_key : Pubkey) (pool : Pool) (base : Stakers) (now : ℤ)
      (a : Claim) (outside : a.owner ≢ pool_key) where
    -- The world within the loop, where the staker's account is not written back yet.
    abbrev midway : StakerAccount → rt.Bank → World rt
    midway s bank = record {
      pool_key = pool_key;
      pool = pool;
      stakers = insert a.staker s base;
      bank = bank;
    }

    -- A slot that pays is registered, since an empty one owes nothing.
    paying-named :
        (s : StakerAccount) (bank : rt.Bank) (idx amount : ℕ) (slot : RewardInfo) (e : RewardEntry)
        → WorldSound rt (midway s bank) now
        → get_elem? pool.rewards idx ≡ some slot
        → get_elem? s.entries idx ≡ some e
        → amount ≡ e.rewards_accrued
        → amount ≢ 0
        → slot.mint ≢ default_key
    paying-named s bank idx amount slot e v at entry is some_left empty =
        let rpt = slot.reward_per_token_stored in
        let there = lookup-insert_self a.staker s base in
        let owed : claim_of idx rpt s ≡ entry_claim s.staked_amount rpt (some e) =
          ap (entry_claim s.staked_amount rpt) entry in
        let part =
          total_of-lookup_le (claim_of idx rpt) a.staker s (insert a.staker s base) there in
        let nothing : funds rt bank pool idx ≡ 0 =
          ap (funds_at rt bank) at ∙ rw (eq→== slot.mint default_key empty) in
        some_left
          (omega (arith, (v.pooled.slots idx slot at).solvent.backed, part, owed, nothing, is))

    -- The pool after a round whose payment is at most what was taken, and from the slot's vault alone.
    taken-PoolSound :
        (s : StakerAccount) (bank bank' : rt.Bank) (vault_ai : Pubkey) (idx amount : ℕ)
        (s' : StakerAccount)
        → Logic.claim_take_slot pool s vault_ai ≡ ok (idx, amount, s')
        → WorldSound rt (midway s bank) now
        → funds rt bank pool idx ≤ funds rt bank' pool idx + amount
        → ((j : ℕ) (t : RewardInfo)
            → j ≢ idx
            → get_elem? pool.rewards j ≡ some t
            → funds rt bank pool j ≤ funds rt bank' pool j)
        → PoolSound pool (insert a.staker s' base) now (funds rt bank' pool)
    taken-PoolSound s bank bank' vault_ai idx amount s' taken v here there =
        let loaded_here =
          ap (λ o. Logic.claim_take_slot pool (value_or zeroed_staker o) vault_ai)
            (lookup-insert_self a.staker s base)
          ∙ taken in
        subst (λ d. PoolSound pool d now (funds rt bank' pool)) (insert-insert a.staker s s' base)
          (claim_take_slot-PoolSound pool (insert a.staker s base) now (funds rt bank pool)
            (funds rt bank' pool) a.staker vault_ai idx amount s' loaded_here here there v.pooled)

    -- A round that pays.
    paid-WorldSound :
        (vault_ai user_ai : Pubkey) (s : StakerAccount) (bank : rt.Bank) (s' : StakerAccount)
        (bank' : rt.Bank) (idx amount : ℕ) (slot : RewardInfo)
        → Logic.claim_take_slot pool s vault_ai ≡ ok (idx, amount, s')
        → get_elem? pool.rewards idx ≡ some slot
        → slot.mint ≢ default_key
        → slot.vault ≡ vault_ai
        → owner_of rt bank user_ai ≡ some a.owner
        → rt.transfer bank vault_ai user_ai a.pool amount ≡ ok bank'
        → WorldSound rt (midway s bank) now
        → WorldSound rt (midway s' bank') now
    paid-WorldSound vault_ai user_ai s bank s' bank' idx amount slot taken at named is_vault user
          paid v =
        let from_pool : owner_of rt bank vault_ai ≡ some pool_key =
          ap (owner_of rt bank) (sym is_vault) ∙ v.vaults.owner idx slot at named in
        let spent =
          pool_pays rt laws bank bank' vault_ai user_ai a.pool amount paid pool_key a.owner outside
            from_pool user in
        let stays =
          others_keep rt laws bank bank' vault_ai user_ai a.pool amount paid pool_key a.owner
            outside pool.stake_vault user v.vaults.stake_owner
            (λ q. v.vaults.not_stake idx slot at named (is_vault ∙ sym q)) in
        record {
          pooled =
              taken-PoolSound s bank bank' vault_ai idx amount s' taken v
                (omega (
                  arith,
                  spent,
                  named_funds rt bank pool idx slot at named,
                  named_funds rt bank' pool idx slot at named,
                  ap (balance rt bank) is_vault,
                  ap (balance rt bank') is_vault,
                ))
                (λ j t ne g.
                  funds-pool_pays rt laws bank bank' vault_ai user_ai a.pool amount paid pool_key
                    a.owner outside pool j t user v.vaults g
                    (λ real q.
                      ne (v.vaults.apart j idx t slot g at real named (q ∙ sym is_vault))));
          principal = omega (arith, v.principal, stays);
          vaults =
              Vaults-transfer rt laws bank bank' vault_ai user_ai a.pool amount paid pool_key
                a.owner outside pool v.vaults;
        }

    -- A round takes from a slot's vault what it takes from the staker's entry.
    claim_round-WorldSound :
        (vault_ai user_ai : Pubkey) (s : StakerAccount) (bank : rt.Bank) (s' : StakerAccount)
        (bank' : rt.Bank)
        → claim_round rt pool a vault_ai user_ai (s, bank) ≡ ok (s', bank')
        → WorldSound rt (midway s bank) now
        → WorldSound rt (midway s' bank') now
    claim_round-WorldSound vault_ai user_ai s bank s' bank' h v =
        let (idx, amount, slot, taken, at, effect) =
          claim_round-parts rt pool a vault_ai user_ai s bank s' bank' h in
        let (slot', e, at', is_vault', entry, sum, f) =
          claim_take_slot-parts pool s vault_ai idx amount s' taken in
        let is_vault : slot.vault ≡ vault_ai =
          ap (λ t. t.vault) (some-injective (sym at ∙ at')) ∙ is_vault' in
        elim effect [
          | inl (nothing, same) ↦
              subst (λ b. WorldSound rt (midway s' b) now) (sym same)
                (record {
                  pooled =
                      taken-PoolSound s bank bank vault_ai idx amount s' taken v (omega arith)
                        (λ j t ne g. omega arith);
                  principal = v.principal;
                  vaults = v.vaults;
                })
          | inr (some_left, user, paid) ↦
              paid-WorldSound vault_ai user_ai s bank s' bank' idx amount slot taken at
                (paying-named s bank idx amount slot e v at entry sum some_left) is_vault user paid
                v
        ]

    claim_loop-WorldSound :
        (pairs : List Pubkey) (s : StakerAccount) (bank : rt.Bank) (s' : StakerAccount)
        (bank' : rt.Bank)
        → claim_loop rt pool a pairs (s, bank) ≡ ok (s', bank')
        → WorldSound rt (midway s bank) now
        → WorldSound rt (midway s' bank') now
    unfolding claim_loop
    claim_loop-WorldSound [] s bank s' bank' h v =
        subst (λ (r : StakerAccount × rt.Bank). WorldSound rt (midway r.0 r.1) now) (ok-injective h)
          v
    claim_loop-WorldSound (vault_ai ∷ []) s bank s' bank' h v = absurd (ground arith)
    claim_loop-WorldSound (vault_ai ∷ user_ai ∷ rest) s bank s' bank' h v =
        let (r, round, h1) = >>=-eq-ok (claim_round rt pool a vault_ai user_ai (s, bank)) _ h in
        claim_loop-WorldSound rest r.0 r.1 s' bank' h1
          (claim_round-WorldSound vault_ai user_ai s bank r.0 r.1 round v)

  -- A claim pays from each vault what the staker's entry for its slot had accrued.
  pub claim-WorldSound :
      (laws : TokenLaws rt) (w : World rt) (clock now : ℤ)
      → clock ≤ℤ now
      → WorldSound rt w clock
      → (a : Claim) (remaining : List Pubkey) (w' : World rt) → a.owner ≢ w.pool_key
      → claim rt w a remaining now ≡ ok w'
      → WorldSound rt w' now
  unfolding Logic.claim_settle_all
  claim-WorldSound laws w clock now later v a remaining w' outside h =
      let (s, pool', s', t, bank', (there, mine), go, looped, e) =
        claim-calls rt w a remaining now w' h in
      let old = value_or zeroed_staker (lookup a.staker w.stakers) in
      let go' : Logic.claim_settle_all w.pool old now ≡ ok (pool', s') =
        ap (λ o. Logic.claim_settle_all w.pool (value_or zeroed_staker o) now) there ∙ go in
      let sound =
        claim_settle_all-PoolSound w.pool w.stakers clock now (funds rt w.bank w.pool) a.staker
          later v.pooled pool' s' go' in
      let (l, total, same) = update_reward-labels w.pool s now pool' s' go in
      let settled =
        rebuild rt w pool' (insert a.staker s' w.stakers) w.bank now l sound v.vaults
          (λ i slot at. omega arith) (omega (arith, v.principal, total)) in
      subst (λ x. WorldSound rt x now) (sym e)
        (claim_loop-WorldSound laws w.pool_key pool' w.stakers now a outside remaining s' w.bank t
          bank' looped settled)
