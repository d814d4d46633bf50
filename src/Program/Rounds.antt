-- ===== src/Program/Rounds.antt =====
-- The rounds of `claim` over several vaults.
use mm_staking.Base.{
  ℕ, ◌+◌, ◌≤◌, ◌<◌, ◌≡◌, ◌≢◌, refl, sym, ap, ◌∙◌, arith, some, ◌⊎◌, inl, inr, List, [], ◌∷◌, All,
  All-map, All-map2, set, get_elem?-set_self, get_elem?-set_ne, Option-cases, eq→==, ==→eq,
  Bool-cases, ◌==◌,
}
use mm_staking.Word.{u64_limit}
use mm_staking.Outcome.{ok}
use mm_staking.State.{Pubkey, Pool, RewardEntry, StakerAccount}
use mm_staking.Logic.{claim_take_slot}
use mm_staking.Runtime.{Runtime, TokenAccount, TokenLaws, TransferSucceeds, balance, amount_in}
use mm_staking.Instructions.Claim.{Claim, pay_reward, claim_round, claim_loop}
use mm_staking.Program.Claimable.{claim_take_slot-fits}
use mm_staking.Program.Picks.{
  Pick, pairs, Apart, Apart-sym, Pairwise, Payable, Received, Kept, Kept-Payable, Kept-Received,
}

module _ (rt : Runtime) (laws : TokenLaws rt) (succeeds : TransferSucceeds rt) where
  -- A transfer leaves the accounts that it does not name.
  account-kept :
      (bank bank' : rt.Bank) (from to authority : Pubkey) (n : ℕ) (key : Pubkey) (v : TokenAccount)
      → rt.transfer bank from to authority n ≡ ok bank'
      → key ≢ from
      → key ≢ to
      → rt.account bank key ≡ some v
      → rt.account bank' key ≡ some v
  account-kept bank bank' from to authority n key v h ne ne' there =
      let amounts = laws.others bank bank' from to authority n key h ne ne' in
      let owners = laws.owners bank bank' from to authority n key h in
      let mints = laws.mints bank bank' from to authority n key h in
      elim (Option-cases (rt.account bank' key)) [
        | inl gone ↦ absurd (ground (arith, there, owners))
        | inr (u, here) ↦ ground (arith, amounts, owners, mints)
      ]

  -- The payment of what is due, which leaves the accounts of every other pair alone.
  pay-fits :
      (a : Claim) (bank : rt.Bank) (p : Pick)
      → p.vault_ai ≢ p.user_ai
      → rt.account bank p.vault_ai ≡ some p.vault
      → rt.account bank p.user_ai ≡ some p.user
      → p.vault.owner ≡ a.pool
      → p.user.owner ≡ a.owner
      → p.user.mint ≡ p.vault.mint
      → p.due ≤ p.vault.amount
      → p.user.amount + p.due < u64_limit
      → (bank' : rt.Bank) × (pay_reward rt bank a p.vault_ai p.user_ai p.vault_ai p.due ≡ ok bank')
        × (rt.transfer bank p.vault_ai p.user_ai a.pool p.due ≡ ok bank')
  unfolding pay_reward
  pay-fits a bank p apart is_vault is_user owned mine mint enough room =
      let (bank', paid) =
        succeeds.pays bank p.vault_ai p.user_ai a.pool p.due p.vault p.user is_vault is_user owned
          (sym mint) enough room in
      (
        bank',
        rw
            (
              eq→== p.vault_ai p.vault_ai refl,
              is_vault,
              is_user,
              eq→== p.user.owner a.owner mine,
              eq→== p.user.mint p.vault.mint mint,
              paid,
            )
            refl,
        paid,
      )

  -- The bank after a round: the one that was, where nothing is due, or that of the payment.
  abbrev Moved : Claim → Pick → rt.Bank → rt.Bank → Type 0
  Moved a p bank bank' =
      ((p.due ≡ 0) × (bank' ≡ bank))
      ⊎ (rt.transfer bank p.vault_ai p.user_ai a.pool p.due ≡ ok bank')

  abbrev emptied : StakerAccount → ℕ → RewardEntry → StakerAccount
  emptied s i e = record s { entries = set s.entries i (record e { rewards_accrued = 0 }) }

  claim_round-fits :
      (pool : Pool) (a : Claim) (s : StakerAccount) (bank : rt.Bank) (p : Pick)
      (v : Payable rt pool a s bank p)
      → (bank' : rt.Bank) × (claim_round rt pool a p.vault_ai p.user_ai (s, bank)
          ≡ ok (emptied s p.index v.entry, bank'))
        × Moved a p bank bank'
  unfolding claim_round
  claim_round-fits pool a s bank p v =
      let t = emptied s p.index v.entry in
      let taken : claim_take_slot pool s p.vault_ai ≡ ok (p.index, p.due, t) =
        claim_take_slot-fits pool s p.vault_ai p.index v.entry v.found v.has
        ∙ ap (λ n. ok (p.index, n, t)) v.accrued in
      elim (Bool-cases (p.due == 0)) [
        | inl nothing ↦ (bank, rw (taken, v.at, nothing) refl, inl (==→eq p.due 0 nothing, refl))
        | inr something ↦
            let (bank', run, paid) =
              pay-fits a bank p v.apart v.is_vault v.is_user v.owned v.mine v.mint v.enough
                v.room in
            (bank', rw (taken, v.at, something, v.is_slot, run) refl, inr paid)
      ]

  Moved-Received :
      (pool : Pool) (a : Claim) (s : StakerAccount) (bank bank' : rt.Bank) (p : Pick)
      (v : Payable rt pool a s bank p)
      → Moved a p bank bank'
      → Received rt (emptied s p.index v.entry) bank' p
  Moved-Received pool a s bank bank' p v moved =
      let left = record v.entry { rewards_accrued = 0 } in
      let (gains, pays) : (balance rt bank' p.user_ai ≡ p.user.amount + p.due)
          × (balance rt bank' p.vault_ai + p.due ≡ p.vault.amount) =
        elim moved [
          | inl (none_due, same) ↦ (
            ap (λ b. balance rt b p.user_ai) same ∙ omega (arith, ap amount_in v.is_user, none_due),
            omega
                (arith, ap (λ b. balance rt b p.vault_ai) same, ap amount_in v.is_vault, none_due),
          )
          | inr paid ↦ (
            laws.received bank bank' p.vault_ai p.user_ai a.pool p.due paid v.apart
                ∙ ap (λ n. n + p.due) (ap amount_in v.is_user),
            laws.spent bank bank' p.vault_ai p.user_ai a.pool p.due paid v.apart
                ∙ ap amount_in v.is_vault,
          )
        ] in
      record {
        gains = gains;
        pays = pays;
        entry = left;
        left = get_elem?-set_self s.entries p.index left v.has;
        nothing = refl;
      }

  Moved-Kept :
      (a : Claim) (s : StakerAccount) (e : RewardEntry) (bank bank' : rt.Bank) (p q : Pick)
      → Moved a p bank bank'
      → Apart p q
      → Kept rt s (emptied s p.index e) bank bank' q
  Moved-Kept a s e bank bank' p q moved far =
      let entry =
        get_elem?-set_ne s.entries p.index q.index (record e { rewards_accrued = 0 }) far.index in
      elim moved [
        | inl (none_due, same) ↦ record {
          vault = λ h. ap (λ b. rt.account b q.vault_ai) same ∙ h;
          user = λ h. ap (λ b. rt.account b q.user_ai) same ∙ h;
          vault_balance = ap (λ b. balance rt b q.vault_ai) same;
          user_balance = ap (λ b. balance rt b q.user_ai) same;
          entry = entry;
        }
        | inr paid ↦
            let ne : q.vault_ai ≢ p.vault_ai = λ h. far.vaults (sym h) in
            let ne' : q.vault_ai ≢ p.user_ai = λ h. far.user_vault (sym h) in
            let nu : q.user_ai ≢ p.vault_ai = λ h. far.vault_user (sym h) in
            let nu' : q.user_ai ≢ p.user_ai = λ h. far.users (sym h) in
            let from = p.vault_ai in
            let to = p.user_ai in
            record {
              vault = account-kept bank bank' from to a.pool p.due q.vault_ai q.vault paid ne ne';
              user = account-kept bank bank' from to a.pool p.due q.user_ai q.user paid nu nu';
              vault_balance = laws.others bank bank' from to a.pool p.due q.vault_ai paid ne ne';
              user_balance = laws.others bank bank' from to a.pool p.due q.user_ai paid nu nu';
              entry = entry;
            }
      ]

  -- The whole loop pays every pair, where no two share a slot or an account, and keeps the rest.
  pub claim_loop-fits :
      (pool : Pool) (a : Claim) (ps : List Pick) (s : StakerAccount) (bank : rt.Bank)
      → All (Payable rt pool a s bank) ps
      → Pairwise Apart ps
      → (t : StakerAccount) × (bank' : rt.Bank) × (claim_loop rt pool a (pairs ps) (s, bank)
          ≡ ok (t, bank'))
        × All (Received rt t bank') ps
        × (t.staked_amount ≡ s.staked_amount)
        × ((q : Pick) → All (λ p. Apart p q) ps → Received rt s bank q → Received rt t bank' q)
  unfolding claim_loop
  claim_loop-fits pool a [] s bank all far = (s, bank, refl, tt, refl, λ q h r. r)
  claim_loop-fits pool a (p ∷ ps) s bank (v, all) (far, fars) =
      let (bank1, run, moved) = claim_round-fits pool a s bank p v in
      let t1 = emptied s p.index v.entry in
      let kept = λ (q : Pick) (h : Apart p q). Moved-Kept a s v.entry bank bank1 p q moved h in
      let (t, bank', rest, paid, same, keeps) =
        claim_loop-fits pool a ps t1 bank1
          (All-map2 ps (λ q h w. Kept-Payable rt pool a s t1 bank bank1 q (kept q h) w) far all)
          fars in
      (
        t,
        bank',
        rw run rest,
        (
          keeps p (All-map ps (λ q h. Apart-sym p q h) far)
              (Moved-Received pool a s bank bank1 p v moved),
          paid,
        ),
        same,
        λ q (h, hs) r. keeps q hs (Kept-Received rt s t1 bank bank1 q (kept q h) r),
      )
