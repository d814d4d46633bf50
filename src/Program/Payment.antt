-- ===== src/Program/Payment.antt =====
-- What a claim of one slot moves.
use mm_staking.Base.{
  ℕ, ◌+◌, ◌-◌, ◌*◌, ◌/◌, ◌≡◌, ◌≢◌, sym, ap, ◌∙◌, arith, inl, inr, some, [], ◌∷◌, get_elem?, lookup,
  some-injective,
}
use mm_staking.Int.{ℤ}
use mm_staking.Outcome.{ok, >>=-eq-ok, ok-injective}
use mm_staking.State.{Pubkey, default_key, precision, Pool, RewardInfo, RewardEntry, StakerAccount}
use mm_staking.Update.Settle.{settled}
use mm_staking.Logic.Taking.{claim_settle_all-entry}
use mm_staking.Solvency.Paying.{claim_take_slot-parts}
use mm_staking.Runtime.{Runtime, World, TokenLaws, balance}
use mm_staking.Instructions.Claim.{Claim, claim_loop, claim_round, claim}
use mm_staking.Program.{Instruction, process, Reachable}
use mm_staking.Program.Registry.{BlankSlots, process-RegistryEffect}
use mm_staking.Program.Mints.{Reachable-BlankSlots}
use mm_staking.Custody.ClaimParts.{claim-calls, claim_round-parts}

-- What a staker with stake `staked` is owed in a slot, from an entry that was last paid earlier.
abbrev pub owed : ℕ → RewardInfo → RewardEntry → ℕ
owed staked slot e =
    e.rewards_accrued
    + staked * (slot.reward_per_token_stored - e.reward_per_token_paid) / precision

settled-vault :
    (slot : RewardInfo) (total : ℕ) (now : ℤ) → slot.vault ≡ (settled slot total now).vault
settled-vault slot total now = ground arith

module _ (rt : Runtime) (laws : TokenLaws rt) where
  -- A round moves the amount that it took from the vault to the user.
  claim_round-moves :
      (pool : Pool) (a : Claim) (vault_ai user_ai : Pubkey) (s : StakerAccount) (bank : rt.Bank)
      (t : StakerAccount) (bank' : rt.Bank)
      → claim_round rt pool a vault_ai user_ai (s, bank) ≡ ok (t, bank')
      → vault_ai ≢ user_ai
      → (i : ℕ) × (slot : RewardInfo) × (e : RewardEntry) × (get_elem? pool.rewards i ≡ some slot)
        × (slot.vault ≡ vault_ai)
        × (get_elem? s.entries i ≡ some e)
        × (balance rt bank' user_ai ≡ balance rt bank user_ai + e.rewards_accrued)
        × (balance rt bank' vault_ai + e.rewards_accrued ≡ balance rt bank vault_ai)
  claim_round-moves pool a vault_ai user_ai s bank t bank' h apart =
      let (idx, amount, slot, taken, at, effect) =
        claim_round-parts rt pool a vault_ai user_ai s bank t bank' h in
      let (slot', e, at', hit, entry, sum, f) =
        claim_take_slot-parts pool s vault_ai idx amount t taken in
      elim effect [
        | inl (nothing, same) ↦ (
          idx,
          slot',
          e,
          at',
          hit,
          entry,
          omega (arith, sum, nothing, ap (λ b. balance rt b user_ai) same),
          omega (arith, sum, nothing, ap (λ b. balance rt b vault_ai) same),
        )
        | inr (something, user, paid) ↦ (
          idx,
          slot',
          e,
          at',
          hit,
          entry,
          laws.received bank bank' vault_ai user_ai a.pool amount paid apart
              ∙ ap (λ n. balance rt bank user_ai + n) sum,
          ap (λ n. balance rt bank' vault_ai + n) (sym sum)
              ∙ laws.spent bank bank' vault_ai user_ai a.pool amount paid apart,
        )
      ]

  claim-pays :
      (w : World rt) (a : Claim) (vault_ai user_ai : Pubkey) (now : ℤ) (w' : World rt)
      (s : StakerAccount)
      → claim rt w a (vault_ai ∷ user_ai ∷ []) now ≡ ok w'
      → lookup a.staker w.stakers ≡ some s
      → vault_ai ≢ user_ai
      → vault_ai ≢ default_key
      → BlankSlots w'.pool
      → (i : ℕ) × (slot : RewardInfo) × (e : RewardEntry) × (get_elem? w.pool.rewards i ≡ some slot)
        × (slot.vault ≡ vault_ai)
        × (get_elem? s.entries i ≡ some e)
        × (balance rt w'.bank user_ai
            ≡ balance rt w.bank user_ai
              + owed s.staked_amount (settled slot w.pool.total_staked now) e)
        × (balance rt w'.bank vault_ai
              + owed s.staked_amount (settled slot w.pool.total_staked now) e
            ≡ balance rt w.bank vault_ai)
  unfolding claim_loop
  claim-pays w a vault_ai user_ai now w' s h there apart real blank =
      let (s0, pool', s', t, bank', (at_key, mine), go, looped, f) =
        claim-calls rt w a (vault_ai ∷ user_ai ∷ []) now w' h in
      let same_s : s0 ≡ s = some-injective (sym at_key ∙ there) in
      let (r, round, h1) =
        >>=-eq-ok (claim_round rt pool' a vault_ai user_ai (s', w.bank)) _ looped in
      let (i, new, e', at, hit, entry, gains, pays) =
        claim_round-moves pool' a vault_ai user_ai s' w.bank r.0 r.1 round apart in
      let named : new.mint ≢ default_key =
        λ q. real (sym hit ∙ blank i new (ap (λ x. get_elem? x.pool.rewards i) f ∙ at) q) in
      let (slot, e, e2, was, is, had, has, paid, accrued) =
        claim_settle_all-entry w.pool s0 now pool' s' go i new at named in
      let same_bank : w'.bank ≡ r.1 =
        ap (λ x. x.bank) f ∙ sym (ap (λ (q : StakerAccount × rt.Bank). q.1) (ok-injective h1)) in
      let amount : e'.rewards_accrued
          ≡ owed s.staked_amount (settled slot w.pool.total_staked now) e =
        ap (λ d. d.rewards_accrued) (some-injective (sym entry ∙ has))
        ∙ accrued
        ∙ ap (λ n. owed s0.staked_amount n e) is
        ∙ ap (λ o. owed o.staked_amount (settled slot w.pool.total_staked now) e) same_s in
      (
        i,
        slot,
        e,
        was,
        settled-vault slot w.pool.total_staked now ∙ sym (ap (λ n. n.vault) is) ∙ hit,
        ap (λ o. get_elem? o.entries i) (sym same_s) ∙ had,
        ap (λ b. balance rt b user_ai) same_bank
            ∙ gains
            ∙ ap (λ n. balance rt w.bank user_ai + n) amount,
        ap
              (λ b.
                balance rt b vault_ai
                + owed s.staked_amount (settled slot w.pool.total_staked now) e)
              same_bank
            ∙ ap (λ n. balance rt r.1 vault_ai + n) (sym amount)
            ∙ pays,
      )

  -- A claim of one vault that succeeds, in a world that a pool can reach, where the token program
  -- has the laws, moves exactly what the staker is owed from that vault to the user's token
  -- account: with the slot of the vault settled up to now, what the entry had accrued, and the
  -- stake times the rise of the reward per token since the entry was last paid, over the precision
  -- and rounded down. The vault is not the default key, and not the user's account.
  pub Reachable-claim_pays :
      (w : World rt) (clock : ℤ)
      → Reachable rt w clock
      → (a : Claim) (vault_ai user_ai : Pubkey) (now : ℤ) (w' : World rt) (s : StakerAccount)
      → process rt w (Instruction.claim a (vault_ai ∷ user_ai ∷ [])) now ≡ ok w'
      → lookup a.staker w.stakers ≡ some s
      → vault_ai ≢ user_ai
      → vault_ai ≢ default_key
      → (i : ℕ) × (slot : RewardInfo) × (e : RewardEntry) × (get_elem? w.pool.rewards i ≡ some slot)
        × (slot.vault ≡ vault_ai)
        × (get_elem? s.entries i ≡ some e)
        × (balance rt w'.bank user_ai
            ≡ balance rt w.bank user_ai
              + owed s.staked_amount (settled slot w.pool.total_staked now) e)
        × (balance rt w'.bank vault_ai
              + owed s.staked_amount (settled slot w.pool.total_staked now) e
            ≡ balance rt w.bank vault_ai)
  unfolding process
  Reachable-claim_pays w clock r a vault_ai user_ai now w' s h there apart real =
      let call = Instruction.claim a (vault_ai ∷ user_ai ∷ []) in
      claim-pays w a vault_ai user_ai now w' s h there apart real
        ((process-RegistryEffect rt w now w' call h).blank (Reachable-BlankSlots rt w clock r))
