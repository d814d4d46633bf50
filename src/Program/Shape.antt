-- ===== src/Program/Shape.antt =====
-- Stakes and shapes over the instructions and the history of a pool.
use mm_staking.Base.{
  ◌≤◌, ◌≡◌, ◌≢◌, refl, sym, ap, ◌∙◌, subst, arith, inl, inr, some, length, lookup, insert, value_or,
  lookup-insert, Bool-cases, ◌==◌, ==→eq, AllValues, AllValues-insert, AllValues-value_or,
}
use mm_staking.Int.{ℤ}
use mm_staking.Outcome.{ok}
use mm_staking.State.{Pubkey, default_key, StakerAccount, zeroed_staker, max_rewards}
use mm_staking.Solvency.{Stakers}
use mm_staking.Runtime.{Runtime, World}
use mm_staking.Custody.Starting.{initialize_pool-calls}
use mm_staking.Program.{
  Instruction, signer_of, process, called, failed, sent, opened, Reachable, initialized, later,
}
use mm_staking.Program.Effects.{StakerEffect}
use mm_staking.Program.Ownership.{process-WorldEffect}

abbrev pub EightEntries : StakerAccount → Type 0
EightEntries s = length s.entries ≡ max_rewards

-- The arrays have the length of their types in the source.
pub record Shaped (rt : Runtime) (w : World rt) : Type 0 where
  pub slots : length w.pool.rewards ≡ max_rewards
  pub entries : AllValues EightEntries w.stakers

-- One account of the map after a write.
write-keeps :
    (signer key k : Pubkey) (s s' : StakerAccount) (stakers : Stakers)
    → StakerEffect signer (value_or zeroed_staker (lookup key stakers)) s'
    → lookup k stakers ≡ some s
    → s.owner ≢ signer
    → s.owner ≢ default_key
    → (t : StakerAccount) × (lookup k (insert key s' stakers) ≡ some t)
      × (t.owner ≡ s.owner)
      × (s.staked_amount ≤ t.staked_amount)
write-keeps signer key k s s' stakers f there foreign owned = elim (Bool-cases (key == k)) [
  | inr other ↦ (s, lookup-insert key k s' stakers ∙ rw other there, refl, omega arith)
  | inl hit ↦
      let same : key ≡ k = ==→eq key k hit in
      let g : StakerEffect signer s s' =
        subst (λ o. StakerEffect signer (value_or zeroed_staker o) s')
          (ap (λ j. lookup j stakers) same ∙ there) f in
      (
        s',
        lookup-insert key k s' stakers ∙ rw hit refl,
        elim g.owner [ inl kept ↦ kept | inr fresh ↦ absurd (owned fresh) ],
        elim g.staked [ inl more ↦ more | inr mine ↦ absurd (foreign mine) ],
      )
]

module _ (rt : Runtime) where
  -- An instruction that succeeds keeps the account of a staker who is not its signer: where the
  -- account has an owner, it still stands at its address, with the same owner and at least its
  -- stake.
  pub process-keeps_stake :
      (w : World rt) (i : Instruction) (now : ℤ) (w' : World rt)
      → process rt w i now ≡ ok w'
      → (key : Pubkey) (s : StakerAccount) → lookup key w.stakers ≡ some s
      → s.owner ≢ signer_of i
      → s.owner ≢ default_key
      → (t : StakerAccount) × (lookup key w'.stakers ≡ some t)
        × (t.owner ≡ s.owner)
        × (s.staked_amount ≤ t.staked_amount)
  process-keeps_stake w i now w' h key s there foreign owned =
      elim (process-WorldEffect rt w now w' i h).stakers [
        | inl same ↦ (s, ap (lookup key) same ∙ there, refl, omega arith)
        | inr (k, s', e, f) ↦
            let (t, at, owner, more) =
              write-keeps (signer_of i) k key s s' w.stakers f there foreign owned in
            (t, ap (lookup key) e ∙ at, owner, more)
      ]

  process-Shaped :
      (w : World rt) (i : Instruction) (now : ℤ) (w' : World rt)
      → process rt w i now ≡ ok w'
      → Shaped rt w
      → Shaped rt w'
  process-Shaped w i now w' h v =
      let effect = process-WorldEffect rt w now w' i h in
      record {
        slots = effect.slots ∙ v.slots;
        entries = elim effect.stakers [
          | inl same ↦ subst (AllValues EightEntries) (sym same) v.entries
          | inr (key, s', e, f) ↦ subst (AllValues EightEntries) (sym e) (
              AllValues-insert EightEntries key s' w.stakers v.entries (
                f.entries
                ∙ AllValues-value_or EightEntries zeroed_staker key w.stakers refl v.entries))
        ];
      }

  -- The lists that stand for the arrays keep their length.
  pub Reachable-Shaped : (w : World rt) (clock : ℤ) → Reachable rt w clock → Shaped rt w
  Reachable-Shaped w clock (initialized bank a default_duration keeper late h) =
      let (made, key, nobody, rewards, total, vault, count) =
        initialize_pool-calls rt bank a default_duration keeper w h in
      record { slots = ap length rewards; entries = subst (AllValues EightEntries) (sym nobody) tt }
  Reachable-Shaped w now (later {w = old} {clock = clock} before (called i le out h)) =
      process-Shaped old i now w h (Reachable-Shaped old clock before)
  Reachable-Shaped w now (later {w = old} {clock = clock} before (failed i fault le h)) =
      Reachable-Shaped old clock before
  Reachable-Shaped w now
        (later {w = old} {clock = clock} before (sent user from to authority n out owned h)) =
      let v = Reachable-Shaped old clock before in record { slots = v.slots; entries = v.entries }
  Reachable-Shaped w now (later {w = old} {clock = clock} before (opened key mint owner h)) =
      let v = Reachable-Shaped old clock before in record { slots = v.slots; entries = v.entries }
