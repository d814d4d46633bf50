-- ===== src/Custody/Labels.antt =====
-- The mints and vaults of the slots, through the operations of update.rs.
use mm_staking.Base.{
  ℕ, ◌≡◌, refl, sym, ap, ◌∙◌, inl, inr, arith, some, Bool-cases, ◌==◌, get_elem?, set,
  get_elem?-set_cases,
}
use mm_staking.Int.{ℤ}
use mm_staking.Outcome.{ok}
use mm_staking.State.{Pubkey, default_key, Pool, RewardInfo}
use mm_staking.Update.{settle_round, update_globals}
use mm_staking.Update.PerSlot.{settle_slots-at}
use mm_staking.Update.Settle.{settle_slot_lem}
use mm_staking.Solvency.Pooled.{update_globals-parts}
use mm_staking.Runtime.{Runtime, owner_of}
use mm_staking.Custody.{funds, funds_at, Vaults}

-- The slot that stood there has the same mint and vault, and the pool counts as many slots.
pub record SameLabels (pool pool' : Pool) : Type 0 where
  pub stake : pool'.stake_vault ≡ pool.stake_vault
  pub count : pool'.reward_count ≡ pool.reward_count
  pub slots :
      (i : ℕ) (slot' : RewardInfo)
      → get_elem? pool'.rewards i ≡ some slot'
      → (slot : RewardInfo) × (get_elem? pool.rewards i ≡ some slot)
        × (slot'.mint ≡ slot.mint)
        × (slot'.vault ≡ slot.vault)

pub SameLabels-refl : (pool : Pool) → SameLabels pool pool
SameLabels-refl pool = record {
  stake = refl;
  count = refl;
  slots = λ i slot at. (slot, at, refl, refl);
}

pub SameLabels-trans : (p q r : Pool) → SameLabels p q → SameLabels q r → SameLabels p r
SameLabels-trans p q r f g = record {
  stake = g.stake ∙ f.stake;
  count = g.count ∙ f.count;
  slots = λ i slot at.
      let (t, at', m, v) = g.slots i slot at in
      let (u, at'', m', v') = f.slots i t at' in (u, at'', m ∙ m', v ∙ v');
}

settle_round-labels :
    (slot slot' : RewardInfo) (total : ℕ) (now : ℤ)
    → settle_round slot total now ≡ ok slot'
    → (slot'.mint ≡ slot.mint) × (slot'.vault ≡ slot.vault)
unfolding settle_round
settle_round-labels slot slot' total now h = elim (Bool-cases (slot.mint == default_key)) [
  | inl empty ↦ ground arith
  | inr taken ↦ ground (arith, settle_slot_lem slot slot' total now)
]

pub update_globals-labels :
    (pool pool' : Pool) (now : ℤ) → update_globals pool now ≡ ok pool' → SameLabels pool pool'
update_globals-labels pool pool' now h =
    let (go, e) = update_globals-parts pool now pool' h in
    record {
      stake = ap (λ p. p.stake_vault) e;
      count = ap (λ p. p.reward_count) e;
      slots = λ i slot' at.
          let (slot, was, round) =
            settle_slots-at pool.rewards pool'.rewards pool.total_staked now i slot' go at in
          let (m, v) = settle_round-labels slot slot' pool.total_staked now round in
          (slot, was, m, v);
    }

-- A write of a slot with the labels of the old one.
pub set-labels :
    (pool : Pool) (i : ℕ) (old slot : RewardInfo)
    → get_elem? pool.rewards i ≡ some old
    → slot.mint ≡ old.mint
    → slot.vault ≡ old.vault
    → SameLabels pool (record pool { rewards = set pool.rewards i slot })
set-labels pool i old slot at m v = record {
  stake = refl;
  count = refl;
  slots = λ j t g. elim (get_elem?-set_cases pool.rewards i j slot at g) [
    | inl (e, same) ↦ (
      old,
      ap (get_elem? pool.rewards) e ∙ at,
      ap (λ s. s.mint) same ∙ m,
      ap (λ s. s.vault) same ∙ v,
    )
    | inr (ne, was) ↦ (t, was, refl, refl)
  ];
}

module _ (rt : Runtime) (bank : rt.Bank) (pool pool' : Pool) (l : SameLabels pool pool') where
  pub funds-labels :
      (i : ℕ) (slot' : RewardInfo)
      → get_elem? pool'.rewards i ≡ some slot'
      → funds rt bank pool' i ≡ funds rt bank pool i
  funds-labels i slot' at =
      let (slot, was, m, v) = l.slots i slot' at in
      ap (funds_at rt bank) at ∙ ground (arith, was, m, v, ap (funds_at rt bank) was)

  pub Vaults-labels :
      (pool_key : Pubkey) → Vaults rt pool_key bank pool → Vaults rt pool_key bank pool'
  Vaults-labels pool_key v = record {
    stake_owner = ap (owner_of rt bank) l.stake ∙ v.stake_owner;
    owner = λ i slot at named.
        let (s, was, m, u) = l.slots i slot at in
        ap (owner_of rt bank) u ∙ v.owner i s was (λ e. named (m ∙ e));
    not_stake = λ i slot at named e.
        let (s, was, m, u) = l.slots i slot at in
        v.not_stake i s was (λ e. named (m ∙ e)) (sym u ∙ e ∙ l.stake);
    apart = λ i j slot other at at' named named' e.
        let (s, was, m, u) = l.slots i slot at in
        let (t, was', m', u') = l.slots j other at' in
        v.apart i j s t was was' (λ e. named (m ∙ e)) (λ e. named' (m' ∙ e)) (sym u ∙ e ∙ u');
  }
