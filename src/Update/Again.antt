-- ===== src/Update/Again.antt =====
-- A second update at the same time, on update.rs.
use mm_staking.Base.{
  ℕ, ◌<◌, ◌≡◌, refl, ap, ◌∙◌, subst, arith, inl, inr, List, [], ◌∷◌, Bool-cases, ◌==◌,
}
use mm_staking.Int.{ℤ}
use mm_staking.Word.{u64_limit}
use mm_staking.Outcome.{ok, >>=-eq-ok, ok-injective}
use mm_staking.State.{default_key, precision, RewardInfo, RewardEntry, Pool, StakerAccount}
use mm_staking.Math.{earned}
use mm_staking.Math.Exact.{earned-ok}
use mm_staking.Update.{
  settle_slot, settle_round, settle_slots, accrue_round, accrue_entries, update_globals,
  update_reward,
}
use mm_staking.Update.Settle.{settle_slot_lem, min_ℤ_lem}
use native.Mathlib.Nat.{mul-zero, zero-div}

settle_slot-again :
    (slot : RewardInfo) (total : ℕ) (now : ℤ)
    → slot.last_update_time ≡ now
    → settle_slot slot total now ≡ ok slot
unfolding settle_slot
settle_slot-again slot total now e = ground (arith, min_ℤ_lem now slot.period_finish)

settle_round-again :
    (slot slot' : RewardInfo) (total total' : ℕ) (now : ℤ)
    → settle_round slot total now ≡ ok slot'
    → settle_round slot' total' now ≡ ok slot'
unfolding settle_round
settle_round-again slot slot' total total' now h = elim (Bool-cases (slot.mint == default_key)) [
  | inl empty ↦ ground arith
  | inr taken ↦
      ground (arith, settle_slot_lem slot slot' total now, settle_slot-again slot' total' now)
]

pub settle_slots-again :
    (slots slots' : List RewardInfo) (total total' : ℕ) (now : ℤ)
    → settle_slots slots total now ≡ ok slots'
    → settle_slots slots' total' now ≡ ok slots'
unfolding settle_slots
settle_slots-again [] slots' total total' now h =
    subst (λ l. settle_slots l total' now ≡ ok l) (ok-injective h) refl
settle_slots-again (s ∷ slots) slots' total total' now h =
    let (s', first, h1) = >>=-eq-ok (settle_round s total now) _ h in
    let (rest, others, h2) = >>=-eq-ok (settle_slots slots total now) _ h1 in
    subst (λ l. settle_slots l total' now ≡ ok l) (ok-injective h2)
      (rw
        (
          settle_round-again s s' total total' now first,
          settle_slots-again slots rest total total' now others,
        )
        refl)

earned-again :
    (staked rpt accrued : ℕ) → accrued < u64_limit → earned staked rpt rpt accrued ≡ ok accrued
unfolding earned
earned-again staked rpt accrued h = ground (arith, mul-zero staked, zero-div precision)

accrue_round-again :
    (slot : RewardInfo) (staked staked' : ℕ) (e e' : RewardEntry)
    → accrue_round slot staked e ≡ ok e'
    → accrue_round slot staked' e' ≡ ok e'
unfolding accrue_round
accrue_round-again slot staked staked' e e' h = elim (Bool-cases (slot.mint == default_key)) [
  | inl empty ↦ rw empty refl
  | inr taken ↦
      let rpt = slot.reward_per_token_stored in
      let (accrued, go, f) =
        >>=-eq-ok (earned staked rpt e.reward_per_token_paid e.rewards_accrued) _ (rw taken at h) in
      let (paid, is, fits) =
        earned-ok staked rpt e.reward_per_token_paid e.rewards_accrued accrued go in
      subst (λ d. accrue_round slot staked' d ≡ ok d) (ok-injective f)
        (rw (taken, earned-again staked' rpt accrued fits) refl)
]

pub accrue_entries-again :
    (slots : List RewardInfo) (staked staked' : ℕ) (entries entries' : List RewardEntry)
    → accrue_entries slots staked entries ≡ ok entries'
    → accrue_entries slots staked' entries' ≡ ok entries'
unfolding accrue_entries
accrue_entries-again [] staked staked' [] entries' h =
    subst (λ l. accrue_entries [] staked' l ≡ ok l) (ok-injective h) refl
accrue_entries-again [] staked staked' (e ∷ entries) entries' h = absurd (cc)
accrue_entries-again (s ∷ slots) staked staked' [] entries' h = absurd (cc)
accrue_entries-again (s ∷ slots) staked staked' (e ∷ entries) entries' h =
    let (e', first, h1) = >>=-eq-ok (accrue_round s staked e) _ h in
    let (rest, others, h2) = >>=-eq-ok (accrue_entries slots staked entries) _ h1 in
    subst (λ l. accrue_entries (s ∷ slots) staked' l ≡ ok l) (ok-injective h2)
      (rw
        (
          accrue_round-again s staked staked' e e' first,
          accrue_entries-again slots staked staked' entries rest others,
        )
        refl)

-- After an update of a pool and a staker that succeeds, a second one at the same time succeeds and
-- changes nothing, whatever the pool's count and the stake have become.
pub update_reward-again :
    (pool : Pool) (s : StakerAccount) (now : ℤ) (p : Pool) (t : StakerAccount) (total staked : ℕ)
    → update_reward pool s now ≡ ok (p, t)
    → update_reward (record p { total_staked = total }) (record t { staked_amount = staked }) now
      ≡ ok (record p { total_staked = total }, record t { staked_amount = staked })
unfolding update_reward update_globals
update_reward-again pool s now p t total staked h =
    let (q, go, h1) = >>=-eq-ok (update_globals pool now) _ h in
    let (es, accrues, h2) = >>=-eq-ok (accrue_entries q.rewards s.staked_amount s.entries) _ h1 in
    let (slots, settles, h3) = >>=-eq-ok (settle_slots pool.rewards pool.total_staked now) _ go in
    let same_slots : slots ≡ p.rewards =
      ap (λ r. r.rewards) (ok-injective h3)
      ∙ ap (λ (r : Pool × StakerAccount). r.0.rewards) (ok-injective h2) in
    let same_entries : es ≡ t.entries =
      ap (λ (r : Pool × StakerAccount). r.1.entries) (ok-injective h2) in
    let same_q : q.rewards ≡ p.rewards =
      ap (λ (r : Pool × StakerAccount). r.0.rewards) (ok-injective h2) in
    let again : settle_slots p.rewards total now ≡ ok p.rewards =
      subst (λ l. settle_slots l total now ≡ ok l) same_slots
        (settle_slots-again pool.rewards slots pool.total_staked total now settles) in
    let entries_again : accrue_entries p.rewards staked t.entries ≡ ok t.entries =
      subst (λ l. accrue_entries p.rewards staked l ≡ ok l) same_entries
        (subst (λ l. accrue_entries l staked es ≡ ok es) same_q
          (accrue_entries-again q.rewards s.staked_amount staked s.entries es accrues)) in
    rw (again, entries_again) refl
