-- ===== src/Update/PerSlot.antt =====
-- The two loops of `update_reward`, slot by slot.
use mm_staking.Base.{ℕ, zero, suc, ◌≡◌, refl, arith, some, List, [], ◌∷◌, get_elem?, ap, ◌∙◌, subst}
use mm_staking.Int.{ℤ}
use mm_staking.Outcome.{ok, >>=-eq-ok}
use mm_staking.State.{RewardInfo, RewardEntry}
use mm_staking.Update.{settle_round, settle_slots, accrue_round, accrue_entries}

settle_slots-cons :
    (s : RewardInfo) (slots slots' : List RewardInfo) (total : ℕ) (now : ℤ)
    → settle_slots (s ∷ slots) total now ≡ ok slots'
    → (s' : RewardInfo) × (rest : List RewardInfo) × (slots' ≡ s' ∷ rest)
      × (settle_round s total now ≡ ok s')
      × (settle_slots slots total now ≡ ok rest)
unfolding settle_slots
settle_slots-cons s slots slots' total now h =
    let (s', first, more) = >>=-eq-ok (settle_round s total now) _ h in
    let (rest, others, last) = >>=-eq-ok (settle_slots slots total now) _ more in
    (s', rest, ground arith, first, others)

-- Each slot of the result is the settlement of the slot that stood there.
pub settle_slots-at :
    (slots slots' : List RewardInfo) (total : ℕ) (now : ℤ) (i : ℕ) (slot' : RewardInfo)
    → settle_slots slots total now ≡ ok slots'
    → get_elem? slots' i ≡ some slot'
    → (slot : RewardInfo) × (get_elem? slots i ≡ some slot)
      × (settle_round slot total now ≡ ok slot')
settle_slots-at [] slots' total now i slot' h g =
    let gone : slots' ≡ [] = unfold settle_slots in ground arith in
    absurd (ground (arith, ap (λ l. get_elem? l i) gone))
settle_slots-at (s ∷ slots) slots' total now zero slot' h g =
    let (s', rest, e, first, others) = settle_slots-cons s slots slots' total now h in
    (s, refl, first ∙ ap ok (ground (arith, ap (λ l. get_elem? l 0) e)))
settle_slots-at (s ∷ slots) slots' total now (suc i) slot' h g =
    let (s', rest, e, first, others) = settle_slots-cons s slots slots' total now h in
    settle_slots-at slots rest total now i slot' others
      (ground (arith, ap (λ l. get_elem? l (suc i)) e))

accrue_entries-cons :
    (s : RewardInfo) (slots : List RewardInfo) (staked : ℕ) (entries entries' : List RewardEntry)
    → accrue_entries (s ∷ slots) staked entries ≡ ok entries'
    → (e e' : RewardEntry) × (rest rest' : List RewardEntry) × (entries ≡ e ∷ rest)
      × (entries' ≡ e' ∷ rest')
      × (accrue_round s staked e ≡ ok e')
      × (accrue_entries slots staked rest ≡ ok rest')
unfolding accrue_entries
accrue_entries-cons s slots staked [] entries' h = absurd (cc)
accrue_entries-cons s slots staked (e ∷ rest) entries' h =
    let (e', first, more) = >>=-eq-ok (accrue_round s staked e) _ h in
    let (rest', others, last) = >>=-eq-ok (accrue_entries slots staked rest) _ more in
    (e, e', rest, rest', refl, ground arith, first, others)

-- Beside each slot there was an entry, and there is its accrual.
pub accrue_entries-at :
    (slots : List RewardInfo) (staked : ℕ) (entries entries' : List RewardEntry) (i : ℕ)
    (slot : RewardInfo)
    → accrue_entries slots staked entries ≡ ok entries'
    → get_elem? slots i ≡ some slot
    → (e e' : RewardEntry) × (get_elem? entries i ≡ some e)
      × (get_elem? entries' i ≡ some e')
      × (accrue_round slot staked e ≡ ok e')
accrue_entries-at [] staked entries entries' i slot h g = absurd (cc)
accrue_entries-at (s ∷ slots) staked entries entries' zero slot h g =
    let (e, e', rest, rest', p, q, first, others) =
      accrue_entries-cons s slots staked entries entries' h in
    (
      e,
      e',
      ap (λ l. get_elem? l 0) p,
      ap (λ l. get_elem? l 0) q,
      subst (λ t. accrue_round t staked e ≡ ok e') (ground arith) first,
    )
accrue_entries-at (s ∷ slots) staked entries entries' (suc i) slot h g =
    let (e, e', rest, rest', p, q, first, others) =
      accrue_entries-cons s slots staked entries entries' h in
    let (d, d', u, v, w) = accrue_entries-at slots staked rest rest' i slot others g in
    (d, d', ap (λ l. get_elem? l (suc i)) p ∙ u, ap (λ l. get_elem? l (suc i)) q ∙ v, w)
