-- ===== src/Custody/Registered.antt =====
-- The number of registered reward slots of a pool.
use mm_staking.Base.{
  ℕ, none, ltb, length-set, zero, suc, ◌+◌, ◌≤◌, ◌≡◌, ◌≢◌, refl, sym, ap, ap₂, ◌∙◌, arith, some,
  List, [], ◌∷◌, length, replicate, get_elem?, set, ◌==◌, eq→==, ne→==-false, if◌then◌else◌,
  some-injective, ◌<◌, find_index, Bool-cases, inl, inr,
}
use mm_staking.State.{Pubkey, default_key, Pool, RewardInfo, empty_slot}
use mm_staking.Custody.Labels.{SameLabels}

abbrev pub registered : List RewardInfo → ℕ
registered [] = 0
registered (slot ∷ slots) = (if slot.mint == default_key then 0 else 1) + registered slots

pub registered-le_length : (slots : List RewardInfo) → registered slots ≤ length slots
registered-le_length [] = omega arith
registered-le_length (slot ∷ slots) = ground (arith, registered-le_length slots)

pub registered-empty : (n : ℕ) → registered (replicate n empty_slot) ≡ 0
registered-empty zero = refl
registered-empty (suc n) = omega (arith, registered-empty n)

registered-same :
    (slots slots' : List RewardInfo)
    → length slots' ≡ length slots
    → ((i : ℕ) (slot' : RewardInfo)
        → get_elem? slots' i ≡ some slot'
        → (slot : RewardInfo) × (get_elem? slots i ≡ some slot) × (slot'.mint ≡ slot.mint))
    → registered slots' ≡ registered slots
registered-same [] [] e same = refl
registered-same [] (t ∷ slots') e same = absurd (omega (arith, e))
registered-same (s ∷ slots) [] e same = absurd (omega (arith, e))
registered-same (s ∷ slots) (t ∷ slots') e same =
    let (old, was, m) = same 0 t refl in
    ap₂ (λ (k : Pubkey) (n : ℕ). (if k == default_key then 0 else 1) + n)
      (m ∙ ap (λ r. r.mint) (sym (some-injective was)))
      (registered-same slots slots' (omega (arith, e)) (λ i slot' at. same (suc i) slot' at))

pub registered-labels :
    (pool pool' : Pool)
    → SameLabels pool pool'
    → length pool'.rewards ≡ length pool.rewards
    → registered pool'.rewards ≡ registered pool.rewards
registered-labels pool pool' l same =
    registered-same pool.rewards pool'.rewards same
      (λ i slot' at. let (slot, was, m, u) = l.slots i slot' at in (slot, was, m))

-- A registered slot in the place of an empty one is one more.
pub registered-set :
    (slots : List RewardInfo) (i : ℕ) (old new : RewardInfo)
    → get_elem? slots i ≡ some old
    → old.mint ≡ default_key
    → new.mint ≢ default_key
    → registered (set slots i new) ≡ registered slots + 1
registered-set [] i old new at empty named = absurd (cc)
registered-set (s ∷ slots) zero old new at empty named =
    rw
      (
        ne→==-false new.mint default_key named,
        eq→== s.mint default_key (ap (λ r. r.mint) (some-injective at) ∙ empty),
      )
      (omega arith)
registered-set (s ∷ slots) (suc i) old new at empty named =
    omega (arith, registered-set slots i old new at empty named)

-- An array that is not full has an empty slot.
pub registered-room :
    (slots : List RewardInfo)
    → registered slots < length slots
    → (i : ℕ) × (find_index (λ slot. slot.mint == default_key) slots ≡ some i)
registered-room [] room = absurd (omega (arith, room))
registered-room (s ∷ slots) room = elim (Bool-cases (s.mint == default_key)) [
  | inl empty ↦ (0, rw empty refl)
  | inr taken ↦
      let (i, found) = registered-room slots (ground (arith, room, taken)) in
      (suc i, rw (taken, found) refl)
]

pub registered-full :
    (slots : List RewardInfo)
    → find_index (λ slot. slot.mint == default_key) slots ≡ none
    → registered slots ≡ length slots
registered-full slots none_free = elim (Bool-cases (ltb (registered slots) (length slots))) [
  | inl room ↦ let (i, found) = registered-room slots (ground (arith, room)) in absurd (cc)
  | inr full ↦ ground (arith, full, registered-le_length slots)
]

-- An array with an empty slot is not full.
pub registered-lt_length :
    (slots : List RewardInfo) (i : ℕ) (old : RewardInfo)
    → get_elem? slots i ≡ some old
    → old.mint ≡ default_key
    → registered slots < length slots
registered-lt_length slots i old at empty =
    let new : RewardInfo = record old { mint = 1 } in
    omega (
      arith,
      registered-set slots i old new at empty (omega arith),
      registered-le_length (set slots i new),
      length-set slots i new,
    )
