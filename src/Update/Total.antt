-- ===== src/Update/Total.antt =====
-- When an update of a pool and a staker cannot fail.
use mm_staking.Base.{
  ℕ, zero, suc, ◌+◌, ◌-◌, ◌*◌, ◌/◌, ◌≤◌, ◌<◌, ◌≡◌, ◌≢◌, refl, ap, arith, inl, inr, some, List, [],
  ◌∷◌, length, get_elem?, Bool-cases, ◌==◌, ==-false→ne, if◌then◌else◌,
}
use mm_staking.Int.{ℤ}
use mm_staking.Word.{u64_limit, u128_limit}
use mm_staking.Outcome.{ok}
use mm_staking.State.{default_key, precision, RewardInfo, RewardEntry, Pool, StakerAccount}
use mm_staking.Math.Exact.{earned-fits}
use mm_staking.Update.{
  settle_round, settle_slots, accrue_round, accrue_entries, update_globals, update_reward,
}
use mm_staking.Update.Settle.{settled}
use mm_staking.Update.Fits.{CanSettle, settle_slot-fits}

-- The slot after an update of the pool: an empty one stays.
abbrev pub refreshed : ℕ → ℤ → RewardInfo → RewardInfo
refreshed total now slot = if slot.mint == default_key then slot else settled slot total now

abbrev pub refreshed_all : ℕ → ℤ → List RewardInfo → List RewardInfo
refreshed_all total now [] = []
refreshed_all total now (s ∷ slots) = refreshed total now s ∷ refreshed_all total now slots

-- The entry of a staker with so many tokens after the update.
abbrev pub credited : ℕ → RewardInfo → RewardEntry → RewardEntry
credited staked slot e = if slot.mint == default_key then e else record {
  reward_per_token_paid = slot.reward_per_token_stored;
  rewards_accrued =
      e.rewards_accrued
      + staked * (slot.reward_per_token_stored - e.reward_per_token_paid) / precision;
}

abbrev pub credited_all : ℕ → List RewardInfo → List RewardEntry → List RewardEntry
credited_all staked [] entries = []
credited_all staked (s ∷ slots) [] = []
credited_all staked (s ∷ slots) (e ∷ entries) =
    credited staked s e ∷ credited_all staked slots entries

-- What an entry accrues beside a slot fits the widths of the source.
pub record CanAccrue (staked : ℕ) (slot : RewardInfo) (e : RewardEntry) : Type 0 where
  pub paid : e.reward_per_token_paid ≤ slot.reward_per_token_stored
  pub product : staked * (slot.reward_per_token_stored - e.reward_per_token_paid) < u128_limit
  pub total :
      e.rewards_accrued
        + staked * (slot.reward_per_token_stored - e.reward_per_token_paid) / precision
      < u64_limit

abbrev pub AllSettle : ℤ → List RewardInfo → Type 0
AllSettle now [] = Unit
AllSettle now (s ∷ slots) = (s.mint ≢ default_key → CanSettle s now) × AllSettle now slots

abbrev pub AllAccrue : ℕ → List RewardInfo → List RewardEntry → Type 0
AllAccrue staked [] [] = Unit
AllAccrue staked [] (e ∷ entries) = ⊥
AllAccrue staked (s ∷ slots) [] = ⊥
AllAccrue staked (s ∷ slots) (e ∷ entries) =
    (s.mint ≢ default_key → CanAccrue staked s e) × AllAccrue staked slots entries

settle_round-fits :
    (slot : RewardInfo) (total : ℕ) (now : ℤ)
    → (slot.mint ≢ default_key → CanSettle slot now)
    → settle_round slot total now ≡ ok (refreshed total now slot)
unfolding settle_round
settle_round-fits slot total now c = elim (Bool-cases (slot.mint == default_key)) [
  | inl empty ↦ rw empty refl
  | inr taken ↦ rw taken (settle_slot-fits slot total now (c (==-false→ne _ _ taken)))
]

settle_slots-fits :
    (slots : List RewardInfo) (total : ℕ) (now : ℤ)
    → AllSettle now slots
    → settle_slots slots total now ≡ ok (refreshed_all total now slots)
unfolding settle_slots
settle_slots-fits [] total now c = refl
settle_slots-fits (s ∷ slots) total now c =
    rw (settle_round-fits s total now c.0, settle_slots-fits slots total now c.1) refl

accrue_round-fits :
    (slot : RewardInfo) (staked : ℕ) (e : RewardEntry)
    → (slot.mint ≢ default_key → CanAccrue staked slot e)
    → accrue_round slot staked e ≡ ok (credited staked slot e)
unfolding accrue_round
accrue_round-fits slot staked e c = elim (Bool-cases (slot.mint == default_key)) [
  | inl empty ↦ rw empty refl
  | inr taken ↦
      let a = c (==-false→ne _ _ taken) in
      rw
        (
          taken,
          earned-fits staked slot.reward_per_token_stored e.reward_per_token_paid e.rewards_accrued
              a.paid a.product a.total,
        )
        refl
]

accrue_entries-fits :
    (slots : List RewardInfo) (staked : ℕ) (entries : List RewardEntry)
    → AllAccrue staked slots entries
    → accrue_entries slots staked entries ≡ ok (credited_all staked slots entries)
unfolding accrue_entries
accrue_entries-fits [] staked [] c = refl
accrue_entries-fits [] staked (e ∷ entries) c = elim c [ ]
accrue_entries-fits (s ∷ slots) staked [] c = elim c [ ]
accrue_entries-fits (s ∷ slots) staked (e ∷ entries) c =
    rw (accrue_round-fits s staked e c.0, accrue_entries-fits slots staked entries c.1) refl

-- An update of a pool and a staker succeeds, and settles every registered slot and credits the
-- entry beside it exactly, where every registered slot can be settled and what the staker accrues
-- beside it fits its widths.
pub update_reward-fits :
    (pool : Pool) (s : StakerAccount) (now : ℤ)
    → AllSettle now pool.rewards
    → AllAccrue s.staked_amount (refreshed_all pool.total_staked now pool.rewards) s.entries
    → update_reward pool s now
      ≡ ok (
        record pool { rewards = refreshed_all pool.total_staked now pool.rewards },
        record s {
          entries =
              credited_all s.staked_amount
                (refreshed_all pool.total_staked now pool.rewards)
                s.entries;
        },
      )
unfolding update_reward update_globals
update_reward-fits pool s now c d =
    rw
      (
        settle_slots-fits pool.rewards pool.total_staked now c,
        accrue_entries-fits (refreshed_all pool.total_staked now pool.rewards) s.staked_amount
            s.entries d,
      )
      refl

pub AllSettle-of :
    (now : ℤ) (slots : List RewardInfo)
    → ((i : ℕ) (slot : RewardInfo)
        → get_elem? slots i ≡ some slot
        → slot.mint ≢ default_key
        → CanSettle slot now)
    → AllSettle now slots
AllSettle-of now [] f = tt
AllSettle-of now (s ∷ slots) f = (f 0 s refl, AllSettle-of now slots (λ i. f (suc i)))

pub AllAccrue-of :
    (staked : ℕ) (slots : List RewardInfo) (entries : List RewardEntry)
    → length slots ≡ length entries
    → ((i : ℕ) (slot : RewardInfo) (e : RewardEntry)
        → get_elem? slots i ≡ some slot
        → get_elem? entries i ≡ some e
        → slot.mint ≢ default_key
        → CanAccrue staked slot e)
    → AllAccrue staked slots entries
AllAccrue-of staked [] [] same f = tt
AllAccrue-of staked [] (e ∷ entries) same f = absurd (cc)
AllAccrue-of staked (s ∷ slots) [] same f = absurd (cc)
AllAccrue-of staked (s ∷ slots) (e ∷ entries) same f =
    (f 0 s e refl refl, AllAccrue-of staked slots entries (ground arith) (λ i. f (suc i)))

pub refreshed_all-length :
    (total : ℕ) (now : ℤ) (slots : List RewardInfo)
    → length (refreshed_all total now slots) ≡ length slots
refreshed_all-length total now [] = refl
refreshed_all-length total now (s ∷ slots) = ap suc (refreshed_all-length total now slots)

pub refreshed_all-at :
    (total : ℕ) (now : ℤ) (slots : List RewardInfo) (i : ℕ) (new : RewardInfo)
    → get_elem? (refreshed_all total now slots) i ≡ some new
    → new.mint ≢ default_key
    → (slot : RewardInfo) × (get_elem? slots i ≡ some slot)
      × (slot.mint ≢ default_key)
      × (slot.vault ≡ new.vault)
refreshed_all-at total now [] i new h named = absurd (cc)
refreshed_all-at total now (s ∷ slots) zero new h named =
    let e : refreshed total now s ≡ new = ground arith in
    elim (Bool-cases (s.mint == default_key)) [
      | inl empty ↦ (s, refl, λ q. named (ground (arith, e)), ground (arith, e))
      | inr taken ↦ (s, refl, ==-false→ne _ _ taken, ground (arith, e))
    ]
refreshed_all-at total now (s ∷ slots) (suc i) new h named =
    refreshed_all-at total now slots i new h named

pub update_globals-fits :
    (pool : Pool) (now : ℤ)
    → AllSettle now pool.rewards
    → update_globals pool now
      ≡ ok (record pool { rewards = refreshed_all pool.total_staked now pool.rewards })
unfolding update_globals
update_globals-fits pool now c = rw (settle_slots-fits pool.rewards pool.total_staked now c) refl
