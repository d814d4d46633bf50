-- ===== src/Solvency/Slots.antt =====
-- `add_reward` and the setters of logic.rs and the soundness of a pool.
use mm_staking.Base.{
  ℕ, ◌+◌, ◌≤◌, ◌<◌, ◌≡◌, ◌≢◌, refl, sym, ap, subst, arith, inl, inr, Option-cases, some, none, Bool,
  false, ◌==◌, get_elem?, set, find_index, find_index-some, find_index-none, ==→eq, if◌then◌else◌,
  total_of, AllValues, is_none, is_none-true,
}
use mm_staking.Int.{ℤ, pos, span, ◌≤ℤ◌, ltb_ℤ}
use mm_staking.Word.{u8_limit, checked_add}
use mm_staking.Outcome.{
  StakingError, ok, >>=-eq-ok, ok_or, require, ok_or-ok, ok-injective, require-ok,
}
use mm_staking.State.{Pubkey, default_key, max_rewards, Pool, RewardInfo}
use mm_staking.Update.{find_slot}
use mm_staking.Logic.{new_slot, add_reward, registered_slot, set_reward_active, set_duration}
use mm_staking.Solvency.{Stakers, PoolSound, SlotSound, claim_of, InStep}
use mm_staking.Solvency.Rewards.{set-PoolSound}
use native.Mathlib.Nat.{mul-zero}

-- Time may pass, and more tokens may come.
pub PoolSound-mono :
    (pool : Pool) (stakers : Stakers) (clock now : ℤ) (funds funds' : ℕ → ℕ)
    → clock ≤ℤ now
    → ((i : ℕ) (slot : RewardInfo) → get_elem? pool.rewards i ≡ some slot → funds i ≤ funds' i)
    → PoolSound pool stakers clock funds
    → PoolSound pool stakers now funds'
PoolSound-mono pool stakers clock now funds funds' later more v = record {
  counted = v.counted;
  slots = λ i slot at.
      let sound = v.slots i slot at in
      record {
        solvent = record {
          backed = omega (arith, sound.solvent.backed, more i slot at);
          in_step = sound.solvent.in_step;
          blank = sound.solvent.blank;
        };
        timely = omega (arith, sound.timely);
      };
}

-- The length of the new period: the argument, or the pool's default.
abbrev pub duration_for : Pool → ℤ → ℤ
duration_for pool duration_arg =
    if ltb_ℤ (pos 0) duration_arg then duration_arg else pool.default_duration

-- What a successful `add_reward` did: the mint was new, and the first empty slot was taken.
pub add_reward-parts :
    (pool : Pool) (mint vault : Pubkey) (duration_arg now : ℤ) (pool' : Pool)
    → add_reward pool mint vault duration_arg now ≡ ok pool'
    → (idx : ℕ) × (old : RewardInfo) × (find_slot pool mint ≡ none)
      × (find_index (λ slot. slot.mint == default_key) pool.rewards ≡ some idx)
      × (get_elem? pool.rewards idx ≡ some old)
      × (old.mint ≡ default_key)
      × (mint ≢ default_key)
      × (pool.reward_count + 1 < u8_limit)
      × (pool' ≡ record pool {
        rewards = set pool.rewards idx (new_slot mint vault (duration_for pool duration_arg) now);
        reward_count = pool.reward_count + 1;
      })
unfolding add_reward find_slot
add_reward-parts pool mint vault duration_arg now pool' h =
    let (u, missing, h1) =
      >>=-eq-ok (require (is_none (find_slot pool mint)) StakingError.reward_already_exists) _ h in
    let free = find_index (λ slot. slot.mint == default_key) pool.rewards in
    let (idx, found, h2) = >>=-eq-ok (ok_or free StakingError.reward_slots_full) _ h1 in
    let (count, room, h3) =
      >>=-eq-ok (ok_or (checked_add u8_limit pool.reward_count 1) StakingError.math_overflow) _
        h2 in
    let at =
      find_index-some (λ slot. slot.mint == default_key) pool.rewards idx (ok_or-ok _ _ found) in
    let new : find_slot pool mint ≡ none = is_none-true _ (require-ok _ _ missing) in
    let other : (at.0.mint == mint) ≡ false =
      find_index-none (λ slot. slot.mint == mint) pool.rewards idx new at.1 in
    (
      idx,
      at.0,
      new,
      ok_or-ok _ _ found,
      at.1,
      ==→eq _ _ at.2,
      ground (arith, at.2),
      ground arith,
      ground arith,
    )

-- `add_reward` keeps the pool sound: the slot that it takes owes nothing.
pub add_reward-PoolSound :
    (pool : Pool) (stakers : Stakers) (clock now : ℤ) (funds : ℕ → ℕ) (mint vault : Pubkey)
    (duration_arg : ℤ) (pool' : Pool)
    → add_reward pool mint vault duration_arg now ≡ ok pool'
    → clock ≤ℤ now
    → PoolSound pool stakers clock funds
    → PoolSound pool' stakers now funds
unfolding new_slot
add_reward-PoolSound pool stakers clock now funds mint vault duration_arg pool' h later v =
    let (idx, old, new, found, at, empty, named, room, e) =
      add_reward-parts pool mint vault duration_arg now pool' h in
    let sound = v.slots idx old at in
    let zero_rpt = sound.solvent.blank empty in
    subst (λ q. PoolSound q stakers now funds) (sym e)
      (let w =
          PoolSound-mono pool stakers clock now funds funds later (λ i slot g. omega arith) v in
        let u =
          set-PoolSound pool stakers now funds funds idx old
            (new_slot mint vault (duration_for pool duration_arg) now) w at
            (record {
              solvent = record {
                backed = omega (
                  arith,
                  sound.solvent.backed,
                  ap (λ rpt. total_of (claim_of idx rpt) stakers) zero_rpt,
                  mul-zero (span (pos 0) now),
                );
                in_step =
                    subst (λ rpt. AllValues (InStep idx rpt) stakers) zero_rpt
                      sound.solvent.in_step;
                blank = λ m. refl;
              };
              timely = omega arith;
            })
            (λ j ne. refl) in
        record { counted = u.counted; slots = u.slots })

-- The slot that an admin's call names.
pub registered_slot-parts :
    (pool : Pool) (i : ℕ) (slot : RewardInfo)
    → registered_slot pool i ≡ ok slot
    → (i < max_rewards) × (get_elem? pool.rewards i ≡ some slot) × (slot.mint ≢ default_key)
unfolding registered_slot
registered_slot-parts pool i slot h = elim (Option-cases (get_elem? pool.rewards i)) [
  | inl outside ↦ absurd (ground arith)
  | inr (s, at) ↦ (ground arith, ground arith, ground arith)
]

-- A slot keeps what it owes when only its `active` flag or its `duration` changes.
slot-SlotSound :
    (i : ℕ) (slot : RewardInfo) (stakers : Stakers) (clock duration : ℤ) (funds active : ℕ)
    → SlotSound i slot stakers clock funds
    → SlotSound i (record slot { active = active; duration = duration }) stakers clock funds
slot-SlotSound i slot stakers clock duration funds active v = record {
  solvent = record {
    backed = v.solvent.backed;
    in_step = v.solvent.in_step;
    blank = v.solvent.blank;
  };
  timely = v.timely;
}

module _ (pool : Pool) (stakers : Stakers) (clock : ℤ) (funds : ℕ → ℕ) (i : ℕ) (pool' : Pool)
    (v : PoolSound pool stakers clock funds) where
  pub set_reward_active-PoolSound :
      (active : Bool)
      → set_reward_active pool i active ≡ ok pool'
      → PoolSound pool' stakers clock funds
  unfolding set_reward_active
  set_reward_active-PoolSound active h =
      let (slot, go, e) = >>=-eq-ok (registered_slot pool i) _ h in
      let (lt, at, named) = registered_slot-parts pool i slot go in
      subst (λ q. PoolSound q stakers clock funds) (ok-injective e)
        (set-PoolSound pool stakers clock funds funds i slot
          (record slot { active = if active then 1 else 0 }) v at
          (slot-SlotSound i slot stakers clock slot.duration (funds i) (if active then 1 else 0)
            (v.slots i slot at))
          (λ j ne. refl))

  pub set_duration-PoolSound :
      (duration : ℤ) → set_duration pool i duration ≡ ok pool' → PoolSound pool' stakers clock funds
  unfolding set_duration
  set_duration-PoolSound duration h =
      let (u, positive, h1) =
        >>=-eq-ok (require (ltb_ℤ (pos 0) duration) StakingError.invalid_duration) _ h in
      let (slot, go, e) = >>=-eq-ok (registered_slot pool i) _ h1 in
      let (lt, at, named) = registered_slot-parts pool i slot go in
      subst (λ q. PoolSound q stakers clock funds) (ok-injective e)
        (set-PoolSound pool stakers clock funds funds i slot (record slot { duration = duration }) v
          at
          (slot-SlotSound i slot stakers clock duration (funds i) slot.active (v.slots i slot at))
          (λ j ne. refl))
