-- ===== src/Program/Registering.antt =====
-- `add_reward` in the worlds that a pool can reach.
use mm_staking.Base.{
  ℕ, ◌+◌, ◌<◌, ◌≡◌, ◌≢◌, ◌⊎◌, refl, sym, Option-cases, find_index, ==→eq, ap, ◌∙◌, arith, true,
  some, none, inl, inr, ◌==◌, eq→==, get_elem?, set, get_elem?-set_self, get_elem?-set_cases,
  find_index-some, find_index-none, find_index_unique,
}
use mathlib.Core.Bool.{false≢true}
use mm_staking.Int.{ℤ, pos}
use mm_staking.Outcome.{StakingError, staking, ok, err}
use mm_staking.Logic
use mm_staking.State.{Pubkey, default_key, max_rewards, Pool, RewardInfo}
use mm_staking.Update.{find_slot}
use mm_staking.Logic.{new_slot}
use mm_staking.Logic.Registering.{add_reward-branches}
use mm_staking.Solvency.Slots.{duration_for}
use mm_staking.Runtime.{
  Runtime, World, TokenLaws, CreateSucceeds, balance, owner_of, reward_vault_seed,
}
use mm_staking.Instructions.AddReward.{AddReward, admin_and_pool, add_reward}
use mm_staking.Custody.Adding.{admin_and_pool-key}
use mm_staking.Custody.Registered.{registered-room, registered-full, registered-lt_length}
use mm_staking.Program.{Reachable}
use mm_staking.Program.Counting.{Reachable-count}
use mm_staking.Program.Shape.{Reachable-Shaped}

-- A new mint is found where its slot was written.
find_slot-set :
    (pool : Pool) (mint : Pubkey) (i count : ℕ) (old new : RewardInfo)
    → find_slot pool mint ≡ none
    → get_elem? pool.rewards i ≡ some old
    → new.mint ≡ mint
    → find_slot (record pool { rewards = set pool.rewards i new; reward_count = count }) mint
      ≡ some i
unfolding find_slot
find_slot-set pool mint i count old new missing at is =
    find_index_unique (λ s. s.mint == mint) (set pool.rewards i new) i new
      (get_elem?-set_self pool.rewards i new at) (eq→== new.mint mint is)
      (λ j t g hit. elim (get_elem?-set_cases pool.rewards i j new at g) [
        | inl (e, same) ↦ e
        | inr (ne, was) ↦ absurd (
            false≢true
              (sym (find_index-none (λ s. s.mint == mint) pool.rewards j missing was) ∙ hit))
      ])

-- A reward slot that has streamed nothing and has nothing to stream.
abbrev pub fresh_slot : Pubkey → Pubkey → ℤ → ℤ → RewardInfo
fresh_slot mint vault duration now = record {
  mint = mint;
  vault = vault;
  reward_rate = 0;
  reward_per_token_stored = 0;
  period_finish = pos 0;
  last_update_time = now;
  duration = duration;
  active = 1;
}

new_slot_lem :
    (mint vault : Pubkey) (duration now : ℤ)
    → new_slot mint vault duration now ≡ fresh_slot mint vault duration now
unfolding new_slot
new_slot_lem mint vault duration now = refl

-- In a world that a pool can reach and that counts fewer than eight slots, the admin's `add_reward`
-- of a mint that no slot has succeeds: the mint is found at the slot that was written, which has
-- the mint and the vault, no rate, no reward per token and no period, was last updated now, is
-- active, and has the duration that was asked for where that is positive and else the default one;
-- the count goes up by one; and the vault is empty and belongs to the pool. This is where the
-- accounts pass the constraints, no account is at the vault's address, and the token program has
-- the laws and creates accounts at free addresses.
pub Reachable-add_reward :
    (rt : Runtime) (laws : TokenLaws rt) (creation : CreateSucceeds rt) (w : World rt) (clock : ℤ)
    → Reachable rt w clock
    → (a : AddReward) (duration now : ℤ) → admin_and_pool rt w a.admin a.pool ≡ ok tt
    → rt.is_mint w.bank a.reward_mint ≡ true
    → let seeds = reward_vault_seed a.pool a.reward_mint in
      a.reward_vault ≡ rt.address seeds (rt.bump_of seeds)
      → rt.account w.bank a.reward_vault ≡ none
      → find_slot w.pool a.reward_mint ≡ none
      → w.pool.reward_count < max_rewards
      → (w' : World rt) × (i : ℕ) × (add_reward rt w a duration now ≡ ok w')
        × (find_slot w'.pool a.reward_mint ≡ some i)
        × (get_elem? w'.pool.rewards i
            ≡ some (fresh_slot a.reward_mint a.reward_vault (duration_for w.pool duration) now))
        × (w'.pool.reward_count ≡ w.pool.reward_count + 1)
        × (balance rt w'.bank a.reward_vault ≡ 0)
        × (owner_of rt w'.bank a.reward_vault ≡ some w.pool_key)
unfolding add_reward
Reachable-add_reward rt laws creation w clock r a duration now admin is_mint at_address free missing
      room =
    let mint = a.reward_mint in
    let key = a.reward_vault in
    let slots = w.pool.rewards in
    let slot = new_slot mint key (duration_for w.pool duration) now in
    let fresh = new_slot_lem mint key (duration_for w.pool duration) now in
    let count = w.pool.reward_count + 1 in
    let (counts, most) = Reachable-count rt w clock r in
    let (i, found) =
      registered-room slots (omega (arith, counts, (Reachable-Shaped rt w clock r).slots)) in
    let (old, at, empty) = find_index-some (λ s. s.mint == default_key) slots i found in
    let (bank', made) = creation.creates w.bank key mint a.pool free is_mint in
    let go = (add_reward-branches w.pool mint key duration now).2 i missing found (omega arith) in
    let (gone, none_in, owned) = laws.fresh w.bank bank' key mint a.pool made in
    let pool' : Pool = record w.pool { rewards = set slots i slot; reward_count = count } in
    (
      record w { pool = pool'; bank = bank' },
      i,
      rw (admin, is_mint, eq→== _ _ at_address, made, go) refl,
      find_slot-set w.pool mint i count old slot missing at (ap (λ t. t.mint) fresh),
      get_elem?-set_self slots i slot at ∙ ap some fresh,
      refl,
      none_in,
      owned ∙ ap some (admin_and_pool-key rt w a.admin a.pool admin),
    )

-- No slot has the mint.
abbrev pub Absent : Pool → Pubkey → Type 0
Absent pool mint =
    (j : ℕ) (slot : RewardInfo) → get_elem? pool.rewards j ≡ some slot → slot.mint ≢ mint

-- The outcome of `add_reward` by what is in the pool: whether some slot has the mint, and how many
-- slots the pool counts.
abbrev pub AddOutcome : Pool → Pubkey → Pubkey → ℤ → ℤ → Type 0
AddOutcome pool mint vault duration now =
    let outcome = Logic.add_reward pool mint vault duration now in
    ((i : ℕ) × (slot : RewardInfo) × (get_elem? pool.rewards i ≡ some slot)
      × (slot.mint ≡ mint)
      × (outcome ≡ err (staking StakingError.reward_already_exists)))
    ⊎ (Absent pool mint
        × (pool.reward_count ≡ max_rewards)
        × (outcome ≡ err (staking StakingError.reward_slots_full)))
    ⊎ (Absent pool mint
        × (pool.reward_count < max_rewards)
        × (i : ℕ) × (old : RewardInfo) × (get_elem? pool.rewards i ≡ some old)
        × (old.mint ≡ default_key)
        × (outcome
            ≡ ok (record pool {
              rewards = set pool.rewards i (fresh_slot mint vault (duration_for pool duration) now);
              reward_count = pool.reward_count + 1;
            })))

find_slot-Absent : (pool : Pool) (mint : Pubkey) → find_slot pool mint ≡ none → Absent pool mint
unfolding find_slot
find_slot-Absent pool mint missing j slot at e =
    false≢true (
      sym (find_index-none (λ s. s.mint == mint) pool.rewards j missing at)
      ∙ eq→== slot.mint mint e)

find_slot-mint :
    (pool : Pool) (mint : Pubkey) (i : ℕ)
    → find_slot pool mint ≡ some i
    → (slot : RewardInfo) × (get_elem? pool.rewards i ≡ some slot) × (slot.mint ≡ mint)
unfolding find_slot
find_slot-mint pool mint i found =
    let (slot, at, hit) = find_index-some (λ s. s.mint == mint) pool.rewards i found in
    (slot, at, ==→eq slot.mint mint hit)

-- In every world that a pool can reach, `add_reward` of logic.rs has one of three outcomes, by what
-- is in the pool: where some slot has the mint it fails with `RewardAlreadyExists`; where none has
-- it and the pool counts eight slots it fails with `RewardSlotsFull`; and where none has it and the
-- pool counts fewer, it succeeds, and changes the pool only in that the fresh active slot, without
-- rate or reward, stands in the place of an empty one, and in that the count is one more.
pub Reachable-AddOutcome :
    (rt : Runtime) (w : World rt) (clock : ℤ)
    → Reachable rt w clock
    → (mint vault : Pubkey) (duration now : ℤ) → AddOutcome w.pool mint vault duration now
Reachable-AddOutcome rt w clock r mint vault duration now =
    let pool = w.pool in
    let (counts, most) = Reachable-count rt w clock r in
    let eight = (Reachable-Shaped rt w clock r).slots in
    let (exists, full, adds) = add_reward-branches pool mint vault duration now in
    elim (Option-cases (find_slot pool mint)) [
      | inr (i, found) ↦
          let (slot, at, same) = find_slot-mint pool mint i found in
          inl (i, slot, at, same, exists i found)
      | inl missing ↦
          let absent = find_slot-Absent pool mint missing in
          inr (elim (Option-cases (find_index (λ s. s.mint == default_key) pool.rewards)) [
            | inl none_free ↦ inl (
              absent,
              omega (arith, counts, eight, registered-full pool.rewards none_free),
              full missing none_free,
            )
            | inr (i, found) ↦
                let (old, at, empty) =
                  find_index-some (λ s. s.mint == default_key) pool.rewards i found in
                let room : pool.reward_count < max_rewards = omega (
                  arith,
                  counts,
                  eight,
                  registered-lt_length pool.rewards i old at (==→eq old.mint default_key empty),
                ) in
                inr (
                  absent,
                  room,
                  i,
                  old,
                  at,
                  ==→eq old.mint default_key empty,
                  adds i missing found (omega (arith, room))
                      ∙ ap
                          (λ t. ok (record pool {
                            rewards = set pool.rewards i t;
                            reward_count = pool.reward_count + 1;
                          }))
                          (new_slot_lem mint vault (duration_for pool duration) now),
                )
          ])
    ]
