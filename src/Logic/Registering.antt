-- ===== src/Logic/Registering.antt =====
-- `add_reward` of logic.rs, branch by branch.
use mm_staking.Base.{ℕ, ◌+◌, ◌<◌, ◌≡◌, refl, arith, some, none, ◌==◌, set, find_index}
use mm_staking.Int.{ℤ}
use mm_staking.Word.{u8_limit}
use mm_staking.Outcome.{StakingError, staking, ok, err}
use mm_staking.State.{Pubkey, default_key, Pool}
use mm_staking.Update.{find_slot}
use mm_staking.Logic.{new_slot, add_reward}
use mm_staking.Solvency.Slots.{duration_for}

pub add_reward-branches :
    (pool : Pool) (mint vault : Pubkey) (duration_arg now : ℤ)
    → ((i : ℕ)
        → find_slot pool mint ≡ some i
        → add_reward pool mint vault duration_arg now
          ≡ err (staking StakingError.reward_already_exists))
      × (find_slot pool mint ≡ none
          → find_index (λ slot. slot.mint == default_key) pool.rewards ≡ none
          → add_reward pool mint vault duration_arg now
            ≡ err (staking StakingError.reward_slots_full))
      × ((i : ℕ)
          → find_slot pool mint ≡ none
          → find_index (λ slot. slot.mint == default_key) pool.rewards ≡ some i
          → pool.reward_count + 1 < u8_limit
          → add_reward pool mint vault duration_arg now
            ≡ ok (record pool {
              rewards =
                  set pool.rewards i (new_slot mint vault (duration_for pool duration_arg) now);
              reward_count = pool.reward_count + 1;
            }))
unfolding add_reward
add_reward-branches pool mint vault duration_arg now =
    (λ i known. rw known refl, λ new full. rw (new, full) refl, λ i new free room. ground arith)
