-- ===== src/Program/Counting.antt =====
-- The count of reward slots in every world that a pool can reach.
use mm_staking.Base.{◌≤◌, ◌≡◌, sym, ap, ◌∙◌, arith}
use mm_staking.Int.{ℤ}
use mm_staking.State.{max_rewards}
use mm_staking.Runtime.{Runtime, World}
use mm_staking.Custody.Starting.{initialize_pool-calls}
use mm_staking.Custody.Registered.{registered, registered-empty, registered-le_length}
use mm_staking.Program.{called, failed, sent, opened, Reachable, initialized, later}
use mm_staking.Program.Registry.{CountsSlots, process-RegistryEffect}
use mm_staking.Program.Shape.{Reachable-Shaped}

module _ (rt : Runtime) where
  Reachable-CountsSlots : (w : World rt) (clock : ℤ) → Reachable rt w clock → CountsSlots w.pool
  Reachable-CountsSlots w clock (initialized bank a default_duration keeper late h) =
      let (made, key, nobody, rewards, total, vault, count) =
        initialize_pool-calls rt bank a default_duration keeper w h in
      count ∙ sym (ap registered rewards ∙ registered-empty max_rewards)
  Reachable-CountsSlots w now (later {w = old} {clock = clock} before (called i le out h)) =
      (process-RegistryEffect rt old now w i h).counted (Reachable-CountsSlots old clock before)
  Reachable-CountsSlots w now (later {w = old} {clock = clock} before (failed i fault le h)) =
      Reachable-CountsSlots old clock before
  Reachable-CountsSlots w now
        (later {w = old} {clock = clock} before (sent user from to authority n out owned h)) =
      Reachable-CountsSlots old clock before
  Reachable-CountsSlots w now (later {w = old} {clock = clock} before (opened key mint owner h)) =
      Reachable-CountsSlots old clock before

  -- In every world that a pool can reach, `reward_count` is the number of registered slots, and no
  -- more than eight.
  pub Reachable-count :
      (w : World rt) (clock : ℤ)
      → Reachable rt w clock
      → (w.pool.reward_count ≡ registered w.pool.rewards) × (w.pool.reward_count ≤ max_rewards)
  Reachable-count w clock r =
      let counts = Reachable-CountsSlots w clock r in
      (
        counts,
        omega (
          arith,
          counts,
          registered-le_length w.pool.rewards,
          (Reachable-Shaped rt w clock r).slots,
        ),
      )
