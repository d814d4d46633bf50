-- ===== src/Program/Mints.antt =====
-- The mints and vaults of the slots in every world that a pool can reach.
use mm_staking.Base.{sym, ap, ◌∙◌, get_elem?}
use mm_staking.Int.{ℤ}
use mm_staking.State.{max_rewards}
use mm_staking.Runtime.{Runtime, World}
use mm_staking.Custody.Starting.{initialize_pool-calls, get_elem?-empty}
use mm_staking.Program.{called, failed, sent, opened, Reachable, initialized, later}
use mm_staking.Program.Registry.{DistinctMints, BlankSlots, process-RegistryEffect}

module _ (rt : Runtime) where
  -- In every world that a pool can reach, two registered slots with the same mint are one slot.
  pub Reachable-DistinctMints :
      (w : World rt) (clock : ℤ) → Reachable rt w clock → DistinctMints w.pool
  Reachable-DistinctMints w clock (initialized bank a default_duration keeper late h) =
      let (made, key, nobody, rewards, total, vault, count) =
        initialize_pool-calls rt bank a default_duration keeper w h in
      λ i j slot other at at' named e. absurd (
        named (
          ap (λ s. s.mint)
            (get_elem?-empty max_rewards i slot (ap (λ l. get_elem? l i) (sym rewards) ∙ at))))
  Reachable-DistinctMints w now (later {w = old} {clock = clock} before (called i le out h)) =
      (process-RegistryEffect rt old now w i h).distinct (Reachable-DistinctMints old clock before)
  Reachable-DistinctMints w now (later {w = old} {clock = clock} before (failed i fault le h)) =
      Reachable-DistinctMints old clock before
  Reachable-DistinctMints w now
        (later {w = old} {clock = clock} before (sent user from to authority n out owned h)) =
      Reachable-DistinctMints old clock before
  Reachable-DistinctMints w now (later {w = old} {clock = clock} before (opened key mint owner h)) =
      Reachable-DistinctMints old clock before

  pub Reachable-BlankSlots : (w : World rt) (clock : ℤ) → Reachable rt w clock → BlankSlots w.pool
  Reachable-BlankSlots w clock (initialized bank a default_duration keeper late h) =
      let (made, key, nobody, rewards, total, vault, count) =
        initialize_pool-calls rt bank a default_duration keeper w h in
      λ i slot at empty.
        ap (λ s. s.vault)
          (get_elem?-empty max_rewards i slot (ap (λ l. get_elem? l i) (sym rewards) ∙ at))
  Reachable-BlankSlots w now (later {w = old} {clock = clock} before (called i le out h)) =
      (process-RegistryEffect rt old now w i h).blank (Reachable-BlankSlots old clock before)
  Reachable-BlankSlots w now (later {w = old} {clock = clock} before (failed i fault le h)) =
      Reachable-BlankSlots old clock before
  Reachable-BlankSlots w now
        (later {w = old} {clock = clock} before (sent user from to authority n out owned h)) =
      Reachable-BlankSlots old clock before
  Reachable-BlankSlots w now (later {w = old} {clock = clock} before (opened key mint owner h)) =
      Reachable-BlankSlots old clock before
