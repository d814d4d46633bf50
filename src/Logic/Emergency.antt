-- ===== src/Logic/Emergency.antt =====
-- `emergency_withdraw` of logic.rs.
use mm_staking.Base.{ℕ, ◌-◌, ◌≡◌, refl, arith, List, [], ◌∷◌, length, get_elem?, some}
use mm_staking.Outcome.{ok}
use mm_staking.State.{RewardInfo, RewardEntry, Pool, StakerAccount}
use mm_staking.Logic.{forfeit, emergency_withdraw}
use mm_staking.Solvency.Forfeit.{forfeited, forfeit-at}

forfeit-total :
    (slots : List RewardInfo) (entries : List RewardEntry)
    → length slots ≡ length entries
    → (entries' : List RewardEntry) × (forfeit slots entries ≡ ok entries')
unfolding forfeit
forfeit-total [] [] h = ([], refl)
forfeit-total [] (e ∷ entries) h = absurd (cc)
forfeit-total (s ∷ slots) [] h = absurd (cc)
forfeit-total (s ∷ slots) (e ∷ entries) h =
    let (rest, go) = forfeit-total slots entries (ground arith) in (forfeited s ∷ rest, rw go refl)

-- `emergency_withdraw` of logic.rs succeeds for every pool and every staker's account whose arrays
-- have one length: it gives the whole stake, takes it off the pool's count and leaves the staker no
-- stake, and beside every slot an entry that is paid up and holds nothing.
pub emergency_withdraw-total :
    (pool : Pool) (s : StakerAccount)
    → length pool.rewards ≡ length s.entries
    → (s' : StakerAccount) × (emergency_withdraw pool s
        ≡ ok (
          s.staked_amount,
          record pool { total_staked = pool.total_staked - s.staked_amount },
          s',
        ))
      × (s'.staked_amount ≡ 0)
      × ((i : ℕ) (slot : RewardInfo)
          → get_elem? pool.rewards i ≡ some slot
          → get_elem? s'.entries i ≡ some (forfeited slot))
unfolding emergency_withdraw
emergency_withdraw-total pool s h =
    let (entries, go) = forfeit-total pool.rewards s.entries h in
    (
      record s { staked_amount = 0; entries = entries },
      rw go (ground arith),
      refl,
      λ i slot at. forfeit-at pool.rewards s.entries entries i slot go at,
    )
