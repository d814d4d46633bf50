-- ===== src/Program/Owed.antt =====
-- What soundness means for the users of a pool.
use mm_staking.Base.{ℕ, ◌*◌, ◌≤◌, ◌≡◌, ◌≢◌, arith, some, none, Option, [], ◌∷◌, get_elem?, total_of}
use mm_staking.Int.{ℤ}
use mm_staking.State.{precision, default_key, RewardInfo, RewardEntry, StakerAccount}
use mm_staking.Solvency.{Stakers, claim_of, entry_claim}
use mm_staking.Runtime.{Runtime, World, TokenLaws, balance}
use mm_staking.Custody.DepositParts.{named_funds}
use mm_staking.Program.{Reachable}
use mm_staking.Program.Sound.{Reachable-WorldSound}

-- The rewards that a staker could claim from slot `i` right now.
abbrev accrued_in : Option RewardEntry → ℕ
accrued_in none = 0
accrued_in (some e) = e.rewards_accrued

abbrev pub accrued : ℕ → StakerAccount → ℕ
accrued i s = accrued_in (get_elem? s.entries i)

accrued-claim :
    (staked rpt : ℕ) (o : Option RewardEntry) → precision * accrued_in o ≤ entry_claim staked rpt o
accrued-claim staked rpt none = omega arith
accrued-claim staked rpt (some e) = omega arith

total-accrued_claim :
    (i rpt : ℕ) (stakers : Stakers)
    → precision * total_of (accrued i) stakers ≤ total_of (claim_of i rpt) stakers
total-accrued_claim i rpt [] = omega arith
total-accrued_claim i rpt ((k, s) ∷ rest) = omega (
  arith,
  accrued-claim s.staked_amount rpt (get_elem? s.entries i),
  total-accrued_claim i rpt rest,
)

module _ (rt : Runtime) (laws : TokenLaws rt) (w : World rt) (clock : ℤ)
    (r : Reachable rt w clock) where
  -- In every world that a pool can reach, where the token program has the laws, the rewards that
  -- all stakers have accrued in a registered slot come to no more than the tokens in the slot's
  -- vault.
  pub Reachable-rewards :
      (i : ℕ) (slot : RewardInfo)
      → get_elem? w.pool.rewards i ≡ some slot
      → slot.mint ≢ default_key
      → total_of (accrued i) w.stakers ≤ balance rt w.bank slot.vault
  Reachable-rewards i slot at named =
      let v = Reachable-WorldSound rt laws w clock r in
      omega (
        arith,
        (v.pooled.slots i slot at).solvent.backed,
        named_funds rt w.bank w.pool i slot at named,
        total-accrued_claim i slot.reward_per_token_stored w.stakers,
      )
