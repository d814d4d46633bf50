-- ===== src/Program/Ready.antt =====
-- In a world that a pool can reach, when the slots can be settled and a staker credited.
use mm_staking.Base.{
  ℕ, ◌-◌, ◌<◌, ◌≡◌, ◌≢◌, refl, sym, ap, ◌∙◌, subst, arith, some, inl, inr, length, get_elem?,
  lookup, Bool-cases, Option-cases, Option, ◌==◌, List, [], ◌∷◌, zero, suc, replicate, ==-false→ne,
  value_or, AllValues-value_or,
}
use mm_staking.Int.{ℤ, pos, ◌≤ℤ◌}
use mm_staking.Word.{u64_limit, i64_limit}
use mm_staking.State.{
  default_key, max_rewards, empty_entry, RewardInfo, StakerAccount, zeroed_staker,
}
use mm_staking.Update.Total.{AllSettle, AllAccrue, refreshed_all, refreshed_all-length}
use mm_staking.Solvency.Fits.{InRange, PoolSound-AllSettle, PoolSound-AllAccrue}
use mm_staking.Runtime.{Runtime, World, TokenLaws, balance}
use mm_staking.Custody.{funds, funds_at}
use mm_staking.Program.{Reachable}
use mm_staking.Program.Sound.{Reachable-WorldSound}
use native.Mathlib.Nat.{zero-mul}
use mm_staking.Program.Shape.{EightEntries, Reachable-Shaped}

funds-small :
    (rt : Runtime) (w : World rt) (i : ℕ) (slot : RewardInfo)
    → get_elem? w.pool.rewards i ≡ some slot
    → (slot.mint ≢ default_key → balance rt w.bank slot.vault < u64_limit)
    → funds rt w.bank w.pool i < u64_limit
funds-small rt w i slot at small =
    rw (ap (funds_at rt w.bank) at) (elim (Bool-cases (slot.mint == default_key)) [
      | inl empty ↦ rw empty (omega arith)
      | inr named ↦ rw named (small (==-false→ne _ _ named))
    ])

-- A new account accrues nothing.
fresh_accrue :
    (slots : List RewardInfo) (n : ℕ)
    → length slots ≡ n
    → AllAccrue 0 slots (replicate n empty_entry)
fresh_accrue [] zero same = tt
fresh_accrue [] (suc n) same = absurd (cc)
fresh_accrue (s ∷ slots) zero same = absurd (cc)
fresh_accrue (s ∷ slots) (suc n) same = (
  (λ named. record {
    paid = omega arith;
    product = omega (arith, zero-mul (s.reward_per_token_stored - 0));
    total = omega (arith, zero-mul (s.reward_per_token_stored - 0));
  }),
  fresh_accrue slots n (ground arith),
)

module _ (rt : Runtime) (laws : TokenLaws rt) (w : World rt) (clock now : ℤ)
    (r : Reachable rt w clock) (later_on : clock ≤ℤ now) (clock_range : now ≤ℤ pos (i64_limit - 1))
    (ranges : (i : ℕ) (slot : RewardInfo)
      → get_elem? w.pool.rewards i ≡ some slot
      → slot.mint ≢ default_key
      → InRange slot now × (balance rt w.bank slot.vault < u64_limit)) where
  small :
      (i : ℕ) (slot : RewardInfo)
      → get_elem? w.pool.rewards i ≡ some slot
      → funds rt w.bank w.pool i < u64_limit
  small i slot at = funds-small rt w i slot at (λ named. (ranges i slot at named).1)

  in_range :
      (i : ℕ) (slot : RewardInfo)
      → get_elem? w.pool.rewards i ≡ some slot
      → slot.mint ≢ default_key
      → InRange slot now
  in_range i slot at named = (ranges i slot at named).0

  pub Reachable-AllSettle : AllSettle now w.pool.rewards
  Reachable-AllSettle =
      let v = Reachable-WorldSound rt laws w clock r in
      PoolSound-AllSettle w.pool w.stakers clock now (funds rt w.bank w.pool) v.pooled later_on
        clock_range small in_range

  pub Reachable-AllAccrue :
      (key : ℕ) (s : StakerAccount)
      → lookup key w.stakers ≡ some s
      → AllAccrue s.staked_amount (refreshed_all w.pool.total_staked now w.pool.rewards) s.entries
  Reachable-AllAccrue key s there =
      let v = Reachable-WorldSound rt laws w clock r in
      let shape = Reachable-Shaped rt w clock r in
      let eight : length s.entries ≡ max_rewards =
        subst (λ o. EightEntries (value_or zeroed_staker o)) there
          (AllValues-value_or EightEntries zeroed_staker key w.stakers refl shape.entries) in
      PoolSound-AllAccrue w.pool w.stakers clock now (funds rt w.bank w.pool) v.pooled later_on
        clock_range small in_range key s there (shape.slots ∙ sym eight)

  -- With the account of zeros where there is none.
  pub Reachable-AllAccrue_or :
      (key : ℕ)
      → let s = value_or zeroed_staker (lookup key w.stakers) in
        AllAccrue s.staked_amount (refreshed_all w.pool.total_staked now w.pool.rewards) s.entries
  Reachable-AllAccrue_or key =
      let slots = refreshed_all w.pool.total_staked now w.pool.rewards in
      let Credit = λ (o : Option StakerAccount).
        AllAccrue (value_or zeroed_staker o).staked_amount slots
          (value_or zeroed_staker o).entries in
      elim (Option-cases (lookup key w.stakers)) [
        | inl missing ↦ subst Credit (sym missing) (
            fresh_accrue slots max_rewards (
              refreshed_all-length w.pool.total_staked now w.pool.rewards
              ∙ (Reachable-Shaped rt w clock r).slots))
        | inr (s, there) ↦ subst Credit (sym there) (Reachable-AllAccrue key s there)
      ]
