-- ===== src/Math/Shares.antt =====
-- `earned` of math.rs over stakes: how a reward is shared.
use mm_staking.Base.{ℕ, ◌+◌, ◌-◌, ◌*◌, ◌/◌, ◌≤◌, ◌<◌, ◌≡◌, arith}
use mm_staking.Outcome.{ok}
use mm_staking.State.{precision}
use mm_staking.Math.{earned}
use mm_staking.Math.Exact.{earned-ok, earned-fits}
use mm_staking.Word.{u128_limit}
use native.Mathlib.Nat.{add-mul}

-- The product of a success fits.
earned-product :
    (staked rpt paid accrued r : ℕ)
    → earned staked rpt paid accrued ≡ ok r
    → staked * (rpt - paid) < u128_limit
unfolding earned
earned-product staked rpt paid accrued r h = ground arith

-- Where the earnings of a stake are computed, so are those of its two parts in two accounts;
-- together the parts earn no more than the whole, and at most one unit less.
pub earned-split :
    (a b rpt paid x y r : ℕ)
    → earned (a + b) rpt paid (x + y) ≡ ok r
    → (q s : ℕ) × (earned a rpt paid x ≡ ok q)
      × (earned b rpt paid y ≡ ok s)
      × (q + s ≤ r)
      × (r ≤ q + s + 1)
earned-split a b rpt paid x y r h =
    let (order, is, fits) = earned-ok (a + b) rpt paid (x + y) r h in
    let d = rpt - paid in
    let product = earned-product (a + b) rpt paid (x + y) r h in
    let parts = add-mul a b d in
    (
      x + a * d / precision,
      y + b * d / precision,
      earned-fits a rpt paid x order (omega (arith, parts, product))
          (omega (arith, parts, is, fits)),
      earned-fits b rpt paid y order (omega (arith, parts, product))
          (omega (arith, parts, is, fits)),
      omega (arith, parts, is),
      omega (arith, parts, is),
    )
