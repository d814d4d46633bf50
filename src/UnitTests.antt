-- ===== src/UnitTests.antt =====
-- The unit tests in math.rs, update.rs and logic.rs, as functions that run on the model: a test ends
-- well, or with the panic of an assertion that fails or of an `unwrap`.
pub mod Builders
pub mod MathTests
pub mod UpdateTests
pub mod PoolTests
pub mod StakeTests
pub mod RewardTests
pub mod SetterTests
use mm_staking.Base.{ℕ, Bool, true, false, not, ◌&&◌, List, [], ◌∷◌, ◌==◌, if◌then◌else◌}
use mm_staking.Int.{ℤ, leb_ℤ}
use mm_staking.Outcome.{StakingError, Fault, Result, ok, err, staking, panicked}

abbrev pub Test : Type 0
Test = Result (Unit {0})

abbrev pub assert : Bool → Test
assert true = ok tt
assert false = err panicked

-- `assert_eq!` and `assert_ne!` on unsigned numbers and keys, and `assert_eq!` on an i64.
abbrev pub assert_eq : ℕ → ℕ → Test
assert_eq a b = assert (a == b)

abbrev pub assert_ne : ℕ → ℕ → Test
assert_ne a b = assert (not (a == b))

abbrev pub assert_eq_i64 : ℤ → ℤ → Test
assert_eq_i64 a b = assert (leb_ℤ a b && leb_ℤ b a)

abbrev pub unwrap {ℓ} : {A : Type ℓ} → Result A → Result A
unwrap (ok a) = ok a
unwrap (err fault) = err panicked

-- The place of the error in the enum.
abbrev pub code : StakingError → ℕ
code StakingError.math_overflow = 0
code StakingError.reward_slots_full = 1
code StakingError.reward_not_found = 2
code StakingError.reward_inactive = 3
code StakingError.reward_already_exists = 4
code StakingError.unauthorized = 5
code StakingError.paused = 6
code StakingError.zero_amount = 7
code StakingError.insufficient_stake = 8
code StakingError.invalid_duration = 9
code StakingError.vault_mismatch = 10
code StakingError.mint_mismatch = 11

-- `assert_eq!(result.unwrap_err(), error!(e))`.
abbrev pub assert_error {ℓ} : {A : Type ℓ} → Result A → StakingError → Test
assert_error (ok a) e = err panicked
assert_error (err (staking fault)) e = assert_eq (code fault) (code e)
assert_error (err fault) e = err panicked

abbrev pub passes : Test → Bool
passes (ok done) = true
passes (err fault) = false

abbrev pub all_pass : List Test → Bool
all_pass [] = true
all_pass (test ∷ tests) = passes test && all_pass tests
