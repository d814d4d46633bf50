-- ===== src/Outcome.antt =====
-- How a call ends: errors.rs, with what the runtime adds to it. Every caller passes an error on by
-- `?`, and the runtime undoes the writes of a transaction that fails, so an error carries no state.
use mm_staking.Base.{◌≡◌, refl, ◌⊎◌, inl, inr, Bool, true, false, Option, none, some}

pub data StakingError : Type 0 where
  math_overflow reward_slots_full reward_not_found reward_inactive : StakingError
  reward_already_exists unauthorized paused zero_amount : StakingError
  insufficient_stake invalid_duration vault_mismatch mint_mismatch : StakingError

-- `staking` is an error of the program, `panicked` a Rust panic (an arithmetic overflow under
-- overflow-checks, an index out of bounds), `constraint` an account that Anchor refuses, and
-- `token` an error of the token program.
pub data Fault : Type 0 where
  staking : StakingError → Fault
  panicked : Fault
  constraint : Fault
  token : Fault

pub data Result {ℓ} (A : Type ℓ) : Type ℓ where
  ok : A → Result A
  err : Fault → Result A

infixl 5 ◌>>=◌
-- `?`: a fault ends the call, and a value goes to the rest.
abbrev pub ◌>>=◌ {ℓ κ} : {A : Type ℓ} {B : Type κ} → Result A → (A → Result B) → Result B
ok value >>= rest = rest value
err fault >>= rest = err fault

infixl 5 ◌>>◌
-- The same, with no value.
abbrev pub ◌>>◌ {κ} : {B : Type κ} → Result (Unit {0}) → Result B → Result B
first >> rest = first >>= λ done. rest

-- `require!(condition, error)`.
abbrev pub require : Bool → StakingError → Result (Unit {0})
require true e = ok tt
require false e = err (staking e)

-- `ok_or_else(|| error!(error))?`.
abbrev pub ok_or {ℓ} : {A : Type ℓ} → Option A → StakingError → Result A
ok_or none e = err (staking e)
ok_or (some a) e = ok a

-- What panics where there is no value.
abbrev pub or_panic {ℓ} : {A : Type ℓ} → Option A → Result A
or_panic none = err panicked
or_panic (some a) = ok a

-- A successful chain has a successful first step, and the rest succeeds on its value.
pub >>=-eq-ok {ℓ κ} :
    {A : Type ℓ} {B : Type κ} (first : Result A) (rest : A → Result B) {last : B}
    → (first >>= rest) ≡ ok last
    → (value : A) × (first ≡ ok value) × (rest value ≡ ok last)
>>=-eq-ok (ok value) rest h = (value, refl, h)
>>=-eq-ok (err fault) rest h = cc

-- To split on a computed outcome and keep the equation.
pub ok-cases {ℓ} :
    {A : Type ℓ} (m : Result A) → ((e : Fault) × (m ≡ err e)) ⊎ ((a : A) × (m ≡ ok a))
ok-cases (ok a) = inr (a, refl)
ok-cases (err e) = inl (e, refl)

pub ok_or-ok {ℓ} :
    {A : Type ℓ} (o : Option A) (e : StakingError) {a : A} → ok_or o e ≡ ok a → o ≡ some a
ok_or-ok none e h = cc
ok_or-ok (some a) e h = cc

pub or_panic-ok {ℓ} : {A : Type ℓ} (o : Option A) {a : A} → or_panic o ≡ ok a → o ≡ some a
or_panic-ok none h = cc
or_panic-ok (some a) h = cc

pub ok-injective {ℓ} : {A : Type ℓ} {a b : A} → ok a ≡ ok b → a ≡ b
ok-injective h = cc

pub require-ok : (b : Bool) (e : StakingError) {u : Unit {0}} → require b e ≡ ok u → b ≡ true
require-ok true e h = refl
require-ok false e h = cc
