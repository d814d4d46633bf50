-- ===== src/Word.antt =====
-- Rust's machine integers: u8, u64 and u128 as natural numbers under a bound, i64 as an integer in
-- its range, with the checked, the saturating and the casting operations that the program calls.
pub mod Laws
use mm_staking.Base.{
  ℕ, suc, ◌+◌, ◌-◌, ◌*◌, ◌/◌, ◌^◌, Bool, ◌&&◌, Option, none, some, ltb, leb, ◌==◌, if◌then◌else◌,
}
use mm_staking.Int.{ℤ, pos, negsuc, ◌+ℤ◌, ◌-ℤ◌, ◌≤ℤ◌, leb_ℤ}

-- The first value that is too large for the type.
abbrev pub u8_limit : ℕ
u8_limit = 2 ^ 8

abbrev pub u64_limit : ℕ
u64_limit = 2 ^ 64

abbrev pub u128_limit : ℕ
u128_limit = 2 ^ 128

abbrev pub i64_limit : ℕ
i64_limit = 2 ^ 63

-- A value, unless it is too large for its type.
abbrev pub fit : ℕ → ℕ → Option ℕ
fit limit n = if ltb n limit then some n else none

-- `checked_add`, `checked_mul` at the type that the limit stands for.
abbrev pub checked_add : ℕ → ℕ → ℕ → Option ℕ
checked_add limit a b = fit limit (a + b)

abbrev pub checked_mul : ℕ → ℕ → ℕ → Option ℕ
checked_mul limit a b = fit limit (a * b)

abbrev pub checked_sub : ℕ → ℕ → Option ℕ
checked_sub a b = if leb b a then some (a - b) else none

abbrev pub checked_div : ℕ → ℕ → Option ℕ
checked_div a b = if b == 0 then none else some (a / b)

-- `Option::and_then`.
abbrev pub and_then : Option ℕ → (ℕ → Option ℕ) → Option ℕ
and_then none f = none
and_then (some a) f = f a

-- `u64::saturating_sub`: subtraction on the natural numbers stops at 0.
abbrev pub saturating_sub : ℕ → ℕ → ℕ
saturating_sub a b = a - b

-- `x as u128` of an i64: two's complement.
abbrev pub as_u128 : ℤ → ℕ
as_u128 (pos n) = n
as_u128 (negsuc n) = u128_limit - suc n

abbrev pub fits_i64 : ℤ → Bool
fits_i64 a = leb_ℤ (negsuc (i64_limit - 1)) a && leb_ℤ a (pos (i64_limit - 1))

abbrev pub IsI64 : ℤ → Type 0
IsI64 a = (negsuc (i64_limit - 1) ≤ℤ a) × (a ≤ℤ pos (i64_limit - 1))

abbrev pub fit_i64 : ℤ → Option ℤ
fit_i64 a = if fits_i64 a then some a else none

unfoldable pub checked_add_i64 : ℤ → ℤ → Option ℤ
checked_add_i64 a b = fit_i64 (a +ℤ b)

-- `a - b` in a build with overflow checks: none where it panics.
unfoldable pub sub_i64 : ℤ → ℤ → Option ℤ
sub_i64 a b = fit_i64 (a -ℤ b)
