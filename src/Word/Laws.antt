-- ===== src/Word/Laws.antt =====
-- The i64 operations in exact arithmetic.
use mm_staking.Base.{◌<◌, ◌≡◌, some, arith}
use mm_staking.Int.{ℤ, pos, ◌+ℤ◌, ◌≤ℤ◌, -ℤ-span, span}
use mm_staking.Word.{IsI64, i64_limit, sub_i64, checked_add_i64}

pub sub_i64-some : (a b d : ℤ) → sub_i64 a b ≡ some d → b ≤ℤ a → d ≡ pos (span a b)
unfolding sub_i64
sub_i64-some a b d h le = ground (arith, -ℤ-span a b le)

pub sub_i64-fits : (a b : ℤ) → b ≤ℤ a → span a b < i64_limit → sub_i64 a b ≡ some (pos (span a b))
unfolding sub_i64
sub_i64-fits a b le h = ground (arith, -ℤ-span a b le)

pub checked_add_i64-some : (a b c : ℤ) → checked_add_i64 a b ≡ some c → c ≡ a +ℤ b
unfolding checked_add_i64
checked_add_i64-some a b c h = ground arith

pub checked_add_i64-fits : (a b : ℤ) → IsI64 (a +ℤ b) → checked_add_i64 a b ≡ some (a +ℤ b)
unfolding checked_add_i64
checked_add_i64-fits a b h = ground arith
