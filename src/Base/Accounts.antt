-- ===== src/Base/Accounts.antt =====
-- Accounts by address, as an association list, and sums over them.
use Prim.Native.Nat.{ℕ, ◌+◌, ◌≤◌}
use mathlib.Core.Path.{◌≡◌}
use mathlib.Core.Logic.{inl, inr}
use mathlib.Core.List.{List, [], ◌∷◌}
use mathlib.Core.Option.{Option, none, some}
use native.Mathlib.Omega.{arith}
use mm_staking.Base.Tests.{◌==◌, if◌then◌else◌, Bool-cases}

abbrev pub Dict {ℓ} : Type ℓ → Type ℓ
Dict V = List (ℕ × V)

module _ {ℓ} {V : Type ℓ} where
  abbrev pub lookup : ℕ → Dict V → Option V
  lookup k [] = none
  lookup k ((j, v) ∷ d) = if j == k then some v else lookup k d

  -- The account at an address is written; a new one goes to the end.
  abbrev pub insert : ℕ → V → Dict V → Dict V
  insert k v [] = (k, v) ∷ []
  insert k v ((j, w) ∷ d) = if j == k then (k, v) ∷ d else (j, w) ∷ insert k v d

  abbrev pub total_of : (V → ℕ) → Dict V → ℕ
  total_of f [] = 0
  total_of f ((j, v) ∷ d) = f v + total_of f d

  abbrev pub AllValues {κ} : (V → Type κ) → Dict V → Type κ
  AllValues P [] = Unit
  AllValues P ((j, v) ∷ d) = P v × AllValues P d

  pub lookup-insert :
      (k j : ℕ) (v : V) (d : Dict V)
      → lookup j (insert k v d) ≡ (if k == j then some v else lookup j d)
  lookup-insert k j v [] = ground arith
  lookup-insert k j v ((i, w) ∷ d) = ground (arith, lookup-insert k j v d)

  pub lookup-insert_self : (k : ℕ) (v : V) (d : Dict V) → lookup k (insert k v d) ≡ some v
  lookup-insert_self k v [] = ground arith
  lookup-insert_self k v ((i, w) ∷ d) = ground (arith, lookup-insert_self k v d)

  pub insert-insert : (k : ℕ) (u v : V) (d : Dict V) → insert k v (insert k u d) ≡ insert k v d
  insert-insert k u v [] = ground arith
  insert-insert k u v ((j, w) ∷ d) = ground (arith, insert-insert k u v d)

  abbrev pub value_or : V → Option V → V
  value_or z none = z
  value_or z (some v) = v

  -- A sum after a write: a missing account counted as `z` does, which is nothing.
  pub total_of-insert :
      (f : V → ℕ) (z : V) (k : ℕ) (v : V) (d : Dict V)
      → f z ≡ 0
      → total_of f (insert k v d) + f (value_or z (lookup k d)) ≡ total_of f d + f v
  total_of-insert f z k v [] h = omega arith
  total_of-insert f z k v ((j, u) ∷ d) h = ground (arith, total_of-insert f z k v d h)

  pub AllValues-insert {κ} :
      (P : V → Type κ) (k : ℕ) (v : V) (d : Dict V)
      → AllValues P d
      → P v
      → AllValues P (insert k v d)
  AllValues-insert P k v [] h p = (p, tt)
  AllValues-insert P k v ((j, w) ∷ d) h p = elim (Bool-cases (j == k)) [
    | inl hit ↦ rw hit (p, h.1)
    | inr miss ↦ rw miss (h.0, AllValues-insert P k v d h.1 p)
  ]

  pub AllValues-value_or {κ} :
      (P : V → Type κ) (z : V) (k : ℕ) (d : Dict V)
      → P z
      → AllValues P d
      → P (value_or z (lookup k d))
  AllValues-value_or P z k [] p h = p
  AllValues-value_or P z k ((j, w) ∷ d) p h = elim (Bool-cases (j == k)) [
    | inl hit ↦ rw hit h.0
    | inr miss ↦ rw miss (AllValues-value_or P z k d p h.1)
  ]

  -- The summand of an account is within the sum; a missing one counts as `z` does.
  pub total_of-value_le :
      (f : V → ℕ) (z : V) (k : ℕ) (d : Dict V)
      → f z ≡ 0
      → f (value_or z (lookup k d)) ≤ total_of f d
  total_of-value_le f z k [] h = omega (arith, h)
  total_of-value_le f z k ((j, u) ∷ d) h = ground (arith, total_of-value_le f z k d h)

  pub total_of-lookup_le :
      (f : V → ℕ) (k : ℕ) (v : V) (d : Dict V) → lookup k d ≡ some v → f v ≤ total_of f d
  total_of-lookup_le f k v [] h = cc
  total_of-lookup_le f k v ((j, u) ∷ d) h = ground (arith, total_of-lookup_le f k v d)
