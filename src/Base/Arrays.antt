-- ===== src/Base/Arrays.antt =====
-- Rust arrays `[T; N]` as lists, read and written by index.
use Prim.Native.Nat.{ℕ, zero, suc, ◌<◌}
use mathlib.Core.Path.{◌≡◌, refl, sym, ap, ◌∙◌}
use mathlib.Core.Logic.{◌≢◌, ◌⊎◌, inl, inr}
use mathlib.Core.Bool.{Bool, true, false}
use mathlib.Core.List.{List, [], ◌∷◌}
use mathlib.Core.Option.{Option, none, some}
use mathlib.Core.Option
use native.Mathlib.Omega.{arith}
use mm_staking.Base.Tests.{
  if◌then◌else◌, ◌==◌, Bool-cases, Option-cases, ==→eq, ==-false→ne, some-injective,
}

module _ {ℓ} {A : Type ℓ} where
  abbrev pub length : List A → ℕ
  length [] = 0
  length (x ∷ xs) = suc (length xs)

  abbrev pub get_elem? : List A → ℕ → Option A
  get_elem? [] i = none
  get_elem? (x ∷ xs) zero = some x
  get_elem? (x ∷ xs) (suc i) = get_elem? xs i

  abbrev pub set : List A → ℕ → A → List A
  set [] i v = []
  set (x ∷ xs) zero v = v ∷ xs
  set (x ∷ xs) (suc i) v = x ∷ set xs i v

  abbrev pub replicate : ℕ → A → List A
  replicate zero a = []
  replicate (suc n) a = a ∷ replicate n a

  abbrev pub All {κ} : (A → Type κ) → List A → Type κ
  All P [] = Unit
  All P (x ∷ xs) = P x × All P xs

  pub All-map {κ μ} :
      {P : A → Type κ} {Q : A → Type μ} (xs : List A) → ((x : A) → P x → Q x) → All P xs → All Q xs
  All-map [] f h = tt
  All-map (x ∷ xs) f (p, h) = (f x p, All-map xs f h)

  pub All-map2 {κ μ ν} :
      {P : A → Type κ} {Q : A → Type μ} {R : A → Type ν} (xs : List A)
      → ((x : A) → P x → Q x → R x)
      → All P xs
      → All Q xs
      → All R xs
  All-map2 [] f h g = tt
  All-map2 (x ∷ xs) f (p, h) (q, g) = (f x p q, All-map2 xs f h g)

  -- `(0..N).find(|&i| test(array[i]))`: the first index whose entry passes.
  abbrev pub find_index : (A → Bool) → List A → Option ℕ
  find_index test [] = none
  find_index test (x ∷ xs) = if test x then some 0 else Option.map suc (find_index test xs)

  pub length-set : (xs : List A) (i : ℕ) (v : A) → length (set xs i v) ≡ length xs
  length-set [] i v = refl
  length-set (x ∷ xs) zero v = refl
  length-set (x ∷ xs) (suc i) v = ap suc (length-set xs i v)

  pub get_elem?-set_self :
      (xs : List A) (i : ℕ) (v : A) {old : A}
      → get_elem? xs i ≡ some old
      → get_elem? (set xs i v) i ≡ some v
  get_elem?-set_self [] i v h = cc
  get_elem?-set_self (x ∷ xs) zero v h = refl
  get_elem?-set_self (x ∷ xs) (suc i) v h = get_elem?-set_self xs i v h

  pub get_elem?-set_ne :
      (xs : List A) (i j : ℕ) (v : A) → i ≢ j → get_elem? (set xs i v) j ≡ get_elem? xs j
  get_elem?-set_ne [] i j v h = refl
  get_elem?-set_ne (x ∷ xs) zero zero v h = absurd (h refl)
  get_elem?-set_ne (x ∷ xs) zero (suc j) v h = refl
  get_elem?-set_ne (x ∷ xs) (suc i) zero v h = refl
  get_elem?-set_ne (x ∷ xs) (suc i) (suc j) v h = get_elem?-set_ne xs i j v (λ e. h (ap suc e))

  pub get_elem?-lt : (xs : List A) (i : ℕ) → i < length xs → (a : A) × (get_elem? xs i ≡ some a)
  get_elem?-lt [] i h = elim h [ ]
  get_elem?-lt (x ∷ xs) zero h = (x, refl)
  get_elem?-lt (x ∷ xs) (suc i) h = get_elem?-lt xs i (omega arith)

  pub get_elem?-lt_length : (xs : List A) (i : ℕ) {a : A} → get_elem? xs i ≡ some a → i < length xs
  get_elem?-lt_length [] i h = absurd (cc)
  get_elem?-lt_length (x ∷ xs) zero h = omega arith
  get_elem?-lt_length (x ∷ xs) (suc i) h = omega (arith, get_elem?-lt_length xs i h)

  -- What `find_index` returns is in range and passes.
  pub find_index-some :
      (test : A → Bool) (xs : List A) (i : ℕ)
      → find_index test xs ≡ some i
      → (a : A) × (get_elem? xs i ≡ some a) × (test a ≡ true)
  find_index-some test [] i h = cc
  find_index-some test (x ∷ xs) i h = elim (Bool-cases (test x)) [
    | inl hit ↦ (x, ground arith, hit)
    | inr miss ↦ elim (Option-cases (find_index test xs)) [
      | inl e ↦ absurd (ground arith)
      | inr (j, e) ↦
          let found = find_index-some test xs j e in (found.0, ground (arith, found.1), found.2)
    ]
  ]

  -- Where one index passes and no other does, it is that one.
  pub find_index_unique :
      (test : A → Bool) (xs : List A) (i : ℕ) (a : A)
      → get_elem? xs i ≡ some a
      → test a ≡ true
      → ((j : ℕ) (b : A) → get_elem? xs j ≡ some b → test b ≡ true → j ≡ i)
      → find_index test xs ≡ some i
  find_index_unique test [] i a at hit only = cc
  find_index_unique test (x ∷ xs) zero a at hit only = ground (arith, at, hit)
  find_index_unique test (x ∷ xs) (suc i) a at hit only = elim (Bool-cases (test x)) [
    | inl early ↦ absurd (omega (arith, only 0 x refl early))
    | inr miss ↦
        let rest =
          find_index_unique test xs i a at hit (λ j b g h. omega (arith, only (suc j) b g h)) in
        rw (miss, rest) refl
  ]

  -- Where it returns none, no entry passes.
  pub find_index-none :
      (test : A → Bool) (xs : List A) (i : ℕ) {a : A}
      → find_index test xs ≡ none
      → get_elem? xs i ≡ some a
      → test a ≡ false
  find_index-none test [] i h g = cc
  find_index-none test (x ∷ xs) zero h g = ground arith
  find_index-none test (x ∷ xs) (suc i) h g = find_index-none test xs i (ground arith) g

  -- No entry before the one that it returns passes.
  pub find_index-first :
      (test : A → Bool) (xs : List A) (i j : ℕ) {a : A}
      → find_index test xs ≡ some i
      → j < i
      → get_elem? xs j ≡ some a
      → test a ≡ false
  find_index-first test [] i j h lt g = cc
  find_index-first test (x ∷ xs) i zero h lt g = ground arith
  find_index-first test (x ∷ xs) zero (suc j) h lt g = elim lt [ ]
  find_index-first test (x ∷ xs) (suc i) (suc j) h lt g =
      find_index-first test xs i j (ground arith) (omega arith) g

  -- What stands at an index after a write.
  pub get_elem?-set_cases :
      (xs : List A) (i j : ℕ) (v : A) {old t : A}
      → get_elem? xs i ≡ some old
      → get_elem? (set xs i v) j ≡ some t
      → ((j ≡ i) × (t ≡ v)) ⊎ ((j ≢ i) × (get_elem? xs j ≡ some t))
  get_elem?-set_cases xs i j v at g = elim (Bool-cases (j == i)) [
    | inl here ↦
        let e : j ≡ i = ==→eq j i here in
        inl
          (e, some-injective (sym g ∙ ap (get_elem? (set xs i v)) e ∙ get_elem?-set_self xs i v at))
    | inr there ↦
        let ne : j ≢ i = ==-false→ne j i there in
        inr (ne, sym (get_elem?-set_ne xs i j v (λ e. ne (sym e))) ∙ g)
  ]
