-- ===== src/Runtime/Toy.antt =====
-- A token program over a list of accounts, which has the laws.
use mm_staking.Base.{
  ℕ, ◌+◌, ◌-◌, ◌*◌, ◌≤◌, ◌≡◌, ◌≢◌, ◌&&◌, not, refl, none, some, Dict, lookup, insert, leb, ◌==◌,
  if◌then◌else◌, lookup-insert, arith, Bool-cases, ==-false→ne, ap, ◌∙◌, inl, inr, Option-cases,
}
use mm_staking.Outcome.{Result, Fault, ok, err}
use mm_staking.State.{Pubkey}
use mm_staking.Runtime.{
  Runtime, TokenAccount, TokenLaws, TransferSucceeds, CreateSucceeds, Seeds, pool_seed,
  stake_vault_seed, reward_vault_seed, staker_seed, amount_in, owner_in, mint_in,
}

abbrev pub Accounts : Type 0
Accounts = Dict TokenAccount

abbrev pub move : Accounts → Pubkey → Pubkey → ℕ → TokenAccount → TokenAccount → Accounts
move b from to n source target =
    insert to (record target { amount = target.amount + n })
      (insert from (record source { amount = source.amount - n }) b)

unfoldable pub toy_transfer : Accounts → Pubkey → Pubkey → Pubkey → ℕ → Result Accounts
toy_transfer b from to authority n = elim (lookup from b) [
  | none ↦ err Fault.token
  | some source ↦ elim (lookup to b) [
    | none ↦ err Fault.token
    | some target ↦
        if (source.owner == authority && source.mint == target.mint) && leb n source.amount
        then (if from == to then ok b else ok (move b from to n source target))
        else err Fault.token
  ]
]

unfoldable pub toy_create : Accounts → Pubkey → Pubkey → Pubkey → Result Accounts
toy_create b key mint owner = elim (lookup key b) [
  | none ↦ ok (insert key (record { mint = mint; owner = owner; amount = 0 }) b)
  | some a ↦ err Fault.constraint
]

-- Addresses that tell the seeds of the tests apart.
unfoldable pub toy_address : Seeds → ℕ → Pubkey
toy_address (pool_seed mint) bump = 1000 + mint * 10
toy_address (stake_vault_seed pool) bump = 1001 + pool * 10
toy_address (reward_vault_seed pool mint) bump = 1002 + (pool * 1000 + mint) * 10
toy_address (staker_seed pool owner) bump = 1003 + (pool * 1000 + owner) * 10

abbrev pub toy : Runtime
toy = record {
  Bank = Accounts;
  is_mint = λ b k. not (k == 0);
  account = λ b k. lookup k b;
  transfer = toy_transfer;
  create = toy_create;
  address = toy_address;
  bump_of = λ s. 255;
}

toy_transfer-ok :
    (b b' : Accounts) (from to authority : Pubkey) (n : ℕ)
    → toy_transfer b from to authority n ≡ ok b'
    → (source target : TokenAccount) × (lookup from b ≡ some source)
      × (lookup to b ≡ some target)
      × (n ≤ source.amount)
      × (b' ≡ (if from == to then b else move b from to n source target))
unfolding toy_transfer
toy_transfer-ok b b' from to authority n h = elim (Option-cases (lookup from b)) [
  | inl e ↦ absurd (ground arith)
  | inr (source, e) ↦ elim (Option-cases (lookup to b)) [
    | inl f ↦ absurd (ground arith)
    | inr (target, f) ↦ (source, target, e, f, ground arith, ground arith)
  ]
]

-- What stands at an address after a transfer.
toy_transfer-lookup :
    (b b' : Accounts) (from to authority : Pubkey) (n : ℕ) (key : Pubkey)
    → toy_transfer b from to authority n ≡ ok b'
    → from ≢ to
    → (source target : TokenAccount) × (lookup from b ≡ some source)
      × (lookup to b ≡ some target)
      × (n ≤ source.amount)
      × (lookup key b' ≡ (
          if to == key
          then some (record target { amount = target.amount + n })
          else (if from == key
              then some (record source { amount = source.amount - n })
              else lookup key b)))
toy_transfer-lookup b b' from to authority n key h ne =
    let (source, target, p, q, le, e) = toy_transfer-ok b b' from to authority n h in
    let spent = insert from (record source { amount = source.amount - n }) b in
    (
      source,
      target,
      p,
      q,
      le,
      ground (
        arith,
        ap (lookup key) e,
        lookup-insert to key (record target { amount = target.amount + n }) spent,
        lookup-insert from key (record source { amount = source.amount - n }) b,
      ),
    )

module _ (b b' : Accounts) (from to authority : Pubkey) (n : ℕ)
    (h : toy_transfer b from to authority n ≡ ok b') where
  toy_spent : from ≢ to → amount_in (lookup from b') + n ≡ amount_in (lookup from b)
  toy_spent ne =
      let (source, target, p, q, le, e) = toy_transfer-lookup b b' from to authority n from h ne in
      ground arith

  toy_received : from ≢ to → amount_in (lookup to b') ≡ amount_in (lookup to b) + n
  toy_received ne =
      let (source, target, p, q, le, e) = toy_transfer-lookup b b' from to authority n to h ne in
      ground arith

  toy_others : (key : Pubkey) → key ≢ from → key ≢ to → lookup key b' ≡ lookup key b
  toy_others key ne ne' = elim (Bool-cases (from == to)) [
    | inl same ↦
        let (source, target, p, q, le, e) = toy_transfer-ok b b' from to authority n h in
        ap (lookup key) (e ∙ rw same)
    | inr apart ↦
        let (source, target, p, q, le, e) =
          toy_transfer-lookup b b' from to authority n key h (==-false→ne _ _ apart) in
        ground arith
  ]

  toy_owners : (key : Pubkey) → owner_in (lookup key b') ≡ owner_in (lookup key b)
  toy_owners key = elim (Bool-cases (from == to)) [
    | inl same ↦
        let (source, target, p, q, le, e) = toy_transfer-ok b b' from to authority n h in
        ap (λ d. owner_in (lookup key d)) (e ∙ rw same)
    | inr apart ↦
        let (source, target, p, q, le, e) =
          toy_transfer-lookup b b' from to authority n key h (==-false→ne _ _ apart) in
        ground arith
  ]

  toy_mints : (key : Pubkey) → mint_in (lookup key b') ≡ mint_in (lookup key b)
  toy_mints key = elim (Bool-cases (from == to)) [
    | inl same ↦
        let (source, target, p, q, le, e) = toy_transfer-ok b b' from to authority n h in
        ap (λ d. mint_in (lookup key d)) (e ∙ rw same)
    | inr apart ↦
        let (source, target, p, q, le, e) =
          toy_transfer-lookup b b' from to authority n key h (==-false→ne _ _ apart) in
        ground arith
  ]

module _ (b b' : Accounts) (key mint owner : Pubkey) (h : toy_create b key mint owner ≡ ok b') where
  toy_create-lookup :
      (other : Pubkey)
      → (lookup key b ≡ none)
        × (lookup other b' ≡ (
            if key == other
            then some (record { mint = mint; owner = owner; amount = 0 })
            else lookup other b))
  unfolding toy_create
  toy_create-lookup other = elim (Option-cases (lookup key b)) [
    | inl free ↦ (
      free,
      ground (arith, lookup-insert key other (record { mint = mint; owner = owner; amount = 0 }) b),
    )
    | inr (a, taken) ↦ absurd (ground arith)
  ]

  toy_fresh :
      (owner_in (lookup key b) ≡ none)
      × (amount_in (lookup key b') ≡ 0)
      × (owner_in (lookup key b') ≡ some owner)
  toy_fresh = let (free, e) = toy_create-lookup key in ground arith

  toy_kept :
      (other : Pubkey)
      → other ≢ key
      → (amount_in (lookup other b') ≡ amount_in (lookup other b))
        × (owner_in (lookup other b') ≡ owner_in (lookup other b))
  toy_kept other ne = let (free, e) = toy_create-lookup other in ground arith

pub toy-TokenLaws : TokenLaws toy
toy-TokenLaws = record {
  spent = toy_spent;
  received = toy_received;
  others = λ b b' from to authority n key h ne ne'.
      ap amount_in (toy_others b b' from to authority n h key ne ne');
  owners = λ b b' from to authority n key h. toy_owners b b' from to authority n h key;
  mints = λ b b' from to authority n key h. toy_mints b b' from to authority n h key;
  fresh = toy_fresh;
  kept = λ b b' key mint owner other h ne. toy_kept b b' key mint owner h other ne;
  no_mint = λ b. refl;
}

toy_pays :
    (b : Accounts) (from to authority : Pubkey) (n : ℕ) (source target : TokenAccount)
    → lookup from b ≡ some source
    → lookup to b ≡ some target
    → source.owner ≡ authority
    → source.mint ≡ target.mint
    → n ≤ source.amount
    → (b' : Accounts) × (toy_transfer b from to authority n ≡ ok b')
unfolding toy_transfer
toy_pays b from to authority n source target there there' owned same enough =
    elim (Bool-cases (from == to)) [
      | inl self ↦ (b, ground arith)
      | inr apart ↦ (move b from to n source target, ground arith)
    ]

pub toy-TransferSucceeds : TransferSucceeds toy
toy-TransferSucceeds = record {
  pays = λ b from to authority n source target there there' owned same enough room.
      toy_pays b from to authority n source target there there' owned same enough;
}

toy_creates :
    (b : Accounts) (key mint owner : Pubkey)
    → lookup key b ≡ none
    → (b' : Accounts) × (toy_create b key mint owner ≡ ok b')
unfolding toy_create
toy_creates b key mint owner free =
    (insert key (record { mint = mint; owner = owner; amount = 0 }) b, ground (arith, free))

pub toy-CreateSucceeds : CreateSucceeds toy
toy-CreateSucceeds = record {
  creates = λ b key mint owner free is_mint. toy_creates b key mint owner free;
}
