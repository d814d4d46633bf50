-- ===== src/Custody/Moves.antt =====
-- Transfers between a user's account and an account of the pool.
use mm_staking.Base.{
  ℕ, ◌+◌, ◌≤◌, ◌≡◌, ◌≢◌, sym, ap, ◌∙◌, inl, inr, arith, some, Bool-cases, ◌==◌, Option-cases,
  get_elem?, ==→eq, ==-false→ne, some-injective,
}
use mm_staking.Outcome.{ok}
use mm_staking.State.{Pubkey, default_key, Pool, RewardInfo}
use mm_staking.Runtime.{Runtime, TokenLaws, balance, owner_of, token_account}
use mm_staking.Custody.{funds, funds_at, Vaults}

-- A token account that passed its constraints has the owner that was asked for.
pub token_account-owner :
    (rt : Runtime) (bank : rt.Bank) (key mint owner : Pubkey) {u : Unit {0}}
    → token_account rt bank key mint owner ≡ ok u
    → owner_of rt bank key ≡ some owner
unfolding token_account
token_account-owner rt bank key mint owner h = elim (Option-cases (rt.account bank key)) [
  | inl missing ↦ absurd (ground arith)
  | inr (a, there) ↦ ground arith
]

pub ne_of_owners :
    (rt : Runtime) (bank : rt.Bank) (a b x y : Pubkey)
    → owner_of rt bank a ≡ some x
    → owner_of rt bank b ≡ some y
    → x ≢ y
    → a ≢ b
ne_of_owners rt bank a b x y p q ne e = ne (some-injective (sym p ∙ ap (owner_of rt bank) e ∙ q))

module _ (rt : Runtime) (laws : TokenLaws rt) (bank bank' : rt.Bank) (from to authority : Pubkey)
    (n : ℕ) (h : rt.transfer bank from to authority n ≡ ok bank') (pool_key user : Pubkey)
    (outside : user ≢ pool_key) where
  -- A user's transfer takes nothing from the pool's accounts.
  pub user_pays :
      (key : Pubkey)
      → owner_of rt bank from ≡ some user
      → owner_of rt bank key ≡ some pool_key
      → balance rt bank key ≤ balance rt bank' key
  user_pays key from_user key_pool =
      let ne : key ≢ from =
        ne_of_owners rt bank key from pool_key user key_pool from_user (λ e. outside (sym e)) in
      elim (Bool-cases (key == to)) [
        | inl here ↦
            let e : key ≡ to = ==→eq key to here in
            let gained = laws.received bank bank' from to authority n h (λ f. ne (e ∙ sym f)) in
            omega (arith, gained, ap (balance rt bank) e, ap (balance rt bank') e)
        | inr there ↦
            omega
              (arith, laws.others bank bank' from to authority n key h ne (==-false→ne _ _ there))
      ]

  -- A payment to a user takes the amount from the account that pays, and nothing from another.
  pub pool_pays :
      owner_of rt bank from ≡ some pool_key
      → owner_of rt bank to ≡ some user
      → balance rt bank' from + n ≡ balance rt bank from
  pool_pays from_pool to_user =
      laws.spent bank bank' from to authority n h
        (ne_of_owners rt bank from to pool_key user from_pool to_user (λ e. outside (sym e)))

  pub others_keep :
      (key : Pubkey)
      → owner_of rt bank to ≡ some user
      → owner_of rt bank key ≡ some pool_key
      → key ≢ from
      → balance rt bank' key ≡ balance rt bank key
  others_keep key to_user key_pool ne =
      laws.others bank bank' from to authority n key h ne
        (ne_of_owners rt bank key to pool_key user key_pool to_user (λ e. outside (sym e)))

  pub Vaults-transfer : (pool : Pool) → Vaults rt pool_key bank pool → Vaults rt pool_key bank' pool
  Vaults-transfer pool v =
      let same = λ (key : Pubkey). laws.owners bank bank' from to authority n key h in
      record {
        stake_owner = same pool.stake_vault ∙ v.stake_owner;
        owner = λ i slot at named. same slot.vault ∙ v.owner i slot at named;
        not_stake = v.not_stake;
        apart = v.apart;
      }

  -- The tokens behind each slot do not fall when a user pays.
  pub funds-user_pays :
      (pool : Pool)
      → owner_of rt bank from ≡ some user
      → Vaults rt pool_key bank pool
      → (i : ℕ) (slot : RewardInfo) → get_elem? pool.rewards i ≡ some slot
      → funds rt bank pool i ≤ funds rt bank' pool i
  funds-user_pays pool from_user v i slot at =
      rw (ap (funds_at rt bank) at, ap (funds_at rt bank') at)
        (elim (Bool-cases (slot.mint == default_key)) [
          | inl empty ↦ rw empty (omega arith)
          | inr named ↦
              rw named (user_pays slot.vault from_user (v.owner i slot at (==-false→ne _ _ named)))
        ])

  -- Nor, when the pool pays from another account.
  pub funds-pool_pays :
      (pool : Pool) (i : ℕ) (slot : RewardInfo)
      → owner_of rt bank to ≡ some user
      → Vaults rt pool_key bank pool
      → get_elem? pool.rewards i ≡ some slot
      → (slot.mint ≢ default_key → slot.vault ≢ from)
      → funds rt bank pool i ≤ funds rt bank' pool i
  funds-pool_pays pool i slot to_user v at ne =
      rw (ap (funds_at rt bank) at, ap (funds_at rt bank') at)
        (elim (Bool-cases (slot.mint == default_key)) [
          | inl empty ↦ rw empty (omega arith)
          | inr named ↦
              let real = ==-false→ne slot.mint default_key named in
              rw named
                (omega (arith, others_keep slot.vault to_user (v.owner i slot at real) (ne real)))
        ])
