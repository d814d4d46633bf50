-- ===== src/Runtime.antt =====
-- What the instructions use of Anchor, of Solana and of the token program, none of which is in the
-- repository: a parameter of the model, with what the code relies on as laws.
pub mod Toy
use mm_staking.Base.{ℕ, ◌+◌, ◌≤◌, ◌<◌, ◌≡◌, ◌≢◌, Bool, true, false, Option, none, some, Dict, ◌==◌}
use mm_staking.Word.{u64_limit}
use mm_staking.Outcome.{StakingError, Fault, Result, ok, err, constraint, ◌>>=◌, ◌>>◌}
use mm_staking.State.{Pubkey, default_key, Pool, StakerAccount}

pub record TokenAccount : Type 0 where
  pub mint : Pubkey
  pub owner : Pubkey
  pub amount : ℕ

-- The seeds of the program's addresses: POOL_SEED, STAKE_VAULT_SEED, REWARD_VAULT_SEED and
-- STAKER_SEED, each with the keys that follow it.
pub data Seeds : Type 0 where
  pool_seed : Pubkey → Seeds
  stake_vault_seed : Pubkey → Seeds
  reward_vault_seed : Pubkey → Pubkey → Seeds
  staker_seed : Pubkey → Pubkey → Seeds

-- `is_mint` tells the accounts that Anchor loads as a mint; `transfer bank from to authority amount` is `token::transfer`; `create bank key mint owner` makes
-- a token account; `address seeds bump` is the program address, and `bump_of` its canonical bump.
pub record Runtime : Type 1 where
  pub Bank : Type 0
  pub is_mint : Bank → Pubkey → Bool
  pub account : Bank → Pubkey → Option TokenAccount
  pub transfer : Bank → Pubkey → Pubkey → Pubkey → ℕ → Result Bank
  pub create : Bank → Pubkey → Pubkey → Pubkey → Result Bank
  pub address : Seeds → ℕ → Pubkey
  pub bump_of : Seeds → ℕ

abbrev pub amount_in : Option TokenAccount → ℕ
amount_in none = 0
amount_in (some a) = a.amount

abbrev pub owner_in : Option TokenAccount → Option Pubkey
owner_in none = none
owner_in (some a) = some a.owner

abbrev pub mint_in : Option TokenAccount → Option Pubkey
mint_in none = none
mint_in (some a) = some a.mint

abbrev pub balance : (rt : Runtime) → rt.Bank → Pubkey → ℕ
balance rt bank key = amount_in (rt.account bank key)

abbrev pub owner_of : (rt : Runtime) → rt.Bank → Pubkey → Option Pubkey
owner_of rt bank key = owner_in (rt.account bank key)

-- A transfer that succeeds moves the amount between two accounts, and leaves every owner, every mint
-- and every other account alone. A new account has an address that had none, is empty, and has the owner that
-- was asked for. The key of zeros is that of the system program, which is no mint.
pub record TokenLaws (rt : Runtime) : Type 0 where
  pub spent :
      (b b' : rt.Bank) (from to authority : Pubkey) (n : ℕ)
      → rt.transfer b from to authority n ≡ ok b'
      → from ≢ to
      → balance rt b' from + n ≡ balance rt b from
  pub received :
      (b b' : rt.Bank) (from to authority : Pubkey) (n : ℕ)
      → rt.transfer b from to authority n ≡ ok b'
      → from ≢ to
      → balance rt b' to ≡ balance rt b to + n
  pub others :
      (b b' : rt.Bank) (from to authority : Pubkey) (n : ℕ) (key : Pubkey)
      → rt.transfer b from to authority n ≡ ok b'
      → key ≢ from
      → key ≢ to
      → balance rt b' key ≡ balance rt b key
  pub owners :
      (b b' : rt.Bank) (from to authority : Pubkey) (n : ℕ) (key : Pubkey)
      → rt.transfer b from to authority n ≡ ok b'
      → owner_of rt b' key ≡ owner_of rt b key
  pub mints :
      (b b' : rt.Bank) (from to authority : Pubkey) (n : ℕ) (key : Pubkey)
      → rt.transfer b from to authority n ≡ ok b'
      → mint_in (rt.account b' key) ≡ mint_in (rt.account b key)
  pub fresh :
      (b b' : rt.Bank) (key mint owner : Pubkey)
      → rt.create b key mint owner ≡ ok b'
      → (owner_of rt b key ≡ none) × (balance rt b' key ≡ 0) × (owner_of rt b' key ≡ some owner)
  pub kept :
      (b b' : rt.Bank) (key mint owner other : Pubkey)
      → rt.create b key mint owner ≡ ok b'
      → other ≢ key
      → (balance rt b' other ≡ balance rt b other) × (owner_of rt b' other ≡ owner_of rt b other)
  pub no_mint : (b : rt.Bank) → rt.is_mint b default_key ≡ false

-- A transfer succeeds between two accounts of one mint, where the authority owns the one that pays
-- and it holds the amount, and the other has room for it.
pub record TransferSucceeds (rt : Runtime) : Type 0 where
  pub pays :
      (b : rt.Bank) (from to authority : Pubkey) (n : ℕ) (source target : TokenAccount)
      → rt.account b from ≡ some source
      → rt.account b to ≡ some target
      → source.owner ≡ authority
      → source.mint ≡ target.mint
      → n ≤ source.amount
      → target.amount + n < u64_limit
      → (b' : rt.Bank) × (rt.transfer b from to authority n ≡ ok b')

-- A token account for a mint is created at an address where none is.
pub record CreateSucceeds (rt : Runtime) : Type 0 where
  pub creates :
      (b : rt.Bank) (key mint owner : Pubkey)
      → rt.account b key ≡ none
      → rt.is_mint b mint ≡ true
      → (b' : rt.Bank) × (rt.create b key mint owner ≡ ok b')

-- One pool with its stakers' accounts, and all token accounts.
pub record World (rt : Runtime) : Type 0 where
  pub pool_key : Pubkey
  pub pool : Pool
  pub stakers : Dict StakerAccount
  pub bank : rt.Bank

-- A test of an account that Anchor makes before the handler runs.
abbrev pub check : Bool → Fault → Result (Unit {0})
check true e = ok tt
check false e = err e

abbrev pub loaded {ℓ} : {A : Type ℓ} → Option A → Result A
loaded none = err constraint
loaded (some a) = ok a

-- `token::mint = mint, token::authority = owner` on a token account.
unfoldable pub token_account :
    (rt : Runtime) → rt.Bank → Pubkey → Pubkey → Pubkey → Result (Unit {0})
token_account rt bank key mint owner = do
  a ← loaded (rt.account bank key)
  check (a.mint == mint) constraint
  check (a.owner == owner) constraint

-- The constraints on `pool`, which all account lists share: the account is the pool's, at the
-- address that the seeds and the bump in it give.
unfoldable pub pool_account : (rt : Runtime) → World rt → Pubkey → Pubkey → Result (Unit {0})
pool_account rt w pool mint = do
  check (pool == w.pool_key) constraint
  check (pool == rt.address (pool_seed mint) w.pool.bump) constraint

pub loaded-ok {ℓ} : {A : Type ℓ} (o : Option A) {a : A} → loaded o ≡ ok a → o ≡ some a
loaded-ok none h = cc
loaded-ok (some a) h = cc
