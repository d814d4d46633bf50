-- ===== src/Program/Picks.antt =====
-- The pairs of a vault and a user's account that a claim names.
use mm_staking.Base.{
  ℕ, ◌+◌, ◌%◌, ◌≤◌, ◌<◌, ◌≡◌, ◌≢◌, refl, sym, ap, ◌∙◌, arith, some, List, [], ◌∷◌, length, All,
  get_elem?, find_index, ◌==◌,
}
use mm_staking.Word.{u64_limit}
use mm_staking.State.{Pubkey, Pool, RewardInfo, RewardEntry, StakerAccount}
use mm_staking.Runtime.{Runtime, TokenAccount, balance}
use mm_staking.Instructions.Claim.{Claim}

-- A pair of the accounts that follow a claim, with the slot that it stands for, the amount that is
-- due there, and what is in the two accounts before the claim.
pub record Pick : Type 0 where
  pub index : ℕ
  pub vault_ai : Pubkey
  pub user_ai : Pubkey
  pub due : ℕ
  pub user : TokenAccount
  pub vault : TokenAccount

abbrev pub pairs : List Pick → List Pubkey
pairs [] = []
pairs (p ∷ ps) = p.vault_ai ∷ p.user_ai ∷ pairs ps

pub pairs_even : (ps : List Pick) → length (pairs ps) % 2 ≡ 0
pairs_even [] = refl
pairs_even (p ∷ ps) = omega (arith, pairs_even ps)

-- Two pairs that share no slot and no account.
pub record Apart (p q : Pick) : Type 0 where
  pub index : p.index ≢ q.index
  pub vaults : p.vault_ai ≢ q.vault_ai
  pub users : p.user_ai ≢ q.user_ai
  pub vault_user : p.vault_ai ≢ q.user_ai
  pub user_vault : p.user_ai ≢ q.vault_ai

pub Apart-sym : (p q : Pick) → Apart p q → Apart q p
Apart-sym p q h = record {
  index = λ e. h.index (sym e);
  vaults = λ e. h.vaults (sym e);
  users = λ e. h.users (sym e);
  vault_user = λ e. h.user_vault (sym e);
  user_vault = λ e. h.vault_user (sym e);
}

abbrev pub Pairwise : (Pick → Pick → Type 0) → List Pick → Type 0
Pairwise R [] = Unit {0}
Pairwise R (p ∷ ps) = All (R p) ps × Pairwise R ps

module _ (rt : Runtime) (pool : Pool) (a : Claim) where
  -- What a round asks of its pair.
  pub record Payable (s : StakerAccount) (bank : rt.Bank) (p : Pick) : Type 0 where
    pub slot : RewardInfo
    pub entry : RewardEntry
    pub found : find_index (λ t. t.vault == p.vault_ai) pool.rewards ≡ some p.index
    pub at : get_elem? pool.rewards p.index ≡ some slot
    pub is_slot : slot.vault ≡ p.vault_ai
    pub has : get_elem? s.entries p.index ≡ some entry
    pub accrued : entry.rewards_accrued ≡ p.due
    pub apart : p.vault_ai ≢ p.user_ai
    pub is_vault : rt.account bank p.vault_ai ≡ some p.vault
    pub is_user : rt.account bank p.user_ai ≡ some p.user
    pub owned : p.vault.owner ≡ a.pool
    pub mine : p.user.owner ≡ a.owner
    pub mint : p.user.mint ≡ p.vault.mint
    pub enough : p.due ≤ p.vault.amount
    pub room : p.user.amount + p.due < u64_limit

-- What a pair has received: the amount moved, and nothing is left in the entry.
pub record Received (rt : Runtime) (s : StakerAccount) (bank : rt.Bank) (p : Pick) : Type 0 where
  pub gains : balance rt bank p.user_ai ≡ p.user.amount + p.due
  pub pays : balance rt bank p.vault_ai + p.due ≡ p.vault.amount
  pub entry : RewardEntry
  pub left : get_elem? s.entries p.index ≡ some entry
  pub nothing : entry.rewards_accrued ≡ 0

-- The state of a pair is the same after as before.
pub record Kept (rt : Runtime) (s t : StakerAccount) (bank bank' : rt.Bank) (q : Pick)
    : Type 0 where
  pub vault : rt.account bank q.vault_ai ≡ some q.vault → rt.account bank' q.vault_ai ≡ some q.vault
  pub user : rt.account bank q.user_ai ≡ some q.user → rt.account bank' q.user_ai ≡ some q.user
  pub vault_balance : balance rt bank' q.vault_ai ≡ balance rt bank q.vault_ai
  pub user_balance : balance rt bank' q.user_ai ≡ balance rt bank q.user_ai
  pub entry : get_elem? t.entries q.index ≡ get_elem? s.entries q.index

pub Kept-Payable :
    (rt : Runtime) (pool : Pool) (a : Claim) (s t : StakerAccount) (bank bank' : rt.Bank) (q : Pick)
    → Kept rt s t bank bank' q
    → Payable rt pool a s bank q
    → Payable rt pool a t bank' q
Kept-Payable rt pool a s t bank bank' q k v = record {
  slot = v.slot;
  entry = v.entry;
  found = v.found;
  at = v.at;
  is_slot = v.is_slot;
  has = k.entry ∙ v.has;
  accrued = v.accrued;
  apart = v.apart;
  is_vault = k.vault v.is_vault;
  is_user = k.user v.is_user;
  owned = v.owned;
  mine = v.mine;
  mint = v.mint;
  enough = v.enough;
  room = v.room;
}

pub Kept-Received :
    (rt : Runtime) (s t : StakerAccount) (bank bank' : rt.Bank) (q : Pick)
    → Kept rt s t bank bank' q
    → Received rt s bank q
    → Received rt t bank' q
Kept-Received rt s t bank bank' q k v = record {
  gains = k.user_balance ∙ v.gains;
  pays = ap (λ n. n + q.due) k.vault_balance ∙ v.pays;
  entry = v.entry;
  left = k.entry ∙ v.left;
  nothing = v.nothing;
}
