-- ===== src/Program/Claimable.antt =====
-- What a staker can claim in the worlds that a pool can reach.
use mm_staking.Base.{
  ℕ, zero, suc, ◌-◌, ◌≤◌, ◌<◌, ◌≡◌, ◌≢◌, refl, sym, ap, ap₂, ◌∙◌, arith, some, List, [], ◌∷◌,
  get_elem?, set, lookup, insert, lookup-insert_self, eq→==, ==→eq, ◌==◌, some-injective, value_or,
  total_of-lookup_le, find_index, find_index_unique, ne→==-false, false,
}
use mm_staking.Int.{ℤ, pos, ◌≤ℤ◌}
use mm_staking.Word.{u64_limit, i64_limit}
use mm_staking.Outcome.{ok}
use mm_staking.State.{
  Pubkey, default_key, Pool, RewardInfo, RewardEntry, StakerAccount, zeroed_staker,
}
use mm_staking.Update.Settle.{settled}
use mm_staking.Update.Total.{refreshed, refreshed_all, credited, credited_all, update_reward-fits}
use mm_staking.Logic.Depositing.{refreshed_all-get}
use mm_staking.Logic.{claim_take_slot, claim_settle_all}
use mm_staking.Solvency.{claim_of, entry_claim}
use mm_staking.Solvency.Fits.{InRange}
use mm_staking.Solvency.Principal.{claim_settle_all-PoolSound}
use mm_staking.Runtime.{Runtime, World, TokenLaws, balance}
use mm_staking.Custody.{funds}
use mm_staking.Custody.DepositParts.{named_funds}
use mm_staking.Program.{Reachable}
use mm_staking.Program.Sound.{Reachable-WorldSound}
use mm_staking.Program.Mints.{Reachable-BlankSlots}
use mm_staking.Program.Payment.{owed}
use mm_staking.Program.Ready.{Reachable-AllSettle, Reachable-AllAccrue}

-- The labels of a slot in an array that was brought up to now.
refreshed_all-labels :
    (total : ℕ) (now : ℤ) (slots : List RewardInfo) (i : ℕ) (new : RewardInfo)
    → get_elem? (refreshed_all total now slots) i ≡ some new
    → (slot : RewardInfo) × (get_elem? slots i ≡ some slot)
      × (new.mint ≡ slot.mint)
      × (new.vault ≡ slot.vault)
refreshed_all-labels total now [] i new h = absurd (cc)
refreshed_all-labels total now (s ∷ slots) zero new h =
    let e : refreshed total now s ≡ new = some-injective h in
    (s, refl, ground (arith, e), ground (arith, e))
refreshed_all-labels total now (s ∷ slots) (suc i) new h =
    refreshed_all-labels total now slots i new h

pub credited_all-get :
    (staked : ℕ) (slots : List RewardInfo) (entries : List RewardEntry) (i : ℕ) (slot : RewardInfo)
    (e : RewardEntry)
    → get_elem? slots i ≡ some slot
    → get_elem? entries i ≡ some e
    → get_elem? (credited_all staked slots entries) i ≡ some (credited staked slot e)
credited_all-get staked [] entries i slot e h g = absurd (cc)
credited_all-get staked (s ∷ slots) [] i slot e h g = absurd (cc)
credited_all-get staked (s ∷ slots) (d ∷ entries) zero slot e h g =
    ap₂ (λ s d. some (credited staked s d)) (some-injective h) (some-injective g)
credited_all-get staked (s ∷ slots) (d ∷ entries) (suc i) slot e h g =
    credited_all-get staked slots entries i slot e h g

pub claim_take_slot-fits :
    (pool : Pool) (s : StakerAccount) (vault : Pubkey) (i : ℕ) (e : RewardEntry)
    → find_index (λ slot. slot.vault == vault) pool.rewards ≡ some i
    → get_elem? s.entries i ≡ some e
    → claim_take_slot pool s vault
      ≡ ok (
        i,
        e.rewards_accrued,
        record s { entries = set s.entries i (record e { rewards_accrued = 0 }) },
      )
unfolding claim_take_slot
claim_take_slot-fits pool s vault i e found at = rw (found, at) refl

-- The entry beside a registered slot, once both were brought up to now.
pub credited-accrued :
    (staked total : ℕ) (now : ℤ) (slot : RewardInfo) (e : RewardEntry)
    → slot.mint ≢ default_key
    → (credited staked (settled slot total now) e).rewards_accrued
      ≡ owed staked (settled slot total now) e
credited-accrued staked total now slot e named =
    let same : (settled slot total now).mint ≡ slot.mint = ground arith in
    let real : ((settled slot total now).mint == default_key) ≡ false =
      ne→==-false (settled slot total now).mint default_key (λ q. named (sym same ∙ q)) in
    rw real refl

pub settled-labels :
    (slot : RewardInfo) (total : ℕ) (now : ℤ)
    → ((settled slot total now).mint ≡ slot.mint) × ((settled slot total now).vault ≡ slot.vault)
settled-labels slot total now = (ground arith, ground arith)

module _ (rt : Runtime) (laws : TokenLaws rt) (w : World rt) (clock now : ℤ)
    (r : Reachable rt w clock) (later_on : clock ≤ℤ now) (clock_range : now ≤ℤ pos (i64_limit - 1))
    (ranges : (i : ℕ) (slot : RewardInfo)
      → get_elem? w.pool.rewards i ≡ some slot
      → slot.mint ≢ default_key
      → InRange slot now × (balance rt w.bank slot.vault < u64_limit)) where
  abbrev pub total : ℕ
  total = w.pool.total_staked

  abbrev pub slots : List RewardInfo
  slots = refreshed_all total now w.pool.rewards

  abbrev pub pool_now : Pool
  pool_now = record w.pool { rewards = slots }

  abbrev pub staker_now : StakerAccount → StakerAccount
  staker_now s = record s { entries = credited_all s.staked_amount slots s.entries }

  pub settles :
      (key : ℕ) (s : StakerAccount)
      → lookup key w.stakers ≡ some s
      → claim_settle_all w.pool s now ≡ ok (pool_now, staker_now s)
  unfolding claim_settle_all
  settles key s there =
      update_reward-fits w.pool s now
        (Reachable-AllSettle rt laws w clock now r later_on clock_range ranges)
        (Reachable-AllAccrue rt laws w clock now r later_on clock_range ranges key s there)

  -- The one slot with the vault of a registered slot is that slot.
  pub finds :
      (i : ℕ) (slot : RewardInfo)
      → get_elem? w.pool.rewards i ≡ some slot
      → slot.mint ≢ default_key
      → slot.vault ≢ default_key
      → find_index (λ t. t.vault == slot.vault) slots ≡ some i
  finds i slot at named real =
      let v = Reachable-WorldSound rt laws w clock r in
      find_index_unique (λ t. t.vault == slot.vault) slots i (settled slot total now)
        (refreshed_all-get total now w.pool.rewards i slot at named)
        (eq→== _ _ (settled-labels slot total now).1)
        (λ j new g hit.
          let (old, was, m, u) = refreshed_all-labels total now w.pool.rewards j new g in
          let same : old.vault ≡ slot.vault = sym u ∙ ==→eq _ _ hit in
          v.vaults.apart j i old slot was at
            (λ q. real (sym same ∙ Reachable-BlankSlots rt w clock r j old was q)) named same)

  -- The vault of a registered slot covers what a staker is owed in it.
  pub covers :
      (key : ℕ) (s : StakerAccount) (i : ℕ) (slot : RewardInfo) (e : RewardEntry)
      → lookup key w.stakers ≡ some s
      → get_elem? w.pool.rewards i ≡ some slot
      → slot.mint ≢ default_key
      → get_elem? s.entries i ≡ some e
      → owed s.staked_amount (settled slot total now) e ≤ balance rt w.bank slot.vault
  covers key s i slot e there at named entry =
      let v = Reachable-WorldSound rt laws w clock r in
      let new = settled slot total now in
      let rpt = new.reward_per_token_stored in
      let t = staker_now s in
      let d = credited s.staked_amount new e in
      let here = refreshed_all-get total now w.pool.rewards i slot at named in
      let go =
        ap (λ o. claim_settle_all w.pool (value_or zeroed_staker o) now) there
        ∙ settles key s there in
      let sound =
        claim_settle_all-PoolSound w.pool w.stakers clock now (funds rt w.bank w.pool) key later_on
          v.pooled pool_now t go in
      let part =
        total_of-lookup_le (claim_of i rpt) key t (insert key t w.stakers)
          (lookup-insert_self key t w.stakers) in
      let mine : claim_of i rpt t ≡ entry_claim s.staked_amount rpt (some d) =
        ap (entry_claim s.staked_amount rpt)
          (credited_all-get s.staked_amount slots s.entries i new e here entry) in
      omega (
        arith,
        (sound.slots i new here).solvent.backed,
        part,
        mine,
        credited-accrued s.staked_amount total now slot e named,
        named_funds rt w.bank w.pool i slot at named,
      )
