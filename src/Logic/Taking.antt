-- ===== src/Logic/Taking.antt =====
-- What a claim pays.
use mm_staking.Base.{
  ℕ, ◌+◌, ◌-◌, ◌*◌, ◌/◌, ◌≡◌, ◌≢◌, refl, sym, ap, ◌∙◌, arith, some, get_elem?, set,
  get_elem?-set_self, ◌==◌, ne→==-false, find_index,
}
use mm_staking.Int.{ℤ}
use mm_staking.Outcome.{StakingError, ok, >>=-eq-ok, ok_or, or_panic, ok-injective, ok_or-ok}
use mm_staking.State.{Pubkey, default_key, precision, Pool, StakerAccount, RewardInfo, RewardEntry}
use mm_staking.Math.{earned}
use mm_staking.Math.Exact.{earned-ok}
use mm_staking.Update.{settle_round, accrue_round}
use mm_staking.Update.PerSlot.{settle_slots-at, accrue_entries-at}
use mm_staking.Update.Settle.{settled, settle_slot_lem}
use mm_staking.Logic.{claim_settle_all, claim_take_slot}
use mm_staking.Solvency.Pooled.{update_reward-parts, update_globals-parts}
use mm_staking.Solvency.Paying.{claim_take_slot-parts}

-- A slot whose rewards were taken has nothing left to take: a second `claim_take_slot` of the same
-- vault finds the same slot and takes 0.
pub claim_take_slot-again :
    (pool : Pool) (s : StakerAccount) (vault_key : Pubkey) (idx amount : ℕ) (s' : StakerAccount)
    → claim_take_slot pool s vault_key ≡ ok (idx, amount, s')
    → (s'' : StakerAccount) × (claim_take_slot pool s' vault_key ≡ ok (idx, 0, s''))
unfolding claim_take_slot
claim_take_slot-again pool s vault_key idx amount s' h =
    let (slot, e, at, hit, entry, sum, f) =
      claim_take_slot-parts pool s vault_key idx amount s' h in
    let left : RewardEntry = record e { rewards_accrued = 0 } in
    let now_at : get_elem? s'.entries idx ≡ some left =
      ap (λ t. get_elem? t.entries idx) f ∙ get_elem?-set_self s.entries idx left entry in
    let test = λ (t : RewardInfo). t.vault == vault_key in
    let (i, found, h1) =
      >>=-eq-ok (ok_or (find_index test pool.rewards) StakingError.vault_mismatch) _ h in
    let (e', at', h2) = >>=-eq-ok (or_panic (get_elem? s.entries i)) _ h1 in
    let same : i ≡ idx = ap (λ (r : ℕ × ℕ × StakerAccount). r.0) (ok-injective h2) in
    let found' : find_index test pool.rewards ≡ some idx = ok_or-ok _ _ found ∙ ap some same in
    (record s' { entries = set s'.entries idx left }, rw (found', now_at) refl)

settle_round-registered :
    (slot slot' : RewardInfo) (total : ℕ) (now : ℤ)
    → settle_round slot total now ≡ ok slot'
    → slot.mint ≢ default_key
    → slot' ≡ settled slot total now
unfolding settle_round
settle_round-registered slot slot' total now h named =
    settle_slot_lem slot slot' total now (rw (ne→==-false slot.mint default_key named) at h)

accrue_round-registered :
    (slot : RewardInfo) (staked : ℕ) (e e' : RewardEntry)
    → accrue_round slot staked e ≡ ok e'
    → slot.mint ≢ default_key
    → (e'.reward_per_token_paid ≡ slot.reward_per_token_stored)
      × (e'.rewards_accrued
          ≡ e.rewards_accrued
            + staked * (slot.reward_per_token_stored - e.reward_per_token_paid) / precision)
unfolding accrue_round
accrue_round-registered slot staked e e' h named =
    let rpt = slot.reward_per_token_stored in
    let (accrued, go, f) =
      >>=-eq-ok (earned staked rpt e.reward_per_token_paid e.rewards_accrued) _
        (rw (ne→==-false slot.mint default_key named) at h) in
    let (paid, is, fits) =
      earned-ok staked rpt e.reward_per_token_paid e.rewards_accrued accrued go in
    (
      ap (λ d. d.reward_per_token_paid) (sym (ok-injective f)),
      ap (λ d. d.rewards_accrued) (sym (ok-injective f)) ∙ is,
    )

settled-mint : (slot : RewardInfo) (total : ℕ) (now : ℤ) → (settled slot total now).mint ≡ slot.mint
settled-mint slot total now = ground arith

-- After the settlement of a claim that succeeds, each registered slot is the settlement of the slot
-- that stood there, and the staker's entry beside it is paid up to the slot's reward per token and
-- has accrued, on top of what it had, the stake times the rise of that reward since the entry was
-- last paid, divided by the precision and rounded down.
pub claim_settle_all-entry :
    (pool : Pool) (s : StakerAccount) (now : ℤ) (p : Pool) (t : StakerAccount)
    → claim_settle_all pool s now ≡ ok (p, t)
    → (i : ℕ) (new : RewardInfo) → get_elem? p.rewards i ≡ some new
    → new.mint ≢ default_key
    → (slot : RewardInfo) × (e e' : RewardEntry) × (get_elem? pool.rewards i ≡ some slot)
      × (new ≡ settled slot pool.total_staked now)
      × (get_elem? s.entries i ≡ some e)
      × (get_elem? t.entries i ≡ some e')
      × (e'.reward_per_token_paid ≡ new.reward_per_token_stored)
      × (e'.rewards_accrued
          ≡ e.rewards_accrued
            + s.staked_amount * (new.reward_per_token_stored - e.reward_per_token_paid) / precision)
unfolding claim_settle_all
claim_settle_all-entry pool s now p t h i new at named =
    let (globals, accrues, f) = update_reward-parts pool s now p t h in
    let (settles, g) = update_globals-parts pool now p globals in
    let (slot, was, round) =
      settle_slots-at pool.rewards p.rewards pool.total_staked now i new settles at in
    let (e, e', had, has, step) =
      accrue_entries-at p.rewards s.staked_amount s.entries t.entries i new accrues at in
    let (paid, accrued) = accrue_round-registered new s.staked_amount e e' step named in
    let old_named : slot.mint ≢ default_key = λ q.
      (unfold settle_round in named (ap (λ r. r.mint) (sym (ok-injective (rw q at round))) ∙ q)) in
    (
      slot,
      e,
      e',
      was,
      settle_round-registered slot new pool.total_staked now round old_named,
      had,
      has,
      paid,
      accrued,
    )
