-- ===== src/Update/Lengths.antt =====
-- The lengths of the two arrays, through the operations of update.rs.
use mm_staking.Base.{ℕ, suc, ◌≡◌, sym, ap, ◌∙◌, List, [], ◌∷◌, length}
use mm_staking.Int.{ℤ}
use mm_staking.Outcome.{ok, >>=-eq-ok, ok-injective}
use mm_staking.State.{RewardInfo, RewardEntry, Pool, StakerAccount}
use mm_staking.Update.{
  settle_round, settle_slots, accrue_round, accrue_entries, update_globals, update_reward,
}
use mm_staking.Logic.{forfeit}

pub settle_slots-length :
    (slots slots' : List RewardInfo) (total : ℕ) (now : ℤ)
    → settle_slots slots total now ≡ ok slots'
    → length slots' ≡ length slots
unfolding settle_slots
settle_slots-length [] slots' total now h = ap length (sym (ok-injective h))
settle_slots-length (s ∷ slots) slots' total now h =
    let (s', first, h1) = >>=-eq-ok (settle_round s total now) _ h in
    let (rest, others, h2) = >>=-eq-ok (settle_slots slots total now) _ h1 in
    ap length (sym (ok-injective h2)) ∙ ap suc (settle_slots-length slots rest total now others)

pub accrue_entries-length :
    (slots : List RewardInfo) (staked : ℕ) (entries entries' : List RewardEntry)
    → accrue_entries slots staked entries ≡ ok entries'
    → length entries' ≡ length entries
unfolding accrue_entries
accrue_entries-length [] staked [] entries' h = ap length (sym (ok-injective h))
accrue_entries-length [] staked (e ∷ entries) entries' h = absurd (cc)
accrue_entries-length (s ∷ slots) staked [] entries' h = absurd (cc)
accrue_entries-length (s ∷ slots) staked (e ∷ entries) entries' h =
    let (e', first, h1) = >>=-eq-ok (accrue_round s staked e) _ h in
    let (rest, others, h2) = >>=-eq-ok (accrue_entries slots staked entries) _ h1 in
    ap length (sym (ok-injective h2))
    ∙ ap suc (accrue_entries-length slots staked entries rest others)

pub forfeit-length :
    (slots : List RewardInfo) (entries entries' : List RewardEntry)
    → forfeit slots entries ≡ ok entries'
    → length entries' ≡ length entries
unfolding forfeit
forfeit-length [] [] entries' h = ap length (sym (ok-injective h))
forfeit-length [] (e ∷ entries) entries' h = absurd (cc)
forfeit-length (s ∷ slots) [] entries' h = absurd (cc)
forfeit-length (s ∷ slots) (e ∷ entries) entries' h =
    let (rest, others, h2) = >>=-eq-ok (forfeit slots entries) _ h in
    ap length (sym (ok-injective h2)) ∙ ap suc (forfeit-length slots entries rest others)

pub update_globals-length :
    (pool pool' : Pool) (now : ℤ)
    → update_globals pool now ≡ ok pool'
    → length pool'.rewards ≡ length pool.rewards
unfolding update_globals
update_globals-length pool pool' now h =
    let (rewards, go, e) = >>=-eq-ok (settle_slots pool.rewards pool.total_staked now) _ h in
    ap (λ p. length p.rewards) (sym (ok-injective e))
    ∙ settle_slots-length pool.rewards rewards pool.total_staked now go

-- What an update leaves of a staker's account.
pub record Accrued (pool : Pool) (s : StakerAccount) (pool' : Pool) (s' : StakerAccount)
    : Type 0 where
  pub slots : length pool'.rewards ≡ length pool.rewards
  pub entries : length s'.entries ≡ length s.entries
  pub staked : s'.staked_amount ≡ s.staked_amount
  pub owner : s'.owner ≡ s.owner

pub update_reward-Accrued :
    (pool : Pool) (s : StakerAccount) (now : ℤ) (pool' : Pool) (s' : StakerAccount)
    → update_reward pool s now ≡ ok (pool', s')
    → Accrued pool s pool' s'
unfolding update_reward
update_reward-Accrued pool s now pool' s' h =
    let (p, go, more) = >>=-eq-ok (update_globals pool now) _ h in
    let (es, go_on, e) = >>=-eq-ok (accrue_entries p.rewards s.staked_amount s.entries) _ more in
    let same = sym (ok-injective e) in
    record {
      slots =
          ap (λ (r : Pool × StakerAccount). length r.0.rewards) same
          ∙ update_globals-length pool p now go;
      entries =
          ap (λ (r : Pool × StakerAccount). length r.1.entries) same
          ∙ accrue_entries-length p.rewards s.staked_amount s.entries es go_on;
      staked = ap (λ (r : Pool × StakerAccount). r.1.staked_amount) same;
      owner = ap (λ (r : Pool × StakerAccount). r.1.owner) same;
    }
