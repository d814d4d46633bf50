-- ===== src/Logic/Ordering.antt =====
-- The order of two stakes at one time.
use mm_staking.Base.{ℕ, ◌+◌, ◌<◌, ◌≡◌, refl, sym, ap, ap₂, ◌∙◌, subst, arith, lt→ltb, eq→==}
use mm_staking.Int.{ℤ}
use mm_staking.Word.{u64_limit}
use mm_staking.Outcome.{ok, ok-injective}
use mm_staking.State.{Pubkey, Pool, StakerAccount}
use mm_staking.Update.{update_globals, update_reward, accrue_entries}
use mm_staking.Update.Again.{settle_slots-again}
use mm_staking.Solvency.Pooled.{update_globals-parts, update_reward-parts}
use mm_staking.Solvency.Principal.{stake-parts}
use mm_staking.Logic.{init_staker, stake}

abbrev with_total : ℕ → Pool → Pool
with_total n pool = record pool { total_staked = n }

-- After an update the pool is up to now, whatever its count becomes.
globals-again :
    (pool p : Pool) (now : ℤ) (n : ℕ)
    → update_globals pool now ≡ ok p
    → update_globals (with_total n p) now ≡ ok (with_total n p)
unfolding update_globals
globals-again pool p now n h =
    let (settles, e) = update_globals-parts pool now p (unfold update_globals in h) in
    rw (settle_slots-again pool.rewards p.rewards pool.total_staked n now settles) refl

update_reward-from :
    (pool p : Pool) (s t : StakerAccount) (now : ℤ)
    → update_globals pool now ≡ ok p
    → accrue_entries p.rewards s.staked_amount s.entries ≡ ok t.entries
    → t ≡ record s { entries = t.entries }
    → update_reward pool s now ≡ ok (p, t)
unfolding update_reward
update_reward-from pool p s t now go accrues e = rw (go, accrues) (ap (λ u. ok (p, u)) (sym e))

-- What a successful `stake` needed.
pub stake-guards :
    (pool : Pool) (s : StakerAccount) (owner pool_key : Pubkey) (bump amount : ℕ) (now : ℤ)
    (p : Pool) (t : StakerAccount) (pool' : Pool) (s' : StakerAccount)
    → stake pool s owner pool_key bump amount now ≡ ok (pool', s')
    → update_reward pool (init_staker s owner pool_key bump) now ≡ ok (p, t)
    → (0 < amount)
      × (pool.paused ≡ 0)
      × (t.staked_amount + amount < u64_limit)
      × (p.total_staked + amount < u64_limit)
unfolding stake
stake-guards pool s owner pool_key bump amount now p t pool' s' h up =
    (ground arith, ground arith, ground arith, ground arith)

stake-from :
    (pool : Pool) (s : StakerAccount) (owner pool_key : Pubkey) (bump amount : ℕ) (now : ℤ)
    (p : Pool) (t : StakerAccount)
    → update_reward pool (init_staker s owner pool_key bump) now ≡ ok (p, t)
    → 0 < amount
    → pool.paused ≡ 0
    → t.staked_amount + amount < u64_limit
    → p.total_staked + amount < u64_limit
    → stake pool s owner pool_key bump amount now
      ≡ ok (
        with_total (p.total_staked + amount) p,
        record t { staked_amount = t.staked_amount + amount },
      )
unfolding stake
stake-from pool s owner pool_key bump amount now p t up positive unpaused room total_room =
    rw
      (
        lt→ltb 0 amount positive,
        eq→== pool.paused 0 unpaused,
        up,
        lt→ltb (t.staked_amount + amount) u64_limit room,
        lt→ltb (p.total_staked + amount) u64_limit total_room,
      )
      refl

-- Where two stakes at one time succeed one after the other, on two staker accounts of one pool,
-- they also succeed in the other order, and leave the same pool and the same two accounts.
pub stake-commutes :
    (pool : Pool) (s1 s2 : StakerAccount) (o1 o2 pool_key : Pubkey) (b1 b2 a1 a2 : ℕ) (now : ℤ)
    (p1 p2 : Pool) (t1 t2 : StakerAccount)
    → stake pool s1 o1 pool_key b1 a1 now ≡ ok (p1, t1)
    → stake p1 s2 o2 pool_key b2 a2 now ≡ ok (p2, t2)
    → (q : Pool) × (stake pool s2 o2 pool_key b2 a2 now ≡ ok (q, t2))
      × (stake q s1 o1 pool_key b1 a1 now ≡ ok (p2, t1))
stake-commutes pool s1 s2 o1 o2 pool_key b1 b2 a1 a2 now p1 p2 t1 t2 h1 h2 =
    let i1 = init_staker s1 o1 pool_key b1 in
    let i2 = init_staker s2 o2 pool_key b2 in
    let (p, u1, up1, e1, f1) = stake-parts pool s1 o1 pool_key b1 a1 now p1 t1 h1 in
    let (r, u2, up2, e2, f2) = stake-parts p1 s2 o2 pool_key b2 a2 now p2 t2 h2 in
    let (go, accrues1, is1) = update_reward-parts pool i1 now p u1 up1 in
    let (go', accrues2, is2) = update_reward-parts p1 i2 now r u2 up2 in
    let (pos1, open1, room1, total1) =
      stake-guards pool s1 o1 pool_key b1 a1 now p u1 p1 t1 h1 up1 in
    let (pos2, open2, room2, total2) = stake-guards p1 s2 o2 pool_key b2 a2 now r u2 p2 t2 h2 up2 in
    let (settles, shape) = update_globals-parts pool now p go in
    let n1 = p.total_staked + a1 in
    let n2 = p.total_staked + a2 in
    let q = with_total n2 p in
    -- The second settlement changed nothing.
    let again : update_globals p1 now ≡ ok p1 =
      subst (λ x. update_globals x now ≡ ok x) (sym e1) (globals-again pool p now n1 go) in
    let same : r ≡ with_total n1 p = ok-injective (sym go' ∙ again) ∙ e1 in
    let slots : r.rewards ≡ p.rewards = ap (λ x. x.rewards) same in
    let total : r.total_staked ≡ n1 = ap (λ x. x.total_staked) same in
    let unpaused : p.paused ≡ 0 = ap (λ x. x.paused) shape ∙ open1 in
    let credits2 : accrue_entries p.rewards i2.staked_amount i2.entries ≡ ok u2.entries =
      ap (λ l. accrue_entries l i2.staked_amount i2.entries) (sym slots) ∙ accrues2 in
    let first =
      stake-from pool s2 o2 pool_key b2 a2 now p u2
        (update_reward-from pool p i2 u2 now go credits2 is2) pos2 open1 room2
        (omega (arith, total2, total)) in
    let second =
      stake-from q s1 o1 pool_key b1 a1 now q u1
        (update_reward-from q q i1 u1 now (globals-again pool p now n2 go) accrues1 is1) pos1
        unpaused room1 (omega (arith, total2, total)) in
    let ends : p2 ≡ with_total (n2 + a1) p =
      e2
      ∙ ap (λ x. with_total (x.total_staked + a2) x) same
      ∙ ap (λ n. with_total n p) (omega arith) in
    (q, first ∙ ap (λ u. ok (q, u)) (sym f2), second ∙ ap₂ (λ x u. ok (x, u)) (sym ends) (sym f1))
