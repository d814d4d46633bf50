-- ===== src/Program/Registry.antt =====
-- The registered reward slots over the instructions and the history of a pool.
use mm_staking.Base.{
  ℕ, ◌≡◌, ◌≢◌, refl, sym, ap, ◌∙◌, subst, arith, inl, inr, some, length, ◌==◌, ==→eq, eq→==,
  get_elem?, get_elem?-set_cases, get_elem?-set_ne, get_elem?-lt, get_elem?-lt_length, Bool-cases,
  ==-false→ne, some-injective, find_index-none,
}
use mathlib.Core.Bool.{false≢true}
use mm_staking.Int.{ℤ}
use mm_staking.Outcome.{Result, ok, ◌>>=◌, >>=-eq-ok, ok-injective}
use mm_staking.State.{Pubkey, default_key, Pool, RewardInfo}
use mm_staking.Logic
use mm_staking.Logic.{new_slot}
use mm_staking.Update.{find_slot}
use mm_staking.Solvency.Principal.{stake-parts, unstake-parts}
use mm_staking.Solvency.Forfeit.{emergency_withdraw-parts}
use mm_staking.Solvency.Slots.{add_reward-parts, duration_for}
use mm_staking.Runtime.{Runtime, World}
use mm_staking.Instructions.AddReward.{AddReward, admin_and_pool}
use mm_staking.Instructions.AddReward
use mm_staking.Instructions.Admin.{AdminOnly, admin_only, with_pool}
use mm_staking.Instructions.Admin
use mm_staking.Custody.Labels.{SameLabels, SameLabels-refl}
use mm_staking.Custody.Registered.{registered, registered-labels, registered-set}
use mm_staking.Custody.Staking.{stake-calls, update_reward-labels, counted-labels}
use mm_staking.Custody.Exits.{unstake-calls, emergency_withdraw-calls}
use mm_staking.Custody.DepositParts.{deposit_rewards-calls, deposit_rewards-labels}
use mm_staking.Custody.Adding.{add_reward-calls}
use mm_staking.Custody.ClaimParts.{claim-calls}
use mm_staking.Custody.Admin.{set_reward_active-labels, set_duration-labels}
use mm_staking.Program.{
  Instruction, add_reward, set_reward_active, stake, unstake, deposit_rewards, claim,
  emergency_withdraw, set_paused, set_keeper_authority, set_admin, set_duration, process,
}
use mm_staking.Program.Ownership.{process-WorldEffect}

-- No two registered slots have the same mint.
abbrev pub DistinctMints : Pool → Type 0
DistinctMints pool =
    (i j : ℕ) (slot other : RewardInfo)
    → get_elem? pool.rewards i ≡ some slot
    → get_elem? pool.rewards j ≡ some other
    → slot.mint ≢ default_key
    → slot.mint ≡ other.mint
    → i ≡ j

-- A registered slot stays where it is, with its mint and its vault.
abbrev pub KeepsSlots : Pool → Pool → Type 0
KeepsSlots pool pool' =
    (i : ℕ) (slot : RewardInfo)
    → get_elem? pool.rewards i ≡ some slot
    → slot.mint ≢ default_key
    → (slot' : RewardInfo) × (get_elem? pool'.rewards i ≡ some slot')
      × (slot'.mint ≡ slot.mint)
      × (slot'.vault ≡ slot.vault)

-- A slot with no mint has no vault.
abbrev pub BlankSlots : Pool → Type 0
BlankSlots pool =
    (i : ℕ) (slot : RewardInfo)
    → get_elem? pool.rewards i ≡ some slot
    → slot.mint ≡ default_key
    → slot.vault ≡ default_key

-- The pool counts its registered slots.
abbrev pub CountsSlots : Pool → Type 0
CountsSlots pool = pool.reward_count ≡ registered pool.rewards

pub record RegistryEffect (pool pool' : Pool) : Type 0 where
  pub kept : KeepsSlots pool pool'
  pub distinct : DistinctMints pool → DistinctMints pool'
  pub blank : BlankSlots pool → BlankSlots pool'
  pub counted : CountsSlots pool → CountsSlots pool'

SameLabels-registry :
    (pool pool' : Pool)
    → SameLabels pool pool'
    → length pool'.rewards ≡ length pool.rewards
    → RegistryEffect pool pool'
SameLabels-registry pool pool' l same = record {
  kept = λ i slot at named.
      let (slot', at') =
        get_elem?-lt pool'.rewards i (omega (arith, get_elem?-lt_length pool.rewards i at, same)) in
      let (t, was, m, u) = l.slots i slot' at' in
      let e : t ≡ slot = some-injective (sym was ∙ at) in
      (slot', at', m ∙ ap (λ s. s.mint) e, u ∙ ap (λ s. s.vault) e);
  distinct = λ d i j slot other at at' named e.
      let (s, was, m, u) = l.slots i slot at in
      let (t, was', m', u') = l.slots j other at' in
      d i j s t was was' (λ f. named (m ∙ f)) (sym m ∙ e ∙ m');
  blank =
      λ d i slot at empty. let (s, was, m, u) = l.slots i slot at in u ∙ d i s was (sym m ∙ empty);
  counted = λ c. l.count ∙ c ∙ sym (registered-labels pool pool' l same);
}

add_reward-registry :
    (pool : Pool) (mint vault : Pubkey) (duration now : ℤ) (pool' : Pool)
    → Logic.add_reward pool mint vault duration now ≡ ok pool'
    → RegistryEffect pool pool'
unfolding new_slot find_slot
add_reward-registry pool mint vault duration now pool' h =
    let (idx, old, new, found, at, empty, named, room, f) =
      add_reward-parts pool mint vault duration now pool' h in
    let slot = new_slot mint vault (duration_for pool duration) now in
    let other_mint =
      λ (j : ℕ) (t : RewardInfo) (g : get_elem? pool.rewards j ≡ some t) (e : t.mint ≡ mint).
        false≢true (
          sym (find_index-none (λ s. s.mint == mint) pool.rewards j new g) ∙ eq→== t.mint mint e) in
    subst (RegistryEffect pool) (sym f) (record {
      kept = λ i s g real. elim (Bool-cases (i == idx)) [
        | inl here ↦ absurd (
            real (
              ap (λ r. r.mint)
                (some-injective (sym g ∙ ap (get_elem? pool.rewards) (==→eq i idx here) ∙ at))
              ∙ empty))
        | inr there ↦ (
          s,
          get_elem?-set_ne pool.rewards idx i slot (λ e. ==-false→ne i idx there (sym e)) ∙ g,
          refl,
          refl,
        )
      ];
      distinct = λ d i j s t g g' real e. elim (get_elem?-set_cases pool.rewards idx i slot at g) [
        | inl (p, same) ↦ elim (get_elem?-set_cases pool.rewards idx j slot at g') [
          | inl (p', same') ↦ p ∙ sym p'
          | inr (ne, was) ↦ absurd (other_mint j t was (sym e ∙ ap (λ r. r.mint) same))
        ]
        | inr (ne, was) ↦ elim (get_elem?-set_cases pool.rewards idx j slot at g') [
          | inl (p', same') ↦ absurd (other_mint i s was (e ∙ ap (λ r. r.mint) same'))
          | inr (ne', was') ↦ d i j s t was was' real e
        ]
      ];
      blank = λ d i s g none_there. elim (get_elem?-set_cases pool.rewards idx i slot at g) [
        | inl (p, same) ↦ absurd (named (sym (ap (λ r. r.mint) same) ∙ none_there))
        | inr (ne, was) ↦ d i s was none_there
      ];
      counted = λ c. omega (arith, c, registered-set pool.rewards idx old slot at empty named);
    })

module _ (rt : Runtime) (w : World rt) (now : ℤ) (w' : World rt) where
  -- A call after which every slot has the labels it had.
  relabelled :
      (i : Instruction)
      → process rt w i now ≡ ok w'
      → SameLabels w.pool w'.pool
      → RegistryEffect w.pool w'.pool
  relabelled i h l =
      SameLabels-registry w.pool w'.pool l (process-WorldEffect rt w now w' i h).slots

  -- The labels after a call whose pool is known.
  to_world : (pool' : Pool) → w'.pool ≡ pool' → SameLabels w.pool pool' → SameLabels w.pool w'.pool
  to_world pool' e l = subst (SameLabels w.pool) (sym e) l

  with_pool-labels :
      (a : AdminOnly) (r : Result Pool)
      → (admin_only rt w a >>= λ u. with_pool rt w r) ≡ ok w'
      → ((pool' : Pool) → r ≡ ok pool' → SameLabels w.pool pool')
      → SameLabels w.pool w'.pool
  with_pool-labels a r h kept =
      let (u, c, h1) = >>=-eq-ok (admin_only rt w a) _ h in
      let (pool', go, e) = >>=-eq-ok r _ h1 in
      to_world pool' (ap (λ x. x.pool) (sym (ok-injective e))) (kept pool' go)

  -- An instruction that succeeds leaves each registered slot at its index, with its mint and its
  -- vault; and where no two registered slots had one mint, none have after it, and where no slot
  -- without a mint had a vault, none has after it.
  pub process-RegistryEffect :
      (i : Instruction) → process rt w i now ≡ ok w' → RegistryEffect w.pool w'.pool
  unfolding process AddReward.set_reward_active Admin.set_paused Admin.set_keeper_authority
      Admin.set_admin Admin.set_duration Logic.set_paused Logic.set_keeper_authority Logic.set_admin
      Logic.claim_settle_all
  process-RegistryEffect (add_reward a duration) h =
      let (bank', pool', is_pool, created, go, e) = add_reward-calls rt w a duration now w' h in
      subst (RegistryEffect w.pool) (ap (λ x. x.pool) (sym e))
        (add_reward-registry w.pool a.reward_mint a.reward_vault duration now pool' go)
  process-RegistryEffect (set_reward_active a slot active) h =
      let (u, c, h1) = >>=-eq-ok (admin_and_pool rt w a.admin a.pool) _ h in
      let (pool', go, e) = >>=-eq-ok (Logic.set_reward_active w.pool slot active) _ h1 in
      relabelled (set_reward_active a slot active) h (
        to_world pool' (ap (λ x. x.pool) (sym (ok-injective e)))
          (set_reward_active-labels w.pool pool' slot active go).0)
  process-RegistryEffect (stake a amount) h =
      let (bump, pool', s', bank', go, user, vault, paid, e) = stake-calls rt w a amount now w' h in
      let (p, t, up, f, g) = stake-parts w.pool _ a.owner a.pool bump amount now pool' s' go in
      relabelled (stake a amount) h (
        to_world pool' (ap (λ x. x.pool) e)
          (counted-labels w.pool p pool' _ (update_reward-labels w.pool _ now p t up).0 f))
  process-RegistryEffect (unstake a amount) h =
      let (s, pool', s', bank', (there, mine), go, user, vault, paid, e) =
        unstake-calls rt w a amount now w' h in
      let (p, t, up, le, le', f, g) = unstake-parts w.pool s amount now pool' s' go in
      relabelled (unstake a amount) h (
        to_world pool' (ap (λ x. x.pool) e)
          (counted-labels w.pool p pool' _ (update_reward-labels w.pool s now p t up).0 f))
  process-RegistryEffect (deposit_rewards a amount) h =
      let (bank', received, pool', keeper, vault, is_mint, paid, measured, go, e) =
        deposit_rewards-calls rt w a amount now w' h in
      relabelled (deposit_rewards a amount) h (
        to_world pool' (ap (λ x. x.pool) e)
          (deposit_rewards-labels w.pool a.reward_mint received now pool' go).0)
  process-RegistryEffect (claim a remaining) h =
      let (s, pool', s', t, bank', (there, mine), go, looped, e) =
        claim-calls rt w a remaining now w' h in
      relabelled (claim a remaining) h
        (to_world pool' (ap (λ x. x.pool) e) (update_reward-labels w.pool s now pool' s' go).0)
  process-RegistryEffect (emergency_withdraw a) h =
      let (s, amount, pool', s', bank', (there, mine), go, user, vault, paid, e) =
        emergency_withdraw-calls rt w a w' h in
      let (is, f, forfeits, g) = emergency_withdraw-parts w.pool s amount pool' s' go in
      relabelled (emergency_withdraw a) h (
        to_world pool' (ap (λ x. x.pool) e)
          (counted-labels w.pool w.pool pool' _ (SameLabels-refl w.pool) f))
  process-RegistryEffect (set_paused a paused) h = relabelled (set_paused a paused) h (
      with_pool-labels a (Logic.set_paused w.pool paused) h (λ p e.
        subst (SameLabels w.pool) (ok-injective e)
          (record { stake = refl; count = refl; slots = λ i slot at. (slot, at, refl, refl) })))
  process-RegistryEffect (set_keeper_authority a keeper) h =
      relabelled (set_keeper_authority a keeper) h (
        with_pool-labels a (Logic.set_keeper_authority w.pool keeper) h (λ p e.
          subst (SameLabels w.pool) (ok-injective e)
            (record { stake = refl; count = refl; slots = λ i slot at. (slot, at, refl, refl) })))
  process-RegistryEffect (set_admin a new_admin) h = relabelled (set_admin a new_admin) h (
      with_pool-labels a (Logic.set_admin w.pool new_admin) h (λ p e.
        subst (SameLabels w.pool) (ok-injective e)
          (record { stake = refl; count = refl; slots = λ i slot at. (slot, at, refl, refl) })))
  process-RegistryEffect (set_duration a slot duration) h =
      relabelled (set_duration a slot duration) h (
        with_pool-labels a (Logic.set_duration w.pool slot duration) h
          (λ p e. (set_duration-labels w.pool p slot duration e).0))
