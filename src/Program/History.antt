-- ===== src/Program/History.antt =====
-- lib.rs over a list of calls: each is a transaction of one instruction at a time.
use mm_staking.Base.{
  ℕ, ◌≤◌, ◌≡◌, ◌≢◌, refl, sym, ap, ◌∙◌, subst, arith, inl, inr, some, List, [], ◌∷◌, lookup,
}
use mathlib.Core.Path.{fun_ext}
use mm_staking.Int.{ℤ, ◌≤ℤ◌}
use mm_staking.Outcome.{Result, ok, err, ok-cases}
use mm_staking.State.{Pubkey, default_key, StakerAccount}
use mm_staking.Runtime.{Runtime, World}
use mm_staking.Program.{Instruction, signer_of, process, called, failed, Reachable, later}
use mm_staking.Program.Shape.{process-keeps_stake}
use mm_staking.Program.Identity.{world_id, process-keeps_id}
use mm_staking.Program.Ledger.{Stakes, ledger, ledger_step, process-ledger}

-- When, and what.
abbrev pub Call : Type 0
Call = ℤ × Instruction

abbrev pub after {ℓ} : {A : Type ℓ} → A → Result A → A
after old (ok new) = new
after old (err fault) = old

-- A call that fails leaves the world as it was.
abbrev pub submit : (rt : Runtime) → World rt → Call → World rt
submit rt w (now, i) = after w (process rt w i now)

abbrev pub run : (rt : Runtime) → World rt → List Call → World rt
run rt w [] = w
run rt w (call ∷ calls) = run rt (submit rt w call) calls

-- The time of the last call.
abbrev pub last_time : ℤ → List Call → ℤ
last_time clock [] = clock
last_time clock ((now, i) ∷ calls) = last_time now calls

-- The clock does not go back, and no call is signed by `key`.
abbrev pub InOrder : Pubkey → ℤ → List Call → Type 0
InOrder key clock [] = Unit
InOrder key clock ((now, i) ∷ calls) = (clock ≤ℤ now) × (signer_of i ≢ key) × InOrder key now calls

-- No call is signed by `key`.
abbrev pub Unsigned : Pubkey → List Call → Type 0
Unsigned key [] = Unit
Unsigned key ((now, i) ∷ calls) = (key ≢ signer_of i) × Unsigned key calls

abbrev pub keep_if_ok {ℓ} :
    {A : Type ℓ} → Result A → Instruction → List Instruction → List Instruction
keep_if_ok (ok w) i rest = i ∷ rest
keep_if_ok (err fault) i rest = rest

-- The ledger of the abstract program over a list of instructions.
abbrev pub replay : List Instruction → Stakes → Stakes
replay [] stakes = stakes
replay (i ∷ rest) stakes = replay rest (ledger_step i stakes)

module _ (rt : Runtime) where
  pub run-keeps_id :
      (calls : List Call) (w : World rt) → world_id rt (run rt w calls) ≡ world_id rt w
  run-keeps_id [] w = refl
  run-keeps_id ((now, i) ∷ calls) w =
      run-keeps_id calls (submit rt w (now, i)) ∙ elim (ok-cases (process rt w i now)) [
        | inl (fault, stop) ↦ rw stop refl
        | inr (w', go) ↦ rw go (process-keeps_id rt w now w' i go)
      ]

  pub run-Reachable :
      (calls : List Call) (w : World rt) (clock : ℤ)
      → Reachable rt w clock
      → InOrder w.pool_key clock calls
      → Reachable rt (run rt w calls) (last_time clock calls)
  run-Reachable [] w clock r o = r
  run-Reachable ((now, i) ∷ calls) w clock r (le, out, o) = elim (ok-cases (process rt w i now)) [
    | inl (fault, stop) ↦ rw stop (run-Reachable calls w now (later r (failed i fault le stop)) o)
    | inr (w', go) ↦
        let same : w'.pool_key ≡ w.pool_key =
          ap (λ (d : Pubkey × (Pubkey × Pubkey × ℕ)). d.0) (process-keeps_id rt w now w' i go) in
        rw go (
          run-Reachable calls w' now (later r (called i le out go))
            (subst (λ k. InOrder k now calls) (sym same) o))
  ]

  -- The account of a staker later on, with at least its stake.
  abbrev pub Survives : Pubkey → StakerAccount → World rt → Type 0
  Survives key s w =
      (t : StakerAccount) × (lookup key w.stakers ≡ some t)
      × (t.owner ≡ s.owner)
      × (s.staked_amount ≤ t.staked_amount)

  pub run-keeps_stake :
      (calls : List Call) (w : World rt) (key : Pubkey) (s : StakerAccount)
      → lookup key w.stakers ≡ some s
      → s.owner ≢ default_key
      → Unsigned s.owner calls
      → Survives key s (run rt w calls)
  run-keeps_stake [] w key s there owned o = (s, there, refl, omega arith)
  run-keeps_stake ((now, i) ∷ calls) w key s there owned (foreign, o) =
      let Later = λ (r : Result (World rt)). Survives key s (run rt (after w r) calls) in
      elim (ok-cases (process rt w i now)) [
        | inl (fault, stop) ↦ subst Later (sym stop) (run-keeps_stake calls w key s there owned o)
        | inr (w', go) ↦
            let (t, at, mine, more) =
              process-keeps_stake rt w i now w' go key s there foreign owned in
            let (u, at', mine', more') =
              run-keeps_stake calls w' key t at (λ e. owned (sym mine ∙ e))
                (subst (λ k. Unsigned k calls) (sym mine) o) in
            subst Later (sym go) (u, at', mine' ∙ mine, omega (arith, more, more'))
      ]

  -- The instructions of a list of calls that succeed.
  abbrev pub accepted : World rt → List Call → List Instruction
  accepted w [] = []
  accepted w ((now, i) ∷ calls) =
      keep_if_ok (process rt w i now) i (accepted (submit rt w (now, i)) calls)

  -- A list of calls, each at a time and each leaving the world as it was where it fails, moves the
  -- stakes as the abstract ledger does over the instructions of the list that succeed, in their
  -- order.
  pub run-ledger :
      (calls : List Call) (w : World rt) (k : Pubkey)
      → ledger rt (run rt w calls) k ≡ replay (accepted w calls) (ledger rt w) k
  run-ledger [] w k = refl
  run-ledger ((now, i) ∷ calls) w k = elim (ok-cases (process rt w i now)) [
    | inl (fault, stop) ↦ rw stop (run-ledger calls w k)
    | inr (w', go) ↦ rw go (
        run-ledger calls w' k
        ∙ ap (λ stakes. replay (accepted w' calls) stakes k)
            (fun_ext (process-ledger rt w now w' i go)))
  ]
