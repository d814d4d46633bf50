-- ===== src/Program/Sound.antt =====
-- The soundness of Custody over the instructions and the history of a pool.
use mm_staking.Base.{
  ℕ, ◌≤◌, ◌≡◌, ◌≢◌, ap, ◌∙◌, arith, some, get_elem?, Bool-cases, inl, inr, ◌==◌, ==-false→ne,
}
use mm_staking.Int.{ℤ, ◌≤ℤ◌}
use mm_staking.Outcome.{ok}
use mm_staking.State.{Pubkey, default_key, RewardInfo}
use mm_staking.Solvency.Slots.{PoolSound-mono}
use mm_staking.Runtime.{Runtime, World, TokenLaws, balance, owner_of}
use mm_staking.Custody.{funds, funds_at, Vaults, WorldSound}
use mm_staking.Custody.Labels.{SameLabels-refl}
use mm_staking.Custody.Moves.{user_pays, Vaults-transfer, funds-user_pays}
use mm_staking.Custody.Rewarding.{deposit_rewards-WorldSound}
use mm_staking.Custody.Staking.{stake-WorldSound, rebuild}
use mm_staking.Custody.Exits.{unstake-WorldSound, emergency_withdraw-WorldSound}
use mm_staking.Custody.Adding.{add_reward-WorldSound, old_kept}
use mm_staking.Custody.Claiming.{claim-WorldSound}
use mm_staking.Custody.Admin.{
  set_paused-WorldSound, set_keeper_authority-WorldSound, set_admin-WorldSound,
  set_duration-WorldSound, set_reward_active-WorldSound,
}
use mm_staking.Custody.Starting.{initialize_pool-WorldSound}
use mm_staking.Program.{
  Instruction, add_reward, set_reward_active, stake, unstake, deposit_rewards, claim,
  emergency_withdraw, set_paused, set_keeper_authority, set_admin, set_duration, signer_of, process,
  Step, called, failed, sent, opened, Reachable, initialized, later,
}

module _ (rt : Runtime) where
  WorldSound-later :
      (w : World rt) (clock now : ℤ) → clock ≤ℤ now → WorldSound rt w clock → WorldSound rt w now
  WorldSound-later w clock now le v = record {
    pooled =
        PoolSound-mono w.pool w.stakers clock now (funds rt w.bank w.pool) (funds rt w.bank w.pool)
          le (λ i slot at. omega arith) v.pooled;
    principal = v.principal;
    vaults = v.vaults;
  }

  module _ (laws : TokenLaws rt) where
    -- Each instruction that succeeds keeps the world sound.
    pub process-WorldSound :
        (w : World rt) (clock now : ℤ)
        → clock ≤ℤ now
        → WorldSound rt w clock
        → (i : Instruction) (w' : World rt) → signer_of i ≢ w.pool_key
        → process rt w i now ≡ ok w'
        → WorldSound rt w' now
    unfolding process
    process-WorldSound w clock now le v (add_reward a duration) w' out h =
        add_reward-WorldSound rt laws w clock now le v a duration w' h
    process-WorldSound w clock now le v (set_reward_active a slot active) w' out h =
        set_reward_active-WorldSound rt w now (WorldSound-later w clock now le v) a slot active w' h
    process-WorldSound w clock now le v (stake a amount) w' out h =
        stake-WorldSound rt laws w clock now le v a amount w' out h
    process-WorldSound w clock now le v (unstake a amount) w' out h =
        unstake-WorldSound rt laws w clock now le v a amount w' out h
    process-WorldSound w clock now le v (deposit_rewards a amount) w' out h =
        deposit_rewards-WorldSound rt laws w clock now le v a amount w' out h
    process-WorldSound w clock now le v (claim a remaining) w' out h =
        claim-WorldSound rt laws w clock now le v a remaining w' out h
    process-WorldSound w clock now le v (emergency_withdraw a) w' out h =
        emergency_withdraw-WorldSound rt laws w clock now le v a w' out h
    process-WorldSound w clock now le v (set_paused a paused) w' out h =
        set_paused-WorldSound rt w now (WorldSound-later w clock now le v) a paused w' h
    process-WorldSound w clock now le v (set_keeper_authority a keeper) w' out h =
        set_keeper_authority-WorldSound rt w now (WorldSound-later w clock now le v) a keeper w' h
    process-WorldSound w clock now le v (set_admin a new_admin) w' out h =
        set_admin-WorldSound rt w now (WorldSound-later w clock now le v) a new_admin w' h
    process-WorldSound w clock now le v (set_duration a slot duration) w' out h =
        set_duration-WorldSound rt w now (WorldSound-later w clock now le v) a slot duration w' h

    -- Other users can only add to the vaults.
    outside-WorldSound :
        (w : World rt) (clock : ℤ) (bank' : rt.Bank)
        → Vaults rt w.pool_key bank' w.pool
        → ((i : ℕ) (slot : RewardInfo)
            → get_elem? w.pool.rewards i ≡ some slot
            → funds rt w.bank w.pool i ≤ funds rt bank' w.pool i)
        → balance rt w.bank w.pool.stake_vault ≤ balance rt bank' w.pool.stake_vault
        → WorldSound rt w clock
        → WorldSound rt (record w { bank = bank' }) clock
    outside-WorldSound w clock bank' vaults more stake_more v =
        rebuild rt w w.pool w.stakers bank' clock (SameLabels-refl w.pool) v.pooled vaults more
          (omega (arith, v.principal, stake_more))

    sent-WorldSound :
        (w : World rt) (clock : ℤ) (user from to authority : Pubkey) (n : ℕ) (bank' : rt.Bank)
        → user ≢ w.pool_key
        → owner_of rt w.bank from ≡ some user
        → rt.transfer w.bank from to authority n ≡ ok bank'
        → WorldSound rt w clock
        → WorldSound rt (record w { bank = bank' }) clock
    sent-WorldSound w clock user from to authority n bank' out owned h v =
        outside-WorldSound w clock bank'
          (Vaults-transfer rt laws w.bank bank' from to authority n h w.pool_key user out w.pool
            v.vaults)
          (funds-user_pays rt laws w.bank bank' from to authority n h w.pool_key user out w.pool
            owned v.vaults)
          (user_pays rt laws w.bank bank' from to authority n h w.pool_key user out
            w.pool.stake_vault owned v.vaults.stake_owner)
          v

    opened-WorldSound :
        (w : World rt) (clock : ℤ) (key mint owner : Pubkey) (bank' : rt.Bank)
        → rt.create w.bank key mint owner ≡ ok bank'
        → WorldSound rt w clock
        → WorldSound rt (record w { bank = bank' }) clock
    opened-WorldSound w clock key mint owner bank' h v =
        let kept = λ (old : Pubkey) (owned : owner_of rt w.bank old ≡ some w.pool_key).
          old_kept rt laws w.bank bank' key mint owner h w.pool_key old owned in
        let stays = kept w.pool.stake_vault v.vaults.stake_owner in
        outside-WorldSound w clock bank'
          (record {
            stake_owner = stays.1 ∙ v.vaults.stake_owner;
            owner = λ i slot at named.
                let owned = v.vaults.owner i slot at named in (kept slot.vault owned).1 ∙ owned;
            not_stake = v.vaults.not_stake;
            apart = v.vaults.apart;
          })
          (λ i slot at.
            rw (ap (funds_at rt w.bank) at, ap (funds_at rt bank') at)
              (elim (Bool-cases (slot.mint == default_key)) [
                | inl empty ↦ rw empty (omega arith)
                | inr named ↦
                    let real = ==-false→ne slot.mint default_key named in
                    rw named (omega (arith, (kept slot.vault (v.vaults.owner i slot at real)).0))
              ]))
          (omega (arith, stays.0)) v

    Step-WorldSound :
        (w : World rt) (clock : ℤ) (w' : World rt) (now : ℤ)
        → Step rt w clock w' now
        → WorldSound rt w clock
        → WorldSound rt w' now
    Step-WorldSound w clock w' now (called i le out h) v =
        process-WorldSound w clock now le v i w' out h
    Step-WorldSound w clock w' now (failed i fault le h) v = WorldSound-later w clock now le v
    Step-WorldSound w clock w' now (sent user from to authority n {bank'} out owned h) v =
        sent-WorldSound w clock user from to authority n bank' out owned h v
    Step-WorldSound w clock w' now (opened key mint owner {bank'} h) v =
        opened-WorldSound w clock key mint owner bank' h v

    -- Where the token program has the laws, every world that a pool can reach is sound: the pool's
    -- count is the sum of the stakes and is covered by the stake vault; for every slot, the rewards
    -- that stakers can claim and those that are still to stream are covered by the tokens of its
    -- vault (by none, for an empty slot); every slot was settled no later than the clock; and the
    -- pool owns its stake vault and the vaults of its registered slots, which all differ.
    pub Reachable-WorldSound :
        (w : World rt) (clock : ℤ) → Reachable rt w clock → WorldSound rt w clock
    Reachable-WorldSound w clock (initialized bank a default_duration keeper late h) =
        initialize_pool-WorldSound rt laws bank a default_duration clock keeper w late h
    Reachable-WorldSound w now (later {w = old} {clock = clock} before step) =
        Step-WorldSound old clock w now step (Reachable-WorldSound old clock before)
