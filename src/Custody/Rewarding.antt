-- ===== src/Custody/Rewarding.antt =====
-- `deposit_rewards` and the vaults, on instructions/deposit_rewards.rs.
use mm_staking.Base.{
  ℕ, ◌+◌, ◌-◌, ◌≤◌, ◌≡◌, ◌≢◌, sym, ap, ◌∙◌, subst, arith, some, inl, inr, ◌==◌, Bool-cases,
  get_elem?, ==→eq, some-injective, ne→==-false, if◌then◌else◌,
}
use mm_staking.Int.{ℤ, ◌≤ℤ◌}
use mm_staking.Outcome.{ok}
use mm_staking.State.{Pubkey, default_key, RewardInfo}
use mm_staking.Solvency.Slots.{PoolSound-mono}
use mm_staking.Solvency.Rewards.{deposit_rewards-PoolSound}
use mm_staking.Runtime.{Runtime, World, TokenLaws, balance, owner_of}
use mm_staking.Instructions.DepositRewards.{DepositRewards, deposit_rewards}
use mm_staking.Custody.{funds, WorldSound}
use mm_staking.Custody.Labels.{funds-labels, Vaults-labels}
use mm_staking.Custody.Moves.{user_pays, Vaults-transfer, funds-user_pays}
use mm_staking.Custody.DepositParts.{
  find_reward_vault-parts, deposit_rewards-labels, no_mint_key, named_funds, deposit_rewards-calls,
}

module _ (rt : Runtime) where
  module _ (laws : TokenLaws rt) (w : World rt) (clock now : ℤ) (later : clock ≤ℤ now)
      (v : WorldSound rt w clock) where
    -- The tokens behind each slot, with what came for slot `i`.
    abbrev raised : ℕ → ℕ → ℕ → ℕ
    raised i received j =
        if j == i then funds rt w.bank w.pool j + received else funds rt w.bank w.pool j

    raised-le_funds :
        (bank' : rt.Bank) (keeper from vault : Pubkey) (amount received i : ℕ) (slot : RewardInfo)
        → keeper ≢ w.pool_key
        → owner_of rt w.bank from ≡ some keeper
        → get_elem? w.pool.rewards i ≡ some slot
        → slot.mint ≢ default_key
        → slot.vault ≡ vault
        → rt.transfer w.bank from vault keeper amount ≡ ok bank'
        → received ≡ balance rt bank' vault - balance rt w.bank vault
        → (j : ℕ) (old : RewardInfo) → get_elem? w.pool.rewards j ≡ some old
        → raised i received j ≤ funds rt bank' w.pool j
    raised-le_funds bank' keeper from vault amount received i slot outside owned at named is_vault
          paid measured j old was =
        elim (Bool-cases (j == i)) [
          | inl here ↦
              let same : j ≡ i = ==→eq j i here in
              let grows =
                user_pays rt laws w.bank bank' from vault keeper amount paid w.pool_key keeper
                  outside vault owned
                  (ap (owner_of rt w.bank) (sym is_vault) ∙ v.vaults.owner i slot at named) in
              rw here (
                omega (
                  arith,
                  grows,
                  measured,
                  ap (funds rt w.bank w.pool) same,
                  ap (funds rt bank' w.pool) same,
                  named_funds rt w.bank w.pool i slot at named,
                  named_funds rt bank' w.pool i slot at named,
                  ap (balance rt w.bank) is_vault,
                  ap (balance rt bank') is_vault,
                ))
          | inr there ↦ rw there (
              funds-user_pays rt laws w.bank bank' from vault keeper amount paid w.pool_key keeper
                outside w.pool owned v.vaults j old was)
        ]

    -- A deposit is streamed from what the vault received.
    pub deposit_rewards-WorldSound :
        (a : DepositRewards) (amount : ℕ) (w' : World rt)
        → a.keeper ≢ w.pool_key
        → deposit_rewards rt w a amount now ≡ ok w'
        → WorldSound rt w' now
    deposit_rewards-WorldSound a amount w' outside h =
        let (bank', received, pool', keeper, vault, is_mint, paid, measured, go, e) =
          deposit_rewards-calls rt w a amount now w' h in
        let (i, slot, found, at, is_vault, is_named) =
          find_reward_vault-parts w.pool a.reward_mint a.reward_vault vault in
        let (l, total) = deposit_rewards-labels w.pool a.reward_mint received now pool' go in
        let covers = raised i received in
        let pool_sound =
          deposit_rewards-PoolSound w.pool w.stakers clock now (funds rt w.bank w.pool) covers
            a.reward_mint received pool' go later
            (λ j f. ground (arith, some-injective (sym f ∙ found)))
            (λ j f. rw (ne→==-false j i (λ q. f (found ∙ ap some (sym q))))) v.pooled in
        let from = a.keeper_token_account in
        let named : slot.mint ≢ default_key =
          λ q. no_mint_key rt laws w.bank a.reward_mint is_mint (sym is_named ∙ q) in
        let enough =
          raised-le_funds bank' a.keeper from a.reward_vault amount received i slot outside keeper
            at named is_vault paid measured in
        let stake_grows =
          user_pays rt laws w.bank bank' from a.reward_vault a.keeper amount paid w.pool_key
            a.keeper outside w.pool.stake_vault keeper v.vaults.stake_owner in
        subst (λ x. WorldSound rt x now) (sym e)
          (record {
            pooled =
                PoolSound-mono pool' w.stakers now now covers (funds rt bank' pool') (omega arith)
                  (λ j new now_at.
                    let (old, was, m, u) = l.slots j new now_at in
                    omega
                      (arith, enough j old was, funds-labels rt bank' w.pool pool' l j new now_at))
                  pool_sound;
            principal =
                omega (arith, v.principal, stake_grows, total, ap (balance rt bank') l.stake);
            vaults = Vaults-labels rt bank' w.pool pool' l w.pool_key (
                Vaults-transfer rt laws w.bank bank' from a.reward_vault a.keeper amount paid
                  w.pool_key a.keeper outside w.pool v.vaults);
          })
