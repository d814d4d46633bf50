-- ===== src/Instructions/Claim.antt =====
-- instructions/claim.rs.
use mm_staking.Base.{ℕ, ◌%◌, ◌==◌, List, [], ◌∷◌, length, insert, get_elem?, if◌then◌else◌}
use mm_staking.Int.{ℤ}
use mm_staking.Outcome.{
  StakingError, Result, ok, err, panicked, staking, ◌>>=◌, ◌>>◌, require, or_panic,
}
use mm_staking.State.{Pubkey, Pool, StakerAccount}
use mm_staking.Logic
use mm_staking.Instructions.Staking.{staker_account}
use mm_staking.Runtime.{Runtime, World, check, loaded, pool_account}

pub record Claim : Type 0 where
  pub owner : Pubkey
  pub pool : Pubkey
  pub staker : Pubkey

module _ (rt : Runtime) where
  -- The end of a round: the two token accounts are loaded and tested, and the amount is paid.
  unfoldable pub pay_reward : rt.Bank → Claim → Pubkey → Pubkey → Pubkey → ℕ → Result rt.Bank
  pay_reward bank accounts vault_ai user_ai vault_key amount = do
    check (vault_ai == vault_key) (staking StakingError.vault_mismatch)
    vault_acc ← loaded (rt.account bank vault_ai)
    user_acc ← loaded (rt.account bank user_ai)
    check (user_acc.owner == accounts.owner) (staking StakingError.unauthorized)
    check (user_acc.mint == vault_acc.mint) (staking StakingError.mint_mismatch)
    rt.transfer bank vault_ai user_ai accounts.pool amount

  -- One round of the loop over the pairs of a vault and a user's token account.
  unfoldable pub claim_round :
      Pool → Claim → Pubkey → Pubkey → StakerAccount × rt.Bank → Result (StakerAccount × rt.Bank)
  claim_round pool accounts vault_ai user_ai (staker, bank) = do
    (idx, amount, staker') ← Logic.claim_take_slot pool staker vault_ai
    slot ← or_panic (get_elem? pool.rewards idx)
    bank' ←
        if amount == 0 then ok bank else pay_reward bank accounts vault_ai user_ai slot.vault amount
    ok (staker', bank')

  unfoldable pub claim_loop :
      Pool → Claim → List Pubkey → StakerAccount × rt.Bank → Result (StakerAccount × rt.Bank)
  claim_loop pool accounts [] state = ok state
  claim_loop pool accounts (vault_ai ∷ []) state = err panicked
  claim_loop pool accounts (vault_ai ∷ user_ai ∷ rest) state =
      claim_round pool accounts vault_ai user_ai state >>= claim_loop pool accounts rest

  unfoldable pub claim : World rt → Claim → List Pubkey → ℤ → Result (World rt)
  claim w accounts remaining now = do
    pool_account rt w accounts.pool w.pool.stake_mint
    staker ← staker_account rt w accounts.owner accounts.pool accounts.staker
    (pool', staker') ← Logic.claim_settle_all w.pool staker now
    require (length remaining % 2 == 0) StakingError.vault_mismatch
    (staker'', bank') ← claim_loop pool' accounts remaining (staker', w.bank)
    ok (record w {
      pool = pool';
      stakers = insert accounts.staker staker'' w.stakers;
      bank = bank';
    })
