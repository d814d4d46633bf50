-- ===== src/Lib.antt =====
-- The staking program (programs/mm-staking): users stake one token in a pool, a keeper deposits
-- rewards into up to eight slots, and each slot streams its rewards to the stakers in proportion to
-- their stakes.
--
-- Parts, with the source of each under programs/mm-staking/src:
--   Base, Int, Word: tests, arrays, account maps, signed and machine-width integers. A checked
--     operation of w bits gives nothing where its result does not fit.
--   Outcome: errors.rs, and how a call ends: a value, or a fault.
--   State: constants.rs and state.rs. Layout has the structs as bytes, with their sizes.
--   Math: math.rs. Exact states its results in unbounded arithmetic, Rates relates the two rates,
--     Shares is about parts of a stake.
--   Update: update.rs. `update_reward(pool, None, now)` is update_globals, and with a staker it is
--     update_reward; its two loops are settle_slots and accrue_entries.
--   Logic: logic.rs, each function under its name.
--   Runtime: what the instructions use of Anchor, Solana and the token program. Toy is one.
--   Instructions: instructions/*.rs, a module for each file: the account list is a record, and the
--     handler is a function of the world, the accounts, the arguments and the clock. Its account
--     constraints come first, then its calls in the order of the source.
--   Program: lib.rs. process is the dispatch; Step and Reachable are the histories of a pool, and
--     run in History runs a list of calls, of which one that fails leaves the world as it was.
--   Solvency: what a pool owes against the tokens that back it, operation by operation, without
--     accounts. Amounts are scaled by the precision, so that rounding is accounted for.
--   Custody: the same with the vaults that hold the tokens, handler by handler.
--   Tests: a run of the program and the theorems at it.
--   UnitTests: the repository's tests in math.rs, update.rs and logic.rs, run on the model.
--
-- A call: the handler's account checks, then the functions of Logic on the pool and the staker's
-- account, which settle through Update and Math, then the transfer. The first failure ends the call.
--
-- Choices:
--   A public key is a number, with 0 for the default key; keys are only compared. Numbers are
--   unbounded, and every operation that the source does in u8, u64, u128 or i64 has its bound
--   written out. The build has overflow checks on (Cargo.toml), so a plain subtraction that would
--   wrap panics, which is a fault of the model, like an index out of range. An i64 is an integer; its
--   cast to u128 is made after a test that it is not negative, or is written out.
--   The arrays of eight are lists; every reachable pool and account has lists of eight.
--   An error carries no state, since every caller returns it at once and the runtime then drops the
--   transaction. All loops are structural recursions on lists, so there is no fuel.
--   A world is one pool, its stakers' accounts and all token accounts. The clock of a call is an
--   argument, and does not go back along a history. No one can sign for the pool's address, which is
--   a program address. Between calls, users may send tokens and open accounts.
--   The alignment of a u128 in an account is 8 or 16 bytes, a parameter of Layout.
--   The parameter Runtime has the token accounts, transfers, creations and program addresses; its
--   laws (TokenLaws, TransferSucceeds, CreateSucceeds) are those of the token program, with no fees on transfers.
--   The order in which Anchor makes the checks on accounts is fixed here to the order written, so
--   theorems say that a call fails, and not which of several failing checks it reports.
--
-- Not modelled: rent, payers, the system and rent accounts, delegates and
-- frozen token accounts, the log, the program id, the security text, and the events of other pools.
pub mod Base
pub mod Int
pub mod Word
pub mod Outcome
pub mod State
pub mod Math
pub mod Update
pub mod Logic
pub mod Solvency
pub mod Runtime
pub mod Instructions
pub mod Custody
pub mod Program
pub mod Tests
pub mod UnitTests
