-- ===== src/Tests/Mock.antt =====
-- Three rounds of the manager that makes its own transactions, and what they keep.
use myblockchain.MockManager.First.{born}
use myblockchain.Prelude.{
  ◌<◌, range, ℕ, ◌≡◌, refl, [], ◌∷◌, true, some, ltb, if◌then◌else◌, All, keep, String,
}
use myblockchain.Transaction.{TransactionResult, empty_rwset}
use myblockchain.MockManager.{MockManager, mock_transaction_manager, Outcome, run}
use myblockchain.MockManager.Ending.{was_sent}
use myblockchain.MockManager.Rounds.{IsCurrent}
use myblockchain.MockManager.Runs.{in_step, always_aborted, run-in_step}

abbrev payload : String → ℕ → String
payload key value = key

-- Of the transactions at an address of 3 or more all are committed.
abbrev from_three : Outcome
from_three t = (if ltb t 3 then TransactionResult.abort else TransactionResult.commit, empty_rwset)

-- Every transaction is aborted.
abbrev all_abort : Outcome
all_abort t = (TransactionResult.abort, empty_rwset)

run-in_step_example :
    (s : MockManager) × (run payload
        (in_step 0 (from_three ∷ all_abort ∷ all_abort ∷ []))
        mock_transaction_manager
      ≡ some s)
    × (s.epoch ≡ 3)
    × (s.transaction_list
        ≡ keep (always_aborted from_three (all_abort ∷ all_abort ∷ [])) (range 0 21))
    × All (IsCurrent s) s.transaction_list
    × ((t : ℕ) → t < 22 → was_sent s.sent (born t) t ≡ true)
run-in_step_example = run-in_step payload from_three all_abort (all_abort ∷ [])

-- Those that are left are the first three and the eleven of epoch 1.
kept :
    keep (always_aborted from_three (all_abort ∷ all_abort ∷ [])) (range 0 21)
    ≡ 0 ∷ 1 ∷ 2 ∷ 10 ∷ 11 ∷ 12 ∷ 13 ∷ 14 ∷ 15 ∷ 16 ∷ 17 ∷ 18 ∷ 19 ∷ 20 ∷ []
unfolding range
kept = refl
