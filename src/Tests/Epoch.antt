-- ===== src/Tests/Epoch.antt =====
-- A whole epoch of the executor at concrete inputs.
use mathlib.Core.List.{Perm}
use mathlib.Core.List.Perm
use myblockchain.Prelude.{◌≡◌, refl, ℕ, List, [], ◌∷◌, map, Bool, none, some, arith, ◌==◌}
use myblockchain.Transaction.{MockTransaction, mock_transaction_of}
use myblockchain.Reserve.{get_reserve_table}
use myblockchain.Reserve.Batch.{Batch}
use myblockchain.Executor.{World, execute_list, commit_list}
use myblockchain.Executor.Decision.{executed, batch_of, settled}
use myblockchain.Executor.Agreement.{ComeOut, epoch_agreement}
use myblockchain.Executor.Phases.{IsNewEpoch, epoch_settled}
use myblockchain.Aria.{State, IsSerial}
use myblockchain.Aria.Serial.{with_commit, epoch_serializable}
use myblockchain.Tests.Data.{
  function_db, text_hash, never_weak, swap_contract, no_data, new_world, two_transactions,
  new_database,
}

new_world-IsNewEpoch : IsNewEpoch function_db text_hash never_weak swap_contract 4 new_world
unfolding get_reserve_table
new_world-IsNewEpoch = refl

abbrev executed_two : List MockTransaction
executed_two = map (executed swap_contract no_data) two_transactions

epoch_settled_example :
    (u w : World function_db text_hash never_weak swap_contract) × (execute_list function_db
        text_hash never_weak swap_contract two_transactions new_world
      ≡ some (executed_two, u))
    × (commit_list function_db text_hash never_weak swap_contract executed_two u
        ≡ some (map (settled (batch_of executed_two)) executed_two, w))
epoch_settled_example =
    epoch_settled function_db text_hash never_weak swap_contract 4 two_transactions new_world
      new_world-IsNewEpoch ((omega arith, refl, refl), ((omega arith, refl, refl), tt))

epoch_serializable_example :
    (xs : List MockTransaction) × (u : World function_db text_hash never_weak swap_contract)
    × (execute_list function_db text_hash never_weak swap_contract two_transactions new_world
        ≡ some (xs, u))
    × (ys : List MockTransaction) × (w : World function_db text_hash never_weak swap_contract)
    × (commit_list function_db text_hash never_weak swap_contract xs u ≡ some (ys, w))
    × (order : Batch) × Perm order (with_commit ys)
    × ((snapshot : State) → IsSerial snapshot snapshot order)
epoch_serializable_example =
    epoch_serializable function_db text_hash never_weak swap_contract 4 two_transactions new_world
      new_world-IsNewEpoch ((omega arith, refl, refl), ((omega arith, refl, refl), tt))
      ((omega arith, tt), (tt, tt))

abbrev other_weak : ℕ → Bool
other_weak n = n == 1

abbrev other_world : World function_db text_hash other_weak swap_contract
other_world = record { database = new_database; provided = none; kept = none }

other_world-IsNewEpoch : IsNewEpoch function_db text_hash other_weak swap_contract 4 other_world
unfolding get_reserve_table
other_world-IsNewEpoch = refl

abbrev swapped_two : List MockTransaction
swapped_two = mock_transaction_of 4 2 ∷ mock_transaction_of 4 1 ∷ []

epoch_agreement_example :
    (outcome : MockTransaction → MockTransaction) × ComeOut function_db text_hash swap_contract
      never_weak two_transactions new_world
      (map outcome two_transactions)
    × ComeOut function_db text_hash swap_contract other_weak swapped_two other_world
        (map outcome swapped_two)
epoch_agreement_example =
    epoch_agreement function_db text_hash swap_contract never_weak other_weak 4 two_transactions
      swapped_two new_world other_world refl new_world-IsNewEpoch other_world-IsNewEpoch
      ((omega arith, refl, refl), ((omega arith, refl, refl), tt)) (Perm.swap _ _ _)
