-- ===== src/Tests/Server.antt =====
-- The coordinator and the transaction manager at concrete inputs.
use mathlib.Core.List.{reverse}
use myblockchain.Prelude.{
  true, ℕ, ◌+◌, ◌≤◌, ◌≡◌, refl, List, [], ◌∷◌, ◌++◌, some, arith, length, All, if◌then◌else◌,
}
use myblockchain.Transaction.Wrapper.{TransactionWrapper}
use myblockchain.Coordinator.{Input, Workload, add_transaction, take_workloads}
use myblockchain.Coordinator.Buffer.{add_transaction_lem}
use myblockchain.Coordinator.Drain.{transactions, IsFair, take_workloads_lem}
use myblockchain.Manager.{TransactionManager, Finish, finish_epoch}
use myblockchain.Manager.Retry.{all_transactions, aborted, final, is_in, retried}
use myblockchain.Manager.EpochEnd.{IsNext, finish_epoch_lem}
use myblockchain.Tests.Data.{small_heap, small_manager}

abbrev small_input : Input
small_input = record { epoch_chan = 4; transaction_buffer = 1 ∷ [] }

abbrev small_wrapper : TransactionWrapper
small_wrapper = record { epoch = 4; transaction_list = 2 ∷ 3 ∷ [] }

add_transaction_lem_example :
    (c : Input) × (add_transaction small_wrapper small_input ≡ some c)
    × (c.epoch_chan ≡ 4)
    × (c.transaction_buffer ≡ (1 ∷ []) ++ reverse (2 ∷ 3 ∷ []))
    × (length c.transaction_buffer ≤ 5000)
add_transaction_lem_example = add_transaction_lem small_wrapper small_input (omega arith)

take_workloads_lem_example :
    (ws : List Workload) × (take_workloads 3 small_heap
        (record { epoch_chan = 4; transaction_buffer = 1 ∷ 2 ∷ 9 ∷ [] })
      ≡ some (ws, record { epoch_chan = 4; transaction_buffer = 9 ∷ [] }))
    × (transactions ws ≡ 1 ∷ 2 ∷ [])
    × All (IsFair small_heap 4) ws
take_workloads_lem_example =
    take_workloads_lem small_heap 4 3 (1 ∷ 2 ∷ []) 9 [] (omega arith) (refl, (refl, tt))
      (omega arith, tt)

finish_epoch_lem_example :
    (s : Finish) × (m : TransactionManager) × (finish_epoch true small_heap small_manager
      ≡ some (s, m))
    × All (IsNext 4) s.sent
    × (all_transactions s.sent ≡ aborted small_heap (1 ∷ 2 ∷ []))
    × (m.current_epoch_tr_wrapper.transaction_list ≡ (9 ∷ []) ++ aborted small_heap (1 ∷ 2 ∷ []))
    × ((a : ℕ)
        → s.heap a ≡ (
            if is_in a (aborted small_heap (1 ∷ 2 ∷ []))
            then retried 4 (small_heap a)
            else small_heap a))
    × (s.given_to_block ≡ final small_heap (1 ∷ 2 ∷ []))
    × (m.epoch ≡ 5)
    × (m.current_epoch_tr_wrapper.epoch ≡ m.epoch)
    × (m.next_epoch_tr_wrapper.epoch ≡ m.epoch + 1)
finish_epoch_lem_example =
    finish_epoch_lem small_heap small_manager ((omega arith, tt), (tt, tt)) (refl, (refl, tt)) refl
