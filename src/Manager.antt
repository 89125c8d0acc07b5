-- ===== src/Manager.antt =====
-- The transaction manager of a server:
-- src/block_server/transaction/impl/transaction_manager_impl.cpp. What the communication module gives
-- is an argument; what goes to the coordinator and to the block generator is a result. A transaction
-- is an address into a heap.
pub mod Retry
pub mod EpochEnd
use myblockchain.Prelude.{
  ℕ, ◌+◌, List, [], ◌∷◌, ◌++◌, Bool, Option, none, some, ◌==◌, if◌then◌else◌,
}
use myblockchain.HashMap.{update}
use myblockchain.Transaction.{TransactionResult, reset_transaction, set_epoch}
use myblockchain.Transaction.Wrapper.{
  Heap, TransactionWrapper, transaction_wrapper, size, push_transaction, push_wrapper_uncheck,
  set_epoch as set_wrapper_epoch,
}

abbrev pub get_batch_max_size : ℕ
get_batch_max_size = 500

pub record TransactionManager : Type 0 where
  pub epoch : ℕ
  pub current_epoch_tr_wrapper : TransactionWrapper
  pub next_epoch_tr_wrapper : TransactionWrapper

-- `latest` is the block generator's latest saved epoch.
abbrev pub transaction_manager : ℕ → TransactionManager
transaction_manager latest = record {
  epoch = latest + 1;
  current_epoch_tr_wrapper = transaction_wrapper (latest + 1);
  next_epoch_tr_wrapper = transaction_wrapper (latest + 1 + 1);
}

-- A batch of this epoch, and one of the next: the manager, and the wrapper that is sent.
unfoldable pub receive_current :
    TransactionWrapper → TransactionManager → TransactionManager × TransactionWrapper
receive_current w m =
    let w' = set_wrapper_epoch m.epoch w in
    (record m { current_epoch_tr_wrapper = push_wrapper_uncheck w' m.current_epoch_tr_wrapper }, w')

unfoldable pub receive_next :
    TransactionWrapper → TransactionManager → TransactionManager × TransactionWrapper
receive_next w m =
    let w' = set_wrapper_epoch m.epoch w in
    (record m { next_epoch_tr_wrapper = push_wrapper_uncheck w' m.next_epoch_tr_wrapper }, w')

-- The state of the loop over the transactions of an epoch that is finished: with the wrapper that is
-- filled, the wrappers sent, the transactions given to the block generator and the two counters.
pub record Finish : Type 0 where
  pub heap : Heap
  pub tr_wrapper : TransactionWrapper
  pub next : TransactionWrapper
  pub sent : List TransactionWrapper
  pub given_to_block : List ℕ
  pub commit : ℕ
  pub abort : ℕ

-- An aborted transaction: reset, and put into the wrapper for the next epoch, which is sent when full.
unfoldable pub retry_one : ℕ → ℕ → Finish → Finish
retry_one epoch t s =
    let heap = update s.heap t (set_epoch (epoch + 1) (reset_transaction (s.heap t))) in
    let w = (push_transaction heap (some t) s.tr_wrapper).1 in
    let is_full = size w == get_batch_max_size in
    record s {
      heap = heap;
      tr_wrapper = if is_full then transaction_wrapper (epoch + 1) else w;
      sent = if is_full then s.sent ++ (w ∷ []) else s.sent;
      next = (push_transaction heap (some t) s.next).1;
      abort = s.abort + 1;
    }

unfoldable pub finish_as : ℕ → ℕ → Finish → TransactionResult → Finish
finish_as epoch t s TransactionResult.abort = retry_one epoch t s
finish_as epoch t s TransactionResult.commit = record s {
  given_to_block = s.given_to_block ++ (t ∷ []);
  commit = s.commit + 1;
}
finish_as epoch t s TransactionResult.abort_no_retry = record s {
  given_to_block = s.given_to_block ++ (t ∷ []);
  abort = s.abort + 1;
}
finish_as epoch t s TransactionResult.pending = s

unfoldable pub finish_one : ℕ → ℕ → Finish → Finish
finish_one epoch t s = finish_as epoch t s (s.heap t).result

-- `none` is a failed DCHECK.
unfoldable pub finish_list : ℕ → List ℕ → Finish → Option Finish
finish_list epoch [] s = some s
finish_list epoch (t ∷ ts) s =
    let rest = finish_list epoch ts (finish_one epoch t s) in
    if epoch == (s.heap t).epoch then rest else none

-- The state in which the loop begins.
abbrev pub begin_finish : Heap → TransactionManager → Finish
begin_finish heap m = record {
  heap = heap;
  tr_wrapper = transaction_wrapper (m.epoch + 1);
  next = m.next_epoch_tr_wrapper;
  sent = [];
  given_to_block = [];
  commit = 0;
  abort = 0;
}

-- The whole branch: the rest is sent, `generateBlock` is called, and the wrappers are switched.
-- `generated` is its answer; `none` is a failed check. The call of clearTransactionForEpoch changes the
-- communication module only, and is in Comm.
unfoldable pub finish_epoch :
    Bool → Heap → TransactionManager → Option (Finish × TransactionManager)
finish_epoch generated heap m =
    elim (finish_list m.epoch m.current_epoch_tr_wrapper.transaction_list (begin_finish heap m)) [
      | none ↦ none
      | some s ↦
          if generated
          then some (
            record s { sent = s.sent ++ (s.tr_wrapper ∷ []) },
            record {
              epoch = m.epoch + 1;
              current_epoch_tr_wrapper = s.next;
              next_epoch_tr_wrapper = transaction_wrapper (m.epoch + 1 + 1);
            },
          )
          else none
    ]
