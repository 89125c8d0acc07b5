-- ===== src/MockManager.antt =====
-- The transaction manager that makes its own transactions:
-- src/block_server/transaction/mock/mock_transaction_manager.cpp. What the executor leaves in the
-- transactions of an epoch is an argument; the wrappers that are sent are in the state.
pub mod Making
pub mod Ending
pub mod Rounds
pub mod First
pub mod Runs
use myblockchain.Prelude.{
  ℕ, zero, suc, ◌+◌, List, [], ◌∷◌, ◌++◌, Bool, true, false, Option, none, some, String, ltb, leb,
  ◌==◌, if◌then◌else◌,
}
use myblockchain.HashMap.{update}
use myblockchain.Transaction.{
  MockTransaction, KvRwSet, TransactionResult, mock_transaction, mock_transaction_of, empty_payload,
  reset_transaction, set_epoch,
}
use myblockchain.Transaction.Wire.{to_uint32}
use myblockchain.Transaction.Wrapper.{
  Heap, TransactionWrapper, transaction_wrapper, push_transaction,
}

-- The locals of `run`, with the wrappers that are sent, the heap and its first free address.
pub record MockManager : Type 0 where
  pub epoch : ℕ
  pub tid : ℕ
  pub transaction_list : List ℕ
  pub sent : List TransactionWrapper
  pub heap : Heap
  pub next_address : ℕ

abbrev pub mock_transaction_manager : MockManager
mock_transaction_manager = record {
  epoch = 0;
  tid = 1;
  transaction_list = [];
  sent = [];
  heap = λ t. mock_transaction;
  next_address = 0;
}

abbrev pub send : TransactionWrapper → MockManager → MockManager
send w s = record s { sent = s.sent ++ (w ∷ []) }

-- `payload_of` is the serialized payload that adds a number to a key.
module _ (payload_of : String → ℕ → String) where
  -- `mock::generatePaload` on a new transaction.
  abbrev pub generate_payload : ℕ → ℕ → String → MockTransaction
  generate_payload epoch tid key = record (mock_transaction_of epoch tid) {
    payload = record empty_payload { header = "crdt_gcounter"; payload = payload_of key 1 };
  }

  -- A new transaction, pushed into a wrapper and, if it is listed, put into the list.
  abbrev pub make_one :
      Bool → ℕ → String → TransactionWrapper × MockManager → TransactionWrapper × MockManager
  make_one listed epoch key (w, s) =
      let heap = update s.heap s.next_address (generate_payload epoch s.tid key) in
      (
        (push_transaction heap (some s.next_address) w).1,
        record s {
          tid = to_uint32 (s.tid + 1);
          transaction_list =
              if listed then s.transaction_list ++ (s.next_address ∷ []) else s.transaction_list;
          heap = heap;
          next_address = s.next_address + 1;
        },
      )

  -- The loop that sends pairs of transactions of the epoch.
  unfoldable pub send_pairs : ℕ → String → MockManager → MockManager
  send_pairs zero key s = s
  send_pairs (suc n) key s =
      let first = make_one true s.epoch key (transaction_wrapper s.epoch, s) in
      let second = make_one true s.epoch key first in send_pairs n key (send second.0 second.1)

  -- The single transaction of the next epoch.
  abbrev pub send_early : Bool → MockManager → MockManager
  send_early listed s =
      let made = make_one listed (s.epoch + 1) "chw" (transaction_wrapper (s.epoch + 1), s) in
      send made.0 made.1

  unfoldable pub generate : MockManager → MockManager
  generate s =
      if s.epoch == 0
      then send_early true (send_pairs 5 "lhx" s)
      else if s.epoch == 1
      then send_early false (send_pairs 5 "chw" s)
      else s

-- The result and the read-write set with which each transaction of an epoch is left.
abbrev pub Outcome : Type 0
Outcome = ℕ → TransactionResult × KvRwSet

abbrev pub execute : ℕ → Outcome → Heap → Heap
execute epoch outcome heap t =
    if (heap t).epoch == epoch
    then record (heap t) { result = (outcome t).0; rwset = (outcome t).1 }
    else heap t

-- The loop over the list: with the transactions that stay in it and the two counters.
pub record Ended : Type 0 where
  pub heap : Heap
  pub aborted_list : List ℕ
  pub sent : List TransactionWrapper
  pub commit : ℕ
  pub abort : ℕ

abbrev pub send_again : ℕ → ℕ → Ended → Ended
send_again epoch t s =
    let heap = update s.heap t (set_epoch (epoch + 1) (reset_transaction (s.heap t))) in
    record s {
      heap = heap;
      aborted_list = s.aborted_list ++ (t ∷ []);
      sent = s.sent ++ ((push_transaction heap (some t) (transaction_wrapper (epoch + 1))).1 ∷ []);
      abort = s.abort + 1;
    }

unfoldable pub end_as : ℕ → ℕ → Ended → TransactionResult → Ended
end_as epoch t s TransactionResult.abort = send_again epoch t s
end_as epoch t s TransactionResult.commit = record s { commit = s.commit + 1 }
end_as epoch t s TransactionResult.abort_no_retry = record s { commit = s.commit + 1 }
end_as epoch t s TransactionResult.pending = s

-- `none` is a DCHECK that fails.
unfoldable pub end_list : ℕ → ℕ → List ℕ → Ended → Option Ended
end_list signal epoch [] s = some s
end_list signal epoch (t ∷ ts) s =
    let later = end_list signal epoch ts (record s { aborted_list = s.aborted_list ++ (t ∷ []) }) in
    let ended = end_list signal epoch ts (end_as epoch t s (s.heap t).result) in
    if ltb signal (s.heap t).epoch
    then later
    else if signal == (s.heap t).epoch
    then ended
    else none

-- The rest of a round after the new transactions are made, in which `signal` is what the wait for the
-- end of the epoch reads last.
unfoldable pub end_round : ℕ → Outcome → MockManager → Option MockManager
end_round signal outcome s =
    let ran = execute s.epoch outcome s.heap in
    let ended =
      end_list signal s.epoch s.transaction_list
        (record { heap = ran; aborted_list = []; sent = s.sent; commit = 0; abort = 0 }) in
    if leb signal s.epoch
    then (if signal == s.epoch
        then (elim ended [
          | none ↦ none
          | some e ↦ some (record s {
            epoch = s.epoch + 1;
            transaction_list = e.aborted_list;
            sent = e.sent;
            heap = e.heap;
          })
        ])
        else none)
    else some (record s { heap = ran })

-- The rounds, each with its signal and outcome.
unfoldable pub run : (String → ℕ → String) → List (ℕ × Outcome) → MockManager → Option MockManager
run payload_of [] s = some s
run payload_of ((signal, outcome) ∷ rounds) s =
    elim (end_round signal outcome (generate payload_of s)) [
      | none ↦ none
      | some s1 ↦ run payload_of rounds s1
    ]
