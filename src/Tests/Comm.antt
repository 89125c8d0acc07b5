-- ===== src/Tests/Comm.antt =====
-- The communication controller at concrete inputs.
use myblockchain.Prelude.{
  String, map, All, ℕ, ◌≡◌, ◌≢◌, refl, sym, ap, List, [], ◌∷◌, ◌++◌, Option, none, some, arith,
  length, ltb, if◌then◌else◌,
}
use myblockchain.Transaction.{mock_transaction_of, set_epoch}
use myblockchain.Transaction.Wrapper.{Heap, TransactionWrapper, push_transaction}
use myblockchain.Comm.{
  after_transfer, top_after, CommController, comm_controller, Run, done, Arrivals, get_transaction,
  clear_transaction_for_epoch, comes_after, other_epoch, ◌>>=◌, transfer_transaction, waits_in_vain,
  push_all, push, take_loop, refill,
}
use myblockchain.Comm.Supply.{Outcome, supply}
use myblockchain.Comm.Give.{Given}
use myblockchain.Comm.Null.{Later, get_transaction-null}
use myblockchain.Comm.Waiting.{get_transaction-returns}
use myblockchain.Comm.Clear.{of_epoch, clear_transaction_for_epoch_lem}
use myblockchain.Comm.Receive.{
  CommLibrary, ProxyBroadcast, Shared, empty_broadcast, receive_from_local_server,
  receive_from_other_server,
}
use myblockchain.Comm.Receive.Agreement.{
  named, before_batch, receive_from_other_server-receive_from_local_server,
}
use myblockchain.Comm.Collector.{
  Collected, run_round, before_round, receive_from_local_server-run_round,
}
use myblockchain.Epochs.{EpochResponse, serve, epoch_server}
use myblockchain.Epochs.Batches.{collected}
use myblockchain.Tests.Wire.{tokens, zeros, constant_hash}
use myblockchain.Tests.Epochs.{plain_helper, plain_sha, small-Fits}

-- Transactions of the epochs 4 and 5, with their addresses for ids.
abbrev comm_heap : Heap
comm_heap t = mock_transaction_of (if ltb t 10 then 4 else 5) t

abbrev small_controller : CommController
small_controller = record (comm_controller 3) {
  broadcast_transactions = 5 ∷ [];
  processed_transaction = 3 ∷ 11 ∷ [];
  callbacks = 0 ∷ 1 ∷ [];
  transaction_map = λ e. if ltb e 5 then 1 ∷ 12 ∷ 2 ∷ [] else [];
}

abbrev small_arrivals : Arrivals
small_arrivals = (2 ∷ 12 ∷ []) ∷ (8 ∷ []) ∷ (9 ∷ []) ∷ (13 ∷ []) ∷ []

-- All of the epoch 4 has been given out.
abbrev late_controller : CommController
late_controller = record small_controller { processed_transaction = 11 ∷ 12 ∷ [] }

abbrev next_controller : CommController
next_controller = record small_controller { epoch = 5 }

-- All of these are of the epochs 4 and 5.
get_transaction-null_example :
    Outcome
      (λ (r : Option TransactionWrapper × CommController × Arrivals).
        r.0 ≡ none
        → All (Later comm_heap 4) r.1.processed_transaction
          × ((t : ℕ) → supply t r.1 r.2 ≡ supply t late_controller small_arrivals))
      (get_transaction comm_heap 4 2 1 late_controller small_arrivals)
unfolding comes_after
get_transaction-null_example =
    get_transaction-null comm_heap 4 2 1 late_controller small_arrivals (omega arith)
      ((refl, tt), (tt, tt)) (omega arith) (omega arith, (omega arith, tt)) (omega arith, tt)
      (omega arith, (omega arith, (omega arith, (omega arith, (omega arith, tt)))))

get_transaction-returns_example :
    (r : Option TransactionWrapper × CommController × Arrivals) × (get_transaction comm_heap 4 2 1
        small_controller small_arrivals
      ≡ done r)
    × Given comm_heap 4 2 small_controller small_arrivals r
unfolding comes_after
get_transaction-returns_example =
    get_transaction-returns comm_heap 4 2 1 small_controller small_arrivals (omega arith)
      ((refl, tt), (tt, tt)) (omega arith) (omega arith) (omega arith)
      ((omega arith, omega arith), ((omega arith, omega arith), tt))
      ((omega arith, omega arith), tt)
      ((omega arith, omega arith), ((omega arith, omega arith), tt))
      (omega arith, ((2, 12 ∷ [], refl), ((8, [], refl), ((9, [], refl), ((13, [], refl), tt)))))

abbrev batch_of : Run (Option TransactionWrapper × CommController × Arrivals) → List ℕ
batch_of (done (some w, s, arrivals)) = w.transaction_list
batch_of _ = []

-- The batch has the two smallest ids of the epoch, though one of them came in during the call.
batch_test : batch_of (get_transaction comm_heap 4 2 1 small_controller small_arrivals) ≡ 2 ∷ 3 ∷ []
unfolding get_transaction after_transfer top_after other_epoch ◌>>=◌ transfer_transaction
    waits_in_vain push_all push comes_after take_loop push_transaction refill
batch_test = refl

clear_transaction_for_epoch_lem_example :
    (s1 : CommController) × (clear_transaction_for_epoch comm_heap 4 next_controller
      ≡ some (1 ∷ 2 ∷ [], s1))
    × (s1.transaction_map 4 ≡ [])
    × ((k : ℕ)
        → k ≢ 4
        → s1.transaction_map k
          ≡ next_controller.transaction_map k ++ of_epoch comm_heap k (1 ∷ 12 ∷ 2 ∷ []))
clear_transaction_for_epoch_lem_example =
    clear_transaction_for_epoch_lem comm_heap 4 next_controller (omega arith)

abbrev small_library : CommLibrary
small_library = record {
  ResponseRaw = String;
  parse_response = λ text. record {
    request = record { batch_hash = "hash"; request_batch_size = 2 };
    epoch = 4;
    nonce = 2;
    signature = "signature";
  };
  first_word = λ text. 7;
}

abbrev other_server : Shared plain_helper plain_sha tokens constant_hash small_library
other_server = record {
  epoch = 4;
  pending_transactions = [];
  pending_transactions_proof = [];
  broadcast_transactions = [];
  context = "rest" ∷ [];
}

receive_from_other_server-receive_from_local_server_example :
    (message : ProxyBroadcast plain_helper plain_sha tokens constant_hash small_library) × (a1
      b1 : Shared plain_helper plain_sha tokens constant_hash small_library)
    × (receive_from_local_server plain_helper plain_sha tokens constant_hash small_library
          (empty_broadcast plain_helper plain_sha tokens constant_hash small_library)
          (before_batch plain_helper plain_sha tokens constant_hash small_library 4 "proof"
            (mock_transaction_of 4 0 ∷ mock_transaction_of 4 1 ∷ [])
            []
            []
            []
            [])
        ≡ done ([], message, a1))
    × (receive_from_other_server plain_helper plain_sha tokens constant_hash small_library
          (record message { epoch = 4 })
          other_server
        ≡ done b1)
    × (a1.broadcast_transactions ≡ mock_transaction_of 4 7 ∷ mock_transaction_of 4 7 ∷ [])
    × (b1.broadcast_transactions ≡ mock_transaction_of 4 7 ∷ mock_transaction_of 4 7 ∷ [])
    × (b1.epoch ≡ 5)
receive_from_other_server-receive_from_local_server_example =
    receive_from_other_server-receive_from_local_server plain_helper plain_sha tokens constant_hash
      small_library 4 "proof" (mock_transaction_of 4 0 ∷ mock_transaction_of 4 1 ∷ []) [] [] [] []
      other_server refl refl refl (λ raw. (zeros 32, refl))
      (λ raw h e. ap (λ o. elim o [ none ↦ 32 | some x ↦ length x ]) (sym e))
      (
        record { of_epoch = refl; fits = small-Fits _ (omega arith) (omega arith); new = refl },
        (
          record { of_epoch = refl; fits = small-Fits _ (omega arith) (omega arith); new = refl },
          tt,
        ),
      )

-- The responses as they are.
abbrev plain_library : CommLibrary
plain_library = record {
  ResponseRaw = EpochResponse;
  parse_response = λ response. response;
  first_word = λ text. 7;
}

abbrev plain_server : Shared plain_helper plain_sha tokens constant_hash plain_library
plain_server = record {
  epoch = 1;
  pending_transactions = [];
  pending_transactions_proof = [];
  broadcast_transactions = [];
  context = [];
}

receive_from_local_server-run_round_example :
    let ts =
      map
        (named plain_helper plain_sha tokens constant_hash plain_library)
        (map (set_epoch 1) (collected plain_helper ("one" ∷ "three" ∷ []))) in
    (r : Collected plain_helper plain_sha tokens constant_hash plain_library)
    × (message : ProxyBroadcast plain_helper plain_sha tokens constant_hash plain_library) × (a1
        b1 : Shared plain_helper plain_sha tokens constant_hash plain_library)
    × (run_round plain_helper plain_sha tokens constant_hash plain_library
          (λ q. (serve plain_helper 5 7 q (epoch_server 5)).0)
          (before_round plain_helper plain_sha tokens constant_hash plain_library
            ("one" ∷ "three" ∷ [])
            []
            1
            []
            []
            (λ e. 9))
        ≡ done r)
    × (receive_from_local_server plain_helper plain_sha tokens constant_hash plain_library
          (empty_broadcast plain_helper plain_sha tokens constant_hash plain_library)
          r.shared
        ≡ done ([], message, a1))
    × (receive_from_other_server plain_helper plain_sha tokens constant_hash plain_library
          (record message { epoch = 1 })
          plain_server
        ≡ done b1)
    × (a1.broadcast_transactions ≡ ts)
    × (b1.broadcast_transactions ≡ ts)
receive_from_local_server-run_round_example =
    receive_from_local_server-run_round plain_helper plain_sha tokens constant_hash plain_library
      "one" ("three" ∷ []) [] [] [] (λ e. 9) 5 7 (epoch_server 5) (λ response. response)
      plain_server (λ response. refl) (omega arith) (refl, (refl, tt))
      (small-Fits _ (omega arith) (omega arith), (small-Fits _ (omega arith) (omega arith), tt))
      refl (λ raw. (zeros 32, refl))
      (λ raw h e. ap (λ o. elim o [ none ↦ 32 | some x ↦ length x ]) (sym e))
