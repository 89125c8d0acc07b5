-- ===== src/Comm.antt =====
-- The communication module of a server, src/block_server/comm/client_proxy/comm_controller.cpp: the
-- side that gives batches to the transaction manager (getTransaction, clearTransactionForEpoch).
-- Receive has the side that takes transactions in.
pub mod Queue
pub mod Supply
pub mod Take
pub mod Give
pub mod Waiting
pub mod Null
pub mod Clear
pub mod Stub
pub mod Collector
pub mod Receive
use myblockchain.Prelude.{
  ◌||◌, ℕ, zero, suc, ◌+◌, ◌%◌, List, [], ◌∷◌, ◌++◌, Bool, true, false, Option, none, some, ltb,
  leb, ◌==◌, not, if◌then◌else◌,
}
use myblockchain.HashMap.{update}
use myblockchain.Transaction.Wire.{to_uint32}
use myblockchain.Transaction.Wrapper.{
  Heap, TransactionWrapper, transaction_wrapper, size, push_transaction,
}

-- The fields that change after the constructor, with the static `currentEpoch`. A missing key of
-- `transactionMap` is an empty list; the queue of processed transactions is kept in its order. `callbacks`
-- is no field, but what other threads do next: how often the callback of the barrier raises the epoch
-- before each of the next transactions is recorded.
pub record CommController : Type 0 where
  pub epoch : ℕ
  pub broadcast_transactions : List ℕ
  pub epoch_size_map : ℕ → ℕ
  pub processed_transaction : List ℕ
  pub transaction_map : ℕ → List ℕ
  pub current_epoch : ℕ
  pub callbacks : List ℕ

-- `latest` is the block storage's latest saved epoch.
abbrev pub comm_controller : ℕ → CommController
comm_controller latest = record {
  epoch = to_uint32 (latest + 1);
  broadcast_transactions = [];
  epoch_size_map = λ e. 0;
  processed_transaction = [];
  transaction_map = λ e. [];
  current_epoch = 0;
  callbacks = [];
}

-- What C++ leaves undefined, as `top` of an empty queue is, a failed CHECK, a failed DCHECK, and rounds
-- that are used up.
pub data Failure : Type 0 where
  undefined check debug_check out_of_rounds : Failure

-- A call comes to its end, waits for ever, or fails.
pub data Run (A : Type 0) : Type 0 where
  done : A → Run A
  waits : Run A
  fails : Failure → Run A

infixl 10 ◌>>=◌
unfoldable pub ◌>>=◌ : {A B : Type 0} → Run A → (A → Run B) → Run B
(done a >>= f) = f a
(waits >>= f) = waits
(fails failure >>= f) = fails failure

-- The comparison of the priority queue: the first comes out after the second.
unfoldable pub comes_after : Heap → ℕ → ℕ → Bool
comes_after heap a b =
    if (heap a).epoch == (heap b).epoch
    then ltb (heap b).tid (heap a).tid
    else ltb (heap b).epoch (heap a).epoch

-- `priority_queue::push`; the order of two that come neither after the other is open in C++.
unfoldable pub push : Heap → ℕ → List ℕ → List ℕ
push heap t [] = t ∷ []
push heap t (u ∷ us) =
    let rest = push heap t us in if comes_after heap t u then u ∷ rest else t ∷ u ∷ us

unfoldable pub push_all : Heap → List ℕ → List ℕ → List ℕ
push_all heap [] queue = queue
push_all heap (t ∷ ts) queue = push_all heap ts (push heap t queue)

-- What other threads enqueue by the time that each call of `transferTransaction` looks at the queue.
abbrev pub Arrivals : Type 0
Arrivals = List (List ℕ)

abbrev pub first_arrival : Arrivals → List ℕ
first_arrival [] = []
first_arrival (ts ∷ arrivals) = ts

abbrev pub later_arrivals : Arrivals → Arrivals
later_arrivals [] = []
later_arrivals (ts ∷ arrivals) = arrivals

-- Does the queue of processed transactions wait in vain for the first one?
unfoldable pub waits_in_vain : List ℕ → List ℕ → Bool
waits_in_vain [] [] = true
waits_in_vain _ _ = false

unfoldable pub transfer_transaction :
    Heap → Arrivals → CommController → Run (CommController × Arrivals)
transfer_transaction heap arrivals s =
    let incoming = s.broadcast_transactions ++ first_arrival arrivals in
    if waits_in_vain s.processed_transaction incoming
    then waits
    else done (
      record s {
        processed_transaction = push_all heap incoming s.processed_transaction;
        broadcast_transactions = [];
      },
      later_arrivals arrivals,
    )

-- The epoch when the next transaction is recorded, and what is to come after that.
abbrev pub raised : ℕ → List ℕ → ℕ
raised epoch [] = epoch
raised epoch (k ∷ callbacks) = to_uint32 (epoch + k)

abbrev pub later_callbacks : List ℕ → List ℕ
later_callbacks [] = []
later_callbacks (k ∷ callbacks) = callbacks

-- The controller after `pop` of its top, with the rest of the queue.
abbrev pub take_top : Heap → ℕ → List ℕ → CommController → CommController
take_top heap t queue s =
    let epoch = raised s.epoch s.callbacks in
    record s {
      epoch = epoch;
      callbacks = later_callbacks s.callbacks;
      processed_transaction = queue;
      transaction_map = update s.transaction_map epoch (s.transaction_map epoch ++ (t ∷ []));
      current_epoch = (heap t).epoch;
    }

-- The end of a round, where an empty queue is filled again unless the batch is large enough: does the
-- loop go on?
unfoldable pub refill :
    Heap
    → ℕ
    → TransactionWrapper
    → CommController
    → Arrivals
    → Run (Bool × CommController × Arrivals)
refill heap min_size w s arrivals = elim s.processed_transaction [
  | t ∷ queue ↦ done (true, s, arrivals)
  | [] ↦
      if ltb min_size (size w)
      then done (false, s, arrivals)
      else transfer_transaction heap arrivals s >>= (λ r. done (true, r.0, r.1))
]

-- The loop of `getTransaction`.
unfoldable pub take_loop :
    ℕ
    → Heap
    → ℕ
    → ℕ
    → ℕ
    → TransactionWrapper
    → CommController
    → Arrivals
    → Run (TransactionWrapper × CommController × Arrivals)
take_loop zero heap epoch max_size min_size w s arrivals = fails out_of_rounds
take_loop (suc rounds) heap epoch max_size min_size w s arrivals =
    if ltb (size w) max_size
    then (elim s.processed_transaction [
      | [] ↦ fails undefined
      | t ∷ queue ↦
          if (heap t).epoch == epoch
          then (let (pushed, w1) = push_transaction heap (some t) w in
              if leb s.current_epoch (heap t).epoch
              then (if pushed
                  then (refill heap min_size w1 (take_top heap t queue s) arrivals >>= (λ r.
                      elim r.0 [
                        | true ↦ take_loop rounds heap epoch max_size min_size w1 r.1 r.2
                        | false ↦ done (w1, r.1, r.2)
                      ]))
                  else fails check)
              else fails check)
          else done (w, s, arrivals)
    ])
    else done (w, s, arrivals)

-- Is the top of the queue of another epoch?
unfoldable pub other_epoch : Heap → ℕ → List ℕ → Bool
other_epoch heap epoch [] = false
other_epoch heap epoch (t ∷ queue) = not ((heap t).epoch == epoch)

-- Is the top of an epoch as many epochs later, in 32 bits?
unfoldable pub top_after : Heap → ℕ → ℕ → List ℕ → Bool
top_after heap epoch k [] = false
top_after heap epoch k (t ∷ queue) = (heap t).epoch == to_uint32 (epoch + k)

-- The part after the first call of `transferTransaction`; `none` in the result is the null pointer.
unfoldable pub after_transfer :
    Heap
    → ℕ
    → ℕ
    → ℕ
    → CommController × Arrivals
    → Run (Option TransactionWrapper × CommController × Arrivals)
after_transfer heap epoch max_size min_size (s, arrivals) =
    if other_epoch heap epoch s.processed_transaction
    then (if top_after heap epoch 1 s.processed_transaction
        then done (none, s, arrivals)
        else fails debug_check)
    else take_loop (suc max_size) heap epoch max_size min_size (transaction_wrapper epoch) s
        arrivals
      >>= (λ q. done (some q.0, q.1, q.2))

unfoldable pub get_transaction :
    Heap
    → ℕ
    → ℕ
    → ℕ
    → CommController
    → Arrivals
    → Run (Option TransactionWrapper × CommController × Arrivals)
get_transaction heap epoch max_size min_size s arrivals =
    if ltb s.epoch epoch
    then fails debug_check
    else if other_epoch heap epoch s.processed_transaction
    then (if top_after heap epoch 1 s.processed_transaction
          || top_after heap epoch 2 s.processed_transaction
        then done (none, s, arrivals)
        else fails debug_check)
    else transfer_transaction heap arrivals s >>= after_transfer heap epoch max_size min_size

-- The loop of `clearTransactionForEpoch`: the transactions that are deleted, and the map.
unfoldable pub clear_loop : Heap → ℕ → List ℕ → (ℕ → List ℕ) → List ℕ × (ℕ → List ℕ)
clear_loop heap epoch [] map = ([], map)
clear_loop heap epoch (t ∷ ts) map =
    let e = (heap t).epoch in
    if e == epoch
    then (let (deleted, map1) = clear_loop heap epoch ts map in (t ∷ deleted, map1))
    else clear_loop heap epoch ts (update map e (map e ++ (t ∷ [])))

-- `none` is a failed DCHECK.
unfoldable pub clear_transaction_for_epoch :
    Heap → ℕ → CommController → Option (List ℕ × CommController)
clear_transaction_for_epoch heap epoch s =
    let (deleted, map) = clear_loop heap epoch (s.transaction_map epoch) s.transaction_map in
    if ltb epoch s.epoch
    then some (deleted, record s { transaction_map = update map epoch [] })
    else none

-- `wait`, once all the threads have come to the barrier.
unfoldable pub wait : CommController → CommController
wait s = record s { epoch = to_uint32 (s.epoch + 1) }

-- The two callbacks of the user collector; the first enqueues into the queues of pending transactions
-- and of their proofs.
unfoldable pub new_transaction_handle {ℓ} :
    {A Proof : Type ℓ} → List A → Proof → List A × List Proof → List A × List Proof
new_transaction_handle ts proof (transactions, proofs) =
    (transactions ++ ts, proofs ++ (proof ∷ []))

unfoldable pub last_epoch_size_handle : ℕ → ℕ → CommController → CommController
last_epoch_size_handle epoch size s = record s {
  epoch_size_map = update s.epoch_size_map epoch size;
}
