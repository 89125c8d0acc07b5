-- ===== src/Coordinator.antt =====
-- The coordinator of a server: src/block_server/coordinator/AriaCoordinator.cpp, with the sizes of
-- include/common/complie_config.h. A transaction is an address into a heap. `none` stands for a wait
-- that goes on.
pub mod Buffer
pub mod Drain
use myblockchain.Prelude.{
  ℕ, zero, suc, ◌+◌, List, [], ◌∷◌, ◌++◌, Bool, true, false, ◌&&◌, Option, none, some, ◌==◌, ltb,
  leb, if◌then◌else◌, length,
}
use myblockchain.Transaction.Wrapper.{Heap, TransactionWrapper, size, pop_transaction}

abbrev pub input_max_buffer_size : ℕ
input_max_buffer_size = 5000

abbrev pub max_transaction_per_workload : ℕ
max_transaction_per_workload = 1000

abbrev pub min_transaction_per_workload : ℕ
min_transaction_per_workload = 500

pub record Workload : Type 0 where
  pub epoch : ℕ
  pub transaction_list : List ℕ

-- The epoch and the queue.
pub record Input : Type 0 where
  pub epoch_chan : ℕ
  pub transaction_buffer : List ℕ

unfoldable pub back {ℓ} : {A : Type ℓ} → List A → Option A
back [] = none
back (x ∷ []) = some x
back (x ∷ y ∷ ys) = back (y ∷ ys)

-- The test that `getWorkload` waits for.
unfoldable pub has_workload : Heap → Input → Bool
has_workload heap c = elim (back c.transaction_buffer) [
  | none ↦ false
  | some last ↦
      if ltb c.epoch_chan (heap last).epoch
      then true
      else (if ltb (length c.transaction_buffer) min_transaction_per_workload then false else true)
]

-- The tests of the do-while loop and its further rounds: the list so far, and the queue.
unfoldable pub fill : Heap → ℕ → List ℕ → List ℕ → List ℕ × List ℕ
fill heap epoch taken [] = (taken, [])
fill heap epoch taken (t ∷ ts) =
    let more = fill heap epoch (taken ++ (t ∷ [])) ts in
    if (heap t).epoch == epoch && ltb (length taken) max_transaction_per_workload
    then more
    else (taken, t ∷ ts)

-- The result is the workload, or `none` with the flag that the epoch is empty.
unfoldable pub get_workload : Heap → Input → Option (Option Workload × Input)
get_workload heap c =
    if has_workload heap c
    then (elim c.transaction_buffer [
      | [] ↦ none
      | t ∷ ts ↦
          if ltb c.epoch_chan (heap t).epoch
          then some (none, c)
          else (let (taken, rest) = fill heap c.epoch_chan (t ∷ []) ts in
              some (
                some (record { epoch = (heap t).epoch; transaction_list = taken }),
                record c { transaction_buffer = rest },
              ))
    ])
    else none

-- `while (trWrapper->size() > 0)`: one round for each transaction of the wrapper.
unfoldable pub unpack : ℕ → TransactionWrapper → List ℕ → List ℕ
unpack zero w buffer = buffer
unpack (suc rounds) w buffer = elim (pop_transaction w) [
  | none ↦ buffer
  | some (t, w') ↦ unpack rounds w' (buffer ++ (t ∷ []))
]

unfoldable pub add_transaction : TransactionWrapper → Input → Option Input
add_transaction w c =
    if leb (length c.transaction_buffer + size w) input_max_buffer_size
    then some (record c { transaction_buffer = unpack (size w) w c.transaction_buffer })
    else none

-- The loop of `mainRoutine` that takes the workloads of the epoch, in rounds.
unfoldable pub take_workloads : ℕ → Heap → Input → Option (List Workload × Input)
take_workloads zero heap c = none
take_workloads (suc rounds) heap c = elim (get_workload heap c) [
  | none ↦ none
  | some (none, c') ↦ some ([], c')
  | some (some w, c') ↦ elim (take_workloads rounds heap c') [
    | none ↦ none
    | some (ws, c'') ↦ some (w ∷ ws, c'')
  ]
]
