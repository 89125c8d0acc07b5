-- ===== src/Executor/Decision.antt =====
-- What the executor is meant to do with each transaction of an epoch, with no tables and no buffers.
use myblockchain.Prelude.{List, [], ◌∷◌, Bool, not, ◌&&◌, ◌||◌, if◌then◌else◌}
use myblockchain.Transaction.{MockTransaction, TransactionResult, set_transaction_result}
use myblockchain.Reserve.{TransactionDependency}
use myblockchain.Reserve.Batch.{Batch, dependency_in}
use myblockchain.Executor.{Outcome, is_abort_no_retry}

-- Commit unless there is a write-after-write, or both of the other dependencies.
abbrev pub commits : TransactionDependency → Bool
commits d = not d.waw && (not d.war || not d.raw)

-- The read phase on one transaction: the contract runs on the database of the epoch's start.
abbrev pub executed :
    {Db : Type 0} → (MockTransaction → Db → Outcome) → Db → MockTransaction → MockTransaction
executed invoke db t =
    let o = invoke t db in
    let t' = record t { rwset = o.rwset } in
    if o.succeeds then t' else set_transaction_result TransactionResult.abort_no_retry t'

-- The transactions that reserve: those whose contract succeeded.
abbrev pub batch_of : List MockTransaction → Batch
batch_of [] = []
batch_of (t ∷ ts) =
    if is_abort_no_retry t.result then batch_of ts else (t.tid, t.rwset) ∷ batch_of ts

-- The commit phase on one transaction.
abbrev pub settled : Batch → MockTransaction → MockTransaction
settled batch t =
    if is_abort_no_retry t.result
    then t
    else set_transaction_result
        (if commits (dependency_in batch t.rwset t.tid)
          then TransactionResult.commit
          else TransactionResult.abort)
        t
