-- ===== src/Executor.antt =====
-- The transaction executor of a worker:
-- src/block_server/worker/impl/ transaction_executor_impl.cpp. One worker at a time is modelled; what
-- several do to one reserve table at once is in Reserve/Race.
pub mod Decision
pub mod Read
mod Commit
pub mod Phases
pub mod Agreement
use myblockchain.Prelude.{
  ℕ, zero, suc, List, [], ◌∷◌, Bool, true, false, not, ◌||◌, Option, none, some, ◌==◌,
  if◌then◌else◌, String,
}
use myblockchain.Transaction.{MockTransaction, KvRwSet, TransactionResult, set_transaction_result}
use myblockchain.Reserve.{
  ReserveTable, TransactionDependency, reserve_rwset, dependency_analysis, get_reserve_table,
}
use myblockchain.Database.{
  LevelDb, DatabaseImpl, TableNames, buffer_updates, commit_update, abort_update,
}

infixl 5 ◌>>=◌
abbrev pub ◌>>=◌ {ℓ κ} : {A : Type ℓ} {B : Type κ} → Option A → (A → Option B) → Option B
none >>= f = none
some a >>= f = f a

-- What a smart contract does: `InvokeChaincode` reads the database, answers whether it succeeded, and
-- leaves a read-write set and the tables that it made in the transaction's helper.
pub record Outcome : Type 0 where
  pub succeeds : Bool
  pub rwset : KvRwSet
  pub tables : TableNames

abbrev pub is_abort_no_retry : TransactionResult → Bool
is_abort_no_retry TransactionResult.abort_no_retry = true
is_abort_no_retry _ = false

module _ (leveldb : LevelDb) (hasher : String → ℕ) (weak : ℕ → Bool)
    (invoke : MockTransaction → leveldb.Db → Outcome) where
  -- The singletons that the executor works on, and the table that it keeps a pointer to, named by its
  -- epoch: the provider holds one table at a time.
  pub record World : Type 0 where
    pub database : DatabaseImpl leveldb
    pub provided : Option ReserveTable
    pub kept : Option ℕ

  -- Through the kept pointer; `none` is a null or a dangling one.
  unfoldable pub kept_table : World → Option ReserveTable
  kept_table w = elim w.kept [
    | none ↦ none
    | some epoch ↦ elim w.provided [
      | none ↦ none
      | some table ↦ if table.epoch == epoch then some table else none
    ]
  ]

  -- The destructor of the contract object: its helper buffers the read-write set.
  abbrev pub buffered_world : MockTransaction → Outcome → World → World
  buffered_world t o w = record w {
    database = (buffer_updates leveldb t.tid o.rwset o.tables w.database).1;
  }

  unfoldable pub execute_one : MockTransaction → World → Option (MockTransaction × World)
  execute_one t w =
      let o = invoke t w.database.db in
      let t' = record t { rwset = o.rwset } in
      let table = (get_reserve_table hasher t.epoch w.provided).0 in
      if not o.succeeds
      then some (set_transaction_result TransactionResult.abort_no_retry t', buffered_world t o w)
      else (reserve_rwset 2 weak o.rwset t.tid table >>= λ reserved.
          some
            (t', record (buffered_world t o w) { provided = some reserved; kept = some t.epoch }))

  pub execute_list : List MockTransaction → World → Option (List MockTransaction × World)
  execute_list [] w = some ([], w)
  execute_list (t ∷ ts) w =
      execute_one t w >>= λ r. execute_list ts r.1 >>= λ rest. some (r.0 ∷ rest.0, rest.1)

  -- After the analysis: the transaction with its result, and the database.
  unfoldable pub decide :
      TransactionDependency
      → MockTransaction
      → DatabaseImpl leveldb
      → Option (MockTransaction × DatabaseImpl leveldb)
  decide d t db =
      if d.waw
      then some (set_transaction_result TransactionResult.abort t, db)
      else (if not d.war || not d.raw
          then (commit_update leveldb t.tid db >>= λ r. some (
            set_transaction_result
                (if r.0 then TransactionResult.commit else TransactionResult.abort_no_retry) t,
            r.1,
          ))
          else some
              (set_transaction_result TransactionResult.abort t, (abort_update leveldb t.tid db).1))

  unfoldable pub commit_one : MockTransaction → World → Option (MockTransaction × World)
  commit_one t w =
      if is_abort_no_retry t.result
      then some (t, record w { database = (abort_update leveldb t.tid w.database).1 })
      else (kept_table w >>= λ table.
          let (d, table') = dependency_analysis t.rwset t.tid table in
          decide d t w.database >>= λ r.
          some (r.0, record w { database = r.1; provided = some table' }))

  pub commit_list : List MockTransaction → World → Option (List MockTransaction × World)
  commit_list [] w = some ([], w)
  commit_list (t ∷ ts) w =
      commit_one t w >>= λ r. commit_list ts r.1 >>= λ rest. some (r.0 ∷ rest.0, rest.1)
