-- ===== src/Executor/Commit.antt =====
-- The commit phase of a worker (`commitList` of transaction_executor_impl.cpp), one transaction at a
-- time, over a table that holds the reservations of the epoch.
use myblockchain.Prelude.{
  ℕ, ◌≡◌, refl, sym, subst, ◌⊎◌, inl, inr, List, [], ◌∷◌, map, Bool, true, Option, some, arith,
  if◌then◌else◌, String, All, Bool-cases,
}
use myblockchain.Transaction.{MockTransaction, KvRwSet, TransactionResult, set_transaction_result}
use myblockchain.Reserve.{ReserveTable, TransactionDependency, dependency_analysis}
use myblockchain.Reserve.Batch.{Batch, Holds, Holds-dependency, Holds-analysis}
use myblockchain.Database.{LevelDb, DatabaseImpl, commit_update, abort_update}
use myblockchain.Database.Commit.{buffered, commit_update_first, commit_update_later}
use myblockchain.Executor.{
  Outcome, World, kept_table, decide, is_abort_no_retry, commit_one, commit_list, ◌>>=◌,
}
use myblockchain.Executor.Decision.{commits, settled}

module _ (leveldb : LevelDb) (hasher : String → ℕ) (weak : ℕ → Bool)
    (invoke : MockTransaction → leveldb.Db → Outcome) where
  abbrev W : Type 0
  W = World leveldb hasher weak invoke

  abbrev kept : W → Option ReserveTable
  kept = kept_table leveldb hasher weak invoke

  -- The commit of the id reads no null pointer.
  abbrev pub CanWrite : DatabaseImpl leveldb → ℕ → Type 0
  CanWrite d tid = (d.commit_phase ≡ true) ⊎ ((set : KvRwSet) × (buffered leveldb tid d ≡ some set))

  -- The transaction has failed, or the executor's table holds the reservations of the epoch.
  abbrev pub CanSettle : Batch → W → MockTransaction → Type 0
  CanSettle batch w t =
      (is_abort_no_retry t.result ≡ true)
      ⊎ ((table : ReserveTable) × (kept w ≡ some table) × Holds batch table)

  abbrev decided : TransactionDependency → MockTransaction → MockTransaction
  decided d t =
      set_transaction_result
        (if commits d then TransactionResult.commit else TransactionResult.abort) t

  commit_update_lem :
      (tid : ℕ) (db : DatabaseImpl leveldb)
      → CanWrite db tid
      → (db' : DatabaseImpl leveldb) × (commit_update leveldb tid db ≡ some (true, db'))
        × (db'.commit_phase ≡ true)
  commit_update_lem tid db (inl shut) = (db, commit_update_later leveldb tid db shut, shut)
  commit_update_lem tid db (inr (set, there)) = elim (Bool-cases db.commit_phase) [
    | inl shut ↦ (db, commit_update_later leveldb tid db shut, shut)
    | inr open_phase ↦
        let (db', runs, shut, _) = commit_update_first leveldb tid db set open_phase there in
        (db', runs, shut)
  ]

  decide_lem :
      (d : TransactionDependency) (t : MockTransaction) (db : DatabaseImpl leveldb)
      → CanWrite db t.tid
      → (db' : DatabaseImpl leveldb) × (decide leveldb hasher weak invoke d t db
          ≡ some (decided d t, db'))
        × ((db' ≡ db) ⊎ (db'.commit_phase ≡ true))
  unfolding decide abort_update
  decide_lem d t db can = elim (Bool-cases (commits d)) [
    | inl good ↦
        let (db', runs, shut) = commit_update_lem t.tid db can in (db', ground arith, inr shut)
    | inr bad ↦ (db, ground arith, inl refl)
  ]

  kept-provided :
      (w : W) (table table' : ReserveTable) (db : DatabaseImpl leveldb)
      → kept w ≡ some table
      → table'.epoch ≡ table.epoch
      → kept (record w { database = db; provided = some table' }) ≡ some table'
  unfolding kept_table
  kept-provided w table table' db h e = ground arith

  -- The world after a step of the commit phase is as good for the other transactions.
  record Goes (batch : Batch) (v w : W) : Type 0 where
    settles : (t : MockTransaction) → CanSettle batch v t → CanSettle batch w t
    writes : (tid : ℕ) → CanWrite v.database tid → CanWrite w.database tid

  commit_one_lem :
      (batch : Batch) (t : MockTransaction) (v : W)
      → CanSettle batch v t
      → CanWrite v.database t.tid
      → (w : W) × (commit_one leveldb hasher weak invoke t v ≡ some (settled batch t, w))
        × Goes batch v w
  unfolding commit_one abort_update
  commit_one_lem batch t v (inl failed) can =
      (v, rw failed refl, record { settles = λ u h. h; writes = λ tid h. h })
  commit_one_lem batch t v (inr (table, points, holds)) can =
      elim (Bool-cases (is_abort_no_retry t.result)) [
        | inl failed ↦ (v, rw failed refl, record { settles = λ u h. h; writes = λ tid h. h })
        | inr live ↦
            let d = (dependency_analysis t.rwset t.tid table).0 in
            let table' = (dependency_analysis t.rwset t.tid table).1 in
            let (db', runs, changed) = decide_lem d t v.database can in
            let (holds', same_epoch) = Holds-analysis holds t.rwset t.tid in
            let w : W = record v { database = db'; provided = some table' } in
            (
              w,
              rw (live, points, ◌>>=◌)
                  (rw (runs, ◌>>=◌) (rw (Holds-dependency holds t.rwset t.tid) refl)),
              record {
                settles = λ u. elim [
                  | inl failed ↦ inl failed
                  | inr _ ↦ inr (table', kept-provided v table table' db' points same_epoch, holds')
                ];
                writes = λ tid h. elim changed [
                  | inl same ↦ subst (λ x. CanWrite x tid) (sym same) h
                  | inr shut ↦ inl shut
                ];
              },
            )
      ]

  All-settles :
      (batch : Batch) (v w : W) (ts : List MockTransaction)
      → Goes batch v w
      → All (CanSettle batch v) ts
      → All (λ t. CanWrite v.database t.tid) ts
      → All (CanSettle batch w) ts × All (λ t. CanWrite w.database t.tid) ts
  All-settles batch v w [] g a b = (tt, tt)
  All-settles batch v w (t ∷ ts) g a b =
      let rest = All-settles batch v w ts g a.1 b.1 in
      ((g.settles t a.0, rest.0), (g.writes t.tid b.0, rest.1))

  pub commit_list_lem :
      (batch : Batch) (ts : List MockTransaction) (v : W)
      → All (CanSettle batch v) ts
      → All (λ t. CanWrite v.database t.tid) ts
      → (w : W) × (commit_list leveldb hasher weak invoke ts v ≡ some (map (settled batch) ts, w))
  unfolding commit_list
  commit_list_lem batch [] v a b = (v, refl)
  commit_list_lem batch (t ∷ ts) v a b =
      let (u, runs, g) = commit_one_lem batch t v a.0 b.0 in
      let (a', b') = All-settles batch v u ts g a.1 b.1 in
      let (w, then_runs) = commit_list_lem batch ts u a' b' in
      (w, rw (runs, ◌>>=◌) (rw (then_runs, ◌>>=◌) refl))
