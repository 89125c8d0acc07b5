-- ===== src/Executor/Phases.antt =====
-- The two phases of a worker (transaction_executor_impl.cpp) do what Executor/Decision says.
use myblockchain.Prelude.{
  ℕ, ◌≡◌, subst, ◌⊎◌, inl, inr, List, [], ◌∷◌, map, Bool, true, some, String, All,
}
use myblockchain.Transaction.{MockTransaction}
use myblockchain.Reserve.{ReserveTable, mock_reserve_table, get_reserve_table}
use myblockchain.Reserve.Batch.{Batch, Holds, Reserved, Reserved-Holds}
use myblockchain.Database.{LevelDb}
use myblockchain.Executor.{Outcome, World, kept_table, execute_list, commit_list, is_abort_no_retry}
use myblockchain.Executor.Decision.{executed, batch_of, settled}
use myblockchain.Executor.Read.{IsFresh, HasBuffer, execute_list_lem}
use myblockchain.Executor.Commit.{CanWrite, CanSettle, commit_list_lem}

module _ (leveldb : LevelDb) (hasher : String → ℕ) (weak : ℕ → Bool)
    (invoke : MockTransaction → leveldb.Db → Outcome) where
  abbrev W : Type 0
  W = World leveldb hasher weak invoke

  -- The provider has no table of the epoch yet.
  abbrev pub IsNewEpoch : ℕ → W → Type 0
  IsNewEpoch epoch w =
      get_reserve_table hasher epoch w.provided ≡ (mock_reserve_table hasher epoch, true)

  settle-All :
      (batch : Batch) (u : W) (table : ReserveTable) (ts : List MockTransaction)
      → Holds batch table
      → All
          (λ t.
            (is_abort_no_retry t.result ≡ true)
            ⊎ (kept_table leveldb hasher weak invoke u ≡ some table))
          ts
      → All (CanSettle leveldb hasher weak invoke batch u) ts
  settle-All batch u table [] h a = tt
  settle-All batch u table (t ∷ ts) h a = (
    elim a.0 [ inl failed ↦ inl failed | inr points ↦ inr (table, points, h) ],
    settle-All batch u table ts h a.1,
  )

  write-All :
      (u : W) (ts : List MockTransaction)
      → All (λ t. HasBuffer leveldb hasher weak invoke u.database t.tid) ts
      → All (λ t. CanWrite leveldb hasher weak invoke u.database t.tid) ts
  write-All u [] a = tt
  write-All u (t ∷ ts) a = (inr a.0, write-All u ts a.1)

  -- A worker that runs the two phases on all the transactions of an epoch that has no table yet, each
  -- of that epoch, pending, and with an id that is not 0, meets no null pointer and ends both phases,
  -- whatever the weak compare-exchange does. Every contract has run on the database of the epoch's
  -- start; one that failed is aborted for good; any other is committed exactly if the smaller
  -- transactions whose contract succeeded allow it, and else aborted.
  pub epoch_settled :
      (epoch : ℕ) (ts : List MockTransaction) (v : W)
      → IsNewEpoch epoch v
      → All (IsFresh leveldb hasher weak invoke epoch) ts
      → (u w : W) × (execute_list leveldb hasher weak invoke ts v
          ≡ some (map (executed invoke v.database.db) ts, u))
        × (commit_list leveldb hasher weak invoke (map (executed invoke v.database.db) ts) u
            ≡ some (
              map
                  (settled (batch_of (map (executed invoke v.database.db) ts)))
                  (map (executed invoke v.database.db) ts),
              w,
            ))
  epoch_settled epoch ts v new fresh =
      let xs = map (executed invoke v.database.db) ts in
      let (u, runs, r) = execute_list_lem leveldb hasher weak invoke epoch ts v fresh in
      let holds : Holds (batch_of xs) (get_reserve_table hasher epoch u.provided).0 =
        Reserved-Holds hasher epoch (
          subst (λ a. Reserved (batch_of xs) a.0 (get_reserve_table hasher epoch u.provided).0) new
            r.reserves) in
      let (w, commits) =
        commit_list_lem leveldb hasher weak invoke (batch_of xs) xs u
          (settle-All (batch_of xs) u _ xs holds r.ready) (write-All u xs r.buffers) in
      (u, w, runs, commits)
