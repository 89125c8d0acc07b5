-- ===== src/Executor/Read.antt =====
-- The read phase of a worker (`executeList` of transaction_executor_impl.cpp) on the transactions of
-- one epoch: what it makes of them, of the reserve table and of the buffers.
use myblockchain.Prelude.{
  ℕ, ◌≡◌, refl, ap, ◌∙◌, ◌≢◌, ◌⊎◌, inl, inr, List, [], ◌∷◌, map, Bool, true, false, ◌||◌, Option,
  some, subst, arith, String, All, Bool-cases,
}
use native.Mathlib.Decide.{ℕ_discrete}
use myblockchain.Transaction.{MockTransaction, KvRwSet, TransactionResult, set_transaction_result}
use myblockchain.Reserve.{ReserveTable, get_reserve_table}
use myblockchain.Reserve.Batch.{
  preceded, reads, writes, Reserved, reserve_rwset_lem, Reserved-trans,
}
use myblockchain.Database.{LevelDb, DatabaseImpl, buffer_updates}
use myblockchain.Database.Commit.{buffered, buffered-buffer_updates}
use myblockchain.Executor.{
  Outcome, World, kept_table, buffered_world, execute_one, execute_list, is_abort_no_retry, ◌>>=◌,
}
use myblockchain.Executor.Decision.{executed, batch_of}

module _ (leveldb : LevelDb) (hasher : String → ℕ) (weak : ℕ → Bool)
    (invoke : MockTransaction → leveldb.Db → Outcome) where
  abbrev pub W : Type 0
  W = World leveldb hasher weak invoke

  -- A transaction of the epoch that has not run, with an id that is not 0.
  abbrev pub IsFresh : ℕ → MockTransaction → Type 0
  IsFresh epoch t = (t.tid ≢ 0) × (t.epoch ≡ epoch) × (t.result ≡ TransactionResult.pending)

  abbrev pub kept : W → Option ReserveTable
  kept = kept_table leveldb hasher weak invoke

  abbrev pub HasBuffer : DatabaseImpl leveldb → ℕ → Type 0
  HasBuffer d tid = (set : KvRwSet) × (buffered leveldb tid d ≡ some set)

  -- The table that the provider gives for the epoch.
  abbrev pub table_for : ℕ → W → ReserveTable
  table_for epoch w = (get_reserve_table hasher epoch w.provided).0

  -- The world after the read phase of the transactions `ts`, in terms of the one before.
  pub record Read (epoch : ℕ) (ts : List MockTransaction) (v w : W) : Type 0 where
    pub snapshot : w.database.db ≡ v.database.db
    pub table_epoch : (table_for epoch w).epoch ≡ epoch
    pub reserves : Reserved (batch_of ts) (table_for epoch v) (table_for epoch w)
    pub points : (kept v ≡ some (table_for epoch v)) → kept w ≡ some (table_for epoch w)
    pub ready :
        All (λ t. (is_abort_no_retry t.result ≡ true) ⊎ (kept w ≡ some (table_for epoch w))) ts
    pub open_phase : v.database.commit_phase ≡ false → w.database.commit_phase ≡ false
    pub buffers : All (λ t. HasBuffer w.database t.tid) ts
    pub keeps_buffers :
        (tid : ℕ)
        → v.database.commit_phase ≡ false
        → HasBuffer v.database tid
        → HasBuffer w.database tid

  table_for-epoch : (epoch : ℕ) (w : W) → (table_for epoch w).epoch ≡ epoch
  unfolding get_reserve_table
  table_for-epoch epoch w = ground arith

  -- The buffer after a transaction's contract object is destroyed.
  buffered_one :
      (t : MockTransaction) (o : Outcome) (d : DatabaseImpl leveldb) (tid : ℕ)
      → d.commit_phase ≡ false
      → HasBuffer d tid
      → HasBuffer (buffer_updates leveldb t.tid o.rwset o.tables d).1 tid
  buffered_one t o d tid open_phase (set, e) =
      let (_, _, self, other) = buffered-buffer_updates leveldb t.tid tid o.rwset o.tables d in
      elim (ℕ_discrete tid t.tid) [
        | yes same ↦ (o.rwset, rw same self)
        | no differs ↦ (set, other differs open_phase ∙ e)
      ]

  execute_one_fails :
      (epoch : ℕ) (t : MockTransaction) (v : W) (o : Outcome)
      → Read epoch
          (set_transaction_result TransactionResult.abort_no_retry (record t { rwset = o.rwset })
            ∷ [])
          v
          (buffered_world leveldb hasher weak invoke t o v)
  unfolding kept_table
  execute_one_fails epoch t v o =
      let (opens, same, self, _) =
        buffered-buffer_updates leveldb t.tid t.tid o.rwset o.tables v.database in
      record {
        snapshot = same;
        table_epoch = table_for-epoch epoch v;
        reserves = record { reads_hold = λ m p. refl; writes_hold = λ m p. refl };
        points = λ h. h;
        ready = (inl refl, tt);
        open_phase = λ _. opens;
        buffers = ((o.rwset, self), tt);
        keeps_buffers = buffered_one t o v.database;
      }

  -- The provider gives back the table that it holds for the epoch.
  same_table :
      (epoch : ℕ) (table : ReserveTable)
      → table.epoch ≡ epoch
      → (get_reserve_table hasher epoch (some table)).0 ≡ table
  unfolding get_reserve_table
  same_table epoch table h = ground arith

  abbrev reserved_world : MockTransaction → Outcome → ReserveTable → W → W
  reserved_world t o table v = record (buffered_world leveldb hasher weak invoke t o v) {
    provided = some table;
    kept = some t.epoch;
  }

  kept-reserved_world :
      (t : MockTransaction) (o : Outcome) (table : ReserveTable) (v : W)
      → table.epoch ≡ t.epoch
      → kept (reserved_world t o table v) ≡ some (table_for t.epoch (reserved_world t o table v))
  unfolding kept_table get_reserve_table
  kept-reserved_world t o table v h = ground arith

  execute_one_succeeds :
      (t : MockTransaction) (v : W) (o : Outcome) (table : ReserveTable)
      → t.result ≡ TransactionResult.pending
      → table.epoch ≡ t.epoch
      → Reserved ((t.tid, o.rwset) ∷ []) (table_for t.epoch v) table
      → Read t.epoch (record t { rwset = o.rwset } ∷ []) v (reserved_world t o table v)
  execute_one_succeeds t v o table fresh e r =
      let (opens, same, self, _) =
        buffered-buffer_updates leveldb t.tid t.tid o.rwset o.tables v.database in
      record {
        snapshot = same;
        table_epoch = table_for-epoch t.epoch (reserved_world t o table v);
        reserves = rw fresh (rw (same_table t.epoch table e) r);
        points = λ _. kept-reserved_world t o table v e;
        ready = (inr (kept-reserved_world t o table v e), tt);
        open_phase = λ _. opens;
        buffers = ((o.rwset, self), tt);
        keeps_buffers = buffered_one t o v.database;
      }

  opens :
      (t : MockTransaction) (v : W)
      → (buffered_world leveldb hasher weak invoke t
          (invoke t v.database.db)
          v).database.commit_phase
        ≡ false
  opens t v =
      let o = invoke t v.database.db in
      (buffered-buffer_updates leveldb t.tid t.tid o.rwset o.tables v.database).0

  execute_one_lem :
      (t : MockTransaction) (v : W)
      → IsFresh t.epoch t
      → (w : W) × (execute_one leveldb hasher weak invoke t v
          ≡ some (executed invoke v.database.db t, w))
        × Read t.epoch (executed invoke v.database.db t ∷ []) v w
        × (w.database.commit_phase ≡ false)
  unfolding execute_one
  execute_one_lem t v f = elim (Bool-cases (invoke t v.database.db).succeeds) [
    | inl good ↦
        let (table, runs, e, r) =
          reserve_rwset_lem 0 weak (invoke t v.database.db).rwset t.tid (table_for t.epoch v) f.0 in
        (
          reserved_world t (invoke t v.database.db) table v,
          rw good (rw (runs, ◌>>=◌) refl),
          rw good (
              execute_one_succeeds t v (invoke t v.database.db) table f.2
                (e ∙ table_for-epoch t.epoch v) r),
          opens t v,
        )
    | inr bad ↦ (
      buffered_world leveldb hasher weak invoke t (invoke t v.database.db) v,
      rw bad refl,
      rw bad (execute_one_fails t.epoch t v (invoke t v.database.db)),
      opens t v,
    )
  ]

  execute_one_at :
      (epoch : ℕ) (t : MockTransaction) (v : W)
      → IsFresh epoch t
      → (w : W) × (execute_one leveldb hasher weak invoke t v
          ≡ some (executed invoke v.database.db t, w))
        × Read epoch (executed invoke v.database.db t ∷ []) v w
        × (w.database.commit_phase ≡ false)
  execute_one_at epoch t v f =
      subst
        (λ e.
          (w : W) × (execute_one leveldb hasher weak invoke t v
            ≡ some (executed invoke v.database.db t, w))
          × Read e (executed invoke v.database.db t ∷ []) v w
          × (w.database.commit_phase ≡ false))
        f.1 (execute_one_lem t v (f.0, refl, f.2))

  Reserved-cons :
      (t : MockTransaction) (ts : List MockTransaction) (a b c : ReserveTable)
      → Reserved (batch_of (t ∷ [])) a b
      → Reserved (batch_of ts) b c
      → Reserved (batch_of (t ∷ ts)) a c
  Reserved-cons t ts a b c p q = elim (Bool-cases (is_abort_no_retry t.result)) [
    | inl bad ↦
        let p' : Reserved [] a b = rw bad at p in
        rw bad (record {
          reads_hold = λ m x.
              q.reads_hold m x ∙ ap (◌||◌ (preceded reads (batch_of ts) m x)) (p'.reads_hold m x);
          writes_hold = λ m x.
              q.writes_hold m x
              ∙ ap (◌||◌ (preceded writes (batch_of ts) m x)) (p'.writes_hold m x);
        })
    | inr good ↦
        let p' : Reserved ((t.tid, t.rwset) ∷ []) a b = rw good at p in
        rw good (Reserved-trans (t.tid, t.rwset) (batch_of ts) a b c p' q)
  ]

  Read-trans :
      (epoch : ℕ) (t : MockTransaction) (ts : List MockTransaction) (u v w : W)
      → Read epoch (t ∷ []) u v
      → v.database.commit_phase ≡ false
      → Read epoch ts v w
      → Read epoch (t ∷ ts) u w
  Read-trans epoch t ts u v w a opens b = record {
    snapshot = b.snapshot ∙ a.snapshot;
    table_epoch = b.table_epoch;
    reserves = Reserved-cons t ts _ _ _ a.reserves b.reserves;
    points = λ h. b.points (a.points h);
    ready = (elim a.ready.0 [ inl bad ↦ inl bad | inr points ↦ inr (b.points points) ], b.ready);
    open_phase = λ _. b.open_phase opens;
    buffers = (b.keeps_buffers t.tid opens a.buffers.0, b.buffers);
    keeps_buffers = λ tid h has. b.keeps_buffers tid opens (a.keeps_buffers tid h has);
  }

  pub execute_list_lem :
      (epoch : ℕ) (ts : List MockTransaction) (v : W)
      → All (IsFresh epoch) ts
      → (w : W) × (execute_list leveldb hasher weak invoke ts v
          ≡ some (map (executed invoke v.database.db) ts, w))
        × Read epoch (map (executed invoke v.database.db) ts) v w
  unfolding execute_list
  execute_list_lem epoch [] v f = (
    v,
    refl,
    record {
      snapshot = refl;
      table_epoch = table_for-epoch epoch v;
      reserves = record { reads_hold = λ m p. refl; writes_hold = λ m p. refl };
      points = λ h. h;
      ready = tt;
      open_phase = λ h. h;
      buffers = tt;
      keeps_buffers = λ tid h has. has;
    },
  )
  execute_list_lem epoch (t ∷ ts) v f =
      let (v', runs, a, shut) = execute_one_at epoch t v f.0 in
      let (w, then_runs, b) =
        subst
          (λ d.
            (w : W) × (execute_list leveldb hasher weak invoke ts v'
              ≡ some (map (executed invoke d) ts, w))
            × Read epoch (map (executed invoke d) ts) v' w)
          a.snapshot (execute_list_lem epoch ts v' f.1) in
      (w, rw (runs, ◌>>=◌) (rw (then_runs, ◌>>=◌) refl), Read-trans epoch _ _ v v' w a shut b)
