-- ===== src/Database/Commit.antt =====
-- What buffering and committing do to the database (database_impl.cpp).
use myblockchain.Prelude.{
  ℕ, ◌≡◌, refl, ◌≢◌, List, [], ◌∷◌, true, false, Option, none, some, arith, if◌then◌else◌, String,
  string_key, nat_key, Bool-cases, inl, inr, ◌∙◌, ap,
}
use myblockchain.HashMap.{clear, index, lookup}
use myblockchain.HashMap.Laws.{index_value, lookup-assign}
use myblockchain.Transaction.{KvWrite, KvRwSet}
use myblockchain.Database.{
  LevelDb, TableNames, DatabaseImpl, clear_buffer_thread_safe, buffer_updates, apply_writes,
  commit_update,
}

module _ (leveldb : LevelDb) where
  open leveldb use {Db, get, put, delete, get-put, get-delete}

  -- What is buffered under an id.
  abbrev pub buffered : ℕ → DatabaseImpl leveldb → Option KvRwSet
  buffered tid s = elim (lookup tid s.rw_set_buffer) [ none ↦ none | some set ↦ set ]

  -- What a key holds after a list of writes, in their order.
  pub written : String → List KvWrite → Option String → Option String
  written k [] old = old
  written k (w ∷ ws) old =
      written k ws
        (if string_key.beq w.key k then (if w.is_delete then none else some w.value) else old)

  pub get-apply_writes :
      (k : String) (ws : List KvWrite) (d : Db)
      → get k (apply_writes leveldb ws d) ≡ written k ws (get k d)
  unfolding apply_writes written
  get-apply_writes k [] d = refl
  get-apply_writes k (w ∷ ws) d = elim (Bool-cases w.is_delete) [
    | inl gone ↦ rw gone (get-apply_writes k ws _ ∙ ap (written k ws) (get-delete w.key k d))
    | inr kept ↦ rw kept (get-apply_writes k ws _ ∙ ap (written k ws) (get-put w.key k w.value d))
  ]

  -- Buffering a transaction opens the next phase, leaves the database alone, and touches no other id.
  pub buffered-buffer_updates :
      (tid j : ℕ) (set : KvRwSet) (tables : TableNames) (s : DatabaseImpl leveldb)
      → ((buffer_updates leveldb tid set tables s).1.commit_phase ≡ false)
        × ((buffer_updates leveldb tid set tables s).1.db ≡ s.db)
        × (buffered tid (buffer_updates leveldb tid set tables s).1 ≡ some set)
        × ((j ≢ tid
            → s.commit_phase ≡ false
            → buffered j (buffer_updates leveldb tid set tables s).1 ≡ buffered j s))
  unfolding buffer_updates clear_buffer_thread_safe
  buffered-buffer_updates tid j set tables s = (
    ground arith,
    ground arith,
    ground (
      arith,
      lookup-assign tid tid (some set) s.rw_set_buffer,
      lookup-assign tid tid (some set) (clear s.rw_set_buffer),
    ),
    λ other open_phase. ground (arith, lookup-assign tid j (some set) s.rw_set_buffer),
  )

  pub commit_update_first :
      (tid : ℕ) (s : DatabaseImpl leveldb) (set : KvRwSet)
      → s.commit_phase ≡ false
      → buffered tid s ≡ some set
      → (t : DatabaseImpl leveldb) × (commit_update leveldb tid s ≡ some (true, t))
        × (t.commit_phase ≡ true)
        × (t.db ≡ apply_writes leveldb set.writes s.db)
  unfolding commit_update
  commit_update_first tid s set h b = (
    record s {
      rw_set_buffer = (index none tid s.rw_set_buffer).1;
      db = apply_writes leveldb set.writes s.db;
      commit_phase = true;
    },
    ground (arith, index_value none tid s.rw_set_buffer),
    refl,
    refl,
  )

  -- A transaction that is buffered and then committed, as the first of its phase, succeeds, and every
  -- key holds what its writes, in their order, make of what it held before. The former phase's
  -- buffers are no hindrance.
  pub commit-buffer :
      (tid : ℕ) (set : KvRwSet) (tables : TableNames) (s : DatabaseImpl leveldb)
      → (t : DatabaseImpl leveldb) × (commit_update leveldb tid
            (buffer_updates leveldb tid set tables s).1
          ≡ some (true, t))
        × (t.commit_phase ≡ true)
        × ((k : String) → get k t.db ≡ written k set.writes (get k s.db))
  commit-buffer tid set tables s =
      let (opens, same, there, _) = buffered-buffer_updates tid tid set tables s in
      let (t, runs, shut, holds) = commit_update_first tid _ set opens there in
      (
        t,
        runs,
        shut,
        λ k.
            ap (get k) holds
            ∙ (get-apply_writes k set.writes _ ∙ ap (λ d. written k set.writes (get k d)) same),
      )

  -- Within a phase that has committed a transaction every other commit succeeds and does nothing.
  pub commit_update_later :
      (tid : ℕ) (s : DatabaseImpl leveldb)
      → s.commit_phase ≡ true
      → commit_update leveldb tid s ≡ some (true, s)
  unfolding commit_update
  commit_update_later tid s h = ground arith

  -- The bug: of two transactions that are buffered in one phase and both committed, with success, the
  -- database holds the writes of the first alone. Nothing is asked of the second one's writes.
  pub second_commit_lost :
      (i j : ℕ) (set other : KvRwSet) (tables : TableNames) (s : DatabaseImpl leveldb)
      → i ≢ j
      → let both =
          (buffer_updates leveldb j other tables (buffer_updates leveldb i set tables s).1).1 in
        (t : DatabaseImpl leveldb) × (commit_update leveldb i both ≡ some (true, t))
        × (commit_update leveldb j t ≡ some (true, t))
        × ((k : String) → get k t.db ≡ written k set.writes (get k s.db))
  second_commit_lost i j set other tables s h =
      let first = (buffer_updates leveldb i set tables s).1 in
      let (opens, same, there, _) = buffered-buffer_updates i i set tables s in
      let (opens', same', _, kept) = buffered-buffer_updates j i other tables first in
      let (t, runs, shut, holds) = commit_update_first i _ set opens' (kept h opens ∙ there) in
      (
        t,
        runs,
        commit_update_later j t shut,
        λ k.
            ap (get k) holds
            ∙ (get-apply_writes k set.writes _
                ∙ ap (λ d. written k set.writes (get k d)) (same' ∙ same)),
      )
