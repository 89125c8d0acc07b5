-- ===== src/Database.antt =====
-- The versioned database: src/block_server/database/impl/database_impl.cpp over level_db_stroage.cpp.
-- LevelDB itself is not part of the repository and is a parameter.
pub mod Commit
pub mod CommitList
use myblockchain.Prelude.{
  ℕ, List, [], ◌∷◌, Bool, true, false, Option, none, some, if◌then◌else◌, String, string_key,
  nat_key, ◌≡◌,
}
use myblockchain.HashMap.{HashMap, empty, clear, assign, index}
use myblockchain.Transaction.{KvWrite, KvRwSet}

-- LevelDB: an ordered map from keys to values. The laws are those of its documentation for `Get`,
-- `Put` and `Delete`.
pub record LevelDb : Type 1 where
  pub Db : Type 0
  pub get : String → Db → Option String
  pub put : String → String → Db → Db
  pub delete : String → Db → Db
  pub get-put :
      (k j v : String) (d : Db)
      → get j (put k v d) ≡ (if string_key.beq k j then some v else get j d)
  pub get-delete :
      (k j : String) (d : Db) → get j (delete k d) ≡ (if string_key.beq k j then none else get j d)

-- The names of the tables that a transaction creates; the LevelDB storage does not use them.
abbrev pub TableNames : Type 0
TableNames = List String

module _ (leveldb : LevelDb) where
  open leveldb use {Db, get, put, delete}

  -- `selectDB`: the key with its value, or with an empty text. The table is not looked at.
  abbrev pub select_db : String → String → Db → String × String
  select_db key table d = (key, elim (get key d) [ none ↦ "" | some value ↦ value ])

  abbrev pub update_write_set : String → String → String → Db → Db
  update_write_set key value table d = put key value d

  abbrev pub remove_write_set : String → String → String → Db → Db
  remove_write_set key value table d = delete key d

  -- A buffered read-write set is the transaction's own; nothing writes to it between the phases.
  -- `none` is the null pointer that `[]` leaves behind.
  pub record DatabaseImpl : Type 0 where
    pub commit_phase : Bool
    pub rw_set_buffer : HashMap 997 ℕ (Option KvRwSet)
    pub table_list_buffer : HashMap 997 ℕ TableNames
    pub db : Db

  -- `hasher` is std::hash<uint32_t>.
  abbrev pub database_impl : (ℕ → ℕ) → Db → DatabaseImpl
  database_impl hasher d = record {
    commit_phase = false;
    rw_set_buffer = empty hasher;
    table_list_buffer = empty hasher;
    db = d;
  }

  unfoldable pub clear_buffer_thread_safe : DatabaseImpl → DatabaseImpl
  clear_buffer_thread_safe s =
      if s.commit_phase
      then record s {
        rw_set_buffer = clear s.rw_set_buffer;
        table_list_buffer = clear s.table_list_buffer;
        commit_phase = false;
      }
      else s

  -- The result is the returned flag, always true.
  unfoldable pub buffer_updates : ℕ → KvRwSet → TableNames → DatabaseImpl → Bool × DatabaseImpl
  buffer_updates tid set tables s =
      let s' = if s.commit_phase then clear_buffer_thread_safe s else s in
      (
        true,
        record s' {
          rw_set_buffer = assign tid (some set) s'.rw_set_buffer;
          table_list_buffer = assign tid tables s'.table_list_buffer;
        },
      )

  -- The loop over the writes of one transaction.
  unfoldable pub apply_writes : List KvWrite → Db → Db
  apply_writes [] d = d
  apply_writes (w ∷ ws) d = apply_writes ws (
      if w.is_delete
      then remove_write_set w.key " " w.table d
      else update_write_set w.key w.value w.table d)

  -- `none` is the null pointer read through when nothing was buffered for the transaction.
  unfoldable pub commit_update : ℕ → DatabaseImpl → Option (Bool × DatabaseImpl)
  commit_update tid s =
      if s.commit_phase
      then some (true, s)
      else (let (set, buffer) = index none tid s.rw_set_buffer in
          elim set [
            | none ↦ none
            | some set' ↦ some (
              true,
              record s {
                rw_set_buffer = buffer;
                db = apply_writes set'.writes s.db;
                commit_phase = true;
              },
            )
          ])

  unfoldable pub abort_update : ℕ → DatabaseImpl → Bool × DatabaseImpl
  abort_update tid s = (false, s)
