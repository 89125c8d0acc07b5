-- ===== src/Database/CommitList.antt =====
-- The commit of a list of transactions at once: commitUpdate with a list, of
-- src/block_server/database/impl/database_impl.cpp. It adds the written numbers to the read ones.
pub mod Counts
pub mod Totals
use myblockchain.Prelude.{
  List, [], ◌∷◌, Bool, true, Option, none, some, if◌then◌else◌, is_some, String, string_key,
  nat_key,
}
use myblockchain.HashMap.{index}
use myblockchain.HashMap.Bucket.{find, put}
use myblockchain.Transaction.{KvRead, KvWrite, MockTransaction}
use myblockchain.Database.{LevelDb, DatabaseImpl, update_write_set}

-- `result`: a map from keys to texts.
abbrev pub ResultMap : Type 0
ResultMap = List (String × String)

unfoldable pub add_reads : List KvRead → ResultMap → ResultMap
add_reads [] result = result
add_reads (r ∷ rs) result = add_reads rs (
    if is_some (find r.key result)
    then result
    else put r.key (if string_key.beq r.value "" then "0" else r.value) result)

-- `add_text a b` is std::to_string(std::stoi(a) + std::stoi(b)), or `none` for an exception.
module _ (leveldb : LevelDb) (add_text : String → String → Option String) where
  unfoldable pub add_writes : List KvWrite → ResultMap → Option ResultMap
  add_writes [] result = some result
  add_writes (w ∷ ws) result =
      let known = if is_some (find w.key result) then result else put w.key "0" result in
      elim (find w.key known) [
        | none ↦ none
        | some old ↦ elim (add_text old w.value) [
          | none ↦ none
          | some sum ↦ add_writes ws (put w.key sum known)
        ]
      ]

  -- The loop over the transactions; a buffer that is missing is a null pointer.
  unfoldable pub merge :
      List MockTransaction
      → DatabaseImpl leveldb
      → ResultMap
      → Option (DatabaseImpl leveldb × ResultMap)
  merge [] s result = some (s, result)
  merge (t ∷ ts) s result =
      let (set, buffer) = index none t.tid s.rw_set_buffer in
      elim set [
        | none ↦ none
        | some set' ↦ elim (add_writes set'.writes (add_reads set'.reads result)) [
          | none ↦ none
          | some result' ↦ merge ts (record s { rw_set_buffer = buffer }) result'
        ]
      ]

  unfoldable pub store : ResultMap → leveldb.Db → leveldb.Db
  store [] d = d
  store ((key, text) ∷ rest) d = store rest (update_write_set leveldb key text "test_table" d)

  unfoldable pub commit_update_list :
      List MockTransaction → DatabaseImpl leveldb → Option (Bool × DatabaseImpl leveldb)
  commit_update_list ts s = if s.commit_phase then some (true, s) else (elim (merge ts s []) [
    | none ↦ none
    | some (s', result) ↦ some (true, record s' { db = store result s.db; commit_phase = true })
  ])
