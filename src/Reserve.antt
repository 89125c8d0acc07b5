-- ===== src/Reserve.antt =====
-- The reserve table of an epoch: src/block_server/reserve_table/mock/mock_reserve_table.cpp, and
-- the provider in reserve_table.cpp. The tables are HashMaps of HashMaps of atomic transaction ids.
pub mod Cell
pub mod Tables
pub mod Batch
pub mod Order
pub mod Race
use myblockchain.Prelude.{
  ℕ, zero, suc, ◌+◌, ◌-◌, List, [], ◌∷◌, Bool, true, false, not, ◌&&◌, Option, none, some, ◌==◌,
  ltb, leb, if◌then◌else◌, String, string_key,
}
use myblockchain.HashMap.{HashMap, empty, index, assign}
use myblockchain.Transaction.{KvRead, KvWrite, KvRwSet}

-- A table of reservations: key to the id of the transaction that holds it, 0 for none.
abbrev pub Table : Type 0
Table = HashMap 997 String ℕ

abbrev pub TableList : Type 0
TableList = HashMap 997 String Table

pub record ReserveTable : Type 0 where
  pub epoch : ℕ
  pub read_table_list : TableList
  pub write_table_list : TableList

-- `hasher` is std::hash<std::string>.
abbrev pub mock_reserve_table : (String → ℕ) → ℕ → ReserveTable
mock_reserve_table hasher epoch = record {
  epoch = epoch;
  read_table_list = empty hasher;
  write_table_list = empty hasher;
}

pub record TransactionDependency : Type 0 where
  pub raw : Bool
  pub waw : Bool
  pub war : Bool

-- The do-while loop on one cell. `weak i` says that the weak compare-exchange fails spuriously in the
-- round with `i` rounds left; `none` means that the rounds ran out.
unfoldable pub reserve_loop : ℕ → (ℕ → Bool) → ℕ → ℕ → Option ℕ
reserve_loop zero weak tid cell = none
reserve_loop (suc rounds) weak tid cell =
    let old = cell in
    let stored = tid in
    let again = reserve_loop rounds weak tid stored in
    if leb old tid && not (old == 0)
    then some cell
    else (if stored == old && not (weak rounds) then some tid else again)

-- `readTableList[table]` as a reference: the table with its inner table put in place if it is missing.
unfoldable pub table_of : String → TableList → Table × TableList
table_of table tables = index (empty tables.hasher) table tables

-- One reservation: the loop reads and writes the cell of the key in the inner table.
unfoldable pub reserve_key : ℕ → (ℕ → Bool) → ℕ → String → String → TableList → Option TableList
unfolding table_of
reserve_key rounds weak tid table key tables =
    let (inner, tables') = table_of table tables in
    let (cell, inner') = index 0 key inner in
    elim (reserve_loop rounds weak tid cell) [
      | none ↦ none
      | some cell' ↦ some (assign table (assign key cell' inner') tables')
    ]

unfoldable pub reserve_keys :
    ℕ → (ℕ → Bool) → ℕ → List (String × String) → TableList → Option TableList
reserve_keys rounds weak tid [] tables = some tables
reserve_keys rounds weak tid ((table, key) ∷ rest) tables =
    elim (reserve_key rounds weak tid table key tables) [
      | none ↦ none
      | some tables' ↦ reserve_keys rounds weak tid rest tables'
    ]

-- The places that a transaction reads and writes, as (table, key).
abbrev pub read_places : List KvRead → List (String × String)
read_places [] = []
read_places (r ∷ rs) = (r.table, r.key) ∷ read_places rs

abbrev pub write_places : List KvWrite → List (String × String)
write_places [] = []
write_places (w ∷ ws) = (w.table, w.key) ∷ write_places ws

pub reserve_rwset : ℕ → (ℕ → Bool) → KvRwSet → ℕ → ReserveTable → Option ReserveTable
reserve_rwset rounds weak set tid t =
    elim (reserve_keys rounds weak tid (read_places set.reads) t.read_table_list) [
      | none ↦ none
      | some reads ↦
          elim (reserve_keys rounds weak tid (write_places set.writes) t.write_table_list) [
            | none ↦ none
            | some writes ↦ some (record t { read_table_list = reads; write_table_list = writes })
          ]
    ]

-- One of the three loops of `dependencyAnalysis`: whether a place is held by a smaller transaction,
-- up to the first that is. A look-up leaves a default cell behind.
unfoldable pub held_before : ℕ → List (String × String) → TableList → Bool × TableList
unfolding table_of
held_before tid [] tables = (false, tables)
held_before tid ((table, key) ∷ rest) tables =
    let (inner, tables') = table_of table tables in
    let (old, inner') = index 0 key inner in
    let seen = assign table inner' tables' in
    let later = held_before tid rest seen in
    if not (old == 0) && ltb old tid then (true, seen) else later

pub dependency_analysis : KvRwSet → ℕ → ReserveTable → TransactionDependency × ReserveTable
dependency_analysis set tid t =
    let (waw, writes) = held_before tid (write_places set.writes) t.write_table_list in
    let (war, reads) = held_before tid (write_places set.writes) t.read_table_list in
    let (raw, writes') = held_before tid (read_places set.reads) writes in
    (
      record { raw = raw; waw = waw; war = war },
      record t { read_table_list = reads; write_table_list = writes' },
    )

-- `ReserveTableProvider::getHashMapReserveTable`: one table for each epoch. The flag says that a
-- table was made, and the former one dropped.
unfoldable pub get_reserve_table : (String → ℕ) → ℕ → Option ReserveTable → ReserveTable × Bool
get_reserve_table hasher epoch none = (mock_reserve_table hasher epoch, true)
get_reserve_table hasher epoch (some t) =
    if t.epoch == epoch then (t, false) else (mock_reserve_table hasher epoch, true)
