-- ===== src/Reserve/Tables.antt =====
-- What the nested tables of mock_reserve_table.cpp hold, as a function of table and key.
use myblockchain.Prelude.{
  ℕ, suc, ◌≡◌, refl, ◌≢◌, ◌∙◌, ap, List, [], ◌∷◌, Bool, ◌&&◌, ◌||◌, none, some, arith, ltb,
  if◌then◌else◌, String, string_key, any, any-congr,
}
use myblockchain.HashMap.{empty, index, assign, lookup}
use myblockchain.HashMap.Laws.{lookup-empty, lookup-assign, index_value, lookup-index}
use myblockchain.Reserve.{Table, TableList, table_of, reserve_key, reserve_keys, held_before}
use myblockchain.Reserve.Cell.{claim, held, held-claim, reserve_loop-claim}

abbrev pub same_text : String → String → Bool
same_text = string_key.beq

-- The id in the cell of a key of a table, 0 if there is no cell.
pub reserved : TableList → String → String → ℕ
reserved tables table key = elim (lookup table tables) [
  | none ↦ 0
  | some inner ↦ elim (lookup key inner) [ none ↦ 0 | some tid ↦ tid ]
]

pub reserved-empty :
    (hasher : String → ℕ) (table key : String) → reserved (empty hasher) table key ≡ 0
unfolding reserved
reserved-empty hasher table key = rw (lookup-empty 997 Table hasher table, reserved)

-- A place is a table and a key.
abbrev pub same_place : String × String → String → String → Bool
same_place (table, key) tb k = same_text table tb && same_text key k

-- The cell that `tables[table][key]` denotes, read and written through the reference.
abbrev cell_of : String → String → TableList → ℕ
cell_of table key tables = (index 0 key (table_of table tables).0).0

abbrev write_cell : String → String → ℕ → TableList → TableList
write_cell table key c tables =
    assign table (assign key c (index 0 key (table_of table tables).0).1) (table_of table tables).1

cell_of-reserved :
    (table key : String) (tables : TableList) → cell_of table key tables ≡ reserved tables table key
unfolding table_of reserved
cell_of-reserved table key tables = ground (
  arith,
  index_value (empty tables.hasher) table tables,
  index_value 0 key (index (empty tables.hasher) table tables).0,
  lookup-empty 997 ℕ tables.hasher key,
)

reserved-write_cell :
    (table key tb k : String) (c : ℕ) (tables : TableList)
    → reserved (write_cell table key c tables) tb k
      ≡ (if same_place (table, key) tb k then c else reserved tables tb k)
unfolding table_of reserved
reserved-write_cell table key tb k c tables = ground (
  arith,
  string_key.beq_iff table tb,
  string_key.beq_iff key k,
  index_value (empty tables.hasher) table tables,
  lookup-index (empty tables.hasher) table tb tables,
  lookup-assign table tb (assign key c (index 0 key (index (empty tables.hasher) table tables).0).1)
      (index (empty tables.hasher) table tables).1,
  lookup-assign key k c (index 0 key (index (empty tables.hasher) table tables).0).1,
  lookup-index 0 key k (index (empty tables.hasher) table tables).0,
  lookup-empty 997 ℕ tables.hasher k,
)

-- Some place of the list is this table and key.
abbrev pub touches : String → String → List (String × String) → Bool
touches tb k = any (λ p. same_place p tb k)

reserve_key-claim :
    (rounds : ℕ) (weak : ℕ → Bool) (tid : ℕ) (table key : String) (tables : TableList)
    → tid ≢ 0
    → reserve_key (suc (suc rounds)) weak tid table key tables
      ≡ some (write_cell table key (claim tid (cell_of table key tables)) tables)
unfolding reserve_key
reserve_key-claim rounds weak tid table key tables h =
    rw (reserve_loop-claim rounds weak tid (cell_of table key tables) h, reserve_key)

-- What stands in a cell after the places are reserved one by one.
pub claimed : ℕ → String → String → List (String × String) → ℕ → ℕ
claimed tid tb k [] old = old
claimed tid tb k (p ∷ ps) old =
    claimed tid tb k ps (if same_place p tb k then claim tid old else old)

-- The reserved id at a place after the cell of another, or the same, is claimed.
reserved-claim_cell :
    (tid : ℕ) (table key : String) (tables : TableList) (tb k : String)
    → reserved (write_cell table key (claim tid (cell_of table key tables)) tables) tb k ≡ (
        if same_place (table, key) tb k
        then claim tid (reserved tables tb k)
        else reserved tables tb k)
reserved-claim_cell tid table key tables tb k = ground (
  arith,
  reserved-write_cell table key tb k (claim tid (cell_of table key tables)) tables,
  cell_of-reserved table key tables,
  string_key.beq_iff table tb,
  string_key.beq_iff key k,
)

pub reserve_keys_lem :
    (rounds : ℕ) (weak : ℕ → Bool) (tid : ℕ) (ps : List (String × String)) (tables : TableList)
    → tid ≢ 0
    → (after : TableList) × (reserve_keys (suc (suc rounds)) weak tid ps tables ≡ some after)
      × ((tb k : String) → reserved after tb k ≡ claimed tid tb k ps (reserved tables tb k))
unfolding reserve_keys claimed
reserve_keys_lem rounds weak tid [] tables h = (tables, refl, λ tb k. refl)
reserve_keys_lem rounds weak tid ((table, key) ∷ ps) tables h =
    let next = write_cell table key (claim tid (cell_of table key tables)) tables in
    let (after, runs, holds) = reserve_keys_lem rounds weak tid ps next h in
    (
      after,
      rw (reserve_key-claim rounds weak tid table key tables h, reserve_keys) runs,
      λ tb k. holds tb k ∙ ap (claimed tid tb k ps) (reserved-claim_cell tid table key tables tb k),
    )

pub held-claimed :
    (tid m : ℕ) (tb k : String) (ps : List (String × String)) (old : ℕ)
    → tid ≢ 0
    → held (claimed tid tb k ps old) m ≡ (ltb tid m && touches tb k ps || held old m)
unfolding claimed
held-claimed tid m tb k [] old h = ground arith
held-claimed tid m tb k (p ∷ ps) old h = ground (
  arith,
  held-claimed tid m tb k ps (if same_place p tb k then claim tid old else old) h,
  held-claim tid old m h,
)

-- A look-up through `[]` leaves a cell behind, and no reservation changes.
abbrev look_up : String → String → TableList → TableList
look_up table key tables =
    assign table (index 0 key (table_of table tables).0).1 (table_of table tables).1

reserved-look_up :
    (table key tb k : String) (tables : TableList)
    → reserved (look_up table key tables) tb k ≡ reserved tables tb k
unfolding table_of reserved
reserved-look_up table key tb k tables = ground (
  arith,
  string_key.beq_iff table tb,
  string_key.beq_iff key k,
  index_value (empty tables.hasher) table tables,
  index_value 0 key (index (empty tables.hasher) table tables).0,
  lookup-index (empty tables.hasher) table tb tables,
  lookup-assign table tb (index 0 key (index (empty tables.hasher) table tables).0).1
      (index (empty tables.hasher) table tables).1,
  lookup-index 0 key k (index (empty tables.hasher) table tables).0,
  lookup-empty 997 ℕ tables.hasher k,
)

any-held-look_up :
    (table key : String) (tables : TableList) (m : ℕ) (ps : List (String × String))
    → any (λ p. held (reserved (look_up table key tables) p.0 p.1) m) ps
      ≡ any (λ p. held (reserved tables p.0 p.1) m) ps
any-held-look_up table key tables m ps =
    any-congr (λ p. ap (λ r. held r m) (reserved-look_up table key p.0 p.1 tables)) ps

-- The scan of `dependencyAnalysis` asks whether a place is held by a smaller transaction, and leaves
-- every reservation as it was.
pub held_before_lem :
    (tid : ℕ) (ps : List (String × String)) (tables : TableList)
    → ((held_before tid ps tables).0 ≡ any (λ p. held (reserved tables p.0 p.1) tid) ps)
      × ((tb k : String) → reserved (held_before tid ps tables).1 tb k ≡ reserved tables tb k)
unfolding held_before
held_before_lem tid [] tables = (refl, λ tb k. refl)
held_before_lem tid ((table, key) ∷ ps) tables =
    let later = held_before_lem tid ps (look_up table key tables) in
    (
      ground (
        arith,
        later.0,
        any-held-look_up table key tables tid ps,
        cell_of-reserved table key tables,
      ),
      λ tb k. ground (arith, later.1 tb k, reserved-look_up table key tb k tables),
    )
