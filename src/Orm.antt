-- ===== src/Orm.antt =====
-- The object-relational layer that a smart contract sees, and the contract of the repository:
-- src/block_server/database/orm/cc_orm_helper.cpp, impl/insert_impl.cpp, impl/query_impl.cpp and
-- impl/level_db_results_iterator.cpp below it, and src/block_server/worker/impl/orm_test_chaincode.cpp.
pub mod Contract
pub mod Table
use myblockchain.Prelude.{
  ℕ, zero, suc, ◌+◌, List, [], ◌∷◌, ◌++◌, Bool, true, false, not, Option, none, some, ◌==◌, any,
  if◌then◌else◌, String, string_key,
}
use myblockchain.Transaction.{KvRead, KvWrite, KvRwSet, MockTransaction}
use myblockchain.Database.{LevelDb, TableNames, select_db}
use myblockchain.Executor.{Outcome, ◌>>=◌}

-- What the contract calls: the text of a table's place holder, the parsed payloads (the counter's key
-- and its value as a text; the keys of the updates and of the reads), and the texts drawn at random.
pub record ContractLibrary : Type 0 where
  pub place_holder : ℕ → String
  pub parse_gcounter : String → String × String
  pub parse_ycsb : String → List String × List String
  pub random_string : ℕ → String

-- The helper, with the number of texts drawn so far.
pub record OrmHelper : Type 0 where
  pub tid : ℕ
  pub rwset : KvRwSet
  pub table_list : TableNames
  pub draws : ℕ

unfoldable pub create_table : ContractLibrary → String → OrmHelper → OrmHelper
create_table library table h = record h {
  rwset = record {
    reads = h.rwset.reads;
    writes =
        h.rwset.writes
        ++ (record {
          table = "aria_sys_table";
          key = table;
          is_delete = false;
          value = library.place_holder h.tid;
        }
            ∷ []);
  };
  table_list = h.table_list ++ (table ∷ []);
}

pub record InsertImpl : Type 0 where
  pub key : String
  pub table : String

abbrev pub new_insert : String → InsertImpl
new_insert table = record { key = ""; table = table }

-- `set` with a text: the flag, the object and the helper.
unfoldable pub set_attribute :
    String → String → InsertImpl → OrmHelper → Bool × InsertImpl × OrmHelper
set_attribute attr value insert h =
    if string_key.beq attr "key"
    then (true, record insert { key = value }, h)
    else (if string_key.beq attr "value"
        then (
          true,
          insert,
          record h {
            rwset = record {
              reads = h.rwset.reads;
              writes =
                  h.rwset.writes
                  ++ (record {
                    table = insert.table;
                    key = insert.key;
                    is_delete = false;
                    value = value;
                  }
                      ∷ []);
            };
          },
        )
        else (false, insert, h))

pub record ResultsIterator : Type 0 where
  pub key : String
  pub value : String
  pub table : String
  pub index : ℕ
  pub read_keys : List String

-- `return 1 - index` as a truth value.
abbrev pub has_next : ResultsIterator → Bool
has_next r = not (r.index == 1)

unfoldable pub next : ResultsIterator → Bool × ResultsIterator
next r = if has_next r then (true, record r { index = r.index + 1 }) else (false, r)

-- The first call puts the key with its value into the read set.
unfoldable pub get_string :
    String → ResultsIterator → OrmHelper → String × ResultsIterator × OrmHelper
get_string attr r h =
    let seen = any (λ k. string_key.beq k r.key) r.read_keys in
    let r' = if seen then r else record r { read_keys = r.key ∷ r.read_keys } in
    let h' = if seen then h else record h {
      rwset = record {
        reads = h.rwset.reads ++ (record { key = r.key; value = r.value; table = r.table } ∷ []);
        writes = h.rwset.writes;
      };
    } in
    (if string_key.beq attr "key" then r.key else r.value, r', h')

-- `executeQuery` after a filter on the key.
abbrev pub execute_query : (leveldb : LevelDb) → String → String → leveldb.Db → ResultsIterator
execute_query leveldb col table d = record {
  key = (select_db leveldb col table d).0;
  value = (select_db leveldb col table d).1;
  table = table;
  index = 0;
  read_keys = [];
}

-- `for (...; r->hasNext(); r->next())` with the key and the value asked for in the body, in rounds.
unfoldable pub read_results : ℕ → ResultsIterator → OrmHelper → Option OrmHelper
read_results zero r h = none
read_results (suc rounds) r h =
    let (_, r1, h1) = get_string "key" r h in
    let (_, r2, h2) = get_string "value" r1 h1 in
    let later = read_results rounds (next r2).1 h2 in if has_next r then later else some h

module _ (leveldb : LevelDb) (library : ContractLibrary) where
  open leveldb use {Db}

  unfoldable pub query_key : String → Db → OrmHelper → Option OrmHelper
  query_key col d h = read_results 2 (execute_query leveldb col "test_table" d) h

  -- A new insert object, its key and its value.
  unfoldable pub insert_key : String → String → OrmHelper → OrmHelper
  insert_key key value h =
      let (_, insert, h1) = set_attribute "key" key (new_insert "test_table") h in
      (set_attribute "value" value insert h1).2

  -- The fields of the table go to its definition, which the storage does not use.
  unfoldable pub init_func : OrmHelper → OrmHelper
  init_func h = create_table library "test_table" h

  unfoldable pub create_data : OrmHelper → OrmHelper
  create_data h =
      let (_, i1, h1) = set_attribute "key" "lhx" (new_insert "test_table") h in
      let (_, i2, h2) = set_attribute "value" "10" i1 h1 in
      let (_, i3, h3) = set_attribute "key" "chw" i2 h2 in
      let (_, i4, h4) = set_attribute "value" "20" i3 h3 in
      let (_, i5, h5) = set_attribute "key" "wyt" i4 h4 in (set_attribute "value" "30" i5 h5).2

  abbrev pub draw : OrmHelper → OrmHelper
  draw h = record h { draws = h.draws + 1 }

  unfoldable pub update_keys : List String → OrmHelper → OrmHelper
  update_keys [] h = h
  update_keys (k ∷ ks) h = update_keys ks (insert_key k (library.random_string h.draws) (draw h))

  unfoldable pub query_keys : List String → Db → OrmHelper → Option OrmHelper
  query_keys [] d h = some h
  query_keys (k ∷ ks) d h = query_key k d h >>= λ h'. query_keys ks d h'

  unfoldable pub correct_test : String → Db → OrmHelper → Option OrmHelper
  correct_test arg d h =
      query_key arg d h >>= λ h'. some (insert_key arg (library.random_string h'.draws) (draw h'))

  unfoldable pub crdt_gcounter : String → Db → OrmHelper → Option OrmHelper
  crdt_gcounter arg d h =
      let (key, value) = library.parse_gcounter arg in
      query_key key d h >>= λ h'. some (insert_key key value h')

  unfoldable pub mixed : String → Db → OrmHelper → Option OrmHelper
  mixed arg d h =
      let (updates, reads) = library.parse_ycsb arg in query_keys reads d (update_keys updates h)

  -- `InvokeChaincode` with one argument, as the executor calls it; the flag says that it succeeded.
  unfoldable pub invoke_chaincode : String → String → Db → OrmHelper → Option (Bool × OrmHelper)
  invoke_chaincode name arg d h =
      if string_key.beq name "correct_test"
      then (correct_test arg d h >>= λ h'. some (true, h'))
      else (if string_key.beq name "create_table"
          then some (true, init_func h)
          else (if string_key.beq name "create_data"
              then some (true, create_data h)
              else (if string_key.beq name "crdt_gcounter"
                  then (crdt_gcounter arg d h >>= λ h'. some (true, h'))
                  else (if string_key.beq name "mixed"
                      then (mixed arg d h >>= λ h'. some (true, h'))
                      else some (false, h)))))

  -- The contract object of a transaction, whose read-write set is to be empty.
  abbrev pub chaincode_object : MockTransaction → OrmHelper
  chaincode_object t = record { tid = t.tid; rwset = t.rwset; table_list = []; draws = 0 }
