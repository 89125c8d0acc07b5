-- ===== src/Orm/Contract.antt =====
-- What the contract of orm_test_chaincode.cpp leaves in the read-write set.
use myblockchain.Prelude.{
  ℕ, ◌≡◌, refl, sym, subst, ◌∙◌, any, List, [], ◌∷◌, ◌++◌, Bool, true, false, Option, some, String,
  string_key, All, All-append, Bool-cases, inl, inr,
}
use myblockchain.Transaction.{KvRead, empty_rwset}
use myblockchain.Database.{LevelDb, select_db}
use myblockchain.Executor.{◌>>=◌}
use myblockchain.Orm.{
  ContractLibrary, OrmHelper, create_table, set_attribute, read_results, get_string, next,
  query_key, insert_key, init_func, create_data, update_keys, query_keys, correct_test,
  crdt_gcounter, mixed, invoke_chaincode, draw,
}

module _ (leveldb : LevelDb) (library : ContractLibrary) where
  open leveldb use {Db}

  abbrev read_of : String → Db → KvRead
  read_of col d = record {
    key = col;
    value = (select_db leveldb col "test_table" d).1;
    table = "test_table";
  }

  -- A query adds one read, of the value in the database.
  query_key_lem :
      (col : String) (d : Db) (h : OrmHelper)
      → query_key leveldb library col d h
        ≡ some (record h {
          rwset = record { reads = h.rwset.reads ++ (read_of col d ∷ []); writes = h.rwset.writes };
        })
  unfolding query_key read_results get_string next
  query_key_lem col d h = rw ((string_key.beq_iff col col).1 refl) refl

  -- Every read is of the table of the contract and has the value that the database holds.
  abbrev pub IsSound : Db → List KvRead → Type 0
  IsSound d = All (λ r. r ≡ read_of r.key d)

  -- The helper after a part of the contract.
  record Runs (d : Db) (o : Option OrmHelper) : Type 0 where
    helper : OrmHelper
    returns : o ≡ some helper
    sound : IsSound d helper.rwset.reads

  query_key-IsSound :
      (col : String) (d : Db) (h : OrmHelper)
      → IsSound d h.rwset.reads
      → Runs d (query_key leveldb library col d h)
  query_key-IsSound col d h s = record {
    helper = record h {
      rwset = record { reads = h.rwset.reads ++ (read_of col d ∷ []); writes = h.rwset.writes };
    };
    returns = query_key_lem col d h;
    sound = All-append (λ r. r ≡ read_of r.key d) h.rwset.reads (read_of col d ∷ []) s (refl, tt);
  }

  insert_key-reads :
      (key value : String) (h : OrmHelper)
      → (insert_key leveldb library key value h).rwset.reads ≡ h.rwset.reads
  unfolding insert_key set_attribute
  insert_key-reads key value h = refl

  update_keys-reads :
      (ks : List String) (h : OrmHelper)
      → (update_keys leveldb library ks h).rwset.reads ≡ h.rwset.reads
  unfolding update_keys
  update_keys-reads [] h = refl
  update_keys-reads (k ∷ ks) h =
      update_keys-reads ks _
      ∙ insert_key-reads k (library.random_string h.draws) (draw leveldb library h)

  query_keys-IsSound :
      (ks : List String) (d : Db) (h : OrmHelper)
      → IsSound d h.rwset.reads
      → Runs d (query_keys leveldb library ks d h)
  unfolding query_keys
  query_keys-IsSound [] d h s = record { helper = h; returns = refl; sound = s }
  query_keys-IsSound (k ∷ ks) d h s =
      let first = query_key-IsSound k d h s in
      let rest = query_keys-IsSound ks d first.helper first.sound in
      record {
        helper = rest.helper;
        returns = rw (query_keys, first.returns, ◌>>=◌) rest.returns;
        sound = rest.sound;
      }

  correct_test-IsSound :
      (arg : String) (d : Db) (h : OrmHelper)
      → IsSound d h.rwset.reads
      → Runs d (correct_test leveldb library arg d h)
  unfolding correct_test
  correct_test-IsSound arg d h s =
      let first = query_key-IsSound arg d h s in
      record {
        helper =
            insert_key leveldb library arg (library.random_string first.helper.draws)
              (draw leveldb library first.helper);
        returns = rw (correct_test, first.returns, ◌>>=◌) refl;
        sound =
            subst (IsSound d)
              (sym (
                insert_key-reads arg (library.random_string first.helper.draws)
                  (draw leveldb library first.helper)))
              first.sound;
      }

  crdt_gcounter-IsSound :
      (arg : String) (d : Db) (h : OrmHelper)
      → IsSound d h.rwset.reads
      → Runs d (crdt_gcounter leveldb library arg d h)
  unfolding crdt_gcounter
  crdt_gcounter-IsSound arg d h s =
      let (key, value) = library.parse_gcounter arg in
      let first = query_key-IsSound key d h s in
      record {
        helper = insert_key leveldb library key value first.helper;
        returns = rw (crdt_gcounter, first.returns, ◌>>=◌) refl;
        sound = subst (IsSound d) (sym (insert_key-reads key value first.helper)) first.sound;
      }

  mixed-IsSound :
      (arg : String) (d : Db) (h : OrmHelper)
      → IsSound d h.rwset.reads
      → Runs d (mixed leveldb library arg d h)
  unfolding mixed
  mixed-IsSound arg d h s =
      let (updates, reads) = library.parse_ycsb arg in
      query_keys-IsSound reads d (update_keys leveldb library updates h)
        (subst (IsSound d) (sym (update_keys-reads updates h)) s)

  init_func-reads : (h : OrmHelper) → (init_func leveldb library h).rwset.reads ≡ h.rwset.reads
  unfolding init_func create_table
  init_func-reads h = refl

  create_data-reads : (h : OrmHelper) → (create_data leveldb library h).rwset.reads ≡ h.rwset.reads
  unfolding create_data set_attribute
  create_data-reads h = refl

  -- The contracts by name.
  abbrev pub known : List String
  known = "correct_test" ∷ "create_table" ∷ "create_data" ∷ "crdt_gcounter" ∷ "mixed" ∷ []

  flagged :
      (d : Db) (o : Option OrmHelper)
      → Runs d o
      → (h : OrmHelper) × (◌>>=◌ {B = Bool × OrmHelper} o (λ h'. some (true, h')) ≡ some (true, h))
        × IsSound d h.rwset.reads
  flagged d o r = (r.helper, rw (r.returns, ◌>>=◌) refl, r.sound)

  -- For a helper whose reads so far have the values of the database, the contract returns, with
  -- success exactly under one of its five names, and again every read that it has recorded is of its
  -- table and has the value of the database, or the empty text where there is none.
  pub invoke_chaincode-IsSound :
      (name arg : String) (d : Db) (h : OrmHelper)
      → IsSound d h.rwset.reads
      → (h' : OrmHelper) × (invoke_chaincode leveldb library name arg d h
          ≡ some (any (λ k. string_key.beq name k) known, h'))
        × IsSound d h'.rwset.reads
  unfolding invoke_chaincode
  invoke_chaincode-IsSound name arg d h s = elim (Bool-cases (string_key.beq name "correct_test")) [
    | inl e1 ↦ rw e1 (flagged d _ (correct_test-IsSound arg d h s))
    | inr n1 ↦ elim (Bool-cases (string_key.beq name "create_table")) [
      | inl e2 ↦ rw (n1, e2) (_, refl, subst (IsSound d) (sym (init_func-reads h)) s)
      | inr n2 ↦ elim (Bool-cases (string_key.beq name "create_data")) [
        | inl e3 ↦ rw (n1, n2, e3) (_, refl, subst (IsSound d) (sym (create_data-reads h)) s)
        | inr n3 ↦ elim (Bool-cases (string_key.beq name "crdt_gcounter")) [
          | inl e4 ↦ rw (n1, n2, n3, e4) (flagged d _ (crdt_gcounter-IsSound arg d h s))
          | inr n4 ↦ elim (Bool-cases (string_key.beq name "mixed")) [
            | inl e5 ↦ rw (n1, n2, n3, n4, e5) (flagged d _ (mixed-IsSound arg d h s))
            | inr n5 ↦ rw (n1, n2, n3, n4, n5) (h, refl, s)
          ]
        ]
      ]
    ]
  ]

  -- The counter's contract on an empty read-write set reads its key once, with the value of the
  -- database, and writes the value of its payload under that key.
  pub crdt_gcounter_lem :
      (arg : String) (d : Db) (tid : ℕ)
      → let (key, value) = library.parse_gcounter arg in
        crdt_gcounter leveldb library arg d
          (record { tid = tid; rwset = empty_rwset; table_list = []; draws = 0 })
        ≡ some (record {
          tid = tid;
          rwset = record {
            reads =
                record {
                  key = key;
                  value = (select_db leveldb key "test_table" d).1;
                  table = "test_table";
                }
                ∷ [];
            writes =
                record { table = "test_table"; key = key; is_delete = false; value = value } ∷ [];
          };
          table_list = [];
          draws = 0;
        })
  unfolding crdt_gcounter insert_key set_attribute
  crdt_gcounter_lem arg d tid =
      let (key, value) = library.parse_gcounter arg in
      rw
        (
          crdt_gcounter,
          query_key_lem key d
              (record { tid = tid; rwset = empty_rwset; table_list = []; draws = 0 }),
          ◌>>=◌,
        )
        refl
