-- ===== src/Tests/Data.antt =====
-- Parameters for the tests: a LevelDB that is a function from keys, hash functions, a contract.
use myblockchain.Prelude.{
  ltb, ◌==◌, ℕ, zero, suc, refl, List, [], ◌∷◌, Bool, true, false, Option, none, some,
  if◌then◌else◌, String, string_key,
}
use myblockchain.Transaction.{
  KvRead, KvWrite, KvRwSet, MockTransaction, mock_transaction_of, TransactionResult,
}
use myblockchain.Manager.{TransactionManager}
use myblockchain.Database.{LevelDb, DatabaseImpl, database_impl}
use myblockchain.Executor.{Outcome, World}

abbrev pub function_db : LevelDb
function_db = record {
  Db = String → Option String;
  get = λ k d. d k;
  put = λ k v d j. if string_key.beq k j then some v else d j;
  delete = λ k d j. if string_key.beq k j then none else d j;
  get-put = λ k j v d. refl;
  get-delete = λ k j d. refl;
}

abbrev pub no_data : String → Option String
no_data k = none

abbrev pub text_hash : String → ℕ
text_hash s = 7

abbrev pub number_hash : ℕ → ℕ
number_hash n = n

abbrev pub read_of : String → KvRead
read_of key = record { key = key; value = ""; table = "test_table" }

abbrev pub write_of : String → String → KvWrite
write_of key value = record { table = "test_table"; key = key; is_delete = false; value = value }

abbrev pub reads_and_writes : String → String → KvRwSet
reads_and_writes from to = record { reads = read_of from ∷ []; writes = write_of to "1" ∷ [] }

-- A contract that reads "a" and writes "b", or the other way round for a transaction with a nonce.
abbrev pub swap_contract : MockTransaction → (String → Option String) → Outcome
swap_contract t d = record {
  succeeds = true;
  rwset = elim t.payload.nonce [
    | zero ↦ reads_and_writes "a" "b"
    | suc _ ↦ reads_and_writes "b" "a"
  ];
  tables = [];
}

abbrev pub never_weak : ℕ → Bool
never_weak n = false

abbrev pub new_database : DatabaseImpl function_db
new_database = database_impl function_db number_hash no_data

abbrev pub new_world : World function_db text_hash never_weak swap_contract
new_world = record { database = new_database; provided = none; kept = none }

abbrev pub two_transactions : List MockTransaction
two_transactions = mock_transaction_of 4 1 ∷ mock_transaction_of 4 2 ∷ []

-- Transactions 1 and 2 are of epoch 4; the others, 9 for one, of epoch 5. The first has been aborted.
abbrev pub small_heap : ℕ → MockTransaction
small_heap t = record (mock_transaction_of (if ltb t 9 then 4 else 5) t) {
  result = if t == 1 then TransactionResult.abort else TransactionResult.commit;
}

abbrev pub small_manager : TransactionManager
small_manager = record {
  epoch = 4;
  current_epoch_tr_wrapper = record { epoch = 4; transaction_list = 1 ∷ 2 ∷ [] };
  next_epoch_tr_wrapper = record { epoch = 5; transaction_list = 9 ∷ [] };
}
