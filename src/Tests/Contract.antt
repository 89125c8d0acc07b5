-- ===== src/Tests/Contract.antt =====
-- The contract on a small database.
use myblockchain.Prelude.{
  ◌≡◌, [], ◌∷◌, false, Option, none, some, any, if◌then◌else◌, String, string_key,
}
use myblockchain.Transaction.{mock_transaction}
use myblockchain.Orm.{ContractLibrary, OrmHelper, crdt_gcounter, invoke_chaincode, chaincode_object}
use myblockchain.Orm.Contract.{IsSound, known, invoke_chaincode-IsSound, crdt_gcounter_lem}
use myblockchain.Tests.Data.{function_db}

abbrev small_library : ContractLibrary
small_library = record {
  place_holder = λ tid. "place holder";
  parse_gcounter = λ text. (text, "1");
  parse_ycsb = λ text. (text ∷ [], text ∷ []);
  random_string = λ n. "abcdefghij";
}

abbrev one_entry : String → Option String
one_entry k = if string_key.beq k "lhx" then some "10" else none

abbrev new_helper : OrmHelper
new_helper = chaincode_object function_db small_library mock_transaction

invoke_chaincode-IsSound_example :
    (h : OrmHelper) × (invoke_chaincode function_db small_library "mixed" "lhx" one_entry new_helper
      ≡ some (any (λ k. string_key.beq "mixed" k) (known function_db small_library), h))
    × IsSound function_db small_library one_entry h.rwset.reads
invoke_chaincode-IsSound_example =
    invoke_chaincode-IsSound function_db small_library "mixed" "lhx" one_entry new_helper tt

crdt_gcounter_lem_example :
    crdt_gcounter function_db small_library "lhx" one_entry new_helper
    ≡ some (record {
      tid = 0;
      rwset = record {
        reads = record { key = "lhx"; value = "10"; table = "test_table" } ∷ [];
        writes = record { table = "test_table"; key = "lhx"; is_delete = false; value = "1" } ∷ [];
      };
      table_list = [];
      draws = 0;
    })
crdt_gcounter_lem_example = crdt_gcounter_lem function_db small_library "lhx" one_entry 0
