-- ===== src/Tests/Random.antt =====
-- Random numbers and the communication stub at concrete inputs.
use Prim.Native.Char.{Char}
use myblockchain.Prelude.{ℕ, ◌+◌, ◌≤◌, ◌<◌, ◌≡◌, List, some, true, arith, length, All}
use myblockchain.Random.{init_seed, get_elem?, alpha, a_string, a_string_lem}
use myblockchain.Transaction.Wire.{to_uint32}
use myblockchain.Transaction.Wrapper.{TransactionWrapper, transaction_wrapper}
use myblockchain.Comm.Stub.{
  CommStub, comm_stub, StubLibrary, epoch_max_tr_num, get_transaction, Made, get_transaction-Made,
}

a_string_lem_example :
    (text : List Char) × (seed1 : ℕ) × (a_string true 3 9 (init_seed 0) ≡ some (text, seed1))
    × (3 ≤ length text)
    × (length text ≤ 9)
    × All (λ c. (i : ℕ) × (get_elem? alpha i ≡ some c)) text
a_string_lem_example = a_string_lem true 3 9 (init_seed 0) (omega arith) (omega arith)

abbrev small_library : StubLibrary
small_library = record { gcounter_payload = "lhx"; time = λ a. 1644537600 + a }

-- A stub with 100 transactions made in its epoch.
abbrev busy_stub : CommStub
busy_stub = record (comm_stub 3) { epoch_tr_sent_num = 100; tid_nonce = 101; next_address = 100 }

get_transaction-Made_example :
    (w : TransactionWrapper) × (s1 s2 : CommStub) × (get_transaction small_library 4 500 20
        busy_stub
      ≡ some (some w, s2))
    × Made small_library 10 (transaction_wrapper 4) busy_stub w s1
    × (s2.heap ≡ s1.heap)
    × (100 + 10 ≡ epoch_max_tr_num → (s2.epoch ≡ to_uint32 5) × (s2.epoch_tr_sent_num ≡ 0))
    × (100 + 10 < epoch_max_tr_num → (s2.epoch ≡ 4) × (s2.epoch_tr_sent_num ≡ 110))
get_transaction-Made_example =
    get_transaction-Made small_library 4 500 20 busy_stub (omega arith) (omega arith) (omega arith)
