-- ===== src/Transaction.antt =====
-- A transaction and its parts: include/proto/kv_rwset.proto and transaction.proto,
-- src/block_server/transaction/mock/mock_transaction.cpp. The wire format is in Transaction/Wire.
pub mod Wrapper
pub mod Wire
use myblockchain.Prelude.{ℕ, ◌≡◌, refl, List, [], ◌∷◌, Bool, true, false, String}

-- The fields that the program sets or reads.
pub record KvRead : Type 0 where
  pub key : String
  pub value : String
  pub table : String

pub record KvWrite : Type 0 where
  pub table : String
  pub key : String
  pub is_delete : Bool
  pub value : String

pub record KvRwSet : Type 0 where
  pub reads : List KvRead
  pub writes : List KvWrite

abbrev pub empty_rwset : KvRwSet
empty_rwset = record { reads = []; writes = [] }

-- The header that declares this enumeration is not in the repository: these are its values in use.
pub data TransactionResult : Type 0 where
  pending abort commit abort_no_retry : TransactionResult

pub record TransactionPayload : Type 0 where
  pub header : String
  pub payload : String
  pub nonce : ℕ
  pub digest : String

abbrev pub empty_payload : TransactionPayload
empty_payload = record { header = ""; payload = ""; nonce = 0; digest = "" }

pub record MockTransaction : Type 0 where
  pub epoch : ℕ
  pub tid : ℕ
  pub result : TransactionResult
  pub payload : TransactionPayload
  pub rwset : KvRwSet

-- The two constructors.
abbrev pub mock_transaction_of : ℕ → ℕ → MockTransaction
mock_transaction_of epoch tid = record {
  epoch = epoch;
  tid = tid;
  result = TransactionResult.pending;
  payload = empty_payload;
  rwset = empty_rwset;
}

abbrev pub mock_transaction : MockTransaction
mock_transaction = mock_transaction_of 0 0

abbrev pub set_epoch : ℕ → MockTransaction → MockTransaction
set_epoch epoch t = record t { epoch = epoch }

abbrev pub set_transaction_id : ℕ → MockTransaction → MockTransaction
set_transaction_id tid t = record t { tid = tid }

abbrev pub set_transaction_result : TransactionResult → MockTransaction → MockTransaction
set_transaction_result r t = record t { result = r }

abbrev pub reset_rwset : MockTransaction → MockTransaction
reset_rwset t = record t { rwset = empty_rwset }

abbrev pub reset_transaction_payload : MockTransaction → MockTransaction
reset_transaction_payload t = record t { payload = empty_payload }

-- Back to a transaction that has not run: the id and the payload stay.
unfoldable pub reset_transaction : MockTransaction → MockTransaction
reset_transaction t = record t {
  epoch = 0;
  rwset = empty_rwset;
  result = TransactionResult.pending;
}

unfoldable pub is_read_only : MockTransaction → Bool
is_read_only t = elim t.rwset.writes [ [] ↦ true | _ ↦ false ]
