-- ===== src/Epochs.antt =====
-- How a batch of user requests gets its epoch: UserCollector::run of
-- src/block_server/comm/client_proxy/user_collector.cpp, the loop of src/epoch_server/epoch_server.cpp,
-- and verifyBatchHash of src/block_server/comm/client_proxy/comm_controller.cpp, by which the other
-- servers test the batch.
pub mod Batches
pub mod Times
pub mod Tampering
use myblockchain.Prelude.{
  ℕ, ◌+◌, ◌%◌, ◌≡◌, List, [], ◌∷◌, map, Bool, true, false, Option, none, some, leb, ◌==◌,
  if◌then◌else◌, ◌&&◌, length, String, string_key,
}
use myblockchain.HashMap.{update}
use myblockchain.Sha256.{Sha256, reset, hash, execute}
use myblockchain.Transaction.{TransactionPayload, MockTransaction, mock_transaction, set_epoch}
use myblockchain.Transaction.Wire.{Protobuf, to_uint32, deserialize_from_string}

-- What is called: the parsed user request (payload and digest) and payload, the test of a user's
-- digest, and the signature of the epoch server on an epoch, a batch hash and a nonce, with the test
-- that accepts it.
pub record EpochHelper : Type 0 where
  pub parse_request : String → String × String
  pub parse_payload : String → TransactionPayload
  pub user_signed : String → String → Bool
  pub rsa_encrypt : ℕ → String → ℕ → String
  pub rsa_decrypt : ℕ → String → ℕ → String → Bool
  pub decrypt-encrypt :
      (epoch : ℕ) (hash : String) (nonce : ℕ)
      → rsa_decrypt epoch hash nonce (rsa_encrypt epoch hash nonce) ≡ true

pub record EpochRequest : Type 0 where
  pub batch_hash : String
  pub request_batch_size : ℕ

pub record EpochResponse : Type 0 where
  pub request : EpochRequest
  pub epoch : ℕ
  pub nonce : ℕ
  pub signature : String

pub record EpochServer : Type 0 where
  pub epoch_size_map : ℕ → ℕ
  pub epoch_num : ℕ
  pub epoch_start_time : ℕ
  pub total_size : ℕ

-- Into a `size_t`.
abbrev pub to_uint64 : ℕ → ℕ
to_uint64 n = n % 18446744073709551616

abbrev pub time_gap : ℕ
time_gap = 1

abbrev pub epoch_server : ℕ → EpochServer
epoch_server now = record {
  epoch_size_map = λ e. 0;
  epoch_num = 1;
  epoch_start_time = now;
  total_size = 0;
}

module _ (helper : EpochHelper) where
  -- One round of the server's loop, with the clock at its two readings.
  unfoldable pub serve : ℕ → ℕ → EpochRequest → EpochServer → EpochResponse × EpochServer
  serve now later request s =
      let start = if s.epoch_size_map s.epoch_num == 0 then now else s.epoch_start_time in
      let total = to_uint64 (s.total_size + request.request_batch_size) in
      let nonce = to_uint32 total in
      (
        record {
          request = request;
          epoch = s.epoch_num;
          nonce = nonce;
          signature = helper.rsa_encrypt s.epoch_num request.batch_hash nonce;
        },
        record {
          epoch_size_map =
              update s.epoch_size_map s.epoch_num
                (to_uint64 (s.epoch_size_map s.epoch_num + request.request_batch_size));
          epoch_num =
              if leb (start + time_gap) later then to_uint32 (s.epoch_num + 1) else s.epoch_num;
          epoch_start_time = start;
          total_size = total;
        },
      )

  unfoldable pub serve_all :
      List (ℕ × ℕ × EpochRequest) → EpochServer → List EpochResponse × EpochServer
  serve_all [] s = ([], s)
  serve_all ((now, later, request) ∷ rest) s =
      let (response, s1) = serve now later request s in
      let (responses, s2) = serve_all rest s1 in (response ∷ responses, s2)

  unfoldable pub set_epochs : EpochResponse → List MockTransaction → List MockTransaction
  set_epochs response ts = map (set_epoch response.epoch) ts

  module _ (sha : Sha256) where
    open sha use {Context}

    -- The loop of the collector over the items of a batch, with the context of its hash helper; `none`
    -- is a failed CHECK.
    unfoldable pub collect : List String → Context → Option (List MockTransaction × Context)
    collect [] c = some ([], c)
    collect (item ∷ items) c =
        let (text, digest) = helper.parse_request item in
        let (hashed, c1) = hash sha c digest in
        let later = collect items c1 in
        if helper.user_signed text digest && hashed
        then (elim later [
          | none ↦ none
          | some (ts, c2) ↦ some (
            record mock_transaction {
              payload = record (helper.parse_payload text) { digest = digest };
            }
                ∷ ts,
            c2,
          )
        ])
        else none

    -- The request for a batch of this size, which goes into a field of 32 bits, and the context after its digest is taken.
    unfoldable pub request_of : ℕ → Context → EpochRequest × Context
    request_of item_size c =
        let (done, digest, c1) = execute sha c in
        (record { batch_hash = digest; request_batch_size = to_uint32 item_size }, c1)

    -- A round of the collector up to the request to the epoch server.
    unfoldable pub collect_batch :
        List String → Context → Option (List MockTransaction × EpochRequest × Context)
    collect_batch items c = elim (collect items c) [
      | none ↦ none
      | some (ts, c1) ↦ let (request, c2) = request_of (length items) c1 in some (ts, request, c2)
    ]

    module _ (protobuf : Protobuf)
        (wire_hash : List protobuf.Byte → Option (List protobuf.Byte)) where
      -- The digests of the transactions of a set go to the hash helper one by one; the flag of
      -- `deserializeFromString` is not looked at.
      unfoldable pub hash_transactions : List (List protobuf.Byte) → Context → Option Context
      hash_transactions [] c = some c
      hash_transactions (raw ∷ raws) c =
          elim (deserialize_from_string protobuf wire_hash raw mock_transaction) [
            | none ↦ none
            | some (flag, t) ↦ hash_transactions raws (hash sha c t.payload.digest).1
          ]

      -- The test of the batch hash and of the signature.
      unfoldable pub check_batch : EpochResponse → Context → Bool × Context
      check_batch response c =
          let (done, digest, c1) = execute sha c in
          if string_key.beq response.request.batch_hash digest
          then (
            helper.rsa_decrypt response.epoch response.request.batch_hash response.nonce
                response.signature,
            c1,
          )
          else (false, c1)

      unfoldable pub verify_batch_hash :
          List (List protobuf.Byte) → EpochResponse → Context → Option (Bool × Context)
      verify_batch_hash raws response c =
          if length raws == response.request.request_batch_size
          then (elim (hash_transactions raws (reset sha c).1) [
            | none ↦ none
            | some c1 ↦ some (check_batch response c1)
          ])
          else some (false, c)
