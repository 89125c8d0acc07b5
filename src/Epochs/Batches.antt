-- ===== src/Epochs/Batches.antt =====
-- The way of an honest batch from the collector (user_collector.cpp) over the epoch server to the test
-- at another server.
use myblockchain.Prelude.{
  ℕ, suc, ◌≡◌, ◌<◌, arith, refl, ap, ◌∙◌, List, [], ◌∷◌, map, true, Option, some, ==_iff, length,
  String, string_key, All,
}
use myblockchain.Transaction.{MockTransaction, TransactionResult, mock_transaction, set_epoch}
use myblockchain.Transaction.Wire.{
  Protobuf, to_uint32, Fits, body, sha256_hash_size, serialize_to_string, deserialize_from_string,
  deserialize-serialize,
}
use myblockchain.Sha256.{Sha256, reset, hash, execute, hash-Holds, hash_all, hash_all-Holds, last}
use myblockchain.Epochs.{
  EpochHelper, EpochRequest, EpochServer, serve, collect, request_of, set_epochs, collect_batch,
  hash_transactions, check_batch, verify_batch_hash,
}

module _ (helper : EpochHelper) where
  abbrev pub digest_of_item : String → String
  digest_of_item item = (helper.parse_request item).1

  -- The transactions of a batch.
  abbrev pub collected : List String → List MockTransaction
  collected items =
      map
        (λ item. record mock_transaction {
          payload = record (helper.parse_payload (helper.parse_request item).0) {
            digest = (helper.parse_request item).1;
          };
        })
        items

  module _ (sha : Sha256) where
    collect_lem :
        (items : List String) (c : sha.Context)
        → All
            (λ item.
              helper.user_signed (helper.parse_request item).0 (helper.parse_request item).1 ≡ true)
            items
        → collect helper sha items c
          ≡ some (collected items, hash_all sha c (map digest_of_item items))
    unfolding collect
    collect_lem [] c v = refl
    collect_lem (item ∷ items) c v =
        let digest = (helper.parse_request item).1 in
        rw (collect, v.0, (hash-Holds sha c digest).0, collect_lem items (hash sha c digest).1 v.1)
          refl

  digests_lem :
      (epoch : ℕ) (items : List String)
      → map (λ t. t.payload.digest) (map (set_epoch epoch) (collected items))
        ≡ map digest_of_item items
  digests_lem epoch [] = refl
  digests_lem epoch (item ∷ items) =
      ap (◌∷◌ (helper.parse_request item).1) (digests_lem epoch items)

  pub length-map : {A B : Type 0} (f : A → B) (xs : List A) → length (map f xs) ≡ length xs
  length-map f [] = refl
  length-map f (x ∷ xs) = ap suc (length-map f xs)

  module _ (protobuf : Protobuf)
      (wire_hash : List protobuf.Byte → Option (List protobuf.Byte)) where
    abbrev pub raw_of : MockTransaction → List protobuf.Byte
    raw_of t = (serialize_to_string protobuf wire_hash t).1

    pub deserialize-raw_of :
        (t : MockTransaction)
        → ((raw : List protobuf.Byte) → (h : List protobuf.Byte) × (wire_hash raw ≡ some h))
        → ((raw h : List protobuf.Byte) → wire_hash raw ≡ some h → length h ≡ sha256_hash_size)
        → Fits protobuf wire_hash t
        → deserialize_from_string protobuf wire_hash (raw_of t) mock_transaction
          ≡ some (true, record t { result = TransactionResult.pending })
    unfolding serialize_to_string
    deserialize-raw_of t hashes sized f =
        let (h, e) = hashes (body protobuf wire_hash t) in
        let done : (serialize_to_string protobuf wire_hash t).0 ≡ true =
          rw (serialize_to_string, e) refl in
        deserialize-serialize protobuf wire_hash t sized f done

    module _ (sha : Sha256) where
      pub hash_transactions_lem :
          (ts : List MockTransaction) (c : sha.Context)
          → ((raw : List protobuf.Byte) → (h : List protobuf.Byte) × (wire_hash raw ≡ some h))
          → ((raw h : List protobuf.Byte) → wire_hash raw ≡ some h → length h ≡ sha256_hash_size)
          → All (Fits protobuf wire_hash) ts
          → hash_transactions helper sha protobuf wire_hash (map raw_of ts) c
            ≡ some (hash_all sha c (map (λ t. t.payload.digest) ts))
      unfolding hash_transactions
      hash_transactions_lem [] c hashes sized f = refl
      hash_transactions_lem (t ∷ ts) c hashes sized f =
          rw
            (
              hash_transactions,
              deserialize-raw_of t hashes sized f.0,
              hash_transactions_lem ts (hash sha c t.payload.digest).1 hashes sized f.1,
            )
            refl

      -- The request of a batch whose last digest this is.
      abbrev pub request_for : String → ℕ → EpochRequest
      request_for digest item_size = record {
        batch_hash = sha.digest_of (digest ∷ []);
        request_batch_size = item_size;
      }

      -- A context that holds the one digest that the batch hash of a response is of passes the test.
      check_batch_lem :
          (c : sha.Context) (digest : String) (now later size : ℕ) (s : EpochServer)
          → sha.Holds c (digest ∷ [])
          → (check_batch helper sha protobuf wire_hash
              (serve helper now later (request_for digest size) s).0
              c).0
            ≡ true
      unfolding check_batch serve execute
      check_batch_lem c digest now later size s held =
          let d = sha.digest_of (digest ∷ []) in
          rw
            (
              check_batch,
              execute,
              (sha.result-Holds c (digest ∷ []) held).1,
              (string_key.beq_iff d d).1 refl,
            )
            (helper.decrypt-encrypt s.epoch_num d _)

      pub collect_batch_lem :
          (item : String) (items : List String) (c : sha.Context)
          → length (item ∷ items) < 4294967296
          → All
              (λ item.
                helper.user_signed (helper.parse_request item).0 (helper.parse_request item).1
                ≡ true)
              (item ∷ items)
          → (c1 : sha.Context) × (collect_batch helper sha (item ∷ items) c
              ≡ some (
                collected (item ∷ items),
                request_for
                    (last (digest_of_item item) (map digest_of_item items))
                    (length (item ∷ items)),
                c1,
              ))
      unfolding collect_batch request_of execute
      collect_batch_lem item items c few v =
          let whole : to_uint32 (length (item ∷ items)) ≡ length (item ∷ items) =
            omega (arith, few) in
          let d = digest_of_item item in
          let ds = map digest_of_item items in
          let c0 = hash_all sha c (d ∷ ds) in
          let digest = (sha.result-Holds c0 _ (hash_all-Holds sha c d ds)).1 in
          (
            (sha.sha256_result c0).2,
            rw
                (
                  collect_batch,
                  collect_lem sha (item ∷ items) c v,
                  request_of,
                  execute,
                  digest,
                  whole,
                )
                refl,
          )

      -- With a wire helper that gives hashes of 32 bytes: a batch of requests, at least one, less than 2^32 and all with
      -- the users' signatures, whose transactions under the epoch of the answer fit the wire, is
      -- collected whatever the hash helper did before, and the serialized transactions with the answer
      -- that the epoch server gives to the batch's request, in whatever state it is, pass the test of
      -- another server.
      pub verify_batch_hash-serve :
          (item : String) (items : List String) (now later : ℕ) (s : EpochServer)
          (c d : sha.Context)
          → ((raw : List protobuf.Byte) → (h : List protobuf.Byte) × (wire_hash raw ≡ some h))
          → ((raw h : List protobuf.Byte) → wire_hash raw ≡ some h → length h ≡ sha256_hash_size)
          → length (item ∷ items) < 4294967296
          → All
              (λ item.
                helper.user_signed (helper.parse_request item).0 (helper.parse_request item).1
                ≡ true)
              (item ∷ items)
          → All (Fits protobuf wire_hash) (map (set_epoch s.epoch_num) (collected (item ∷ items)))
          → (ts : List MockTransaction) × (request : EpochRequest) × (c1 d1 : sha.Context)
            × (collect_batch helper sha (item ∷ items) c ≡ some (ts, request, c1))
            × (verify_batch_hash helper sha protobuf wire_hash
                  (map raw_of (set_epochs helper (serve helper now later request s).0 ts))
                  (serve helper now later request s).0
                  d
                ≡ some (true, d1))
      unfolding verify_batch_hash serve set_epochs request_of collect_batch execute
      verify_batch_hash-serve item items now later s c d hashes sized few v f =
          let digests = map digest_of_item items in
          let request = request_for (last (digest_of_item item) digests) (length (item ∷ items)) in
          let ts = map (set_epoch s.epoch_num) (collected (item ∷ items)) in
          let response = (serve helper now later request s).0 in
          let d0 = hash_all sha (reset sha d).1 (digest_of_item item ∷ digests) in
          let (c1, made) = collect_batch_lem item items c few v in
          let size : length (map raw_of ts) ≡ length (item ∷ items) =
            length-map raw_of ts
            ∙ length-map (set_epoch s.epoch_num) (collected (item ∷ items))
            ∙ length-map _ (item ∷ items) in
          let taken =
            hash_transactions_lem ts (reset sha d).1 hashes sized f
            ∙ ap (λ ds. some (hash_all sha (reset sha d).1 ds))
                (digests_lem s.epoch_num (item ∷ items)) in
          let held = hash_all-Holds sha (reset sha d).1 (digest_of_item item) digests in
          let accepted = check_batch_lem d0 _ now later (length (item ∷ items)) s held in
          (
            collected (item ∷ items),
            request,
            c1,
            (check_batch helper sha protobuf wire_hash response d0).1,
            made,
            rw
                (
                  verify_batch_hash,
                  (==_iff (length (map raw_of ts)) (length (item ∷ items))).1 size,
                  taken,
                )
                (ap (λ b. some (b, (check_batch helper sha protobuf wire_hash response d0).1))
                  accepted),
          )
