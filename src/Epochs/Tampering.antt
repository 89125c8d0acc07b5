-- ===== src/Epochs/Tampering.antt =====
-- What the test of a batch by verifyBatchHash (comm_controller.cpp) rests on: each `hash` of the
-- helper starts over, so that the batch hash is that of the last digest alone.
use myblockchain.Prelude.{
  ◌≡◌, ℕ, refl, sym, ap, ap₂, ◌∙◌, List, [], ◌∷◌, ◌++◌, Bool, Option, none, some, length,
  length-append, All, Option-cases, inl, inr, ◌+◌, ◌==◌, if◌then◌else◌, false, Bool-cases, String,
  string_key,
}
use myblockchain.Sha256.{Sha256, reset, hash, execute, hash-Holds}
use myblockchain.Transaction.{MockTransaction, mock_transaction}
use myblockchain.Transaction.Wire.{Protobuf, deserialize_from_string}
use myblockchain.Epochs.{
  EpochHelper, EpochResponse, hash_transactions, check_batch, verify_batch_hash,
}

module _ (helper : EpochHelper) (sha : Sha256) (protobuf : Protobuf)
    (wire_hash : List protobuf.Byte → Option (List protobuf.Byte)) where
  open sha use {Context}

  -- The serialized transaction is read without a failed CHECK.
  abbrev pub Readable : List protobuf.Byte → Type 0
  Readable raw =
      (result : Bool × MockTransaction) × (deserialize_from_string protobuf wire_hash raw
          mock_transaction
        ≡ some result)

  -- The answer of the test, without the context.
  abbrev pub verdict : Option (Bool × Context) → Option Bool
  verdict none = none
  verdict (some (b, c)) = some b

  hash_transactions-append :
      (raws : List (List protobuf.Byte)) (raw : List protobuf.Byte) (c : Context)
      → All Readable raws
      → (d : Context) × (hash_transactions helper sha protobuf wire_hash (raws ++ (raw ∷ [])) c
          ≡ hash_transactions helper sha protobuf wire_hash (raw ∷ []) d)
  unfolding hash_transactions
  hash_transactions-append [] raw c v = (c, refl)
  hash_transactions-append (r ∷ raws) raw c v =
      let ((flag, t), read) = v.0 in
      let (d, same) = hash_transactions-append raws raw (hash sha c t.payload.digest).1 v.1 in
      (d, rw (hash_transactions, read) same)

  check_batch-hash :
      (response : EpochResponse) (digest : String) (c d : Context)
      → (check_batch helper sha protobuf wire_hash response (hash sha c digest).1).0
        ≡ (check_batch helper sha protobuf wire_hash response (hash sha d digest).1).0
  unfolding check_batch execute
  check_batch-hash response digest c d =
      let of_c = (sha.result-Holds (hash sha c digest).1 _ (hash-Holds sha c digest).1).1 in
      let of_d = (sha.result-Holds (hash sha d digest).1 _ (hash-Holds sha d digest).1).1 in
      elim (Bool-cases (string_key.beq response.request.batch_hash (sha.digest_of (digest ∷ [])))) [
        | inl same ↦ rw (check_batch, execute, of_c, of_d, same) refl
        | inr other ↦ rw (check_batch, execute, of_c, of_d, other) refl
      ]

  -- What the test answers once the digests are hashed.
  abbrev answer : EpochResponse → Option Context → Option Bool
  answer response none = none
  answer response (some c) = some (check_batch helper sha protobuf wire_hash response c).0

  answer-hash_transactions :
      (response : EpochResponse) (raw : List protobuf.Byte) (c d : Context)
      → answer response (hash_transactions helper sha protobuf wire_hash (raw ∷ []) c)
        ≡ answer response (hash_transactions helper sha protobuf wire_hash (raw ∷ []) d)
  unfolding hash_transactions
  answer-hash_transactions response raw c d =
      elim (Option-cases (deserialize_from_string protobuf wire_hash raw mock_transaction)) [
        | inl stops ↦ rw (hash_transactions, answer, stops) refl
        | inr ((flag, t), read) ↦
            rw (hash_transactions, answer, read)
              (ap some (check_batch-hash response t.payload.digest c d))
      ]

  verdict_lem :
      (raws : List (List protobuf.Byte)) (response : EpochResponse) (c : Context)
      → verdict (verify_batch_hash helper sha protobuf wire_hash raws response c) ≡ (
          if length raws == response.request.request_batch_size
          then answer response
              (hash_transactions helper sha protobuf wire_hash raws (reset sha c).1)
          else some false)
  unfolding verify_batch_hash
  verdict_lem raws response c =
      elim (Bool-cases (length raws == response.request.request_batch_size)) [
        | inr other ↦ rw (verify_batch_hash, other) refl
        | inl same ↦
            elim (Option-cases
              (hash_transactions helper sha protobuf wire_hash raws (reset sha c).1)) [
                | inl stops ↦ rw (verify_batch_hash, same, stops) refl
                | inr (d, done) ↦ rw (verify_batch_hash, same, done) refl
              ]
      ]

  -- Two sets of as many transactions that end with the same one, the others readable, get the same
  -- answer from the test of their batch, whatever the other transactions are: the batch hash that the
  -- epoch server signs is that of the last digest alone.
  pub verify_batch_hash-last :
      (first second : List (List protobuf.Byte)) (raw : List protobuf.Byte)
      (response : EpochResponse) (c : Context)
      → length first ≡ length second
      → All Readable first
      → All Readable second
      → verdict (verify_batch_hash helper sha protobuf wire_hash (first ++ (raw ∷ [])) response c)
        ≡ verdict
            (verify_batch_hash helper sha protobuf wire_hash (second ++ (raw ∷ [])) response c)
  verify_batch_hash-last first second raw response c e v w =
      let size : length (first ++ (raw ∷ [])) ≡ length (second ++ (raw ∷ [])) =
        length-append first (raw ∷ [])
        ∙ ap (λ n. n + 1) e
        ∙ sym (length-append second (raw ∷ [])) in
      let (c1, of_first) = hash_transactions-append first raw (reset sha c).1 v in
      let (c2, of_second) = hash_transactions-append second raw (reset sha c).1 w in
      let same =
        ap (answer response) of_first
        ∙ answer-hash_transactions response raw c1 c2
        ∙ sym (ap (answer response) of_second) in
      verdict_lem (first ++ (raw ∷ [])) response c
      ∙ ap₂
          (λ (n : ℕ) (o : Option Bool).
            if n == response.request.request_batch_size then o else some false)
          size same
      ∙ sym (verdict_lem (second ++ (raw ∷ [])) response c)
