-- ===== src/Transaction/Wire.antt =====
-- The form of a transaction on the wire: serializeToString and deserializeFromString of
-- src/block_server/transaction/mock/mock_transaction.cpp. A text is a list of bytes, which are not
-- looked into. Protobuf and the SHA-256 helper are parameters.
use mathlib.Core.List.{append_assoc, append-nil}
use myblockchain.Prelude.{
  ltb, if◌then◌else◌, ℕ, ◌<◌, ◌%◌, ◌≡◌, refl, List, [], ◌++◌, Bool, true, false, Option, none, some,
  arith, length, ap, ◌∙◌, inl, inr, Option-cases,
}
use myblockchain.Transaction.{
  MockTransaction, TransactionPayload, KvRwSet, TransactionResult, mock_transaction,
}

-- The coded streams and the messages of protobuf, as documented: what is written is read again, and
-- what stands behind it is left.
pub record Protobuf : Type 1 where
  pub Byte : Type 0
  pub write_varint64 : ℕ → List Byte
  pub read_varint64 : List Byte → Option (ℕ × List Byte)
  pub read_string : ℕ → List Byte → Option (List Byte × List Byte)
  pub payload_as_string : TransactionPayload → List Byte
  pub parse_payload : List Byte → Option TransactionPayload
  pub rwset_as_string : KvRwSet → List Byte
  pub parse_rwset : List Byte → Option KvRwSet
  pub read-write_varint64 :
      (n : ℕ) (rest : List Byte)
      → n < 18446744073709551616
      → read_varint64 (write_varint64 n ++ rest) ≡ some (n, rest)
  pub read-string : (s rest : List Byte) → read_string (length s) (s ++ rest) ≡ some (s, rest)
  pub parse-payload : (p : TransactionPayload) → parse_payload (payload_as_string p) ≡ some p
  pub parse-rwset : (s : KvRwSet) → parse_rwset (rwset_as_string s) ≡ some s

abbrev pub sha256_hash_size : ℕ
sha256_hash_size = 32

-- Into a field of 32 bits.
abbrev pub to_uint32 : ℕ → ℕ
to_uint32 n = n % 4294967296

module _ (protobuf : Protobuf) (hash : List protobuf.Byte → Option (List protobuf.Byte)) where
  open protobuf use {
    Byte, write_varint64, read_varint64, read_string, payload_as_string, parse_payload,
    rwset_as_string, parse_rwset, read-write_varint64, read-string, parse-payload, parse-rwset,
  }

  -- `ReadString` takes the size as an int of 32 bits, and refuses one below 0.
  abbrev pub read_sized : ℕ → List Byte → Option (List Byte × List Byte)
  read_sized size raw =
      if ltb (to_uint32 size) 2147483648 then read_string (to_uint32 size) raw else none

  -- What is written before the hash.
  unfoldable pub body : MockTransaction → List Byte
  body t =
      write_varint64 t.tid
      ++ (write_varint64 t.epoch
          ++ (write_varint64 (length (payload_as_string t.payload))
              ++ (payload_as_string t.payload
                  ++ (write_varint64 (length (rwset_as_string t.rwset))
                      ++ rwset_as_string t.rwset))))

  -- The flag, and the text that is left in the argument.
  unfoldable pub serialize_to_string : MockTransaction → Bool × List Byte
  serialize_to_string t = elim (hash (body t)) [
    | none ↦ (false, body t)
    | some h ↦ (true, body t ++ h)
  ]

  -- The blocks of `deserializeFromString` from the last to the first, each with the transaction as it
  -- is by then; `none` is a failed CHECK, which ends the program.
  unfoldable pub read_hash : List Byte → MockTransaction → Option (Bool × MockTransaction)
  read_hash raw t = elim (read_string sha256_hash_size raw) [
    | none ↦ some (false, t)
    | some (h, rest) ↦ some (true, t)
  ]

  unfoldable pub read_rwset : List Byte → MockTransaction → Option (Bool × MockTransaction)
  read_rwset raw t = elim (read_varint64 raw) [
    | none ↦ some (false, t)
    | some (size, raw1) ↦ elim (read_sized size raw1) [
      | none ↦ some (false, t)
      | some (text, raw2) ↦ elim (parse_rwset text) [
        | none ↦ none
        | some rwset ↦ read_hash raw2 (record t { rwset = rwset })
      ]
    ]
  ]

  unfoldable pub read_payload : List Byte → MockTransaction → Option (Bool × MockTransaction)
  read_payload raw t = elim (read_varint64 raw) [
    | none ↦ some (false, t)
    | some (size, raw1) ↦ elim (read_sized size raw1) [
      | none ↦ some (false, t)
      | some (text, raw2) ↦ elim (parse_payload text) [
        | none ↦ none
        | some payload ↦ read_rwset raw2 (record t { payload = payload })
      ]
    ]
  ]

  unfoldable pub read_epoch : List Byte → MockTransaction → Option (Bool × MockTransaction)
  read_epoch raw t = elim (read_varint64 raw) [
    | none ↦ some (false, t)
    | some (epoch, raw1) ↦ read_payload raw1 (record t { epoch = to_uint32 epoch })
  ]

  unfoldable pub deserialize_from_string :
      List Byte → MockTransaction → Option (Bool × MockTransaction)
  deserialize_from_string raw t = elim (read_varint64 raw) [
    | none ↦ some (false, t)
    | some (tid, raw1) ↦ read_epoch raw1 (record t { tid = to_uint32 tid })
  ]

  -- What the serialized fields ask for: ids and epochs of 32 bits, sizes that an int has.
  pub record Fits (t : MockTransaction) : Type 0 where
    pub tid_fits : t.tid < 4294967296
    pub epoch_fits : t.epoch < 4294967296
    pub payload_fits : length (payload_as_string t.payload) < 2147483648
    pub rwset_fits : length (rwset_as_string t.rwset) < 2147483648

  read_hash_lem :
      (h : List Byte) (t : MockTransaction)
      → length h ≡ sha256_hash_size
      → read_hash h t ≡ some (true, t)
  unfolding read_hash
  read_hash_lem h t e =
      let got : read_string sha256_hash_size h ≡ some (h, []) =
        rw (e, append-nil h) at (read-string h []) in
      rw (read_hash, got) refl

  read_sized_lem :
      (s rest : List Byte)
      → length s < 2147483648
      → read_sized (length s) (s ++ rest) ≡ some (s, rest)
  read_sized_lem s rest small =
      let same : to_uint32 (length s) ≡ length s = omega arith in
      let fits : ltb (length s) 2147483648 ≡ true = ground arith in
      rw (same, fits) (read-string s rest)

  read_rwset_lem :
      (s : KvRwSet) (h : List Byte) (t : MockTransaction)
      → length (rwset_as_string s) < 2147483648
      → read_rwset (write_varint64 (length (rwset_as_string s)) ++ (rwset_as_string s ++ h)) t
        ≡ read_hash h (record t { rwset = s })
  unfolding read_rwset
  read_rwset_lem s h t small =
      rw
        (
          read_rwset,
          read-write_varint64 (length (rwset_as_string s)) (rwset_as_string s ++ h)
              (omega (arith, small)),
          read_sized_lem (rwset_as_string s) h small,
          parse-rwset s,
        )
        refl

  read_payload_lem :
      (p : TransactionPayload) (raw : List Byte) (t : MockTransaction)
      → length (payload_as_string p) < 2147483648
      → read_payload
          (write_varint64 (length (payload_as_string p)) ++ (payload_as_string p ++ raw))
          t
        ≡ read_rwset raw (record t { payload = p })
  unfolding read_payload
  read_payload_lem p raw t small =
      rw
        (
          read_payload,
          read-write_varint64 (length (payload_as_string p)) (payload_as_string p ++ raw)
              (omega (arith, small)),
          read_sized_lem (payload_as_string p) raw small,
          parse-payload p,
        )
        refl

  read_epoch_lem :
      (n : ℕ) (raw : List Byte) (t : MockTransaction)
      → n < 4294967296
      → read_epoch (write_varint64 n ++ raw) t ≡ read_payload raw (record t { epoch = n })
  unfolding read_epoch
  read_epoch_lem n raw t small =
      let same : n % 4294967296 ≡ n = omega arith in
      rw (read_epoch, read-write_varint64 n raw (omega arith), same) refl

  read_tid_lem :
      (n : ℕ) (raw : List Byte) (t : MockTransaction)
      → n < 4294967296
      → deserialize_from_string (write_varint64 n ++ raw) t ≡ read_epoch raw (record t { tid = n })
  unfolding deserialize_from_string
  read_tid_lem n raw t small =
      let same : n % 4294967296 ≡ n = omega arith in
      rw (deserialize_from_string, read-write_varint64 n raw (omega arith), same) refl

  body-append :
      (t : MockTransaction) (h : List Byte)
      → body t ++ h
        ≡ write_varint64 t.tid
          ++ (write_varint64 t.epoch
              ++ (write_varint64 (length (payload_as_string t.payload))
                  ++ (payload_as_string t.payload
                      ++ (write_varint64 (length (rwset_as_string t.rwset))
                          ++ (rwset_as_string t.rwset ++ h)))))
  unfolding body
  body-append t h = simp append_assoc refl

  pub deserialize-body :
      (t u : MockTransaction) (h : List Byte)
      → Fits t
      → length h ≡ sha256_hash_size
      → deserialize_from_string (body t ++ h) u
        ≡ some
            (true, record u { tid = t.tid; epoch = t.epoch; payload = t.payload; rwset = t.rwset })
  deserialize-body t u h f e =
      ap (λ raw. deserialize_from_string raw u) (body-append t h)
      ∙ read_tid_lem t.tid _ u f.tid_fits
      ∙ read_epoch_lem t.epoch _ _ f.epoch_fits
      ∙ read_payload_lem t.payload _ _ f.payload_fits
      ∙ read_rwset_lem t.rwset h _ f.rwset_fits
      ∙ read_hash_lem h _ e

  pub deserialize-serialize :
      (t : MockTransaction)
      → ((raw h : List Byte) → hash raw ≡ some h → length h ≡ sha256_hash_size)
      → Fits t
      → (serialize_to_string t).0 ≡ true
      → deserialize_from_string (serialize_to_string t).1 mock_transaction
        ≡ some (true, record t { result = TransactionResult.pending })
  unfolding serialize_to_string
  deserialize-serialize t sized f ok = elim (Option-cases (hash (body t))) [
    | inl fails ↦
        let clash : false ≡ true =
          unfold serialize_to_string in rw (serialize_to_string, fails) at ok in
        ground (arith, clash)
    | inr (h, e) ↦
        rw (serialize_to_string, e) (deserialize-body t mock_transaction h f (sized (body t) h e))
  ]
