-- ===== src/Comm/Receive.antt =====
-- The threads of src/block_server/comm/client_proxy/comm_controller.cpp that take transactions in: one
-- round of receiveFromLocalServer and of receiveFromOtherServer. A transaction is passed by value:
-- until it is in the queue only its receiver has it.
pub mod Agreement
use myblockchain.Prelude.{
  ℕ, zero, suc, ◌+◌, List, [], ◌∷◌, ◌++◌, Bool, true, false, Option, none, some, ltb, ◌==◌,
  if◌then◌else◌, length, String,
}
use myblockchain.Sha256.{Sha256, hash, execute}
use myblockchain.Transaction.{MockTransaction, mock_transaction, set_transaction_id}
use myblockchain.Transaction.Wire.{
  Protobuf, to_uint32, serialize_to_string, deserialize_from_string,
}
use myblockchain.Epochs.{EpochHelper, EpochResponse, verify_batch_hash}
use myblockchain.Comm.{Run, done, waits, fails, check, undefined, ◌>>=◌}

abbrev pub take {ℓ} : {A : Type ℓ} → ℕ → List A → List A
take zero xs = []
take (suc n) [] = []
take (suc n) (x ∷ xs) = x ∷ take n xs

abbrev pub drop {ℓ} : {A : Type ℓ} → ℕ → List A → List A
drop zero xs = xs
drop (suc n) [] = []
drop (suc n) (x ∷ xs) = drop n xs

-- The calls of other code: the texts of the epoch server's responses and how they are parsed, and the
-- first four bytes of a digest as a number.
pub record CommLibrary : Type 1 where
  pub ResponseRaw : Type 0
  pub parse_response : ResponseRaw → EpochResponse
  pub first_word : String → ℕ

module _ (helper : EpochHelper) (sha : Sha256) (protobuf : Protobuf)
    (wire_hash : List protobuf.Byte → Option (List protobuf.Byte)) (library : CommLibrary) where
  open sha use {Context}
  open protobuf use {Byte}

  pub record TransactionsWithProof : Type 0 where
    pub proof : library.ResponseRaw
    pub transaction : List (List Byte)

  pub record ProxyBroadcast : Type 0 where
    pub epoch : ℕ
    pub set : List TransactionsWithProof

  abbrev pub empty_broadcast : ProxyBroadcast
  empty_broadcast = record { epoch = 0; set = [] }

  -- What the threads share: the epoch, the queues and the context of the hash helper.
  pub record Shared : Type 0 where
    pub epoch : ℕ
    pub pending_transactions : List MockTransaction
    pub pending_transactions_proof : List library.ResponseRaw
    pub broadcast_transactions : List MockTransaction
    pub context : Context

  -- `wait`, once all the threads have come to the barrier.
  abbrev pub next_epoch : Shared → Shared
  next_epoch s = record s { epoch = to_uint32 (s.epoch + 1) }

  -- A transaction with its id, and the context.
  unfoldable pub generate_id : EpochResponse → MockTransaction → Context → MockTransaction × Context
  generate_id response t c =
      let c1 = (hash sha c response.signature).1 in
      let c2 = (hash sha c1 t.payload.digest).1 in
      let (hashed, digest, c3) = execute sha c2 in
      (set_transaction_id (to_uint32 (library.first_word digest)) t, c3)

  -- A transaction goes into the queue with its id.
  abbrev pub enqueue : EpochResponse → MockTransaction → Shared → Shared
  enqueue response t s =
      let (named, c) = generate_id response t s.context in
      record s { broadcast_transactions = s.broadcast_transactions ++ (named ∷ []); context = c }

  -- The loop over the transactions of a local batch, with their serialized forms.
  unfoldable pub add_local :
      EpochResponse → List MockTransaction → Shared → Run (List (List Byte) × Shared)
  add_local response [] s = done ([], s)
  add_local response (t ∷ ts) s =
      if t.epoch == s.epoch
      then (let (serialized, raw) = serialize_to_string protobuf wire_hash t in
          if serialized
          then add_local response ts (enqueue response t s) >>= (λ r. done (raw ∷ r.0, r.1))
          else fails check)
      else fails check

  -- The test of a batch, whose answer is only logged.
  unfoldable pub log_verdict : EpochResponse → List (List Byte) → Shared → Run Shared
  log_verdict response raws s =
      elim (verify_batch_hash helper sha protobuf wire_hash raws response s.context) [
        | none ↦ fails check
        | some (valid, c) ↦ done (record s { context = c })
      ]

  -- A round of `receiveFromLocalServer` with the message so far: what is sent to the other servers,
  -- the message after it, and the shared state. A batch that is in the queue only
  -- in part leaves pointers unset.
  unfoldable pub receive_from_local_server :
      ProxyBroadcast → Shared → Run (List ProxyBroadcast × ProxyBroadcast × Shared)
  receive_from_local_server multi s = elim s.pending_transactions_proof [
    | [] ↦ waits
    | response_raw ∷ proofs ↦
        let response = library.parse_response response_raw in
        let batch_size = response.request.request_batch_size in
        let ts = take batch_size s.pending_transactions in
        let s1 = record s {
          pending_transactions = drop batch_size s.pending_transactions;
          pending_transactions_proof = proofs;
        } in
        let late = ltb s.epoch response.epoch in
        let sent = if late then record multi { epoch = s.epoch } ∷ [] else [] in
        let multi1 = if late then empty_broadcast else multi in
        let s2 = if late then next_epoch s1 else s1 in
        if ltb (length s.pending_transactions) batch_size
        then (elim s.pending_transactions [ [] ↦ waits | _ ↦ fails undefined ])
        else if response.epoch == s2.epoch
        then add_local response ts s2 >>= (λ r. log_verdict response r.0 r.1 >>= (λ s3. done (
          sent,
          record multi1 {
            set = multi1.set ++ (record { proof = response_raw; transaction = r.0 } ∷ []);
          },
          s3,
        )))
        else fails check
  ]

  -- The loops of `receiveFromOtherServer` over the transactions of a set, and over the sets.
  unfoldable pub add_remote : EpochResponse → List (List Byte) → Shared → Run Shared
  add_remote response [] s = done s
  add_remote response (raw ∷ raws) s =
      elim (deserialize_from_string protobuf wire_hash raw mock_transaction) [
        | none ↦ fails check
        | some (flag, t) ↦
            if flag
            then (if t.epoch == s.epoch
                then add_remote response raws (enqueue response t s)
                else fails check)
            else fails check
      ]

  unfoldable pub add_sets : List TransactionsWithProof → Shared → Run Shared
  add_sets [] s = done s
  add_sets (set ∷ sets) s =
      let response = library.parse_response set.proof in
      log_verdict response set.transaction s
      >>= (λ s1. add_remote response set.transaction s1 >>= (λ s2. add_sets sets s2))

  -- A round of `receiveFromOtherServer` with a message of another server.
  unfoldable pub receive_from_other_server : ProxyBroadcast → Shared → Run Shared
  receive_from_other_server message s = add_sets message.set s >>= (λ s1. done (next_epoch s1))
