-- ===== src/Comm/Receive/Agreement.antt =====
-- That two servers end up with the same transactions: the local receiver of one and the remote receiver
-- of the other (comm_controller.cpp).
use mathlib.Core.List.{append_assoc, append-nil}
use myblockchain.Prelude.{
  ℕ, ◌+◌, ◌≡◌, inl, inr, refl, sym, ap, subst, ◌∙◌, List, [], ◌∷◌, ◌++◌, map, true, false, Option,
  some, ltb, arith, length-append, ◌==◌, ==_iff, length, All, Bool-cases,
}
use myblockchain.Sha256.{Sha256, reset, hash, execute, hash-Holds, hash_all}
use myblockchain.Transaction.{
  MockTransaction, TransactionResult, mock_transaction, set_transaction_id,
}
use myblockchain.Transaction.Wire.{
  Protobuf, to_uint32, Fits, body, sha256_hash_size, serialize_to_string, deserialize_from_string,
}
use myblockchain.Epochs.{EpochHelper, EpochResponse, check_batch, verify_batch_hash}
use myblockchain.Epochs.Batches.{raw_of, deserialize-raw_of, hash_transactions_lem}
use myblockchain.Comm.{done, ◌>>=◌}
use myblockchain.Comm.Receive.{
  take, drop, empty_broadcast, CommLibrary, ProxyBroadcast, Shared, generate_id, enqueue, add_local,
  log_verdict, add_remote, add_sets, receive_from_local_server, receive_from_other_server,
  next_epoch,
}

module _ (helper : EpochHelper) (sha : Sha256) (protobuf : Protobuf)
    (wire_hash : List protobuf.Byte → Option (List protobuf.Byte)) (library : CommLibrary) where
  open sha use {Context}

  abbrev State : Type 0
  State = Shared helper sha protobuf wire_hash library

  -- A transaction under the id that its digest gives.
  abbrev pub named : MockTransaction → MockTransaction
  named t =
      set_transaction_id (to_uint32 (library.first_word (sha.digest_of (t.payload.digest ∷ [])))) t

  -- What a batch that was made by a user collector is like, in the current epoch.
  pub record Ready (epoch : ℕ) (t : MockTransaction) : Type 0 where
    pub of_epoch : t.epoch ≡ epoch
    pub fits : Fits protobuf wire_hash t
    pub new : t.result ≡ TransactionResult.pending

  abbrev raw : MockTransaction → List protobuf.Byte
  raw t = raw_of helper protobuf wire_hash t

  generate_id_lem :
      (response : EpochResponse) (t : MockTransaction) (c : Context)
      → (generate_id helper sha protobuf wire_hash library response t c).0 ≡ named t
  unfolding generate_id execute
  generate_id_lem response t c =
      let c1 = (hash sha c response.signature).1 in
      let held = (hash-Holds sha c1 t.payload.digest).1 in
      ap (λ digest. set_transaction_id (to_uint32 (library.first_word digest)) t)
        (sha.result-Holds (hash sha c1 t.payload.digest).1 _ held).1

  -- The transactions in the queue, and the epoch, after some were added.
  abbrev pub Added : List MockTransaction → State → State → Type 0
  Added ts s s1 =
      (s1.broadcast_transactions ≡ s.broadcast_transactions ++ map named ts) × (s1.epoch ≡ s.epoch)

  Added-none : (s : State) → Added [] s s
  Added-none s = (sym (append-nil s.broadcast_transactions), refl)

  Added-enqueue :
      (response : EpochResponse) (t : MockTransaction) (ts : List MockTransaction) (s s1 : State)
      → Added ts (enqueue helper sha protobuf wire_hash library response t s) s1
      → Added (t ∷ ts) s s1
  Added-enqueue response t ts s s1 (queue, epoch) = (
    queue
        ∙ append_assoc s.broadcast_transactions _ (map named ts)
        ∙ ap (λ u. s.broadcast_transactions ++ (u ∷ map named ts))
            (generate_id_lem response t s.context),
    epoch,
  )

  add_local_lem :
      (response : EpochResponse) (ts : List MockTransaction) (s : State)
      → ((raw : List protobuf.Byte) → (h : List protobuf.Byte) × (wire_hash raw ≡ some h))
      → All (Ready s.epoch) ts
      → (s1 : State) × (add_local helper sha protobuf wire_hash library response ts s
          ≡ done (map raw ts, s1))
        × Added ts s s1
  unfolding add_local ◌>>=◌ serialize_to_string
  add_local_lem response [] s hashes v = (s, refl, Added-none s)
  add_local_lem response (t ∷ ts) s hashes v =
      let (h, e) = hashes (body protobuf wire_hash t) in
      let sent : (serialize_to_string protobuf wire_hash t).0 ≡ true =
        rw (serialize_to_string, e) refl in
      let (s1, rest, added) =
        add_local_lem response ts (enqueue helper sha protobuf wire_hash library response t s)
          hashes v.1 in
      (
        s1,
        rw (add_local, (==_iff t.epoch s.epoch).1 v.0.of_epoch, sent, rest) refl,
        Added-enqueue response t ts s s1 added,
      )

  add_remote_lem :
      (response : EpochResponse) (ts : List MockTransaction) (s : State)
      → ((raw : List protobuf.Byte) → (h : List protobuf.Byte) × (wire_hash raw ≡ some h))
      → ((raw h : List protobuf.Byte) → wire_hash raw ≡ some h → length h ≡ sha256_hash_size)
      → All (Ready s.epoch) ts
      → (s1 : State) × (add_remote helper sha protobuf wire_hash library response (map raw ts) s
          ≡ done s1)
        × Added ts s s1
  unfolding add_remote
  add_remote_lem response [] s hashes sized v = (s, refl, Added-none s)
  add_remote_lem response (t ∷ ts) s hashes sized v =
      let read : deserialize_from_string protobuf wire_hash (raw t) mock_transaction
          ≡ some (true, t) =
        deserialize-raw_of helper protobuf wire_hash t hashes sized v.0.fits
        ∙ ap (λ r. some (true, record t { result = r })) (sym v.0.new) in
      let (s1, rest, added) =
        add_remote_lem response ts (enqueue helper sha protobuf wire_hash library response t s)
          hashes sized v.1 in
      (
        s1,
        rw (add_remote, read, (==_iff t.epoch s.epoch).1 v.0.of_epoch) rest,
        Added-enqueue response t ts s s1 added,
      )

  All-Fits :
      (epoch : ℕ) (ts : List MockTransaction)
      → All (Ready epoch) ts
      → All (Fits protobuf wire_hash) ts
  All-Fits epoch [] v = tt
  All-Fits epoch (t ∷ ts) v = (v.0.fits, All-Fits epoch ts v.1)

  log_verdict_lem :
      (response : EpochResponse) (ts : List MockTransaction) (s : State)
      → ((raw : List protobuf.Byte) → (h : List protobuf.Byte) × (wire_hash raw ≡ some h))
      → ((raw h : List protobuf.Byte) → wire_hash raw ≡ some h → length h ≡ sha256_hash_size)
      → All (Ready s.epoch) ts
      → (c : Context) × (log_verdict helper sha protobuf wire_hash library response (map raw ts) s
          ≡ done (record s { context = c }))
  unfolding log_verdict verify_batch_hash
  log_verdict_lem response ts s hashes sized v =
      let c1 = (reset sha s.context).1 in
      let hashed =
        hash_transactions_lem helper protobuf wire_hash sha ts c1 hashes sized
          (All-Fits s.epoch ts v) in
      elim (Bool-cases (length (map raw ts) == response.request.request_batch_size)) [
        | inl same ↦ (
          (check_batch helper sha protobuf wire_hash response
              (hash_all sha c1 (map (λ t. t.payload.digest) ts))).1,
          rw (log_verdict, verify_batch_hash, same, hashed) refl,
        )
        | inr other ↦ (s.context, rw (log_verdict, verify_batch_hash, other) refl)
      ]

  -- The state in which a batch with the proof is the next to be taken.
  abbrev pub before_batch :
      ℕ
      → library.ResponseRaw
      → List MockTransaction
      → List MockTransaction
      → List library.ResponseRaw
      → List MockTransaction
      → Context
      → State
  before_batch epoch proof ts later proofs queue c = record {
    epoch = epoch;
    pending_transactions = ts ++ later;
    pending_transactions_proof = proof ∷ proofs;
    broadcast_transactions = queue;
    context = c;
  }

  -- The message that goes to the others when the batch is the only one of its epoch.
  abbrev pub message_of :
      ℕ
      → library.ResponseRaw
      → List MockTransaction
      → ProxyBroadcast helper sha protobuf wire_hash library
  message_of epoch proof ts = record {
    epoch = epoch;
    set = record { proof = proof; transaction = map raw ts } ∷ [];
  }

  take_lem : (ts later : List MockTransaction) → take (length ts) (ts ++ later) ≡ ts
  take_lem [] later = refl
  take_lem (t ∷ ts) later = ap (◌∷◌ t) (take_lem ts later)

  drop_lem : (ts later : List MockTransaction) → drop (length ts) (ts ++ later) ≡ later
  drop_lem [] later = refl
  drop_lem (t ∷ ts) later = drop_lem ts later

  whole : (ts later : List MockTransaction) → ltb (length (ts ++ later)) (length ts) ≡ false
  whole ts later = ground (arith, length-append ts later)

  local_round :
      (epoch : ℕ) (proof : library.ResponseRaw) (ts later : List MockTransaction)
      (proofs : List library.ResponseRaw) (queue : List MockTransaction) (c : Context)
      → (library.parse_response proof).request.request_batch_size ≡ length ts
      → (library.parse_response proof).epoch ≡ epoch
      → ((raw : List protobuf.Byte) → (h : List protobuf.Byte) × (wire_hash raw ≡ some h))
      → ((raw h : List protobuf.Byte) → wire_hash raw ≡ some h → length h ≡ sha256_hash_size)
      → All (Ready epoch) ts
      → (a1 : State) × (receive_from_local_server helper sha protobuf wire_hash library
            (empty_broadcast helper sha protobuf wire_hash library)
            (before_batch epoch proof ts later proofs queue c)
          ≡ done ([], record (message_of epoch proof ts) { epoch = 0 }, a1))
        × (a1.broadcast_transactions ≡ queue ++ map named ts)
        × (a1.epoch ≡ epoch)
  unfolding receive_from_local_server ◌>>=◌
  local_round epoch proof ts later proofs queue c size e hashes sized v =
      let response = library.parse_response proof in
      let n = response.request.request_batch_size in
      let late : ltb epoch response.epoch ≡ false = ground (arith, e) in
      let same : (response.epoch == epoch) ≡ true = (==_iff response.epoch epoch).1 e in
      let short : ltb (length (ts ++ later)) n ≡ false =
        ap (ltb (length (ts ++ later))) size ∙ whole ts later in
      let taken = ap (λ k. take k (ts ++ later)) size ∙ take_lem ts later in
      let dropped = ap (λ k. drop k (ts ++ later)) size ∙ drop_lem ts later in
      let a : State = before_batch epoch proof [] later proofs queue c in
      let a0 : State = record a { pending_transactions_proof = proofs } in
      let (a1, added, (grown, kept)) = add_local_lem response ts a0 hashes v in
      let v1 = subst (λ k. All (Ready k) ts) (sym kept) v in
      let (c1, logged) = log_verdict_lem response ts a1 hashes sized v1 in
      (
        record a1 { context = c1 },
        rw (receive_from_local_server, short, late, same, taken, dropped, added, logged) refl,
        grown,
        kept,
      )

  remote_round :
      (epoch : ℕ) (proof : library.ResponseRaw) (ts : List MockTransaction) (b : State)
      → ((raw : List protobuf.Byte) → (h : List protobuf.Byte) × (wire_hash raw ≡ some h))
      → ((raw h : List protobuf.Byte) → wire_hash raw ≡ some h → length h ≡ sha256_hash_size)
      → All (Ready b.epoch) ts
      → (b1 : State) × (receive_from_other_server helper sha protobuf wire_hash library
            (message_of epoch proof ts)
            b
          ≡ done b1)
        × (b1.broadcast_transactions ≡ b.broadcast_transactions ++ map named ts)
        × (b1.epoch ≡ to_uint32 (b.epoch + 1))
  unfolding receive_from_other_server add_sets ◌>>=◌
  remote_round epoch proof ts b hashes sized v =
      let response = library.parse_response proof in
      let (c, logged) = log_verdict_lem response ts b hashes sized v in
      let (b1, added, (queue, same)) =
        add_remote_lem response ts (record b { context = c }) hashes sized v in
      (
        next_epoch helper sha protobuf wire_hash library b1,
        rw (receive_from_other_server, add_sets, logged, added) refl,
        queue,
        ap (λ e. to_uint32 (e + 1)) same,
      )

  -- With a wire helper that gives hashes of 32 bytes: a batch of new transactions that fit the wire and
  -- are of the current epoch of two servers, taken in by the local receiver of the one, whose answer
  -- of the epoch server names the epoch and the size, and sent to the remote receiver of the other,
  -- passes every CHECK in both; both enqueue the same transactions under the same ids, which are the
  -- first words of the hashes of their digests alone, and the other server goes on to the next epoch.
  pub receive_from_other_server-receive_from_local_server :
      (epoch : ℕ) (proof : library.ResponseRaw) (ts later : List MockTransaction)
      (proofs : List library.ResponseRaw) (queue : List MockTransaction) (c : Context) (b : State)
      → (library.parse_response proof).request.request_batch_size ≡ length ts
      → (library.parse_response proof).epoch ≡ epoch
      → b.epoch ≡ epoch
      → ((raw : List protobuf.Byte) → (h : List protobuf.Byte) × (wire_hash raw ≡ some h))
      → ((raw h : List protobuf.Byte) → wire_hash raw ≡ some h → length h ≡ sha256_hash_size)
      → All (Ready epoch) ts
      → (message : ProxyBroadcast helper sha protobuf wire_hash library) × (a1 b1 : State)
        × (receive_from_local_server helper sha protobuf wire_hash library
              (empty_broadcast helper sha protobuf wire_hash library)
              (before_batch epoch proof ts later proofs queue c)
            ≡ done ([], message, a1))
        × (receive_from_other_server helper sha protobuf wire_hash library
              (record message { epoch = epoch })
              b
            ≡ done b1)
        × (a1.broadcast_transactions ≡ queue ++ map named ts)
        × (b1.broadcast_transactions ≡ b.broadcast_transactions ++ map named ts)
        × (b1.epoch ≡ to_uint32 (b.epoch + 1))
  receive_from_other_server-receive_from_local_server epoch proof ts later proofs queue c b size e
        same hashes sized v =
      let (a1, local, grown, kept) =
        local_round epoch proof ts later proofs queue c size e hashes sized v in
      let v1 = subst (λ k. All (Ready k) ts) (sym same) v in
      let (b1, remote, queued, next) = remote_round epoch proof ts b hashes sized v1 in
      (record (message_of epoch proof ts) { epoch = 0 }, a1, b1, local, remote, grown, queued, next)
