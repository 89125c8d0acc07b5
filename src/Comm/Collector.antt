-- ===== src/Comm/Collector.antt =====
-- UserCollector of src/block_server/comm/client_proxy/user_collector.cpp with its queue of requests, and
-- the way of a batch from there through the local receiver and to another server
-- (comm_controller.cpp).
use mathlib.Core.List.{append-nil}
use myblockchain.Prelude.{
  ℕ, suc, zero, ◌+◌, ◌≤◌, ◌≡◌, refl, sym, ap, ◌∙◌, List, [], ◌∷◌, ◌++◌, map, true, false, Option,
  none, some, arith, ◌==◌, if◌then◌else◌, length, String, All,
}
use myblockchain.HashMap.{update}
use myblockchain.Sha256.{Sha256, last}
use myblockchain.Transaction.{MockTransaction, set_epoch}
use myblockchain.Transaction.Wire.{Protobuf, to_uint32, Fits, sha256_hash_size}
use myblockchain.Epochs.{
  EpochHelper, EpochRequest, EpochResponse, EpochServer, serve, collect_batch, set_epochs,
}
use myblockchain.Epochs.Batches.{
  collected, collect_batch_lem, request_for, digest_of_item, length-map,
}
use myblockchain.Comm.{Run, done, fails, check, new_transaction_handle}
use myblockchain.Comm.Receive.{
  CommLibrary, ProxyBroadcast, Shared, take, drop, empty_broadcast, receive_from_local_server,
  receive_from_other_server,
}
use myblockchain.Comm.Receive.Agreement.{
  named, Ready, before_batch, receive_from_other_server-receive_from_local_server,
}

abbrev pub epoch_size_approx : ℕ
epoch_size_approx = 500

take-all : (n : ℕ) (xs : List String) → length xs ≤ n → take n xs ≡ xs
take-all zero [] h = refl
take-all (suc n) [] h = refl
take-all zero (x ∷ xs) h = absurd (omega arith)
take-all (suc n) (x ∷ xs) h = ap (◌∷◌ x) (take-all n xs (omega arith))

module _ (helper : EpochHelper) (sha : Sha256) (protobuf : Protobuf)
    (wire_hash : List protobuf.Byte → Option (List protobuf.Byte)) (library : CommLibrary) where
  pub record UserCollector : Type 0 where
    pub request_buffer : List String
    pub context : sha.Context

  -- A round of `collectRequest`: the reply, and the message in the queue.
  unfoldable pub collect_request : String → UserCollector → String × UserCollector
  collect_request message s = ("", record s { request_buffer = s.request_buffer ++ (message ∷ []) })

  -- The collector, the state of the receivers and the sizes of the epochs after a round.
  pub record Collected : Type 0 where
    pub collector : UserCollector
    pub shared : Shared helper sha protobuf wire_hash library
    pub epoch_size_map : ℕ → ℕ

  -- A round of `run`, with the reply of the epoch server to a request; with no request in the queue it
  -- only waits.
  unfoldable pub run_round : (EpochRequest → library.ResponseRaw) → Collected → Run Collected
  run_round server s =
      let items = take epoch_size_approx s.collector.request_buffer in
      let rest = drop epoch_size_approx s.collector.request_buffer in
      if length items == 0
      then done s
      else (elim (collect_batch helper sha items s.collector.context) [
        | none ↦ fails check
        | some (ts, request, c) ↦
            let response_raw = server request in
            let response = library.parse_response response_raw in
            let (pending, proofs) =
              new_transaction_handle (set_epochs helper response ts) response_raw
                (s.shared.pending_transactions, s.shared.pending_transactions_proof) in
            done (record {
              collector = record { request_buffer = rest; context = c };
              shared = record s.shared {
                pending_transactions = pending;
                pending_transactions_proof = proofs;
              };
              epoch_size_map = update s.epoch_size_map (to_uint32 (response.epoch + 4294967295)) 0;
            })
      ])

  collected-new :
      (epoch : ℕ) (items : List String)
      → All (Fits protobuf wire_hash) (map (set_epoch epoch) (collected helper items))
      → All
          (Ready helper sha protobuf wire_hash library epoch)
          (map (set_epoch epoch) (collected helper items))
  collected-new epoch [] v = tt
  collected-new epoch (item ∷ items) v =
      (record { of_epoch = refl; fits = v.0; new = refl }, collected-new epoch items v.1)

  -- The state of the local server before a round of its collector with these requests.
  abbrev pub before_round :
      List String → sha.Context → ℕ → List MockTransaction → sha.Context → (ℕ → ℕ) → Collected
  before_round items c epoch queue d sizes = record {
    collector = record { request_buffer = items; context = c };
    shared = record {
      epoch = epoch;
      pending_transactions = [];
      pending_transactions_proof = [];
      broadcast_transactions = queue;
      context = d;
    };
    epoch_size_map = sizes;
  }

  round_eq :
      (server : EpochRequest → library.ResponseRaw) (s : Collected) (items : List String)
      (ts : List MockTransaction) (request : EpochRequest) (c : sha.Context)
      (response : EpochResponse)
      → take epoch_size_approx s.collector.request_buffer ≡ items
      → (length items == 0) ≡ false
      → collect_batch helper sha items s.collector.context ≡ some (ts, request, c)
      → library.parse_response (server request) ≡ response
      → run_round server s
        ≡ done (record {
          collector = record {
            request_buffer = drop epoch_size_approx s.collector.request_buffer;
            context = c;
          };
          shared = record s.shared {
            pending_transactions = s.shared.pending_transactions ++ set_epochs helper response ts;
            pending_transactions_proof =
                s.shared.pending_transactions_proof ++ (server request ∷ []);
          };
          epoch_size_map = update s.epoch_size_map (to_uint32 (response.epoch + 4294967295)) 0;
        })
  unfolding run_round new_transaction_handle
  round_eq server s items ts request c response taken more made parsed =
      rw (run_round, taken, more, made, parsed) refl

  round_lem :
      (item : String) (items : List String) (c d : sha.Context) (queue : List MockTransaction)
      (sizes : ℕ → ℕ) (now later : ℕ) (es : EpochServer)
      (response_as_string : EpochResponse → library.ResponseRaw)
      → ((response : EpochResponse)
          → library.parse_response (response_as_string response) ≡ response)
      → length (item ∷ items) ≤ epoch_size_approx
      → All
          (λ item.
            helper.user_signed (helper.parse_request item).0 (helper.parse_request item).1 ≡ true)
          (item ∷ items)
      → (request : EpochRequest) × (r : Collected) × (run_round
            (λ q. response_as_string (serve helper now later q es).0)
            (before_round (item ∷ items) c es.epoch_num queue d sizes)
          ≡ done r)
        × (request.request_batch_size ≡ length (item ∷ items))
        × (r.shared
            ≡ before_batch helper sha protobuf wire_hash library es.epoch_num
                (response_as_string (serve helper now later request es).0)
                (map (set_epoch es.epoch_num) (collected helper (item ∷ items)))
                []
                []
                queue
                d)
  unfolding set_epochs serve
  round_lem item items c d queue sizes now later es response_as_string parsed few v =
      let all = take-all epoch_size_approx (item ∷ items) few in
      let some_items : (length (item ∷ items) == 0) ≡ false = ground arith in
      let (c1, made) =
        collect_batch_lem helper protobuf wire_hash sha item items c (omega (arith, few)) v in
      let digests = map (digest_of_item helper) items in
      let request =
        request_for helper protobuf wire_hash sha (last (digest_of_item helper item) digests)
          (length (item ∷ items)) in
      let response = (serve helper now later request es).0 in
      let ts = map (set_epoch es.epoch_num) (collected helper (item ∷ items)) in
      let handed : List MockTransaction → Shared helper sha protobuf wire_hash library = λ pending.
        record {
          epoch = es.epoch_num;
          pending_transactions = pending;
          pending_transactions_proof = response_as_string response ∷ [];
          broadcast_transactions = queue;
          context = d;
        } in
      (
        request,
        record {
          collector = record {
            request_buffer = drop epoch_size_approx (item ∷ items);
            context = c1;
          };
          shared = handed ts;
          epoch_size_map = update sizes (to_uint32 (es.epoch_num + 4294967295)) 0;
        },
        round_eq (λ q. response_as_string (serve helper now later q es).0)
            (before_round (item ∷ items) c es.epoch_num queue d sizes) (item ∷ items)
            (collected helper (item ∷ items)) request c1 response all some_items made
            (parsed response),
        refl,
        ap handed (sym (append-nil ts)),
      )

  -- With a wire helper that gives hashes of 32 bytes and answers that are parsed as they were sent: the
  -- next round of a user collector, at most 500 requests and at least one, all with the users'
  -- signatures, whose transactions under the epoch server's epoch fit the wire, when both servers are in
  -- that epoch. The collector passes its CHECKs, and the batch that it hands over passes those of the
  -- local receiver and of the remote receiver at the other server; both enqueue the transactions of the
  -- requests in their order, under the same ids.
  pub receive_from_local_server-run_round :
      (item : String) (items : List String) (c d : sha.Context) (queue : List MockTransaction)
      (sizes : ℕ → ℕ) (now later : ℕ) (es : EpochServer)
      (response_as_string : EpochResponse → library.ResponseRaw)
      (b : Shared helper sha protobuf wire_hash library)
      → ((response : EpochResponse)
          → library.parse_response (response_as_string response) ≡ response)
      → length (item ∷ items) ≤ epoch_size_approx
      → All
          (λ item.
            helper.user_signed (helper.parse_request item).0 (helper.parse_request item).1 ≡ true)
          (item ∷ items)
      → All
          (Fits protobuf wire_hash)
          (map (set_epoch es.epoch_num) (collected helper (item ∷ items)))
      → b.epoch ≡ es.epoch_num
      → ((raw : List protobuf.Byte) → (h : List protobuf.Byte) × (wire_hash raw ≡ some h))
      → ((raw h : List protobuf.Byte) → wire_hash raw ≡ some h → length h ≡ sha256_hash_size)
      → let ts =
          map
            (named helper sha protobuf wire_hash library)
            (map (set_epoch es.epoch_num) (collected helper (item ∷ items))) in
        (r : Collected) × (message : ProxyBroadcast helper sha protobuf wire_hash library) × (a1
          b1 : Shared helper sha protobuf wire_hash library)
        × (run_round
              (λ q. response_as_string (serve helper now later q es).0)
              (before_round (item ∷ items) c es.epoch_num queue d sizes)
            ≡ done r)
        × (receive_from_local_server helper sha protobuf wire_hash library
              (empty_broadcast helper sha protobuf wire_hash library)
              r.shared
            ≡ done ([], message, a1))
        × (receive_from_other_server helper sha protobuf wire_hash library
              (record message { epoch = es.epoch_num })
              b
            ≡ done b1)
        × (a1.broadcast_transactions ≡ queue ++ ts)
        × (b1.broadcast_transactions ≡ b.broadcast_transactions ++ ts)
  unfolding serve
  receive_from_local_server-run_round item items c d queue sizes now later es response_as_string b
        parsed few v f same hashes sized =
      let (request, r, ran, size, shared) =
        round_lem item items c d queue sizes now later es response_as_string parsed few v in
      let ts = map (set_epoch es.epoch_num) (collected helper (item ∷ items)) in
      let response = (serve helper now later request es).0 in
      let answered = parsed response in
      let sizes_agree =
        ap (λ p. p.request.request_batch_size) answered
        ∙ size
        ∙ sym (
            length-map helper (set_epoch es.epoch_num) (collected helper (item ∷ items))
            ∙ length-map helper _ (item ∷ items)) in
      let (message, a1, b1, local, remote, queued, added, _) =
        receive_from_other_server-receive_from_local_server helper sha protobuf wire_hash library
          es.epoch_num (response_as_string response) ts [] [] queue d b sizes_agree
          (ap (λ p. p.epoch) answered) same hashes sized
          (collected-new es.epoch_num (item ∷ items) f) in
      let local_of = λ (s : Shared helper sha protobuf wire_hash library).
        receive_from_local_server helper sha protobuf wire_hash library
          (empty_broadcast helper sha protobuf wire_hash library) s in
      (r, message, a1, b1, ran, ap local_of shared ∙ local, remote, queued, added)
