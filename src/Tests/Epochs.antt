-- ===== src/Tests/Epochs.antt =====
-- Batches of requests at concrete inputs.
use myblockchain.Prelude.{
  ◌≡◌, ◌<◌, ◌++◌, String, refl, sym, ap, List, [], ◌∷◌, map, true, none, some, arith, length,
}
use myblockchain.Transaction.{MockTransaction, mock_transaction, empty_payload}
use myblockchain.Epochs.{
  EpochHelper, EpochRequest, EpochResponse, epoch_server, serve, serve_all, collect_batch,
  set_epochs, verify_batch_hash,
}
use myblockchain.Epochs.Batches.{raw_of, verify_batch_hash-serve}
use myblockchain.Epochs.Times.{Requests, answer, serve_all_lem}
use myblockchain.Epochs.Tampering.{Readable, verdict, verify_batch_hash-last}
use myblockchain.Sha256.{Sha256}
use myblockchain.Transaction.Wire.{Fits, body, deserialize-body}
use myblockchain.Tests.Wire.{Token, tokens, zeros, constant_hash}

abbrev pub plain_helper : EpochHelper
plain_helper = record {
  parse_request = λ item. (item, item);
  parse_payload = λ text. empty_payload;
  user_signed = λ text digest. true;
  rsa_encrypt = λ epoch hash nonce. "signature";
  rsa_decrypt = λ epoch hash nonce signature. true;
  decrypt-encrypt = λ epoch hash nonce. refl;
}

abbrev a_request : EpochRequest
a_request = record { batch_hash = "hash"; request_batch_size = 3 }

pub small-Fits :
    (t : MockTransaction) → t.tid < 4294967296 → t.epoch < 4294967296 → Fits tokens constant_hash t
small-Fits t small early = record {
  tid_fits = small;
  epoch_fits = early;
  payload_fits = omega arith;
  rwset_fits = omega arith;
}

abbrev three_requests : Requests
three_requests = (5, 5, a_request) ∷ (5, 7, a_request) ∷ (8, 8, a_request) ∷ []

serve_all_lem_example :
    map answer (serve_all plain_helper three_requests (epoch_server 5)).0
    ≡ (1, 3) ∷ (1, 6) ∷ (2, 9) ∷ []
serve_all_lem_example =
    serve_all_lem plain_helper three_requests (epoch_server 5) (λ e h. refl)
      (omega arith, (omega arith, (omega arith, tt))) (omega arith) (omega arith)

-- A hash of a list of texts that gives the first one.
abbrev first_text : List String → String
first_text [] = ""
first_text (t ∷ ts) = t

abbrev pub plain_sha : Sha256
plain_sha = record {
  Context = List String;
  sha256_reset = λ c. (true, []);
  sha256_input = λ c t. (true, c ++ (t ∷ []));
  sha256_result = λ c. (true, first_text c, c);
  digest_of = first_text;
  Holds = λ c ts. c ≡ ts;
  reset-Holds = λ c. (refl, refl);
  input-Holds = λ c ts t e. (refl, ap (λ texts. texts ++ (t ∷ [])) e);
  result-Holds = λ c ts e. (refl, ap first_text e);
}

verify_batch_hash-serve_example :
    (ts : List MockTransaction) × (request : EpochRequest) × (c1 d1 : List String) × (collect_batch
        plain_helper plain_sha
        ("one" ∷ "two" ∷ [])
        []
      ≡ some (ts, request, c1))
    × (verify_batch_hash plain_helper plain_sha tokens constant_hash
          (map
            (raw_of plain_helper tokens constant_hash)
            (set_epochs plain_helper (serve plain_helper 5 7 request (epoch_server 5)).0 ts))
          (serve plain_helper 5 7 request (epoch_server 5)).0
          ("rest" ∷ [])
        ≡ some (true, d1))
verify_batch_hash-serve_example =
    verify_batch_hash-serve plain_helper tokens constant_hash plain_sha "one" ("two" ∷ []) 5 7
      (epoch_server 5) [] ("rest" ∷ []) (λ raw. (zeros 32, refl))
      (λ raw h e. ap (λ o. elim o [ none ↦ 32 | some x ↦ length x ]) (sym e)) (omega arith)
      (refl, (refl, tt))
      (small-Fits _ (omega arith) (omega arith), (small-Fits _ (omega arith) (omega arith), tt))

-- The text of a transaction with this digest.
abbrev raw_with : String → List Token
raw_with digest =
    body tokens constant_hash
      (record mock_transaction { payload = record empty_payload { digest = digest } })
    ++ zeros 32

readable :
    (digest : String) → Readable plain_helper plain_sha tokens constant_hash (raw_with digest)
readable digest = (
  (true, record mock_transaction { payload = record empty_payload { digest = digest } }),
  deserialize-body tokens constant_hash
      (record mock_transaction { payload = record empty_payload { digest = digest } })
      mock_transaction (zeros 32) (small-Fits _ (omega arith) (omega arith)) refl,
)

abbrev a_response : EpochResponse
a_response = record {
  request = record { batch_hash = "last"; request_batch_size = 2 };
  epoch = 1;
  nonce = 2;
  signature = "signature";
}

verify_batch_hash-last_example :
    verdict plain_helper plain_sha tokens constant_hash (
      verify_batch_hash plain_helper plain_sha tokens constant_hash
        (raw_with "one" ∷ raw_with "last" ∷ [])
        a_response
        [])
    ≡ verdict plain_helper plain_sha tokens constant_hash (
        verify_batch_hash plain_helper plain_sha tokens constant_hash
          (raw_with "forged" ∷ raw_with "last" ∷ [])
          a_response
          [])
verify_batch_hash-last_example =
    verify_batch_hash-last plain_helper plain_sha tokens constant_hash (raw_with "one" ∷ [])
      (raw_with "forged" ∷ []) (raw_with "last") a_response [] refl (readable "one", tt)
      (readable "forged", tt)
