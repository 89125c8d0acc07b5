-- ===== src/User.antt =====
-- src/user/user.cpp: the client, which sends one signed request after the other from each of its
-- threads. The sleep after a request is left out.
use myblockchain.Prelude.{
  ℕ, ◌+◌, ◌*◌, ◌/◌, ◌≤◌, ◌<◌, ◌≡◌, refl, sym, subst, List, [], ◌∷◌, Bool, true, false, Option, none,
  some, arith, length, if◌then◌else◌, String, string_key, All,
}
use myblockchain.Transaction.{TransactionPayload}
use myblockchain.Epochs.{to_uint64}
use myblockchain.CryptoSign.{OpenSsl, CryptoSign, rsa_encrypt}

pub record UserRequest : Type 0 where
  pub payload : String
  pub digest : String

-- What is called: the serialized payload that adds 1 to the key "lhx", the serialized form of a
-- transaction payload, the text of 1024 zeros, and std::stoi with the conversion to 32 bits, `none`
-- for an exception.
pub record UserLibrary : Type 0 where
  pub gcounter_payload : String
  pub payload_as_string : TransactionPayload → String
  pub blank : String
  pub stoi : String → Option ℕ

module _ (ssl : OpenSsl) (library : UserLibrary) where
  -- The payload of a round at a time, with the number of the rounds before.
  abbrev pub payload_at : ℕ → ℕ → TransactionPayload
  payload_at time tr_count = record {
    header = "crdt_gcounter";
    payload = library.gcounter_payload;
    nonce = to_uint64 (time + to_uint64 (tr_count * 4294967296));
    digest = "";
  }

  -- The success of the signature is not looked at.
  unfoldable pub request_at : ℕ → ℕ → CryptoSign ssl → UserRequest × CryptoSign ssl
  request_at time tr_count helper =
      let payload_raw = library.payload_as_string (payload_at time tr_count) in
      let (signed, digest, helper1) = rsa_encrypt ssl library.blank payload_raw helper in
      (record { payload = payload_raw; digest = digest }, helper1)

  -- The rounds of `run` at these times: the payloads with the requests that are sent.
  unfoldable pub run : List ℕ → ℕ → CryptoSign ssl → List (TransactionPayload × UserRequest)
  run [] tr_count helper = []
  run (time ∷ times) tr_count helper =
      let (request, helper1) = request_at time tr_count helper in
      (payload_at time tr_count, request) ∷ run times (to_uint64 (tr_count + 1)) helper1

  -- The loop over the arguments, with the number of threads and the flag; `none` is an exception, or the
  -- null pointer behind a last "-t".
  unfoldable pub parse_args : List String → ℕ → Bool → Option (ℕ × Bool)
  parse_args [] thread_num sleep_flag = some (thread_num, sleep_flag)
  parse_args (arg ∷ args) thread_num sleep_flag =
      let flag = if string_key.beq arg "-s" then true else sleep_flag in
      if string_key.beq arg "-t"
      then (elim args [
        | [] ↦ none
        | value ∷ rest ↦ elim (library.stoi value) [ none ↦ none | some n ↦ parse_args args n flag ]
      ])
      else parse_args args thread_num flag

  -- `main` up to the start of the threads; the first argument is the program.
  unfoldable pub main : List String → Option (ℕ × Bool)
  unfolding parse_args
  main argv = parse_args argv 1 false

  -- The nonces count on from a number in their high halves, and have the times in their low ones.
  abbrev pub Counted : ℕ → List ℕ → List (TransactionPayload × UserRequest) → Type 0
  Counted n [] [] = Unit
  Counted n (time ∷ times) ((p, q) ∷ rest) =
      (p.nonce / 4294967296 ≡ n)
      × (q.payload ≡ library.payload_as_string p)
      × Counted (n + 1) times rest
  Counted n _ _ = ⊥

  -- As long as the clock has 32 bits and less than 2^32 requests are made, no two requests of a thread
  -- have the same nonce: its high half is the number of the request.
  pub run_lem :
      (times : List ℕ) (tr_count : ℕ) (helper : CryptoSign ssl)
      → All (λ time. time < 4294967296) times
      → tr_count + length times ≤ 4294967296
      → Counted tr_count times (run times tr_count helper)
  unfolding run request_at
  run_lem [] tr_count helper v room = tt
  run_lem (time ∷ times) tr_count helper v room =
      let next : to_uint64 (tr_count + 1) ≡ tr_count + 1 = omega arith in
      let small = v.0 in
      (
        omega arith,
        refl,
        subst (λ n. Counted (tr_count + 1) times (run times n (request_at time tr_count helper).1))
            (sym next)
            (run_lem times (tr_count + 1) (request_at time tr_count helper).1 v.1 (omega arith)),
      )
