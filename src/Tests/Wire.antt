-- ===== src/Tests/Wire.antt =====
-- The wire format with streams of tokens for protobuf.
use myblockchain.Prelude.{ℕ, zero, suc, ◌≡◌, refl, List, [], ◌∷◌, ◌++◌, Option, none, some, length}
use myblockchain.Transaction.{TransactionPayload, KvRwSet}
use myblockchain.Transaction.Wire.{Protobuf}

pub data Token : Type 0 where
  number : ℕ → Token
  payload : TransactionPayload → Token
  rwset : KvRwSet → Token

abbrev read_number : List Token → Option (ℕ × List Token)
read_number (number n ∷ rest) = some (n, rest)
read_number _ = none

abbrev split : ℕ → List Token → Option (List Token × List Token)
split zero raw = some ([], raw)
split (suc n) [] = none
split (suc n) (x ∷ raw) = elim (split n raw) [ none ↦ none | some (xs, rest) ↦ some (x ∷ xs, rest) ]

abbrev parse_payload : List Token → Option TransactionPayload
parse_payload (payload p ∷ []) = some p
parse_payload _ = none

abbrev parse_rwset : List Token → Option KvRwSet
parse_rwset (rwset s ∷ []) = some s
parse_rwset _ = none

pub split-append : (s rest : List Token) → split (length s) (s ++ rest) ≡ some (s, rest)
split-append [] rest = refl
split-append (x ∷ s) rest = rw (split-append s rest) refl

abbrev pub tokens : Protobuf
tokens = record {
  Byte = Token;
  write_varint64 = λ n. number n ∷ [];
  read_varint64 = read_number;
  read_string = split;
  payload_as_string = λ p. payload p ∷ [];
  parse_payload = parse_payload;
  rwset_as_string = λ s. rwset s ∷ [];
  parse_rwset = parse_rwset;
  read-write_varint64 = λ n rest small. refl;
  read-string = split-append;
  parse-payload = λ p. refl;
  parse-rwset = λ s. refl;
}

abbrev pub zeros : ℕ → List Token
zeros zero = []
zeros (suc n) = number 0 ∷ zeros n

abbrev pub constant_hash : List Token → Option (List Token)
constant_hash raw = some (zeros 32)
