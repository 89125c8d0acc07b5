-- ===== src/Tests/Config.antt =====
-- Keys, signatures, the configuration and the client at concrete inputs.
use myblockchain.Prelude.{
  ℕ, ◌+◌, ◌≡◌, ◌≢◌, ◌↔◌, refl, List, [], ◌∷◌, true, Option, none, some, if◌then◌else◌, String,
  string_key, arith, length,
}
use myblockchain.CryptoSign.{OpenSsl, Verdict, CryptoSign, Attempts, Files, rsa_decrypt}
use myblockchain.CryptoSign.Keys.{rsa_decrypt_lem}
use myblockchain.YamlConfig.{
  Yaml, get_block_server_ips, ips_under, all_strings, get_block_server_const, remote_receivers,
  remote_receivers-get_block_server_const,
}
use myblockchain.User.{UserLibrary, run, Counted, run_lem}

-- A signature is the message itself; a file has the number of the pair and the password.
abbrev toy_verify : String → String → Option ℕ → Verdict × String
toy_verify c signature none = (Verdict.error, c)
toy_verify c signature (some key) =
    (if string_key.beq c signature then Verdict.accepted else Verdict.refused, c)

abbrev toy_read : Option (ℕ × String) → String → Option ℕ
toy_read none password = none
toy_read (some (rsa, text)) password = if string_key.beq text password then some rsa else none

abbrev pub toy_ssl : OpenSsl
toy_ssl = record {
  Context = String;
  PublicKey = ℕ;
  PrivateKey = ℕ;
  Rsa = ℕ;
  File = Option (ℕ × String);
  empty_file = none;
  md_init = λ c. "";
  sign_init = λ c. (true, c);
  sign_update = λ c message. (true, message);
  sign_final = λ c key. (true, c, c);
  verify_init = λ c. (true, c);
  verify_update = λ c message. (true, message);
  verify_final = toy_verify;
  public_of = λ rsa. rsa;
  private_of = λ rsa. rsa;
  write_public = λ rsa. some (rsa, "");
  write_private = λ rsa password. some (rsa, password);
  read_public = λ file. toy_read file "";
  read_private = toy_read;
  read-write_public = λ rsa. refl;
  read-write_private = λ rsa password. rw ((string_key.beq_iff password password).1 refl) refl;
}

abbrev pub all_work : Attempts
all_work = record {
  bio_new = true;
  write_filename = true;
  pem_public = true;
  bio_new_file = true;
  pem_private = true;
}

abbrev pub no_files : Files toy_ssl
no_files name = none

-- An object whose public key could not be read.
abbrev no_key : CryptoSign toy_ssl
no_key = record { md_context = ""; pub_key = none; piv_key = some 7 }

rsa_decrypt_lem_example :
    ((rsa_decrypt toy_ssl "message" "forged" no_key).0 ≡ true)
    ↔ ((true ≡ true) × (true ≡ true) × (Verdict.error ≢ Verdict.refused))
rsa_decrypt_lem_example = rsa_decrypt_lem toy_ssl "message" "forged" no_key

-- A document: a text with its children, or a list of texts.
pub data Document : Type 0 where
  text : String → Document
  sequence : List String → Document
  mapping : List (String × List String) → Document

abbrev find : List (String × List String) → String → Option Document
find [] key = none
find ((name, ips) ∷ rest) key =
    if string_key.beq name key then some (sequence ips) else find rest key

abbrev texts : List String → List Document
texts [] = []
texts (t ∷ ts) = text t ∷ texts ts

abbrev elements : Document → List Document
elements (text t) = []
elements (sequence ts) = texts ts
elements (mapping entries) = []

abbrev toy_yaml : Yaml
toy_yaml = record {
  Node = Document;
  child = λ node key. elim node [ mapping entries ↦ find entries key | _ ↦ none ];
  items = elements;
  size = λ node. length (elements node);
  as_string = λ node. elim node [ text t ↦ some t | _ ↦ none ];
  as_bool = λ node. none;
  size_items = λ node. refl;
}

abbrev two_servers : Document
two_servers = mapping (("server_ips", "10.0.0.1" ∷ "10.0.0.2" ∷ []) ∷ [])

remote_receivers-get_block_server_const_example :
    length (remote_receivers toy_yaml "10.0.0.1" ("10.0.0.1" ∷ "10.0.0.2" ∷ [])) + 1
    ≡ get_block_server_const toy_yaml two_servers
unfolding get_block_server_ips ips_under all_strings
remote_receivers-get_block_server_const_example =
    remote_receivers-get_block_server_const toy_yaml two_servers "10.0.0.1"
      ("10.0.0.1" ∷ "10.0.0.2" ∷ []) refl refl

abbrev toy_library : UserLibrary
toy_library = record {
  gcounter_payload = "lhx";
  payload_as_string = λ p. p.header;
  blank = "";
  stoi = λ text. none;
}

run_lem_example :
    Counted toy_ssl toy_library 5
      (1644537600 ∷ 1644537600 ∷ [])
      (run toy_ssl toy_library (1644537600 ∷ 1644537600 ∷ []) 5 no_key)
run_lem_example =
    run_lem toy_ssl toy_library (1644537600 ∷ 1644537600 ∷ []) 5 no_key
      (omega arith, (omega arith, tt)) (omega arith)
