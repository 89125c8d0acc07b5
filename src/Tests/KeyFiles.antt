-- ===== src/Tests/KeyFiles.antt =====
-- The start of a server with a configuration of one server.
use myblockchain.Prelude.{
  ◌≡◌, ◌≢◌, refl, List, [], ◌∷◌, Bool, true, false, Option, none, some, if◌then◌else◌, String,
  string_key, arith, length, All, Nodup, ◌++◌, Bool-cases, inl, inr,
}
use myblockchain.CryptoSign.{generate_key_files}
use myblockchain.YamlConfig.{
  Yaml, ServerConfigStruct, EpochConfigStruct, init_crypto, get_block_server_ips, ips_under,
  all_strings, get_block_server_config, get_epoch_server_config,
}
use myblockchain.Server.{server_pairs, epoch_pairs, init_keys}
use myblockchain.Server.Keys.{HasPair, names, init_keys_lem}
use myblockchain.Tests.Config.{toy_ssl, all_work, no_files}

-- A document: a text, a truth value, a list of texts, or a mapping, entry by entry.
pub data Tree : Type 0 where
  leaf : String → Tree
  flag : Bool → Tree
  row : List String → Tree
  empty : Tree
  entry : String → Tree → Tree → Tree

abbrev under : Tree → String → Option Tree
under (leaf text) key = none
under (flag b) key = none
under (row texts) key = none
under empty key = none
under (entry name child rest) key = if string_key.beq name key then some child else under rest key

abbrev leaves : List String → List Tree
leaves [] = []
leaves (text ∷ texts) = leaf text ∷ leaves texts

abbrev elements : Tree → List Tree
elements (row texts) = leaves texts
elements (leaf text) = []
elements (flag b) = []
elements empty = []
elements (entry name child rest) = []

abbrev tree_yaml : Yaml
tree_yaml = record {
  Node = Tree;
  child = under;
  items = elements;
  size = λ node. length (elements node);
  as_string = λ node. elim node [ leaf text ↦ some text | _ ↦ none ];
  as_bool = λ node. elim node [ flag b ↦ some b | _ ↦ none ];
  size_items = λ node. refl;
}

abbrev server_entry : Tree
server_entry = entry "public_crt" (leaf "s.pub") (
    entry "private_crt" (leaf "s.pri")
      (entry "user_public_crt" (leaf "u.pub") (entry "user_private_crt" (leaf "u.pri") empty)))

abbrev one_server : Tree
one_server = entry "init_crypto" (flag true) (
    entry "server_ips" (row ("10.0.0.1" ∷ [])) (
      entry "server_data" (entry "10.0.0.1" server_entry empty) (
        entry "epoch_data"
          (entry "public_crt" (leaf "e.pub") (entry "private_crt" (leaf "e.pri") empty)) empty)))

abbrev the_server : ServerConfigStruct
the_server = record {
  ip = "10.0.0.1";
  pub_file_path = "s.pub";
  pri_file_path = "s.pri";
  usr_pub_file_path = "u.pub";
  usr_pri_file_path = "u.pri";
}

abbrev the_epoch : EpochConfigStruct
the_epoch = record { pub_file_path = "e.pub"; pri_file_path = "e.pri" }

-- A test for a list of names without a repetition.
abbrev is_new : String → List String → Bool
is_new x [] = true
is_new x (y ∷ ys) = if string_key.beq x y then false else is_new x ys

abbrev all_new : List String → Bool
all_new [] = true
all_new (x ∷ xs) = if is_new x xs then all_new xs else false

is_new_lem : (x : String) (ys : List String) → is_new x ys ≡ true → All (λ y. x ≢ y) ys
is_new_lem x [] h = tt
is_new_lem x (y ∷ ys) h = elim (Bool-cases (string_key.beq x y)) [
  | inl same ↦ let broken = (rw same at h) in ground (arith, broken)
  | inr other ↦ (
    λ e. let same = (string_key.beq_iff x y).1 e in ground (arith, same, other),
    is_new_lem x ys (rw other at h),
  )
]

all_new_lem : (xs : List String) → all_new xs ≡ true → Nodup xs
all_new_lem [] h = tt
all_new_lem (x ∷ xs) h = elim (Bool-cases (is_new x xs)) [
  | inl new ↦ (is_new_lem x xs new, all_new_lem xs (rw new at h))
  | inr old ↦ let broken = (rw old at h) in ground (arith, broken)
]

init_keys_lem_example :
    let after = init_keys toy_ssl (λ n. all_work) (λ n. n) "secret" tree_yaml one_server no_files in
    (after.0 ≡ true)
    × All
        (HasPair toy_ssl (λ n. all_work) (λ n. n) "secret" "" after.1)
        ((server_pairs the_server ++ []) ++ epoch_pairs the_epoch)
unfolding generate_key_files init_crypto get_block_server_ips ips_under all_strings
    get_block_server_config get_epoch_server_config
init_keys_lem_example =
    init_keys_lem toy_ssl (λ n. all_work) (λ n. n) "secret" "" tree_yaml one_server
      ("10.0.0.1" ∷ []) (server_pairs the_server ++ []) the_epoch no_files refl refl
      (the_server, [], refl, refl, refl) refl
      (all_new_lem (names ((server_pairs the_server ++ []) ++ epoch_pairs the_epoch)) refl)
      (λ n pub_keyfile pri_keyfile files. refl)
