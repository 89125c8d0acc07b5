-- ===== src/Server.antt =====
-- The start of src/block_server/server.cpp: the key files that a configuration asks for. What its main
-- function starts after that is wiring.
pub mod Keys
use myblockchain.Prelude.{
  ℕ, ◌+◌, List, [], ◌∷◌, ◌++◌, Bool, true, false, Option, none, some, if◌then◌else◌, String,
}
use myblockchain.CryptoSign.{OpenSsl, Attempts, Files, generate_key_files}
use myblockchain.YamlConfig.{
  Yaml, ServerConfigStruct, EpochConfigStruct, init_crypto, get_block_server_ips,
  get_block_server_config, get_epoch_server_config,
}

-- The two pairs of files of a server, its own and its users'.
abbrev pub server_pairs : ServerConfigStruct → List (String × String)
server_pairs c =
    (c.pub_file_path, c.pri_file_path) ∷ (c.usr_pub_file_path, c.usr_pri_file_path) ∷ []

abbrev pub epoch_pairs : EpochConfigStruct → List (String × String)
epoch_pairs c = (c.pub_file_path, c.pri_file_path) ∷ []

-- The n-th call of generateKeyFiles has the n-th attempts and pair of keys. Whether it has success is
-- not looked at.
module _ (ssl : OpenSsl) (attempts : ℕ → Attempts) (rsa : ℕ → ssl.Rsa) (password : String) where
  unfoldable pub generate_all : ℕ → List (String × String) → Files ssl → Files ssl
  generate_all n [] files = files
  generate_all n ((pub_keyfile, pri_keyfile) ∷ pairs) files =
      generate_all (n + 1) pairs
        (generate_key_files ssl (attempts n) (rsa n) pub_keyfile pri_keyfile password files).1

  module _ (yaml : Yaml) where
    -- The loop over the servers: whether the program goes on, the number of calls, and the files. An
    -- exception ends the program, and so does the read through a null pointer.
    unfoldable pub block_server_keys :
        ℕ → List String → yaml.Node → Files ssl → Bool × ℕ × Files ssl
    block_server_keys n [] config files = (true, n, files)
    block_server_keys n (ip ∷ ips) config files = elim (get_block_server_config yaml ip config) [
      | none ↦ (false, n, files)
      | some server ↦ elim server [
        | none ↦ (false, n, files)
        | some c ↦ block_server_keys (n + 1 + 1) ips config (generate_all n (server_pairs c) files)
      ]
    ]

    unfoldable pub epoch_server_keys : ℕ → yaml.Node → Files ssl → Bool × Files ssl
    epoch_server_keys n config files = elim (get_epoch_server_config yaml config) [
      | none ↦ (false, files)
      | some server ↦ elim server [
        | none ↦ (false, files)
        | some c ↦ (true, generate_all n (epoch_pairs c) files)
      ]
    ]

    unfoldable pub init_keys : yaml.Node → Files ssl → Bool × Files ssl
    init_keys config files = elim (init_crypto yaml config) [
      | none ↦ (false, files)
      | some wanted ↦
          if wanted
          then (elim (get_block_server_ips yaml config) [
            | none ↦ (false, files)
            | some ips ↦
                let (goes_on, n, made) = block_server_keys 0 ips config files in
                let rest = epoch_server_keys n config made in
                if goes_on then rest else (false, made)
          ])
          else (true, files)
    ]
