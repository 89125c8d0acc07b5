-- ===== src/Server/Keys.antt =====
-- The key files that server.cpp makes fit together.
use myblockchain.Prelude.{
  ℕ, ◌+◌, ◌≡◌, ◌≢◌, refl, sym, ap, ◌∙◌, List, [], ◌∷◌, ◌++◌, true, some, String, All, Nodup, length,
  arith,
}
use myblockchain.CryptoSign.{
  OpenSsl, Attempts, Files, generate_key_files, crypto_sign, open_public_key, open_private_key,
}
use myblockchain.CryptoSign.Keys.{crypto_sign-generate_key_files, generate_key_files-other}
use myblockchain.YamlConfig.{
  Yaml, ServerConfigStruct, EpochConfigStruct, init_crypto, get_block_server_ips,
  get_block_server_config, get_epoch_server_config,
}
use myblockchain.Server.{
  server_pairs, epoch_pairs, generate_all, block_server_keys, epoch_server_keys, init_keys,
}

-- The names of the files of the pairs.
abbrev pub names : List (String × String) → List String
names [] = []
names (pair ∷ pairs) = pair.0 ∷ pair.1 ∷ names pairs

module _ (ssl : OpenSsl) (attempts : ℕ → Attempts) (rsa : ℕ → ssl.Rsa) (password : String)
    (context : ssl.Context) where
  -- An object that is made from the two files has the two keys of one pair.
  abbrev pub HasPair : Files ssl → String × String → Type 0
  HasPair files pair =
      (r : ssl.Rsa) × ((crypto_sign ssl context pair.0 pair.1 password files).pub_key
        ≡ some (ssl.public_of r))
      × ((crypto_sign ssl context pair.0 pair.1 password files).piv_key ≡ some (ssl.private_of r))

  abbrev pub Succeeds : Type 0
  Succeeds =
      (n : ℕ) (pub_keyfile pri_keyfile : String) (files : Files ssl)
      → (generate_key_files ssl (attempts n) (rsa n) pub_keyfile pri_keyfile password files).0
        ≡ true

  HasPair-same :
      (files files' : Files ssl) (pair : String × String)
      → files' pair.0 ≡ files pair.0
      → files' pair.1 ≡ files pair.1
      → HasPair files pair
      → HasPair files' pair
  unfolding crypto_sign open_public_key open_private_key
  HasPair-same files files' pair e f h = (h.0, rw e h.1, rw f h.2)

  generate_all-other :
      (n : ℕ) (pairs : List (String × String)) (files : Files ssl) (name : String)
      → Succeeds
      → All (λ x. name ≢ x) (names pairs)
      → generate_all ssl attempts rsa password n pairs files name ≡ files name
  unfolding generate_all
  generate_all-other n [] files name succeeds a = refl
  generate_all-other n ((pub_keyfile, pri_keyfile) ∷ pairs) files name succeeds a =
      generate_all-other (n + 1) pairs _ name succeeds a.1.1
      ∙ generate_key_files-other ssl (attempts n) (rsa n) pub_keyfile pri_keyfile password files
          name (succeeds n pub_keyfile pri_keyfile files) a.0 a.1.0

  generate_all_lem :
      (n : ℕ) (pairs : List (String × String)) (files : Files ssl)
      → Succeeds
      → Nodup (names pairs)
      → All (HasPair (generate_all ssl attempts rsa password n pairs files)) pairs
  unfolding generate_all
  generate_all_lem n [] files succeeds d = tt
  generate_all_lem n ((pub_keyfile, pri_keyfile) ∷ pairs) files succeeds d =
      let next =
        (generate_key_files ssl (attempts n) (rsa n) pub_keyfile pri_keyfile password files).1 in
      let made =
        crypto_sign-generate_key_files ssl (attempts n) (rsa n) pub_keyfile pri_keyfile password
          files context d.0.0 (succeeds n pub_keyfile pri_keyfile files) in
      (
        HasPair-same next _ (pub_keyfile, pri_keyfile)
            (generate_all-other (n + 1) pairs next pub_keyfile succeeds d.0.1)
            (generate_all-other (n + 1) pairs next pri_keyfile succeeds d.1.0)
            (rsa n, made.0, made.1),
        generate_all_lem (n + 1) pairs next succeeds d.1.1,
      )

  generate_all-++ :
      (n : ℕ) (xs ys : List (String × String)) (files : Files ssl)
      → generate_all ssl attempts rsa password n (xs ++ ys) files
        ≡ generate_all ssl attempts rsa password
            (n + length xs)
            ys
            (generate_all ssl attempts rsa password n xs files)
  unfolding generate_all
  generate_all-++ n [] ys files =
      ap (λ m. generate_all ssl attempts rsa password m ys files) (omega arith)
  generate_all-++ n ((pub_keyfile, pri_keyfile) ∷ xs) ys files =
      let next =
        (generate_key_files ssl (attempts n) (rsa n) pub_keyfile pri_keyfile password files).1 in
      generate_all-++ (n + 1) xs ys next
      ∙ ap
          (λ m.
            generate_all ssl attempts rsa password m ys
              (generate_all ssl attempts rsa password (n + 1) xs next))
          (omega arith)

  module _ (yaml : Yaml) (config : yaml.Node) where
    -- The servers of a list have configurations, with these pairs of files.
    abbrev pub Configured : List String → List (String × String) → Type 0
    Configured [] pairs = pairs ≡ []
    Configured (ip ∷ ips) pairs =
        (c : ServerConfigStruct) × (rest : List (String × String)) × (get_block_server_config yaml
            ip config
          ≡ some (some c))
        × (pairs ≡ server_pairs c ++ rest)
        × Configured ips rest

    block_server_keys_lem :
        (n : ℕ) (ips : List String) (pairs : List (String × String)) (files : Files ssl)
        → Configured ips pairs
        → block_server_keys ssl attempts rsa password yaml n ips config files
          ≡ (true, n + length pairs, generate_all ssl attempts rsa password n pairs files)
    unfolding block_server_keys generate_all
    block_server_keys_lem n [] pairs files h = rw h (ap (λ m. (true, m, files)) (omega arith))
    block_server_keys_lem n (ip ∷ ips) pairs files (c, rest, found, same, others) =
        let next = generate_all ssl attempts rsa password n (server_pairs c) files in
        rw (block_server_keys, found)
          (rw same (
            block_server_keys_lem (n + 1 + 1) ips rest next others
            ∙ ap (λ m. (true, m, generate_all ssl attempts rsa password (n + 1 + 1) rest next))
                (omega arith)))

    -- When the configuration asks for keys and has an entry for every server that it lists and for the
    -- epoch server, no file is named twice, and every call that makes a pair succeeds, the program goes
    -- on with key files for every server, its users and the epoch server: from the two files of each, an
    -- object has the two keys of one pair.
    pub init_keys_lem :
        (ips : List String) (pairs : List (String × String)) (epoch : EpochConfigStruct)
        (files : Files ssl)
        → init_crypto yaml config ≡ some true
        → get_block_server_ips yaml config ≡ some ips
        → Configured ips pairs
        → get_epoch_server_config yaml config ≡ some (some epoch)
        → Nodup (names (pairs ++ epoch_pairs epoch))
        → Succeeds
        → let after = init_keys ssl attempts rsa password yaml config files in
          (after.0 ≡ true) × All (HasPair after.1) (pairs ++ epoch_pairs epoch)
    unfolding init_keys epoch_server_keys
    init_keys_lem ips pairs epoch files wanted listed servers one once succeeds =
        let after : init_keys ssl attempts rsa password yaml config files
            ≡ (true, generate_all ssl attempts rsa password 0 (pairs ++ epoch_pairs epoch) files) =
          rw (init_keys, wanted, listed, block_server_keys_lem 0 ips pairs files servers)
            (rw (epoch_server_keys, one)
              (ap (λ made. (true, made))
                (sym (generate_all-++ 0 pairs (epoch_pairs epoch) files)))) in
        rw after (refl, generate_all_lem 0 (pairs ++ epoch_pairs epoch) files succeeds once)
