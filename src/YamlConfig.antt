-- ===== src/YamlConfig.antt =====
-- src/common/yaml_config.cpp: the configuration, and the receivers that the constructor of
-- src/block_server/comm/client_proxy/comm_controller.cpp starts from it. The yaml-cpp library is a
-- parameter.
use myblockchain.Prelude.{
  ℕ, suc, ◌+◌, ◌≡◌, ap, sym, is_some, ◌∙◌, List, [], ◌∷◌, Bool, not, Option, none, some, String,
  string_key, length, keep, arith, Option-cases, Bool-cases, inl, inr,
}

-- A node of a document: its child under a key, `none` when it is not defined; its elements and their
-- number; and its value as a text or a truth value, `none` for an exception.
pub record Yaml : Type 1 where
  pub Node : Type 0
  pub child : Node → String → Option Node
  pub items : Node → List Node
  pub size : Node → ℕ
  pub as_string : Node → Option String
  pub as_bool : Node → Option Bool
  pub size_items : (node : Node) → size node ≡ length (items node)

pub record ServerConfigStruct : Type 0 where
  pub ip : String
  pub pub_file_path : String
  pub pri_file_path : String
  pub usr_pub_file_path : String
  pub usr_pri_file_path : String

pub record EpochConfigStruct : Type 0 where
  pub pub_file_path : String
  pub pri_file_path : String

infixl 10 ◌>>=◌
abbrev ◌>>=◌ : {A B : Type 0} → Option A → (A → Option B) → Option B
(none >>= f) = none
(some a >>= f) = f a

abbrev length_or : Option (List String) → ℕ
length_or none = 0
length_or (some ips) = length ips

module _ (yaml : Yaml) where
  open yaml use {Node, child, items, size, as_string, as_bool}

  -- The loop over the elements of a node.
  unfoldable pub all_strings : List Node → Option (List String)
  all_strings [] = some []
  all_strings (node ∷ nodes) =
      as_string node >>= (λ ip. all_strings nodes >>= (λ ips. some (ip ∷ ips)))

  -- In all that follows an outer `none` is an exception.
  unfoldable pub ips_under : String → Node → Option (List String)
  ips_under key config = elim (child config key) [
    | none ↦ some []
    | some node ↦ all_strings (items node)
  ]

  unfoldable pub get_block_server_ips : Node → Option (List String)
  get_block_server_ips config = ips_under "server_ips" config

  unfoldable pub get_block_server_const : Node → ℕ
  get_block_server_const config = elim (child config "server_ips") [
    | none ↦ 0
    | some node ↦ size node
  ]

  unfoldable pub get_epoch_server_ips : Node → Option (List String)
  get_epoch_server_ips config = ips_under "epoch_ips" config

  -- `data[key].as<std::string>()`
  abbrev pub string_under : Node → String → Option String
  string_under node key = child node key >>= as_string

  -- The inner `none` is a null pointer.
  unfoldable pub get_block_server_config : String → Node → Option (Option ServerConfigStruct)
  get_block_server_config ip config = child config "server_data" >>= (λ servers.
      elim (child servers ip) [
        | none ↦ some none
        | some server ↦ string_under server "public_crt" >>= (λ pub_path.
            string_under server "private_crt" >>= (λ pri_path.
              string_under server "user_public_crt" >>= (λ usr_pub_path.
                string_under server "user_private_crt" >>= (λ usr_pri_path. some (
                  some (record {
                    ip = ip;
                    pub_file_path = pub_path;
                    pri_file_path = pri_path;
                    usr_pub_file_path = usr_pub_path;
                    usr_pri_file_path = usr_pri_path;
                  }))))))
      ])

  unfoldable pub get_epoch_server_config : Node → Option (Option EpochConfigStruct)
  get_epoch_server_config config = elim (child config "epoch_data") [
    | none ↦ some none
    | some server ↦ string_under server "public_crt" >>= (λ pub_path.
        string_under server "private_crt" >>= (λ pri_path.
          some (some (record { pub_file_path = pub_path; pri_file_path = pri_path }))))
  ]

  unfoldable pub init_crypto : Node → Option Bool
  init_crypto config = child config "init_crypto" >>= as_bool

  unfoldable pub reset_epoch : Node → Option Bool
  reset_epoch config = child config "reset_epoch" >>= as_bool

  unfoldable pub get_local_block_server_ip : Node → Option String
  get_local_block_server_ip config = string_under config "local_server_ip"

  -- The one instance, from what a file name loads and the instance so far; `none` is a failed CHECK.
  unfoldable pub get_instance : (String → Option Node) → Option Node → Option Node
  get_instance load_file (some config) = some config
  get_instance load_file none = elim (load_file "config.yaml") [
    | some config ↦ some config
    | none ↦ load_file "/tmp/config.yaml"
  ]

  -- The servers for which the controller starts a receiver.
  unfoldable pub remote_receivers : String → List String → List String
  remote_receivers local_ip ips = keep (λ ip. not (string_key.beq ip local_ip)) ips

  all_strings_lem :
      (nodes : List Node) (ips : List String)
      → all_strings nodes ≡ some ips
      → length ips ≡ length nodes
  unfolding all_strings
  all_strings_lem [] ips h = sym (ap length_or h)
  all_strings_lem (node ∷ nodes) ips h = elim (Option-cases (as_string node)) [
    | inl e ↦
        let fails : none ≡ some ips = unfold all_strings in rw (all_strings, e) at h in
        ground (arith, ap is_some fails)
    | inr (ip, e) ↦ elim (Option-cases (all_strings nodes)) [
      | inl f ↦
          let fails : none ≡ some ips = unfold all_strings in rw (all_strings, e, f) at h in
          ground (arith, ap is_some fails)
      | inr (rest, f) ↦
          let made : some (ip ∷ rest) ≡ some ips =
            unfold all_strings in rw (all_strings, e, f) at h in
          sym (ap length_or made) ∙ ap suc (all_strings_lem nodes rest f)
    ]
  ]

  ips_lem :
      (config : Node) (ips : List String)
      → get_block_server_ips config ≡ some ips
      → get_block_server_const config ≡ length ips
  unfolding get_block_server_ips ips_under get_block_server_const
  ips_lem config ips h = elim (Option-cases (child config "server_ips")) [
    | inl e ↦
        let empty : some [] ≡ some ips =
          unfold get_block_server_ips ips_under in rw (get_block_server_ips, ips_under, e) at h in
        rw (get_block_server_const, e) (ap length_or empty)
    | inr (node, e) ↦
        let read : all_strings (items node) ≡ some ips =
          unfold get_block_server_ips ips_under in rw (get_block_server_ips, ips_under, e) at h in
        rw (get_block_server_const, e)
          (yaml.size_items node ∙ sym (all_strings_lem (items node) ips read))
  ]

  -- The elements that pass a test and those that do not.
  keep-not :
      (p : String → Bool) (ips : List String)
      → length (keep p ips) + length (keep (λ ip. not (p ip)) ips) ≡ length ips
  keep-not p [] = omega arith
  keep-not p (ip ∷ ips) = elim (Bool-cases (p ip)) [
    | inl yes_p ↦ rw yes_p (omega (arith, keep-not p ips))
    | inr no_p ↦ rw no_p (omega (arith, keep-not p ips))
  ]

  -- When the list of servers can be read and the local server stands in it once, the threads that come
  -- to the barrier of the communication controller, the local receiver and one for each other server,
  -- are as many as the barrier waits for.
  pub remote_receivers-get_block_server_const :
      (config : Node) (local_ip : String) (ips : List String)
      → get_block_server_ips config ≡ some ips
      → length (keep (λ ip. string_key.beq ip local_ip) ips) ≡ 1
      → length (remote_receivers local_ip ips) + 1 ≡ get_block_server_const config
  unfolding remote_receivers
  remote_receivers-get_block_server_const config local_ip ips read once =
      let all = ips_lem config ips read in
      let parts = keep-not (λ ip. string_key.beq ip local_ip) ips in omega (arith, once, all, parts)
