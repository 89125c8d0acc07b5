-- ===== src/Blocks.antt =====
-- The chain of blocks on disk: src/block_server/database/impl/block_storage_to_file.cpp, with
-- addCommittedTransaction and generateBlock of block_generator_impl.cpp. The hash, the signature and
-- the Merkle tree are parameters, and so is whether the disk takes a file.
pub mod Chain
use myblockchain.Prelude.{
  ℕ, ◌+◌, ◌≡◌, ◌↔◌, List, [], ◌∷◌, map, Bool, true, false, Option, none, some, ltb, if◌then◌else◌,
}
use myblockchain.HashMap.{update}
use myblockchain.Transaction.{MockTransaction, TransactionResult}

-- What the storage calls: `hash_block` is the hash of the data with the metadata appended, and
-- `merkle_root` adds the texts to a new tree and reads its root; `none` when a CHECK on that fails, or when
-- the root cannot be read, as for a tree without a leaf.
pub record BlockHelper : Type 1 where
  pub Text : Type 0
  pub empty_text : Text
  pub same_text : Text → Text → Bool
  pub same_text_iff : (a b : Text) → (same_text a b ≡ true) ↔ (a ≡ b)
  pub serialize : MockTransaction → Option Text
  pub results_text : List TransactionResult → Text
  pub hash : Text → Text
  pub hash_block : List Text → List Text → Option Text
  pub merkle_root : List Text → Option Text
  pub rsa_encrypt : Text → Option Text
  pub rsa_decrypt : Text → Text → Bool

module _ (helper : BlockHelper) (can_write : ℕ → Bool) (can_count : Bool) where
  open helper use {
    Text, empty_text, same_text, serialize, results_text, hash, hash_block, merkle_root,
    rsa_encrypt, rsa_decrypt,
  }

  pub record Block : Type 0 where
    pub number : ℕ
    pub data_hash : Text
    pub previous_hash : Text
    pub block_data : List Text
    pub metadata : List Text

  -- The files <number>.bin, the file block_num.txt, and the queue with the largest id first.
  pub record BlockStorage : Type 0 where
    pub files : ℕ → Option Block
    pub block_num : Option ℕ
    pub transaction_queue : List MockTransaction

  unfoldable pub insert_block : Block → BlockStorage → Bool × BlockStorage
  insert_block block s =
      if can_write block.number
      then (true, record s { files = update s.files block.number (some block) })
      else (false, s)

  -- A file that is missing or cannot be parsed is `none`.
  abbrev pub load_block : ℕ → BlockStorage → Option Block
  load_block number s = s.files number

  abbrev pub get_latest_saved_epoch : BlockStorage → ℕ
  get_latest_saved_epoch s = elim s.block_num [ none ↦ 0 | some epoch ↦ epoch ]

  unfoldable pub update_latest_saved_epoch : ℕ → BlockStorage → Bool × BlockStorage
  update_latest_saved_epoch epoch s =
      if can_count then (true, record s { block_num = some epoch }) else (false, s)

  unfoldable pub append_block : Block → BlockStorage → Bool × BlockStorage
  append_block block s =
      let (inserted, s1) = insert_block block s in
      if inserted then update_latest_saved_epoch block.number s1 else (false, s1)

  -- The test of the signature in `deserializeBlock`: it takes the first entry of the metadata. `none` is
  -- a failed CHECK, here and below.
  unfoldable pub check_signature : Block → Option Bool
  check_signature block = elim (merkle_root (map hash block.block_data)) [
    | none ↦ none
    | some root ↦ elim block.metadata [
      | [] ↦ some false
      | first ∷ [] ↦ some false
      | first ∷ second ∷ rest ↦ some (rsa_decrypt root first)
    ]
  ]

  -- `none` within where the source returns false.
  unfoldable pub deserialize_block : ℕ → Bool → BlockStorage → Option (Option Block)
  deserialize_block epoch checksum s = elim (load_block epoch s) [
    | none ↦ some none
    | some block ↦ elim (hash_block block.block_data block.metadata) [
      | none ↦ some none
      | some h ↦
          if same_text h block.data_hash
          then (if checksum
              then (elim (check_signature block) [
                | none ↦ none
                | some valid ↦ if valid then some (some block) else some none
              ])
              else some (some block))
          else some none
    ]
  ]

  -- Into the priority queue.
  unfoldable pub push_by_id : MockTransaction → List MockTransaction → List MockTransaction
  push_by_id t [] = t ∷ []
  push_by_id t (u ∷ us) = if ltb u.tid t.tid then t ∷ u ∷ us else u ∷ push_by_id t us

  unfoldable pub add_pending_transaction : MockTransaction → BlockStorage → BlockStorage
  add_pending_transaction t s = record s { transaction_queue = push_by_id t s.transaction_queue }

  unfoldable pub serialize_all : List MockTransaction → Option (List Text)
  serialize_all [] = some []
  serialize_all (t ∷ ts) = elim (serialize t) [
    | none ↦ none
    | some text ↦ elim (serialize_all ts) [ none ↦ none | some rest ↦ some (text ∷ rest) ]
  ]

  -- The metadata: the results, an entry that stays empty, and the signature.
  unfoldable pub generate_block_body : BlockStorage → Option (Block × BlockStorage)
  generate_block_body s = elim (serialize_all s.transaction_queue) [
    | none ↦ none
    | some texts ↦ elim (merkle_root (map hash texts)) [
      | none ↦ none
      | some root ↦ elim (rsa_encrypt root) [
        | none ↦ none
        | some signature ↦ some (
          record {
            number = 0;
            data_hash = empty_text;
            previous_hash = empty_text;
            block_data = texts;
            metadata =
                results_text (map (λ t. t.result) s.transaction_queue)
                ∷ empty_text
                ∷ signature
                ∷ [];
          },
          record s { transaction_queue = [] },
        )
      ]
    ]
  ]

  -- The block with its header, or `none` within where the source returns false.
  unfoldable pub generate_block_header : Block → BlockStorage → Option (Option Block)
  generate_block_header block s = elim (hash_block block.block_data block.metadata) [
    | none ↦ some none
    | some h ↦
        let last_epoch = get_latest_saved_epoch s in
        let block' = record block { data_hash = h; number = last_epoch + 1 } in
        if ltb 0 last_epoch
        then (elim (deserialize_block last_epoch false s) [
          | none ↦ none
          | some none ↦ none
          | some (some previous) ↦
              some (some (record block' { previous_hash = previous.data_hash }))
        ])
        else some (some block')
  ]

  -- `initFunc`, which writes 0 into the file block_num.txt when it can be opened.
  unfoldable pub init_func : BlockStorage → BlockStorage
  init_func s = if can_count then record s { block_num = some 0 } else s

  -- What goes to the other servers for a block.
  pub record SignatureExchange : Type 0 where
    pub epoch : ℕ
    pub signature : Text

  -- A round of `blockVerifier` with the next block of its buffer.
  unfoldable pub block_verifier : Block → Option SignatureExchange
  block_verifier block = elim block.metadata [
    | first ∷ second ∷ third ∷ rest ↦ some (record { epoch = block.number; signature = third })
    | _ ↦ none
  ]

  -- `generateBlock` up to the buffer of the verifier.
  unfoldable pub generate_block : BlockStorage → Option (Bool × BlockStorage)
  generate_block s = elim (generate_block_body s) [
    | none ↦ none
    | some (block, s1) ↦ elim (generate_block_header block s1) [
      | none ↦ none
      | some none ↦ some (false, s1)
      | some (some block') ↦ some (append_block block' s1)
    ]
  ]
