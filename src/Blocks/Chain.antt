-- ===== src/Blocks/Chain.antt =====
-- The chain that block_storage_to_file.cpp keeps: numbers without a gap, hashes that link.
use myblockchain.Prelude.{
  ℕ, ◌-◌, ◌≡◌, ◌⊎◌, zero, suc, refl, ap, ◌∙◌, List, [], ◌∷◌, map, Bool, some,
}
use myblockchain.Transaction.{MockTransaction}
use myblockchain.Blocks.{
  BlockHelper, Block, BlockStorage, get_latest_saved_epoch, check_signature, block_verifier,
  serialize_all, generate_block_body,
}

module _ (helper : BlockHelper) (can_write : ℕ → Bool) (can_count : Bool) where
  open helper use {
    Text, empty_text, serialize, hash_block, rsa_encrypt, rsa_decrypt, merkle_root, hash,
    results_text, same_text_iff,
  }

  abbrev B : Type 0
  B = Block helper can_write can_count

  abbrev S : Type 0
  S = BlockStorage helper can_write can_count

  abbrev latest : S → ℕ
  latest = get_latest_saved_epoch helper can_write can_count

  -- The block of a number is there, with its number and the hash of its contents.
  pub record Saved (s : S) (k : ℕ) : Type 0 where
    pub block : B
    pub there : s.files k ≡ some block
    pub numbered : block.number ≡ k
    pub hashed : hash_block block.block_data block.metadata ≡ some block.data_hash

  -- The first block, or one that names the hash of the block before it.
  abbrev pub LinksBack : S → ℕ → Text → Type 0
  LinksBack s k previous_hash =
      (k ≡ 1) ⊎ ((p : B) × (s.files (k - 1) ≡ some p) × (previous_hash ≡ p.data_hash))

  pub record Linked (s : S) (k : ℕ) : Type 0 where
    pub this : Saved s k
    pub before : LinksBack s k this.block.previous_hash

  -- Every block from 1 to a number is saved and linked.
  abbrev pub ChainTo : S → ℕ → Type 0
  ChainTo s zero = Unit
  ChainTo s (suc n) = Linked s (suc n) × ChainTo s n

  abbrev pub IsChain : S → Type 0
  IsChain s = ChainTo s (latest s)

  serialize_all_lem :
      ((t : MockTransaction) → (text : Text) × (serialize t ≡ some text))
      → (ts : List MockTransaction)
      → (texts : List Text) × (serialize_all helper can_write can_count ts ≡ some texts)
  unfolding serialize_all
  serialize_all_lem h [] = ([], refl)
  serialize_all_lem h (t ∷ ts) =
      let (text, e) = h t in
      let (texts, es) = serialize_all_lem h ts in (text ∷ texts, rw (serialize_all, e, es) refl)

  abbrev body_of : List Text → Text → S → B
  body_of texts signature s = record {
    number = 0;
    data_hash = empty_text;
    previous_hash = empty_text;
    block_data = texts;
    metadata = results_text (map (λ t. t.result) s.transaction_queue) ∷ empty_text ∷ signature ∷ [];
  }

  generate_block_body_lem :
      ((t : MockTransaction) → (text : Text) × (serialize t ≡ some text))
      → ((x : Text) (xs : List Text) → (root : Text) × (merkle_root (x ∷ xs) ≡ some root))
      → ((root : Text) → (signature : Text) × (rsa_encrypt root ≡ some signature))
      → (s : S) (t : MockTransaction) (ts : List MockTransaction) → s.transaction_queue ≡ t ∷ ts
      → (texts : List Text) × (root signature : Text) × (merkle_root (map hash texts) ≡ some root)
        × (rsa_encrypt root ≡ some signature)
        × (generate_block_body helper can_write can_count s
            ≡ some (body_of texts signature s, record s { transaction_queue = [] }))
  unfolding generate_block_body serialize_all
  generate_block_body_lem serializes roots signs s t ts queue =
      let (text, first) = serializes t in
      let (texts, rest) = serialize_all_lem serializes ts in
      let all : serialize_all helper can_write can_count s.transaction_queue ≡ some (text ∷ texts) =
        ap (serialize_all helper can_write can_count) queue
        ∙ rw (serialize_all, first, rest) refl in
      let (root, rooted) = roots (hash text) (map hash texts) in
      let (signature, signed) = signs root in
      (
        text ∷ texts,
        root,
        signature,
        rooted,
        signed,
        rw (generate_block_body, all, rooted, signed) refl,
      )

  -- When every signature, every serialization and every root of a tree with a leaf succeeds, and there is a
  -- transaction in the queue, a body is generated with a signature of its Merkle root, which
  -- `blockVerifier` sends to the other servers under the block's number; but the test of its signature when
  -- the block is read does not look at it: it holds the text of the results of the transactions against
  -- the Merkle root.
  pub signature_not_checked :
      ((t : MockTransaction) → (text : Text) × (serialize t ≡ some text))
      → ((x : Text) (xs : List Text) → (root : Text) × (merkle_root (x ∷ xs) ≡ some root))
      → ((root : Text) → (signature : Text) × (rsa_encrypt root ≡ some signature))
      → (s : S) (t : MockTransaction) (ts : List MockTransaction) → s.transaction_queue ≡ t ∷ ts
      → (b : B) × (s' : S) × (root signature : Text) × (generate_block_body helper can_write
            can_count s
          ≡ some (b, s'))
        × (merkle_root (map hash b.block_data) ≡ some root)
        × (rsa_encrypt root ≡ some signature)
        × (block_verifier helper can_write can_count b
            ≡ some (record { epoch = b.number; signature = signature }))
        × (check_signature helper can_write can_count b
            ≡ some (rsa_decrypt root (results_text (map (λ t. t.result) s.transaction_queue))))
  unfolding check_signature block_verifier
  signature_not_checked serializes roots signs s t ts queued =
      let (texts, root, signature, rooted, signed, has_body) =
        generate_block_body_lem serializes roots signs s t ts queued in
      (
        body_of texts signature s,
        record s { transaction_queue = [] },
        root,
        signature,
        has_body,
        rooted,
        signed,
        refl,
        rw (check_signature, rooted) refl,
      )
