-- ===== src/Tests/Blocks.antt =====
-- The chain of blocks with numbers for texts.
use myblockchain.Prelude.{
  ℕ, ◌+◌, ◌≡◌, refl, [], ◌∷◌, map, Bool, true, none, some, ◌==◌, ==_iff, length,
}
use myblockchain.Transaction.{mock_transaction_of}
use myblockchain.Blocks.{
  BlockHelper, Block, BlockStorage, generate_block_body, check_signature, block_verifier,
}
use myblockchain.Blocks.Chain.{signature_not_checked}

abbrev numbers : BlockHelper
numbers = record {
  Text = ℕ;
  empty_text = 0;
  same_text = ◌==◌;
  same_text_iff = ==_iff;
  serialize = λ t. some t.tid;
  results_text = λ results. length results;
  hash = λ text. text + 1;
  hash_block = λ texts metadata. some (length texts + length metadata);
  merkle_root = λ texts. elim texts [ [] ↦ none | x ∷ xs ↦ some (length xs + 6) ];
  rsa_encrypt = λ root. some root;
  rsa_decrypt = ◌==◌;
}

abbrev any_file : ℕ → Bool
any_file n = true

abbrev one_waiting : BlockStorage numbers any_file true
one_waiting = record {
  files = λ n. none;
  block_num = none;
  transaction_queue = mock_transaction_of 1 7 ∷ [];
}

signature_not_checked_example :
    (b : Block numbers any_file true) × (s : BlockStorage numbers any_file true) × (root
      signature : ℕ)
    × (generate_block_body numbers any_file true one_waiting ≡ some (b, s))
    × (numbers.merkle_root (map (λ n. n + 1) b.block_data) ≡ some root)
    × (some root ≡ some signature)
    × (block_verifier numbers any_file true b
        ≡ some (record { epoch = b.number; signature = signature }))
    × (check_signature numbers any_file true b ≡ some (root == 1))
signature_not_checked_example =
    signature_not_checked numbers any_file true (λ t. (t.tid, refl)) (λ x xs. (length xs + 6, refl))
      (λ root. (root, refl)) one_waiting (mock_transaction_of 1 7) [] refl
