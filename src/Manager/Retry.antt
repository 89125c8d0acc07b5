-- ===== src/Manager/Retry.antt =====
-- The words in which the end of an epoch in transaction_manager_impl.cpp is stated: which
-- transactions are sent again, and as what.
use mathlib.Core.List.{append_assoc, append-nil}
use myblockchain.Prelude.{
  ℕ, ◌+◌, ◌≡◌, sym, ◌∙◌, ap, List, [], ◌∷◌, ◌++◌, Bool, true, false, ◌==◌, any, keep,
}
use myblockchain.Transaction.{MockTransaction, TransactionResult, empty_rwset}
use myblockchain.Transaction.Wrapper.{Heap, TransactionWrapper}

-- The transactions of the wrappers, in their order.
abbrev pub all_transactions : List TransactionWrapper → List ℕ
all_transactions [] = []
all_transactions (w ∷ ws) = w.transaction_list ++ all_transactions ws

abbrev pub is_abort : TransactionResult → Bool
is_abort TransactionResult.abort = true
is_abort _ = false

abbrev pub is_final : TransactionResult → Bool
is_final TransactionResult.commit = true
is_final TransactionResult.abort_no_retry = true
is_final _ = false

abbrev pub aborted : Heap → List ℕ → List ℕ
aborted heap = keep (λ t. is_abort (heap t).result)

abbrev pub final : Heap → List ℕ → List ℕ
final heap = keep (λ t. is_final (heap t).result)

abbrev pub is_in : ℕ → List ℕ → Bool
is_in a = any (λ t. t == a)

-- A transaction as it is sent again.
abbrev pub retried : ℕ → MockTransaction → MockTransaction
retried epoch t = record t {
  epoch = epoch + 1;
  rwset = empty_rwset;
  result = TransactionResult.pending;
}

pub all_transactions-append :
    (ws : List TransactionWrapper) (w : TransactionWrapper)
    → all_transactions (ws ++ (w ∷ [])) ≡ all_transactions ws ++ w.transaction_list
all_transactions-append [] w = append-nil w.transaction_list
all_transactions-append (v ∷ ws) w =
    ap (◌++◌ v.transaction_list) (all_transactions-append ws w)
    ∙ sym (append_assoc v.transaction_list (all_transactions ws) w.transaction_list)
