-- ===== src/Transaction/Wrapper.antt =====
-- include/blockserver/transaction/transaction_wrapper.h: a batch of transactions of one epoch.
-- A `Transaction*` is an address into a heap of transactions, and `none` is the null pointer.
use myblockchain.Prelude.{
  ℕ, ◌≡◌, refl, List, [], ◌∷◌, ◌++◌, Bool, true, false, Option, none, some, arith, ◌==◌,
  if◌then◌else◌, length, All, All-append, Bool-cases, inl, inr, ==_iff,
}
use myblockchain.Transaction.{MockTransaction}

abbrev pub Heap : Type 0
Heap = ℕ → MockTransaction

pub record TransactionWrapper : Type 0 where
  pub epoch : ℕ
  pub transaction_list : List ℕ

abbrev pub transaction_wrapper : ℕ → TransactionWrapper
transaction_wrapper epoch = record { epoch = epoch; transaction_list = [] }

abbrev pub set_epoch : ℕ → TransactionWrapper → TransactionWrapper
set_epoch epoch w = record w { epoch = epoch }

abbrev pub size : TransactionWrapper → ℕ
size w = length w.transaction_list

unfoldable pub push_transaction : Heap → Option ℕ → TransactionWrapper → Bool × TransactionWrapper
push_transaction heap none w = (false, w)
push_transaction heap (some t) w =
    if (heap t).epoch == w.epoch
    then (true, record w { transaction_list = w.transaction_list ++ (t ∷ []) })
    else (false, w)

unfoldable pub push_transaction_uncheck : Option ℕ → TransactionWrapper → TransactionWrapper
push_transaction_uncheck none w = w
push_transaction_uncheck (some t) w = record w { transaction_list = w.transaction_list ++ (t ∷ []) }

-- The overloads for a vector and for another wrapper.
unfoldable pub push_list_uncheck : List ℕ → TransactionWrapper → TransactionWrapper
push_list_uncheck ts w = record w { transaction_list = w.transaction_list ++ ts }

unfoldable pub push_wrapper_uncheck : TransactionWrapper → TransactionWrapper → TransactionWrapper
unfolding push_list_uncheck
push_wrapper_uncheck another w = push_list_uncheck another.transaction_list w

-- `back` with `pop_back`; on an empty vector both are undefined.
unfoldable pub unsnoc {ℓ} : {A : Type ℓ} → List A → Option (A × List A)
unsnoc [] = none
unsnoc (x ∷ xs) = elim (unsnoc xs) [ none ↦ some (x, []) | some (y, ys) ↦ some (y, x ∷ ys) ]

unfoldable pub pop_transaction : TransactionWrapper → Option (ℕ × TransactionWrapper)
unfolding unsnoc
pop_transaction w = elim (unsnoc w.transaction_list) [
  | none ↦ none
  | some (t, rest) ↦ some (t, record w { transaction_list = rest })
]

pub unsnoc-append {ℓ} : {A : Type ℓ} (xs : List A) (x : A) → unsnoc (xs ++ (x ∷ [])) ≡ some (x, xs)
unfolding unsnoc
unsnoc-append [] x = refl
unsnoc-append (y ∷ xs) x = rw (unsnoc-append xs x)

-- Every transaction of the wrapper is of its epoch.
abbrev pub IsValid : Heap → TransactionWrapper → Type 0
IsValid heap w = All (λ t. (heap t).epoch ≡ w.epoch) w.transaction_list

-- A transaction of the wrapper's epoch is accepted by a push, and the next pop gives it back with the
-- wrapper as it was before.
pub pop-push :
    (heap : Heap) (t : ℕ) (w : TransactionWrapper)
    → (heap t).epoch ≡ w.epoch
    → ((push_transaction heap (some t) w).0 ≡ true)
      × (pop_transaction (push_transaction heap (some t) w).1 ≡ some (t, w))
unfolding push_transaction pop_transaction
pop-push heap t w same = (ground arith, ground (arith, unsnoc-append w.transaction_list t))

-- Checked pushes keep the wrapper to its epoch.
pub push_transaction-IsValid :
    (heap : Heap) (t : Option ℕ) (w : TransactionWrapper)
    → IsValid heap w
    → IsValid heap (push_transaction heap t w).1
unfolding push_transaction
push_transaction-IsValid heap none w v = v
push_transaction-IsValid heap (some t) w v = elim (Bool-cases ((heap t).epoch == w.epoch)) [
  | inl same ↦
      rw (same, push_transaction)
        (All-append (λ u. (heap u).epoch ≡ w.epoch) w.transaction_list (t ∷ []) v
          ((==_iff (heap t).epoch w.epoch).0 same, tt))
  | inr other ↦ rw (other, push_transaction) v
]
