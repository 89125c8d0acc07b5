-- ===== src/Comm/Null.antt =====
-- When getTransaction of comm_controller.cpp gives the null pointer.
use myblockchain.Prelude.{
  ℕ, ◌≤◌, ◌<◌, ◌≡◌, ap, List, [], ◌∷◌, true, false, Option, none, some, arith, ◌==◌, ==_iff, All,
  Bool-cases, is_some, inl, inr, subst,
}
use myblockchain.Transaction.Wrapper.{Heap, TransactionWrapper}
use myblockchain.Comm.{CommController, Arrivals, comes_after, other_epoch, get_transaction}
use myblockchain.Comm.Queue.{count, IsSorted, comes_after-epoch}
use myblockchain.Comm.Supply.{Outcome, Outcome-weaken, all_arrivals, supply}
use myblockchain.Comm.Give.{Given, get_transaction_lem}

pub All-count : (P : ℕ → Type 0) (t : ℕ) (xs : List ℕ) → All P xs → 0 < count t xs → P t
All-count P t [] v h = absurd (omega arith)
All-count P t (x ∷ xs) v h = elim (Bool-cases (x == t)) [
  | inl same ↦ subst P ((==_iff x t).0 same) v.0
  | inr other ↦ All-count P t xs v.1 (ground (arith, other, h))
]

module _ (heap : Heap) (epoch : ℕ) where
  abbrev pub Current : ℕ → Type 0
  Current t = epoch ≤ (heap t).epoch

  abbrev pub Later : ℕ → Type 0
  Later t = epoch < (heap t).epoch

  -- Behind a top of a later epoch stands nothing of the epoch.
  All-Later :
      (t : ℕ) (queue : List ℕ)
      → Later t
      → All (λ u. comes_after heap t u ≡ false) queue
      → All Later queue
  All-Later t [] h v = tt
  All-Later t (u ∷ us) h v =
      let least = comes_after-epoch heap t u v.0 in (omega arith, All-Later t us h v.1)

  supplied :
      (t : ℕ) (s : CommController) (arrivals : Arrivals)
      → All Current s.processed_transaction
      → All Current s.broadcast_transactions
      → All Current (all_arrivals arrivals)
      → 0 < supply t s arrivals
      → Current t
  supplied t s arrivals a b c h = elim (Bool-cases (count t s.processed_transaction == 0)) [
    | inr queued ↦ All-count Current t s.processed_transaction a (ground (arith, queued))
    | inl none_queued ↦ elim (Bool-cases (count t s.broadcast_transactions == 0)) [
      | inr new ↦ All-count Current t s.broadcast_transactions b (ground (arith, new))
      | inl none_new ↦
          All-count Current t (all_arrivals arrivals) c (ground (arith, none_queued, none_new, h))
    ]
  ]

  none_left :
      (queue : List ℕ)
      → IsSorted heap queue
      → other_epoch heap epoch queue ≡ true
      → ((t : ℕ) → 0 < count t queue → Current t)
      → All Later queue
  unfolding other_epoch
  none_left [] sorted other current = tt
  none_left (t ∷ queue) sorted other current =
      let here : 0 < count t (t ∷ queue) = ground arith in
      let top = current t here in
      let later : Later t = ground arith in (later, All-Later t queue later sorted.0)

  null_lem :
      (max_size : ℕ) (s s1 : CommController) (arrivals rest : Arrivals)
      (o : Option TransactionWrapper)
      → All Current s.processed_transaction
      → All Current s.broadcast_transactions
      → All Current (all_arrivals arrivals)
      → Given heap epoch max_size s arrivals (o, s1, rest)
      → o ≡ none
      → All Later s1.processed_transaction × ((t : ℕ) → supply t s1 rest ≡ supply t s arrivals)
  null_lem max_size s s1 arrivals rest (some w) a b c given e = ground (arith, ap is_some e)
  null_lem max_size s s1 arrivals rest none a b c (other, p) e =
      let all = λ (t : ℕ). p.all_there t in
      (
        none_left s1.processed_transaction p.sorted other
            (λ t h. supplied t s arrivals a b c (omega (arith, all t, h))),
        λ t. omega (arith, all t),
      )

  -- With room for at least one transaction, a queue in its order, a last epoch given out that is not
  -- later than the one asked for, and no transaction of an earlier epoch in the queues or coming in:
  -- when the call gives the null pointer, all the transactions that are left in the queue are of
  -- later epochs, and nothing was taken out.
  pub get_transaction-null :
      (max_size min_size : ℕ) (s : CommController) (arrivals : Arrivals)
      → 0 < max_size
      → IsSorted heap s.processed_transaction
      → s.current_epoch ≤ epoch
      → All Current s.processed_transaction
      → All Current s.broadcast_transactions
      → All Current (all_arrivals arrivals)
      → Outcome
          (λ (r : Option TransactionWrapper × CommController × Arrivals).
            r.0 ≡ none
            → All Later r.1.processed_transaction
              × ((t : ℕ) → supply t r.1 r.2 ≡ supply t s arrivals))
          (get_transaction heap epoch max_size min_size s arrivals)
  get_transaction-null max_size min_size s arrivals room sorted in_order a b c =
      Outcome-weaken (Given heap epoch max_size s arrivals) _
        (get_transaction heap epoch max_size min_size s arrivals)
        (get_transaction_lem heap epoch max_size s arrivals min_size room sorted in_order)
        (λ r given. null_lem max_size s r.1 arrivals r.2 r.0 a b c given)
