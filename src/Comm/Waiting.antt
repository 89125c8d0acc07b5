-- ===== src/Comm/Waiting.antt =====
-- When the calls of getTransaction (comm_controller.cpp) come to an end.
use myblockchain.Prelude.{
  ◌+◌, ◌%◌, All-append, ℕ, zero, suc, ◌≤◌, ◌<◌, ◌≡◌, inl, inr, refl, List, [], ◌∷◌, ◌++◌, Bool,
  true, false, Option, some, arith, ltb, leb, ◌==◌, if◌then◌else◌, length, All, Bool-cases,
}
use myblockchain.Transaction.Wrapper.{
  Heap, TransactionWrapper, transaction_wrapper, size, push_transaction,
}
use myblockchain.Comm.{
  Failure, first_arrival, top_after, after_transfer, CommController, Run, done, waits, fails, ◌>>=◌,
  Arrivals, waits_in_vain, transfer_transaction, take_top, refill, take_loop, other_epoch,
  get_transaction,
}
use myblockchain.Comm.Queue.{IsSorted, count, count-append, count-push_all}
use myblockchain.Comm.Null.{All-count}
use myblockchain.Comm.Give.{Given, get_transaction_lem}
use myblockchain.Comm.Supply.{Outcome, NonEmpty, List-cases}

-- A call does not wait for ever and fails no DCHECK, and what it comes to, if it does not fail, is so.
abbrev pub Ends : {A : Type 0} → (A → Type 0) → Run A → Type 0
Ends P (done a) = P a
Ends P waits = ⊥
Ends P (fails Failure.debug_check) = ⊥
Ends P (fails _) = Unit

Ends->>= :
    {A B : Type 0} (P : A → Type 0) (Q : B → Type 0) (r : Run A) (f : A → Run B)
    → Ends P r
    → ((a : A) → P a → Ends Q (f a))
    → Ends Q (r >>= f)
unfolding ◌>>=◌
Ends->>= P Q (done a) f h k = k a h
Ends->>= P Q waits f h k = h
Ends->>= P Q (fails Failure.debug_check) f h k = h
Ends->>= P Q (fails Failure.undefined) f h k = tt
Ends->>= P Q (fails Failure.check) f h k = tt
Ends->>= P Q (fails Failure.out_of_rounds) f h k = tt

Ends-if :
    {A : Type 0} (P : A → Type 0) (b : Bool) (r q : Run A)
    → Ends P r
    → Ends P q
    → Ends P (if b then r else q)
Ends-if P true r q h k = h
Ends-if P false r q h k = k

-- At least so many arrivals, none of them empty.
abbrev pub Supplied : ℕ → Arrivals → Type 0
Supplied n arrivals = (n ≤ length arrivals) × All NonEmpty arrivals

waits_in_vain-append : (queue ts us : List ℕ) → NonEmpty us → waits_in_vain queue (ts ++ us) ≡ false
unfolding waits_in_vain
waits_in_vain-append [] [] us (t, rest, e) = rw e refl
waits_in_vain-append [] (t ∷ ts) us full = refl
waits_in_vain-append (q ∷ queue) ts us full = refl

module _ (heap : Heap) where
  transfer_transaction-Ends :
      (n : ℕ) (arrivals : Arrivals) (s : CommController)
      → Supplied (suc n) arrivals
      → Ends
          (λ (r : CommController × Arrivals). Supplied n r.1)
          (transfer_transaction heap arrivals s)
  unfolding transfer_transaction
  transfer_transaction-Ends n [] s (enough, full) = absurd (omega arith)
  transfer_transaction-Ends n (ts ∷ arrivals) s (enough, full) =
      rw
        (
          transfer_transaction,
          waits_in_vain-append s.processed_transaction s.broadcast_transactions ts full.0,
        )
        (omega arith, full.1)

  refill-Ends :
      (n min_size : ℕ) (w : TransactionWrapper) (s : CommController) (arrivals : Arrivals)
      → Supplied (suc n) arrivals
      → Ends
          (λ (r : Bool × CommController × Arrivals). Supplied n r.2)
          (refill heap min_size w s arrivals)
  unfolding refill
  refill-Ends n min_size w s arrivals (enough, full) = elim (List-cases s.processed_transaction) [
    | inr (t, queue, e) ↦ rw (refill, e) (omega arith, full)
    | inl e ↦ elim (Bool-cases (ltb min_size (size w))) [
      | inl large ↦ rw (refill, e, large) (omega arith, full)
      | inr small ↦
          rw (refill, e, small)
            (Ends->>= (λ (r : CommController × Arrivals). Supplied n r.1)
              (λ (r : Bool × CommController × Arrivals). Supplied n r.2)
              (transfer_transaction heap arrivals s) (λ r. done (true, r.0, r.1))
              (transfer_transaction-Ends n arrivals s (enough, full)) (λ r h. h))
    ]
  ]

  Ends-more :
      (rounds epoch max_size min_size : ℕ) (w : TransactionWrapper) (more : Bool)
      (s : CommController) (arrivals : Arrivals)
      → Ends
          (λ (r : TransactionWrapper × CommController × Arrivals). Unit {0})
          (take_loop rounds heap epoch max_size min_size w s arrivals)
      → Ends
          (λ (r : TransactionWrapper × CommController × Arrivals). Unit {0})
          (elim more [
            | true ↦ take_loop rounds heap epoch max_size min_size w s arrivals
            | false ↦ done (w, s, arrivals)
          ])
  Ends-more rounds epoch max_size min_size w true s arrivals h = h
  Ends-more rounds epoch max_size min_size w false s arrivals h = tt

  take_loop-Ends :
      (rounds epoch max_size min_size : ℕ) (w : TransactionWrapper) (s : CommController)
      (arrivals : Arrivals)
      → Supplied rounds arrivals
      → Ends
          (λ (r : TransactionWrapper × CommController × Arrivals). Unit {0})
          (take_loop rounds heap epoch max_size min_size w s arrivals)
  unfolding take_loop
  take_loop-Ends zero epoch max_size min_size w s arrivals supplied = tt
  take_loop-Ends (suc rounds) epoch max_size min_size w s arrivals supplied =
      let P = λ (r : TransactionWrapper × CommController × Arrivals). Unit {0} in
      elim (List-cases s.processed_transaction) [
        | inl e ↦ rw (take_loop, e) (Ends-if P (ltb (size w) max_size) _ _ tt tt)
        | inr (t, queue, e) ↦
            let w1 = (push_transaction heap (some t) w).1 in
            rw (take_loop, e)
              (Ends-if P (ltb (size w) max_size) _ _
                (Ends-if P ((heap t).epoch == epoch) _ _
                  (Ends-if P (leb s.current_epoch (heap t).epoch) _ _
                    (Ends-if P (push_transaction heap (some t) w).0 _ _
                      (Ends->>= (λ (r : Bool × CommController × Arrivals). Supplied rounds r.2) P
                        (refill heap min_size w1 (take_top heap t queue s) arrivals) _
                        (refill-Ends rounds min_size w1 (take_top heap t queue s) arrivals supplied)
                        (λ r more.
                          Ends-more rounds epoch max_size min_size w1 r.0 r.1 r.2
                            (take_loop-Ends rounds epoch max_size min_size w1 r.1 r.2 more)))
                      tt)
                    tt)
                  tt)
                tt)
      ]

  -- The epoch, or the next one.
  abbrev pub IsNear : ℕ → ℕ → Type 0
  IsNear epoch t = (epoch ≤ (heap t).epoch) × ((heap t).epoch ≤ epoch + 1)

  near_after :
      (epoch : ℕ) (queue : List ℕ)
      → epoch + 1 < 4294967296
      → other_epoch heap epoch queue ≡ true
      → ((t : ℕ) → 0 < count t queue → IsNear epoch t)
      → top_after heap epoch 1 queue ≡ true
  unfolding other_epoch top_after
  near_after epoch [] fits other near = ground (arith, other)
  near_after epoch (t ∷ queue) fits other near =
      let here : 0 < count t (t ∷ queue) = ground arith in
      let (low, high) = near t here in
      let same : (epoch + 1) % 4294967296 ≡ epoch + 1 = omega (arith, fits) in
      rw same (ground (arith, other, low, high))

  -- The first call of `transferTransaction`.
  transfer_transaction-IsNear :
      (n epoch : ℕ) (arrivals : Arrivals) (s : CommController)
      → Supplied (suc n) arrivals
      → ((t : ℕ)
          → 0
            < count t s.processed_transaction
              + count t (s.broadcast_transactions ++ first_arrival arrivals)
          → IsNear epoch t)
      → Ends
          (λ (r : CommController × Arrivals).
            Supplied n r.1 × ((t : ℕ) → 0 < count t r.0.processed_transaction → IsNear epoch t))
          (transfer_transaction heap arrivals s)
  unfolding transfer_transaction
  transfer_transaction-IsNear n epoch [] s (enough, full) near = absurd (omega arith)
  transfer_transaction-IsNear n epoch (ts ∷ arrivals) s (enough, full) near =
      rw
        (
          transfer_transaction,
          waits_in_vain-append s.processed_transaction s.broadcast_transactions ts full.0,
        )
        (
          (omega arith, full.1),
          λ t h. near t (
              omega (
                arith,
                h,
                count-push_all heap t (s.broadcast_transactions ++ ts) s.processed_transaction,
              )),
        )

  after_transfer-Ends :
      (epoch max_size min_size : ℕ) (r : CommController × Arrivals)
      → epoch + 1 < 4294967296
      → Supplied (suc max_size) r.1
      → ((t : ℕ) → 0 < count t r.0.processed_transaction → IsNear epoch t)
      → Ends
          (λ (r : Option TransactionWrapper × CommController × Arrivals). Unit {0})
          (after_transfer heap epoch max_size min_size r)
  unfolding after_transfer
  after_transfer-Ends epoch max_size min_size r fits more near =
      let P = λ (r : Option TransactionWrapper × CommController × Arrivals). Unit {0} in
      elim (Bool-cases (other_epoch heap epoch r.0.processed_transaction)) [
        | inl other ↦
            rw (after_transfer, other, near_after epoch r.0.processed_transaction fits other near)
              tt
        | inr same ↦
            rw (after_transfer, same)
              (Ends->>= (λ (q : TransactionWrapper × CommController × Arrivals). Unit {0}) P
                (take_loop (suc max_size) heap epoch max_size min_size (transaction_wrapper epoch)
                  r.0 r.1)
                _
                (take_loop-Ends (suc max_size) epoch max_size min_size (transaction_wrapper epoch)
                  r.0 r.1 more)
                (λ q h. tt))
      ]

  get_transaction-Ends :
      (epoch max_size min_size : ℕ) (s : CommController) (arrivals : Arrivals)
      → epoch + 1 < 4294967296
      → epoch ≤ s.epoch
      → ((t : ℕ)
          → 0
            < count t s.processed_transaction
              + count t (s.broadcast_transactions ++ first_arrival arrivals)
          → IsNear epoch t)
      → Supplied (suc (suc max_size)) arrivals
      → Ends
          (λ (r : Option TransactionWrapper × CommController × Arrivals). Unit {0})
          (get_transaction heap epoch max_size min_size s arrivals)
  unfolding get_transaction
  get_transaction-Ends epoch max_size min_size s arrivals fits now near supplied =
      let P = λ (r : Option TransactionWrapper × CommController × Arrivals). Unit {0} in
      let open_epoch : ltb s.epoch epoch ≡ false = ground (arith, now) in
      elim (Bool-cases (other_epoch heap epoch s.processed_transaction)) [
        | inl other ↦
            let next =
              near_after epoch s.processed_transaction fits other
                (λ t h. near t (omega (arith, h))) in
            rw (get_transaction, open_epoch, other, next) tt
        | inr same ↦
            rw (get_transaction, open_epoch, same)
              (Ends->>=
                (λ (r : CommController × Arrivals).
                  Supplied (suc max_size) r.1
                  × ((t : ℕ) → 0 < count t r.0.processed_transaction → IsNear epoch t))
                P (transfer_transaction heap arrivals s) _
                (transfer_transaction-IsNear (suc max_size) epoch arrivals s supplied near)
                (λ r h. after_transfer-Ends epoch max_size min_size r fits h.0 h.1))
      ]

  returned :
      {A : Type 0} (P : A → Type 0) (r : Run A)
      → Outcome P r
      → Ends (λ (a : A). Unit {0}) r
      → (a : A) × (r ≡ done a) × P a
  returned P (done a) h k = (a, refl, h)
  returned P waits h k = absurd k
  returned P (fails Failure.debug_check) h k = absurd k
  returned P (fails Failure.undefined) h k = absurd h
  returned P (fails Failure.check) h k = absurd h
  returned P (fails Failure.out_of_rounds) h k = absurd h

  queued-IsNear :
      (epoch t : ℕ) (s : CommController) (arrivals : Arrivals)
      → All (IsNear epoch) s.processed_transaction
      → All (IsNear epoch) s.broadcast_transactions
      → All (IsNear epoch) (first_arrival arrivals)
      → 0
        < count t s.processed_transaction
          + count t (s.broadcast_transactions ++ first_arrival arrivals)
      → IsNear epoch t
  queued-IsNear epoch t s arrivals a b c h =
      let all =
        All-append (IsNear epoch) s.processed_transaction
          (s.broadcast_transactions ++ first_arrival arrivals) a
          (All-append (IsNear epoch) s.broadcast_transactions (first_arrival arrivals) b c) in
      All-count (IsNear epoch) t _ all (
        omega (
          arith,
          h,
          count-append t s.processed_transaction
              (s.broadcast_transactions ++ first_arrival arrivals),
        ))

  -- With room for at least one transaction, a queue in its order, a last epoch given out that is not later
  -- than the one asked for, which is not later than the controller's own and fits its 32 bits with the
  -- next one; and when the transactions that are queued, or have come in by the first look, are of the
  -- epoch asked for or the next one, and the other threads have enqueued something by each of the next
  -- calls of transferTransaction, as many as the largest size of a batch and two more: no check fails and
  -- the call returns. What it returns is a batch of at least one and at most the allowed number of
  -- transactions, all of the epoch and all recorded, under the controller's own epoch when no callback of the
  -- barrier runs during the call, or none when the top of the queue is of another epoch, and nothing is
  -- lost or given twice.
  pub get_transaction-returns :
      (epoch max_size min_size : ℕ) (s : CommController) (arrivals : Arrivals)
      → 0 < max_size
      → IsSorted heap s.processed_transaction
      → s.current_epoch ≤ epoch
      → epoch ≤ s.epoch
      → epoch + 1 < 4294967296
      → All (IsNear epoch) s.processed_transaction
      → All (IsNear epoch) s.broadcast_transactions
      → All (IsNear epoch) (first_arrival arrivals)
      → Supplied (suc (suc max_size)) arrivals
      → (r : Option TransactionWrapper × CommController × Arrivals) × (get_transaction heap epoch
            max_size min_size s arrivals
          ≡ done r)
        × Given heap epoch max_size s arrivals r
  get_transaction-returns epoch max_size min_size s arrivals room sorted in_order now fits a b c
        supplied =
      returned (Given heap epoch max_size s arrivals)
        (get_transaction heap epoch max_size min_size s arrivals)
        (get_transaction_lem heap epoch max_size s arrivals min_size room sorted in_order)
        (get_transaction-Ends epoch max_size min_size s arrivals fits now
          (λ t. queued-IsNear epoch t s arrivals a b c) supplied)
