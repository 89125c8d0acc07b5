-- ===== src/Comm/Give.antt =====
-- What getTransaction of comm_controller.cpp gives to the transaction manager.
use mathlib.Core.List.{append-nil}
use myblockchain.Prelude.{
  ltb, ◌||◌, ℕ, suc, ◌<◌, ◌≤◌, ◌≡◌, inl, inr, refl, sym, ap, ◌∙◌, List, [], ◌∷◌, true, Option, none,
  some, arith, lt→ltb, ◌==◌, ==_iff, not, Bool-cases,
}
use myblockchain.Transaction.Wrapper.{Heap, TransactionWrapper, transaction_wrapper}
use myblockchain.Comm.{
  CommController, Arrivals, transfer_transaction, take_top, take_loop, other_epoch, get_transaction,
  after_transfer, top_after,
}
use myblockchain.Comm.Queue.{IsSorted}
use myblockchain.Comm.Supply.{Outcome, Outcome->>=, NonEmpty}
use myblockchain.Comm.Take.{
  Progress, transfer_transaction_lem, take_top-Progress, round_lem, take_loop_lem,
}

module _ (heap : Heap) (epoch max_size : ℕ) (s : CommController) (arrivals : Arrivals) where
  -- What comes of a call: with no batch, the top of the queue is of another epoch and nothing is
  -- taken; a batch is made of what the queue has, and is not empty.
  abbrev pub Given : Option TransactionWrapper × CommController × Arrivals → Type 0
  Given (none, s1, rest) =
      (other_epoch heap epoch s1.processed_transaction ≡ true)
      × Progress heap epoch max_size 0 s arrivals (transaction_wrapper epoch) s1 rest
  Given (some w, s1, rest) = Progress heap epoch max_size 1 s arrivals w s1 rest

  start :
      IsSorted heap s.processed_transaction
      → s.current_epoch ≤ epoch
      → Progress heap epoch max_size 0 s arrivals (transaction_wrapper epoch) s arrivals
  start sorted in_order = record {
    of_epoch = refl;
    valid = tt;
    bounded = omega arith;
    at_least = omega arith;
    all_there = λ t. omega arith;
    sorted = sorted;
    log = [];
    logged = refl;
    kept = λ e. sym (append-nil (s.transaction_map e));
    same_epoch = λ none_raised. (none_raised, refl, tt);
    in_order = in_order;
  }

  first_round :
      (min_size t : ℕ) (queue : List ℕ) (s1 : CommController) (rest : Arrivals)
      → s1.processed_transaction ≡ t ∷ queue
      → 0 < max_size
      → (heap t).epoch ≡ epoch
      → Progress heap epoch max_size 0 s arrivals (transaction_wrapper epoch) s1 rest
      → Outcome
          (λ (r : TransactionWrapper × CommController × Arrivals).
            Progress heap epoch max_size 1 s arrivals r.0 r.1 r.2)
          (take_loop
            (suc max_size)
            heap
            epoch
            max_size
            min_size
            (transaction_wrapper epoch)
            s1
            rest)
  first_round min_size t queue s1 rest top room e p =
      let w0 = transaction_wrapper epoch in
      let w1 = record w0 { transaction_list = t ∷ [] } in
      let p1 = take_top-Progress heap epoch max_size 0 s arrivals t queue w0 s1 rest top e room p in
      let raised : Progress heap epoch max_size 1 s arrivals w1 (take_top heap t queue s1) rest =
        record {
          of_epoch = p1.of_epoch;
          valid = p1.valid;
          bounded = p1.bounded;
          at_least = omega arith;
          all_there = p1.all_there;
          sorted = p1.sorted;
          log = p1.log;
          logged = p1.logged;
          kept = p1.kept;
          same_epoch = p1.same_epoch;
          in_order = p1.in_order;
        } in
      round_lem heap epoch max_size 1 s arrivals max_size min_size t queue w0 s1 rest top
        (lt→ltb _ _ room) e refl p.in_order raised
        (λ s2 rest2.
          take_loop_lem heap epoch max_size 1 s arrivals max_size min_size w1 s2 rest2
            (omega arith))

  after_transfer_lem :
      (min_size : ℕ) (s1 : CommController) (rest : Arrivals)
      → 0 < max_size
      → NonEmpty s1.processed_transaction
      → Progress heap epoch max_size 0 s arrivals (transaction_wrapper epoch) s1 rest
      → Outcome Given (after_transfer heap epoch max_size min_size (s1, rest))
  unfolding other_epoch after_transfer
  after_transfer_lem min_size s1 rest room (t, queue, top) p =
      let test : other_epoch heap epoch s1.processed_transaction ≡ not ((heap t).epoch == epoch) =
        ap (other_epoch heap epoch) top in
      elim (Bool-cases ((heap t).epoch == epoch)) [
        | inr other ↦
            let is = test ∙ ap not other in
            elim (Bool-cases (top_after heap epoch 1 s1.processed_transaction)) [
              | inl next ↦ rw (after_transfer, is, next) (is, p)
              | inr far ↦ rw (after_transfer, is, far) tt
            ]
        | inl same ↦
            rw (after_transfer, test ∙ ap not same)
              (Outcome->>=
                (λ (r : TransactionWrapper × CommController × Arrivals).
                  Progress heap epoch max_size 1 s arrivals r.0 r.1 r.2)
                Given
                (take_loop (suc max_size) heap epoch max_size min_size (transaction_wrapper epoch)
                  s1 rest)
                _
                (first_round min_size t queue s1 rest top room
                  ((==_iff (heap t).epoch epoch).0 same) p)
                (λ q h. h))
      ]

  -- With room for at least one transaction, a queue in its order, and a last epoch given out that is
  -- not later than the one asked for: the call never fails a CHECK, never looks at the top of an
  -- empty queue and its loop ends. If it does not wait for ever and fails no DCHECK, it gives a batch of at
  -- least one and at most the allowed number of transactions, all of the epoch and all recorded, or none
  -- when the top of the queue is of another epoch; and each transaction that was in the queues or came in
  -- is in the batch or still to be given, once.
  pub get_transaction_lem :
      (min_size : ℕ)
      → 0 < max_size
      → IsSorted heap s.processed_transaction
      → s.current_epoch ≤ epoch
      → Outcome Given (get_transaction heap epoch max_size min_size s arrivals)
  unfolding get_transaction
  get_transaction_lem min_size room sorted in_order = elim (Bool-cases (ltb s.epoch epoch)) [
    | inl early ↦ rw (get_transaction, early) tt
    | inr now ↦ elim (Bool-cases (other_epoch heap epoch s.processed_transaction)) [
      | inl other ↦
          let near =
            top_after heap epoch 1 s.processed_transaction
            || top_after heap epoch 2 s.processed_transaction in
          elim (Bool-cases near) [
            | inl close ↦ rw (get_transaction, now, other, close) (other, start sorted in_order)
            | inr far ↦ rw (get_transaction, now, other, far) tt
          ]
      | inr same ↦
          rw (get_transaction, now, same)
            (Outcome->>=
              (λ (r : CommController × Arrivals).
                Progress heap epoch max_size 0 s arrivals (transaction_wrapper epoch) r.0 r.1
                × NonEmpty r.0.processed_transaction)
              Given (transfer_transaction heap arrivals s) _
              (transfer_transaction_lem heap epoch max_size 0 s arrivals _ s arrivals
                (start sorted in_order))
              (λ r h. after_transfer_lem min_size r.0 r.1 room h.1 h.0))
    ]
  ]
