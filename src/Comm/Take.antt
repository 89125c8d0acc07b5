-- ===== src/Comm/Take.antt =====
-- What getTransaction of comm_controller.cpp takes out of the queue of processed transactions.
use myblockchain.Prelude.{
  All, if◌then◌else◌, ℕ, zero, suc, ◌+◌, ◌<◌, ◌≤◌, ◌≡◌, inl, inr, refl, sym, ap, ◌∙◌, subst, List,
  [], ◌∷◌, ◌++◌, Bool, true, false, some, arith, ltb, leb, ltb→lt, ◌==◌, ==_iff, length-append,
  All-append, Bool-cases,
}
use mathlib.Core.List.{append_assoc, append-nil}
use myblockchain.HashMap.{update}
use myblockchain.Transaction.Wrapper.{Heap, TransactionWrapper, size, push_transaction, IsValid}
use myblockchain.Comm.{
  CommController, done, Arrivals, first_arrival, later_arrivals, waits_in_vain, raised,
  later_callbacks, transfer_transaction, take_top, refill, ◌>>=◌, take_loop, push_all,
}
use myblockchain.Comm.Queue.{count, count-append, IsSorted, push_all-IsSorted, count-push_all}
use myblockchain.Comm.Supply.{
  Outcome, Outcome->>=, all_arrivals, NonEmpty, supply, push_all-NonEmpty, List-cases,
}

-- Transactions with the epochs under which they are recorded: the transactions, and those of an epoch.
abbrev pub recorded : List (ℕ × ℕ) → List ℕ
recorded [] = []
recorded (entry ∷ log) = entry.1 ∷ recorded log

abbrev pub recorded_under : ℕ → List (ℕ × ℕ) → List ℕ
recorded_under e [] = []
recorded_under e (entry ∷ log) =
    if entry.0 == e then entry.1 ∷ recorded_under e log else recorded_under e log

recorded-append :
    (log : List (ℕ × ℕ)) (e t : ℕ) → recorded (log ++ ((e, t) ∷ [])) ≡ recorded log ++ (t ∷ [])
recorded-append [] e t = refl
recorded-append (entry ∷ log) e t = ap (◌∷◌ entry.1) (recorded-append log e t)

recorded_under-append :
    (k : ℕ) (log : List (ℕ × ℕ)) (e t : ℕ)
    → recorded_under k (log ++ ((e, t) ∷ []))
      ≡ recorded_under k log ++ (if e == k then t ∷ [] else [])
recorded_under-append k [] e t = refl
recorded_under-append k (entry ∷ log) e t = elim (Bool-cases (entry.0 == k)) [
  | inl here ↦ rw here (ap (◌∷◌ entry.1) (recorded_under-append k log e t))
  | inr there ↦ rw there (recorded_under-append k log e t)
]

module _ (heap : Heap) (epoch max_size least : ℕ) (s0 : CommController) (arrivals0 : Arrivals) where
  -- From one state to another with a wrapper that was filled on the way.
  pub record Progress (w : TransactionWrapper) (s : CommController) (arrivals : Arrivals)
      : Type 0 where
    pub of_epoch : w.epoch ≡ epoch
    pub valid : IsValid heap w
    pub bounded : size w ≤ max_size
    pub at_least : least ≤ size w
    pub all_there :
        (t : ℕ) → count t w.transaction_list + supply t s arrivals ≡ supply t s0 arrivals0
    pub sorted : IsSorted heap s.processed_transaction
    pub log : List (ℕ × ℕ)
    pub logged : recorded log ≡ w.transaction_list
    pub kept : (e : ℕ) → s.transaction_map e ≡ s0.transaction_map e ++ recorded_under e log
    pub same_epoch :
        s0.callbacks ≡ []
        → (s.callbacks ≡ []) × (s.epoch ≡ s0.epoch) × All (λ entry. entry.0 ≡ s0.epoch) log
    pub in_order : s.current_epoch ≤ epoch

  -- The state once the queue of new transactions is emptied.
  abbrev transferred : Arrivals → CommController → CommController
  transferred arrivals s = record s {
    processed_transaction =
        push_all heap (s.broadcast_transactions ++ first_arrival arrivals) s.processed_transaction;
    broadcast_transactions = [];
  }

  supply-transferred :
      (t : ℕ) (s : CommController) (arrivals : Arrivals)
      → supply t (transferred arrivals s) (later_arrivals arrivals) ≡ supply t s arrivals
  supply-transferred t s [] =
      let here = count-push_all heap t (s.broadcast_transactions ++ []) s.processed_transaction in
      let split = count-append t s.broadcast_transactions [] in omega arith
  supply-transferred t s (ts ∷ arrivals) =
      let here = count-push_all heap t (s.broadcast_transactions ++ ts) s.processed_transaction in
      let split = count-append t s.broadcast_transactions ts in
      let rest = count-append t ts (all_arrivals arrivals) in omega arith

  transferred-Progress :
      (w : TransactionWrapper) (s : CommController) (arrivals : Arrivals)
      → Progress w s arrivals
      → Progress w (transferred arrivals s) (later_arrivals arrivals)
  transferred-Progress w s arrivals p = record {
    of_epoch = p.of_epoch;
    valid = p.valid;
    bounded = p.bounded;
    at_least = p.at_least;
    all_there = λ t.
        ap (λ n. count t w.transaction_list + n) (supply-transferred t s arrivals) ∙ p.all_there t;
    sorted = push_all-IsSorted heap _ s.processed_transaction p.sorted;
    log = p.log;
    logged = p.logged;
    kept = p.kept;
    same_epoch = p.same_epoch;
    in_order = p.in_order;
  }

  push_transaction_lem :
      (t : ℕ) (w : TransactionWrapper)
      → w.epoch ≡ epoch
      → (heap t).epoch ≡ epoch
      → push_transaction heap (some t) w
        ≡ (true, record w { transaction_list = w.transaction_list ++ (t ∷ []) })
  unfolding push_transaction
  push_transaction_lem t w e f =
      rw (push_transaction, (==_iff (heap t).epoch w.epoch).1 (f ∙ sym e)) refl

  -- The map after a transaction is recorded under an epoch.
  kept_after :
      (k e t : ℕ) (log : List (ℕ × ℕ)) (s : CommController)
      → s.transaction_map k ≡ s0.transaction_map k ++ recorded_under k log
      → s.transaction_map e ≡ s0.transaction_map e ++ recorded_under e log
      → update s.transaction_map e (s.transaction_map e ++ (t ∷ [])) k
        ≡ s0.transaction_map k ++ recorded_under k (log ++ ((e, t) ∷ []))
  kept_after k e t log s at_k at_e =
      rw (recorded_under-append k log e t) (elim (Bool-cases (e == k)) [
        | inl here ↦
            let is = (==_iff e k).0 here in
            rw here (
              ap (λ i. s.transaction_map i ++ (t ∷ [])) is
              ∙ ap (λ ts. ts ++ (t ∷ [])) at_k
              ∙ append_assoc (s0.transaction_map k) (recorded_under k log) (t ∷ []))
        | inr there ↦
            rw there (
              at_k
              ∙ ap (λ ts. s0.transaction_map k ++ ts) (sym (append-nil (recorded_under k log))))
      ])

  pub take_top-Progress :
      (t : ℕ) (queue : List ℕ) (w : TransactionWrapper) (s : CommController) (arrivals : Arrivals)
      → s.processed_transaction ≡ t ∷ queue
      → (heap t).epoch ≡ epoch
      → size w < max_size
      → Progress w s arrivals
      → Progress
          (record w { transaction_list = w.transaction_list ++ (t ∷ []) })
          (take_top heap t queue s)
          arrivals
  take_top-Progress t queue w s arrivals top e small p = record {
    of_epoch = p.of_epoch;
    valid =
        All-append (λ u. (heap u).epoch ≡ w.epoch) w.transaction_list (t ∷ []) p.valid
          (e ∙ sym p.of_epoch, tt);
    bounded = omega (arith, length-append w.transaction_list (t ∷ []));
    at_least = omega (arith, p.at_least, length-append w.transaction_list (t ∷ []));
    all_there = λ x.
        let before = p.all_there x in
        let moved = ap (count x) top in
        let added = count-append x w.transaction_list (t ∷ []) in omega arith;
    sorted = (subst (IsSorted heap) top p.sorted).1;
    log = p.log ++ ((raised s.epoch s.callbacks, t) ∷ []);
    logged =
        recorded-append p.log (raised s.epoch s.callbacks) t ∙ ap (λ ts. ts ++ (t ∷ [])) p.logged;
    kept = λ k.
        kept_after k (raised s.epoch s.callbacks) t p.log s (p.kept k)
          (p.kept (raised s.epoch s.callbacks));
    same_epoch = λ none_raised.
        let (none_left, same, all) = p.same_epoch none_raised in
        let here : raised s.epoch s.callbacks ≡ s0.epoch = ap (raised s.epoch) none_left ∙ same in
        (
          ap later_callbacks none_left,
          here,
          All-append (λ (entry : ℕ × ℕ). entry.0 ≡ s0.epoch) p.log _ all (here, tt),
        );
    in_order = omega (arith, e);
  }

  -- What one call of `transferTransaction` comes to.
  pub transfer_transaction_lem :
      (w : TransactionWrapper) (s : CommController) (arrivals : Arrivals)
      → Progress w s arrivals
      → Outcome
          (λ (r : CommController × Arrivals).
            Progress w r.0 r.1 × NonEmpty r.0.processed_transaction)
          (transfer_transaction heap arrivals s)
  unfolding transfer_transaction
  transfer_transaction_lem w s arrivals p =
      let incoming = s.broadcast_transactions ++ first_arrival arrivals in
      elim (Bool-cases (waits_in_vain s.processed_transaction incoming)) [
        | inl vain ↦ rw (transfer_transaction, vain) tt
        | inr full ↦
            rw (transfer_transaction, full)
              (
                transferred-Progress w s arrivals p,
                push_all-NonEmpty heap incoming s.processed_transaction full,
              )
      ]

  refill_lem :
      (min_size : ℕ) (w : TransactionWrapper) (s : CommController) (arrivals : Arrivals)
      → Progress w s arrivals
      → Outcome
          (λ (r : Bool × CommController × Arrivals).
            Progress w r.1 r.2 × (r.0 ≡ true → NonEmpty r.1.processed_transaction))
          (refill heap min_size w s arrivals)
  unfolding refill
  refill_lem min_size w s arrivals p = elim (List-cases s.processed_transaction) [
    | inr (t, queue, e) ↦ rw (refill, e) (p, λ more. (t, queue, e))
    | inl e ↦ elim (Bool-cases (ltb min_size (size w))) [
      | inl large ↦ rw (refill, e, large) (p, λ more. ground (arith, more))
      | inr small ↦
          rw (refill, e, small)
            (Outcome->>=
              (λ (r : CommController × Arrivals).
                Progress w r.0 r.1 × NonEmpty r.0.processed_transaction)
              (λ (r : Bool × CommController × Arrivals).
                Progress w r.1 r.2 × (r.0 ≡ true → NonEmpty r.1.processed_transaction))
              (transfer_transaction heap arrivals s) (λ r. done (true, r.0, r.1))
              (transfer_transaction_lem w s arrivals p) (λ r h. (h.0, λ more. h.1)))
    ]
  ]

  -- A round that takes the top.
  step_lem :
      (rounds min_size t : ℕ) (queue : List ℕ) (w : TransactionWrapper) (s : CommController)
      (arrivals : Arrivals)
      → s.processed_transaction ≡ t ∷ queue
      → ltb (size w) max_size ≡ true
      → (heap t).epoch ≡ epoch
      → w.epoch ≡ epoch
      → s.current_epoch ≤ epoch
      → let w1 = (push_transaction heap (some t) w).1 in
        take_loop (suc rounds) heap epoch max_size min_size w s arrivals ≡ (
          refill heap min_size w1 (take_top heap t queue s) arrivals >>= (λ r. elim r.0 [
            | true ↦ take_loop rounds heap epoch max_size min_size w1 r.1 r.2
            | false ↦ done (w1, r.1, r.2)
          ]))
  unfolding take_loop
  step_lem rounds min_size t queue w s arrivals top small e of_epoch in_order =
      let ok : leb s.current_epoch (heap t).epoch ≡ true = ground (arith, e, in_order) in
      let pushed = ap (λ r. r.0) (push_transaction_lem t w of_epoch e) in
      rw (take_loop, small, top, (==_iff (heap t).epoch epoch).1 e, pushed, ok) refl

  -- The end of a round.
  go_on :
      (rounds min_size : ℕ) (w : TransactionWrapper) (more : Bool) (s : CommController)
      (arrivals : Arrivals)
      → (more ≡ true → NonEmpty s.processed_transaction)
      → Progress w s arrivals
      → (NonEmpty s.processed_transaction
          → Progress w s arrivals
          → Outcome
              (λ (r : TransactionWrapper × CommController × Arrivals). Progress r.0 r.1 r.2)
              (take_loop rounds heap epoch max_size min_size w s arrivals))
      → Outcome
          (λ (r : TransactionWrapper × CommController × Arrivals). Progress r.0 r.1 r.2)
          (elim more [
            | true ↦ take_loop rounds heap epoch max_size min_size w s arrivals
            | false ↦ done (w, s, arrivals)
          ])
  go_on rounds min_size w true s arrivals full p k = k (full refl) p
  go_on rounds min_size w false s arrivals full p k = p

  pub round_lem :
      (rounds min_size t : ℕ) (queue : List ℕ) (w : TransactionWrapper) (s : CommController)
      (arrivals : Arrivals)
      → s.processed_transaction ≡ t ∷ queue
      → ltb (size w) max_size ≡ true
      → (heap t).epoch ≡ epoch
      → w.epoch ≡ epoch
      → s.current_epoch ≤ epoch
      → let w1 = record w { transaction_list = w.transaction_list ++ (t ∷ []) } in
        let P = λ (r : TransactionWrapper × CommController × Arrivals). Progress r.0 r.1 r.2 in
        Progress w1 (take_top heap t queue s) arrivals
        → ((s2 : CommController) (rest : Arrivals)
            → NonEmpty s2.processed_transaction
            → Progress w1 s2 rest
            → Outcome P (take_loop rounds heap epoch max_size min_size w1 s2 rest))
        → Outcome P (take_loop (suc rounds) heap epoch max_size min_size w s arrivals)
  round_lem rounds min_size t queue w s arrivals top small e of_epoch in_order p k =
      let w1 = record w { transaction_list = w.transaction_list ++ (t ∷ []) } in
      let w1_lem = ap (λ r. r.1) (push_transaction_lem t w of_epoch e) in
      let P = λ (r : TransactionWrapper × CommController × Arrivals). Progress r.0 r.1 r.2 in
      let after = λ (v : TransactionWrapper).
        refill heap min_size v (take_top heap t queue s) arrivals >>= (λ r. elim r.0 [
          | true ↦ take_loop rounds heap epoch max_size min_size v r.1 r.2
          | false ↦ done (v, r.1, r.2)
        ]) in
      subst (Outcome P)
        (sym (
          step_lem rounds min_size t queue w s arrivals top small e of_epoch in_order
          ∙ ap after w1_lem))
        (Outcome->>=
          (λ (r : Bool × CommController × Arrivals).
            Progress w1 r.1 r.2 × (r.0 ≡ true → NonEmpty r.1.processed_transaction))
          P (refill heap min_size w1 (take_top heap t queue s) arrivals) _
          (refill_lem min_size w1 (take_top heap t queue s) arrivals p)
          (λ r h. go_on rounds min_size w1 r.0 r.1 r.2 h.1 h.0 (k r.1 r.2)))

  pub take_loop_lem :
      (rounds min_size : ℕ) (w : TransactionWrapper) (s : CommController) (arrivals : Arrivals)
      → max_size < rounds + size w
      → NonEmpty s.processed_transaction
      → Progress w s arrivals
      → Outcome
          (λ (r : TransactionWrapper × CommController × Arrivals). Progress r.0 r.1 r.2)
          (take_loop rounds heap epoch max_size min_size w s arrivals)
  unfolding take_loop
  take_loop_lem zero min_size w s arrivals enough full p = absurd (omega (arith, p.bounded))
  take_loop_lem (suc rounds) min_size w s arrivals enough (t, queue, top) p =
      elim (Bool-cases (ltb (size w) max_size)) [
        | inr full ↦ rw (take_loop, full) p
        | inl small ↦ elim (Bool-cases ((heap t).epoch == epoch)) [
          | inr other ↦ rw (take_loop, small, top, other) p
          | inl same ↦
              let e = (==_iff (heap t).epoch epoch).0 same in
              let w1 = record w { transaction_list = w.transaction_list ++ (t ∷ []) } in
              round_lem rounds min_size t queue w s arrivals top small e p.of_epoch p.in_order
                (take_top-Progress t queue w s arrivals top e (ltb→lt _ _ small) p)
                (λ s2 rest.
                  take_loop_lem rounds min_size w1 s2 rest
                    (omega (arith, length-append w.transaction_list (t ∷ []), enough)))
        ]
      ]
