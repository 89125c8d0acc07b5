-- ===== src/MockManager/Ending.antt =====
-- The end of an epoch in mock_transaction_manager.cpp: which transactions stay in the list.
use mathlib.Core.List.{append-nil, append_assoc}
use myblockchain.Prelude.{
  ℕ, ◌+◌, ◌≤◌, ◌≡◌, refl, sym, ap, ◌∙◌, ◌⊎◌, inl, inr, List, [], ◌∷◌, ◌++◌, Bool, true, ◌&&◌, ◌||◌,
  some, arith, ltb, ◌==◌, ==_iff, if◌then◌else◌, any, any-append, keep, All, All-append, All-map,
  Bool-cases,
}
use myblockchain.HashMap.{update}
use myblockchain.Transaction.{TransactionResult, reset_transaction, set_epoch}
use myblockchain.Transaction.Wrapper.{
  Heap, TransactionWrapper, transaction_wrapper, push_transaction,
}
use myblockchain.Manager.Retry.{is_abort, is_in}
use myblockchain.MockManager.{Ended, send_again, end_as, end_list}

-- The transaction is in a wrapper of the epoch.
abbrev pub was_sent : List TransactionWrapper → ℕ → ℕ → Bool
was_sent ws epoch t = any (λ w. (w.epoch == epoch) && is_in t w.transaction_list) ws

-- A transaction of a later epoch or an aborted one.
abbrev pub stays : ℕ → Heap → ℕ → Bool
stays epoch heap t = ltb epoch (heap t).epoch || is_abort (heap t).result

-- A part of the loop forgets no wrapper.
abbrev pub Grows : List TransactionWrapper → List TransactionWrapper → Type 0
Grows ws ws' = (p : TransactionWrapper → Bool) → any p ws ≡ true → any p ws' ≡ true

pub Grows-append : (ws vs : List TransactionWrapper) → Grows ws (ws ++ vs)
Grows-append ws vs p h = any-append p ws vs ∙ rw h refl

-- The heap and the wrappers with which the loop begins.
module _ (epoch : ℕ) (heap : Heap) (sent : List TransactionWrapper) where
  -- What is known of a transaction of the list: it is of the epoch, or of the next one and sent.
  abbrev pub IsReady : ℕ → Type 0
  IsReady t =
      (epoch ≤ (heap t).epoch)
      × ((heap t).epoch ≤ epoch + 1)
      × ((heap t).epoch ≡ epoch + 1 → was_sent sent (epoch + 1) t ≡ true)

  -- A transaction as it goes into the next epoch.
  abbrev pub IsNext : Ended → ℕ → Type 0
  IsNext s t = ((s.heap t).epoch ≡ epoch + 1) × (was_sent s.sent (epoch + 1) t ≡ true)

  -- What holds in the loop.
  pub record IsEnding (s : Ended) : Type 0 where
    pub related : (t : ℕ) → (s.heap t ≡ heap t) ⊎ ((stays epoch heap t ≡ true) × IsNext s t)
    pub all_next : All (IsNext s) s.aborted_list
    pub grows : Grows sent s.sent

  -- A step of the loop at a transaction.
  record Steps (t : ℕ) (s s1 : Ended) : Type 0 where
    is_ending : IsEnding s1
    adds : s1.aborted_list ≡ s.aborted_list ++ (if stays epoch heap t then t ∷ [] else [])
    goes_on : (ts : List ℕ) → end_list epoch epoch (t ∷ ts) s ≡ end_list epoch epoch ts s1

  step_later :
      (t : ℕ) (s : Ended)
      → IsEnding s
      → IsReady t
      → ltb epoch (s.heap t).epoch ≡ true
      → Steps t s (record s { aborted_list = s.aborted_list ++ (t ∷ []) })
  unfolding end_list
  step_later t s v (low, high, ready) later =
      let known : (stays epoch heap t ≡ true) × IsNext s t = elim (v.related t) [
        | inr done ↦ done
        | inl same ↦
            let e = ap (λ x. x.epoch) same in
            let is_next : (heap t).epoch ≡ epoch + 1 = ground (arith, later, e, high) in
            (
              ground (arith, later, e),
              (
                ground (arith, e, is_next),
                v.grows (λ w. (w.epoch == epoch + 1) && is_in t w.transaction_list) (ready is_next),
              ),
            )
      ] in
      record {
        is_ending = record {
          related = v.related;
          all_next = All-append (IsNext s) s.aborted_list (t ∷ []) v.all_next (known.1, tt);
          grows = v.grows;
        };
        adds = rw known.0 refl;
        goes_on = λ ts. rw (end_list, later) refl;
      }

  abbrev next_heap : ℕ → Ended → Heap
  next_heap t s = update s.heap t (set_epoch (epoch + 1) (reset_transaction (s.heap t)))

  next_heap-epoch :
      (t u : ℕ) (s : Ended)
      → (t ≡ u) ⊎ ((s.heap u).epoch ≡ epoch + 1)
      → (next_heap t s u).epoch ≡ epoch + 1
  next_heap-epoch t u s h = elim (Bool-cases (t == u)) [
    | inl here ↦ rw here refl
    | inr other ↦ rw other (elim h [ inl e ↦ ground (arith, e, other) | inr e ↦ e ])
  ]

  push_again :
      (t : ℕ) (s : Ended)
      → push_transaction (next_heap t s) (some t) (transaction_wrapper (epoch + 1))
        ≡ (true, record { epoch = epoch + 1; transaction_list = t ∷ [] })
  unfolding push_transaction
  push_again t s =
      rw ((==_iff (next_heap t s t).epoch (epoch + 1)).1 (next_heap-epoch t t s (inl refl))) refl

  send_again-IsNext : (t u : ℕ) (s : Ended) → (t ≡ u) ⊎ IsNext s u → IsNext (send_again epoch t s) u
  send_again-IsNext t u s (inl e) = (
    next_heap-epoch t u s (inl e),
    rw (push_again t s) (
        any-append (λ w. (w.epoch == epoch + 1) && is_in u w.transaction_list) s.sent _
        ∙ ground (arith, e)),
  )
  send_again-IsNext t u s (inr h) = (
    next_heap-epoch t u s (inr h.0),
    Grows-append s.sent _ (λ w. (w.epoch == epoch + 1) && is_in u w.transaction_list) h.1,
  )

  send_again-IsEnding :
      (t : ℕ) (s : Ended) → IsEnding s → stays epoch heap t ≡ true → IsEnding (send_again epoch t s)
  send_again-IsEnding t s v stay = record {
    related = λ u. elim (Bool-cases (t == u)) [
      | inl here ↦
          let e = (==_iff t u).0 here in
          inr (ap (stays epoch heap) (sym e) ∙ stay, send_again-IsNext t u s (inl e))
      | inr other ↦ elim (v.related u) [
        | inl same ↦ inl (rw other same)
        | inr done ↦ inr (done.0, send_again-IsNext t u s (inr done.1))
      ]
    ];
    all_next =
        All-append (IsNext (send_again epoch t s)) s.aborted_list (t ∷ [])
          (All-map (IsNext s) (IsNext (send_again epoch t s))
            (λ u h. send_again-IsNext t u s (inr h)) s.aborted_list v.all_next)
          (send_again-IsNext t t s (inl refl), tt);
    grows = λ p h. Grows-append s.sent _ p (v.grows p h);
  }

  commit-IsEnding : (s : Ended) (commit : ℕ) → IsEnding s → IsEnding (record s { commit = commit })
  commit-IsEnding s commit v = record {
    related = v.related;
    all_next = v.all_next;
    grows = v.grows;
  }

  step_as :
      (t : ℕ) (s : Ended) (r : TransactionResult)
      → IsEnding s
      → is_abort r ≡ stays epoch heap t
      → IsEnding (end_as epoch t s r)
        × ((end_as epoch t s r).aborted_list
            ≡ s.aborted_list ++ (if stays epoch heap t then t ∷ [] else []))
  unfolding end_as
  step_as t s TransactionResult.abort v e = (send_again-IsEnding t s v (sym e), rw (sym e) refl)
  step_as t s TransactionResult.commit v e =
      (commit-IsEnding s (s.commit + 1) v, rw (sym e) (sym (append-nil s.aborted_list)))
  step_as t s TransactionResult.abort_no_retry v e =
      (commit-IsEnding s (s.commit + 1) v, rw (sym e) (sym (append-nil s.aborted_list)))
  step_as t s TransactionResult.pending v e = (v, rw (sym e) (sym (append-nil s.aborted_list)))

  step_lem : (t : ℕ) (s : Ended) → IsEnding s → IsReady t → (s1 : Ended) × Steps t s s1
  unfolding end_list
  step_lem t s v ready = elim (Bool-cases (ltb epoch (s.heap t).epoch)) [
    | inl later ↦
        (record s { aborted_list = s.aborted_list ++ (t ∷ []) }, step_later t s v ready later)
    | inr now ↦
        let same : s.heap t ≡ heap t = elim (v.related t) [
          | inl same ↦ same
          | inr done ↦ absurd (ground (arith, now, done.1.0))
        ] in
        let e = ap (λ x. x.epoch) same in
        let current : (epoch == (s.heap t).epoch) ≡ true = ground (arith, now, e, ready.0) in
        let r : is_abort (s.heap t).result ≡ stays epoch heap t =
          ap (λ x. is_abort x.result) same ∙ ground (arith, now, e) in
        let p = step_as t s (s.heap t).result v r in
        (
          end_as epoch t s (s.heap t).result,
          record { is_ending = p.0; adds = p.1; goes_on = λ ts. rw (end_list, now, current) refl },
        )
  ]

  keep-cons :
      (t : ℕ) (ts : List ℕ) (s : Ended)
      → (s.aborted_list ++ (if stays epoch heap t then t ∷ [] else []))
          ++ keep (stays epoch heap) ts
        ≡ s.aborted_list ++ keep (stays epoch heap) (t ∷ ts)
  keep-cons t ts s = elim (Bool-cases (stays epoch heap t)) [
    | inl hit ↦ rw hit (append_assoc s.aborted_list (t ∷ []) (keep (stays epoch heap) ts))
    | inr miss ↦ rw miss (ap (λ l. l ++ keep (stays epoch heap) ts) (append-nil s.aborted_list))
  ]

  -- When every transaction of the list is of the epoch, or of the next one and sent, no check fails,
  -- and those of the next epoch and the aborted ones stay in the list.
  pub end_list_lem :
      (ts : List ℕ) (s : Ended)
      → IsEnding s
      → All IsReady ts
      → (s1 : Ended) × (end_list epoch epoch ts s ≡ some s1)
        × IsEnding s1
        × (s1.aborted_list ≡ s.aborted_list ++ keep (stays epoch heap) ts)
  end_list_lem [] s v a = (s, unfold end_list in refl, v, sym (append-nil s.aborted_list))
  end_list_lem (t ∷ ts) s v a =
      let (s1, p) = step_lem t s v a.0 in
      let (s2, ends, v2, rest) = end_list_lem ts s1 p.is_ending a.1 in
      (
        s2,
        p.goes_on ts ∙ ends,
        v2,
        rest ∙ ap (λ l. l ++ keep (stays epoch heap) ts) p.adds ∙ keep-cons t ts s,
      )
