-- ===== src/Manager/EpochEnd.antt =====
-- The end of an epoch in the transaction manager (the branch of `run` in transaction_manager_impl.cpp
-- for a finished epoch): which transactions are sent again, and which go into the block.
use mathlib.Core.List.{append_assoc, append-nil}
use myblockchain.Prelude.{
  All-map, All-both, Nodup, ℕ, ◌+◌, ◌<◌, ◌≤◌, ◌≡◌, ◌≢◌, refl, sym, subst, ◌∙◌, ap, inl, inr, List,
  [], ◌∷◌, ◌++◌, Bool, true, some, arith, ◌==◌, if◌then◌else◌, length, length-append, All,
  All-append, Bool-cases, keep, ==_iff, any-append,
}
use myblockchain.HashMap.{update}
use myblockchain.Transaction.{TransactionResult, reset_transaction, set_epoch}
use myblockchain.Transaction.Wrapper.{
  Heap, TransactionWrapper, transaction_wrapper, push_transaction,
}
use myblockchain.Manager.{
  TransactionManager, Finish, get_batch_max_size, retry_one, begin_finish, finish_as, finish_one,
  finish_list, finish_epoch,
}
use myblockchain.Manager.Retry.{
  all_transactions, is_abort, is_final, aborted, final, is_in, retried, all_transactions-append,
}

module _ (epoch : ℕ) where
  -- A wrapper for the next epoch.
  abbrev pub IsNext : TransactionWrapper → Type 0
  IsNext w = (w.epoch ≡ epoch + 1) × (length w.transaction_list ≤ get_batch_max_size)

  -- The wrappers before the end of the loop.
  record IsOpen (s : Finish) : Type 0 where
    wrapper_epoch : s.tr_wrapper.epoch ≡ epoch + 1
    next_epoch : s.next.epoch ≡ epoch + 1
    room : length s.tr_wrapper.transaction_list < get_batch_max_size
    full : All IsNext s.sent

  -- What a part of the loop adds to a state: transactions that go again, and ones for the block.
  record Adds (again block : List ℕ) (s s' : Finish) : Type 0 where
    is_open : IsOpen s'
    sends :
        all_transactions s'.sent ++ s'.tr_wrapper.transaction_list
        ≡ all_transactions s.sent ++ s.tr_wrapper.transaction_list ++ again
    monitors : s'.next.transaction_list ≡ s.next.transaction_list ++ again
    blocks : s'.given_to_block ≡ s.given_to_block ++ block
    changes : (a : ℕ) → s'.heap a ≡ (if is_in a again then retried epoch (s.heap a) else s.heap a)

  abbrev next_heap : ℕ → Finish → Heap
  next_heap t s = update s.heap t (set_epoch (epoch + 1) (reset_transaction (s.heap t)))

  push_retried :
      (t : ℕ) (s : Finish) (w : TransactionWrapper)
      → w.epoch ≡ epoch + 1
      → push_transaction (next_heap t s) (some t) w
        ≡ (true, record w { transaction_list = w.transaction_list ++ (t ∷ []) })
  unfolding push_transaction
  push_retried t s w e = ground arith

  retried_heap :
      (t : ℕ) (s : Finish) (a : ℕ)
      → next_heap t s a ≡ (if is_in a (t ∷ []) then retried epoch (s.heap a) else s.heap a)
  unfolding reset_transaction
  retried_heap t s a = elim (Bool-cases (t == a)) [
    | inl same ↦ rw same (ap (λ x. retried epoch (s.heap x)) ((==_iff t a).0 same))
    | inr other ↦ rw other refl
  ]

  retry_one_lem : (t : ℕ) (s : Finish) → IsOpen s → Adds (t ∷ []) [] s (retry_one epoch t s)
  retry_one_lem t s o =
      unfold retry_one in
      elim (Bool-cases (length (s.tr_wrapper.transaction_list ++ (t ∷ [])) == get_batch_max_size)) [
        | inl full ↦
            rw
              (
                push_retried t s s.tr_wrapper o.wrapper_epoch,
                push_retried t s s.next o.next_epoch,
                full,
              )
              (record {
                is_open = record {
                  wrapper_epoch = refl;
                  next_epoch = o.next_epoch;
                  room = omega arith;
                  full = All-append IsNext s.sent _ o.full ((o.wrapper_epoch, ground arith), tt);
                };
                sends =
                    append-nil (all_transactions (s.sent ++ (_ ∷ [])))
                    ∙ all_transactions-append s.sent (record s.tr_wrapper {
                      transaction_list = s.tr_wrapper.transaction_list ++ (t ∷ []);
                    })
                    ∙ sym (
                        append_assoc (all_transactions s.sent) s.tr_wrapper.transaction_list
                          (t ∷ []));
                monitors = refl;
                blocks = sym (append-nil s.given_to_block);
                changes = retried_heap t s;
              })
        | inr room ↦
            rw
              (
                push_retried t s s.tr_wrapper o.wrapper_epoch,
                push_retried t s s.next o.next_epoch,
                room,
              )
              (record {
                is_open = record {
                  wrapper_epoch = o.wrapper_epoch;
                  next_epoch = o.next_epoch;
                  room =
                      ground (arith, o.room, length-append s.tr_wrapper.transaction_list (t ∷ []));
                  full = o.full;
                };
                sends =
                    sym (
                      append_assoc (all_transactions s.sent) s.tr_wrapper.transaction_list
                        (t ∷ []));
                monitors = refl;
                blocks = sym (append-nil s.given_to_block);
                changes = retried_heap t s;
              })
      ]

  keep_open :
      (t : ℕ) (s : Finish) (commit abort : ℕ)
      → IsOpen s
      → Adds [] (t ∷ []) s (record s {
        given_to_block = s.given_to_block ++ (t ∷ []);
        commit = commit;
        abort = abort;
      })
  keep_open t s commit abort o = record {
    is_open = record {
      wrapper_epoch = o.wrapper_epoch;
      next_epoch = o.next_epoch;
      room = o.room;
      full = o.full;
    };
    sends = sym (append-nil _);
    monitors = sym (append-nil _);
    blocks = refl;
    changes = λ a. refl;
  }

  unchanged : (s : Finish) → IsOpen s → Adds [] [] s s
  unchanged s o = record {
    is_open = o;
    sends = sym (append-nil _);
    monitors = sym (append-nil _);
    blocks = sym (append-nil _);
    changes = λ a. refl;
  }

  finish_as_lem :
      (t : ℕ) (s : Finish)
      → IsOpen s
      → (r : TransactionResult)
      → Adds
          (if is_abort r then t ∷ [] else [])
          (if is_final r then t ∷ [] else [])
          s
          (finish_as epoch t s r)
  unfolding finish_as
  finish_as_lem t s o TransactionResult.abort = retry_one_lem t s o
  finish_as_lem t s o TransactionResult.commit = keep_open t s (s.commit + 1) s.abort o
  finish_as_lem t s o TransactionResult.abort_no_retry = keep_open t s s.commit (s.abort + 1) o
  finish_as_lem t s o TransactionResult.pending = unchanged s o

  Adds-trans :
      {again block again' block' : List ℕ} {s s' s'' : Finish}
      → Adds again block s s'
      → Adds again' block' s' s''
      → Adds (again ++ again') (block ++ block') s s''
  Adds-trans {again} {block} {again'} {block'} {s} {s'} {s''} p q = record {
    is_open = q.is_open;
    sends =
        q.sends
        ∙ ap (λ x. x ++ again') p.sends
        ∙ append_assoc (all_transactions s.sent ++ s.tr_wrapper.transaction_list) again again';
    monitors =
        q.monitors
        ∙ ap (λ x. x ++ again') p.monitors
        ∙ append_assoc s.next.transaction_list again again';
    blocks = q.blocks ∙ ap (λ x. x ++ block') p.blocks ∙ append_assoc s.given_to_block block block';
    changes = λ a. ground (arith, q.changes a, p.changes a, any-append (λ t. t == a) again again');
  }

  -- Only the transaction itself changes.
  unseen : (t u : ℕ) (s : Finish) → IsOpen s → t ≢ u → (finish_one epoch t s).heap u ≡ s.heap u
  unfolding finish_one
  unseen t u s o d = elim (Bool-cases (is_abort (s.heap t).result)) [
    | inl hit ↦ (finish_as_lem t s o (s.heap t).result).changes u ∙ rw hit (ground arith)
    | inr miss ↦ (finish_as_lem t s o (s.heap t).result).changes u ∙ rw miss refl
  ]

  keep_same :
      (h h' : Heap) (p : TransactionResult → Bool) (ts : List ℕ)
      → All (λ u. h' u ≡ h u) ts
      → keep (λ u. p (h' u).result) ts ≡ keep (λ u. p (h u).result) ts
  keep_same h h' p [] a = refl
  keep_same h h' p (t ∷ ts) a = rw (a.0, keep_same h h' p ts a.1) refl

  unseen-All :
      (t : ℕ) (ts : List ℕ) (s : Finish)
      → IsOpen s
      → All (λ u. t ≢ u) ts
      → All (λ u. (finish_one epoch t s).heap u ≡ s.heap u) ts
  unseen-All t [] s o d = tt
  unseen-All t (u ∷ ts) s o d = (unseen t u s o d.0, unseen-All t ts s o d.1)

  keep-cons :
      (p : ℕ → Bool) (t : ℕ) (ts : List ℕ)
      → (if p t then t ∷ [] else []) ++ keep p ts ≡ keep p (t ∷ ts)
  keep-cons p t ts = elim (Bool-cases (p t)) [ inl hit ↦ rw hit refl | inr miss ↦ rw miss refl ]

  Adds-at :
      {again block again' block' : List ℕ} {s s' : Finish}
      → again ≡ again'
      → block ≡ block'
      → Adds again block s s'
      → Adds again' block' s s'
  Adds-at {again} {block} {again'} {block'} {s} {s'} e f p =
      subst (λ x. Adds again' x s s') f (subst (λ x. Adds x block s s') e p)

  finish_list_lem :
      (ts : List ℕ) (s : Finish)
      → Nodup ts
      → All (λ t. (s.heap t).epoch ≡ epoch) ts
      → IsOpen s
      → (s' : Finish) × (finish_list epoch ts s ≡ some s')
        × Adds (aborted s.heap ts) (final s.heap ts) s s'
  unfolding finish_list
  finish_list_lem [] s d now o = (s, refl, unchanged s o)
  finish_list_lem (t ∷ ts) s d now o =
      let p : Adds (if is_abort (s.heap t).result then t ∷ [] else [])
          (if is_final (s.heap t).result then t ∷ [] else []) s (finish_one epoch t s) =
        unfold finish_one in finish_as_lem t s o (s.heap t).result in
      let next = finish_one epoch t s in
      let same = unseen-All t ts s o d.0 in
      let later =
        All-map (λ u. (next.heap u ≡ s.heap u) × ((s.heap u).epoch ≡ epoch))
          (λ u. (next.heap u).epoch ≡ epoch) (λ u (e, f). ap (λ x. x.epoch) e ∙ f) ts
          (All-both (λ u. next.heap u ≡ s.heap u) (λ u. (s.heap u).epoch ≡ epoch) ts same now.1) in
      let (s', runs, rest) = finish_list_lem ts next d.1 later p.is_open in
      let q = Adds-at (keep_same _ _ is_abort ts same) (keep_same _ _ is_final ts same) rest in
      let checked : (epoch == (s.heap t).epoch) ≡ true =
        (==_iff epoch (s.heap t).epoch).1 (sym now.0) in
      (
        s',
        rw (finish_list, checked) runs,
        Adds-at (keep-cons (λ u. is_abort (s.heap u).result) t ts)
            (keep-cons (λ u. is_final (s.heap u).result) t ts) (Adds-trans p q),
      )

-- When an epoch ends whose monitored transactions are all different and of that epoch, under a manager
-- whose second wrapper is for the next epoch, and the block is generated: no check fails; the wrappers
-- that are sent are for the next epoch, hold at most 500 transactions each, and together hold exactly the
-- aborted ones in their order; these are monitored behind what the next epoch has already, and each is
-- reset and of the next epoch, while no other transaction changes; those committed, or aborted for good,
-- are given to the block generator one after the other; and the manager is one epoch on, with wrappers
-- for that epoch and the one after.
pub finish_epoch_lem :
    (heap : Heap) (m : TransactionManager)
    → Nodup m.current_epoch_tr_wrapper.transaction_list
    → All (λ t. (heap t).epoch ≡ m.epoch) m.current_epoch_tr_wrapper.transaction_list
    → m.next_epoch_tr_wrapper.epoch ≡ m.epoch + 1
    → let ts = m.current_epoch_tr_wrapper.transaction_list in
      (s : Finish) × (m' : TransactionManager) × (finish_epoch true heap m ≡ some (s, m'))
      × All (IsNext m.epoch) s.sent
      × (all_transactions s.sent ≡ aborted heap ts)
      × (m'.current_epoch_tr_wrapper.transaction_list
          ≡ m.next_epoch_tr_wrapper.transaction_list ++ aborted heap ts)
      × ((a : ℕ)
          → s.heap a ≡ (if is_in a (aborted heap ts) then retried m.epoch (heap a) else heap a))
      × (s.given_to_block ≡ final heap ts)
      × (m'.epoch ≡ m.epoch + 1)
      × (m'.current_epoch_tr_wrapper.epoch ≡ m'.epoch)
      × (m'.next_epoch_tr_wrapper.epoch ≡ m'.epoch + 1)
unfolding finish_epoch
finish_epoch_lem heap m d now e =
    let (s, runs, p) =
      finish_list_lem m.epoch m.current_epoch_tr_wrapper.transaction_list (begin_finish heap m) d
        now (record { wrapper_epoch = refl; next_epoch = e; room = omega arith; full = tt }) in
    (
      record s { sent = s.sent ++ (s.tr_wrapper ∷ []) },
      record {
        epoch = m.epoch + 1;
        current_epoch_tr_wrapper = s.next;
        next_epoch_tr_wrapper = transaction_wrapper (m.epoch + 1 + 1);
      },
      rw (finish_epoch, runs) refl,
      All-append (IsNext m.epoch) s.sent (s.tr_wrapper ∷ []) p.is_open.full
          ((p.is_open.wrapper_epoch, omega (arith, p.is_open.room)), tt),
      all_transactions-append s.sent s.tr_wrapper ∙ p.sends,
      p.monitors,
      p.changes,
      p.blocks,
      refl,
      p.is_open.next_epoch,
      refl,
    )
