-- ===== src/MockManager/First.antt =====
-- The first two rounds of mock_transaction_manager.cpp, which make transactions.
use mathlib.Core.List.{append-nil}
use myblockchain.Prelude.{
  ltb→lt, range, All-range, ℕ, ◌+◌, ◌<◌, ◌≡◌, refl, sym, ap, subst, ◌∙◌, ◌⊎◌, inl, inr, ◌++◌, Bool,
  true, false, All-both, ◌&&◌, some, String, arith, ltb, ◌==◌, ==_iff, if◌then◌else◌, keep,
  Bool-cases, All, All-append, All-map, All-keep, keep-congr, keep-true, keep-append,
}
use myblockchain.Manager.Retry.{is_abort, is_in}
use myblockchain.MockManager.{MockManager, mock_transaction_manager, generate, Outcome, end_round}
use myblockchain.MockManager.Ending.{was_sent, IsReady}
use myblockchain.MockManager.Making.{Made, Made_lem}
use myblockchain.MockManager.Rounds.{IsCurrent, again, end_round_lem}

pub epoch-IsReady :
    (s : MockManager) (t : ℕ) → (s.heap t).epoch ≡ s.epoch → IsReady s.epoch s.heap s.sent t
epoch-IsReady s t e = (omega (arith, e), omega (arith, e), λ next. absurd (omega (arith, e, next)))

pub current_again :
    (o : Outcome) (s : MockManager) (t : ℕ)
    → (s.heap t).epoch ≡ s.epoch
    → again o s t ≡ is_abort (o t).0
current_again o s t e = ground (arith, e)

-- The epoch for which a transaction is made.
abbrev pub born : ℕ → ℕ
born t = if ltb t 10 then 0 else if ltb t 21 then 1 else 2

-- The test by which the first round keeps a transaction.
abbrev pub first_test : Outcome → ℕ → Bool
first_test o t = if ltb t 10 then is_abort (o t).0 else true

first_test_append :
    (o : Outcome)
    → keep (first_test o) (range 0 21) ≡ keep (first_test o) (range 0 11) ++ range 11 10
first_test_append o =
    let split : range 0 21 ≡ range 0 11 ++ range 11 10 = unfold range in refl in
    let later : keep (first_test o) (range 11 10) ≡ range 11 10 =
      keep-congr (first_test o) (λ t. true) (range 11 10)
        (All-range {P = λ t. first_test o t ≡ true} 11 10 (λ t low high. ground (arith, low)))
      ∙ keep-true (range 11 10) in
    ap (keep (first_test o)) split
    ∙ keep-append (first_test o) (range 0 11) (range 11 10)
    ∙ ap (◌++◌ (keep (first_test o) (range 0 11))) later

module _ (payload_of : String → ℕ → String) where
  first_made : Made true mock_transaction_manager (generate payload_of mock_transaction_manager)
  unfolding generate
  first_made = Made_lem payload_of true "lhx" mock_transaction_manager

  first_epochs :
      (t : ℕ)
      → t < 11
      → let m = generate payload_of mock_transaction_manager in
        ((t < 10) × ((m.heap t).epoch ≡ 0)) ⊎ ((t ≡ 10) × ((m.heap t).epoch ≡ 1))
  first_epochs t h =
      let m = generate payload_of mock_transaction_manager in
      elim (Bool-cases (t == 10)) [
        | inl last ↦
            let is_last = (==_iff t 10).0 last in
            inr (is_last, ap (λ u. (m.heap u).epoch) is_last ∙ first_made.early)
        | inr not_last ↦
            let below : t < 10 = ground (arith, not_last, h) in
            inl (below, first_made.new t (omega arith) below)
      ]

  first_ready :
      let m = generate payload_of mock_transaction_manager in
      All (IsReady m.epoch m.heap m.sent) (range 0 11)
  first_ready =
      let m = generate payload_of mock_transaction_manager in
      All-range {P = IsReady m.epoch m.heap m.sent} 0 11 (λ t low high. elim (first_epochs t high) [
        | inl (below, e) ↦ epoch-IsReady m t (e ∙ sym first_made.same_epoch)
        | inr (last, e) ↦ (
          omega (arith, e, first_made.same_epoch),
          omega (arith, e, first_made.same_epoch),
          λ next.
              subst (λ u. was_sent m.sent (m.epoch + 1) u ≡ true) (sym last)
                (subst (λ n. was_sent m.sent (n + 1) 10 ≡ true) (sym first_made.same_epoch)
                  first_made.early_sent),
        )
      ])

  first_again :
      (o : Outcome) (t : ℕ)
      → t < 11
      → again o (generate payload_of mock_transaction_manager) t ≡ first_test o t
  first_again o t h = elim (first_epochs t h) [
    | inl (below, e) ↦ ground (arith, below, e, first_made.same_epoch)
    | inr (last, e) ↦ ground (arith, last, e, first_made.same_epoch)
  ]

  first_sent :
      (t : ℕ)
      → t < 11
      → was_sent (generate payload_of mock_transaction_manager).sent (born t) t ≡ true
  first_sent t h =
      let m = generate payload_of mock_transaction_manager in
      elim (Bool-cases (t == 10)) [
        | inl last ↦
            let is_last = (==_iff t 10).0 last in
            subst (λ u. was_sent m.sent (born u) u ≡ true) (sym is_last) first_made.early_sent
        | inr not_last ↦
            let below : ltb t 10 ≡ true = ground (arith, not_last, h) in
            rw below (first_made.sends t (omega arith) (ltb→lt t 10 below))
      ]

  pub first_round :
      (o : Outcome)
      → (s1 : MockManager) × (end_round 0 o (generate payload_of mock_transaction_manager)
          ≡ some s1)
        × (s1.epoch ≡ 1)
        × (s1.next_address ≡ 11)
        × (s1.transaction_list ≡ keep (first_test o) (range 0 11))
        × All (IsCurrent s1) s1.transaction_list
        × ((t : ℕ) → t < 11 → was_sent s1.sent (born t) t ≡ true)
  first_round o =
      let m = generate payload_of mock_transaction_manager in
      let lists : m.transaction_list ≡ range 0 11 = unfold range in first_made.lists in
      let (s1, ended, e) = end_round_lem o m (rw lists first_ready) in
      (
        s1,
        subst (λ n. end_round n o m ≡ some s1) first_made.same_epoch ended,
        omega (arith, e.next_epoch, first_made.same_epoch),
        omega (arith, e.addresses, first_made.addresses),
        e.lists
            ∙ ap (keep (again o m)) lists
            ∙ keep-congr (again o m) (first_test o) (range 0 11) (
                All-range {P = λ t. again o m t ≡ first_test o t} 0 11
                  (λ t low high. first_again o t high)),
        e.current,
        λ t h. e.grows (λ w. (w.epoch == born t) && is_in t w.transaction_list) (first_sent t h),
      )

  second_made : (s : MockManager) → s.epoch ≡ 1 → Made false s (generate payload_of s)
  unfolding generate
  second_made s e =
      let not_first : (s.epoch == 0) ≡ false = ground (arith, e) in
      let is_second : (s.epoch == 1) ≡ true = ground (arith, e) in
      rw (not_first, is_second) (Made_lem payload_of false "chw" s)

  -- The second round: every transaction of the list is of its epoch.
  second_current :
      (o : Outcome) (s : MockManager)
      → s.epoch ≡ 1
      → s.next_address ≡ 11
      → s.transaction_list ≡ keep (first_test o) (range 0 11)
      → All (IsCurrent s) s.transaction_list
      → let m = generate payload_of s in
        (m.transaction_list ≡ keep (first_test o) (range 0 21))
        × All (λ t. (m.heap t).epoch ≡ m.epoch) m.transaction_list
  second_current o s epoch next lists current =
      let m = generate payload_of s in
      let made = second_made s epoch in
      let all : m.transaction_list ≡ s.transaction_list ++ range s.next_address 10 =
        made.lists ∙ append-nil (s.transaction_list ++ range s.next_address 10) in
      let below : All (λ t. t < 11) s.transaction_list = rw lists (
        All-keep (λ t. t < 11) (first_test o) (range 0 11)
          (All-range {P = λ t. t < 11} 0 11 (λ t low high. high))) in
      let old : All (λ t. (m.heap t).epoch ≡ m.epoch) s.transaction_list =
        All-map (λ t. IsCurrent s t × (t < 11)) (λ t. (m.heap t).epoch ≡ m.epoch)
          (λ t (c, h).
            ap (λ x. x.epoch) (made.old t (omega (arith, h, next))) ∙ c.0 ∙ sym made.same_epoch)
          s.transaction_list
          (All-both (IsCurrent s) (λ t. t < 11) s.transaction_list current below) in
      let new : All (λ t. (m.heap t).epoch ≡ m.epoch) (range s.next_address 10) =
        All-range {P = λ t. (m.heap t).epoch ≡ m.epoch} s.next_address 10
          (λ t low high. made.new t low high ∙ sym made.same_epoch) in
      (
        all ∙ rw (lists, next) (sym (first_test_append o)),
        subst (All (λ t. (m.heap t).epoch ≡ m.epoch)) (sym all) (
            All-append (λ t. (m.heap t).epoch ≡ m.epoch) s.transaction_list
              (range s.next_address 10) old new),
      )

  second_sent :
      (s : MockManager)
      → s.epoch ≡ 1
      → s.next_address ≡ 11
      → ((t : ℕ) → t < 11 → was_sent s.sent (born t) t ≡ true)
      → (t : ℕ) → t < 22
      → was_sent (generate payload_of s).sent (born t) t ≡ true
  second_sent s epoch next sent t h =
      let m = generate payload_of s in
      let made = second_made s epoch in
      elim (Bool-cases (ltb t 11)) [
        | inl first ↦
            made.grows (λ w. (w.epoch == born t) && is_in t w.transaction_list)
              (sent t (ltb→lt t 11 first))
        | inr later ↦ elim (Bool-cases (ltb t 21)) [
          | inl second ↦
              let e : s.epoch ≡ born t = ground (arith, later, second, epoch) in
              subst (λ n. was_sent m.sent n t ≡ true) e
                (made.sends t (ground (arith, later, next)) (ground (arith, second, next)))
          | inr last ↦
              let is_last : s.next_address + 10 ≡ t = ground (arith, last, h, next) in
              let e : s.epoch + 1 ≡ born t = ground (arith, later, last, epoch) in
              subst (λ n. was_sent m.sent n t ≡ true) e
                (subst (λ u. was_sent m.sent (s.epoch + 1) u ≡ true) is_last made.early_sent)
        ]
      ]

  pub second_round :
      (o0 o : Outcome) (s : MockManager)
      → s.epoch ≡ 1
      → s.next_address ≡ 11
      → s.transaction_list ≡ keep (first_test o0) (range 0 11)
      → All (IsCurrent s) s.transaction_list
      → ((t : ℕ) → t < 11 → was_sent s.sent (born t) t ≡ true)
      → (s1 : MockManager) × (end_round 1 o (generate payload_of s) ≡ some s1)
        × (s1.epoch ≡ 2)
        × (s1.transaction_list ≡ keep (λ t. is_abort (o t).0) (keep (first_test o0) (range 0 21)))
        × All (IsCurrent s1) s1.transaction_list
        × ((t : ℕ) → t < 22 → was_sent s1.sent (born t) t ≡ true)
  second_round o0 o s epoch next lists current sent =
      let m = generate payload_of s in
      let made = second_made s epoch in
      let (all, epochs) = second_current o0 s epoch next lists current in
      let (s1, ended, e) = end_round_lem o m (
        All-map (λ t. (m.heap t).epoch ≡ m.epoch) (IsReady m.epoch m.heap m.sent) (epoch-IsReady m)
          m.transaction_list epochs) in
      (
        s1,
        subst (λ n. end_round n o m ≡ some s1) (made.same_epoch ∙ epoch) ended,
        omega (arith, e.next_epoch, made.same_epoch, epoch),
        e.lists
            ∙ keep-congr (again o m) (λ t. is_abort (o t).0) m.transaction_list
                (All-map (λ t. (m.heap t).epoch ≡ m.epoch) (λ t. again o m t ≡ is_abort (o t).0)
                  (current_again o m) m.transaction_list epochs)
            ∙ ap (keep (λ t. is_abort (o t).0)) all,
        e.current,
        λ t h.
            e.grows (λ w. (w.epoch == born t) && is_in t w.transaction_list)
              (second_sent s epoch next sent t h),
      )
