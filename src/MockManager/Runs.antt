-- ===== src/MockManager/Runs.antt =====
-- The whole loop of mock_transaction_manager.cpp, when each round reads the end of its own epoch.
use myblockchain.Prelude.{
  ◌<◌, range, ℕ, ◌+◌, ◌≤◌, ◌≡◌, refl, sym, ap, subst, ◌∙◌, List, [], ◌∷◌, Bool, true, ◌&&◌, some,
  String, arith, ltb, ◌==◌, if◌then◌else◌, keep, length, All, All-map, keep-congr, keep-true,
  keep-keep,
}
use myblockchain.Manager.Retry.{is_abort, is_in}
use myblockchain.MockManager.{MockManager, mock_transaction_manager, generate, Outcome, run}
use myblockchain.MockManager.Ending.{was_sent, Grows}
use myblockchain.MockManager.Rounds.{IsCurrent, again, end_round_lem}
use myblockchain.MockManager.First.{
  born, epoch-IsReady, current_again, first_test, first_round, second_round,
}

-- The rounds from an epoch on, with these outcomes.
abbrev pub in_step : ℕ → List Outcome → List (ℕ × Outcome)
in_step epoch [] = []
in_step epoch (o ∷ os) = (epoch, o) ∷ in_step (epoch + 1) os

-- Every outcome aborts the transaction.
abbrev pub all_aborted : List Outcome → ℕ → Bool
all_aborted [] t = true
all_aborted (o ∷ os) t = is_abort (o t).0 && all_aborted os t

-- From the epoch for which it was made on, the first ten being of epoch 0 and the others of epoch 1.
abbrev pub always_aborted : Outcome → List Outcome → ℕ → Bool
always_aborted first rest t =
    (if ltb t 10 then is_abort (first t).0 else true) && all_aborted rest t

module _ (payload_of : String → ℕ → String) where
  generate_later : (s : MockManager) → 2 ≤ s.epoch → generate payload_of s ≡ s
  unfolding generate
  generate_later s h = ground (arith, h)

  -- From the third round on.
  later_rounds :
      (os : List Outcome) (s : MockManager)
      → 2 ≤ s.epoch
      → All (IsCurrent s) s.transaction_list
      → (s1 : MockManager) × (run payload_of (in_step s.epoch os) s ≡ some s1)
        × (s1.epoch ≡ s.epoch + length os)
        × (s1.transaction_list ≡ keep (all_aborted os) s.transaction_list)
        × All (IsCurrent s1) s1.transaction_list
        × Grows s.sent s1.sent
  unfolding run
  later_rounds [] s late current =
      (s, refl, omega arith, sym (keep-true s.transaction_list), current, λ p h. h)
  later_rounds (o ∷ os) s late current =
      let ready = All-map _ _ (λ t c. epoch-IsReady s t c.0) s.transaction_list current in
      let (s1, ended, e) = end_round_lem o s ready in
      let (s2, ran, epoch, lists, current2, grows) =
        later_rounds os s1 (omega (arith, late, e.next_epoch)) e.current in
      (
        s2,
        rw (run, generate_later s late, ended)
            (subst (λ n. run payload_of (in_step n os) s1 ≡ some s2) e.next_epoch ran),
        omega (arith, epoch, e.next_epoch),
        lists
            ∙ ap (keep (all_aborted os)) e.lists
            ∙ keep-keep (all_aborted os) (again o s) s.transaction_list
            ∙ keep-congr _ _ s.transaction_list (
                All-map _ _ (λ t c. ap (λ b. b && all_aborted os t) (current_again o s t c.0))
                  s.transaction_list current),
        current2,
        λ p h. grows p (e.grows p h),
      )

  -- When the end of each epoch is read in its round, no check fails, and after two rounds or more the
  -- list has exactly those of the first 21 transactions that were aborted in every epoch from the one
  -- for which they were made, in the order in which they were made; each is of the current epoch, and a
  -- wrapper of that epoch with it has been sent. All 22 transactions that are made were sent for the
  -- epoch for which they were made, 0 for the first ten, 1 for the next eleven and 2 for the last, which is
  -- not among those of the list.
  pub run-in_step :
      (first second : Outcome) (rest : List Outcome)
      → (s : MockManager) × (run payload_of
            (in_step 0 (first ∷ second ∷ rest))
            mock_transaction_manager
          ≡ some s)
        × (s.epoch ≡ 2 + length rest)
        × (s.transaction_list ≡ keep (always_aborted first (second ∷ rest)) (range 0 21))
        × All (IsCurrent s) s.transaction_list
        × ((t : ℕ) → t < 22 → was_sent s.sent (born t) t ≡ true)
  unfolding run
  run-in_step first second rest =
      let (s1, ended1, epoch1, next1, lists1, current1, sent1) = first_round payload_of first in
      let (s2, ended2, epoch2, lists2, current2, sent2) =
        second_round payload_of first second s1 epoch1 next1 lists1 current1 sent1 in
      let (s, ran, epoch, lists, current, grows) =
        later_rounds rest s2 (omega (arith, epoch2)) current2 in
      (
        s,
        rw (run, ended1, ended2)
            (subst (λ n. run payload_of (in_step n rest) s2 ≡ some s) epoch2 ran),
        omega (arith, epoch, epoch2),
        lists
            ∙ ap (keep (all_aborted rest)) lists2
            ∙ keep-keep (all_aborted rest) (λ t. is_abort (second t).0)
                (keep (first_test first) (range 0 21))
            ∙ keep-keep (all_aborted (second ∷ rest)) (first_test first) (range 0 21),
        current,
        λ t h. grows (λ w. (w.epoch == born t) && is_in t w.transaction_list) (sent2 t h),
      )
