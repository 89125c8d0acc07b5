-- ===== src/MockManager/Rounds.antt =====
-- The rounds of mock_transaction_manager.cpp, when each reads the end of its own epoch.
use myblockchain.Prelude.{
  ℕ, ◌+◌, ◌≤◌, ◌≡◌, refl, sym, subst, ◌∙◌, inl, inr, [], Bool, true, ◌||◌, some, arith, ltb, leb,
  All-map, keep-congr, ◌==◌, keep, Bool-cases, All,
}
use myblockchain.Transaction.Wrapper.{Heap}
use myblockchain.Manager.Retry.{is_abort}
use myblockchain.MockManager.{MockManager, Outcome, execute, end_round}
use myblockchain.MockManager.Ending.{was_sent, stays, Grows, IsReady, end_list_lem}

-- A transaction of the list is of the manager's epoch, and is in a wrapper that was sent for it.
abbrev pub IsCurrent : MockManager → ℕ → Type 0
IsCurrent s t = ((s.heap t).epoch ≡ s.epoch) × (was_sent s.sent s.epoch t ≡ true)

-- Whether a transaction stays in the list at the end of an epoch.
abbrev pub again : Outcome → MockManager → ℕ → Bool
again outcome s t = ltb s.epoch (s.heap t).epoch || is_abort (outcome t).0

-- What a round makes of the state after the new transactions are made.
pub record Ends (outcome : Outcome) (s s1 : MockManager) : Type 0 where
  pub next_epoch : s1.epoch ≡ s.epoch + 1
  pub lists : s1.transaction_list ≡ keep (again outcome s) s.transaction_list
  pub current : All (IsCurrent s1) s1.transaction_list
  pub addresses : s1.next_address ≡ s.next_address
  pub grows : Grows s.sent s1.sent

execute-epoch :
    (epoch : ℕ) (outcome : Outcome) (heap : Heap) (t : ℕ)
    → (execute epoch outcome heap t).epoch ≡ (heap t).epoch
execute-epoch epoch outcome heap t = elim (Bool-cases ((heap t).epoch == epoch)) [
  | inl now ↦ rw now refl
  | inr later ↦ rw later refl
]

execute-stays :
    (epoch : ℕ) (outcome : Outcome) (heap : Heap) (t : ℕ)
    → epoch ≤ (heap t).epoch
    → stays epoch (execute epoch outcome heap) t
      ≡ (ltb epoch (heap t).epoch || is_abort (outcome t).0)
execute-stays epoch outcome heap t h = elim (Bool-cases ((heap t).epoch == epoch)) [
  | inl now ↦ rw now refl
  | inr later ↦ rw later (ground (arith, later, h))
]

execute-IsReady :
    (s : MockManager) (outcome : Outcome) (t : ℕ)
    → IsReady s.epoch s.heap s.sent t
    → IsReady s.epoch (execute s.epoch outcome s.heap) s.sent t
execute-IsReady s outcome t h =
    subst
      (λ e.
        (s.epoch ≤ e)
        × (e ≤ s.epoch + 1)
        × (e ≡ s.epoch + 1 → was_sent s.sent (s.epoch + 1) t ≡ true))
      (sym (execute-epoch s.epoch outcome s.heap t)) h

pub end_round_lem :
    (outcome : Outcome) (s : MockManager)
    → All (IsReady s.epoch s.heap s.sent) s.transaction_list
    → (s1 : MockManager) × (end_round s.epoch outcome s ≡ some s1) × Ends outcome s s1
unfolding end_round
end_round_lem outcome s ready =
    let ran = execute s.epoch outcome s.heap in
    let (end, ends, v, list) =
      end_list_lem s.epoch ran s.sent s.transaction_list
        (record { heap = ran; aborted_list = []; sent = s.sent; commit = 0; abort = 0 })
        (record { related = λ t. inl refl; all_next = tt; grows = λ p h. h })
        (All-map _ _ (execute-IsReady s outcome) s.transaction_list ready) in
    let now : (s.epoch == s.epoch) ≡ true = ground arith in
    let not_past : leb s.epoch s.epoch ≡ true = ground arith in
    (
      record s {
        epoch = s.epoch + 1;
        transaction_list = end.aborted_list;
        sent = end.sent;
        heap = end.heap;
      },
      rw (end_round, not_past, now, ends) refl,
      record {
        next_epoch = refl;
        lists =
            list
            ∙ keep-congr _ _ s.transaction_list (
                All-map _ _ (λ t h. execute-stays s.epoch outcome s.heap t h.0) s.transaction_list
                  ready);
        current = v.all_next;
        addresses = refl;
        grows = v.grows;
      },
    )
