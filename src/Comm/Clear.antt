-- ===== src/Comm/Clear.antt =====
-- What clearTransactionForEpoch of comm_controller.cpp deletes and keeps.
use mathlib.Core.List.{append_assoc, append-nil}
use myblockchain.Prelude.{
  ℕ, ◌<◌, ◌≡◌, ◌≢◌, ltb, lt→ltb, true, some, inl, inr, refl, sym, ap, ◌∙◌, List, [], ◌∷◌, ◌++◌,
  false, ◌==◌, ==_iff, keep, arith, Bool-cases,
}
use myblockchain.HashMap.{update}
use myblockchain.Transaction.Wrapper.{Heap}
use myblockchain.Comm.{CommController, clear_loop, clear_transaction_for_epoch}
use myblockchain.Comm.Supply.{update-here, update-there}

==-false : (a b : ℕ) → b ≢ a → (a == b) ≡ false
==-false a b other = elim (Bool-cases (a == b)) [
  | inl same ↦ absurd (other (sym ((==_iff a b).0 same)))
  | inr apart ↦ apart
]

module _ (heap : Heap) where
  -- The transactions of a list that are of this epoch.
  abbrev pub of_epoch : ℕ → List ℕ → List ℕ
  of_epoch e ts = keep (λ t. (heap t).epoch == e) ts

  clear_loop_lem :
      (epoch : ℕ) (ts : List ℕ) (map : ℕ → List ℕ)
      → ((clear_loop heap epoch ts map).0 ≡ of_epoch epoch ts)
        × ((k : ℕ) → k ≢ epoch → (clear_loop heap epoch ts map).1 k ≡ map k ++ of_epoch k ts)
  unfolding clear_loop
  clear_loop_lem epoch [] map = (refl, λ k other. sym (append-nil (map k)))
  clear_loop_lem epoch (t ∷ ts) map =
      let e = (heap t).epoch in
      let moved = update map e (map e ++ (t ∷ [])) in
      elim (Bool-cases (e == epoch)) [
        | inl same ↦ (
          rw (clear_loop, same) (ap (◌∷◌ t) (clear_loop_lem epoch ts map).0),
          λ k other.
              let skipped = ==-false e k (λ is. other (is ∙ (==_iff e epoch).0 same)) in
              rw (clear_loop, same, skipped) ((clear_loop_lem epoch ts map).1 k other),
        )
        | inr apart ↦ (
          rw (clear_loop, apart) (clear_loop_lem epoch ts moved).0,
          λ k other. elim (Bool-cases (e == k)) [
            | inl here ↦
                let at_k =
                  ap (λ i. update map i (map i ++ (t ∷ [])) k) ((==_iff e k).0 here)
                  ∙ update-here map k (map k ++ (t ∷ [])) in
                rw (clear_loop, apart, here)
                  ((clear_loop_lem epoch ts moved).1 k other
                    ∙ ap (λ us. us ++ of_epoch k ts) at_k
                    ∙ append_assoc (map k) (t ∷ []) (of_epoch k ts))
            | inr there ↦
                let differs : k ≢ e = λ is. ground (arith, there, (==_iff e k).1 (sym is)) in
                rw (clear_loop, apart, there)
                  ((clear_loop_lem epoch ts moved).1 k other
                    ∙ ap (λ us. us ++ of_epoch k ts)
                        (update-there map e k (map e ++ (t ∷ [])) differs))
          ],
        )
      ]

  -- For an epoch before the controller's own, no check fails, and the call deletes the transactions
  -- recorded under the epoch that are of that epoch, moves each of the others, in their order, to the end
  -- of the list of its own epoch, and leaves nothing recorded under the epoch.
  pub clear_transaction_for_epoch_lem :
      (epoch : ℕ) (s : CommController)
      → epoch < s.epoch
      → (s1 : CommController) × (clear_transaction_for_epoch heap epoch s
          ≡ some (of_epoch epoch (s.transaction_map epoch), s1))
        × (s1.transaction_map epoch ≡ [])
        × ((k : ℕ)
            → k ≢ epoch
            → s1.transaction_map k ≡ s.transaction_map k ++ of_epoch k (s.transaction_map epoch))
  unfolding clear_transaction_for_epoch
  clear_transaction_for_epoch_lem epoch s before =
      let (deleted, moved) = clear_loop_lem epoch (s.transaction_map epoch) s.transaction_map in
      let after = (clear_loop heap epoch (s.transaction_map epoch) s.transaction_map).1 in
      let checked : ltb epoch s.epoch ≡ true = lt→ltb epoch s.epoch before in
      let s1 = record s { transaction_map = update after epoch [] } in
      (
        s1,
        rw (clear_transaction_for_epoch, checked) (ap (λ ts. some (ts, s1)) deleted),
        update-here after epoch [],
        λ k other. update-there after epoch k [] other ∙ moved k other,
      )
