-- ===== src/MockManager/Making.antt =====
-- The transactions that mock_transaction_manager.cpp makes in an epoch.
use mathlib.Core.List.{append_assoc, append-nil}
use myblockchain.Prelude.{
  ltb, ltb→lt, range, ℕ, zero, suc, ◌+◌, ◌≤◌, ◌<◌, ◌≡◌, refl, sym, ap, subst, ◌∙◌, inl, inr, List,
  [], ◌∷◌, ◌++◌, Bool, true, false, ◌&&◌, some, String, arith, ◌==◌, if◌then◌else◌, any-append,
  Bool-cases,
}
use myblockchain.HashMap.{update}
use myblockchain.Transaction.Wrapper.{transaction_wrapper, push_transaction}
use myblockchain.Manager.Retry.{is_in}
use myblockchain.MockManager.{MockManager, generate_payload, make_one, send, send_pairs, send_early}
use myblockchain.MockManager.Ending.{was_sent, Grows, Grows-append}

abbrev double : ℕ → ℕ
double zero = 0
double (suc n) = suc (suc (double n))

-- From one state to another, with some transactions of an epoch made.
record Makes (epoch n : ℕ) (added : List ℕ) (s s1 : MockManager) : Type 0 where
  same_epoch : s1.epoch ≡ s.epoch
  lists : s1.transaction_list ≡ s.transaction_list ++ added
  addresses : s1.next_address ≡ s.next_address + n
  old : (t : ℕ) → t < s.next_address → s1.heap t ≡ s.heap t
  new : (t : ℕ) → s.next_address ≤ t → t < s.next_address + n → (s1.heap t).epoch ≡ epoch
  grows : Grows s.sent s1.sent
  sends : (t : ℕ) → s.next_address ≤ t → t < s.next_address + n → was_sent s1.sent epoch t ≡ true

-- What the first two epochs make: five pairs, and one transaction of the next epoch.
pub record Made (listed : Bool) (s s1 : MockManager) : Type 0 where
  pub same_epoch : s1.epoch ≡ s.epoch
  pub lists :
      s1.transaction_list
      ≡ s.transaction_list
        ++ range s.next_address 10
        ++ (if listed then (s.next_address + 10) ∷ [] else [])
  pub addresses : s1.next_address ≡ s.next_address + 11
  pub old : (t : ℕ) → t < s.next_address → s1.heap t ≡ s.heap t
  pub new : (t : ℕ) → s.next_address ≤ t → t < s.next_address + 10 → (s1.heap t).epoch ≡ s.epoch
  pub early : (s1.heap (s.next_address + 10)).epoch ≡ s.epoch + 1
  pub early_sent : was_sent s1.sent (s.epoch + 1) (s.next_address + 10) ≡ true
  pub grows : Grows s.sent s1.sent
  pub sends :
      (t : ℕ) → s.next_address ≤ t → t < s.next_address + 10 → was_sent s1.sent s.epoch t ≡ true

module _ (payload_of : String → ℕ → String) where
  -- The wrapper of a pair has both.
  pair_lem :
      (key : String) (s : MockManager)
      → (make_one payload_of true s.epoch key
          (make_one payload_of true s.epoch key (transaction_wrapper s.epoch, s))).0
        ≡ record { epoch = s.epoch; transaction_list = s.next_address ∷ (s.next_address + 1) ∷ [] }
  unfolding push_transaction
  pair_lem key s = ground arith

  pair_sent :
      (key : String) (s : MockManager) (t : ℕ)
      → s.next_address ≤ t
      → t < s.next_address + 2
      → let first = make_one payload_of true s.epoch key (transaction_wrapper s.epoch, s) in
        let second = make_one payload_of true s.epoch key first in
        was_sent (s.sent ++ (second.0 ∷ [])) s.epoch t ≡ true
  pair_sent key s t low high = rw (pair_lem key s) (
      any-append (λ w. (w.epoch == s.epoch) && is_in t w.transaction_list) s.sent _
      ∙ ground (arith, low, high))

  send_pairs_lem :
      (n : ℕ) (key : String) (s : MockManager)
      → Makes s.epoch (double n) (range s.next_address (double n)) s (send_pairs payload_of n key s)
  unfolding send_pairs range
  send_pairs_lem zero key s = record {
    same_epoch = refl;
    lists = sym (append-nil s.transaction_list);
    addresses = omega arith;
    old = λ t h. refl;
    new = λ t low high. absurd (omega arith);
    grows = λ p h. h;
    sends = λ t low high. absurd (omega arith);
  }
  send_pairs_lem (suc n) key s =
      let first = make_one payload_of true s.epoch key (transaction_wrapper s.epoch, s) in
      let second = make_one payload_of true s.epoch key first in
      let m = send_pairs_lem n key (send second.0 second.1) in
      record {
        same_epoch = m.same_epoch;
        lists =
            m.lists
            ∙ append_assoc (s.transaction_list ++ (s.next_address ∷ [])) ((s.next_address + 1) ∷ [])
                (range (s.next_address + 1 + 1) (double n))
            ∙ append_assoc s.transaction_list (s.next_address ∷ []) _;
        addresses = omega (arith, m.addresses);
        old = λ t h. m.old t (omega arith) ∙ ground arith;
        new = λ t low high. elim (Bool-cases (t == s.next_address)) [
          | inl is_first ↦
              ap (λ x. x.epoch) (m.old t (ground (arith, is_first))) ∙ ground (arith, is_first)
          | inr not_first ↦ elim (Bool-cases (t == s.next_address + 1)) [
            | inl is_second ↦
                ap (λ x. x.epoch) (m.old t (ground (arith, is_second))) ∙ ground (arith, is_second)
            | inr not_second ↦
                m.new t (ground (arith, low, not_first, not_second)) (omega (arith, high))
          ]
        ];
        grows = λ p h. m.grows p (Grows-append s.sent _ p h);
        sends = λ t low high. elim (Bool-cases (ltb t (s.next_address + 2))) [
          | inl here ↦
              m.grows (λ w. (w.epoch == s.epoch) && is_in t w.transaction_list)
                (pair_sent key s t low (ltb→lt _ _ here))
          | inr later ↦ m.sends t (ground (arith, later)) (omega (arith, high))
        ];
      }

  listed_lem :
      (listed : Bool) (ts : List ℕ) (t : ℕ)
      → (if listed then ts ++ (t ∷ []) else ts) ≡ ts ++ (if listed then t ∷ [] else [])
  listed_lem true ts t = refl
  listed_lem false ts t = sym (append-nil ts)

  push_early :
      (s : MockManager)
      → push_transaction
          (update s.heap s.next_address (generate_payload payload_of (s.epoch + 1) s.tid "chw"))
          (some s.next_address)
          (transaction_wrapper (s.epoch + 1))
        ≡ (true, record { epoch = s.epoch + 1; transaction_list = s.next_address ∷ [] })
  unfolding push_transaction
  push_early s = ground arith

  early_sent :
      (listed : Bool) (s : MockManager)
      → was_sent (send_early payload_of listed s).sent (s.epoch + 1) s.next_address ≡ true
  early_sent listed s = rw (push_early s) (
      any-append (λ w. (w.epoch == s.epoch + 1) && is_in s.next_address w.transaction_list) s.sent _
      ∙ ground arith)

  send_early_lem :
      (listed : Bool) (s : MockManager)
      → let s1 = send_early payload_of listed s in
        Makes (s.epoch + 1) 1 (if listed then s.next_address ∷ [] else []) s s1
        × (was_sent s1.sent (s.epoch + 1) s.next_address ≡ true)
  send_early_lem listed s = (
    record {
      same_epoch = refl;
      lists = listed_lem listed s.transaction_list s.next_address;
      addresses = refl;
      old = λ t h. ground arith;
      new = λ t low high. ground (arith, low, high);
      grows = Grows-append s.sent _;
      sends = λ t low high.
          subst (λ u. was_sent (send_early payload_of listed s).sent (s.epoch + 1) u ≡ true)
            (omega (arith, low, high)) (early_sent listed s);
    },
    early_sent listed s,
  )

  pub Made_lem :
      (listed : Bool) (key : String) (s : MockManager)
      → Made listed s (send_early payload_of listed (send_pairs payload_of 5 key s))
  Made_lem listed key s =
      let s1 = send_pairs payload_of 5 key s in
      let s2 = send_early payload_of listed s1 in
      let m = send_pairs_lem 5 key s in
      let (e, e_sent) = send_early_lem listed s1 in
      record {
        same_epoch = e.same_epoch ∙ m.same_epoch;
        lists = e.lists ∙ rw (m.lists, m.addresses) refl;
        addresses = omega (arith, e.addresses, m.addresses);
        old = λ t h. e.old t (omega (arith, h, m.addresses)) ∙ m.old t h;
        new = λ t low high.
            ap (λ x. x.epoch) (e.old t (omega (arith, high, m.addresses))) ∙ m.new t low high;
        early =
            ap (λ t. (s2.heap t).epoch) (sym m.addresses)
            ∙ e.new s1.next_address (omega arith) (omega arith)
            ∙ ap (λ x. x + 1) m.same_epoch;
        early_sent =
            subst (λ t. was_sent s2.sent (s.epoch + 1) t ≡ true) m.addresses
              (subst (λ x. was_sent s2.sent (x + 1) s1.next_address ≡ true) m.same_epoch e_sent);
        grows = λ p h. e.grows p (m.grows p h);
        sends = λ t low high.
            e.grows (λ w. (w.epoch == s.epoch) && is_in t w.transaction_list) (m.sends t low high);
      }
