-- ===== src/Coordinator/Drain.antt =====
-- What the coordinator takes from its queue in one epoch (getWorkload and the loop of mainRoutine in
-- AriaCoordinator.cpp).
use mathlib.Core.List.{append_assoc, append-nil}
use myblockchain.Prelude.{
  ℕ, zero, suc, ◌<◌, ◌≤◌, ◌≡◌, refl, sym, ◌∙◌, ap, inl, inr, List, [], ◌∷◌, ◌++◌, true, false, ◌&&◌,
  none, some, arith, ltb, ◌==◌, length, length-append, All, Bool-cases,
}
use myblockchain.Transaction.Wrapper.{Heap}
use myblockchain.Coordinator.{
  Input, Workload, max_transaction_per_workload, back, has_workload, fill, get_workload,
  take_workloads,
}

-- The transactions of the workloads, in their order.
abbrev pub transactions : List Workload → List ℕ
transactions [] = []
transactions (w ∷ ws) = w.transaction_list ++ transactions ws

module _ (heap : Heap) (epoch : ℕ) where
  abbrev pub IsCurrent : ℕ → Type 0
  IsCurrent t = (heap t).epoch ≡ epoch

  abbrev pub IsLater : ℕ → Type 0
  IsLater t = epoch < (heap t).epoch

  -- A workload of the epoch that is not empty and not too large.
  abbrev pub IsFair : Workload → Type 0
  IsFair w =
      (w.epoch ≡ epoch)
      × (0 < length w.transaction_list)
      × (length w.transaction_list ≤ max_transaction_per_workload)

  back-IsLater :
      (ts : List ℕ) (l : ℕ) (ls : List ℕ)
      → All IsLater (l ∷ ls)
      → (last : ℕ) × (back (ts ++ (l ∷ ls)) ≡ some last) × IsLater last
  unfolding back
  back-IsLater [] l [] a = (l, refl, a.0)
  back-IsLater [] l (m ∷ ls) a = back-IsLater [] m ls a.1
  back-IsLater (t ∷ []) l ls a = back-IsLater [] l ls a
  back-IsLater (t ∷ u ∷ ts) l ls a = back-IsLater (u ∷ ts) l ls a

  has_workload_lem :
      (ts : List ℕ) (l : ℕ) (ls : List ℕ)
      → All IsLater (l ∷ ls)
      → has_workload heap (record { epoch_chan = epoch; transaction_buffer = ts ++ (l ∷ ls) })
        ≡ true
  unfolding has_workload
  has_workload_lem ts l ls a =
      let (last, e, later) = back-IsLater ts l ls a in
      let test : ltb epoch (heap last).epoch ≡ true = ground arith in
      rw (e, has_workload, test) refl

  -- What the do-while loop splits off the current transactions.
  record Split (taken current later : List ℕ) : Type 0 where
    front_part : List ℕ
    rest : List ℕ
    whole : front_part ++ rest ≡ current
    runs : fill heap epoch taken (current ++ later) ≡ (taken ++ front_part, rest ++ later)
    small : length (taken ++ front_part) ≤ max_transaction_per_workload
    still : All IsCurrent rest

  fill_lem :
      (taken current : List ℕ) (l : ℕ) (ls : List ℕ)
      → All IsCurrent current
      → IsLater l
      → length taken ≤ max_transaction_per_workload
      → Split taken current (l ∷ ls)
  unfolding fill
  fill_lem taken [] l ls a later bound = record {
    front_part = [];
    rest = [];
    whole = refl;
    runs =
        let other : ((heap l).epoch == epoch) ≡ false = ground arith in
        rw other (ap (λ x. (x, l ∷ ls)) (sym (append-nil taken)));
    small = omega (arith, length-append taken []);
    still = tt;
  }
  fill_lem taken (t ∷ ts) l ls a later bound =
      elim (Bool-cases
        ((heap t).epoch == epoch && ltb (length taken) max_transaction_per_workload)) [
          | inl more ↦
              let s =
                fill_lem (taken ++ (t ∷ [])) ts l ls a.1 later
                  (ground (arith, length-append taken (t ∷ []))) in
              record {
                front_part = t ∷ s.front_part;
                rest = s.rest;
                whole = ap (◌∷◌ t) s.whole;
                runs = rw more (
                    s.runs
                    ∙ ap (λ x. (x, s.rest ++ (l ∷ ls))) (append_assoc taken (t ∷ []) s.front_part));
                small =
                    omega (arith, s.small, ap length (append_assoc taken (t ∷ []) s.front_part));
                still = s.still;
              }
          | inr full ↦ record {
            front_part = [];
            rest = t ∷ ts;
            whole = refl;
            runs = rw full (ap (λ x. (x, t ∷ (ts ++ (l ∷ ls)))) (sym (append-nil taken)));
            small = omega (arith, length-append taken []);
            still = a;
          }
        ]

  abbrev input : List ℕ → Input
  input ts = record { epoch_chan = epoch; transaction_buffer = ts }

  -- One call, when there is a transaction of the epoch.
  record Taken (current later : List ℕ) : Type 0 where
    workload : Workload
    rest : List ℕ
    runs :
        get_workload heap (input (current ++ later)) ≡ some (some workload, input (rest ++ later))
    whole : workload.transaction_list ++ rest ≡ current
    fair : IsFair workload
    still : All IsCurrent rest

  get_workload_lem :
      (t : ℕ) (ts : List ℕ) (l : ℕ) (ls : List ℕ)
      → All IsCurrent (t ∷ ts)
      → All IsLater (l ∷ ls)
      → Taken (t ∷ ts) (l ∷ ls)
  unfolding get_workload
  get_workload_lem t ts l ls a later =
      let s = fill_lem (t ∷ []) ts l ls a.1 later.0 (omega arith) in
      let ready = has_workload_lem (t ∷ ts) l ls later in
      let current : ltb epoch (heap t).epoch ≡ false = ground arith in
      record {
        workload = record { epoch = (heap t).epoch; transaction_list = t ∷ s.front_part };
        rest = s.rest;
        runs = rw (ready, current) (rw s.runs refl);
        whole = ap (◌∷◌ t) s.whole;
        fair = (a.0, omega arith, s.small);
        still = s.still;
      }

  get_workload_later :
      (l : ℕ) (ls : List ℕ)
      → All IsLater (l ∷ ls)
      → get_workload heap (input (l ∷ ls)) ≡ some (none, input (l ∷ ls))
  unfolding get_workload
  get_workload_later l ls later =
      let ready = has_workload_lem [] l ls later in
      let over : ltb epoch (heap l).epoch ≡ true = ground arith in rw (ready, over) refl

  -- When the queue holds the transactions of the epoch and behind them at least one, and only ones, of
  -- later epochs, the loop of `mainRoutine` never waits and ends, with a round more than there are
  -- transactions of the epoch. Its workloads are of the epoch, each of 1 to 1000 transactions, and are
  -- together exactly the epoch's transactions in the order of the queue; the later ones stay.
  pub take_workloads_lem :
      (rounds : ℕ) (current : List ℕ) (l : ℕ) (ls : List ℕ)
      → length current < rounds
      → All IsCurrent current
      → All IsLater (l ∷ ls)
      → (ws : List Workload) × (take_workloads rounds heap
            (record { epoch_chan = epoch; transaction_buffer = current ++ (l ∷ ls) })
          ≡ some (ws, record { epoch_chan = epoch; transaction_buffer = l ∷ ls }))
        × (transactions ws ≡ current)
        × All IsFair ws
  unfolding take_workloads
  take_workloads_lem zero current l ls h a later = ground arith
  take_workloads_lem (suc rounds) [] l ls h a later =
      ([], rw (take_workloads, get_workload_later l ls later) refl, refl, tt)
  take_workloads_lem (suc rounds) (t ∷ ts) l ls h a later =
      let s = get_workload_lem t ts l ls a later in
      let shorter : length s.rest < rounds =
        omega
          (arith, length-append s.workload.transaction_list s.rest, ap length s.whole, s.fair.1) in
      let (ws, runs, all, fair) = take_workloads_lem rounds s.rest l ls shorter s.still later in
      (
        s.workload ∷ ws,
        rw (take_workloads, s.runs) (rw runs refl),
        ap (◌++◌ s.workload.transaction_list) all ∙ s.whole,
        (s.fair, fair),
      )
