-- ===== src/Reserve/Race.antt =====
-- The reservation loop of mock_reserve_table.cpp (lines 24 to 36) run by several worker threads on one
-- cell, an atomic access at a time.
use myblockchain.Prelude.{ℕ, ◌≤◌, ◌<◌, ◌≡◌, refl, ◌≢◌, ◌⊎◌, inl, inr, arith, subst, sym}
use myblockchain.HashMap.{update}

-- Where a thread stands in the loop, with `old_rts` where it is live.
pub data Pc : Type 0 where
  start : Pc  -- before the load
  loaded : (old : ℕ) → Pc  -- before the test
  stored : (old : ℕ) → Pc  -- before the compare-exchange
  done : Pc

-- One access of the thread with the id `tid`. The weak exchange may fail without a cause.
pub data Move (tid cell : ℕ) : Pc → ℕ → Pc → Type 0 where
  load : Move tid cell start cell (loaded cell)
  taken : {old : ℕ} → old ≤ tid → old ≢ 0 → Move tid cell (loaded old) cell done
  store : {old : ℕ} → (tid < old) ⊎ (old ≡ 0) → Move tid cell (loaded old) tid (stored old)
  exchange : {old : ℕ} → cell ≡ old → Move tid cell (stored old) tid done
  fail : {old : ℕ} → Move tid cell (stored old) cell start

pub record System : Type 0 where
  pub cell : ℕ
  pub pc : ℕ → Pc

-- A thread is named by the id of its transaction.
pub data Step (s : System) : System → Type 0 where
  pick :
      (tid : ℕ) {c : ℕ} {p : Pc}
      → Move tid s.cell (s.pc tid) c p
      → Step s (record { cell = c; pc = update s.pc tid p })

abbrev pub fresh : System
fresh = record { cell = 0; pc = λ _. start }

pub data Reach : System → Type 0 where
  begin : Reach fresh
  next : {s t : System} → Reach s → Step s t → Reach t

Move-cell : {tid cell c : ℕ} {p q : Pc} → Move tid cell p c q → (c ≡ cell) ⊎ (c ≡ tid)
Move-cell load = inl refl
Move-cell (taken _ _) = inl refl
Move-cell (store _) = inr refl
Move-cell (exchange _) = inr refl
Move-cell fail = inl refl

step :
    {s : System}
    → Reach s
    → (tid : ℕ) {p q : Pc} {c : ℕ} → s.pc tid ≡ p
    → Move tid s.cell p c q
    → Reach (record { cell = c; pc = update s.pc tid q })
step {s} r tid {q} {c} e m = next r (pick tid (subst (λ x. Move tid s.cell x c q) (sym e) m))

-- The bug: a thread that stores its id plainly, before the exchange, may overwrite a smaller id that was
-- stored since its load. For any two ids `a < b` that are not 0 there is an interleaving in which both
-- threads finish their reservations and the cell keeps the larger id, so `a` is lost.
pub reservation_lost :
    (a b : ℕ)
    → 0 < a
    → a < b
    → (s : System) × Reach s × (s.cell ≡ b) × (s.pc a ≡ done) × (s.pc b ≡ done)
reservation_lost a b pos h =
    let b_loads = step begin b refl load in
    let a_loads = step b_loads a {p = start} (ground arith) load in
    let a_stores = step a_loads a {p = loaded 0} (ground arith) (store (inr refl)) in
    let a_fails = step a_stores a {p = stored 0} (ground arith) fail in
    let a_loads_again = step a_fails a {p = start} (ground arith) load in
    let a_ends =
      step a_loads_again a {p = loaded a} (ground arith) (taken (omega arith) (omega arith)) in
    let b_stores = step a_ends b {p = loaded 0} (ground arith) (store (inr refl)) in
    let b_fails = step b_stores b {p = stored 0} (ground arith) fail in
    let b_loads_again = step b_fails b {p = start} (ground arith) load in
    let b_ends =
      step b_loads_again b {p = loaded b} (ground arith) (taken (omega arith) (omega arith)) in
    (_, b_ends, refl, ground arith, ground arith)
