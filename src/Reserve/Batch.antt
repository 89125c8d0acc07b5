-- ===== src/Reserve/Batch.antt =====
-- A whole epoch of reservations made one transaction after another, and what `dependencyAnalysis`
-- of mock_reserve_table.cpp then answers.
use myblockchain.Prelude.{
  ℕ, suc, ◌≡◌, refl, ◌≢◌, ◌∙◌, ap, List, [], ◌∷◌, Bool, ◌&&◌, ◌||◌, Option, none, some, arith, ltb,
  String, any, any-congr, All,
}
use myblockchain.Transaction.{KvRwSet}
use myblockchain.Reserve.{
  ReserveTable, TableList, TransactionDependency, mock_reserve_table, reserve_rwset, read_places,
  write_places, held_before, dependency_analysis,
}
use myblockchain.Reserve.Cell.{held}
use myblockchain.Reserve.Tables.{
  reserved, reserved-empty, touches, reserve_keys_lem, held-claimed, held_before_lem,
}

-- The transactions of an epoch, by id, in the order of their reservations.
abbrev pub Batch : Type 0
Batch = List (ℕ × KvRwSet)

unfoldable pub reserve_batch : ℕ → (ℕ → Bool) → Batch → ReserveTable → Option ReserveTable
reserve_batch rounds weak [] t = some t
reserve_batch rounds weak ((tid, set) ∷ rest) t = elim (reserve_rwset rounds weak set tid t) [
  | none ↦ none
  | some t' ↦ reserve_batch rounds weak rest t'
]

abbrev pub reads : KvRwSet → List (String × String)
reads set = read_places set.reads

abbrev pub writes : KvRwSet → List (String × String)
writes set = write_places set.writes

-- Some transaction of the batch with a smaller id than `m` reads (or writes) the place.
abbrev pub preceded : (KvRwSet → List (String × String)) → Batch → ℕ → String × String → Bool
preceded at batch m p = any (λ e. ltb e.0 m && touches p.0 p.1 (at e.1)) batch

-- The dependencies of a transaction as they are meant: read from the batch, with no table.
abbrev pub dependency_in : Batch → KvRwSet → ℕ → TransactionDependency
dependency_in batch set m = record {
  raw = any (preceded writes batch m) (reads set);
  waw = any (preceded writes batch m) (writes set);
  war = any (preceded reads batch m) (writes set);
}

-- The two tables after a batch, by what they say of a transaction `m`.
pub record Reserved (batch : Batch) (before after : ReserveTable) : Type 0 where
  pub reads_hold :
      (m : ℕ) (p : String × String)
      → held (reserved after.read_table_list p.0 p.1) m
        ≡ (preceded reads batch m p || held (reserved before.read_table_list p.0 p.1) m)
  pub writes_hold :
      (m : ℕ) (p : String × String)
      → held (reserved after.write_table_list p.0 p.1) m
        ≡ (preceded writes batch m p || held (reserved before.write_table_list p.0 p.1) m)

pub reserve_rwset_lem :
    (rounds : ℕ) (weak : ℕ → Bool) (set : KvRwSet) (tid : ℕ) (t : ReserveTable)
    → tid ≢ 0
    → (after : ReserveTable) × (reserve_rwset (suc (suc rounds)) weak set tid t ≡ some after)
      × (after.epoch ≡ t.epoch)
      × Reserved ((tid, set) ∷ []) t after
unfolding reserve_rwset
reserve_rwset_lem rounds weak set tid t h =
    let (r, r_runs, r_holds) = reserve_keys_lem rounds weak tid (reads set) t.read_table_list h in
    let (w, w_runs, w_holds) = reserve_keys_lem rounds weak tid (writes set) t.write_table_list h in
    (
      record t { read_table_list = r; write_table_list = w },
      rw (r_runs, reserve_rwset) (rw (w_runs, reserve_rwset) refl),
      refl,
      record {
        reads_hold = λ m p. ground (
          arith,
          r_holds p.0 p.1,
          held-claimed tid m p.0 p.1 (reads set) (reserved t.read_table_list p.0 p.1) h,
        );
        writes_hold = λ m p. ground (
          arith,
          w_holds p.0 p.1,
          held-claimed tid m p.0 p.1 (writes set) (reserved t.write_table_list p.0 p.1) h,
        );
      },
    )

pub Reserved-trans :
    (e : ℕ × KvRwSet) (batch : Batch) (t u v : ReserveTable)
    → Reserved (e ∷ []) t u
    → Reserved batch u v
    → Reserved (e ∷ batch) t v
Reserved-trans e batch t u v a b = record {
  reads_hold = λ m p. ground (arith, a.reads_hold m p, b.reads_hold m p);
  writes_hold = λ m p. ground (arith, a.writes_hold m p, b.writes_hold m p);
}

reserve_batch_lem :
    (rounds : ℕ) (weak : ℕ → Bool) (batch : Batch) (t : ReserveTable)
    → All (λ e. e.0 ≢ 0) batch
    → (after : ReserveTable) × (reserve_batch (suc (suc rounds)) weak batch t ≡ some after)
      × Reserved batch t after
unfolding reserve_batch
reserve_batch_lem rounds weak [] t h =
    (t, refl, record { reads_hold = λ m p. refl; writes_hold = λ m p. refl })
reserve_batch_lem rounds weak ((tid, set) ∷ rest) t h =
    let (u, runs, _, first) = reserve_rwset_lem rounds weak set tid t h.0 in
    let (v, then_runs, others) = reserve_batch_lem rounds weak rest u h.1 in
    (v, rw (runs, reserve_batch) then_runs, Reserved-trans (tid, set) rest t u v first others)

-- The tables hold the reservations of the batch, and no others.
pub record Holds (batch : Batch) (t : ReserveTable) : Type 0 where
  pub held_reads :
      (m : ℕ) (p : String × String)
      → held (reserved t.read_table_list p.0 p.1) m ≡ preceded reads batch m p
  pub held_writes :
      (m : ℕ) (p : String × String)
      → held (reserved t.write_table_list p.0 p.1) m ≡ preceded writes batch m p

pub Reserved-Holds :
    (hasher : String → ℕ) (epoch : ℕ) {batch : Batch} {t : ReserveTable}
    → Reserved batch (mock_reserve_table hasher epoch) t
    → Holds batch t
Reserved-Holds hasher epoch r = record {
  held_reads = λ m p. ground (arith, r.reads_hold m p, reserved-empty hasher p.0 p.1);
  held_writes = λ m p. ground (arith, r.writes_hold m p, reserved-empty hasher p.0 p.1);
}

module _ {batch : Batch} {t : ReserveTable} (h : Holds batch t) (set : KvRwSet) (m : ℕ) where
  seen : TableList
  seen = (held_before m (writes set) t.write_table_list).1

  unseen :
      (n : ℕ) (p : String × String) → held (reserved seen p.0 p.1) n ≡ preceded writes batch n p
  unfolding seen
  unseen n p =
      ap (λ c. held c n) ((held_before_lem m (writes set) t.write_table_list).1 p.0 p.1)
      ∙ h.held_writes n p

  pub Holds-dependency : (dependency_analysis set m t).0 ≡ dependency_in batch set m
  unfolding dependency_analysis seen
  Holds-dependency = λ i. record { raw = raw i; waw = waw i; war = war i }
    where
      waw :
          (held_before m (writes set) t.write_table_list).0
          ≡ any (preceded writes batch m) (writes set)
      waw =
          (held_before_lem m (writes set) t.write_table_list).0
          ∙ any-congr (h.held_writes m) (writes set)

      war :
          (held_before m (writes set) t.read_table_list).0
          ≡ any (preceded reads batch m) (writes set)
      war =
          (held_before_lem m (writes set) t.read_table_list).0
          ∙ any-congr (h.held_reads m) (writes set)

      raw : (held_before m (reads set) seen).0 ≡ any (preceded writes batch m) (reads set)
      raw = (held_before_lem m (reads set) seen).0 ∙ any-congr (unseen m) (reads set)

  -- The analysis leaves the reservations alone.
  pub Holds-analysis :
      Holds batch (dependency_analysis set m t).1
      × ((dependency_analysis set m t).1.epoch ≡ t.epoch)
  unfolding dependency_analysis seen
  Holds-analysis = (
    record {
      held_reads = λ n p.
          ap (λ c. held c n) ((held_before_lem m (writes set) t.read_table_list).1 p.0 p.1)
          ∙ h.held_reads n p;
      held_writes =
          λ n p. ap (λ c. held c n) ((held_before_lem m (reads set) seen).1 p.0 p.1) ∙ unseen n p;
    },
    refl,
  )

-- When the transactions of an epoch reserve one after another, on a fresh table and under ids that
-- are not 0, two rounds of each loop are enough, and the analysis of any transaction finds exactly the
-- dependencies on the smaller transactions of the epoch.
pub dependency_analysis-reserve_batch :
    (rounds : ℕ) (weak : ℕ → Bool) (hasher : String → ℕ) (epoch : ℕ) (batch : Batch)
    → All (λ e. e.0 ≢ 0) batch
    → (t : ReserveTable) × (reserve_batch
          (suc (suc rounds))
          weak
          batch
          (mock_reserve_table hasher epoch)
        ≡ some t)
      × ((set : KvRwSet) (m : ℕ) → (dependency_analysis set m t).0 ≡ dependency_in batch set m)
dependency_analysis-reserve_batch rounds weak hasher epoch batch h =
    let (t, runs, r) = reserve_batch_lem rounds weak batch (mock_reserve_table hasher epoch) h in
    (t, runs, Holds-dependency (Reserved-Holds hasher epoch r))
