-- ===== src/Aria/Serial.antt =====
-- The commits of an epoch are serializable (transaction_executor_impl.cpp, mock_reserve_table.cpp).
use mathlib.Core.List.{Perm}
use myblockchain.Prelude.{
  All-keep, keep, ℕ, ◌≡◌, refl, sym, ap, ◌∙◌, ◌≢◌, inl, inr, List, [], ◌∷◌, map, Bool, true, false,
  some, arith, if◌then◌else◌, String, string_key, All, Bool-cases,
}
use myblockchain.Transaction.{MockTransaction, KvWrite, TransactionResult}
use myblockchain.Reserve.{write_places}
use myblockchain.Reserve.Tables.{same_place, touches}
use myblockchain.Reserve.Batch.{Batch, reads, dependency_in}
use myblockchain.Database.{LevelDb}
use myblockchain.Executor.{Outcome, World, execute_list, commit_list, is_abort_no_retry}
use myblockchain.Executor.Decision.{commits, executed, batch_of, settled}
use myblockchain.Executor.Read.{IsFresh}
use myblockchain.Executor.Phases.{IsNewEpoch, epoch_settled}
use myblockchain.Aria.{
  Entry, In, DistinctIds, State, apply_writes, IsSerial, goes_before, serial_order, committed,
}
use myblockchain.Aria.Conflict.{no_conflict}
use myblockchain.Aria.Order.{
  Ordered, serial_order-Ordered, serial_order-perm, All-serial_order, All-kept, keep-DistinctIds,
  serial_order-DistinctIds, All-In,
}

apply_writes_untouched :
    (ws : List KvWrite) (s : State) (tb k : String)
    → touches tb k (write_places ws) ≡ false
    → apply_writes ws s tb k ≡ s tb k
apply_writes_untouched [] s tb k h = refl
apply_writes_untouched (w ∷ ws) s tb k h =
    let miss : same_place (w.table, w.key) tb k ≡ false = ground arith in
    let rest : touches tb k (write_places ws) ≡ false = ground arith in
    apply_writes_untouched ws _ tb k rest ∙ rw miss

touches_head : (p : String × String) (ps : List (String × String)) → touches p.0 p.1 (p ∷ ps) ≡ true
touches_head p ps = ground (arith, string_key.beq_iff p.0 p.0, string_key.beq_iff p.1 p.1)

touches_later :
    (p : String × String) (ps : List (String × String)) (tb k : String)
    → touches tb k ps ≡ true
    → touches tb k (p ∷ ps) ≡ true
touches_later p ps tb k t = ground arith

-- A property of the places that a list touches is one of its elements.
All-touched {κ} :
    (P : String → String → Type κ) (ps : List (String × String))
    → ((tb k : String) → touches tb k ps ≡ true → P tb k)
    → All (λ p. P p.0 p.1) ps
All-touched P [] h = tt
All-touched P (p ∷ ps) h =
    (h p.0 p.1 (touches_head p ps), All-touched P ps (λ tb k t. h tb k (touches_later p ps tb k t)))

module _ (batch : Batch) (snapshot : State) where
  -- What is known of an entry of the serial order.
  record Commits (e : Entry) : Type 0 where
    member : In e batch
    allowed : commits (dependency_in batch e.1 e.0) ≡ true

  -- The state agrees with the snapshot at the places that an entry reads.
  abbrev Agrees : State → Entry → Type 0
  Agrees s f = (tb k : String) → touches tb k (reads f.1) ≡ true → s tb k ≡ snapshot tb k

  Agrees-after :
      (s : State) (e f : Entry)
      → Commits e
      → Commits f
      → e.0 ≢ f.0
      → goes_before batch e f ≡ true
      → Agrees s f
      → Agrees (apply_writes e.1.writes s) f
  Agrees-after s e f ce cf d b a tb k t =
      apply_writes_untouched e.1.writes s tb k
        (no_conflict batch e f ce.member cf.member d ce.allowed cf.allowed b tb k t)
      ∙ a tb k t

  All-agree_after :
      (s : State) (e : Entry) (es : Batch)
      → Commits e
      → All Commits es
      → All (λ f. e.0 ≢ f.0) es
      → All (λ f. goes_before batch e f ≡ true) es
      → All (Agrees s) es
      → All (Agrees (apply_writes e.1.writes s)) es
  All-agree_after s e [] ce c d b a = tt
  All-agree_after s e (f ∷ es) ce c d b a =
      (Agrees-after s e f ce c.0 d.0 b.0 a.0, All-agree_after s e es ce c.1 d.1 b.1 a.1)

  Ordered-IsSerial :
      (s : State) (es : Batch)
      → All Commits es
      → DistinctIds es
      → Ordered batch es
      → All (Agrees s) es
      → IsSerial snapshot s es
  Ordered-IsSerial s [] c d o a = tt
  Ordered-IsSerial s (e ∷ es) c d o a = (
    All-touched (λ tb k. s tb k ≡ snapshot tb k) (reads e.1) a.0,
    Ordered-IsSerial (apply_writes e.1.writes s) es c.1 d.1 o.1
        (All-agree_after s e es c.0 c.1 d.0 o.0 a.1),
  )

  All-commit :
      (es : Batch)
      → All (λ e. In e batch) es
      → All (λ e. commits (dependency_in batch e.1 e.0) ≡ true) es
      → All Commits es
  All-commit [] a b = tt
  All-commit (e ∷ es) a b = (record { member = a.0; allowed = b.0 }, All-commit es a.1 b.1)

  All-agree : (es : Batch) → All (Agrees snapshot) es
  All-agree [] = tt
  All-agree (e ∷ es) = (λ tb k t. refl, All-agree es)

  committed-IsSerial :
      DistinctIds batch → IsSerial snapshot snapshot (serial_order batch (committed batch))
  committed-IsSerial d =
      let allowed = λ (e : Entry). commits (dependency_in batch e.1 e.0) in
      let distinct = keep-DistinctIds allowed batch d in
      Ordered-IsSerial snapshot _
        (All-serial_order batch Commits _ (
          All-commit _ (All-keep (λ e. In e batch) allowed batch (All-In batch))
            (All-kept allowed batch)))
        (serial_order-DistinctIds batch _ distinct) (serial_order-Ordered batch _ distinct)
        (All-agree _)

abbrev is_commit : TransactionResult → Bool
is_commit TransactionResult.commit = true
is_commit _ = false

not_both : (r : TransactionResult) → is_abort_no_retry r ≡ true → is_commit r ≡ false
not_both r h = ground arith

-- The transactions with the result COMMIT.
abbrev pub with_commit : List MockTransaction → Batch
with_commit [] = []
with_commit (t ∷ ts) =
    if is_commit t.result then (t.tid, t.rwset) ∷ with_commit ts else with_commit ts

-- The transactions have different ids.
abbrev pub DistinctTids : List MockTransaction → Type 0
DistinctTids [] = Unit
DistinctTids (t ∷ ts) = All (λ u. t.tid ≢ u.tid) ts × DistinctTids ts

with_commit-settled :
    (batch : Batch) (ts : List MockTransaction)
    → with_commit (map (settled batch) ts)
      ≡ keep (λ e. commits (dependency_in batch e.1 e.0)) (batch_of ts)
with_commit-settled batch [] = refl
with_commit-settled batch (t ∷ ts) = elim (Bool-cases (is_abort_no_retry t.result)) [
  | inl failed ↦
      let other : is_commit t.result ≡ false = not_both t.result failed in
      rw (failed, other) (with_commit-settled batch ts)
  | inr live ↦ elim (Bool-cases (commits (dependency_in batch t.rwset t.tid))) [
    | inl good ↦ rw (live, good) (ap (◌∷◌ (t.tid, t.rwset)) (with_commit-settled batch ts))
    | inr bad ↦ rw (live, bad) (with_commit-settled batch ts)
  ]
]

module _ {Db : Type 0} (invoke : MockTransaction → Db → Outcome) (db : Db) where
  executed-tid : (t : MockTransaction) → (executed invoke db t).tid ≡ t.tid
  executed-tid t = ground arith

  distinct_from :
      (n : ℕ) (t : MockTransaction) (ts : List MockTransaction)
      → n ≡ t.tid
      → All (λ u. t.tid ≢ u.tid) ts
      → All (λ e. n ≢ e.0) (batch_of (map (executed invoke db) ts))
  distinct_from n t [] e a = tt
  distinct_from n t (u ∷ ts) e a =
      elim (Bool-cases (is_abort_no_retry (executed invoke db u).result)) [
        | inl failed ↦ rw failed (distinct_from n t ts e a.1)
        | inr live ↦
            rw live (λ same. a.0 (sym e ∙ (same ∙ executed-tid u)), distinct_from n t ts e a.1)
      ]

  batch_of-DistinctIds :
      (ts : List MockTransaction)
      → DistinctTids ts
      → DistinctIds (batch_of (map (executed invoke db) ts))
  batch_of-DistinctIds [] d = tt
  batch_of-DistinctIds (t ∷ ts) d =
      elim (Bool-cases (is_abort_no_retry (executed invoke db t).result)) [
        | inl failed ↦ rw failed (batch_of-DistinctIds ts d.1)
        | inr live ↦ rw live (
          distinct_from (executed invoke db t).tid t ts (executed-tid t) d.0,
          batch_of-DistinctIds ts d.1,
        )
      ]

-- When a worker runs both phases on all the transactions of an epoch that has no table yet, each of
-- that epoch, pending, with ids that are different and not 0, both phases end, and the transactions
-- that come out with COMMIT have a serial order: an arrangement of them in which each, when the writes
-- of those before it are applied, finds at every place of its read set what the tables held at the
-- start of the epoch, whatever that was.
pub epoch_serializable :
    (leveldb : LevelDb) (hasher : String → ℕ) (weak : ℕ → Bool)
    (invoke : MockTransaction → leveldb.Db → Outcome) (epoch : ℕ) (ts : List MockTransaction)
    (v : World leveldb hasher weak invoke)
    → IsNewEpoch leveldb hasher weak invoke epoch v
    → All (IsFresh leveldb hasher weak invoke epoch) ts
    → DistinctTids ts
    → (xs : List MockTransaction) × (u : World leveldb hasher weak invoke) × (execute_list leveldb
          hasher weak invoke ts v
        ≡ some (xs, u))
      × (ys : List MockTransaction) × (w : World leveldb hasher weak invoke) × (commit_list leveldb
            hasher weak invoke xs u
          ≡ some (ys, w))
      × (order : Batch) × Perm order (with_commit ys)
      × ((snapshot : State) → IsSerial snapshot snapshot order)
epoch_serializable leveldb hasher weak invoke epoch ts v new fresh distinct =
    let (u, w, runs, then_runs) = epoch_settled leveldb hasher weak invoke epoch ts v new fresh in
    let xs = map (executed invoke v.database.db) ts in
    let batch = batch_of xs in
    (
      xs,
      u,
      runs,
      map (settled batch) xs,
      w,
      then_runs,
      serial_order batch (committed batch),
      rw (with_commit-settled batch xs) (serial_order-perm batch (committed batch)),
      λ snapshot.
          committed-IsSerial batch snapshot (batch_of-DistinctIds invoke v.database.db ts distinct),
    )
