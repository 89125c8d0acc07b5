-- ===== src/Database/CommitList/Counts.antt =====
-- What the loops of commitUpdate with a list (database_impl.cpp) add up, counter by counter.
use myblockchain.Prelude.{
  ℕ, ◌+◌, ◌<◌, ◌≡◌, refl, subst, fun_ext, ap, ◌∙◌, List, [], ◌∷◌, Bool, true, false, ◌||◌, Option,
  none, some, if◌then◌else◌, String, string_key, nat_key, arith, any, All, inl, inr, Bool-cases,
  is_some,
}
use myblockchain.HashMap.{index}
use myblockchain.HashMap.Bucket.{find, put, Distinct, find-put, put-Distinct}
use myblockchain.HashMap.Laws.{index_value, lookup-index}
use myblockchain.Transaction.{KvRead, KvWrite, KvRwSet, MockTransaction}
use myblockchain.Database.{LevelDb, DatabaseImpl}
use myblockchain.Database.Commit.{buffered}
use myblockchain.Database.CommitList.{ResultMap, add_reads, add_writes, merge}

-- Some read is of the key.
abbrev pub reads_key : String → List KvRead → Bool
reads_key k = any (λ r. string_key.beq r.key k)

-- What the reads and the writes of the transactions stand for: the text of a number, the number of a
-- write, and the number that a key has before.
module _ (show : ℕ → String) (base : String → ℕ) (amount : KvWrite → ℕ) where
  abbrev pub written : String → List KvWrite → ℕ
  written k [] = 0
  written k (w ∷ ws) = (if string_key.beq w.key k then amount w else 0) + written k ws

  -- What all the transactions write to a key.
  abbrev pub total : String → List MockTransaction → ℕ
  total k [] = 0
  total k (t ∷ ts) = written k t.rwset.writes + total k ts

  abbrev pub touched : String → List MockTransaction → Bool
  touched k [] = false
  touched k (t ∷ ts) = reads_key k t.rwset.reads || touched k ts

  abbrev pub ShowsBase : KvRead → Type 0
  ShowsBase r = (if string_key.beq r.value "" then "0" else r.value) ≡ show (base r.key)

  -- A transaction that reads the counters before it raises them.
  pub record IsCounter (t : MockTransaction) : Type 0 where
    pub reads : All ShowsBase t.rwset.reads
    pub writes : All (λ w. w.value ≡ show (amount w)) t.rwset.writes
    pub read_first : All (λ w. reads_key w.key t.rwset.reads ≡ true) t.rwset.writes

  -- `result` has the keys that were seen, each with what it had before and what was added.
  pub record IsCounted (result : ResultMap) (seen : String → Bool) (sum : String → ℕ) : Type 0 where
    pub known :
        (k : String) → find k result ≡ (if seen k then some (show (base k + sum k)) else none)
    pub unseen : (k : String) → seen k ≡ false → sum k ≡ 0
    pub distinct : Distinct result

  add_read_lem :
      (r : KvRead) (result : ResultMap) (seen : String → Bool) (sum : String → ℕ)
      → ShowsBase r
      → IsCounted result seen sum
      → IsCounted
          (if is_some (find r.key result)
            then result
            else put r.key (if string_key.beq r.value "" then "0" else r.value) result)
          (λ k. seen k || string_key.beq r.key k)
          sum
  add_read_lem r result seen sum shows c = elim (Bool-cases (seen r.key)) [
    | inl old ↦
        let there = c.known r.key in
        rw (there, old)
          (record {
            known = λ k. ground (arith, c.known k, old, string_key.beq_iff r.key k);
            unseen = λ k h. c.unseen k (ground (arith, h));
            distinct = c.distinct;
          })
    | inr new ↦
        let missing = c.known r.key in
        let none_yet = c.unseen r.key new in
        rw (missing, new)
          (record {
            known = λ k. ground (
              arith,
              c.known k,
              find-put r.key k (if string_key.beq r.value "" then "0" else r.value) result,
              shows,
              none_yet,
              string_key.beq_iff r.key k,
            );
            unseen = λ k h. c.unseen k (ground (arith, h));
            distinct = put-Distinct r.key _ result c.distinct;
          })
  ]

  IsCounted-seen :
      (result : ResultMap) (seen seen' : String → Bool) (sum sum' : String → ℕ)
      → ((k : String) → seen k ≡ seen' k)
      → ((k : String) → sum k ≡ sum' k)
      → IsCounted result seen sum
      → IsCounted result seen' sum'
  IsCounted-seen result seen seen' sum sum' h g c =
      subst (λ f. IsCounted result f sum') (fun_ext h) (subst (IsCounted result seen) (fun_ext g) c)

  add_reads_lem :
      (rs : List KvRead) (result : ResultMap) (seen : String → Bool) (sum : String → ℕ)
      → All ShowsBase rs
      → IsCounted result seen sum
      → IsCounted (add_reads rs result) (λ k. seen k || reads_key k rs) sum
  unfolding add_reads
  add_reads_lem [] result seen sum a c =
      IsCounted-seen result _ _ sum _ (λ k. ground arith) (λ k. refl) c
  add_reads_lem (r ∷ rs) result seen sum a c =
      IsCounted-seen _ _ _ sum _ (λ k. ground arith) (λ k. refl)
        (add_reads_lem rs _ _ sum a.1 (add_read_lem r result seen sum a.0 c))

  module _ (leveldb : LevelDb) (add_text : String → String → Option String) (limit : ℕ) where
    -- The addition of the texts of two numbers, as long as the sum stays below the limit of int.
    abbrev pub Adds : Type 0
    Adds = (a b : ℕ) → a + b < limit → add_text (show a) (show b) ≡ some (show (a + b))

    raise_lem :
        (w : KvWrite) (result : ResultMap) (seen : String → Bool) (sum : String → ℕ)
        → seen w.key ≡ true
        → IsCounted result seen sum
        → IsCounted
            (put w.key (show (base w.key + sum w.key + amount w)) result)
            seen
            (λ k. sum k + (if string_key.beq w.key k then amount w else 0))
    raise_lem w result seen sum old c = record {
      known = λ k. ground (
        arith,
        c.known k,
        find-put w.key k (show (base w.key + sum w.key + amount w)) result,
        string_key.beq_iff w.key k,
        old,
      );
      unseen = λ k h. ground (arith, c.unseen k, string_key.beq_iff w.key k, old, h);
      distinct = put-Distinct w.key _ result c.distinct;
    }

    add_writes-cons :
        (w : KvWrite) (ws : List KvWrite) (result : ResultMap) (old new : String)
        → find w.key result ≡ some old
        → add_text old w.value ≡ some new
        → add_writes leveldb add_text (w ∷ ws) result
          ≡ add_writes leveldb add_text ws (put w.key new result)
    unfolding add_writes
    add_writes-cons w ws result old new here sums =
        rw (here, add_writes) (rw (here, add_writes) (rw (sums, add_writes) (rw here refl)))

    add_writes_lem :
        (ws : List KvWrite) (result : ResultMap) (seen : String → Bool) (sum : String → ℕ)
        → Adds
        → All (λ w. w.value ≡ show (amount w)) ws
        → All (λ w. seen w.key ≡ true) ws
        → ((k : String) → base k + sum k + written k ws < limit)
        → IsCounted result seen sum
        → (r : ResultMap) × (add_writes leveldb add_text ws result ≡ some r)
          × IsCounted r seen (λ k. sum k + written k ws)
    unfolding add_writes
    add_writes_lem [] result seen sum adds a b below c =
        (result, refl, IsCounted-seen result _ _ sum _ (λ k. refl) (λ k. omega arith) c)
    add_writes_lem (w ∷ ws) result seen sum adds a b below c =
        let self = (string_key.beq_iff w.key w.key).1 refl in
        let here : find w.key result ≡ some (show (base w.key + sum w.key)) =
          c.known w.key ∙ rw b.0 refl in
        let fits : base w.key + sum w.key + amount w < limit = ground (arith, below w.key, self) in
        let sums : add_text (show (base w.key + sum w.key)) w.value
            ≡ some (show (base w.key + sum w.key + amount w)) =
          ap (add_text (show (base w.key + sum w.key))) a.0
          ∙ adds (base w.key + sum w.key) (amount w) fits in
        let (r, runs, counted) =
          add_writes_lem ws _ seen (λ k. sum k + (if string_key.beq w.key k then amount w else 0))
            adds a.1 b.1 (λ k. omega (arith, below k)) (raise_lem w result seen sum b.0 c) in
        (
          r,
          add_writes-cons w ws result _ _ here sums ∙ runs,
          IsCounted-seen r _ _ _ _ (λ k. refl) (λ k. omega arith) counted,
        )

    -- What a read finds in the buffer is still there.
    buffered-index :
        (tid j : ℕ) (s : DatabaseImpl leveldb) (set : KvRwSet)
        → buffered leveldb tid s ≡ some set
        → buffered leveldb j (record s { rw_set_buffer = (index none tid s.rw_set_buffer).1 })
          ≡ buffered leveldb j s
    buffered-index tid j s set h =
        ground
          (arith, lookup-index none tid j s.rw_set_buffer, index_value none tid s.rw_set_buffer)

    abbrev pub HasBuffers : DatabaseImpl leveldb → List MockTransaction → Type 0
    HasBuffers s = All (λ t. buffered leveldb t.tid s ≡ some t.rwset)

    HasBuffers-same :
        (s s' : DatabaseImpl leveldb) (ts : List MockTransaction)
        → ((j : ℕ) → buffered leveldb j s' ≡ buffered leveldb j s)
        → HasBuffers s ts
        → HasBuffers s' ts
    HasBuffers-same s s' [] h b = tt
    HasBuffers-same s s' (t ∷ ts) h b = (h t.tid ∙ b.0, HasBuffers-same s s' ts h b.1)

    seen-All :
        (seen : String → Bool) (rs : List KvRead) (ws : List KvWrite)
        → All (λ w. reads_key w.key rs ≡ true) ws
        → All (λ w. (seen w.key || reads_key w.key rs) ≡ true) ws
    seen-All seen rs [] a = tt
    seen-All seen rs (w ∷ ws) a = (ground (arith, a.0), seen-All seen rs ws a.1)

    abbrev after_read : ℕ → DatabaseImpl leveldb → DatabaseImpl leveldb
    after_read tid s = record s { rw_set_buffer = (index none tid s.rw_set_buffer).1 }

    merge-cons :
        (t : MockTransaction) (ts : List MockTransaction) (s : DatabaseImpl leveldb)
        (result r : ResultMap)
        → buffered leveldb t.tid s ≡ some t.rwset
        → add_writes leveldb add_text t.rwset.writes (add_reads t.rwset.reads result) ≡ some r
        → merge leveldb add_text (t ∷ ts) s result
          ≡ merge leveldb add_text ts (after_read t.tid s) r
    unfolding merge
    merge-cons t ts s result r b writes =
        let there : (index none t.tid s.rw_set_buffer).0 ≡ some t.rwset =
          index_value none t.tid s.rw_set_buffer ∙ b in
        rw (there, merge) (rw (writes, merge) refl)

    pub merge_lem :
        (ts : List MockTransaction) (s : DatabaseImpl leveldb) (result : ResultMap)
        (seen : String → Bool) (sum : String → ℕ)
        → Adds
        → All IsCounter ts
        → HasBuffers s ts
        → ((k : String) → base k + sum k + total k ts < limit)
        → IsCounted result seen sum
        → (s' : DatabaseImpl leveldb) × (r : ResultMap) × (merge leveldb add_text ts s result
            ≡ some (s', r))
          × IsCounted r (λ k. seen k || touched k ts) (λ k. sum k + total k ts)
    unfolding merge
    merge_lem [] s result seen sum adds a b below c =
        (s, result, refl, IsCounted-seen result _ _ _ _ (λ k. ground arith) (λ k. omega arith) c)
    merge_lem (t ∷ ts) s result seen sum adds a b below c =
        let read = add_reads_lem t.rwset.reads result seen sum a.0.reads c in
        let (r, writes, counted) =
          add_writes_lem t.rwset.writes (add_reads t.rwset.reads result)
            (λ k. seen k || reads_key k t.rwset.reads) sum adds a.0.writes
            (seen-All seen t.rwset.reads t.rwset.writes a.0.read_first)
            (λ k. omega (arith, below k)) read in
        let (s'', r', runs, all) =
          merge_lem ts (after_read t.tid s) r _ _ adds a.1
            (HasBuffers-same s (after_read t.tid s) ts (λ j. buffered-index t.tid j s t.rwset b.0)
              b.1)
            (λ k. omega (arith, below k)) counted in
        (
          s'',
          r',
          merge-cons t ts s result r b.0 writes ∙ runs,
          IsCounted-seen r' _ _ _ _ (λ k. ground arith) (λ k. omega arith) all,
        )
