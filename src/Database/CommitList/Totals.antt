-- ===== src/Database/CommitList/Totals.antt =====
-- What commitUpdate with a list (database_impl.cpp) makes of the counters that the transactions read
-- and raise: each gets the sum of what was written to it.
use myblockchain.Prelude.{
  ℕ, ◌+◌, ◌<◌, ◌≡◌, refl, subst, ap, ◌∙◌, List, [], ◌∷◌, true, false, Option, none, some,
  if◌then◌else◌, String, string_key, nat_key, arith, All, inl, inr, Bool-cases,
}
use myblockchain.HashMap.Bucket.{find, Distinct, find-nil, find-cons}
use myblockchain.Transaction.{KvWrite, MockTransaction}
use myblockchain.Database.{LevelDb, DatabaseImpl}
use myblockchain.Database.CommitList.{ResultMap, merge, store, commit_update_list}
use myblockchain.Database.CommitList.Counts.{
  total, touched, Adds, IsCounter, HasBuffers, IsCounted, merge_lem,
}

module _ (leveldb : LevelDb) (add_text : String → String → Option String) where
  open leveldb use {Db, get, get-put}

  get-store :
      (k : String) (result : ResultMap) (d : Db)
      → Distinct result
      → get k (store leveldb add_text result d)
        ≡ elim (find k result) [ none ↦ get k d | some text ↦ some text ]
  unfolding store
  get-store k [] d h = rw (find-nil {V = String} k) refl
  get-store k ((j, text) ∷ rest) d h = elim (Bool-cases (string_key.beq j k)) [
    | inl same ↦
        let gone : find k rest ≡ none =
          subst (λ x. find x rest ≡ none) ((string_key.beq_iff j k).0 same) h.0 in
        get-store k rest _ h.1
        ∙ rw gone (get-put j k text d ∙ rw (find-cons j k text rest, same) refl)
    | inr other ↦
        let not_it : (if string_key.beq j k then some text else get k d) ≡ get k d =
          rw other refl in
        get-store k rest _ h.1
        ∙ (ap (λ o. elim (find k rest) [ none ↦ o | some x ↦ some x ]) (get-put j k text d ∙ not_it)
            ∙ rw (find-cons j k text rest, other) refl)
  ]

  commit_runs :
      (ts : List MockTransaction) (s s' : DatabaseImpl leveldb) (r : ResultMap)
      → s.commit_phase ≡ false
      → merge leveldb add_text ts s [] ≡ some (s', r)
      → commit_update_list leveldb add_text ts s
        ≡ some (true, record s' { db = store leveldb add_text r s.db; commit_phase = true })
  unfolding commit_update_list
  commit_runs ts s s' r open_phase runs = ground (arith, open_phase, runs)

  -- In an open phase, a list of transactions is committed at once. Each has its buffer, reads the
  -- counters that it raises, finds in each what the key has at first (an empty text counts as 0), and
  -- writes numbers; `add_text` adds the texts of numbers below a limit, and no counter reaches it. Then
  -- the commit succeeds and ends the phase, every key that was read holds the text of its first number
  -- and all that was written to it, added up, and no other key changes.
  pub commit_update_list_lem :
      (show : ℕ → String) (base : String → ℕ) (amount : KvWrite → ℕ) (limit : ℕ)
      (ts : List MockTransaction) (s : DatabaseImpl leveldb)
      → Adds show base amount leveldb add_text limit
      → All (IsCounter show base amount) ts
      → HasBuffers show base amount leveldb add_text limit s ts
      → ((k : String) → base k + total show base amount k ts < limit)
      → s.commit_phase ≡ false
      → (t : DatabaseImpl leveldb) × (commit_update_list leveldb add_text ts s ≡ some (true, t))
        × (t.commit_phase ≡ true)
        × ((k : String)
            → get k t.db ≡ (
                if touched show base amount k ts
                then some (show (base k + total show base amount k ts))
                else get k s.db))
  commit_update_list_lem show base amount limit ts s adds a b below open_phase =
      let nothing : IsCounted show base amount [] (λ k. false) (λ k. 0) = record {
        known = λ k. find-nil k;
        unseen = λ k h. refl;
        distinct = tt;
      } in
      let (s', r, runs, c) =
        merge_lem show base amount leveldb add_text limit ts s [] (λ k. false) (λ k. 0) adds a b
          (λ k. omega (arith, below k)) nothing in
      (
        record s' { db = store leveldb add_text r s.db; commit_phase = true },
        commit_runs ts s s' r open_phase runs,
        refl,
        λ k. get-store k r s.db c.distinct ∙ ground (arith, c.known k),
      )
