-- ===== src/Tests/Totals.antt =====
-- The commit of a list of transactions that raise one counter, with unary numbers for the texts.
use myblockchain.Prelude.{
  ℕ, zero, suc, ◌+◌, ◌≡◌, refl, ap, ◌∙◌, List, [], ◌∷◌, true, Option, none, some, String, arith,
  if◌then◌else◌, nat_key,
}
use myblockchain.HashMap.{HashMap, assign, empty}
use myblockchain.HashMap.Laws.{lookup-assign}
use myblockchain.Transaction.{KvWrite, KvRwSet, MockTransaction, mock_transaction_of}
use myblockchain.Database.{DatabaseImpl}
use myblockchain.Database.CommitList.{commit_update_list}
use myblockchain.Database.CommitList.Counts.{total, touched, IsCounter, HasBuffers}
use myblockchain.Database.CommitList.Totals.{commit_update_list_lem}
use myblockchain.Tests.Data.{function_db, number_hash, new_database, write_of}

abbrev ones : ℕ → String
ones zero = String.[]
ones (suc n) = String.◌∷◌ "1" (ones n)

abbrev join : String → String → String
join String.[] t = t
join (String.◌∷◌ c s) t = String.◌∷◌ c (join s t)

join-ones : (a b : ℕ) → join (ones a) (ones b) ≡ ones (a + b)
join-ones zero b = ap ones (omega arith)
join-ones (suc a) b =
    let next : suc (a + b) ≡ suc a + b = omega arith in
    ap (String.◌∷◌ "1") (join-ones a b) ∙ ap ones next

abbrev length_of : String → ℕ
length_of String.[] = 0
length_of (String.◌∷◌ c s) = suc (length_of s)

abbrev unary_sum : String → String → Option String
unary_sum s t = some (join s t)

abbrev one_more : String → ℕ
one_more k = 1

abbrev amount_of : KvWrite → ℕ
amount_of w = length_of w.value

abbrev raise : ℕ → ℕ → MockTransaction
raise tid n = record (mock_transaction_of 4 tid) {
  rwset = record {
    reads = record { key = "a"; value = "1"; table = "test_table" } ∷ [];
    writes = write_of "a" (ones n) ∷ [];
  };
}

abbrev two_raises : List MockTransaction
two_raises = raise 1 2 ∷ raise 2 3 ∷ []

abbrev first_buffer : HashMap 997 ℕ (Option KvRwSet)
first_buffer = assign 1 (some (raise 1 2).rwset) (empty number_hash)

abbrev buffers_of_two : DatabaseImpl function_db
buffers_of_two = record new_database {
  rw_set_buffer = assign 2 (some (raise 2 3).rwset) first_buffer;
}

abbrev held_set : Option (Option KvRwSet) → Option KvRwSet
held_set o = elim o [ none ↦ none | some set ↦ set ]

two_raises-HasBuffers :
    HasBuffers ones one_more amount_of function_db unary_sum 100 buffers_of_two two_raises
two_raises-HasBuffers = (
  ap held_set (
      lookup-assign 2 1 (some (raise 2 3).rwset) first_buffer
      ∙ lookup-assign 1 1 (some (raise 1 2).rwset) (empty number_hash)),
  (ap held_set (lookup-assign 2 2 (some (raise 2 3).rwset) first_buffer), tt),
)

abbrev raise_counts :
    (tid n : ℕ)
    → ones n ≡ ones (length_of (ones n))
    → IsCounter ones one_more amount_of (raise tid n)
raise_counts tid n h = record { reads = (refl, tt); writes = (h, tt); read_first = (refl, tt) }

commit_update_list_lem_example :
    (t : DatabaseImpl function_db) × (commit_update_list function_db unary_sum two_raises
        buffers_of_two
      ≡ some (true, t))
    × (t.commit_phase ≡ true)
    × ((k : String)
        → function_db.get k t.db ≡ (
            if touched ones one_more amount_of k two_raises
            then some (ones (one_more k + total ones one_more amount_of k two_raises))
            else function_db.get k buffers_of_two.db))
commit_update_list_lem_example =
    commit_update_list_lem function_db unary_sum ones one_more amount_of 100 two_raises
      buffers_of_two (λ a b h. ap some (join-ones a b))
      (raise_counts 1 2 refl, (raise_counts 2 3 refl, tt)) two_raises-HasBuffers (λ k. ground arith)
      refl
