-- ===== src/Tests/Storage.antt =====
-- The hash map, the reserve table and the database at concrete inputs.
use mathlib.Core.List.Perm
use myblockchain.Prelude.{
  ◌<◌, ℕ, ◌≡◌, List, [], ◌∷◌, true, some, arith, if◌then◌else◌, is_some, String, nat_key,
  string_key, ◌+◌,
}
use myblockchain.HashMap.Bucket.{put}
use myblockchain.HashMap.{
  bucket_number, apply, HashMap, empty, insert, remove, assign, lookup, size,
}
use myblockchain.HashMap.Laws.{IsValid, empty-IsValid, assign-IsValid}
use myblockchain.HashMap.Client.{
  Call, insert_call, remove_call, index_call, assign_call, contains_call, clear_call, run_calls,
  replay, view, run_calls-replay,
}
use myblockchain.HashMap.Size.{count, entries, size_counts}
use myblockchain.Transaction.{KvRwSet}
use myblockchain.Reserve.{ReserveTable, mock_reserve_table, reserve_loop, dependency_analysis}
use myblockchain.Reserve.Cell.{reserve_loop-claim}
use myblockchain.Reserve.Batch.{
  Batch, reserve_batch, dependency_in, dependency_analysis-reserve_batch,
}
use myblockchain.Reserve.Order.{reserve_batch-perm}
use myblockchain.Reserve.Race.{System, Reach, done, reservation_lost}
use myblockchain.Database.{DatabaseImpl, buffer_updates, commit_update}
use myblockchain.Database.Commit.{written, commit-buffer, second_commit_lost}
use myblockchain.Tests.Data.{
  function_db, text_hash, number_hash, reads_and_writes, never_weak, new_database,
}

abbrev small_map : HashMap 3 ℕ ℕ
small_map = assign 8 80 (assign 5 50 (empty number_hash))

small_map-IsValid : IsValid small_map
small_map-IsValid = assign-IsValid 8 80 _ (assign-IsValid 5 50 _ (empty-IsValid 3 ℕ number_hash))

abbrev some_calls : List (Call ℕ ℕ)
some_calls =
    insert_call 8 9
    ∷ remove_call 5
    ∷ index_call 0 2
    ∷ assign_call 5 51
    ∷ contains_call 5
    ∷ clear_call
    ∷ contains_call 8
    ∷ []

run_calls-replay_example :
    ((run_calls some_calls small_map).0 ≡ (replay some_calls (view small_map)).0)
    × (view (run_calls some_calls small_map).1 ≡ (replay some_calls (view small_map)).1)
    × IsValid (run_calls some_calls small_map).1
run_calls-replay_example = run_calls-replay some_calls small_map (omega arith) small_map-IsValid

small_count : count small_map + 1 < 2147483648
unfolding entries assign empty bucket_number apply put
small_count = omega arith

size_counts_example :
    (size small_map ≡ count small_map)
    × (size (insert 8 9 small_map).1
        ≡ size small_map + (if is_some (lookup 8 small_map) then 0 else 1))
    × (size (remove 8 small_map).1 + (if is_some (lookup 8 small_map) then 1 else 0)
        ≡ size small_map)
size_counts_example = size_counts 8 9 small_map (omega arith) small_count

reserve_loop-claim_example : reserve_loop 2 (λ i. true) 3 5 ≡ some 3
reserve_loop-claim_example = reserve_loop-claim 0 (λ i. true) 3 5 (omega arith)

abbrev small_batch : Batch
small_batch = (1, reads_and_writes "a" "b") ∷ (2, reads_and_writes "b" "a") ∷ []

dependency_analysis-reserve_batch_example :
    (t : ReserveTable) × (reserve_batch 2 never_weak small_batch (mock_reserve_table text_hash 4)
      ≡ some t)
    × ((set : KvRwSet) (m : ℕ) → (dependency_analysis set m t).0 ≡ dependency_in small_batch set m)
dependency_analysis-reserve_batch_example =
    dependency_analysis-reserve_batch 0 never_weak text_hash 4 small_batch
      (omega arith, (omega arith, tt))

reserve_batch-perm_example :
    (t u : ReserveTable) × (reserve_batch 2 never_weak small_batch (mock_reserve_table text_hash 4)
      ≡ some t)
    × (reserve_batch 2 never_weak
          ((2, reads_and_writes "b" "a") ∷ (1, reads_and_writes "a" "b") ∷ [])
          (mock_reserve_table text_hash 4)
        ≡ some u)
    × ((set : KvRwSet) (m : ℕ) → (dependency_analysis set m t).0 ≡ (dependency_analysis set m u).0)
reserve_batch-perm_example =
    reserve_batch-perm 0 never_weak text_hash 4 small_batch
      ((2, reads_and_writes "b" "a") ∷ (1, reads_and_writes "a" "b") ∷ [])
      (omega arith, (omega arith, tt)) (omega arith, (omega arith, tt)) (Perm.swap _ _ _)

reservation_lost_example : (s : System) × Reach s × (s.cell ≡ 7) × (s.pc 3 ≡ done) × (s.pc 7 ≡ done)
reservation_lost_example = reservation_lost 3 7 (omega arith) (omega arith)

commit-buffer_example :
    (t : DatabaseImpl function_db) × (commit_update function_db 1
        (buffer_updates function_db 1 (reads_and_writes "a" "b") [] new_database).1
      ≡ some (true, t))
    × (t.commit_phase ≡ true)
    × ((k : String)
        → function_db.get k t.db
          ≡ written function_db k
              (reads_and_writes "a" "b").writes
              (function_db.get k new_database.db))
commit-buffer_example = commit-buffer function_db 1 (reads_and_writes "a" "b") [] new_database

second_commit_lost_example :
    let both =
      (buffer_updates function_db 2
        (reads_and_writes "b" "a")
        []
        (buffer_updates function_db 1 (reads_and_writes "a" "b") [] new_database).1).1 in
    (t : DatabaseImpl function_db) × (commit_update function_db 1 both ≡ some (true, t))
    × (commit_update function_db 2 t ≡ some (true, t))
    × ((k : String)
        → function_db.get k t.db
          ≡ written function_db k
              (reads_and_writes "a" "b").writes
              (function_db.get k new_database.db))
second_commit_lost_example =
    second_commit_lost function_db 1 2 (reads_and_writes "a" "b") (reads_and_writes "b" "a") []
      new_database (omega arith)
