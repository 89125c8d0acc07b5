-- ===== src/Aria/Conflict.antt =====
-- Of two transactions that commit, the one that goes first writes nothing that the other reads.
use myblockchain.Prelude.{
  ℕ, ◌≡◌, ap, ◌≢◌, inl, inr, List, [], ◌∷◌, Bool, true, false, ◌&&◌, arith, ltb, String, string_key,
  any,
}
use myblockchain.Transaction.{KvRwSet}
use myblockchain.Reserve.Tables.{touches}
use myblockchain.Reserve.Batch.{Batch, reads, writes, preceded, dependency_in}
use myblockchain.Executor.Decision.{commits}
use myblockchain.Aria.{Entry, In, goes_before}

-- A test that fails on all the places of a list fails on any place that the list touches.
test-touched :
    (f : String × String → Bool) (ps : List (String × String)) (tb k : String)
    → any f ps ≡ false
    → touches tb k ps ≡ true
    → f (tb, k) ≡ false
test-touched f [] tb k h t = ground arith
test-touched f ((table, key) ∷ ps) tb k h t =
    ground (arith, string_key.beq_iff table tb, string_key.beq_iff key k, test-touched f ps tb k)

test-In :
    {A : Type 0} (f : A → Bool) (x : A) (xs : List A) → any f xs ≡ false → In x xs → f x ≡ false
test-In f x [] h m = absurd m
test-In f x (y ∷ ys) h (inl e) = ground (arith, ap f e)
test-In f x (y ∷ ys) h (inr m) = ground (arith, test-In f x ys)

-- Without the dependency, no smaller transaction touches the places.
untouched :
    (at : KvRwSet → List (String × String)) (batch : Batch) (m : ℕ) (ps : List (String × String))
    (e : Entry) (tb k : String)
    → In e batch
    → any (preceded at batch m) ps ≡ false
    → touches tb k ps ≡ true
    → ltb e.0 m ≡ true
    → touches tb k (at e.1) ≡ false
untouched at batch m ps e tb k here h t smaller = ground (
  arith,
  test-In (λ x. ltb x.0 m && touches tb k (at x.1)) e batch
      (test-touched (preceded at batch m) ps tb k h t) here,
)

pub no_conflict :
    (batch : Batch) (e f : Entry)
    → In e batch
    → In f batch
    → e.0 ≢ f.0
    → commits (dependency_in batch e.1 e.0) ≡ true
    → commits (dependency_in batch f.1 f.0) ≡ true
    → goes_before batch e f ≡ true
    → (tb k : String) → touches tb k (reads f.1) ≡ true
    → touches tb k (writes e.1) ≡ false
no_conflict batch e f in_e in_f differ ce cf b tb k t = ground (
  arith,
  untouched writes batch f.0 (reads f.1) e tb k in_e,
  untouched reads batch e.0 (writes e.1) f tb k in_f,
)
