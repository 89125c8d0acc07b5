-- ===== src/Comm/Supply.antt =====
-- What getTransaction of comm_controller.cpp has to give: the transactions that are queued, new or
-- still coming in.
use myblockchain.Prelude.{
  ℕ, ◌+◌, ◌≡◌, ◌≢◌, ◌⊎◌, inl, inr, refl, sym, List, [], ◌∷◌, ◌++◌, false, arith, ◌==◌, ==_iff,
  Bool-cases,
}
use myblockchain.HashMap.{update}
use myblockchain.Transaction.Wrapper.{Heap}
use myblockchain.Comm.{
  Failure, CommController, Run, done, waits, fails, Arrivals, waits_in_vain, ◌>>=◌, push, push_all,
  comes_after,
}
use myblockchain.Comm.Queue.{count}

-- A call does not fail but in a DCHECK, and what it comes to is so.
abbrev pub Outcome : {A : Type 0} → (A → Type 0) → Run A → Type 0
Outcome P (done a) = P a
Outcome P waits = Unit
Outcome P (fails Failure.debug_check) = Unit
Outcome P (fails _) = ⊥

pub Outcome->>= :
    {A B : Type 0} (P : A → Type 0) (Q : B → Type 0) (r : Run A) (f : A → Run B)
    → Outcome P r
    → ((a : A) → P a → Outcome Q (f a))
    → Outcome Q (r >>= f)
unfolding ◌>>=◌
Outcome->>= P Q (done a) f h k = k a h
Outcome->>= P Q waits f h k = tt
Outcome->>= P Q (fails Failure.debug_check) f h k = tt
Outcome->>= P Q (fails Failure.undefined) f h k = h
Outcome->>= P Q (fails Failure.check) f h k = h
Outcome->>= P Q (fails Failure.out_of_rounds) f h k = h

-- What an outcome is stays so when it is weakened.
pub Outcome-weaken :
    {A : Type 0} (P Q : A → Type 0) (r : Run A) → Outcome P r → ((a : A) → P a → Q a) → Outcome Q r
Outcome-weaken P Q (done a) h k = k a h
Outcome-weaken P Q waits h k = tt
Outcome-weaken P Q (fails Failure.debug_check) h k = tt
Outcome-weaken P Q (fails Failure.undefined) h k = h
Outcome-weaken P Q (fails Failure.check) h k = h
Outcome-weaken P Q (fails Failure.out_of_rounds) h k = h

abbrev pub all_arrivals : Arrivals → List ℕ
all_arrivals [] = []
all_arrivals (ts ∷ arrivals) = ts ++ all_arrivals arrivals

abbrev pub NonEmpty : List ℕ → Type 0
NonEmpty queue = (t : ℕ) × (rest : List ℕ) × (queue ≡ t ∷ rest)

-- What a controller has or will have to give.
abbrev pub supply : ℕ → CommController → Arrivals → ℕ
supply t s arrivals =
    count t s.processed_transaction
    + count t s.broadcast_transactions
    + count t (all_arrivals arrivals)

pub update-here : (f : ℕ → List ℕ) (i : ℕ) (ts : List ℕ) → update f i ts i ≡ ts
update-here f i ts = rw ((==_iff i i).1 refl) refl

pub update-there : (f : ℕ → List ℕ) (i j : ℕ) (ts : List ℕ) → j ≢ i → update f i ts j ≡ f j
update-there f i j ts other = elim (Bool-cases (i == j)) [
  | inl same ↦ absurd (other (sym ((==_iff i j).0 same)))
  | inr apart ↦ rw apart refl
]

push-NonEmpty : (heap : Heap) (t : ℕ) (queue : List ℕ) → NonEmpty (push heap t queue)
unfolding push
push-NonEmpty heap t [] = (t, [], refl)
push-NonEmpty heap t (u ∷ us) = elim (Bool-cases (comes_after heap t u)) [
  | inl after ↦ rw (push, after) (u, push heap t us, refl)
  | inr before ↦ rw (push, before) (t, u ∷ us, refl)
]

push_all-full :
    (heap : Heap) (ts queue : List ℕ) → NonEmpty queue → NonEmpty (push_all heap ts queue)
unfolding push_all
push_all-full heap [] queue full = full
push_all-full heap (t ∷ ts) queue full =
    push_all-full heap ts (push heap t queue) (push-NonEmpty heap t queue)

pub push_all-NonEmpty :
    (heap : Heap) (ts queue : List ℕ)
    → waits_in_vain queue ts ≡ false
    → NonEmpty (push_all heap ts queue)
unfolding waits_in_vain push_all
push_all-NonEmpty heap [] [] h = ground (arith, h)
push_all-NonEmpty heap ts (q ∷ queue) h = push_all-full heap ts (q ∷ queue) (q, queue, refl)
push_all-NonEmpty heap (t ∷ ts) [] h =
    push_all-full heap ts (push heap t []) (push-NonEmpty heap t [])

pub List-cases : (xs : List ℕ) → (xs ≡ []) ⊎ NonEmpty xs
List-cases [] = inl refl
List-cases (x ∷ xs) = inr (x, xs, refl)
