-- ===== src/Comm/Queue.antt =====
-- The order of the queue of processed transactions.
use myblockchain.Prelude.{
  ℕ, ◌+◌, ◌≡◌, ◌≤◌, refl, List, [], ◌∷◌, ◌++◌, true, false, arith, ◌==◌, if◌then◌else◌, All,
  Bool-cases, inl, inr,
}
use myblockchain.Transaction.Wrapper.{Heap}
use myblockchain.Comm.{comes_after, push, push_all}

-- How often an element stands in a list.
abbrev pub count : ℕ → List ℕ → ℕ
count t [] = 0
count t (x ∷ xs) = (if x == t then 1 else 0) + count t xs

pub count-append : (t : ℕ) (xs ys : List ℕ) → count t (xs ++ ys) ≡ count t xs + count t ys
count-append t [] ys = omega arith
count-append t (x ∷ xs) ys = omega (arith, count-append t xs ys)

-- What is in front comes after nothing behind it.
abbrev pub IsSorted : Heap → List ℕ → Type 0
IsSorted heap [] = Unit
IsSorted heap (t ∷ ts) = All (λ u. comes_after heap t u ≡ false) ts × IsSorted heap ts

comes_after_asym :
    (heap : Heap) (a b : ℕ) → comes_after heap a b ≡ true → comes_after heap b a ≡ false
unfolding comes_after
comes_after_asym heap a b h = ground arith

comes_after_trans :
    (heap : Heap) (a b c : ℕ)
    → comes_after heap a b ≡ false
    → comes_after heap b c ≡ false
    → comes_after heap a c ≡ false
unfolding comes_after
comes_after_trans heap a b c h k = ground arith

-- The top is of the least epoch.
pub comes_after-epoch :
    (heap : Heap) (a b : ℕ) → comes_after heap a b ≡ false → (heap a).epoch ≤ (heap b).epoch
unfolding comes_after
comes_after-epoch heap a b h = ground arith

push-All :
    (heap : Heap) (b t : ℕ) (queue : List ℕ)
    → comes_after heap b t ≡ false
    → All (λ u. comes_after heap b u ≡ false) queue
    → All (λ u. comes_after heap b u ≡ false) (push heap t queue)
unfolding push
push-All heap b t [] h v = (h, tt)
push-All heap b t (u ∷ us) h v = elim (Bool-cases (comes_after heap t u)) [
  | inl after ↦ rw (push, after) (v.0, push-All heap b t us h v.1)
  | inr before ↦ rw (push, before) (h, v)
]

-- What comes after nothing that comes after nothing of a queue comes after nothing of it.
behind :
    (heap : Heap) (t u : ℕ) (queue : List ℕ)
    → comes_after heap t u ≡ false
    → All (λ v. comes_after heap u v ≡ false) queue
    → All (λ v. comes_after heap t v ≡ false) queue
behind heap t u [] h v = tt
behind heap t u (x ∷ xs) h v = (comes_after_trans heap t u x h v.0, behind heap t u xs h v.1)

push-IsSorted :
    (heap : Heap) (t : ℕ) (queue : List ℕ) → IsSorted heap queue → IsSorted heap (push heap t queue)
unfolding push
push-IsSorted heap t [] v = (tt, tt)
push-IsSorted heap t (u ∷ us) v = elim (Bool-cases (comes_after heap t u)) [
  | inl after ↦
      rw (push, after)
        (push-All heap u t us (comes_after_asym heap t u after) v.0, push-IsSorted heap t us v.1)
  | inr before ↦ rw (push, before) ((before, behind heap t u us before v.0), v)
]

count-push :
    (heap : Heap) (x t : ℕ) (queue : List ℕ) → count x (push heap t queue) ≡ count x (t ∷ queue)
unfolding push
count-push heap x t [] = refl
count-push heap x t (u ∷ us) = elim (Bool-cases (comes_after heap t u)) [
  | inl after ↦ rw (push, after) (omega (arith, count-push heap x t us))
  | inr before ↦ rw (push, before) refl
]

pub push_all-IsSorted :
    (heap : Heap) (ts queue : List ℕ) → IsSorted heap queue → IsSorted heap (push_all heap ts queue)
unfolding push_all
push_all-IsSorted heap [] queue v = v
push_all-IsSorted heap (t ∷ ts) queue v =
    push_all-IsSorted heap ts (push heap t queue) (push-IsSorted heap t queue v)

pub count-push_all :
    (heap : Heap) (x : ℕ) (ts queue : List ℕ)
    → count x (push_all heap ts queue) ≡ count x ts + count x queue
unfolding push_all
count-push_all heap x [] queue = omega arith
count-push_all heap x (t ∷ ts) queue =
    let rest = count-push_all heap x ts (push heap t queue) in
    let here = count-push heap x t queue in omega arith
