-- ===== src/Executor/Agreement.antt =====
-- Two servers that run the same epoch (transaction_executor_impl.cpp) agree, in whatever order their
-- workers take the transactions.
use mathlib.Core.List.{Perm, Permᴰ}
use mathlib.Core.Logic.{∥∥₁_elim}
use mathlib.Core.HLevel.{×_prop}
use myblockchain.Prelude.{
  ℕ, ◌≡◌, refl, sym, subst, ap, ◌∙◌, inl, inr, List, [], ◌∷◌, map, Bool, not, ◌&&◌, ◌||◌, some,
  String, All, any, Bool-cases, fun_ext, if◌then◌else◌,
}
use myblockchain.Transaction.{MockTransaction, KvRwSet, TransactionResult, set_transaction_result}
use myblockchain.Reserve.Order.{any-perm, dependency_in-congr}
use myblockchain.Database.{LevelDb}
use myblockchain.Executor.{Outcome, World, execute_list, commit_list, is_abort_no_retry}
use myblockchain.Executor.Decision.{executed, batch_of, settled, commits}
use myblockchain.Executor.Read.{IsFresh}
use myblockchain.Executor.Phases.{IsNewEpoch, epoch_settled}

All-prop {ℓ κ} :
    {A : Type ℓ} (P : A → Type κ) → ((a : A) → IsProp (P a)) → (xs : List A) → IsProp (All P xs)
All-prop P h [] = hlevel
All-prop P h (x ∷ xs) = ×_prop (h x) (All-prop P h xs)

All-permᴰ {ℓ κ} : {A : Type ℓ} (P : A → Type κ) {xs ys : List A} → Permᴰ xs ys → All P xs → All P ys
All-permᴰ P Permᴰ.nil a = tt
All-permᴰ P (Permᴰ.cons e d) a = (subst P e a.0, All-permᴰ P d a.1)
All-permᴰ P (Permᴰ.swap e f) a = (subst P f a.1.0, (subst P e a.0, a.1.1))
All-permᴰ P (Permᴰ.trans d d') a = All-permᴰ P d' (All-permᴰ P d a)

All-perm {ℓ κ} :
    {A : Type ℓ} (P : A → Type κ)
    → ((a : A) → IsProp (P a))
    → {xs ys : List A} → Perm xs ys
    → All P xs
    → All P ys
All-perm P h {ys} perm a = ∥∥₁_elim perm (All-prop P h ys) (λ d. All-permᴰ P d a)

-- The reservations of the transactions, found among the transactions themselves.
any-batch_of :
    (p : ℕ × KvRwSet → Bool) (f : MockTransaction → MockTransaction) (ts : List MockTransaction)
    → any p (batch_of (map f ts))
      ≡ any (λ t. not (is_abort_no_retry (f t).result) && p ((f t).tid, (f t).rwset)) ts
any-batch_of p f [] = refl
any-batch_of p f (t ∷ ts) = elim (Bool-cases (is_abort_no_retry (f t).result)) [
  | inl failed ↦ rw failed (any-batch_of p f ts)
  | inr live ↦ rw live (ap (λ b. p ((f t).tid, (f t).rwset) || b) (any-batch_of p f ts))
]

settled-perm :
    (f : MockTransaction → MockTransaction) {ts us : List MockTransaction}
    → Perm ts us
    → settled (batch_of (map f ts)) ≡ settled (batch_of (map f us))
settled-perm f {ts} {us} perm = fun_ext λ t.
    ap
      (λ d.
        if is_abort_no_retry t.result
        then t
        else set_transaction_result
            (if commits d then TransactionResult.commit else TransactionResult.abort) t)
      (dependency_in-congr (batch_of (map f ts)) (batch_of (map f us))
        (λ p. any-batch_of p f ts ∙ (any-perm _ perm ∙ sym (any-batch_of p f us))) t.rwset t.tid)

map-map :
    (g f : MockTransaction → MockTransaction) (ts : List MockTransaction)
    → map g (map f ts) ≡ map (λ t. g (f t)) ts
map-map g f [] = refl
map-map g f (t ∷ ts) = ap (◌∷◌ (g (f t))) (map-map g f ts)

module _ (leveldb : LevelDb) (hasher : String → ℕ)
    (invoke : MockTransaction → leveldb.Db → Outcome) where
  abbrev pub W : (ℕ → Bool) → Type 0
  W weak = World leveldb hasher weak invoke

  -- A worker of a server runs both phases on the transactions, and they come out as `zs`.
  abbrev pub ComeOut :
      (weak : ℕ → Bool) → List MockTransaction → W weak → List MockTransaction → Type 0
  ComeOut weak ts v zs =
      (xs : List MockTransaction) × (u : W weak) × (execute_list leveldb hasher weak invoke ts v
        ≡ some (xs, u))
      × (w : W weak) × (commit_list leveldb hasher weak invoke xs u ≡ some (zs, w))

  IsFresh-prop :
      (weak : ℕ → Bool) (epoch : ℕ) (t : MockTransaction)
      → IsProp (IsFresh leveldb hasher weak invoke epoch t)
  IsFresh-prop weak epoch t = hlevel

  come_out :
      (weak : ℕ → Bool) (epoch : ℕ) (ts : List MockTransaction) (v : W weak)
      → IsNewEpoch leveldb hasher weak invoke epoch v
      → All (IsFresh leveldb hasher weak invoke epoch) ts
      → let f = executed invoke v.database.db in
        ComeOut weak ts v (map (λ t. settled (batch_of (map f ts)) (f t)) ts)
  come_out weak epoch ts v new fresh =
      let f = executed invoke v.database.db in
      let (u, w, runs, commits) = epoch_settled leveldb hasher weak invoke epoch ts v new fresh in
      (
        map f ts,
        u,
        runs,
        w,
        subst (λ zs. commit_list leveldb hasher weak invoke (map f ts) u ≡ some (zs, w))
            (map-map (settled (batch_of (map f ts))) f ts) commits,
      )

  -- Two servers whose databases hold the same, each with no table of the epoch yet, are given the same
  -- fresh transactions of the epoch with ids that are not 0, each in an order of its own, and their
  -- compare-exchanges fail at different times. Both run the two phases to their end, and every
  -- transaction comes out the same on both: one function gives its read-write set and its result.
  pub epoch_agreement :
      (weak weak' : ℕ → Bool) (epoch : ℕ) (ts us : List MockTransaction) (v : W weak) (v' : W weak')
      → v.database.db ≡ v'.database.db
      → IsNewEpoch leveldb hasher weak invoke epoch v
      → IsNewEpoch leveldb hasher weak' invoke epoch v'
      → All (IsFresh leveldb hasher weak invoke epoch) ts
      → Perm ts us
      → (outcome : MockTransaction → MockTransaction) × ComeOut weak ts v (map outcome ts)
        × ComeOut weak' us v' (map outcome us)
  epoch_agreement weak weak' epoch ts us v v' same new new' fresh perm =
      let f = executed invoke v.database.db in
      (
        λ t. settled (batch_of (map f ts)) (f t),
        come_out weak epoch ts v new fresh,
        subst (λ g. ComeOut weak' us v' (map g us))
            (ap (λ d t. settled (batch_of (map (executed invoke d) us)) (executed invoke d t))
                (sym same)
              ∙ ap (λ s t. s (f t)) (sym (settled-perm f perm)))
            (come_out weak' epoch us v' new' (All-perm _ (IsFresh-prop weak epoch) perm fresh)),
      )
