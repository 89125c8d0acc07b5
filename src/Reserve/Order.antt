-- ===== src/Reserve/Order.antt =====
-- The order in which the transactions of an epoch reserve (mock_reserve_table.cpp) does not matter.
use mathlib.Core.List.{Perm, Permᴰ}
use mathlib.Core.Logic.{∥∥₁_elim}
use myblockchain.Prelude.{
  ℕ, suc, ◌≡◌, refl, sym, ap, ◌≢◌, ◌∙◌, List, Bool, some, arith, String, any, All, fun_ext,
}
use myblockchain.Transaction.{KvRwSet}
use myblockchain.Reserve.{ReserveTable, mock_reserve_table, dependency_analysis}
use myblockchain.Reserve.Batch.{
  Batch, reserve_batch, reads, writes, preceded, dependency_in, dependency_analysis-reserve_batch,
}

any-permᴰ {ℓ} : {A : Type ℓ} (p : A → Bool) {xs ys : List A} → Permᴰ xs ys → any p xs ≡ any p ys
any-permᴰ p Permᴰ.nil = refl
any-permᴰ p (Permᴰ.cons {a} {b} e d) = ground (arith, any-permᴰ p d, ap p e)
any-permᴰ p (Permᴰ.swap e f) = ground (arith, ap p e, ap p f)
any-permᴰ p (Permᴰ.trans d d') = any-permᴰ p d ∙ any-permᴰ p d'

Bool-set : IsSet Bool
Bool-set = hlevel

pub any-perm {ℓ} : {A : Type ℓ} (p : A → Bool) {xs ys : List A} → Perm xs ys → any p xs ≡ any p ys
any-perm p h = ∥∥₁_elim h (Bool-set _ _) (any-permᴰ p)

-- Only what the batch has matters, not in which order.
pub dependency_in-congr :
    (b c : Batch)
    → ((p : ℕ × KvRwSet → Bool) → any p b ≡ any p c)
    → (set : KvRwSet) (m : ℕ) → dependency_in b set m ≡ dependency_in c set m
dependency_in-congr b c h set m = λ i. record {
  raw = any (written i) (reads set);
  waw = any (written i) (writes set);
  war = any (read i) (writes set);
}
  where
    written : preceded writes b m ≡ preceded writes c m
    written = fun_ext λ p. h _

    read : preceded reads b m ≡ preceded reads c m
    read = fun_ext λ p. h _

-- Two workers' orders of the same reservations, with ids that are not 0 and each on a fresh table, give
-- tables from which every transaction reads the same dependencies.
pub reserve_batch-perm :
    (rounds : ℕ) (weak : ℕ → Bool) (hasher : String → ℕ) (epoch : ℕ) (b c : Batch)
    → All (λ e. e.0 ≢ 0) b
    → All (λ e. e.0 ≢ 0) c
    → Perm b c
    → (t u : ReserveTable) × (reserve_batch
          (suc (suc rounds))
          weak
          b
          (mock_reserve_table hasher epoch)
        ≡ some t)
      × (reserve_batch (suc (suc rounds)) weak c (mock_reserve_table hasher epoch) ≡ some u)
      × ((set : KvRwSet) (m : ℕ)
          → (dependency_analysis set m t).0 ≡ (dependency_analysis set m u).0)
reserve_batch-perm rounds weak hasher epoch b c hb hc perm =
    let (t, t_runs, t_says) = dependency_analysis-reserve_batch rounds weak hasher epoch b hb in
    let (u, u_runs, u_says) = dependency_analysis-reserve_batch rounds weak hasher epoch c hc in
    (
      t,
      u,
      t_runs,
      u_runs,
      λ set m.
          t_says set m
          ∙ (dependency_in-congr b c (λ p. any-perm p perm) set m ∙ sym (u_says set m)),
    )
