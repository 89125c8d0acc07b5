-- ===== src/Prelude/Keep.antt =====
-- What a test keeps of a list.
use mathlib.Core.Path.{◌≡◌, refl, ap}
use mathlib.Core.Logic.{inl, inr}
use mathlib.Core.List.{List, [], ◌∷◌, ◌++◌}
use mathlib.Core.Bool.{Bool, true, ◌&&◌}
use myblockchain.Prelude.Tests.{Bool-cases}
use myblockchain.Prelude.Lists.{All, keep}

module _ {ℓ} {A : Type ℓ} where
  pub All-map {κ} : (P Q : A → Type κ) → ((x : A) → P x → Q x) → (xs : List A) → All P xs → All Q xs
  All-map P Q f [] a = tt
  All-map P Q f (x ∷ xs) a = (f x a.0, All-map P Q f xs a.1)

  pub All-both {κ} :
      (P Q : A → Type κ) (xs : List A) → All P xs → All Q xs → All (λ x. P x × Q x) xs
  All-both P Q [] a b = tt
  All-both P Q (x ∷ xs) a b = ((a.0, b.0), All-both P Q xs a.1 b.1)

  pub All-keep {κ} : (P : A → Type κ) (p : A → Bool) (xs : List A) → All P xs → All P (keep p xs)
  All-keep P p [] a = tt
  All-keep P p (x ∷ xs) a = elim (Bool-cases (p x)) [
    | inl stays ↦ rw stays (a.0, All-keep P p xs a.1)
    | inr goes ↦ rw goes (All-keep P p xs a.1)
  ]

  pub keep-congr : (p q : A → Bool) (xs : List A) → All (λ x. p x ≡ q x) xs → keep p xs ≡ keep q xs
  keep-congr p q [] a = refl
  keep-congr p q (x ∷ xs) a = rw (a.0, keep-congr p q xs a.1) refl

  pub keep-true : (xs : List A) → keep (λ x. true) xs ≡ xs
  keep-true [] = refl
  keep-true (x ∷ xs) = ap (◌∷◌ x) (keep-true xs)

  pub keep-append : (p : A → Bool) (xs ys : List A) → keep p (xs ++ ys) ≡ keep p xs ++ keep p ys
  keep-append p [] ys = refl
  keep-append p (x ∷ xs) ys = elim (Bool-cases (p x)) [
    | inl stays ↦ rw stays (ap (◌∷◌ x) (keep-append p xs ys))
    | inr goes ↦ rw goes (keep-append p xs ys)
  ]

  pub keep-keep : (p q : A → Bool) (xs : List A) → keep p (keep q xs) ≡ keep (λ x. q x && p x) xs
  keep-keep p q [] = refl
  keep-keep p q (x ∷ xs) = elim (Bool-cases (q x)) [
    | inl stays ↦ elim (Bool-cases (p x)) [
      | inl stays_too ↦ rw (stays, stays_too) (ap (◌∷◌ x) (keep-keep p q xs))
      | inr goes ↦ rw (stays, goes) (keep-keep p q xs)
    ]
    | inr goes ↦ rw goes (keep-keep p q xs)
  ]
