-- ===== src/Aria/Order.antt =====
-- The serial order of Aria: an arrangement of the committed transactions in which each goes before
-- all that follow it.
use mathlib.Core.List.{Perm}
use mathlib.Core.List.Perm
use myblockchain.Prelude.{
  All-keep, keep, ◌≡◌, refl, sym, ◌≢◌, inl, inr, [], ◌∷◌, Bool, true, false, arith, All, Bool-cases,
}
use myblockchain.Reserve.Batch.{Batch}
use myblockchain.Aria.{Entry, In, DistinctIds, goes_before, place, serial_order}

-- Each entry goes before all that follow.
abbrev pub Ordered : Batch → Batch → Type 0
Ordered batch [] = Unit
Ordered batch (e ∷ es) = All (λ f. goes_before batch e f ≡ true) es × Ordered batch es

module _ (batch : Batch) where
  goes_before_trans :
      (e f g : Entry)
      → goes_before batch e f ≡ true
      → goes_before batch f g ≡ true
      → goes_before batch e g ≡ true
  goes_before_trans e f g p q = ground arith

  goes_before_total :
      (e f : Entry) → e.0 ≢ f.0 → goes_before batch e f ≡ false → goes_before batch f e ≡ true
  goes_before_total e f h p = ground arith

  before-All :
      (e f : Entry) (es : Batch)
      → goes_before batch e f ≡ true
      → All (λ g. goes_before batch f g ≡ true) es
      → All (λ g. goes_before batch e g ≡ true) es
  before-All e f [] h a = tt
  before-All e f (g ∷ es) h a = (goes_before_trans e f g h a.0, before-All e f es h a.1)

  -- A property of every entry is one of every entry after the insertion.
  pub All-place {κ} :
      (P : Entry → Type κ) (e : Entry) (es : Batch) → P e → All P es → All P (place batch e es)
  unfolding place
  All-place P e [] h a = (h, a)
  All-place P e (f ∷ es) h a = elim (Bool-cases (goes_before batch e f)) [
    | inl first ↦ rw first (h, a)
    | inr later ↦ rw later (a.0, All-place P e es h a.1)
  ]

  place-Ordered :
      (e : Entry) (es : Batch)
      → All (λ f. e.0 ≢ f.0) es
      → Ordered batch es
      → Ordered batch (place batch e es)
  unfolding place
  place-Ordered e [] d o = (tt, tt)
  place-Ordered e (f ∷ es) d o = elim (Bool-cases (goes_before batch e f)) [
    | inl first ↦ rw first ((first, before-All e f es first o.0), o)
    | inr later ↦ rw later (
      All-place (λ g. goes_before batch f g ≡ true) e es (goes_before_total e f d.0 later) o.0,
      place-Ordered e es d.1 o.1,
    )
  ]

  pub All-serial_order {κ} :
      (P : Entry → Type κ) (es : Batch) → All P es → All P (serial_order batch es)
  unfolding serial_order
  All-serial_order P [] a = tt
  All-serial_order P (e ∷ es) a = All-place P e _ a.0 (All-serial_order P es a.1)

  pub serial_order-Ordered : (es : Batch) → DistinctIds es → Ordered batch (serial_order batch es)
  unfolding serial_order
  serial_order-Ordered [] d = tt
  serial_order-Ordered (e ∷ es) d =
      place-Ordered e _ (All-serial_order (λ f. e.0 ≢ f.0) es d.0) (serial_order-Ordered es d.1)

  place-DistinctIds :
      (e : Entry) (es : Batch)
      → All (λ f. e.0 ≢ f.0) es
      → DistinctIds es
      → DistinctIds (place batch e es)
  unfolding place
  place-DistinctIds e [] a d = (tt, tt)
  place-DistinctIds e (f ∷ es) a d = elim (Bool-cases (goes_before batch e f)) [
    | inl first ↦ rw first (a, d)
    | inr later ↦ rw later (
      All-place (λ g. f.0 ≢ g.0) e es (λ same. a.0 (sym same)) d.0,
      place-DistinctIds e es a.1 d.1,
    )
  ]

  pub serial_order-DistinctIds : (es : Batch) → DistinctIds es → DistinctIds (serial_order batch es)
  unfolding serial_order
  serial_order-DistinctIds [] d = tt
  serial_order-DistinctIds (e ∷ es) d =
      place-DistinctIds e _ (All-serial_order (λ f. e.0 ≢ f.0) es d.0)
        (serial_order-DistinctIds es d.1)

  place-perm : (e : Entry) (es : Batch) → Perm (place batch e es) (e ∷ es)
  unfolding place
  place-perm e [] = Perm.refl (e ∷ [])
  place-perm e (f ∷ es) = elim (Bool-cases (goes_before batch e f)) [
    | inl first ↦ rw first (Perm.refl (e ∷ f ∷ es))
    | inr later ↦ rw later (Perm.trans (Perm.cons f (place-perm e es)) (Perm.swap e f es))
  ]

  pub serial_order-perm : (es : Batch) → Perm (serial_order batch es) es
  unfolding serial_order
  serial_order-perm [] = Perm.refl []
  serial_order-perm (e ∷ es) =
      Perm.trans (place-perm e (serial_order batch es)) (Perm.cons e (serial_order-perm es))

-- What stays of a list passes the test, and keeps its distinct ids.
pub All-kept : (p : Entry → Bool) (es : Batch) → All (λ e. p e ≡ true) (keep p es)
All-kept p [] = tt
All-kept p (e ∷ es) = elim (Bool-cases (p e)) [
  | inl stays ↦ rw stays (stays, All-kept p es)
  | inr goes ↦ rw goes (All-kept p es)
]

pub keep-DistinctIds : (p : Entry → Bool) (es : Batch) → DistinctIds es → DistinctIds (keep p es)
keep-DistinctIds p [] d = tt
keep-DistinctIds p (e ∷ es) d = elim (Bool-cases (p e)) [
  | inl stays ↦ rw stays (All-keep (λ f. e.0 ≢ f.0) p es d.0, keep-DistinctIds p es d.1)
  | inr goes ↦ rw goes (keep-DistinctIds p es d.1)
]

-- Every entry of a list is in it.
All-later : (f : Entry) (xs es : Batch) → All (λ e. In e xs) es → All (λ e. In e (f ∷ xs)) es
All-later f xs [] a = tt
All-later f xs (e ∷ es) a = (inr a.0, All-later f xs es a.1)

pub All-In : (es : Batch) → All (λ e. In e es) es
All-In [] = tt
All-In (e ∷ es) = (inl refl, All-later e es es (All-In es))
