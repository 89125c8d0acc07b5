-- ===== src/HashMap/Lock.antt =====
-- The lock of a bucket, include/common/spin_lock.h, and the methods `apply` and `apply_ref` of
-- include/common/hash_map.h that take it, an atomic access or a use of the bucket at a time, with any
-- number of calls under way at once.
use mathlib.Core.Option.{some-injective}
use myblockchain.Prelude.{
  ℕ, ◌≡◌, ◌≢◌, refl, sym, subst, ap, ◌∙◌, ◌⊎◌, inl, inr, List, [], ◌∷◌, Bool, true, false, Option,
  none, some, arith, ◌==◌, ==_iff, Bool-cases, All, Nodup,
}
use myblockchain.HashMap.{update}

-- Where a call stands in `apply`.
pub data Place (M R : Type 0) : Type 0 where
  outside : Place M R  -- in `lock`
  inside : Place M R  -- after `lock`
  holding : (map : M) → Place M R  -- the function has read the bucket
  written : (result : R) → Place M R  -- the function has returned
  left : (result : R) → Place M R  -- after `unlock`

abbrev pub is_inside : {M R : Type 0} → Place M R → Bool
is_inside outside = false
is_inside inside = true
is_inside (holding map) = true
is_inside (written result) = true
is_inside (left result) = false

abbrev pub answer : {M R : Type 0} → Place M R → Option R
answer outside = none
answer inside = none
answer (holding map) = none
answer (written result) = some result
answer (left result) = some result

-- A bucket with its lock; the calls under way are named by numbers.
pub record Guarded (M R : Type 0) : Type 0 where
  pub flag : Bool
  pub map : M
  pub place : ℕ → Place M R

-- `function c` is the function that the call `c` hands to `apply`.
module _ {M R : Type 0} (function : ℕ → M → R × M) where
  -- One step of a call: what it makes of the flag and of the bucket.
  pub data Move (c : ℕ) (flag : Bool) (map : M) : Place M R → Bool → M → Place M R → Type 0 where
    -- `test_and_set` finds the flag set
    spin : flag ≡ true → Move c flag map outside true map outside
    -- `test_and_set` finds it clear, and sets it
    enter : flag ≡ false → Move c flag map outside true map inside
    read : Move c flag map inside flag map (holding map)
    write : {m : M} → Move c flag map (holding m) flag (function c m).1 (written (function c m).0)
    -- `clear`
    leave : {r : R} → Move c flag map (written r) false map (left r)

  pub data Step (s : Guarded M R) : Guarded M R → Type 0 where
    pick :
        (c : ℕ) {f : Bool} {m : M} {p : Place M R}
        → Move c s.flag s.map (s.place c) f m p
        → Step s (record { flag = f; map = m; place = update s.place c p })

  abbrev pub unlocked : M → Guarded M R
  unlocked m = record { flag = false; map = m; place = λ c. outside }

  pub data Reach (m0 : M) : Guarded M R → Type 0 where
    begin : Reach m0 (unlocked m0)
    next : {s t : Guarded M R} → Reach m0 s → Step s t → Reach m0 t

  -- The calls one after another, the last one first.
  abbrev pub one_by_one : M → List ℕ → M
  one_by_one m0 [] = m0
  one_by_one m0 (c ∷ cs) = (function c (one_by_one m0 cs)).1

  -- The call `c` answers `r` when the calls are made one after another.
  abbrev pub Answers : M → ℕ → R → List ℕ → Type 0
  Answers m0 c r [] = ⊥
  Answers m0 c r (d ∷ ds) = ((d ≡ c) × (r ≡ (function d (one_by_one m0 ds)).0)) ⊎ Answers m0 c r ds

  pub record IsLocked (s : Guarded M R) : Type 0 where
    pub alone : (c d : ℕ) → is_inside (s.place c) ≡ true → is_inside (s.place d) ≡ true → c ≡ d
    pub flagged : (c : ℕ) → is_inside (s.place c) ≡ true → s.flag ≡ true
    pub seen : (c : ℕ) (m : M) → s.place c ≡ holding m → m ≡ s.map

  -- The function of the call has returned.
  abbrev pub HasAnswer : Guarded M R → ℕ → Type 0
  HasAnswer s c = (r : R) × (answer (s.place c) ≡ some r)

  pub record IsOrdered (m0 : M) (s : Guarded M R) (order : List ℕ) : Type 0 where
    pub bucket : s.map ≡ one_by_one m0 order
    pub answered : (c : ℕ) (r : R) → answer (s.place c) ≡ some r → Answers m0 c r order
    pub once : Nodup order
    pub ended : All (HasAnswer s) order

  Move-IsLocked :
      (s : Guarded M R) (c : ℕ) {f : Bool} {m : M} {p q : Place M R}
      → IsLocked s
      → s.place c ≡ p
      → Move c s.flag s.map p f m q
      → IsLocked (record { flag = f; map = m; place = update s.place c q })
  Move-IsLocked s c l e (enter h) = record {
    alone = λ a b ha hb.
        ground (arith, l.alone a b, l.flagged a, l.flagged b, l.alone a c, l.alone b c, e, ha, hb);
    flagged = λ a ha. ground (arith, l.flagged a, l.alone a c, e, ha);
    seen = λ a m h. ground (arith, l.seen a m, l.alone a c, e, h);
  }
  Move-IsLocked s c l e move = record {
    alone = λ a b ha hb.
        ground (arith, l.alone a b, l.flagged a, l.flagged b, l.alone a c, l.alone b c, e, ha, hb);
    flagged = λ a ha. ground (arith, l.flagged a, l.alone a c, e, ha);
    seen = λ a m h. ground (arith, l.seen a m, l.alone a c, e, h);
  }

  HasAnswer-update :
      (s t : Guarded M R) (c : ℕ) (q : Place M R) (order : List ℕ)
      → t.place ≡ update s.place c q
      → (HasAnswer s c → (r : R) × (answer q ≡ some r))
      → All (HasAnswer s) order
      → All (HasAnswer t) order
  HasAnswer-update s t c q [] e h a = tt
  HasAnswer-update s t c q (d ∷ ds) e h a = (
    elim (Bool-cases (c == d)) [
      | inl same ↦
          let (r, g) = h (subst (HasAnswer s) (sym ((==_iff c d).0 same)) a.0) in
          (r, rw e (rw same g))
      | inr other ↦ (a.0.0, rw e (rw other a.0.1))
    ],
    HasAnswer-update s t c q ds e h a.1,
  )

  new_call :
      (s : Guarded M R) (c : ℕ) (order : List ℕ)
      → answer (s.place c) ≡ none
      → All (HasAnswer s) order
      → All (λ d. c ≢ d) order
  new_call s c [] h a = tt
  new_call s c (d ∷ ds) h a = (
    λ same.
        let clash : some a.0.0 ≡ none = sym a.0.1 ∙ ap (λ x. answer (s.place x)) (sym same) ∙ h in
        ground (arith, clash),
    new_call s c ds h a.1,
  )

  -- A step that ends no call and leaves the bucket alone leaves the order.
  same_order :
      (m0 : M) (s t : Guarded M R) (c : ℕ) (q : Place M R) (order : List ℕ)
      → t.place ≡ update s.place c q
      → t.map ≡ s.map
      → answer q ≡ answer (s.place c)
      → IsOrdered m0 s order
      → IsOrdered m0 t order
  same_order m0 s t c q order e same h o = record {
    bucket = same ∙ o.bucket;
    answered = λ d r g.
        let g' : answer (update s.place c q d) ≡ some r = subst (λ x. answer (x d) ≡ some r) e g in
        let before : answer (s.place d) ≡ some r = ground (arith, g', h, ==_iff c d) in
        o.answered d r before;
    once = o.once;
    ended = HasAnswer-update s t c q order e (λ a. (a.0, h ∙ a.1)) o.ended;
  }

  Move-IsOrdered :
      (m0 : M) (s : Guarded M R) (c : ℕ) {f : Bool} {m : M} {p q : Place M R}
      → IsLocked s
      → s.place c ≡ p
      → Move c s.flag s.map p f m q
      → (order : List ℕ) → IsOrdered m0 s order
      → (order' : List ℕ) × IsOrdered m0
          (record { flag = f; map = m; place = update s.place c q })
          order'
  Move-IsOrdered m0 s c l e (spin h) order o =
      (order, same_order m0 s _ c outside order refl refl (sym (ap answer e)) o)
  Move-IsOrdered m0 s c l e (enter h) order o =
      (order, same_order m0 s _ c inside order refl refl (sym (ap answer e)) o)
  Move-IsOrdered m0 s c l e read order o =
      (order, same_order m0 s _ c (holding s.map) order refl refl (sym (ap answer e)) o)
  Move-IsOrdered m0 s c l e (write {m}) order o =
      let now : m ≡ one_by_one m0 order = l.seen c m e ∙ o.bucket in
      let t : Guarded M R = record {
        flag = s.flag;
        map = (function c m).1;
        place = update s.place c (written (function c m).0);
      } in
      (
        c ∷ order,
        record {
          bucket = ap (λ x. (function c x).1) now;
          answered = λ d r g. elim (Bool-cases (c == d)) [
            | inl same ↦
                let g' : some (function c m).0 ≡ some r = rw same at g in
                inl (
                  (==_iff c d).0 same,
                  sym (some-injective _ _ g') ∙ ap (λ x. (function c x).0) now,
                )
            | inr other ↦ inr (o.answered d r (rw other at g))
          ];
          once = (new_call s c order (ap answer e) o.ended, o.once);
          ended = (
            ((function c m).0, ground (arith, ==_iff c c)),
            HasAnswer-update s t c _ order refl (λ a. ((function c m).0, refl)) o.ended,
          );
        },
      )
  Move-IsOrdered m0 s c l e (leave {r}) order o =
      (order, same_order m0 s _ c (left r) order refl refl (sym (ap answer e)) o)

  Reach-IsLocked : (m0 : M) {s : Guarded M R} → Reach m0 s → IsLocked s
  Reach-IsLocked m0 begin = record {
    alone = λ a b ha hb. ground (arith, ha);
    flagged = λ a ha. ground (arith, ha);
    seen = λ a m h. ground (arith, h);
  }
  Reach-IsLocked m0 (next {s} r (pick c move)) = Move-IsLocked s c (Reach-IsLocked m0 r) refl move

  Reach-IsOrdered :
      (m0 : M) {s : Guarded M R} → Reach m0 s → (order : List ℕ) × IsOrdered m0 s order
  Reach-IsOrdered m0 begin =
      ([], record { bucket = refl; answered = λ c r h. ground (arith, h); once = tt; ended = tt })
  Reach-IsOrdered m0 (next {s} r (pick c move)) =
      let (order, o) = Reach-IsOrdered m0 r in
      Move-IsOrdered m0 s c (Reach-IsLocked m0 r) refl move order o

  -- However the calls on one bucket take turns, from any bucket that is not locked: two calls are never
  -- between `lock` and `unlock` at once, and there is an order of the calls whose function has
  -- returned, each once, such that making them one after another gives the bucket as it is and to every
  -- one of them the result that it has.
  pub calls_one_by_one :
      (m0 : M) (s : Guarded M R)
      → Reach m0 s
      → ((c d : ℕ) → is_inside (s.place c) ≡ true → is_inside (s.place d) ≡ true → c ≡ d)
        × ((order : List ℕ) × IsOrdered m0 s order)
  calls_one_by_one m0 s r = ((Reach-IsLocked m0 r).alone, Reach-IsOrdered m0 r)
