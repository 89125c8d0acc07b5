-- ===== src/HashMap/Bucket.antt =====
-- One bucket of include/common/hash_map.h: a std::unordered_map as an association list.
use myblockchain.Prelude.{
  ◌+◌, ◌≡◌, refl, List, [], ◌∷◌, Bool, true, false, Option, none, some, arith, if◌then◌else◌,
  length, not, inl, inr, Option-cases, is_some, Eq,
}

module _ {ℓ κ} {K : Type ℓ} {V : Type κ} ⦃e : Eq K⦄ where
  -- `map.find(key)`
  pub find : K → List (K × V) → Option V
  find k [] = none
  find k ((j, v) ∷ m) = if e.beq j k then some v else find k m

  -- `map[key] = value`
  unfoldable pub put : K → V → List (K × V) → List (K × V)
  put k v [] = (k, v) ∷ []
  put k v ((j, w) ∷ m) = if e.beq j k then (k, v) ∷ m else (j, w) ∷ put k v m

  -- `map.erase(it)` of the entry that `find` gives
  pub erase : K → List (K × V) → List (K × V)
  erase k [] = []
  erase k ((j, w) ∷ m) = if e.beq j k then m else (j, w) ∷ erase k m

  -- The functions that the methods hand to the locked bucket.
  pub remove_in : K → List (K × V) → Bool × List (K × V)
  remove_in k m = elim (find k m) [ none ↦ (false, m) | some _ ↦ (true, erase k m) ]

  pub contains_in : K → List (K × V) → Bool × List (K × V)
  contains_in k m = elim (find k m) [ none ↦ (false, m) | some _ ↦ (true, m) ]

  pub insert_in : K → V → List (K × V) → Bool × List (K × V)
  insert_in k v m = elim (find k m) [ none ↦ (true, put k v m) | some _ ↦ (false, m) ]

  pub index_in : V → K → List (K × V) → V × List (K × V)
  index_in default k m = elim (find k m) [ none ↦ (default, put k default m) | some v ↦ (v, m) ]

  abbrev pub has : K → List (K × V) → Bool
  has k m = is_some (find k m)

  -- Each key stands once.
  abbrev pub Distinct : List (K × V) → Type κ
  Distinct [] = Unit {κ}
  Distinct ((j, v) ∷ m) = (find j m ≡ none) × Distinct m

  pub find-nil : (k : K) → find k [] ≡ none
  unfolding find
  find-nil k = refl

  pub find-cons :
      (k j : K) (v : V) (m : List (K × V))
      → find j ((k, v) ∷ m) ≡ (if e.beq k j then some v else find j m)
  unfolding find
  find-cons k j v m = refl

  pub find-put :
      (k j : K) (v : V) (m : List (K × V))
      → find j (put k v m) ≡ (if e.beq k j then some v else find j m)
  unfolding find put
  find-put k j v [] = refl
  find-put k j v ((i, w) ∷ m) =
      ground (arith, e.beq_iff k j, e.beq_iff i k, e.beq_iff i j, find-put k j v m)

  pub find-erase_ne :
      (k j : K) (m : List (K × V)) → e.beq k j ≡ false → find j (erase k m) ≡ find j m
  unfolding find erase
  find-erase_ne k j [] h = refl
  find-erase_ne k j ((i, w) ∷ m) h =
      ground (arith, e.beq_iff k j, e.beq_iff i k, e.beq_iff i j, find-erase_ne k j m h)

  pub find-erase_self : (k : K) (m : List (K × V)) → Distinct m → find k (erase k m) ≡ none
  unfolding find erase
  find-erase_self k [] d = refl
  find-erase_self k ((i, w) ∷ m) d = ground (arith, e.beq_iff i k, find-erase_self k m d.1)

  pub put-Distinct : (k : K) (v : V) (m : List (K × V)) → Distinct m → Distinct (put k v m)
  unfolding put find
  put-Distinct k v [] d = (refl, tt)
  put-Distinct k v ((i, w) ∷ m) d =
      ground (arith, e.beq_iff i k, e.beq_iff k i, find-put k i v m, put-Distinct k v m d.1)

  pub erase-Distinct : (k : K) (m : List (K × V)) → Distinct m → Distinct (erase k m)
  unfolding erase
  erase-Distinct k [] d = tt
  erase-Distinct k ((i, w) ∷ m) d =
      ground (arith, e.beq_iff i k, e.beq_iff k i, find-erase_ne k i m, erase-Distinct k m d.1)

  pub length-put_new :
      (k : K) (v : V) (m : List (K × V)) → find k m ≡ none → length (put k v m) ≡ length m + 1
  unfolding put find
  length-put_new k v [] h = refl
  length-put_new k v ((i, w) ∷ m) h = ground (arith, length-put_new k v m)

  pub length-erase :
      (k : K) (v : V) (m : List (K × V)) → find k m ≡ some v → length (erase k m) + 1 ≡ length m
  unfolding erase find
  length-erase k v [] h = ground arith
  length-erase k v ((i, w) ∷ m) h = ground (arith, length-erase k v m)

  pub index_in_value :
      (d : V) (k : K) (m : List (K × V))
      → (index_in d k m).0 ≡ elim (find k m) [ none ↦ d | some v ↦ v ]
  unfolding index_in
  index_in_value d k m = ground arith

  pub find-index_in :
      (d : V) (k j : K) (m : List (K × V))
      → find j (index_in d k m).1 ≡ (if e.beq k j then some (index_in d k m).0 else find j m)
  unfolding index_in
  find-index_in d k j m = ground (arith, e.beq_iff k j, find-put k j d m)

  pub find-insert_in :
      (v : V) (k j : K) (m : List (K × V))
      → find j (insert_in k v m).1
        ≡ (if e.beq k j then elim (find k m) [ none ↦ some v | some w ↦ some w ] else find j m)
  unfolding insert_in
  find-insert_in v k j m = ground (arith, e.beq_iff k j, find-put k j v m)

  pub find-remove_in :
      (k j : K) (m : List (K × V))
      → Distinct m
      → find j (remove_in k m).1 ≡ (if e.beq k j then none else find j m)
  unfolding remove_in
  find-remove_in k j m d = ground (arith, e.beq_iff k j, find-erase_ne k j m, find-erase_self k m d)

  pub insert_in_value : (k : K) (v : V) (m : List (K × V)) → (insert_in k v m).0 ≡ not (has k m)
  unfolding insert_in
  insert_in_value k v m = ground arith

  pub remove_in_value : (k : K) (m : List (K × V)) → (remove_in k m).0 ≡ has k m
  unfolding remove_in
  remove_in_value k m = ground arith

  pub contains_in_lem : (k : K) (m : List (K × V)) → contains_in k m ≡ (has k m, m)
  unfolding contains_in
  contains_in_lem k m = ground arith

  pub index_in-Distinct :
      (d : V) (k : K) (m : List (K × V)) → Distinct m → Distinct (index_in d k m).1
  unfolding index_in
  index_in-Distinct d k m h = elim (Option-cases (find k m)) [
    | inl e ↦ rw (e, index_in) (put-Distinct k d m h)
    | inr (v, e) ↦ rw (e, index_in) h
  ]

  pub insert_in-Distinct :
      (k : K) (v : V) (m : List (K × V)) → Distinct m → Distinct (insert_in k v m).1
  unfolding insert_in
  insert_in-Distinct k v m h = elim (Option-cases (find k m)) [
    | inl e ↦ rw (e, insert_in) (put-Distinct k v m h)
    | inr (w, e) ↦ rw (e, insert_in) h
  ]

  pub remove_in-Distinct : (k : K) (m : List (K × V)) → Distinct m → Distinct (remove_in k m).1
  unfolding remove_in
  remove_in-Distinct k m h = elim (Option-cases (find k m)) [
    | inl e ↦ rw (e, remove_in) h
    | inr (w, e) ↦ rw (e, remove_in) (erase-Distinct k m h)
  ]

  -- How the number of entries changes.
  pub length-insert_in :
      (k : K) (v : V) (m : List (K × V))
      → length (insert_in k v m).1 ≡ length m + (if has k m then 0 else 1)
  unfolding insert_in
  length-insert_in k v m = ground (arith, length-put_new k v m)

  pub length-remove_in :
      (k : K) (m : List (K × V)) → length (remove_in k m).1 + (if has k m then 1 else 0) ≡ length m
  unfolding remove_in
  length-remove_in k m = elim (Option-cases (find k m)) [
    | inl e ↦ rw (e, remove_in) (omega arith)
    | inr (w, e) ↦ rw (e, remove_in) (length-erase k w m e)
  ]
