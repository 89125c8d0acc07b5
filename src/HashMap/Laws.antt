-- ===== src/HashMap/Laws.antt =====
-- What the methods of include/common/hash_map.h do to the map from keys to values.
use myblockchain.Prelude.{
  ℕ, not, is_some, ◌≡◌, refl, sym, subst, ap, List, false, Option, none, some, arith, ◌==◌,
  if◌then◌else◌, Eq, inl, inr, Bool-cases, ==_iff,
}
use myblockchain.HashMap.{
  HashMap, update, bucket_number, apply, empty, remove, contains, insert, index, assign, lookup,
}
use myblockchain.HashMap.Bucket.{
  find, index_in, Distinct, find-nil, find-put, index_in_value, find-index_in, find-insert_in,
  find-remove_in, insert_in_value, remove_in_value, contains_in_lem, put-Distinct,
  index_in-Distinct, insert_in-Distinct, remove_in-Distinct,
}

-- In every bucket each key stands once.
abbrev pub IsValid {ℓ κ} : {n : ℕ} {K : Type ℓ} {V : Type κ} ⦃e : Eq K⦄ → HashMap n K V → Type κ
IsValid m = (i : ℕ) → Distinct (m.maps i)

pub lookup-empty {ℓ κ} :
    (n : ℕ) {K : Type ℓ} (V : Type κ) ⦃e : Eq K⦄ (hasher : K → ℕ) (k : K)
    → lookup k (empty {n = n} {V = V} hasher) ≡ none
unfolding lookup empty
lookup-empty n V hasher k = find-nil k

-- A bucket that is exchanged changes the lookups of its own keys only.
find-update {ℓ κ} :
    {K : Type ℓ} {V : Type κ} ⦃e : Eq K⦄ (h : K → ℕ) (maps : ℕ → List (K × V)) (k j : K)
    (b : List (K × V)) (x : Option V)
    → find j b ≡ (if e.beq k j then x else find j (maps (h k)))
    → find j (update maps (h k) b (h j)) ≡ (if e.beq k j then x else find j (maps (h j)))
find-update ⦃e⦄ h maps k j b x p = elim (Bool-cases (h k == h j)) [
  | inl hit ↦ rw hit (rw ((==_iff (h k) (h j)).0 hit) at p)
  | inr miss ↦
      let other : e.beq k j ≡ false = ground (arith, e.beq_iff k j) in rw (miss, other) refl
]

pub empty-IsValid {ℓ κ} :
    (n : ℕ) {K : Type ℓ} (V : Type κ) ⦃e : Eq K⦄ (hasher : K → ℕ)
    → IsValid (empty {n = n} {V = V} hasher)
unfolding empty
empty-IsValid n V hasher i = tt

module _ {ℓ κ} {n : ℕ} {K : Type ℓ} {V : Type κ} ⦃e : Eq K⦄ where
  lookup-apply {ρ} :
      {R : Type ρ} (f : List (K × V) → R × List (K × V)) (k j : K) (x : Option V)
      (m : HashMap n K V)
      → find j (f (m.maps (bucket_number m k))).1
        ≡ (if e.beq k j then x else find j (m.maps (bucket_number m k)))
      → lookup j (apply f (bucket_number m k) m).1 ≡ (if e.beq k j then x else lookup j m)
  unfolding lookup apply bucket_number
  lookup-apply f k j x m p = find-update (bucket_number m) m.maps k j _ x p

  pub lookup-assign :
      (k j : K) (v : V) (m : HashMap n K V)
      → lookup j (assign k v m) ≡ (if e.beq k j then some v else lookup j m)
  unfolding assign
  lookup-assign k j v m =
      lookup-apply _ k j (some v) m (find-put k j v (m.maps (bucket_number m k)))

  -- `m[key]` gives the value, or the default and leaves it there.
  pub index_value :
      (d : V) (k : K) (m : HashMap n K V)
      → (index d k m).0 ≡ elim (lookup k m) [ none ↦ d | some v ↦ v ]
  unfolding index lookup apply
  index_value d k m = index_in_value d k (m.maps (bucket_number m k))

  pub lookup-index :
      (d : V) (k j : K) (m : HashMap n K V)
      → lookup j (index d k m).1 ≡ (if e.beq k j then some (index d k m).0 else lookup j m)
  unfolding index apply
  lookup-index d k j m =
      lookup-apply (index_in d k) k j _ m (find-index_in d k j (m.maps (bucket_number m k)))

  -- `m[key]` gives the value that the key has, or the default, and from then on the key has it; no
  -- other key changes.
  pub index_lem :
      (d : V) (k j : K) (m : HashMap n K V)
      → ((index d k m).0 ≡ elim (lookup k m) [ none ↦ d | some v ↦ v ])
        × (lookup j (index d k m).1 ≡ (if e.beq k j then some (index d k m).0 else lookup j m))
  index_lem d k j m = (index_value d k m, lookup-index d k j m)

  pub lookup-insert :
      (k j : K) (v : V) (m : HashMap n K V)
      → lookup j (insert k v m).1
        ≡ (if e.beq k j then elim (lookup k m) [ none ↦ some v | some w ↦ some w ] else lookup j m)
  unfolding insert lookup
  lookup-insert k j v m = lookup-apply _ k j _ m (find-insert_in v k j (m.maps (bucket_number m k)))

  pub lookup-remove :
      (k j : K) (m : HashMap n K V)
      → IsValid m
      → lookup j (remove k m).1 ≡ (if e.beq k j then none else lookup j m)
  unfolding remove
  lookup-remove k j m v = lookup-apply _ k j none m (find-remove_in k j _ (v (bucket_number m k)))

  -- `insert` answers whether the key was new; then it puts the value there, and else the key keeps its
  -- value. Every other key keeps its own.
  pub insert_lem :
      (k j : K) (v : V) (m : HashMap n K V)
      → ((insert k v m).0 ≡ not (is_some (lookup k m)))
        × (lookup j (insert k v m).1 ≡ (
            if e.beq k j
            then elim (lookup k m) [ none ↦ some v | some w ↦ some w ]
            else lookup j m))
  unfolding insert apply lookup
  insert_lem k j v m = (insert_in_value k v _, lookup-insert k j v m)

  -- On a table whose buckets hold no key twice, `remove` answers whether the key was there, and takes
  -- away that key alone.
  pub remove_lem :
      (k j : K) (m : HashMap n K V)
      → IsValid m
      → ((remove k m).0 ≡ is_some (lookup k m))
        × (lookup j (remove k m).1 ≡ (if e.beq k j then none else lookup j m))
  unfolding remove apply lookup
  remove_lem k j m v = (remove_in_value k _, lookup-remove k j m v)

  -- `contains` answers whether the key is there, and what any key holds stays the same.
  pub contains_lem :
      (k j : K) (m : HashMap n K V)
      → ((contains k m).0 ≡ is_some (lookup k m)) × (lookup j (contains k m).1 ≡ lookup j m)
  unfolding contains apply lookup bucket_number
  contains_lem k j m = (
    ap (λ r. r.0) (contains_in_lem k (m.maps (bucket_number m k))),
    simp contains_in_lem (same (bucket_number m k)),
  )
    where
      same : (i : ℕ) → find j (update m.maps i (m.maps i) (bucket_number m j)) ≡ lookup j m
      same i = elim (Bool-cases (i == bucket_number m j)) [
        | inl hit ↦ rw hit (ap (λ b. find j (m.maps b)) ((==_iff i _).0 hit))
        | inr miss ↦ rw miss
      ]

  pub update-IsValid :
      (m : HashMap n K V) (i : ℕ) (b : List (K × V))
      → IsValid m
      → Distinct b
      → IsValid (record m { maps = update m.maps i b })
  update-IsValid m i b v d j = elim (Bool-cases (i == j)) [
    | inl hit ↦ rw hit d
    | inr miss ↦ rw miss (v j)
  ]

  -- The methods keep each key once.
  pub assign-IsValid : (k : K) (v : V) (m : HashMap n K V) → IsValid m → IsValid (assign k v m)
  unfolding assign apply
  assign-IsValid k v m h = update-IsValid m _ _ h (put-Distinct k v _ (h _))

  pub index-IsValid : (d : V) (k : K) (m : HashMap n K V) → IsValid m → IsValid (index d k m).1
  unfolding index apply
  index-IsValid d k m h = update-IsValid m _ _ h (index_in-Distinct d k _ (h _))

  pub insert-IsValid : (k : K) (v : V) (m : HashMap n K V) → IsValid m → IsValid (insert k v m).1
  unfolding insert apply
  insert-IsValid k v m h = update-IsValid m _ _ h (insert_in-Distinct k v _ (h _))

  pub remove-IsValid : (k : K) (m : HashMap n K V) → IsValid m → IsValid (remove k m).1
  unfolding remove apply
  remove-IsValid k m h = update-IsValid m _ _ h (remove_in-Distinct k _ (h _))

  pub contains-IsValid : (k : K) (m : HashMap n K V) → IsValid m → IsValid (contains k m).1
  unfolding contains apply
  contains-IsValid k m h =
      update-IsValid m _ _ h (
        subst Distinct (sym (ap (λ r. r.1) (contains_in_lem k (m.maps (bucket_number m k))))) (h _))
