-- ===== src/HashMap/Size.antt =====
-- `size` and `clear` of include/common/hash_map.h: the loops over the N buckets.
use Prim.Native.Nat.{ℕ, zero, suc, ◌+◌, ◌*◌, ◌≤◌, ◌<◌}
use mathlib.Core.Path.{◌≡◌, refl}
use myblockchain.Prelude.{
  ltb, lt→ltb, true, ◌%◌, List, [], false, none, is_some, arith, ◌==◌, if◌then◌else◌, Eq, length,
  ◌∙◌, ap, Bool-cases, inl, inr, ==_iff,
}
use myblockchain.HashMap.{
  HashMap, update, bucket_number, apply, int_to_size, size_to_int, map_from, fold_from, size, clear,
  remove, insert, lookup,
}
use myblockchain.HashMap.Bucket.{insert_in, remove_in, length-insert_in, length-remove_in, find-nil}

-- The entries of the buckets `i`, ..., `i + rounds - 1`.
unfoldable pub entries {ℓ} : {B : Type ℓ} → (B → ℕ) → ℕ → ℕ → (ℕ → B) → ℕ
entries w zero i maps = 0
entries w (suc rounds) i maps = w (maps i) + entries w rounds (i + 1) maps

entries-eq-zero {ℓ} :
    {B : Type ℓ} (w : B → ℕ) (rounds i : ℕ) (maps : ℕ → B)
    → ((j : ℕ) → i ≤ j → j < i + rounds → w (maps j) ≡ 0)
    → entries w rounds i maps ≡ 0
unfolding entries
entries-eq-zero w zero i maps h = refl
entries-eq-zero w (suc rounds) i maps h = omega (
  arith,
  h i (omega arith) (omega arith),
  entries-eq-zero w rounds (i + 1) maps (λ j lo hi. h j (omega arith) (omega arith)),
)

pub entries-le {ℓ} :
    {B : Type ℓ} (w : B → ℕ) (most rounds i : ℕ) (maps : ℕ → B)
    → ((b : B) → w b ≤ most)
    → entries w rounds i maps ≤ rounds * most
unfolding entries
entries-le w most zero i maps h = omega arith
entries-le w most (suc rounds) i maps h =
    let rest = entries-le w most rounds (i + 1) maps h in let here = h (maps i) in grind arith

module _ {ℓ} {B : Type ℓ} (w : B → ℕ) where
  entries-update_before :
      (rounds i j : ℕ) (maps : ℕ → B) (b : B)
      → j < i
      → entries w rounds i (update maps j b) ≡ entries w rounds i maps
  unfolding entries
  entries-update_before zero i j maps b h = refl
  entries-update_before (suc rounds) i j maps b h =
      ground (arith, entries-update_before rounds (i + 1) j maps b)

  pub entries-update :
      (rounds i j : ℕ) (maps : ℕ → B) (b : B)
      → i ≤ j
      → j < i + rounds
      → entries w rounds i (update maps j b) + w (maps j) ≡ entries w rounds i maps + w b
  unfolding entries
  entries-update zero i j maps b lo hi = absurd (omega arith)
  entries-update (suc rounds) i j maps b lo hi =
      ground (
        arith,
        entries-update rounds (i + 1) j maps b,
        entries-update_before rounds (i + 1) j maps b,
      )

module _ {ℓ κ} {n : ℕ} {K : Type ℓ} {V : Type κ} where
  size-fold :
      (rounds i acc : ℕ) (m : HashMap n K V)
      → acc + entries length rounds i m.maps < 2147483648
      → fold_from (λ total map. size_to_int (int_to_size total + length map)) rounds i acc m
        ≡ acc + entries length rounds i m.maps
  unfolding fold_from entries
  size-fold zero i acc m h = omega arith
  size-fold (suc rounds) i acc m h =
      let positive : ltb acc 2147483648 ≡ true = ground (arith, h) in
      let same : (acc + length (m.maps i)) % 4294967296 ≡ acc + length (m.maps i) =
        omega (arith, h) in
      rw (positive, same)
        (omega (arith, size-fold rounds (i + 1) (acc + length (m.maps i)) m (omega (arith, h))))

  -- The number of entries in all the buckets.
  abbrev pub count : HashMap n K V → ℕ
  count m = entries length n 0 m.maps

  size-entries : (m : HashMap n K V) → count m < 2147483648 → size m ≡ count m
  unfolding size
  size-entries m h =
      let total : fold_from (λ total map. size_to_int (int_to_size total + length map)) n 0 0 m
          ≡ count m =
        size-fold n 0 0 m (omega (arith, h)) ∙ omega arith in
      rw (size, total, lt→ltb (count m) 2147483648 h) refl

  count-apply {ρ} :
      {R : Type ρ} (f : List (K × V) → R × List (K × V)) (i : ℕ) (m : HashMap n K V)
      → i < n
      → count (apply f i m).1 + length (m.maps i) ≡ count m + length (f (m.maps i)).1
  unfolding apply
  count-apply f i m h =
      omega (arith, entries-update length n 0 i m.maps (f (m.maps i)).1 (omega arith) (omega arith))

  map_from_hasher :
      (f : List (K × V) → List (K × V)) (rounds i : ℕ) (m : HashMap n K V)
      → (map_from f rounds i m).hasher ≡ m.hasher
  unfolding map_from
  map_from_hasher f zero i m = refl
  map_from_hasher f (suc rounds) i m = map_from_hasher f rounds (i + 1) _

  map_from_before :
      (f : List (K × V) → List (K × V)) (rounds i j : ℕ) (m : HashMap n K V)
      → j < i
      → (map_from f rounds i m).maps j ≡ m.maps j
  unfolding map_from
  map_from_before f zero i j m h = refl
  map_from_before f (suc rounds) i j m h =
      let miss : (i == j) ≡ false = ground arith in
      map_from_before f rounds (i + 1) j _ (omega arith) ∙ rw miss

  map_from_within :
      (f : List (K × V) → List (K × V)) (rounds i j : ℕ) (m : HashMap n K V)
      → i ≤ j
      → j < i + rounds
      → (map_from f rounds i m).maps j ≡ f (m.maps j)
  unfolding map_from
  map_from_within f zero i j m lo hi = absurd (omega arith)
  map_from_within f (suc rounds) i j m lo hi = elim (Bool-cases (i == j)) [
    | inl hit ↦
        let same : i ≡ j = (==_iff i j).0 hit in
        map_from_before f rounds (i + 1) j _ (omega arith) ∙ rw hit (rw same)
    | inr miss ↦
        let above : i + 1 ≤ j = ground arith in
        map_from_within f rounds (i + 1) j _ above (omega arith) ∙ rw miss
  ]

module _ {ℓ κ} {n : ℕ} {K : Type ℓ} {V : Type κ} ⦃e : Eq K⦄ where
  -- With at least one bucket and fewer than 2^31 - 1 entries, so that an int has the number: `size` is the
  -- number of entries; an `insert` that puts a key in adds one to the size and a `remove` that takes a key
  -- out subtracts one; a refused one leaves it.
  pub size_counts :
      (k : K) (v : V) (m : HashMap n K V)
      → 0 < n
      → count m + 1 < 2147483648
      → (size m ≡ count m)
        × (size (insert k v m).1 ≡ size m + (if is_some (lookup k m) then 0 else 1))
        × (size (remove k m).1 + (if is_some (lookup k m) then 1 else 0) ≡ size m)
  unfolding insert remove lookup
  size_counts k v m h small =
      let here = size-entries m (omega (arith, small)) in
      let inserted = count-apply (insert_in k v) (bucket_number m k) m below in
      let removed = count-apply (remove_in k) (bucket_number m k) m below in
      let more = length-insert_in k v (m.maps (bucket_number m k)) in
      let less = length-remove_in k (m.maps (bucket_number m k)) in
      (
        here,
        size-entries (insert k v m).1 (ground (arith, inserted, more, small))
            ∙ ground (arith, inserted, more, here),
        ap (λ x. x + (if is_some (lookup k m) then 1 else 0))
              (size-entries (remove k m).1 (ground (arith, removed, less, small)))
            ∙ ground (arith, removed, less, here),
      )
    where
      below : bucket_number m k < n
      below = unfold bucket_number in omega arith

  -- With at least one bucket, after `clear` no key is found and the size is 0.
  pub clear_lem :
      (k : K) (m : HashMap n K V) → 0 < n → (lookup k (clear m) ≡ none) × (size (clear m) ≡ 0)
  unfolding clear lookup
  clear_lem k m h = (
    rw (map_from_within (λ b. []) n 0 (bucket_number (clear m) k) m (omega arith) (below _))
        (find-nil k),
    let nothing =
          entries-eq-zero length n 0 (clear m).maps
            (λ j lo hi. ap length (map_from_within (λ b. []) n 0 j m lo hi)) in
        size-entries (clear m) (omega (arith, nothing)) ∙ nothing,
  )
    where
      below : (m' : HashMap n K V) → bucket_number m' k < 0 + n
      below m' = unfold bucket_number in omega arith
