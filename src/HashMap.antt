-- ===== src/HashMap.antt =====
-- The concurrent hash table of include/common/hash_map.h: N buckets, each a std::unordered_map
-- behind a lock of its own. Every method locks one bucket at a time, so it is modelled by its
-- effect between the lock and the unlock.
pub mod Bucket
pub mod Laws
pub mod Size
pub mod Client
pub mod Lock
use myblockchain.Prelude.{
  ltb, ℕ, zero, suc, ◌+◌, ◌%◌, List, [], ◌∷◌, Bool, true, false, Option, none, some, ◌==◌,
  if◌then◌else◌, length, Eq,
}
use Bucket.{find, put, remove_in, contains_in, insert_in, index_in}

-- `maps[N]`, indexed by bucket number, and the hash function object.
pub record HashMap {ℓ κ} (n : ℕ) (K : Type ℓ) (V : Type κ) : Type (ℓ ⊔ κ) where
  pub hasher : K → ℕ
  pub maps : ℕ → List (K × V)

abbrev pub update {ℓ} : {A : Type ℓ} → (ℕ → A) → ℕ → A → ℕ → A
update f i a j = if i == j then a else f j

-- From the bits of an int of 32 bits to a size of 64 bits, with the sign, and back.
abbrev pub int_to_size : ℕ → ℕ
int_to_size x = if ltb x 2147483648 then x else x + 18446744069414584320

abbrev pub size_to_int : ℕ → ℕ
size_to_int x = x % 4294967296

module _ {ℓ κ} {n : ℕ} {K : Type ℓ} {V : Type κ} where
  unfoldable pub bucket_number : HashMap n K V → K → ℕ
  bucket_number m key = m.hasher key % n

  -- The bucket `i` is locked, handed to the function, and unlocked.
  unfoldable pub apply {ρ} :
      {R : Type ρ} → (List (K × V) → R × List (K × V)) → ℕ → HashMap n K V → R × HashMap n K V
  apply f i m = ((f (m.maps i)).0, record m { maps = update m.maps i (f (m.maps i)).1 })

  -- `for (i = 0; i < N; i++)` from bucket `i` on, with the rounds that are left.
  pub map_from : (List (K × V) → List (K × V)) → ℕ → ℕ → HashMap n K V → HashMap n K V
  map_from f zero i m = m
  map_from f (suc rounds) i m =
      map_from f rounds (i + 1) (record m { maps = update m.maps i (f (m.maps i)) })

  pub fold_from {ρ} : {T : Type ρ} → (T → List (K × V) → T) → ℕ → ℕ → T → HashMap n K V → T
  fold_from f zero i final_value m = final_value
  fold_from f (suc rounds) i final_value m = fold_from f rounds (i + 1) (f final_value (m.maps i)) m

  -- The total of `fold(0, ...)` is an int, here as its 32 bits.
  pub size : HashMap n K V → ℕ
  size m =
      int_to_size (fold_from (λ total map. size_to_int (int_to_size total + length map)) n 0 0 m)

  pub clear : HashMap n K V → HashMap n K V
  clear m = map_from (λ map. []) n 0 m

-- A new table: every bucket is empty.
unfoldable pub empty {ℓ κ} : {n : ℕ} {K : Type ℓ} {V : Type κ} → (K → ℕ) → HashMap n K V
empty hasher = record { hasher = hasher; maps = λ i. [] }

module _ {ℓ κ} {n : ℕ} {K : Type ℓ} {V : Type κ} ⦃e : Eq K⦄ where
  pub remove : K → HashMap n K V → Bool × HashMap n K V
  remove key m = apply (remove_in key) (bucket_number m key) m

  pub contains : K → HashMap n K V → Bool × HashMap n K V
  contains key m = apply (contains_in key) (bucket_number m key) m

  pub insert : K → V → HashMap n K V → Bool × HashMap n K V
  insert key value m = apply (insert_in key value) (bucket_number m key) m

  -- `m[key]` read: a missing key is inserted with the default value.
  pub index : V → K → HashMap n K V → V × HashMap n K V
  index default key m = apply (index_in default key) (bucket_number m key) m

  -- `m[key] = value`
  unfoldable pub assign : K → V → HashMap n K V → HashMap n K V
  assign key value m = (apply (λ map. (true, put key value map)) (bucket_number m key) m).1

  -- What the table holds under a key, with no change to it.
  pub lookup : K → HashMap n K V → Option V
  lookup key m = find key (m.maps (bucket_number m key))
