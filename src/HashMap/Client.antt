-- ===== src/HashMap/Client.antt =====
-- What a client of include/common/hash_map.h can observe over any sequence of calls of its methods.
use myblockchain.Prelude.{
  ℕ, zero, suc, ◌+◌, ◌<◌, ◌≡◌, refl, ap, ◌∙◌, fun_ext, List, [], ◌∷◌, Bool, not, Option, none, some,
  is_some, if◌then◌else◌, Eq, arith,
}
use myblockchain.HashMap.{HashMap, map_from, clear, remove, contains, insert, index, assign, lookup}
use myblockchain.HashMap.Laws.{
  IsValid, remove_lem, contains_lem, insert_lem, index_lem, lookup-assign, update-IsValid,
  remove-IsValid, insert-IsValid, index-IsValid, assign-IsValid, contains-IsValid,
}
use myblockchain.HashMap.Size.{clear_lem}

-- The calls of a client; `index` with the default of the value type.
pub data Call {ℓ κ} (K : Type ℓ) (V : Type κ) : Type (ℓ ⊔ κ) where
  remove_call : K → Call K V
  contains_call : K → Call K V
  insert_call : K → V → Call K V
  index_call : V → K → Call K V
  assign_call : K → V → Call K V
  clear_call : Call K V

-- What a call answers.
pub data Answer {κ} (V : Type κ) : Type κ where
  truth : Bool → Answer V
  value : V → Answer V
  nothing : Answer V

-- The value that is there, or else the given one.
abbrev pub or_else {κ} : {V : Type κ} → V → Option V → V
or_else v none = v
or_else v (some w) = w

module _ {ℓ κ} {n : ℕ} {K : Type ℓ} {V : Type κ} ⦃e : Eq K⦄ where
  -- A call on the table of the program.
  abbrev pub respond : Call K V → HashMap n K V → Answer V × HashMap n K V
  respond (remove_call k) m = let r = remove k m in (truth r.0, r.1)
  respond (contains_call k) m = let r = contains k m in (truth r.0, r.1)
  respond (insert_call k v) m = let r = insert k v m in (truth r.0, r.1)
  respond (index_call d k) m = let r = index d k m in (value r.0, r.1)
  respond (assign_call k v) m = (nothing, assign k v m)
  respond clear_call m = (nothing, clear m)

  abbrev pub run_calls : List (Call K V) → HashMap n K V → List (Answer V) × HashMap n K V
  run_calls [] m = ([], m)
  run_calls (c ∷ cs) m =
      let r = respond c m in let rest = run_calls cs r.1 in (r.0 ∷ rest.0, rest.1)

-- The same on a function from keys to values, with no buckets.
module _ {ℓ κ} {K : Type ℓ} {V : Type κ} ⦃e : Eq K⦄ where
  abbrev pub change : (K → Option V) → K → Option V → K → Option V
  change f k o j = if e.beq k j then o else f j

  abbrev pub respond_function : Call K V → (K → Option V) → Answer V × (K → Option V)
  respond_function (remove_call k) f = (truth (is_some (f k)), change f k none)
  respond_function (contains_call k) f = (truth (is_some (f k)), f)
  respond_function (insert_call k v) f =
      (truth (not (is_some (f k))), change f k (some (or_else v (f k))))
  respond_function (index_call d k) f =
      (value (or_else d (f k)), change f k (some (or_else d (f k))))
  respond_function (assign_call k v) f = (nothing, change f k (some v))
  respond_function clear_call f = (nothing, λ k. none)

  abbrev pub replay : List (Call K V) → (K → Option V) → List (Answer V) × (K → Option V)
  replay [] f = ([], f)
  replay (c ∷ cs) f =
      let r = respond_function c f in let rest = replay cs r.1 in (r.0 ∷ rest.0, rest.1)

module _ {ℓ κ} {n : ℕ} {K : Type ℓ} {V : Type κ} ⦃e : Eq K⦄ where
  abbrev pub view : HashMap n K V → K → Option V
  view m k = lookup k m

  map_from-IsValid :
      (rounds i : ℕ) (m : HashMap n K V) → IsValid m → IsValid (map_from (λ map. []) rounds i m)
  unfolding map_from
  map_from-IsValid zero i m h = h
  map_from-IsValid (suc rounds) i m h =
      map_from-IsValid rounds (i + 1) _ (update-IsValid m i [] h tt)

  respond-IsValid : (c : Call K V) (m : HashMap n K V) → IsValid m → IsValid (respond c m).1
  respond-IsValid (remove_call k) m h = remove-IsValid k m h
  respond-IsValid (contains_call k) m h = contains-IsValid k m h
  respond-IsValid (insert_call k v) m h = insert-IsValid k v m h
  respond-IsValid (index_call d k) m h = index-IsValid d k m h
  respond-IsValid (assign_call k v) m h = assign-IsValid k v m h
  respond-IsValid clear_call m h = unfold clear in map_from-IsValid n 0 m h

  -- One call answers what the function answers, and leaves what it leaves.
  respond_lem :
      (c : Call K V) (m : HashMap n K V)
      → 0 < n
      → IsValid m
      → ((respond c m).0 ≡ (respond_function c (view m)).0)
        × (view (respond c m).1 ≡ (respond_function c (view m)).1)
  respond_lem (remove_call k) m pos h =
      (ap truth (remove_lem k k m h).0, fun_ext λ j. (remove_lem k j m h).1)
  respond_lem (contains_call k) m pos h =
      (ap truth (contains_lem k k m).0, fun_ext λ j. (contains_lem k j m).1)
  respond_lem (insert_call k v) m pos h =
      (ap truth (insert_lem k k v m).0, fun_ext λ j. ground (arith, (insert_lem k j v m).1))
  respond_lem (index_call d k) m pos h = (
    ap value (ground (arith, (index_lem d k k m).0)),
    fun_ext λ j. ground (arith, (index_lem d k j m).0, (index_lem d k j m).1),
  )
  respond_lem (assign_call k v) m pos h = (refl, fun_ext λ j. lookup-assign k j v m)
  respond_lem clear_call m pos h = (refl, fun_ext λ j. (clear_lem j m pos).0)

  -- On a table with at least one bucket whose buckets hold no key twice, any sequence of calls of
  -- `remove`, `contains`, `insert`, `[]` for reading, `[]` for writing and `clear` answers what the
  -- same calls answer on the function from keys to values that the table stands for, and ends in a
  -- table that stands for the function that they end in and again holds no key twice.
  pub run_calls-replay :
      (cs : List (Call K V)) (m : HashMap n K V)
      → 0 < n
      → IsValid m
      → ((run_calls cs m).0 ≡ (replay cs (view m)).0)
        × (view (run_calls cs m).1 ≡ (replay cs (view m)).1)
        × IsValid (run_calls cs m).1
  run_calls-replay [] m pos h = (refl, refl, h)
  run_calls-replay (c ∷ cs) m pos h =
      let (answers, leaves) = respond_lem c m pos h in
      let (rest, end, keeps) = run_calls-replay cs (respond c m).1 pos (respond-IsValid c m h) in
      (
        (λ i. answers i ∷ (rest ∙ ap (λ f. (replay cs f).0) leaves) i),
        end ∙ ap (λ f. (replay cs f).1) leaves,
        keeps,
      )
