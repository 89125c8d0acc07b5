-- ===== src/Aria.antt =====
-- Serializability of an epoch: what the transactions that `commitList` commits amount to. All of them
-- read the database of the epoch's start; here they are put in an order and run one after another.
mod Conflict
mod Order
pub mod Serial
use myblockchain.Prelude.{
  ℕ, ◌≡◌, ◌≢◌, ◌⊎◌, List, [], ◌∷◌, Bool, true, false, Option, none, some, keep, ltb, if◌then◌else◌,
  String, All,
}
use myblockchain.Transaction.{KvWrite, KvRwSet}
use myblockchain.Reserve.Tables.{same_place, touches}
use myblockchain.Reserve.Batch.{Batch, reads, writes, dependency_in}
use myblockchain.Executor.Decision.{commits}

abbrev pub Entry : Type 0
Entry = ℕ × KvRwSet

abbrev pub In : {A : Type 0} → A → List A → Type 0
In x [] = ⊥
In x (y ∷ ys) = (x ≡ y) ⊎ In x ys

-- Any two entries have different ids.
abbrev pub DistinctIds : Batch → Type 0
DistinctIds [] = Unit
DistinctIds (e ∷ es) = All (λ f. e.0 ≢ f.0) es × DistinctIds es

-- The contents of the tables.
abbrev pub State : Type 0
State = String → String → Option String

abbrev pub apply_writes : List KvWrite → State → State
apply_writes [] s = s
apply_writes (w ∷ ws) s = apply_writes ws (λ tb k.
    if same_place (w.table, w.key) tb k
    then (if w.is_delete then none else some w.value)
    else s tb k)

-- Each transaction, when its turn comes, finds at the places that it reads what the snapshot has there.
-- So running it then gives the read-write set that it has.
abbrev pub IsSerial : State → State → Batch → Type 0
IsSerial snapshot s [] = Unit
IsSerial snapshot s (e ∷ es) =
    All (λ p. s p.0 p.1 ≡ snapshot p.0 p.1) (reads e.1)
    × IsSerial snapshot (apply_writes e.1.writes s) es

-- The serial order: first those that read what a smaller one writes, from the largest id down, then
-- the others, from the smallest id up.
abbrev pub goes_early : Batch → Entry → Bool
goes_early batch e = (dependency_in batch e.1 e.0).raw

abbrev pub goes_before : Batch → Entry → Entry → Bool
goes_before batch e f =
    if goes_early batch e
    then (if goes_early batch f then ltb f.0 e.0 else true)
    else (if goes_early batch f then false else ltb e.0 f.0)

pub place : Batch → Entry → Batch → Batch
place batch e [] = e ∷ []
place batch e (f ∷ fs) = if goes_before batch e f then e ∷ f ∷ fs else f ∷ place batch e fs

pub serial_order : Batch → Batch → Batch
unfolding place
serial_order batch [] = []
serial_order batch (e ∷ es) = place batch e (serial_order batch es)

-- The transactions of the batch that may commit.
abbrev pub committed : Batch → Batch
committed batch = keep (λ e. commits (dependency_in batch e.1 e.0)) batch
