-- ===== src/Workers/Rows.antt =====
-- The states that a worker can be in, with its thread and its signal: AriaWorker.cpp under the
-- coordinator's signals.
use myblockchain.Prelude.{
  ℕ, ◌+◌, ◌<◌, ◌≢◌, ◌≡◌, refl, Bool, true, false, Option, none, some, arith, ltb, ◌==◌,
  if◌then◌else◌,
}
use myblockchain.Workers.{
  WorkerState, AriaGlobalState, WorkerPc, WorkerInstance, CoordinatorPc, worker_step, worker_at,
  broadcast_one, may_pass, is_ready, after_broadcast, after_sync,
}

pub data Row : Type 0 where
  idle created taken told reads has_read may_commit commits has_committed : Row

abbrev pub state_of : Row → WorkerState
state_of Row.idle = WorkerState.ready
state_of Row.created = WorkerState.ready
state_of Row.taken = WorkerState.assigned
state_of Row.told = WorkerState.assigned
state_of Row.reads = WorkerState.assigned
state_of Row.has_read = WorkerState.finish_read
state_of Row.may_commit = WorkerState.finish_read
state_of Row.commits = WorkerState.finish_read
state_of Row.has_committed = WorkerState.ready

abbrev pub signal_of : Row → AriaGlobalState
signal_of Row.idle = AriaGlobalState.start
signal_of Row.created = AriaGlobalState.start
signal_of Row.taken = AriaGlobalState.start
signal_of Row.told = AriaGlobalState.aria_read
signal_of Row.reads = AriaGlobalState.aria_read
signal_of Row.has_read = AriaGlobalState.aria_read
signal_of Row.may_commit = AriaGlobalState.aria_commit
signal_of Row.commits = AriaGlobalState.aria_commit
signal_of Row.has_committed = AriaGlobalState.aria_commit

abbrev pub pc_of : Row → WorkerPc
pc_of Row.idle = WorkerPc.wait_read
pc_of Row.created = WorkerPc.begin
pc_of Row.taken = WorkerPc.wait_read
pc_of Row.told = WorkerPc.wait_read
pc_of Row.reads = WorkerPc.reading
pc_of Row.has_read = WorkerPc.wait_commit
pc_of Row.may_commit = WorkerPc.wait_commit
pc_of Row.commits = WorkerPc.committing
pc_of Row.has_committed = WorkerPc.wait_read

pub record Is (r : Row) (w : WorkerInstance) : Type 0 where
  pub state_is : w.worker_state ≡ state_of r
  pub signal_is : w.aria_global_state ≡ signal_of r
  pub pc_is : w.pc ≡ pc_of r

-- The rows that a worker goes through by itself.
abbrev pub next_row : Row → Option Row
next_row Row.created = some Row.taken
next_row Row.told = some Row.reads
next_row Row.reads = some Row.has_read
next_row Row.may_commit = some Row.commits
next_row Row.commits = some Row.has_committed
next_row _ = none

-- A step of a worker in a row leads to the next row.
pub worker_step_lem :
    (r : Row) (v w : WorkerInstance)
    → Is r v
    → worker_step v ≡ some w
    → (r' : Row) × (next_row r ≡ some r') × Is r' w
unfolding worker_step worker_at
worker_step_lem Row.idle v w i e = ground arith
worker_step_lem Row.created v w i e = (
  Row.taken,
  refl,
  record { state_is = ground arith; signal_is = ground arith; pc_is = ground arith },
)
worker_step_lem Row.taken v w i e = ground arith
worker_step_lem Row.told v w i e = (
  Row.reads,
  refl,
  record { state_is = ground arith; signal_is = ground arith; pc_is = ground arith },
)
worker_step_lem Row.reads v w i e = (
  Row.has_read,
  refl,
  record { state_is = ground arith; signal_is = ground arith; pc_is = ground arith },
)
worker_step_lem Row.has_read v w i e = ground arith
worker_step_lem Row.may_commit v w i e = (
  Row.commits,
  refl,
  record { state_is = ground arith; signal_is = ground arith; pc_is = ground arith },
)
worker_step_lem Row.commits v w i e = (
  Row.has_committed,
  refl,
  record { state_is = ground arith; signal_is = ground arith; pc_is = ground arith },
)
worker_step_lem Row.has_committed v w i e = ground arith

abbrev busy : Row → Bool
busy Row.idle = true
busy Row.told = true
busy Row.reads = true
busy Row.has_read = true
busy _ = false

abbrev was_read : Row → Bool
was_read Row.idle = true
was_read Row.has_read = true
was_read _ = false

abbrev in_commit : Row → Bool
in_commit Row.idle = true
in_commit Row.may_commit = true
in_commit Row.commits = true
in_commit Row.has_committed = true
in_commit _ = false

abbrev was_committed : Row → Bool
was_committed Row.idle = true
was_committed Row.has_committed = true
was_committed _ = false

abbrev is_idle : Row → Bool
is_idle Row.idle = true
is_idle _ = false

abbrev is_new : Row → Bool
is_new Row.created = true
is_new Row.taken = true
is_new _ = false

abbrev is_taken : Row → Bool
is_taken Row.taken = true
is_taken _ = false

-- The rows that the worker with an id can be in while the coordinator is at a place.
unfoldable pub allowed : CoordinatorPc → ℕ → Row → Bool
allowed CoordinatorPc.deploying id r = busy r
allowed (CoordinatorPc.wait_assigned i) id r = if id == i then is_new r else busy r
allowed (CoordinatorPc.give_read i) id r = if id == i then is_taken r else busy r
allowed (CoordinatorPc.broadcast AriaGlobalState.start k) id r =
    if ltb id k then is_idle r else was_committed r
allowed (CoordinatorPc.broadcast AriaGlobalState.aria_read k) id r = busy r
allowed (CoordinatorPc.broadcast AriaGlobalState.aria_commit k) id r =
    if ltb id k then in_commit r else was_read r
allowed (CoordinatorPc.sync WorkerState.finish_read k) id r =
    if ltb id k then was_read r else busy r
allowed (CoordinatorPc.sync WorkerState.ready k) id r =
    if ltb id k then was_committed r else in_commit r
allowed _ id r = false

pub allowed-next_row :
    (pc : CoordinatorPc) (id : ℕ) (r r' : Row)
    → next_row r ≡ some r'
    → allowed pc id r ≡ true
    → allowed pc id r' ≡ true
unfolding allowed
allowed-next_row pc id r r' e h = ground arith

-- The row after a broadcast has come by.
abbrev pub told_row : AriaGlobalState → Row → Row
told_row AriaGlobalState.start r = Row.idle
told_row AriaGlobalState.aria_commit Row.has_read = Row.may_commit
told_row _ r = r

pub broadcast_one_lem :
    (state : AriaGlobalState) (id : ℕ) (r : Row) (w : WorkerInstance)
    → Is r w
    → allowed (CoordinatorPc.broadcast state id) id r ≡ true
    → Is (told_row state r) (broadcast_one state w)
unfolding allowed broadcast_one
broadcast_one_lem state id r w i h = record {
  state_is = ground arith;
  signal_is = ground arith;
  pc_is = ground arith;
}

pub allowed-told_row :
    (state : AriaGlobalState) (id : ℕ) (r : Row)
    → allowed (CoordinatorPc.broadcast state id) id r ≡ true
    → allowed (CoordinatorPc.broadcast state (id + 1)) id (told_row state r) ≡ true
unfolding allowed
allowed-told_row state id r h = ground arith

-- No step of a loop matters to the workers at other ids.
pub allowed-broadcast :
    (state : AriaGlobalState) (k id : ℕ) (r : Row)
    → id ≢ k
    → allowed (CoordinatorPc.broadcast state k) id r ≡ true
    → allowed (CoordinatorPc.broadcast state (k + 1)) id r ≡ true
unfolding allowed
allowed-broadcast state k id r d h = ground arith

pub allowed-sync :
    (state : WorkerState) (k id : ℕ) (r : Row) (w : WorkerInstance)
    → Is r w
    → (id ≡ k → may_pass state w ≡ true)
    → allowed (CoordinatorPc.sync state k) id r ≡ true
    → allowed (CoordinatorPc.sync state (k + 1)) id r ≡ true
unfolding allowed
allowed-sync state k id r w i p h = ground arith

pub allowed-after_broadcast :
    (state : AriaGlobalState) (n id : ℕ) (r : Row)
    → 0 < id
    → id < n
    → allowed (CoordinatorPc.broadcast state n) id r ≡ true
    → allowed (after_broadcast state) id r ≡ true
unfolding allowed
allowed-after_broadcast state n id r a b h = ground arith

pub allowed-after_sync :
    (state : WorkerState) (n id : ℕ) (r : Row)
    → 0 < id
    → id < n
    → allowed (CoordinatorPc.sync state n) id r ≡ true
    → allowed (CoordinatorPc.broadcast (after_sync state) 1) id r ≡ true
unfolding allowed
allowed-after_sync state n id r a b h = ground arith

-- A worker that is READY while the coordinator deploys has nothing to do; one that is ASSIGNED while
-- it is waited for has started.
pub ready_idle :
    (id : ℕ) (r : Row) (w : WorkerInstance)
    → Is r w
    → is_ready w.worker_state ≡ true
    → allowed CoordinatorPc.deploying id r ≡ true
    → r ≡ Row.idle
unfolding allowed
ready_idle id r w i e h = ground arith

pub assigned_taken :
    (i id : ℕ) (r : Row)
    → (id ≡ i → state_of r ≡ WorkerState.assigned)
    → allowed (CoordinatorPc.wait_assigned i) id r ≡ true
    → allowed (CoordinatorPc.give_read i) id r ≡ true
unfolding allowed
assigned_taken i id r e h = ground arith

pub given_taken :
    (id : ℕ) (r : Row) → allowed (CoordinatorPc.give_read id) id r ≡ true → r ≡ Row.taken
unfolding allowed
given_taken id r h = ground arith

-- Nothing is read while a commit is on.
pub reads_no_commit :
    (pc : CoordinatorPc) (i j : ℕ)
    → allowed pc i Row.commits ≡ true
    → allowed pc j Row.reads ≡ false
unfolding allowed
reads_no_commit pc i j h = ground arith
