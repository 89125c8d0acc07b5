-- ===== src/Workers.antt =====
-- The workers of a server and the phases that the coordinator leads them through:
-- src/block_server/worker/AriaWorker.cpp and the worker management of
-- src/block_server/coordinator/AriaCoordinator.cpp, as threads that take turns.
pub mod Rows
pub mod Invariant
pub mod Phases
pub mod Progress
pub mod Closing
use myblockchain.Prelude.{
  ℕ, zero, suc, ◌+◌, ◌-◌, ◌<◌, ◌≡◌, Bool, true, false, not, ◌&&◌, ◌||◌, Option, none, some,
  if◌then◌else◌, is_some,
}
use myblockchain.HashMap.{update}
use myblockchain.Coordinator.{Workload}

pub data WorkerState : Type 0 where
  ready assigned finish_read finish_commit exited : WorkerState

pub data AriaGlobalState : Type 0 where
  start aria_read aria_commit exit : AriaGlobalState

-- Where the thread of a worker stands in `run`.
pub data WorkerPc : Type 0 where
  begin : WorkerPc  -- before the state ASSIGNED
  wait_read : WorkerPc  -- in the first waitForSignal
  reading : WorkerPc  -- in executeList
  wait_commit : WorkerPc  -- in the second waitForSignal
  committing : WorkerPc  -- in commitList
  stopped : WorkerPc  -- after the return

pub record WorkerInstance : Type 0 where
  pub worker_state : WorkerState
  pub aria_global_state : AriaGlobalState
  pub workload : Option Workload
  pub pc : WorkerPc

-- The next step of a thread, if it does not wait: a wait ends by the signal or by EXIT.
unfoldable pub worker_at : WorkerPc → AriaGlobalState → WorkerInstance → Option WorkerInstance
worker_at WorkerPc.begin _ w =
    some (record w { worker_state = WorkerState.assigned; pc = WorkerPc.wait_read })
worker_at WorkerPc.wait_read AriaGlobalState.aria_read w = some (record w { pc = WorkerPc.reading })
worker_at WorkerPc.wait_read AriaGlobalState.exit w =
    some (record w { worker_state = WorkerState.exited; pc = WorkerPc.stopped })
worker_at WorkerPc.wait_read _ w = none
worker_at WorkerPc.reading _ w =
    some (record w { worker_state = WorkerState.finish_read; pc = WorkerPc.wait_commit })
worker_at WorkerPc.wait_commit AriaGlobalState.aria_commit w =
    some (record w { pc = WorkerPc.committing })
worker_at WorkerPc.wait_commit AriaGlobalState.exit w =
    some (record w { worker_state = WorkerState.exited; pc = WorkerPc.stopped })
worker_at WorkerPc.wait_commit _ w = none
worker_at WorkerPc.committing _ w =
    some (record w { worker_state = WorkerState.ready; pc = WorkerPc.wait_read })
worker_at WorkerPc.stopped _ w = none

unfoldable pub worker_step : WorkerInstance → Option WorkerInstance
worker_step w = worker_at w.pc w.aria_global_state w

abbrev pub is_ready : WorkerState → Bool
is_ready WorkerState.ready = true
is_ready _ = false

-- Where the coordinator stands in `mainRoutine`; a loop over the workers is at an id.
pub data CoordinatorPc : Type 0 where
  deploying : CoordinatorPc  -- in the loop over the workloads
  wait_assigned : (id : ℕ) → CoordinatorPc  -- in createWorker, after the thread is started
  give_read : (id : ℕ) → CoordinatorPc  -- before setWorkerState
  broadcast : (state : AriaGlobalState) (id : ℕ) → CoordinatorPc
  sync : (state : WorkerState) (id : ℕ) → CoordinatorPc
  closing : CoordinatorPc  -- after a broadcast of EXIT; no step leads there

-- The map of the workers by id, in order from 1; `globalState` is the state of the last broadcast.
pub record System : Type 0 where
  pub workers : ℕ → Option WorkerInstance
  pub id_nounce : ℕ
  pub global_state : AriaGlobalState
  pub pc : CoordinatorPc

-- The constructor, whose broadcast meets no worker, and the first lines of `mainRoutine`.
abbrev pub new_system : System
new_system = record {
  workers = λ id. none;
  id_nounce = 1;
  global_state = AriaGlobalState.start;
  pc = CoordinatorPc.broadcast AriaGlobalState.start 1;
}

-- `createWorker` up to the start of the thread; the constructor of AriaWorker sets READY.
unfoldable pub create_worker : Workload → System → System
create_worker workload s = record s {
  workers = update s.workers s.id_nounce (
      some (record {
        worker_state = WorkerState.ready;
        aria_global_state = s.global_state;
        workload = some workload;
        pc = WorkerPc.begin;
      }));
  id_nounce = s.id_nounce + 1;
  pc = CoordinatorPc.wait_assigned s.id_nounce;
}

-- The first worker that is READY, from an id on, in the rounds that are left.
unfoldable pub first_ready : ℕ → ℕ → (ℕ → Option WorkerInstance) → Option (ℕ × WorkerInstance)
first_ready zero id workers = none
first_ready (suc rounds) id workers =
    let later = first_ready rounds (id + 1) workers in
    elim (workers id) [
      | none ↦ later
      | some w ↦ if is_ready w.worker_state then some (id, w) else later
    ]

unfoldable pub deploy_workload : Workload → System → System
deploy_workload workload s = elim (first_ready (s.id_nounce - 1) 1 s.workers) [
  | none ↦ create_worker workload s
  | some (id, w) ↦ record s {
    workers =
        update s.workers id
          (some (record w { workload = some workload; worker_state = WorkerState.assigned }));
    pc = CoordinatorPc.give_read id;
  }
]

-- `setWorkerState` with the signal READ.
unfoldable pub set_worker_state : ℕ → AriaGlobalState → System → System
set_worker_state id state s = elim (s.workers id) [
  | none ↦ s
  | some w ↦ record s {
    workers = update s.workers id (some (record w { aria_global_state = state }));
  }
]

-- START goes to all workers, the other signals to those that are not READY.
abbrev pub only_assigned : AriaGlobalState → Bool
only_assigned AriaGlobalState.start = false
only_assigned _ = true

-- One worker of `broadcastToAllWorker`.
unfoldable pub broadcast_one : AriaGlobalState → WorkerInstance → WorkerInstance
broadcast_one state w =
    if only_assigned state && is_ready w.worker_state
    then w
    else record w { aria_global_state = state }

abbrev pub same_state : WorkerState → WorkerState → Bool
same_state WorkerState.ready WorkerState.ready = true
same_state WorkerState.assigned WorkerState.assigned = true
same_state WorkerState.finish_read WorkerState.finish_read = true
same_state WorkerState.finish_commit WorkerState.finish_commit = true
same_state WorkerState.exited WorkerState.exited = true
same_state _ _ = false

-- The test by which `syncAllWorker` goes past a worker.
abbrev pub may_pass : WorkerState → WorkerInstance → Bool
may_pass state w = is_ready w.worker_state || same_state w.worker_state state

-- What follows a broadcast, and what follows a synchronisation.
abbrev pub after_broadcast : AriaGlobalState → CoordinatorPc
after_broadcast AriaGlobalState.aria_read = CoordinatorPc.sync WorkerState.finish_read 1
after_broadcast AriaGlobalState.aria_commit = CoordinatorPc.sync WorkerState.ready 1
after_broadcast AriaGlobalState.start = CoordinatorPc.deploying
after_broadcast AriaGlobalState.exit = CoordinatorPc.closing

abbrev pub after_sync : WorkerState → AriaGlobalState
after_sync WorkerState.finish_read = AriaGlobalState.aria_commit
after_sync _ = AriaGlobalState.start

abbrev pub is_exited : WorkerState → Bool
is_exited WorkerState.exited = true
is_exited _ = false

-- `destroyUnusedWorkers` of the destructor from an id on, in the rounds that are left: how many have
-- gone, and the map without them.
unfoldable pub destroy_unused_workers :
    ℕ → ℕ → (ℕ → Option WorkerInstance) → ℕ × (ℕ → Option WorkerInstance)
destroy_unused_workers zero id workers = (0, workers)
destroy_unused_workers (suc rounds) id workers =
    let gone : Bool = elim (workers id) [ none ↦ false | some w ↦ is_exited w.worker_state ] in
    let (count, rest) =
      destroy_unused_workers rounds (id + 1) (if gone then update workers id none else workers) in
    (if gone then count + 1 else count, rest)

-- One step of one thread. The wait of getWorkload is for other threads that add transactions, which are
-- not part of the state: `deploy` and `all_deployed` are the two ways in which that call can come back.
pub data Step (s : System) : System → Type 0 where
  worker :
      (id : ℕ) {v w : WorkerInstance}
      → s.workers id ≡ some v
      → worker_step v ≡ some w
      → Step s (record s { workers = update s.workers id (some w) })
  deploy :
      (workload : Workload) → s.pc ≡ CoordinatorPc.deploying → Step s (deploy_workload workload s)
  see_assigned :
      (id : ℕ) {w : WorkerInstance}
      → s.pc ≡ CoordinatorPc.wait_assigned id
      → s.workers id ≡ some w
      → w.worker_state ≡ WorkerState.assigned
      → Step s (record s { pc = CoordinatorPc.give_read id })
  signal_read :
      (id : ℕ)
      → s.pc ≡ CoordinatorPc.give_read id
      → Step s (record (set_worker_state id AriaGlobalState.aria_read s) {
        pc = CoordinatorPc.deploying;
      })
  all_deployed :
      s.pc ≡ CoordinatorPc.deploying
      → Step s (record s {
        global_state = AriaGlobalState.aria_read;
        pc = CoordinatorPc.broadcast AriaGlobalState.aria_read 1;
      })
  broadcast_next :
      (state : AriaGlobalState) (id : ℕ) {w : WorkerInstance}
      → s.pc ≡ CoordinatorPc.broadcast state id
      → s.workers id ≡ some w
      → Step s (record s {
        workers = update s.workers id (some (broadcast_one state w));
        pc = CoordinatorPc.broadcast state (id + 1);
      })
  broadcast_end :
      (state : AriaGlobalState)
      → s.pc ≡ CoordinatorPc.broadcast state s.id_nounce
      → Step s (record s { pc = after_broadcast state })
  sync_next :
      (state : WorkerState) (id : ℕ) {w : WorkerInstance}
      → s.pc ≡ CoordinatorPc.sync state id
      → s.workers id ≡ some w
      → may_pass state w ≡ true
      → Step s (record s { pc = CoordinatorPc.sync state (id + 1) })
  sync_end :
      (state : WorkerState)
      → s.pc ≡ CoordinatorPc.sync state s.id_nounce
      → Step s (record s {
        global_state = after_sync state;
        pc = CoordinatorPc.broadcast (after_sync state) 1;
      })

pub data Reach : System → Type 0 where
  at_start : Reach new_system
  after : {s t : System} → Reach s → Step s t → Reach t
