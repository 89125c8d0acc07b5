-- ===== src/Workers/Closing.antt =====
-- The destructor of src/block_server/coordinator/AriaCoordinator.cpp: it signals EXIT to all the
-- workers, waits until each has ended, and removes them, while the workers' threads go on.
pub mod Invariant
pub mod Ends
use myblockchain.Prelude.{ℕ, suc, ◌+◌, ◌-◌, ◌≡◌, true, Option, some}
use myblockchain.HashMap.{update}
use myblockchain.Workers.{
  AriaGlobalState, WorkerInstance, System, is_exited, worker_step, destroy_unused_workers,
}

-- Where the destructor stands; a loop over the workers is at an id.
pub data ClosingPc : Type 0 where
  telling : (id : ℕ) → ClosingPc  -- in the broadcast of EXIT
  joining : (id : ℕ) → ClosingPc  -- in the wait for EXITED
  destroyed : (count : ℕ) → ClosingPc  -- at the end, with the number that is logged

pub record Closing : Type 0 where
  pub workers : ℕ → Option WorkerInstance
  pub id_nounce : ℕ
  pub pc : ClosingPc

-- The thread of `run` takes no more steps when the destructor is called.
abbrev pub close : System → Closing
close s = record { workers = s.workers; id_nounce = s.id_nounce; pc = ClosingPc.telling 1 }

-- destroyUnusedWorkers is called twice; what the second call counts is logged.
abbrev pub destroy : Closing → Closing
destroy s =
    let first = destroy_unused_workers (s.id_nounce - 1) 1 s.workers in
    let second = destroy_unused_workers (s.id_nounce - 1) 1 first.1 in
    record s { workers = second.1; pc = ClosingPc.destroyed second.0 }

-- One step of one thread. Both loops are over all the workers, READY or not.
pub data ClosingStep (s : Closing) : Closing → Type 0 where
  worker_runs :
      (id : ℕ) {v w : WorkerInstance}
      → s.workers id ≡ some v
      → worker_step v ≡ some w
      → ClosingStep s (record s { workers = update s.workers id (some w) })
  tell :
      (id : ℕ) {w : WorkerInstance}
      → s.pc ≡ ClosingPc.telling id
      → s.workers id ≡ some w
      → ClosingStep s (record s {
        workers =
            update s.workers id (some (record w { aria_global_state = AriaGlobalState.exit }));
        pc = ClosingPc.telling (id + 1);
      })
  told_all :
      s.pc ≡ ClosingPc.telling s.id_nounce → ClosingStep s (record s { pc = ClosingPc.joining 1 })
  join :
      (id : ℕ) {w : WorkerInstance}
      → s.pc ≡ ClosingPc.joining id
      → s.workers id ≡ some w
      → is_exited w.worker_state ≡ true
      → ClosingStep s (record s { pc = ClosingPc.joining (id + 1) })
  joined_all : s.pc ≡ ClosingPc.joining s.id_nounce → ClosingStep s (destroy s)

-- A number of steps.
pub data Closes (s : Closing) : ℕ → Closing → Type 0 where
  called : Closes s 0 s
  then_step : {t u : Closing} {n : ℕ} → Closes s n t → ClosingStep t u → Closes s (suc n) u
