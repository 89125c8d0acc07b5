-- ===== src/Tests/Threads.antt =====
-- A run of two workers up to the commit of the first, and the end of a worker that has not started.
use myblockchain.HashMap.{update}
use myblockchain.Prelude.{◌⊎◌, ℕ, ◌*◌, ◌≤◌, ◌≡◌, ◌≢◌, ◌⊎◌, refl, [], none, some}
use myblockchain.Coordinator.{Workload}
use myblockchain.Workers.{
  WorkerState, AriaGlobalState, WorkerPc, CoordinatorPc, System, new_system, Step, create_worker,
  deploy_workload, first_ready, set_worker_state, broadcast_one, worker_step, worker_at, worker,
  deploy, see_assigned, signal_read, all_deployed, broadcast_next, broadcast_end, sync_next,
  sync_end, at_start, after,
}
use myblockchain.Workers.Phases.{no_commit_while_reading}
use myblockchain.Workers.Progress.{no_deadlock}
use myblockchain.Workers.Closing.{ClosingPc, Closing, ClosingStep, tell, called, then_step}
use myblockchain.Workers.Closing.Ends.{destructor_ends}

abbrev no_work : Workload
no_work = record { epoch = 4; transaction_list = [] }

no_commit_while_reading_example : WorkerPc.wait_commit ≢ WorkerPc.reading
unfolding create_worker deploy_workload first_ready set_worker_state broadcast_one worker_step
    worker_at
no_commit_while_reading_example =
    let r0 = after at_start (broadcast_end AriaGlobalState.start refl) in
    let r1 = after r0 (deploy no_work refl) in
    let r2 = after r1 (worker 1 refl refl) in
    let r3 = after r2 (see_assigned 1 refl refl refl) in
    let r4 = after r3 (signal_read 1 refl) in
    let r5 = after r4 (deploy no_work refl) in
    let r6 = after r5 (worker 2 refl refl) in
    let r7 = after r6 (see_assigned 2 refl refl refl) in
    let r8 = after r7 (signal_read 2 refl) in
    let r9 = after r8 (all_deployed refl) in
    let r10 = after r9 (worker 1 refl refl) in
    let r11 = after r10 (worker 2 refl refl) in
    let r12 = after r11 (broadcast_next AriaGlobalState.aria_read 1 refl refl) in
    let r13 = after r12 (broadcast_next AriaGlobalState.aria_read 2 refl refl) in
    let r14 = after r13 (broadcast_end AriaGlobalState.aria_read refl) in
    let r15 = after r14 (worker 1 refl refl) in
    let r16 = after r15 (sync_next WorkerState.finish_read 1 refl refl refl) in
    let r17 = after r16 (worker 2 refl refl) in
    let r18 = after r17 (sync_next WorkerState.finish_read 2 refl refl refl) in
    let r19 = after r18 (sync_end WorkerState.finish_read refl) in
    let r20 = after r19 (broadcast_next AriaGlobalState.aria_commit 1 refl refl) in
    let r21 = after r20 (worker 1 refl refl) in no_commit_while_reading _ 1 2 _ _ r21 refl refl refl

-- The coordinator waits for its first worker, which has not started.
abbrev waiting : System
waiting = deploy_workload no_work (record new_system { pc = CoordinatorPc.deploying })

no_deadlock_example : (waiting.pc ≡ CoordinatorPc.deploying) ⊎ ((t : System) × Step waiting t)
no_deadlock_example =
    no_deadlock waiting
      (after (after at_start (broadcast_end AriaGlobalState.start refl)) (deploy no_work refl))

-- The destructor has told the worker to end.
abbrev told_waiting : Closing
told_waiting = record {
  workers = update waiting.workers 1 (
      some (record {
        worker_state = WorkerState.ready;
        aria_global_state = AriaGlobalState.exit;
        workload = some no_work;
        pc = WorkerPc.begin;
      }));
  id_nounce = waiting.id_nounce;
  pc = ClosingPc.telling 2;
}

destructor_ends_example :
    (1 ≤ 6 * waiting.id_nounce)
    × (((u : Closing) × ClosingStep told_waiting u)
        ⊎ ((ClosingPc.telling 2 ≡ ClosingPc.destroyed 0)
            × ((id : ℕ) → told_waiting.workers id ≡ none)))
unfolding deploy_workload create_worker first_ready
destructor_ends_example =
    destructor_ends waiting
      (after (after at_start (broadcast_end AriaGlobalState.start refl)) (deploy no_work refl)) 1
      told_waiting (then_step called (tell 1 refl refl))
