-- ===== src/Workers/Progress.antt =====
-- That the threads of AriaCoordinator.cpp and AriaWorker.cpp never wait for each other for ever.
use myblockchain.Prelude.{
  ℕ, ◌+◌, ◌-◌, ◌≤◌, ◌<◌, ◌≡◌, ◌≢◌, ◌⊎◌, refl, subst, ◌∙◌, ap, inl, inr, Bool, true, false, Option,
  some, arith, ◌==◌, ltb, leb, Bool-cases, Option-cases, ==_iff, if◌then◌else◌, is_some,
}
use myblockchain.HashMap.{update}
use myblockchain.Coordinator.{Workload}
use myblockchain.Workers.{
  WorkerState, AriaGlobalState, WorkerInstance, CoordinatorPc, System, Step, Reach, worker_step,
  worker_at, may_pass, after_broadcast, after_sync, create_worker, deploy_workload, first_ready,
  set_worker_state, worker, deploy, see_assigned, signal_read, all_deployed, broadcast_next,
  broadcast_end, sync_next, sync_end, at_start, after,
}
use myblockchain.Workers.Rows.{Row, Is, next_row, allowed}
use myblockchain.Workers.Invariant.{AllFine, IsPhased}
use myblockchain.Workers.Phases.{Reach-IsPhased}

-- The ids at which the coordinator can stand.
unfoldable pub is_placed : CoordinatorPc → ℕ → Bool
is_placed CoordinatorPc.deploying n = true
is_placed (CoordinatorPc.wait_assigned id) n = if ltb 0 id then ltb id n else false
is_placed (CoordinatorPc.give_read id) n = true
is_placed (CoordinatorPc.broadcast AriaGlobalState.exit k) n = false
is_placed (CoordinatorPc.broadcast _ k) n = if ltb 0 k then leb k n else false
is_placed (CoordinatorPc.sync WorkerState.finish_read k) n = if ltb 0 k then leb k n else false
is_placed (CoordinatorPc.sync WorkerState.ready k) n = if ltb 0 k then leb k n else false
is_placed _ n = false

abbrev pub AllThere : ℕ → (ℕ → Option WorkerInstance) → Type 0
AllThere n workers = (id : ℕ) → 0 < id → id < n → is_some (workers id) ≡ true

-- Every id that was given has its worker.
pub record IsWhole (s : System) : Type 0 where
  pub placed : is_placed s.pc s.id_nounce ≡ true
  pub there : AllThere s.id_nounce s.workers

AllThere-update :
    (n i : ℕ) (workers : ℕ → Option WorkerInstance) (w : WorkerInstance)
    → ((id : ℕ) → id ≢ i → 0 < id → id < n → is_some (workers id) ≡ true)
    → AllThere n (update workers i (some w))
AllThere-update n i workers w h id a b = elim (Bool-cases (i == id)) [
  | inl same ↦ rw same refl
  | inr other ↦ rw other (h id (ground arith) a b)
]

can_step :
    (r : Row) (w : WorkerInstance)
    → Is r w
    → is_some (next_row r) ≡ true
    → is_some (worker_step w) ≡ true
unfolding worker_step worker_at
can_step r w i h = ground arith

-- A worker that the coordinator waits for at a synchronisation has a step.
sync_runs :
    (state : WorkerState) (k n : ℕ) (r : Row) (w : WorkerInstance)
    → Is r w
    → is_placed (CoordinatorPc.sync state k) n ≡ true
    → allowed (CoordinatorPc.sync state k) k r ≡ true
    → may_pass state w ≡ false
    → is_some (next_row r) ≡ true
unfolding allowed is_placed
sync_runs state k n r w i a h p = ground arith

-- So has one that is waited for at its start, unless it has started.
start_runs :
    (id : ℕ) (r : Row) (w : WorkerInstance)
    → Is r w
    → allowed (CoordinatorPc.wait_assigned id) id r ≡ true
    → w.worker_state ≢ WorkerState.assigned
    → is_some (next_row r) ≡ true
unfolding allowed
start_runs id r w i h e = ground arith

-- The next place of a loop over the workers.
broadcast_placed :
    (state : AriaGlobalState) (k n : ℕ)
    → is_placed (CoordinatorPc.broadcast state k) n ≡ true
    → k < n
    → is_placed (CoordinatorPc.broadcast state (k + 1)) n ≡ true
unfolding is_placed
broadcast_placed state k n h l = ground arith

sync_placed :
    (state : WorkerState) (k n : ℕ)
    → is_placed (CoordinatorPc.sync state k) n ≡ true
    → k < n
    → is_placed (CoordinatorPc.sync state (k + 1)) n ≡ true
unfolding is_placed
sync_placed state k n h l = ground arith

after_broadcast_placed :
    (state : AriaGlobalState) (k n : ℕ)
    → is_placed (CoordinatorPc.broadcast state k) n ≡ true
    → 0 < n
    → is_placed (after_broadcast state) n ≡ true
unfolding is_placed
after_broadcast_placed state k n h l = ground arith

after_sync_placed :
    (state : WorkerState) (n : ℕ)
    → 0 < n
    → is_placed (CoordinatorPc.broadcast (after_sync state) 1) n ≡ true
unfolding is_placed
after_sync_placed state n l = ground arith

deploy_workload-IsWhole :
    (workload : Workload) (s : System)
    → 0 < s.id_nounce
    → IsWhole s
    → IsWhole (deploy_workload workload s)
unfolding deploy_workload create_worker is_placed
deploy_workload-IsWhole workload s positive h =
    elim (Option-cases (first_ready (s.id_nounce - 1) 1 s.workers)) [
      | inl none_ready ↦
          rw (deploy_workload, none_ready)
            (record {
              placed = ground arith;
              there =
                  AllThere-update (s.id_nounce + 1) s.id_nounce s.workers _
                    (λ id other a b. h.there id a (omega arith));
            })
      | inr ((id, w), found) ↦
          rw (deploy_workload, found)
            (record {
              placed = refl;
              there = AllThere-update s.id_nounce id s.workers _ (λ j other a b. h.there j a b);
            })
    ]

set_worker_state-IsWhole :
    (id : ℕ) (s : System)
    → IsWhole s
    → IsWhole
        (record (set_worker_state id AriaGlobalState.aria_read s) { pc = CoordinatorPc.deploying })
unfolding set_worker_state is_placed
set_worker_state-IsWhole id s h = elim (Option-cases (s.workers id)) [
  | inl missing ↦ rw (set_worker_state, missing) (record { placed = refl; there = h.there })
  | inr (w, found) ↦
      rw (set_worker_state, found)
        (record {
          placed = refl;
          there = AllThere-update s.id_nounce id s.workers _ (λ j other a b. h.there j a b);
        })
]

Step-IsWhole : {s t : System} → IsPhased s → IsWhole s → Step s t → IsWhole t
unfolding is_placed
Step-IsWhole {s} p h (worker id {v} {w} e runs) = record {
  placed = h.placed;
  there = AllThere-update s.id_nounce id s.workers w (λ j other a b. h.there j a b);
}
Step-IsWhole {s} p h (deploy workload at) = deploy_workload-IsWhole workload s p.positive h
Step-IsWhole {s} p h (see_assigned id at e state) = record { placed = refl; there = h.there }
Step-IsWhole {s} p h (signal_read id at) = set_worker_state-IsWhole id s h
Step-IsWhole {s} p h (all_deployed at) = record {
  placed = ground (arith, p.positive);
  there = h.there;
}
Step-IsWhole {s} p h (broadcast_next state id {w} at e) = record {
  placed =
      broadcast_placed state id s.id_nounce
        (subst (λ pc. is_placed pc s.id_nounce ≡ true) at h.placed) (p.fine id w e).below;
  there = AllThere-update s.id_nounce id s.workers _ (λ j other a b. h.there j a b);
}
Step-IsWhole {s} p h (broadcast_end state at) = record {
  placed =
      after_broadcast_placed state s.id_nounce s.id_nounce
        (subst (λ pc. is_placed pc s.id_nounce ≡ true) at h.placed) p.positive;
  there = h.there;
}
Step-IsWhole {s} p h (sync_next state id {w} at e pass) = record {
  placed =
      sync_placed state id s.id_nounce (subst (λ pc. is_placed pc s.id_nounce ≡ true) at h.placed)
        (p.fine id w e).below;
  there = h.there;
}
Step-IsWhole {s} p h (sync_end state at) = record {
  placed = after_sync_placed state s.id_nounce p.positive;
  there = h.there;
}

pub Reach-IsWhole : {s : System} → Reach s → IsWhole s
unfolding is_placed
Reach-IsWhole at_start = record { placed = refl; there = λ id a b. absurd (omega arith) }
Reach-IsWhole (after r step) = Step-IsWhole (Reach-IsPhased r) (Reach-IsWhole r) step

-- A worker in a row that has a next one can run.
runs :
    (s : System) (id : ℕ) (w : WorkerInstance) (r : Row)
    → s.workers id ≡ some w
    → Is r w
    → is_some (next_row r) ≡ true
    → (t : System) × Step s t
runs s id w r e i h = elim (Option-cases (worker_step w)) [
  | inl stuck ↦ absurd (ground (arith, can_step r w i h, ap is_some stuck))
  | inr (v, ready) ↦ (_, worker id e ready)
]

found :
    (n id : ℕ) (workers : ℕ → Option WorkerInstance)
    → AllThere n workers
    → 0 < id
    → id < n
    → (w : WorkerInstance) × (workers id ≡ some w)
found n id workers h a b = elim (Option-cases (workers id)) [
  | inl missing ↦ absurd (ground (arith, h id a b, ap is_some missing))
  | inr there ↦ there
]

broadcast_in :
    (state : AriaGlobalState) (k n : ℕ)
    → is_placed (CoordinatorPc.broadcast state k) n ≡ true
    → (0 < k) × (k ≤ n)
unfolding is_placed
broadcast_in state k n h = (ground (arith, h), ground (arith, h))

sync_in :
    (state : WorkerState) (k n : ℕ)
    → is_placed (CoordinatorPc.sync state k) n ≡ true
    → (0 < k) × (k ≤ n)
unfolding is_placed
sync_in state k n h = (ground (arith, h), ground (arith, h))

wait_in : (id n : ℕ) → is_placed (CoordinatorPc.wait_assigned id) n ≡ true → (0 < id) × (id < n)
unfolding is_placed
wait_in id n h = (ground (arith, h), ground (arith, h))

is_assigned :
    (state : WorkerState) → (state ≡ WorkerState.assigned) ⊎ (state ≢ WorkerState.assigned)
is_assigned WorkerState.ready = inr (λ e. ground (arith, e))
is_assigned WorkerState.assigned = inl refl
is_assigned WorkerState.finish_read = inr (λ e. ground (arith, e))
is_assigned WorkerState.finish_commit = inr (λ e. ground (arith, e))
is_assigned WorkerState.exited = inr (λ e. ground (arith, e))

-- The step from a place of the coordinator.
moves :
    (s : System) (pc : CoordinatorPc)
    → s.pc ≡ pc
    → pc ≢ CoordinatorPc.deploying
    → AllFine pc s.id_nounce s.workers
    → is_placed pc s.id_nounce ≡ true
    → AllThere s.id_nounce s.workers
    → (t : System) × Step s t
unfolding is_placed
moves s CoordinatorPc.deploying at away fine placed there = absurd (away refl)
moves s (CoordinatorPc.wait_assigned id) at away fine placed there =
    let (above, below) = wait_in id s.id_nounce placed in
    let (w, e) = found s.id_nounce id s.workers there above below in
    let f = fine id w e in
    elim (is_assigned w.worker_state) [
      | inl started ↦ (_, see_assigned id at e started)
      | inr waits ↦ runs s id w f.row e f.is (start_runs id f.row w f.is f.ok waits)
    ]
moves s (CoordinatorPc.give_read id) at away fine placed there = (_, signal_read id at)
moves s (CoordinatorPc.broadcast state k) at away fine placed there =
    let (above, most) = broadcast_in state k s.id_nounce placed in
    elim (Bool-cases (k == s.id_nounce)) [
      | inl last ↦
          let here = at ∙ ap (CoordinatorPc.broadcast state) ((==_iff k s.id_nounce).0 last) in
          (_, broadcast_end state here)
      | inr more ↦
          let (w, e) = found s.id_nounce k s.workers there above (ground (arith, more, most)) in
          (_, broadcast_next state k at e)
    ]
moves s (CoordinatorPc.sync state k) at away fine placed there =
    let (above, most) = sync_in state k s.id_nounce placed in
    elim (Bool-cases (k == s.id_nounce)) [
      | inl last ↦
          let here = at ∙ ap (CoordinatorPc.sync state) ((==_iff k s.id_nounce).0 last) in
          (_, sync_end state here)
      | inr more ↦
          let (w, e) = found s.id_nounce k s.workers there above (ground (arith, more, most)) in
          let f = fine k w e in
          elim (Bool-cases (may_pass state w)) [
            | inl passes ↦ (_, sync_next state k at e passes)
            | inr waits ↦
                runs s k w f.row e f.is
                  (sync_runs state k s.id_nounce f.row w f.is placed f.ok waits)
          ]
    ]
moves s CoordinatorPc.closing at away fine placed there = absurd (ground (arith, placed))

in_get_workload :
    (pc : CoordinatorPc) → (pc ≡ CoordinatorPc.deploying) ⊎ (pc ≢ CoordinatorPc.deploying)
in_get_workload CoordinatorPc.deploying = inl refl
in_get_workload (CoordinatorPc.wait_assigned id) = inr (λ e. ground (arith, e))
in_get_workload (CoordinatorPc.give_read id) = inr (λ e. ground (arith, e))
in_get_workload (CoordinatorPc.broadcast state id) = inr (λ e. ground (arith, e))
in_get_workload (CoordinatorPc.sync state id) = inr (λ e. ground (arith, e))
in_get_workload CoordinatorPc.closing = inr (λ e. ground (arith, e))

-- In every state that the threads of the coordinator and the workers can reach by taking turns, the
-- coordinator is in getWorkload, where it may wait for transactions from other threads, or some thread has
-- a next step: however they wait for each other's signals and states, they never all do.
pub no_deadlock :
    (s : System) → Reach s → (s.pc ≡ CoordinatorPc.deploying) ⊎ ((t : System) × Step s t)
no_deadlock s r = elim (in_get_workload s.pc) [
  | inl here ↦ inl here
  | inr away ↦
      let p = Reach-IsPhased r in
      let h = Reach-IsWhole r in inr (moves s s.pc refl away p.fine h.placed h.there)
]
