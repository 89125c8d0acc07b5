-- ===== src/Workers/Phases.antt =====
-- The phases of an epoch over all workers: mainRoutine of AriaCoordinator.cpp with AriaWorker.cpp,
-- however their threads take turns.
use myblockchain.Prelude.{
  ℕ, zero, suc, ◌+◌, ◌-◌, ◌≡◌, ◌≢◌, refl, sym, subst, ◌∙◌, inl, inr, true, Option, some, arith,
  Option-cases,
}
use myblockchain.Coordinator.{Workload}
use myblockchain.Workers.{
  AriaGlobalState, WorkerPc, WorkerInstance, CoordinatorPc, System, Step, Reach, is_ready,
  create_worker, deploy_workload, first_ready, set_worker_state, worker, deploy, see_assigned,
  signal_read, all_deployed, broadcast_next, broadcast_end, sync_next, sync_end, at_start, after,
}
use myblockchain.Workers.Rows.{
  Row, Is, worker_step_lem, allowed, allowed-next_row, told_row, broadcast_one_lem,
  allowed-told_row, allowed-broadcast, allowed-sync, allowed-after_broadcast, allowed-after_sync,
  ready_idle, assigned_taken, given_taken, reads_no_commit,
}
use myblockchain.Workers.Invariant.{
  IsPhased, AllFine-update, Fine-moves, AllFine-at, same_worker, no_worker, deploys_broadcast,
  deploys-after_broadcast, deploys-after_sync,
}

first_ready_lem :
    (rounds id i : ℕ) (workers : ℕ → Option WorkerInstance) (w : WorkerInstance)
    → first_ready rounds id workers ≡ some (i, w)
    → (workers i ≡ some w) × (is_ready w.worker_state ≡ true)
unfolding first_ready
first_ready_lem zero id i workers w e = ground arith
first_ready_lem (suc rounds) id i workers w e =
    ground (arith, first_ready_lem rounds (id + 1) i workers w)

create_worker-IsPhased :
    (workload : Workload) (s : System)
    → s.pc ≡ CoordinatorPc.deploying
    → IsPhased s
    → IsPhased (create_worker workload s)
unfolding create_worker
create_worker-IsPhased workload s at p = record {
  positive = omega (arith, p.positive);
  quiet = λ _. p.quiet (rw at refl);
  fine =
      AllFine-update _ _ s.id_nounce s.workers _
        (record {
          above = p.positive;
          below = omega arith;
          row = Row.created;
          is = record { state_is = refl; signal_is = p.quiet (rw at refl); pc_is = refl };
          ok = unfold allowed in ground arith;
        })
        (λ id w other e.
          let f = AllFine-at at p.fine id w e in
          record {
            above = f.above;
            below = omega (arith, f.below);
            row = f.row;
            is = f.is;
            ok = unfold allowed in ground (arith, f.ok);
          });
}

deploy_workload-IsPhased :
    (workload : Workload) (s : System)
    → s.pc ≡ CoordinatorPc.deploying
    → IsPhased s
    → IsPhased (deploy_workload workload s)
unfolding deploy_workload
deploy_workload-IsPhased workload s at p =
    elim (Option-cases (first_ready (s.id_nounce - 1) 1 s.workers)) [
      | inl none_ready ↦ rw (deploy_workload, none_ready) (create_worker-IsPhased workload s at p)
      | inr ((id, w), found) ↦
          let fine = AllFine-at at p.fine in
          let (there, is_free) = first_ready_lem (s.id_nounce - 1) 1 id s.workers w found in
          let f = fine id w there in
          let idle : f.row ≡ Row.idle = ready_idle id f.row w f.is is_free f.ok in
          let i : Is Row.idle w = subst (λ r. Is r w) idle f.is in
          rw (deploy_workload, found)
            (record {
              positive = p.positive;
              quiet = λ _. p.quiet (rw at refl);
              fine =
                  AllFine-update _ _ id s.workers _
                    (record {
                      above = f.above;
                      below = f.below;
                      row = Row.taken;
                      is = record { state_is = refl; signal_is = i.signal_is; pc_is = i.pc_is };
                      ok = unfold allowed in ground arith;
                    })
                    (λ j u other g.
                      Fine-moves _ _ _ _ j u (fine j u g) refl
                        (unfold allowed in ground (arith, (fine j u g).ok)));
            })
    ]

signal_read-IsPhased :
    (id : ℕ) (s : System)
    → s.pc ≡ CoordinatorPc.give_read id
    → IsPhased s
    → IsPhased
        (record (set_worker_state id AriaGlobalState.aria_read s) { pc = CoordinatorPc.deploying })
unfolding set_worker_state
signal_read-IsPhased id s at p = elim (Option-cases (s.workers id)) [
  | inl missing ↦
      rw (set_worker_state, missing)
        (record {
          positive = p.positive;
          quiet = λ _. p.quiet (rw at refl);
          fine = λ j u g.
              let f = AllFine-at at p.fine j u g in
              let other = no_worker s.workers id j u missing g in
              Fine-moves _ _ _ _ j u f refl (unfold allowed in ground (arith, f.ok));
        })
  | inr (w, there) ↦
      let fine = AllFine-at at p.fine in
      let f = fine id w there in
      let taken : f.row ≡ Row.taken = given_taken id f.row f.ok in
      let i : Is Row.taken w = subst (λ r. Is r w) taken f.is in
      rw (set_worker_state, there)
        (record {
          positive = p.positive;
          quiet = λ _. p.quiet (rw at refl);
          fine =
              AllFine-update _ _ id s.workers _
                (record {
                  above = f.above;
                  below = f.below;
                  row = Row.told;
                  is = record { state_is = i.state_is; signal_is = refl; pc_is = i.pc_is };
                  ok = unfold allowed in ground arith;
                })
                (λ j u other g.
                  Fine-moves _ _ _ _ j u (fine j u g) refl
                    (unfold allowed in ground (arith, (fine j u g).ok)));
        })
]

Step-IsPhased : {s t : System} → IsPhased s → Step s t → IsPhased t
Step-IsPhased {s} p (worker id {v} {w} e runs) =
    let f = p.fine id v e in
    let (r, next, i) = worker_step_lem f.row v w f.is runs in
    record {
      positive = p.positive;
      quiet = p.quiet;
      fine =
          AllFine-update _ _ id s.workers w
            (record {
              above = f.above;
              below = f.below;
              row = r;
              is = i;
              ok = allowed-next_row s.pc id f.row r next f.ok;
            })
            (λ j u other g. p.fine j u g);
    }
Step-IsPhased {s} p (deploy workload at) = deploy_workload-IsPhased workload s at p
Step-IsPhased {s} p (see_assigned id {w} at e state) =
    let fine = AllFine-at at p.fine in
    record {
      positive = p.positive;
      quiet = λ _. p.quiet (rw at refl);
      fine = λ j u g. Fine-moves _ _ _ _ j u (fine j u g) refl (
          assigned_taken id j (fine j u g).row
            (λ same.
              (sym (fine j u g).is.state_is
                ∙ (rw (same_worker s.workers id j u w same g e) at state)))
            (fine j u g).ok);
    }
Step-IsPhased {s} p (signal_read id at) = signal_read-IsPhased id s at p
Step-IsPhased {s} p (all_deployed at) =
    let fine = AllFine-at at p.fine in
    record {
      positive = p.positive;
      quiet = λ h. ground arith;
      fine = λ j u g.
          Fine-moves _ _ _ _ j u (fine j u g) refl
            (unfold allowed in ground (arith, (fine j u g).ok));
    }
Step-IsPhased {s} p (broadcast_next state id {w} at e) =
    let fine = AllFine-at at p.fine in
    let f = fine id w e in
    record {
      positive = p.positive;
      quiet = λ h. p.quiet (rw at (deploys_broadcast state id (id + 1) h));
      fine =
          AllFine-update _ _ id s.workers _
            (record {
              above = f.above;
              below = f.below;
              row = told_row state f.row;
              is = broadcast_one_lem state id f.row w f.is f.ok;
              ok = allowed-told_row state id f.row f.ok;
            })
            (λ j u other g.
              Fine-moves _ _ _ _ j u (fine j u g) refl
                (allowed-broadcast state id j (fine j u g).row other (fine j u g).ok));
    }
Step-IsPhased {s} p (broadcast_end state at) =
    let fine = AllFine-at at p.fine in
    record {
      positive = p.positive;
      quiet = λ h. p.quiet (rw at (deploys-after_broadcast state s.id_nounce h));
      fine = λ j u g.
          let f = fine j u g in
          Fine-moves _ _ _ _ j u f refl
            (allowed-after_broadcast state s.id_nounce j f.row f.above f.below f.ok);
    }
Step-IsPhased {s} p (sync_next state id {w} at e pass) =
    let fine = AllFine-at at p.fine in
    record {
      positive = p.positive;
      quiet = λ h. ground arith;
      fine = λ j u g.
          let f = fine j u g in
          Fine-moves _ _ _ _ j u f refl (
            allowed-sync state id j f.row u f.is
              (λ same. (rw (same_worker s.workers id j u w same g e) at pass)) f.ok);
    }
Step-IsPhased {s} p (sync_end state at) =
    let fine = AllFine-at at p.fine in
    record {
      positive = p.positive;
      quiet = λ h. deploys-after_sync state h;
      fine = λ j u g.
          let f = fine j u g in
          Fine-moves _ _ _ _ j u f refl
            (allowed-after_sync state s.id_nounce j f.row f.above f.below f.ok);
    }

pub Reach-IsPhased : {s : System} → Reach s → IsPhased s
Reach-IsPhased at_start = record {
  positive = omega arith;
  quiet = λ _. refl;
  fine = λ id w e. ground arith;
}
Reach-IsPhased (after r step) = Step-IsPhased (Reach-IsPhased r) step

commits_row : (r : Row) (w : WorkerInstance) → Is r w → w.pc ≡ WorkerPc.committing → r ≡ Row.commits
commits_row r w i e = ground arith

reads_row : (r : Row) (w : WorkerInstance) → Is r w → w.pc ≡ WorkerPc.reading → r ≡ Row.reads
reads_row r w i e = ground arith

-- In every state that the threads of the coordinator and the workers can reach by taking turns, while
-- one worker is in `commitList` no worker is in `executeList`.
pub no_commit_while_reading :
    (s : System) (i j : ℕ) (v w : WorkerInstance)
    → Reach s
    → s.workers i ≡ some v
    → s.workers j ≡ some w
    → v.pc ≡ WorkerPc.committing
    → w.pc ≢ WorkerPc.reading
no_commit_while_reading s i j v w r ev ew commits reads =
    let p = Reach-IsPhased r in
    let f = p.fine i v ev in
    let g = p.fine j w ew in
    let h : allowed s.pc i Row.commits ≡ true =
      subst (λ x. allowed s.pc i x ≡ true) (commits_row f.row v f.is commits) f.ok in
    let k : allowed s.pc j Row.reads ≡ true =
      subst (λ x. allowed s.pc j x ≡ true) (reads_row g.row w g.is reads) g.ok in
    ground (arith, reads_no_commit s.pc i j h)
