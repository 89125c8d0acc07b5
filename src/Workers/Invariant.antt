-- ===== src/Workers/Invariant.antt =====
-- What holds of the threads of a server at every moment: the coordinator of AriaCoordinator.cpp and the
-- workers of AriaWorker.cpp.
use myblockchain.Prelude.{
  ℕ, ◌<◌, ◌≡◌, ◌≢◌, sym, subst, ◌∙◌, ap, inl, inr, Bool, true, false, Option, none, some, arith,
  ◌==◌, Bool-cases, ==_iff,
}
use myblockchain.HashMap.{update}
use myblockchain.Workers.{
  WorkerState, AriaGlobalState, WorkerInstance, CoordinatorPc, System, after_broadcast, after_sync,
}
use myblockchain.Workers.Rows.{Row, Is, allowed}

abbrev deploys : CoordinatorPc → Bool
deploys CoordinatorPc.deploying = true
deploys (CoordinatorPc.wait_assigned i) = true
deploys (CoordinatorPc.give_read i) = true
deploys (CoordinatorPc.broadcast AriaGlobalState.start k) = true
deploys _ = false

-- What is known of the worker with an id.
pub record Fine (pc : CoordinatorPc) (nounce id : ℕ) (w : WorkerInstance) : Type 0 where
  pub above : 0 < id
  pub below : id < nounce
  pub row : Row
  pub is : Is row w
  pub ok : allowed pc id row ≡ true

abbrev pub AllFine : CoordinatorPc → ℕ → (ℕ → Option WorkerInstance) → Type 0
AllFine pc nounce workers =
    (id : ℕ) (w : WorkerInstance) → workers id ≡ some w → Fine pc nounce id w

pub record IsPhased (s : System) : Type 0 where
  pub positive : 0 < s.id_nounce
  pub quiet : deploys s.pc ≡ true → s.global_state ≡ AriaGlobalState.start
  pub fine : AllFine s.pc s.id_nounce s.workers

-- One worker changes, and the others are fine under the new place of the coordinator.
pub AllFine-update :
    (pc : CoordinatorPc) (nounce i : ℕ) (workers : ℕ → Option WorkerInstance) (v : WorkerInstance)
    → Fine pc nounce i v
    → ((id : ℕ) (w : WorkerInstance) → id ≢ i → workers id ≡ some w → Fine pc nounce id w)
    → AllFine pc nounce (update workers i (some v))
AllFine-update pc nounce i workers v f rest id w e = elim (Bool-cases (i == id)) [
  | inl same ↦
      let v_is_w : v ≡ w = ap (λ o. elim o [ none ↦ v | some x ↦ x ]) (rw same at e) in
      let f' : Fine pc nounce id v = subst (λ x. Fine pc nounce x v) ((==_iff i id).0 same) f in
      subst (λ x. Fine pc nounce id x) v_is_w f'
  | inr other ↦ rest id w (ground arith) (rw other at e)
]

-- A worker keeps its row when the coordinator moves.
pub Fine-moves :
    (pc pc' : CoordinatorPc) (nounce nounce' id : ℕ) (w : WorkerInstance) (f : Fine pc nounce id w)
    → nounce' ≡ nounce
    → allowed pc' id f.row ≡ true
    → Fine pc' nounce' id w
Fine-moves pc pc' nounce nounce' id w f e h = record {
  above = f.above;
  below = omega (arith, f.below, e);
  row = f.row;
  is = f.is;
  ok = h;
}

pub AllFine-at :
    {pc pc' : CoordinatorPc} {nounce : ℕ} {workers : ℕ → Option WorkerInstance}
    → pc ≡ pc'
    → AllFine pc nounce workers
    → AllFine pc' nounce workers
AllFine-at {nounce} {workers} e h = subst (λ x. AllFine x nounce workers) e h

pub same_worker :
    (workers : ℕ → Option WorkerInstance) (i j : ℕ) (u w : WorkerInstance)
    → j ≡ i
    → workers j ≡ some u
    → workers i ≡ some w
    → w ≡ u
same_worker workers i j u w same g e =
    ap (λ o. elim o [ none ↦ w | some x ↦ x ]) (sym e ∙ ap workers (sym same) ∙ g)

pub no_worker :
    (workers : ℕ → Option WorkerInstance) (i j : ℕ) (u : WorkerInstance)
    → workers i ≡ none
    → workers j ≡ some u
    → j ≢ i
no_worker workers i j u missing g same =
    let clash : none ≡ some u = sym missing ∙ ap workers (sym same) ∙ g in ground (arith, clash)

pub deploys_broadcast :
    (state : AriaGlobalState) (id k : ℕ)
    → deploys (CoordinatorPc.broadcast state k) ≡ true
    → deploys (CoordinatorPc.broadcast state id) ≡ true
deploys_broadcast state id k h = ground arith

pub deploys-after_broadcast :
    (state : AriaGlobalState) (k : ℕ)
    → deploys (after_broadcast state) ≡ true
    → deploys (CoordinatorPc.broadcast state k) ≡ true
deploys-after_broadcast state k h = ground arith

pub deploys-after_sync :
    (state : WorkerState)
    → deploys (CoordinatorPc.broadcast (after_sync state) 1) ≡ true
    → after_sync state ≡ AriaGlobalState.start
deploys-after_sync state h = ground arith
