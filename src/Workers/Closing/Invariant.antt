-- ===== src/Workers/Closing/Invariant.antt =====
-- What holds at every moment while the destructor of AriaCoordinator.cpp runs.
use myblockchain.Prelude.{
  ℕ, zero, suc, ◌+◌, ◌-◌, ◌≤◌, ◌<◌, ◌≡◌, ◌≢◌, refl, sym, subst, ◌∙◌, ap, inl, inr, Bool, true,
  false, Option, none, some, arith, ◌==◌, ltb, leb, ◌&&◌, Bool-cases, Option-cases, ==_iff,
  if◌then◌else◌, is_some,
}
use myblockchain.HashMap.{update}
use myblockchain.Workers.{
  AriaGlobalState, WorkerPc, WorkerInstance, is_exited, worker_step, worker_at,
  destroy_unused_workers,
}
use myblockchain.Workers.Closing.{ClosingPc}

abbrev pub is_stopped : WorkerPc → Bool
is_stopped WorkerPc.stopped = true
is_stopped _ = false

-- The state EXITED is set just before the thread returns.
abbrev pub IsSound : WorkerInstance → Type 0
IsSound w = is_exited w.worker_state ≡ is_stopped w.pc

worker_step-IsSound :
    (v w : WorkerInstance)
    → IsSound v
    → worker_step v ≡ some w
    → IsSound w × (w.aria_global_state ≡ v.aria_global_state)
unfolding worker_step worker_at
worker_step-IsSound v w h e = ground arith

-- A worker that is told EXIT has ended or can run.
pub told_runs :
    (w : WorkerInstance)
    → IsSound w
    → w.aria_global_state ≡ AriaGlobalState.exit
    → is_exited w.worker_state ≡ false
    → (v : WorkerInstance) × (worker_step w ≡ some v)
unfolding worker_step worker_at
told_runs w h e f = elim (Option-cases (worker_step w)) [
  | inl stuck ↦ absurd (ground (arith, stuck))
  | inr runs ↦ runs
]

-- A worker that has ended takes no step.
exited_stops :
    (v w : WorkerInstance) → IsSound v → worker_step v ≡ some w → is_exited v.worker_state ≡ false
unfolding worker_step worker_at
exited_stops v w h e = ground arith

-- The id at which the destructor stands.
abbrev pub Stands : ClosingPc → ℕ → Type 0
Stands (ClosingPc.telling k) n = (0 < k) × (k ≤ n)
Stands (ClosingPc.joining k) n = (0 < k) × (k ≤ n)
Stands (ClosingPc.destroyed count) n = count ≡ 0

abbrev pub is_told : ClosingPc → ℕ → Bool
is_told (ClosingPc.telling k) id = ltb id k
is_told (ClosingPc.joining k) id = true
is_told (ClosingPc.destroyed count) id = true

abbrev pub is_joined : ClosingPc → ℕ → Bool
is_joined (ClosingPc.telling k) id = false
is_joined (ClosingPc.joining k) id = ltb id k
is_joined (ClosingPc.destroyed count) id = true

-- After the removal no worker is left; before, every id that was given has its worker.
abbrev pub Peopled : ClosingPc → ℕ → (ℕ → Option WorkerInstance) → Type 0
Peopled (ClosingPc.telling k) n workers = (id : ℕ) → 0 < id → id < n → is_some (workers id) ≡ true
Peopled (ClosingPc.joining k) n workers = (id : ℕ) → 0 < id → id < n → is_some (workers id) ≡ true
Peopled (ClosingPc.destroyed count) n workers = (id : ℕ) → workers id ≡ none

-- One worker under the destructor.
pub record IsLed (pc : ClosingPc) (n id : ℕ) (w : WorkerInstance) : Type 0 where
  pub above : 0 < id
  pub below : id < n
  pub sound : IsSound w
  pub told : is_told pc id ≡ true → w.aria_global_state ≡ AriaGlobalState.exit
  pub joined : is_joined pc id ≡ true → is_exited w.worker_state ≡ true

pub record IsClosing (pc : ClosingPc) (n : ℕ) (workers : ℕ → Option WorkerInstance) : Type 0 where
  pub stands : Stands pc n
  pub peopled : Peopled pc n workers
  pub led : (id : ℕ) (w : WorkerInstance) → workers id ≡ some w → IsLed pc n id w

IsLed-update :
    (pc pc' : ClosingPc) (n i : ℕ) (workers : ℕ → Option WorkerInstance) (v : WorkerInstance)
    → IsLed pc' n i v
    → ((id : ℕ) (w : WorkerInstance) → id ≢ i → IsLed pc n id w → IsLed pc' n id w)
    → ((id : ℕ) (w : WorkerInstance) → workers id ≡ some w → IsLed pc n id w)
    → (id : ℕ) (w : WorkerInstance) → update workers i (some v) id ≡ some w
    → IsLed pc' n id w
IsLed-update pc pc' n i workers v f moves rest id w e = elim (Bool-cases (i == id)) [
  | inl same ↦
      let v_is_w : v ≡ w = ap (λ o. elim o [ none ↦ v | some x ↦ x ]) (rw same at e) in
      subst (IsLed pc' n id) v_is_w (subst (λ x. IsLed pc' n x v) ((==_iff i id).0 same) f)
  | inr other ↦ moves id w (ground arith) (rest id w (rw other at e))
]

Peopled-update :
    (pc : ClosingPc) (n i : ℕ) (workers : ℕ → Option WorkerInstance) (v w : WorkerInstance)
    → workers i ≡ some v
    → Peopled pc n workers
    → Peopled pc n (update workers i (some w))
Peopled-update (ClosingPc.telling k) n i workers v w e h = λ id a b. ground (arith, h id a b)
Peopled-update (ClosingPc.joining k) n i workers v w e h = λ id a b. ground (arith, h id a b)
Peopled-update (ClosingPc.destroyed count) n i workers v w e h =
    let clash : none ≡ some v = sym (h i) ∙ e in absurd (ground (arith, clash))

pub worker_runs-IsClosing :
    (pc : ClosingPc) (n id : ℕ) (workers : ℕ → Option WorkerInstance) (v w : WorkerInstance)
    → workers id ≡ some v
    → worker_step v ≡ some w
    → IsClosing pc n workers
    → IsClosing pc n (update workers id (some w))
worker_runs-IsClosing pc n id workers v w e runs c =
    let l = c.led id v e in
    let (sound, same) = worker_step-IsSound v w l.sound runs in
    record {
      stands = c.stands;
      peopled = Peopled-update pc n id workers v w e c.peopled;
      led =
          IsLed-update pc pc n id workers w
            (record {
              above = l.above;
              below = l.below;
              sound = sound;
              told = λ h. same ∙ l.told h;
              joined = λ h. absurd (ground (arith, l.joined h, exited_stops v w l.sound runs));
            })
            (λ j u other a. a) c.led;
    }

pub tell-IsClosing :
    (n id : ℕ) (workers : ℕ → Option WorkerInstance) (w : WorkerInstance)
    → workers id ≡ some w
    → IsClosing (ClosingPc.telling id) n workers
    → IsClosing
        (ClosingPc.telling (id + 1))
        n
        (update workers id (some (record w { aria_global_state = AriaGlobalState.exit })))
tell-IsClosing n id workers w e c =
    let l = c.led id w e in
    let told_w = record w { aria_global_state = AriaGlobalState.exit } in
    record {
      stands = (omega arith, omega (arith, l.below));
      peopled = Peopled-update (ClosingPc.telling id) n id workers w told_w e c.peopled;
      led =
          IsLed-update (ClosingPc.telling id) (ClosingPc.telling (id + 1)) n id workers told_w
            (record {
              above = l.above;
              below = l.below;
              sound = l.sound;
              told = λ h. refl;
              joined = λ h. absurd (ground (arith, h));
            })
            (λ j u other a. record {
              above = a.above;
              below = a.below;
              sound = a.sound;
              told = λ h. a.told (ground (arith, h, other));
              joined = λ h. absurd (ground (arith, h));
            })
            c.led;
    }

pub told_all-IsClosing :
    (n : ℕ) (workers : ℕ → Option WorkerInstance)
    → IsClosing (ClosingPc.telling n) n workers
    → IsClosing (ClosingPc.joining 1) n workers
told_all-IsClosing n workers c = record {
  stands = (omega arith, omega (arith, c.stands));
  peopled = c.peopled;
  led = λ id w e.
      let l = c.led id w e in
      record {
        above = l.above;
        below = l.below;
        sound = l.sound;
        told = λ h. l.told (ground (arith, l.below));
        joined = λ h. absurd (ground (arith, h, l.above));
      };
}

pub join-IsClosing :
    (n id : ℕ) (workers : ℕ → Option WorkerInstance) (w : WorkerInstance)
    → workers id ≡ some w
    → is_exited w.worker_state ≡ true
    → IsClosing (ClosingPc.joining id) n workers
    → IsClosing (ClosingPc.joining (id + 1)) n workers
join-IsClosing n id workers w e gone c = record {
  stands = (omega arith, omega (arith, (c.led id w e).below));
  peopled = c.peopled;
  led = λ j u f.
      let l = c.led j u f in
      record {
        above = l.above;
        below = l.below;
        sound = l.sound;
        told = l.told;
        joined = λ h. elim (Bool-cases (j == id)) [
          | inl same ↦
              let u_is_w : some w ≡ some u =
                sym e ∙ (ap workers (sym ((==_iff j id).0 same)) ∙ f) in
              ground (arith, u_is_w, gone)
          | inr other ↦ l.joined (ground (arith, h, other))
        ];
      };
}

destroy_one :
    (rounds i : ℕ) (workers : ℕ → Option WorkerInstance) (w : WorkerInstance)
    → workers i ≡ some w
    → is_exited w.worker_state ≡ true
    → destroy_unused_workers (suc rounds) i workers ≡ (
        let rest = destroy_unused_workers rounds (i + 1) (update workers i none) in
        (rest.0 + 1, rest.1))
unfolding destroy_unused_workers
destroy_one rounds i workers w e h =
    let gone : elim (workers i) [ none ↦ false | some v ↦ is_exited v.worker_state ] ≡ true =
      rw e h in
    rw gone refl

-- Ids from `i` on, in the rounds that are left, whose workers have all ended.
destroy_unused_workers_lem :
    (rounds i : ℕ) (workers : ℕ → Option WorkerInstance)
    → ((id : ℕ)
        → i ≤ id
        → id < i + rounds
        → (w : WorkerInstance) × (workers id ≡ some w) × (is_exited w.worker_state ≡ true))
    → ((destroy_unused_workers rounds i workers).0 ≡ rounds)
      × ((j : ℕ)
          → (destroy_unused_workers rounds i workers).1 j
            ≡ (if leb i j && ltb j (i + rounds) then none else workers j))
unfolding destroy_unused_workers
destroy_unused_workers_lem zero i workers h = (refl, λ j. ground arith)
destroy_unused_workers_lem (suc rounds) i workers h =
    let (w, e, gone) = h i (omega arith) (omega arith) in
    let (count, rest) = destroy_unused_workers_lem rounds (i + 1) (update workers i none) (λ id a b.
      let (v, f, left) = h id (omega arith) (omega arith) in (v, ground (arith, f), left)) in
    let one = destroy_one rounds i workers w e gone in
    (ap (λ r. r.0) one ∙ omega (arith, count), λ j. ap (λ r. r.1 j) one ∙ (rest j ∙ ground arith))

destroy_nobody :
    (rounds i : ℕ) (workers : ℕ → Option WorkerInstance)
    → ((id : ℕ) → workers id ≡ none)
    → destroy_unused_workers rounds i workers ≡ (0, workers)
unfolding destroy_unused_workers
destroy_nobody zero i workers h = refl
destroy_nobody (suc rounds) i workers h =
    let stays : elim (workers i) [ none ↦ false | some v ↦ is_exited v.worker_state ] ≡ false =
      rw (h i) refl in
    rw stays (rw (destroy_nobody rounds (i + 1) workers h) refl)

pub joined_all-IsClosing :
    (n : ℕ) (workers : ℕ → Option WorkerInstance)
    → IsClosing (ClosingPc.joining n) n workers
    → let first = destroy_unused_workers (n - 1) 1 workers in
      let second = destroy_unused_workers (n - 1) 1 first.1 in
      IsClosing (ClosingPc.destroyed second.0) n second.1
joined_all-IsClosing n workers c =
    let (count, rest) = destroy_unused_workers_lem (n - 1) 1 workers (λ id a b.
      elim (Option-cases (workers id)) [
        | inl missing ↦
            absurd (ground (arith, c.peopled id a (omega (arith, b)), ap is_some missing))
        | inr (w, e) ↦ (w, e, (c.led id w e).joined (ground (arith, b)))
      ]) in
    let nobody : (id : ℕ) → (destroy_unused_workers (n - 1) 1 workers).1 id ≡ none = λ id.
      rest id ∙ elim (Option-cases (workers id)) [
        | inl missing ↦ ground (arith, missing)
        | inr (w, e) ↦ let l = c.led id w e in ground (arith, l.above, l.below)
      ] in
    let again = destroy_nobody (n - 1) 1 _ nobody in
    let nobody' : (id : ℕ)
        → (destroy_unused_workers (n - 1) 1 (destroy_unused_workers (n - 1) 1 workers).1).1 id
          ≡ none =
      λ id. ap (λ r. r.1 id) again ∙ nobody id in
    record {
      stands = ap (λ r. r.0) again;
      peopled = nobody';
      led = λ id w e.
          let clash : none ≡ some w = sym (nobody' id) ∙ e in absurd (ground (arith, clash));
    }
