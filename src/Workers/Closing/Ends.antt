-- ===== src/Workers/Closing/Ends.antt =====
-- That the destructor of AriaCoordinator.cpp ends, whatever turns the threads take.
use myblockchain.Prelude.{
  ℕ, ◌+◌, ◌-◌, ◌*◌, ◌≤◌, ◌<◌, ◌≡◌, ◌⊎◌, refl, sym, subst, ◌∙◌, ap, inl, inr, Option, none, some,
  arith, ◌==◌, Bool-cases, Option-cases, ==_iff, is_some,
}
use myblockchain.HashMap.{update}
use myblockchain.HashMap.Size.{entries, entries-update, entries-le}
use myblockchain.Workers.{
  AriaGlobalState, WorkerPc, WorkerInstance, System, Reach, is_exited, worker_step, worker_at,
}
use myblockchain.Workers.Closing.{
  ClosingPc, Closing, close, ClosingStep, worker_runs, tell, told_all, join, joined_all, Closes,
  called, then_step,
}
use myblockchain.Workers.Closing.Invariant.{
  IsSound, IsClosing, told_runs, worker_runs-IsClosing, tell-IsClosing, told_all-IsClosing,
  join-IsClosing, joined_all-IsClosing,
}
use myblockchain.Workers.Rows.{Row, Is}
use myblockchain.Workers.Phases.{Reach-IsPhased}
use myblockchain.Workers.Progress.{Reach-IsWhole}

-- How many steps a worker can still take by itself.
abbrev rank_at : AriaGlobalState → WorkerPc → ℕ
rank_at s WorkerPc.stopped = 0
rank_at AriaGlobalState.exit WorkerPc.begin = 2
rank_at AriaGlobalState.exit WorkerPc.wait_read = 1
rank_at AriaGlobalState.exit WorkerPc.reading = 2
rank_at AriaGlobalState.exit WorkerPc.wait_commit = 1
rank_at AriaGlobalState.exit WorkerPc.committing = 2
rank_at AriaGlobalState.aria_read WorkerPc.begin = 3
rank_at AriaGlobalState.aria_read WorkerPc.wait_read = 2
rank_at AriaGlobalState.aria_read WorkerPc.reading = 1
rank_at AriaGlobalState.aria_read WorkerPc.wait_commit = 0
rank_at AriaGlobalState.aria_read WorkerPc.committing = 3
rank_at AriaGlobalState.aria_commit WorkerPc.begin = 1
rank_at AriaGlobalState.aria_commit WorkerPc.wait_read = 0
rank_at AriaGlobalState.aria_commit WorkerPc.reading = 3
rank_at AriaGlobalState.aria_commit WorkerPc.wait_commit = 2
rank_at AriaGlobalState.aria_commit WorkerPc.committing = 1
rank_at AriaGlobalState.start WorkerPc.begin = 1
rank_at AriaGlobalState.start WorkerPc.wait_read = 0
rank_at AriaGlobalState.start WorkerPc.reading = 1
rank_at AriaGlobalState.start WorkerPc.wait_commit = 0
rank_at AriaGlobalState.start WorkerPc.committing = 1

rank : Option WorkerInstance → ℕ
rank none = 0
rank (some w) = rank_at w.aria_global_state w.pc

rank_bound : (o : Option WorkerInstance) → rank o ≤ 3
unfolding rank
rank_bound o = ground arith

worker_step-rank :
    (v w : WorkerInstance) → IsSound v → worker_step v ≡ some w → rank (some w) + 1 ≤ rank (some v)
unfolding rank worker_step worker_at
worker_step-rank v w h e = ground arith

tell-rank :
    (w : WorkerInstance)
    → rank (some (record w { aria_global_state = AriaGlobalState.exit })) ≤ rank (some w) + 1
unfolding rank
tell-rank w = ground arith

abbrev ranks : ℕ → (ℕ → Option WorkerInstance) → ℕ
ranks n workers = entries rank n 0 workers

ranks-update :
    (n id : ℕ) (workers : ℕ → Option WorkerInstance) (v w : WorkerInstance)
    → workers id ≡ some v
    → id < n
    → ranks n (update workers id (some w)) + rank (some v) ≡ ranks n workers + rank (some w)
ranks-update n id workers v w e h =
    omega
      (arith, entries-update rank n 0 id workers (some w) (omega arith) (omega arith), ap rank e)

-- How many steps there can still be.
abbrev left_at : ClosingPc → ℕ → ℕ → ℕ
left_at (ClosingPc.telling k) n r = r + 2 * (n - k) + n + 2
left_at (ClosingPc.joining k) n r = r + (n - k) + 1
left_at (ClosingPc.destroyed count) n r = 0

abbrev left : Closing → ℕ
left s = left_at s.pc s.id_nounce (ranks s.id_nounce s.workers)

left-telling :
    (n k : ℕ) (workers : ℕ → Option WorkerInstance) (w : WorkerInstance)
    → workers k ≡ some w
    → k < n
    → left_at (ClosingPc.telling (k + 1)) n (
          ranks n (update workers k (some (record w { aria_global_state = AriaGlobalState.exit }))))
        + 1
      ≤ left_at (ClosingPc.telling k) n (ranks n workers)
left-telling n k workers w e h = omega (
  arith,
  ranks-update n k workers w (record w { aria_global_state = AriaGlobalState.exit }) e h,
  tell-rank w,
)

-- A step keeps what holds, and one step less is left.
abbrev Keeps : Closing → Closing → Type 0
Keeps s t =
    IsClosing t.pc t.id_nounce t.workers × (t.id_nounce ≡ s.id_nounce) × (left t + 1 ≤ left s)

at_pc :
    (s : Closing) (pc : ClosingPc)
    → s.pc ≡ pc
    → IsClosing s.pc s.id_nounce s.workers
    → IsClosing pc s.id_nounce s.workers
at_pc s pc e c = subst (λ x. IsClosing x s.id_nounce s.workers) e c

worker_runs-left :
    (pc : ClosingPc) (n id : ℕ) (workers : ℕ → Option WorkerInstance) (v w : WorkerInstance)
    → IsClosing pc n workers
    → workers id ≡ some v
    → worker_step v ≡ some w
    → left_at pc n (ranks n (update workers id (some w))) + 1 ≤ left_at pc n (ranks n workers)
worker_runs-left (ClosingPc.telling k) n id workers v w c e runs =
    let l = c.led id v e in
    omega (arith, ranks-update n id workers v w e l.below, worker_step-rank v w l.sound runs)
worker_runs-left (ClosingPc.joining k) n id workers v w c e runs =
    let l = c.led id v e in
    omega (arith, ranks-update n id workers v w e l.below, worker_step-rank v w l.sound runs)
worker_runs-left (ClosingPc.destroyed count) n id workers v w c e runs =
    let clash : none ≡ some v = sym (c.peopled id) ∙ e in absurd (ground (arith, clash))

ClosingStep-Keeps :
    {s t : Closing} → IsClosing s.pc s.id_nounce s.workers → ClosingStep s t → Keeps s t
ClosingStep-Keeps {s} c (worker_runs id {v} {w} e runs) = (
  worker_runs-IsClosing s.pc s.id_nounce id s.workers v w e runs c,
  refl,
  worker_runs-left s.pc s.id_nounce id s.workers v w c e runs,
)
ClosingStep-Keeps {s} c (tell id {w} place e) =
    let here = at_pc s (ClosingPc.telling id) place c in
    (
      tell-IsClosing s.id_nounce id s.workers w e here,
      refl,
      rw place (left-telling s.id_nounce id s.workers w e (here.led id w e).below),
    )
ClosingStep-Keeps {s} c (told_all place) =
    let here = at_pc s (ClosingPc.telling s.id_nounce) place c in
    (told_all-IsClosing s.id_nounce s.workers here, refl, rw place (omega (arith, here.stands)))
ClosingStep-Keeps {s} c (join id {w} place e gone) =
    let here = at_pc s (ClosingPc.joining id) place c in
    (
      join-IsClosing s.id_nounce id s.workers w e gone here,
      refl,
      rw place (omega (arith, (here.led id w e).below)),
    )
ClosingStep-Keeps {s} c (joined_all place) =
    let here = at_pc s (ClosingPc.joining s.id_nounce) place c in
    (joined_all-IsClosing s.id_nounce s.workers here, refl, rw place (omega arith))

closing_moves :
    (s : Closing) (pc : ClosingPc)
    → s.pc ≡ pc
    → IsClosing pc s.id_nounce s.workers
    → ((count : ℕ) × (pc ≡ ClosingPc.destroyed count)) ⊎ ((t : Closing) × ClosingStep s t)
closing_moves s (ClosingPc.telling k) place c = elim (Bool-cases (k == s.id_nounce)) [
  | inl last ↦
      let here = place ∙ ap ClosingPc.telling ((==_iff k s.id_nounce).0 last) in
      inr (_, told_all here)
  | inr more ↦ elim (Option-cases (s.workers k)) [
    | inl missing ↦
        let there = c.peopled k c.stands.0 (ground (arith, more, c.stands.1)) in
        absurd (ground (arith, there, ap is_some missing))
    | inr (w, e) ↦ inr (_, tell k place e)
  ]
]
closing_moves s (ClosingPc.joining k) place c = elim (Bool-cases (k == s.id_nounce)) [
  | inl last ↦
      let here = place ∙ ap ClosingPc.joining ((==_iff k s.id_nounce).0 last) in
      inr (_, joined_all here)
  | inr more ↦ elim (Option-cases (s.workers k)) [
    | inl missing ↦
        let there = c.peopled k c.stands.0 (ground (arith, more, c.stands.1)) in
        absurd (ground (arith, there, ap is_some missing))
    | inr (w, e) ↦ elim (Bool-cases (is_exited w.worker_state)) [
      | inl gone ↦ inr (_, join k place e gone)
      | inr waits ↦
          let l = c.led k w e in
          let (v, runs) = told_runs w l.sound (l.told refl) waits in inr (_, worker_runs k e runs)
    ]
  ]
]
closing_moves s (ClosingPc.destroyed count) place c = inl (count, refl)

Row-IsSound : (r : Row) (w : WorkerInstance) → Is r w → IsSound w
Row-IsSound r w i = ground arith

close-IsClosing : (s : System) → Reach s → IsClosing (ClosingPc.telling 1) s.id_nounce s.workers
close-IsClosing s r =
    let p = Reach-IsPhased r in
    record {
      stands = (omega arith, omega (arith, p.positive));
      peopled = (Reach-IsWhole r).there;
      led = λ id w e.
          let f = p.fine id w e in
          record {
            above = f.above;
            below = f.below;
            sound = Row-IsSound f.row w f.is;
            told = λ h. absurd (ground (arith, h, f.above));
            joined = λ h. absurd (ground (arith, h));
          };
    }

Closes-Keeps :
    {s t : Closing} {n : ℕ}
    → IsClosing s.pc s.id_nounce s.workers
    → Closes s n t
    → IsClosing t.pc t.id_nounce t.workers × (t.id_nounce ≡ s.id_nounce) × (left t + n ≤ left s)
Closes-Keeps c called = (c, refl, omega arith)
Closes-Keeps c (then_step closes step) =
    let (d, same, most) = Closes-Keeps c closes in
    let (d', same', less) = ClosingStep-Keeps d step in
    (d', same' ∙ same, omega (arith, most, less))

-- When the destructor is called at any moment that the threads can reach, and from then on the workers
-- and the destructor take turns in any way, there are at most six times as many steps as the id that
-- would be given next, and where no thread has a next step the destructor has ended and has removed
-- every worker. The bug: the number of stopped workers that it logs is then 0, however
-- many there were.
pub destructor_ends :
    (s : System)
    → Reach s
    → (n : ℕ) (t : Closing) → Closes (close s) n t
    → (n ≤ 6 * s.id_nounce)
      × (((u : Closing) × ClosingStep t u)
          ⊎ ((t.pc ≡ ClosingPc.destroyed 0) × ((id : ℕ) → t.workers id ≡ none)))
destructor_ends s r n t closes =
    let (c, same, most) = Closes-Keeps (close-IsClosing s r) closes in
    let bound = entries-le rank 3 s.id_nounce 0 s.workers rank_bound in
    (
      omega (arith, most, bound, (Reach-IsPhased r).positive),
      elim (closing_moves t t.pc refl c) [
        | inl (count, e) ↦
            let d = at_pc t (ClosingPc.destroyed count) e c in
            inr (e ∙ ap ClosingPc.destroyed d.stands, d.peopled)
        | inr steps ↦ inl steps
      ],
    )
