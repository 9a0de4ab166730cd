-- ===== src/Resume/Target.antt =====
-- `_compute_resume_target`, `_build_envelope` and the exit code of
-- src/canon_systems/resume_engine.py.
use mathlib.Core.List.{Memᴰ}
use mathlib.Core.List.Memᴰ
use mathlib.Core.Option.{some-injective}
use canon_systems.Base.{
  suc, ◌≤◌, ◌<◌, String, ◌≡◌, ◌↔◌, refl, sym, ap, subst, ◌∙◌, ◌⊎◌, inl, inr, true, false, ◌||◌,
  Option, none, some, List, [], ◌∷◌, ◌++◌, arith, length, ltb, eqb, str_eq, eq_iff, Bool-cases,
  Option-cases,
}
use canon_systems.Resume.{
  ManifestTask, Scan, Phases, phase_order, first_incomplete_phase, is_fully_complete,
}
use canon_systems.Resume.Lanes.{
  Target, target_at, Pairs, degraded, finished, compute_resume_target, count, scan_degraded,
  is_some, build_envelope, exit_code,
}
use canon_systems.Resume.Partition.{first_incomplete_phase-none}

-- Nothing is left to do for the task now: its scan failed, or it is finished.
abbrev pub Settled : Phases → ManifestTask × Scan → Type 0
Settled o (t, s) = (degraded s || finished o s) ≡ true

-- The pairs up to `x` that the target skips, and the pair it is made of.
pub record IsFirst (o : Phases) (ps : Pairs) (x : Target) : Type 0 where
  pub before : Pairs
  pub task : ManifestTask
  pub scan : Scan
  pub rest : Pairs
  pub split : ps ≡ before ++ (task, scan) ∷ rest
  pub skipped : (p : ManifestTask × Scan) → Memᴰ p before → Settled o p
  pub answered : degraded scan ≡ false
  pub next : first_incomplete_phase scan.phase scan.phase_status o ≡ some x.phase
  pub ids : (x.task_id ≡ task.task_id) × (x.workstream_id ≡ task.workstream_id)

skip :
    (o : Phases) (t : ManifestTask) (s : Scan) (ps : Pairs) (x : Target)
    → Settled o (t, s)
    → IsFirst o ps x
    → IsFirst o ((t, s) ∷ ps) x
skip o t s ps x settled h = record {
  before = (t, s) ∷ h.before;
  task = h.task;
  scan = h.scan;
  rest = h.rest;
  split = ap (λ l. (t, s) ∷ l) h.split;
  skipped = λ p m. elim (Memᴰ.cases_cons m) [
    | inl e ↦ subst (Settled o) (sym e) settled
    | inr m' ↦ h.skipped p m'
  ];
  answered = h.answered;
  next = h.next;
  ids = h.ids;
}

no_phase-Settled :
    (o : Phases) (t : ManifestTask) (s : Scan)
    → degraded s ≡ false
    → first_incomplete_phase s.phase s.phase_status o ≡ none
    → Settled o (t, s)
no_phase-Settled o t s e n = rw (e, first_incomplete_phase-none s.phase s.phase_status o n)

-- The resume target is the next phase of the first task of the manifest whose scan succeeded and
-- which is not finished: every task before it is degraded or finished.
pub compute_resume_target-IsFirst :
    (o : Phases) (ps : Pairs) (x : Target) → compute_resume_target o ps ≡ some x → IsFirst o ps x
unfolding compute_resume_target
compute_resume_target-IsFirst o [] x h = cc h
compute_resume_target-IsFirst o ((t, s) ∷ ps) x h = elim (Bool-cases (degraded s)) [
  | inl e ↦ skip o t s ps x (rw e) (compute_resume_target-IsFirst o ps x (rw e at h))
  | inr e ↦ elim (Option-cases (first_incomplete_phase s.phase s.phase_status o)) [
    | inl n ↦
        skip o t s ps x (no_phase-Settled o t s e n)
          (compute_resume_target-IsFirst o ps x (rw (e, n, compute_resume_target) at h))
    | inr (p, n) ↦
        let made : target_at t p ≡ x =
          some-injective (target_at t p) x (rw (e, n, compute_resume_target) at h) in
        record {
          before = [];
          task = t;
          scan = s;
          rest = ps;
          split = refl;
          skipped = λ q m. elim m [ ];
          answered = e;
          next = n ∙ ap (λ (y : Target). some y.phase) made;
          ids = (
            sym (ap (λ (y : Target). y.task_id) made),
            sym (ap (λ (y : Target). y.workstream_id) made),
          );
        }
  ]
]

Settled-all :
    (ps : Pairs)
    → compute_resume_target phase_order ps ≡ none
    → (p : ManifestTask × Scan) → Memᴰ p ps
    → Settled phase_order p
unfolding compute_resume_target
Settled-all [] h p m = elim m [ ]
Settled-all ((t, s) ∷ ps) h p m = elim (Bool-cases (degraded s)) [
  | inl e ↦ elim (Memᴰ.cases_cons m) [
    | inl q ↦ subst (Settled phase_order) (sym q) (rw e)
    | inr m' ↦ Settled-all ps (rw e at h) p m'
  ]
  | inr e ↦ elim (Option-cases (first_incomplete_phase s.phase s.phase_status phase_order)) [
    | inr (x, n) ↦ cc (rw (e, n, compute_resume_target) at h)
    | inl n ↦ elim (Memᴰ.cases_cons m) [
      | inl q ↦ subst (Settled phase_order) (sym q) (no_phase-Settled phase_order t s e n)
      | inr m' ↦ Settled-all ps (rw (e, n, compute_resume_target) at h) p m'
    ]
  ]
]

no_phase :
    (phase status : Option String)
    → is_fully_complete phase status phase_order ≡ true
    → first_incomplete_phase phase status phase_order ≡ none
unfolding is_fully_complete first_incomplete_phase
no_phase none status h = cc h
no_phase (some x) status h = elim (Bool-cases (str_eq x "release-orchestrator")) [
  | inr e ↦ cc (rw e at h)
  | inl e ↦ rw (first_incomplete_phase, (eq_iff x "release-orchestrator").0 e, rw e at h)
]

none_all :
    (ps : Pairs)
    → ((p : ManifestTask × Scan) → Memᴰ p ps → Settled phase_order p)
    → compute_resume_target phase_order ps ≡ none
unfolding compute_resume_target
none_all [] h = refl
none_all ((t, s) ∷ ps) h =
    let rest = none_all ps (λ p m. h p (Memᴰ.tail m)) in
    let here : (degraded s || finished phase_order s) ≡ true = h (t, s) (Memᴰ.head refl) in
    elim (Bool-cases (degraded s)) [
      | inl e ↦ rw (e, rest)
      | inr e ↦ rw (compute_resume_target, e, no_phase s.phase s.phase_status (rw e at here), rest)
    ]

-- There is no resume target just when every task is degraded or finished.
pub compute_resume_target-none :
    (ps : Pairs)
    → compute_resume_target phase_order ps ≡ none
      ↔ ((p : ManifestTask × Scan) → Memᴰ p ps → Settled phase_order p)
compute_resume_target-none ps = (Settled-all ps, none_all ps)

mem-middle {ℓ} : {A : Type ℓ} (before rest : List A) (x : A) → Memᴰ x (before ++ x ∷ rest)
mem-middle [] rest x = Memᴰ.head refl
mem-middle (y ∷ ys) rest x = Memᴰ.tail (mem-middle ys rest x)

count-le : (ps : Pairs) → count scan_degraded ps ≤ length ps
count-le [] = omega arith
count-le ((t, s) ∷ ps) = elim (Bool-cases (degraded s)) [
  | inl e ↦ rw e (omega (arith, count-le ps))
  | inr e ↦ rw e (omega (arith, count-le ps))
]

to_all :
    (ps : Pairs)
    → count scan_degraded ps ≡ length ps
    → (p : ManifestTask × Scan) → Memᴰ p ps
    → scan_degraded p ≡ true
to_all [] h p m = elim m [ ]
to_all ((t, s) ∷ ps) h p m = elim (Bool-cases (degraded s)) [
  | inr e ↦ absurd (omega (arith, count-le ps, rw e at h))
  | inl e ↦ elim (Memᴰ.cases_cons m) [
    | inl q ↦ ap scan_degraded q ∙ e
    | inr m' ↦ to_all ps (omega (arith, rw e at h)) p m'
  ]
]

from_all :
    (ps : Pairs)
    → ((p : ManifestTask × Scan) → Memᴰ p ps → scan_degraded p ≡ true)
    → count scan_degraded ps ≡ length ps
from_all [] h = refl
from_all ((t, s) ∷ ps) h =
    let here : degraded s ≡ true = h (t, s) (Memᴰ.head refl) in
    rw here (ap suc (from_all ps (λ p m. h p (Memᴰ.tail m))))

count-all :
    (ps : Pairs)
    → (count scan_degraded ps ≡ length ps)
      ↔ ((p : ManifestTask × Scan) → Memᴰ p ps → scan_degraded p ≡ true)
count-all ps = (to_all ps, from_all ps)

some_task : (ps : Pairs) → ltb 0 (suc (length ps)) ≡ true
some_task ps = ground arith

-- The exit code is 5 just when there is a task and every scan is degraded, and 0 otherwise.
pub exit_code-degraded :
    (o : Phases) (ps : Pairs)
    → ((exit_code (build_envelope o ps) ≡ 5)
        × (0 < length ps)
        × ((p : ManifestTask × Scan) → Memᴰ p ps → scan_degraded p ≡ true))
      ⊎ ((exit_code (build_envelope o ps) ≡ 0)
          × ((length ps ≡ 0) ⊎ (count scan_degraded ps < length ps)))
unfolding exit_code build_envelope
exit_code-degraded o [] = inr (refl, inl refl)
exit_code-degraded o (p ∷ ps) =
    elim (Bool-cases (eqb (count scan_degraded (p ∷ ps)) (length (p ∷ ps)))) [
      | inl e ↦ inl (
        rw (exit_code, build_envelope, e, some_task ps),
        omega arith,
        (count-all (p ∷ ps)).0 (ground (arith, e)),
      )
      | inr e ↦ inr (rw e, inr (ground (arith, e, count-le (p ∷ ps))))
    ]

-- `resume_available` says just whether there is a resume target: a target comes of a scan that
-- is not degraded, so the comparison of the counts never decides.
pub build_envelope-available :
    (o : Phases) (ps : Pairs)
    → (build_envelope o ps).resume_available ≡ is_some (compute_resume_target o ps)
unfolding build_envelope
build_envelope-available o ps = elim (Option-cases (compute_resume_target o ps)) [
  | inl n ↦ rw n
  | inr (x, e) ↦
      let first = compute_resume_target-IsFirst o ps x e in
      let found : ManifestTask × Scan = (first.task, first.scan) in
      let here : Memᴰ found ps =
        subst (λ l. Memᴰ found l) (sym first.split) (mem-middle first.before first.rest found) in
      elim (Bool-cases (ltb (count scan_degraded ps) (length ps))) [
        | inl below ↦ rw (e, below)
        | inr above ↦
            cc ((count-all ps).0 (ground (arith, above, count-le ps)) found here, first.answered)
      ]
]
