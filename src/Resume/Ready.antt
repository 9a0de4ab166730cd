-- ===== src/Resume/Ready.antt =====
-- The runnable targets of `compute_lane_state` (src/canon_systems/task_thread_scheduler.py).
use mathlib.Core.List.{Memᴰ}
use mathlib.Core.List.Memᴰ
use canon_systems.Base.{
  String, ◌≡◌, refl, sym, ap, ◌∙◌, ◌⊎◌, inl, inr, true, false, none, some, List, [], ◌∷◌, str_eq,
  eq_iff, Bool-cases, Option-cases,
}
use canon_systems.Base.Order.{mem-sort}
use canon_systems.Resume.{
  ManifestTask, Scan, Phases, contains, is_text, first_incomplete_phase, is_fully_complete,
}
use canon_systems.Resume.Lanes.{
  Target, target_at, Pairs, finished, known_ids, complete_ids, missing_deps, deps_satisfied,
  is_empty, Lane, runnable, active, blocked, passed, classify, Lanes, put_in, collect, target_key,
  text3, compute_lane_state,
}

-- What a completed dependency is: a task of the manifest with that id whose scan is finished.
abbrev pub IsComplete : Phases → Pairs → String → Type 0
IsComplete o ps d =
    (t : ManifestTask) × (s : Scan) × Memᴰ (t, s) ps × (t.task_id ≡ d) × (finished o s ≡ true)

mem-complete_ids :
    (o : Phases) (ps : Pairs) (d : String)
    → contains d (complete_ids o ps) ≡ true
    → IsComplete o ps d
unfolding complete_ids
mem-complete_ids o [] d h = cc h
mem-complete_ids o ((t, s) ∷ ps) d h = elim (Bool-cases (finished o s)) [
  | inr f ↦ later (mem-complete_ids o ps d (rw (f, complete_ids) at h))
  | inl f ↦ elim (Bool-cases (str_eq d t.task_id)) [
    | inl e ↦ (t, s, Memᴰ.head refl, sym ((eq_iff d t.task_id).0 e), f)
    | inr e ↦ later (mem-complete_ids o ps d (rw (f, complete_ids, e) at h))
  ]
]
  where
    later : IsComplete o ps d → IsComplete o ((t, s) ∷ ps) d
    later (u, v, m, e, g) = (u, v, Memᴰ.tail m, e, g)

no_missing :
    (ds complete known : List String)
    → is_empty (missing_deps ds complete known) ≡ true
    → (d : String) → Memᴰ d ds
    → contains d complete ≡ true
unfolding missing_deps
no_missing [] complete known h d m = elim m [ ]
no_missing (x ∷ xs) complete known h d m = elim (Bool-cases (contains x known)) [
  | inr e ↦ cc (rw (e, missing_deps) at h)
  | inl e ↦ elim (Bool-cases (contains x complete)) [
    | inr f ↦ cc (rw (e, f, missing_deps) at h)
    | inl f ↦ elim (Memᴰ.cases_cons m) [
      | inl q ↦ ap (λ y. contains y complete) q ∙ f
      | inr m' ↦ no_missing xs complete known (rw (e, f, missing_deps) at h) d m'
    ]
  ]
]

-- What holds of a task that the loop finds runnable.
pub record IsReady (o : Phases) (ps : Pairs) (t : ManifestTask) (s : Scan) (x : Target)
    : Type 0 where
  pub answered : s.degrade ≡ none
  pub next : first_incomplete_phase s.phase s.phase_status o ≡ some x.phase
  pub unclaimed : is_text s.phase_status "in_progress" ≡ false
  pub ids : (x.task_id ≡ t.task_id) × (x.workstream_id ≡ t.workstream_id)
  pub dependencies : (d : String) → Memᴰ d t.depends_on → IsComplete o ps d

classify-runnable :
    (o : Phases) (ps : Pairs) (t : ManifestTask) (s : Scan) (x : Target)
    → classify o (complete_ids o ps) (known_ids ps) t s ≡ runnable x
    → IsReady o ps t s x
unfolding classify deps_satisfied
classify-runnable o ps t s x h = elim (Option-cases s.degrade) [
  | inr (d, e) ↦ cc (rw (classify, e) at h)
  | inl e ↦ elim (Bool-cases (is_fully_complete s.phase s.phase_status o)) [
    | inl f ↦ cc (rw (classify, e, f) at h)
    | inr f ↦ elim (Option-cases (first_incomplete_phase s.phase s.phase_status o)) [
      | inl n ↦ cc (rw (classify, e, f, n) at h)
      | inr (p, n) ↦ elim (Bool-cases (is_text s.phase_status "in_progress")) [
        | inl g ↦ cc (rw (classify, e, f, n, g) at h)
        | inr g ↦
            elim (Bool-cases
              (is_empty (missing_deps t.depends_on (complete_ids o ps) (known_ids ps)))) [
                | inr missing ↦ cc (rw (classify, e, f, n, g, missing) at h)
                | inl fine ↦
                    let made : target_at t p ≡ x = cc (rw (classify, e, f, n, g, fine) at h) in
                    record {
                      answered = e;
                      next = n ∙ ap (λ (y : Target). some y.phase) made;
                      unclaimed = g;
                      ids = (
                        sym (ap (λ (y : Target). y.task_id) made),
                        sym (ap (λ (y : Target). y.workstream_id) made),
                      );
                      dependencies = λ d m.
                          mem-complete_ids o ps d
                            (no_missing t.depends_on (complete_ids o ps) (known_ids ps) fine d m);
                    }
              ]
      ]
    ]
  ]
]

put_in-runnable :
    (l : Lane) (acc : Lanes) (x : Target)
    → Memᴰ x (put_in l acc).runnable_targets
    → (l ≡ runnable x) ⊎ Memᴰ x acc.runnable_targets
put_in-runnable (runnable t) acc x m = elim (Memᴰ.cases_cons m) [
  | inl e ↦ inl (ap runnable (sym e))
  | inr m' ↦ inr m'
]
put_in-runnable (active t) acc x m = inr m
put_in-runnable (blocked b) acc x m = inr m
put_in-runnable passed acc x m = inr m

mem-collect :
    (o : Phases) (complete known : List String) (ps : Pairs) (x : Target)
    → Memᴰ x (collect o complete known ps).runnable_targets
    → (t : ManifestTask) × (s : Scan) × Memᴰ (t, s) ps
      × (classify o complete known t s ≡ runnable x)
unfolding collect
mem-collect o complete known [] x m = elim m [ ]
mem-collect o complete known ((t, s) ∷ ps) x m =
    elim (put_in-runnable (classify o complete known t s) (collect o complete known ps) x m) [
      | inl e ↦ (t, s, Memᴰ.head refl, e)
      | inr m' ↦ let (u, v, n, e) = mem-collect o complete known ps x m' in (u, v, Memᴰ.tail n, e)
    ]

-- Each runnable target is the next phase of a task of the manifest whose scan succeeded and whose
-- status is not in progress, and each dependency of that task is a task of the manifest that is
-- finished.
pub compute_lane_state-IsReady :
    (o : Phases) (ps : Pairs) (x : Target)
    → Memᴰ x (compute_lane_state o ps).runnable_targets
    → (t : ManifestTask) × (s : Scan) × Memᴰ (t, s) ps × IsReady o ps t s x
unfolding compute_lane_state
compute_lane_state-IsReady o ps x m =
    let (t, s, n, e) = mem-collect o (complete_ids o ps) (known_ids ps) ps x (
      mem-sort text3 target_key (collect o (complete_ids o ps) (known_ids ps) ps).runnable_targets
        m) in
    (t, s, n, classify-runnable o ps t s x e)
