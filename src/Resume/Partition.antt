-- ===== src/Resume/Partition.antt =====
-- The lanes of `compute_lane_state` (src/canon_systems/task_thread_scheduler.py): how often each
-- holds a task.
use canon_systems.Base.{
  ℕ, ◌+◌, String, ◌≡◌, refl, inl, inr, Bool, true, false, Option, none, some, List, [], ◌∷◌, arith,
  not, ◌&&◌, str_eq, Bool-cases, Option-cases, if◌then◌else◌,
}
use canon_systems.Base.Order.{StrictOrder, insert, sort}
use canon_systems.Resume.{
  ManifestTask, Scan, Phases, phase_list, contains, after, last_or, is_text, first_incomplete_phase,
  is_fully_complete,
}
use canon_systems.Resume.Lanes.{
  Target, Blocked, Pairs, finished, degraded, comma_joined, target_at, known_ids, complete_ids,
  deps_satisfied, Lane, runnable, active, blocked, passed, lane_of_deps, lane_of_phase, classify,
  Lanes, put_in, collect, target_key, blocked_key, text3, text4, compute_lane_state, count,
}

-- Past the end of the order there is only its last phase.
after-none :
    (x y : String) (ys : List String)
    → contains x (y ∷ ys) ≡ true
    → after x (y ∷ ys) ≡ none
    → str_eq x (last_or y ys) ≡ true
after-none x y [] h n = elim (Bool-cases (str_eq x y)) [ inl e ↦ e | inr e ↦ cc (rw e at h) ]
after-none x y (z ∷ zs) h n = elim (Bool-cases (str_eq x y)) [
  | inl e ↦ cc (rw e at n)
  | inr e ↦ after-none x z zs (rw e at h) (rw e at n)
]

-- A task with no next phase is fully complete: the loop's second early exit meets no other task.
pub first_incomplete_phase-none :
    (phase status : Option String) (o : Phases)
    → first_incomplete_phase phase status o ≡ none
    → is_fully_complete phase status o ≡ true
unfolding first_incomplete_phase is_fully_complete
first_incomplete_phase-none none status o h = cc h
first_incomplete_phase-none (some p) status o h = elim (Bool-cases (contains p (phase_list o))) [
  | inr absent ↦ cc (rw (absent, first_incomplete_phase) at h)
  | inl present ↦ elim (Bool-cases (is_text status "completed")) [
    | inr going ↦ cc (rw (present, going, first_incomplete_phase) at h)
    | inl ended ↦ rw (
      after-none p o.initial o.later present (rw (present, ended, first_incomplete_phase) at h),
      ended,
    )
  ]
]

abbrev one : Bool → ℕ
one b = if b then 1 else 0

count-cons {ℓ} :
    {A : Type ℓ} (p : A → Bool) (x : A) (xs : List A) → count p (x ∷ xs) ≡ one (p x) + count p xs
count-cons p x xs = elim (Bool-cases (p x)) [
  | inl e ↦ rw e (omega arith)
  | inr e ↦ rw e (omega arith)
]

module _ {ℓ κ} {A : Type ℓ} {K : Type κ} (o : StrictOrder K) (key : A → K) (p : A → Bool) where
  count-insert : (x : A) (xs : List A) → count p (insert o key x xs) ≡ count p (x ∷ xs)
  unfolding insert
  count-insert x [] = refl
  count-insert x (y ∷ ys) = elim (Bool-cases (o.lt (key y) (key x))) [
    | inr above ↦ rw (above, insert) refl
    | inl below ↦
        rw (below, insert)
          (omega (
            arith,
            count-insert x ys,
            count-cons p x ys,
            count-cons p y (insert o key x ys),
            count-cons p y ys,
            count-cons p x (y ∷ ys),
          ))
  ]

  count-sort : (xs : List A) → count p (sort o key xs) ≡ count p xs
  unfolding sort
  count-sort [] = refl
  count-sort (x ∷ xs) = omega (
    arith,
    count-insert x (sort o key xs),
    count-sort xs,
    count-cons p x xs,
    count-cons p x (sort o key xs),
  )

module _ (p q : Target → Bool) (r : Blocked → Bool) where
  -- The entries of the lanes that pass the tests, one test for each lane.
  abbrev tally : Lanes → ℕ
  tally l = count p l.runnable_targets + (count q l.active_targets + count r l.blocked_targets)

  abbrev weight : Lane → ℕ
  weight passed = 0
  weight (runnable t) = one (p t)
  weight (active t) = one (q t)
  weight (blocked b) = one (r b)

  tally-put_in : (x : Lane) (l : Lanes) → tally (put_in x l) ≡ weight x + tally l
  tally-put_in (runnable t) l = omega (arith, count-cons p t l.runnable_targets)
  tally-put_in (active t) l = omega (arith, count-cons q t l.active_targets)
  tally-put_in (blocked b) l = omega (arith, count-cons r b l.blocked_targets)
  tally-put_in passed l = omega arith

  collect-tally :
      (o : Phases) (complete known : List String) (f : ManifestTask × Scan → Bool)
      → ((t : ManifestTask) (s : Scan) → weight (classify o complete known t s) ≡ one (f (t, s)))
      → (ps : Pairs) → tally (collect o complete known ps) ≡ count f ps
  unfolding collect
  collect-tally o complete known f here [] = refl
  collect-tally o complete known f here ((t, s) ∷ ps) = omega (
    arith,
    here t s,
    tally-put_in (classify o complete known t s) (collect o complete known ps),
    collect-tally o complete known f here ps,
    count-cons f (t, s) ps,
  )

  lanes-tally :
      (o : Phases) (f : ManifestTask × Scan → Bool)
      → ((complete known : List String) (t : ManifestTask) (s : Scan)
          → weight (classify o complete known t s) ≡ one (f (t, s)))
      → (ps : Pairs) → tally (compute_lane_state o ps) ≡ count f ps
  unfolding compute_lane_state
  lanes-tally o f here ps =
      let lanes = collect o (complete_ids o ps) (known_ids ps) ps in
      omega (
        arith,
        count-sort text3 target_key p lanes.runnable_targets,
        count-sort text3 target_key q lanes.active_targets,
        count-sort text4 blocked_key r lanes.blocked_targets,
        collect-tally o (complete_ids o ps) (known_ids ps) f
            (here (complete_ids o ps) (known_ids ps)) ps,
      )

-- The entries of one task, in the manifest and in the lanes.
abbrev pub of_task : String → ManifestTask × Scan → Bool
of_task id (t, s) = str_eq t.task_id id

abbrev pub target_of : String → Target → Bool
target_of id t = str_eq t.task_id id

abbrev pub blocked_of : String → Blocked → Bool
blocked_of id b = str_eq b.task_id id

abbrev pub offline_of : String → Blocked → Bool
offline_of id b = str_eq b.task_id id && str_eq b.reason "transport"

-- A scan that was read, is not finished, and says that its phase is in progress.
abbrev pub under_way : Phases → Scan → Bool
under_way o s =
    not (degraded s)
    && (not (is_fully_complete s.phase s.phase_status o) && is_text s.phase_status "in_progress")

abbrev pub open_task : Phases → String → ManifestTask × Scan → Bool
open_task o id (t, s) = str_eq t.task_id id && not (finished o s)

abbrev pub under_way_task : Phases → String → ManifestTask × Scan → Bool
under_way_task o id (t, s) = str_eq t.task_id id && under_way o s

abbrev pub offline_task : String → ManifestTask × Scan → Bool
offline_task id (t, s) = str_eq t.task_id id && degraded s

abbrev never {ℓ} : {A : Type ℓ} → A → Bool
never a = false

module _ (p q : Target → Bool) (r : Blocked → Bool) (o : Phases) (complete known : List String)
    (t : ManifestTask) (s : Scan) where
  -- The weight of a round, by what the scan says.
  classify-weight :
      (n : ℕ)
      → ((d : String)
          → s.degrade ≡ some d
          → one (
              r (record {
                task_id = t.task_id;
                workstream_id = t.workstream_id;
                reason = "transport";
                detail = d;
              }))
            ≡ n)
      → (finished o s ≡ true → 0 ≡ n)
      → ((next : String)
          → degraded s ≡ false
          → is_fully_complete s.phase s.phase_status o ≡ false
          → weight p q r (lane_of_phase complete known t s (some next)) ≡ n)
      → weight p q r (classify o complete known t s) ≡ n
  unfolding classify
  classify-weight n offline ended going = elim (Option-cases s.degrade) [
    | inr (d, e) ↦ rw (classify, e) (offline d e)
    | inl e ↦ elim (Bool-cases (is_fully_complete s.phase s.phase_status o)) [
      | inl f ↦ rw (classify, e, f) (ended (rw (e, f) refl))
      | inr f ↦ elim (Option-cases (first_incomplete_phase s.phase s.phase_status o)) [
        | inl n ↦ cc (first_incomplete_phase-none s.phase s.phase_status o n, f)
        | inr (next, at_next) ↦ rw (classify, e, f, at_next) (going next (rw e refl) f)
      ]
    ]
  ]

read_failed : (s : Scan) (d : String) → s.degrade ≡ some d → degraded s ≡ true
read_failed s d e = rw e refl

deps-weight :
    (p q : Target → Bool) (r : Blocked → Bool) (t : ManifestTask) (next : String)
    (d : Bool × List String) (n : ℕ)
    → one (p (target_at t next)) ≡ n
    → ((detail : String)
        → one (
            r (record {
              task_id = t.task_id;
              workstream_id = t.workstream_id;
              reason = "dependency";
              detail = detail;
            }))
          ≡ n)
    → weight p q r (lane_of_deps t next d) ≡ n
deps-weight p q r t next (true, missing) n run wait = run
deps-weight p q r t next (false, missing) n run wait = wait (comma_joined missing)

-- The three lanes hold each task as often as the manifest has it unfinished: exactly one entry for
-- each unfinished task, none for a finished one. The active lane holds just the tasks whose scan
-- was read and is in progress, and the blocked lane has just the tasks whose scan failed for the
-- reason `transport`.
pub compute_lane_state-total :
    (o : Phases) (ps : Pairs) (id : String)
    → (count (target_of id) (compute_lane_state o ps).runnable_targets
          + (count (target_of id) (compute_lane_state o ps).active_targets
              + count (blocked_of id) (compute_lane_state o ps).blocked_targets)
        ≡ count (open_task o id) ps)
      × (count (target_of id) (compute_lane_state o ps).active_targets
          ≡ count (under_way_task o id) ps)
      × (count (offline_of id) (compute_lane_state o ps).blocked_targets
          ≡ count (offline_task id) ps)
compute_lane_state-total o ps id = (
  lanes-tally (target_of id) (target_of id) (blocked_of id) o (open_task o id) open_here ps,
  omega (
    arith,
    lanes-tally never (target_of id) never o (under_way_task o id) under_way_here ps,
    none_never (compute_lane_state o ps).runnable_targets,
    none_never (compute_lane_state o ps).blocked_targets,
  ),
  omega (
    arith,
    lanes-tally never never (offline_of id) o (offline_task id) offline_here ps,
    none_never (compute_lane_state o ps).runnable_targets,
    none_never (compute_lane_state o ps).active_targets,
  ),
)
  where
    none_never : {A : Type 0} (xs : List A) → count never xs ≡ 0
    none_never [] = refl
    none_never (x ∷ xs) = none_never xs

    open_here :
        (complete known : List String) (t : ManifestTask) (s : Scan)
        → weight (target_of id) (target_of id) (blocked_of id) (classify o complete known t s)
          ≡ one (open_task o id (t, s))
    open_here complete known t s =
        classify-weight (target_of id) (target_of id) (blocked_of id) o complete known t s _
          (λ d e. rw (read_failed s d e) (ground arith)) (λ e. ground arith)
          (λ next e f. elim (Bool-cases (is_text s.phase_status "in_progress")) [
            | inl g ↦ rw (g, e, f) (ground arith)
            | inr g ↦
                rw (g, e, f)
                  (deps-weight (target_of id) (target_of id) (blocked_of id) t next
                    (deps_satisfied t.depends_on complete known) _ (ground arith)
                    (λ detail. ground arith))
          ])

    under_way_here :
        (complete known : List String) (t : ManifestTask) (s : Scan)
        → weight never (target_of id) never (classify o complete known t s)
          ≡ one (under_way_task o id (t, s))
    under_way_here complete known t s =
        classify-weight never (target_of id) never o complete known t s _
          (λ d e. rw (read_failed s d e) (ground arith)) (λ e. ground arith)
          (λ next e f. elim (Bool-cases (is_text s.phase_status "in_progress")) [
            | inl g ↦ rw (g, e, f) (ground arith)
            | inr g ↦
                rw (g, e, f)
                  (deps-weight never (target_of id) never t next
                    (deps_satisfied t.depends_on complete known) _ (ground arith)
                    (λ detail. ground arith))
          ])

    offline_here :
        (complete known : List String) (t : ManifestTask) (s : Scan)
        → weight never never (offline_of id) (classify o complete known t s)
          ≡ one (offline_task id (t, s))
    offline_here complete known t s =
        classify-weight never never (offline_of id) o complete known t s _
          (λ d e. rw (read_failed s d e) (ground arith)) (λ e. ground arith)
          (λ next e f. elim (Bool-cases (is_text s.phase_status "in_progress")) [
            | inl g ↦ rw (g, e) (ground arith)
            | inr g ↦
                rw (g, e)
                  (deps-weight never never (offline_of id) t next
                    (deps_satisfied t.depends_on complete known) _ (ground arith)
                    (λ detail. ground arith))
          ])
