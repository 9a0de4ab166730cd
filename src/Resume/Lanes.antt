-- ===== src/Resume/Lanes.antt =====
-- `compute_lane_state` of src/canon_systems/task_thread_scheduler.py, and the envelope and exit
-- code of src/canon_systems/resume_engine.py.
--
-- `zip(…, strict=True)` follows a test of the lengths, so a list of pairs is the model of tasks
-- with their scans; `paired` is that test.
use Prim.Native.String.{◌++◌ as text_append}
use canon_systems.Base.{
  ℕ, suc, String, Bool, true, false, not, ◌&&◌, Option, none, some, List, [], ◌∷◌, ◌++◌, length,
  str_eq, eqb, ltb, if◌then◌else◌,
}
use canon_systems.Base.Order.{StrictOrder, lex_order, text_order, sort}
use canon_systems.Resume.{
  ManifestTask, Scan, Phases, contains, is_text, first_incomplete_phase, is_fully_complete,
}

pub record Target : Type 0 where
  pub task_id : String
  pub workstream_id : String
  pub phase : String

pub record Blocked : Type 0 where
  pub task_id : String
  pub workstream_id : String
  pub reason : String
  pub detail : String

pub record Member : Type 0 where
  pub task_id : String
  pub workstream_id : String

abbrev pub target_at : ManifestTask → String → Target
target_at t p = record { task_id = t.task_id; workstream_id = t.workstream_id; phase = p }

abbrev pub Pairs : Type 0
Pairs = List (ManifestTask × Scan)

-- `none` is the `ValueError` on a length mismatch.
unfoldable pub paired : List ManifestTask → List Scan → Option Pairs
paired [] [] = some []
paired [] (s ∷ ss) = none
paired (t ∷ ts) [] = none
paired (t ∷ ts) (s ∷ ss) = elim (paired ts ss) [ none ↦ none | some ps ↦ some ((t, s) ∷ ps) ]

abbrev pub degraded : Scan → Bool
degraded s = elim s.degrade [ none ↦ false | some d ↦ true ]

abbrev pub finished : Phases → Scan → Bool
finished o s = not (degraded s) && is_fully_complete s.phase s.phase_status o

-- `known_ids` and `complete_ids`, as lists.
abbrev pub known_ids : Pairs → List String
known_ids [] = []
known_ids ((t, s) ∷ ps) = t.task_id ∷ known_ids ps

unfoldable pub complete_ids : Phases → Pairs → List String
complete_ids o [] = []
complete_ids o ((t, s) ∷ ps) =
    let rest = complete_ids o ps in if finished o s then t.task_id ∷ rest else rest

-- The dependencies that are unknown or not complete, in the manifest's order.
unfoldable pub missing_deps : List String → List String → List String → List String
missing_deps [] complete known = []
missing_deps (d ∷ ds) complete known =
    let rest = missing_deps ds complete known in
    if not (contains d known)
    then d ∷ rest
    else if not (contains d complete)
    then d ∷ rest
    else rest

abbrev pub is_empty {ℓ} : {A : Type ℓ} → List A → Bool
is_empty [] = true
is_empty (x ∷ xs) = false

unfoldable pub deps_satisfied : List String → List String → List String → Bool × List String
unfolding missing_deps
deps_satisfied depends_on complete known =
    let missing = missing_deps depends_on complete known in
    (is_empty missing, sort text_order (λ (x : String). x) missing)

-- `",".join(xs)`
abbrev pub comma_joined : List String → String
comma_joined [] = ""
comma_joined (x ∷ []) = x
comma_joined (x ∷ y ∷ ys) = text_append x (text_append "," (comma_joined (y ∷ ys)))

-- Where a round of the loop puts a task.
pub data Lane : Type 0 where
  runnable active : Target → Lane
  blocked : Blocked → Lane
  passed : Lane

abbrev pub lane_of_deps : ManifestTask → String → Bool × List String → Lane
lane_of_deps t next (fine, missing) =
    if not fine
    then blocked (record {
      task_id = t.task_id;
      workstream_id = t.workstream_id;
      reason = "dependency";
      detail = comma_joined missing;
    })
    else runnable (target_at t next)

abbrev pub lane_of_phase : List String → List String → ManifestTask → Scan → Option String → Lane
lane_of_phase complete known t s none = passed
lane_of_phase complete known t s (some next) =
    if is_text s.phase_status "in_progress"
    then active (target_at t next)
    else lane_of_deps t next (deps_satisfied t.depends_on complete known)

-- One round of the loop over the tasks and their scans.
unfoldable pub classify : Phases → List String → List String → ManifestTask → Scan → Lane
unfolding deps_satisfied
classify o complete known t s = elim s.degrade [
  | some d ↦ blocked (record {
    task_id = t.task_id;
    workstream_id = t.workstream_id;
    reason = "transport";
    detail = d;
  })
  | none ↦
      if is_fully_complete s.phase s.phase_status o
      then passed
      else lane_of_phase complete known t s (first_incomplete_phase s.phase s.phase_status o)
]

pub record Lanes : Type 0 where
  pub runnable_targets : List Target
  pub active_targets : List Target
  pub blocked_targets : List Blocked

abbrev pub put_in : Lane → Lanes → Lanes
put_in (runnable t) l = record l { runnable_targets = t ∷ l.runnable_targets }
put_in (active t) l = record l { active_targets = t ∷ l.active_targets }
put_in (blocked b) l = record l { blocked_targets = b ∷ l.blocked_targets }
put_in passed l = l

-- The three lists before they are sorted, in the order of the tasks.
unfoldable pub collect : Phases → List String → List String → Pairs → Lanes
unfolding classify
collect o complete known [] = record {
  runnable_targets = [];
  active_targets = [];
  blocked_targets = [];
}
collect o complete known ((t, s) ∷ ps) =
    put_in (classify o complete known t s) (collect o complete known ps)

abbrev pub target_key : Target → String × (String × String)
target_key t = (t.task_id, (t.workstream_id, t.phase))

abbrev pub blocked_key : Blocked → String × (String × (String × String))
blocked_key b = (b.task_id, (b.workstream_id, (b.reason, b.detail)))

abbrev pub text2 : StrictOrder (String × String)
text2 = lex_order text_order text_order

abbrev pub text3 : StrictOrder (String × (String × String))
text3 = lex_order text_order text2

abbrev pub text4 : StrictOrder (String × (String × (String × String)))
text4 = lex_order text_order text3

abbrev pub sort_lanes : Lanes → Lanes
sort_lanes l = record {
  runnable_targets = sort text3 target_key l.runnable_targets;
  active_targets = sort text3 target_key l.active_targets;
  blocked_targets = sort text4 blocked_key l.blocked_targets;
}

-- The `runnable`, `active` and `blocked` targets of `compute_lane_state`.
unfoldable pub compute_lane_state : Phases → Pairs → Lanes
unfolding collect complete_ids
compute_lane_state o ps = sort_lanes (collect o (complete_ids o ps) (known_ids ps) ps)

-- `group_map`, in the order in which its keys were first seen.
unfoldable pub add_member :
    String → Member → List (String × List Member) → List (String × List Member)
add_member pg m [] = (pg, m ∷ []) ∷ []
add_member pg m ((g, ms) ∷ gs) =
    let rest = add_member pg m gs in if str_eq g pg then (g, ms ++ m ∷ []) ∷ gs else (g, ms) ∷ rest

unfoldable pub group_map :
    List (String × List Member) → List ManifestTask → List (String × List Member)
unfolding add_member
group_map gs [] = gs
group_map gs (t ∷ ts) =
    group_map
      (add_member t.parallel_group (record { task_id = t.task_id; workstream_id = t.workstream_id })
        gs)
      ts

unfoldable pub compute_resume_target : Phases → Pairs → Option Target
compute_resume_target o [] = none
compute_resume_target o ((t, s) ∷ ps) =
    let rest = compute_resume_target o ps in
    if degraded s then rest else elim (first_incomplete_phase s.phase s.phase_status o) [
      | none ↦ rest
      | some p ↦ some (target_at t p)
    ]

abbrev pub count {ℓ} : {A : Type ℓ} → (A → Bool) → List A → ℕ
count p [] = 0
count p (x ∷ xs) = let rest = count p xs in if p x then suc rest else rest

abbrev pub scan_degraded : ManifestTask × Scan → Bool
scan_degraded (t, s) = degraded s

abbrev pub scan_finished : Phases → ManifestTask × Scan → Bool
scan_finished o (t, s) = finished o s

-- The parts of `_build_envelope` that the exit code and `resume_available` read.
pub record Envelope : Type 0 where
  pub resume_target : Option Target
  pub tasks_scanned : ℕ
  pub tasks_completed : ℕ
  pub degraded_count : ℕ
  pub resume_available : Bool

abbrev pub is_some {ℓ} : {A : Type ℓ} → Option A → Bool
is_some none = false
is_some (some a) = true

unfoldable pub build_envelope : Phases → Pairs → Envelope
unfolding compute_resume_target
build_envelope o ps = record {
  resume_target = compute_resume_target o ps;
  tasks_scanned = length ps;
  tasks_completed = count (scan_finished o) ps;
  degraded_count = count scan_degraded ps;
  resume_available =
      is_some (compute_resume_target o ps) && ltb (count scan_degraded ps) (length ps);
}

-- `run`, after the scans: `EXIT_TRANSPORT` when every one of at least one task is degraded.
unfoldable pub exit_code : Envelope → ℕ
exit_code e = if eqb e.degraded_count e.tasks_scanned && ltb 0 e.tasks_scanned then 5 else 0
