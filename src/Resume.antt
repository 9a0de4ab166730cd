-- ===== src/Resume.antt =====
-- `canon resume`: the phases of a task and what a checkpoint scan says of it, of
-- src/canon_systems/resume_engine.py and src/canon_systems/task_thread_scheduler.py.
--
-- A manifest task is the dict that `_normalize_manifest_task` makes. The HTTP answer is an
-- argument: the status, and for a JSON object its `phase` and `phase_status`.
pub mod Lanes
pub mod Partition
pub mod Target
pub mod Ready
pub mod Watchdog
pub mod Stalls
pub mod Threads
mod Tests
use Prim.Native.String.{◌++◌ as text_append}
use canon_systems.Base.{
  ℕ, String, Bool, true, false, not, ◌&&◌, ◌||◌, Option, none, some, List, [], ◌∷◌, str_eq, eqb,
  truthy, if◌then◌else◌,
}

pub record ManifestTask : Type 0 where
  pub task_id : String
  pub workstream_id : String
  pub depends_on : List String
  pub parallel_group : String

-- `(phase, phase_status, degrade_reason)`
pub record Scan : Type 0 where
  pub phase : Option String
  pub phase_status : Option String
  pub degrade : Option String

-- A phase order: `phase_order[0]` and the phases after it.
pub record Phases : Type 0 where
  pub initial : String
  pub later : List String

abbrev pub phase_list : Phases → List String
phase_list o = o.initial ∷ o.later

abbrev pub phase_order : Phases
phase_order = record {
  initial = "scoper";
  later = "cursor-pilot" ∷ "implementer" ∷ "qa-gate" ∷ "release-orchestrator" ∷ [];
}

abbrev pub contains : String → List String → Bool
contains x [] = false
contains x (y ∷ ys) = str_eq x y || contains x ys

abbrev pub first_of : List String → Option String
first_of [] = none
first_of (x ∷ xs) = some x

-- What stands after the first `x`: `phase_order[idx + 1]`, or none past the end.
abbrev pub after : String → List String → Option String
after x [] = none
after x (y ∷ ys) = let rest = after x ys in if str_eq x y then first_of ys else rest

-- `phase_order[-1]`
abbrev pub last_or : String → List String → String
last_or x [] = x
last_or x (y ∷ ys) = last_or y ys

abbrev pub is_text : Option String → String → Bool
is_text none t = false
is_text (some s) t = str_eq s t

-- The function of this name in both files: the engine's has the order fixed.
unfoldable pub first_incomplete_phase : Option String → Option String → Phases → Option String
first_incomplete_phase none status o = some o.initial
first_incomplete_phase (some p) status o =
    if not (contains p (phase_list o))
    then some o.initial
    else if is_text status "completed"
    then after p (phase_list o)
    else some p

unfoldable pub is_fully_complete : Option String → Option String → Phases → Bool
is_fully_complete phase status o =
    is_text phase (last_or o.initial o.later) && is_text status "completed"

abbrev pub nonblank : Option String → Option String
nonblank o = if truthy o then o else none

-- What a response holds: a JSON object's two entries, or no object.
pub data Body : Type 0 where
  object : Option String → Option String → Body
  other_body : Body

-- `_scan_task`, from the response on; `shown` prints a status number.
unfoldable pub scan_response : (ℕ → String) → ℕ → Body → Scan
scan_response shown status (object phase phase_status) =
    if eqb status 200
    then record { phase = nonblank phase; phase_status = nonblank phase_status; degrade = none }
    else if eqb status 404
    then record { phase = none; phase_status = none; degrade = none }
    else if eqb status 0
    then record { phase = none; phase_status = none; degrade = some "transport" }
    else record {
      phase = none;
      phase_status = none;
      degrade = some (text_append "http_" (shown status));
    }
scan_response shown status other_body =
    if eqb status 404
    then record { phase = none; phase_status = none; degrade = none }
    else if eqb status 0
    then record { phase = none; phase_status = none; degrade = some "transport" }
    else record {
      phase = none;
      phase_status = none;
      degrade = some (text_append "http_" (shown status));
    }
