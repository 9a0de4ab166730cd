-- ===== src/Tasks/Events.antt =====
-- Task events: `normalize_scope`, `validate_event`, `_sort_events` of tasks.py.
--
-- An event is a dict whose text values are read by `str(event.get(key, ""))`: a missing key and an
-- empty text are one case, but for `scope`, which `_new_task` reads with another default. The
-- `fields` hold what `_normalize_fields` writes: a text or a sorted list by the field's name.
use canon_systems.Base.{
  String, Bool, true, false, not, ◌&&◌, ◌||◌, Option, none, some, List, str_eq, get_or, non_empty,
  if◌then◌else◌,
}
use canon_systems.Base.Text.{strip, lower, dash_to_underscore}
use canon_systems.Base.Order.{lex_order, text_order, sort}

-- An entry of `fields`. Keys that are none of these change nothing.
pub data Field : Type 0 where
  title body status priority due branch deployment : String → Field
  assignees repositories labels : List String → Field
  unknown : String → Field

pub record TaskEvent : Type 0 where
  pub event_type : String
  pub event_id : String
  pub task_ref : String
  pub timestamp : String
  pub actor_id : String
  pub actor_display : String
  pub company_id : String
  pub repository_id : String
  pub scope : Option String
  pub event_repositories : List String
  pub comment : String
  pub fields : List Field

abbrev pub event_created : String
event_created = "task_created"

abbrev pub event_updated : String
event_updated = "task_updated"

abbrev pub event_commented : String
event_commented = "task_commented"

-- `none` is the `TaskError` of an unknown scope.
abbrev pub known_scope : String → Option String
known_scope s =
    if str_eq s "repo" || str_eq s "company" || str_eq s "multi_repo" then some s else none

abbrev pub scope_alias : String → String
scope_alias s = if str_eq s "multirepo" || str_eq s "multi" then "multi_repo" else s

unfoldable pub normalize_scope : String → Option String
normalize_scope scope = known_scope (scope_alias (dash_to_underscore (lower (strip scope))))

abbrev pub known_status : String → Option String
known_status s =
    if str_eq s "open"
      || str_eq s "in_progress"
      || str_eq s "blocked"
      || str_eq s "done"
      || str_eq s "cancelled"
    then some s
    else none

abbrev pub status_alias : String → String
status_alias s = if str_eq s "todo" then "open" else if str_eq s "closed" then "done" else s

unfoldable pub normalize_status : String → Option String
normalize_status s = known_status (status_alias (dash_to_underscore (lower (strip s))))

abbrev pub known_priority : String → Option String
known_priority p =
    if str_eq p "low" || str_eq p "normal" || str_eq p "high" || str_eq p "urgent"
    then some p
    else none

unfoldable pub normalize_priority : String → Option String
normalize_priority p =
    if str_eq (lower (strip p)) "" then some "normal" else known_priority (lower (strip p))

abbrev pub is_some {ℓ} : {A : Type ℓ} → Option A → Bool
is_some none = false
is_some (some a) = true

abbrev pub filled : String → Bool
filled s = non_empty (strip s)

abbrev pub known_type : String → Bool
known_type t = str_eq t event_created || str_eq t event_updated || str_eq t event_commented

-- Whether `validate_event` returns without a `TaskError`.
unfoldable pub validate_event : TaskEvent → Bool
validate_event e =
    if not (known_type e.event_type)
    then false
    else if not (filled e.event_id && filled e.task_ref && filled e.timestamp && filled e.actor_id)
    then false
    else if str_eq e.event_type event_created
    then is_some (normalize_scope (get_or e.scope ""))
    else true

abbrev pub sort_key : TaskEvent → String × String
sort_key e = (e.timestamp, e.event_id)

unfoldable pub sort_events : List TaskEvent → List TaskEvent
sort_events = sort (lex_order text_order text_order) sort_key
