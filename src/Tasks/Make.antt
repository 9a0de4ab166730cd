-- ===== src/Tasks/Make.antt =====
-- `_clean_list`, `_normalize_fields` and `make_event` of src/canon_systems/tasks.py: how an event of
-- a ledger is built. A lone text given for a list field is the list of that text.
use canon_systems.Base.{String, not, Option, none, some, List, [], ◌∷◌, str_eq, if◌then◌else◌}
use canon_systems.Base.Text.{strip}
use canon_systems.Base.Order.{text_order, sort}
use canon_systems.Tasks.Events.{
  Field, title, body, status, priority, due, branch, deployment, assignees, repositories, labels,
  unknown, TaskEvent, event_created, normalize_scope, normalize_status, normalize_priority,
  known_type, validate_event, filled,
}
use canon_systems.Tasks.Select.{has_text}

-- The keyword arguments: an absent text is empty, absent repositories and fields are no items.
pub record EventArgs : Type 0 where
  pub event_type : String
  pub event_id : String
  pub task_ref : String
  pub timestamp : String
  pub actor_id : String
  pub actor_display : String
  pub company_id : String
  pub scope : String
  pub repository_id : String
  pub repositories_of : List String
  pub fields : List Field
  pub comment : String

-- `seen.add`.
unfoldable pub add_text : String → List String → List String
add_text s seen = if has_text s seen then seen else s ∷ seen

unfoldable pub seen_texts : List String → List String
seen_texts [] = []
seen_texts (v ∷ vs) = let rest = seen_texts vs in if filled v then add_text (strip v) rest else rest

unfoldable pub clean_list : List String → List String
clean_list vs = sort text_order (λ s. s) (seen_texts vs)

abbrev pub map_field : (String → Field) → Option String → Option Field
map_field field none = none
map_field field (some v) = some (field v)

-- One key of `_normalize_fields`: `none` is the `TaskError` of a status or a priority.
unfoldable pub normalize_field : Field → Option Field
normalize_field (title v) = some (title (strip v))
normalize_field (body v) = some (body (strip v))
normalize_field (status v) = map_field status (normalize_status v)
normalize_field (priority v) = map_field priority (normalize_priority v)
normalize_field (due v) = some (due (strip v))
normalize_field (branch v) = some (branch (strip v))
normalize_field (deployment v) = some (deployment (strip v))
normalize_field (assignees vs) = some (assignees (clean_list vs))
normalize_field (repositories vs) = some (repositories (clean_list vs))
normalize_field (labels vs) = some (labels (clean_list vs))
normalize_field (unknown v) = some (unknown v)

-- A key that is no field is not written.
unfoldable pub keep_field : Option Field → Option (List Field) → Option (List Field)
keep_field none rest = none
keep_field (some field) none = none
keep_field (some (unknown v)) (some fs) = some fs
keep_field (some field) (some fs) = some (field ∷ fs)

unfoldable pub normalize_fields : List Field → Option (List Field)
normalize_fields [] = some []
normalize_fields (field ∷ fs) = keep_field (normalize_field field) (normalize_fields fs)

-- The event before its scope and its fields.
abbrev pub plain_event : EventArgs → TaskEvent
plain_event a = record {
  event_type = a.event_type;
  event_id = strip a.event_id;
  task_ref = strip a.task_ref;
  timestamp = strip a.timestamp;
  actor_id = strip a.actor_id;
  actor_display = strip a.actor_display;
  company_id = strip a.company_id;
  repository_id = "";
  scope = none;
  event_repositories = [];
  comment = strip a.comment;
  fields = [];
}

-- The part of a `task_created` event: a multi-repository task has no repository of its own.
unfoldable pub place_event : EventArgs → Option String → Option TaskEvent
place_event a none = none
place_event a (some s) = some (
    if str_eq s "multi_repo"
    then record (plain_event a) {
      scope = some s;
      event_repositories = clean_list a.repositories_of;
    }
    else record (plain_event a) { scope = some s; repository_id = strip a.repository_id })

unfoldable pub scope_event : EventArgs → Option TaskEvent
scope_event a =
    if str_eq a.event_type event_created
    then place_event a (normalize_scope a.scope)
    else some (plain_event a)

-- The fields, and the final `validate_event`.
unfoldable pub finish_event : Option TaskEvent → Option (List Field) → Option TaskEvent
finish_event none fs = none
finish_event (some e) none = none
finish_event (some e) (some fs) =
    let made = record e { fields = fs } in if validate_event made then some made else none

-- `none` is a `TaskError`.
unfoldable pub make_event : EventArgs → Option TaskEvent
make_event a =
    if not (known_type a.event_type)
    then none
    else finish_event (scope_event a) (normalize_fields a.fields)
