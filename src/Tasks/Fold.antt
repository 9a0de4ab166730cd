-- ===== src/Tasks/Fold.antt =====
-- `_new_task`, `_apply_fields`, `fold_event` and `materialize` of src/canon_systems/tasks.py.
use Prim.Native.String.{◌++◌ as text_append}
use canon_systems.Base.{
  String, ◌&&◌, Option, none, some, List, [], ◌∷◌, ◌++◌, str_eq, get_or, if◌then◌else◌,
}
use canon_systems.Base.Text.{strip, str_lt}
use canon_systems.Tasks.Events.{
  Field, title, body, status, priority, due, branch, deployment, assignees, repositories, labels,
  unknown, TaskEvent, event_commented, normalize_scope, filled, validate_event, sort_events,
}

pub record Comment : Type 0 where
  pub ts : String
  pub actor : String
  pub actor_display : String
  pub text : String

pub record Change : Type 0 where
  pub ts : String
  pub actor : String
  pub change : String

pub record Task : Type 0 where
  pub task_ref : String
  pub title_of : String
  pub body_of : String
  pub scope : String
  pub company_id : String
  pub repository_id : String
  pub repositories_of : List String
  pub author_id : String
  pub author_display : String
  pub assignees_of : List String
  pub labels_of : List String
  pub status_of : String
  pub priority_of : String
  pub due_of : String
  pub branch_of : String
  pub deployment_of : String
  pub created_at : String
  pub updated_at : String
  pub comments : List Comment
  pub history : List Change

abbrev pub task_with_scope : TaskEvent → String → Task
task_with_scope e scope = record {
  task_ref = e.task_ref;
  title_of = "";
  body_of = "";
  scope = scope;
  company_id = e.company_id;
  repository_id = e.repository_id;
  repositories_of = e.event_repositories;
  author_id = e.actor_id;
  author_display = e.actor_display;
  assignees_of = [];
  labels_of = [];
  status_of = "open";
  priority_of = "normal";
  due_of = "";
  branch_of = "";
  deployment_of = "";
  created_at = e.timestamp;
  updated_at = e.timestamp;
  comments = [];
  history = [];
}

-- `none` is the `TaskError` that `normalize_scope` raises.
abbrev pub new_task_of : TaskEvent → Option String → Option Task
new_task_of e none = none
new_task_of e (some scope) = some (task_with_scope e scope)

unfoldable pub new_task : TaskEvent → Option Task
new_task e = new_task_of e (normalize_scope (get_or e.scope "company"))

-- `old or '-'`.
abbrev pub or_dash : String → String
or_dash s = if str_eq s "" then "-" else s

abbrev pub arrow : String → String → String → String
arrow label old new =
    text_append label (text_append ": " (text_append old (text_append " -> " new)))

abbrev pub log_change : Task → TaskEvent → String → List Change
log_change t e text =
    t.history ++ record { ts = e.timestamp; actor = e.actor_id; change = text } ∷ []

unfoldable pub apply_field : TaskEvent → Task → Field → Task
apply_field e t (status v) =
    if str_eq t.status_of v
    then record t { status_of = v }
    else record t { status_of = v; history = log_change t e (arrow "status" t.status_of v) }
apply_field e t (assignees v) = record t { assignees_of = v }
apply_field e t (repositories v) = record t { repositories_of = v }
apply_field e t (labels v) = record t { labels_of = v }
apply_field e t (branch v) = if str_eq t.branch_of v then record t { branch_of = v } else record t {
  branch_of = v;
  history = log_change t e (arrow "branch" (or_dash t.branch_of) (or_dash v));
}
apply_field e t (deployment v) =
    if str_eq t.deployment_of v then record t { deployment_of = v } else record t {
      deployment_of = v;
      history = log_change t e (arrow "deployment" (or_dash t.deployment_of) (or_dash v));
    }
apply_field e t (title v) = record t { title_of = v }
apply_field e t (body v) = record t { body_of = v }
apply_field e t (priority v) = record t { priority_of = v }
apply_field e t (due v) = record t { due_of = v }
apply_field e t (unknown k) = t

unfoldable pub apply_fields : TaskEvent → Task → List Field → Task
unfolding apply_field
apply_fields e t [] = t
apply_fields e t (f ∷ fs) = apply_fields e (apply_field e t f) fs

unfoldable pub add_comment : TaskEvent → Task → Task
add_comment e t =
    if str_eq e.event_type event_commented && filled e.comment
    then record t {
      comments =
          t.comments
          ++ record {
            ts = e.timestamp;
            actor = e.actor_id;
            actor_display = e.actor_display;
            text = strip e.comment;
          }
            ∷ [];
    }
    else t

unfoldable pub touch : TaskEvent → Task → Task
touch e t = if str_lt t.updated_at e.timestamp then record t { updated_at = e.timestamp } else t

-- What an event does to its task, once the task is there.
unfoldable pub update_task : TaskEvent → Task → Task
unfolding apply_fields add_comment touch
update_task e t = touch e (add_comment e (apply_fields e t e.fields))

-- The task that an event works on: the one of its reference, or a new one. The source asks twice,
-- for a created event and then for any other, and makes the same task.
unfoldable pub or_new : TaskEvent → Option Task → Option Task
unfolding new_task
or_new e none = new_task e
or_new e (some t) = some t

-- The materialized state: a dict from references to tasks.
abbrev pub State : Type 0
State = List (String × Task)

unfoldable pub find : String → State → Option Task
find ref [] = none
find ref ((r, t) ∷ s) = if str_eq r ref then some t else find ref s

unfoldable pub store : String → Task → State → State
store ref t [] = (ref, t) ∷ []
store ref t ((r, u) ∷ s) = if str_eq r ref then (r, t) ∷ s else (r, u) ∷ store ref t s

abbrev pub store_updated : TaskEvent → State → Option Task → Option State
store_updated e s none = none
store_updated e s (some t) = some (store e.task_ref (update_task e t) s)

-- `none` is a `TaskError` that leaves `fold_event`.
unfoldable pub fold_event : State → TaskEvent → Option State
unfolding or_new
fold_event s e = store_updated e s (or_new e (find e.task_ref s))

abbrev pub and_then {ℓ κ} : {A : Type ℓ} {B : Type κ} → Option A → (A → Option B) → Option B
and_then none f = none
and_then (some a) f = f a

-- One round of the loop of `materialize`: an event that is not valid is skipped.
unfoldable pub fold_valid : Option State → TaskEvent → Option State
fold_valid acc e = if validate_event e then and_then acc (λ s. fold_event s e) else acc

unfoldable pub fold_all : Option State → List TaskEvent → Option State
unfolding fold_valid
fold_all acc [] = acc
fold_all acc (e ∷ es) = fold_all (fold_valid acc e) es

unfoldable pub materialize : List TaskEvent → Option State
unfolding fold_all
materialize events = fold_all (some []) (sort_events events)
