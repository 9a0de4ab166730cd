-- ===== src/TaskCli/Commands.antt =====
-- The subcommands of src/canon_systems/tasks_cli.py, from `_cmd_create` to `_cmd_next`.
--
-- A command that shows tasks returns them; `--json` and what is printed are left out. An option
-- that may be `None` and is tested by `if` is an empty text or list where it is absent.
use canon_systems.Base.{
  String, Bool, true, false, ◌||◌, Option, none, some, List, [], ◌∷◌, ◌++◌, str_eq, non_empty,
  if◌then◌else◌,
}
use canon_systems.Base.Text.{strip}
use canon_systems.Base.Order.{text_order, sort}
use canon_systems.Tasks.Events.{
  Field, title, body, status, priority, due, branch, deployment, assignees, labels, event_created,
  event_updated, event_commented, normalize_scope, filled,
}
use canon_systems.Tasks.Fold.{Task, State}
use canon_systems.Tasks.Make.{EventArgs, add_text, make_event}
use canon_systems.Tasks.Select.{TaskFilter, filter_and_sort}
use canon_systems.TaskCli.{
  Remote, World, Ctx, Stamp, Exit, exited, raised, Found, fold_error, not_found, found,
  ledger_for_scope, or_else, combined_state, find_ledger_with_task, record_made, mutate,
}

pub record CreateArgs : Type 0 where
  pub scope : String
  pub title_arg : String
  pub body_arg : String
  pub assignee : List String
  pub label : List String
  pub priority_arg : String
  pub due_arg : String
  pub repo : String
  pub repos : List String
  pub task_ref : String

pub record UpdateArgs : Type 0 where
  pub title_arg : Option String
  pub body_arg : Option String
  pub status_arg : String
  pub priority_arg : String
  pub due_arg : Option String
  pub branch_arg : Option String
  pub deployment_arg : Option String
  pub label : List String
  pub assignee : List String
  pub note : String

pub record ListArgs : Type 0 where
  pub all : Bool
  pub status_arg : String
  pub scope : String
  pub label : String
  pub assignee : String
  pub mine : Bool
  pub all_repos : Bool

pub record NextArgs : Type 0 where
  pub all_repos : Bool
  pub any_actor : Bool
  pub assignee : String

-- A field that was given, before the others.
abbrev pub if_text : (String → Field) → String → List Field → List Field
if_text field s rest = if non_empty s then field s ∷ rest else rest

abbrev pub if_given : (String → Field) → Option String → List Field → List Field
if_given field none rest = rest
if_given field (some s) rest = field s ∷ rest

abbrev pub if_items : (List String → Field) → List String → List Field → List Field
if_items field [] rest = rest
if_items field (v ∷ vs) rest = field (v ∷ vs) ∷ rest

unfoldable pub create_fields : CreateArgs → List Field
create_fields a =
    title a.title_arg
    ∷ if_text body a.body_arg (
        if_items assignees a.assignee (
          if_items labels a.label
            (if_text priority a.priority_arg (if_text due a.due_arg (status "open" ∷ [])))))

unfoldable pub update_fields : UpdateArgs → List Field
update_fields a = if_given title a.title_arg (
    if_given body a.body_arg (
      if_text status a.status_arg (
        if_text priority a.priority_arg (
          if_given due a.due_arg (
            if_given branch a.branch_arg (
              if_given deployment a.deployment_arg
                (if_items labels a.label (if_items assignees a.assignee []))))))))

-- `[r.strip() for r in repos if r.strip()]`
unfoldable pub stripped : List String → List String
stripped [] = []
stripped (r ∷ rs) = let rest = stripped rs in if filled r then strip r ∷ rest else rest

-- The elements of a set of texts, and `sorted` of them.
unfoldable pub text_set : List String → List String
text_set [] = []
text_set (v ∷ vs) = add_text v (text_set vs)

unfoldable pub sorted_set : List String → List String
sorted_set vs = sort text_order (λ s. s) (text_set vs)

-- `state.values()`
unfoldable pub values : State → List Task
values [] = []
values ((ref, t) ∷ s) = t ∷ values s

abbrev pub is_empty {ℓ} : {A : Type ℓ} → List A → Bool
is_empty [] = true
is_empty (x ∷ xs) = false

abbrev pub close_status : Bool → String
close_status cancel = if cancel then "cancelled" else "done"

abbrev pub shown : Found → Exit × Option Task
shown fold_error = (raised, none)
shown not_found = (exited 3, none)
shown (found ledger t) = (exited 0, some t)

abbrev pub selected : Option (List Task) → Exit × List Task
selected none = (raised, [])
selected (some ts) = (exited 0, ts)

abbrev pub select_in : TaskFilter → Option State → Exit × List Task
select_in f none = (raised, [])
select_in f (some s) = selected (filter_and_sort f (values s))

abbrev pub first_task : List Task → Option Task
first_task [] = none
first_task (t ∷ ts) = some t

module _ (api : Remote) (configured : Bool) (ctx : Ctx) where
  abbrev pub create_args : CreateArgs → String → String → List String → String → Stamp → EventArgs
  create_args a scope repository_id repositories ref stamp = record {
    event_type = event_created;
    event_id = stamp.new_event_id;
    task_ref = ref;
    timestamp = stamp.now_iso;
    actor_id = ctx.actor_id;
    actor_display = ctx.actor_display;
    company_id = ctx.company_id;
    scope = scope;
    repository_id = repository_id;
    repositories_of = repositories;
    fields = create_fields a;
    comment = "";
  }

  abbrev pub create_in :
      CreateArgs → String → List String → Stamp → String → String → World api → Exit × World api
  create_in a repository_id repositories stamp new_ref scope w =
      record_made api configured ctx (ledger_for_scope scope)
        (make_event (
          create_args a scope repository_id repositories (strip (or_else a.task_ref new_ref))
            stamp))
        w

  abbrev pub create_scoped :
      CreateArgs → Stamp → String → Option String → World api → Exit × World api
  create_scoped a stamp new_ref none w = (exited 2, w)
  create_scoped a stamp new_ref (some scope) w =
      if str_eq scope "repo"
      then create_in a (strip (or_else a.repo ctx.repository_id)) [] stamp new_ref scope w
      else if str_eq scope "multi_repo"
      then (if is_empty (stripped a.repos)
          then (exited 2, w)
          else create_in a "" (stripped a.repos) stamp new_ref scope w)
      else create_in a "" [] stamp new_ref scope w

  -- `new_ref` is what `_new_task_ref` makes.
  unfoldable pub cmd_create : CreateArgs → Stamp → String → World api → Exit × World api
  cmd_create a stamp new_ref w = create_scoped a stamp new_ref (normalize_scope a.scope) w

  -- The next command runs whatever code this one had, but not after an exception.
  abbrev pub and_run : Exit × World api → (World api → Exit × World api) → Exit × World api
  and_run (exited code, w) next = next w
  and_run (raised, w) next = (raised, w)

  abbrev pub comment_on : String → String → Stamp → World api → Exit × World api
  comment_on ref text stamp w = mutate api configured ctx ref [] text event_commented stamp w

  abbrev pub change_fields : String → List Field → Stamp → World api → Exit × World api
  change_fields ref fields stamp w = mutate api configured ctx ref fields "" event_updated stamp w

  -- A note next to fields is an event of its own, the first of the two.
  unfoldable pub cmd_update : String → UpdateArgs → Stamp → Stamp → World api → Exit × World api
  cmd_update ref a first second w =
      if is_empty (update_fields a)
      then (if filled a.note then comment_on ref (strip a.note) second w else (exited 2, w))
      else if filled a.note
      then and_run (comment_on ref (strip a.note) first w)
          (change_fields ref (update_fields a) second)
      else change_fields ref (update_fields a) second w

  unfoldable pub cmd_comment : String → String → Stamp → World api → Exit × World api
  cmd_comment ref text stamp w =
      if filled text then comment_on ref (strip text) stamp w else (exited 2, w)

  abbrev pub assign_found :
      String → List String → Bool → Stamp → Found → World api → Exit × World api
  assign_found ref actors replace stamp fold_error w = (raised, w)
  assign_found ref actors replace stamp not_found w = (exited 3, w)
  assign_found ref actors replace stamp (found ledger t) w =
      change_fields ref
        (assignees (sorted_set (if replace then actors else t.assignees_of ++ actors)) ∷ []) stamp w

  unfoldable pub cmd_assign : String → List String → Bool → Stamp → World api → Exit × World api
  cmd_assign ref actors replace stamp w =
      assign_found ref actors replace stamp (find_ledger_with_task api configured ctx ref w) w

  unfoldable pub cmd_status : String → String → Stamp → World api → Exit × World api
  cmd_status ref new_status stamp w = change_fields ref (status new_status ∷ []) stamp w

  -- The comment goes with an event of the type `task_updated`.
  unfoldable pub cmd_close : String → Bool → String → Stamp → World api → Exit × World api
  cmd_close ref cancel comment stamp w =
      mutate api configured ctx ref (status (close_status cancel) ∷ []) comment event_updated stamp
        w

  unfoldable pub cmd_reopen : String → Stamp → World api → Exit × World api
  cmd_reopen ref stamp w = change_fields ref (status "open" ∷ []) stamp w

  unfoldable pub cmd_show : String → World api → Exit × Option Task
  cmd_show ref w = shown (find_ledger_with_task api configured ctx ref w)

  abbrev pub list_filters : ListArgs → TaskFilter
  list_filters a = record {
    status = a.status_arg;
    assignee = a.assignee;
    mine_actor = if a.mine then ctx.actor_id else "";
    scope = a.scope;
    repository_id = if a.all_repos then "" else ctx.repository_id;
    company_id = "";
    label = a.label;
    include_terminal = a.all || non_empty a.status_arg;
  }

  unfoldable pub cmd_list : ListArgs → World api → Exit × List Task
  cmd_list a w = select_in (list_filters a) (combined_state api configured ctx w)

  abbrev pub next_filters : NextArgs → TaskFilter
  next_filters a = record {
    status = "";
    assignee = a.assignee;
    mine_actor = if a.any_actor then "" else ctx.actor_id;
    scope = "";
    repository_id = if a.all_repos then "" else ctx.repository_id;
    company_id = "";
    label = "";
    include_terminal = false;
  }

  unfoldable pub cmd_next : NextArgs → World api → Exit × Option Task
  cmd_next a w =
      let (code, tasks) = select_in (next_filters a) (combined_state api configured ctx w) in
      (code, first_task tasks)
