-- ===== src/Tasks/Tests.antt =====
-- The theorems on tasks at a concrete ledger.
use mathlib.Core.List.{Permᴰ, Memᴰ}
use canon_systems.Base.{
  String, ◌≡◌, refl, inl, inr, sym, ap, ◌∙◌, true, none, some, List, [], ◌∷◌, str_differ, get_or,
}
use canon_systems.Base.Order.{lex_order, text_order, IsConsistent, insert, sort}
use canon_systems.Base.Text.{dash_to_underscore, lower, strip}
use canon_systems.Tasks.Events.{
  Field, title, status, labels, TaskEvent, normalize_scope, normalize_status, validate_event,
  sort_key, sort_events,
}
use canon_systems.Tasks.Select.{
  TaskFilter, and_next, status_passes, scope_passes, same_as, others_pass, has_text, is_mine,
  task_touches_repo, task_matches, keep_match, priority_rank, invert, task_key, sort_tasks, select,
  sorted_selection, filter_and_sort,
}
use canon_systems.Tasks.Selected.{IsListing, filter_and_sort-IsListing}
use canon_systems.Tasks.Make.{
  EventArgs, add_text, seen_texts, clean_list, normalize_field, keep_field, normalize_fields,
  place_event, scope_event, finish_event, make_event,
}
use canon_systems.Tasks.Made.{materialize_made}
use canon_systems.Tasks.Fold.{
  Task, State, task_with_scope, or_new, update_task, find, fold_all, materialize,
}
use canon_systems.Tasks.Streams.{materialize_perm, stream, play, find-materialize}
use canon_systems.Tasks.Totality.{HasScope, materialize_total, unknown_scope_aborts}
use canon_systems.Tasks.Merge.{dedupe_events}
use canon_systems.Tasks.Merged.{IsMerge, dedupe_events-IsMerge}

abbrev event : String → String → String → String → List Field → TaskEvent
event kind id ref ts changes = record {
  event_type = kind;
  event_id = id;
  task_ref = ref;
  timestamp = ts;
  actor_id = "ana";
  actor_display = "Ana";
  company_id = "acme";
  repository_id = "app";
  scope = some "company";
  event_repositories = [];
  comment = "";
  fields = changes;
}

abbrev created : TaskEvent
created = event "task_created" "e1" "T-1" "2026-01-01" (title "Ship" ∷ [])

abbrev closed : TaskEvent
closed = event "task_updated" "e2" "T-1" "2026-01-02" (status "done" ∷ [])

abbrev strange : TaskEvent
strange = record (event "task_updated" "e3" "T-2" "2026-01-03" []) { scope = some "galaxy" }

abbrev ledger : List TaskEvent
ledger = closed ∷ created ∷ []

ledger-IsConsistent : IsConsistent (lex_order text_order text_order) sort_key ledger
ledger-IsConsistent x y (Memᴰ.head e) (Memᴰ.head f) same = e ∙ sym f
ledger-IsConsistent x y (Memᴰ.head e) (Memᴰ.tail (Memᴰ.head f)) same =
    absurd (str_differ "e2" "e1" refl (ap (λ (k : String × String). k.1) (keys e f same)))
  where
    keys : x ≡ closed → y ≡ created → sort_key x ≡ sort_key y → sort_key closed ≡ sort_key created
    keys e f same = ap sort_key (sym e) ∙ same ∙ ap sort_key f
ledger-IsConsistent x y (Memᴰ.tail (Memᴰ.head e)) (Memᴰ.head f) same =
    absurd (str_differ "e1" "e2" refl (ap (λ (k : String × String). k.1) (keys e f same)))
  where
    keys : x ≡ created → y ≡ closed → sort_key x ≡ sort_key y → sort_key created ≡ sort_key closed
    keys e f same = ap sort_key (sym e) ∙ same ∙ ap sort_key f
ledger-IsConsistent x y (Memᴰ.tail (Memᴰ.head e)) (Memᴰ.tail (Memᴰ.head f)) same = e ∙ sym f
ledger-IsConsistent x y (Memᴰ.tail (Memᴰ.tail m)) n same = elim m [ ]
ledger-IsConsistent x y m (Memᴰ.tail (Memᴰ.tail n)) same = elim n [ ]

materialize_perm_example : materialize ledger ≡ materialize (created ∷ closed ∷ [])
materialize_perm_example =
    materialize_perm ledger (created ∷ closed ∷ []) ledger-IsConsistent (Permᴰ.swap refl refl)

known_scope : (e : TaskEvent) → Memᴰ e ledger → HasScope e
unfolding normalize_scope dash_to_underscore lower strip
known_scope e (Memᴰ.head p) =
    ("company", ap (λ (x : TaskEvent). normalize_scope (get_or x.scope "company")) p)
known_scope e (Memᴰ.tail (Memᴰ.head p)) =
    ("company", ap (λ (x : TaskEvent). normalize_scope (get_or x.scope "company")) p)
known_scope e (Memᴰ.tail (Memᴰ.tail m)) = elim m [ ]

final-materialize : (s : State) × (materialize ledger ≡ some s)
final-materialize = materialize_total ledger known_scope

abbrev final_state : State
final_state = final-materialize.0

find-materialize_example : find "T-1" final_state ≡ play none (stream "T-1" (sort_events ledger))
find-materialize_example = find-materialize ledger final_state "T-1" final-materialize.1

abbrev opened : Task
opened = task_with_scope created "company"

played-closed : play (some opened) (closed ∷ []) ≡ some (update_task closed opened)
unfolding play or_new
played-closed = refl

strange-valid : validate_event strange ≡ true
unfolding validate_event strip
strange-valid = refl

strange-scope : normalize_scope (get_or strange.scope "company") ≡ none
unfolding normalize_scope dash_to_underscore lower strip
strange-scope = refl

unseen : find "T-2" [] ≡ none
unfolding find
unseen = refl

unknown_scope_aborts_example : fold_all (some []) (strange ∷ ledger) ≡ none
unknown_scope_aborts_example =
    unknown_scope_aborts [] strange ledger strange-valid unseen strange-scope

dedupe_events-IsMerge_example :
    IsMerge (closed ∷ created ∷ closed ∷ []) (dedupe_events (closed ∷ created ∷ closed ∷ []))
dedupe_events-IsMerge_example = dedupe_events-IsMerge (closed ∷ created ∷ closed ∷ [])

abbrev blank : TaskEvent
blank = event "task_created" "e0" "T-0" "2026-01-01" []

abbrev open_task : Task
open_task = task_with_scope created "company"

abbrev urgent_task : Task
urgent_task = record (task_with_scope blank "repo") { priority_of = "urgent" }

abbrev done_task : Task
done_task = record (task_with_scope strange "company") { status_of = "done" }

-- The tasks of ana that touch the repository app of the company acme, in every state.
abbrev everything : TaskFilter
everything = record {
  status = "";
  assignee = "";
  mine_actor = "ana";
  scope = "";
  repository_id = "app";
  company_id = "acme";
  label = "";
  include_terminal = true;
}

abbrev todo : TaskFilter
todo = record everything { status = " TODO " }

abbrev three_tasks : List Task
three_tasks = done_task ∷ open_task ∷ urgent_task ∷ []

todo_open : normalize_status " TODO " ≡ some "open"
unfolding normalize_status dash_to_underscore lower strip
todo_open = refl

todo_sorted : filter_and_sort todo three_tasks ≡ some (urgent_task ∷ open_task ∷ [])
unfolding filter_and_sort sorted_selection select keep_match task_matches and_next status_passes
    same_as scope_passes others_pass has_text is_mine task_touches_repo normalize_status
    priority_rank invert task_key sort_tasks sort insert dash_to_underscore lower strip
todo_sorted = refl

unknown_scope_fails : filter_and_sort (record todo { scope = "galaxy" }) three_tasks ≡ none
unfolding filter_and_sort sorted_selection select keep_match task_matches and_next status_passes
    same_as scope_passes normalize_status normalize_scope dash_to_underscore lower strip
unknown_scope_fails = refl

filter_and_sort-IsListing_example :
    (out : List Task) × (filter_and_sort todo three_tasks ≡ some out)
    × IsListing todo three_tasks out
filter_and_sort-IsListing_example =
    filter_and_sort-IsListing todo three_tasks (inr ("open", todo_open), inl refl)

abbrev opening : EventArgs
opening = record {
  event_type = "task_created";
  event_id = "e1 ";
  task_ref = "T-1";
  timestamp = "2026-01-01";
  actor_id = "ana";
  actor_display = "Ana";
  company_id = "acme";
  scope = "Multi-Repo";
  repository_id = "app";
  repositories_of = "web" ∷ " app" ∷ "web " ∷ [];
  fields = status "todo" ∷ labels ("b" ∷ " " ∷ "a" ∷ []) ∷ [];
  comment = "";
}

abbrev made_event : TaskEvent
made_event = record created {
  repository_id = "";
  scope = some "multi_repo";
  event_repositories = "app" ∷ "web" ∷ [];
  fields = status "open" ∷ labels ("a" ∷ "b" ∷ []) ∷ [];
}

made_event-made : make_event opening ≡ some made_event
unfolding make_event finish_event scope_event place_event normalize_fields keep_field
    normalize_field clean_list seen_texts add_text has_text normalize_status normalize_scope
    validate_event sort insert dash_to_underscore lower strip
made_event-made = refl

materialize_made_example :
    ((e : TaskEvent) → Memᴰ e (made_event ∷ []) → validate_event e ≡ true)
    × ((s : State) × (materialize (made_event ∷ []) ≡ some s))
materialize_made_example = materialize_made (made_event ∷ []) all_made
  where
    all_made :
        (e : TaskEvent) → Memᴰ e (made_event ∷ []) → (a : EventArgs) × (make_event a ≡ some e)
    all_made e (Memᴰ.head q) = (opening, made_event-made ∙ ap some (sym q))
    all_made e (Memᴰ.tail m) = elim m [ ]
