-- ===== src/TaskPlane/Tests.antt =====
-- The theorems on the task plane at a concrete table: the law of `EventTable` can be met.
use canon_systems.Base.{
  List, length, ◌≤◌, arith, String, ◌≡◌, refl, inl, inr, true, Option, none, some, [], ◌∷◌,
  Bool-cases, if◌then◌else◌,
}
use canon_systems.Base.Text.{strip}
use canon_systems.Dynamo.{Key, same_key}
use canon_systems.Dynamo.Expressions.{PutCondition, passes, Put, stored, condition_failed, PutLaw}
use canon_systems.Dynamo.Memory.{same_key_refl, same_key-ne}
use canon_systems.TaskPlane.{
  ServerEvent, any_forbidden, sanitize_segment, build_tasks_pk, build_task_event_sk, event_keys,
  validate_task_event, EventTable,
}
use canon_systems.TaskPlane.Listing.{EventPages, get_tasks, reply}
use canon_systems.TaskPlane.Reads.{get_tasks-joined}
use canon_systems.TaskPlane.Keys.{event_keys_inj}
use canon_systems.TaskPlane.Writes.{post_all, post_all_keeps}

abbrev Rows : Type 0
Rows = String × String → Option ServerEvent

abbrev store_event : Rows → String × String → ServerEvent → Rows
store_event t k e j = if same_key j k then some e else t j

abbrev put_event : Rows → Key → PutCondition → ServerEvent → Put Rows
put_event t k c e = if passes c (t k) then stored (store_event t k e) else condition_failed

put_event_law : PutLaw Rows ServerEvent (λ t k. t k) put_event
put_event_law t k c e = elim (Bool-cases (passes c (t k))) [
  | inl held ↦ inl (
    store_event t k e,
    rw (put_event, held),
    held,
    rw same_key_refl,
    λ j ne. rw (same_key-ne j k ne),
  )
  | inr not_held ↦ inr (inl (rw (put_event, not_held), not_held))
]

abbrev event_table : EventTable
event_table = record {
  Table = Rows;
  get = λ t k. t k;
  put_item = put_event;
  put_law = put_event_law;
}

abbrev empty : Rows
empty k = none

abbrev event : String → ServerEvent
event payload = record {
  event_id = "e1";
  event_type = "task_created";
  task_ref = "T-1";
  timestamp = "2026-01-01";
  actor_id = "ana";
  company_id = " acme ";
  payload = payload;
}

abbrev key : String × String
key = ("acme#tasks", "T-1#evt#e1")

event-key : (payload : String) → event_keys (event payload) ≡ some key
unfolding event_keys build_tasks_pk build_task_event_sk sanitize_segment any_forbidden strip
event-key payload = refl

event-valid : validate_task_event (event "") ≡ true
unfolding validate_task_event sanitize_segment any_forbidden strip
event-valid = refl

event_keys_inj_example :
    (strip " acme " ≡ strip " acme ") × (strip "T-1" ≡ strip "T-1") × (strip "e1" ≡ strip "e1")
event_keys_inj_example = event_keys_inj (event "") (event "x") key (event-key "") (event-key "x")

abbrev one_row : Rows
one_row = store_event empty key (event "")

post_all_keeps_example :
    post_all event_table one_row (event "x" ∷ event "" ∷ []) key ≡ some (event "")
post_all_keeps_example =
    post_all_keeps event_table one_row (event "x" ∷ event "" ∷ []) key (event "") refl

-- The same pages for every partition.
abbrev some_pages : EventPages
some_pages = record {
  Table = List (List ServerEvent);
  pages = λ t pk n. t;
  page_under = λ t pk pre n. [];
  page_limit = λ t pk pre n. omega arith;
}

abbrev two_pages : List (List ServerEvent)
two_pages = (event "a" ∷ event "b" ∷ []) ∷ (event "c" ∷ []) ∷ []

company-key : build_tasks_pk " acme " ≡ some "acme#tasks"
unfolding build_tasks_pk sanitize_segment any_forbidden strip
company-key = refl

get_tasks-joined_example :
    (get_tasks some_pages two_pages " acme " "" 2 ≡ reply (event "a" ∷ event "b" ∷ []))
    × (length (event "a" ∷ event "b" ∷ []) ≤ 2)
get_tasks-joined_example =
    get_tasks-joined some_pages two_pages " acme " "acme#tasks" 2 refl company-key
