-- ===== src/Runs/Tests.antt =====
-- The theorems on runs at concrete rows and requests.
use mathlib.Core.List.{Memᴰ}
use text.Mathlib.Text.{starts_with}
use canon_systems.Base.{false, String, ◌≡◌, ◌≢◌, refl, ◌⊎◌, none, some, List, [], ◌∷◌}
use canon_systems.Base.{str_differ, arith, true}
use canon_systems.Runs.{
  RunOrm, CreateRunRequest, TransitionRunDispatchRequest, AdvanceRunLifecycleRequest,
}
use canon_systems.Runs.Service.{
  ensure_run_company_scope, ok, refused, transition_values, get_run, new_run, create_run,
}
use canon_systems.Runs.Memory.{Rows, find_run, memory}
use canon_systems.Runs.Listing.{Filters, list_runs, company_isolation}
use canon_systems.Runs.Events.{
  RunEvent, CreateRunEventRequest, new_event, create_run_event, list_run_events, has_wildcard,
  list_run_events-mem, create_run_event-listed,
}
use canon_systems.Runs.Logged.{logged_memory, event_log}
use canon_systems.Runs.Claims.{contend, contend-one}
use canon_systems.Runs.Lifecycle.{IsCreated, create_run-once}

abbrev created : CreateRunRequest
created = record {
  run_id = "run-1";
  stage = "scope";
  status = "queued";
  initiated_by = "ana";
  launch_mode = none;
  source_conversation_id = none;
  scope_artifact_id = some "art-1";
  plan_packet_artifact_id = none;
  scaffold_blueprint_artifact_id = none;
  execution_packet_artifact_id = none;
  work_item_id = some "wi-1";
  jira_issue_key = none;
  canon_task_id = none;
  task_title = none;
  repository_id = none;
  scope_id = some "acme";
}

abbrev run_1 : RunOrm
run_1 = new_run created "t0"

abbrev one_run : Rows
one_run = run_1 ∷ []

abbrev claim_by : String → TransitionRunDispatchRequest
claim_by worker = record {
  expected_dispatch_status = "pending";
  next_dispatch_status = "claimed";
  transition_actor_id = worker;
}

abbrev rivals : List TransitionRunDispatchRequest
rivals = claim_by "w2" ∷ claim_by "w3" ∷ []

found_run : find_run one_run "run-1" ≡ some run_1
unfolding new_run
found_run = refl

run_1-pending : run_1.dispatch_status ≡ "pending"
unfolding new_run
run_1-pending = refl

contend-one_example :
    (s' : Rows) × (contend memory one_run "run-1" "t1" (claim_by "w1" ∷ rivals) ≡ (s', 1))
    × (find_run s' "run-1" ≡ some (transition_values (claim_by "w1") "t1" run_1))
    × ((j : String) → j ≢ "run-1" → find_run s' j ≡ find_run one_run j)
contend-one_example =
    contend-one memory "pending" one_run "run-1" "t1" (claim_by "w1") rivals run_1 found_run
      run_1-pending (str_differ "claimed" "pending" refl) (refl, (refl, (refl, refl)))

create_run-once_example :
    (s' : Rows) × (r : RunOrm) × (create_run memory [] created "t0" ≡ ok s' r)
    × (find_run s' "run-1" ≡ some r)
    × IsCreated created "t0" r
    × ((k : String) → k ≢ "run-1" → find_run s' k ≡ find_run [] k)
    × ((p : CreateRunRequest) (later : String)
        → p.run_id ≡ "run-1"
        → create_run memory s' p later ≡ refused 409 "run already exists")
create_run-once_example = create_run-once memory [] created "t0" refl (refl, (refl, refl))

abbrev start : AdvanceRunLifecycleRequest
start = record {
  next_dispatch_status = "started";
  transition_actor_id = "w1";
  expected_dispatch_status = some "claimed";
  status_override = none;
  stage_override = none;
}

abbrev finish : AdvanceRunLifecycleRequest
finish = record {
  next_dispatch_status = "completed";
  transition_actor_id = "w1";
  expected_dispatch_status = some "pending";
  status_override = none;
  stage_override = none;
}

not_claimed : run_1.dispatch_status ≢ "claimed"
unfolding new_run
not_claimed = str_differ "pending" "claimed" refl

abbrev of_acme : Filters
of_acme = record {
  company_scope_id = some "acme";
  stage = none;
  status = none;
  dispatch_status = none;
  launch_mode = none;
  orchestration_runtime = none;
  task_queue = none;
  work_item_id = none;
  source_conversation_id = none;
  scope_artifact_id = none;
  execution_packet_artifact_id = none;
}

company_isolation_example :
    ((r : RunOrm)
      → Memᴰ r (list_runs memory one_run of_acme)
      → (r.scope_id ≡ some "acme") × (find_run one_run r.id ≡ some r))
    × ((k : String) (r : RunOrm)
        → find_run one_run k ≡ some r
        → ((r.scope_id ≡ some "acme") × (get_run memory one_run k (some "acme") ≡ ok one_run r))
          ⊎ ((r.scope_id ≢ some "acme")
              × (get_run memory one_run k (some "acme") ≡ refused 403 "forbidden")))
company_isolation_example = company_isolation memory one_run "acme" of_acme refl

abbrev event_request : CreateRunEventRequest
event_request = record { event_id = "ev-1"; event_type = "dispatch.claimed"; payload_json = none }

create_run_event-listed_example :
    (l : List RunEvent) × (list_run_events logged_memory event_log
        (one_run, new_event event_request "run-1" "t1" ∷ [])
        "run-1"
        (some "acme")
        none
        20
        0
      ≡ ok (one_run, new_event event_request "run-1" "t1" ∷ []) l)
    × Memᴰ (new_event event_request "run-1" "t1") l
unfolding create_run_event new_event new_run ensure_run_company_scope
create_run_event-listed_example =
    create_run_event-listed logged_memory event_log (one_run, [])
      (one_run, new_event event_request "run-1" "t1" ∷ []) "run-1" event_request "t1" (some "acme")
      run_1 20 refl refl refl (omega arith)

list_run_events-mem_example :
    ((run : RunOrm) × (find_run one_run "run-1" ≡ some run)
      × (ensure_run_company_scope (some run) (some "acme") ≡ true))
    × ((e : RunEvent)
        → Memᴰ e (new_event event_request "run-1" "t1" ∷ [])
        → Memᴰ e (new_event event_request "run-1" "t1" ∷ [])
          × (e.run_id ≡ "run-1")
          × ((p : String)
              → some "dispatch." ≡ some p
              → has_wildcard p ≡ false
              → starts_with e.event_type p ≡ true))
unfolding list_run_events new_event new_run ensure_run_company_scope
list_run_events-mem_example =
    list_run_events-mem logged_memory event_log (one_run, new_event event_request "run-1" "t1" ∷ [])
      "run-1" (some "acme") (some "dispatch.") 20 0 (new_event event_request "run-1" "t1" ∷ []) refl
