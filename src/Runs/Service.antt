-- ===== src/Runs/Service.antt =====
-- The operations of backend/knowledge-api/app/services/runs.py that read or write one run. An
-- `HTTPException` is a `refused` result with its status code and detail; the state stays.
use Prim.Native.String.{◌++◌ as text_append}
use canon_systems.Base.{
  ℕ, String, Bool, true, false, not, Option, none, some, List, [], ◌∷◌, str_eq, eqb, if◌then◌else◌,
}
use canon_systems.Runs.{
  RunOrm, CreateRunRequest, DispatchRunRequest, TransitionRunDispatchRequest,
  AdvanceRunLifecycleRequest, Table, artifacts, work_items, Session,
}

-- What a call ends with: the new state and its answer, or a status code and a detail.
pub data Result (S A : Type 0) : Type 0 where
  ok : S → A → Result S A
  refused : ℕ → String → Result S A

abbrev pub same_text : Option String → Option String → Bool
same_text none none = true
same_text none (some b) = false
same_text (some a) none = false
same_text (some a) (some b) = str_eq a b

-- Whether `_ensure_run_company_scope` returns.
unfoldable pub ensure_run_company_scope : Option RunOrm → Option String → Bool
ensure_run_company_scope row none = true
ensure_run_company_scope none (some c) = true
ensure_run_company_scope (some r) (some c) = same_text r.scope_id (some c)

-- `values` of `transition_run_dispatch`, applied to the row; `now` is the clock.
unfoldable pub transition_values : TransitionRunDispatchRequest → String → RunOrm → RunOrm
transition_values q now row =
    if str_eq q.next_dispatch_status "claimed"
    then record row {
      dispatch_status = q.next_dispatch_status;
      claimed_by = some q.transition_actor_id;
      claimed_at = some now;
    }
    else record row { dispatch_status = q.next_dispatch_status }

abbrev pub human_stage : String → String
human_stage stage = if str_eq stage "human_blocked" then "execution_packet" else stage

-- The chain on `status_override` and `next_dispatch_status`.
unfoldable pub advance_status : AdvanceRunLifecycleRequest → String → RunOrm → RunOrm
advance_status q now row = elim q.status_override [
  | some s ↦ record row { status = s }
  | none ↦
      if str_eq q.next_dispatch_status "started"
      then record row { status = "started"; stage = human_stage row.stage }
      else if str_eq q.next_dispatch_status "waiting_for_human"
      then record row { status = "waiting_for_human"; stage = "human_blocked" }
      else if str_eq q.next_dispatch_status "completed"
      then record row { status = "completed"; stage = "completed"; ended_at = some now }
      else if str_eq q.next_dispatch_status "failed"
      then record row { status = "failed"; stage = "failed"; ended_at = some now }
      else row
]

abbrev pub override_stage : Option String → RunOrm → RunOrm
override_stage none row = row
override_stage (some s) row = record row { stage = s }

-- `row.dispatch_status = request.next_dispatch_status`
abbrev pub with_status : AdvanceRunLifecycleRequest → RunOrm → RunOrm
with_status q row = record row { dispatch_status = q.next_dispatch_status }

unfoldable pub advance_row : AdvanceRunLifecycleRequest → String → RunOrm → RunOrm
unfolding advance_status
advance_row q now row = advance_status q now (override_stage q.stage_override (with_status q row))

abbrev pub keep_or : Option String → Option String → Option String
keep_or none old = old
keep_or (some v) old = some v

unfoldable pub dispatch_row : DispatchRunRequest → RunOrm → RunOrm
dispatch_row q row = record row {
  dispatch_status = q.dispatch_status;
  orchestration_runtime = some q.orchestration_runtime;
  workflow_type = some q.workflow_type;
  task_queue = some q.task_queue;
  capability_class = some q.capability_class;
  provider_lane = some q.provider_lane;
  fallback_lane = q.fallback_lane;
  parent_run_id = q.parent_run_id;
  dispatch_payload_json = q.dispatch_payload_json;
  launch_mode = keep_or q.launch_mode row.launch_mode;
  source_conversation_id = keep_or q.source_conversation_id row.source_conversation_id;
  scope_artifact_id = keep_or q.scope_artifact_id row.scope_artifact_id;
  plan_packet_artifact_id = keep_or q.plan_packet_artifact_id row.plan_packet_artifact_id;
  scaffold_blueprint_artifact_id =
      keep_or q.scaffold_blueprint_artifact_id row.scaffold_blueprint_artifact_id;
  execution_packet_artifact_id =
      keep_or q.execution_packet_artifact_id row.execution_packet_artifact_id;
  jira_issue_key = keep_or q.jira_issue_key row.jira_issue_key;
  canon_task_id = keep_or q.canon_task_id row.canon_task_id;
  task_title = keep_or q.task_title row.task_title;
}

-- The row that `create_run` adds; `now` is the server's default of `started_at`.
unfoldable pub new_run : CreateRunRequest → String → RunOrm
new_run q now = record {
  id = q.run_id;
  stage = q.stage;
  status = q.status;
  dispatch_status = "pending";
  launch_mode = q.launch_mode;
  initiated_by = q.initiated_by;
  orchestration_runtime = none;
  workflow_type = none;
  task_queue = none;
  capability_class = none;
  provider_lane = none;
  fallback_lane = none;
  parent_run_id = none;
  dispatch_payload_json = none;
  claimed_by = none;
  claimed_at = none;
  source_conversation_id = q.source_conversation_id;
  scope_artifact_id = q.scope_artifact_id;
  plan_packet_artifact_id = q.plan_packet_artifact_id;
  scaffold_blueprint_artifact_id = q.scaffold_blueprint_artifact_id;
  execution_packet_artifact_id = q.execution_packet_artifact_id;
  work_item_id = q.work_item_id;
  jira_issue_key = q.jira_issue_key;
  canon_task_id = q.canon_task_id;
  task_title = q.task_title;
  repository_id = q.repository_id;
  scope_id = q.scope_id;
  started_at = now;
  ended_at = none;
}

-- A link that a request names: its field, its table and its id.
abbrev pub Link : Type 0
Link = String × Table × Option String

abbrev pub not_found : String → String → String
not_found field id = text_append field (text_append " not found: " id)

module _ (db : Session) where
  open db use {State, get, exists, save, update_dispatch}

  -- `_validate_run_linkages`: the detail of its 404, or none.
  unfoldable pub validate_run_linkages : State → List Link → Option String
  validate_run_linkages s [] = none
  validate_run_linkages s ((field, t, none) ∷ ls) = validate_run_linkages s ls
  validate_run_linkages s ((field, t, some id) ∷ ls) =
      let rest = validate_run_linkages s ls in
      if exists s t id then rest else some (not_found field id)

  unfoldable pub get_run : State → String → Option String → Result State RunOrm
  unfolding ensure_run_company_scope
  get_run s run_id company_scope_id = elim (get s run_id) [
    | none ↦ refused 404 "run not found"
    | some row ↦
        if ensure_run_company_scope (some row) company_scope_id
        then ok s row
        else refused 403 "forbidden"
  ]

  abbrev pub create_links : CreateRunRequest → List Link
  create_links q =
      ("scope_artifact_id", artifacts, q.scope_artifact_id)
      ∷ ("plan_packet_artifact_id", artifacts, q.plan_packet_artifact_id)
      ∷ ("scaffold_blueprint_artifact_id", artifacts, q.scaffold_blueprint_artifact_id)
      ∷ ("execution_packet_artifact_id", artifacts, q.execution_packet_artifact_id)
      ∷ ("work_item_id", work_items, q.work_item_id)
      ∷ []

  unfoldable pub create_run : State → CreateRunRequest → String → Result State RunOrm
  unfolding validate_run_linkages get_run new_run
  create_run s q now = elim (get s q.run_id) [
    | some row ↦ refused 409 "run already exists"
    | none ↦ elim (validate_run_linkages s (create_links q)) [
      | some detail ↦ refused 404 detail
      | none ↦ get_run (save s (new_run q now)) q.run_id none
    ]
  ]

  abbrev pub dispatch_links : DispatchRunRequest → List Link
  dispatch_links q =
      ("scope_artifact_id", artifacts, q.scope_artifact_id)
      ∷ ("plan_packet_artifact_id", artifacts, q.plan_packet_artifact_id)
      ∷ ("scaffold_blueprint_artifact_id", artifacts, q.scaffold_blueprint_artifact_id)
      ∷ ("execution_packet_artifact_id", artifacts, q.execution_packet_artifact_id)
      ∷ []

  abbrev pub missing_parent : State → Option String → Bool
  missing_parent s none = false
  missing_parent s (some p) = elim (get s p) [ none ↦ true | some r ↦ false ]

  unfoldable pub dispatch_run : State → String → DispatchRunRequest → Result State RunOrm
  unfolding validate_run_linkages get_run dispatch_row
  dispatch_run s run_id q = elim (get s run_id) [
    | none ↦ refused 404 "run not found"
    | some row ↦
        if missing_parent s q.parent_run_id
        then refused 404 "parent run not found"
        else elim (validate_run_linkages s (dispatch_links q)) [
          | some detail ↦ refused 404 detail
          | none ↦ get_run (save s (dispatch_row q row)) row.id none
        ]
  ]

  -- What follows the `UPDATE`: a roll back and a 409 unless it changed one row.
  unfoldable pub committed : String → State × ℕ → Result State RunOrm
  unfolding get_run
  committed run_id (s, rowcount) =
      if not (eqb rowcount 1)
      then refused 409 "run dispatch state changed"
      else get_run s run_id none

  unfoldable pub transition_run_dispatch :
      State → String → TransitionRunDispatchRequest → String → Result State RunOrm
  unfolding transition_values committed
  transition_run_dispatch s run_id q now = elim (get s run_id) [
    | none ↦ refused 404 "run not found"
    | some row ↦
        committed run_id
          (update_dispatch s run_id q.expected_dispatch_status (transition_values q now))
  ]

  -- Whether an expected dispatch status is given and is not the row's.
  abbrev pub unexpected : Option String → RunOrm → Bool
  unexpected none row = false
  unexpected (some e) row = not (str_eq row.dispatch_status e)

  unfoldable pub advance_run_lifecycle :
      State → String → AdvanceRunLifecycleRequest → String → Result State RunOrm
  unfolding get_run advance_row
  advance_run_lifecycle s run_id q now = elim (get s run_id) [
    | none ↦ refused 404 "run not found"
    | some row ↦
        if unexpected q.expected_dispatch_status row
        then elim (str_eq q.next_dispatch_status "started") [
          | true ↦
              if str_eq row.dispatch_status "started"
              then get_run s row.id none
              else refused 409 "run dispatch state changed"
          | false ↦ refused 409 "run dispatch state changed"
        ]
        else get_run (save s (advance_row q now row)) row.id none
  ]
