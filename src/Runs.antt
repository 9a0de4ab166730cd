-- ===== src/Runs.antt =====
-- Orchestration runs: the rows and requests of backend/knowledge-api/app/models/run_db.py and
-- run_api.py, and the database session of SQLAlchemy that app/services/runs.py works on.
--
-- The session is third-party code and so a parameter, the record `Session`: a table of runs by
-- their primary key, the existence of artifacts and work items, and an `UPDATE … WHERE` with its
-- row count. A column's datetime is the text that `isoformat` prints. An exception of the
-- database itself (a lost connection, a broken foreign key) is not modelled.
pub mod Memory
pub mod Service
pub mod Listing
pub mod Events
pub mod Logged
pub mod Claims
pub mod Lifecycle
mod Tests
use mathlib.Core.List.{Memᴰ}
use canon_systems.Base.{ℕ, String, ◌≡◌, ◌≢◌, ◌⊎◌, Bool, true, false, Option, none, some, List}

pub record RunOrm : Type 0 where
  pub id : String
  pub stage : String
  pub status : String
  pub dispatch_status : String
  pub launch_mode : Option String
  pub initiated_by : String
  pub orchestration_runtime : Option String
  pub workflow_type : Option String
  pub task_queue : Option String
  pub capability_class : Option String
  pub provider_lane : Option String
  pub fallback_lane : Option String
  pub parent_run_id : Option String
  pub dispatch_payload_json : Option String
  pub claimed_by : Option String
  pub claimed_at : Option String
  pub source_conversation_id : Option String
  pub scope_artifact_id : Option String
  pub plan_packet_artifact_id : Option String
  pub scaffold_blueprint_artifact_id : Option String
  pub execution_packet_artifact_id : Option String
  pub work_item_id : Option String
  pub jira_issue_key : Option String
  pub canon_task_id : Option String
  pub task_title : Option String
  pub repository_id : Option String
  pub scope_id : Option String
  pub started_at : String
  pub ended_at : Option String

pub record CreateRunRequest : Type 0 where
  pub run_id : String
  pub stage : String
  pub status : String
  pub initiated_by : String
  pub launch_mode : Option String
  pub source_conversation_id : Option String
  pub scope_artifact_id : Option String
  pub plan_packet_artifact_id : Option String
  pub scaffold_blueprint_artifact_id : Option String
  pub execution_packet_artifact_id : Option String
  pub work_item_id : Option String
  pub jira_issue_key : Option String
  pub canon_task_id : Option String
  pub task_title : Option String
  pub repository_id : Option String
  pub scope_id : Option String

pub record DispatchRunRequest : Type 0 where
  pub orchestration_runtime : String
  pub workflow_type : String
  pub task_queue : String
  pub capability_class : String
  pub provider_lane : String
  pub fallback_lane : Option String
  pub parent_run_id : Option String
  pub dispatch_payload_json : Option String
  pub dispatch_status : String
  pub launch_mode : Option String
  pub source_conversation_id : Option String
  pub scope_artifact_id : Option String
  pub plan_packet_artifact_id : Option String
  pub scaffold_blueprint_artifact_id : Option String
  pub execution_packet_artifact_id : Option String
  pub jira_issue_key : Option String
  pub canon_task_id : Option String
  pub task_title : Option String

pub record TransitionRunDispatchRequest : Type 0 where
  pub expected_dispatch_status : String
  pub next_dispatch_status : String
  pub transition_actor_id : String

pub record AdvanceRunLifecycleRequest : Type 0 where
  pub next_dispatch_status : String
  pub transition_actor_id : String
  pub expected_dispatch_status : Option String
  pub status_override : Option String
  pub stage_override : Option String

pub data Table : Type 0 where
  artifacts work_items : Table

-- The session. `save` is `add`, `commit` and `refresh` of a row, `update_dispatch` the statement
-- `UPDATE runs … WHERE id = … AND dispatch_status = …` with the number of rows it changed, and
-- `runs_desc` the rows by `started_at`, the latest first.
pub record Session : Type 1 where
  pub State : Type 0
  pub get : State → String → Option RunOrm
  pub exists : State → Table → String → Bool
  pub save : State → RunOrm → State
  pub update_dispatch : State → String → String → (RunOrm → RunOrm) → State × ℕ
  pub runs_desc : State → List RunOrm
  pub get_law : (s : State) (k : String) (r : RunOrm) → get s k ≡ some r → r.id ≡ k
  pub save_law :
      (s : State) (r : RunOrm)
      → (get (save s r) r.id ≡ some r) × ((k : String) → k ≢ r.id → get (save s r) k ≡ get s k)
  pub hit_law :
      (s : State) (k expected : String) (f : RunOrm → RunOrm) (r : RunOrm)
      → get s k ≡ some r
      → r.dispatch_status ≡ expected
      → (f r).id ≡ r.id
      → (s' : State) × (update_dispatch s k expected f ≡ (s', 1))
        × (get s' k ≡ some (f r))
        × ((j : String) → j ≢ k → get s' j ≡ get s j)
  pub miss_law :
      (s : State) (k expected : String) (f : RunOrm → RunOrm) (r : RunOrm)
      → get s k ≡ some r
      → r.dispatch_status ≢ expected
      → update_dispatch s k expected f ≡ (s, 0)
  pub runs_law : (s : State) (r : RunOrm) → Memᴰ r (runs_desc s) → get s r.id ≡ some r
