-- ===== src/StateApi/Checkpoints.antt =====
-- backend/state-api/state_api/checkpoints.py: the GET and PUT routes of a checkpoint.
--
-- As in `Leases`, the row that the handler reads first (`existing`) and the one it reads after a
-- failed condition (`again`) are arguments, and so are the clock, its text and the event's id.
use canon_systems.Base.{
  ℕ, String, not, ◌&&◌, Option, none, some, List, [], ◌∷◌, ◌++◌, ltb, eqb, str_eq, truthy, get_or,
  if◌then◌else◌,
}
use canon_systems.Dynamo.{Doc, Item, Key, Reply, done, failed, conditional_check_failed, Dynamo}
use canon_systems.StateApi.Rows.{
  ScopeIds, CheckpointBody, CheckpointPutRequest, conflict_error, checkpoint_from_item, pk_sk,
}
use canon_systems.StateApi.Store.{get_item, put_checkpoint}
use canon_systems.StateApi.Leases.{Response, success, conflict, not_found, crash}

abbrev pub without_lease : Option String → String → String × Option ℕ
without_lease none lease_token = ("lease_required", none)
without_lease (some db_tok) lease_token =
    if str_eq db_tok lease_token then ("lease_expired", none) else ("lease_required", none)

-- The code and the actual version that a failed PUT is answered with.
unfoldable pub classify_put_failure : Option Item → ℕ → String → ℕ → String × Option ℕ
classify_put_failure none expected_state_version lease_token now = ("not_found", none)
classify_put_failure (some item) expected_state_version lease_token now =
    if not (eqb (get_or (item.num "state_version") 0) expected_state_version)
    then ("state_version_conflict", some (get_or (item.num "state_version") 0))
    else if not
        (truthy (item.str "lease_token") && ltb now (get_or (item.num "lease_expires_at") 0))
    then without_lease (item.str "lease_token") lease_token
    else if not (str_eq (get_or (item.str "lease_token") "None") lease_token)
    then ("lease_token_mismatch", none)
    else ("lease_required", none)

-- The canonical event that a successful PUT emits; its constant fields are left out.
pub record CheckpointEvent : Type 0 where
  pub event_id : String
  pub parent_event_id : String
  pub scope : ScopeIds
  pub handoff_id : String
  pub agent_run_id : String
  pub actor_id : String
  pub timestamp : String
  pub state_version : ℕ
  pub phase : String
  pub phase_status : String

-- The answer, the events that were emitted and the table.
pub record PutResult (T : Type 0) : Type 0 where
  pub response : Response CheckpointBody
  pub emitted : List CheckpointEvent
  pub table : T

abbrev pub optional : String → Option Doc → List (String × Doc)
optional k none = []
optional k (some d) = (k, d) ∷ []

abbrev pub optional_sets : CheckpointPutRequest → List (String × Doc)
optional_sets body =
    optional "inputs" body.inputs
    ++ (optional "outputs" body.outputs
        ++ (optional "decisions" body.decisions ++ optional "open_questions" body.open_questions))

abbrev pub prior_event : Option Item → String
prior_event none = ""
prior_event (some i) = get_or (i.str "last_event_id") ""

abbrev pub body_response : Option CheckpointBody → Response CheckpointBody
body_response none = crash "KeyError"
body_response (some b) = success b

unfoldable pub checkpoint_event :
    CheckpointPutRequest → Option Item → String → String → Item → CheckpointEvent
checkpoint_event body existing updated_at event_id attrs = record {
  event_id = event_id;
  parent_event_id = prior_event existing;
  scope = body.scope;
  handoff_id = body.handoff_id;
  agent_run_id = get_or (attrs.str "lease_owner_agent_run_id") "";
  actor_id = get_or (attrs.str "lease_owner_actor_id") "";
  timestamp = updated_at;
  state_version = get_or (attrs.num "state_version") 0;
  phase = body.phase;
  phase_status = body.phase_status;
}

-- How a failed condition is answered.
abbrev pub put_failure : Key → CheckpointPutRequest → String × Option ℕ → Response CheckpointBody
put_failure k body (code, actual_sv) =
    if str_eq code "not_found"
    then not_found k
    else if str_eq code "state_version_conflict"
    then conflict
        (record (conflict_error code) { expected = some body.state_version; actual = actual_sv })
    else conflict (conflict_error code)

module _ (db : Dynamo) where
  open db use {Table}

  unfoldable pub get_checkpoint : ScopeIds → Table → Response CheckpointBody
  unfolding get_item
  get_checkpoint scope t = elim (get_item db t (pk_sk scope)) [
    | none ↦ not_found (pk_sk scope)
    | some item ↦ body_response (checkpoint_from_item item)
  ]

  abbrev pub finish_put :
      CheckpointPutRequest
      → ℕ
      → String
      → String
      → Option Item
      → Option Item
      → Table
      → Reply Table
      → PutResult Table
  finish_put body now updated_at event_id existing again t (done t' attrs) = record {
    response = body_response (checkpoint_from_item attrs);
    emitted = checkpoint_event body existing updated_at event_id attrs ∷ [];
    table = t';
  }
  finish_put body now updated_at event_id existing again t (failed code) =
      if str_eq code conditional_check_failed
      then record {
        response =
            put_failure (pk_sk body.scope) body
              (classify_put_failure again body.state_version body.lease_token now);
        emitted = [];
        table = t;
      }
      else record { response = crash code; emitted = []; table = t }

  unfoldable pub put_checkpoint_route :
      CheckpointPutRequest
      → ℕ
      → String
      → String
      → Option Item
      → Option Item
      → Table
      → PutResult Table
  put_checkpoint_route body now updated_at event_id existing again t =
      finish_put body now updated_at event_id existing again t (
        put_checkpoint db t (pk_sk body.scope) body.state_version body.lease_token now
          (record {
            phase = body.phase;
            phase_status = body.phase_status;
            updated_at = updated_at;
            new_last_event_id = event_id;
            handoff_id = body.handoff_id;
          })
          (optional_sets body))
