-- ===== src/StateApi/Rows.antt =====
-- backend/state-api/state_api/models.py: requests, answers, and how a row is read.
use Prim.Native.String.{◌++◌}
use canon_systems.Base.{ℕ, String, Bool, true, false, ◌&&◌, Option, none, some, ltb, truthy, get_or}
use canon_systems.Dynamo.{Doc, mapping, sequence, Item, Key}

pub record ScopeIds : Type 0 where
  pub company_id : String
  pub repository_id : String
  pub plan_id : String
  pub task_id : String
  pub workstream_id : String

pub record LeaseInfo : Type 0 where
  pub owner_agent_run_id : String
  pub owner_actor_id : String
  pub acquired_at : ℕ
  pub expires_at : ℕ

pub record CheckpointBody : Type 0 where
  pub schema_version : ℕ
  pub scope : ScopeIds
  pub handoff_id : String
  pub phase : String
  pub phase_status : String
  pub state_version : ℕ
  pub lease : Option LeaseInfo
  pub inputs : Option Doc
  pub outputs : Option Doc
  pub decisions : Option Doc
  pub open_questions : Option Doc
  pub last_event_id : String
  pub updated_at : String

-- `last_event_id` of the request is not read by the handler.
pub record CheckpointPutRequest : Type 0 where
  pub scope : ScopeIds
  pub handoff_id : String
  pub phase : String
  pub phase_status : String
  pub state_version : ℕ
  pub lease_token : String
  pub inputs : Option Doc
  pub outputs : Option Doc
  pub decisions : Option Doc
  pub open_questions : Option Doc

pub record LeaseAcquireRequest : Type 0 where
  pub scope : ScopeIds
  pub owner_agent_run_id : String
  pub owner_actor_id : String
  pub ttl_seconds : ℕ

pub record LeaseAcquireResponse : Type 0 where
  pub lease_token : String
  pub expires_at : ℕ
  pub acquired_at : ℕ
  pub owner_agent_run_id : String
  pub owner_actor_id : String

pub record LeaseRenewRequest : Type 0 where
  pub scope_ids : ScopeIds
  pub lease_token : String
  pub ttl_seconds : ℕ

pub record LeaseRenewResponse : Type 0 where
  pub lease_token : String
  pub expires_at : ℕ

pub record LeaseReleaseRequest : Type 0 where
  pub scope_ids : ScopeIds
  pub lease_token : String

pub record ConflictError : Type 0 where
  pub error : String
  pub expected : Option ℕ
  pub actual : Option ℕ
  pub owner_agent_run_id : Option String
  pub expires_at : Option ℕ

abbrev pub conflict_error : String → ConflictError
conflict_error e = record {
  error = e;
  expected = none;
  actual = none;
  owner_agent_run_id = none;
  expires_at = none;
}

-- `_ttl_bounds`, by which both requests with a `ttl_seconds` are validated.
abbrev pub ttl_bounds : ℕ → Bool
ttl_bounds v = ltb 0 v && ltb v 3601

-- An attribute that is missing and one that is no number are one case here, as `int` makes them.
unfoldable pub item_has_live_lease : Item → ℕ → Bool
item_has_live_lease item now_epoch = elim (item.num "lease_expires_at") [
  | none ↦ false
  | some exp ↦ ltb now_epoch exp && truthy (item.str "lease_token")
]

abbrev pub lease_times : Item → Option ℕ → Option ℕ → Option LeaseInfo
lease_times item (some acquired) (some expires) = some (record {
  owner_agent_run_id = get_or (item.str "lease_owner_agent_run_id") "";
  owner_actor_id = get_or (item.str "lease_owner_actor_id") "";
  acquired_at = acquired;
  expires_at = expires;
})
lease_times item _ _ = none

unfoldable pub lease_from_item : Item → Option LeaseInfo
lease_from_item item = elim (truthy (item.str "lease_token")) [
  | true ↦ lease_times item (item.num "lease_acquired_at") (item.num "lease_expires_at")
  | false ↦ none
]

-- `item.get(k) if isinstance(item.get(k), dict) else None`, and so for a list.
abbrev pub if_mapping : Option Doc → Option Doc
if_mapping (some (mapping d)) = some (mapping d)
if_mapping _ = none

abbrev pub if_sequence : Option Doc → Option Doc
if_sequence (some (sequence d)) = some (sequence d)
if_sequence _ = none

-- The five reads `item["company_id"]`, …: a missing one raises `KeyError`.
abbrev pub scope_of :
    Option String → Option String → Option String → Option String → Option String → Option ScopeIds
scope_of (some c) (some r) (some p) (some t) (some w) =
    some (record { company_id = c; repository_id = r; plan_id = p; task_id = t; workstream_id = w })
scope_of _ _ _ _ _ = none

abbrev pub item_scope : Item → Option ScopeIds
item_scope i =
    scope_of (i.str "company_id") (i.str "repository_id") (i.str "plan_id") (i.str "task_id")
      (i.str "workstream_id")

unfoldable pub checkpoint_of : Item → ScopeIds → CheckpointBody
checkpoint_of item scope = record {
  schema_version = get_or (item.num "schema_version") 1;
  scope = scope;
  handoff_id = get_or (item.str "handoff_id") "";
  phase = get_or (item.str "phase") "";
  phase_status = get_or (item.str "phase_status") "";
  state_version = get_or (item.num "state_version") 0;
  lease = lease_from_item item;
  inputs = if_mapping (item.doc "inputs");
  outputs = if_mapping (item.doc "outputs");
  decisions = if_sequence (item.doc "decisions");
  open_questions = if_sequence (item.doc "open_questions");
  last_event_id = get_or (item.str "last_event_id") "";
  updated_at = get_or (item.str "updated_at") "";
}

-- `none` is the `KeyError` of a row without its five identifiers.
unfoldable pub checkpoint_from_item : Item → Option CheckpointBody
checkpoint_from_item item = elim (item_scope item) [
  | none ↦ none
  | some scope ↦ some (checkpoint_of item scope)
]

unfoldable pub pk_sk : ScopeIds → Key
pk_sk s = (
  s.company_id ++ ("#" ++ s.repository_id),
  s.plan_id ++ ("#" ++ (s.task_id ++ ("#" ++ s.workstream_id))),
)
