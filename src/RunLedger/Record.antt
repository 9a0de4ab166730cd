-- ===== src/RunLedger/Record.antt =====
-- `validate_run_ledger_record` of backend/shared/canon_backend_shared/run_ledger.py.
--
-- The slots of the validation outcomes are read in the order of the source, where Python's set has
-- any order: the result is a dict.
use canon_systems.Base.{
  String, Bool, true, false, not, ◌&&◌, ◌||◌, Option, none, some, List, [], ◌∷◌, leb, str_eq,
  non_empty, if◌then◌else◌,
}
use canon_systems.Base.Json.{
  Json, Elements, Members, null, number, string, object, no_members, member, get, has, is_null,
  str_of,
}
use canon_systems.RunLedger.{
  ledger_error, not_integer, Outcome, good, raise, ◌>>=◌, ◌>>◌, fail_if, sanitize_ledger_segment,
  parse_ledger_run_id, reject_forbidden_keys, normalize_sha256_hex, entry, build_run_ledger_pk,
  build_run_ledger_sk,
}
use canon_systems.RunLedger.Fields.{
  is_blank, int_of, normalize_archive_ref_item, normalize_ref_list, normalize_timestamp,
  normalize_optional_str, copy_texts, normalize_commits, normalize_pull_request,
  normalize_deployment,
}
use canon_systems.RunLedger.Parts.{Scope, Heading, Lists, Links, Parts, record_members}

abbrev pub outcome_slots : List String
outcome_slots =
    "qa_validate" ∷ "flow_audit" ∷ "memory_health" ∷ "ci" ∷ "deployment_smoke" ∷ "merge_readiness"
    ∷ []

abbrev pub is_slot : String → List String → Bool
is_slot k [] = false
is_slot k (s ∷ ss) = str_eq k s || is_slot k ss

abbrev pub only_slots : Members → Bool
only_slots no_members = true
only_slots (member k v ms) = is_slot k outcome_slots && only_slots ms

abbrev pub with_exit_code : Json → Members → Outcome Members
unfolding int_of
with_exit_code v block =
    if is_null v
    then good block
    else elim (int_of v) [ none ↦ raise ledger_error | some n ↦ good (member "exit_code" n block) ]

abbrev pub add_block : String → Members → Members → Members
add_block slot no_members rest = rest
add_block slot (member k v ms) rest = member slot (object (member k v ms)) rest

module _ (repr : Json → String) where
  unfoldable pub normalize_slot : Json → Outcome Members
  unfolding copy_texts with_exit_code reject_forbidden_keys
  normalize_slot (object raw) = do
    reject_forbidden_keys raw
    block ←
        copy_texts repr 2048
          ("status" ∷ "verdict" ∷ "summary" ∷ "checked_at" ∷ "job_url" ∷ "artifact_uri" ∷ []) raw
    with_exit_code (get raw "exit_code") block
  normalize_slot _ = raise ledger_error

  abbrev pub normalize_slots : List String → Members → Outcome Members
  unfolding normalize_slot
  normalize_slots [] raw = good no_members
  normalize_slots (s ∷ ss) raw =
      let rest = normalize_slots ss raw in
      if is_null (get raw s)
      then rest
      else do block ← normalize_slot (get raw s); others ← rest; good (add_block s block others)

  unfoldable pub normalize_validation_outcomes : Json → Outcome Members
  unfolding normalize_slots
  normalize_validation_outcomes null = good no_members
  normalize_validation_outcomes (object raw) = do
    fail_if (not (only_slots raw)) ledger_error
    normalize_slots outcome_slots raw
  normalize_validation_outcomes _ = raise ledger_error

  abbrev pub evidence_value : String → Json → Outcome String
  unfolding normalize_sha256_hex normalize_optional_str
  evidence_value k v =
      if str_eq k "content_sha256"
      then normalize_sha256_hex (str_of repr v)
      else normalize_optional_str repr 4096 v

  abbrev pub copy_evidence : List String → Members → Outcome Members
  unfolding evidence_value
  copy_evidence [] raw = good no_members
  copy_evidence (k ∷ ks) raw =
      let rest = copy_evidence ks raw in
      if is_blank (get raw k)
      then rest
      else do s ← evidence_value k (get raw k); others ← rest; good (member k (string s) others)

  abbrev pub some_evidence : Members → Outcome Json
  some_evidence no_members = raise ledger_error
  some_evidence (member k v ms) = good (object (member k v ms))

  unfoldable pub normalize_evidence_ref_item : Json → Outcome Json
  unfolding copy_evidence reject_forbidden_keys
  normalize_evidence_ref_item (object raw) = do
    reject_forbidden_keys raw
    out ←
        copy_evidence
          ("ref_kind" ∷ "uri" ∷ "label" ∷ "content_sha256" ∷ "s3_uri" ∷ "s3_key" ∷ "evidence_kind"
            ∷ [])
          raw
    some_evidence out
  normalize_evidence_ref_item _ = raise ledger_error

  abbrev pub source_event_id : Json → Outcome Json
  unfolding normalize_optional_str
  source_event_id v = do
    s ← normalize_optional_str repr 256 v
    fail_if (not (non_empty s)) ledger_error
    good (string s)

  unfoldable pub normalize_source_event_ids : Json → Outcome Elements
  unfolding source_event_id normalize_ref_list
  normalize_source_event_ids raw = normalize_ref_list 256 source_event_id raw

  -- `int(data.get("schema_version", 1)) == 1`.
  abbrev pub check_version : Members → Outcome (Unit {0})
  unfolding int_of
  check_version ms =
      if not (has ms "schema_version") then good tt else elim (int_of (get ms "schema_version")) [
        | none ↦ raise not_integer
        | some (number n) ↦ fail_if (not (leb 1 n && leb n 1)) ledger_error
        | some _ ↦ raise ledger_error
      ]

  -- `sanitize_ledger_segment(str(data[k]))`.
  unfoldable pub segment_of : Members → String → Outcome String
  unfolding entry sanitize_ledger_segment
  segment_of ms k = do v ← entry ms k; sanitize_ledger_segment (str_of repr v)

  unfoldable pub validate_scope : Members → Outcome Scope
  unfolding segment_of
  validate_scope ms = do
    c ← segment_of ms "company_id"
    r ← segment_of ms "repository_id"
    p ← segment_of ms "plan_id"
    t ← segment_of ms "task_id"
    w ← segment_of ms "workstream_id"
    h ← segment_of ms "handoff_id"
    f ← segment_of ms "phase"
    good (record {
      company_id = c;
      repository_id = r;
      plan_id = p;
      task_id = t;
      workstream_id = w;
      handoff_id = h;
      phase = f;
    })

module _ (repr : Json → String) (uuid : String → Option String) where
  -- `str(data.get("ledger_run_id", ""))`.
  abbrev pub run_id_text : Members → String
  run_id_text ms = if has ms "ledger_run_id" then str_of repr (get ms "ledger_run_id") else ""

  unfoldable pub validate_heading : Members → Outcome Heading
  unfolding reject_forbidden_keys parse_ledger_run_id validate_scope normalize_optional_str
      normalize_timestamp
  validate_heading ms = do
    reject_forbidden_keys ms
    check_version repr ms
    id ← parse_ledger_run_id uuid (run_id_text ms)
    s ← validate_scope repr ms
    phase_status ← normalize_optional_str repr 128 (get ms "phase_status")
    fail_if (not (non_empty phase_status)) ledger_error
    created_at ← normalize_timestamp repr true (get ms "created_at")
    updated_at ← normalize_timestamp repr false (get ms "updated_at")
    verdict ← normalize_optional_str repr 128 (get ms "verdict")
    good (record {
      ledger_run_id = id;
      scope = s;
      phase_status = phase_status;
      created_at = created_at;
      updated_at = updated_at;
      verdict = verdict;
    })

  unfoldable pub validate_lists : Members → Outcome Lists
  unfolding normalize_ref_list normalize_archive_ref_item normalize_evidence_ref_item
      normalize_validation_outcomes normalize_commits
  validate_lists ms = do
    archive_refs ← normalize_ref_list 512 normalize_archive_ref_item (get ms "archive_refs")
    evidence_refs ←
        normalize_ref_list 256 (normalize_evidence_ref_item repr) (get ms "evidence_refs")
    outcomes ← normalize_validation_outcomes repr (get ms "validation_outcomes")
    commits ← normalize_commits repr (get ms "commits")
    good (record {
      archive_refs = archive_refs;
      evidence_refs = evidence_refs;
      validation_outcomes = outcomes;
      commits = commits;
    })

  unfoldable pub validate_links : Members → Outcome Links
  unfolding normalize_pull_request normalize_deployment normalize_source_event_ids
      normalize_optional_str
  validate_links ms = do
    pull_request ← normalize_pull_request repr (get ms "pull_request")
    deployment ← normalize_deployment repr (get ms "deployment")
    source_event_ids ← normalize_source_event_ids repr (get ms "source_event_ids")
    agent_run_id ← normalize_optional_str repr 256 (get ms "agent_run_id")
    actor_id ← normalize_optional_str repr 256 (get ms "actor_id")
    good (record {
      pull_request = pull_request;
      deployment = deployment;
      source_event_ids = source_event_ids;
      agent_run_id = agent_run_id;
      actor_id = actor_id;
    })

  unfoldable pub validate_parts : Members → Outcome Parts
  unfolding validate_heading validate_lists validate_links
  validate_parts ms = do
    heading ← validate_heading ms
    lists ← validate_lists ms
    links ← validate_links ms
    good (record { heading = heading; lists = lists; links = links })

  unfoldable pub validate_run_ledger_record : Members → Outcome Members
  unfolding validate_parts record_members reject_forbidden_keys
  validate_run_ledger_record ms = do
    p ← validate_parts ms
    reject_forbidden_keys (record_members p)
    good (record_members p)

  -- `v[k]` of a validated record, where it is a text.
  abbrev pub text_at : Members → String → String
  text_at v k = str_of repr (get v k)

  unfoldable pub ledger_keys_for_record : Members → Outcome (String × String)
  unfolding validate_run_ledger_record build_run_ledger_pk build_run_ledger_sk
  ledger_keys_for_record ms = do
    v ← validate_run_ledger_record ms
    pk ← build_run_ledger_pk (text_at v "company_id") (text_at v "repository_id")
    sk ←
        build_run_ledger_sk (text_at v "plan_id") (text_at v "task_id") (text_at v "workstream_id")
          (text_at v "ledger_run_id")
    good (pk, sk)
