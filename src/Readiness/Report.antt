-- ===== src/Readiness/Report.antt =====
-- The readiness report, of src/canon_systems/readiness.py, from the row that the fetch gives.
--
-- Of the report, the identifiers that are passed on, the texts for people and the time are left
-- out. The fetch is an argument: its payload or its error.
use Prim.Native.String.{◌++◌ as text_append}
use canon_systems.Base.{
  ℕ, String, Bool, true, false, not, ◌&&◌, ◌||◌, Option, none, some, List, [], ◌∷◌, ◌++◌, leb,
  str_eq, non_empty, if◌then◌else◌,
}
use canon_systems.Base.Json.{
  Json, Elements, Members, null, boolean, number, negative, string, array, object, no_elements,
  no_members, member, get, has, is_null, elements_of, object_of, count_elements, str_of,
  str_or_empty,
}
use canon_systems.Readiness.{
  Warning, limit_hit, mentions, required_archive_phases, phases_of, implementer_satisfied,
  status_warnings, or_value,
}
use canon_systems.Readiness.Snapshot.{snapshot_safe}
use canon_systems.Readiness.Latest.{pick_latest_ledger_record}

pub data Failure : Type 0 where
  missing_archive_phase : String → Failure
  missing_implementer_evidence : Failure
  ledger_record_missing : Failure

pub record Check : Type 0 where
  pub id : String
  pub passed : Bool

pub record Report : Type 0 where
  pub ledger_run_id : Option String
  pub query_mode : String
  pub overall_status : String
  pub ready : Bool
  pub checks : List Check
  pub records : List Json
  pub missing : List String
  pub failures : List Failure
  pub warnings : List Warning
  pub validation_summary : Members
  pub commits : Elements
  pub pull_request : Option Members
  pub deployment : Option Members

abbrev pub is_empty {ℓ} : {A : Type ℓ} → List A → Bool
is_empty [] = true
is_empty (x ∷ xs) = false

-- The required phases that have no reference.
unfoldable pub missing_phases : List String → List String → List String
missing_phases [] phases = []
missing_phases (r ∷ rs) phases =
    let rest = missing_phases rs phases in if mentions r phases then rest else r ∷ rest

abbrev pub phase_check : List String → String → Check
phase_check phases r = record {
  id = text_append "archive_ref.required_phase." r;
  passed = mentions r phases;
}

abbrev pub phase_checks : List String → List String → List Check
phase_checks [] phases = []
phase_checks (r ∷ rs) phases = phase_check phases r ∷ phase_checks rs phases

abbrev pub phase_failures : List String → List Failure
phase_failures [] = []
phase_failures (r ∷ rs) = missing_archive_phase r ∷ phase_failures rs

abbrev pub validation_slots : List String
validation_slots =
    "qa_validate" ∷ "flow_audit" ∷ "memory_health" ∷ "ci" ∷ "deployment_smoke" ∷ "merge_readiness"
    ∷ []

-- The slots that the row has, without the nulls: a missing key and a null read alike.
unfoldable pub slots_of : List String → Members → Members
slots_of [] raw = no_members
slots_of (s ∷ ss) raw =
    let rest = slots_of ss raw in if is_null (get raw s) then rest else member s (get raw s) rest

unfoldable pub summarize_validation_outcomes : Members → Members
unfolding slots_of
summarize_validation_outcomes rec = elim (object_of (get rec "validation_outcomes")) [
  | none ↦ no_members
  | some raw ↦ slots_of validation_slots raw
]

abbrev pub id_or_none : String → Option String
id_or_none s = if non_empty s then some s else none

abbrev pub or_text : Option String → String → String
or_text none d = d
or_text (some s) d = if non_empty s then s else d

abbrev pub overall : Bool → Bool → String
overall failed warned = if failed then "fail" else if warned then "warn" else "pass"

-- The fetch's errors, as `run_readiness_pipeline` names them, with the message and the HTTP status.
pub data Fault : Type 0 where
  request_failed service_unavailable : String → Option ℕ → Fault
  transport_error : String → Fault

pub data Fetched : Type 0 where
  payload : Members → Fetched
  record_not_found : Fetched
  fault : Fault → Fetched

pub data Answer : Type 0 where
  report : Report → Answer
  raised : Fault → Answer
  query_error : String → Option ℕ → Answer

unfoldable pub empty_report_not_found : Option String → String → Report
empty_report_not_found run mode = record {
  ledger_run_id = run;
  query_mode = mode;
  overall_status = "fail";
  ready = false;
  checks = record { id = "run_ledger.record_presence"; passed = false } ∷ [];
  records = [];
  missing = required_archive_phases ++ ("implementer" ∷ []);
  failures = ledger_record_missing ∷ [];
  warnings = [];
  validation_summary = no_members;
  commits = no_elements;
  pull_request = none;
  deployment = none;
}

-- `int(payload.get("count") if isinstance(payload.get("count"), int) else len(items_raw))`, where a
-- Boolean is an integer; one below zero is below every limit, as 0 is.
abbrev pub row_count : Json → Elements → ℕ
row_count (number n) items = n
row_count (negative n) items = 0
row_count (boolean true) items = 1
row_count (boolean false) items = 0
row_count _ items = count_elements items

-- The missing implementer evidence, after the missing phases.
abbrev pub evidence_failure : Bool → List Failure
evidence_failure true = []
evidence_failure false = missing_implementer_evidence ∷ []

abbrev pub limit_warning : Bool → List Warning
limit_warning true = limit_hit ∷ []
limit_warning false = []

abbrev pub list_of : Json → Option Elements
list_of (array vs) = some vs
list_of _ = none

abbrev pub as_query_error : Answer → Answer
as_query_error (report r) = report r
as_query_error (raised (request_failed m s)) = query_error m s
as_query_error (raised (service_unavailable m s)) = query_error m s
as_query_error (raised (transport_error m)) = query_error m none
as_query_error (query_error m s) = query_error m s

module _ (repr : Json → String) where
  unfoldable pub row_failures : Members → List Failure
  unfolding phases_of implementer_satisfied missing_phases
  row_failures rec =
      phase_failures
        (missing_phases required_archive_phases (phases_of (elements_of (get rec "archive_refs"))))
      ++ evidence_failure
          (implementer_satisfied repr rec (phases_of (elements_of (get rec "archive_refs"))))

  unfoldable pub row_warnings : Members → Bool → List Warning
  unfolding status_warnings
  row_warnings rec hit =
      status_warnings repr (elements_of (get rec "archive_refs")) ++ limit_warning hit

  unfoldable pub build_readiness_report_for_record : Members → String → String → Bool → Report
  unfolding row_failures row_warnings phases_of implementer_satisfied missing_phases snapshot_safe
      summarize_validation_outcomes
  build_readiness_report_for_record rec run mode hit = record {
    ledger_run_id =
        id_or_none (if non_empty run then run else str_or_empty repr (get rec "ledger_run_id"));
    query_mode = mode;
    overall_status =
        overall (not (is_empty (row_failures rec))) (not (is_empty (row_warnings rec hit)));
    ready = is_empty (row_failures rec) && is_empty (row_warnings rec hit);
    checks =
        phase_checks required_archive_phases (phases_of (elements_of (get rec "archive_refs")))
        ++ (record {
          id = "archive_ref.implementer_or_shard";
          passed =
              implementer_satisfied repr rec (phases_of (elements_of (get rec "archive_refs")));
        }
            ∷ []);
    records = snapshot_safe (object rec) ∷ [];
    missing =
        missing_phases required_archive_phases (phases_of (elements_of (get rec "archive_refs")));
    failures = row_failures rec;
    warnings = row_warnings rec hit;
    validation_summary = summarize_validation_outcomes rec;
    commits = elements_of (get rec "commits");
    pull_request = object_of (get rec "pull_request");
    deployment = object_of (get rec "deployment");
  }

  unfoldable pub by_run_id : Members → String → Report
  unfolding build_readiness_report_for_record empty_report_not_found
  by_run_id p run = elim (object_of (get p "record")) [
    | none ↦ empty_report_not_found (some run) "by_run_id"
    | some rec ↦
        build_readiness_report_for_record rec
          (str_of repr (or_value (get rec "ledger_run_id") (string run))) "by_run_id" false
  ]

  unfoldable pub latest_of : Members → ℕ → Elements → Report
  unfolding build_readiness_report_for_record empty_report_not_found pick_latest_ledger_record
  latest_of p limit items = elim (pick_latest_ledger_record repr items) [
    | none ↦ empty_report_not_found none "latest_scoped"
    | some rec ↦
        build_readiness_report_for_record rec (str_or_empty repr (get rec "ledger_run_id"))
          "latest_scoped" (leb 1 limit && leb limit (row_count (get p "count") items))
  ]

  unfoldable pub latest_scoped : Members → ℕ → Report
  unfolding latest_of empty_report_not_found
  latest_scoped p limit = elim (list_of (get p "items")) [
    | none ↦ empty_report_not_found none "latest_scoped"
    | some items ↦ latest_of p limit items
  ]

  unfoldable pub evaluate_readiness : Option String → ℕ → Fetched → Answer
  unfolding by_run_id latest_scoped empty_report_not_found
  evaluate_readiness run limit record_not_found = report (empty_report_not_found run "by_run_id")
  evaluate_readiness run limit (fault f) = raised f
  evaluate_readiness none limit (payload p) = report (latest_scoped p limit)
  evaluate_readiness (some run) limit (payload p) =
      report (if non_empty run then by_run_id p run else latest_scoped p limit)

  unfoldable pub run_readiness_pipeline : Option String → ℕ → Fetched → Answer
  unfolding evaluate_readiness
  run_readiness_pipeline run limit f = as_query_error (evaluate_readiness run limit f)

-- `target[k] in (None, {}, [])`, or no `k`.
abbrev pub is_blank_value : Json → Bool
is_blank_value null = true
is_blank_value (object no_members) = true
is_blank_value (array no_elements) = true
is_blank_value _ = false

abbrev pub set_member : Members → String → Json → Members
set_member no_members k v = member k v no_members
set_member (member j w ms) k v =
    let rest = set_member ms k v in if str_eq j k then member j v ms else member j w rest

unfoldable pub merge_readiness_summaries : Members → Members → Members
merge_readiness_summaries target no_members = target
merge_readiness_summaries target (member k v ms) =
    merge_readiness_summaries
      (if not (has target k) || is_blank_value (get target k)
        then set_member target k v
        else target)
      ms
