-- ===== src/Readiness/Tests.antt =====
-- The theorems on the readiness report at a concrete row.
use canon_systems.Base.{String, ◌≡◌, ◌↔◌, refl, true, false, none}
use canon_systems.Base.Text.{strip, lower}
use canon_systems.Base.Json.{
  Json, Elements, Members, string, array, object, no_elements, element, no_members, member,
}
use canon_systems.Readiness.{kind_phase}
use canon_systems.Readiness.Report.{
  payload, build_readiness_report_for_record, latest_scoped, run_readiness_pipeline,
}
use canon_systems.Readiness.Verdict.{IsReadyRow, build_readiness_report-IsReadyRow}
use canon_systems.Readiness.Answer.{Backed, run_readiness_pipeline-Backed}

-- What `str` prints of a value that is no text does not matter to these rows.
abbrev no_repr : Json → String
no_repr v = ""

abbrev reference : String → String → Json
reference ph status =
    object (member "phase" (string ph) (member "status" (string status) no_members))

abbrev references : Elements
references = element (reference "scoper" "ok") (
    element (reference "cursor-pilot" "ok") (
      element (object (member "artifact_kind" (string "packet_implementer") no_members)) (
        element (reference "qa-gate" "Passed")
          (element (reference "release-status" "stored") no_elements))))

abbrev row : Members
row =
    member "updated_at" (string "2026-01-02T00:00:00Z") (
      member "ledger_run_id" (string "run-2") (member "archive_refs" (array references) no_members))

abbrev older : Members
older = member "updated_at" (string "2026-01-01T00:00:00Z") no_members

abbrev answer : Members
answer =
    member "items" (array (element (object older) (element (object row) no_elements))) no_members

abbrev packet : Json
packet = object (member "body" (string "secret") (member "sha" (string "abc") no_members))

build_readiness_report-IsReadyRow_example :
    (((build_readiness_report_for_record no_repr row "" "by_run_id" false).ready ≡ true)
      ↔ (IsReadyRow no_repr row × (false ≡ false)))
    × (((build_readiness_report_for_record no_repr row "" "by_run_id" false).overall_status
          ≡ "pass")
        ↔ ((build_readiness_report_for_record no_repr row "" "by_run_id" false).ready ≡ true))
build_readiness_report-IsReadyRow_example =
    build_readiness_report-IsReadyRow no_repr row "" "by_run_id" false

run_readiness_pipeline-Backed_example :
    (p : Members) × (payload answer ≡ payload p)
    × Backed no_repr p 50 none (latest_scoped no_repr answer 50)
unfolding run_readiness_pipeline latest_scoped strip kind_phase lower
run_readiness_pipeline-Backed_example =
    run_readiness_pipeline-Backed no_repr none 50 (payload answer) (latest_scoped no_repr answer 50)
      refl refl
