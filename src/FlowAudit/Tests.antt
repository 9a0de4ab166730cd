-- ===== src/FlowAudit/Tests.antt =====
-- The theorems on the flow audit at concrete evidence.
use canon_systems.Base.{
  ℕ, String, ◌≡◌, ◌↔◌, ◌⊎◌, refl, true, false, Option, none, some, [], str_eq, if◌then◌else◌,
}
use canon_systems.Base.Text.{strip, lower}
use canon_systems.Base.Json.{
  contains_text, Json, Members, string, array, object, no_elements, no_members, member,
}
use canon_systems.FlowAudit.{absent, content}
use canon_systems.FlowAudit.Run.{Options, Evidence, sample_selected, run}
use canon_systems.FlowAudit.Exit.{IsEvidence, run-IsEvidence}

abbrev no_repr : Json → String
no_repr v = ""

-- A sample rate of 1 needs no digest.
abbrev no_digest : String → ℕ
no_digest s = 0

abbrev smoke : Members
smoke = member "schema_version" (string "1") (
    member "handoff_id" (string "H1") (
      member "task_id" (string " T1 ") (
        member "environment" (string "dev") (
          member "expected_branch" (string "main") (
            member "smoke_verdict" (string "pass") (
              member "checked_at" (string "2026-01-01T00:00:00Z") (
                member "deployment_url" (string "https://dev.example") (
                  member "expected_head_sha" (string "ABC1234") (
                    member "deployed_commit_sha" (string "abc1234")
                      (member "evidence_refs" (array no_elements) no_members))))))))))

abbrev options : Options
options = record {
  handoff_id = "H1";
  task_id = "T1";
  sample_rate = (1, 1);
  require_release_status = false;
  require_memory_health = false;
  require_checkpoints = false;
  require_deploy_attestation = true;
}

abbrev file_of : String → Option String
file_of name =
    if str_eq name "scoper.md"
    then some "HANDOFF_TO_CURSOR_PILOT"
    else if str_eq name "cursor-pilot.md"
    then some "CURSOR_PILOT_PROMPT"
    else if str_eq name "qa-gate.md"
    then some "GATE_RESULTS"
    else none

abbrev evidence : Evidence
evidence = record {
  artifact = file_of;
  packets = [];
  any_telemetry = false;
  memory_health = absent;
  plan = some (some "E1: T1");
  checkpoint = λ phase. absent;
  deployment = content (object smoke);
}

passes : run no_repr no_digest options evidence ≡ 0
unfolding run contains_text strip lower
passes = refl

run-IsEvidence_example :
    (run no_repr no_digest options evidence ≡ 0)
    ↔ ((sample_selected no_digest "H1" "T1" (1, 1) ≡ false) ⊎ IsEvidence no_repr options evidence)
run-IsEvidence_example = run-IsEvidence no_repr no_digest options evidence
