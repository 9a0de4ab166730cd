-- ===== src/FlowAudit/Run.antt =====
-- `canon flow-audit`, `run` of src/canon_systems/flow_audit.py: the sample, the artifacts, and the
-- exit code.
--
-- The sample rate is a fraction of naturals, where Python has a float. The SHA-256 of a text, cut
-- to its first eight hexadecimal digits, is an argument.
use Prim.Native.Nat.{◌*◌}
use Prim.Native.String.{◌++◌ as text_append}
use canon_systems.Base.{
  ℕ, String, Bool, true, false, Option, none, some, List, [], ◌∷◌, ◌++◌, leb, ltb, eqb,
  if◌then◌else◌,
}
use canon_systems.Base.Json.{Json, contains_text}
use canon_systems.FlowAudit.{
  File, Error, missing_artifact, missing_token, plan_not_found, task_not_in_plan, unless,
  each_error, Packet, collect_memory_health_errors, collect_checkpoint_errors,
  collect_dor_telemetry_errors,
}
use canon_systems.FlowAudit.Deploy.{collect_deploy_attestation_errors}

pub record Options : Type 0 where
  pub handoff_id : String
  pub task_id : String
  pub sample_rate : ℕ × ℕ
  pub require_release_status : Bool
  pub require_memory_health : Bool
  pub require_checkpoints : Bool
  pub require_deploy_attestation : Bool

-- What is on disk for the task. The plan is none if no plan file is named, and then none if there
-- is no such file.
pub record Evidence : Type 0 where
  pub artifact : String → Option String
  pub packets : List Packet
  pub any_telemetry : Bool
  pub memory_health : File
  pub plan : Option (Option String)
  pub checkpoint : String → File
  pub deployment : File

unfoldable pub required_artifacts : Bool → List (String × String)
required_artifacts release =
    ("scoper.md", "HANDOFF_TO_CURSOR_PILOT")
    ∷ ("cursor-pilot.md", "CURSOR_PILOT_PROMPT")
    ∷ ("qa-gate.md", "GATE_RESULTS")
    ∷ (if release then ("release-status.md", "RELEASE_STATUS") ∷ [] else [])

unfoldable pub artifact_errors : (String → Option String) → String × String → List Error
artifact_errors file (name, token) = elim (file name) [
  | none ↦ missing_artifact name ∷ []
  | some body ↦ unless (contains_text body token) (missing_token name)
]

unfoldable pub plan_errors : String → Option (Option String) → List Error
plan_errors task_id none = []
plan_errors task_id (some none) = plan_not_found ∷ []
plan_errors task_id (some (some text)) = unless (contains_text text task_id) task_not_in_plan

-- What a requirement adds.
abbrev pub required : Bool → List Error → List Error
required b es = if b then es else []

unfoldable pub sample_selected : (String → ℕ) → String → String → ℕ × ℕ → Bool
sample_selected digest handoff_id task_id (n, d) =
    if eqb n 0
    then false
    else if leb d n
    then true
    else ltb (digest (text_append handoff_id (text_append "::" task_id)) * d) (n * 0xFFFFFFFF)

module _ (repr : Json → String) (digest : String → ℕ) where
  unfoldable pub audit_errors : Options → Evidence → List Error
  unfolding each_error artifact_errors required_artifacts collect_memory_health_errors
      collect_checkpoint_errors collect_dor_telemetry_errors collect_deploy_attestation_errors
      plan_errors
  audit_errors o f =
      each_error (artifact_errors f.artifact) (required_artifacts o.require_release_status)
      ++ (collect_dor_telemetry_errors repr o.handoff_id o.task_id true true f.any_telemetry
            f.packets
          ++ (required o.require_memory_health (collect_memory_health_errors f.memory_health)
              ++ (plan_errors o.task_id f.plan
                  ++ (required o.require_checkpoints
                        (collect_checkpoint_errors o.handoff_id o.task_id f.checkpoint)
                      ++ (required o.require_deploy_attestation (
                          collect_deploy_attestation_errors o.handoff_id o.task_id
                            f.deployment))))))

  abbrev pub exit_of : List Error → ℕ
  exit_of [] = 0
  exit_of (e ∷ es) = 1

  unfoldable pub run : Options → Evidence → ℕ
  unfolding audit_errors sample_selected
  run o f =
      if sample_selected digest o.handoff_id o.task_id o.sample_rate
      then exit_of (audit_errors o f)
      else 0
