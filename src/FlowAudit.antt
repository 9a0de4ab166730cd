-- ===== src/FlowAudit.antt =====
-- The evidence of a task's flow, of src/canon_systems/flow_audit.py, dor_telemetry.py and
-- checkpoints.py: the artifacts on disk, and what is wrong with each.
--
-- A file is an argument: absent, no JSON, or its value. An error is a constructor without its
-- text for people. The packets of a task come in the order in which the code sorts them.
pub mod Errors
pub mod Deploy
pub mod Attested
pub mod Attestation
pub mod Run
pub mod Passed
pub mod Rejections
pub mod Exit
mod Tests
use canon_systems.Base.{
  ℕ, String, ◌≡◌, ◌↔◌, refl, Bool, true, false, not, ◌&&◌, ◌||◌, Option, none, some, List, [], ◌∷◌,
  ◌++◌, leb, str_eq, non_empty, if◌then◌else◌,
}
use canon_systems.Base.Text.{strip}
use canon_systems.Base.Json.{
  Json, Members, null, boolean, number, negative, string, array, object, get, has, str_of,
  contains_text,
}

pub data File : Type 0 where
  absent unreadable : File
  content : Json → File

pub data Error : Type 0 where
  missing_artifact missing_token : String → Error
  missing_memory_health invalid_memory_health memory_health_not_object : Error
  memory_health_version memory_health_status : Error
  no_telemetry : Error
  missing_json missing_status invalid_json payload_not_object : String → Error
  handoff_mismatch stage_missing task_mismatch status_exit_marker : String → Error
  missing_checkpoint invalid_checkpoint checkpoint_not_object : String → Error
  checkpoint_version checkpoint_phase checkpoint_task : String → Error
  checkpoint_handoff checkpoint_state_version : String → Error
  plan_not_found task_not_in_plan : Error
  missing_attestation invalid_attestation attestation_not_object attestation_version : Error
  attestation_missing attestation_mismatch : String → Error
  field_missing field_not_text field_empty : String → Error
  refs_missing refs_not_list : Error
  stale_verdict stale_reason : Error
  no_proof sha_mismatch no_expected_build build_mismatch : Error

-- `v == s` of a value and a text.
abbrev pub is_text : Json → String → Bool
is_text (string t) s = str_eq t s
is_text _ s = false

abbrev pub unless : Bool → Error → List Error
unless true e = []
unless false e = e ∷ []

-- The errors of each element, one after the other.
unfoldable pub each_error {ℓ} : {A : Type ℓ} → (A → List Error) → List A → List Error
each_error f [] = []
each_error f (a ∷ l) = f a ++ each_error f l

-- The JSON object of a file is looked at, or else there is the one error that says why not.
unfoldable pub with_object : Error → Error → Error → (Members → List Error) → File → List Error
with_object missing invalid not_object look absent = missing ∷ []
with_object missing invalid not_object look unreadable = invalid ∷ []
with_object missing invalid not_object look (content (object ms)) = look ms
with_object missing invalid not_object look (content null) = not_object ∷ []
with_object missing invalid not_object look (content (boolean b)) = not_object ∷ []
with_object missing invalid not_object look (content (number n)) = not_object ∷ []
with_object missing invalid not_object look (content (negative n)) = not_object ∷ []
with_object missing invalid not_object look (content (string s)) = not_object ∷ []
with_object missing invalid not_object look (content (array vs)) = not_object ∷ []

unfoldable pub memory_health_payload : Members → List Error
memory_health_payload ms =
    if not (is_text (get ms "schema_version") "1")
    then memory_health_version ∷ []
    else unless (is_text (get ms "overall_status") "ok") memory_health_status

unfoldable pub collect_memory_health_errors : File → List Error
unfolding memory_health_payload with_object
collect_memory_health_errors f =
    with_object missing_memory_health invalid_memory_health memory_health_not_object
      memory_health_payload f

abbrev pub required_phases : List String
required_phases =
    "scoper" ∷ "cursor-pilot" ∷ "implementer" ∷ "qa-gate" ∷ "release-orchestrator" ∷ []

-- An integer, no Boolean, that is at least 1.
abbrev pub is_state_version : Json → Bool
is_state_version (number n) = leb 1 n
is_state_version _ = false

unfoldable pub checkpoint_payload : String → String → String → Members → List Error
checkpoint_payload handoff_id task_id phase ms =
    unless (is_text (get ms "schema_version") "1") (checkpoint_version phase)
    ++ (unless (is_text (get ms "phase") phase) (checkpoint_phase phase)
        ++ (unless (is_text (get ms "task_id") task_id) (checkpoint_task phase)
            ++ (unless (is_text (get ms "handoff_id") handoff_id) (checkpoint_handoff phase)
                ++ (unless (is_state_version (get ms "state_version"))
                    (checkpoint_state_version phase)))))

unfoldable pub checkpoint_errors : String → String → String → File → List Error
unfolding checkpoint_payload with_object
checkpoint_errors handoff_id task_id phase f =
    with_object (missing_checkpoint phase) (invalid_checkpoint phase) (checkpoint_not_object phase)
      (checkpoint_payload handoff_id task_id phase) f

-- The files are given by their phase.
unfoldable pub collect_checkpoint_errors : String → String → (String → File) → List Error
unfolding each_error checkpoint_errors
collect_checkpoint_errors handoff_id task_id files =
    each_error (λ phase. checkpoint_errors handoff_id task_id phase (files phase)) required_phases

-- A rejection packet with the telemetry under its name.
pub record Packet : Type 0 where
  pub stem : String
  pub telemetry : File
  pub status : Option String

module _ (repr : Json → String) where
  -- `str(payload.get(k, "")).strip()`.
  abbrev pub stripped_field : Members → String → String
  stripped_field ms k = strip (if has ms k then str_of repr (get ms k) else "")

  unfoldable pub telemetry_payload : String → String → Bool → String → String → Members → List Error
  telemetry_payload handoff_id task_id require_task stem status ms =
      unless (str_eq (stripped_field ms "handoff_id") (strip handoff_id)) (handoff_mismatch stem)
      ++ (unless (non_empty (stripped_field ms "stage")) (stage_missing stem)
          ++ (unless
                (str_eq (stripped_field ms "task_id") (strip task_id)
                  || (not require_task && not (has ms "task_id")))
                (task_mismatch stem)
              ++ unless (contains_text status "exit_code:") (status_exit_marker stem)))

  abbrev pub with_status : String → String → Bool → String → File → Option String → List Error
  unfolding telemetry_payload with_object
  with_status handoff_id task_id require_task stem absent status = missing_json stem ∷ []
  with_status handoff_id task_id require_task stem f none = missing_status stem ∷ []
  with_status handoff_id task_id require_task stem f (some status) =
      with_object (missing_json stem) (invalid_json stem) (payload_not_object stem)
        (telemetry_payload handoff_id task_id require_task stem status) f

  unfoldable pub packet_errors : String → String → Bool → Packet → List Error
  unfolding with_status
  packet_errors handoff_id task_id require_task p =
      with_status handoff_id task_id require_task p.stem p.telemetry p.status

  -- The first test is for a directory without any JSON file.
  unfoldable pub collect_dor_telemetry_errors :
      String → String → Bool → Bool → Bool → List Packet → List Error
  unfolding each_error packet_errors
  collect_dor_telemetry_errors handoff_id task_id require_task bulk any_json [] = []
  collect_dor_telemetry_errors handoff_id task_id require_task bulk any_json (p ∷ ps) =
      unless (not bulk || any_json) no_telemetry
      ++ each_error (packet_errors handoff_id task_id require_task) (p ∷ ps)
