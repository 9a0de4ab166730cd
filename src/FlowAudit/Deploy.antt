-- ===== src/FlowAudit/Deploy.antt =====
-- The deploy smoke attestation, `_collect_deploy_attestation_errors` of
-- src/canon_systems/flow_audit.py.
use canon_systems.Base.{
  String, not, ◌&&◌, Option, none, some, List, [], ◌∷◌, ◌++◌, str_eq, non_empty, if◌then◌else◌,
}
use canon_systems.Base.Text.{strip, lower}
use canon_systems.Base.Json.{Json, Members, null, string, array, get, has}
use canon_systems.FlowAudit.{
  File, Error, missing_attestation, invalid_attestation, attestation_not_object,
  attestation_version, attestation_missing, attestation_mismatch, field_missing, field_not_text,
  field_empty, refs_missing, refs_not_list, stale_verdict, stale_reason, no_proof, sha_mismatch,
  no_expected_build, build_mismatch, is_text, unless, each_error, with_object,
}

abbrev pub stale_deploy_verdict : String
stale_deploy_verdict = "environment_smoke_not_proof_of_branch"

unfoldable pub str_field : String → Json → Option String × List Error
str_field key null = (none, field_missing key ∷ [])
str_field key (string s) =
    if non_empty (strip s) then (some (strip s), []) else (none, field_empty key ∷ [])
str_field key _ = (none, field_not_text key ∷ [])

abbrev pub deploy_str_field : Members → String → Option String × List Error
unfolding str_field
deploy_str_field ms key = str_field key (get ms key)

abbrev pub first_field : Members → List String → String → Option String × List Error
unfolding str_field
first_field ms [] canonical = (none, field_missing canonical ∷ [])
first_field ms (key ∷ keys) canonical =
    let rest = first_field ms keys canonical in
    if has ms key then str_field key (get ms key) else rest

-- The canonical key, or else the first alias that there is.
unfoldable pub deploy_str_field_any : Members → String → List String → Option String × List Error
unfolding first_field
deploy_str_field_any ms key aliases = first_field ms (key ∷ aliases) key

unfoldable pub normalize_git_sha : String → String
normalize_git_sha value = lower (strip value)

-- `v.strip() if isinstance(v, str) else ""`.
abbrev pub stripped : Json → String
stripped (string s) = strip s
stripped _ = ""

unfoldable pub identity_errors : String → String → Json → List Error
identity_errors key expected (string s) =
    if not (non_empty (strip s))
    then attestation_missing key ∷ []
    else unless (str_eq (strip s) expected) (attestation_mismatch key)
identity_errors key expected _ = attestation_missing key ∷ []

unfoldable pub refs_errors : Json → List Error
refs_errors null = refs_missing ∷ []
refs_errors (array vs) = []
refs_errors _ = refs_not_list ∷ []

abbrev pub required_fields : List String
required_fields = "environment" ∷ "expected_branch" ∷ "smoke_verdict" ∷ "checked_at" ∷ []

abbrev pub expected_head_sha : Members → Option String × List Error
unfolding deploy_str_field_any
expected_head_sha ms = deploy_str_field_any ms "expected_head_sha" ("expected_git_sha" ∷ [])

abbrev pub base_url : Members → Option String × List Error
unfolding deploy_str_field_any
base_url ms = deploy_str_field_any ms "base_url" ("deployment_url" ∷ [])

unfoldable pub field_errors : String → String → Members → List Error
unfolding identity_errors refs_errors each_error str_field deploy_str_field_any
field_errors handoff_id task_id ms =
    unless (is_text (get ms "schema_version") "1") attestation_version
    ++ (identity_errors "handoff_id" handoff_id (get ms "handoff_id")
        ++ (identity_errors "task_id" task_id (get ms "task_id")
            ++ (each_error (λ key. (str_field key (get ms key)).1) required_fields
                ++ ((base_url ms).1
                    ++ ((expected_head_sha ms).1 ++ (refs_errors (get ms "evidence_refs")))))))

-- The verdict is a text here, since the fields were looked at.
unfoldable pub verdict_errors : Members → List Error
verdict_errors ms =
    unless (not (str_eq (stripped (get ms "smoke_verdict")) stale_deploy_verdict)) stale_verdict
    ++ unless (not (str_eq (stripped (get ms "verdict_reason")) stale_deploy_verdict)) stale_reason

-- `deployed_commit_sha`, or its older name if it is missing or null.
abbrev pub deployed_sha : Members → String
deployed_sha ms = stripped (elim (get ms "deployed_commit_sha") [
  | null ↦ get ms "deployed_git_sha"
  | string s ↦ string s
  | _ ↦ null
])

-- `str(expected_sha)`.
abbrev pub printed : Option String → String
printed none = "None"
printed (some s) = s

unfoldable pub proof_errors : Members → String → List Error
unfolding normalize_git_sha
proof_errors ms expected =
    if not (non_empty (deployed_sha ms)) && not (non_empty (stripped (get ms "deployed_build_id")))
    then no_proof ∷ []
    else if non_empty (deployed_sha ms)
    then unless (str_eq (normalize_git_sha (strip expected)) (normalize_git_sha (deployed_sha ms)))
        sha_mismatch
    else if not (non_empty (stripped (get ms "expected_build_id")))
    then no_expected_build ∷ []
    else unless
        (str_eq (stripped (get ms "deployed_build_id")) (stripped (get ms "expected_build_id")))
        build_mismatch

-- `if errors: return errors`, and then what follows.
abbrev pub or_then : List Error → List Error → List Error
or_then [] next = next
or_then (e ∷ es) next = e ∷ es

unfoldable pub attestation_errors : String → String → Members → List Error
unfolding field_errors verdict_errors proof_errors deploy_str_field_any
attestation_errors handoff_id task_id ms =
    or_then (field_errors handoff_id task_id ms)
      (or_then (verdict_errors ms) (proof_errors ms (printed (expected_head_sha ms).0)))

unfoldable pub collect_deploy_attestation_errors : String → String → File → List Error
unfolding attestation_errors with_object
collect_deploy_attestation_errors handoff_id task_id f =
    with_object missing_attestation invalid_attestation attestation_not_object
      (attestation_errors handoff_id task_id) f
