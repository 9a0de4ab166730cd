-- ===== src/FlowAudit/Attestation.antt =====
-- A deploy attestation has no error exactly when it shows what it promises.
use mathlib.Core.List.{Memᴰ}
use canon_systems.Base.{
  String, ◌≡◌, ◌≢◌, ◌↔◌, refl, sym, inl, inr, true, not, List, [], ◌∷◌, str_eq, str_true, non_empty,
  subst, Bool-cases, str_ne, str_differ,
}
use canon_systems.Base.Text.{strip}
use canon_systems.Base.Json.{Members, string, object, get}
use canon_systems.FlowAudit.{
  File, content, Error, missing_attestation, invalid_attestation, attestation_not_object,
  attestation_version, stale_verdict, stale_reason, sha_mismatch, build_mismatch, is_text,
  each_error,
}
use canon_systems.FlowAudit.Errors.{
  no_errors, unless-none, iff_trans, each_error-none, is_text_iff, str_eq_iff, not-true,
  with_object-none,
}
use canon_systems.FlowAudit.Deploy.{
  stale_deploy_verdict, str_field, normalize_git_sha, stripped, required_fields, expected_head_sha,
  field_errors, verdict_errors, deployed_sha, printed, proof_errors, or_then, attestation_errors,
  collect_deploy_attestation_errors,
}
use canon_systems.FlowAudit.Attested.{
  Filled, either_field, Proof, same_sha, same_build, IsArray, IsAttested, str_field-none,
  deploy_str_field_any-none, deploy_str_field_any-value, identity_errors-none, refs_errors-none,
}

not_same : (s t : String) → (not (str_eq s t) ≡ true) ↔ (s ≢ t)
not_same s t = (
  λ h. str_differ s t ((not-true (str_eq s t)).0 h),
  λ h. (not-true (str_eq s t)).1 (str_ne s t h),
)

-- The first look: the fields are there.
abbrev Fields : String → String → Members → Type 0
Fields handoff_id task_id ms =
    (get ms "schema_version" ≡ string "1")
    × ((Filled (get ms "handoff_id") × (stripped (get ms "handoff_id") ≡ handoff_id))
        × ((Filled (get ms "task_id") × (stripped (get ms "task_id") ≡ task_id))
            × (((key : String) → Memᴰ key required_fields → Filled (get ms key))
                × (Filled (either_field ms "base_url" "deployment_url")
                    × (Filled (either_field ms "expected_head_sha" "expected_git_sha")
                        × IsArray (get ms "evidence_refs"))))))

fields_filled :
    (ms : Members)
    → (each_error (λ key. (str_field key (get ms key)).1) required_fields ≡ [])
      ↔ ((key : String) → Memᴰ key required_fields → Filled (get ms key))
fields_filled ms =
    iff_trans (each_error-none (λ key. (str_field key (get ms key)).1) required_fields) (
      λ h key m. (str_field-none key (get ms key)).0 (h key m),
      λ h key m. (str_field-none key (get ms key)).1 (h key m),
    )

field_errors-none :
    (handoff_id task_id : String) (ms : Members)
    → (field_errors handoff_id task_id ms ≡ []) ↔ Fields handoff_id task_id ms
unfolding field_errors
field_errors-none handoff_id task_id ms =
    no_errors
      (iff_trans (unless-none (is_text (get ms "schema_version") "1") attestation_version)
        (is_text_iff (get ms "schema_version") "1"))
      (no_errors (identity_errors-none "handoff_id" handoff_id (get ms "handoff_id")) (
        no_errors (identity_errors-none "task_id" task_id (get ms "task_id")) (
          no_errors (fields_filled ms) (
            no_errors (deploy_str_field_any-none ms "base_url" "deployment_url") (
              no_errors (deploy_str_field_any-none ms "expected_head_sha" "expected_git_sha")
                (refs_errors-none (get ms "evidence_refs")))))))

verdict_errors-none :
    (ms : Members)
    → (verdict_errors ms ≡ []) ↔ (
        (stripped (get ms "smoke_verdict") ≢ stale_deploy_verdict)
        × (stripped (get ms "verdict_reason") ≢ stale_deploy_verdict))
unfolding verdict_errors
verdict_errors-none ms =
    no_errors
      (iff_trans
        (unless-none (not (str_eq (stripped (get ms "smoke_verdict")) stale_deploy_verdict))
          stale_verdict)
        (not_same (stripped (get ms "smoke_verdict")) stale_deploy_verdict))
      (iff_trans
        (unless-none (not (str_eq (stripped (get ms "verdict_reason")) stale_deploy_verdict))
          stale_reason)
        (not_same (stripped (get ms "verdict_reason")) stale_deploy_verdict))

proof_errors-none :
    (ms : Members) (expected : String) → (proof_errors ms expected ≡ []) ↔ Proof ms expected
unfolding proof_errors
proof_errors-none ms expected = (sound, complete)
  where
    build : String
    build = stripped (get ms "deployed_build_id")

    expected_build : String
    expected_build = stripped (get ms "expected_build_id")

    sound : proof_errors ms expected ≡ [] → Proof ms expected
    sound h = elim (Bool-cases (non_empty (deployed_sha ms))) [
      | inl s ↦ same_sha s (
          str_true (normalize_git_sha (strip expected)) (normalize_git_sha (deployed_sha ms)) (
            (unless-none
                (str_eq (normalize_git_sha (strip expected)) (normalize_git_sha (deployed_sha ms)))
                sha_mismatch).0
              (rw (proof_errors, s) at h)))
      | inr s ↦ elim (Bool-cases (non_empty build)) [
        | inr b ↦ cc (rw (proof_errors, s, b) at h)
        | inl b ↦ elim (Bool-cases (non_empty expected_build)) [
          | inr e ↦ cc (rw (proof_errors, s, b, e) at h)
          | inl e ↦ same_build s b (
              str_true build expected_build (
                (unless-none (str_eq build expected_build) build_mismatch).0
                  (rw (proof_errors, s, b, e) at h)))
        ]
      ]
    ]

    complete : Proof ms expected → proof_errors ms expected ≡ []
    complete (same_sha s e) =
        rw (proof_errors, s)
          ((unless-none
              (str_eq (normalize_git_sha (strip expected)) (normalize_git_sha (deployed_sha ms)))
              sha_mismatch).1
            ((str_eq_iff (normalize_git_sha (strip expected))
                (normalize_git_sha (deployed_sha ms))).1
              e))
    complete (same_build s b e) =
        rw (proof_errors, s, b, (subst (λ x. non_empty x ≡ true) e b))
          ((unless-none (str_eq build expected_build) build_mismatch).1
            ((str_eq_iff build expected_build).1 e))

or_then-none : (xs ys : List Error) → (or_then xs ys ≡ []) ↔ ((xs ≡ []) × (ys ≡ []))
or_then-none [] ys = (λ h. (refl, h), λ h. h.1)
or_then-none (x ∷ xs) ys = (λ h. cc, λ h. cc)

attested :
    (handoff_id task_id : String) (ms : Members)
    → (attestation_errors handoff_id task_id ms ≡ []) ↔ IsAttested handoff_id task_id ms
unfolding attestation_errors
attested handoff_id task_id ms = (sound, complete)
  where
    expected : String
    expected = stripped (either_field ms "expected_head_sha" "expected_git_sha")

    sound : attestation_errors handoff_id task_id ms ≡ [] → IsAttested handoff_id task_id ms
    sound h =
        let (no_field_error, rest) =
          (or_then-none (field_errors handoff_id task_id ms)
              (or_then (verdict_errors ms) (proof_errors ms (printed (expected_head_sha ms).0)))).0
            h in
        let (no_verdict_error, no_proof_error) =
          (or_then-none (verdict_errors ms) (proof_errors ms (printed (expected_head_sha ms).0))).0
            rest in
        let f = (field_errors-none handoff_id task_id ms).0 no_field_error in
        let v = (verdict_errors-none ms).0 no_verdict_error in
        record {
          version = f.0;
          handoff = f.1.0;
          task = f.1.1.0;
          fields = f.1.1.1.0;
          url = f.1.1.1.1.0;
          sha = f.1.1.1.1.1.0;
          refs = f.1.1.1.1.1.1;
          verdict = v.0;
          reason = v.1;
          proof = (proof_errors-none ms expected).0 (
              subst (λ x. proof_errors ms (printed x) ≡ [])
                (deploy_str_field_any-value ms "expected_head_sha" "expected_git_sha" f.1.1.1.1.1.0)
                no_proof_error);
        }

    complete : IsAttested handoff_id task_id ms → attestation_errors handoff_id task_id ms ≡ []
    complete a =
        (or_then-none (field_errors handoff_id task_id ms)
            (or_then (verdict_errors ms) (proof_errors ms (printed (expected_head_sha ms).0)))).1
          (
            (field_errors-none handoff_id task_id ms).1
                (a.version, (a.handoff, (a.task, (a.fields, (a.url, (a.sha, a.refs)))))),
            (or_then-none (verdict_errors ms)
                  (proof_errors ms (printed (expected_head_sha ms).0))).1
                (
                  (verdict_errors-none ms).1 (a.verdict, a.reason),
                  subst (λ x. proof_errors ms (printed x) ≡ [])
                      (sym (
                        deploy_str_field_any-value ms "expected_head_sha" "expected_git_sha" a.sha))
                      ((proof_errors-none ms expected).1 a.proof),
                ),
          )

-- The attestation of a task has no error exactly when its file is a JSON object that names the
-- handoff and the task, has each required field, no stale verdict or reason, and proves what is
-- deployed: by the expected commit, or, without a commit, by the expected build.
pub collect_deploy_attestation-IsAttested :
    (handoff_id task_id : String) (f : File)
    → (collect_deploy_attestation_errors handoff_id task_id f ≡ [])
      ↔ ((ms : Members) × (f ≡ content (object ms)) × IsAttested handoff_id task_id ms)
unfolding collect_deploy_attestation_errors
collect_deploy_attestation-IsAttested handoff_id task_id f =
    with_object-none missing_attestation invalid_attestation attestation_not_object
      (attestation_errors handoff_id task_id) (attested handoff_id task_id) f
