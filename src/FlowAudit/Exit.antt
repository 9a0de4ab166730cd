-- ===== src/FlowAudit/Exit.antt =====
-- When `canon flow-audit` exits with 0.
use mathlib.Core.List.{Memᴰ}
use canon_systems.Base.{
  ℕ, String, ◌≡◌, ◌↔◌, refl, ◌⊎◌, inl, inr, Bool, true, false, List, [], ◌∷◌, Bool-cases, arith,
}
use canon_systems.Base.Json.{Json, Members, object}
use canon_systems.FlowAudit.{
  content, Error, each_error, collect_memory_health_errors, required_phases, checkpoint_errors,
  collect_checkpoint_errors,
}
use canon_systems.FlowAudit.Errors.{no_errors, iff_trans, each_error-none}
use canon_systems.FlowAudit.Deploy.{collect_deploy_attestation_errors}
use canon_systems.FlowAudit.Attested.{IsAttested}
use canon_systems.FlowAudit.Attestation.{collect_deploy_attestation-IsAttested}
use canon_systems.FlowAudit.Passed.{
  IsHealthy, memory_health-IsHealthy, IsCheckpoint, checkpoint_errors-IsCheckpoint, HasToken,
  artifact-HasToken, HasTask, plan-HasTask,
}
use canon_systems.FlowAudit.Run.{
  Options, Evidence, required_artifacts, artifact_errors, required, sample_selected, audit_errors,
  exit_of, run,
}
use canon_systems.FlowAudit.Rejections.{Reported, packets-Reported}

required-none {ℓ} :
    {P : Type ℓ} (b : Bool) (es : List Error)
    → ((es ≡ []) ↔ P)
    → (required b es ≡ []) ↔ (b ≡ true → P)
required-none true es p = (λ h _. p.0 h, λ h. p.1 (h refl))
required-none false es p = (λ h k. cc, λ h. refl)

-- What the evidence of a task shows that passes the audit.
pub record IsEvidence (repr : Json → String) (o : Options) (f : Evidence) : Type 0 where
  pub artifacts :
      (r : String × String)
      → Memᴰ r (required_artifacts o.require_release_status)
      → HasToken f.artifact r
  pub rejections : Reported repr o.handoff_id o.task_id f.any_telemetry f.packets
  pub healthy : o.require_memory_health ≡ true → IsHealthy f.memory_health
  pub planned : HasTask o.task_id f.plan
  pub checkpoints :
      o.require_checkpoints ≡ true
      → (phase : String) → Memᴰ phase required_phases
      → IsCheckpoint o.handoff_id o.task_id phase (f.checkpoint phase)
  pub deployed :
      o.require_deploy_attestation ≡ true
      → (ms : Members) × (f.deployment ≡ content (object ms)) × IsAttested o.handoff_id o.task_id ms

module _ (repr : Json → String) (digest : String → ℕ) where
  checkpoints_there :
      (o : Options) (f : Evidence)
      → (collect_checkpoint_errors o.handoff_id o.task_id f.checkpoint ≡ []) ↔ (
          (phase : String)
          → Memᴰ phase required_phases
          → IsCheckpoint o.handoff_id o.task_id phase (f.checkpoint phase))
  unfolding collect_checkpoint_errors
  checkpoints_there o f =
      iff_trans
        (each_error-none
          (λ phase. checkpoint_errors o.handoff_id o.task_id phase (f.checkpoint phase))
          required_phases)
        (
          λ h phase m.
              (checkpoint_errors-IsCheckpoint o.handoff_id o.task_id phase (f.checkpoint phase)).0
                (h phase m),
          λ h phase m.
              (checkpoint_errors-IsCheckpoint o.handoff_id o.task_id phase (f.checkpoint phase)).1
                (h phase m),
        )

  artifacts_there :
      (o : Options) (f : Evidence)
      → (each_error (artifact_errors f.artifact) (required_artifacts o.require_release_status) ≡ [])
        ↔ ((r : String × String)
            → Memᴰ r (required_artifacts o.require_release_status)
            → HasToken f.artifact r)
  artifacts_there o f =
      iff_trans
        (each_error-none (artifact_errors f.artifact) (required_artifacts o.require_release_status))
        (
          λ h r m. (artifact-HasToken f.artifact r).0 (h r m),
          λ h r m. (artifact-HasToken f.artifact r).1 (h r m),
        )

  audit_errors-IsEvidence :
      (o : Options) (f : Evidence) → (audit_errors repr digest o f ≡ []) ↔ IsEvidence repr o f
  unfolding audit_errors
  audit_errors-IsEvidence o f =
      iff_trans
        (no_errors (artifacts_there o f) (
          no_errors (packets-Reported repr o.handoff_id o.task_id f.any_telemetry f.packets) (
            no_errors
              (required-none o.require_memory_health (collect_memory_health_errors f.memory_health)
                (memory_health-IsHealthy f.memory_health))
              (no_errors (plan-HasTask o.task_id f.plan) (
                no_errors
                  (required-none o.require_checkpoints
                    (collect_checkpoint_errors o.handoff_id o.task_id f.checkpoint)
                    (checkpoints_there o f))
                  (required-none o.require_deploy_attestation
                    (collect_deploy_attestation_errors o.handoff_id o.task_id f.deployment)
                    (collect_deploy_attestation-IsAttested o.handoff_id o.task_id
                      f.deployment)))))))
        (
          λ h. record {
            artifacts = h.0;
            rejections = h.1.0;
            healthy = h.1.1.0;
            planned = h.1.1.1.0;
            checkpoints = h.1.1.1.1.0;
            deployed = h.1.1.1.1.1;
          },
          λ e. (e.artifacts, (e.rejections, (e.healthy, (e.planned, (e.checkpoints, e.deployed))))),
        )

  exit_zero : (es : List Error) → (exit_of repr digest es ≡ 0) ↔ (es ≡ [])
  exit_zero [] = (λ h. refl, λ h. refl)
  exit_zero (e ∷ es) = (λ h. absurd (omega (arith, h)), λ h. cc)

  -- The audit of a task exits with 0 exactly when the sample leaves the task out or its evidence is
  -- complete: every required artifact has its token, every rejection its telemetry, and, where they
  -- are required, the memory is healthy, each phase has its checkpoint, the plan names the task and
  -- the deployment is attested.
  pub run-IsEvidence :
      (o : Options) (f : Evidence)
      → (run repr digest o f ≡ 0) ↔ (
          (sample_selected digest o.handoff_id o.task_id o.sample_rate ≡ false)
          ⊎ IsEvidence repr o f)
  unfolding run
  run-IsEvidence o f =
      elim (Bool-cases (sample_selected digest o.handoff_id o.task_id o.sample_rate)) [
        | inr out ↦ (λ h. inl out, λ h. rw (run, out) refl)
        | inl chosen ↦ (
          λ h. inr (
              (audit_errors-IsEvidence o f).0
                ((exit_zero (audit_errors repr digest o f)).0 (rw (run, chosen) at h))),
          λ h. elim h [
            | inl out ↦ cc (chosen, out)
            | inr e ↦
                rw (run, chosen)
                  ((exit_zero (audit_errors repr digest o f)).1 ((audit_errors-IsEvidence o f).1 e))
          ],
        )
      ]
