-- ===== src/FlowAudit/Passed.antt =====
-- What the artifacts of `canon flow-audit` show that have no error.
use mathlib.Core.Option.{some-injective}
use canon_systems.Base.{
  String, ◌≡◌, ◌↔◌, refl, sym, ◌∙◌, inl, inr, true, Option, none, some, [], subst, Bool-cases,
  Option-cases,
}
use canon_systems.Base.Json.{Json, Members, string, object, get, contains_text}
use canon_systems.FlowAudit.{
  File, content, Error, unless, is_text, is_state_version, memory_health_payload,
  collect_memory_health_errors, checkpoint_payload, checkpoint_errors, memory_health_status,
  missing_memory_health, invalid_memory_health, memory_health_not_object, missing_checkpoint,
  invalid_checkpoint, checkpoint_not_object, checkpoint_version, checkpoint_phase, checkpoint_task,
  checkpoint_handoff, checkpoint_state_version, missing_token, task_not_in_plan,
}
use canon_systems.FlowAudit.Errors.{
  no_errors, unless-none, iff_trans, is_text_iff, with_object-none,
}
use canon_systems.FlowAudit.Run.{artifact_errors, plan_errors}

abbrev Healthy : Members → Type 0
Healthy ms = (get ms "schema_version" ≡ string "1") × (get ms "overall_status" ≡ string "ok")

pub IsHealthy : File → Type 0
IsHealthy f = (ms : Members) × (f ≡ content (object ms)) × Healthy ms

abbrev CheckpointOf : String → String → String → Members → Type 0
CheckpointOf handoff_id task_id phase ms =
    (get ms "schema_version" ≡ string "1")
    × ((get ms "phase" ≡ string phase)
        × ((get ms "task_id" ≡ string task_id)
            × ((get ms "handoff_id" ≡ string handoff_id)
                × (is_state_version (get ms "state_version") ≡ true))))

pub IsCheckpoint : String → String → String → File → Type 0
IsCheckpoint handoff_id task_id phase f =
    (ms : Members) × (f ≡ content (object ms)) × CheckpointOf handoff_id task_id phase ms

text_field : (v : Json) (s : String) (e : Error) → (unless (is_text v s) e ≡ []) ↔ (v ≡ string s)
text_field v s e = iff_trans (unless-none (is_text v s) e) (is_text_iff v s)

pub memory_health-IsHealthy : (f : File) → (collect_memory_health_errors f ≡ []) ↔ IsHealthy f
unfolding collect_memory_health_errors memory_health_payload IsHealthy
memory_health-IsHealthy =
    with_object-none missing_memory_health invalid_memory_health memory_health_not_object
      memory_health_payload healthy
  where
    healthy : (ms : Members) → (memory_health_payload ms ≡ []) ↔ Healthy ms
    healthy ms = elim (Bool-cases (is_text (get ms "schema_version") "1")) [
      | inl h ↦ (
        λ k. (
          (is_text_iff (get ms "schema_version") "1").0 h,
          (text_field (get ms "overall_status") "ok" memory_health_status).0
              (rw (memory_health_payload, h) at k),
        ),
        λ k.
            rw (memory_health_payload, h)
              ((text_field (get ms "overall_status") "ok" memory_health_status).1 k.1),
      )
      | inr h ↦ (
        λ k. cc (rw (memory_health_payload, h) at k),
        λ k. cc (h, (is_text_iff (get ms "schema_version") "1").1 k.0),
      )
    ]

pub checkpoint_errors-IsCheckpoint :
    (handoff_id task_id phase : String) (f : File)
    → (checkpoint_errors handoff_id task_id phase f ≡ []) ↔ IsCheckpoint handoff_id task_id phase f
unfolding checkpoint_errors checkpoint_payload IsCheckpoint
checkpoint_errors-IsCheckpoint handoff_id task_id phase =
    with_object-none (missing_checkpoint phase) (invalid_checkpoint phase)
      (checkpoint_not_object phase) (checkpoint_payload handoff_id task_id phase)
      (λ ms. no_errors (text_field (get ms "schema_version") "1" (checkpoint_version phase)) (
        no_errors (text_field (get ms "phase") phase (checkpoint_phase phase)) (
          no_errors (text_field (get ms "task_id") task_id (checkpoint_task phase)) (
            no_errors (text_field (get ms "handoff_id") handoff_id (checkpoint_handoff phase)) (
              unless-none (is_state_version (get ms "state_version"))
                (checkpoint_state_version phase))))))

pub HasToken : (String → Option String) → String × String → Type 0
HasToken file (name, token) =
    (body : String) × (file name ≡ some body) × (contains_text body token ≡ true)

pub artifact-HasToken :
    (file : String → Option String) (r : String × String)
    → (artifact_errors file r ≡ []) ↔ HasToken file r
unfolding artifact_errors HasToken
artifact-HasToken file (name, token) = elim (Option-cases (file name)) [
  | inl e ↦ (λ h. cc (rw (artifact_errors, e) at h), λ (body, k, t). cc (sym e ∙ k))
  | inr (body, e) ↦ (
    λ h. (
      body,
      e,
      (unless-none (contains_text body token) (missing_token name)).0
          (rw (artifact_errors, e) at h),
    ),
    λ (other, k, t).
        rw (artifact_errors, k)
          ((unless-none (contains_text other token) (missing_token name)).1 t),
  )
]

pub HasTask : String → Option (Option String) → Type 0
HasTask task_id plan =
    (q : Option String)
    → plan ≡ some q
    → (text : String) × (q ≡ some text) × (contains_text text task_id ≡ true)

pub plan-HasTask :
    (task_id : String) (plan : Option (Option String))
    → (plan_errors task_id plan ≡ []) ↔ HasTask task_id plan
unfolding plan_errors HasTask
plan-HasTask task_id none = (λ h q e. cc, λ h. refl)
plan-HasTask task_id (some none) = (λ h. cc, λ h. cc ((h none refl).1))
plan-HasTask task_id (some (some text)) = (
  λ h q e. (
    text,
    sym (some-injective (some text) q e),
    (unless-none (contains_text text task_id) task_not_in_plan).0 h,
  ),
  λ h. (unless-none (contains_text text task_id) task_not_in_plan).1 (
      subst (λ x. contains_text x task_id ≡ true)
        (sym (some-injective text (h (some text) refl).0 (h (some text) refl).1))
        (h (some text) refl).2),
)
