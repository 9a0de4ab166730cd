-- ===== src/RunLedger/Parts.antt =====
-- The entries of a run ledger record as `validate_run_ledger_record` of
-- backend/shared/canon_backend_shared/run_ledger.py has normalized them, and the dict it returns.
use canon_systems.Base.{String, Option, none, some, non_empty, if◌then◌else◌}
use canon_systems.Base.Json.{Elements, Members, number, string, array, object, no_members, member}

abbrev pub optional_object : String → Option Members → Members → Members
optional_object k none rest = rest
optional_object k (some ms) rest = member k (object ms) rest

-- The scope of a record: company, repository, plan, task, workstream, handoff and phase.
pub record Scope : Type 0 where
  pub company_id : String
  pub repository_id : String
  pub plan_id : String
  pub task_id : String
  pub workstream_id : String
  pub handoff_id : String
  pub phase : String

-- What `validate_run_ledger_record` has normalized, in three steps.
pub record Heading : Type 0 where
  pub ledger_run_id : String
  pub scope : Scope
  pub phase_status : String
  pub created_at : String
  pub updated_at : String
  pub verdict : String

pub record Lists : Type 0 where
  pub archive_refs : Elements
  pub evidence_refs : Elements
  pub validation_outcomes : Members
  pub commits : Elements

pub record Links : Type 0 where
  pub pull_request : Option Members
  pub deployment : Option Members
  pub source_event_ids : Elements
  pub agent_run_id : String
  pub actor_id : String

pub record Parts : Type 0 where
  pub heading : Heading
  pub lists : Lists
  pub links : Links

-- An entry that is left out if it is empty.
abbrev pub optional_text : String → String → Members → Members
optional_text k s rest = if non_empty s then member k (string s) rest else rest

-- The entries that a record may lack.
abbrev pub optional_members : Parts → Members
optional_members p = optional_text "verdict" p.heading.verdict (
    optional_text "updated_at" p.heading.updated_at (
      optional_object "pull_request" p.links.pull_request (
        optional_object "deployment" p.links.deployment (
          optional_text "agent_run_id" p.links.agent_run_id
            (optional_text "actor_id" p.links.actor_id no_members)))))

unfoldable pub record_members : Parts → Members
record_members p = member "schema_version" (number 1) (
    member "ledger_run_id" (string p.heading.ledger_run_id) (
      member "company_id" (string p.heading.scope.company_id) (
        member "repository_id" (string p.heading.scope.repository_id) (
          member "plan_id" (string p.heading.scope.plan_id) (
            member "task_id" (string p.heading.scope.task_id) (
              member "workstream_id" (string p.heading.scope.workstream_id) (
                member "handoff_id" (string p.heading.scope.handoff_id) (
                  member "phase" (string p.heading.scope.phase) (
                    member "phase_status" (string p.heading.phase_status) (
                      member "created_at" (string p.heading.created_at) (
                        member "archive_refs" (array p.lists.archive_refs) (
                          member "evidence_refs" (array p.lists.evidence_refs) (
                            member "validation_outcomes" (object p.lists.validation_outcomes) (
                              member "commits" (array p.lists.commits) (
                                member "source_event_ids" (array p.links.source_event_ids)
                                  (optional_members p))))))))))))))))
