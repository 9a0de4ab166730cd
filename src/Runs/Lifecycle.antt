-- ===== src/Runs/Lifecycle.antt =====
-- `create_run` and `advance_run_lifecycle` of backend/knowledge-api/app/services/runs.py.
use canon_systems.Base.{
  String, ◌≡◌, ◌≢◌, refl, sym, ap, ◌∙◌, ◌⊎◌, inl, inr, true, false, Option, none, some, List, [],
  ◌∷◌, str_eq, eq_iff, eq_refl, str_ne, Bool-cases, Option-cases,
}
use canon_systems.Runs.{RunOrm, CreateRunRequest, AdvanceRunLifecycleRequest, Session}
use canon_systems.Runs.Service.{
  ok, refused, ensure_run_company_scope, get_run, Link, validate_run_linkages, create_links,
  new_run, create_run, advance_status, override_stage, with_status, advance_row, human_stage,
  advance_run_lifecycle,
}
use canon_systems.Runs.Listing.{to_run_summary}

-- The row of a run that was just created: the entries of the request, pending, unclaimed, started
-- now and not ended.
pub record IsCreated (q : CreateRunRequest) (now : String) (r : RunOrm) : Type 0 where
  pub id_is : r.id ≡ q.run_id
  pub dispatch_status_is : r.dispatch_status ≡ "pending"
  pub started_at_is : r.started_at ≡ now
  pub stage_is : r.stage ≡ q.stage
  pub status_is : r.status ≡ q.status
  pub launch_mode_is : r.launch_mode ≡ q.launch_mode
  pub initiated_by_is : r.initiated_by ≡ q.initiated_by
  pub source_conversation_id_is : r.source_conversation_id ≡ q.source_conversation_id
  pub scope_artifact_id_is : r.scope_artifact_id ≡ q.scope_artifact_id
  pub plan_packet_artifact_id_is : r.plan_packet_artifact_id ≡ q.plan_packet_artifact_id
  pub scaffold_blueprint_artifact_id_is :
      r.scaffold_blueprint_artifact_id ≡ q.scaffold_blueprint_artifact_id
  pub execution_packet_artifact_id_is :
      r.execution_packet_artifact_id ≡ q.execution_packet_artifact_id
  pub work_item_id_is : r.work_item_id ≡ q.work_item_id
  pub jira_issue_key_is : r.jira_issue_key ≡ q.jira_issue_key
  pub canon_task_id_is : r.canon_task_id ≡ q.canon_task_id
  pub task_title_is : r.task_title ≡ q.task_title
  pub repository_id_is : r.repository_id ≡ q.repository_id
  pub scope_id_is : r.scope_id ≡ q.scope_id
  pub orchestration_runtime_is : r.orchestration_runtime ≡ none
  pub workflow_type_is : r.workflow_type ≡ none
  pub task_queue_is : r.task_queue ≡ none
  pub capability_class_is : r.capability_class ≡ none
  pub provider_lane_is : r.provider_lane ≡ none
  pub fallback_lane_is : r.fallback_lane ≡ none
  pub parent_run_id_is : r.parent_run_id ≡ none
  pub dispatch_payload_json_is : r.dispatch_payload_json ≡ none
  pub claimed_by_is : r.claimed_by ≡ none
  pub claimed_at_is : r.claimed_at ≡ none
  pub ended_at_is : r.ended_at ≡ none

new_run-IsCreated : (q : CreateRunRequest) (now : String) → IsCreated q now (new_run q now)
unfolding new_run
new_run-IsCreated q now = record {
  id_is = refl;
  dispatch_status_is = refl;
  started_at_is = refl;
  stage_is = refl;
  status_is = refl;
  launch_mode_is = refl;
  initiated_by_is = refl;
  source_conversation_id_is = refl;
  scope_artifact_id_is = refl;
  plan_packet_artifact_id_is = refl;
  scaffold_blueprint_artifact_id_is = refl;
  execution_packet_artifact_id_is = refl;
  work_item_id_is = refl;
  jira_issue_key_is = refl;
  canon_task_id_is = refl;
  task_title_is = refl;
  repository_id_is = refl;
  scope_id_is = refl;
  orchestration_runtime_is = refl;
  workflow_type_is = refl;
  task_queue_is = refl;
  capability_class_is = refl;
  provider_lane_is = refl;
  fallback_lane_is = refl;
  parent_run_id_is = refl;
  dispatch_payload_json_is = refl;
  claimed_by_is = refl;
  claimed_at_is = refl;
  ended_at_is = refl;
}

override_stage-id : (o : Option String) (r : RunOrm) → (override_stage o r).id ≡ r.id
override_stage-id none r = refl
override_stage-id (some v) r = refl

advance_status-id :
    (q : AdvanceRunLifecycleRequest) (now : String) (r : RunOrm)
    → (advance_status q now r).id ≡ r.id
unfolding advance_status
advance_status-id q now r = elim (Option-cases q.status_override) [
  | inr (v, given) ↦ rw (advance_status, given)
  | inl h ↦ elim (Bool-cases (str_eq q.next_dispatch_status "started")) [
    | inl a ↦ rw (advance_status, h, a)
    | inr a ↦ elim (Bool-cases (str_eq q.next_dispatch_status "waiting_for_human")) [
      | inl b ↦ rw (advance_status, h, a, b)
      | inr b ↦ elim (Bool-cases (str_eq q.next_dispatch_status "completed")) [
        | inl c ↦ rw (advance_status, h, a, b, c)
        | inr c ↦ elim (Bool-cases (str_eq q.next_dispatch_status "failed")) [
          | inl d ↦ rw (advance_status, h, a, b, c, d)
          | inr d ↦ rw (advance_status, h, a, b, c, d)
        ]
      ]
    ]
  ]
]

advance_row-id :
    (q : AdvanceRunLifecycleRequest) (now : String) (r : RunOrm) → (advance_row q now r).id ≡ r.id
unfolding advance_row
advance_row-id q now r =
    advance_status-id q now (override_stage q.stage_override (with_status q r))
    ∙ override_stage-id q.stage_override (with_status q r)

human_stage-moved : (s : String) → human_stage s ≢ "human_blocked"
human_stage-moved s p = elim (Bool-cases (str_eq s "human_blocked")) [
  | inl e ↦ cc (rw e at p)
  | inr e ↦ cc (rw (rw e at p, eq_refl "human_blocked") at e)
]

-- What an advance without a status of its own leaves to see: completed and failed runs are
-- terminal and carry the time they ended, a run that waits for a human says so and counts as
-- blocked, and a started run is no longer at the stage of a human.
pub advance_row-summary :
    (q : AdvanceRunLifecycleRequest) (now : String) (r : RunOrm)
    → q.status_override ≡ none
    → (((q.next_dispatch_status ≡ "completed") ⊎ (q.next_dispatch_status ≡ "failed"))
        → ((to_run_summary (advance_row q now r)).is_terminal ≡ true)
          × ((advance_row q now r).ended_at ≡ some now))
      × (q.next_dispatch_status ≡ "waiting_for_human"
          → ((to_run_summary (advance_row q now r)).waiting_for_human ≡ true)
            × ((to_run_summary (advance_row q now r)).is_blocked ≡ true))
      × (q.next_dispatch_status ≡ "started" → (advance_row q now r).stage ≢ "human_blocked")
unfolding advance_row advance_status to_run_summary
advance_row-summary q now r free = (
  λ next. elim next [
    | inl e ↦ (rw (advance_status, free, e), rw (advance_status, free, e))
    | inr e ↦ (rw (advance_status, free, e), rw (advance_status, free, e))
  ],
  λ e. (rw (advance_status, free, e), rw (advance_status, free, e)),
  λ e p.
      human_stage-moved (override_stage q.stage_override (with_status q r)).stage
        (sym (rw (advance_status, free, e)) ∙ p),
)

module _ (db : Session) where
  open db use {State, get, exists, save, save_law, get_law}

  -- Every link that is given names a row that is there.
  abbrev pub Linked : State → List Link → Type 0
  Linked s [] = true ≡ true
  Linked s ((field, t, none) ∷ ls) = Linked s ls
  Linked s ((field, t, some id) ∷ ls) = (exists s t id ≡ true) × Linked s ls

  pub validate_run_linkages-Linked :
      (s : State) (ls : List Link) → Linked s ls → validate_run_linkages db s ls ≡ none
  unfolding validate_run_linkages
  validate_run_linkages-Linked s [] h = refl
  validate_run_linkages-Linked s ((field, t, none) ∷ ls) h = validate_run_linkages-Linked s ls h
  validate_run_linkages-Linked s ((field, t, some id) ∷ ls) h =
      rw (h.0, validate_run_linkages-Linked s ls h.1)

  get_run-own :
      (s : State) (k : String) (r : RunOrm) → get s k ≡ some r → get_run db s r.id none ≡ ok s r
  unfolding get_run ensure_run_company_scope
  get_run-own s k r got = let own = ap (get s) (get_law s k r got) ∙ got in rw (get_run, own)

  create_run-taken :
      (s : State) (q : CreateRunRequest) (now : String) (r : RunOrm)
      → get s q.run_id ≡ some r
      → create_run db s q now ≡ refused 409 "run already exists"
  unfolding create_run
  create_run-taken s q now r taken = rw (create_run, taken)

  -- A run of a new id whose links are all there is created: the answer is a row with the
  -- entries of the request, pending, unclaimed, started now and not ended, the table has this row
  -- under that id, every other run is left, and
  -- creating the id again is refused with 409 whatever the second request says.
  pub create_run-once :
      (s : State) (q : CreateRunRequest) (now : String)
      → get s q.run_id ≡ none
      → Linked s (create_links db q)
      → (s' : State) × (r : RunOrm) × (create_run db s q now ≡ ok s' r)
        × (get s' q.run_id ≡ some r)
        × IsCreated q now r
        × ((k : String) → k ≢ q.run_id → get s' k ≡ get s k)
        × ((p : CreateRunRequest) (later : String)
            → p.run_id ≡ q.run_id
            → create_run db s' p later ≡ refused 409 "run already exists")
  unfolding create_run get_run new_run ensure_run_company_scope
  create_run-once s q now fresh linked =
      let saved = save_law s (new_run q now) in
      let linkages = validate_run_linkages-Linked s (create_links db q) linked in
      (
        save s (new_run q now),
        new_run q now,
        rw (create_run, fresh, linkages, get_run, saved.0, ensure_run_company_scope),
        saved.0,
        new_run-IsCreated q now,
        saved.1,
        λ p later same.
            create_run-taken (save s (new_run q now)) p later (new_run q now)
              (ap (get (save s (new_run q now))) same ∙ saved.0),
      )

  -- An advance that does not meet the dispatch status it expects: the retry of a start that has
  -- already happened answers the row and leaves the state, and any other call is refused with 409.
  pub advance_run_lifecycle-stale :
      (s : State) (k now expected : String) (q : AdvanceRunLifecycleRequest) (r : RunOrm)
      → get s k ≡ some r
      → q.expected_dispatch_status ≡ some expected
      → r.dispatch_status ≢ expected
      → ((q.next_dispatch_status ≡ "started")
          × (r.dispatch_status ≡ "started")
          × (advance_run_lifecycle db s k q now ≡ ok s r))
        ⊎ (((q.next_dispatch_status ≢ "started") ⊎ (r.dispatch_status ≢ "started"))
            × (advance_run_lifecycle db s k q now ≡ refused 409 "run dispatch state changed"))
  unfolding advance_run_lifecycle get_run ensure_run_company_scope
  advance_run_lifecycle-stale s k now expected q r got e other =
      let unmet : str_eq r.dispatch_status expected ≡ false =
        str_ne r.dispatch_status expected other in
      elim (Bool-cases (str_eq q.next_dispatch_status "started")) [
        | inr elsewhere ↦ inr (
          inl (λ p. cc (rw (p, eq_refl "started") at elsewhere)),
          rw (advance_run_lifecycle, got, e, unmet, elsewhere),
        )
        | inl start ↦ elim (Bool-cases (str_eq r.dispatch_status "started")) [
          | inr pending ↦ inr (
            inr (λ p. cc (rw (p, eq_refl "started") at pending)),
            rw (advance_run_lifecycle, got, e, unmet, start, pending),
          )
          | inl started ↦ inl (
            (eq_iff q.next_dispatch_status "started").0 start,
            (eq_iff r.dispatch_status "started").0 started,
            rw (advance_run_lifecycle, got, e, unmet, start, started) (get_run-own s k r got),
          )
        ]
      ]

  -- An advance that meets the dispatch status it expects stores the advanced row and answers it,
  -- and leaves every other run.
  pub advance_run_lifecycle-met :
      (s : State) (k now expected : String) (q : AdvanceRunLifecycleRequest) (r : RunOrm)
      → get s k ≡ some r
      → q.expected_dispatch_status ≡ some expected
      → r.dispatch_status ≡ expected
      → (s' : State) × (advance_run_lifecycle db s k q now ≡ ok s' (advance_row q now r))
        × (get s' k ≡ some (advance_row q now r))
        × ((j : String) → j ≢ k → get s' j ≡ get s j)
  unfolding advance_run_lifecycle get_run ensure_run_company_scope
  advance_run_lifecycle-met s k now expected q r got e met =
      let saved = save_law s (advance_row q now r) in
      let same_id : (advance_row q now r).id ≡ k = advance_row-id q now r ∙ get_law s k r got in
      let stored : get (save s (advance_row q now r)) k ≡ some (advance_row q now r) =
        ap (get (save s (advance_row q now r))) (sym same_id) ∙ saved.0 in
      let unmet : str_eq r.dispatch_status expected ≡ true =
        ap (λ x. str_eq x expected) met ∙ eq_refl expected in
      (
        save s (advance_row q now r),
        rw (
          advance_run_lifecycle,
          got,
          e,
          unmet,
          get_run,
          get_law s k r got,
          stored,
          ensure_run_company_scope,
        ),
        stored,
        λ j ne. saved.1 j (λ p. ne (p ∙ same_id)),
      )
