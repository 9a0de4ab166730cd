-- ===== src/RunLedger/Checked.antt =====
-- What a validated run ledger record is.
use mathlib.Core.List.{Memᴰ}
use canon_systems.Base.{
  String, ◌≡◌, sym, ap, ◌∙◌, true, false, not, Option, none, some, leb, non_empty, subst,
}
use canon_systems.Base.Text.{strip}
use canon_systems.Base.Json.{Json, Members, get, listed, count_elements, str_of}
use canon_systems.RunLedger.{
  ledger_error, good, raise, parse_ledger_run_id, reject_forbidden_keys, entry, text_length,
}
use canon_systems.RunLedger.Fields.{
  normalize_archive_ref_item, normalize_ref_list, normalize_optional_str, normalize_timestamp,
  normalize_commits, normalize_commit, normalize_pull_request, normalize_deployment,
}
use canon_systems.RunLedger.Record.{
  validate_heading, validate_lists, validate_links, segment_of, validate_scope, check_version,
  run_id_text, validate_parts, validate_run_ledger_record, normalize_evidence_ref_item,
  normalize_validation_outcomes, normalize_source_event_ids, source_event_id,
}
use canon_systems.RunLedger.Parts.{Scope, Heading, Lists, Links, Parts, record_members}
use canon_systems.RunLedger.Keys.{
  bind-good, guard-good, not-false, good-injective, IsSegment, sanitize_ledger_segment-IsSegment,
}
use canon_systems.RunLedger.References.{
  IsReference, archive_ref_item-IsReference, ref_list, Anything,
}

-- What the normalized entries of a record are.
pub record IsChecked (uuid : String → Option String) (p : Parts) : Type 0 where
  pub run_id : (s : String) × (uuid s ≡ some p.heading.ledger_run_id)
  pub company : IsSegment p.heading.scope.company_id
  pub repository : IsSegment p.heading.scope.repository_id
  pub plan : IsSegment p.heading.scope.plan_id
  pub task : IsSegment p.heading.scope.task_id
  pub workstream : IsSegment p.heading.scope.workstream_id
  pub handoff : IsSegment p.heading.scope.handoff_id
  pub phase : IsSegment p.heading.scope.phase
  pub status : non_empty p.heading.phase_status ≡ true
  pub references : (v : Json) → Memᴰ v (listed p.lists.archive_refs) → IsReference v
  pub few_references : leb (count_elements p.lists.archive_refs) 512 ≡ true
  pub few_evidence : leb (count_elements p.lists.evidence_refs) 256 ≡ true
  pub few_commits : leb (count_elements p.lists.commits) 64 ≡ true
  pub few_events : leb (count_elements p.links.source_event_ids) 256 ≡ true

module _ (repr : Json → String) (uuid : String → Option String) where
  record Steps (ms : Members) (p : Parts) : Type 0 where
    heading : validate_heading repr uuid ms ≡ good p.heading
    lists : validate_lists repr uuid ms ≡ good p.lists
    links : validate_links repr uuid ms ≡ good p.links

  validate_parts-Steps :
      (ms : Members) (p : Parts) → validate_parts repr uuid ms ≡ good p → Steps ms p
  unfolding validate_parts
  validate_parts-Steps ms p h =
      let (a1, e1, h1) = bind-good (validate_heading repr uuid ms) _ h in
      let (a2, e2, h2) = bind-good (validate_lists repr uuid ms) _ h1 in
      let (a3, e3, h3) = bind-good (validate_links repr uuid ms) _ h2 in
      let same = good-injective h3 in
      record {
        heading = e1 ∙ ap (λ (x : Parts). good x.heading) same;
        lists = e2 ∙ ap (λ (x : Parts). good x.lists) same;
        links = e3 ∙ ap (λ (x : Parts). good x.links) same;
      }

  heading_steps :
      (ms : Members) (p : Heading)
      → validate_heading repr uuid ms ≡ good p
      → (parse_ledger_run_id uuid (run_id_text repr uuid ms) ≡ good p.ledger_run_id)
        × (validate_scope repr ms ≡ good p.scope)
        × (non_empty p.phase_status ≡ true)
  unfolding validate_heading
  heading_steps ms p h =
      let (a1, e1, h1) = bind-good (reject_forbidden_keys ms) _ h in
      let (a2, e2, h2) = bind-good (check_version repr ms) _ h1 in
      let (id, e3, h3) = bind-good (parse_ledger_run_id uuid (run_id_text repr uuid ms)) _ h2 in
      let (s, e4, h4) = bind-good (validate_scope repr ms) _ h3 in
      let (phase_status, e5, h5) =
        bind-good (normalize_optional_str repr 128 (get ms "phase_status")) _ h4 in
      let (filled, h6) = guard-good (not (non_empty phase_status)) ledger_error _ h5 in
      let (a7, e7, h7) = bind-good (normalize_timestamp repr true (get ms "created_at")) _ h6 in
      let (a8, e8, h8) = bind-good (normalize_timestamp repr false (get ms "updated_at")) _ h7 in
      let (a9, e9, h9) = bind-good (normalize_optional_str repr 128 (get ms "verdict")) _ h8 in
      let same = good-injective h9 in
      (
        e3 ∙ ap (λ (x : Heading). good x.ledger_run_id) same,
        e4 ∙ ap (λ (x : Heading). good x.scope) same,
        subst (λ (x : Heading). non_empty x.phase_status ≡ true) same
            (not-false (non_empty phase_status) filled),
      )

  lists_steps :
      (ms : Members) (p : Lists)
      → validate_lists repr uuid ms ≡ good p
      → (normalize_ref_list 512 normalize_archive_ref_item (get ms "archive_refs")
          ≡ good p.archive_refs)
        × (normalize_ref_list 256 (normalize_evidence_ref_item repr) (get ms "evidence_refs")
            ≡ good p.evidence_refs)
        × (normalize_commits repr (get ms "commits") ≡ good p.commits)
  unfolding validate_lists
  lists_steps ms p h =
      let (a1, e1, h1) =
        bind-good (normalize_ref_list 512 normalize_archive_ref_item (get ms "archive_refs")) _ h in
      let (a2, e2, h2) =
        bind-good
          (normalize_ref_list 256 (normalize_evidence_ref_item repr) (get ms "evidence_refs")) _
          h1 in
      let (a3, e3, h3) =
        bind-good (normalize_validation_outcomes repr (get ms "validation_outcomes")) _ h2 in
      let (a4, e4, h4) = bind-good (normalize_commits repr (get ms "commits")) _ h3 in
      let same = good-injective h4 in
      (
        e1 ∙ ap (λ (x : Lists). good x.archive_refs) same,
        e2 ∙ ap (λ (x : Lists). good x.evidence_refs) same,
        e4 ∙ ap (λ (x : Lists). good x.commits) same,
      )

  links_events :
      (ms : Members) (p : Links)
      → validate_links repr uuid ms ≡ good p
      → normalize_source_event_ids repr (get ms "source_event_ids") ≡ good p.source_event_ids
  unfolding validate_links
  links_events ms p h =
      let (a1, e1, h1) = bind-good (normalize_pull_request repr (get ms "pull_request")) _ h in
      let (a2, e2, h2) = bind-good (normalize_deployment repr (get ms "deployment")) _ h1 in
      let (a3, e3, h3) =
        bind-good (normalize_source_event_ids repr (get ms "source_event_ids")) _ h2 in
      let (a4, e4, h4) = bind-good (normalize_optional_str repr 256 (get ms "agent_run_id")) _ h3 in
      let (a5, e5, h5) = bind-good (normalize_optional_str repr 256 (get ms "actor_id")) _ h4 in
      e3 ∙ ap (λ (x : Links). good x.source_event_ids) (good-injective h5)

  segment_of-IsSegment : (ms : Members) (k s : String) → segment_of repr ms k ≡ good s → IsSegment s
  unfolding segment_of
  segment_of-IsSegment ms k s h =
      let (v, e, h1) = bind-good (entry ms k) _ h in
      (sanitize_ledger_segment-IsSegment (str_of repr v) s h1).1

  -- All entries of the scope are segments.
  record Segments (s : Scope) : Type 0 where
    company : IsSegment s.company_id
    repository : IsSegment s.repository_id
    plan : IsSegment s.plan_id
    task : IsSegment s.task_id
    workstream : IsSegment s.workstream_id
    handoff : IsSegment s.handoff_id
    phase : IsSegment s.phase

  validate_scope-Segments :
      (ms : Members) (s : Scope) → validate_scope repr ms ≡ good s → Segments s
  unfolding validate_scope
  validate_scope-Segments ms s h =
      let (c, e1, h1) = bind-good (segment_of repr ms "company_id") _ h in
      let (r, e2, h2) = bind-good (segment_of repr ms "repository_id") _ h1 in
      let (p, e3, h3) = bind-good (segment_of repr ms "plan_id") _ h2 in
      let (t, e4, h4) = bind-good (segment_of repr ms "task_id") _ h3 in
      let (w, e5, h5) = bind-good (segment_of repr ms "workstream_id") _ h4 in
      let (o, e6, h6) = bind-good (segment_of repr ms "handoff_id") _ h5 in
      let (f, e7, h7) = bind-good (segment_of repr ms "phase") _ h6 in
      let same = good-injective h7 in
      record {
        company =
            subst (λ (x : Scope). IsSegment x.company_id) same
              (segment_of-IsSegment ms "company_id" c e1);
        repository =
            subst (λ (x : Scope). IsSegment x.repository_id) same
              (segment_of-IsSegment ms "repository_id" r e2);
        plan =
            subst (λ (x : Scope). IsSegment x.plan_id) same
              (segment_of-IsSegment ms "plan_id" p e3);
        task =
            subst (λ (x : Scope). IsSegment x.task_id) same
              (segment_of-IsSegment ms "task_id" t e4);
        workstream =
            subst (λ (x : Scope). IsSegment x.workstream_id) same
              (segment_of-IsSegment ms "workstream_id" w e5);
        handoff =
            subst (λ (x : Scope). IsSegment x.handoff_id) same
              (segment_of-IsSegment ms "handoff_id" o e6);
        phase =
            subst (λ (x : Scope). IsSegment x.phase) same (segment_of-IsSegment ms "phase" f e7);
      }

  parsed_id :
      (v s : String) → parse_ledger_run_id uuid v ≡ good s → (x : String) × (uuid x ≡ some s)
  unfolding parse_ledger_run_id
  parsed_id v s h =
      let (filled, h1) = guard-good (not (non_empty (strip v))) ledger_error _ h in
      let (short, h2) = guard-good (not (leb (text_length (strip v)) 256)) ledger_error _ h1 in
      (strip v, of_uuid (uuid (strip v)) h2)
    where
      of_uuid :
          (o : Option String)
          → (elim o [ none ↦ raise ledger_error | some id ↦ good id ]) ≡ good s
          → o ≡ some s
      of_uuid none h = cc
      of_uuid (some id) h = ap some (good-injective h)

  -- A validated record is built from entries that are as they should be: its scope of key segments,
  -- its run id one that the UUID parser gave, its status not empty, each archive reference an object
  -- that has an entry for the hash and one for the kind, no body key at its top and no key but the
  -- allowed ones, and its lists within their limits.
  pub validate_run_ledger_record-IsChecked :
      (ms r : Members)
      → validate_run_ledger_record repr uuid ms ≡ good r
      → (p : Parts) × (r ≡ record_members p) × IsChecked uuid p
  unfolding validate_run_ledger_record normalize_commits normalize_source_event_ids
  validate_run_ledger_record-IsChecked ms r h =
      let (p, parts, h1) = bind-good (validate_parts repr uuid ms) _ h in
      let (a, e, h2) = bind-good (reject_forbidden_keys (record_members p)) _ h1 in
      let s = validate_parts-Steps ms p parts in
      let (id, scope, status) = heading_steps ms p.heading s.heading in
      let (archive, evidence, commits) = lists_steps ms p.lists s.lists in
      let events = links_events ms p.links s.links in
      let segments = validate_scope-Segments ms p.heading.scope scope in
      let (few, references) =
        ref_list 512 normalize_archive_ref_item IsReference archive_ref_item-IsReference
          (get ms "archive_refs") p.lists.archive_refs archive in
      (
        p,
        sym (good-injective h2),
        record {
          run_id = parsed_id (run_id_text repr uuid ms) p.heading.ledger_run_id id;
          company = segments.company;
          repository = segments.repository;
          plan = segments.plan;
          task = segments.task;
          workstream = segments.workstream;
          handoff = segments.handoff;
          phase = segments.phase;
          status = status;
          references = references;
          few_references = few;
          few_evidence =
              (ref_list 256 (normalize_evidence_ref_item repr) Anything (λ v w e. tt)
                (get ms "evidence_refs") p.lists.evidence_refs evidence).0;
          few_commits =
              (ref_list 64 (normalize_commit repr) Anything (λ v w e. tt) (get ms "commits")
                p.lists.commits commits).0;
          few_events =
              (ref_list 256 (source_event_id repr) Anything (λ v w e. tt)
                (get ms "source_event_ids") p.links.source_event_ids events).0;
        },
      )
