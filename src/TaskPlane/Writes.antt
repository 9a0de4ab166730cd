-- ===== src/TaskPlane/Writes.antt =====
-- The POST route of backend/state-api/state_api/tasks.py: its answers, and the rows over many posts.
use canon_systems.Base.{
  String, ◌≡◌, ◌≢◌, refl, ap, ◌∙◌, ◌⊎◌, inl, inr, true, false, none, some, List, [], ◌∷◌,
  Bool-cases, Option-cases,
}
use canon_systems.Dynamo.{Key}
use canon_systems.Dynamo.Expressions.{
  and_also, pk_not_exists, sk_not_exists, stored, condition_failed, failed,
}
use canon_systems.Dynamo.Absent.{passes-none, passes-some}
use canon_systems.TaskPlane.{
  ServerEvent, event_keys, validate_task_event, events_equivalent, EventTable, put_event_if_absent,
  Posted, created, idempotent, invalid, conflicting, crashed, on_existing, finish_post, post_at,
  post_task_event,
}

-- The answer to a post at a key, by what the table holds there.
abbrev pub Answers : (db : EventTable) → db.Table → ServerEvent → String × String → Type 0
Answers db t e k =
    ((t' : db.Table) × (post_task_event db t e ≡ (created e, t'))
      × (db.get t k ≡ none)
      × (db.get t' k ≡ some e)
      × ((j : String × String) → j ≢ k → db.get t' j ≡ db.get t j))
    ⊎ (((old : ServerEvent) × (db.get t k ≡ some old)
          × (((events_equivalent old e ≡ true) × (post_task_event db t e ≡ (idempotent old, t)))
              ⊎ ((events_equivalent old e ≡ false) × (post_task_event db t e ≡ (conflicting, t)))))
        ⊎ ((code : String) × (post_task_event db t e ≡ (crashed code, t))))

module _ (db : EventTable) where
  open db use {Table, get, put_law}

  -- What `put_event_if_absent` ends with, by what the table holds at the key.
  put_event_if_absent-cases :
      (t : Table) (k : Key) (r : ServerEvent)
      → ((t' : Table) × (put_event_if_absent db t k r ≡ stored t')
          × (get t k ≡ none)
          × (get t' k ≡ some r)
          × ((j : Key) → j ≢ k → get t' j ≡ get t j))
        ⊎ (((old : ServerEvent) × (get t k ≡ some old)
              × (put_event_if_absent db t k r ≡ condition_failed))
            ⊎ ((code : String) × (put_event_if_absent db t k r ≡ failed code)))
  unfolding put_event_if_absent
  put_event_if_absent-cases t k r = elim (put_law t k (and_also pk_not_exists sk_not_exists) r) [
    | inl (t', put, held, now, other) ↦ inl (t', put, passes-none (get t k) held, now, other)
    | inr (inl (put, not_held)) ↦
        let (old, there) = passes-some (get t k) not_held in inr (inl (old, there, put))
    | inr (inr failure) ↦ inr (inr failure)
  ]

  -- A valid event with keys is answered by what the table holds at them: where there is nothing,
  -- it is created and stored and every other row is left; where an equivalent event stands, that
  -- one is answered and nothing written; another event there is a conflict and nothing is written.
  -- Otherwise the table failed and nothing is written.
  pub post_task_event-Answers :
      (t : Table) (e : ServerEvent) (k : String × String)
      → validate_task_event e ≡ true
      → event_keys e ≡ some k
      → Answers db t e k
  unfolding post_task_event post_at finish_post on_existing
  post_task_event-Answers t e k valid keys = elim (put_event_if_absent-cases t k e) [
    | inl (t', put, absent, now, other) ↦
        inl (
          t',
          rw (post_task_event, valid, keys) (ap (finish_post db t k e) put),
          absent,
          now,
          other,
        )
    | inr (inl (old, there, put)) ↦
        let answer : post_task_event db t e ≡ (on_existing db e (some old), t) =
          rw (post_task_event, valid, keys)
            (ap (finish_post db t k e) put ∙ ap (λ o. (on_existing db e o, t)) there) in
        elim (Bool-cases (events_equivalent old e)) [
          | inl same ↦
              inr (inl (old, there, inl (same, answer ∙ ap (λ x. (x, t)) (rw (on_existing, same)))))
          | inr differ ↦
              inr (
                inl
                  (old, there, inr (differ, answer ∙ ap (λ x. (x, t)) (rw (on_existing, differ)))))
        ]
    | inr (inr (code, put)) ↦
        inr (inr (code, rw (post_task_event, valid, keys) (ap (finish_post db t k e) put)))
  ]

  -- An event that is not valid is answered by a 400 and nothing is written.
  pub post_task_event-invalid :
      (t : Table) (e : ServerEvent)
      → validate_task_event e ≡ false
      → post_task_event db t e ≡ (invalid, t)
  unfolding post_task_event post_at finish_post on_existing
  post_task_event-invalid t e bad = rw (post_task_event, bad)

  -- So is one without keys.
  pub post_task_event-unkeyed :
      (t : Table) (e : ServerEvent) → event_keys e ≡ none → post_task_event db t e ≡ (invalid, t)
  unfolding post_task_event post_at
  post_task_event-unkeyed t e unkeyed = elim (Bool-cases (validate_task_event e)) [
    | inl valid ↦ rw (post_task_event, valid, unkeyed) refl
    | inr bad ↦ rw (post_task_event, bad) refl
  ]

  pub post_task_event_keeps :
      (t : Table) (e : ServerEvent) (k : String × String) (old : ServerEvent)
      → get t k ≡ some old
      → get (post_task_event db t e).1 k ≡ some old
  unfolding post_task_event post_at finish_post on_existing
  post_task_event_keeps t e k old there = elim (Bool-cases (validate_task_event e)) [
    | inr bad ↦ ap (λ (p : Posted × Table). get p.1 k) (post_task_event-invalid t e bad) ∙ there
    | inl valid ↦ elim (Option-cases (event_keys e)) [
      | inl unkeyed ↦ rw (post_task_event, valid, unkeyed) there
      | inr (j, keys) ↦ elim (post_task_event-Answers t e j valid keys) [
        | inl (t', answer, absent, now, other) ↦
            ap (λ (p : Posted × Table). get p.1 k) answer
            ∙ other k (λ p. cc (there, absent, p))
            ∙ there
        | inr (inl (x, at_j, inl (same, answer))) ↦
            ap (λ (p : Posted × Table). get p.1 k) answer ∙ there
        | inr (inl (x, at_j, inr (differ, answer))) ↦
            ap (λ (p : Posted × Table). get p.1 k) answer ∙ there
        | inr (inr (code, answer)) ↦ ap (λ (p : Posted × Table). get p.1 k) answer ∙ there
      ]
    ]
  ]

  unfoldable pub post_all : Table → List ServerEvent → Table
  post_all t [] = t
  post_all t (e ∷ es) = post_all (post_task_event db t e).1 es

  -- The stream is append-only: whatever is posted, an event that is stored stays as it is.
  pub post_all_keeps :
      (t : Table) (es : List ServerEvent) (k : String × String) (old : ServerEvent)
      → get t k ≡ some old
      → get (post_all t es) k ≡ some old
  unfolding post_all
  post_all_keeps t [] k old there = there
  post_all_keeps t (e ∷ es) k old there =
      post_all_keeps (post_task_event db t e).1 es k old (post_task_event_keeps t e k old there)
