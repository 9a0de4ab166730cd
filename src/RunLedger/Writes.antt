-- ===== src/RunLedger/Writes.antt =====
-- The PUT route of the run ledger: its answers, the rows over many requests, and what a GET then
-- finds.
use canon_systems.Base.{
  String, ◌≡◌, ◌≢◌, refl, sym, ap, ◌∙◌, ◌⊎◌, inl, inr, Bool, true, false, not, ◌&&◌, Option, none,
  some, List, [], ◌∷◌, leb, subst, if◌then◌else◌,
}
use canon_systems.Base.Json.{Json, Members}
use canon_systems.Dynamo.{Key}
use canon_systems.Dynamo.Expressions.{
  and_also, pk_not_exists, sk_not_exists, stored, condition_failed, failed,
}
use canon_systems.Dynamo.Absent.{passes-none, passes-some}
use canon_systems.RunLedger.{Raised, Outcome, good, raise, build_run_ledger_pk, build_run_ledger_sk}
use canon_systems.RunLedger.Record.{validate_run_ledger_record, ledger_keys_for_record}
use canon_systems.RunLedger.Routes.{
  LedgerTable, put_if_absent, Reply, created, found, missing, store_failed,
  run_ledger_items_equivalent, on_equivalent, on_existing, finish_put, put_at, put_record,
  put_run_ledger, Query, found_row, is_named, name_or_empty, of_handoff, get_by_id, get_at,
  get_scoped, scope_prefix, invalid_limit, get_run_ledger,
}

Outcome-cases {ℓ} :
    {A : Type ℓ} (r : Outcome A) → ((a : A) × (r ≡ good a)) ⊎ ((e : Raised) × (r ≡ raise e))
Outcome-cases (good a) = inl (a, refl)
Outcome-cases (raise e) = inr (e, refl)

module _ (repr : Json → String) (uuid : String → Option String) (db : LedgerTable) where
  open db use {Table, get_item, put_law}

  -- What `put_if_absent` ends with, by what the table holds at the key.
  put_if_absent-cases :
      (t : Table) (k : Key) (r : Members)
      → ((t' : Table) × (put_if_absent db t k r ≡ stored t')
          × (get_item t k ≡ none)
          × (get_item t' k ≡ some r)
          × ((j : Key) → j ≢ k → get_item t' j ≡ get_item t j))
        ⊎ (((old : Members) × (get_item t k ≡ some old)
              × (put_if_absent db t k r ≡ condition_failed))
            ⊎ ((code : String) × (put_if_absent db t k r ≡ failed code)))
  unfolding put_if_absent
  put_if_absent-cases t k r = elim (put_law t k (and_also pk_not_exists sk_not_exists) r) [
    | inl (t', put, held, now, other) ↦ inl (t', put, passes-none (get_item t k) held, now, other)
    | inr (inl (put, not_held)) ↦
        let (old, there) = passes-some (get_item t k) not_held in inr (inl (old, there, put))
    | inr (inr failure) ↦ inr (inr failure)
  ]

  -- The answer to a PUT of a valid record, by what the table holds at its key.
  pub Answers : Table → Members → Members → Key → Type 0
  Answers t body r k =
      ((t' : Table) × (put_run_ledger repr uuid db t body ≡ (created r, t'))
        × (get_item t k ≡ none)
        × (get_item t' k ≡ some r)
        × ((j : Key) → j ≢ k → get_item t' j ≡ get_item t j))
      ⊎ (((old : Members) × (get_item t k ≡ some old)
            × (put_run_ledger repr uuid db t body
                ≡ (on_equivalent old (run_ledger_items_equivalent repr uuid old r), t)))
          ⊎ ((code : String) × (put_run_ledger repr uuid db t body ≡ (store_failed code, t))))

  -- A PUT of a body that is valid and has keys is answered by what the table holds at them: where
  -- there is nothing, the record is stored and every other row is left; where a row stands, nothing
  -- is written, and it is answered if it is equivalent, or else there is a conflict. Otherwise the
  -- table failed and nothing is written.
  pub put_run_ledger-Answers :
      (t : Table) (body r : Members) (k : Key)
      → validate_run_ledger_record repr uuid body ≡ good r
      → ledger_keys_for_record repr uuid r ≡ good k
      → Answers t body r k
  unfolding put_run_ledger finish_put on_existing Answers
  put_run_ledger-Answers t body r k valid keys = elim (put_if_absent-cases t k r) [
    | inl (t', put, absent, now, other) ↦
        inl (t', reached ∙ ap (finish_put repr uuid db t k r) put, absent, now, other)
    | inr (inl (old, there, put)) ↦ inr (
        inl (
          old,
          there,
          reached
              ∙ ap (finish_put repr uuid db t k r) put
              ∙ ap (λ o. (on_existing repr uuid db r o, t)) there,
        ))
    | inr (inr (code, put)) ↦ inr (inr (code, reached ∙ ap (finish_put repr uuid db t k r) put))
  ]
    where
      reached :
          put_run_ledger repr uuid db t body
          ≡ finish_put repr uuid db t k r (put_if_absent db t k r)
      reached = ap (put_record repr uuid db t) valid ∙ ap (put_at repr uuid db t r) keys

  -- A stored row is never changed by a PUT.
  put_run_ledger_keeps :
      (t : Table) (body : Members) (k : Key) (old : Members)
      → get_item t k ≡ some old
      → get_item (put_run_ledger repr uuid db t body).1 k ≡ some old
  unfolding put_run_ledger Answers
  put_run_ledger_keeps t body k old there =
      elim (Outcome-cases (validate_run_ledger_record repr uuid body)) [
        | inr (e, bad) ↦ ap (λ v. get_item (put_record repr uuid db t v).1 k) bad ∙ there
        | inl (r, valid) ↦ elim (Outcome-cases (ledger_keys_for_record repr uuid r)) [
          | inr (e, bad) ↦
              ap (λ v. get_item (put_record repr uuid db t v).1 k) valid
              ∙ ap (λ v. get_item (put_at repr uuid db t r v).1 k) bad
              ∙ there
          | inl (j, keys) ↦ elim (put_run_ledger-Answers t body r j valid keys) [
            | inl (t', answer, absent, now, other) ↦
                ap (λ (p : Reply × Table). get_item p.1 k) answer
                ∙ other k (λ same. cc (same, absent, there))
                ∙ there
            | inr (inl (o, at_key, answer)) ↦
                ap (λ (p : Reply × Table). get_item p.1 k) answer ∙ there
            | inr (inr (code, answer)) ↦ ap (λ (p : Reply × Table). get_item p.1 k) answer ∙ there
          ]
        ]
      ]

  -- The table after a sequence of PUTs.
  unfoldable pub put_all : Table → List Members → Table
  unfolding put_run_ledger
  put_all t [] = t
  put_all t (body ∷ bodies) = put_all (put_run_ledger repr uuid db t body).1 bodies

  -- A ledger row is immutable: whatever is put, it stays as it is.
  pub put_all_keeps :
      (bodies : List Members) (t : Table) (k : Key) (old : Members)
      → get_item t k ≡ some old
      → get_item (put_all t bodies) k ≡ some old
  unfolding put_all
  put_all_keeps [] t k old there = there
  put_all_keeps (body ∷ bodies) t k old there =
      put_all_keeps bodies (put_run_ledger repr uuid db t body).1 k old
        (put_run_ledger_keeps t body k old there)

  not_created :
      (old r : Members) (x : Outcome Bool) (t t' : Table)
      → ◌≢◌ {A = Reply × Table} (on_equivalent old x, t) (created r, t')
  not_created old r (good true) t t' h = cc (ap (λ (p : Reply × Table). p.0) h)
  not_created old r (good false) t t' h = cc (ap (λ (p : Reply × Table). p.0) h)
  not_created old r (raise e) t t' h = cc (ap (λ (p : Reply × Table). p.0) h)

  created_row :
      (t t' : Table) (body r : Members) (k : Key)
      → validate_run_ledger_record repr uuid body ≡ good r
      → ledger_keys_for_record repr uuid r ≡ good k
      → put_run_ledger repr uuid db t body ≡ (created r, t')
      → get_item t' k ≡ some r
  unfolding Answers
  created_row t t' body r k valid keys put = elim (put_run_ledger-Answers t body r k valid keys) [
    | inl (s, answer, absent, now, other) ↦
        subst (λ x. get_item x k ≡ some r) (ap (λ (p : Reply × Table). p.1) (sym answer ∙ put)) now
    | inr (inl (old, there, answer)) ↦
        absurd
          (not_created old r (run_ledger_items_equivalent repr uuid old r) t t' (sym answer ∙ put))
    | inr (inr (code, answer)) ↦ cc (ap (λ (p : Reply × Table). p.0) (sym answer ∙ put))
  ]

  -- A record that a PUT created is what a GET for its run answers, after any further PUTs: the GET
  -- names the run, its parameters make the record's keys, its limit is allowed, and it asks for no
  -- other handoff.
  pub put_run_ledger_found :
      (t t' : Table) (body r : Members) (bodies : List Members) (pk sk : String) (q : Query)
      → validate_run_ledger_record repr uuid body ≡ good r
      → ledger_keys_for_record repr uuid r ≡ good (pk, sk)
      → put_run_ledger repr uuid db t body ≡ (created r, t')
      → build_run_ledger_pk q.company_id q.repository_id ≡ good pk
      → is_named q.ledger_run_id ≡ true
      → build_run_ledger_sk q.plan_id q.task_id q.workstream_id (name_or_empty q.ledger_run_id)
        ≡ good sk
      → leb 1 q.limit && leb q.limit 200 ≡ true
      → is_named q.handoff_id && not (of_handoff q.handoff_id r) ≡ false
      → get_run_ledger db (put_all t' bodies) q ≡ found r
  unfolding get_run_ledger get_at Answers
  put_run_ledger_found t t' body r bodies pk sk q valid keys put q_pk named q_sk limits handoff =
      within_limits
      ∙ ap (get_at db now q) q_pk
      ∙ by_name
      ∙ ap (get_by_id db now q pk) q_sk
      ∙ ap (found_row q.handoff_id)
          (put_all_keeps bodies t' (pk, sk) r (created_row t t' body r (pk, sk) valid keys put))
      ∙ ap (λ b. if b then missing else found r) handoff
    where
      now : Table
      now = put_all t' bodies

      within_limits :
          get_run_ledger db now q
          ≡ get_at db now q (build_run_ledger_pk q.company_id q.repository_id)
      within_limits =
          ap
            (λ b.
              if not b
              then invalid_limit
              else get_at db now q (build_run_ledger_pk q.company_id q.repository_id))
            limits

      by_name :
          get_at db now q (good pk)
          ≡ get_by_id db now q pk (
              build_run_ledger_sk q.plan_id q.task_id q.workstream_id
                (name_or_empty q.ledger_run_id))
      by_name =
          ap
            (λ b.
              if b
              then get_by_id db now q pk (
                  build_run_ledger_sk q.plan_id q.task_id q.workstream_id
                    (name_or_empty q.ledger_run_id))
              else get_scoped db now q pk (scope_prefix q))
            named
