-- ===== src/Readiness/Answer.antt =====
-- What a report that says ready was made from.
use canon_systems.Base.{
  ℕ, String, ◌≡◌, refl, sym, ap, inl, inr, Bool, true, false, ◌&&◌, Option, none, some, [], ◌∷◌,
  leb, non_empty, subst, Bool-cases, Option-cases,
}
use canon_systems.Base.Json.{
  Json, Elements, Members, string, object, get, object_of, str_of, str_or_empty,
}
use canon_systems.Readiness.{or_value}
use canon_systems.Readiness.Snapshot.{snapshot_safe}
use canon_systems.Readiness.Latest.{
  mappings, pick_latest_ledger_record, IsLatest, pick_latest_ledger_record-IsLatest,
}
use canon_systems.Readiness.Report.{
  Report, Fetched, payload, record_not_found, fault, request_failed, service_unavailable,
  transport_error, report, row_count, list_of, empty_report_not_found,
  build_readiness_report_for_record, by_run_id, latest_of, latest_scoped, evaluate_readiness,
  run_readiness_pipeline,
}
use canon_systems.Readiness.Verdict.{IsReadyRow, build_readiness_report-IsReadyRow}

report-injective : {a b : Report} → report a ≡ report b → a ≡ b
report-injective {a} h = ap (λ x. elim x [ report r ↦ r | _ ↦ a ]) h

module _ (repr : Json → String) where
  abbrev pub is_named : Option String → Bool
  is_named none = false
  is_named (some run) = non_empty run

  -- The row of a payload that a query speaks of: the one of the run that is named, or else the
  -- newest of the rows, when the query's limit was not reached.
  pub data Chosen (p : Members) (limit : ℕ) (rec : Members) : Option String → Type 0 where
    named :
        {run : String}
        → non_empty run ≡ true
        → object_of (get p "record") ≡ some rec
        → Chosen p limit rec (some run)
    newest :
        {run : Option String}
        → is_named run ≡ false
        → (items : Elements) → list_of (get p "items") ≡ some items
        → IsLatest repr rec (mappings items)
        → leb 1 limit && leb limit (row_count (get p "count") items) ≡ false
        → Chosen p limit rec run

  -- A report that says ready speaks of one row, which is ready, and shows its snapshot.
  pub Backed : Members → ℕ → Option String → Report → Type 0
  Backed p limit run r =
      (rec : Members) × Chosen p limit rec run
      × IsReadyRow repr rec
      × (r.records ≡ snapshot_safe (object rec) ∷ [])

  row_report :
      (rec : Members) (id mode : String) (hit : Bool)
      → (build_readiness_report_for_record repr rec id mode hit).ready ≡ true
      → IsReadyRow repr rec × (hit ≡ false)
  row_report rec id mode hit h = (build_readiness_report-IsReadyRow repr rec id mode hit).0.0 h

  by_run_id-Backed :
      (p : Members) (limit : ℕ) (run : String)
      → non_empty run ≡ true
      → (by_run_id repr p run).ready ≡ true
      → Backed p limit (some run) (by_run_id repr p run)
  unfolding by_run_id Backed empty_report_not_found build_readiness_report_for_record
  by_run_id-Backed p limit run filled h = elim (Option-cases (object_of (get p "record"))) [
    | inl e ↦ cc (rw (by_run_id, e) at h)
    | inr (rec, e) ↦ (
      rec,
      named filled e,
      (row_report rec (str_of repr (or_value (get rec "ledger_run_id") (string run))) "by_run_id"
          false (rw (by_run_id, e) at h)).0,
      rw (by_run_id, e) refl,
    )
  ]

  latest_of-Backed :
      (p : Members) (limit : ℕ) (run : Option String) (items : Elements)
      → is_named run ≡ false
      → list_of (get p "items") ≡ some items
      → (latest_of repr p limit items).ready ≡ true
      → Backed p limit run (latest_of repr p limit items)
  unfolding latest_of Backed empty_report_not_found build_readiness_report_for_record
  latest_of-Backed p limit run items unnamed there h =
      elim (Option-cases (pick_latest_ledger_record repr items)) [
        | inl e ↦ cc (rw (latest_of, e) at h)
        | inr (rec, e) ↦
            let (good, below) =
              row_report rec (str_or_empty repr (get rec "ledger_run_id")) "latest_scoped"
                (leb 1 limit && leb limit (row_count (get p "count") items))
                (rw (latest_of, e) at h) in
            (
              rec,
              newest unnamed items there (pick_latest_ledger_record-IsLatest repr items rec e)
                  below,
              good,
              rw (latest_of, e) refl,
            )
      ]

  latest_scoped-Backed :
      (p : Members) (limit : ℕ) (run : Option String)
      → is_named run ≡ false
      → (latest_scoped repr p limit).ready ≡ true
      → Backed p limit run (latest_scoped repr p limit)
  unfolding latest_scoped empty_report_not_found
  latest_scoped-Backed p limit run unnamed h = elim (Option-cases (list_of (get p "items"))) [
    | inl e ↦ cc (rw (latest_scoped, e) at h)
    | inr (items, e) ↦
        subst (Backed p limit run) (sym (rw (latest_scoped, e) refl))
          (latest_of-Backed p limit run items unnamed e (rw (latest_scoped, e) at h))
  ]

  of_latest :
      (p : Members) (limit : ℕ) (run : Option String) (r : Report)
      → is_named run ≡ false
      → latest_scoped repr p limit ≡ r
      → r.ready ≡ true
      → Backed p limit run r
  of_latest p limit run r unnamed e ready = subst (Backed p limit run) e (
      latest_scoped-Backed p limit run unnamed
        (subst (λ (x : Report). x.ready ≡ true) (sym e) ready))

  of_run :
      (p : Members) (limit : ℕ) (run : String) (r : Report)
      → non_empty run ≡ true
      → by_run_id repr p run ≡ r
      → r.ready ≡ true
      → Backed p limit (some run) r
  of_run p limit run r filled e ready =
      subst (Backed p limit (some run)) e
        (by_run_id-Backed p limit run filled (subst (λ (x : Report). x.ready ≡ true) (sym e) ready))

  -- A report of the readiness pipeline that says ready was made from a payload, and speaks of one
  -- of its rows: the one of the run that is named, or else a newest one, with the query's limit
  -- not reached. That row is ready, and the report shows its snapshot.
  pub run_readiness_pipeline-Backed :
      (run : Option String) (limit : ℕ) (f : Fetched) (r : Report)
      → run_readiness_pipeline repr run limit f ≡ report r
      → r.ready ≡ true
      → (p : Members) × (f ≡ payload p) × Backed p limit run r
  unfolding run_readiness_pipeline evaluate_readiness empty_report_not_found
  run_readiness_pipeline-Backed run limit record_not_found r h ready =
      cc (subst (λ (x : Report). x.ready ≡ true) (sym (report-injective h)) ready)
  run_readiness_pipeline-Backed run limit (fault (request_failed m s)) r h ready = cc
  run_readiness_pipeline-Backed run limit (fault (service_unavailable m s)) r h ready = cc
  run_readiness_pipeline-Backed run limit (fault (transport_error m)) r h ready = cc
  run_readiness_pipeline-Backed none limit (payload p) r h ready =
      (p, refl, of_latest p limit none r refl (report-injective h) ready)
  run_readiness_pipeline-Backed (some run) limit (payload p) r h ready =
      elim (Bool-cases (non_empty run)) [
        | inl filled ↦ (
          p,
          refl,
          of_run p limit run r filled
              (report-injective (rw (run_readiness_pipeline, evaluate_readiness, filled) at h))
              ready,
        )
        | inr blank ↦ (
          p,
          refl,
          of_latest p limit (some run) r blank
              (report-injective (rw (run_readiness_pipeline, evaluate_readiness, blank) at h))
              ready,
        )
      ]
