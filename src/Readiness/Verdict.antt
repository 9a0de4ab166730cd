-- ===== src/Readiness/Verdict.antt =====
-- When the readiness report says that a row is ready.
use mathlib.Core.List.{Memᴰ}
use mathlib.Core.List.Memᴰ
use canon_systems.Base.{
  String, ◌≡◌, ◌↔◌, refl, sym, ap, ◌∙◌, inl, inr, Bool, true, false, not, ◌&&◌, none, List, [], ◌∷◌,
  ◌++◌, subst, Option-cases, str_differ,
}
use canon_systems.Base.Json.{
  Json, Elements, Members, null, boolean, number, negative, string, array, object, no_elements,
  element, get, elements_of, listed,
}
use canon_systems.Readiness.{
  required_archive_phases, phases_of, implementer_satisfied, archive_ref_status_warning,
  ref_warning, status_warnings,
}
use canon_systems.Readiness.Report.{
  missing_phases, phase_failures, row_failures, row_warnings, build_readiness_report_for_record,
  is_empty, evidence_failure, limit_warning, overall,
}
use canon_systems.Readiness.Archived.{Archived, mentions-Archived, missing_phases-none}

module _ (repr : Json → String) where
  -- No object among the references has a status or an outcome that is not one of the good ones.
  pub Clean : Elements → Type 0
  Clean refs =
      (ref : Members) → Memᴰ (object ref) (listed refs) → archive_ref_status_warning repr ref ≡ none

  -- What a row shows that is ready to be merged.
  pub record IsReadyRow (rec : Members) : Type 0 where
    pub archived :
        (ph : String)
        → Memᴰ ph required_archive_phases
        → Archived (elements_of (get rec "archive_refs")) ph
    pub implemented :
        implementer_satisfied repr rec (phases_of (elements_of (get rec "archive_refs"))) ≡ true
    pub clean : Clean (elements_of (get rec "archive_refs"))

  ref_warning-Clean :
      (v : Json)
      → ref_warning repr v ≡ none
      → (ref : Members) → object ref ≡ v
      → archive_ref_status_warning repr ref ≡ none
  unfolding ref_warning
  ref_warning-Clean v h ref e = subst (λ x. ref_warning repr x ≡ none) (sym e) h

  status_warnings-Clean : (refs : Elements) → status_warnings repr refs ≡ [] → Clean refs
  unfolding status_warnings Clean
  status_warnings-Clean no_elements h ref m = elim m [ ]
  status_warnings-Clean (element v vs) h ref m = elim (Option-cases (ref_warning repr v)) [
    | inr (w, e) ↦ cc (rw (status_warnings, e) at h)
    | inl e ↦ elim (Memᴰ.cases_cons m) [
      | inl same ↦ ref_warning-Clean v e ref same
      | inr m' ↦ status_warnings-Clean vs (rw (status_warnings, e) at h) ref m'
    ]
  ]

  clean_warning :
      (v : Json)
      → ((ref : Members) → object ref ≡ v → archive_ref_status_warning repr ref ≡ none)
      → ref_warning repr v ≡ none
  unfolding ref_warning
  clean_warning (object ref) h = h ref refl
  clean_warning null h = refl
  clean_warning (boolean b) h = refl
  clean_warning (number n) h = refl
  clean_warning (negative n) h = refl
  clean_warning (string s) h = refl
  clean_warning (array l) h = refl

  Clean-status_warnings : (refs : Elements) → Clean refs → status_warnings repr refs ≡ []
  unfolding status_warnings Clean
  Clean-status_warnings no_elements h = refl
  Clean-status_warnings (element v vs) h =
      rw (status_warnings, clean_warning v (λ ref e. h ref (Memᴰ.head e)))
        (Clean-status_warnings vs (λ ref m. h ref (Memᴰ.tail m)))

  is_empty-append {ℓ} :
      {A : Type ℓ} (xs ys : List A) → is_empty (xs ++ ys) ≡ is_empty xs && is_empty ys
  is_empty-append [] ys = refl
  is_empty-append (x ∷ xs) ys = refl

  is_empty-nil {ℓ} : {A : Type ℓ} (xs : List A) → is_empty xs ≡ true → xs ≡ []
  is_empty-nil [] h = refl
  is_empty-nil (x ∷ xs) h = cc

  no_failures : (l : List String) → is_empty (phase_failures l) ≡ is_empty l
  no_failures [] = refl
  no_failures (r ∷ rs) = refl

  no_evidence_failure : (b : Bool) → is_empty (evidence_failure b) ≡ b
  no_evidence_failure true = refl
  no_evidence_failure false = refl

  no_limit_warning : (b : Bool) → is_empty (limit_warning b) ≡ not b
  no_limit_warning true = refl
  no_limit_warning false = refl

  no_row_failures :
      (rec : Members)
      → is_empty (row_failures repr rec)
        ≡ is_empty (
            missing_phases required_archive_phases
              (phases_of (elements_of (get rec "archive_refs"))))
          && implementer_satisfied repr rec (phases_of (elements_of (get rec "archive_refs")))
  unfolding row_failures
  no_row_failures rec =
      is_empty-append (phase_failures absent) (evidence_failure done)
      ∙ ap (λ x. x && is_empty (evidence_failure done)) (no_failures absent)
      ∙ ap (λ x. is_empty absent && x) (no_evidence_failure done)
    where
      absent : List String
      absent =
          missing_phases required_archive_phases (phases_of (elements_of (get rec "archive_refs")))

      done : Bool
      done = implementer_satisfied repr rec (phases_of (elements_of (get rec "archive_refs")))

  no_row_warnings :
      (rec : Members) (hit : Bool)
      → is_empty (row_warnings repr rec hit)
        ≡ is_empty (status_warnings repr (elements_of (get rec "archive_refs"))) && not hit
  unfolding row_warnings
  no_row_warnings rec hit =
      is_empty-append (status_warnings repr (elements_of (get rec "archive_refs")))
        (limit_warning hit)
      ∙ ap (λ x. is_empty (status_warnings repr (elements_of (get rec "archive_refs"))) && x)
          (no_limit_warning hit)

  four_true :
      (a b c d : Bool)
      → (a && b) && (c && not d) ≡ true
      → (a ≡ true) × (b ≡ true) × (c ≡ true) × (d ≡ false)
  four_true true true true false h = (refl, refl, refl, refl)
  four_true true true true true h = cc
  four_true true true false d h = cc
  four_true true false c d h = cc
  four_true false b c d h = cc

  -- The report of a row says ready exactly when the row has a reference for each required phase,
  -- names an implementer and has no bad status, and the query did not reach its limit; and then,
  -- and only then, its overall status is "pass".
  pub build_readiness_report-IsReadyRow :
      (rec : Members) (run mode : String) (hit : Bool)
      → (((build_readiness_report_for_record repr rec run mode hit).ready ≡ true)
          ↔ (IsReadyRow rec × (hit ≡ false)))
        × (((build_readiness_report_for_record repr rec run mode hit).overall_status ≡ "pass")
            ↔ ((build_readiness_report_for_record repr rec run mode hit).ready ≡ true))
  unfolding build_readiness_report_for_record
  build_readiness_report-IsReadyRow rec run mode hit = (
    (ready_row, row_ready),
    verdict (is_empty (row_failures repr rec)) (is_empty (row_warnings repr rec hit)),
  )
    where
      refs : Elements
      refs = elements_of (get rec "archive_refs")

      ready_row :
          is_empty (row_failures repr rec) && is_empty (row_warnings repr rec hit) ≡ true
          → IsReadyRow rec × (hit ≡ false)
      ready_row h =
          let (none_missing, done, no_bad, below) =
            four_true (is_empty (missing_phases required_archive_phases (phases_of refs)))
              (implementer_satisfied repr rec (phases_of refs))
              (is_empty (status_warnings repr refs)) hit
              (rw (no_row_failures rec, no_row_warnings rec hit) at h) in
          (
            record {
              archived = λ ph m. (mentions-Archived refs ph).0 (
                  (missing_phases-none required_archive_phases (phases_of refs)).0
                    (is_empty-nil (missing_phases required_archive_phases (phases_of refs))
                      none_missing)
                    ph m);
              implemented = done;
              clean = status_warnings-Clean refs (is_empty-nil (status_warnings repr refs) no_bad);
            },
            below,
          )

      row_ready :
          IsReadyRow rec × (hit ≡ false)
          → is_empty (row_failures repr rec) && is_empty (row_warnings repr rec hit) ≡ true
      row_ready (r, below) =
          rw
            (
              no_row_failures rec,
              no_row_warnings rec hit,
              (missing_phases-none required_archive_phases (phases_of refs)).1
                  (λ ph m. (mentions-Archived refs ph).1 (r.archived ph m)),
              r.implemented,
              Clean-status_warnings refs r.clean,
              below,
            )
            refl

      verdict : (a b : Bool) → (overall (not a) (not b) ≡ "pass") ↔ (a && b ≡ true)
      verdict true true = (λ h. refl, λ h. refl)
      verdict true false = (λ h. absurd (str_differ "warn" "pass" refl h), λ h. cc)
      verdict false b = (λ h. absurd (str_differ "fail" "pass" refl h), λ h. cc)
