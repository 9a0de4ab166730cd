-- ===== src/Readiness.antt =====
-- What a run ledger row shows of the phases that a merge requires, of
-- src/canon_systems/readiness.py: the archive references, the evidence and the statuses.
--
-- The row is JSON that the state API sends. A field that should be a list and is none is taken as
-- empty, where Python raises on a number or a true value.
pub mod Snapshot
pub mod Latest
pub mod Report
pub mod Archived
pub mod Verdict
pub mod Answer
mod Tests
use Prim.Native.String.{◌++◌ as text_append}
use canon_systems.Base.{
  ℕ, suc, zero, String, ◌≡◌, refl, sym, ap, ◌∙◌, ◌⊎◌, inl, inr, Bool, true, false, not, ◌&&◌, ◌||◌,
  Option, none, some, List, [], ◌∷◌, ◌++◌, leb, eqb, str_eq, non_empty, if◌then◌else◌, Bool-cases,
  arith,
}
use canon_systems.Base.Text.{strip, lower, dash_to_underscore, str_lt}
use canon_systems.Base.Json.{
  Json, Elements, Members, null, boolean, number, negative, string, array, object, no_elements,
  element, no_members, member, get, has, truth, is_null, elements_of, text_of, object_of,
  count_elements, str_of, str_or_empty, contains_text,
}

abbrev pub required_archive_phases : List String
required_archive_phases = "scoper" ∷ "cursor-pilot" ∷ "qa-gate" ∷ "release-status" ∷ []

unfoldable pub artifact_kind_to_phase : String → Option String
artifact_kind_to_phase k =
    if str_eq k "packet_scoper"
    then some "scoper"
    else if str_eq k "packet_cursor_pilot"
    then some "cursor-pilot"
    else if str_eq k "packet_implementer" || str_eq k "packet_implementer_shard"
    then some "implementer"
    else if str_eq k "packet_qa_gate"
    then some "qa-gate"
    else if str_eq k "packet_release_status"
    then some "release-status"
    else none

abbrev pub filled_text : Json → Option String
filled_text (string s) = if non_empty (strip s) then some (strip s) else none
filled_text _ = none

abbrev pub kind_phase : Json → Option String
unfolding artifact_kind_to_phase
kind_phase (string k) = artifact_kind_to_phase k
kind_phase _ = none

abbrev pub or_else : Option String → Option String → Option String
or_else none o = o
or_else (some s) o = some s

unfoldable pub archive_ref_phase : Members → Option String
archive_ref_phase ref =
    or_else (filled_text (get ref "phase")) (kind_phase (get ref "artifact_kind"))

abbrev pub cons_option : Option String → List String → List String
cons_option none l = l
cons_option (some s) l = s ∷ l

abbrev pub ref_phase : Json → Option String
unfolding archive_ref_phase
ref_phase (object ref) = archive_ref_phase ref
ref_phase _ = none

-- The phases of the references, as a list; an element that is no object is skipped.
unfoldable pub phases_of : Elements → List String
unfolding ref_phase
phases_of no_elements = []
phases_of (element v vs) = cons_option (ref_phase v) (phases_of vs)

abbrev pub mentions : String → List String → Bool
mentions x [] = false
mentions x (y ∷ ys) = str_eq x y || mentions x ys

abbrev pub status_ok : String → Bool
status_ok s =
    str_eq s "ok"
    || str_eq s "completed"
    || str_eq s "archived"
    || str_eq s "success"
    || str_eq s "stored"
    || str_eq s "pass"
    || str_eq s "passed"

-- `v == ""`.
abbrev pub is_empty_text : Json → Bool
is_empty_text (string s) = str_eq s ""
is_empty_text _ = false

-- `a or b` of two values.
abbrev pub or_value : Json → Json → Json
or_value a b = if truth a then a else b

abbrev pub phase_or_unknown : Option String → String
phase_or_unknown none = "unknown"
phase_or_unknown (some p) = p

pub data Warning : Type 0 where
  archive_status : String → Json → Warning
  limit_hit : Warning

module _ (repr : Json → String) where
  -- The texts of an evidence reference that name an implementer, in one line.
  abbrev pub blob_of : Members → String
  blob_of ev = lower (
      text_append (str_or_empty repr (get ev "ref_kind")) (
        text_append " " (
          text_append (str_or_empty repr (get ev "label")) (
            text_append " " (
              text_append (str_or_empty repr (get ev "evidence_kind"))
                (text_append " " (str_or_empty repr (get ev "uri"))))))))

  abbrev pub names_implementer : String → Bool
  names_implementer blob =
      contains_text blob "implementer"
      || contains_text (dash_to_underscore blob) "implementer_shard"
      || (contains_text blob "shard" && contains_text blob "implementer")

  abbrev pub evidence_of : Json → Bool
  evidence_of (object ev) = names_implementer (blob_of ev)
  evidence_of _ = false

  unfoldable pub any_evidence : Elements → Bool
  any_evidence no_elements = false
  any_evidence (element v vs) = let rest = any_evidence vs in evidence_of v || rest

  unfoldable pub implementer_satisfied : Members → List String → Bool
  unfolding any_evidence
  implementer_satisfied rec phases =
      mentions "implementer" phases || any_evidence (elements_of (get rec "evidence_refs"))

  unfoldable pub archive_ref_status_warning : Members → Option Warning
  unfolding archive_ref_phase
  archive_ref_status_warning ref =
      if is_null (or_value (get ref "status") (get ref "outcome"))
        || is_empty_text (or_value (get ref "status") (get ref "outcome"))
      then none
      else if status_ok
          (lower (strip (str_of repr (or_value (get ref "status") (get ref "outcome")))))
      then none
      else some (
          archive_status (phase_or_unknown (archive_ref_phase ref))
            (or_value (get ref "status") (get ref "outcome")))

  abbrev pub cons_warning : Option Warning → List Warning → List Warning
  cons_warning none l = l
  cons_warning (some w) l = w ∷ l

  abbrev pub ref_warning : Json → Option Warning
  unfolding archive_ref_status_warning
  ref_warning (object ref) = archive_ref_status_warning ref
  ref_warning _ = none

  unfoldable pub status_warnings : Elements → List Warning
  unfolding archive_ref_status_warning
  status_warnings no_elements = []
  status_warnings (element v vs) = cons_warning (ref_warning v) (status_warnings vs)
