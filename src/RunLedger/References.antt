-- ===== src/RunLedger/References.antt =====
-- The references and the lists of a validated run ledger record, of
-- backend/shared/canon_backend_shared/run_ledger.py.
use mathlib.Core.List.{Memᴰ}
use mathlib.Core.List.Memᴰ
use canon_systems.Base.{
  ℕ, suc, String, Bool, ◌||◌, str_eq, eq_iff, Bool-cases, ◌≡◌, sym, ap, ◌∙◌, inl, inr, true, false,
  not, leb, subst, arith,
}
use canon_systems.Base.Json.{
  Json, Elements, Members, member, no_members, is_null, null, boolean, number, negative, string,
  array, object, no_elements, element, has, listed, count_elements,
}
use canon_systems.RunLedger.{ledger_error, Outcome, good, has_body, reject_forbidden_keys}
use canon_systems.RunLedger.Fields.{
  allowed_key, reference_value, copy_reference, archive_record_to_ledger_reference,
  normalize_archive_ref_item, each, normalize_ref_list,
}
use canon_systems.RunLedger.Keys.{bind-good, guard-good, not-false, good-injective}

-- An archive reference of the ledger: an object with an entry for the hash and one for the kind,
-- without a body key at its top, and with no key but the allowed ones.
pub IsReference : Json → Type 0
IsReference v =
    (m : Members) × (v ≡ object m)
    × (has_body m ≡ false)
    × (has m "content_sha256" ≡ true)
    × (has m "artifact_kind" ≡ true)
    × ((k : String) → has m k ≡ true → allowed_key k ≡ true)

copy_reference-allowed :
    (m r : Members) (k : String) → copy_reference m ≡ good r → has r k ≡ true → allowed_key k ≡ true
unfolding copy_reference
copy_reference-allowed no_members r k h there =
    cc (subst (λ x. has x k ≡ true) (sym (good-injective h)) there)
copy_reference-allowed (member j v ms) r k h there =
    elim (Bool-cases (not (allowed_key j) || is_null v)) [
      | inl skipped ↦ copy_reference-allowed ms r k (rw (copy_reference, skipped) at h) there
      | inr copied ↦
          let (value, e1, h1) =
            bind-good (reference_value j v) _ (rw (copy_reference, copied) at h) in
          let (others, e2, h2) = bind-good (copy_reference ms) _ h1 in
          let here : str_eq j k || has others k ≡ true =
            subst (λ x. has x k ≡ true) (sym (good-injective h2)) there in
          elim (Bool-cases (str_eq j k)) [
            | inl same ↦ subst (λ x. allowed_key x ≡ true) ((eq_iff j k).0 same) (allows j v copied)
            | inr other ↦ copy_reference-allowed ms others k e2 (rw other at here)
          ]
    ]
  where
    allows :
        (j : String) (v : Json) → not (allowed_key j) || is_null v ≡ false → allowed_key j ≡ true
    allows j v h = first (allowed_key j) (is_null v) h
      where
        first : (a b : Bool) → not a || b ≡ false → a ≡ true
        first a b h = ground arith

archive_record-IsReference :
    (m r : Members)
    → archive_record_to_ledger_reference m ≡ good r
    → (has_body r ≡ false)
      × (has r "content_sha256" ≡ true)
      × (has r "artifact_kind" ≡ true)
      × ((k : String) → has r k ≡ true → allowed_key k ≡ true)
unfolding archive_record_to_ledger_reference reject_forbidden_keys
archive_record-IsReference m r h =
    let (a1, e1, h1) = bind-good (reject_forbidden_keys m) _ h in
    let (out, e2, h2) = bind-good (copy_reference m) _ h1 in
    let (sha, h3) = guard-good (not (has out "content_sha256")) ledger_error _ h2 in
    let (kind, h4) = guard-good (not (has out "artifact_kind")) ledger_error _ h3 in
    let (body, h5) = guard-good (has_body out) ledger_error _ h4 in
    let same : out ≡ r = good-injective h5 in
    (
      subst (λ x. has_body x ≡ false) same body,
      subst (λ x. has x "content_sha256" ≡ true) same (not-false (has out "content_sha256") sha),
      subst (λ x. has x "artifact_kind" ≡ true) same (not-false (has out "artifact_kind") kind),
      λ k there. copy_reference-allowed m r k (e2 ∙ ap good same) there,
    )

pub archive_ref_item-IsReference :
    (v w : Json) → normalize_archive_ref_item v ≡ good w → IsReference w
unfolding normalize_archive_ref_item IsReference
archive_ref_item-IsReference (object m) w h =
    let (r, e, h1) = bind-good (archive_record_to_ledger_reference m) _ h in
    let (body, sha, kind, allowed) = archive_record-IsReference m r e in
    (r, sym (good-injective h1), body, sha, kind, allowed)
archive_ref_item-IsReference null w h = cc
archive_ref_item-IsReference (boolean b) w h = cc
archive_ref_item-IsReference (number b) w h = cc
archive_ref_item-IsReference (negative b) w h = cc
archive_ref_item-IsReference (string b) w h = cc
archive_ref_item-IsReference (array b) w h = cc

each_members :
    (f : Json → Outcome Json) (P : Json → Type 0)
    → ((v w : Json) → f v ≡ good w → P w)
    → (vs ws : Elements) → each f vs ≡ good ws
    → (count_elements ws ≡ count_elements vs) × ((w : Json) → Memᴰ w (listed ws) → P w)
unfolding each
each_members f P p no_elements ws h =
    let same : no_elements ≡ ws = good-injective h in
    (ap count_elements (sym same), λ w m. elim (subst (λ x. Memᴰ w (listed x)) (sym same) m) [ ])
each_members f P p (element v vs) ws h =
    let (w, e, h1) = bind-good (f v) _ h in
    let (rest, e', h2) = bind-good (each f vs) _ h1 in
    let same : element w rest ≡ ws = good-injective h2 in
    let (count, all) = each_members f P p vs rest e' in
    (
      ap count_elements (sym same) ∙ ap suc count,
      λ x m. elim (Memᴰ.cases_cons (subst (λ y. Memᴰ x (listed y)) (sym same) m)) [
        | inl q ↦ subst P (sym q) (p v w e)
        | inr m' ↦ all x m'
      ],
    )

-- A list that is normalized is as long as it was, within its limit.
pub ref_list :
    (max_items : ℕ) (f : Json → Outcome Json) (P : Json → Type 0)
    → ((v w : Json) → f v ≡ good w → P w)
    → (v : Json) (ws : Elements) → normalize_ref_list max_items f v ≡ good ws
    → (leb (count_elements ws) max_items ≡ true) × ((w : Json) → Memᴰ w (listed ws) → P w)
unfolding normalize_ref_list
ref_list max_items f P p (array vs) ws h =
    let (few, h1) = guard-good (not (leb (count_elements vs) max_items)) ledger_error _ h in
    let (count, all) = each_members f P p vs ws h1 in
    (ap (λ n. leb n max_items) count ∙ not-false (leb (count_elements vs) max_items) few, all)
ref_list max_items f P p null ws h =
    let same : no_elements ≡ ws = good-injective h in
    (
      ap (λ x. leb (count_elements x) max_items) (sym same) ∙ ground arith,
      λ w m. elim (subst (λ x. Memᴰ w (listed x)) (sym same) m) [ ],
    )
ref_list max_items f P p (boolean b) ws h = cc
ref_list max_items f P p (number b) ws h = cc
ref_list max_items f P p (negative b) ws h = cc
ref_list max_items f P p (string b) ws h = cc
ref_list max_items f P p (object b) ws h = cc

abbrev pub Anything : Json → Type 0
Anything v = Unit {0}
