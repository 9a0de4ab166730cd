-- ===== src/Readiness/Archived.antt =====
-- The phases that the archive references of a row mention, of the readiness report.
use mathlib.Core.List.{Memᴰ}
use mathlib.Core.List.Memᴰ
use canon_systems.Base.{
  String, ◌≡◌, ◌↔◌, refl, sym, ap, ◌⊎◌, inl, inr, true, Option, none, some, List, [], ◌∷◌, str_eq,
  str_true, eq_refl, Bool-cases,
}
use canon_systems.Base.Json.{
  Json, Elements, Members, null, boolean, number, negative, string, array, object, no_elements,
  element, listed,
}
use canon_systems.Readiness.{archive_ref_phase, ref_phase, phases_of, mentions, cons_option}
use canon_systems.Readiness.Report.{missing_phases}

-- A reference of the list has the phase.
pub Archived : Elements → String → Type 0
Archived refs ph =
    (ref : Members) × Memᴰ (object ref) (listed refs) × (archive_ref_phase ref ≡ some ph)

mentions-mem : (x : String) (l : List String) → mentions x l ≡ true → Memᴰ x l
mentions-mem x [] h = cc
mentions-mem x (y ∷ ys) h = elim (Bool-cases (str_eq x y)) [
  | inl e ↦ Memᴰ.head (str_true x y e)
  | inr e ↦ Memᴰ.tail (mentions-mem x ys (rw e at h))
]

mem-mentions : (x : String) (l : List String) → Memᴰ x l → mentions x l ≡ true
mem-mentions x [] m = elim m [ ]
mem-mentions x (y ∷ ys) (Memᴰ.head e) = rw (e, eq_refl y) refl
mem-mentions x (y ∷ ys) (Memᴰ.tail m) = elim (Bool-cases (str_eq x y)) [
  | inl e ↦ rw e refl
  | inr e ↦ rw e (mem-mentions x ys m)
]

cons_option-cases :
    (x : String) (o : Option String) (l : List String)
    → Memᴰ x (cons_option o l)
    → (o ≡ some x) ⊎ Memᴰ x l
cons_option-cases x none l m = inr m
cons_option-cases x (some y) l m = elim (Memᴰ.cases_cons m) [
  | inl e ↦ inl (ap some (sym e))
  | inr h ↦ inr h
]

cons_option_keeps :
    (x : String) (o : Option String) (l : List String) → Memᴰ x l → Memᴰ x (cons_option o l)
cons_option_keeps x none l m = m
cons_option_keeps x (some y) l m = Memᴰ.tail m

ref_phase-object :
    (v : Json) (ph : String)
    → ref_phase v ≡ some ph
    → (ref : Members) × (object ref ≡ v) × (archive_ref_phase ref ≡ some ph)
unfolding ref_phase
ref_phase-object (object ref) ph h = (ref, refl, h)
ref_phase-object null ph h = cc
ref_phase-object (boolean b) ph h = cc
ref_phase-object (number n) ph h = cc
ref_phase-object (negative n) ph h = cc
ref_phase-object (string s) ph h = cc
ref_phase-object (array l) ph h = cc

phases_of-Archived : (refs : Elements) (ph : String) → Memᴰ ph (phases_of refs) → Archived refs ph
unfolding phases_of Archived
phases_of-Archived no_elements ph m = elim m [ ]
phases_of-Archived (element v vs) ph m =
    elim (cons_option-cases ph (ref_phase v) (phases_of vs) m) [
      | inl e ↦ let (ref, same, h) = ref_phase-object v ph e in (ref, Memᴰ.head same, h)
      | inr later ↦
          let (ref, there, h) = phases_of-Archived vs ph later in (ref, Memᴰ.tail there, h)
    ]

Archived-phases_of : (refs : Elements) (ph : String) → Archived refs ph → Memᴰ ph (phases_of refs)
unfolding phases_of Archived
Archived-phases_of no_elements ph (ref, m, e) = elim m [ ]
Archived-phases_of (element v vs) ph (ref, m, e) = elim (Memᴰ.cases_cons m) [
  | inl same ↦ rw (sym same, ref_phase, e) (Memᴰ.head refl)
  | inr m' ↦
      cons_option_keeps ph (ref_phase v) (phases_of vs) (Archived-phases_of vs ph (ref, m', e))
]

pub mentions-Archived :
    (refs : Elements) (ph : String) → (mentions ph (phases_of refs) ≡ true) ↔ Archived refs ph
mentions-Archived refs ph = (
  λ h. phases_of-Archived refs ph (mentions-mem ph (phases_of refs) h),
  λ h. mem-mentions ph (phases_of refs) (Archived-phases_of refs ph h),
)

pub missing_phases-none :
    (rs phases : List String)
    → (missing_phases rs phases ≡ []) ↔ ((ph : String) → Memᴰ ph rs → mentions ph phases ≡ true)
unfolding missing_phases
missing_phases-none rs phases = (none_missing rs, all_there rs)
  where
    none_missing :
        (rs : List String)
        → missing_phases rs phases ≡ []
        → (ph : String) → Memᴰ ph rs
        → mentions ph phases ≡ true
    none_missing [] h ph m = elim m [ ]
    none_missing (r ∷ rs) h ph m = elim (Bool-cases (mentions r phases)) [
      | inr absent ↦ cc (rw (missing_phases, absent) at h)
      | inl there ↦ elim (Memᴰ.cases_cons m) [
        | inl e ↦ rw e there
        | inr m' ↦ none_missing rs (rw (missing_phases, there) at h) ph m'
      ]
    ]

    all_there :
        (rs : List String)
        → ((ph : String) → Memᴰ ph rs → mentions ph phases ≡ true)
        → missing_phases rs phases ≡ []
    all_there [] h = refl
    all_there (r ∷ rs) h =
        rw (missing_phases, h r (Memᴰ.head refl)) (all_there rs (λ ph m. h ph (Memᴰ.tail m)))
