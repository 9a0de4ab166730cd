-- ===== src/Tasks/Made.antt =====
-- Ledgers of events that `make_event` of src/canon_systems/tasks.py built.
use mathlib.Core.List.{Memᴰ}
use mathlib.Core.Option.{some-injective, none-ne-some}
use canon_systems.Base.{
  String, ◌≡◌, refl, sym, ◌∙◌, inl, inr, true, false, Option-cases, Option, none, some, List,
  str_eq, str_true, subst, Bool-cases,
}
use canon_systems.Base.Text.{dash_to_underscore, lower, strip}
use canon_systems.Tasks.Events.{
  Field, TaskEvent, event_created, known_scope, known_type, scope_alias, normalize_scope,
  validate_event,
}
use canon_systems.Tasks.Fold.{State, materialize}
use canon_systems.Tasks.Totality.{HasScope, materialize_total}
use canon_systems.Tasks.Make.{
  EventArgs, plain_event, place_event, scope_event, normalize_fields, finish_event, make_event,
}

IsFixed : String → Type 0
IsFixed s = normalize_scope s ≡ some s

repo_fixed : normalize_scope "repo" ≡ some "repo"
unfolding normalize_scope dash_to_underscore lower strip
repo_fixed = refl

company_fixed : normalize_scope "company" ≡ some "company"
unfolding normalize_scope dash_to_underscore lower strip
company_fixed = refl

multi_repo_fixed : normalize_scope "multi_repo" ≡ some "multi_repo"
unfolding normalize_scope dash_to_underscore lower strip
multi_repo_fixed = refl

literal-fixed :
    (y s w : String)
    → str_eq y w ≡ true
    → some y ≡ some s
    → normalize_scope w ≡ some w
    → normalize_scope s ≡ some s
literal-fixed y s w e h fixed =
    subst (λ v. normalize_scope v ≡ some v) (sym (str_true y w e) ∙ some-injective y s h) fixed

known_scope-fixed : (y s : String) → known_scope y ≡ some s → normalize_scope s ≡ some s
known_scope-fixed y s h = elim (Bool-cases (str_eq y "repo")) [
  | inl e ↦ literal-fixed y s "repo" e (rw (e) at h) repo_fixed
  | inr e ↦ elim (Bool-cases (str_eq y "company")) [
    | inl c ↦ literal-fixed y s "company" c (rw (e, c) at h) company_fixed
    | inr c ↦ elim (Bool-cases (str_eq y "multi_repo")) [
      | inl m ↦ literal-fixed y s "multi_repo" m (rw (e, c, m) at h) multi_repo_fixed
      | inr m ↦ absurd (none-ne-some s (rw (e, c, m) at h))
    ]
  ]
]

-- A normalized scope is its own normal form.
normalize_scope-fixed : (x s : String) → normalize_scope x ≡ some s → normalize_scope s ≡ some s
unfolding normalize_scope
normalize_scope-fixed x s h =
    known_scope-fixed (scope_alias (dash_to_underscore (lower (strip x)))) s h

place_event-HasScope :
    (a : EventArgs) (o : Option String) (e : TaskEvent)
    → ((s : String) → o ≡ some s → normalize_scope s ≡ some s)
    → place_event a o ≡ some e
    → HasScope e
unfolding place_event
place_event-HasScope a none e fixed h = absurd (none-ne-some e h)
place_event-HasScope a (some s) e fixed h = elim (Bool-cases (str_eq s "multi_repo")) [
  | inl m ↦ subst HasScope (some-injective _ _ (rw (m) at h)) (s, fixed s refl)
  | inr m ↦ subst HasScope (some-injective _ _ (rw (m) at h)) (s, fixed s refl)
]

scope_event-HasScope : (a : EventArgs) (e : TaskEvent) → scope_event a ≡ some e → HasScope e
unfolding scope_event
scope_event-HasScope a e h = elim (Bool-cases (str_eq a.event_type event_created)) [
  | inl c ↦
      place_event-HasScope a (normalize_scope a.scope) e (normalize_scope-fixed a.scope)
        (rw (c) at h)
  | inr c ↦ subst HasScope (some-injective _ _ (rw (c) at h)) ("company", company_fixed)
]

finish_event-HasScope :
    (o : Option TaskEvent) (fs : Option (List Field)) (e : TaskEvent)
    → ((p : TaskEvent) → o ≡ some p → HasScope p)
    → finish_event o fs ≡ some e
    → (validate_event e ≡ true) × HasScope e
unfolding finish_event
finish_event-HasScope none fs e scoped h = absurd (none-ne-some e h)
finish_event-HasScope (some p) none e scoped h = absurd (none-ne-some e h)
finish_event-HasScope (some p) (some fs) e scoped h =
    elim (Bool-cases (validate_event (record p { fields = fs }))) [
      | inl v ↦
          subst (λ x. (validate_event x ≡ true) × HasScope x) (some-injective _ _ (rw (v) at h))
            (v, scoped p refl)
      | inr v ↦ absurd (none-ne-some e (rw (v) at h))
    ]

-- An event that `make_event` returns passes validation, and its scope is a known one, or none.
make_event-HasScope :
    (a : EventArgs) (e : TaskEvent) → make_event a ≡ some e → (validate_event e ≡ true) × HasScope e
unfolding make_event
make_event-HasScope a e h = elim (Bool-cases (known_type a.event_type)) [
  | inl k ↦
      finish_event-HasScope (scope_event a) (normalize_fields a.fields) e (scope_event-HasScope a)
        (rw (k) at h)
  | inr k ↦ absurd (none-ne-some e (rw (k) at h))
]

-- In a ledger of events that `make_event` built, whatever their order and kinds, every event passes
-- the validation of the fold, so that none is skipped, and the ledger materializes.
pub materialize_made :
    (events : List TaskEvent)
    → ((e : TaskEvent) → Memᴰ e events → (a : EventArgs) × (make_event a ≡ some e))
    → ((e : TaskEvent) → Memᴰ e events → validate_event e ≡ true)
      × ((s : State) × (materialize events ≡ some s))
materialize_made events made =
    (λ e m. (built e m).0, materialize_total events (λ e m. (built e m).1))
  where
    built : (e : TaskEvent) → Memᴰ e events → (validate_event e ≡ true) × HasScope e
    built e m = let (a, h) = made e m in make_event-HasScope a e h

-- An event of a type other than `task_created` has the arguments' texts without blanks around them,
-- the normalized fields and no scope.
pub make_event-updated :
    (a : EventArgs) (e : TaskEvent)
    → str_eq a.event_type event_created ≡ false
    → make_event a ≡ some e
    → (fs : List Field) × (normalize_fields a.fields ≡ some fs)
      × (e ≡ record (plain_event a) { fields = fs })
      × (validate_event e ≡ true)
unfolding make_event scope_event finish_event
make_event-updated a e other h = elim (Bool-cases (known_type a.event_type)) [
  | inr k ↦ absurd (none-ne-some e (rw (k) at h))
  | inl k ↦ elim (Option-cases (normalize_fields a.fields)) [
    | inl bad ↦ absurd (none-ne-some e (rw (k, other, bad, finish_event) at h))
    | inr (fs, ok) ↦ finished fs ok (rw (k, other, ok) at h)
  ]
]
  where
    finished :
        (fs : List Field)
        → normalize_fields a.fields ≡ some fs
        → finish_event (some (plain_event a)) (some fs) ≡ some e
        → (fs : List Field) × (normalize_fields a.fields ≡ some fs)
          × (e ≡ record (plain_event a) { fields = fs })
          × (validate_event e ≡ true)
    finished fs ok done = elim (Bool-cases (validate_event made)) [
      | inr v ↦ absurd (none-ne-some e (rw (v, finish_event) at done))
      | inl v ↦
          let same : made ≡ e = some-injective made e (rw (v, finish_event) at done) in
          (fs, ok, sym same, subst (λ x. validate_event x ≡ true) same v)
    ]
      where
        made : TaskEvent
        made = record (plain_event a) { fields = fs }
