-- ===== src/Tasks/Shown.antt =====
-- Which tasks a listing shows, as the arguments of `filter_and_sort` of src/canon_systems/tasks.py
-- say it.
use mathlib.Core.Option.{some-injective}
use mathlib.Core.List.{Memᴰ}
use mathlib.Core.List.Memᴰ
use canon_systems.Base.{
  String, ◌≡◌, ◌≢◌, ◌↔◌, refl, sym, ap, ◌⊎◌, inl, inr, Bool, true, false, not, ◌||◌, ◌&&◌, Option,
  none, some, List, [], ◌∷◌, arith, Bool-cases, str_eq, str_true, eq_iff, eq_refl,
}
use canon_systems.Tasks.Events.{normalize_scope, normalize_status}
use canon_systems.Tasks.Fold.{Task}
use canon_systems.Tasks.Select.{
  TaskFilter, is_terminal, has_text, same_as, status_passes, scope_passes, task_touches_repo,
  is_mine, unless_absent, others_pass, and_next, task_matches,
}

abbrev pub IsClosed : Task → Type 0
IsClosed t = (t.status_of ≡ "done") ⊎ (t.status_of ≡ "cancelled")

-- A text argument that is absent, or for which something holds.
abbrev pub OrAbsent : String → Type 0 → Type 0
OrAbsent wanted P = (wanted ≡ "") ⊎ P

-- A task of one repository, of several, or of no particular one.
abbrev pub Touches : Task → String → Type 0
Touches t repository =
    ((t.scope ≡ "repo") × (t.repository_id ≡ repository))
    ⊎ (((t.scope ≡ "multi_repo") × Memᴰ repository t.repositories_of)
        ⊎ ((t.scope ≢ "repo") × (t.scope ≢ "multi_repo")))

-- The status that is asked for, or else any open one, or any one with `include_terminal`.
abbrev pub HasStatus : TaskFilter → Task → Type 0
HasStatus f t =
    ((f.status ≡ "") × ((f.include_terminal ≡ true) ⊎ (IsClosed t → ⊥)))
    ⊎ ((f.status ≢ "") × (normalize_status f.status ≡ some t.status_of))

abbrev pub HasScope : TaskFilter → Task → Type 0
HasScope f t = (f.scope ≡ "") ⊎ ((f.scope ≢ "") × (normalize_scope f.scope ≡ some t.scope))

abbrev pub HasPlace : TaskFilter → Task → Type 0
HasPlace f t =
    OrAbsent f.company_id (t.company_id ≡ f.company_id)
    × OrAbsent f.repository_id (Touches t f.repository_id)

abbrev pub HasPeople : TaskFilter → Task → Type 0
HasPeople f t =
    OrAbsent f.assignee (Memᴰ f.assignee t.assignees_of)
    × OrAbsent f.mine_actor (Memᴰ f.mine_actor t.assignees_of ⊎ (t.author_id ≡ f.mine_actor))

abbrev pub HasLabel : TaskFilter → Task → Type 0
HasLabel f t = OrAbsent f.label (Memᴰ f.label t.labels_of)

-- What the arguments ask of a task.
pub record IsShown (f : TaskFilter) (t : Task) : Type 0 where
  pub status_is : HasStatus f t
  pub scope_is : HasScope f t
  pub place_is : HasPlace f t
  pub people_are : HasPeople f t
  pub label_is : HasLabel f t

has_text-mem : (s : String) (l : List String) → (has_text s l ≡ true) ↔ Memᴰ s l
unfolding has_text
has_text-mem s [] = (λ h. cc h, λ m. elim m [ ])
has_text-mem s (x ∷ xs) = (
  λ h. elim (Bool-cases (str_eq s x)) [
    | inl e ↦ Memᴰ.head (str_true s x e)
    | inr e ↦ Memᴰ.tail ((has_text-mem s xs).0 (rw e at h))
  ],
  λ m. elim (Memᴰ.cases_cons m) [
    | inl e ↦ rw (e, eq_refl x) refl
    | inr n ↦ ground (arith, (has_text-mem s xs).1 n)
  ],
)

same_iff : (s t : String) → (str_eq s t ≡ true) ↔ (s ≡ t)
same_iff s t = (λ h. str_true s t h, λ e. (eq_iff s t).1 e)

unless_absent_iff :
    (wanted : String) (b : Bool) {P : Type 0}
    → (b ≡ true) ↔ P
    → (unless_absent wanted b ≡ true) ↔ OrAbsent wanted P
unless_absent_iff wanted b (to, from) = (
  λ h. elim (Bool-cases (str_eq wanted "")) [
    | inl e ↦ inl (str_true wanted "" e)
    | inr e ↦ inr (to (rw e at h))
  ],
  λ h. elim h [ inl e ↦ rw ((eq_iff wanted "").1 e) refl | inr p ↦ ground (arith, from p) ],
)

and_iff : (a b : Bool) {P Q : Type 0} → (a ≡ true) ↔ P → (b ≡ true) ↔ Q → (a && b ≡ true) ↔ (P × Q)
and_iff true b (to, from) (to', from') = (λ h. (to refl, to' h), λ (p, q). from' q)
and_iff false b (to, from) (to', from') = (λ h. cc h, λ (p, q). from p)

or_iff : (a b : Bool) {P Q : Type 0} → (a ≡ true) ↔ P → (b ≡ true) ↔ Q → (a || b ≡ true) ↔ (P ⊎ Q)
or_iff true b (to, from) (to', from') = (λ h. inl (to refl), λ p. refl)
or_iff false b (to, from) (to', from') =
    (λ h. inr (to' h), λ h. elim h [ inl p ↦ cc (from p) | inr q ↦ from' q ])

task_touches_repo_iff :
    (t : Task) (repository : String)
    → (task_touches_repo t repository ≡ true) ↔ Touches t repository
unfolding task_touches_repo
task_touches_repo_iff t repository = elim (Bool-cases (str_eq t.scope "repo")) [
  | inl e ↦
      let one : t.scope ≡ "repo" = str_true t.scope "repo" e in
      (
        λ h. inl (one, str_true t.repository_id repository (rw e at h)),
        λ h. rw e (elim h [
          | inl (s, same) ↦ (eq_iff t.repository_id repository).1 same
          | inr (inl (s, m)) ↦ cc (one, s)
          | inr (inr (s, n)) ↦ absurd (s one)
        ]),
      )
  | inr e ↦ elim (Bool-cases (str_eq t.scope "multi_repo")) [
    | inl g ↦
        let many : t.scope ≡ "multi_repo" = str_true t.scope "multi_repo" g in
        (
          λ h. inr (inl (many, (has_text-mem repository t.repositories_of).0 (rw (e, g) at h))),
          λ h.
              rw (e, g)
                (elim h [
                  | inl (s, same) ↦ cc ((eq_iff t.scope "repo").1 s, e)
                  | inr (inl (s, m)) ↦ (has_text-mem repository t.repositories_of).1 m
                  | inr (inr (s, n)) ↦ absurd (n many)
                ]),
        )
    | inr g ↦ (
      λ h. inr (
          inr (
            λ s. cc ((eq_iff t.scope "repo").1 s, e),
            λ s. cc ((eq_iff t.scope "multi_repo").1 s, g),
          )),
      λ h. rw (e, g) refl,
    )
  ]
]

pub is_terminal_iff : (t : Task) → (is_terminal t.status_of ≡ true) ↔ IsClosed t
is_terminal_iff t =
    or_iff (str_eq t.status_of "done") (str_eq t.status_of "cancelled")
      (same_iff t.status_of "done") (same_iff t.status_of "cancelled")

not_iff : (b : Bool) {P : Type 0} → (b ≡ true) ↔ P → (not b ≡ true) ↔ (P → ⊥)
not_iff true (to, from) = (λ h. cc h, λ n. absurd (n (to refl)))
not_iff false (to, from) = (λ h p. cc (from p), λ n. refl)

same_as_iff :
    (value : String) (o : Option String) → (same_as value o ≡ some true) ↔ (o ≡ some value)
unfolding same_as
same_as_iff value none = (λ h. cc h, λ h. cc h)
same_as_iff value (some w) = (
  λ h. ap some (sym (str_true value w (some-injective (str_eq value w) true h))),
  λ h. ap some ((eq_iff value w).1 (sym (some-injective w value h))),
)

given : (s : String) → str_eq s "" ≡ false → s ≢ ""
given s e p = cc ((eq_iff s "").1 p, e)

status_passes_iff : (f : TaskFilter) (t : Task) → (status_passes f t ≡ some true) ↔ HasStatus f t
unfolding status_passes
status_passes_iff f t =
    let open_or_all =
      or_iff f.include_terminal (not (is_terminal t.status_of)) (λ h. h, λ h. h)
        (not_iff (is_terminal t.status_of) (is_terminal_iff t)) in
    elim (Bool-cases (str_eq f.status "")) [
      | inl e ↦ (
        λ h. inl (str_true f.status "" e, open_or_all.0 (some-injective _ true (rw e at h))),
        λ h. rw e (elim h [
          | inl (absent, p) ↦ ap some (open_or_all.1 p)
          | inr (present, p) ↦ absurd (present (str_true f.status "" e))
        ]),
      )
      | inr e ↦ (
        λ h.
            inr (
              given f.status e,
              (same_as_iff t.status_of (normalize_status f.status)).0 (rw e at h),
            ),
        λ h. rw e (elim h [
          | inl (absent, p) ↦ absurd (given f.status e absent)
          | inr (present, p) ↦ (same_as_iff t.status_of (normalize_status f.status)).1 p
        ]),
      )
    ]

scope_passes_iff : (f : TaskFilter) (t : Task) → (scope_passes f t ≡ some true) ↔ HasScope f t
unfolding scope_passes
scope_passes_iff f t = elim (Bool-cases (str_eq f.scope "")) [
  | inl e ↦ (λ h. inl (str_true f.scope "" e), λ h. rw e refl)
  | inr e ↦ (
    λ h. inr (given f.scope e, (same_as_iff t.scope (normalize_scope f.scope)).0 (rw e at h)),
    λ h. rw e (elim h [
      | inl absent ↦ absurd (given f.scope e absent)
      | inr (present, p) ↦ (same_as_iff t.scope (normalize_scope f.scope)).1 p
    ]),
  )
]

is_mine_iff :
    (t : Task) (actor : String)
    → (is_mine t actor ≡ true) ↔ (Memᴰ actor t.assignees_of ⊎ (t.author_id ≡ actor))
unfolding is_mine
is_mine_iff t actor =
    or_iff (has_text actor t.assignees_of) (str_eq t.author_id actor)
      (has_text-mem actor t.assignees_of) (same_iff t.author_id actor)

others_pass_iff :
    (f : TaskFilter) (t : Task)
    → (others_pass f t ≡ true) ↔ ((HasPlace f t × HasPeople f t) × HasLabel f t)
unfolding others_pass
others_pass_iff f t =
    let company = unless_absent_iff f.company_id _ (same_iff t.company_id f.company_id) in
    let repository =
      unless_absent_iff f.repository_id _ (task_touches_repo_iff t f.repository_id) in
    let assignee = unless_absent_iff f.assignee _ (has_text-mem f.assignee t.assignees_of) in
    let mine = unless_absent_iff f.mine_actor _ (is_mine_iff t f.mine_actor) in
    let label = unless_absent_iff f.label _ (has_text-mem f.label t.labels_of) in
    let all =
      and_iff _ _ (and_iff _ _ (and_iff _ _ (and_iff _ _ company repository) assignee) mine)
        label in
    (
      λ h. let ((((c, r), a), m), l) = all.0 h in (((c, r), (a, m)), l),
      λ (((c, r), (a, m)), l). all.1 ((((c, r), a), m), l),
    )

and_next_iff :
    (a c : Option Bool) {P Q : Type 0}
    → (a ≡ some true) ↔ P
    → (c ≡ some true) ↔ Q
    → (and_next a c ≡ some true) ↔ (P × Q)
unfolding and_next
and_next_iff none c (to, from) k = (λ h. cc h, λ (p, q). from p)
and_next_iff (some false) c (to, from) k = (λ h. cc h, λ (p, q). from p)
and_next_iff (some true) c (to, from) (to', from') = (λ h. (to refl, to' h), λ (p, q). from' q)

-- The code's test is what the arguments ask.
pub task_matches-IsShown :
    (f : TaskFilter) (t : Task) → (task_matches f t ≡ some true) ↔ IsShown f t
unfolding task_matches
task_matches-IsShown f t =
    let rest : (some (others_pass f t) ≡ some true)
        ↔ ((HasPlace f t × HasPeople f t) × HasLabel f t) =
      (
        λ h. (others_pass_iff f t).0 (some-injective (others_pass f t) true h),
        λ h. ap some ((others_pass_iff f t).1 h),
      ) in
    let all =
      and_next_iff _ _ (status_passes_iff f t) (and_next_iff _ _ (scope_passes_iff f t) rest) in
    (
      λ h.
          let (status, (scope, ((place, people), label))) = all.0 h in
          record {
            status_is = status;
            scope_is = scope;
            place_is = place;
            people_are = people;
            label_is = label;
          },
      λ h. all.1 (h.status_is, (h.scope_is, ((h.place_is, h.people_are), h.label_is))),
    )
