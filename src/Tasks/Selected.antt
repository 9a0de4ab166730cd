-- ===== src/Tasks/Selected.antt =====
-- What `filter_and_sort` of src/canon_systems/tasks.py returns.
use mathlib.Core.Bool.{false≢true}
use mathlib.Core.Option.{some-injective}
use mathlib.Core.List.{Memᴰ}
use mathlib.Core.List.Memᴰ
use canon_systems.Base.{
  String, ◌≡◌, ◌↔◌, refl, sym, ap, ◌∙◌, ◌⊎◌, inl, inr, Bool, true, false, not, ◌||◌, subst, Option,
  some, List, [], ◌∷◌, Bool-cases, str_eq,
}
use canon_systems.Base.Order.{mem-sort, sort_keeps}
use canon_systems.Base.Sorted.{sort-IsOrdered}
use canon_systems.Tasks.Events.{normalize_scope, normalize_status}
use canon_systems.Tasks.Fold.{Task}
use canon_systems.Tasks.Shown.{IsShown, task_matches-IsShown}
use canon_systems.Tasks.Arranged.{IsArranged, IsOrdered-IsArranged}
use canon_systems.Tasks.Select.{
  TaskFilter, is_terminal, same_as, status_passes, scope_passes, others_pass, and_next,
  task_matches, task_key, key_order, sort_tasks, keep_match, select, sorted_selection,
  filter_and_sort,
}

-- The status and the scope filters are absent or name a known status and scope.
abbrev pub IsKnown : TaskFilter → Type 0
IsKnown f =
    ((str_eq f.status "" ≡ true) ⊎ ((s : String) × (normalize_status f.status ≡ some s)))
    × ((str_eq f.scope "" ≡ true) ⊎ ((s : String) × (normalize_scope f.scope ≡ some s)))

status_passes-some :
    (f : TaskFilter) (t : Task) → IsKnown f → (b : Bool) × (status_passes f t ≡ some b)
unfolding status_passes same_as
status_passes-some f t (inl absent, k) =
    (f.include_terminal || not (is_terminal t.status_of), rw (absent) refl)
status_passes-some f t (inr (s, h), k) = elim (Bool-cases (str_eq f.status "")) [
  | inl e ↦ (f.include_terminal || not (is_terminal t.status_of), rw (e) refl)
  | inr e ↦ (str_eq t.status_of s, rw (e, h) refl)
]

scope_passes-some :
    (f : TaskFilter) (t : Task) → IsKnown f → (b : Bool) × (scope_passes f t ≡ some b)
unfolding scope_passes same_as
scope_passes-some f t (k, inl absent) = (true, rw (absent) refl)
scope_passes-some f t (k, inr (s, h)) = elim (Bool-cases (str_eq f.scope "")) [
  | inl e ↦ (true, rw (e) refl)
  | inr e ↦ (str_eq t.scope s, rw (e, h) refl)
]

and_next-some :
    (a c : Option Bool)
    → ((b : Bool) × (a ≡ some b))
    → ((b : Bool) × (c ≡ some b))
    → (b : Bool) × (and_next a c ≡ some b)
unfolding and_next
and_next-some a c (false, e) h = (false, rw (e) refl)
and_next-some a c (true, e) (b, h) = (b, rw (e, h) refl)

task_matches-some :
    (f : TaskFilter) (t : Task) → IsKnown f → (b : Bool) × (task_matches f t ≡ some b)
unfolding task_matches
task_matches-some f t k =
    and_next-some (status_passes f t) (and_next (scope_passes f t) (some (others_pass f t)))
      (status_passes-some f t k)
      (and_next-some (scope_passes f t) (some (others_pass f t)) (scope_passes-some f t k)
        (others_pass f t, refl))

-- The tasks of a list that match.
abbrev pub IsChosen : TaskFilter → List Task → Task → Type 0
IsChosen f ts t = Memᴰ t ts × (task_matches f t ≡ some true)

abbrev IsSelected : TaskFilter → List Task → List Task → Type 0
IsSelected f ts out = (t : Task) → Memᴰ t out ↔ IsChosen f ts t

passed_over :
    {C : Type 0} (f : TaskFilter) (t x : Task)
    → t ≡ x
    → task_matches f x ≡ some false
    → task_matches f t ≡ some true
    → C
passed_over f t x q e h =
    absurd (false≢true (some-injective false true (sym e ∙ sym (ap (task_matches f) q) ∙ h)))

select_step :
    (f : TaskFilter) (x : Task) (ts : List Task) (b : Bool) (out : List Task)
    → task_matches f x ≡ some b
    → select f ts ≡ some out
    → IsSelected f ts out
    → (out' : List Task) × (select f (x ∷ ts) ≡ some out') × IsSelected f (x ∷ ts) out'
unfolding select keep_match
select_step f x ts true out e h same = (
  x ∷ out,
  rw (e, h) refl,
  λ t. (
    λ m. elim (Memᴰ.cases_cons m) [
      | inl q ↦ (Memᴰ.head q, subst (λ y. task_matches f y ≡ some true) (sym q) e)
      | inr m' ↦ let c = (same t).0 m' in (Memᴰ.tail c.0, c.1)
    ],
    λ c. elim (Memᴰ.cases_cons c.0) [
      | inl q ↦ Memᴰ.head q
      | inr m ↦ Memᴰ.tail ((same t).1 (m, c.1))
    ],
  ),
)
select_step f x ts false out e h same = (
  out,
  rw (e, h) refl,
  λ t. (
    λ m. let c = (same t).0 m in (Memᴰ.tail c.0, c.1),
    λ c. elim (Memᴰ.cases_cons c.0) [
      | inl q ↦ passed_over f t x q e c.1
      | inr m ↦ (same t).1 (m, c.1)
    ],
  ),
)

select-IsSelected :
    (f : TaskFilter) (ts : List Task)
    → IsKnown f
    → (out : List Task) × (select f ts ≡ some out) × IsSelected f ts out
unfolding select keep_match
select-IsSelected f [] k = ([], refl, λ t. (λ m. elim m [ ], λ c. elim (c.0) [ ]))
select-IsSelected f (x ∷ ts) k =
    let (b, e) = task_matches-some f x k in
    let (out, h, same) = select-IsSelected f ts k in select_step f x ts b out e h same

-- What a listing with known filters returns: the tasks that the arguments ask for, arranged.
pub record IsListing (f : TaskFilter) (ts out : List Task) : Type 0 where
  pub has_just : (t : Task) → Memᴰ t out ↔ (Memᴰ t ts × IsShown f t)
  pub arranged : IsArranged out

-- With filters that name a known status and scope, or none, `filter_and_sort` returns a list: a
-- task is in it exactly when it is among the tasks and is what the arguments ask for. Open tasks
-- stand before closed ones, then the more urgent ones first, and tasks of one urgency whose times
-- are comparable stand with the newest update first.
pub filter_and_sort-IsListing :
    (f : TaskFilter) (ts : List Task)
    → IsKnown f
    → (out : List Task) × (filter_and_sort f ts ≡ some out) × IsListing f ts out
unfolding filter_and_sort sorted_selection sort_tasks
filter_and_sort-IsListing f ts k =
    let (chosen, h, same) = select-IsSelected f ts k in
    (
      sort_tasks chosen,
      rw (h) refl,
      record {
        has_just = λ t. (
          λ m.
              let (at_t, matches) = (same t).0 (mem-sort key_order task_key chosen m) in
              (at_t, (task_matches-IsShown f t).0 matches),
          λ (at_t, asked).
              sort_keeps key_order task_key chosen
                ((same t).1 (at_t, (task_matches-IsShown f t).1 asked)),
        );
        arranged =
            IsOrdered-IsArranged (sort_tasks chosen) (sort-IsOrdered key_order task_key chosen);
      },
    )
