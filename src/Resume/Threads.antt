-- ===== src/Resume/Threads.antt =====
-- `task_threads` of `compute_lane_state` in src/canon_systems/task_thread_scheduler.py: the groups
-- with their members sorted, sorted by the group, the group without a name first.
use mathlib.Core.List.{Memᴰ}
use mathlib.Core.List.Memᴰ
use canon_systems.Base.{
  ℕ, String, ◌≡◌, refl, sym, ap, subst, ◌∙◌, ◌⊎◌, inl, inr, List, [], ◌∷◌, ◌++◌, map, str_eq,
  eq_iff, Bool-cases, if◌then◌else◌,
}
use canon_systems.Base.Order.{lex_order, text_order, nat_order, sort, mem-sort, sort_keeps}
use canon_systems.Resume.{ManifestTask}
use canon_systems.Resume.Lanes.{Member, add_member, group_map}

abbrev pub Groups : Type 0
Groups = List (String × List Member)

abbrev pub member_of : ManifestTask → Member
member_of t = record { task_id = t.task_id; workstream_id = t.workstream_id }

abbrev pub member_key : Member → String × String
member_key m = (m.task_id, m.workstream_id)

abbrev pub sort_members : String × List Member → String × List Member
sort_members (pg, ms) = (pg, sort (lex_order text_order text_order) member_key ms)

abbrev pub group_key : String × List Member → ℕ × String
group_key (pg, ms) = ((if str_eq pg "" then 0 else 1), pg)

unfoldable pub task_threads : List ManifestTask → Groups
task_threads ts =
    sort (lex_order nat_order text_order) group_key (map sort_members (group_map [] ts))

-- The member is in a group of the name.
abbrev pub IsIn : Groups → String → Member → Type 0
IsIn gs pg m = (ms : List Member) × Memᴰ (pg, ms) gs × Memᴰ m ms

append_left : {m : Member} (xs ys : List Member) → Memᴰ m xs → Memᴰ m (xs ++ ys)
append_left [] ys h = elim h [ ]
append_left (x ∷ xs) ys h = elim (Memᴰ.cases_cons h) [
  | inl e ↦ Memᴰ.head e
  | inr h' ↦ Memᴰ.tail (append_left xs ys h')
]

append_last : (xs : List Member) (m : Member) → Memᴰ m (xs ++ m ∷ [])
append_last [] m = Memᴰ.head refl
append_last (x ∷ xs) m = Memᴰ.tail (append_last xs m)

snoc-cases :
    {m : Member} (xs : List Member) (x : Member) → Memᴰ m (xs ++ x ∷ []) → Memᴰ m xs ⊎ (m ≡ x)
snoc-cases [] x h = elim (Memᴰ.cases_cons h) [ inl e ↦ inr e | inr h' ↦ elim h' [ ] ]
snoc-cases (y ∷ ys) x h = elim (Memᴰ.cases_cons h) [
  | inl e ↦ inl (Memᴰ.head e)
  | inr h' ↦ elim (snoc-cases ys x h') [ inl k ↦ inl (Memᴰ.tail k) | inr e ↦ inr e ]
]

IsIn-rest :
    (g : String × List Member) (gs : Groups) (pg : String) (m : Member)
    → IsIn gs pg m
    → IsIn (g ∷ gs) pg m
IsIn-rest g gs pg m (ms, h, k) = (ms, Memᴰ.tail h, k)

add_member_there : (pg : String) (m : Member) (gs : Groups) → IsIn (add_member pg m gs) pg m
unfolding add_member
add_member_there pg m [] = (m ∷ [], Memᴰ.head refl, Memᴰ.head refl)
add_member_there pg m ((g, ms) ∷ gs) = elim (Bool-cases (str_eq g pg)) [
  | inl e ↦ rw e (
    ms ++ m ∷ [],
    Memᴰ.head (ap (λ x. (x, ms ++ m ∷ [])) (sym ((eq_iff g pg).0 e))),
    append_last ms m,
  )
  | inr e ↦ rw e (IsIn-rest (g, ms) (add_member pg m gs) pg m (add_member_there pg m gs))
]

add_member_keeps :
    (pg : String) (m : Member) (gs : Groups) (qg : String) (n : Member)
    → IsIn gs qg n
    → IsIn (add_member pg m gs) qg n
unfolding add_member
add_member_keeps pg m [] qg n (ns, h, k) = elim h [ ]
add_member_keeps pg m ((g, ms) ∷ gs) qg n (ns, h, k) = elim (Bool-cases (str_eq g pg)) [
  | inl e ↦ elim (Memᴰ.cases_cons h) [
    | inl q ↦ rw e (
      ms ++ m ∷ [],
      Memᴰ.head (ap (λ (x : String × List Member). (x.0, ms ++ m ∷ [])) q),
      append_left ms (m ∷ []) (subst (Memᴰ n) (ap (λ (x : String × List Member). x.1) q) k),
    )
    | inr h' ↦ rw e (ns, Memᴰ.tail h', k)
  ]
  | inr e ↦ elim (Memᴰ.cases_cons h) [
    | inl q ↦ rw e (ns, Memᴰ.head q, k)
    | inr h' ↦
        rw e
          (IsIn-rest (g, ms) (add_member pg m gs) qg n (add_member_keeps pg m gs qg n (ns, h', k)))
  ]
]

add_member-cases :
    (pg : String) (m : Member) (gs : Groups) (qg : String) (n : Member)
    → IsIn (add_member pg m gs) qg n
    → IsIn gs qg n ⊎ ((qg ≡ pg) × (n ≡ m))
unfolding add_member
add_member-cases pg m [] qg n (ns, h, k) = elim (Memᴰ.cases_cons h) [
  | inr h' ↦ elim h' [ ]
  | inl q ↦ elim (Memᴰ.cases_cons (subst (Memᴰ n) (ap (λ (x : String × List Member). x.1) q) k)) [
    | inl e ↦ inr (ap (λ (x : String × List Member). x.0) q, e)
    | inr k' ↦ elim k' [ ]
  ]
]
add_member-cases pg m ((g, ms) ∷ gs) qg n i = elim (Bool-cases (str_eq g pg)) [
  | inl e ↦
      let found : IsIn ((g, ms ++ m ∷ []) ∷ gs) qg n = rw e at i in
      elim (Memᴰ.cases_cons found.1) [
        | inr h' ↦ inl (found.0, Memᴰ.tail h', found.2)
        | inl q ↦
            elim (snoc-cases ms m
              (subst (Memᴰ n) (ap (λ (x : String × List Member). x.1) q) found.2)) [
                | inl k ↦ inl (ms, Memᴰ.head (ap (λ (x : String × List Member). (x.0, ms)) q), k)
                | inr s ↦ inr (ap (λ (x : String × List Member). x.0) q ∙ (eq_iff g pg).0 e, s)
              ]
      ]
  | inr e ↦
      let found : IsIn ((g, ms) ∷ add_member pg m gs) qg n = rw e at i in
      elim (Memᴰ.cases_cons found.1) [
        | inl q ↦ inl (found.0, Memᴰ.head q, found.2)
        | inr h' ↦ elim (add_member-cases pg m gs qg n (found.0, h', found.2)) [
          | inl rest ↦ inl (IsIn-rest (g, ms) gs qg n rest)
          | inr new ↦ inr new
        ]
      ]
]

group_map_keeps :
    (gs : Groups) (ts : List ManifestTask) (pg : String) (m : Member)
    → IsIn gs pg m
    → IsIn (group_map gs ts) pg m
unfolding group_map
group_map_keeps gs [] pg m i = i
group_map_keeps gs (t ∷ ts) pg m i =
    group_map_keeps (add_member t.parallel_group (member_of t) gs) ts pg m
      (add_member_keeps t.parallel_group (member_of t) gs pg m i)

group_map_there :
    (gs : Groups) (ts : List ManifestTask) (t : ManifestTask)
    → Memᴰ t ts
    → IsIn (group_map gs ts) t.parallel_group (member_of t)
unfolding group_map
group_map_there gs [] t h = elim h [ ]
group_map_there gs (x ∷ xs) t h = elim (Memᴰ.cases_cons h) [
  | inr h' ↦ group_map_there (add_member x.parallel_group (member_of x) gs) xs t h'
  | inl e ↦
      subst (λ (y : ManifestTask). IsIn (group_map gs (x ∷ xs)) y.parallel_group (member_of y))
        (sym e)
        (group_map_keeps (add_member x.parallel_group (member_of x) gs) xs x.parallel_group
          (member_of x) (add_member_there x.parallel_group (member_of x) gs))
]

group_map-cases :
    (gs : Groups) (ts : List ManifestTask) (pg : String) (m : Member)
    → IsIn (group_map gs ts) pg m
    → IsIn gs pg m ⊎ ((t : ManifestTask) × Memᴰ t ts × (pg ≡ t.parallel_group) × (m ≡ member_of t))
unfolding group_map
group_map-cases gs [] pg m i = inl i
group_map-cases gs (t ∷ ts) pg m i =
    elim (group_map-cases (add_member t.parallel_group (member_of t) gs) ts pg m i) [
      | inr (u, h, a, b) ↦ inr (u, Memᴰ.tail h, a, b)
      | inl j ↦ elim (add_member-cases t.parallel_group (member_of t) gs pg m j) [
        | inl k ↦ inl k
        | inr (a, b) ↦ inr (t, Memᴰ.head refl, a, b)
      ]
    ]

map_there :
    (gs : Groups) (pg : String) (ms : List Member)
    → Memᴰ (pg, ms) gs
    → Memᴰ (sort_members (pg, ms)) (map sort_members gs)
map_there [] pg ms h = elim h [ ]
map_there (g ∷ gs) pg ms h = elim (Memᴰ.cases_cons h) [
  | inl e ↦ Memᴰ.head (ap sort_members e)
  | inr h' ↦ Memᴰ.tail (map_there gs pg ms h')
]

map_back :
    (gs : Groups) (g : String × List Member)
    → Memᴰ g (map sort_members gs)
    → (f : String × List Member) × Memᴰ f gs × (g ≡ sort_members f)
map_back [] g h = elim h [ ]
map_back (x ∷ xs) g h = elim (Memᴰ.cases_cons h) [
  | inl e ↦ (x, Memᴰ.head refl, e)
  | inr h' ↦ let r = map_back xs g h' in (r.0, Memᴰ.tail r.1, r.2)
]

-- The threads hold the tasks of the manifest and no others: each task is a member of the thread of
-- its own group, and each member of a thread is a task of the manifest with that group.
pub task_threads_members :
    (ts : List ManifestTask)
    → ((t : ManifestTask) → Memᴰ t ts → IsIn (task_threads ts) t.parallel_group (member_of t))
      × ((pg : String) (m : Member)
          → IsIn (task_threads ts) pg m
          → (t : ManifestTask) × Memᴰ t ts × (pg ≡ t.parallel_group) × (m ≡ member_of t))
unfolding task_threads
task_threads_members ts = (
  λ t h.
      let (ms, at_g, at_m) = group_map_there [] ts t h in
      (
        sort (lex_order text_order text_order) member_key ms,
        sort_keeps (lex_order nat_order text_order) group_key (map sort_members (group_map [] ts))
            (map_there (group_map [] ts) t.parallel_group ms at_g),
        sort_keeps (lex_order text_order text_order) member_key ms at_m,
      ),
  λ pg m i.
      let (f, at_f, e) =
        map_back (group_map [] ts) (pg, i.0)
          (mem-sort (lex_order nat_order text_order) group_key (map sort_members (group_map [] ts))
            i.1) in
      let kept : Memᴰ m f.1 =
        mem-sort (lex_order text_order text_order) member_key f.1
          (subst (Memᴰ m) (ap (λ (x : String × List Member). x.1) e) i.2) in
      let named : pg ≡ f.0 = ap (λ (x : String × List Member). x.0) e in
      elim (group_map-cases [] ts f.0 m (f.1, at_f, kept)) [
        | inl j ↦ elim j.1 [ ]
        | inr (t, h, a, b) ↦ (t, h, named ∙ a, b)
      ],
)
