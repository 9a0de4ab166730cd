-- ===== src/Tasks/Merge.antt =====
-- `dedupe_events` of src/canon_systems/tasks.py: the union of ledgers by event id.
--
-- The streams are one list here, in the order in which the loops read them. The dict `by_id` is an
-- association list, whose order the sort by its keys, which are distinct, forgets.
use mathlib.Core.List.{Memᴰ}
use mathlib.Core.List.Memᴰ
use canon_systems.Base.{
  String, ◌≡◌, refl, sym, ap, ◌∙◌, ◌⊎◌, inl, inr, Bool, true, false, not, ◌&&◌, ◌||◌, List, [], ◌∷◌,
  map, str_eq, eq_iff, non_empty, Bool-cases, if◌then◌else◌,
}
use canon_systems.Base.Text.{strip}
use canon_systems.Base.Order.{text_order, sort}
use canon_systems.Tasks.Events.{TaskEvent}

abbrev pub ById : Type 0
ById = List (String × TaskEvent)

abbrev pub key_of : String × TaskEvent → String
key_of (k, e) = k

abbrev pub event_of : String × TaskEvent → TaskEvent
event_of (k, e) = e

abbrev pub has_key : String → ById → Bool
has_key k [] = false
has_key k ((j, e) ∷ l) = str_eq k j || has_key k l

unfoldable pub add_event : ById → TaskEvent → ById
add_event acc e =
    if non_empty (strip e.event_id) && not (has_key (strip e.event_id) acc)
    then (strip e.event_id, e) ∷ acc
    else acc

unfoldable pub by_id : ById → List TaskEvent → ById
unfolding add_event
by_id acc [] = acc
by_id acc (e ∷ es) = by_id (add_event acc e) es

unfoldable pub dedupe_events : List TaskEvent → List TaskEvent
unfolding by_id
dedupe_events events = map event_of (sort text_order key_of (by_id [] events))

add_event-cases :
    (acc : ById) (e : TaskEvent)
    → ((add_event acc e ≡ acc)
        × ((non_empty (strip e.event_id) ≡ false) ⊎ (has_key (strip e.event_id) acc ≡ true)))
      ⊎ ((add_event acc e ≡ (strip e.event_id, e) ∷ acc) × (has_key (strip e.event_id) acc ≡ false))
unfolding add_event
add_event-cases acc e = elim (Bool-cases (non_empty (strip e.event_id))) [
  | inr blank ↦ inl (rw (add_event, blank), inl blank)
  | inl filled ↦ elim (Bool-cases (has_key (strip e.event_id) acc)) [
    | inl there ↦ inl (rw (add_event, filled, there), inr there)
    | inr fresh ↦ inr (rw (add_event, filled, fresh), fresh)
  ]
]

-- Each entry is an event of the list under its own id.
abbrev pub Owned : List TaskEvent → String × TaskEvent → Type 0
Owned l p = Memᴰ (event_of p) l × (key_of p ≡ strip (event_of p).event_id)

pub by_id-Owned :
    (acc : ById) (l : List TaskEvent) (p : String × TaskEvent)
    → Memᴰ p (by_id acc l)
    → Memᴰ p acc ⊎ Owned l p
unfolding by_id
by_id-Owned acc [] p m = inl m
by_id-Owned acc (e ∷ es) p m = elim (by_id-Owned (add_event acc e) es p m) [
  | inr (h, k) ↦ inr (Memᴰ.tail h, k)
  | inl h ↦ elim (add_event-cases acc e) [
    | inl (same, why) ↦ inl (rw same at h)
    | inr (more, fresh) ↦ elim (Memᴰ.cases_cons (rw more at h)) [
      | inr h' ↦ inl h'
      | inl q ↦ inr (
        Memᴰ.head (ap event_of q),
        ap key_of q ∙ ap (λ (x : TaskEvent). strip x.event_id) (sym (ap event_of q)),
      )
    ]
  ]
]

by_id_keeps :
    (acc : ById) (l : List TaskEvent) (p : String × TaskEvent) → Memᴰ p acc → Memᴰ p (by_id acc l)
unfolding by_id
by_id_keeps acc [] p m = m
by_id_keeps acc (e ∷ es) p m = by_id_keeps (add_event acc e) es p (elim (add_event-cases acc e) [
  | inl (same, why) ↦ rw same m
  | inr (more, fresh) ↦ rw more (Memᴰ.tail m)
])

mem-has_key : (k : String) (acc : ById) → has_key k acc ≡ true → (e : TaskEvent) × Memᴰ (k, e) acc
mem-has_key k [] h = cc h
mem-has_key k ((j, e) ∷ l) h = elim (Bool-cases (str_eq k j)) [
  | inl same ↦ (e, Memᴰ.head (ap (λ x. (x, e)) ((eq_iff k j).0 same)))
  | inr other ↦ let r = mem-has_key k l (rw other at h) in (r.0, Memᴰ.tail r.1)
]

pub has_key-mem : (k : String) (acc : ById) (e : TaskEvent) → Memᴰ (k, e) acc → has_key k acc ≡ true
has_key-mem k [] e m = elim m [ ]
has_key-mem k ((j, f) ∷ l) e m = elim (Memᴰ.cases_cons m) [
  | inl q ↦ rw ((eq_iff k j).1 (ap key_of q))
  | inr m' ↦ elim (Bool-cases (str_eq k j)) [
    | inl same ↦ rw same
    | inr other ↦ rw other (has_key-mem k l e m')
  ]
]

pub by_id_complete :
    (acc : ById) (l : List TaskEvent) (e : TaskEvent)
    → Memᴰ e l
    → non_empty (strip e.event_id) ≡ true
    → (f : TaskEvent) × Memᴰ (strip e.event_id, f) (by_id acc l)
unfolding by_id
by_id_complete acc [] e m filled = elim m [ ]
by_id_complete acc (x ∷ xs) e m filled = elim (Memᴰ.cases_cons m) [
  | inr m' ↦ by_id_complete (add_event acc x) xs e m' filled
  | inl q ↦ elim (add_event-cases acc x) [
    | inr (more, fresh) ↦ (
      x,
      by_id_keeps (add_event acc x) xs (strip e.event_id, x)
          (rw more (Memᴰ.head (ap (λ (y : TaskEvent). (strip y.event_id, x)) q))),
    )
    | inl (same, inl blank) ↦ cc (filled, blank, q)
    | inl (same, inr there) ↦
        let held = mem-has_key (strip e.event_id) acc (rw q there) in
        (held.0, by_id_keeps (add_event acc x) xs (strip e.event_id, held.0) (rw same held.1))
  ]
]

pub mem-map-event_of :
    (l : ById) (e : TaskEvent)
    → Memᴰ e (map event_of l)
    → (p : String × TaskEvent) × Memᴰ p l × (event_of p ≡ e)
mem-map-event_of [] e m = elim m [ ]
mem-map-event_of (p ∷ ps) e m = elim (Memᴰ.cases_cons m) [
  | inl q ↦ (p, Memᴰ.head refl, sym q)
  | inr m' ↦ let r = mem-map-event_of ps e m' in (r.0, Memᴰ.tail r.1, r.2)
]
