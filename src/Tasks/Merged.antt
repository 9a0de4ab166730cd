-- ===== src/Tasks/Merged.antt =====
-- What `dedupe_events` of src/canon_systems/tasks.py promises: the union of ledgers by event id.
use mathlib.Core.List.{Memᴰ}
use mathlib.Core.List.Memᴰ
use canon_systems.Base.{
  String, ◌≡◌, refl, sym, ap, ◌∙◌, inl, inr, true, List, [], ◌∷◌, map, non_empty,
}
use canon_systems.Base.Text.{strip}
use canon_systems.Base.Order.{text_order, sort, mem-sort, sort_keeps}
use canon_systems.Tasks.Events.{TaskEvent}
use canon_systems.Base.Strict.{IsDistinct, sort-IsStrict, IsStrict-IsDistinct}
use canon_systems.Tasks.Merge.{
  ById, key_of, event_of, by_id, dedupe_events, by_id-Owned, by_id_complete, mem-map-event_of,
}
use canon_systems.Tasks.Union.{by_id-IsDistinct}

-- The id by which the events are told apart.
abbrev pub event_name : TaskEvent → String
event_name e = strip e.event_id

-- What a union by id promises: it makes no event up, it has an event for each id that is not
-- blank, and it has no id twice.
pub record IsMerge (l m : List TaskEvent) : Type 0 where
  pub sound : (e : TaskEvent) → Memᴰ e m → Memᴰ e l
  pub complete :
      (e : TaskEvent)
      → Memᴰ e l
      → non_empty (strip e.event_id) ≡ true
      → (f : TaskEvent) × Memᴰ f m × (strip f.event_id ≡ strip e.event_id)
  pub once : IsDistinct event_name m

map_event_of_keeps :
    (l : ById) (p : String × TaskEvent) → Memᴰ p l → Memᴰ (event_of p) (map event_of l)
map_event_of_keeps [] p m = elim m [ ]
map_event_of_keeps (q ∷ qs) p m = elim (Memᴰ.cases_cons m) [
  | inl e ↦ Memᴰ.head (ap event_of e)
  | inr m' ↦ Memᴰ.tail (map_event_of_keeps qs p m')
]

-- An entry of the union, for each of its events.
pub merged :
    (l : List TaskEvent) (e : TaskEvent)
    → Memᴰ e (dedupe_events l)
    → Memᴰ e l × Memᴰ (strip e.event_id, e) (by_id [] l)
unfolding dedupe_events
merged l e m =
    let (p, at_p, q) = mem-map-event_of (sort text_order key_of (by_id [] l)) e m in
    let stored = mem-sort text_order key_of (by_id [] l) at_p in
    elim (by_id-Owned [] l p stored) [
      | inl none_yet ↦ elim none_yet [ ]
      | inr (h, k) ↦ (
        Memᴰ.cast (sym q) h,
        Memᴰ.cast
            (ap (λ (x : TaskEvent). (strip x.event_id, x)) (sym q)
              ∙ ap (λ k. (k, event_of p)) (sym k))
            stored,
      )
    ]

-- Entries with distinct keys, each under the id of its event, have events with distinct ids.
IsDistinct-events :
    (l : ById)
    → IsDistinct key_of l
    → ((p : String × TaskEvent) → Memᴰ p l → key_of p ≡ event_name (event_of p))
    → IsDistinct event_name (map event_of l)
IsDistinct-events [] d own = IsDistinct.nil
IsDistinct-events (p ∷ ps) (IsDistinct.cons other d) own =
    IsDistinct.cons
      (λ e m same.
        let (q, at_q, is_e) = mem-map-event_of ps e m in
        other q at_q
          (own q (Memᴰ.tail at_q) ∙ ap event_name is_e ∙ same ∙ sym (own p (Memᴰ.head refl))))
      (IsDistinct-events ps d (λ q m. own q (Memᴰ.tail m)))

owned_key :
    (l : List TaskEvent) (p : String × TaskEvent)
    → Memᴰ p (by_id [] l)
    → key_of p ≡ event_name (event_of p)
owned_key l p m = elim (by_id-Owned [] l p m) [ inl none_yet ↦ elim none_yet [ ] | inr (h, k) ↦ k ]

-- The union of ledgers is one: each of its events comes from a ledger, each event of a ledger
-- whose id is not blank is there by its id, and each id stands in it once.
pub dedupe_events-IsMerge : (l : List TaskEvent) → IsMerge l (dedupe_events l)
unfolding dedupe_events
dedupe_events-IsMerge l = record {
  sound = λ e m. (merged l e m).0;
  complete = λ e m filled.
      let (f, at_f) = by_id_complete [] l e m filled in
      let entry : String × TaskEvent = (strip e.event_id, f) in
      let owned : strip e.event_id ≡ strip f.event_id = elim (by_id-Owned [] l entry at_f) [
        | inl none_yet ↦ elim none_yet [ ]
        | inr (h, k) ↦ k
      ] in
      (
        f,
        map_event_of_keeps (sort text_order key_of (by_id [] l)) entry
            (sort_keeps text_order key_of (by_id [] l) at_f),
        sym owned,
      );
  once =
      IsDistinct-events (sort text_order key_of (by_id [] l))
        (IsStrict-IsDistinct text_order key_of (sort text_order key_of (by_id [] l))
          (sort-IsStrict text_order key_of (by_id [] l) (by_id-IsDistinct [] l IsDistinct.nil)))
        (λ p m. owned_key l p (mem-sort text_order key_of (by_id [] l) m));
}
