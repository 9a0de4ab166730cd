-- ===== src/Tasks/Union.antt =====
-- `dedupe_events` of src/canon_systems/tasks.py as a union of sets of events.
use mathlib.Core.List.{Memᴰ}
use mathlib.Core.List.Memᴰ
use canon_systems.Base.{
  String, ◌≡◌, sym, ap, ◌∙◌, inl, inr, true, false, List, [], ◌∷◌, map, subst, non_empty,
  Bool-cases,
}
use canon_systems.Base.Text.{strip}
use canon_systems.Base.Order.{text_order, sort, mem-sort, sort_keeps}
use canon_systems.Base.Strict.{IsDistinct, strict_ext, sort-IsStrict}
use canon_systems.Tasks.Events.{TaskEvent, filled}
use canon_systems.Tasks.Merge.{
  ById, key_of, event_of, has_key, add_event, by_id, dedupe_events, by_id-Owned, by_id_complete,
  has_key-mem,
}

-- Events of the list with one id, which is not blank, are one event.
abbrev pub IsOneEach : List TaskEvent → Type 0
IsOneEach l =
    (e f : TaskEvent)
    → Memᴰ e l
    → Memᴰ f l
    → filled e.event_id ≡ true
    → strip e.event_id ≡ strip f.event_id
    → e ≡ f

-- Two lists have the same events.
abbrev pub SameEvents : List TaskEvent → List TaskEvent → Type 0
SameEvents l m = ((e : TaskEvent) → Memᴰ e l → Memᴰ e m) × ((e : TaskEvent) → Memᴰ e m → Memᴰ e l)

-- Two lists have the same events among those with an id.
abbrev pub SameNamed : List TaskEvent → List TaskEvent → Type 0
SameNamed l m =
    ((e : TaskEvent) → filled e.event_id ≡ true → Memᴰ e l → Memᴰ e m)
    × ((e : TaskEvent) → filled e.event_id ≡ true → Memᴰ e m → Memᴰ e l)

-- What holds of the entries, and of them with an entry more, holds when an event was added.
add_event_rule :
    (P : ById → Type 0) (acc : ById) (e : TaskEvent)
    → P acc
    → (filled e.event_id ≡ true
        → has_key (strip e.event_id) acc ≡ false
        → P ((strip e.event_id, e) ∷ acc))
    → P (add_event acc e)
unfolding add_event
add_event_rule P acc e old new = elim (Bool-cases (filled e.event_id)) [
  | inr blank ↦ rw (add_event, blank) old
  | inl named ↦ elim (Bool-cases (has_key (strip e.event_id) acc)) [
    | inl there ↦ rw (add_event, named, there) old
    | inr fresh ↦ rw (add_event, named, fresh) (new named fresh)
  ]
]

abbrev pub IsNamed : ById → Type 0
IsNamed acc = (p : String × TaskEvent) → Memᴰ p acc → non_empty (key_of p) ≡ true

pub by_id-IsNamed : (acc : ById) (l : List TaskEvent) → IsNamed acc → IsNamed (by_id acc l)
unfolding by_id
by_id-IsNamed acc [] h = h
by_id-IsNamed acc (e ∷ es) h = by_id-IsNamed (add_event acc e) es (
    add_event_rule IsNamed acc e h (λ named fresh p m. elim (Memᴰ.cases_cons m) [
      | inl q ↦ subst (λ k. non_empty k ≡ true) (sym (ap key_of q)) named
      | inr m' ↦ h p m'
    ]))

pub by_id-IsDistinct :
    (acc : ById) (l : List TaskEvent) → IsDistinct key_of acc → IsDistinct key_of (by_id acc l)
unfolding by_id
by_id-IsDistinct acc [] d = d
by_id-IsDistinct acc (e ∷ es) d = by_id-IsDistinct (add_event acc e) es (
    add_event_rule (IsDistinct key_of) acc e d (λ named fresh.
      IsDistinct.cons
        (λ p m same. cc (
          has_key-mem (strip e.event_id) acc (event_of p)
              (Memᴰ.cast (ap (λ k. (k, event_of p)) (sym same)) m),
          fresh,
        ))
        d))

-- An entry of one union is an entry of the other.
by_id_move :
    (l m : List TaskEvent) (p : String × TaskEvent)
    → IsOneEach m
    → SameNamed l m
    → Memᴰ p (by_id [] l)
    → Memᴰ p (by_id [] m)
by_id_move l m p one (to, from) at_p = elim (by_id-Owned [] l p at_p) [
  | inl none_yet ↦ elim none_yet [ ]
  | inr (in_l, key) ↦
      let e = event_of p in
      let named : filled e.event_id ≡ true =
        subst (λ k. non_empty k ≡ true) key (by_id-IsNamed [] l (λ q n. elim n [ ]) p at_p) in
      let (f, at_f) = by_id_complete [] m e (to e named in_l) named in
      elim (by_id-Owned [] m (strip e.event_id, f) at_f) [
        | inl none_yet ↦ elim none_yet [ ]
        | inr (in_m, own) ↦
            let same = one e f (to e named in_l) in_m named own in
            Memᴰ.cast (ap (λ x. (key_of p, x)) same ∙ ap (λ k. (k, f)) key) at_f
      ]
]

-- The union of ledgers depends on their events with an id alone, in whatever order and however
-- often they stand there.
pub dedupe_events_named :
    (l m : List TaskEvent)
    → IsOneEach l
    → IsOneEach m
    → SameNamed l m
    → dedupe_events l ≡ dedupe_events m
unfolding dedupe_events
dedupe_events_named l m one one' (to, from) = ap (map event_of) (
    strict_ext text_order key_of (sort text_order key_of (by_id [] l))
      (sort text_order key_of (by_id [] m))
      (sort-IsStrict text_order key_of (by_id [] l) (by_id-IsDistinct [] l IsDistinct.nil))
      (sort-IsStrict text_order key_of (by_id [] m) (by_id-IsDistinct [] m IsDistinct.nil))
      (λ p n. moved l m p one' (to, from) n) (λ p n. moved m l p one (from, to) n))
  where
    moved :
        (l m : List TaskEvent) (p : String × TaskEvent)
        → IsOneEach m
        → SameNamed l m
        → Memᴰ p (sort text_order key_of (by_id [] l))
        → Memᴰ p (sort text_order key_of (by_id [] m))
    moved l m p one same n =
        sort_keeps text_order key_of (by_id [] m)
          (by_id_move l m p one same (mem-sort text_order key_of (by_id [] l) n))

pub dedupe_events_ext :
    (l m : List TaskEvent)
    → IsOneEach l
    → IsOneEach m
    → SameEvents l m
    → dedupe_events l ≡ dedupe_events m
dedupe_events_ext l m one one' (to, from) =
    dedupe_events_named l m one one' (λ e named. to e, λ e named. from e)
