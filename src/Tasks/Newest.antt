-- ===== src/Tasks/Newest.antt =====
-- What an event that is later than all others does to the union of ledgers and to its tasks, for
-- `dedupe_events` and `materialize` of src/canon_systems/tasks.py.
use mathlib.Core.List.{Memᴰ}
use mathlib.Core.List.Memᴰ
use canon_systems.Base.{
  String, non_empty, ◌≡◌, refl, sym, ap, ◌∙◌, inl, inr, true, Option, some, List, [], ◌∷◌, ◌++◌,
  map, subst,
}
use canon_systems.Base.Text.{strip}
use canon_systems.Base.Order.{StrictOrder, lex_order, text_order, sort, mem-sort, sort_keeps}
use canon_systems.Base.Strict.{
  IsStrict, IsDistinct, strict_ext, sort-IsStrict, IsStrict-IsDistinct, IsStrict-snoc, mem_snoc,
  mem_append_left, mem_append_right,
}
use canon_systems.Tasks.Events.{TaskEvent, filled, validate_event, sort_key, sort_events}
use canon_systems.Tasks.Fold.{
  Task, State, or_new, update_task, find, store, fold_event, fold_valid, fold_all, materialize,
}
use canon_systems.Tasks.Merge.{
  ById, key_of, event_of, by_id, dedupe_events, by_id-Owned, mem-map-event_of,
}
use canon_systems.Tasks.Merged.{dedupe_events-IsMerge}
use canon_systems.Tasks.Union.{IsOneEach, by_id-IsDistinct, by_id-IsNamed}

-- An event is in the union exactly when it is in a ledger and has an id.
pub mem-dedupe_events :
    (l : List TaskEvent) (e : TaskEvent)
    → IsOneEach l
    → Memᴰ e l
    → filled e.event_id ≡ true
    → Memᴰ e (dedupe_events l)
mem-dedupe_events l e one m named =
    let (f, at_f, same) = (dedupe_events-IsMerge l).complete e m named in
    Memᴰ.cast (one e f m ((dedupe_events-IsMerge l).sound f at_f) named (sym same)) at_f

-- Every entry stands under its event's id, and the id is not blank.
abbrev IsIndex : ById → Type 0
IsIndex acc =
    (p : String × TaskEvent)
    → Memᴰ p acc
    → (key_of p ≡ strip (event_of p).event_id) × (filled (event_of p).event_id ≡ true)

IsIndex-sort : (l : List TaskEvent) → IsIndex (sort text_order key_of (by_id [] l))
IsIndex-sort l p m = elim (by_id-Owned [] l p (mem-sort text_order key_of (by_id [] l) m)) [
  | inl none_yet ↦ elim none_yet [ ]
  | inr (in_l, key) ↦ (
    key,
    subst (λ k. non_empty k ≡ true) key
        (by_id-IsNamed [] l (λ q n. elim n [ ]) p (mem-sort text_order key_of (by_id [] l) m)),
  )
]

pub dedupe_events-filled :
    (l : List TaskEvent) (e : TaskEvent) → Memᴰ e (dedupe_events l) → filled e.event_id ≡ true
unfolding dedupe_events
dedupe_events-filled l e m =
    let (p, at_p, same) = mem-map-event_of (sort text_order key_of (by_id [] l)) e m in
    subst (λ (x : TaskEvent). filled x.event_id ≡ true) same (IsIndex-sort l p at_p).1

map-IsDistinct :
    (acc : ById) → IsIndex acc → IsDistinct key_of acc → IsDistinct sort_key (map event_of acc)
map-IsDistinct [] index d = IsDistinct.nil
map-IsDistinct (p ∷ ps) index (IsDistinct.cons other d) =
    IsDistinct.cons
      (λ e m same.
        let (q, at_q, is_e) = mem-map-event_of ps e m in
        other q at_q (
          (index q (Memᴰ.tail at_q)).0
          ∙ ap (λ (x : TaskEvent). strip x.event_id) is_e
          ∙ ap (λ (k : String × String). strip k.1) same
          ∙ sym (index p (Memᴰ.head refl)).0))
      (map-IsDistinct ps (λ q n. index q (Memᴰ.tail n)) d)

dedupe_events-IsDistinct : (l : List TaskEvent) → IsDistinct sort_key (dedupe_events l)
unfolding dedupe_events
dedupe_events-IsDistinct l = map-IsDistinct (sort text_order key_of (by_id [] l)) (IsIndex-sort l) (
    IsStrict-IsDistinct text_order key_of (sort text_order key_of (by_id [] l))
      (sort-IsStrict text_order key_of (by_id [] l) (by_id-IsDistinct [] l IsDistinct.nil)))

abbrev pub event_order : StrictOrder (String × String)
event_order = lex_order text_order text_order

sort_events-IsStrict :
    (l : List TaskEvent) → IsStrict event_order sort_key (sort_events (dedupe_events l))
unfolding sort_events
sort_events-IsStrict l =
    sort-IsStrict event_order sort_key (dedupe_events l) (dedupe_events-IsDistinct l)

-- The event is later than each of the list, by the timestamp and then the id.
abbrev pub IsNewest : TaskEvent → List TaskEvent → Type 0
IsNewest e l = (x : TaskEvent) → Memᴰ x l → event_order.lt (sort_key x) (sort_key e) ≡ true

mem-sort_events-back :
    (l : List TaskEvent) (x : TaskEvent)
    → Memᴰ x (sort_events (dedupe_events l))
    → Memᴰ x l × (filled x.event_id ≡ true)
unfolding sort_events
mem-sort_events-back l x m =
    let at_x = mem-sort event_order sort_key (dedupe_events l) m in
    ((dedupe_events-IsMerge l).sound x at_x, dedupe_events-filled l x at_x)

mem-sort_events :
    (l : List TaskEvent) (x : TaskEvent)
    → IsOneEach l
    → Memᴰ x l
    → filled x.event_id ≡ true
    → Memᴰ x (sort_events (dedupe_events l))
unfolding sort_events
mem-sort_events l x one m named =
    sort_keeps event_order sort_key (dedupe_events l) (mem-dedupe_events l x one m named)

-- A newest event stands last in the stream.
pub sort_events-snoc :
    (e : TaskEvent) (l : List TaskEvent)
    → IsOneEach (e ∷ l)
    → IsNewest e l
    → filled e.event_id ≡ true
    → sort_events (dedupe_events (e ∷ l)) ≡ sort_events (dedupe_events l) ++ e ∷ []
sort_events-snoc e l one newest named =
    let one_l : IsOneEach l = λ x y m n. one x y (Memᴰ.tail m) (Memᴰ.tail n) in
    strict_ext event_order sort_key (sort_events (dedupe_events (e ∷ l)))
      (sort_events (dedupe_events l) ++ e ∷ []) (sort_events-IsStrict (e ∷ l))
      (IsStrict-snoc event_order sort_key e (sort_events (dedupe_events l))
        (λ x m. newest x (mem-sort_events-back l x m).0) (sort_events-IsStrict l))
      (λ x m.
        let (in_l, named_x) = mem-sort_events-back (e ∷ l) x m in
        elim (Memᴰ.cases_cons in_l) [
          | inl same ↦ mem_append_right (sort_events (dedupe_events l)) (e ∷ []) (Memᴰ.head same)
          | inr n ↦
              mem_append_left (sort_events (dedupe_events l)) (e ∷ [])
                (mem-sort_events l x one_l n named_x)
        ])
      (λ x m. elim (mem_snoc (sort_events (dedupe_events l)) m) [
        | inl n ↦
            let (in_l, named_x) = mem-sort_events-back l x n in
            mem-sort_events (e ∷ l) x one (Memᴰ.tail in_l) named_x
        | inr same ↦ Memᴰ.cast same (mem-sort_events (e ∷ l) e one (Memᴰ.head refl) named)
      ])

fold_all-snoc :
    (acc : Option State) (es : List TaskEvent) (e : TaskEvent)
    → fold_all acc (es ++ e ∷ []) ≡ fold_valid (fold_all acc es) e
unfolding fold_all
fold_all-snoc acc [] e = refl
fold_all-snoc acc (x ∷ xs) e = fold_all-snoc (fold_valid acc x) xs e

-- A newest event is folded last, over the state that the others give.
pub materialize_newest :
    (e : TaskEvent) (l : List TaskEvent) (s : State)
    → IsOneEach (e ∷ l)
    → IsNewest e l
    → filled e.event_id ≡ true
    → validate_event e ≡ true
    → materialize (dedupe_events l) ≡ some s
    → materialize (dedupe_events (e ∷ l)) ≡ fold_event s e
unfolding materialize
materialize_newest e l s one newest named valid before =
    ap (fold_all (some [])) (sort_events-snoc e l one newest named)
    ∙ fold_all-snoc (some []) (sort_events (dedupe_events l)) e
    ∙ ap (λ acc. fold_valid acc e) before
    ∙ applied
  where
    applied : fold_valid (some s) e ≡ fold_event s e
    applied = rw (valid, fold_valid)

-- An event of a task that is there changes that task only.
pub fold_event-found :
    (s : State) (e : TaskEvent) (t : Task)
    → find e.task_ref s ≡ some t
    → fold_event s e ≡ some (store e.task_ref (update_task e t) s)
unfolding fold_event or_new
fold_event-found s e t there = rw there
