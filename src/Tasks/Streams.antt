-- ===== src/Tasks/Streams.antt =====
-- `materialize` of src/canon_systems/tasks.py against one stream of events per task.
use mathlib.Core.List.{Permᴰ}
use canon_systems.Base.{
  String, ◌≡◌, refl, sym, ap, ◌∙◌, inl, inr, Bool, true, false, ◌&&◌, Option, none, some, List, [],
  ◌∷◌, arith, str_eq, eq_iff, Bool-cases, Option-cases, if◌then◌else◌,
}
use canon_systems.Base.Order.{lex_order, text_order, IsConsistent, sort_perm}
use canon_systems.Tasks.Events.{TaskEvent, validate_event, sort_key, sort_events}
use canon_systems.Tasks.Fold.{
  Task, State, or_new, update_task, find, store, fold_event, fold_valid, fold_all, materialize,
}

-- Two ledgers with the same events, in any order, materialize to the same tasks, where events of
-- one timestamp and one id are one event.
pub materialize_perm :
    (l m : List TaskEvent)
    → IsConsistent (lex_order text_order text_order) sort_key l
    → Permᴰ l m
    → materialize l ≡ materialize m
unfolding materialize sort_events
materialize_perm l m c p =
    ap (fold_all (some [])) (sort_perm (lex_order text_order text_order) sort_key c p)

-- The valid events of one reference, in their order.
unfoldable pub stream : String → List TaskEvent → List TaskEvent
stream ref [] = []
stream ref (e ∷ es) =
    let rest = stream ref es in if validate_event e && str_eq e.task_ref ref then e ∷ rest else rest

abbrev pub played : TaskEvent → Option Task → Option Task
played e none = none
played e (some t) = some (update_task e t)

abbrev pub play_one : Option Task → TaskEvent → Option Task
play_one acc e = played e (or_new e acc)

-- The events of one task, played on it.
unfoldable pub play : Option Task → List TaskEvent → Option Task
play acc [] = acc
play acc (e ∷ es) = play (play_one acc e) es

pub find-store :
    (r ref : String) (t : Task) (s : State)
    → find ref (store r t s) ≡ (if str_eq r ref then some t else find ref s)
unfolding find store
find-store r ref t [] = refl
find-store r ref t ((q, u) ∷ s) =
    ground (arith, eq_iff q r, eq_iff q ref, eq_iff r ref, find-store r ref t s)

-- A successful step plays the event on its own task and leaves the others.
find-fold_event :
    (s s' : State) (e : TaskEvent) (ref : String)
    → fold_event s e ≡ some s'
    → find ref s' ≡ (if str_eq e.task_ref ref then play_one (find ref s) e else find ref s)
unfolding fold_event
find-fold_event s s' e ref ok = elim (Option-cases (or_new e (find e.task_ref s))) [
  | inl bad ↦ cc (rw (bad, fold_event) at ok)
  | inr (t, made) ↦
      let stored : store e.task_ref (update_task e t) s ≡ s' = cc (rw (made, fold_event) at ok) in
      ap (find ref) (sym stored)
      ∙ find-store e.task_ref ref (update_task e t) s
      ∙ by_ref (str_eq e.task_ref ref) refl t made
]
  where
    by_ref :
        (b : Bool)
        → str_eq e.task_ref ref ≡ b
        → (t : Task) → or_new e (find e.task_ref s) ≡ some t
        → (if b then some (update_task e t) else find ref s)
          ≡ (if b then play_one (find ref s) e else find ref s)
    by_ref false q t made = refl
    by_ref true q t made = rw (← (eq_iff e.task_ref ref).0 q, made)

pub fold_all-none : (es : List TaskEvent) → fold_all none es ≡ none
unfolding fold_all
fold_all-none [] = refl
fold_all-none (e ∷ es) = elim (Bool-cases (validate_event e)) [
  | inl v ↦ rw v (fold_all-none es)
  | inr v ↦ rw v (fold_all-none es)
]

find-fold_all :
    (s s' : State) (es : List TaskEvent) (ref : String)
    → fold_all (some s) es ≡ some s'
    → find ref s' ≡ play (find ref s) (stream ref es)
unfolding fold_all stream play
find-fold_all s s' [] ref ok = ap (find ref) (cc ok)
find-fold_all s s' (e ∷ es) ref ok = elim (Bool-cases (validate_event e)) [
  | inr skip ↦ rw skip (find-fold_all s s' es ref (rw (skip, fold_all, fold_valid) at ok))
  | inl valid ↦ elim (Option-cases (fold_event s e)) [
    | inl bad ↦ cc (rw (valid, bad, fold_all, fold_valid) at ok, fold_all-none es)
    | inr (s1, stepped) ↦ rw valid (
        find-fold_all s1 s' es ref (rw (valid, stepped, fold_all, fold_valid) at ok)
        ∙ ap (λ (o : Option Task). play o (stream ref es)) (find-fold_event s s1 e ref stepped)
        ∙ by_ref (str_eq e.task_ref ref))
  ]
]
  where
    by_ref :
        (b : Bool)
        → play (if b then play_one (find ref s) e else find ref s) (stream ref es)
          ≡ play (find ref s) (if b then e ∷ stream ref es else stream ref es)
    by_ref true = refl
    by_ref false = refl

-- Whenever a ledger materializes, the task of a reference is the play of that reference's own
-- valid events in the order of the sorted stream: no other task's event changes it.
pub find-materialize :
    (events : List TaskEvent) (s : State) (ref : String)
    → materialize events ≡ some s
    → find ref s ≡ play none (stream ref (sort_events events))
unfolding materialize find
find-materialize events s ref ok = find-fold_all [] s (sort_events events) ref ok
