-- ===== src/Tasks/Totality.antt =====
-- The ways in which `materialize` of src/canon_systems/tasks.py ends.
use mathlib.Core.List.{Memᴰ}
use canon_systems.Base.{
  String, ◌≡◌, refl, inl, inr, true, Option, none, some, List, [], ◌∷◌, get_or, Bool-cases,
}
use canon_systems.Base.Order.{lex_order, text_order, mem-sort}
use canon_systems.Tasks.Events.{TaskEvent, normalize_scope, validate_event, sort_key, sort_events}
use canon_systems.Tasks.Fold.{
  Task, State, task_with_scope, new_task, or_new, update_task, find, store, fold_event, fold_valid,
  fold_all, materialize,
}
use canon_systems.Tasks.Streams.{fold_all-none}

-- The event's scope, or the default, is one of the three.
abbrev pub HasScope : TaskEvent → Type 0
HasScope e = (scope : String) × (normalize_scope (get_or e.scope "company") ≡ some scope)

or_new-some : (e : TaskEvent) (o : Option Task) → HasScope e → (t : Task) × (or_new e o ≡ some t)
unfolding or_new
or_new-some e none (scope, h) = (task_with_scope e scope, rw (h, new_task))
or_new-some e (some t) h = (t, refl)

fold_event-some :
    (s : State) (e : TaskEvent) → HasScope e → (s' : State) × (fold_event s e ≡ some s')
unfolding fold_event
fold_event-some s e h =
    let made = or_new-some e (find e.task_ref s) h in
    (store e.task_ref (update_task e made.0) s, rw (made.1))

fold_all-some :
    (s : State) (es : List TaskEvent)
    → ((e : TaskEvent) → Memᴰ e es → HasScope e)
    → (s' : State) × (fold_all (some s) es ≡ some s')
unfolding fold_all
fold_all-some s [] h = (s, refl)
fold_all-some s (e ∷ es) h = elim (Bool-cases (validate_event e)) [
  | inr skip ↦ rw (skip, fold_valid) (fold_all-some s es (λ x m. h x (Memᴰ.tail m)))
  | inl valid ↦
      let stepped = fold_event-some s e (h e (Memᴰ.head refl)) in
      rw (valid, stepped.1, fold_valid) (fold_all-some stepped.0 es (λ x m. h x (Memᴰ.tail m)))
]

-- A ledger whose events all carry a known scope, or none, materializes: malformed events among
-- them are skipped and stop nothing.
pub materialize_total :
    (events : List TaskEvent)
    → ((e : TaskEvent) → Memᴰ e events → HasScope e)
    → (s : State) × (materialize events ≡ some s)
unfolding materialize sort_events
materialize_total events h =
    fold_all-some [] (sort_events events)
      (λ e m. h e (mem-sort (lex_order text_order text_order) sort_key events m))

-- An event that passes validation, names a reference that is not in the state and carries an
-- unknown scope raises out of the whole fold: the state and all later events are lost.
pub unknown_scope_aborts :
    (s : State) (e : TaskEvent) (es : List TaskEvent)
    → validate_event e ≡ true
    → find e.task_ref s ≡ none
    → normalize_scope (get_or e.scope "company") ≡ none
    → fold_all (some s) (e ∷ es) ≡ none
unfolding fold_all fold_event
unknown_scope_aborts s e es valid unseen bad =
    rw (valid, unseen, or_new, new_task, bad, fold_valid) (fold_all-none es)
