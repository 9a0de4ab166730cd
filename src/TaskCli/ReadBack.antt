-- ===== src/TaskCli/ReadBack.antt =====
-- After a change, the view that `_combined_state` of src/canon_systems/tasks_cli.py gives.
use canon_systems.Base.{
  String, ◌≡◌, ◌≢◌, refl, ap, ◌∙◌, ◌⊎◌, inl, inr, Bool, true, false, Option, none, some, List, ◌∷◌,
  arith, str_eq,
}
use canon_systems.Base.Text.{strip}
use canon_systems.Tasks.Events.{Field, TaskEvent, event_created, filled, validate_event}
use canon_systems.Tasks.Fold.{Task, State, update_task, find, store, fold_event, materialize}
use canon_systems.Tasks.Make.{make_event}
use canon_systems.Tasks.Made.{make_event-updated}
use canon_systems.Tasks.Union.{IsOneEach, SameEvents, dedupe_events_ext}
use canon_systems.Tasks.Newest.{IsNewest, materialize_newest, fold_event-found}
use canon_systems.TaskCli.{
  Remote, World, Ctx, Stamp, Exit, exited, Ledger, Found, fold_error, not_found, found,
  ledger_for_scope, visible, combined_state, find_ledger_with_task, record_event, mutate,
  mutate_args, mutate_found, record_made,
}
use canon_systems.TaskCli.Views.{
  IsAppendOnly, visible-record_event, files, appended, record_event-files,
}

filled-event_id : (e : TaskEvent) → validate_event e ≡ true → filled e.event_id ≡ true
unfolding validate_event
filled-event_id e h = ground arith

IsOneEach-same : (l m : List TaskEvent) → SameEvents l m → IsOneEach m → IsOneEach l
IsOneEach-same l m (to, from) one e f a b = one e f (to e a) (to f b)

module _ (api : Remote) (configured : Bool) (ctx : Ctx) where
  -- The view after a recorded event that is newer than all others.
  combined_state-record_event :
      (e : TaskEvent) (ledger : Ledger) (w : World api) (s : State)
      → IsAppendOnly api w.server
      → IsOneEach (e ∷ visible api configured ctx w)
      → IsNewest e (visible api configured ctx w)
      → validate_event e ≡ true
      → combined_state api configured ctx w ≡ some s
      → combined_state api configured ctx (record_event api configured ctx e ledger w).1
        ≡ fold_event s e
  unfolding combined_state
  combined_state-record_event e ledger w s law one newest valid before =
      let same = visible-record_event api configured ctx e ledger w law in
      ap materialize (
        dedupe_events_ext _ (e ∷ visible api configured ctx w) (IsOneEach-same _ _ same one) one
          same)
      ∙ materialize_newest e (visible api configured ctx w) s one newest (filled-event_id e valid)
          valid before

  -- A change of a task that is in the view exits with 0, and the view after it is the view before
  -- with the event applied to this task, where the event is newer than all others and the server, if
  -- there is one, can still answer all of the company's events.
  pub mutate_read_back :
      (ref : String) (fields : List Field) (comment event_type : String) (stamp : Stamp)
      (w : World api)
      → IsAppendOnly api w.server
      → (s : State) (t : Task) (e : TaskEvent) → str_eq event_type event_created ≡ false
      → strip ref ≡ ref
      → combined_state api configured ctx w ≡ some s
      → find ref s ≡ some t
      → make_event (mutate_args api configured ctx ref fields comment event_type stamp) ≡ some e
      → IsOneEach (e ∷ visible api configured ctx w)
      → IsNewest e (visible api configured ctx w)
      → ((mutate api configured ctx ref fields comment event_type stamp w).0 ≡ exited 0)
        × (combined_state api configured ctx
              (mutate api configured ctx ref fields comment event_type stamp w).1
            ≡ some (store ref (update_task e t) s))
  unfolding mutate find_ledger_with_task
  mutate_read_back ref fields comment event_type stamp w law s t e other plain before there made one
        newest =
      let (fs, ok, is_e, valid) =
        make_event-updated (mutate_args api configured ctx ref fields comment event_type stamp) e
          other made in
      let same_ref : e.task_ref ≡ ref = ap (λ (x : TaskEvent). x.task_ref) is_e ∙ plain in
      let after =
        combined_state-record_event e (ledger_for_scope t.scope) w s law one newest valid before in
      let folded = fold_event-found s e t (ap (λ r. find r s) same_ref ∙ there) in
      rw (before, there, made)
        (refl, after ∙ folded ∙ ap (λ r. some (store r (update_task e t) s)) same_ref)

  -- What a change leaves in the files: the built event more, or, where the command does not exit
  -- with 0, the whole world as it was.
  abbrev pub IsLocalFirst :
      String → List Field → String → String → Stamp → World api → Exit × World api → Type 0
  IsLocalFirst ref fields comment event_type stamp w (code, w') =
      ((code ≡ exited 0)
        × ((e : TaskEvent) × (ledger : Ledger) × (make_event
                (mutate_args api configured ctx ref fields comment event_type stamp)
              ≡ some e)
            × (files api configured ctx w'
                ≡ appended api configured ctx ledger e (files api configured ctx w))))
      ⊎ ((code ≢ exited 0) × (w' ≡ w))

  record_made-IsLocalFirst :
      (ref : String) (fields : List Field) (comment event_type : String) (stamp : Stamp)
      (ledger : Ledger) (w : World api) (made : Option TaskEvent)
      → make_event (mutate_args api configured ctx ref fields comment event_type stamp) ≡ made
      → IsLocalFirst ref fields comment event_type stamp w
          (record_made api configured ctx ledger made w)
  record_made-IsLocalFirst ref fields comment event_type stamp ledger w none h =
      inr (λ p. ground arith, refl)
  record_made-IsLocalFirst ref fields comment event_type stamp ledger w (some e) h =
      inl (refl, (e, ledger, h, record_event-files api configured ctx e ledger w))

  -- A change that exits with 0 has put its event into one of the two files, whatever the server
  -- answered, and one that does not has changed nothing, neither the files nor the server.
  pub mutate-IsLocalFirst :
      (ref : String) (fields : List Field) (comment event_type : String) (stamp : Stamp)
      (w : World api)
      → IsLocalFirst ref fields comment event_type stamp w
          (mutate api configured ctx ref fields comment event_type stamp w)
  unfolding mutate
  mutate-IsLocalFirst ref fields comment event_type stamp w =
      by_found (find_ledger_with_task api configured ctx ref w)
    where
      by_found :
          (f : Found)
          → IsLocalFirst ref fields comment event_type stamp w (
              mutate_found api configured ctx f
                (mutate_args api configured ctx ref fields comment event_type stamp)
                w)
      by_found fold_error = inr (λ p. ground arith, refl)
      by_found not_found = inr (λ p. ground arith, refl)
      by_found (found ledger t) =
          record_made-IsLocalFirst ref fields comment event_type stamp ledger w _ refl
