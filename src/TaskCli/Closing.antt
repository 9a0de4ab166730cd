-- ===== src/TaskCli/Closing.antt =====
-- What `_cmd_status` and `_cmd_close` of src/canon_systems/tasks_cli.py leave in the view.
use mathlib.Core.Option.{some-injective}
use canon_systems.Base.{
  String, ◌≡◌, refl, sym, ap, ◌∙◌, inl, inr, Bool, true, false, some, List, [], ◌∷◌, str_eq,
  Bool-cases, eq_refl, if◌then◌else◌,
}
use canon_systems.Base.Text.{strip, str_lt, lower, dash_to_underscore}
use canon_systems.Tasks.Events.{
  Field, status, TaskEvent, event_updated, event_commented, normalize_status,
}
use canon_systems.Tasks.Fold.{
  Task, State, apply_field, apply_fields, add_comment, touch, update_task, find, store,
}
use canon_systems.Tasks.Streams.{find-store}
use canon_systems.Tasks.Make.{make_event, normalize_fields, normalize_field, keep_field}
use canon_systems.Tasks.Made.{make_event-updated}
use canon_systems.Tasks.Union.{IsOneEach}
use canon_systems.Tasks.Newest.{IsNewest}
use canon_systems.TaskCli.{
  Remote, World, Ctx, Stamp, exited, visible, combined_state, mutate, mutate_args,
}
use canon_systems.TaskCli.Commands.{cmd_status, cmd_close, close_status}
use canon_systems.TaskCli.Views.{IsAppendOnly}
use canon_systems.TaskCli.ReadBack.{mutate_read_back}

apply_field-status :
    (e : TaskEvent) (t : Task) (v : String)
    → ((apply_field e t (status v)).status_of ≡ v)
      × ((apply_field e t (status v)).comments ≡ t.comments)
unfolding apply_field
apply_field-status e t v = elim (Bool-cases (str_eq t.status_of v)) [
  | inl h ↦ rw (h, apply_field) (refl, refl)
  | inr h ↦ rw (h, apply_field) (refl, refl)
]

touch_keeps :
    (e : TaskEvent) (t : Task)
    → ((touch e t).status_of ≡ t.status_of) × ((touch e t).comments ≡ t.comments)
unfolding touch
touch_keeps e t = elim (Bool-cases (str_lt t.updated_at e.timestamp)) [
  | inl h ↦ rw (h, touch) (refl, refl)
  | inr h ↦ rw (h, touch) (refl, refl)
]

add_comment-updated :
    (e : TaskEvent) (t : Task) → str_eq e.event_type event_commented ≡ false → add_comment e t ≡ t
unfolding add_comment
add_comment-updated e t h = rw (h, add_comment) refl

-- An event that sets the status, and is no comment, sets it and leaves the comments.
update_task-status :
    (e : TaskEvent) (t : Task) (v : String)
    → str_eq e.event_type event_commented ≡ false
    → e.fields ≡ status v ∷ []
    → ((update_task e t).status_of ≡ v) × ((update_task e t).comments ≡ t.comments)
unfolding update_task apply_fields
update_task-status e t v h only =
    let inner = add_comment-updated e (apply_fields e t e.fields) h in
    let fields = ap (apply_fields e t) only in
    let touched = touch_keeps e (add_comment e (apply_fields e t e.fields)) in
    let whole = inner ∙ fields in
    (
      touched.0 ∙ ap (λ (x : Task). x.status_of) whole ∙ (apply_field-status e t v).0,
      touched.1 ∙ ap (λ (x : Task). x.comments) whole ∙ (apply_field-status e t v).1,
    )

normalize_fields-status :
    (v v' : String)
    → normalize_status v ≡ some v'
    → normalize_fields (status v ∷ []) ≡ some (status v' ∷ [])
unfolding normalize_fields normalize_field keep_field
normalize_fields-status v v' h = rw h

close_status-normal :
    (cancel : Bool) → normalize_status (close_status cancel) ≡ some (close_status cancel)
unfolding normalize_status dash_to_underscore lower strip
close_status-normal true = refl
close_status-normal false = refl

module _ (api : Remote) (configured : Bool) (ctx : Ctx) where
  -- The view has the task with this status, and its comments are those from before.
  abbrev pub ShowsStatus : World api → String → Task → String → Type 0
  ShowsStatus w ref t v =
      (s : State) × (t' : Task) × (combined_state api configured ctx w ≡ some s)
      × (find ref s ≡ some t')
      × (t'.status_of ≡ v)
      × (t'.comments ≡ t.comments)

  -- The facts under which a change of the task `t` is read back: the task is in the view, the event
  -- can be built, and it is newer than the events of the view.
  pub record IsChange (ref : String) (fields : List Field) (comment : String) (stamp : Stamp)
      (w : World api) (t : Task) : Type 0 where
    pub law : IsAppendOnly api w.server
    pub view : State
    pub event : TaskEvent
    pub plain : strip ref ≡ ref
    pub before : combined_state api configured ctx w ≡ some view
    pub there : find ref view ≡ some t
    pub made :
        make_event (mutate_args api configured ctx ref fields comment event_updated stamp)
        ≡ some event
    pub one : IsOneEach (event ∷ visible api configured ctx w)
    pub newest : IsNewest event (visible api configured ctx w)

  mutate-status :
      (ref v v' comment : String) (stamp : Stamp) (w : World api) (t : Task)
      → normalize_status v ≡ some v'
      → IsChange ref (status v ∷ []) comment stamp w t
      → ((mutate api configured ctx ref (status v ∷ []) comment event_updated stamp w).0 ≡ exited 0)
        × ShowsStatus
            (mutate api configured ctx ref (status v ∷ []) comment event_updated stamp w).1
            ref
            t
            v'
  mutate-status ref v v' comment stamp w t normal c =
      let (fs, ok, is_e, valid) =
        make_event-updated
          (mutate_args api configured ctx ref (status v ∷ []) comment event_updated stamp) c.event
          refl c.made in
      let only : c.event.fields ≡ status v' ∷ [] =
        ap (λ (x : TaskEvent). x.fields) is_e
        ∙ some-injective fs (status v' ∷ []) (sym ok ∙ normalize_fields-status v v' normal) in
      let updated : str_eq c.event.event_type event_commented ≡ false =
        ap (λ (x : TaskEvent). str_eq x.event_type event_commented) is_e in
      let (code, after) =
        mutate_read_back api configured ctx ref (status v ∷ []) comment event_updated stamp w c.law
          c.view t c.event refl c.plain c.before c.there c.made c.one c.newest in
      let (now, kept) = update_task-status c.event t v' updated only in
      (
        code,
        (
          store ref (update_task c.event t) c.view,
          update_task c.event t,
          after,
          find-store ref ref (update_task c.event t) c.view
              ∙ ap (λ b. if b then some (update_task c.event t) else find ref c.view) (eq_refl ref),
          now,
          kept,
        ),
      )

  -- Setting a status that is known exits with 0, and the view then has it.
  pub cmd_status-ShowsStatus :
      (ref v v' : String) (stamp : Stamp) (w : World api) (t : Task)
      → normalize_status v ≡ some v'
      → IsChange ref (status v ∷ []) "" stamp w t
      → ((cmd_status api configured ctx ref v stamp w).0 ≡ exited 0)
        × ShowsStatus (cmd_status api configured ctx ref v stamp w).1 ref t v'
  unfolding cmd_status
  cmd_status-ShowsStatus ref v v' stamp w t normal c = mutate-status ref v v' "" stamp w t normal c

  -- Closing a task exits with 0 and the view has it done or cancelled, but whatever comment is
  -- given with `--comment`, the comments of the task stay what they were.
  pub cmd_close_drops :
      (ref comment : String) (cancel : Bool) (stamp : Stamp) (w : World api) (t : Task)
      → IsChange ref (status (close_status cancel) ∷ []) comment stamp w t
      → ((cmd_close api configured ctx ref cancel comment stamp w).0 ≡ exited 0)
        × ShowsStatus
            (cmd_close api configured ctx ref cancel comment stamp w).1
            ref
            t
            (close_status cancel)
  unfolding cmd_close
  cmd_close_drops ref comment cancel stamp w t c =
      mutate-status ref (close_status cancel) (close_status cancel) comment stamp w t
        (close_status-normal cancel) c
