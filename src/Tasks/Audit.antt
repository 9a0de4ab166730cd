-- ===== src/Tasks/Audit.antt =====
-- The history and `updated_at` of a task under `fold_event` of src/canon_systems/tasks.py.
use mathlib.Core.List.{Memᴰ}
use canon_systems.Base.{
  ◌<◌, String, ◌≡◌, refl, sym, ◌∙◌, ◌⊎◌, inl, inr, false, some, List, [], ◌∷◌, arith, str_eq,
  eq_iff, length, length-append, Bool-cases, if◌then◌else◌,
}
use canon_systems.Base.Text.{str_lt}
use canon_systems.Base.Order.{text_order, le_trans, str_asym}
use canon_systems.Tasks.Events.{Field, status, branch, deployment, TaskEvent}
use canon_systems.Tasks.Fold.{
  Task, or_new, update_task, apply_field, apply_fields, add_comment, touch,
}
use canon_systems.Tasks.Streams.{play}

-- The history grew, or status, branch and deployment are what they were.
abbrev pub IsAudited : Task → Task → Type 0
IsAudited t t' =
    (length t.history < length t'.history)
    ⊎ ((length t'.history ≡ length t.history)
        × (t'.status_of ≡ t.status_of)
        × (t'.branch_of ≡ t.branch_of)
        × (t'.deployment_of ≡ t.deployment_of))

IsAudited-refl : (t : Task) → IsAudited t t
IsAudited-refl t = inr (refl, refl, refl, refl)

IsAudited-trans : (a b c : Task) → IsAudited a b → IsAudited b c → IsAudited a c
IsAudited-trans a b c h k = ground arith

apply_field-IsAudited : (e : TaskEvent) (t : Task) (f : Field) → IsAudited t (apply_field e t f)
unfolding apply_field
apply_field-IsAudited e t (status v) = elim (Bool-cases (str_eq t.status_of v)) [
  | inl same ↦ rw same (inr (refl, sym ((eq_iff t.status_of v).0 same), refl, refl))
  | inr differ ↦ rw differ (inl (omega (arith, length-append {0})))
]
apply_field-IsAudited e t (branch v) = elim (Bool-cases (str_eq t.branch_of v)) [
  | inl same ↦ rw same (inr (refl, refl, sym ((eq_iff t.branch_of v).0 same), refl))
  | inr differ ↦ rw differ (inl (omega (arith, length-append {0})))
]
apply_field-IsAudited e t (deployment v) = elim (Bool-cases (str_eq t.deployment_of v)) [
  | inl same ↦ rw same (inr (refl, refl, refl, sym ((eq_iff t.deployment_of v).0 same)))
  | inr differ ↦ rw differ (inl (omega (arith, length-append {0})))
]
apply_field-IsAudited e t _ = inr (refl, refl, refl, refl)

apply_fields-IsAudited :
    (e : TaskEvent) (t : Task) (fs : List Field) → IsAudited t (apply_fields e t fs)
unfolding apply_fields
apply_fields-IsAudited e t [] = IsAudited-refl t
apply_fields-IsAudited e t (f ∷ fs) =
    IsAudited-trans t (apply_field e t f) (apply_fields e (apply_field e t f) fs)
      (apply_field-IsAudited e t f) (apply_fields-IsAudited e (apply_field e t f) fs)

add_comment-IsAudited : (e : TaskEvent) (t : Task) → IsAudited t (add_comment e t)
unfolding add_comment
add_comment-IsAudited e t = ground arith

touch-IsAudited : (e : TaskEvent) (t : Task) → IsAudited t (touch e t)
unfolding touch
touch-IsAudited e t = ground arith

update_task-IsAudited : (e : TaskEvent) (t : Task) → IsAudited t (update_task e t)
unfolding update_task
update_task-IsAudited e t =
    let t1 = apply_fields e t e.fields in
    let t2 = add_comment e t1 in
    IsAudited-trans t t1 (touch e t2) (apply_fields-IsAudited e t e.fields)
      (IsAudited-trans t1 t2 (touch e t2) (add_comment-IsAudited e t1) (touch-IsAudited e t2))

-- However many events are played on a task, its status, branch and deployment are unchanged
-- unless its history has grown: no such change goes unrecorded.
pub play-IsAudited :
    (t : Task) (es : List TaskEvent) (t' : Task) → play (some t) es ≡ some t' → IsAudited t t'
unfolding play or_new
play-IsAudited t [] t' ok = let e : t ≡ t' = cc ok in rw (← e) (IsAudited-refl t)
play-IsAudited t (e ∷ es) t' ok =
    IsAudited-trans t (update_task e t) t' (update_task-IsAudited e t)
      (play-IsAudited (update_task e t) es t' ok)

-- `a` is not after `b`.
abbrev pub NotAfter : String → String → Type 0
NotAfter a b = str_lt b a ≡ false

NotAfter-refl : (a : String) → NotAfter a a
NotAfter-refl a = elim (Bool-cases (str_lt a a)) [ inl h ↦ str_asym a a h | inr h ↦ h ]

apply_fields-updated_at :
    (e : TaskEvent) (t : Task) (fs : List Field) → (apply_fields e t fs).updated_at ≡ t.updated_at
unfolding apply_fields
apply_fields-updated_at e t [] = refl
apply_fields-updated_at e t (f ∷ fs) = apply_fields-updated_at e (apply_field e t f) fs ∙ one e t f
  where
    one : (e : TaskEvent) (t : Task) (f : Field) → (apply_field e t f).updated_at ≡ t.updated_at
    one e t (status v) = ground arith
    one e t (branch v) = ground arith
    one e t (deployment v) = ground arith
    one e t _ = refl

updated_at-update_task :
    (e : TaskEvent) (t : Task)
    → (update_task e t).updated_at
      ≡ (if str_lt t.updated_at e.timestamp then e.timestamp else t.updated_at)
unfolding update_task add_comment touch
updated_at-update_task e t = ground (arith, apply_fields-updated_at e t e.fields)

NotAfter-update_task :
    (e : TaskEvent) (t : Task)
    → NotAfter t.updated_at (update_task e t).updated_at
      × NotAfter e.timestamp (update_task e t).updated_at
NotAfter-update_task e t = elim (Bool-cases (str_lt t.updated_at e.timestamp)) [
  | inl later ↦
      let now : (update_task e t).updated_at ≡ e.timestamp =
        updated_at-update_task e t ∙ rw later refl in
      rw now (str_asym t.updated_at e.timestamp later, NotAfter-refl e.timestamp)
  | inr earlier ↦
      let now : (update_task e t).updated_at ≡ t.updated_at =
        updated_at-update_task e t ∙ rw earlier refl in
      rw now (NotAfter-refl t.updated_at, earlier)
]

-- After any play the task's `updated_at` is not before what it was, nor before the timestamp of
-- any event that was played.
pub play-NotAfter :
    (t : Task) (es : List TaskEvent) (t' : Task)
    → play (some t) es ≡ some t'
    → NotAfter t.updated_at t'.updated_at
      × ((e : TaskEvent) → Memᴰ e es → NotAfter e.timestamp t'.updated_at)
unfolding play or_new
play-NotAfter t [] t' ok =
    let e : t ≡ t' = cc ok in (rw (← e) (NotAfter-refl t.updated_at), λ e m. elim m [ ])
play-NotAfter t (e ∷ es) t' ok =
    let step = NotAfter-update_task e t in
    let rest = play-NotAfter (update_task e t) es t' ok in
    (
      le_trans text_order t.updated_at (update_task e t).updated_at t'.updated_at step.0 rest.0,
      λ x m. member x m step.1 rest.0 rest.1,
    )
  where
    member :
        (x : TaskEvent)
        → Memᴰ x (e ∷ es)
        → NotAfter e.timestamp (update_task e t).updated_at
        → NotAfter (update_task e t).updated_at t'.updated_at
        → ((y : TaskEvent) → Memᴰ y es → NotAfter y.timestamp t'.updated_at)
        → NotAfter x.timestamp t'.updated_at
    member x (Memᴰ.head same) h k rest =
        rw same (le_trans text_order e.timestamp (update_task e t).updated_at t'.updated_at h k)
    member x (Memᴰ.tail m) h k rest = rest x m
