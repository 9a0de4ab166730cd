-- ===== src/TaskPlane.antt =====
-- The server-side task plane: backend/shared/canon_backend_shared/tasks.py and the POST route of
-- backend/state-api/state_api/tasks.py with `TasksStore` of storage.py.
--
-- A `TaskValidationError` is `none`. An event's required entries are texts, and `payload` is the
-- JSON text of all its other entries; the comparison of two JSON dumps with sorted keys is then the
-- comparison of these texts. The table is a parameter, the record `EventTable`.
pub mod Keys
pub mod Writes
pub mod Listing
pub mod Reads
mod Tests
use Prim.Native.Char.{Char, code}
use Prim.Native.String.{◌∷◌, [], ◌++◌ as text_append}
use canon_systems.Base.{
  ℕ, String, ◌≡◌, ◌≢◌, ◌⊎◌, Bool, true, false, not, ◌&&◌, ◌||◌, Option, none, some, eqb, str_eq,
  if◌then◌else◌,
}
use canon_systems.Base.Text.{strip}
use canon_systems.Dynamo.{Key}
use canon_systems.Dynamo.Expressions.{
  PutCondition, pk_not_exists, sk_not_exists, and_also, Put, stored, condition_failed, failed,
  PutLaw,
}

pub record ServerEvent : Type 0 where
  pub event_id : String
  pub event_type : String
  pub task_ref : String
  pub timestamp : String
  pub actor_id : String
  pub company_id : String
  pub payload : String

-- The characters `#`, `|`, `\` and `/`.
abbrev pub is_forbidden : Char → Bool
is_forbidden c = eqb (code c) 35 || (eqb (code c) 124 || (eqb (code c) 92 || eqb (code c) 47))

unfoldable pub any_forbidden : String → Bool
any_forbidden [] = false
any_forbidden (c ∷ s) = is_forbidden c || any_forbidden s

abbrev pub checked : String → Option String
checked s = if str_eq s "" then none else if any_forbidden s then none else some s

unfoldable pub sanitize_segment : String → Option String
unfolding any_forbidden
sanitize_segment value = checked (strip value)

-- `a#b`
abbrev pub hashed : String → String → String
hashed a b = text_append a (text_append "#" b)

abbrev pub pk_of : Option String → Option String
pk_of none = none
pk_of (some c) = some (hashed c "tasks")

unfoldable pub build_tasks_pk : String → Option String
unfolding sanitize_segment
build_tasks_pk company_id = pk_of (sanitize_segment company_id)

abbrev pub sk_of : Option String → Option String → Option String
sk_of none e = none
sk_of (some t) none = none
sk_of (some t) (some e) = some (hashed t (hashed "evt" e))

unfoldable pub build_task_event_sk : String → String → Option String
unfolding sanitize_segment
build_task_event_sk task_ref event_id =
    sk_of (sanitize_segment task_ref) (sanitize_segment event_id)

abbrev pub key_pair : Option String → Option String → Option (String × String)
key_pair none sk = none
key_pair (some pk) none = none
key_pair (some pk) (some sk) = some (pk, sk)

unfoldable pub event_keys : ServerEvent → Option (String × String)
unfolding build_tasks_pk build_task_event_sk
event_keys e = key_pair (build_tasks_pk e.company_id) (build_task_event_sk e.task_ref e.event_id)

abbrev pub blank : String → Bool
blank s = str_eq (strip s) ""

abbrev pub is_some {ℓ} : {A : Type ℓ} → Option A → Bool
is_some none = false
is_some (some a) = true

-- Whether `validate_task_event` returns; it returns the event as it is.
unfoldable pub validate_task_event : ServerEvent → Bool
unfolding sanitize_segment
validate_task_event e =
    if blank e.event_id
      || blank e.event_type
      || blank e.task_ref
      || blank e.timestamp
      || blank e.actor_id
      || blank e.company_id
    then false
    else if not (
        str_eq e.event_type "task_created"
        || str_eq e.event_type "task_updated"
        || str_eq e.event_type "task_commented")
    then false
    else is_some (sanitize_segment e.company_id)
      && is_some (sanitize_segment e.task_ref)
      && is_some (sanitize_segment e.event_id)

unfoldable pub events_equivalent : ServerEvent → ServerEvent → Bool
events_equivalent a b =
    str_eq a.event_id b.event_id
    && str_eq a.event_type b.event_type
    && str_eq a.task_ref b.task_ref
    && str_eq a.timestamp b.timestamp
    && str_eq a.actor_id b.actor_id
    && str_eq a.company_id b.company_id
    && str_eq a.payload b.payload

-- The table: `put_item` with a condition.
pub record EventTable : Type 1 where
  pub Table : Type 0
  pub get : Table → Key → Option ServerEvent
  pub put_item : Table → Key → PutCondition → ServerEvent → Put Table
  pub put_law : PutLaw Table ServerEvent get put_item

module _ (db : EventTable) where
  open db use {Table, put_item}

  -- `attribute_not_exists(pk) AND attribute_not_exists(sk)`
  unfoldable pub put_event_if_absent : Table → Key → ServerEvent → Put Table
  put_event_if_absent t k item = put_item t k (and_also pk_not_exists sk_not_exists) item

-- The answers of the POST route: created, an idempotent repetition, a 400, a 409, or an exception.
pub data Posted : Type 0 where
  created idempotent : ServerEvent → Posted
  invalid conflicting : Posted
  crashed : String → Posted

module _ (db : EventTable) where
  open db use {Table, get}

  -- After a failed condition: the row that is read again.
  unfoldable pub on_existing : ServerEvent → Option ServerEvent → Posted
  unfolding events_equivalent
  on_existing e none = conflicting
  on_existing e (some old) = if events_equivalent old e then idempotent old else conflicting

  unfoldable pub finish_post : Table → String × String → ServerEvent → Put Table → Posted × Table
  unfolding on_existing
  finish_post t k e (stored t') = (created e, t')
  finish_post t k e condition_failed = (on_existing e (get t k), t)
  finish_post t k e (failed code) = (crashed code, t)

  unfoldable pub post_at : Table → ServerEvent → Option (String × String) → Posted × Table
  unfolding finish_post put_event_if_absent
  post_at t e none = (invalid, t)
  post_at t e (some k) = finish_post t k e (put_event_if_absent db t k e)

  unfoldable pub post_task_event : Table → ServerEvent → Posted × Table
  unfolding validate_task_event event_keys post_at
  post_task_event t e = if validate_task_event e then post_at t e (event_keys e) else (invalid, t)
