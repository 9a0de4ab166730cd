-- ===== src/TaskCli/Keys.antt =====
-- The keys of a server event and the equality of events by which a repeated one is told, of
-- backend/shared/canon_backend_shared/tasks.py.
use mathlib.Core.Option.{some-injective, none-ne-some}
use canon_systems.Base.{String, ◌≡◌, ap, true, Option, none, some, arith, eq_iff}
use canon_systems.Base.Text.{strip}
use canon_systems.TaskPlane.{
  ServerEvent, sanitize_segment, build_tasks_pk, build_task_event_sk, event_keys, key_pair,
  events_equivalent,
}

-- Equivalent events are one event.
pub equivalent-eq : (a b : ServerEvent) → events_equivalent a b ≡ true → a ≡ b
unfolding events_equivalent
equivalent-eq a b h = ground (
  arith,
  eq_iff a.event_id b.event_id,
  eq_iff a.event_type b.event_type,
  eq_iff a.task_ref b.task_ref,
  eq_iff a.timestamp b.timestamp,
  eq_iff a.actor_id b.actor_id,
  eq_iff a.company_id b.company_id,
  eq_iff a.payload b.payload,
)

key_pair-first :
    (pk sk : Option String) (k : String × String) → key_pair pk sk ≡ some k → pk ≡ some k.0
key_pair-first none sk k h = absurd (none-ne-some k h)
key_pair-first (some p) none k h = absurd (none-ne-some k h)
key_pair-first (some p) (some s) k h =
    ap (λ (q : String × String). some q.0) (some-injective (p, s) k h)

pub event_keys-pk :
    (e : ServerEvent) (k : String × String)
    → event_keys e ≡ some k
    → build_tasks_pk e.company_id ≡ some k.0
unfolding event_keys
event_keys-pk e k h =
    key_pair-first (build_tasks_pk e.company_id) (build_task_event_sk e.task_ref e.event_id) k h

-- The key of the partition depends on the company without the blanks around it.
pub build_tasks_pk-strip : (c d : String) → strip c ≡ strip d → build_tasks_pk c ≡ build_tasks_pk d
unfolding build_tasks_pk sanitize_segment
build_tasks_pk-strip c d h = rw h
