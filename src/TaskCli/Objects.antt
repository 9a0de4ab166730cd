-- ===== src/TaskCli/Objects.antt =====
-- What `_cmd_sync` of src/canon_systems/tasks_cli.py does to the object in the bucket.
use mathlib.Core.List.{Memᴰ}
use canon_systems.Base.{
  ◌≡◌, refl, ap, inl, inr, true, false, some, List, [], ◌++◌, subst, if◌then◌else◌,
}
use canon_systems.Base.Strict.{mem_append}
use canon_systems.Tasks.Events.{TaskEvent}
use canon_systems.Tasks.Merged.{IsMerge, dedupe_events-IsMerge}
use canon_systems.TaskCli.{Remote, World, Ctx}
use canon_systems.TaskCli.Sync.{Bucket, object_events, merged_with, put_object, sync_bucket}

module _ (api : Remote) (ctx : Ctx) where
  -- The file and the object after a synchronization that can write the object.
  synced :
      (b : Bucket) (w : World api)
      → b.client ≡ true
      → b.writable ≡ true
      → sync_bucket api ctx false (some b) w ≡ (
        record w { company_ledger = merged_with api ctx b w },
        some (record b { object = merged_with api ctx b w }),
      )
  unfolding sync_bucket put_object
  synced b w client writable = rw (client, writable) refl

  -- Where the object can be read and written, the file and the object become one union of what both
  -- held: an event for each id, and no event of another origin.
  pub sync_bucket_union :
      (b : Bucket) (w : World api)
      → b.client ≡ true
      → b.writable ≡ true
      → b.readable ≡ true
      → (m : List TaskEvent) × (sync_bucket api ctx false (some b) w
          ≡ (record w { company_ledger = m }, some (record b { object = m })))
        × IsMerge (w.company_ledger ++ b.object) m
  unfolding merged_with
  sync_bucket_union b w client writable readable = (
    merged_with api ctx b w,
    synced b w client writable,
    subst (λ l. IsMerge (w.company_ledger ++ l) (merged_with api ctx b w))
        (ap (λ r. if r then b.object else []) readable)
        (dedupe_events-IsMerge (w.company_ledger ++ object_events api ctx b)),
  )

  -- Where the object cannot be read at the moment but can be written, it is replaced: an event that
  -- only the object held is gone from it, and from the file of this client too.
  pub sync_bucket_loses :
      (b : Bucket) (w : World api) (e : TaskEvent)
      → b.client ≡ true
      → b.writable ≡ true
      → b.readable ≡ false
      → Memᴰ e b.object
      → ¬ Memᴰ e w.company_ledger
      → (m : List TaskEvent) × (sync_bucket api ctx false (some b) w
          ≡ (record w { company_ledger = m }, some (record b { object = m })))
        × (¬ Memᴰ e m)
  unfolding merged_with
  sync_bucket_loses b w e client writable unreadable there absent = (
    merged_with api ctx b w,
    synced b w client writable,
    λ m.
        elim (mem_append w.company_ledger (object_events api ctx b)
          ((dedupe_events-IsMerge (w.company_ledger ++ object_events api ctx b)).sound e m)) [
            | inl n ↦ absent n
            | inr n ↦ elim (subst (λ r. Memᴰ e (if r then b.object else [])) unreadable n) [ ]
          ],
  )
