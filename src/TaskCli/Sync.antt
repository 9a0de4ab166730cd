-- ===== src/TaskCli/Sync.antt =====
-- `_cmd_sync` of src/canon_systems/tasks_cli.py: the push of the local events, the pull into the
-- ledger of the company, and the object in the bucket as the other way.
use canon_systems.Base.{
  Bool, true, not, ◌&&◌, Option, none, some, List, [], ◌∷◌, ◌++◌, if◌then◌else◌,
}
use canon_systems.Tasks.Events.{TaskEvent, filled}
use canon_systems.Tasks.Merge.{dedupe_events}
use canon_systems.TaskCli.{Remote, World, Ctx, Exit, exited, fetch_events, push_event}

-- The bucket: whether `boto3` and its client are there, the events in the object, and whether the
-- object can be read and written now.
pub record Bucket : Type 0 where
  pub client : Bool
  pub object : List TaskEvent
  pub readable : Bool
  pub writable : Bool

unfoldable pub with_company : Ctx → TaskEvent → TaskEvent
with_company ctx e = if filled e.company_id then e else record e { company_id = ctx.company_id }

module _ (api : Remote) (ctx : Ctx) where
  open api use {Server}

  -- The loop over the local events: whether every push was accepted, and the server after it.
  unfoldable pub push_all : List TaskEvent → Server → Bool × Server
  push_all [] s = (true, s)
  push_all (e ∷ es) s =
      let (pushed, s') = push_event api s (with_company ctx e) in
      let (others, t) = push_all es s' in (pushed && others, t)

  abbrev pub store_pulled : Option (List TaskEvent) → World api → World api
  store_pulled none w = w
  store_pulled (some es) w = record w { company_ledger = dedupe_events (w.company_ledger ++ es) }

  -- `scanned` is the ledgers of the other repositories, one after the other: `--scan-localwork`.
  unfoldable pub local_events : List TaskEvent → World api → List TaskEvent
  local_events scanned w = dedupe_events (w.repo_ledger ++ (w.company_ledger ++ scanned))

  unfoldable pub sync_server : List TaskEvent → World api → Bool × World api
  sync_server scanned w =
      let (pushed, s) = push_all (local_events scanned w) w.server in
      (pushed, store_pulled (fetch_events api s ctx.company_id) (record w { server = s }))

  -- An object that cannot be read counts as one without events.
  abbrev pub object_events : Bucket → List TaskEvent
  object_events b = if b.readable then b.object else []

  unfoldable pub merged_with : Bucket → World api → List TaskEvent
  merged_with b w = dedupe_events (w.company_ledger ++ object_events b)

  unfoldable pub put_object : Bool → Bucket → List TaskEvent → Bucket
  put_object pull_only b es = if not pull_only && b.writable then record b { object = es } else b

  unfoldable pub sync_bucket : Bool → Option Bucket → World api → World api × Option Bucket
  sync_bucket pull_only none w = (w, none)
  sync_bucket pull_only (some b) w =
      if b.client
      then (
        record w { company_ledger = merged_with b w },
        some (put_object pull_only b (merged_with b w)),
      )
      else (w, some b)

  -- Every way out of the command has the exit code 0.
  unfoldable pub cmd_sync :
      Bool → Bool → List TaskEvent → Option Bucket → World api → Exit × (World api × Option Bucket)
  cmd_sync configured pull_only scanned bucket w =
      if configured
      then (let (pushed, w') = sync_server scanned w in
          if pushed then (exited 0, (w', bucket)) else (exited 0, sync_bucket pull_only bucket w'))
      else (exited 0, sync_bucket pull_only bucket w)
