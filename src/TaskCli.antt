-- ===== src/TaskCli.antt =====
-- `canon task` of src/canon_systems/tasks_cli.py over src/canon_systems/tasks_remote.py: the ledgers
-- on disk, the combined view of them and the server, and the change of one task.
--
-- A ledger is the list of the events that `_read_ledger` gives. The clock and the new ids are
-- arguments, the record `Stamp`. The server is a parameter, the record `Remote`, and whether
-- `remote_base` finds its address is the argument `configured`. What is printed is left out.
-- `Commands` is the subcommands and `Sync` is `_cmd_sync`. The other children are proofs.
pub mod Commands
pub mod Sync
pub mod Views
pub mod ReadBack
pub mod Closing
pub mod Converge
pub mod Objects
pub mod Keys
pub mod Plane
mod Tests
mod SyncTests
use canon_systems.Base.{
  ℕ, String, Bool, true, false, ◌||◌, Option, none, some, List, [], ◌∷◌, ◌++◌, str_eq, eqb,
  if◌then◌else◌,
}
use canon_systems.Base.Text.{strip}
use canon_systems.Tasks.Events.{Field, TaskEvent, filled}
use canon_systems.Tasks.Fold.{Task, State, find, materialize}
use canon_systems.Tasks.Make.{EventArgs, make_event}
use canon_systems.Tasks.Merge.{dedupe_events}

-- What `_request` ends with: a status and the `events` of the answer where they are a list, an
-- `HTTPError` with its status, or another error of the transport.
pub data Response : Type 0 where
  answered : ℕ → Option (List TaskEvent) → Response
  http_error : ℕ → Response
  transport_error : Response

-- `POST /state/tasks/events` and `GET /state/tasks` for a company and a limit.
pub record Remote : Type 1 where
  pub Server : Type 0
  pub post : Server → TaskEvent → Response × Server
  pub get : Server → String → ℕ → Response

unfoldable pub push_ok : Response → Bool
push_ok (answered code events) = eqb code 200 || eqb code 201
push_ok (http_error code) = false
push_ok transport_error = false

unfoldable pub events_of : Response → Option (List TaskEvent)
events_of (answered code events) = if eqb code 200 then events else none
events_of (http_error code) = none
events_of transport_error = none

pub record Ctx : Type 0 where
  pub actor_id : String
  pub actor_display : String
  pub company_id : String
  pub repository_id : String

pub record Stamp : Type 0 where
  pub new_event_id : String
  pub now_iso : String

-- An entry of the memory log.
pub record Canonical : Type 0 where
  pub timestamp : String
  pub company_id : String
  pub repository_id : String
  pub actor_id : String
  pub task_ref : String
  pub task_event_type : String
  pub task_event_id : String
  pub scope : Option String

-- The exit code of a command, or a `TaskError` that leaves it.
pub data Exit : Type 0 where
  exited : ℕ → Exit
  raised : Exit

pub data Ledger : Type 0 where
  repo_file company_file : Ledger

unfoldable pub ledger_for_scope : String → Ledger
ledger_for_scope scope = if str_eq scope "repo" then repo_file else company_file

pub data Found : Type 0 where
  fold_error not_found : Found
  found : Ledger → Task → Found

abbrev pub or_else : String → String → String
or_else s default = if str_eq s "" then default else s

abbrev pub or_nothing : Option (List TaskEvent) → List TaskEvent
or_nothing none = []
or_nothing (some es) = es

abbrev pub found_task : Option Task → Found
found_task none = not_found
found_task (some t) = found (ledger_for_scope t.scope) t

abbrev pub found_in : String → Option State → Found
found_in ref none = fold_error
found_in ref (some s) = found_task (find ref s)

module _ (api : Remote) where
  open api use {Server, post, get}

  -- The files, and the server. `memory_writable` tells whether the memory log can be written.
  pub record World : Type 0 where
    pub repo_ledger : List TaskEvent
    pub company_ledger : List TaskEvent
    pub memory_log : List Canonical
    pub memory_writable : Bool
    pub server : Server

  unfoldable pub fetch_events : Server → String → Option (List TaskEvent)
  unfolding events_of
  fetch_events s company_id =
      if filled company_id then events_of (get s (strip company_id) 2000) else none

  unfoldable pub push_event : Server → TaskEvent → Bool × Server
  unfolding push_ok
  push_event s e = let (response, s') = post s e in (push_ok response, s')

module _ (api : Remote) (configured : Bool) (ctx : Ctx) where
  -- What the server adds to the view: nothing where it is not configured or cannot be reached.
  unfoldable pub remote_events : World api → Option (List TaskEvent)
  remote_events w = if configured then fetch_events api w.server ctx.company_id else none

  -- The streams of the view, one after the other.
  unfoldable pub visible : World api → List TaskEvent
  visible w = w.repo_ledger ++ (w.company_ledger ++ or_nothing (remote_events w))

  -- `none` is the `TaskError` that `materialize` may raise.
  unfoldable pub combined_state : World api → Option State
  combined_state w = materialize (dedupe_events (visible w))

  unfoldable pub find_ledger_with_task : String → World api → Found
  find_ledger_with_task ref w = found_in ref (combined_state w)

  unfoldable pub append_event : Ledger → TaskEvent → World api → World api
  append_event repo_file e w = record w { repo_ledger = w.repo_ledger ++ e ∷ [] }
  append_event company_file e w = record w { company_ledger = w.company_ledger ++ e ∷ [] }

  -- The mirror in the memory log; an `OSError` there is ignored.
  unfoldable pub emit_canonical_event : TaskEvent → World api → World api
  emit_canonical_event e w =
      if w.memory_writable
      then record w {
        memory_log =
            w.memory_log
            ++ record {
              timestamp = e.timestamp;
              company_id = or_else e.company_id ctx.company_id;
              repository_id = or_else e.repository_id ctx.repository_id;
              actor_id = e.actor_id;
              task_ref = e.task_ref;
              task_event_type = e.event_type;
              task_event_id = e.event_id;
              scope = e.scope;
            }
              ∷ [];
      }
      else w

  -- The push, and what it says; `none` where there is no server.
  unfoldable pub push_recorded : TaskEvent → World api → Option Bool × World api
  push_recorded e w =
      if configured
      then (let (pushed, s) = push_event api w.server e in (some pushed, record w { server = s }))
      else (none, w)

  unfoldable pub record_event : TaskEvent → Ledger → World api → Option Bool × World api
  record_event e ledger w = push_recorded e (emit_canonical_event e (append_event ledger e w))

  abbrev pub record_made : Ledger → Option TaskEvent → World api → Exit × World api
  record_made ledger none w = (exited 2, w)
  record_made ledger (some e) w = (exited 0, (record_event e ledger w).1)

  abbrev pub mutate_args : String → List Field → String → String → Stamp → EventArgs
  mutate_args ref fields comment event_type stamp = record {
    event_type = event_type;
    event_id = stamp.new_event_id;
    task_ref = ref;
    timestamp = stamp.now_iso;
    actor_id = ctx.actor_id;
    actor_display = ctx.actor_display;
    company_id = ctx.company_id;
    scope = "";
    repository_id = "";
    repositories_of = [];
    fields = fields;
    comment = comment;
  }

  abbrev pub mutate_found : Found → EventArgs → World api → Exit × World api
  mutate_found fold_error a w = (raised, w)
  mutate_found not_found a w = (exited 3, w)
  mutate_found (found ledger t) a w = record_made ledger (make_event a) w

  unfoldable pub mutate :
      String → List Field → String → String → Stamp → World api → Exit × World api
  mutate ref fields comment event_type stamp w =
      mutate_found (find_ledger_with_task ref w) (mutate_args ref fields comment event_type stamp) w
