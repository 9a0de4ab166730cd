-- ===== src/Resume/Watchdog.antt =====
-- `canon stall-watchdog scan` of src/canon_systems/stall_watchdog.py: the class of a probe, the
-- loop over the tasks and the exit code.
--
-- A probe's answer is an argument, and so is, for each task, whether a write of the event log
-- would succeed. Of an event the random ids and the constants are left out, and times stay epochs.
-- An expiry is a natural number; the time that remains of a stalled lease is minus `overdue`.
use Prim.Native.String.{◌++◌ as text_append}
use canon_systems.Base.{ℕ, suc, ◌-◌, String, Bool, List, [], ◌∷◌, ◌++◌, leb, eqb, if◌then◌else◌}
use canon_systems.Resume.Lanes.{Member, is_empty}

-- `int(lease.get("expires_at", 0))`: a missing key is 0, and some values are no integer.
pub data Expiry : Type 0 where
  at : ℕ → Expiry
  absent unreadable : Expiry

pub data ProbeBody : Type 0 where
  lease_object : Expiry → String → ProbeBody
  no_lease no_object : ProbeBody

pub record Stall : Type 0 where
  pub owner_agent_run_id : String
  pub expires_at : ℕ
  pub overdue : ℕ

pub data Probe : Type 0 where
  stalled : Stall → Probe
  live not_stalled : Probe
  degraded_probe : String → Probe

unfoldable pub classify_expiry : ℕ → String → ℕ → Probe
classify_expiry expires_at owner now_epoch =
    if leb expires_at now_epoch
    then stalled (record {
      owner_agent_run_id = owner;
      expires_at = expires_at;
      overdue = now_epoch - expires_at;
    })
    else live

abbrev pub classify_lease : ProbeBody → ℕ → Probe
unfolding classify_expiry
classify_lease (lease_object (at e) owner) now_epoch = classify_expiry e owner now_epoch
classify_lease (lease_object absent owner) now_epoch = classify_expiry 0 owner now_epoch
classify_lease (lease_object unreadable owner) now_epoch = not_stalled
classify_lease no_lease now_epoch = not_stalled
classify_lease no_object now_epoch = degraded_probe "http_200"

-- `shown` prints a status number.
unfoldable pub classify_probe : (ℕ → String) → ℕ → ProbeBody → ℕ → Probe
unfolding classify_expiry
classify_probe shown status body now_epoch =
    if eqb status 200
    then classify_lease body now_epoch
    else if eqb status 404
    then not_stalled
    else if eqb status 0
    then degraded_probe "transport"
    else degraded_probe (text_append "http_" (shown status))

pub record StallEvent : Type 0 where
  pub task_id : String
  pub workstream_id : String
  pub stale_owner_agent_run_id : String
  pub expires_at_epoch : ℕ
  pub observed_at_epoch : ℕ

unfoldable pub build_lease_stall_event : Member → Stall → ℕ → StallEvent
build_lease_stall_event t d now_epoch = record {
  task_id = t.task_id;
  workstream_id = t.workstream_id;
  stale_owner_agent_run_id = d.owner_agent_run_id;
  expires_at_epoch = d.expires_at;
  observed_at_epoch = now_epoch;
}

-- A task of the scan: its probe, and whether a write of the log for it succeeds.
pub record Visit : Type 0 where
  pub task : Member
  pub probe : Probe
  pub writable : Bool

pub record Degraded : Type 0 where
  pub task_id : String
  pub reason : String

-- The variables of the loop, and the event log.
pub record ScanState : Type 0 where
  pub stalls : ℕ
  pub events_emitted : ℕ
  pub degraded_tasks : List Degraded
  pub event_log : List StallEvent

abbrev pub add_degraded : ScanState → String → String → ScanState
add_degraded s task_id reason = record s {
  degraded_tasks = s.degraded_tasks ++ record { task_id = task_id; reason = reason } ∷ [];
}

-- `_emit_event` and the counting after it. A dry run writes to the standard error only.
unfoldable pub emit_event : Bool → Bool → String → StallEvent → ScanState → ScanState
emit_event dry_run writable task_id event s =
    if dry_run
    then s
    else if writable
    then record s { events_emitted = suc s.events_emitted; event_log = s.event_log ++ event ∷ [] }
    else add_degraded s task_id "event_log_write"

-- One round of the loop, by what the probe found.
unfoldable pub visit_probe : Bool → ℕ → Member → Bool → ScanState → Probe → ScanState
unfolding emit_event build_lease_stall_event
visit_probe dry_run now_epoch task writable s (stalled d) =
    emit_event dry_run writable task.task_id (build_lease_stall_event task d now_epoch)
      (record s { stalls = suc s.stalls })
visit_probe dry_run now_epoch task writable s (degraded_probe reason) =
    add_degraded s task.task_id reason
visit_probe dry_run now_epoch task writable s live = s
visit_probe dry_run now_epoch task writable s not_stalled = s

unfoldable pub scan_tasks : Bool → ℕ → ScanState → List Visit → ScanState
unfolding visit_probe
scan_tasks dry_run now_epoch s [] = s
scan_tasks dry_run now_epoch s (v ∷ vs) =
    scan_tasks dry_run now_epoch (visit_probe dry_run now_epoch v.task v.writable s v.probe) vs

abbrev pub fresh_scan : List StallEvent → ScanState
fresh_scan log = record { stalls = 0; events_emitted = 0; degraded_tasks = []; event_log = log }

unfoldable pub scan_exit_code : ScanState → ℕ
scan_exit_code s = if is_empty s.degraded_tasks then 0 else 5
