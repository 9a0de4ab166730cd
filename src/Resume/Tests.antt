-- ===== src/Resume/Tests.antt =====
-- The theorems on `canon resume` and the stall scan at a concrete manifest.
use mathlib.Core.List.{Memᴰ}
use canon_systems.Base.{
  ◌+◌, String, ◌≡◌, refl, true, false, Option, none, some, List, [], ◌∷◌, ◌++◌, length,
}
use canon_systems.Base.Order.{sort}
use canon_systems.Resume.{
  ManifestTask, Scan, phase_order, first_incomplete_phase, is_fully_complete,
}
use canon_systems.Resume.Lanes.{
  Target, Member, Pairs, complete_ids, deps_satisfied, classify, collect, count, compute_lane_state,
  compute_resume_target,
}
use canon_systems.Resume.Partition.{
  target_of, blocked_of, offline_of, open_task, under_way_task, offline_task,
  compute_lane_state-total,
}
use canon_systems.Resume.Ready.{IsReady, compute_lane_state-IsReady}
use canon_systems.Resume.Target.{IsFirst, compute_resume_target-IsFirst}
use canon_systems.Resume.Watchdog.{
  stalled, live, Visit, scan_tasks, visit_probe, emit_event, fresh_scan, scan_exit_code,
}
use canon_systems.Resume.Stalls.{due_events, scan_tasks_complete}

abbrev task : String → List String → ManifestTask
task id deps = record {
  task_id = id;
  workstream_id = "ws-main";
  depends_on = deps;
  parallel_group = "";
}

abbrev scan : Option String → Option String → Option String → Scan
scan p s d = record { phase = p; phase_status = s; degrade = d }

-- The first task is finished, the second waits for it, and the third waits for the second.
abbrev manifest : Pairs
manifest =
    (task "E1-T1" [], scan (some "release-orchestrator") (some "completed") none)
    ∷ (task "E1-T2" ("E1-T1" ∷ []), scan (some "scoper") (some "completed") none)
    ∷ (task "E1-T3" ("E1-T2" ∷ []), scan none none none)
    ∷ (task "E1-T4" [], scan none none (some "transport"))
    ∷ []

abbrev next_up : Target
next_up = record { task_id = "E1-T2"; workstream_id = "ws-main"; phase = "cursor-pilot" }

compute_lane_state-total_example :
    (count (target_of "b") (compute_lane_state phase_order manifest).runnable_targets
        + (count (target_of "b") (compute_lane_state phase_order manifest).active_targets
            + count (blocked_of "b") (compute_lane_state phase_order manifest).blocked_targets)
      ≡ count (open_task phase_order "b") manifest)
    × (count (target_of "b") (compute_lane_state phase_order manifest).active_targets
        ≡ count (under_way_task phase_order "b") manifest)
    × (count (offline_of "b") (compute_lane_state phase_order manifest).blocked_targets
        ≡ count (offline_task "b") manifest)
compute_lane_state-total_example = compute_lane_state-total phase_order manifest "b"

runnable_next_up : (compute_lane_state phase_order manifest).runnable_targets ≡ next_up ∷ []
unfolding compute_lane_state collect complete_ids classify deps_satisfied first_incomplete_phase
    is_fully_complete sort
runnable_next_up = refl

next_up-runnable : Memᴰ next_up (compute_lane_state phase_order manifest).runnable_targets
next_up-runnable = rw runnable_next_up (Memᴰ.head refl)

compute_lane_state-IsReady_example :
    (t : ManifestTask) × (s : Scan) × Memᴰ (t, s) manifest
    × IsReady phase_order manifest t s next_up
compute_lane_state-IsReady_example =
    compute_lane_state-IsReady phase_order manifest next_up next_up-runnable

resumes_next_up : compute_resume_target phase_order manifest ≡ some next_up
unfolding compute_resume_target first_incomplete_phase
resumes_next_up = refl

compute_resume_target-IsFirst_example : IsFirst phase_order manifest next_up
compute_resume_target-IsFirst_example =
    compute_resume_target-IsFirst phase_order manifest next_up resumes_next_up

abbrev tasks : List ManifestTask
tasks = task "E1-T2" [] ∷ task "E1-T1" [] ∷ []

abbrev member : String → Member
member id = record { task_id = id; workstream_id = "ws-main" }

abbrev visits : List Visit
visits =
    record {
      task = member "E1-T1";
      probe = stalled (record { owner_agent_run_id = "run-9"; expires_at = 90; overdue = 10 });
      writable = true;
    }
    ∷ record { task = member "E1-T2"; probe = live; writable = true }
    ∷ []

clean_exit : scan_exit_code (scan_tasks false 100 (fresh_scan []) visits) ≡ 0
unfolding scan_exit_code scan_tasks visit_probe emit_event
clean_exit = refl

scan_tasks_complete_example :
    ((scan_tasks false 100 (fresh_scan []) visits).event_log ≡ [] ++ due_events 100 visits)
    × ((scan_tasks false 100 (fresh_scan []) visits).stalls ≡ length (due_events 100 visits))
    × ((scan_tasks false 100 (fresh_scan []) visits).events_emitted
        ≡ length (due_events 100 visits))
scan_tasks_complete_example = scan_tasks_complete 100 [] visits clean_exit
