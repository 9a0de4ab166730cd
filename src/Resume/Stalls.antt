-- ===== src/Resume/Stalls.antt =====
-- The scan and the probes of src/canon_systems/stall_watchdog.py.
use canon_systems.Base.{
  ℕ, ◌+◌, ◌-◌, ◌≤◌, ◌<◌, String, ◌≡◌, refl, sym, ap, ◌∙◌, ◌⊎◌, inl, inr, Bool, true, false, List,
  [], ◌∷◌, ◌++◌, arith, length, length-append, leb, Bool-cases,
}
use canon_systems.Resume.Lanes.{Member, is_empty}
use canon_systems.Resume.Watchdog.{
  at, lease_object, Probe, stalled, live, not_stalled, degraded_probe, classify_expiry,
  classify_probe, StallEvent, build_lease_stall_event, Visit, ScanState, emit_event, visit_probe,
  scan_tasks, fresh_scan, scan_exit_code,
}

-- The event that a probe calls for, and those of a whole scan.
unfoldable pub due_event : ℕ → Member → Probe → List StallEvent
due_event now_epoch task (stalled d) = build_lease_stall_event task d now_epoch ∷ []
due_event now_epoch task (degraded_probe reason) = []
due_event now_epoch task live = []
due_event now_epoch task not_stalled = []

unfoldable pub due_events : ℕ → List Visit → List StallEvent
unfolding due_event
due_events now_epoch [] = []
due_events now_epoch (v ∷ vs) = due_event now_epoch v.task v.probe ++ due_events now_epoch vs

append-nil {ℓ} : {A : Type ℓ} (xs : List A) → xs ++ [] ≡ xs
append-nil [] = refl
append-nil (x ∷ xs) = ap (λ l. x ∷ l) (append-nil xs)

append_assoc {ℓ} : {A : Type ℓ} (xs ys zs : List A) → (xs ++ ys) ++ zs ≡ xs ++ (ys ++ zs)
append_assoc [] ys zs = refl
append_assoc (x ∷ xs) ys zs = ap (λ l. x ∷ l) (append_assoc xs ys zs)

is_empty-snoc {ℓ} : {A : Type ℓ} (xs : List A) (x : A) → is_empty (xs ++ x ∷ []) ≡ false
is_empty-snoc [] x = refl
is_empty-snoc (y ∷ ys) x = refl

-- A scan from `s` to `f` that ends with nothing degraded and owes the events `due`.
abbrev Clean : ScanState → ScanState → List StallEvent → Type 0
Clean s f due =
    (is_empty s.degraded_tasks ≡ true)
    × (f.event_log ≡ s.event_log ++ due)
    × (f.stalls ≡ length due + s.stalls)
    × (f.events_emitted ≡ length due + s.events_emitted)

visit_probe-Clean :
    (now_epoch : ℕ) (task : Member) (writable : Bool) (s : ScanState) (p : Probe)
    → is_empty (visit_probe false now_epoch task writable s p).degraded_tasks ≡ true
    → Clean s (visit_probe false now_epoch task writable s p) (due_event now_epoch task p)
unfolding visit_probe emit_event due_event
visit_probe-Clean now_epoch task true s (stalled d) h = (h, refl, omega arith, omega arith)
visit_probe-Clean now_epoch task false s (stalled d) h = cc (
  h,
  is_empty-snoc s.degraded_tasks (record { task_id = task.task_id; reason = "event_log_write" }),
)
visit_probe-Clean now_epoch task writable s (degraded_probe reason) h =
    cc (h, is_empty-snoc s.degraded_tasks (record { task_id = task.task_id; reason = reason }))
visit_probe-Clean now_epoch task writable s live h =
    (h, sym (append-nil s.event_log), omega arith, omega arith)
visit_probe-Clean now_epoch task writable s not_stalled h =
    (h, sym (append-nil s.event_log), omega arith, omega arith)

scan_tasks-Clean :
    (now_epoch : ℕ) (s : ScanState) (vs : List Visit)
    → is_empty (scan_tasks false now_epoch s vs).degraded_tasks ≡ true
    → Clean s (scan_tasks false now_epoch s vs) (due_events now_epoch vs)
unfolding scan_tasks due_events
scan_tasks-Clean now_epoch s [] h = (h, sym (append-nil s.event_log), omega arith, omega arith)
scan_tasks-Clean now_epoch s (v ∷ vs) h =
    let s1 = visit_probe false now_epoch v.task v.writable s v.probe in
    let rest = scan_tasks-Clean now_epoch s1 vs h in
    let step = visit_probe-Clean now_epoch v.task v.writable s v.probe rest.0 in
    let here = due_event now_epoch v.task v.probe in
    let later = due_events now_epoch vs in
    (
      step.0,
      rest.1 ∙ ap (λ l. l ++ later) step.1 ∙ append_assoc s.event_log here later,
      omega (arith, rest.2, step.2, length-append here later),
      omega (arith, rest.3, step.3, length-append here later),
    )

-- A scan that is no dry run and ends with exit code 0 has written, after what the log held, the
-- one event of each stalled task in the order of the tasks, and counts as many stalls and as many
-- written events as these.
pub scan_tasks_complete :
    (now_epoch : ℕ) (log : List StallEvent) (vs : List Visit)
    → scan_exit_code (scan_tasks false now_epoch (fresh_scan log) vs) ≡ 0
    → ((scan_tasks false now_epoch (fresh_scan log) vs).event_log ≡ log ++ due_events now_epoch vs)
      × ((scan_tasks false now_epoch (fresh_scan log) vs).stalls ≡ length (due_events now_epoch vs))
      × ((scan_tasks false now_epoch (fresh_scan log) vs).events_emitted
          ≡ length (due_events now_epoch vs))
unfolding scan_exit_code
scan_tasks_complete now_epoch log vs h =
    elim (Bool-cases (is_empty (scan_tasks false now_epoch (fresh_scan log) vs).degraded_tasks)) [
      | inr e ↦ absurd (omega (arith, rw (scan_exit_code, e) at h))
      | inl e ↦
          let clean = scan_tasks-Clean now_epoch (fresh_scan log) vs e in
          (clean.1, omega (arith, clean.2), omega (arith, clean.3))
    ]

-- An answer 200 with a lease is stalled just when its expiry is not after the clock's time, and
-- live otherwise.
pub classify_probe-expiry :
    (shown : ℕ → String) (e now_epoch : ℕ) (owner : String)
    → ((e ≤ now_epoch)
        × (classify_probe shown 200 (lease_object (at e) owner) now_epoch
            ≡ stalled
                (record { owner_agent_run_id = owner; expires_at = e; overdue = now_epoch - e })))
      ⊎ ((now_epoch < e) × (classify_probe shown 200 (lease_object (at e) owner) now_epoch ≡ live))
unfolding classify_probe classify_expiry
classify_probe-expiry shown e now_epoch owner = elim (Bool-cases (leb e now_epoch)) [
  | inl h ↦ inl (ground (arith, h), rw h)
  | inr h ↦ inr (ground (arith, h), rw h)
]
