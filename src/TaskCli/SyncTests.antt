-- ===== src/TaskCli/SyncTests.antt =====
-- Two clients that synchronize with the server in memory of `Tests`.
use canon_systems.Base.{◌≤◌, length, arith, subst, ◌≡◌, refl, sym, ap, Bool, true, some, [], ◌∷◌}
use canon_systems.Base.Text.{strip}
use canon_systems.Base.Order.{insert, sort}
use canon_systems.Tasks.Events.{filled, TaskEvent}
use canon_systems.Tasks.Fold.{materialize}
use canon_systems.Tasks.Merge.{dedupe_events}
use canon_systems.Tasks.Union.{IsOneEach}
use canon_systems.TaskCli.{
  World, Ctx, remote_events, fetch_events, events_of, push_ok, push_event, visible, combined_state,
}
use canon_systems.TaskCli.Sync.{with_company, push_all, local_events, sync_server}
use canon_systems.TaskCli.Converge.{IsSynced, IsOurs, colleague, sync_agree}
use canon_systems.TaskCli.Tests.{
  memory, ana, memory-IsDurable, created, world, IsOneEach-only, IsOnly-one, IsOnly-more,
}

-- Another machine of the company, whose files are empty.
abbrev fresh_world : World memory
fresh_world = record {
  repo_ledger = [];
  company_ledger = [];
  memory_log = [];
  memory_writable = true;
  server = created ∷ [];
}

abbrev ben : Ctx
ben = colleague memory ana memory-IsDurable "ben" "Ben" "site"

ana-events : local_events memory ana [] world ≡ created ∷ []
unfolding local_events dedupe_events sort insert strip
ana-events = refl

ben-events : local_events memory ben [] fresh_world ≡ []
unfolding local_events dedupe_events sort
ben-events = refl

ana-sync : sync_server memory ana [] world ≡ (true, record world { server = created ∷ [] })
unfolding sync_server local_events dedupe_events sort insert push_all push_event push_ok
    with_company fetch_events events_of strip
ana-sync = refl

ben-sync :
    sync_server memory ben [] fresh_world
    ≡ (true, record fresh_world { company_ledger = created ∷ [] })
unfolding sync_server local_events dedupe_events sort insert push_all push_event push_ok
    with_company fetch_events events_of strip
ben-sync = refl

created-IsOurs : IsOurs memory ana memory-IsDurable (created ∷ [])
unfolding strip
created-IsOurs e m =
    subst (λ (x : TaskEvent). (filled x.company_id ≡ true) × (strip x.company_id ≡ strip "acme"))
      (sym (IsOnly-one created e m)) (refl, refl)

ana-IsSynced : IsSynced memory ana memory-IsDurable [] world
ana-IsSynced = record {
  ours = subst (IsOurs memory ana memory-IsDurable) (sym ana-events) created-IsOurs;
  one = IsOneEach-only created (created ∷ []) (IsOnly-one created);
  accepted = ap (λ (p : Bool × World memory). p.0) ana-sync;
}

ben-IsSynced : IsSynced memory ben memory-IsDurable [] fresh_world
ben-IsSynced = record {
  ours = subst (IsOurs memory ben memory-IsDurable) (sym ben-events) (λ e m. elim m [ ]);
  one = λ e f m n named same. elim m [ ];
  accepted = ap (λ (p : Bool × World memory). p.0) ben-sync;
}

-- The world of ana against the server that ben left.
abbrev ana_again : World memory
ana_again = record (sync_server memory ana [] world).1 {
  server = (sync_server memory ben [] fresh_world).1.server;
}

two_copies : IsOneEach (created ∷ created ∷ [])
two_copies =
    IsOneEach-only created (created ∷ created ∷ [])
      (IsOnly-more created (created ∷ []) (IsOnly-one created))

ana_again-visible : visible memory true ana ana_again ≡ created ∷ created ∷ []
unfolding visible remote_events sync_server local_events dedupe_events sort insert push_all
    push_event push_ok with_company fetch_events events_of strip
ana_again-visible = refl

ben-visible :
    visible memory true ben (sync_server memory ben [] fresh_world).1 ≡ created ∷ created ∷ []
unfolding visible remote_events sync_server local_events dedupe_events sort insert push_all
    push_event push_ok with_company fetch_events events_of strip
ben-visible = refl

ben-answer :
    fetch_events memory (sync_server memory ben [] fresh_world).1.server "acme"
    ≡ some (created ∷ [])
unfolding sync_server local_events dedupe_events sort insert push_all push_event push_ok
    with_company fetch_events events_of strip
ben-answer = refl

ben-stored : memory-IsDurable.stored (sync_server memory ben [] fresh_world).1.server ≡ created ∷ []
unfolding memory-IsDurable sync_server local_events dedupe_events sort insert push_all push_event
    push_ok with_company fetch_events events_of strip
ben-stored = refl

ben-few : length (memory-IsDurable.stored (sync_server memory ben [] fresh_world).1.server) ≤ 2000
ben-few = rw (ben-stored) (omega arith)

sync_agree_example :
    (combined_state memory true ana ana_again ≡ materialize (dedupe_events (created ∷ [])))
    × (combined_state memory true ben (sync_server memory ben [] fresh_world).1
        ≡ materialize (dedupe_events (created ∷ [])))
sync_agree_example =
    sync_agree memory ana memory-IsDurable "ben" "Ben" "site" [] [] world fresh_world (created ∷ [])
      ana-IsSynced (sym (ap (λ (p : Bool × World memory). p.1.server) ana-sync)) ben-IsSynced
      ben-answer ben-few (subst IsOneEach (sym ana_again-visible) two_copies)
      (subst IsOneEach (sym ben-visible) two_copies)
