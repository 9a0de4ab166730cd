-- ===== src/TaskCli/Converge.antt =====
-- What `_cmd_sync` of src/canon_systems/tasks_cli.py makes of the views of two clients.
use mathlib.Core.List.{Memᴰ}
use mathlib.Core.List.Memᴰ
use canon_systems.Base.{
  ◌≤◌, length, String, ◌≡◌, refl, sym, ap, ◌∙◌, ◌⊎◌, inl, inr, Bool, true, ◌&&◌, Option, none, some,
  List, [], ◌∷◌, ◌++◌, arith, subst,
}
use canon_systems.Base.Text.{strip}
use canon_systems.Base.Strict.{mem_append, mem_append_left, mem_append_right}
use canon_systems.Tasks.Events.{TaskEvent, filled}
use canon_systems.Tasks.Fold.{materialize}
use canon_systems.Tasks.Merge.{dedupe_events}
use canon_systems.Tasks.Merged.{dedupe_events-IsMerge}
use canon_systems.Tasks.Union.{IsOneEach, dedupe_events_named}
use canon_systems.Tasks.Newest.{mem-dedupe_events}
use canon_systems.TaskCli.{
  Remote, World, Ctx, or_nothing, fetch_events, push_ok, push_event, remote_events, visible,
  combined_state,
}
use canon_systems.TaskCli.Sync.{with_company, push_all, local_events, store_pulled, sync_server}
use canon_systems.TaskCli.Views.{mem-visible, visible-mem, remote_on}

-- A server that stores what it accepts for a company, keeps it, and answers what it has stored, all of
-- it where this is no more than the limit of a GET.
pub record IsDurable (api : Remote) (company_id : String) : Type 0 where
  pub stored : api.Server → List TaskEvent
  pub accepts :
      (s : api.Server) (e : TaskEvent)
      → strip e.company_id ≡ strip company_id
      → push_ok (api.post s e).0 ≡ true
      → Memᴰ e (stored (api.post s e).1)
  pub keeps :
      (s : api.Server) (e x : TaskEvent) → Memᴰ x (stored s) → Memᴰ x (stored (api.post s e).1)
  pub sound :
      (s : api.Server) (es : List TaskEvent)
      → fetch_events api s company_id ≡ some es
      → (e : TaskEvent) → Memᴰ e es
      → Memᴰ e (stored s)
  pub complete :
      (s : api.Server) (es : List TaskEvent)
      → fetch_events api s company_id ≡ some es
      → length (stored s) ≤ 2000
      → (e : TaskEvent) → Memᴰ e (stored s)
      → Memᴰ e es

both_true : (a b : Bool) → (a && b) ≡ true → (a ≡ true) × (b ≡ true)
both_true a b h = ground arith

module _ (api : Remote) (ctx : Ctx) (law : IsDurable api ctx.company_id) where
  -- The events name the company of the context.
  abbrev pub IsOurs : List TaskEvent → Type 0
  IsOurs l =
      (e : TaskEvent)
      → Memᴰ e l
      → (filled e.company_id ≡ true) × (strip e.company_id ≡ strip ctx.company_id)

  push_all_keeps :
      (es : List TaskEvent) (s : api.Server) (x : TaskEvent)
      → Memᴰ x (law.stored s)
      → Memᴰ x (law.stored (push_all api ctx es s).1)
  unfolding push_all push_event
  push_all_keeps [] s x m = m
  push_all_keeps (e ∷ es) s x m =
      push_all_keeps es (api.post s (with_company ctx e)).1 x (law.keeps s (with_company ctx e) x m)

  with_company-same : (e : TaskEvent) → filled e.company_id ≡ true → with_company ctx e ≡ e
  unfolding with_company
  with_company-same e h = rw (h, with_company) refl

  -- When every push was accepted, the server has each pushed event.
  push_all_stores :
      (es : List TaskEvent) (s : api.Server) (x : TaskEvent)
      → IsOurs es
      → (push_all api ctx es s).0 ≡ true
      → Memᴰ x es
      → Memᴰ x (law.stored (push_all api ctx es s).1)
  unfolding push_all push_event
  push_all_stores [] s x ours ok m = elim m [ ]
  push_all_stores (e ∷ es) s x ours ok m =
      let s' = (api.post s (with_company ctx e)).1 in
      let (first, rest) =
        both_true (push_ok (api.post s (with_company ctx e)).0) (push_all api ctx es s').0 ok in
      elim (Memᴰ.cases_cons m) [
        | inr n ↦ push_all_stores es s' x (λ y k. ours y (Memᴰ.tail k)) rest n
        | inl q ↦ push_all_keeps es s' x (Memᴰ.cast q (now e (ours e (Memᴰ.head refl)) first))
      ]
    where
      now :
          (e : TaskEvent)
          → (filled e.company_id ≡ true) × (strip e.company_id ≡ strip ctx.company_id)
          → push_ok (api.post s (with_company ctx e)).0 ≡ true
          → Memᴰ e (law.stored (api.post s (with_company ctx e)).1)
      now e (named, ours_e) first =
          subst (λ y. Memᴰ e (law.stored (api.post s y).1)) (sym (with_company-same e named))
            (law.accepts s e ours_e
              (subst (λ y. push_ok (api.post s y).0 ≡ true) (with_company-same e named) first))

  -- The files hold nothing that the server lacks.
  abbrev pub IsBacked : World api → api.Server → Type 0
  IsBacked w s =
      (e : TaskEvent)
      → filled e.event_id ≡ true
      → Memᴰ e w.repo_ledger ⊎ Memᴰ e w.company_ledger
      → Memᴰ e (law.stored s)

  -- The view of a client whose files hold nothing that the server lacks is the fold of what the
  -- server answers.
  backed_view :
      (w : World api) (es : List TaskEvent)
      → IsBacked w w.server
      → fetch_events api w.server ctx.company_id ≡ some es
      → length (law.stored w.server) ≤ 2000
      → IsOneEach (visible api true ctx w)
      → combined_state api true ctx w ≡ materialize (dedupe_events es)
  unfolding combined_state
  backed_view w es backed got few one = ap materialize (
      dedupe_events_named (visible api true ctx w) es one (λ e f a b. one e f (seen e a) (seen f b))
        ((λ e named m. to e named m), λ e named m. seen e m))
    where
      remote : remote_events api true ctx w ≡ some es
      remote = remote_on api true ctx w refl ∙ got

      seen : (e : TaskEvent) → Memᴰ e es → Memᴰ e (visible api true ctx w)
      seen e m =
          visible-mem api true ctx w e
            (inr (inr (subst (λ o. Memᴰ e (or_nothing o)) (sym remote) m)))

      answered_too : (e : TaskEvent) → Memᴰ e (law.stored w.server) → Memᴰ e es
      answered_too e m = law.complete w.server es got few e m

      to : (e : TaskEvent) → filled e.event_id ≡ true → Memᴰ e (visible api true ctx w) → Memᴰ e es
      to e named m = elim (mem-visible api true ctx w e m) [
        | inl n ↦ answered_too e (backed e named (inl n))
        | inr k ↦ elim k [
          | inl n ↦ answered_too e (backed e named (inr n))
          | inr n ↦ subst (λ o. Memᴰ e (or_nothing o)) remote n
        ]
      ]

  -- The world after a synchronization whose pushes were all accepted.
  pub record IsSynced (scanned : List TaskEvent) (w : World api) : Type 0 where
    pub ours : IsOurs (local_events api ctx scanned w)
    pub one : IsOneEach (w.repo_ledger ++ (w.company_ledger ++ scanned))
    pub accepted : (sync_server api ctx scanned w).0 ≡ true

  pushed-IsBacked :
      (scanned : List TaskEvent) (w : World api)
      → IsSynced scanned w
      → IsBacked w (push_all api ctx (local_events api ctx scanned w) w.server).1
  unfolding sync_server local_events
  pushed-IsBacked scanned w synced e named at_file =
      push_all_stores (local_events api ctx scanned w) w.server e synced.ours synced.accepted (
        mem-dedupe_events (w.repo_ledger ++ (w.company_ledger ++ scanned)) e synced.one
          (listed at_file) named)
    where
      listed :
          Memᴰ e w.repo_ledger ⊎ Memᴰ e w.company_ledger
          → Memᴰ e (w.repo_ledger ++ (w.company_ledger ++ scanned))
      listed (inl n) = mem_append_left w.repo_ledger _ n
      listed (inr n) = mem_append_right w.repo_ledger _ (mem_append_left w.company_ledger _ n)

  -- What was pulled is on the server.
  pulled-IsBacked :
      (w : World api) (o : Option (List TaskEvent))
      → fetch_events api w.server ctx.company_id ≡ o
      → IsBacked w w.server
      → IsBacked (store_pulled api ctx o w) w.server
  pulled-IsBacked w none got backed e named m = backed e named m
  pulled-IsBacked w (some es) got backed e named (inl n) = backed e named (inl n)
  pulled-IsBacked w (some es) got backed e named (inr n) =
      elim (mem_append w.company_ledger es
        ((dedupe_events-IsMerge (w.company_ledger ++ es)).sound e n)) [
          | inl k ↦ backed e named (inr k)
          | inr k ↦ law.sound w.server es got e k
        ]

  pulled-server :
      (w : World api) (o : Option (List TaskEvent)) → (store_pulled api ctx o w).server ≡ w.server
  pulled-server w none = refl
  pulled-server w (some es) = refl

  sync_server-server :
      (scanned : List TaskEvent) (w : World api)
      → (sync_server api ctx scanned w).1.server
        ≡ (push_all api ctx (local_events api ctx scanned w) w.server).1
  unfolding sync_server
  sync_server-server scanned w = pulled-server _ _

  pub sync_server-IsBacked :
      (scanned : List TaskEvent) (w : World api)
      → IsSynced scanned w
      → IsBacked
          (sync_server api ctx scanned w).1
          (push_all api ctx (local_events api ctx scanned w) w.server).1
  unfolding sync_server
  sync_server-IsBacked scanned w synced =
      pulled-IsBacked
        (record w { server = (push_all api ctx (local_events api ctx scanned w) w.server).1 })
        (fetch_events api (push_all api ctx (local_events api ctx scanned w) w.server).1
          ctx.company_id)
        refl (pushed-IsBacked scanned w synced)

module _ (api : Remote) (ctx : Ctx) (law : IsDurable api ctx.company_id) where
  abbrev pub colleague : String → String → String → Ctx
  colleague actor_id display repository_id = record ctx {
    actor_id = actor_id;
    actor_display = display;
    repository_id = repository_id;
  }

  -- Two clients of one company push and pull one after the other, and every push is accepted. The
  -- events in their files name the company, with one event for each id. Then both see the same tasks:
  -- the fold of what the server answers, where it has stored no more than 2000 events and in each
  -- view the events of one id are one.
  pub sync_agree :
      (actor_id display repository_id : String) (scanned scanned' : List TaskEvent)
      (a b : World api) (es : List TaskEvent)
      → IsSynced api ctx law scanned a
      → let a' = (sync_server api ctx scanned a).1 in
        b.server ≡ a'.server
        → IsSynced api (colleague actor_id display repository_id) law scanned' b
        → let b' = (sync_server api (colleague actor_id display repository_id) scanned' b).1 in
          let a'' = record a' { server = b'.server } in
          fetch_events api b'.server ctx.company_id ≡ some es
          → length (law.stored b'.server) ≤ 2000
          → IsOneEach (visible api true ctx a'')
          → IsOneEach (visible api true (colleague actor_id display repository_id) b')
          → (combined_state api true ctx a'' ≡ materialize (dedupe_events es))
            × (combined_state api true (colleague actor_id display repository_id) b'
                ≡ materialize (dedupe_events es))
  sync_agree actor_id display repository_id scanned scanned' a b es synced_a after synced_b got few
        one_a one_b =
      (
        backed_view api ctx law a'' es backed_a got few one_a,
        backed_view api other law b' es backed_b got few one_b,
      )
    where
      other : Ctx
      other = colleague actor_id display repository_id

      a' : World api
      a' = (sync_server api ctx scanned a).1

      b' : World api
      b' = (sync_server api other scanned' b).1

      a'' : World api
      a'' = record a' { server = b'.server }

      pushed_a : api.Server
      pushed_a = (push_all api ctx (local_events api ctx scanned a) a.server).1

      pushed_b : api.Server
      pushed_b = (push_all api other (local_events api other scanned' b) b.server).1

      server_b : pushed_b ≡ b'.server
      server_b = sym (sync_server-server api other law scanned' b)

      server_a : pushed_a ≡ b.server
      server_a = sym (sync_server-server api ctx law scanned a) ∙ sym after

      backed_b : IsBacked api other law b' b'.server
      backed_b e named m =
          subst (λ s. Memᴰ e (law.stored s)) server_b
            (sync_server-IsBacked api other law scanned' b synced_b e named m)

      backed_a : IsBacked api ctx law a'' b'.server
      backed_a e named m =
          subst (λ s. Memᴰ e (law.stored s)) server_b
            (push_all_keeps api other law (local_events api other scanned' b) b.server e (
              subst (λ s. Memᴰ e (law.stored s)) server_a
                (sync_server-IsBacked api ctx law scanned a synced_a e named m)))
