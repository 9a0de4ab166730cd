-- ===== src/TaskCli/Plane.antt =====
-- The server of the repository as the server of `canon task`: the routes of TaskPlane fill
-- `IsDurable`, what the sync of src/canon_systems/tasks_cli.py needs of it. The table and the JSON of an event are parameters.
use mathlib.Core.List.{Memᴰ}
use mathlib.Core.List.Memᴰ
use mathlib.Core.Option.{some-injective, none-ne-some}
use canon_systems.Base.{
  ℕ, ◌≤◌, String, ◌≡◌, ◌↔◌, refl, sym, ap, ◌∙◌, inl, inr, true, false, Option, none, some, List, [],
  length, take, map, subst, if◌then◌else◌, Bool-cases, Option-cases,
}
use canon_systems.Base.Text.{strip}
use canon_systems.Tasks.Events.{TaskEvent, filled}
use canon_systems.TaskPlane.{
  ServerEvent, EventTable, Posted, created, idempotent, invalid, conflicting, crashed,
  build_tasks_pk, event_keys, validate_task_event, post_task_event,
}
use canon_systems.TaskPlane.Listing.{
  EventPages, Listed, events, invalid_limit, invalid_task, get_tasks, rows_at,
}
use canon_systems.TaskPlane.Reads.{joined, get_tasks-joined}
use canon_systems.TaskPlane.Writes.{
  post_task_event-Answers, post_task_event-invalid, post_task_event-unkeyed, post_task_event_keeps,
}
use canon_systems.TaskCli.{Response, answered, http_error, Remote, push_ok, events_of, fetch_events}
use canon_systems.TaskCli.Converge.{IsDurable}
use canon_systems.Base.Taken.{mem-take, take_all, mem_map, mem_map_back, length-map}
use canon_systems.TaskCli.Keys.{equivalent-eq, event_keys-pk, build_tasks_pk-strip}

-- One table for both routes: the pages of a partition hold the rows of its keys.
pub record PlaneTable : Type 1 where
  pub rows : EventTable
  pub pages : rows.Table → String → ℕ → List (List ServerEvent)
  pub page_under : rows.Table → String → String → ℕ → List ServerEvent
  pub page_limit : (t : rows.Table) (pk pre : String) (n : ℕ) → length (page_under t pk pre n) ≤ n
  pub pages_law :
      (t : rows.Table) (pk : String) (n : ℕ) (e : ServerEvent)
      → Memᴰ e (joined (pages t pk n)) ↔ ((sk : String) × (rows.get t (pk, sk) ≡ some e))

abbrev event_pages : PlaneTable → EventPages
event_pages p = record {
  Table = p.rows.Table;
  pages = p.pages;
  page_under = p.page_under;
  page_limit = p.page_limit;
}

-- An event as the body of a request, and back.
pub record Wire : Type 0 where
  pub to_server : TaskEvent → ServerEvent
  pub from_server : ServerEvent → TaskEvent
  pub there_and_back : (e : TaskEvent) → from_server (to_server e) ≡ e
  pub company_same : (e : TaskEvent) → (to_server e).company_id ≡ e.company_id

abbrev respond_post : Posted → Response
respond_post (created e) = answered 200 none
respond_post (idempotent e) = answered 200 none
respond_post invalid = http_error 400
respond_post conflicting = http_error 409
respond_post (crashed code) = http_error 500

abbrev respond_get : Wire → Listed → Response
respond_get wire (events es n) = answered 200 (some (map wire.from_server es))
respond_get wire invalid_limit = http_error 400
respond_get wire invalid_task = http_error 400

abbrev pub plane : PlaneTable → Wire → Remote
plane p wire = record {
  Server = p.rows.Table;
  post = λ t e. (
    respond_post (post_task_event p.rows t (wire.to_server e)).0,
    (post_task_event p.rows t (wire.to_server e)).1,
  );
  get = λ t company limit. respond_get wire (get_tasks (event_pages p) t company "" limit);
}

module _ (p : PlaneTable) (wire : Wire) (company_id : String)
    (plain : strip company_id ≡ company_id) where
  abbrev partition : p.rows.Table → Option String → List TaskEvent
  partition t none = []
  partition t (some pk) = map wire.from_server (joined (p.pages t pk 2000))

  -- The events of the company.
  abbrev plane_events : p.rows.Table → List TaskEvent
  plane_events t = partition t (build_tasks_pk company_id)

  -- A row of the partition is an event of the company.
  row-event :
      (t : p.rows.Table) (k : String × String) (e : ServerEvent)
      → build_tasks_pk company_id ≡ some k.0
      → p.rows.get t k ≡ some e
      → Memᴰ (wire.from_server e) (plane_events t)
  row-event t (pk, sk) e at_pk there =
      subst (λ o. Memᴰ (wire.from_server e) (partition t o)) (sym at_pk)
        (mem_map wire.from_server (joined (p.pages t pk 2000))
          ((p.pages_law t pk 2000 e).1 (sk, there)))

  -- What an accepted post leaves at the event's key.
  accepted_row :
      (t : p.rows.Table) (e : ServerEvent)
      → push_ok (respond_post (post_task_event p.rows t e).0) ≡ true
      → (k : String × String) × (event_keys e ≡ some k)
        × (p.rows.get (post_task_event p.rows t e).1 k ≡ some e)
  unfolding push_ok
  accepted_row t e ok = elim (Bool-cases (validate_task_event e)) [
    | inr bad ↦ cc (
      ap (λ (r : Posted × p.rows.Table). push_ok (respond_post r.0))
          (post_task_event-invalid p.rows t e bad),
      ok,
    )
    | inl valid ↦ elim (Option-cases (event_keys e)) [
      | inl unkeyed ↦ cc (
        ap (λ (r : Posted × p.rows.Table). push_ok (respond_post r.0))
            (post_task_event-unkeyed p.rows t e unkeyed),
        ok,
      )
      | inr (k, keys) ↦ elim (post_task_event-Answers p.rows t e k valid keys) [
        | inl (t', answer, absent, now, other) ↦
            (k, keys, ap (λ (r : Posted × p.rows.Table). p.rows.get r.1 k) answer ∙ now)
        | inr (inl (old, there, inl (same, answer))) ↦ (
          k,
          keys,
          ap (λ (r : Posted × p.rows.Table). p.rows.get r.1 k) answer
              ∙ there
              ∙ ap some (equivalent-eq old e same),
        )
        | inr (inl (old, there, inr (differ, answer))) ↦
            cc (ap (λ (r : Posted × p.rows.Table). push_ok (respond_post r.0)) answer, ok)
        | inr (inr (code, answer)) ↦
            cc (ap (λ (r : Posted × p.rows.Table). push_ok (respond_post r.0)) answer, ok)
      ]
    ]
  ]

  plane_keeps :
      (t : p.rows.Table) (e : ServerEvent) (x : TaskEvent)
      → Memᴰ x (plane_events t)
      → Memᴰ x (plane_events (post_task_event p.rows t e).1)
  plane_keeps t e x m = elim (Option-cases (build_tasks_pk company_id)) [
    | inl unnamed ↦ elim (subst (λ o. Memᴰ x (partition t o)) unnamed m) [ ]
    | inr (pk, named) ↦
        let (y, at_y, is_y) =
          mem_map_back wire.from_server (joined (p.pages t pk 2000))
            (subst (λ o. Memᴰ x (partition t o)) named m) in
        let (sk, there) = (p.pages_law t pk 2000 y).0 at_y in
        Memᴰ.cast is_y (
          row-event (post_task_event p.rows t e).1 (pk, sk) y named
            (post_task_event_keeps p.rows t e (pk, sk) y there))
  ]

  unnamed_get :
      (t : p.rows.Table)
      → build_tasks_pk company_id ≡ none
      → get_tasks (event_pages p) t company_id "" 2000 ≡ invalid_task
  unfolding get_tasks rows_at
  unnamed_get t unnamed = rw (unnamed, get_tasks, rows_at) refl

  asked :
      (t : p.rows.Table)
      → filled company_id ≡ true
      → fetch_events (plane p wire) t company_id
        ≡ events_of (respond_get wire (get_tasks (event_pages p) t company_id "" 2000))
  unfolding fetch_events
  asked t named =
      ap
        (λ b.
          if b
          then events_of (respond_get wire (get_tasks (event_pages p) t (strip company_id) "" 2000))
          else none)
        named
      ∙ ap (λ c. events_of (respond_get wire (get_tasks (event_pages p) t c "" 2000))) plain

  not_asked :
      (t : p.rows.Table)
      → filled company_id ≡ false
      → fetch_events (plane p wire) t company_id ≡ none
  unfolding fetch_events
  not_asked t blank =
      ap
        (λ b.
          if b
          then events_of (respond_get wire (get_tasks (event_pages p) t (strip company_id) "" 2000))
          else none)
        blank

  -- An answered GET has the first 2000 events of the company.
  fetched_first :
      (t : p.rows.Table) (es : List TaskEvent)
      → fetch_events (plane p wire) t company_id ≡ some es
      → (pk : String) × (build_tasks_pk company_id ≡ some pk)
        × (es ≡ map wire.from_server (take (joined (p.pages t pk 2000)) 2000))
  unfolding events_of
  fetched_first t es got = elim (Bool-cases (filled company_id)) [
    | inr blank ↦ absurd (none-ne-some es (sym (not_asked t blank) ∙ got))
    | inl named ↦ elim (Option-cases (build_tasks_pk company_id)) [
      | inl unnamed ↦ absurd (
          none-ne-some es (
            sym (asked t named ∙ ap (λ r. events_of (respond_get wire r)) (unnamed_get t unnamed))
            ∙ got))
      | inr (pk, keys) ↦ (
        pk,
        keys,
        some-injective es _ (
            sym got
            ∙ asked t named
            ∙ ap (λ r. events_of (respond_get wire r))
                (get_tasks-joined (event_pages p) t company_id pk 2000 refl keys).0),
      )
    ]
  ]

  -- The routes are a server as `canon task sync` needs one.
  pub plane-IsDurable : IsDurable (plane p wire) company_id
  plane-IsDurable = record {
    stored = plane_events;
    accepts = λ t e ours ok.
        let (k, keys, there) = accepted_row t (wire.to_server e) ok in
        let named =
          build_tasks_pk-strip company_id (wire.to_server e).company_id
            (sym ours ∙ ap strip (sym (wire.company_same e)))
          ∙ event_keys-pk (wire.to_server e) k keys in
        Memᴰ.cast (sym (wire.there_and_back e)) (
          row-event (post_task_event p.rows t (wire.to_server e)).1 k (wire.to_server e) named
            there);
    keeps = λ t e x m. plane_keeps t (wire.to_server e) x m;
    sound = λ t es got e m.
        let (pk, named, first) = fetched_first t es got in
        subst (λ o. Memᴰ e (partition t o)) (sym named)
          (mem_map_first (joined (p.pages t pk 2000)) e (subst (Memᴰ e) first m));
    complete = λ t es got few e m.
        let (pk, named, first) = fetched_first t es got in
        let all : List TaskEvent = map wire.from_server (joined (p.pages t pk 2000)) in
        subst (Memᴰ e)
          (sym (
            first
            ∙ ap (map wire.from_server)
                (take_all (joined (p.pages t pk 2000)) 2000 (fits t pk named few))))
          (subst (λ o. Memᴰ e (partition t o)) named m);
  }
    where
      mem_map_first :
          (l : List ServerEvent) (e : TaskEvent)
          → Memᴰ e (map wire.from_server (take l 2000))
          → Memᴰ e (map wire.from_server l)
      mem_map_first l e m =
          let (y, at_y, is_y) = mem_map_back wire.from_server (take l 2000) m in
          Memᴰ.cast is_y (mem_map wire.from_server l (mem-take l 2000 y at_y))

      fits :
          (t : p.rows.Table) (pk : String)
          → build_tasks_pk company_id ≡ some pk
          → length (plane_events t) ≤ 2000
          → length (joined (p.pages t pk 2000)) ≤ 2000
      fits t pk named few =
          subst (λ n. n ≤ 2000) (length-map wire.from_server (joined (p.pages t pk 2000)))
            (subst (λ o. length (partition t o) ≤ 2000) named few)
