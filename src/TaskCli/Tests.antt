-- ===== src/TaskCli/Tests.antt =====
-- The theorems on `canon task` at a server in memory.
use mathlib.Core.List.{Memᴰ}
use mathlib.Core.List.Memᴰ
use mathlib.Core.Option.{some-injective}
use canon_systems.Base.{
  subst, Bool-cases, ◌≢◌, String, ◌≡◌, refl, sym, ap, ◌∙◌, ◌⊎◌, inl, inr, true, false, none, some,
  List, [], ◌∷◌, ◌++◌, str_differ,
}
use canon_systems.Base.Strict.{mem_snoc, mem_append_left, mem_append_right}
use canon_systems.Base.Text.{dash_to_underscore, lower, strip}
use canon_systems.Base.Order.{insert, sort}
use canon_systems.Tasks.Events.{
  filled, title, status, TaskEvent, event_updated, validate_event, normalize_status,
  normalize_scope, sort_key, sort_events,
}
use canon_systems.Tasks.Fold.{
  Task, find, store, fold_event, update_task, materialize, task_with_scope,
}
use canon_systems.Tasks.Make.{
  make_event, finish_event, scope_event, normalize_fields, keep_field, normalize_field,
}
use canon_systems.Tasks.Merge.{dedupe_events}
use canon_systems.Tasks.Union.{IsOneEach}
use canon_systems.Tasks.Newest.{IsNewest, event_order}
use canon_systems.TaskCli.{
  answered, Remote, World, Ctx, Stamp, exited, remote_events, or_nothing, fetch_events, events_of,
  push_ok, visible, combined_state, mutate, mutate_args,
}
use canon_systems.TaskCli.Sync.{Bucket, sync_bucket}
use canon_systems.TaskCli.Commands.{cmd_close, close_status}
use canon_systems.TaskCli.Views.{IsAppendOnly}
use canon_systems.TaskCli.ReadBack.{IsLocalFirst, mutate_read_back, mutate-IsLocalFirst}
use canon_systems.TaskCli.Closing.{ShowsStatus, IsChange, cmd_close_drops}
use canon_systems.TaskCli.Converge.{IsDurable}
use canon_systems.TaskCli.Objects.{sync_bucket_loses}

-- A server for one company that appends what is posted and answers everything.
abbrev pub memory : Remote
memory = record {
  Server = List TaskEvent;
  post = λ s e. (answered 201 none, s ++ e ∷ []);
  get = λ s company limit. answered 200 (some s);
}

-- What the server answers for a company whose name is not blank.
memory_answer :
    (s : List TaskEvent) (company : String)
    → (fetch_events memory s company ≡ none) ⊎ (filled company ≡ true)
unfolding fetch_events events_of
memory_answer s company = elim (Bool-cases (filled company)) [
  | inl named ↦ inr named
  | inr blank ↦ inl (rw (blank, fetch_events) refl)
]

memory_named :
    (s : List TaskEvent) (company : String)
    → filled company ≡ true
    → or_nothing (fetch_events memory s company) ≡ s
unfolding fetch_events events_of
memory_named s company named = rw (named, fetch_events) refl

memory-IsAppendOnly : (s : List TaskEvent) → IsAppendOnly memory s
memory-IsAppendOnly s = record {
  adds = λ e x company m. elim (memory_answer (s ++ e ∷ []) company) [
    | inl nothing ↦ elim (subst (λ o. Memᴰ x (or_nothing o)) nothing m) [ ]
    | inr named ↦ elim (mem_snoc s (subst (Memᴰ x) (memory_named (s ++ e ∷ []) company named) m)) [
      | inl n ↦ inr (subst (Memᴰ x) (sym (memory_named s company named)) n)
      | inr same ↦ inl same
    ]
  ];
  keeps = λ e x company m. elim (memory_answer s company) [
    | inl nothing ↦ elim (subst (λ o. Memᴰ x (or_nothing o)) nothing m) [ ]
    | inr named ↦
        subst (Memᴰ x) (sym (memory_named (s ++ e ∷ []) company named))
          (mem_append_left s (e ∷ []) (subst (Memᴰ x) (memory_named s company named) m))
  ];
}

abbrev pub ana : Ctx
ana = record { actor_id = "ana"; actor_display = "Ana"; company_id = "acme"; repository_id = "app" }

unfoldable pub memory-IsDurable : IsDurable memory "acme"
unfolding fetch_events events_of push_ok strip
memory-IsDurable = record {
  stored = λ s. s;
  accepts = λ s e ours ok. mem_append_right s (e ∷ []) (Memᴰ.head refl);
  keeps = λ s e x m. mem_append_left s (e ∷ []) m;
  sound = λ s es got e m. subst (Memᴰ e) (sym (some-injective s es got)) m;
  complete = λ s es got few e m. subst (Memᴰ e) (some-injective s es got) m;
}

abbrev pub created : TaskEvent
created = record {
  event_type = "task_created";
  event_id = "e1";
  task_ref = "T-1";
  timestamp = "2026-01-01";
  actor_id = "ana";
  actor_display = "Ana";
  company_id = "acme";
  repository_id = "";
  scope = some "company";
  event_repositories = [];
  comment = "";
  fields = title "Ship" ∷ [];
}

abbrev pub world : World memory
world = record {
  repo_ledger = [];
  company_ledger = created ∷ [];
  memory_log = [];
  memory_writable = true;
  server = [];
}

abbrev later : Stamp
later = record { new_event_id = "e2"; now_iso = "2026-01-02" }

abbrev closing : TaskEvent
closing = record created {
  event_type = "task_updated";
  event_id = "e2";
  timestamp = "2026-01-02";
  scope = none;
  comment = "shipped in 1.2";
  fields = status "done" ∷ [];
}

abbrev ship : Task
ship = record (task_with_scope created "company") { title_of = "Ship" }

closing-made :
    make_event
      (mutate_args memory true ana "T-1" (status "done" ∷ []) "shipped in 1.2" event_updated later)
    ≡ some closing
unfolding make_event finish_event scope_event normalize_fields keep_field normalize_field
    normalize_status validate_event dash_to_underscore lower strip
closing-made = refl

world-view : combined_state memory true ana world ≡ some (("T-1", ship) ∷ [])
unfolding combined_state materialize dedupe_events sort_events sort insert visible remote_events
    fetch_events strip validate_event normalize_scope dash_to_underscore lower fold_event find store
    update_task
world-view = refl

IsOneEach-two : (e f : TaskEvent) → strip e.event_id ≢ strip f.event_id → IsOneEach (e ∷ f ∷ [])
IsOneEach-two e f other x y m n named same = elim (in_two e f x m) [
  | inl p ↦ elim (in_two e f y n) [
    | inl q ↦ p ∙ sym q
    | inr q ↦ absurd (other (ids (sym p) ∙ same ∙ ids q))
  ]
  | inr p ↦ elim (in_two e f y n) [
    | inl q ↦ absurd (other (ids (sym q) ∙ sym same ∙ ids p))
    | inr q ↦ p ∙ sym q
  ]
]
  where
    in_two : (e f x : TaskEvent) → Memᴰ x (e ∷ f ∷ []) → (x ≡ e) ⊎ (x ≡ f)
    in_two e f x m = elim (Memᴰ.cases_cons m) [
      | inl p ↦ inl p
      | inr k ↦ elim (Memᴰ.cases_cons k) [ inl q ↦ inr q | inr none_left ↦ elim none_left [ ] ]
    ]

    ids : {a b : TaskEvent} → a ≡ b → strip a.event_id ≡ strip b.event_id
    ids p = ap (λ (z : TaskEvent). strip z.event_id) p

-- A list of one event, however often it stands there.
abbrev pub IsOnly : TaskEvent → List TaskEvent → Type 0
IsOnly c l = (e : TaskEvent) → Memᴰ e l → e ≡ c

pub IsOneEach-only : (c : TaskEvent) (l : List TaskEvent) → IsOnly c l → IsOneEach l
IsOneEach-only c l all e f m n named same = all e m ∙ sym (all f n)

pub IsOnly-one : (c : TaskEvent) → IsOnly c (c ∷ [])
IsOnly-one c e m = elim (Memᴰ.cases_cons m) [ inl q ↦ q | inr k ↦ elim k [ ] ]

pub IsOnly-more : (c : TaskEvent) (l : List TaskEvent) → IsOnly c l → IsOnly c (c ∷ l)
IsOnly-more c l all e m = elim (Memᴰ.cases_cons m) [ inl q ↦ q | inr k ↦ all e k ]

world-visible : visible memory true ana world ≡ created ∷ []
unfolding visible remote_events fetch_events events_of strip
world-visible = refl

closing-IsNewest : IsNewest closing (visible memory true ana world)
closing-IsNewest = subst (IsNewest closing) (sym world-visible) newest
  where
    newest : IsNewest closing (created ∷ [])
    newest x m =
        subst (λ (y : TaskEvent). event_order.lt (sort_key y) (sort_key closing) ≡ true)
          (sym (IsOnly-one created x m)) refl

ids_differ : strip closing.event_id ≢ strip created.event_id
unfolding strip
ids_differ = str_differ "e2" "e1" refl

closing-one : IsOneEach (closing ∷ visible memory true ana world)
closing-one =
    subst (λ l. IsOneEach (closing ∷ l)) (sym world-visible)
      (IsOneEach-two closing created ids_differ)

closing-IsChange :
    IsChange memory true ana "T-1"
      (status (close_status false) ∷ [])
      "shipped in 1.2"
      later
      world
      ship
unfolding strip find
closing-IsChange = record {
  law = memory-IsAppendOnly [];
  view = ("T-1", ship) ∷ [];
  event = closing;
  plain = refl;
  before = world-view;
  there = refl;
  made = closing-made;
  one = closing-one;
  newest = closing-IsNewest;
}

cmd_close_drops_example :
    ((cmd_close memory true ana "T-1" false "shipped in 1.2" later world).0 ≡ exited 0)
    × ShowsStatus memory true ana
        (cmd_close memory true ana "T-1" false "shipped in 1.2" later world).1
        "T-1"
        ship
        (close_status false)
cmd_close_drops_example =
    cmd_close_drops memory true ana "T-1" "shipped in 1.2" false later world ship closing-IsChange

plain_ref : strip "T-1" ≡ "T-1"
unfolding strip
plain_ref = refl

ship-there : find "T-1" (("T-1", ship) ∷ []) ≡ some ship
unfolding find
ship-there = refl

mutate_read_back_example :
    ((mutate memory true ana "T-1"
        (status "done" ∷ [])
        "shipped in 1.2"
        event_updated
        later
        world).0
      ≡ exited 0)
    × (combined_state memory true ana
          (mutate memory true ana "T-1"
            (status "done" ∷ [])
            "shipped in 1.2"
            event_updated
            later
            world).1
        ≡ some (store "T-1" (update_task closing ship) (("T-1", ship) ∷ [])))
mutate_read_back_example =
    mutate_read_back memory true ana "T-1" (status "done" ∷ []) "shipped in 1.2" event_updated later
      world (memory-IsAppendOnly []) (("T-1", ship) ∷ []) ship closing refl plain_ref world-view
      ship-there closing-made closing-one closing-IsNewest

mutate-IsLocalFirst_example :
    IsLocalFirst memory true ana "T-9" [] "hello" "task_commented" later world
      (mutate memory true ana "T-9" [] "hello" "task_commented" later world)
mutate-IsLocalFirst_example =
    mutate-IsLocalFirst memory true ana "T-9" [] "hello" "task_commented" later world

abbrev unreadable : Bucket
unreadable = record { client = true; object = closing ∷ []; readable = false; writable = true }

sync_bucket_loses_example :
    (m : List TaskEvent) × (sync_bucket memory ana false (some unreadable) world
      ≡ (record world { company_ledger = m }, some (record unreadable { object = m })))
    × (¬ Memᴰ closing m)
sync_bucket_loses_example =
    sync_bucket_loses memory ana unreadable world closing refl refl refl (Memᴰ.head refl)
      (λ m. ids_differ (ap (λ (z : TaskEvent). strip z.event_id) (IsOnly-one created closing m)))

abbrev readable_bucket : Bucket
readable_bucket = record unreadable { readable = true }
