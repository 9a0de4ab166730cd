-- ===== src/Runs/Listing.antt =====
-- The listings and summaries of backend/knowledge-api/app/services/runs.py: `list_runs`,
-- `list_run_summaries`, `list_recent_scope_launch_summaries`, `_to_run_summary`, and what a
-- company sees of them.
use mathlib.Core.List.{Memᴰ}
use mathlib.Core.List.Memᴰ
use canon_systems.Base.{
  take, ℕ, zero, suc, String, ◌≡◌, ◌≢◌, refl, ap, ◌∙◌, ◌⊎◌, inl, inr, Bool, true, false, not, ◌&&◌,
  ◌||◌, Option, none, some, List, [], ◌∷◌, map, str_eq, eq_iff, eq_refl, truthy, Bool-cases,
  if◌then◌else◌,
}
use canon_systems.Runs.{RunOrm, Session}
use canon_systems.Runs.Service.{ok, refused, same_text, ensure_run_company_scope, get_run}

-- The `WHERE` clauses of a listing: a filter that is `None` is left out.
pub record Filters : Type 0 where
  pub company_scope_id : Option String
  pub stage : Option String
  pub status : Option String
  pub dispatch_status : Option String
  pub launch_mode : Option String
  pub orchestration_runtime : Option String
  pub task_queue : Option String
  pub work_item_id : Option String
  pub source_conversation_id : Option String
  pub scope_artifact_id : Option String
  pub execution_packet_artifact_id : Option String

-- A column that is null equals no value.
abbrev pub matches : Option String → Option String → Bool
matches none column = true
matches (some v) column = same_text column (some v)

unfoldable pub selected : Filters → RunOrm → Bool
selected f r =
    matches f.stage (some r.stage)
    && matches f.status (some r.status)
    && matches f.dispatch_status (some r.dispatch_status)
    && matches f.launch_mode r.launch_mode
    && matches f.orchestration_runtime r.orchestration_runtime
    && matches f.task_queue r.task_queue
    && matches f.work_item_id r.work_item_id
    && matches f.source_conversation_id r.source_conversation_id
    && matches f.scope_artifact_id r.scope_artifact_id
    && matches f.execution_packet_artifact_id r.execution_packet_artifact_id

abbrev pub select {ℓ} : {A : Type ℓ} → (A → Bool) → List A → List A
select p [] = []
select p (x ∷ xs) = let rest = select p xs in if p x then x ∷ rest else rest

unfoldable pub listed : Filters → RunOrm → Bool
unfolding selected
listed f r = matches f.company_scope_id r.scope_id && selected f r

-- A summary: the row, whose columns it copies, and three flags.
pub record RunSummary : Type 0 where
  pub run : RunOrm
  pub waiting_for_human : Bool
  pub is_blocked : Bool
  pub is_terminal : Bool

abbrev pub is_waiting : RunOrm → Bool
is_waiting r =
    str_eq r.stage "human_blocked"
    || (str_eq r.status "waiting_for_human" || str_eq r.status "awaiting_human")

abbrev pub is_stuck : String → Bool
is_stuck s = str_eq s "blocked" || str_eq s "failed"

abbrev pub is_over : String → Bool
is_over s = str_eq s "completed" || str_eq s "failed"

unfoldable pub to_run_summary : RunOrm → RunSummary
to_run_summary r = record {
  run = r;
  waiting_for_human = is_waiting r;
  is_blocked = is_waiting r || (is_stuck r.status || is_stuck r.dispatch_status);
  is_terminal = is_over r.stage || is_over r.status;
}

-- The `WHERE` clauses of the recent launches. An empty `launch_mode` is no filter.
unfoldable pub launched : Option String → Option String → String → RunOrm → Bool
launched company_scope_id scope_artifact_id launch_mode r =
    matches company_scope_id r.scope_id
    && (not (truthy (some launch_mode)) || same_text r.launch_mode (some launch_mode))
    && matches scope_artifact_id r.scope_artifact_id

module _ (db : Session) where
  open db use {State, runs_desc}

  unfoldable pub list_runs : State → Filters → List RunOrm
  list_runs s f = select (listed f) (runs_desc s)

  unfoldable pub list_run_summaries : State → Filters → List RunSummary
  unfolding to_run_summary
  list_run_summaries s f = map to_run_summary (select (listed f) (runs_desc s))

  -- `limit` is a natural number here; a negative one acts as 0 does.
  unfoldable pub list_recent_scope_launch_summaries :
      State → Option String → Option String → String → Bool → ℕ → List RunSummary
  unfolding to_run_summary launched
  list_recent_scope_launch_summaries s company_scope_id scope_artifact_id launch_mode
        include_terminal limit =
      let rows = select (launched company_scope_id scope_artifact_id launch_mode) (runs_desc s) in
      let summaries = map to_run_summary rows in
      take
        (if include_terminal
          then summaries
          else select (λ (x : RunSummary). not x.is_terminal) summaries)
        (elim limit [ zero ↦ 1 | suc n ↦ suc n ])

module _ {ℓ} {A : Type ℓ} (p : A → Bool) where
  pub mem-select : (xs : List A) (x : A) → Memᴰ x (select p xs) → Memᴰ x xs × (p x ≡ true)
  mem-select [] x m = elim m [ ]
  mem-select (y ∷ ys) x m = elim (Bool-cases (p y)) [
    | inr other ↦ let h = mem-select ys x (rw other at m) in (Memᴰ.tail h.0, h.1)
    | inl granted ↦ elim (Memᴰ.cases_cons (rw granted at m)) [
      | inl e ↦ (Memᴰ.head e, ap p e ∙ granted)
      | inr m' ↦ let h = mem-select ys x m' in (Memᴰ.tail h.0, h.1)
    ]
  ]

pub same_text-true : (a : Option String) (v : String) → same_text a (some v) ≡ true → a ≡ some v
same_text-true none v h = cc h
same_text-true (some w) v h = ap some ((eq_iff w v).0 h)

and-left : (a b : Bool) → (a && b) ≡ true → a ≡ true
and-left true b h = refl
and-left false b h = h

module _ (db : Session) where
  open db use {State, get, runs_desc, runs_law}

  -- What `get_run` and `list_runs` answer for a company: only runs of that company, each the
  -- stored row of its id, and a run of any other company is refused with 403.
  pub company_isolation :
      (s : State) (c : String) (f : Filters)
      → f.company_scope_id ≡ some c
      → ((r : RunOrm) → Memᴰ r (list_runs db s f) → (r.scope_id ≡ some c) × (get s r.id ≡ some r))
        × ((k : String) (r : RunOrm)
            → get s k ≡ some r
            → ((r.scope_id ≡ some c) × (get_run db s k (some c) ≡ ok s r))
              ⊎ ((r.scope_id ≢ some c) × (get_run db s k (some c) ≡ refused 403 "forbidden")))
  unfolding list_runs listed get_run
  company_isolation s c f scoped = (
    λ r m.
        let h = mem-select (listed f) (runs_desc s) r m in
        (
          same_text-true r.scope_id c (
              and-left (same_text r.scope_id (some c)) (selected f r) (rw (listed, scoped) at h.1)),
          runs_law s r h.0,
        ),
    λ k r got. elim (Bool-cases (same_text r.scope_id (some c))) [
      | inl granted ↦ inl (
        same_text-true r.scope_id c granted,
        rw (get_run, got, ensure_run_company_scope, granted),
      )
      | inr other ↦
          inr (
            λ e. cc (rw (e, eq_refl c) at other),
            rw (get_run, got, ensure_run_company_scope, other),
          )
    ],
  )
