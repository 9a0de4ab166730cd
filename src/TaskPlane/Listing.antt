-- ===== src/TaskPlane/Listing.antt =====
-- The GET route of backend/state-api/state_api/tasks.py, with the queries of `TasksStore` of
-- storage.py.
--
-- The table is a parameter: for a partition, the pages that it gives one after the other until
-- there is no `LastEvaluatedKey`, and the one page of a query by prefix.
use canon_systems.Base.{
  ℕ, ◌≤◌, String, not, ◌&&◌, Option, none, some, List, [], ◌∷◌, ◌++◌, leb, non_empty, if◌then◌else◌,
  length, take,
}
use canon_systems.TaskPlane.{ServerEvent, sanitize_segment, build_tasks_pk, hashed}

pub record EventPages : Type 1 where
  pub Table : Type 0
  pub pages : Table → String → ℕ → List (List ServerEvent)
  pub page_under : Table → String → String → ℕ → List ServerEvent
  pub page_limit : (t : Table) (pk pre : String) (n : ℕ) → length (page_under t pk pre n) ≤ n

-- The answers: the events with their count, or a 400.
pub data Listed : Type 0 where
  events : List ServerEvent → ℕ → Listed
  invalid_limit invalid_task : Listed

abbrev pub prefix_of : Option String → Option String
prefix_of none = none
prefix_of (some t) = some (hashed t (hashed "evt" ""))

unfoldable pub task_event_sk_prefix : String → Option String
unfolding sanitize_segment
task_event_sk_prefix task_ref = prefix_of (sanitize_segment task_ref)

-- The loop over the pages: it ends with the last page, or when there are enough events.
unfoldable pub read_pages : ℕ → List ServerEvent → List (List ServerEvent) → List ServerEvent
read_pages limit items [] = items
read_pages limit items (page ∷ rest) =
    if leb limit (length (items ++ page))
    then items ++ page
    else read_pages limit (items ++ page) rest

abbrev pub reply : List ServerEvent → Listed
reply rows = events rows (length rows)

module _ (db : EventPages) where
  open db use {Table, pages, page_under}

  unfoldable pub query_company_events : Table → String → ℕ → List ServerEvent
  unfolding read_pages
  query_company_events t pk limit = take (read_pages limit [] (pages t pk limit)) limit

  abbrev pub task_rows : Table → String → ℕ → Option String → Listed
  task_rows t pk limit none = invalid_task
  task_rows t pk limit (some pre) = reply (page_under t pk pre limit)

  abbrev pub company_rows : Table → String → ℕ → Listed
  unfolding query_company_events
  company_rows t pk limit = reply (query_company_events t pk limit)

  -- A missing task reference and an empty one are one case.
  unfoldable pub rows_at : Table → String → ℕ → Option String → Listed
  unfolding company_rows task_event_sk_prefix
  rows_at t task_ref limit none = invalid_task
  rows_at t task_ref limit (some pk) =
      if non_empty task_ref
      then task_rows t pk limit (task_event_sk_prefix task_ref)
      else company_rows t pk limit

  unfoldable pub get_tasks : Table → String → String → ℕ → Listed
  unfolding rows_at build_tasks_pk
  get_tasks t company_id task_ref limit =
      if not (leb 1 limit && leb limit 10000)
      then invalid_limit
      else rows_at t task_ref limit (build_tasks_pk company_id)
