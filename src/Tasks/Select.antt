-- ===== src/Tasks/Select.antt =====
-- `task_matches`, `sort_tasks` and `filter_and_sort` of src/canon_systems/tasks.py: which tasks a
-- listing shows and in which order.
use Prim.Native.Char.{code}
use canon_systems.Base.{
  ℕ, ◌-◌, String, Bool, true, false, not, ◌&&◌, ◌||◌, Option, none, some, List, [], ◌∷◌, str_eq,
  ltb, if◌then◌else◌,
}
use canon_systems.Base.Order.{StrictOrder, nat_order, text_order, lex_order, sort}
use canon_systems.Base.Sorted.{list_order}
use canon_systems.Tasks.Events.{normalize_scope, normalize_status}
use canon_systems.Tasks.Fold.{Task}

-- The keyword arguments: an empty text is an absent filter, as `None` is.
pub record TaskFilter : Type 0 where
  pub status : String
  pub assignee : String
  pub mine_actor : String
  pub scope : String
  pub repository_id : String
  pub company_id : String
  pub label : String
  pub include_terminal : Bool

abbrev pub is_terminal : String → Bool
is_terminal status = str_eq status "done" || str_eq status "cancelled"

unfoldable pub has_text : String → List String → Bool
has_text s [] = false
has_text s (x ∷ xs) = str_eq s x || has_text s xs

-- The comparison with a normalized filter: `none` is its `TaskError`.
unfoldable pub same_as : String → Option String → Option Bool
same_as value none = none
same_as value (some wanted) = some (str_eq value wanted)

unfoldable pub status_passes : TaskFilter → Task → Option Bool
status_passes f t =
    if not (str_eq f.status "")
    then same_as t.status_of (normalize_status f.status)
    else some (f.include_terminal || not (is_terminal t.status_of))

unfoldable pub scope_passes : TaskFilter → Task → Option Bool
scope_passes f t =
    if not (str_eq f.scope "") then same_as t.scope (normalize_scope f.scope) else some true

unfoldable pub task_touches_repo : Task → String → Bool
task_touches_repo t repository =
    if str_eq t.scope "repo"
    then str_eq t.repository_id repository
    else if str_eq t.scope "multi_repo"
    then has_text repository t.repositories_of
    else true

unfoldable pub is_mine : Task → String → Bool
is_mine t actor = has_text actor t.assignees_of || str_eq t.author_id actor

-- A filter that is absent passes every task.
abbrev pub unless_absent : String → Bool → Bool
unless_absent wanted passes = str_eq wanted "" || passes

unfoldable pub others_pass : TaskFilter → Task → Bool
others_pass f t =
    unless_absent f.company_id (str_eq t.company_id f.company_id)
    && unless_absent f.repository_id (task_touches_repo t f.repository_id)
    && unless_absent f.assignee (has_text f.assignee t.assignees_of)
    && unless_absent f.mine_actor (is_mine t f.mine_actor)
    && unless_absent f.label (has_text f.label t.labels_of)

-- The next test runs only when this one passed.
unfoldable pub and_next : Option Bool → Option Bool → Option Bool
and_next none next = none
and_next (some false) next = some false
and_next (some true) next = next

-- `none` is the `TaskError` of an unknown status or scope filter.
unfoldable pub task_matches : TaskFilter → Task → Option Bool
task_matches f t =
    and_next (status_passes f t) (and_next (scope_passes f t) (some (others_pass f t)))

unfoldable pub priority_rank : String → ℕ
priority_rank p =
    if str_eq p "urgent"
    then 0
    else if str_eq p "high"
    then 1
    else if str_eq p "normal"
    then 2
    else if str_eq p "low"
    then 3
    else 2

abbrev pub complement : ℕ → ℕ
complement n = if ltb n 0x10FFFF then 0x10FFFF - n else n

-- A complement may be a surrogate, which a text cannot hold here: the key is the code points.
unfoldable pub invert : String → List ℕ
invert String.[] = []
invert (String.◌∷◌ c s) = complement (code c) ∷ invert s

abbrev pub terminal_rank : Task → ℕ
terminal_rank t = if is_terminal t.status_of then 1 else 0

unfoldable pub task_key : Task → ℕ × (ℕ × (List ℕ × String))
task_key t = (terminal_rank t, (priority_rank t.priority_of, (invert t.updated_at, t.task_ref)))

abbrev pub key_order : StrictOrder (ℕ × (ℕ × (List ℕ × String)))
key_order = lex_order nat_order (lex_order nat_order (lex_order (list_order nat_order) text_order))

unfoldable pub sort_tasks : List Task → List Task
sort_tasks = sort key_order task_key

unfoldable pub keep_match : Option Bool → Task → Option (List Task) → Option (List Task)
keep_match none t rest = none
keep_match (some false) t rest = rest
keep_match (some true) t none = none
keep_match (some true) t (some ts) = some (t ∷ ts)

-- The comprehension: the error of any task's test ends it.
unfoldable pub select : TaskFilter → List Task → Option (List Task)
select f [] = some []
select f (t ∷ ts) = keep_match (task_matches f t) t (select f ts)

unfoldable pub sorted_selection : Option (List Task) → Option (List Task)
sorted_selection none = none
sorted_selection (some ts) = some (sort_tasks ts)

unfoldable pub filter_and_sort : TaskFilter → List Task → Option (List Task)
filter_and_sort f ts = sorted_selection (select f ts)
