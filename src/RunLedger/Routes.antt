-- ===== src/RunLedger/Routes.antt =====
-- The routes of backend/state-api/state_api/run_ledger.py, with `RunLedgerStore` of storage.py.
--
-- The table is a parameter, the record `LedgerTable`; its rows are the records without their keys.
-- `json.dumps` with sorted keys is compared as the equality of the values with their keys sorted.
use mathlib.Core.List.{Memᴰ}
use canon_systems.Base.{
  ◌≤◌, ℕ, String, ◌≡◌, Bool, true, false, not, ◌&&◌, Option, none, some, List, [], ◌∷◌, leb, eqb,
  str_eq, non_empty, if◌then◌else◌, length,
}
use canon_systems.Base.Text.{str_lt}
use canon_systems.Base.Json.{
  Json, Elements, Members, null, boolean, number, negative, string, array, object, no_elements,
  element, no_members, member, get,
}
use canon_systems.Dynamo.{Key}
use canon_systems.Dynamo.Expressions.{
  PutCondition, pk_not_exists, sk_not_exists, and_also, Put, stored, condition_failed, failed,
  PutLaw, KeyCondition, pk_is, sk_begins_with, both_keys, selects,
}
use canon_systems.TaskPlane.{hashed}
use canon_systems.RunLedger.{
  Raised, ledger_error, Outcome, good, raise, ◌>>=◌, sanitize_ledger_segment, build_run_ledger_pk,
  build_run_ledger_sk,
}
use canon_systems.RunLedger.Record.{validate_run_ledger_record, ledger_keys_for_record}

abbrev pub insert_member : String → Json → Members → Members
insert_member k v no_members = member k v no_members
insert_member k v (member j w ms) =
    let rest = insert_member k v ms in
    if str_lt j k then member j w rest else member k v (member j w ms)

unfoldable mutual
  pub sorted : Json → Json
  sorted (object ms) = object (sorted_members ms)
  sorted (array vs) = array (sorted_elements vs)
  sorted null = null
  sorted (boolean b) = boolean b
  sorted (number n) = number n
  sorted (negative n) = negative n
  sorted (string s) = string s

  pub sorted_members : Members → Members
  sorted_members no_members = no_members
  sorted_members (member k v ms) = insert_member k (sorted v) (sorted_members ms)

  pub sorted_elements : Elements → Elements
  sorted_elements no_elements = no_elements
  sorted_elements (element v vs) = element (sorted v) (sorted_elements vs)

unfoldable mutual
  pub same : Json → Json → Bool
  same null null = true
  same (boolean true) (boolean b) = b
  same (boolean false) (boolean b) = not b
  same (number n) (number m) = eqb n m
  same (negative n) (negative m) = eqb n m
  same (string s) (string t) = str_eq s t
  same (array vs) (array ws) = same_elements vs ws
  same (object ms) (object ns) = same_members ms ns
  same _ _ = false

  pub same_members : Members → Members → Bool
  same_members no_members no_members = true
  same_members (member k v ms) (member j w ns) = str_eq k j && (same v w && same_members ms ns)
  same_members _ _ = false

  pub same_elements : Elements → Elements → Bool
  same_elements no_elements no_elements = true
  same_elements (element v vs) (element w ws) = same v w && same_elements vs ws
  same_elements _ _ = false

-- `json.dumps(a, sort_keys=True) == json.dumps(b, sort_keys=True)`.
abbrev pub same_dump : Members → Members → Bool
unfolding sorted same
same_dump a b = same (sorted (object a)) (sorted (object b))

abbrev pub both_dump : Outcome Members → Outcome Members → Outcome Bool
unfolding same_dump
both_dump (good a) (good b) = good (same_dump a b)
both_dump (good a) (raise e) = raise e
both_dump (raise e) b = raise e

-- A `RunLedgerValidationError` of either record says that they differ; another error is raised.
abbrev pub or_false : Outcome Bool → Outcome Bool
or_false (raise ledger_error) = good false
or_false r = r

-- The table: `put_item` with a condition, and a query, which gives at most as many rows as its
-- limit, each of them a row whose key meets the key condition.
pub record LedgerTable : Type 1 where
  pub Table : Type 0
  pub get_item : Table → Key → Option Members
  pub put_item : Table → Key → PutCondition → Members → Put Table
  pub query : Table → KeyCondition → ℕ → List Members
  pub put_law : PutLaw Table Members get_item put_item
  pub query_limit : (t : Table) (c : KeyCondition) (n : ℕ) → length (query t c n) ≤ n
  pub query_rows :
      (t : Table) (c : KeyCondition) (n : ℕ) (r : Members)
      → Memᴰ r (query t c n)
      → (k : Key) × (get_item t k ≡ some r) × (selects c k ≡ true)

module _ (db : LedgerTable) where
  open db use {Table, put_item, query}

  -- `attribute_not_exists(pk) AND attribute_not_exists(sk)`
  unfoldable pub put_if_absent : Table → Key → Members → Put Table
  put_if_absent t k item = put_item t k (and_also pk_not_exists sk_not_exists) item

  -- `pk = :pk AND begins_with(sk, :pre)`
  unfoldable pub query_sk_prefix : Table → String → String → ℕ → List Members
  query_sk_prefix t pk sk_prefix limit =
      query t (both_keys (pk_is pk) (sk_begins_with sk_prefix)) limit

-- The answers: a record, the items, a 400, a 404, a 409, or an exception that the route lets out.
pub data Reply : Type 0 where
  created unchanged found : Members → Reply
  listed : List Members → ℕ → Reply
  invalid missing conflicting invalid_limit : Reply
  crashed : Raised → Reply
  store_failed : String → Reply

abbrev pub refused : Raised → Reply
refused ledger_error = invalid
refused e = crashed e

-- `handoff_id is not None and rec.get("handoff_id") != handoff_id`.
abbrev pub of_handoff : Option String → Members → Bool
of_handoff none rec = true
of_handoff (some h) rec = elim (get rec "handoff_id") [ string s ↦ str_eq s h | _ ↦ false ]

unfoldable pub records_of : Option String → List Members → List Members
records_of h [] = []
records_of h (r ∷ rs) = let rest = records_of h rs in if of_handoff h r then r ∷ rest else rest

abbrev pub is_named : Option String → Bool
is_named none = false
is_named (some s) = non_empty s

abbrev pub name_or_empty : Option String → String
name_or_empty none = ""
name_or_empty (some s) = s

abbrev pub on_equivalent : Members → Outcome Bool → Reply
on_equivalent old (good true) = unchanged old
on_equivalent old (good false) = conflicting
on_equivalent old (raise e) = crashed e

module _ (repr : Json → String) (uuid : String → Option String) where
  unfoldable pub run_ledger_items_equivalent : Members → Members → Outcome Bool
  unfolding validate_run_ledger_record both_dump
  run_ledger_items_equivalent a b =
      or_false (
        both_dump (validate_run_ledger_record repr uuid a) (validate_run_ledger_record repr uuid b))

module _ (repr : Json → String) (uuid : String → Option String) (db : LedgerTable) where
  open db use {Table, get_item}

  -- After a failed condition: the row that is read again.
  unfoldable pub on_existing : Members → Option Members → Reply
  unfolding run_ledger_items_equivalent
  on_existing r none = conflicting
  on_existing r (some old) = on_equivalent old (run_ledger_items_equivalent repr uuid old r)

  unfoldable pub finish_put : Table → Key → Members → Put Table → Reply × Table
  unfolding on_existing
  finish_put t k r (stored t') = (created r, t')
  finish_put t k r condition_failed = (on_existing r (get_item t k), t)
  finish_put t k r (failed code) = (store_failed code, t)

  abbrev pub put_at : Table → Members → Outcome (String × String) → Reply × Table
  unfolding finish_put put_if_absent
  put_at t r (good k) = finish_put t k r (put_if_absent db t k r)
  put_at t r (raise e) = (crashed e, t)

  abbrev pub put_record : Table → Outcome Members → Reply × Table
  unfolding put_at ledger_keys_for_record
  put_record t (good r) = put_at t r (ledger_keys_for_record repr uuid r)
  put_record t (raise e) = (refused e, t)

  unfoldable pub put_run_ledger : Table → Members → Reply × Table
  unfolding put_record validate_run_ledger_record
  put_run_ledger t body = put_record t (validate_run_ledger_record repr uuid body)

-- The parameters of a GET.
pub record Query : Type 0 where
  pub company_id : String
  pub repository_id : String
  pub plan_id : String
  pub task_id : String
  pub workstream_id : String
  pub ledger_run_id : Option String
  pub handoff_id : Option String
  pub limit : ℕ

-- `f"{p}#{t}#{w}#"`.
unfoldable pub scope_prefix : Query → Outcome String
unfolding sanitize_ledger_segment
scope_prefix q = do
  p ← sanitize_ledger_segment q.plan_id
  t ← sanitize_ledger_segment q.task_id
  w ← sanitize_ledger_segment q.workstream_id
  good (hashed p (hashed t (hashed w "")))

abbrev pub found_row : Option String → Option Members → Reply
found_row h none = missing
found_row h (some r) = if is_named h && not (of_handoff h r) then missing else found r

abbrev pub reply_rows : List Members → Reply
reply_rows rs = listed rs (length rs)

module _ (db : LedgerTable) where
  open db use {Table, get_item}

  abbrev pub get_by_id : Table → Query → String → Outcome String → Reply
  get_by_id t q pk (raise e) = refused e
  get_by_id t q pk (good sk) = found_row q.handoff_id (get_item t (pk, sk))

  unfoldable pub get_scoped : Table → Query → String → Outcome String → Reply
  unfolding records_of query_sk_prefix
  get_scoped t q pk (raise e) = refused e
  get_scoped t q pk (good pre) =
      reply_rows (records_of q.handoff_id (query_sk_prefix db t pk pre q.limit))

  unfoldable pub get_at : Table → Query → Outcome String → Reply
  unfolding get_scoped build_run_ledger_sk scope_prefix
  get_at t q (raise e) = refused e
  get_at t q (good pk) =
      if is_named q.ledger_run_id
      then get_by_id t q pk
          (build_run_ledger_sk q.plan_id q.task_id q.workstream_id (name_or_empty q.ledger_run_id))
      else get_scoped t q pk (scope_prefix q)

  unfoldable pub get_run_ledger : Table → Query → Reply
  unfolding get_at build_run_ledger_pk
  get_run_ledger t q =
      if not (leb 1 q.limit && leb q.limit 200)
      then invalid_limit
      else get_at t q (build_run_ledger_pk q.company_id q.repository_id)
