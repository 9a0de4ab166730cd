-- ===== src/RunLedger/Fields.antt =====
-- The fields of a run ledger record, each by its normalizer of
-- backend/shared/canon_backend_shared/run_ledger.py.
use Prim.Native.Char.{Char, code}
use Prim.Native.String.{◌∷◌ as text_cons, [] as text_nil}
use Prim.Native.Nat.{◌*◌}
use text.Mathlib.Text.{starts_with}
use canon_systems.Base.{
  ℕ, ◌+◌, ◌-◌, String, Bool, true, false, not, ◌&&◌, ◌||◌, Option, none, some, List, [], ◌∷◌, leb,
  eqb, str_eq, non_empty, if◌then◌else◌,
}
use canon_systems.Base.Text.{strip}
use canon_systems.Base.Json.{
  Json, Elements, Members, null, boolean, number, negative, string, array, object, no_elements,
  element, no_members, member, get, has, truth, is_null, count_elements, str_of,
}
use canon_systems.RunLedger.{
  ledger_error, Outcome, good, raise, ◌>>=◌, ◌>>◌, fail_if, text_length, sanitize_ledger_segment,
  reject_forbidden_keys, normalize_sha256_hex, normalize_commit_sha,
}

abbrev pub is_blank : Json → Bool
is_blank null = true
is_blank (string s) = str_eq s ""
is_blank _ = false

abbrev pub is_digit : Char → Bool
is_digit c = leb 48 (code c) && leb (code c) 57

abbrev pub is_code : ℕ → Char → Bool
is_code n c = eqb (code c) n

-- A text that begins with characters of these kinds.
abbrev pub begins : List (Char → Bool) → String → Bool
begins [] s = true
begins (p ∷ ps) (text_cons c s) = p c && begins ps s
begins (p ∷ ps) text_nil = false

-- `^\d{4}-\d{2}-\d{2}T`, for ASCII digits.
unfoldable pub is_date_time : String → Bool
is_date_time s =
    begins
      (is_digit
        ∷ is_digit
        ∷ is_digit
        ∷ is_digit
        ∷ is_code 45
        ∷ is_digit
        ∷ is_digit
        ∷ is_code 45
        ∷ is_digit
        ∷ is_digit
        ∷ is_code 84
        ∷ [])
      s

abbrev pub decimal_from : ℕ → String → Option ℕ
decimal_from n text_nil = some n
decimal_from n (text_cons c s) =
    let rest = decimal_from (n * 10 + (code c - 48)) s in if is_digit c then rest else none

abbrev pub decimal : String → Option ℕ
decimal text_nil = none
decimal (text_cons c s) = decimal_from 0 (text_cons c s)

abbrev pub negated : ℕ → Json
negated n = if eqb n 0 then number 0 else negative (n - 1)

abbrev pub signed : Bool → Option ℕ → Option Json
signed minus none = none
signed minus (some n) = some (if minus then negated n else number n)

-- `int(s)` of decimal digits with a sign; Python also reads `_` between digits.
unfoldable pub int_of_text : String → Option Json
int_of_text text_nil = none
int_of_text (text_cons c s) =
    if eqb (code c) 45
    then signed true (decimal s)
    else if eqb (code c) 43
    then signed false (decimal s)
    else signed false (decimal (text_cons c s))

-- `int(v)`.
unfoldable pub int_of : Json → Option Json
unfolding int_of_text
int_of (number n) = some (number n)
int_of (negative n) = some (negative n)
int_of (boolean true) = some (number 1)
int_of (boolean false) = some (number 0)
int_of (string s) = int_of_text (strip s)
int_of null = none
int_of (array vs) = none
int_of (object ms) = none

abbrev pub is_positive : Json → Bool
is_positive (number n) = leb 1 n
is_positive _ = false

abbrev pub allowed_key : String → Bool
allowed_key k =
    str_eq k "s3_uri"
    || str_eq k "s3_key"
    || str_eq k "s3_bucket"
    || str_eq k "content_sha256"
    || str_eq k "artifact_kind"
    || str_eq k "phase"
    || str_eq k "status"
    || str_eq k "outcome"
    || str_eq k "evidence_subtype"
    || str_eq k "source_label"
    || str_eq k "created_at"
    || str_eq k "byte_length"
    || str_eq k "content_type"
    || str_eq k "schema_version"
    || str_eq k "archive_event_id"
    || str_eq k "agent_run_id"
    || str_eq k "actor_id"
    || str_eq k "s3_version_id"
    || str_eq k "company_id"
    || str_eq k "repository_id"
    || str_eq k "plan_id"
    || str_eq k "task_id"
    || str_eq k "workstream_id"
    || str_eq k "handoff_id"

-- A hash is normalized if it is a text; any other value is copied.
abbrev pub reference_value : String → Json → Outcome Json
unfolding normalize_sha256_hex
reference_value k (string s) =
    if str_eq k "content_sha256"
    then (do h ← normalize_sha256_hex s; good (string h))
    else good (string s)
reference_value k v = good v

unfoldable pub copy_reference : Members → Outcome Members
unfolding reference_value
copy_reference no_members = good no_members
copy_reference (member k v ms) =
    let rest = copy_reference ms in
    if not (allowed_key k) || is_null v
    then rest
    else do value ← reference_value k v; others ← rest; good (member k value others)

unfoldable pub archive_record_to_ledger_reference : Members → Outcome Members
unfolding copy_reference reject_forbidden_keys
archive_record_to_ledger_reference raw = do
  reject_forbidden_keys raw
  out ← copy_reference raw
  fail_if (not (has out "content_sha256")) ledger_error
  fail_if (not (has out "artifact_kind")) ledger_error
  reject_forbidden_keys out
  good out

unfoldable pub normalize_archive_ref_item : Json → Outcome Json
unfolding archive_record_to_ledger_reference
normalize_archive_ref_item (object m) = do r ← archive_record_to_ledger_reference m; good (object r)
normalize_archive_ref_item _ = raise ledger_error

-- `[normalizer(x, i) for i, x in enumerate(raw)]`, up to the first error.
unfoldable pub each : (Json → Outcome Json) → Elements → Outcome Elements
each f no_elements = good no_elements
each f (element v vs) = do w ← f v; ws ← each f vs; good (element w ws)

unfoldable pub normalize_ref_list : ℕ → (Json → Outcome Json) → Json → Outcome Elements
unfolding each
normalize_ref_list max_items normalizer null = good no_elements
normalize_ref_list max_items normalizer (array vs) = do
  fail_if (not (leb (count_elements vs) max_items)) ledger_error
  each normalizer vs
normalize_ref_list max_items normalizer _ = raise ledger_error

module _ (repr : Json → String) where
  unfoldable pub normalize_timestamp : Bool → Json → Outcome String
  unfolding is_date_time
  normalize_timestamp required value =
      if is_blank value then (do fail_if required ledger_error; good "") else do
        let s = strip (str_of repr value)
        fail_if (not (leb (text_length s) 64)) ledger_error
        fail_if (not (is_date_time s)) ledger_error
        good s

  unfoldable pub normalize_optional_str : ℕ → Json → Outcome String
  normalize_optional_str max_len value = if is_null value then good "" else do
    let s = strip (str_of repr value)
    fail_if (not (leb (text_length s) max_len)) ledger_error
    good s

  -- A value that is blank before it is printed is left out.
  unfoldable pub copy_texts : ℕ → List String → Members → Outcome Members
  unfolding normalize_optional_str
  copy_texts max_len [] raw = good no_members
  copy_texts max_len (k ∷ ks) raw =
      let rest = copy_texts max_len ks raw in
      if is_blank (get raw k) then rest else do
        s ← normalize_optional_str max_len (get raw k)
        others ← rest
        good (member k (string s) others)

  -- An entry that is blank once it is stripped is left out too.
  abbrev pub filled : String → String → Members → Members
  filled k s rest = if non_empty s then member k (string s) rest else rest

  unfoldable pub normalize_commit : Json → Outcome Json
  unfolding normalize_commit_sha normalize_optional_str
  normalize_commit (object ent) = if not (has ent "sha") then raise ledger_error else do
    sha ← normalize_commit_sha (str_of repr (get ent "sha"))
    label ← normalize_optional_str 256 (get ent "label")
    good (object (member "sha" (string sha) (filled "label" label no_members)))
  normalize_commit _ = raise ledger_error

  unfoldable pub normalize_commits : Json → Outcome Elements
  unfolding normalize_commit normalize_ref_list
  normalize_commits entries = normalize_ref_list 64 normalize_commit entries

  abbrev pub pull_request_number : String → Json → Outcome Members
  unfolding int_of
  pull_request_number url num =
      if is_blank num then good (member "url" (string url) no_members) else elim (int_of num) [
        | none ↦ raise ledger_error
        | some n ↦ do
          fail_if (not (is_positive n)) ledger_error
          good (member "url" (string url) (member "number" n no_members))
      ]

  unfoldable pub normalize_pull_request : Json → Outcome (Option Members)
  unfolding pull_request_number reject_forbidden_keys
  normalize_pull_request null = good none
  normalize_pull_request (object raw) = do
    let s = strip (str_of repr (get raw "url"))
    fail_if (not (truth (get raw "url"))) ledger_error
    fail_if (not (starts_with s "https://" || starts_with s "http://")) ledger_error
    fail_if (not (leb (text_length s) 4096)) ledger_error
    pr ← pull_request_number s (get raw "number")
    reject_forbidden_keys raw
    good (some pr)
  normalize_pull_request _ = raise ledger_error

  -- `not v or not str(v).strip()`.
  abbrev pub lacking : Json → Bool
  lacking v = not (truth v) || not (non_empty (strip (str_of repr v)))

  abbrev pub copy_filled : List String → Members → Outcome Members
  unfolding normalize_optional_str
  copy_filled [] raw = good no_members
  copy_filled (k ∷ ks) raw =
      let rest = copy_filled ks raw in
      if is_blank (get raw k)
      then rest
      else do s ← normalize_optional_str 4096 (get raw k); others ← rest; good (filled k s others)

  unfoldable pub normalize_deployment : Json → Outcome (Option Members)
  unfolding copy_filled sanitize_ledger_segment reject_forbidden_keys
  normalize_deployment null = good none
  normalize_deployment (object raw) = do
    reject_forbidden_keys raw
    fail_if (lacking (get raw "environment")) ledger_error
    fail_if (lacking (get raw "status")) ledger_error
    env ← sanitize_ledger_segment (str_of repr (get raw "environment"))
    stat ← normalize_optional_str 128 (get raw "status")
    rest ← copy_filled ("deployed_at" ∷ "endpoint_url" ∷ "detail_uri" ∷ []) raw
    good (some (member "environment" (string env) (member "status" (string stat) rest)))
  normalize_deployment _ = raise ledger_error
