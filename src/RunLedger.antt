-- ===== src/RunLedger.antt =====
-- The run ledger, of backend/shared/canon_backend_shared/run_ledger.py: errors as values, key
-- segments and keys.
--
-- `packet_archive.py` has the segments and hashes that the ledger shares with the archive. The two
-- validation errors are different classes. What `str` prints of a value that is no text, and
-- `str(uuid.UUID(s))`, of the standard library, are arguments.
pub mod Fields
pub mod Parts
pub mod Record
pub mod Routes
pub mod Keys
pub mod Writes
pub mod References
pub mod Checked
pub mod Reads
pub mod Memory
mod Tests
use Prim.Native.Char.{Char, code}
use Prim.Native.String.{◌∷◌, []}
use canon_systems.Base.{
  ℕ, suc, String, Bool, true, false, not, ◌&&◌, ◌||◌, Option, none, some, leb, eqb, str_eq,
  non_empty, if◌then◌else◌,
}
use canon_systems.Base.Text.{strip, lower}
use canon_systems.Base.Json.{Json, Members, null, string, get, has, str_of, contains_text}
use canon_systems.TaskPlane.{any_forbidden, hashed}

-- `RunLedgerValidationError`, `ArchiveValidationError`, `KeyError`, and what `int` raises.
pub data Raised : Type 0 where
  ledger_error archive_error key_error not_integer : Raised

pub data Outcome {ℓ} (A : Type ℓ) : Type ℓ where
  good : A → Outcome A
  raise : Raised → Outcome A

-- What follows is done with the value, unless there was an error.
infixl 5 ◌>>=◌ ◌>>◌
abbrev pub ◌>>=◌ {ℓ κ} :
    {Raw : Type ℓ} {Next : Type κ} → Outcome Raw → (Raw → Outcome Next) → Outcome Next
raise e >>= next = raise e
good value >>= next = next value

abbrev pub ◌>>◌ {ℓ} : {Next : Type ℓ} → Outcome (Unit {0}) → Outcome Next → Outcome Next
first >> next = first >>= (λ _. next)

-- The error, if the test holds.
abbrev pub fail_if : Bool → Raised → Outcome (Unit {0})
fail_if true e = raise e
fail_if false e = good tt

abbrev pub text_length : String → ℕ
text_length [] = 0
text_length (c ∷ s) = suc (text_length s)

-- The guards of `sanitize_key_segment`, from the last to the first.
abbrev pub after_dots : String → Outcome String
after_dots s = do fail_if (not (leb (text_length s) 256)) archive_error; good s

abbrev pub after_paths : String → Outcome String
after_paths s = do fail_if (str_eq s "." || contains_text s "..") archive_error; after_dots s

abbrev pub after_empty : String → Outcome String
after_empty s = do
  fail_if (contains_text s "/" || contains_text s "\\") archive_error
  after_paths s

unfoldable pub sanitize_key_segment : String → Outcome String
sanitize_key_segment raw = do
  let s = strip raw
  fail_if (not (non_empty s)) archive_error
  after_empty s

unfoldable pub sanitize_ledger_segment : String → Outcome String
unfolding sanitize_key_segment any_forbidden
sanitize_ledger_segment raw = do
  s ← sanitize_key_segment raw
  fail_if (any_forbidden s) ledger_error
  good s

unfoldable pub build_run_ledger_pk : String → String → Outcome String
unfolding sanitize_ledger_segment
build_run_ledger_pk company_id repository_id = do
  c ← sanitize_ledger_segment company_id
  r ← sanitize_ledger_segment repository_id
  good (hashed c (hashed r "run_ledger"))

unfoldable pub build_run_ledger_sk : String → String → String → String → Outcome String
unfolding sanitize_ledger_segment
build_run_ledger_sk plan_id task_id workstream_id ledger_run_id = do
  p ← sanitize_ledger_segment plan_id
  t ← sanitize_ledger_segment task_id
  w ← sanitize_ledger_segment workstream_id
  r ← sanitize_ledger_segment ledger_run_id
  good (hashed p (hashed t (hashed w r)))

unfoldable pub parse_ledger_run_id : (String → Option String) → String → Outcome String
parse_ledger_run_id uuid value = do
  let s = strip value
  fail_if (not (non_empty s)) ledger_error
  fail_if (not (leb (text_length s) 256)) ledger_error
  elim (uuid s) [ none ↦ raise ledger_error | some id ↦ good id ]

-- `FORBIDDEN_VALUE_KEYS.intersection(m.keys())`.
abbrev pub has_body : Members → Bool
has_body m = has m "body" || has m "body_base64" || has m "content"

unfoldable pub reject_forbidden_keys : Members → Outcome (Unit {0})
reject_forbidden_keys m = fail_if (has_body m) ledger_error

abbrev pub is_hex : Char → Bool
is_hex c = (leb 48 (code c) && leb (code c) 57) || (leb 97 (code c) && leb (code c) 102)

unfoldable pub all_hex : String → Bool
all_hex [] = true
all_hex (c ∷ s) = is_hex c && all_hex s

unfoldable pub normalize_sha256_hex : String → Outcome String
unfolding all_hex
normalize_sha256_hex value = do
  let v = lower (strip value)
  fail_if (not (all_hex v && eqb (text_length v) 64)) archive_error
  good v

unfoldable pub normalize_commit_sha : String → Outcome String
unfolding all_hex
normalize_commit_sha raw = do
  let s = lower (strip raw)
  fail_if (not (all_hex s && leb 7 (text_length s) && leb (text_length s) 40)) ledger_error
  good s

-- `data[k]`.
unfoldable pub entry : Members → String → Outcome Json
entry m k = if has m k then good (get m k) else raise key_error
