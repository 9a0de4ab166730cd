-- ===== src/RunLedger/Tests.antt =====
-- The theorems on the run ledger at a concrete record and table.
use mathlib.Core.List.{Memᴰ}
use canon_systems.Base.{◌≤◌, String, ◌≡◌, refl, false, Option, none, some, [], ◌∷◌, length, leb}
use canon_systems.Base.Text.{strip}
use canon_systems.Base.Json.{
  Json, Members, number, string, array, object, no_elements, no_members, member, contains_text,
}
use canon_systems.RunLedger.{good, build_run_ledger_pk, build_run_ledger_sk}
use canon_systems.RunLedger.Record.{validate_run_ledger_record, ledger_keys_for_record}
use canon_systems.RunLedger.Parts.{Parts, record_members}
use canon_systems.RunLedger.Routes.{
  query_sk_prefix, created, found, listed, Query, put_run_ledger, get_run_ledger, scope_prefix,
}
use canon_systems.RunLedger.Keys.{split_hash, build_run_ledger_keys_split}
use canon_systems.RunLedger.Checked.{IsChecked, validate_run_ledger_record-IsChecked}
use canon_systems.RunLedger.Writes.{
  Answers, put_run_ledger-Answers, put_all, put_all_keeps, put_run_ledger_found,
}
use canon_systems.RunLedger.Reads.{IsInScope, get_run_ledger-IsInScope, get_run_ledger_hides}
use canon_systems.RunLedger.Memory.{ledger_table, empty, with_row}

-- The rows below hold texts, so what `str` prints of other values does not matter.
abbrev no_repr : Json → String
no_repr v = ""

-- A UUID parser that knows one id.
abbrev one_uuid : String → Option String
one_uuid s = some "0f8fad5b-d9cb-469f-a165-70867728950e"

abbrev body : Members
body = member "ledger_run_id" (string "0F8FAD5B-D9CB-469F-A165-70867728950E") (
    member "company_id" (string " acme ") (
      member "repository_id" (string "app") (
        member "plan_id" (string "P1") (
          member "task_id" (string "T1") (
            member "workstream_id" (string "W1") (
              member "handoff_id" (string "H1") (
                member "phase" (string "scoper") (
                  member "phase_status" (string "completed")
                    (member "created_at" (string "2026-01-01T00:00:00Z") no_members)))))))))

abbrev record_of : Members
record_of = member "schema_version" (number 1) (
    member "ledger_run_id" (string "0f8fad5b-d9cb-469f-a165-70867728950e") (
      member "company_id" (string "acme") (
        member "repository_id" (string "app") (
          member "plan_id" (string "P1") (
            member "task_id" (string "T1") (
              member "workstream_id" (string "W1") (
                member "handoff_id" (string "H1") (
                  member "phase" (string "scoper") (
                    member "phase_status" (string "completed") (
                      member "created_at" (string "2026-01-01T00:00:00Z") (
                        member "archive_refs" (array no_elements) (
                          member "evidence_refs" (array no_elements) (
                            member "validation_outcomes" (object no_members) (
                              member "commits" (array no_elements) (
                                member "source_event_ids" (array no_elements)
                                  no_members)))))))))))))))

abbrev key : String × String
key = ("acme#app#run_ledger", "P1#T1#W1#0f8fad5b-d9cb-469f-a165-70867728950e")

body-valid : validate_run_ledger_record no_repr one_uuid body ≡ good record_of
unfolding validate_run_ledger_record strip contains_text
body-valid = refl

record_of-key : ledger_keys_for_record no_repr one_uuid record_of ≡ good key
unfolding ledger_keys_for_record strip contains_text
record_of-key = refl

abbrev by_id : Query
by_id = record {
  company_id = "acme";
  repository_id = "app";
  plan_id = "P1";
  task_id = "T1";
  workstream_id = "W1 ";
  ledger_run_id = some "0f8fad5b-d9cb-469f-a165-70867728950e";
  handoff_id = some "H1";
  limit = 50;
}

abbrev scoped : Query
scoped = record {
  company_id = "acme";
  repository_id = "app";
  plan_id = "P1";
  task_id = "T1";
  workstream_id = "W1";
  ledger_run_id = none;
  handoff_id = some "H1";
  limit = 1;
}

-- A row of the same scope, of another handoff.
abbrev other_row : Members
other_row = member "handoff_id" (string "H2") no_members

abbrev pk : String
pk = "acme#app#run_ledger"

abbrev two_rows : ledger_table.Table
two_rows = with_row (with_row empty key record_of) (pk, "P1#T1#W1#other") other_row

pk-built : build_run_ledger_pk "acme" "app" ≡ good pk
unfolding build_run_ledger_pk strip contains_text
pk-built = refl

sk-built :
    build_run_ledger_sk "P1" "T1" "W1 " "0f8fad5b-d9cb-469f-a165-70867728950e"
    ≡ good "P1#T1#W1#0f8fad5b-d9cb-469f-a165-70867728950e"
unfolding build_run_ledger_sk strip contains_text
sk-built = refl

prefix-built : scope_prefix scoped ≡ good "P1#T1#W1#"
unfolding scope_prefix strip contains_text
prefix-built = refl

body-put :
    put_run_ledger no_repr one_uuid ledger_table empty body
    ≡ (created record_of, with_row empty key record_of)
unfolding put_run_ledger strip contains_text
body-put = refl

nothing-listed : get_run_ledger ledger_table two_rows scoped ≡ listed [] 0
unfolding get_run_ledger strip contains_text
nothing-listed = refl

build_run_ledger_keys_split_example :
    (split_hash pk ≡ strip "acme" ∷ strip "app" ∷ "run_ledger" ∷ [])
    × (split_hash "P1#T1#W1#0f8fad5b-d9cb-469f-a165-70867728950e"
        ≡ strip "P1" ∷ strip "T1" ∷ strip "W1 " ∷ strip "0f8fad5b-d9cb-469f-a165-70867728950e" ∷ [])
build_run_ledger_keys_split_example =
    build_run_ledger_keys_split "acme" "app" "P1" "T1" "W1 " "0f8fad5b-d9cb-469f-a165-70867728950e"
      pk "P1#T1#W1#0f8fad5b-d9cb-469f-a165-70867728950e" pk-built sk-built

validate_run_ledger_record-IsChecked_example :
    (p : Parts) × (record_of ≡ record_members p) × IsChecked one_uuid p
validate_run_ledger_record-IsChecked_example =
    validate_run_ledger_record-IsChecked no_repr one_uuid body record_of body-valid

put_run_ledger-Answers_example : Answers no_repr one_uuid ledger_table empty body record_of key
put_run_ledger-Answers_example =
    put_run_ledger-Answers no_repr one_uuid ledger_table empty body record_of key body-valid
      record_of-key

put_all_keeps_example :
    ledger_table.get_item (put_all no_repr one_uuid ledger_table two_rows (body ∷ [])) key
    ≡ some record_of
put_all_keeps_example =
    put_all_keeps no_repr one_uuid ledger_table (body ∷ []) two_rows key record_of refl

put_run_ledger_found_example :
    get_run_ledger ledger_table
      (put_all no_repr one_uuid ledger_table (with_row empty key record_of) (body ∷ []))
      by_id
    ≡ found record_of
put_run_ledger_found_example =
    put_run_ledger_found no_repr one_uuid ledger_table empty (with_row empty key record_of) body
      record_of (body ∷ []) pk "P1#T1#W1#0f8fad5b-d9cb-469f-a165-70867728950e" by_id body-valid
      record_of-key body-put pk-built refl sk-built refl refl

abbrev wider : Query
wider = record scoped { limit = 5 }

one-listed : get_run_ledger ledger_table two_rows wider ≡ listed (record_of ∷ []) 1
unfolding get_run_ledger strip contains_text
one-listed = refl

get_run_ledger-IsInScope_example :
    (1 ≡ length (record_of ∷ []))
    × (1 ≤ 5)
    × ((r : Members) → Memᴰ r (record_of ∷ []) → IsInScope ledger_table two_rows wider r)
get_run_ledger-IsInScope_example =
    get_run_ledger-IsInScope ledger_table two_rows wider (record_of ∷ []) 1 refl one-listed

get_run_ledger_hides_example : leb 1 0 ≡ false
unfolding query_sk_prefix
get_run_ledger_hides_example =
    get_run_ledger_hides ledger_table two_rows scoped [] 0 pk "P1#T1#W1#" other_row refl
      nothing-listed pk-built prefix-built refl (Memᴰ.head refl) refl
