-- ===== src/StateApi/Tests.antt =====
-- The theorems on the state API at a concrete table.
use canon_systems.Base.{
  ◌+◌, String, ◌≡◌, ◌≢◌, refl, ◌⊎◌, Bool, true, none, some, List, [], ◌∷◌, arith, str_eq,
  str_differ, if◌then◌else◌,
}
use canon_systems.Dynamo.{Item, Key, row, conditional_check_failed}
use canon_systems.Dynamo.Memory.{Rows, no_rows, put_row, memory}
use canon_systems.StateApi.Rows.{
  ScopeIds, CheckpointPutRequest, LeaseAcquireRequest, LeaseRenewRequest, LeaseReleaseRequest,
  LeaseAcquireResponse, LeaseRenewResponse, item_has_live_lease, pk_sk,
}
use canon_systems.StateApi.Store.{
  put_condition, put_update, put_checkpoint, acquire_lease, acquire_lease_fresh, fresh_condition,
  renew_lease, renew_condition, release_lease,
}
use canon_systems.StateApi.Leases.{
  Response, success, crash, acquired, lease_acquire, acquire_new, lease_renew, lease_release,
}
use canon_systems.StateApi.Puts.{put_row as row_after}
use canon_systems.StateApi.Checkpoints.{
  PutResult, CheckpointEvent, checkpoint_event, put_checkpoint_route,
}
use canon_systems.StateApi.Calls.{Call, acquires, renews, releases, puts, run}
use canon_systems.StateApi.Exclusion.{Holds, run-Holds}
use canon_systems.StateApi.Outcomes.{Admits, IsPut, IsPut-won, put_admitted, put_twice}
use canon_systems.StateApi.Refusals.{Refused, put-Refused}
use canon_systems.StateApi.Versions.{version, events_of, run-version}
use canon_systems.StateApi.Grants.{WasGranted, lease_acquire-granted}
use canon_systems.StateApi.Keys.{scope_ids, pk_sk_collides}

abbrev ids : ScopeIds
ids = scope_ids "acme" "app" "p1" "E1-T1" "ws-main"

abbrev key : Key
key = pk_sk ids

-- A row at version 3, leased to run-1 under tok-1 until 100.
abbrev leased : Item
leased = record {
  str = λ a.
      if str_eq a "lease_token"
      then some "tok-1"
      else if str_eq a "lease_owner_agent_run_id"
      then some "run-1"
      else none;
  num = λ a.
      if str_eq a "lease_expires_at"
      then some 100
      else if str_eq a "lease_acquired_at"
      then some 40
      else if str_eq a "state_version"
      then some 3
      else none;
  doc = λ a. none;
}

abbrev table : Rows
table = put_row no_rows key leased

abbrev put_with : String → CheckpointPutRequest
put_with token = record {
  scope = ids;
  handoff_id = "h1";
  phase = "implementer";
  phase_status = "completed";
  state_version = 3;
  lease_token = token;
  inputs = none;
  outputs = none;
  decisions = none;
  open_questions = none;
}

abbrev acquire_by : String → LeaseAcquireRequest
acquire_by owner = record {
  scope = ids;
  owner_agent_run_id = owner;
  owner_actor_id = "ana";
  ttl_seconds = 60;
}

abbrev renewal : LeaseRenewRequest
renewal = record { scope_ids = ids; lease_token = "tok-1"; ttl_seconds = 60 }

abbrev release_with : String → LeaseReleaseRequest
release_with token = record { scope_ids = ids; lease_token = token }

at_key : table key ≡ some leased
unfolding pk_sk
at_key = refl

leased-Holds : Holds leased "tok-1" "run-1" 100
leased-Holds = record { token_is = refl; owner_is = refl; expires_is = refl }

-- Strangers that try everything: to acquire, renew, release and put.
abbrev strangers : List Call
strangers =
    acquires (acquire_by "run-2") "tok-2" 50 none none 51
    ∷ renews (record renewal { lease_token = "tok-2" }) 52 none
    ∷ releases (release_with "tok-2")
    ∷ puts (put_with "tok-2") 53 "t53" "ev-1" none none
    ∷ []

run-Holds_example : run memory table strangers key ≡ some leased
run-Holds_example =
    run-Holds memory table key leased "tok-1" "run-1" 100 strangers at_key leased-Holds (
      (omega arith, str_differ "run-2" "run-1" refl),
      (
        str_differ "tok-2" "tok-1" refl,
        (str_differ "tok-2" "tok-1" refl, (str_differ "tok-2" "tok-1" refl, tt)),
      ),
    )

run-version_example :
    version (run memory table strangers key)
    ≡ version (table key) + events_of memory table key strangers
run-version_example = run-version memory table key strangers

abbrev holder_put : CheckpointPutRequest
holder_put = put_with "tok-1"

abbrev reply : PutResult Rows
reply = put_checkpoint_route memory holder_put 50 "t50" "ev-1" (some leased) none table

abbrev won : CheckpointEvent
won =
    checkpoint_event holder_put (some leased) "t50" "ev-1"
      (row_after holder_put "t50" "ev-1" (some leased))

abbrev no_events : List CheckpointEvent
no_events = []

reply-won : reply.emitted ≡ won ∷ []
unfolding put_checkpoint_route put_checkpoint put_condition pk_sk checkpoint_event put_update
reply-won = refl

leased-Admits : Admits holder_put 50 (table key)
unfolding pk_sk
leased-Admits = record {
  expires = 100;
  version_is = refl;
  token_is = refl;
  expires_is = refl;
  in_time = omega arith;
}

IsPut-won_example :
    Admits holder_put 50 (table key)
    × ((new : Item) × (reply.table key ≡ some new)
        × IsPut holder_put "t50" "ev-1" (row (table key)) new)
    × (no_events ≡ [])
    × (won.state_version ≡ 3 + 1)
    × (won.event_id ≡ "ev-1")
    × ((j : Key) → j ≢ key → reply.table j ≡ table j)
IsPut-won_example =
    IsPut-won memory holder_put 50 "t50" "ev-1" (some leased) none table won [] reply-won

put_admitted_example :
    ((e : CheckpointEvent) × (reply.emitted ≡ e ∷ []))
    ⊎ ((code : String) × (code ≢ conditional_check_failed) × (reply.response ≡ crash code))
put_admitted_example =
    put_admitted memory holder_put 50 "t50" "ev-1" (some leased) none table leased-Admits

abbrev second_reply : PutResult Rows
second_reply =
    put_checkpoint_route memory (put_with "tok-9") 60 "t60" "ev-2" (some leased) none reply.table

put_twice_example : (second_reply.table ≡ reply.table) × (second_reply.emitted ≡ [])
put_twice_example =
    put_twice memory holder_put (put_with "tok-9") 50 60 "t50" "ev-1" "t60" "ev-2" (some leased)
      none (some leased) none table won [] reply-won refl refl

abbrev refused_reply : PutResult Rows
refused_reply =
    put_checkpoint_route memory (put_with "tok-2") 50 "t50" "ev-1" (some leased) (some leased) table

refused_reply-silent : refused_reply.emitted ≡ []
unfolding put_checkpoint_route put_checkpoint put_condition pk_sk
refused_reply-silent = refl

put-Refused_example :
    Refused (put_with "tok-2") 50 key leased refused_reply.response
    ⊎ ((code : String) × (code ≢ conditional_check_failed) × (refused_reply.response ≡ crash code))
put-Refused_example =
    put-Refused memory (put_with "tok-2") 50 "t50" "ev-1" (some leased) table leased 3 at_key refl
      refused_reply-silent

abbrev missing_reply : PutResult Rows
missing_reply = put_checkpoint_route memory holder_put 50 "t50" "ev-1" none none no_rows

abbrev granted : Response LeaseAcquireResponse × Rows
granted = lease_acquire memory (acquire_by "run-2") "tok-2" 50 none none 51 no_rows

granted-success : granted.0 ≡ success (acquired (acquire_by "run-2") "tok-2" 50 110)
unfolding lease_acquire acquire_new acquire_lease acquire_lease_fresh fresh_condition
granted-success = refl

lease_acquire-granted_example :
    WasGranted memory
      (acquire_by "run-2")
      50
      (acquired (acquire_by "run-2") "tok-2" 50 110)
      no_rows
      granted.1
lease_acquire-granted_example =
    lease_acquire-granted memory (acquire_by "run-2") "tok-2" 50 none none 51 no_rows
      (acquired (acquire_by "run-2") "tok-2" 50 110) granted-success

leased-live : item_has_live_lease leased 50 ≡ true
unfolding item_has_live_lease
leased-live = refl

abbrev renewed : Response LeaseRenewResponse × Rows
renewed = lease_renew memory renewal 50 none table

abbrev renewed_answer : LeaseRenewResponse
renewed_answer = record { lease_token = "tok-1"; expires_at = 110 }

renewed-success : renewed.0 ≡ success renewed_answer
unfolding lease_renew renew_lease renew_condition pk_sk
renewed-success = refl

abbrev freed : Response Bool × Rows
freed = lease_release memory (release_with "tok-1") table

freed-success : freed.0 ≡ success true
unfolding lease_release release_lease pk_sk
freed-success = refl

pk_sk_collides_example :
    pk_sk (scope_ids "acme#app" "web" "p1" "E1-T1" "ws-main")
    ≡ pk_sk (scope_ids "acme" "app#web" "p1" "E1-T1" "ws-main")
pk_sk_collides_example = pk_sk_collides "acme" "app" "web" "p1" "E1-T1" "ws-main"
