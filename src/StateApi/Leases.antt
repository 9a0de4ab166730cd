-- ===== src/StateApi/Leases.antt =====
-- backend/state-api/state_api/leases.py: the acquire, renew and release routes.
--
-- A handler reads the row and then writes it, and other requests may come between. So the
-- handlers take what their reads return as arguments: `item` for the first read and `again` for
-- the one after a failed condition. Reads of the same table are the sequential case. The clock
-- and the generated token are arguments too.
use canon_systems.Base.{
  ℕ, ◌+◌, String, Bool, true, false, not, Option, none, some, leb, str_eq, get_or, if◌then◌else◌,
}
use canon_systems.Dynamo.{Item, Key, Reply, done, failed, conditional_check_failed, Dynamo}
use canon_systems.StateApi.Rows.{
  LeaseAcquireRequest, LeaseAcquireResponse, LeaseRenewRequest, LeaseRenewResponse,
  LeaseReleaseRequest, ConflictError, conflict_error, item_has_live_lease, pk_sk,
}
use canon_systems.StateApi.Store.{
  Released, answer, raised, acquire_lease, renew_lease, release_lease,
}

-- What a route ends with: a body, a 409, a 404 with the keys, or an exception that is not caught.
pub data Response (A : Type 0) : Type 0 where
  success : A → Response A
  conflict : ConflictError → Response A
  not_found : Key → Response A
  crash : String → Response A

abbrev pub lease_held : Item → ConflictError
lease_held item = record {
  error = "lease_held";
  expected = none;
  actual = none;
  owner_agent_run_id = some (get_or (item.str "lease_owner_agent_run_id") "");
  expires_at = item.num "lease_expires_at";
}

abbrev pub is_live : Option Item → ℕ → Bool
is_live none now = false
is_live (some item) now = item_has_live_lease item now

-- `_now()` is called once more for the row that is read after a lost race.
unfoldable pub after_lost_race : Option Item → ℕ → String → Response LeaseAcquireResponse
after_lost_race none later code = crash code
after_lost_race (some fresh) later code =
    if item_has_live_lease fresh later then conflict (lease_held fresh) else crash code

abbrev pub acquired : LeaseAcquireRequest → String → ℕ → ℕ → LeaseAcquireResponse
acquired body token acquired_at expires_at = record {
  lease_token = token;
  expires_at = expires_at;
  acquired_at = acquired_at;
  owner_agent_run_id = body.owner_agent_run_id;
  owner_actor_id = body.owner_actor_id;
}

-- Why a renewal failed, from the row that is read after it.
abbrev pub renewal_error_of : Option String → Option ℕ → String → ℕ → String
renewal_error_of none expires lease_token now = "lease_token_mismatch"
renewal_error_of (some db_tok) expires lease_token now =
    if not (str_eq db_tok lease_token)
    then "lease_token_mismatch"
    else if leb (get_or expires 0) now
    then "lease_expired"
    else "lease_token_mismatch"

abbrev pub renewal_error : Option Item → LeaseRenewRequest → ℕ → String
renewal_error none body now = "lease_expired"
renewal_error (some item) body now =
    renewal_error_of (item.str "lease_token") (item.num "lease_expires_at") body.lease_token now

module _ (db : Dynamo) where
  open db use {Table}

  abbrev pub finish_fresh :
      LeaseAcquireRequest
      → String
      → ℕ
      → Option Item
      → ℕ
      → Table
      → Reply Table
      → Response LeaseAcquireResponse × Table
  finish_fresh body token now again later t (done t' i) =
      (success (acquired body token now (now + body.ttl_seconds)), t')
  finish_fresh body token now again later t (failed code) =
      if str_eq code conditional_check_failed
      then (after_lost_race again later code, t)
      else (crash code, t)

  unfoldable pub acquire_new :
      LeaseAcquireRequest
      → String
      → ℕ
      → Option Item
      → ℕ
      → Table
      → Response LeaseAcquireResponse × Table
  unfolding after_lost_race
  acquire_new body token now again later t = finish_fresh body token now again later t (
      acquire_lease db t (pk_sk body.scope)
        (record {
          token = token;
          owner_agent_run_id = body.owner_agent_run_id;
          owner_actor_id = body.owner_actor_id;
          acquired_at = now;
          expires_at = now + body.ttl_seconds;
        })
        now body.scope false)

  abbrev pub finish_extend :
      LeaseAcquireRequest
      → String
      → ℕ
      → ℕ
      → Table
      → Reply Table
      → Response LeaseAcquireResponse × Table
  finish_extend body token acquired_at expires_at t (done t' i) =
      (success (acquired body token acquired_at expires_at), t')
  finish_extend body token acquired_at expires_at t (failed code) =
      if str_eq code conditional_check_failed
      then (conflict (conflict_error "lease_held"), t)
      else (crash code, t)

  -- The same owner: the lease is extended and the token kept. `int(item["lease_acquired_at"])`
  -- raises where the row has none.
  abbrev pub extend_since :
      LeaseAcquireRequest → String → ℕ → Table → Option ℕ → Response LeaseAcquireResponse × Table
  extend_since body token now t none = (crash "KeyError", t)
  extend_since body token now t (some acquired_at) =
      finish_extend body token acquired_at (now + body.ttl_seconds) t (
        acquire_lease db t (pk_sk body.scope)
          (record {
            token = token;
            owner_agent_run_id = body.owner_agent_run_id;
            owner_actor_id = body.owner_actor_id;
            acquired_at = acquired_at;
            expires_at = now + body.ttl_seconds;
          })
          now body.scope true)

  unfoldable pub acquire_again :
      LeaseAcquireRequest → Item → ℕ → Table → Response LeaseAcquireResponse × Table
  acquire_again body item now t =
      extend_since body (get_or (item.str "lease_token") "") now t (item.num "lease_acquired_at")

  unfoldable pub lease_acquire :
      LeaseAcquireRequest
      → String
      → ℕ
      → Option Item
      → Option Item
      → ℕ
      → Table
      → Response LeaseAcquireResponse × Table
  lease_acquire body token now none again later t = acquire_new body token now again later t
  lease_acquire body token now (some item) again later t =
      if item_has_live_lease item now
      then (if str_eq (get_or (item.str "lease_owner_agent_run_id") "") body.owner_agent_run_id
          then acquire_again body item now t
          else (conflict (lease_held item), t))
      else acquire_new body token now again later t

  abbrev pub finish_renew :
      LeaseRenewRequest
      → ℕ
      → Option Item
      → Table
      → Reply Table
      → Response LeaseRenewResponse × Table
  finish_renew body now again t (done t' i) =
      (success (record { lease_token = body.lease_token; expires_at = now + body.ttl_seconds }), t')
  finish_renew body now again t (failed code) =
      if str_eq code conditional_check_failed
      then (conflict (conflict_error (renewal_error again body now)), t)
      else (crash code, t)

  unfoldable pub lease_renew :
      LeaseRenewRequest → ℕ → Option Item → Table → Response LeaseRenewResponse × Table
  lease_renew body now again t =
      finish_renew body now again t
        (renew_lease db t (pk_sk body.scope_ids) body.lease_token (now + body.ttl_seconds) now)

  abbrev pub finish_release : Table → Released Table → Response Bool × Table
  finish_release t (answer true t') = (success true, t')
  finish_release t (answer false t') = (conflict (conflict_error "lease_token_mismatch"), t')
  finish_release t (raised code) = (crash code, t)

  unfoldable pub lease_release : LeaseReleaseRequest → Table → Response Bool × Table
  lease_release body t =
      finish_release t (release_lease db t (pk_sk body.scope_ids) body.lease_token)
