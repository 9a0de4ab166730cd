-- ===== src/StateApi/Effects.antt =====
-- What one call of the table does to a row, and which calls each route of `Leases` and
-- `Checkpoints` can make.
use canon_systems.Base.{
  ℕ, ◌+◌, String, ◌≡◌, ◌≢◌, ◌⊎◌, inl, inr, true, false, Option, some, List, arith, get_or,
}
use canon_systems.Dynamo.{Item, Key, Condition, holds, Action, updated, Reply, done, failed, Dynamo}
use canon_systems.StateApi.Rows.{
  LeaseAcquireRequest, LeaseRenewRequest, LeaseReleaseRequest, CheckpointPutRequest, pk_sk,
}
use canon_systems.StateApi.Store.{
  put_condition, put_update, fresh_condition, fresh_update, extend_condition, expiry_update,
  renew_condition, release_update, put_checkpoint, acquire_lease, renew_lease, release_lease,
}
use canon_systems.StateApi.Leases.{acquire_new, acquire_again, lease_renew, lease_release}
use canon_systems.StateApi.Checkpoints.{put_checkpoint_route, optional_sets}

module _ (db : Dynamo) where
  open db use {Table, get, update, update_law}

  abbrev pub after : Table → Reply Table → Table
  after t (done t' i) = t'
  after t (failed code) = t

  -- The table after a call of `update_item`.
  abbrev pub write : Table → Key → Condition → List Action → Table
  write t k c u = after t (update t k c u)

  -- A call writes no other row.
  pub get-write_ne :
      (t : Table) (k j : Key) (c : Condition) (u : List Action)
      → j ≢ k
      → get (write t k c u) j ≡ get t j
  get-write_ne t k j c u ne = elim (update_law t k c u) [
    | inl (t', e, h, g, other) ↦ rw e (other j ne)
    | inr (inl (e, h)) ↦ rw e
    | inr (inr (code, e, h)) ↦ rw e
  ]

  -- A call whose condition does not hold writes nothing.
  pub write_refused :
      (t : Table) (k : Key) (c : Condition) (u : List Action)
      → holds c (get t k) ≡ false
      → write t k c u ≡ t
  write_refused t k c u no_hold = elim (update_law t k c u) [
    | inl (t', e, h, g, other) ↦ cc
    | inr (inl (e, h)) ↦ rw e
    | inr (inr (code, e, h)) ↦ rw e
  ]

  -- A call leaves its row, or its condition holds and the row is updated.
  pub get-write :
      (t : Table) (k : Key) (c : Condition) (u : List Action)
      → (write t k c u ≡ t)
        ⊎ ((holds c (get t k) ≡ true) × (get (write t k c u) k ≡ some (updated u (get t k))))
  get-write t k c u = elim (update_law t k c u) [
    | inl (t', e, h, g, other) ↦ inr (h, rw e g)
    | inr (inl (e, h)) ↦ inl (rw e)
    | inr (inr (code, e, h)) ↦ inl (rw e)
  ]

  -- The tables that the routes leave.
  pub table-acquire_new :
      (body : LeaseAcquireRequest) (token : String) (now : ℕ) (again : Option Item) (later : ℕ)
      (t : Table)
      → (acquire_new db body token now again later t).1
        ≡ write t (pk_sk body.scope) (fresh_condition now) (
            fresh_update
              (record {
                token = token;
                owner_agent_run_id = body.owner_agent_run_id;
                owner_actor_id = body.owner_actor_id;
                acquired_at = now;
                expires_at = now + body.ttl_seconds;
              })
              body.scope)
  unfolding acquire_new acquire_lease
  table-acquire_new body token now again later t = ground arith

  pub table-acquire_again :
      (body : LeaseAcquireRequest) (item : Item) (now : ℕ) (t : Table)
      → ((acquire_again db body item now t).1 ≡ t)
        ⊎ ((acquire_again db body item now t).1
            ≡ write t
                (pk_sk body.scope)
                (extend_condition (get_or (item.str "lease_token") "") body.owner_agent_run_id now)
                (expiry_update (now + body.ttl_seconds)))
  unfolding acquire_again acquire_lease
  table-acquire_again body item now t = ground arith

  pub table-lease_renew :
      (body : LeaseRenewRequest) (now : ℕ) (again : Option Item) (t : Table)
      → (lease_renew db body now again t).1
        ≡ write t
            (pk_sk body.scope_ids)
            (renew_condition body.lease_token now)
            (expiry_update (now + body.ttl_seconds))
  unfolding lease_renew renew_lease
  table-lease_renew body now again t = ground arith

  pub table-lease_release :
      (body : LeaseReleaseRequest) (t : Table)
      → (lease_release db body t).1
        ≡ write t
            (pk_sk body.scope_ids)
            (Condition.str_is "lease_token" body.lease_token)
            release_update
  unfolding lease_release release_lease
  table-lease_release body t = ground arith

  pub table-put :
      (body : CheckpointPutRequest) (now : ℕ) (updated_at event_id : String)
      (existing again : Option Item) (t : Table)
      → (put_checkpoint_route db body now updated_at event_id existing again t).table
        ≡ write t (pk_sk body.scope) (put_condition body.state_version body.lease_token now) (
            put_update
              (record {
                phase = body.phase;
                phase_status = body.phase_status;
                updated_at = updated_at;
                new_last_event_id = event_id;
                handoff_id = body.handoff_id;
              })
              (optional_sets body))
  unfolding put_checkpoint_route put_checkpoint
  table-put body now updated_at event_id existing again t = ground arith
