-- ===== src/StateApi/Calls.antt =====
-- Histories of the state plane: any requests, in any order, on any rows.
use canon_systems.Base.{
  ℕ, String, inl, inr, Option, none, some, List, [], ◌∷◌, str_eq, get_or, Bool-cases,
}
use canon_systems.Dynamo.{Item, Key, Dynamo}
use canon_systems.StateApi.Rows.{
  LeaseAcquireRequest, LeaseRenewRequest, LeaseReleaseRequest, CheckpointPutRequest, pk_sk,
  item_has_live_lease,
}
use canon_systems.StateApi.Leases.{
  lease_acquire, acquire_new, acquire_again, lease_renew, lease_release,
}
use canon_systems.StateApi.Checkpoints.{put_checkpoint_route}

-- A request with all that its handler takes from outside: what its reads return, the clock, and
-- the generated identifiers.
pub data Call : Type 0 where
  acquires : LeaseAcquireRequest → String → ℕ → Option Item → Option Item → ℕ → Call
  renews : LeaseRenewRequest → ℕ → Option Item → Call
  releases : LeaseReleaseRequest → Call
  puts : CheckpointPutRequest → ℕ → String → String → Option Item → Option Item → Call

abbrev pub key_of : Call → Key
key_of (acquires body _ _ _ _ _) = pk_sk body.scope
key_of (renews body _ _) = pk_sk body.scope_ids
key_of (releases body) = pk_sk body.scope_ids
key_of (puts body _ _ _ _ _) = pk_sk body.scope

module _ (db : Dynamo) where
  open db use {Table}

  unfoldable pub step : Table → Call → Table
  step t (acquires body token now item again later) =
      (lease_acquire db body token now item again later t).1
  step t (renews body now again) = (lease_renew db body now again t).1
  step t (releases body) = (lease_release db body t).1
  step t (puts body now updated_at event_id existing again) =
      (put_checkpoint_route db body now updated_at event_id existing again t).table

  unfoldable pub run : Table → List Call → Table
  run t [] = t
  run t (c ∷ cs) = run (step t c) cs

  -- `lease_acquire` refuses, claims afresh, or extends what it read.
  pub acquire_cases {ℓ} :
      (P : Table → Type ℓ) (body : LeaseAcquireRequest) (token : String) (now : ℕ)
      (item again : Option Item) (later : ℕ) (t : Table)
      → P t
      → P (acquire_new db body token now again later t).1
      → ((i : Item) → P (acquire_again db body i now t).1)
      → P (lease_acquire db body token now item again later t).1
  unfolding lease_acquire
  acquire_cases P body token now none again later t refused fresh extended = fresh
  acquire_cases P body token now (some i) again later t refused fresh extended =
      elim (Bool-cases (item_has_live_lease i now)) [
        | inr dead ↦ rw dead fresh
        | inl live ↦
            elim (Bool-cases
              (str_eq (get_or (i.str "lease_owner_agent_run_id") "") body.owner_agent_run_id)) [
                | inl mine ↦ rw (live, mine) (extended i)
                | inr other ↦ rw (live, other) refused
              ]
      ]
