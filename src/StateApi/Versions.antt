-- ===== src/StateApi/Versions.antt =====
-- `state_version` of a row over histories of the routes of backend/state-api/state_api.
use canon_systems.Base.{
  ℕ, ◌+◌, String, ◌≡◌, refl, sym, ap, ◌∙◌, inl, inr, Bool, Option, some, List, [], ◌∷◌, arith,
  get_or, if◌then◌else◌,
}
use canon_systems.Dynamo.{Item, Key, Condition, Action, row, updated, same_key, Dynamo}
use canon_systems.Dynamo.Memory.{same_key-ne, same_key_refl}
use canon_systems.StateApi.Rows.{ScopeIds, CheckpointPutRequest, pk_sk}
use canon_systems.StateApi.Store.{Claim, fresh_update, expiry_update, release_update}
use canon_systems.StateApi.Checkpoints.{put_checkpoint_route}
use canon_systems.StateApi.Effects.{
  write, get-write_ne, get-write, table-acquire_new, table-acquire_again, table-lease_renew,
  table-lease_release,
}
use canon_systems.StateApi.Puts.{put_row, put-cases, version-put_row, put_condition-true}
use canon_systems.StateApi.Calls.{Call, acquires, renews, releases, puts, step, run, acquire_cases}
use canon_systems.StateApi.Exclusion.{Key-cases}

-- The version of a row; a row that is missing or has none is at 0.
abbrev pub version : Option Item → ℕ
version r = get_or ((row r).num "state_version") 0

abbrev pub count {ℓ} : {A : Type ℓ} → List A → ℕ
count [] = 0
count (x ∷ xs) = count xs + 1

version-fresh_update :
    (c : Claim) (base : ScopeIds) (r : Option Item)
    → version (some (updated (fresh_update c base) r)) ≡ version r
unfolding fresh_update
version-fresh_update c base r = ground arith

version-expiry_update :
    (e : ℕ) (r : Option Item) → version (some (updated (expiry_update e) r)) ≡ version r
unfolding expiry_update
version-expiry_update e r = refl

version-release_update : (r : Option Item) → version (some (updated release_update r)) ≡ version r
unfolding release_update
version-release_update r = refl

no_events : (b : Bool) (n : ℕ) → n ≡ n + (if b then 0 else 0)
no_events b n = ground arith

next_version :
    (body : CheckpointPutRequest) (updated_at event_id : String) (r : Option Item)
    → (row r).num "state_version" ≡ some body.state_version
    → version (some (put_row body updated_at event_id r)) ≡ version r + 1
next_version body updated_at event_id r v =
    ap (λ o. get_or o 0) (version-put_row body updated_at event_id r body.state_version v)
    ∙ ap (λ (o : Option ℕ). get_or o 0 + 1) (sym v)

module _ (db : Dynamo) where
  open db use {Table, get}

  -- A write that keeps the version of its own row keeps that of every row.
  version-write :
      (t : Table) (k j : Key) (c : Condition) (u : List Action)
      → version (some (updated u (get t j))) ≡ version (get t j)
      → version (get (write db t j c u) k) ≡ version (get t k)
  version-write t k j c u keeps = elim (Key-cases k j) [
    | inr ne ↦ rw (get-write_ne db t j k c u ne)
    | inl e ↦
        rw e (elim (get-write db t j c u) [ inl same ↦ rw same | inr (h, new) ↦ rw new keeps ])
  ]

  -- The checkpoint events that a call emits for the row of a key.
  abbrev pub events_for : Table → Key → Call → ℕ
  events_for t k (puts body now updated_at event_id existing again) =
      if same_key (pk_sk body.scope) k
      then count (put_checkpoint_route db body now updated_at event_id existing again t).emitted
      else 0
  events_for t k _ = 0

  abbrev pub events_of : Table → Key → List Call → ℕ
  events_of t k [] = 0
  events_of t k (c ∷ cs) = events_for t k c + events_of (step db t c) k cs

  version-put :
      (t : Table) (k : Key) (body : CheckpointPutRequest) (now : ℕ) (updated_at event_id : String)
      (existing again : Option Item)
      → version
          (get (put_checkpoint_route db body now updated_at event_id existing again t).table k)
        ≡ version (get t k) + events_for t k (puts body now updated_at event_id existing again)
  version-put t k body now updated_at event_id existing again =
      elim (put-cases db body now updated_at event_id existing again t) [
        | inr (inl (h, r)) ↦ rw r (no_events _ _)
        | inr (inr (code, ne, r)) ↦ rw r (no_events _ _)
        | inl (h, em, g, resp, other) ↦ elim (Key-cases k (pk_sk body.scope)) [
          | inr ne ↦
              rw (other k ne, same_key-ne (pk_sk body.scope) k (λ p. ne (sym p))) (omega arith)
          | inl e ↦
              rw (e, same_key_refl, em)
                (ap version g
                  ∙ next_version body updated_at event_id (get t (pk_sk body.scope))
                      (put_condition-true body.state_version body.lease_token now _ h).0)
        ]
      ]

  step-version :
      (t : Table) (k : Key) (c : Call)
      → version (get (step db t c) k) ≡ version (get t k) + events_for t k c
  unfolding step
  step-version t k (acquires body new now item again later) =
      acquire_cases db (λ t'. version (get t' k) ≡ version (get t k) + 0) body new now item again
        later t (omega arith)
        (rw table-acquire_new (
          version-write t k _ _ _ (version-fresh_update _ _ (get t (pk_sk body.scope)))
          ∙ omega arith))
        λ seen. elim (table-acquire_again db body seen now t) [
          | inl e ↦ rw e (omega arith)
          | inr e ↦ rw e (
              version-write t k _ _ _ (version-expiry_update _ (get t (pk_sk body.scope)))
              ∙ omega arith)
        ]
  step-version t k (renews body now again) = rw table-lease_renew (
      version-write t k _ _ _ (version-expiry_update _ (get t (pk_sk body.scope_ids)))
      ∙ omega arith)
  step-version t k (releases body) = rw table-lease_release (
      version-write t k _ _ _ (version-release_update (get t (pk_sk body.scope_ids))) ∙ omega arith)
  step-version t k (puts body now updated_at event_id existing again) =
      version-put t k body now updated_at event_id existing again

  -- Over any history the version of a row grows by exactly the number of checkpoint events that
  -- were emitted for it: acquiring, renewing and releasing leases never move it.
  pub run-version :
      (t : Table) (k : Key) (cs : List Call)
      → version (get (run db t cs) k) ≡ version (get t k) + events_of t k cs
  unfolding run
  run-version t k [] = omega arith
  run-version t k (c ∷ cs) = omega (arith, run-version (step db t c) k cs, step-version t k c)
