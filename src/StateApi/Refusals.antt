-- ===== src/StateApi/Refusals.antt =====
-- The PUT route of backend/state-api/state_api/checkpoints.py: `_classify_put_failure` and the
-- answers to a failed condition.
use canon_systems.Base.{
  ℕ, String, ◌≡◌, ◌≢◌, refl, ap, ◌∙◌, ◌⊎◌, inl, inr, true, false, Option, none, some, [], arith,
  str_eq, str_true, eq_iff, eq_refl, get_or, Bool-cases,
}
use canon_systems.Dynamo.{Item, Key, holds, Dynamo, conditional_check_failed}
use canon_systems.StateApi.Rows.{
  CheckpointBody, CheckpointPutRequest, conflict_error, pk_sk, item_has_live_lease,
}
use canon_systems.StateApi.Store.{put_condition}
use canon_systems.StateApi.Leases.{Response, conflict, not_found, crash}
use canon_systems.StateApi.Checkpoints.{
  classify_put_failure, put_failure, put_checkpoint_route, PutResult,
}
use canon_systems.StateApi.Puts.{put-cases}

-- Why the row does not admit the request, and the answer that says so.
pub data Refused (body : CheckpointPutRequest) (now : ℕ) (k : Key) (item : Item)
    (answer : Response CheckpointBody) : Type 0 where
  version_moved :
      (actual : ℕ)
      → item.num "state_version" ≡ some actual
      → actual ≢ body.state_version
      → answer
        ≡ conflict (record (conflict_error "state_version_conflict") {
          expected = some body.state_version;
          actual = some actual;
        })
      → Refused body now k item answer
  other_holder :
      item_has_live_lease item now ≡ true
      → item.str "lease_token" ≢ some body.lease_token
      → answer ≡ conflict (conflict_error "lease_token_mismatch")
      → Refused body now k item answer
  lease_over :
      item_has_live_lease item now ≡ false
      → item.str "lease_token" ≡ some body.lease_token
      → answer ≡ conflict (conflict_error "lease_expired")
      → Refused body now k item answer
  no_lease :
      item_has_live_lease item now ≡ false
      → item.str "lease_token" ≢ some body.lease_token
      → answer ≡ conflict (conflict_error "lease_required")
      → Refused body now k item answer

module _ (body : CheckpointPutRequest) (now : ℕ) (item : Item) where
  abbrev classified : String × Option ℕ
  classified = classify_put_failure (some item) body.state_version body.lease_token now

  classified_moved :
      (actual : ℕ)
      → item.num "state_version" ≡ some actual
      → actual ≢ body.state_version
      → classified ≡ ("state_version_conflict", some actual)
  unfolding classify_put_failure
  classified_moved actual e ne = rw e (ground arith)

  classified_other :
      item.num "state_version" ≡ some body.state_version
      → item_has_live_lease item now ≡ true
      → item.str "lease_token" ≢ some body.lease_token
      → classified ≡ ("lease_token_mismatch", none)
  unfolding classify_put_failure item_has_live_lease
  classified_other v live ne =
      rw v (ground (arith, eq_iff (get_or (item.str "lease_token") "None") body.lease_token))

  classified_over :
      item.num "state_version" ≡ some body.state_version
      → item_has_live_lease item now ≡ false
      → item.str "lease_token" ≡ some body.lease_token
      → classified ≡ ("lease_expired", none)
  unfolding classify_put_failure item_has_live_lease
  classified_over v dead mine = rw v (ground (arith, eq_refl body.lease_token))

  classified-none :
      item.num "state_version" ≡ some body.state_version
      → item_has_live_lease item now ≡ false
      → item.str "lease_token" ≢ some body.lease_token
      → classified ≡ ("lease_required", none)
  unfolding classify_put_failure item_has_live_lease
  classified-none v dead ne =
      rw v (ground (arith, eq_iff (get_or (item.str "lease_token") "None") body.lease_token))

  -- A row at the version, with a live lease under the token, meets the condition.
  not_refused :
      item.num "state_version" ≡ some body.state_version
      → item_has_live_lease item now ≡ true
      → item.str "lease_token" ≡ some body.lease_token
      → holds (put_condition body.state_version body.lease_token now) (some item) ≡ true
  unfolding put_condition item_has_live_lease
  not_refused v live mine = ground (arith, eq_refl body.lease_token)

abbrev refusal : CheckpointPutRequest → ℕ → Key → Item → Response CheckpointBody
refusal body now k item =
    put_failure k body (classify_put_failure (some item) body.state_version body.lease_token now)

token-cases : (o : Option String) (s : String) → (o ≡ some s) ⊎ (o ≢ some s)
token-cases none s = inr λ e. cc e
token-cases (some x) s = elim (Bool-cases (str_eq x s)) [
  | inl e ↦ inl (ap some (str_true x s e))
  | inr e ↦ inr λ p. ground (arith, eq_iff x s, e, p)
]

version-cases : (n m : ℕ) → (n ≡ m) ⊎ (n ≢ m)
version-cases n m = ground arith

Refused-of_fails :
    (body : CheckpointPutRequest) (now : ℕ) (k : Key) (item : Item) (n : ℕ)
    → item.num "state_version" ≡ some n
    → holds (put_condition body.state_version body.lease_token now) (some item) ≡ false
    → Refused body now k item (refusal body now k item)
Refused-of_fails body now k item n v fails = elim (version-cases n body.state_version) [
  | inr ne ↦ version_moved n v ne (ap (put_failure k body) (classified_moved body now item n v ne))
  | inl same ↦ at_version (v ∙ ap some same)
]
  where
    at_version :
        item.num "state_version" ≡ some body.state_version
        → Refused body now k item (refusal body now k item)
    at_version w = elim (Bool-cases (item_has_live_lease item now)) [
      | inl live ↦ elim (token-cases (item.str "lease_token") body.lease_token) [
        | inl mine ↦ cc (not_refused body now item w live mine, fails)
        | inr ne ↦
            other_holder live ne
              (ap (put_failure k body) (classified_other body now item w live ne))
      ]
      | inr dead ↦ elim (token-cases (item.str "lease_token") body.lease_token) [
        | inl mine ↦
            lease_over dead mine
              (ap (put_failure k body) (classified_over body now item w dead mine))
        | inr ne ↦
            no_lease dead ne (ap (put_failure k body) (classified-none body now item w dead ne))
      ]
    ]

fails_on_none :
    (body : CheckpointPutRequest) (now : ℕ)
    → holds (put_condition body.state_version body.lease_token now) none ≡ false
unfolding put_condition
fails_on_none body now = refl

module _ (db : Dynamo) where
  open db use {Table, get}

  -- A PUT that emits nothing, on a row that has a version and is read again unchanged, is answered
  -- by the true cause: the version that moved, the live lease of another token, the caller's own
  -- lease that is over, or the lack of a lease. Otherwise the table service failed.
  pub put-Refused :
      (body : CheckpointPutRequest) (now : ℕ) (updated_at event_id : String)
      (existing : Option Item) (t : Table) (item : Item) (n : ℕ)
      → get t (pk_sk body.scope) ≡ some item
      → item.num "state_version" ≡ some n
      → (put_checkpoint_route db body now updated_at event_id existing (some item) t).emitted ≡ []
      → let r = put_checkpoint_route db body now updated_at event_id existing (some item) t in
        Refused body now (pk_sk body.scope) item r.response
        ⊎ ((code : String) × (code ≢ conditional_check_failed) × (r.response ≡ crash code))
  put-Refused body now updated_at event_id existing t item n at_k v none_emitted =
      elim (put-cases db body now updated_at event_id existing (some item) t) [
        | inl (h, em, g, resp, other) ↦ cc (em, none_emitted)
        | inr (inl (h, r)) ↦
            inl (rw r (Refused-of_fails body now (pk_sk body.scope) item n v (rw at_k at h)))
        | inr (inr (code, ne, r)) ↦ inr (code, ne, ap PutResult.response r)
      ]

  -- A PUT on a row that does not exist writes nothing and is answered by a 404 with its keys, or
  -- the table service failed.
  pub put_missing :
      (body : CheckpointPutRequest) (now : ℕ) (updated_at event_id : String)
      (existing : Option Item) (t : Table)
      → get t (pk_sk body.scope) ≡ none
      → let r = put_checkpoint_route db body now updated_at event_id existing none t in
        (r.table ≡ t)
        × ((r.response ≡ not_found (pk_sk body.scope))
            ⊎ ((code : String) × (code ≢ conditional_check_failed) × (r.response ≡ crash code)))
  unfolding classify_put_failure
  put_missing body now updated_at event_id existing t missing =
      elim (put-cases db body now updated_at event_id existing none t) [
        | inl (h, em, g, resp, other) ↦ cc (rw missing at h, fails_on_none body now)
        | inr (inl (h, r)) ↦ (ap PutResult.table r, inl (ap PutResult.response r))
        | inr (inr (code, ne, r)) ↦ (ap PutResult.table r, inr (code, ne, ap PutResult.response r))
      ]
