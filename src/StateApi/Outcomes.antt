-- ===== src/StateApi/Outcomes.antt =====
-- The PUT route of backend/state-api/state_api/checkpoints.py: a won request, an admitted one and
-- two requests in a row.
use canon_systems.Base.{
  ℕ, ◌+◌, ◌<◌, String, ◌≡◌, ◌≢◌, refl, sym, ap, ◌∙◌, ◌⊎◌, inl, inr, true, Option, some, List, [],
  ◌∷◌, arith, eq_refl,
}
use canon_systems.Dynamo.{Item, Key, row, holds, Dynamo, conditional_check_failed}
use canon_systems.StateApi.Rows.{CheckpointPutRequest, pk_sk}
use canon_systems.StateApi.Store.{put_condition}
use canon_systems.StateApi.Leases.{crash}
use canon_systems.StateApi.Checkpoints.{
  CheckpointEvent, PutResult, checkpoint_event, put_checkpoint_route,
}
use canon_systems.StateApi.Puts.{
  put_row, put-cases, put_condition-true, version-put_row, num-put_row, str-put_row, or_kept,
  doc-put_row,
}

-- The row is at the version that the request expects, under a live lease with its token.
pub record Admits (body : CheckpointPutRequest) (now : ℕ) (r : Option Item) : Type 0 where
  pub expires : ℕ
  pub version_is : (row r).num "state_version" ≡ some body.state_version
  pub token_is : (row r).str "lease_token" ≡ some body.lease_token
  pub expires_is : (row r).num "lease_expires_at" ≡ some expires
  pub in_time : now < expires

pub Admits-of_holds :
    (body : CheckpointPutRequest) (now : ℕ) (r : Option Item)
    → holds (put_condition body.state_version body.lease_token now) r ≡ true
    → Admits body now r
Admits-of_holds body now r h =
    let (v, tok, e) = put_condition-true body.state_version body.lease_token now r h in
    record { expires = e.0; version_is = v; token_is = tok; expires_is = e.1; in_time = e.2 }

pub holds-of_Admits :
    (body : CheckpointPutRequest) (now : ℕ) (r : Option Item)
    → Admits body now r
    → holds (put_condition body.state_version body.lease_token now) r ≡ true
unfolding put_condition
holds-of_Admits body now r a =
    ground (arith, a.version_is, a.token_is, a.expires_is, eq_refl body.lease_token)

-- What a won PUT leaves: the next version, the fields of the request, the documents of the request
-- or else those that were there, and the lease as it was.
pub record IsPut (body : CheckpointPutRequest) (updated_at event_id : String) (old : Item)
    (new : Item) : Type 0 where
  pub version_is : new.num "state_version" ≡ some (body.state_version + 1)
  pub phase_is : new.str "phase" ≡ some body.phase
  pub phase_status_is : new.str "phase_status" ≡ some body.phase_status
  pub handoff_is : new.str "handoff_id" ≡ some body.handoff_id
  pub event_is : new.str "last_event_id" ≡ some event_id
  pub time_is : new.str "updated_at" ≡ some updated_at
  pub inputs_is : new.doc "inputs" ≡ or_kept body.inputs (old.doc "inputs")
  pub outputs_is : new.doc "outputs" ≡ or_kept body.outputs (old.doc "outputs")
  pub decisions_is : new.doc "decisions" ≡ or_kept body.decisions (old.doc "decisions")
  pub questions_is :
      new.doc "open_questions" ≡ or_kept body.open_questions (old.doc "open_questions")
  pub actor_kept : new.str "lease_owner_actor_id" ≡ old.str "lease_owner_actor_id"
  pub acquired_kept : new.num "lease_acquired_at" ≡ old.num "lease_acquired_at"
  pub token_kept : new.str "lease_token" ≡ old.str "lease_token"
  pub owner_kept : new.str "lease_owner_agent_run_id" ≡ old.str "lease_owner_agent_run_id"
  pub expiry_kept : new.num "lease_expires_at" ≡ old.num "lease_expires_at"

IsPut-put_row :
    (body : CheckpointPutRequest) (updated_at event_id : String) (r : Option Item)
    → (row r).num "state_version" ≡ some body.state_version
    → IsPut body updated_at event_id (row r) (put_row body updated_at event_id r)
IsPut-put_row body updated_at event_id r v =
    let str = str-put_row body updated_at event_id r in
    let doc = doc-put_row body updated_at event_id r in
    record {
      version_is = version-put_row body updated_at event_id r body.state_version v;
      phase_is = str "phase";
      phase_status_is = str "phase_status";
      handoff_is = str "handoff_id";
      event_is = str "last_event_id";
      time_is = str "updated_at";
      inputs_is = doc "inputs";
      outputs_is = doc "outputs";
      decisions_is = doc "decisions";
      questions_is = doc "open_questions";
      actor_kept = str "lease_owner_actor_id";
      acquired_kept = num-put_row body updated_at event_id r "lease_acquired_at" refl;
      token_kept = str "lease_token";
      owner_kept = str "lease_owner_agent_run_id";
      expiry_kept = num-put_row body updated_at event_id r "lease_expires_at" refl;
    }

head_eq {ℓ} : {A : Type ℓ} {a b : A} {as' bs : List A} → a ∷ as' ≡ b ∷ bs → a ≡ b
head_eq p = cc p

version-of_event :
    (body : CheckpointPutRequest) (existing : Option Item) (updated_at event_id : String)
    (new : Item) {n : ℕ}
    → new.num "state_version" ≡ some n
    → (checkpoint_event body existing updated_at event_id new).state_version ≡ n
unfolding checkpoint_event
version-of_event body existing updated_at event_id new e = rw e

id-of_event :
    (body : CheckpointPutRequest) (existing : Option Item) (updated_at event_id : String)
    (new : Item)
    → (checkpoint_event body existing updated_at event_id new).event_id ≡ event_id
unfolding checkpoint_event
id-of_event body existing updated_at event_id new = refl

versions_differ :
    (body : CheckpointPutRequest) (now : ℕ) (r : Option Item) (new : Item) (n : ℕ)
    → holds (put_condition body.state_version body.lease_token now) r ≡ true
    → r ≡ some new
    → new.num "state_version" ≡ some (n + 1)
    → body.state_version ≡ n
    → ⊥
versions_differ body now r new n h at_k v same =
    let a = Admits-of_holds body now r h in
    let w : new.num "state_version" ≡ some body.state_version =
      ap (λ (o : Option Item). (row o).num "state_version") (sym at_k) ∙ a.version_is in
    ground (arith, w, v)

module _ (db : Dynamo) where
  open db use {Table, get}

  -- A PUT that emits an event has won: the row admitted it, it left `IsPut`, its one event carries
  -- the new version and the id that the row now points to, and no other row changed.
  pub IsPut-won :
      (body : CheckpointPutRequest) (now : ℕ) (updated_at event_id : String)
      (existing again : Option Item) (t : Table) (e : CheckpointEvent) (es : List CheckpointEvent)
      → (put_checkpoint_route db body now updated_at event_id existing again t).emitted ≡ e ∷ es
      → let t' = (put_checkpoint_route db body now updated_at event_id existing again t).table in
        let k = pk_sk body.scope in
        Admits body now (get t k)
        × ((new : Item) × (get t' k ≡ some new)
            × IsPut body updated_at event_id (row (get t k)) new)
        × (es ≡ [])
        × (e.state_version ≡ body.state_version + 1)
        × (e.event_id ≡ event_id)
        × ((j : Key) → j ≢ k → get t' j ≡ get t j)
  IsPut-won body now updated_at event_id existing again t e es won =
      elim (put-cases db body now updated_at event_id existing again t) [
        | inl (h, em, g, resp, other) ↦
            let a = Admits-of_holds body now (get t (pk_sk body.scope)) h in
            let p =
              IsPut-put_row body updated_at event_id (get t (pk_sk body.scope)) a.version_is in
            let same : e ∷ es
                ≡ checkpoint_event body existing updated_at event_id
                    (put_row body updated_at event_id (get t (pk_sk body.scope)))
                  ∷ [] =
              sym won ∙ em in
            (
              a,
              (put_row body updated_at event_id (get t (pk_sk body.scope)), g, p),
              cc same,
              ap CheckpointEvent.state_version (head_eq same)
                  ∙ version-of_event body existing updated_at event_id _ p.version_is,
              ap CheckpointEvent.event_id (head_eq same)
                  ∙ id-of_event body existing updated_at event_id _,
              other,
            )
        | inr (inl (h, r)) ↦ cc (ap PutResult.emitted r, won)
        | inr (inr (code, ne, r)) ↦ cc (ap PutResult.emitted r, won)
      ]

  -- A PUT of a request that the row admits wins, or the table service fails with another code.
  pub put_admitted :
      (body : CheckpointPutRequest) (now : ℕ) (updated_at event_id : String)
      (existing again : Option Item) (t : Table)
      → Admits body now (get t (pk_sk body.scope))
      → let r = put_checkpoint_route db body now updated_at event_id existing again t in
        ((e : CheckpointEvent) × (r.emitted ≡ e ∷ []))
        ⊎ ((code : String) × (code ≢ conditional_check_failed) × (r.response ≡ crash code))
  put_admitted body now updated_at event_id existing again t a =
      elim (put-cases db body now updated_at event_id existing again t) [
        | inl (h, em, g, resp, other) ↦ inl (_, em)
        | inr (inl (h, r)) ↦ cc (holds-of_Admits body now (get t (pk_sk body.scope)) a, h)
        | inr (inr (code, ne, r)) ↦ inr (code, ne, ap PutResult.response r)
      ]

  -- No update is lost: after a PUT has won, a second PUT that expects the same version writes
  -- nothing and emits nothing, whatever its token, its time and the rows that it read before.
  pub put_twice :
      (body second : CheckpointPutRequest) (now later : ℕ) (updated_at event_id : String)
      (updated_at' event_id' : String) (existing again existing' again' : Option Item) (t : Table)
      (e : CheckpointEvent) (es : List CheckpointEvent)
      → (put_checkpoint_route db body now updated_at event_id existing again t).emitted ≡ e ∷ es
      → pk_sk second.scope ≡ pk_sk body.scope
      → second.state_version ≡ body.state_version
      → let t' = (put_checkpoint_route db body now updated_at event_id existing again t).table in
        let r = put_checkpoint_route db second later updated_at' event_id' existing' again' t' in
        (r.table ≡ t') × (r.emitted ≡ [])
  put_twice body second now later updated_at event_id updated_at' event_id' existing again existing'
        again' t e es won same_row same_version =
      let t' = (put_checkpoint_route db body now updated_at event_id existing again t).table in
      let w = (IsPut-won body now updated_at event_id existing again t e es won).1 in
      elim (put-cases db second later updated_at' event_id' existing' again' t') [
        | inl (h, em, g, resp, other) ↦ absurd (
            versions_differ second later (get t' (pk_sk second.scope)) w.0 body.state_version h
              (rw same_row w.1) w.2.version_is same_version)
        | inr (inl (h, r)) ↦ (ap PutResult.table r, ap PutResult.emitted r)
        | inr (inr (code, ne, r)) ↦ (ap PutResult.table r, ap PutResult.emitted r)
      ]
