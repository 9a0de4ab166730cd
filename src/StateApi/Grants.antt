-- ===== src/StateApi/Grants.antt =====
-- The acquire route of backend/state-api/state_api/leases.py: who is granted a lease and who is
-- refused.
use canon_systems.Base.{
  ℕ, ◌+◌, ◌≤◌, ◌<◌, String, ◌≡◌, ◌≢◌, refl, sym, ap, ◌∙◌, ◌⊎◌, inl, inr, true, false, Option, none,
  some, arith, str_eq, str_ne, eq_iff, get_or, Bool-cases, Option-cases, if◌then◌else◌,
}
use canon_systems.Dynamo.{Item, Key, row, holds, updated, Dynamo, conditional_check_failed}
use canon_systems.StateApi.Rows.{
  LeaseAcquireRequest, LeaseAcquireResponse, conflict_error, item_has_live_lease, pk_sk,
}
use canon_systems.StateApi.Store.{
  Claim, acquire_lease, fresh_condition, fresh_update, extend_condition, expiry_update,
}
use canon_systems.StateApi.Leases.{
  Response, success, conflict, crash, lease_held, lease_acquire, acquire_new, acquire_again,
  after_lost_race, acquired,
}

-- The row says that the lease of `a` was granted to the caller of `body` at `now`.
pub record Granted (body : LeaseAcquireRequest) (now : ℕ) (a : LeaseAcquireResponse) (new : Item)
    : Type 0 where
  pub token_is : new.str "lease_token" ≡ some a.lease_token
  pub owner_is : new.str "lease_owner_agent_run_id" ≡ some body.owner_agent_run_id
  pub expires_is : new.num "lease_expires_at" ≡ some (now + body.ttl_seconds)
  pub said : a.expires_at ≡ now + body.ttl_seconds

-- Nobody holds the row: it is missing, it has no expiry, or the expiry has passed.
abbrev pub IsFree : Option Item → ℕ → Type 0
IsFree r now =
    ((row r).num "lease_expires_at" ≡ none)
    ⊎ ((e : ℕ) × ((row r).num "lease_expires_at" ≡ some e) × (e ≤ now))

-- The caller holds the row already, under the answer's token.
pub record IsMine (body : LeaseAcquireRequest) (now : ℕ) (a : LeaseAcquireResponse)
    (r : Option Item) : Type 0 where
  pub expires : ℕ
  pub token_was : (row r).str "lease_token" ≡ some a.lease_token
  pub owner_was : (row r).str "lease_owner_agent_run_id" ≡ some body.owner_agent_run_id
  pub expires_was : (row r).num "lease_expires_at" ≡ some expires
  pub in_time : now < expires

IsFree-of_holds : (r : Option Item) (now : ℕ) → holds (fresh_condition now) r ≡ true → IsFree r now
unfolding fresh_condition
IsFree-of_holds none now h = inl refl
IsFree-of_holds (some i) now h = ground arith

unfoldable pub claim_of : LeaseAcquireRequest → String → ℕ → Claim
claim_of body token now = record {
  token = token;
  owner_agent_run_id = body.owner_agent_run_id;
  owner_actor_id = body.owner_actor_id;
  acquired_at = now;
  expires_at = now + body.ttl_seconds;
}

Granted-fresh :
    (body : LeaseAcquireRequest) (token : String) (now : ℕ) (r : Option Item)
    (a : LeaseAcquireResponse)
    → success (acquired body token now (now + body.ttl_seconds)) ≡ success a
    → Granted body now a (updated (fresh_update (claim_of body token now) body.scope) r)
unfolding fresh_update claim_of
Granted-fresh body token now r a e = record {
  token_is = cc e;
  owner_is = refl;
  expires_is = refl;
  said = cc e;
}

race_loses :
    (again : Option Item) (later : ℕ) (code : String) (a : LeaseAcquireResponse)
    → after_lost_race again later code ≡ success a
    → ⊥
unfolding after_lost_race
race_loses again later code a e = ground arith

failure_loses {ℓ} :
    {T : Type ℓ} (t : T) (code : String) (r s : Response LeaseAcquireResponse)
    (a : LeaseAcquireResponse)
    → (r ≡ success a → ⊥)
    → (s ≡ success a → ⊥)
    → (if◌then◌else◌ {A = Response LeaseAcquireResponse × T}
        (str_eq code conditional_check_failed)
        (r, t)
        (s, t)).0
      ≡ success a
    → ⊥
failure_loses t code r s a hr hs e = elim (Bool-cases (str_eq code conditional_check_failed)) [
  | inl c ↦ hr (rw c at e)
  | inr c ↦ hs (rw c at e)
]

extend_condition-true :
    (token owner : String) (now : ℕ) (r : Option Item)
    → holds (extend_condition token owner now) r ≡ true
    → ((row r).str "lease_token" ≡ some token)
      × ((row r).str "lease_owner_agent_run_id" ≡ some owner)
      × ((e : ℕ) × ((row r).num "lease_expires_at" ≡ some e) × (now < e))
unfolding extend_condition
extend_condition-true token owner now r h = ground (
  arith,
  eq_iff (get_or ((row r).str "lease_token") "") token,
  eq_iff (get_or ((row r).str "lease_owner_agent_run_id") "") owner,
)

IsMine-of_holds :
    (body : LeaseAcquireRequest) (token : String) (now : ℕ) (r : Option Item)
    (a : LeaseAcquireResponse)
    → a.lease_token ≡ token
    → holds (extend_condition token body.owner_agent_run_id now) r ≡ true
    → IsMine body now a r
IsMine-of_holds body token now r a same h =
    let (tok, own, e) = extend_condition-true token body.owner_agent_run_id now r h in
    record {
      expires = e.0;
      token_was = tok ∙ ap some (sym same);
      owner_was = own;
      expires_was = e.1;
      in_time = e.2;
    }

Granted-extend :
    (body : LeaseAcquireRequest) (now : ℕ) (r : Option Item) (a : LeaseAcquireResponse)
    → IsMine body now a r
    → a.expires_at ≡ now + body.ttl_seconds
    → Granted body now a (updated (expiry_update (now + body.ttl_seconds)) r)
unfolding expiry_update
Granted-extend body now r a mine said = record {
  token_is = mine.token_was;
  owner_is = mine.owner_was;
  expires_is = refl;
  said = said;
}

answer_fields :
    (body : LeaseAcquireRequest) (token : String) (since expires : ℕ) (a : LeaseAcquireResponse)
    → success (acquired body token since expires) ≡ success a
    → (a.lease_token ≡ token) × (a.expires_at ≡ expires)
answer_fields body token since expires a e = (cc e, cc e)

module _ (db : Dynamo) where
  open db use {Table, get, update, update_law}

  -- What a successful acquisition leaves and found.
  abbrev pub WasGranted : LeaseAcquireRequest → ℕ → LeaseAcquireResponse → Table → Table → Type 0
  WasGranted body now a t t' =
      ((new : Item) × (get t' (pk_sk body.scope) ≡ some new) × Granted body now a new)
      × (IsFree (get t (pk_sk body.scope)) now ⊎ IsMine body now a (get t (pk_sk body.scope)))
      × ((j : Key) → j ≢ pk_sk body.scope → get t' j ≡ get t j)

  new-WasGranted :
      (body : LeaseAcquireRequest) (token : String) (now : ℕ) (again : Option Item) (later : ℕ)
      (t : Table) (a : LeaseAcquireResponse)
      → (acquire_new db body token now again later t).0 ≡ success a
      → WasGranted body now a t (acquire_new db body token now again later t).1
  unfolding acquire_new acquire_lease claim_of
  new-WasGranted body token now again later t a ok =
      elim (update_law t (pk_sk body.scope) (fresh_condition now)
        (fresh_update (claim_of body token now) body.scope)) [
          | inl (t', e, h, g, other) ↦ rw e (
            (_, g, Granted-fresh body token now (get t (pk_sk body.scope)) a (rw e at ok)),
            inl (IsFree-of_holds (get t (pk_sk body.scope)) now h),
            other,
          )
          | inr (inl (e, h)) ↦
              absurd (race_loses again later conditional_check_failed a (rw e at ok))
          | inr (inr (code, e, ne)) ↦ absurd (
              failure_loses t code (after_lost_race again later code) (crash code) a
                (race_loses again later code a) (λ p. cc p) (rw e at ok))
        ]

  again-WasGranted :
      (body : LeaseAcquireRequest) (item : Item) (now : ℕ) (t : Table) (a : LeaseAcquireResponse)
      → (acquire_again db body item now t).0 ≡ success a
      → WasGranted body now a t (acquire_again db body item now t).1
  unfolding acquire_again acquire_lease
  again-WasGranted body item now t a ok = elim (Option-cases (item.num "lease_acquired_at")) [
    | inl missing ↦ cc (rw missing at ok)
    | inr (since, known) ↦
        elim (update_law t (pk_sk body.scope)
          (extend_condition (get_or (item.str "lease_token") "") body.owner_agent_run_id now)
          (expiry_update (now + body.ttl_seconds))) [
            | inl (t', e, h, g, other) ↦
                let said = answer_fields body _ since _ a (rw (known, e, acquire_again) at ok) in
                let mine = IsMine-of_holds body _ now (get t (pk_sk body.scope)) a said.0 h in
                rw (known, e, acquire_again)
                  (
                    (_, g, Granted-extend body now (get t (pk_sk body.scope)) a mine said.1),
                    inr mine,
                    other,
                  )
            | inr (inl (e, h)) ↦ cc (rw (known, e, acquire_again) at ok)
            | inr (inr (code, e, ne)) ↦ absurd (
                failure_loses t code (conflict (conflict_error "lease_held")) (crash code) a
                  (λ p. cc p) (λ p. cc p) (rw (known, e, acquire_again) at ok))
          ]
  ]

  -- Whenever an acquisition answers 200, whatever its reads returned, the row was free or was
  -- already leased to this caller under the answer's token; the row now carries the answer's token,
  -- the caller and the new expiry, and no other row changed.
  pub lease_acquire-granted :
      (body : LeaseAcquireRequest) (token : String) (now : ℕ) (item again : Option Item) (later : ℕ)
      (t : Table) (a : LeaseAcquireResponse)
      → (lease_acquire db body token now item again later t).0 ≡ success a
      → WasGranted body now a t (lease_acquire db body token now item again later t).1
  unfolding lease_acquire
  lease_acquire-granted body token now none again later t a ok =
      new-WasGranted body token now again later t a ok
  lease_acquire-granted body token now (some i) again later t a ok =
      elim (Bool-cases (item_has_live_lease i now)) [
        | inr dead ↦
            rw dead (new-WasGranted body token now again later t a (rw (dead, lease_acquire) at ok))
        | inl live ↦
            elim (Bool-cases
              (str_eq (get_or (i.str "lease_owner_agent_run_id") "") body.owner_agent_run_id)) [
                | inl mine ↦
                    rw (live, mine)
                      (again-WasGranted body i now t a (rw (live, mine, lease_acquire) at ok))
                | inr other ↦ cc (rw (live, other, lease_acquire) at ok)
              ]
      ]

  -- An acquisition that reads a row leased to somebody else is refused with the holder's name and
  -- expiry, and writes nothing.
  pub lease_acquire-held :
      (body : LeaseAcquireRequest) (token : String) (now : ℕ) (again : Option Item) (later : ℕ)
      (t : Table) (i : Item) (owner : String)
      → item_has_live_lease i now ≡ true
      → i.str "lease_owner_agent_run_id" ≡ some owner
      → owner ≢ body.owner_agent_run_id
      → lease_acquire db body token now (some i) again later t ≡ (conflict (lease_held i), t)
  unfolding lease_acquire
  lease_acquire-held body token now again later t i owner live held ne =
      let other : str_eq (get_or (i.str "lease_owner_agent_run_id") "") body.owner_agent_run_id
          ≡ false =
        rw held (str_ne owner body.owner_agent_run_id ne) in
      rw (live, other)
