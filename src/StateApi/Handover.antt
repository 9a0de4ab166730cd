-- ===== src/StateApi/Handover.antt =====
-- The lease routes of backend/state-api/state_api/leases.py: a free row, a renewal and a release.
use canon_systems.Base.{
  ℕ, ◌+◌, ◌<◌, String, ◌≡◌, ◌≢◌, refl, ◌⊎◌, inl, inr, true, false, Option, none, some, arith,
  str_eq, str_ne, eq_iff, get_or,
}
use canon_systems.Dynamo.{Item, Key, row, holds, updated, str_is, Dynamo, conditional_check_failed}
use canon_systems.StateApi.Rows.{
  LeaseAcquireRequest, LeaseReleaseRequest, LeaseRenewRequest, LeaseRenewResponse,
  item_has_live_lease, pk_sk,
}
use canon_systems.StateApi.Store.{
  acquire_lease, renew_lease, release_lease, fresh_condition, fresh_update, expiry_update,
  renew_condition, release_update,
}
use canon_systems.StateApi.Leases.{
  success, crash, acquired, lease_acquire, acquire_new, lease_renew, lease_release,
}
use canon_systems.StateApi.Grants.{IsFree, claim_of}

holds-of_IsFree : (r : Option Item) (now : ℕ) → IsFree r now → holds (fresh_condition now) r ≡ true
unfolding fresh_condition
holds-of_IsFree none now free = refl
holds-of_IsFree (some i) now (inl e) = ground arith
holds-of_IsFree (some i) now (inr (e, at_e, over)) = rw at_e (ground arith)

not_live : (i : Item) (now : ℕ) → IsFree (some i) now → item_has_live_lease i now ≡ false
unfolding item_has_live_lease
not_live i now (inl e) = rw (e, item_has_live_lease)
not_live i now (inr (e, at_e, over)) = rw (at_e, item_has_live_lease) (ground arith)

-- What a renewal leaves: the new expiry, and nothing else.
pub record IsRenewed (body : LeaseRenewRequest) (now : ℕ) (old new : Item) : Type 0 where
  pub before : ℕ
  pub was_live : (old.num "lease_expires_at" ≡ some before) × (now < before)
  pub token_was : old.str "lease_token" ≡ some body.lease_token
  pub expires_is : new.num "lease_expires_at" ≡ some (now + body.ttl_seconds)
  pub texts_kept : new.str ≡ old.str
  pub numbers_kept : (a : String) → str_eq a "lease_expires_at" ≡ false → new.num a ≡ old.num a

renew_condition-true :
    (token : String) (now : ℕ) (r : Option Item)
    → holds (renew_condition token now) r ≡ true
    → ((row r).str "lease_token" ≡ some token)
      × ((e : ℕ) × ((row r).num "lease_expires_at" ≡ some e) × (now < e))
unfolding renew_condition
renew_condition-true token now r h =
    ground (arith, eq_iff (get_or ((row r).str "lease_token") "") token)

IsRenewed-of_holds :
    (body : LeaseRenewRequest) (now : ℕ) (r : Option Item)
    → holds (renew_condition body.lease_token now) r ≡ true
    → IsRenewed body now (row r) (updated (expiry_update (now + body.ttl_seconds)) r)
unfolding expiry_update
IsRenewed-of_holds body now r h =
    let (tok, e) = renew_condition-true body.lease_token now r h in
    record {
      before = e.0;
      was_live = (e.1, e.2);
      token_was = tok;
      expires_is = refl;
      texts_kept = refl;
      numbers_kept = λ a ne. rw ne;
    }

token_held :
    (token : String) (r : Option Item)
    → holds (str_is "lease_token" token) r ≡ true
    → (row r).str "lease_token" ≡ some token
token_held token r h = ground (arith, eq_iff (get_or ((row r).str "lease_token") "") token)

module _ (db : Dynamo) where
  open db use {Table, get, update, update_law}

  reads_free :
      (body : LeaseAcquireRequest) (token : String) (now : ℕ) (again : Option Item) (later : ℕ)
      (t : Table) (r : Option Item)
      → IsFree r now
      → lease_acquire db body token now r again later t
        ≡ acquire_new db body token now again later t
  unfolding lease_acquire
  reads_free body token now again later t none f = refl
  reads_free body token now again later t (some i) f = rw (not_live i now f)

  new-free :
      (body : LeaseAcquireRequest) (token : String) (now : ℕ) (again : Option Item) (later : ℕ)
      (t : Table)
      → IsFree (get t (pk_sk body.scope)) now
      → let r = (acquire_new db body token now again later t).0 in
        (r ≡ success (acquired body token now (now + body.ttl_seconds)))
        ⊎ ((code : String) × (code ≢ conditional_check_failed) × (r ≡ crash code))
  unfolding acquire_new acquire_lease claim_of
  new-free body token now again later t free =
      elim (update_law t (pk_sk body.scope) (fresh_condition now)
        (fresh_update (claim_of body token now) body.scope)) [
          | inl (t', e, h, g, other) ↦ inl (rw e)
          | inr (inl (e, h)) ↦ cc (holds-of_IsFree (get t (pk_sk body.scope)) now free, h)
          | inr (inr (code, e, ne)) ↦
              inr (code, ne, rw (e, str_ne code conditional_check_failed ne))
        ]

  -- A free row that is read as it is is granted to whoever asks, or the table service fails.
  pub lease_acquire-free :
      (body : LeaseAcquireRequest) (token : String) (now : ℕ) (again : Option Item) (later : ℕ)
      (t : Table)
      → IsFree (get t (pk_sk body.scope)) now
      → let r = (lease_acquire db body token now (get t (pk_sk body.scope)) again later t).0 in
        (r ≡ success (acquired body token now (now + body.ttl_seconds)))
        ⊎ ((code : String) × (code ≢ conditional_check_failed) × (r ≡ crash code))
  lease_acquire-free body token now again later t free =
      rw (reads_free body token now again later t (get t (pk_sk body.scope)) free)
        (new-free body token now again later t free)

  -- A renewal that answers 200 came with the token of a live lease, and it moved the expiry of
  -- that one row and nothing else.
  pub lease_renew-IsRenewed :
      (body : LeaseRenewRequest) (now : ℕ) (again : Option Item) (t : Table)
      (a : LeaseRenewResponse)
      → (lease_renew db body now again t).0 ≡ success a
      → ((new : Item) × (get (lease_renew db body now again t).1 (pk_sk body.scope_ids) ≡ some new)
          × IsRenewed body now (row (get t (pk_sk body.scope_ids))) new)
        × (a.expires_at ≡ now + body.ttl_seconds)
        × ((j : Key)
            → j ≢ pk_sk body.scope_ids
            → get (lease_renew db body now again t).1 j ≡ get t j)
  unfolding lease_renew renew_lease
  lease_renew-IsRenewed body now again t a ok =
      elim (update_law t (pk_sk body.scope_ids) (renew_condition body.lease_token now)
        (expiry_update (now + body.ttl_seconds))) [
          | inl (t', e, h, g, other) ↦ rw e (
            (_, g, IsRenewed-of_holds body now (get t (pk_sk body.scope_ids)) h),
            cc (rw e at ok),
            other,
          )
          | inr (inl (e, h)) ↦ cc (rw e at ok)
          | inr (inr (code, e, ne)) ↦ cc (rw (e, str_ne code conditional_check_failed ne) at ok)
        ]

  -- A release that answers 200 came with the row's token, and leaves the row free at any time
  -- and with no token, so that any next caller is granted it.
  pub lease_release-frees :
      (body : LeaseReleaseRequest) (t : Table)
      → (lease_release db body t).0 ≡ success true
      → ((row (get t (pk_sk body.scope_ids))).str "lease_token" ≡ some body.lease_token)
        × ((row (get (lease_release db body t).1 (pk_sk body.scope_ids))).str "lease_token" ≡ none)
        × ((now : ℕ) → IsFree (get (lease_release db body t).1 (pk_sk body.scope_ids)) now)
        × ((j : Key) → j ≢ pk_sk body.scope_ids → get (lease_release db body t).1 j ≡ get t j)
  unfolding lease_release release_lease
  lease_release-frees body t ok =
      elim (update_law t (pk_sk body.scope_ids) (str_is "lease_token" body.lease_token)
        release_update) [
          | inl (t', e, h, g, other) ↦
              rw (e, g)
                (
                  token_held body.lease_token (get t (pk_sk body.scope_ids)) h,
                  unfold release_update in refl,
                  λ now. inl (unfold release_update in refl),
                  other,
                )
          | inr (inl (e, h)) ↦ cc (rw e at ok)
          | inr (inr (code, e, ne)) ↦ cc (rw (e, str_ne code conditional_check_failed ne) at ok)
        ]
