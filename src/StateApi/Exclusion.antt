-- ===== src/StateApi/Exclusion.antt =====
-- Histories of the lease and checkpoint routes (leases.py, checkpoints.py of
-- backend/state-api/state_api) against one leased row.
use canon_systems.Base.{
  ℕ, ◌<◌, String, ◌≡◌, ◌≢◌, ◌∙◌, ◌⊎◌, inl, inr, false, some, List, [], ◌∷◌, arith, str_eq, eq_iff,
  Bool-cases, ◌&&◌,
}
use canon_systems.Dynamo.{Item, Key, Condition, holds, Action, str_is, Dynamo}
use canon_systems.StateApi.Store.{put_condition, fresh_condition, extend_condition, renew_condition}
use canon_systems.StateApi.Effects.{
  write, get-write_ne, write_refused, table-acquire_new, table-acquire_again, table-lease_renew,
  table-lease_release, table-put,
}
use canon_systems.StateApi.Calls.{Call, acquires, renews, releases, puts, step, run, acquire_cases}

-- The row's lease: its token, its owner and the time at which it ends.
pub record Holds (i : Item) (token owner : String) (expires : ℕ) : Type 0 where
  pub token_is : i.str "lease_token" ≡ some token
  pub owner_is : i.str "lease_owner_agent_run_id" ≡ some owner
  pub expires_is : i.num "lease_expires_at" ≡ some expires

-- A request of somebody else: it comes without the token, or, for an acquisition, before the
-- lease ends and for another owner. What its reads returned is left open.
abbrev pub IsStranger : String → String → ℕ → Call → Type 0
IsStranger token owner expires (acquires body _ now _ _ _) =
    (now < expires) × (body.owner_agent_run_id ≢ owner)
IsStranger token owner expires (renews body _ _) = body.lease_token ≢ token
IsStranger token owner expires (releases body) = body.lease_token ≢ token
IsStranger token owner expires (puts body _ _ _ _ _) = body.lease_token ≢ token

abbrev pub AllStrangers : String → String → ℕ → List Call → Type 0
AllStrangers token owner expires [] = Unit {0}
AllStrangers token owner expires (c ∷ cs) =
    IsStranger token owner expires c × AllStrangers token owner expires cs

module _ {token owner : String} {expires : ℕ} {i : Item} (h : Holds i token owner expires) where
  fresh_fails : (now : ℕ) → now < expires → holds (fresh_condition now) (some i) ≡ false
  unfolding fresh_condition
  fresh_fails now early = ground (arith, h.expires_is)

  extend_fails :
      (seen other : String) (now : ℕ)
      → other ≢ owner
      → holds (extend_condition seen other now) (some i) ≡ false
  unfolding extend_condition
  extend_fails seen other now ne =
      ground (arith, h.owner_is, h.token_is, h.expires_is, eq_iff owner other)

  token_fails : (seen : String) → seen ≢ token → holds (str_is "lease_token" seen) (some i) ≡ false
  token_fails seen ne = ground (arith, h.token_is, eq_iff token seen)

  renew_fails :
      (seen : String) (now : ℕ) → seen ≢ token → holds (renew_condition seen now) (some i) ≡ false
  unfolding renew_condition
  renew_fails seen now ne = ground (arith, h.token_is, eq_iff token seen)

  put_fails :
      (version : ℕ) (seen : String) (now : ℕ)
      → seen ≢ token
      → holds (put_condition version seen now) (some i) ≡ false
  unfolding put_condition
  put_fails version seen now ne = ground (arith, h.token_is, eq_iff token seen)

-- Two keys are the same or not.
pub Key-cases : (j k : Key) → (j ≡ k) ⊎ (j ≢ k)
Key-cases (a, b) (c, d) = elim (Bool-cases (str_eq a c && str_eq b d)) [
  | inl e ↦ inl (ground (arith, eq_iff a c, eq_iff b d))
  | inr e ↦ inr λ p. ground (arith, e, eq_iff a c, eq_iff b d, p)
]

module _ (db : Dynamo) where
  open db use {Table, get}

  -- A write whose condition fails on the row, or that is for another row, leaves the row.
  keeps_row :
      (t : Table) (k j : Key) (c : Condition) (u : List Action) (i : Item)
      → get t k ≡ some i
      → holds c (some i) ≡ false
      → get (write db t j c u) k ≡ some i
  keeps_row t k j c u i at_k no_hold = elim (Key-cases k j) [
    | inl e ↦ rw (write_refused db t j c u (rw (← e, at_k) no_hold)) at_k
    | inr ne ↦ get-write_ne db t j k c u ne ∙ at_k
  ]

  step-Holds :
      (t : Table) (k : Key) (i : Item) (token owner : String) (expires : ℕ) (c : Call)
      → get t k ≡ some i
      → Holds i token owner expires
      → IsStranger token owner expires c
      → get (step db t c) k ≡ some i
  unfolding step
  step-Holds t k i token owner expires (acquires body new now item again later) at_k h s =
      acquire_cases db (λ t'. get t' k ≡ some i) body new now item again later t at_k
        (rw table-acquire_new (keeps_row t k _ _ _ i at_k (fresh_fails h now s.0)))
        λ seen. elim (table-acquire_again db body seen now t) [
          | inl e ↦ rw e at_k
          | inr e ↦ rw e (keeps_row t k _ _ _ i at_k (extend_fails h _ _ now s.1))
        ]
  step-Holds t k i token owner expires (renews body now again) at_k h s =
      rw table-lease_renew (keeps_row t k _ _ _ i at_k (renew_fails h _ now s))
  step-Holds t k i token owner expires (releases body) at_k h s =
      rw table-lease_release (keeps_row t k _ _ _ i at_k (token_fails h _ s))
  step-Holds t k i token owner expires (puts body now updated_at event_id existing again) at_k h s =
      rw table-put (keeps_row t k _ _ _ i at_k (put_fails h body.state_version _ now s))

  -- While a row's lease is live, no history of requests by strangers changes the row in any
  -- attribute, whatever stale rows their reads returned and whatever other rows they write.
  pub run-Holds :
      (t : Table) (k : Key) (i : Item) (token owner : String) (expires : ℕ) (cs : List Call)
      → get t k ≡ some i
      → Holds i token owner expires
      → AllStrangers token owner expires cs
      → get (run db t cs) k ≡ some i
  unfolding run
  run-Holds t k i token owner expires [] at_k h s = at_k
  run-Holds t k i token owner expires (c ∷ cs) at_k h s =
      run-Holds (step db t c) k i token owner expires cs
        (step-Holds t k i token owner expires c at_k h s.0) h s.1
