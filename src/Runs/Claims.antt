-- ===== src/Runs/Claims.antt =====
-- `transition_run_dispatch` of backend/knowledge-api/app/services/runs.py among several workers.
use canon_systems.Base.{
  ℕ, ◌+◌, String, ◌≡◌, ◌≢◌, refl, sym, ap, ◌∙◌, inl, inr, some, List, [], ◌∷◌, str_eq, Bool-cases,
}
use canon_systems.Runs.{RunOrm, TransitionRunDispatchRequest, Session}
use canon_systems.Runs.Service.{
  Result, ok, refused, transition_values, ensure_run_company_scope, get_run, committed,
  transition_run_dispatch,
}

transition_values-status :
    (q : TransitionRunDispatchRequest) (now : String) (r : RunOrm)
    → (transition_values q now r).dispatch_status ≡ q.next_dispatch_status
unfolding transition_values
transition_values-status q now r = elim (Bool-cases (str_eq q.next_dispatch_status "claimed")) [
  | inl h ↦ rw h
  | inr h ↦ rw h
]

transition_values-id :
    (q : TransitionRunDispatchRequest) (now : String) (r : RunOrm)
    → (transition_values q now r).id ≡ r.id
unfolding transition_values
transition_values-id q now r = elim (Bool-cases (str_eq q.next_dispatch_status "claimed")) [
  | inl h ↦ rw h
  | inr h ↦ rw h
]

module _ (db : Session) where
  open db use {State, get, hit_law, miss_law}

  -- A transition that expects the row's dispatch status succeeds: it answers the row with the
  -- requested status (and, for a claim, the claimant and the time), which is then the stored row,
  -- and leaves every other run.
  pub transition-hit :
      (s : State) (k : String) (q : TransitionRunDispatchRequest) (now : String) (r : RunOrm)
      → get s k ≡ some r
      → r.dispatch_status ≡ q.expected_dispatch_status
      → (s' : State) × (transition_run_dispatch db s k q now ≡ ok s' (transition_values q now r))
        × (get s' k ≡ some (transition_values q now r))
        × ((j : String) → j ≢ k → get s' j ≡ get s j)
  unfolding transition_run_dispatch get_run
  transition-hit s k q now r got same =
      let hit =
        hit_law s k q.expected_dispatch_status (transition_values q now) r got same
          (transition_values-id q now r) in
      (
        hit.0,
        rw (transition_run_dispatch, got)
            (ap (committed db k) hit.1 ∙ rw (committed, get_run, hit.2, ensure_run_company_scope)),
        hit.2,
        hit.3,
      )

  -- One that expects another status is refused with 409.
  pub transition-miss :
      (s : State) (k : String) (q : TransitionRunDispatchRequest) (now : String) (r : RunOrm)
      → get s k ≡ some r
      → r.dispatch_status ≢ q.expected_dispatch_status
      → transition_run_dispatch db s k q now ≡ refused 409 "run dispatch state changed"
  unfolding transition_run_dispatch committed
  transition-miss s k q now r got other =
      rw (transition_run_dispatch, got)
        (ap (committed db k)
          (miss_law s k q.expected_dispatch_status (transition_values q now) r got other))

  abbrev pub next_state : State → Result State RunOrm → State
  next_state s (ok s' r) = s'
  next_state s (refused code detail) = s

  abbrev pub won : Result State RunOrm → ℕ
  won (ok s r) = 1
  won (refused code detail) = 0

  -- Workers that send their transitions of one run, in some order: how many succeed, and the
  -- state after them.
  unfoldable pub contend : State → String → String → List TransitionRunDispatchRequest → State × ℕ
  contend s k now [] = (s, 0)
  contend s k now (q ∷ qs) =
      let reply = transition_run_dispatch db s k q now in
      let rest = contend (next_state s reply) k now qs in (rest.0, won reply + rest.1)

  -- Each request of the list expects the status `e`.
  abbrev pub AllExpect : String → List TransitionRunDispatchRequest → Type 0
  AllExpect e [] = e ≡ e
  AllExpect e (q ∷ qs) = (q.expected_dispatch_status ≡ e) × AllExpect e qs

  all-miss :
      (e : String) (s : State) (k now : String) (qs : List TransitionRunDispatchRequest)
      (r : RunOrm)
      → get s k ≡ some r
      → r.dispatch_status ≢ e
      → AllExpect e qs
      → contend s k now qs ≡ (s, 0)
  unfolding contend
  all-miss e s k now [] r got other h = refl
  all-miss e s k now (q ∷ qs) r got other h = rw (
    transition-miss s k q now r got (λ p. other (p ∙ h.0)),
    all-miss e s k now qs r got other h.1,
  )

  -- Of any number of workers that all expect the status the run has, and of which the first asks
  -- for another status, exactly one succeeds: the first. The stored row is the one that it asked
  -- for.
  pub contend-one :
      (e : String) (s : State) (k now : String) (q : TransitionRunDispatchRequest)
      (qs : List TransitionRunDispatchRequest) (r : RunOrm)
      → get s k ≡ some r
      → r.dispatch_status ≡ e
      → q.next_dispatch_status ≢ e
      → AllExpect e (q ∷ qs)
      → (s' : State) × (contend s k now (q ∷ qs) ≡ (s', 1))
        × (get s' k ≡ some (transition_values q now r))
        × ((j : String) → j ≢ k → get s' j ≡ get s j)
  unfolding contend
  contend-one e s k now q qs r got same moved h =
      let hit = transition-hit s k q now r got (same ∙ sym h.0) in
      let rest =
        all-miss e hit.0 k now qs (transition_values q now r) hit.2
          (λ p. moved (sym (transition_values-status q now r) ∙ p)) h.1 in
      (hit.0, rw (hit.1, rest), hit.2, hit.3)
