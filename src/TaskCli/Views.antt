-- ===== src/TaskCli/Views.antt =====
-- What a recorded event adds to the view that `_combined_state` of src/canon_systems/tasks_cli.py
-- gives.
use mathlib.Core.List.{Memᴰ}
use mathlib.Core.List.Memᴰ
use canon_systems.Base.{
  String, ◌≡◌, refl, sym, ap, ◌∙◌, Bool-cases, subst, ◌↔◌, ◌⊎◌, inl, inr, Bool, true, false, none,
  List, [], ◌∷◌, ◌++◌,
}
use canon_systems.Base.Strict.{mem_append, mem_append_left, mem_append_right, mem_snoc}
use canon_systems.Tasks.Events.{TaskEvent}
use canon_systems.Tasks.Union.{SameEvents}
use canon_systems.TaskCli.{
  Remote, World, Ctx, Ledger, repo_file, company_file, or_nothing, fetch_events, push_event,
  remote_events, visible, append_event, emit_canonical_event, push_recorded, record_event,
}

-- A server in a state in which a posted event adds at most itself to what the server answers for a
-- company, and takes nothing away.
pub record IsAppendOnly (api : Remote) (s : api.Server) : Type 0 where
  pub adds :
      (e x : TaskEvent) (company_id : String)
      → Memᴰ x (or_nothing (fetch_events api (api.post s e).1 company_id))
      → (x ≡ e) ⊎ Memᴰ x (or_nothing (fetch_events api s company_id))
  pub keeps :
      (e x : TaskEvent) (company_id : String)
      → Memᴰ x (or_nothing (fetch_events api s company_id))
      → Memᴰ x (or_nothing (fetch_events api (api.post s e).1 company_id))

module _ (api : Remote) (configured : Bool) (ctx : Ctx) where
  pub mem-visible :
      (w : World api) (x : TaskEvent)
      → Memᴰ x (visible api configured ctx w)
      → Memᴰ x w.repo_ledger
        ⊎ (Memᴰ x w.company_ledger ⊎ Memᴰ x (or_nothing (remote_events api configured ctx w)))
  unfolding visible
  mem-visible w x m = elim (mem_append w.repo_ledger _ m) [
    | inl n ↦ inl n
    | inr n ↦ inr (mem_append w.company_ledger _ n)
  ]

  pub visible-mem :
      (w : World api) (x : TaskEvent)
      → Memᴰ x w.repo_ledger
        ⊎ (Memᴰ x w.company_ledger ⊎ Memᴰ x (or_nothing (remote_events api configured ctx w)))
      → Memᴰ x (visible api configured ctx w)
  unfolding visible
  visible-mem w x (inl n) = mem_append_left w.repo_ledger _ n
  visible-mem w x (inr (inl n)) =
      mem_append_right w.repo_ledger _ (mem_append_left w.company_ledger _ n)
  visible-mem w x (inr (inr n)) =
      mem_append_right w.repo_ledger _ (mem_append_right w.company_ledger _ n)

  -- The state of the world after a recorded event, field by field.
  abbrev pub appended :
      Ledger → TaskEvent → List TaskEvent × List TaskEvent → List TaskEvent × List TaskEvent
  appended repo_file e (r, c) = (r ++ e ∷ [], c)
  appended company_file e (r, c) = (r, c ++ e ∷ [])

  abbrev pub files : World api → List TaskEvent × List TaskEvent
  files w = (w.repo_ledger, w.company_ledger)

  emit-files :
      (e : TaskEvent) (w : World api)
      → files (emit_canonical_event api configured ctx e w) ≡ files w
  unfolding emit_canonical_event
  emit-files e w = elim (Bool-cases w.memory_writable) [
    | inl h ↦ rw (h, emit_canonical_event) refl
    | inr h ↦ rw (h, emit_canonical_event) refl
  ]

  emit-server :
      (e : TaskEvent) (w : World api)
      → (emit_canonical_event api configured ctx e w).server ≡ w.server
  unfolding emit_canonical_event
  emit-server e w = elim (Bool-cases w.memory_writable) [
    | inl h ↦ rw (h, emit_canonical_event) refl
    | inr h ↦ rw (h, emit_canonical_event) refl
  ]

  push-files :
      (e : TaskEvent) (w : World api) → files (push_recorded api configured ctx e w).1 ≡ files w
  unfolding push_recorded
  push-files e w = elim (Bool-cases configured) [
    | inl h ↦ rw (h, push_recorded) refl
    | inr h ↦ rw (h, push_recorded) refl
  ]

  append-files :
      (ledger : Ledger) (e : TaskEvent) (w : World api)
      → files (append_event api configured ctx ledger e w) ≡ appended ledger e (files w)
  unfolding append_event
  append-files repo_file e w = refl
  append-files company_file e w = refl

  append-server :
      (ledger : Ledger) (e : TaskEvent) (w : World api)
      → (append_event api configured ctx ledger e w).server ≡ w.server
  unfolding append_event
  append-server repo_file e w = refl
  append-server company_file e w = refl

  -- A recorded event is appended to its ledger whatever the server does, and no event is lost.
  pub record_event-files :
      (e : TaskEvent) (ledger : Ledger) (w : World api)
      → files (record_event api configured ctx e ledger w).1 ≡ appended ledger e (files w)
  unfolding record_event
  record_event-files e ledger w = push-files e _ ∙ emit-files e _ ∙ append-files ledger e w

  pub remote_on :
      (w : World api)
      → configured ≡ true
      → remote_events api configured ctx w ≡ fetch_events api w.server ctx.company_id
  unfolding remote_events
  remote_on w on = rw on

  push-server :
      (e : TaskEvent) (w : World api)
      → configured ≡ true
      → (push_recorded api configured ctx e w).1.server ≡ (api.post w.server e).1
  unfolding push_recorded push_event
  push-server e w on = rw (on, push_recorded) refl

  -- What the server answers after the push, if it is asked at all.
  remote-record_event :
      (e : TaskEvent) (ledger : Ledger) (w : World api)
      → configured ≡ true
      → remote_events api configured ctx (record_event api configured ctx e ledger w).1
        ≡ fetch_events api (api.post w.server e).1 ctx.company_id
  unfolding record_event
  remote-record_event e ledger w on =
      remote_on _ on
      ∙ ap (λ s. fetch_events api s ctx.company_id)
          (push-server e _ on
            ∙ ap (λ s. (api.post s e).1) (emit-server e _ ∙ append-server ledger e w))

  remote_off : (w : World api) → configured ≡ false → remote_events api configured ctx w ≡ none
  unfolding remote_events
  remote_off w off = rw off

  abbrev answers : World api → List TaskEvent
  answers w = or_nothing (remote_events api configured ctx w)

  answers-record_event :
      (e x : TaskEvent) (ledger : Ledger) (w : World api)
      → IsAppendOnly api w.server
      → Memᴰ x (answers (record_event api configured ctx e ledger w).1)
      → (x ≡ e) ⊎ Memᴰ x (answers w)
  answers-record_event e x ledger w law m = elim (Bool-cases configured) [
    | inr off ↦ elim (subst (λ o. Memᴰ x (or_nothing o)) (remote_off _ off) m) [ ]
    | inl on ↦
        elim (law.adds e x ctx.company_id
          (subst (λ o. Memᴰ x (or_nothing o)) (remote-record_event e ledger w on) m)) [
            | inl same ↦ inl same
            | inr n ↦ inr (subst (λ o. Memᴰ x (or_nothing o)) (sym (remote_on w on)) n)
          ]
  ]

  answers_kept :
      (e x : TaskEvent) (ledger : Ledger) (w : World api)
      → IsAppendOnly api w.server
      → Memᴰ x (answers w)
      → Memᴰ x (answers (record_event api configured ctx e ledger w).1)
  answers_kept e x ledger w law m = elim (Bool-cases configured) [
    | inr off ↦ elim (subst (λ o. Memᴰ x (or_nothing o)) (remote_off w off) m) [ ]
    | inl on ↦
        subst (λ o. Memᴰ x (or_nothing o)) (sym (remote-record_event e ledger w on))
          (law.keeps e x ctx.company_id (subst (λ o. Memᴰ x (or_nothing o)) (remote_on w on) m))
  ]

  -- The files of a world as one list, and the event that one of them has more.
  appended-mem :
      (ledger : Ledger) (e x : TaskEvent) (r c : List TaskEvent)
      → (Memᴰ x (appended ledger e (r, c)).0 ⊎ Memᴰ x (appended ledger e (r, c)).1)
        ↔ ((x ≡ e) ⊎ (Memᴰ x r ⊎ Memᴰ x c))
  appended-mem repo_file e x r c = (
    λ m. elim m [
      | inl n ↦ elim (mem_snoc r n) [ inl k ↦ inr (inl k) | inr q ↦ inl q ]
      | inr n ↦ inr (inr n)
    ],
    λ m. elim m [
      | inl q ↦ inl (mem_append_right r (e ∷ []) (Memᴰ.head q))
      | inr n ↦ elim n [ inl k ↦ inl (mem_append_left r (e ∷ []) k) | inr k ↦ inr k ]
    ],
  )
  appended-mem company_file e x r c = (
    λ m. elim m [
      | inl n ↦ inr (inl n)
      | inr n ↦ elim (mem_snoc c n) [ inl k ↦ inr (inr k) | inr q ↦ inl q ]
    ],
    λ m. elim m [
      | inl q ↦ inr (mem_append_right c (e ∷ []) (Memᴰ.head q))
      | inr n ↦ elim n [ inl k ↦ inl k | inr k ↦ inr (mem_append_left c (e ∷ []) k) ]
    ],
  )

  abbrev InFiles : TaskEvent → List TaskEvent × List TaskEvent → Type 0
  InFiles x (r, c) = Memᴰ x r ⊎ Memᴰ x c

  -- The view has the events from before and the recorded one.
  pub visible-record_event :
      (e : TaskEvent) (ledger : Ledger) (w : World api)
      → IsAppendOnly api w.server
      → SameEvents
          (visible api configured ctx (record_event api configured ctx e ledger w).1)
          (e ∷ visible api configured ctx w)
  visible-record_event e ledger w law = (λ x m. to x m, λ x m. from x m)
    where
      recorded : World api
      recorded = (record_event api configured ctx e ledger w).1

      filed : (x : TaskEvent) → InFiles x (files recorded) → (x ≡ e) ⊎ InFiles x (files w)
      filed x m =
          (appended-mem ledger e x w.repo_ledger w.company_ledger).0
            (subst (InFiles x) (record_event-files e ledger w) m)

      at_file : (x : TaskEvent) → InFiles x (files w) → Memᴰ x (visible api configured ctx w)
      at_file x (inl n) = visible-mem w x (inl n)
      at_file x (inr n) = visible-mem w x (inr (inl n))

      step :
          (x : TaskEvent)
          → (x ≡ e) ⊎ InFiles x (files w)
          → Memᴰ x (e ∷ visible api configured ctx w)
      step x (inl q) = Memᴰ.head q
      step x (inr n) = Memᴰ.tail (at_file x n)

      to :
          (x : TaskEvent)
          → Memᴰ x (visible api configured ctx recorded)
          → Memᴰ x (e ∷ visible api configured ctx w)
      to x m = elim (mem-visible recorded x m) [
        | inl n ↦ step x (filed x (inl n))
        | inr k ↦ elim k [
          | inl n ↦ step x (filed x (inr n))
          | inr n ↦ elim (answers-record_event e x ledger w law n) [
            | inl q ↦ Memᴰ.head q
            | inr n' ↦ Memᴰ.tail (visible-mem w x (inr (inr n')))
          ]
        ]
      ]

      refile :
          (x : TaskEvent)
          → (x ≡ e) ⊎ InFiles x (files w)
          → Memᴰ x (visible api configured ctx recorded)
      refile x m =
          elim (subst (InFiles x) (sym (record_event-files e ledger w))
            ((appended-mem ledger e x w.repo_ledger w.company_ledger).1 m)) [
              | inl n ↦ visible-mem recorded x (inl n)
              | inr n ↦ visible-mem recorded x (inr (inl n))
            ]

      from :
          (x : TaskEvent)
          → Memᴰ x (e ∷ visible api configured ctx w)
          → Memᴰ x (visible api configured ctx recorded)
      from x m = elim (Memᴰ.cases_cons m) [
        | inl q ↦ refile x (inl q)
        | inr n ↦ elim (mem-visible w x n) [
          | inl k ↦ refile x (inr (inl k))
          | inr j ↦ elim j [
            | inl k ↦ refile x (inr (inr k))
            | inr k ↦ visible-mem recorded x (inr (inr (answers_kept e x ledger w law k)))
          ]
        ]
      ]
