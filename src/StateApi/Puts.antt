-- ===== src/StateApi/Puts.antt =====
-- The outcomes of the PUT route of backend/state-api/state_api/checkpoints.py, case by case.
use canon_systems.Base.{
  ℕ, ◌+◌, ◌<◌, String, ◌≡◌, ◌≢◌, refl, ap, ◌∙◌, ◌⊎◌, inl, inr, true, false, Option, some, List, [],
  ◌∷◌, ◌++◌, none, Bool-cases, arith, str_eq, eq_iff, get_or, if◌then◌else◌,
}
use canon_systems.Dynamo.{
  Doc, Item, Key, row, holds, act, set_doc, update_at, act_all, updated, conditional_check_failed,
  Dynamo,
}
use canon_systems.StateApi.Rows.{CheckpointPutRequest, checkpoint_from_item, pk_sk}
use canon_systems.StateApi.Store.{PutFields, put_condition, put_update, set_docs, put_checkpoint}
use canon_systems.StateApi.Leases.{crash}
use canon_systems.StateApi.Checkpoints.{
  optional, optional_sets, body_response, checkpoint_event, classify_put_failure, put_failure,
  put_checkpoint_route,
}

-- The attributes that a PUT sets, and the row that it leaves.
abbrev pub put_fields : CheckpointPutRequest → String → String → PutFields
put_fields body updated_at event_id = record {
  phase = body.phase;
  phase_status = body.phase_status;
  updated_at = updated_at;
  new_last_event_id = event_id;
  handoff_id = body.handoff_id;
}

abbrev pub put_row : CheckpointPutRequest → String → String → Option Item → Item
put_row body updated_at event_id r =
    updated (put_update (put_fields body updated_at event_id) (optional_sets body)) r

-- The documents of a PUT touch no text and no number.
set_docs-num :
    (old : Item) (ds : List (String × Doc)) (i : Item) → (act_all old (set_docs ds) i).num ≡ i.num
set_docs-num old [] i = refl
set_docs-num old ((k, d) ∷ ds) i = set_docs-num old ds (act old (set_doc k d) i)

set_docs-str :
    (old : Item) (ds : List (String × Doc)) (i : Item) → (act_all old (set_docs ds) i).str ≡ i.str
set_docs-str old [] i = refl
set_docs-str old ((k, d) ∷ ds) i = set_docs-str old ds (act old (set_doc k d) i)

-- A document that was given, or else the one that is there.
abbrev pub or_kept : Option Doc → Option Doc → Option Doc
or_kept none old = old
or_kept (some d) old = some d

abbrev with_doc : String → Option Doc → Item → Item
with_doc k none i = i
with_doc k (some d) i = record i { doc = update_at k (some d) i.doc }

set_docs-optional :
    (old : Item) (k : String) (o : Option Doc) (rest : List (String × Doc)) (i : Item)
    → act_all old (set_docs (optional k o ++ rest)) i ≡ act_all old (set_docs rest) (with_doc k o i)
set_docs-optional old k none rest i = refl
set_docs-optional old k (some d) rest i = refl

doc-with_doc :
    (k : String) (o : Option Doc) (i : Item) (a : String)
    → (with_doc k o i).doc a ≡ (if str_eq a k then or_kept o (i.doc a) else i.doc a)
doc-with_doc k none i a = elim (Bool-cases (str_eq a k)) [ inl e ↦ rw e refl | inr e ↦ rw e refl ]
doc-with_doc k (some d) i a = refl

append_nil : (ds : List (String × Doc)) → ds ≡ ds ++ []
append_nil [] = refl
append_nil (d ∷ ds) = ap (λ l. d ∷ l) (append_nil ds)

module _ (body : CheckpointPutRequest) (updated_at event_id : String) (r : Option Item) where
  -- The row after the documents, one after the other.
  put_row-docs :
      put_row body updated_at event_id r
      ≡ with_doc "open_questions" body.open_questions (
          with_doc "decisions" body.decisions (
            with_doc "outputs" body.outputs (
              with_doc "inputs" body.inputs
                (updated (put_update (put_fields body updated_at event_id) []) r))))
  unfolding put_update
  put_row-docs =
      let start = updated (put_update (put_fields body updated_at event_id) []) r in
      let i1 = with_doc "inputs" body.inputs start in
      let i2 = with_doc "outputs" body.outputs i1 in
      let i3 = with_doc "decisions" body.decisions i2 in
      set_docs-optional (row r) "inputs" body.inputs _ start
      ∙ set_docs-optional (row r) "outputs" body.outputs _ i1
      ∙ set_docs-optional (row r) "decisions" body.decisions _ i2
      ∙ ap (λ ds. act_all (row r) (set_docs ds) i3)
          (append_nil (optional "open_questions" body.open_questions))
      ∙ set_docs-optional (row r) "open_questions" body.open_questions [] i3

  -- The documents of the new row: those of the request, or else those of the old row.
  pub doc-put_row :
      (a : String)
      → (put_row body updated_at event_id r).doc a ≡ (
          let d1 =
            if str_eq a "inputs" then or_kept body.inputs ((row r).doc a) else (row r).doc a in
          let d2 = if str_eq a "outputs" then or_kept body.outputs d1 else d1 in
          let d3 = if str_eq a "decisions" then or_kept body.decisions d2 else d2 in
          if str_eq a "open_questions" then or_kept body.open_questions d3 else d3)
  unfolding put_update
  doc-put_row a =
      let start = updated (put_update (put_fields body updated_at event_id) []) r in
      let i1 = with_doc "inputs" body.inputs start in
      let i2 = with_doc "outputs" body.outputs i1 in
      let i3 = with_doc "decisions" body.decisions i2 in
      ap (λ (i : Item). i.doc a) put_row-docs
      ∙ doc-with_doc "open_questions" body.open_questions i3 a
      ∙ ap (λ d. if str_eq a "open_questions" then or_kept body.open_questions d else d)
          (doc-with_doc "decisions" body.decisions i2 a
            ∙ ap (λ d. if str_eq a "decisions" then or_kept body.decisions d else d)
                (doc-with_doc "outputs" body.outputs i1 a
                  ∙ ap (λ d. if str_eq a "outputs" then or_kept body.outputs d else d)
                      (doc-with_doc "inputs" body.inputs start a)))

  -- The row before the documents are written.
  abbrev put_head : Item
  unfolding put_update
  put_head = updated (put_update (put_fields body updated_at event_id) []) r

  pub version-put_row :
      (n : ℕ)
      → (row r).num "state_version" ≡ some n
      → (put_row body updated_at event_id r).num "state_version" ≡ some (n + 1)
  unfolding put_update
  version-put_row n e =
      ap (λ (f : String → Option ℕ). f "state_version")
        (set_docs-num (row r) (optional_sets body) put_head)
      ∙ rw e refl

  -- A PUT leaves every number but the version.
  pub num-put_row :
      (a : String)
      → str_eq a "state_version" ≡ false
      → (put_row body updated_at event_id r).num a ≡ (row r).num a
  unfolding put_update
  num-put_row a ne =
      ap (λ (f : String → Option ℕ). f a) (set_docs-num (row r) (optional_sets body) put_head)
      ∙ rw ne refl

  -- The texts of the new row, as the updates of the old one.
  pub str-put_row :
      (a : String)
      → (put_row body updated_at event_id r).str a ≡ (
          if str_eq a "handoff_id"
          then some body.handoff_id
          else if str_eq a "last_event_id"
          then some event_id
          else if str_eq a "updated_at"
          then some updated_at
          else if str_eq a "phase_status"
          then some body.phase_status
          else if str_eq a "phase"
          then some body.phase
          else (row r).str a)
  unfolding put_update
  str-put_row a =
      ap (λ (f : String → Option String). f a) (set_docs-str (row r) (optional_sets body) put_head)

module _ (db : Dynamo) where
  open db use {Table, get, update, update_law}

  -- The three ends of a PUT.
  pub put-cases :
      (body : CheckpointPutRequest) (now : ℕ) (updated_at event_id : String)
      (existing again : Option Item) (t : Table)
      → let r = put_checkpoint_route db body now updated_at event_id existing again t in
        let k = pk_sk body.scope in
        let new = put_row body updated_at event_id (get t k) in
        ((holds (put_condition body.state_version body.lease_token now) (get t k) ≡ true)
          × (r.emitted ≡ checkpoint_event body existing updated_at event_id new ∷ [])
          × (get r.table k ≡ some new)
          × (r.response ≡ body_response (checkpoint_from_item new))
          × ((j : Key) → j ≢ k → get r.table j ≡ get t j))
        ⊎ (((holds (put_condition body.state_version body.lease_token now) (get t k) ≡ false)
              × (r ≡ record {
                response =
                    put_failure k body
                      (classify_put_failure again body.state_version body.lease_token now);
                emitted = [];
                table = t;
              }))
            ⊎ ((code : String) × (code ≢ conditional_check_failed)
                × (r ≡ record { response = crash code; emitted = []; table = t })))
  unfolding put_checkpoint_route put_checkpoint
  put-cases body now updated_at event_id existing again t =
      elim (update_law t (pk_sk body.scope) (put_condition body.state_version body.lease_token now)
        (put_update (put_fields body updated_at event_id) (optional_sets body))) [
          | inl (t', e, h, g, other) ↦
              inl (h, rw e refl, rw e g, rw e refl, λ j ne. rw e (other j ne))
          | inr (inl (e, h)) ↦ inr (inl (h, rw e refl))
          | inr (inr (code, e, ne)) ↦
              inr (inr (code, ne, rw e (ground (arith, eq_iff code conditional_check_failed))))
        ]

-- The condition of a PUT, taken apart: the version, the token and a lease that is not over.
pub put_condition-true :
    (version : ℕ) (token : String) (now : ℕ) (r : Option Item)
    → holds (put_condition version token now) r ≡ true
    → ((row r).num "state_version" ≡ some version)
      × ((row r).str "lease_token" ≡ some token)
      × ((e : ℕ) × ((row r).num "lease_expires_at" ≡ some e) × (now < e))
unfolding put_condition
put_condition-true version token now r h =
    ground (arith, eq_iff (get_or ((row r).str "lease_token") "") token)
