-- ===== src/RunLedger/Reads.antt =====
-- The scoped GET of the run ledger: what it lists, and what its count says.
use mathlib.Core.List.{Memᴰ}
use mathlib.Core.List.Memᴰ
use text.Mathlib.Text.{starts_with}
use canon_systems.Base.{
  ℕ, ◌≤◌, ◌<◌, String, ◌≡◌, refl, sym, ap, ◌∙◌, inl, inr, Bool, true, false, not, ◌&&◌, Option,
  some, List, [], ◌∷◌, str_eq, str_true, Bool-cases, leb, subst, if◌then◌else◌, length, arith,
}
use canon_systems.Base.Json.{
  Json, Members, get, null, boolean, number, negative, string, array, object,
}
use canon_systems.TaskPlane.{hashed}
use canon_systems.RunLedger.Keys.{bind-good, good-injective}
use canon_systems.RunLedger.{
  Raised, ledger_error, archive_error, key_error, not_integer, Outcome, good, raise,
  build_run_ledger_pk, build_run_ledger_sk, sanitize_ledger_segment,
}
use canon_systems.RunLedger.Routes.{
  LedgerTable, query_sk_prefix, Reply, listed, invalid_limit, refused, Query, scope_prefix,
  records_of, of_handoff, is_named, name_or_empty, reply_rows, get_by_id, get_scoped, get_at,
  get_run_ledger,
}

both_true : (a b : Bool) → (a && b) ≡ true → (a ≡ true) × (b ≡ true)
both_true a b h = ground arith

records_of-mem :
    (h : Option String) (rows : List Members) (r : Members)
    → Memᴰ r (records_of h rows)
    → Memᴰ r rows × (of_handoff h r ≡ true)
unfolding records_of
records_of-mem h [] r m = elim m [ ]
records_of-mem h (x ∷ xs) r m = elim (Bool-cases (of_handoff h x)) [
  | inl kept ↦ elim (Memᴰ.cases_cons (rw (records_of, kept) at m)) [
    | inl e ↦ (Memᴰ.head e, ap (of_handoff h) e ∙ kept)
    | inr m' ↦ let (there, of) = records_of-mem h xs r m' in (Memᴰ.tail there, of)
  ]
  | inr dropped ↦
      let (there, of) = records_of-mem h xs r (rw (records_of, dropped) at m) in
      (Memᴰ.tail there, of)
]

length-records_of :
    (h : Option String) (rows : List Members) → length (records_of h rows) ≤ length rows
unfolding records_of
length-records_of h [] = omega arith
length-records_of h (x ∷ xs) = elim (Bool-cases (of_handoff h x)) [
  | inl kept ↦ rw (records_of, kept) (omega (arith, length-records_of h xs))
  | inr dropped ↦ rw (records_of, dropped) (omega (arith, length-records_of h xs))
]

records_of_fewer :
    (h : Option String) (rows : List Members) (r : Members)
    → Memᴰ r rows
    → of_handoff h r ≡ false
    → length (records_of h rows) < length rows
unfolding records_of
records_of_fewer h [] r m other = elim m [ ]
records_of_fewer h (x ∷ xs) r m other = elim (Memᴰ.cases_cons m) [
  | inl e ↦
      rw (records_of, ap (of_handoff h) (sym e) ∙ other) (omega (arith, length-records_of h xs))
  | inr m' ↦ elim (Bool-cases (of_handoff h x)) [
    | inl kept ↦ rw (records_of, kept) (omega (arith, records_of_fewer h xs r m' other))
    | inr dropped ↦ rw (records_of, dropped) (omega (arith, records_of_fewer h xs r m' other))
  ]
]

module _ (db : LedgerTable) where
  open db use {Table, get_item, query_limit, query_rows}

  length-query_sk_prefix :
      (t : Table) (pk pre : String) (n : ℕ) → length (query_sk_prefix db t pk pre n) ≤ n
  unfolding query_sk_prefix
  length-query_sk_prefix t pk pre n = query_limit t _ n

  query_sk_prefix-row :
      (t : Table) (pk pre : String) (n : ℕ) (r : Members)
      → Memᴰ r (query_sk_prefix db t pk pre n)
      → (sk : String) × (get_item t (pk, sk) ≡ some r) × (starts_with sk pre ≡ true)
  unfolding query_sk_prefix
  query_sk_prefix-row t pk pre n r m =
      let ((p, sk), row, selected) = query_rows t _ n r m in
      let (at_pk, starts) = both_true (str_eq p pk) (starts_with sk pre) selected in
      (sk, subst (λ x. get_item t (x, sk) ≡ some r) (str_true p pk at_pk) row, starts)

  -- The keys and the prefix that a scoped GET reads under.
  abbrev Read : Query → Reply → Table → Type 0
  Read q a t =
      (pk : String) × (pre : String) × (build_run_ledger_pk q.company_id q.repository_id ≡ good pk)
      × (scope_prefix q ≡ good pre)
      × (a ≡ reply_rows (records_of q.handoff_id (query_sk_prefix db t pk pre q.limit)))

  not_listed : (e : Raised) (rs : List Members) (c : ℕ) {X : Type 0} → refused e ≡ listed rs c → X
  not_listed ledger_error rs c h = cc
  not_listed archive_error rs c h = cc
  not_listed key_error rs c h = cc
  not_listed not_integer rs c h = cc

  get_scoped-Read :
      (t : Table) (q : Query) (pk : String) (p : Outcome String) (rs : List Members) (c : ℕ)
      → get_scoped db t q pk p ≡ listed rs c
      → (pre : String) × (p ≡ good pre)
        × (get_scoped db t q pk p
            ≡ reply_rows (records_of q.handoff_id (query_sk_prefix db t pk pre q.limit)))
  unfolding get_scoped
  get_scoped-Read t q pk (good pre) rs c h = (pre, refl, refl)
  get_scoped-Read t q pk (raise e) rs c h = not_listed e rs c h

  get_at-Read :
      (t : Table) (q : Query) (k : Outcome String) (rs : List Members) (c : ℕ)
      → is_named q.ledger_run_id ≡ false
      → get_at db t q k ≡ listed rs c
      → (pk : String) × (pre : String) × (k ≡ good pk)
        × (scope_prefix q ≡ good pre)
        × (get_at db t q k
            ≡ reply_rows (records_of q.handoff_id (query_sk_prefix db t pk pre q.limit)))
  unfolding get_at
  get_at-Read t q (raise e) rs c scoped h = not_listed e rs c h
  get_at-Read t q (good pk) rs c scoped h =
      let here : get_at db t q (good pk) ≡ get_scoped db t q pk (scope_prefix q) =
        ap
          (λ b.
            if b
            then get_by_id db t q pk (
                build_run_ledger_sk q.plan_id q.task_id q.workstream_id
                  (name_or_empty q.ledger_run_id))
            else get_scoped db t q pk (scope_prefix q))
          scoped in
      let (pre, e, same) = get_scoped-Read t q pk (scope_prefix q) rs c (sym here ∙ h) in
      (pk, pre, refl, e, here ∙ same)

  get_run_ledger-Read :
      (t : Table) (q : Query) (rs : List Members) (c : ℕ)
      → is_named q.ledger_run_id ≡ false
      → get_run_ledger db t q ≡ listed rs c
      → Read q (get_run_ledger db t q) t
  unfolding get_run_ledger
  get_run_ledger-Read t q rs c scoped h = elim (Bool-cases (leb 1 q.limit && leb q.limit 200)) [
    | inr out ↦ cc (sym (over out) ∙ h)
    | inl within ↦
        let (pk, pre, e, e', same) =
          get_at-Read t q (build_run_ledger_pk q.company_id q.repository_id) rs c scoped
            (sym (under within) ∙ h) in
        (pk, pre, e, e', under within ∙ same)
  ]
    where
      at : Bool → Reply
      at b =
          if not b
          then invalid_limit
          else get_at db t q (build_run_ledger_pk q.company_id q.repository_id)

      over : leb 1 q.limit && leb q.limit 200 ≡ false → get_run_ledger db t q ≡ invalid_limit
      over e = ap at e

      under :
          leb 1 q.limit && leb q.limit 200 ≡ true
          → get_run_ledger db t q ≡ get_at db t q (build_run_ledger_pk q.company_id q.repository_id)
      under e = ap at e

  -- A row that the scoped GET may list: it is stored under the company and the repository, its sort
  -- key begins with the plan, the task and the workstream, and it is of the handoff, if one is named.
  pub IsInScope : Table → Query → Members → Type 0
  IsInScope t q r =
      (pk : String) × (sk : String) × (plan : String) × (task : String) × (workstream : String)
      × (build_run_ledger_pk q.company_id q.repository_id ≡ good pk)
      × (sanitize_ledger_segment q.plan_id ≡ good plan)
      × (sanitize_ledger_segment q.task_id ≡ good task)
      × (sanitize_ledger_segment q.workstream_id ≡ good workstream)
      × (starts_with sk (hashed plan (hashed task (hashed workstream ""))) ≡ true)
      × (get_item t (pk, sk) ≡ some r)
      × ((h : String) → q.handoff_id ≡ some h → get r "handoff_id" ≡ string h)

  scope_prefix-parts :
      (q : Query) (pre : String)
      → scope_prefix q ≡ good pre
      → (plan : String) × (task : String) × (workstream : String) × (sanitize_ledger_segment
            q.plan_id
          ≡ good plan)
        × (sanitize_ledger_segment q.task_id ≡ good task)
        × (sanitize_ledger_segment q.workstream_id ≡ good workstream)
        × (pre ≡ hashed plan (hashed task (hashed workstream "")))
  unfolding scope_prefix
  scope_prefix-parts q pre h =
      let (p, e1, h1) = bind-good (sanitize_ledger_segment q.plan_id) _ h in
      let (t, e2, h2) = bind-good (sanitize_ledger_segment q.task_id) _ h1 in
      let (w, e3, h3) = bind-good (sanitize_ledger_segment q.workstream_id) _ h2 in
      (p, t, w, e1, e2, e3, sym (good-injective h3))

  of_handoff-is :
      (o : Option String) (r : Members) (h : String)
      → of_handoff o r ≡ true
      → o ≡ some h
      → get r "handoff_id" ≡ string h
  of_handoff-is o r h of e = text_is (get r "handoff_id") (subst (λ x. of_handoff x r ≡ true) e of)
    where
      text_is : (v : Json) → (elim v [ string s ↦ str_eq s h | _ ↦ false ]) ≡ true → v ≡ string h
      text_is (string s) k = ap string (str_true s h k)
      text_is null k = cc k
      text_is (boolean b) k = cc k
      text_is (number n) k = cc k
      text_is (negative n) k = cc k
      text_is (array vs) k = cc k
      text_is (object ms) k = cc k

  listed_equal : {rs ss : List Members} {c d : ℕ} → listed rs c ≡ listed ss d → (rs ≡ ss) × (c ≡ d)
  listed_equal {rs} {c = c} h = (
    ap (λ a. elim a [ listed xs n ↦ xs | _ ↦ rs ]) h,
    ap (λ a. elim a [ listed xs n ↦ n | _ ↦ c ]) h,
  )

  -- A GET that names no run and lists records lists stored rows only, at most as many as its limit,
  -- and its count is their number. Each row stands under the company and the repository, its sort
  -- key begins with the plan, the task and the workstream, and its handoff is the one that is named,
  -- if any.
  pub get_run_ledger-IsInScope :
      (t : Table) (q : Query) (rs : List Members) (c : ℕ)
      → is_named q.ledger_run_id ≡ false
      → get_run_ledger db t q ≡ listed rs c
      → (c ≡ length rs) × (c ≤ q.limit) × ((r : Members) → Memᴰ r rs → IsInScope t q r)
  unfolding IsInScope
  get_run_ledger-IsInScope t q rs c scoped h =
      let (pk, pre, e, e', same) = get_run_ledger-Read t q rs c scoped h in
      let (rows, count) = listed_equal (sym h ∙ same) in
      (
        count ∙ ap length (sym rows),
        omega (
          arith,
          count,
          length-records_of q.handoff_id (query_sk_prefix db t pk pre q.limit),
          length-query_sk_prefix t pk pre q.limit,
        ),
        λ r m.
            let (there, of) =
              records_of-mem q.handoff_id (query_sk_prefix db t pk pre q.limit) r
                (subst (λ l. Memᴰ r l) rows m) in
            let (sk, row, starts) = query_sk_prefix-row t pk pre q.limit r there in
            let (plan, task, workstream, p, k, w, parts) = scope_prefix-parts q pre e' in
            (
              pk,
              sk,
              plan,
              task,
              workstream,
              e,
              p,
              k,
              w,
              subst (λ x. starts_with sk x ≡ true) parts starts,
              row,
              λ h named. of_handoff-is q.handoff_id r h of named,
            ),
      )

  -- Where the query reaches its limit and gives a row of another handoff, the count of the answer
  -- is below the limit: a client that compares the two does not see that rows are left out.
  pub get_run_ledger_hides :
      (t : Table) (q : Query) (rs : List Members) (c : ℕ) (pk pre : String) (r : Members)
      → is_named q.ledger_run_id ≡ false
      → get_run_ledger db t q ≡ listed rs c
      → build_run_ledger_pk q.company_id q.repository_id ≡ good pk
      → scope_prefix q ≡ good pre
      → length (query_sk_prefix db t pk pre q.limit) ≡ q.limit
      → Memᴰ r (query_sk_prefix db t pk pre q.limit)
      → of_handoff q.handoff_id r ≡ false
      → leb q.limit c ≡ false
  get_run_ledger_hides t q rs c pk pre r scoped h e e' full m other =
      let (pk', pre', k, k', same) = get_run_ledger-Read t q rs c scoped h in
      let same_pk : pk' ≡ pk = result_equal (sym k ∙ e) in
      let same_pre : pre' ≡ pre = result_equal (sym k' ∙ e') in
      let (rows, count) = listed_equal (sym h ∙ same) in
      let fewer : length (records_of q.handoff_id (query_sk_prefix db t pk' pre' q.limit))
          < q.limit =
        subst
          (λ p. length (records_of q.handoff_id (query_sk_prefix db t p pre' q.limit)) < q.limit)
          (sym same_pk)
          (subst
            (λ p. length (records_of q.handoff_id (query_sk_prefix db t pk p q.limit)) < q.limit)
            (sym same_pre)
            (omega (
              arith,
              full,
              records_of_fewer q.handoff_id (query_sk_prefix db t pk pre q.limit) r m other,
            ))) in
      below q.limit c (omega (arith, count, fewer))
    where
      result_equal : {a b : String} → good a ≡ good b → a ≡ b
      result_equal {a} p = ap (λ x. elim x [ good y ↦ y | raise y ↦ a ]) p

      below : (n m : ℕ) → m < n → leb n m ≡ false
      below n m k = ground arith
