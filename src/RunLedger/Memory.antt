-- ===== src/RunLedger/Memory.antt =====
-- A ledger table in memory: the laws of `LedgerTable` can be met.
use mathlib.Core.List.{Memᴰ}
use mathlib.Core.List.Memᴰ
use canon_systems.Base.{
  ℕ, zero, suc, ◌≤◌, ◌≡◌, sym, ap, ◌∙◌, inl, inr, true, Option, none, some, List, [], ◌∷◌,
  Bool-cases, Option-cases, if◌then◌else◌, length, arith,
}
use canon_systems.Base.Json.{Members}
use canon_systems.Dynamo.{Key, same_key}
use canon_systems.Dynamo.Expressions.{
  PutCondition, passes, Put, stored, condition_failed, PutLaw, KeyCondition, selects,
}
use canon_systems.Dynamo.Memory.{same_key_refl, same_key-ne}
use canon_systems.RunLedger.Routes.{LedgerTable}

-- The keys in the order of a query, and the rows.
abbrev pub Rows : Type 0
Rows = List (Key) × (Key → Option Members)

abbrev pub row_at : Rows → Key → Option Members
row_at (ks, f) k = f k

abbrev pub with_row : Rows → Key → Members → Rows
with_row (ks, f) k r = (k ∷ ks, λ j. if same_key j k then some r else f j)

abbrev pub put_row : Rows → Key → PutCondition → Members → Put Rows
put_row t k c r = if passes c (row_at t k) then stored (with_row t k r) else condition_failed

pub put_row_law : PutLaw Rows Members row_at put_row
put_row_law t k c r = elim (Bool-cases (passes c (row_at t k))) [
  | inl held ↦
      inl (
        with_row t k r,
        rw (put_row, held),
        held,
        rw same_key_refl,
        λ j ne. rw (same_key-ne j k ne),
      )
  | inr not_held ↦ inr (inl (rw (put_row, not_held), not_held))
]

abbrev row_under : KeyCondition → (Key → Option Members) → Key → Option Members
row_under c f k = if selects c k then f k else none

abbrev first_rows : (Key → Option Members) → List (Key) → ℕ → List Members
first_rows g ks zero = []
first_rows g [] (suc n) = []
first_rows g (k ∷ ks) (suc n) = elim (g k) [
  | none ↦ first_rows g ks (suc n)
  | some r ↦ r ∷ first_rows g ks n
]

first_rows-limit :
    (g : Key → Option Members) (ks : List (Key)) (n : ℕ) → length (first_rows g ks n) ≤ n
first_rows-limit g ks zero = omega arith
first_rows-limit g [] (suc n) = omega arith
first_rows-limit g (k ∷ ks) (suc n) = elim (Option-cases (g k)) [
  | inl e ↦ rw (first_rows, e) (first_rows-limit g ks (suc n))
  | inr (r, e) ↦ rw (first_rows, e) (omega (arith, first_rows-limit g ks n))
]

first_rows-mem :
    (g : Key → Option Members) (ks : List (Key)) (n : ℕ) (r : Members)
    → Memᴰ r (first_rows g ks n)
    → (k : Key) × (g k ≡ some r)
first_rows-mem g ks zero r m = elim m [ ]
first_rows-mem g [] (suc n) r m = elim m [ ]
first_rows-mem g (k ∷ ks) (suc n) r m = elim (Option-cases (g k)) [
  | inl e ↦ first_rows-mem g ks (suc n) r (rw (first_rows, e) at m)
  | inr (s, e) ↦ elim (Memᴰ.cases_cons (rw (first_rows, e) at m)) [
    | inl same ↦ (k, e ∙ ap some (sym same))
    | inr m' ↦ first_rows-mem g ks n r m'
  ]
]

abbrev pub query_rows_of : Rows → KeyCondition → ℕ → List Members
query_rows_of (ks, f) c n = first_rows (row_under c f) ks n

pub query_rows_law :
    (t : Rows) (c : KeyCondition) (n : ℕ) (r : Members)
    → Memᴰ r (query_rows_of t c n)
    → (k : Key) × (row_at t k ≡ some r) × (selects c k ≡ true)
query_rows_law (ks, f) c n r m =
    let (k, e) = first_rows-mem (row_under c f) ks n r m in
    elim (Bool-cases (selects c k)) [
      | inl here ↦ (k, rw (row_under, here) at e, here)
      | inr other ↦ cc (rw (row_under, other) at e)
    ]

pub query_limit_law : (t : Rows) (c : KeyCondition) (n : ℕ) → length (query_rows_of t c n) ≤ n
query_limit_law (ks, f) c n = first_rows-limit (row_under c f) ks n

abbrev pub ledger_table : LedgerTable
ledger_table = record {
  Table = Rows;
  get_item = row_at;
  put_item = put_row;
  query = query_rows_of;
  put_law = put_row_law;
  query_limit = query_limit_law;
  query_rows = query_rows_law;
}

abbrev pub empty : Rows
empty = ([], λ k. none)
