-- ===== src/Dynamo/Memory.antt =====
-- A table in memory that never breaks down: the service's law can be met.
use canon_systems.Base.{
  ◌≡◌, ◌≢◌, ◌⊎◌, inl, inr, true, false, Option, some, none, arith, List, eq_iff, eq_refl,
  Bool-cases, if◌then◌else◌,
}
use canon_systems.Dynamo.{
  Item, Key, same_key, Condition, holds, Action, updated, Reply, done, failed,
  conditional_check_failed, Dynamo,
}

abbrev pub Rows : Type 0
Rows = Key → Option Item

abbrev pub no_rows : Rows
no_rows k = none

abbrev pub put_row : Rows → Key → Item → Rows
put_row t k i j = if same_key j k then some i else t j

abbrev pub update_rows : Rows → Key → Condition → List Action → Reply Rows
update_rows t k c u =
    if holds c (t k)
    then done (put_row t k (updated u (t k))) (updated u (t k))
    else failed conditional_check_failed

pub same_key_refl : (k : Key) → same_key k k ≡ true
same_key_refl (a, b) = rw (eq_refl a, eq_refl b)

pub same_key-ne : (j k : Key) → j ≢ k → same_key j k ≡ false
same_key-ne (a, b) (c, d) h = elim (Bool-cases (same_key (a, b) (c, d))) [
  | inl e ↦ absurd (h (ground (arith, eq_iff a c, eq_iff b d)))
  | inr e ↦ e
]

pub update_rows_law :
    (t : Rows) (k : Key) (c : Condition) (u : List Action)
    → ((t' : Rows) × (update_rows t k c u ≡ done t' (updated u (t k)))
        × (holds c (t k) ≡ true)
        × (t' k ≡ some (updated u (t k)))
        × ((j : Key) → j ≢ k → t' j ≡ t j))
      ⊎ ((update_rows t k c u ≡ failed conditional_check_failed) × (holds c (t k) ≡ false)
          ⊎ ((code : Prim.Native.String.String) × (update_rows t k c u ≡ failed code)
              × (code ≢ conditional_check_failed)))
update_rows_law t k c u = elim (Bool-cases (holds c (t k))) [
  | inl h ↦
      inl
        (put_row t k (updated u (t k)), rw h, h, rw same_key_refl, λ j ne. rw (same_key-ne j k ne))
  | inr h ↦ inr (inl (rw h, h))
]

abbrev pub memory : Dynamo
memory = record {
  Table = Rows;
  get = λ t k. t k;
  update = update_rows;
  update_law = update_rows_law;
}
