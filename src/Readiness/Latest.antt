-- ===== src/Readiness/Latest.antt =====
-- The choice of the newest row, of src/canon_systems/readiness.py.
use mathlib.Core.List.{Memᴰ}
use mathlib.Core.List.Memᴰ
use mathlib.Core.Option.{some-injective}
use canon_systems.Base.Order.{text_order, lex_order, le_trans}
use canon_systems.Base.{
  String, ◌≡◌, refl, sym, ◌⊎◌, inl, inr, Bool, true, false, Option, none, some, List, [], ◌∷◌,
  if◌then◌else◌, Bool-cases, subst,
}
use canon_systems.Base.Json.{
  Json, Elements, Members, null, boolean, number, negative, string, array, object, no_elements,
  element, get, str_or_empty,
}

module _ (repr : Json → String) where
  abbrev pub ledger_sort_key : Members → String × String
  ledger_sort_key rec =
      (str_or_empty repr (get rec "updated_at"), str_or_empty repr (get rec "created_at"))

  -- The order of the keys, which is that of Python's tuples.
  abbrev pub key_lt : Members → Members → Bool
  key_lt a b = (lex_order text_order text_order).lt (ledger_sort_key a) (ledger_sort_key b)

  -- `max(maps, key=_ledger_sort_key)` from a first element: an equal one does not replace it.
  unfoldable pub max_from : Members → List Members → Members
  max_from best [] = best
  max_from best (m ∷ ms) = max_from (if key_lt best m then m else best) ms

-- `[x for x in items if isinstance(x, Mapping)]`.
unfoldable pub mappings : Elements → List Members
mappings no_elements = []
mappings (element (object ms) vs) = ms ∷ mappings vs
mappings (element null vs) = mappings vs
mappings (element (boolean b) vs) = mappings vs
mappings (element (number n) vs) = mappings vs
mappings (element (negative n) vs) = mappings vs
mappings (element (string s) vs) = mappings vs
mappings (element (array l) vs) = mappings vs

module _ (repr : Json → String) where
  abbrev pub pick_of : List Members → Option Members
  unfolding max_from
  pick_of [] = none
  pick_of (m ∷ ms) = some (max_from repr m ms)

  unfoldable pub pick_latest_ledger_record : Elements → Option Members
  unfolding max_from mappings
  pick_latest_ledger_record items = pick_of (mappings items)

  pick-cases :
      (a b : Members)
      → (((if key_lt repr a b then b else a) ≡ b) × (key_lt repr a b ≡ true))
        ⊎ (((if key_lt repr a b then b else a) ≡ a) × (key_lt repr a b ≡ false))
  pick-cases a b = elim (Bool-cases (key_lt repr a b)) [
    | inl h ↦ inl (rw h, h)
    | inr h ↦ inr (rw h, h)
  ]

  not_above :
      (a b c : Members)
      → key_lt repr b a ≡ false
      → key_lt repr c b ≡ false
      → key_lt repr c a ≡ false
  not_above a b c =
      le_trans (lex_order text_order text_order) (ledger_sort_key repr a) (ledger_sort_key repr b)
        (ledger_sort_key repr c)

  -- What `max` gives: one of the rows, and none of them is newer.
  pub IsLatest : Members → List Members → Type 0
  IsLatest r l = Memᴰ r l × ((m : Members) → Memᴰ m l → key_lt repr r m ≡ false)

  key_asym : (a b : Members) → key_lt repr a b ≡ true → key_lt repr b a ≡ false
  key_asym a b =
      (lex_order text_order text_order).asym (ledger_sort_key repr a) (ledger_sort_key repr b)

  key_irrefl : (a : Members) → key_lt repr a a ≡ false
  key_irrefl a = elim (Bool-cases (key_lt repr a a)) [ inl h ↦ key_asym a a h | inr h ↦ h ]

  pick_not_above :
      (a b : Members)
      → (key_lt repr (if key_lt repr a b then b else a) a ≡ false)
        × (key_lt repr (if key_lt repr a b then b else a) b ≡ false)
  pick_not_above a b = elim (pick-cases a b) [
    | inl (e, h) ↦ rw e (key_asym a b h, key_irrefl b)
    | inr (e, h) ↦ rw e (key_irrefl a, h)
  ]

  pick_member :
      (a b : Members) (l : List Members) → Memᴰ (if key_lt repr a b then b else a) (a ∷ b ∷ l)
  pick_member a b l = elim (pick-cases a b) [
    | inl (e, h) ↦ rw e (Memᴰ.tail (Memᴰ.head refl))
    | inr (e, h) ↦ rw e (Memᴰ.head refl)
  ]

  -- A newest row of the list that begins with the newer of two is one of both and the rest.
  widen-IsLatest :
      (a b first r : Members) (l : List Members)
      → (key_lt repr first a ≡ false) × (key_lt repr first b ≡ false)
      → Memᴰ first (a ∷ b ∷ l)
      → IsLatest r (first ∷ l)
      → IsLatest r (a ∷ b ∷ l)
  unfolding IsLatest
  widen-IsLatest a b first r l (over_a, over_b) among (there, above) = (found, newest)
    where
      found : Memᴰ r (a ∷ b ∷ l)
      found = elim (Memᴰ.cases_cons there) [
        | inl e ↦ subst (λ x. Memᴰ x (a ∷ b ∷ l)) (sym e) among
        | inr h ↦ Memᴰ.tail (Memᴰ.tail h)
      ]

      over : (x : Members) → key_lt repr first x ≡ false → key_lt repr r x ≡ false
      over x h = not_above x first r h (above first (Memᴰ.head refl))

      newest : (x : Members) → Memᴰ x (a ∷ b ∷ l) → key_lt repr r x ≡ false
      newest x h = elim (Memᴰ.cases_cons h) [
        | inl e ↦ subst (λ y. key_lt repr r y ≡ false) (sym e) (over a over_a)
        | inr h' ↦ elim (Memᴰ.cases_cons h') [
          | inl e ↦ subst (λ y. key_lt repr r y ≡ false) (sym e) (over b over_b)
          | inr h'' ↦ above x (Memᴰ.tail h'')
        ]
      ]

  max_from-IsLatest : (b : Members) (l : List Members) → IsLatest (max_from repr b l) (b ∷ l)
  unfolding max_from IsLatest
  max_from-IsLatest b [] = (Memᴰ.head refl, only)
    where
      only : (m : Members) → Memᴰ m (b ∷ []) → key_lt repr b m ≡ false
      only m h = elim (Memᴰ.cases_cons h) [
        | inl e ↦ subst (λ x. key_lt repr b x ≡ false) (sym e) (key_irrefl b)
        | inr h' ↦ elim h' [ ]
      ]
  max_from-IsLatest b (m ∷ ms) =
      widen-IsLatest b m (if key_lt repr b m then m else b)
        (max_from repr (if key_lt repr b m then m else b) ms) ms (pick_not_above b m)
        (pick_member b m ms) (max_from-IsLatest (if key_lt repr b m then m else b) ms)

  pub pick_latest_ledger_record-IsLatest :
      (items : Elements) (r : Members)
      → pick_latest_ledger_record items ≡ some r
      → IsLatest r (mappings items)
  unfolding pick_latest_ledger_record
  pick_latest_ledger_record-IsLatest items r h = of_list (mappings items) h
    where
      of_list : (l : List Members) → pick_of l ≡ some r → IsLatest r l
      of_list [] h = cc
      of_list (m ∷ ms) h =
          subst (λ x. IsLatest x (m ∷ ms)) (some-injective (max_from repr m ms) r h)
            (max_from-IsLatest m ms)
