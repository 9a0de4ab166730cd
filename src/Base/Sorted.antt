-- ===== src/Base/Sorted.antt =====
-- The lexicographic order of lists, and what a sorted list is.
use mathlib.Core.List.{Memᴰ}
use mathlib.Core.List.Memᴰ
use canon_systems.Base.{
  ◌≡◌, refl, sym, inl, inr, Bool, true, false, not, ◌&&◌, ◌||◌, List, [], ◌∷◌, arith, Bool-cases,
  subst,
}
use canon_systems.Base.Order.{StrictOrder, insert, sort, mem-insert, le_trans}

module _ {ℓ} {A : Type ℓ} (o : StrictOrder A) where
  abbrev pub list_lt : List A → List A → Bool
  list_lt [] [] = false
  list_lt [] (y ∷ ys) = true
  list_lt (x ∷ xs) [] = false
  list_lt (x ∷ xs) (y ∷ ys) = o.lt x y || (not (o.lt y x) && list_lt xs ys)

  pub list_asym : (xs ys : List A) → list_lt xs ys ≡ true → list_lt ys xs ≡ false
  list_asym [] [] h = cc
  list_asym [] (y ∷ ys) h = refl
  list_asym (x ∷ xs) [] h = cc
  list_asym (x ∷ xs) (y ∷ ys) h = ground (arith, o.asym x y, o.asym y x, list_asym xs ys)

  pub list_connected : (xs ys : List A) → list_lt xs ys ≡ false → list_lt ys xs ≡ false → xs ≡ ys
  list_connected [] [] h k = refl
  list_connected [] (y ∷ ys) h k = cc
  list_connected (x ∷ xs) [] h k = cc
  list_connected (x ∷ xs) (y ∷ ys) h k =
      ground (arith, o.asym x y, o.asym y x, o.connected x y, list_connected xs ys)

  pub list_trans :
      (xs ys zs : List A) → list_lt xs ys ≡ true → list_lt ys zs ≡ true → list_lt xs zs ≡ true
  list_trans [] [] zs h k = cc
  list_trans [] (y ∷ ys) [] h k = cc
  list_trans [] (y ∷ ys) (z ∷ zs) h k = refl
  list_trans (x ∷ xs) [] zs h k = cc
  list_trans (x ∷ xs) (y ∷ ys) [] h k = cc
  list_trans (x ∷ xs) (y ∷ ys) (z ∷ zs) h k = ground (
    arith,
    o.trans x y z,
    o.trans z x y,
    o.trans y z x,
    o.asym x y,
    o.asym y z,
    o.asym x z,
    o.connected x y,
    o.connected y z,
    list_trans xs ys zs,
  )

  abbrev pub list_order : StrictOrder (List A)
  list_order = record {
    lt = list_lt;
    asym = list_asym;
    trans = list_trans;
    connected = list_connected;
  }

module _ {ℓ κ} {A : Type ℓ} {K : Type κ} (o : StrictOrder K) (key : A → K) where
  -- No element is below one that stands before it.
  pub data IsOrdered : List A → Type (ℓ ⊔ κ) where
    nil : IsOrdered []
    cons :
        {x : A} {xs : List A}
        → ((y : A) → Memᴰ y xs → o.lt (key y) (key x) ≡ false)
        → IsOrdered xs
        → IsOrdered (x ∷ xs)

module _ {ℓ κ} {A : Type ℓ} {K : Type κ} (o : StrictOrder K) (key : A → K) where
  insert-IsOrdered : (x : A) (l : List A) → IsOrdered o key l → IsOrdered o key (insert o key x l)
  unfolding insert
  insert-IsOrdered x [] h = IsOrdered.cons (λ y m. elim m [ ]) h
  insert-IsOrdered x (y ∷ ys) (IsOrdered.cons above rest) =
      elim (Bool-cases (o.lt (key y) (key x))) [
        | inl below ↦
            rw (insert, below)
              (IsOrdered.cons
                (λ z m. elim (mem-insert o key x ys m) [
                  | inl e ↦
                      subst (λ w. o.lt (key w) (key y) ≡ false) (sym e)
                        (o.asym (key y) (key x) below)
                  | inr m' ↦ above z m'
                ])
                (insert-IsOrdered x ys rest))
        | inr here ↦
            rw (insert, here)
              (IsOrdered.cons
                (λ z m. elim (Memᴰ.cases_cons m) [
                  | inl e ↦ subst (λ w. o.lt (key w) (key x) ≡ false) (sym e) here
                  | inr m' ↦ le_trans o (key x) (key y) (key z) here (above z m')
                ])
                (IsOrdered.cons above rest))
      ]

  -- Sorting orders a list.
  pub sort-IsOrdered : (l : List A) → IsOrdered o key (sort o key l)
  unfolding sort
  sort-IsOrdered [] = IsOrdered.nil
  sort-IsOrdered (x ∷ xs) = insert-IsOrdered x (sort o key xs) (sort-IsOrdered xs)
