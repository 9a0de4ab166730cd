-- ===== src/Base/Strict.antt =====
-- Lists in strict order of their keys: one is told by its members.
use mathlib.Core.List.{Memᴰ}
use mathlib.Core.List.Memᴰ
use canon_systems.Base.{
  ◌≡◌, ◌≢◌, refl, sym, ap, ◌∙◌, ◌⊎◌, inl, inr, true, false, List, [], ◌∷◌, ◌++◌, Bool-cases, subst,
}
use canon_systems.Base.Order.{StrictOrder, insert, sort, mem-insert, mem-sort}

module _ {ℓ κ} {A : Type ℓ} {K : Type κ} (o : StrictOrder K) (key : A → K) where
  pub data IsStrict : List A → Type (ℓ ⊔ κ) where
    nil : IsStrict []
    cons :
        {x : A} {xs : List A}
        → ((y : A) → Memᴰ y xs → o.lt (key x) (key y) ≡ true)
        → IsStrict xs
        → IsStrict (x ∷ xs)

module _ {ℓ κ} {A : Type ℓ} {K : Type κ} (key : A → K) where
  -- No two elements have one key.
  pub data IsDistinct : List A → Type (ℓ ⊔ κ) where
    nil : IsDistinct []
    cons :
        {x : A} {xs : List A}
        → ((y : A) → Memᴰ y xs → key y ≢ key x)
        → IsDistinct xs
        → IsDistinct (x ∷ xs)

module _ {ℓ} {A : Type ℓ} where
  pub mem_snoc : {x y : A} (l : List A) → Memᴰ x (l ++ y ∷ []) → Memᴰ x l ⊎ (x ≡ y)
  mem_snoc [] m = elim (Memᴰ.cases_cons m) [ inl e ↦ inr e | inr n ↦ inl n ]
  mem_snoc (z ∷ zs) m = elim (Memᴰ.cases_cons m) [
    | inl e ↦ inl (Memᴰ.head e)
    | inr n ↦ elim (mem_snoc zs n) [ inl k ↦ inl (Memᴰ.tail k) | inr e ↦ inr e ]
  ]

  pub mem_append_left : {x : A} (l m : List A) → Memᴰ x l → Memᴰ x (l ++ m)
  mem_append_left [] m h = elim h [ ]
  mem_append_left (y ∷ ys) m h = elim (Memᴰ.cases_cons h) [
    | inl e ↦ Memᴰ.head e
    | inr n ↦ Memᴰ.tail (mem_append_left ys m n)
  ]

  pub mem_append_right : {x : A} (l m : List A) → Memᴰ x m → Memᴰ x (l ++ m)
  mem_append_right [] m h = h
  mem_append_right (y ∷ ys) m h = Memᴰ.tail (mem_append_right ys m h)

  pub mem_append : {x : A} (l m : List A) → Memᴰ x (l ++ m) → Memᴰ x l ⊎ Memᴰ x m
  mem_append [] m h = inr h
  mem_append (y ∷ ys) m h = elim (Memᴰ.cases_cons h) [
    | inl e ↦ inl (Memᴰ.head e)
    | inr n ↦ elim (mem_append ys m n) [ inl k ↦ inl (Memᴰ.tail k) | inr k ↦ inr k ]
  ]

module _ {ℓ κ} {A : Type ℓ} {K : Type κ} (o : StrictOrder K) (key : A → K) where
  lt_irrefl : (a : K) → o.lt a a ≢ true
  lt_irrefl a h = cc (o.asym a a h, h)

  -- Two elements of which each is the first of a strict list that has the other are one.
  heads-eq :
      (x y : A) (xs ys : List A)
      → ((z : A) → Memᴰ z xs → o.lt (key x) (key z) ≡ true)
      → ((z : A) → Memᴰ z ys → o.lt (key y) (key z) ≡ true)
      → Memᴰ x (y ∷ ys)
      → Memᴰ y (x ∷ xs)
      → x ≡ y
  heads-eq x y xs ys above_x above_y m n = elim (Memᴰ.cases_cons m) [
    | inl e ↦ e
    | inr m' ↦ elim (Memᴰ.cases_cons n) [
      | inl e ↦ sym e
      | inr n' ↦ cc (o.asym (key x) (key y) (above_x y n'), above_y x m')
    ]
  ]

  tail-mem :
      (x y z : A) (xs ys : List A)
      → ((w : A) → Memᴰ w xs → o.lt (key x) (key w) ≡ true)
      → x ≡ y
      → Memᴰ z (y ∷ ys)
      → Memᴰ z xs
      → Memᴰ z ys
  tail-mem x y z xs ys above same m n = elim (Memᴰ.cases_cons m) [
    | inl e ↦
        absurd
          (lt_irrefl (key x) (subst (λ w. o.lt (key x) (key w) ≡ true) (e ∙ sym same) (above z n)))
    | inr m' ↦ m'
  ]

  pub strict_ext :
      (l m : List A)
      → IsStrict o key l
      → IsStrict o key m
      → ((x : A) → Memᴰ x l → Memᴰ x m)
      → ((x : A) → Memᴰ x m → Memᴰ x l)
      → l ≡ m
  strict_ext [] [] a b to from = refl
  strict_ext [] (y ∷ ys) a b to from = elim (from y (Memᴰ.head refl)) [ ]
  strict_ext (x ∷ xs) [] a b to from = elim (to x (Memᴰ.head refl)) [ ]
  strict_ext (x ∷ xs) (y ∷ ys) (IsStrict.cons above_x a) (IsStrict.cons above_y b) to from =
      let same =
        heads-eq x y xs ys above_x above_y (to x (Memᴰ.head refl)) (from y (Memᴰ.head refl)) in
      let rest =
        strict_ext xs ys a b (λ z n. tail-mem x y z xs ys above_x same (to z (Memᴰ.tail n)) n)
          (λ z n. tail-mem y x z ys xs above_y (sym same) (from z (Memᴰ.tail n)) n) in
      ap (λ w. w ∷ xs) same ∙ ap (λ l. y ∷ l) rest

  insert-IsStrict :
      (x : A) (l : List A)
      → ((y : A) → Memᴰ y l → key y ≢ key x)
      → IsStrict o key l
      → IsStrict o key (insert o key x l)
  unfolding insert
  insert-IsStrict x [] other h = IsStrict.cons (λ y m. elim m [ ]) h
  insert-IsStrict x (y ∷ ys) other (IsStrict.cons above rest) =
      elim (Bool-cases (o.lt (key y) (key x))) [
        | inl below ↦
            rw (insert, below)
              (IsStrict.cons
                (λ z m. elim (mem-insert o key x ys m) [
                  | inl e ↦ subst (λ w. o.lt (key y) (key w) ≡ true) (sym e) below
                  | inr m' ↦ above z m'
                ])
                (insert-IsStrict x ys (λ z m. other z (Memᴰ.tail m)) rest))
        | inr here ↦
            let first = first_below x y here (other y (Memᴰ.head refl)) in
            rw (insert, here)
              (IsStrict.cons
                (λ z m. elim (Memᴰ.cases_cons m) [
                  | inl e ↦ subst (λ w. o.lt (key x) (key w) ≡ true) (sym e) first
                  | inr m' ↦ o.trans (key x) (key y) (key z) first (above z m')
                ])
                (IsStrict.cons above rest))
      ]
    where
      first_below :
          (x y : A) → o.lt (key y) (key x) ≡ false → key y ≢ key x → o.lt (key x) (key y) ≡ true
      first_below x y here other = elim (Bool-cases (o.lt (key x) (key y))) [
        | inl h ↦ h
        | inr h ↦ absurd (other (o.connected (key y) (key x) here h))
      ]

  pub sort-IsStrict : (l : List A) → IsDistinct key l → IsStrict o key (sort o key l)
  unfolding sort
  sort-IsStrict [] d = IsStrict.nil
  sort-IsStrict (x ∷ xs) (IsDistinct.cons other d) =
      insert-IsStrict x (sort o key xs) (λ y m. other y (mem-sort o key xs m)) (sort-IsStrict xs d)

  pub IsStrict-IsDistinct : (l : List A) → IsStrict o key l → IsDistinct key l
  IsStrict-IsDistinct [] h = IsDistinct.nil
  IsStrict-IsDistinct (x ∷ xs) (IsStrict.cons above h) =
      IsDistinct.cons
        (λ y m same. lt_irrefl (key x) (subst (λ k. o.lt (key x) k ≡ true) same (above y m)))
        (IsStrict-IsDistinct xs h)

  -- An element above all others may stand last.
  pub IsStrict-snoc :
      (x : A) (l : List A)
      → ((y : A) → Memᴰ y l → o.lt (key y) (key x) ≡ true)
      → IsStrict o key l
      → IsStrict o key (l ++ x ∷ [])
  IsStrict-snoc x [] below h = IsStrict.cons (λ y m. elim m [ ]) IsStrict.nil
  IsStrict-snoc x (y ∷ ys) below (IsStrict.cons above h) =
      IsStrict.cons
        (λ z m. elim (mem_snoc ys m) [
          | inl m' ↦ above z m'
          | inr e ↦ subst (λ w. o.lt (key y) (key w) ≡ true) (sym e) (below y (Memᴰ.head refl))
        ])
        (IsStrict-snoc x ys (λ z m. below z (Memᴰ.tail m)) h)
