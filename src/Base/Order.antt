-- ===== src/Base/Order.antt =====
-- Strict orders as Boolean tests, their lexicographic pairs, and a stable sort by a key, which is
-- what Python's `sorted` and `list.sort` do.
use mathlib.Core.List.{Permᴰ, Memᴰ}
use mathlib.Core.List.Memᴰ
use Prim.Native.Nat.{compare as compare_nat, Ordering}
use Prim.Native.Char.{Char, code}
use Prim.Native.String.{String, compare}
use Prim.Native.String.compare as compare_text
use text.Mathlib.TextEquality.{codes_equal}
use canon_systems.Base.Text.{str_lt}
use canon_systems.Base.{
  ℕ, ◌≡◌, refl, sym, ap, ◌∙◌, ◌⊎◌, inl, inr, Bool, true, false, not, ◌&&◌, ◌||◌, List, [], ◌∷◌,
  arith, ltb, eqb, Bool-cases, if◌then◌else◌, length, suc,
}

pub record StrictOrder {ℓ} (A : Type ℓ) : Type ℓ where
  pub lt : A → A → Bool
  pub asym : (a b : A) → lt a b ≡ true → lt b a ≡ false
  pub trans : (a b c : A) → lt a b ≡ true → lt b c ≡ true → lt a c ≡ true
  pub connected : (a b : A) → lt a b ≡ false → lt b a ≡ false → a ≡ b

module _ {ℓ κ} {A : Type ℓ} {B : Type κ} (o : StrictOrder A) (p : StrictOrder B) where
  abbrev pub lex_lt : A × B → A × B → Bool
  lex_lt (a, b) (c, d) = o.lt a c || (not (o.lt c a) && p.lt b d)

  pub lex_asym : (x y : A × B) → lex_lt x y ≡ true → lex_lt y x ≡ false
  lex_asym (a, b) (c, d) h = ground (arith, o.asym a c, o.asym c a, p.asym b d)

  pub lex_connected : (x y : A × B) → lex_lt x y ≡ false → lex_lt y x ≡ false → x ≡ y
  lex_connected (a, b) (c, d) h k = ground (arith, o.asym a c, o.connected a c, p.connected b d)

module _ {ℓ κ} {A : Type ℓ} {B : Type κ} (o : StrictOrder A) (p : StrictOrder B) where
  pub lex_trans :
      (x y z : A × B) → lex_lt o p x y ≡ true → lex_lt o p y z ≡ true → lex_lt o p x z ≡ true
  lex_trans (a, b) (c, d) (e, f) h k = ground (
    arith,
    o.trans a c e,
    o.trans e a c,
    o.trans c e a,
    o.asym a c,
    o.asym c e,
    o.asym a e,
    o.connected a c,
    o.connected c e,
    p.trans b d f,
  )

  abbrev pub lex_order : StrictOrder (A × B)
  lex_order = record {
    lt = lex_lt o p;
    asym = lex_asym o p;
    trans = lex_trans;
    connected = lex_connected o p;
  }

module _ {ℓ κ} {A : Type ℓ} {K : Type κ} (o : StrictOrder K) (key : A → K) where
  -- The element goes before those that are equal to it: the list is built from its end.
  unfoldable pub insert : A → List A → List A
  insert x [] = x ∷ []
  insert x (y ∷ ys) = if o.lt (key y) (key x) then y ∷ insert x ys else x ∷ y ∷ ys

  unfoldable pub sort : List A → List A
  unfolding insert
  sort [] = []
  sort (x ∷ xs) = insert x (sort xs)

  -- Two elements with different keys are inserted in either order.
  insert_comm :
      (x y : A) (l : List A)
      → o.lt (key x) (key y) ≡ true
      → insert x (insert y l) ≡ insert y (insert x l)
  unfolding insert
  insert_comm x y [] h = ground (arith, o.asym (key x) (key y))
  insert_comm x y (a ∷ l) h =
      ground (arith, o.asym (key x) (key y), o.trans (key a) (key x) (key y), insert_comm x y l h)

module _ {ℓ} {A : Type ℓ} where
  mem_back : {x : A} {l m : List A} → Permᴰ l m → Memᴰ x m → Memᴰ x l
  mem_back Permᴰ.nil h = h
  mem_back (Permᴰ.cons e p) (Memᴰ.head q) = Memᴰ.head (q ∙ sym e)
  mem_back (Permᴰ.cons e p) (Memᴰ.tail h) = Memᴰ.tail (mem_back p h)
  mem_back (Permᴰ.swap e f) (Memᴰ.head q) = Memᴰ.tail (Memᴰ.head (q ∙ sym f))
  mem_back (Permᴰ.swap e f) (Memᴰ.tail (Memᴰ.head q)) = Memᴰ.head (q ∙ sym e)
  mem_back (Permᴰ.swap e f) (Memᴰ.tail (Memᴰ.tail h)) = Memᴰ.tail (Memᴰ.tail h)
  mem_back (Permᴰ.trans p q) h = mem_back p (mem_back q h)

module _ {ℓ κ} {A : Type ℓ} {K : Type κ} (o : StrictOrder K) (key : A → K) where
  -- Elements of the list with one key are one element.
  abbrev pub IsConsistent : List A → Type (ℓ ⊔ κ)
  IsConsistent l = (x y : A) → Memᴰ x l → Memᴰ y l → key x ≡ key y → x ≡ y

  insert_swap :
      (x y : A) (l : List A)
      → (key x ≡ key y → x ≡ y)
      → insert o key x (insert o key y l) ≡ insert o key y (insert o key x l)
  insert_swap x y l same = elim (Bool-cases (o.lt (key x) (key y))) [
    | inl below ↦ insert_comm o key x y l below
    | inr above ↦ elim (Bool-cases (o.lt (key y) (key x))) [
      | inl below ↦ sym (insert_comm o key y x l below)
      | inr equal ↦ rw (same (o.connected (key x) (key y) above equal))
    ]
  ]

  -- Sorting forgets the order of a list whose elements are told apart by their keys.
  pub sort_perm : {l m : List A} → IsConsistent l → Permᴰ l m → sort o key l ≡ sort o key m
  unfolding sort
  sort_perm c Permᴰ.nil = refl
  sort_perm c (Permᴰ.cons {b = b} {l₁ = l} e p) =
      rw (e, sort_perm (λ x y hx hy. c x y (Memᴰ.tail hx) (Memᴰ.tail hy)) p)
  sort_perm c (Permᴰ.swap {a = a} {b = b} {l = l} e f) =
      rw (← e, ← f)
        (insert_swap a b (sort o key l) (c a b (Memᴰ.head refl) (Memᴰ.tail (Memᴰ.head refl))))
  sort_perm c (Permᴰ.trans p q) =
      sort_perm c p ∙ sort_perm (λ x y hx hy. c x y (mem_back p hx) (mem_back p hy)) q

nil-cons : (d : Char) (t : String) → compare "" (String.◌∷◌ d t) ≡ Ordering.lt
nil-cons d t = λ i. compare_text.nil-cons d t i

cons-nil : (c : Char) (s : String) → compare (String.◌∷◌ c s) "" ≡ Ordering.gt
cons-nil c s = λ i. compare_text.cons-nil c s i

cons-cons :
    (c d : Char) (s t : String)
    → compare (String.◌∷◌ c s) (String.◌∷◌ d t)
      ≡ Prim.Native.String.then (compare_nat (code c) (code d)) (compare s t)
cons-cons c d s t = λ i. compare_text.cons-cons c d s t i

-- The order of texts, one character at a time.
str_lt-cons :
    (c d : Char) (s t : String)
    → str_lt (String.◌∷◌ c s) (String.◌∷◌ d t)
      ≡ (ltb (code c) (code d) || (eqb (code c) (code d) && str_lt s t))
str_lt-cons c d s t = rw (cons-cons c d s t, str_lt) (by_code (compare s t))
  where
    by_code :
        (o : Ordering)
        → (elim (Prim.Native.String.then (compare_nat (code c) (code d)) o) [
          | Ordering.lt ↦ true
          | _ ↦ false
        ])
          ≡ (ltb (code c) (code d)
              || (eqb (code c) (code d) && (elim o [ Ordering.lt ↦ true | _ ↦ false ])))
    by_code o = ground arith

pub str_asym : (s t : String) → str_lt s t ≡ true → str_lt t s ≡ false
str_asym String.[] String.[] h = refl
str_asym String.[] (String.◌∷◌ d t) h = ground (arith, cons-nil d t)
str_asym (String.◌∷◌ c s) String.[] h = ground (arith, cons-nil c s)
str_asym (String.◌∷◌ c s) (String.◌∷◌ d t) h =
    ground (arith, str_lt-cons c d s t, str_lt-cons d c t s, str_asym s t)

pub str_trans : (s t u : String) → str_lt s t ≡ true → str_lt t u ≡ true → str_lt s u ≡ true
str_trans String.[] String.[] u h k = k
str_trans String.[] (String.◌∷◌ d t) String.[] h k = ground (arith, cons-nil d t)
str_trans String.[] (String.◌∷◌ d t) (String.◌∷◌ e u) h k = ground (arith, nil-cons e u)
str_trans (String.◌∷◌ c s) String.[] u h k = ground (arith, cons-nil c s)
str_trans (String.◌∷◌ c s) (String.◌∷◌ d t) String.[] h k = ground (arith, cons-nil d t)
str_trans (String.◌∷◌ c s) (String.◌∷◌ d t) (String.◌∷◌ e u) h k =
    ground (arith, str_lt-cons c d s t, str_lt-cons d e t u, str_lt-cons c e s u, str_trans s t u)

connected_parts :
    (c d : Char) (s t : String)
    → str_lt (String.◌∷◌ c s) (String.◌∷◌ d t) ≡ false
    → str_lt (String.◌∷◌ d t) (String.◌∷◌ c s) ≡ false
    → (compare_nat (code c) (code d) ≡ Ordering.eq) × (str_lt s t ≡ false) × (str_lt t s ≡ false)
connected_parts c d s t h k = ground (arith, str_lt-cons c d s t, str_lt-cons d c t s)

pub str_connected : (s t : String) → str_lt s t ≡ false → str_lt t s ≡ false → s ≡ t
str_connected String.[] String.[] h k = refl
str_connected String.[] (String.◌∷◌ d t) h k = ground (arith, nil-cons d t)
str_connected (String.◌∷◌ c s) String.[] h k = ground (arith, nil-cons c s)
str_connected (String.◌∷◌ c s) (String.◌∷◌ d t) h k =
    let (same_code, below, above) = connected_parts c d s t h k in
    λ i. String.◌∷◌ (codes_equal c d same_code i) (str_connected s t below above i)

-- Texts by code points, as Python compares them.
abbrev pub text_order : StrictOrder String
text_order = record { lt = str_lt; asym = str_asym; trans = str_trans; connected = str_connected }

module _ {ℓ} {A : Type ℓ} (o : StrictOrder A) where
  -- "Not above" is transitive.
  pub le_trans : (a b c : A) → o.lt b a ≡ false → o.lt c b ≡ false → o.lt c a ≡ false
  le_trans a b c h k = ground (
    arith,
    o.trans c a b,
    o.trans b c a,
    o.asym a b,
    o.asym b c,
    o.connected a b,
    o.connected b c,
    o.asym a c,
  )

module _ {ℓ κ} {A : Type ℓ} {K : Type κ} (o : StrictOrder K) (key : A → K) where
  pub mem-insert : {z : A} (x : A) (l : List A) → Memᴰ z (insert o key x l) → (z ≡ x) ⊎ Memᴰ z l
  unfolding insert
  mem-insert x [] (Memᴰ.head e) = inl e
  mem-insert x [] (Memᴰ.tail m) = inr m
  mem-insert x (y ∷ ys) m = elim (Bool-cases (o.lt (key y) (key x))) [
    | inl below ↦ elim (Memᴰ.cases_cons (rw (below, insert) at m)) [
      | inl e ↦ inr (Memᴰ.head e)
      | inr m' ↦ elim (mem-insert x ys m') [ inl e ↦ inl e | inr h ↦ inr (Memᴰ.tail h) ]
    ]
    | inr above ↦ elim (Memᴰ.cases_cons (rw (above, insert) at m)) [ inl e ↦ inl e | inr h ↦ inr h ]
  ]

  -- Sorting makes no element up.
  pub mem-sort : {z : A} (l : List A) → Memᴰ z (sort o key l) → Memᴰ z l
  unfolding sort
  mem-sort [] m = m
  mem-sort (x ∷ xs) m = elim (mem-insert x (sort o key xs) m) [
    | inl e ↦ Memᴰ.head e
    | inr h ↦ Memᴰ.tail (mem-sort xs h)
  ]

  length-insert : (x : A) (l : List A) → length (insert o key x l) ≡ suc (length l)
  unfolding insert
  length-insert x [] = refl
  length-insert x (y ∷ ys) = elim (Bool-cases (o.lt (key y) (key x))) [
    | inl below ↦ rw (insert, below) (ap suc (length-insert x ys))
    | inr above ↦ rw (insert, above)
  ]

  pub length-sort : (l : List A) → length (sort o key l) ≡ length l
  unfolding sort
  length-sort [] = refl
  length-sort (x ∷ xs) = length-insert x (sort o key xs) ∙ ap suc (length-sort xs)

  pub insert_here : {z : A} (x : A) (l : List A) → (z ≡ x) ⊎ Memᴰ z l → Memᴰ z (insert o key x l)
  unfolding insert
  insert_here x [] (inl e) = Memᴰ.head e
  insert_here x [] (inr m) = elim m [ ]
  insert_here x (y ∷ ys) h = elim (Bool-cases (o.lt (key y) (key x))) [
    | inr above ↦ rw (above, insert) (elim h [ inl e ↦ Memᴰ.head e | inr m ↦ Memᴰ.tail m ])
    | inl below ↦
        rw (below, insert)
          (elim h [
            | inl e ↦ Memᴰ.tail (insert_here x ys (inl e))
            | inr m ↦ elim (Memᴰ.cases_cons m) [
              | inl e ↦ Memᴰ.head e
              | inr m' ↦ Memᴰ.tail (insert_here x ys (inr m'))
            ]
          ])
  ]

  -- Sorting loses no element.
  pub sort_keeps : {z : A} (l : List A) → Memᴰ z l → Memᴰ z (sort o key l)
  unfolding sort
  sort_keeps [] m = elim m [ ]
  sort_keeps (x ∷ xs) m = elim (Memᴰ.cases_cons m) [
    | inl e ↦ insert_here x (sort o key xs) (inl e)
    | inr h ↦ insert_here x (sort o key xs) (inr (sort_keeps xs h))
  ]

pub nat_asym : (a b : ℕ) → ltb a b ≡ true → ltb b a ≡ false
nat_asym a b h = ground arith

pub nat_trans : (a b c : ℕ) → ltb a b ≡ true → ltb b c ≡ true → ltb a c ≡ true
nat_trans a b c h k = ground arith

pub nat_connected : (a b : ℕ) → ltb a b ≡ false → ltb b a ≡ false → a ≡ b
nat_connected a b h k = ground arith

abbrev pub nat_order : StrictOrder ℕ
nat_order = record { lt = ltb; asym = nat_asym; trans = nat_trans; connected = nat_connected }
