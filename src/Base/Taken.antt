-- ===== src/Base/Taken.antt =====
-- What is in a list that is mapped, cut or skipped.
use mathlib.Core.List.{Memᴰ}
use mathlib.Core.List.Memᴰ
use canon_systems.Base.{
  ℕ, zero, suc, ◌≤◌, ◌≡◌, refl, ap, inl, inr, List, [], ◌∷◌, take, length, arith, map,
}

pub mem-take {ℓ} : {A : Type ℓ} (xs : List A) (n : ℕ) (x : A) → Memᴰ x (take xs n) → Memᴰ x xs
mem-take [] n x m = elim m [ ]
mem-take (y ∷ ys) zero x m = elim m [ ]
mem-take (y ∷ ys) (suc n) x m = elim (Memᴰ.cases_cons m) [
  | inl e ↦ Memᴰ.head e
  | inr m' ↦ Memᴰ.tail (mem-take ys n x m')
]

pub take_all {ℓ} : {A : Type ℓ} (xs : List A) (n : ℕ) → length xs ≤ n → take xs n ≡ xs
take_all [] n h = refl
take_all (x ∷ xs) zero h = absurd (omega (arith, h))
take_all (x ∷ xs) (suc n) h = ap (λ l. x ∷ l) (take_all xs n (omega (arith, h)))

module _ {ℓ κ} {A : Type ℓ} {B : Type κ} (f : A → B) where
  pub mem_map : {x : A} (l : List A) → Memᴰ x l → Memᴰ (f x) (map f l)
  mem_map [] m = elim m [ ]
  mem_map (y ∷ ys) m = elim (Memᴰ.cases_cons m) [
    | inl e ↦ Memᴰ.head (ap f e)
    | inr n ↦ Memᴰ.tail (mem_map ys n)
  ]

  pub mem_map_back : {y : B} (l : List A) → Memᴰ y (map f l) → (x : A) × Memᴰ x l × (y ≡ f x)
  mem_map_back [] m = elim m [ ]
  mem_map_back (x ∷ xs) m = elim (Memᴰ.cases_cons m) [
    | inl e ↦ (x, Memᴰ.head refl, e)
    | inr n ↦ let (z, at_z, e) = mem_map_back xs n in (z, Memᴰ.tail at_z, e)
  ]

pub length-map {ℓ κ} :
    {A : Type ℓ} {B : Type κ} (f : A → B) (l : List A) → length (map f l) ≡ length l
length-map f [] = refl
length-map f (x ∷ xs) = ap suc (length-map f xs)
