-- ===== src/Tasks/Arranged.antt =====
-- The order of a listing of `filter_and_sort` of src/canon_systems/tasks.py, as the docstring of
-- `sort_tasks` says it, but for its tie by the reference, from the sort key of the code.
use mathlib.Core.List.{Memᴰ}
use Prim.Native.Char.{code}
use canon_systems.Base.{
  ℕ, ◌<◌, ◌≤◌, String, ◌≡◌, refl, sym, ap, ◌∙◌, inl, inr, Bool, false, not, ◌||◌, ◌&&◌, List, [],
  ◌∷◌, arith, length, ltb, Bool-cases,
}
use canon_systems.Base.Order.{nat_order}
use canon_systems.Base.Sorted.{list_lt, IsOrdered}
use canon_systems.Tasks.Fold.{Task}
use canon_systems.Tasks.Select.{
  is_terminal, priority_rank, complement, invert, terminal_rank, task_key, key_order,
}
use canon_systems.Tasks.Shown.{IsClosed, is_terminal_iff}

abbrev pub codes : String → List ℕ
codes String.[] = []
codes (String.◌∷◌ c s) = code c ∷ codes s

-- No character is the last code point, 0x10FFFF, which the code's complement leaves as it is.
abbrev pub AllBelow : List ℕ → Type 0
AllBelow [] = Unit {0}
AllBelow (n ∷ ns) = (n < 0x10FFFF) × AllBelow ns

-- Two times that are texts of one length, as timestamps of one format are.
abbrev pub IsComparable : Task → Task → Type 0
IsComparable x y =
    AllBelow (codes x.updated_at)
    × AllBelow (codes y.updated_at)
    × (length (codes x.updated_at) ≡ length (codes y.updated_at))

-- A task may stand before another: an open one before a closed one, then the more urgent one, and
-- then, of tasks of one urgency whose times are comparable, the one that was updated later.
pub record Precedes (x y : Task) : Type 0 where
  pub open_first : IsClosed x → IsClosed y
  pub urgent_first :
      (IsClosed y → IsClosed x) → priority_rank x.priority_of ≤ priority_rank y.priority_of
  pub newest_first :
      (IsClosed y → IsClosed x)
      → priority_rank x.priority_of ≡ priority_rank y.priority_of
      → IsComparable x y
      → list_lt nat_order (codes x.updated_at) (codes y.updated_at) ≡ false

pub data IsArranged : List Task → Type 0 where
  nil : IsArranged []
  cons :
      {x : Task} {xs : List Task}
      → ((y : Task) → Memᴰ y xs → Precedes x y)
      → IsArranged xs
      → IsArranged (x ∷ xs)

ltb-complement :
    (a b : ℕ) → a < 0x10FFFF → b < 0x10FFFF → ltb (complement a) (complement b) ≡ ltb b a
ltb-complement a b h k = ground arith

-- The inverted texts of one length are in the opposite order.
list_lt-invert :
    (s t : String)
    → AllBelow (codes s)
    → AllBelow (codes t)
    → length (codes s) ≡ length (codes t)
    → list_lt nat_order (invert s) (invert t) ≡ list_lt nat_order (codes t) (codes s)
unfolding invert
list_lt-invert String.[] String.[] p q h = refl
list_lt-invert String.[] (String.◌∷◌ d t) p q h = absurd (omega (arith, h))
list_lt-invert (String.◌∷◌ c s) String.[] p q h = absurd (omega (arith, h))
list_lt-invert (String.◌∷◌ c s) (String.◌∷◌ d t) (low, p) (low', q) h =
    let rest = list_lt-invert s t p q (omega (arith, h)) in
    ap
      (λ b.
        b
        || (not (ltb (complement (code d)) (complement (code c)))
            && list_lt nat_order (invert s) (invert t)))
      (ltb-complement (code c) (code d) low low')
    ∙ ap (λ b. ltb (code d) (code c) || (not b && list_lt nat_order (invert s) (invert t)))
        (ltb-complement (code d) (code c) low' low)
    ∙ ap (λ b. ltb (code d) (code c) || (not (ltb (code c) (code d)) && b)) rest

key-parts :
    (a b c d : ℕ) (u w : Bool)
    → ltb b a || (not (ltb a b) && (ltb d c || (not (ltb c d) && (u || w)))) ≡ false
    → (a ≤ b) × (a ≡ b → c ≤ d) × (a ≡ b → c ≡ d → u ≡ false)
key-parts a b c d u w h = (ground arith, λ e. ground arith, λ e e'. ground arith)

terminal_rank-closed : (t : Task) → IsClosed t → terminal_rank t ≡ 1
terminal_rank-closed t c = rw ((is_terminal_iff t).1 c) refl

rank-IsClosed : (t : Task) → 1 ≤ terminal_rank t → IsClosed t
rank-IsClosed t h = elim (Bool-cases (is_terminal t.status_of)) [
  | inl e ↦ (is_terminal_iff t).0 e
  | inr e ↦ absurd (omega (arith, rw e at h))
]

same_rank :
    (x y : Task)
    → (IsClosed x → IsClosed y)
    → (IsClosed y → IsClosed x)
    → terminal_rank x ≡ terminal_rank y
same_rank x y to from = elim (Bool-cases (is_terminal x.status_of)) [
  | inl e ↦ rw e (sym (terminal_rank-closed y (to ((is_terminal_iff x).0 e))))
  | inr e ↦ elim (Bool-cases (is_terminal y.status_of)) [
    | inl g ↦ cc ((is_terminal_iff x).1 (from ((is_terminal_iff y).0 g)), e)
    | inr g ↦ rw (e, g) refl
  ]
]

Precedes-of_key : (x y : Task) → key_order.lt (task_key y) (task_key x) ≡ false → Precedes x y
unfolding task_key
Precedes-of_key x y h =
    let (rank, urgency, time) =
      key-parts (terminal_rank x) (terminal_rank y) (priority_rank x.priority_of)
        (priority_rank y.priority_of)
        (list_lt nat_order (invert y.updated_at) (invert x.updated_at)) _ h in
    let opens : IsClosed x → IsClosed y =
      λ c. rank-IsClosed y (omega (arith, terminal_rank-closed x c, rank)) in
    record {
      open_first = opens;
      urgent_first = λ from. urgency (same_rank x y opens from);
      newest_first = λ from same (low, low', one_length).
          sym (list_lt-invert y.updated_at x.updated_at low' low (sym one_length))
          ∙ time (same_rank x y opens from) same;
    }

pub IsOrdered-IsArranged : (l : List Task) → IsOrdered key_order task_key l → IsArranged l
IsOrdered-IsArranged [] h = IsArranged.nil
IsOrdered-IsArranged (x ∷ xs) (IsOrdered.cons below h) =
    IsArranged.cons (λ y m. Precedes-of_key x y (below y m)) (IsOrdered-IsArranged xs h)
