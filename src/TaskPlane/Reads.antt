-- ===== src/TaskPlane/Reads.antt =====
-- What the GET route of the task plane answers.
use canon_systems.Base.{
  ℕ, zero, suc, ◌≤◌, String, ◌≡◌, refl, sym, ap, ◌∙◌, inl, inr, true, not, ◌&&◌, some, List, [],
  ◌∷◌, ◌++◌, leb, Bool-cases, if◌then◌else◌, length, take, arith,
}
use canon_systems.TaskPlane.{ServerEvent, build_tasks_pk}
use canon_systems.TaskPlane.Listing.{
  EventPages, invalid_limit, read_pages, reply, query_company_events, rows_at, get_tasks,
}

-- All pages in one list.
abbrev pub joined : List (List ServerEvent) → List ServerEvent
joined [] = []
joined (page ∷ rest) = page ++ joined rest

append_nil {ℓ} : {A : Type ℓ} (xs : List A) → xs ++ [] ≡ xs
append_nil [] = refl
append_nil (x ∷ xs) = ap (λ l. x ∷ l) (append_nil xs)

append_assoc {ℓ} : {A : Type ℓ} (xs ys zs : List A) → (xs ++ ys) ++ zs ≡ xs ++ (ys ++ zs)
append_assoc [] ys zs = refl
append_assoc (x ∷ xs) ys zs = ap (λ l. x ∷ l) (append_assoc xs ys zs)

-- Elements after enough of them do not count.
take-append {ℓ} :
    {A : Type ℓ} (xs ys : List A) (n : ℕ) → n ≤ length xs → take (xs ++ ys) n ≡ take xs n
take-append [] [] n h = refl
take-append [] (y ∷ ys) zero h = refl
take-append [] (y ∷ ys) (suc n) h = absurd (omega (arith, h))
take-append (x ∷ xs) ys zero h = refl
take-append (x ∷ xs) ys (suc n) h = ap (λ l. x ∷ l) (take-append xs ys n (omega (arith, h)))

length-take {ℓ} : {A : Type ℓ} (xs : List A) (n : ℕ) → length (take xs n) ≤ n
length-take [] n = omega arith
length-take (x ∷ xs) zero = omega arith
length-take (x ∷ xs) (suc n) = omega (arith, length-take xs n)

leb_le : (n m : ℕ) → leb n m ≡ true → n ≤ m
leb_le n m h = ground arith

take-read_pages :
    (limit : ℕ) (items : List ServerEvent) (rest : List (List ServerEvent))
    → take (read_pages limit items rest) limit ≡ take (items ++ joined rest) limit
unfolding read_pages
take-read_pages limit items [] = ap (λ l. take l limit) (sym (append_nil items))
take-read_pages limit items (page ∷ rest) = elim (Bool-cases (leb limit (length (items ++ page)))) [
  | inl enough ↦
      rw (read_pages, enough)
        (sym (
            take-append (items ++ page) (joined rest) limit
              (leb_le limit (length (items ++ page)) enough))
          ∙ ap (λ l. take l limit) (append_assoc items page (joined rest)))
  | inr more ↦
      rw (read_pages, more)
        (take-read_pages limit (items ++ page) rest
          ∙ ap (λ l. take l limit) (append_assoc items page (joined rest)))
]

module _ (db : EventPages) where
  open db use {Table, pages}

  -- A GET for a company, with a limit that is allowed and no task, answers the first events of all
  -- its pages, as many as the limit at most: to stop reading early leaves no event out.
  pub get_tasks-joined :
      (t : Table) (company_id pk : String) (limit : ℕ)
      → leb 1 limit && leb limit 10000 ≡ true
      → build_tasks_pk company_id ≡ some pk
      → (get_tasks db t company_id "" limit ≡ reply (take (joined (pages t pk limit)) limit))
        × (length (take (joined (pages t pk limit)) limit) ≤ limit)
  unfolding get_tasks rows_at query_company_events
  get_tasks-joined t company_id pk limit within keys = (
    ap (λ b. if not b then invalid_limit else rows_at db t "" limit (build_tasks_pk company_id))
          within
        ∙ ap (rows_at db t "" limit) keys
        ∙ ap reply (take-read_pages limit [] (pages t pk limit)),
    length-take (joined (pages t pk limit)) limit,
  )
