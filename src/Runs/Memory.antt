-- ===== src/Runs/Memory.antt =====
-- A session in memory: the laws of `Session` can be met. The latest row of an id stands first and
-- hides the ones before it.
use mathlib.Core.List.{Memᴰ}
use mathlib.Core.List.Memᴰ
use canon_systems.Base.{
  ℕ, String, ◌≡◌, ◌≢◌, sym, ap, ◌∙◌, inl, inr, true, false, Option, none, some, List, [], ◌∷◌,
  str_eq, eq_iff, eq_refl, str_ne, Bool-cases, if◌then◌else◌,
}
use canon_systems.Runs.{RunOrm, Session}

abbrev pub Rows : Type 0
Rows = List RunOrm

abbrev pub find_run : Rows → String → Option RunOrm
find_run [] k = none
find_run (r ∷ rs) k = if str_eq r.id k then some r else find_run rs k

abbrev pub others : String → Rows → Rows
others k [] = []
others k (r ∷ rs) = if str_eq r.id k then others k rs else r ∷ others k rs

abbrev pub visible : Rows → Rows
visible [] = []
visible (r ∷ rs) = r ∷ others r.id (visible rs)

abbrev pub update_run : Rows → String → String → (RunOrm → RunOrm) → Rows × ℕ
update_run s k expected f = elim (find_run s k) [
  | none ↦ (s, 0)
  | some r ↦ if str_eq r.dispatch_status expected then (f r ∷ s, 1) else (s, 0)
]

pub find_run-id : (s : Rows) (k : String) (r : RunOrm) → find_run s k ≡ some r → r.id ≡ k
find_run-id [] k r h = cc h
find_run-id (x ∷ xs) k r h = elim (Bool-cases (str_eq x.id k)) [
  | inl e ↦ cc (rw e at h, (eq_iff x.id k).0 e)
  | inr e ↦ find_run-id xs k r (rw e at h)
]

pub find_run-save :
    (s : Rows) (r : RunOrm)
    → (find_run (r ∷ s) r.id ≡ some r)
      × ((k : String) → k ≢ r.id → find_run (r ∷ s) k ≡ find_run s k)
find_run-save s r = (rw (eq_refl r.id), λ k ne. rw (str_ne r.id k (λ p. ne (sym p))))

mem-others :
    (k : String) (s : Rows) (r : RunOrm) → Memᴰ r (others k s) → Memᴰ r s × (str_eq r.id k ≡ false)
mem-others k [] r m = elim m [ ]
mem-others k (x ∷ xs) r m = elim (Bool-cases (str_eq x.id k)) [
  | inl e ↦ let h = mem-others k xs r (rw e at m) in (Memᴰ.tail h.0, h.1)
  | inr e ↦ elim (Memᴰ.cases_cons (rw e at m)) [
    | inl q ↦ (Memᴰ.head q, ap (λ (y : RunOrm). str_eq y.id k) q ∙ e)
    | inr m' ↦ let h = mem-others k xs r m' in (Memᴰ.tail h.0, h.1)
  ]
]

pub find_run-visible : (s : Rows) (r : RunOrm) → Memᴰ r (visible s) → find_run s r.id ≡ some r
find_run-visible [] r m = elim m [ ]
find_run-visible (x ∷ xs) r m = elim (Memᴰ.cases_cons m) [
  | inl q ↦ ap (λ (y : RunOrm). find_run (x ∷ xs) y.id) q ∙ (find_run-save xs x).0 ∙ ap some (sym q)
  | inr m' ↦
      let h = mem-others x.id (visible xs) r m' in
      elim (Bool-cases (str_eq x.id r.id)) [
        | inr e ↦ rw e (find_run-visible xs r h.0)
        | inl e ↦ cc (h.1, (eq_iff x.id r.id).0 e, eq_refl r.id)
      ]
]

pub update_run-hit :
    (s : Rows) (k expected : String) (f : RunOrm → RunOrm) (r : RunOrm)
    → find_run s k ≡ some r
    → r.dispatch_status ≡ expected
    → (f r).id ≡ r.id
    → (s' : Rows) × (update_run s k expected f ≡ (s', 1))
      × (find_run s' k ≡ some (f r))
      × ((j : String) → j ≢ k → find_run s' j ≡ find_run s j)
update_run-hit s k expected f r got same keeps =
    let id : (f r).id ≡ k = keeps ∙ find_run-id s k r got in
    let same_text : str_eq r.dispatch_status expected ≡ true =
      (eq_iff r.dispatch_status expected).1 same in
    (
      f r ∷ s,
      rw (update_run, got, same_text),
      ap (find_run (f r ∷ s)) (sym id) ∙ (find_run-save s (f r)).0,
      λ j ne. (find_run-save s (f r)).1 j (λ p. ne (p ∙ id)),
    )

pub update_run-miss :
    (s : Rows) (k expected : String) (f : RunOrm → RunOrm) (r : RunOrm)
    → find_run s k ≡ some r
    → r.dispatch_status ≢ expected
    → update_run s k expected f ≡ (s, 0)
update_run-miss s k expected f r got other =
    rw (update_run, got, str_ne r.dispatch_status expected other)

abbrev pub memory : Session
memory = record {
  State = Rows;
  get = find_run;
  exists = λ s t id. true;
  save = λ s r. r ∷ s;
  update_dispatch = update_run;
  runs_desc = visible;
  get_law = find_run-id;
  save_law = find_run-save;
  hit_law = update_run-hit;
  miss_law = update_run-miss;
  runs_law = find_run-visible;
}
