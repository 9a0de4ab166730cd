-- ===== src/Runs/Events.antt =====
-- The events of runs: `create_run_event` and `list_run_events` of
-- backend/knowledge-api/app/services/runs.py.
--
-- The table of events is a parameter over the session, in the order by `created_at` and then `id`,
-- the latest first; so is the `LIKE` of PostgreSQL, of which the patterns `prefix%` are used. The clock that the database sets is an argument.
use mathlib.Core.List.{Memᴰ}
use mathlib.Core.List.Memᴰ
use Prim.Native.Char.{code}
use Prim.Native.String.{◌++◌ as text_append}
use text.Mathlib.Text.{starts_with}
use text.Mathlib.TextPositions.{starts_with-append}
use text.Mathlib.TextLemmas.{nil-append}
use canon_systems.Base.{
  ℕ, zero, suc, ◌≤◌, String, ◌≡◌, ◌↔◌, refl, sym, ap, ◌∙◌, ◌⊎◌, inl, inr, Bool, true, false, ◌&&◌,
  ◌||◌, eqb, arith, non_empty, Option, none, some, List, [], ◌∷◌, str_eq, str_true, eq_refl, truthy,
  Bool-cases, Option-cases, if◌then◌else◌, take, length, subst,
}
use canon_systems.Runs.{RunOrm, Session}
use canon_systems.Runs.Service.{Result, ok, refused, ensure_run_company_scope}
use canon_systems.Runs.Listing.{select, mem-select}
use canon_systems.Base.Taken.{mem-take, take_all}

pub record RunEvent : Type 0 where
  pub id : String
  pub run_id : String
  pub event_type : String
  pub payload_json : Option String
  pub created_at : String

pub record CreateRunEventRequest : Type 0 where
  pub event_id : String
  pub event_type : String
  pub payload_json : Option String

-- The characters `%`, `_` and `\`, which have a meaning of their own in a pattern.
unfoldable pub has_wildcard : String → Bool
has_wildcard String.[] = false
has_wildcard (String.◌∷◌ c s) =
    eqb (code c) 37 || (eqb (code c) 95 || (eqb (code c) 92 || has_wildcard s))

-- The table of events: an event that is added is in it, with those that were there, and the runs
-- stay as they are. `LIKE` with a pattern `prefix%`, in which no other character is special, is
-- true of the texts that start with the prefix.
pub record EventTable (db : Session) : Type 0 where
  pub add_event : db.State → RunEvent → db.State
  pub events_desc : db.State → List RunEvent
  pub like : String → String → Bool
  pub like_law :
      (text prefix : String)
      → has_wildcard prefix ≡ false
      → like text (text_append prefix "%") ≡ starts_with text prefix
  pub add_law :
      (s : db.State) (e x : RunEvent)
      → Memᴰ x (events_desc (add_event s e)) ↔ ((x ≡ e) ⊎ Memᴰ x (events_desc s))
  pub runs_kept : (s : db.State) (e : RunEvent) (k : String) → db.get (add_event s e) k ≡ db.get s k

abbrev pub skip {ℓ} : {A : Type ℓ} → List A → ℕ → List A
skip xs zero = xs
skip [] (suc n) = []
skip (x ∷ xs) (suc n) = skip xs n

-- `max(1, limit)` of a natural number.
abbrev pub at_least_one : ℕ → ℕ
at_least_one zero = 1
at_least_one (suc n) = suc n

unfoldable pub new_event : CreateRunEventRequest → String → String → RunEvent
new_event q run_id now = record {
  id = q.event_id;
  run_id = run_id;
  event_type = q.event_type;
  payload_json = q.payload_json;
  created_at = now;
}

module _ (db : Session) (events : EventTable db) where
  open db use {State, get}
  open events use {add_event, events_desc, like, add_law, runs_kept}

  unfoldable pub create_run_event :
      State → String → CreateRunEventRequest → String → Result State (Unit {0})
  unfolding new_event
  create_run_event s run_id q now = elim (get s run_id) [
    | none ↦ refused 404 "run not found"
    | some run ↦ ok (add_event s (new_event q run_id now)) tt
  ]

  abbrev pub has_prefix : Option String → RunEvent → Bool
  has_prefix none e = true
  has_prefix (some p) e = if truthy (some p) then like e.event_type (text_append p "%") else true

  abbrev pub wanted : String → Option String → RunEvent → Bool
  wanted run_id prefix e = str_eq e.run_id run_id && has_prefix prefix e

  abbrev pub page : State → String → Option String → ℕ → ℕ → List RunEvent
  page s run_id prefix limit offset =
      take (skip (select (wanted run_id prefix) (events_desc s)) offset) (at_least_one limit)

  -- `offset` is a natural number here; a negative one acts as 0 does. A response copies the columns.
  unfoldable pub list_run_events :
      State → String → Option String → Option String → ℕ → ℕ → Result State (List RunEvent)
  list_run_events s run_id company prefix limit offset = elim (get s run_id) [
    | none ↦ refused 404 "run not found"
    | some run ↦
        if ensure_run_company_scope (some run) company
        then ok s (page s run_id prefix limit offset)
        else refused 403 "forbidden"
  ]

mem-skip {ℓ} : {A : Type ℓ} (xs : List A) (n : ℕ) (x : A) → Memᴰ x (skip xs n) → Memᴰ x xs
mem-skip xs zero x m = m
mem-skip [] (suc n) x m = elim m [ ]
mem-skip (y ∷ ys) (suc n) x m = Memᴰ.tail (mem-skip ys n x m)

select_keeps {ℓ} :
    {A : Type ℓ} (p : A → Bool) (xs : List A) (x : A)
    → Memᴰ x xs
    → p x ≡ true
    → Memᴰ x (select p xs)
select_keeps p [] x m h = elim m [ ]
select_keeps p (y ∷ ys) x m h = elim (Memᴰ.cases_cons m) [
  | inl e ↦ rw (ap p (sym e) ∙ h) (Memᴰ.head e)
  | inr m' ↦ elim (Bool-cases (p y)) [
    | inl here ↦ rw here (Memᴰ.tail (select_keeps p ys x m' h))
    | inr other ↦ rw other (select_keeps p ys x m' h)
  ]
]

ok_list : {S A : Type 0} {s t : S} {a b : A} → Result.ok s a ≡ Result.ok t b → a ≡ b
ok_list {a = a} h = ap (λ r. elim r [ ok s x ↦ x | refused c m ↦ a ]) h

ok_state : {S A : Type 0} {s t : S} {a b : A} → Result.ok s a ≡ Result.ok t b → s ≡ t
ok_state {s = s} h = ap (λ r. elim r [ ok x a ↦ x | refused c m ↦ s ]) h

and-true : (a b : Bool) → a && b ≡ true → (a ≡ true) × (b ≡ true)
and-true true b h = (refl, h)
and-true false b h = cc

module _ (db : Session) (events : EventTable db) where
  open db use {State, get}
  open events use {add_event, events_desc, like, like_law, add_law, runs_kept}

  -- A listing of a run's events that is answered with 200 is one of a run that the company may see,
  -- and each event in it is a stored event of that run. Where a prefix without `%`, `_` and `\` was
  -- asked for, the type of each event starts with it.
  pub list_run_events-mem :
      (s : State) (run_id : String) (company prefix : Option String) (limit offset : ℕ)
      (l : List RunEvent)
      → list_run_events db events s run_id company prefix limit offset ≡ ok s l
      → ((run : RunOrm) × (get s run_id ≡ some run)
          × (ensure_run_company_scope (some run) company ≡ true))
        × ((e : RunEvent)
            → Memᴰ e l
            → Memᴰ e (events_desc s)
              × (e.run_id ≡ run_id)
              × ((p : String)
                  → prefix ≡ some p
                  → has_wildcard p ≡ false
                  → starts_with e.event_type p ≡ true))
  unfolding list_run_events
  list_run_events-mem s run_id company prefix limit offset l h =
      elim (Option-cases (get s run_id)) [
        | inl absent ↦ cc (rw (list_run_events, absent) at h)
        | inr (run, there) ↦ elim (Bool-cases (ensure_run_company_scope (some run) company)) [
          | inr denied ↦ cc (rw (list_run_events, there, denied) at h)
          | inl granted ↦
              let same : page db events s run_id prefix limit offset ≡ l =
                ok_list (rw (list_run_events, there, granted) at h) in
              ((run, there, granted), λ e m. of_page e (subst (λ x. Memᴰ e x) (sym same) m))
        ]
      ]
    where
      rows : List RunEvent
      rows = select (wanted db events run_id prefix) (events_desc s)

      blank_text : (p : String) → non_empty p ≡ false → p ≡ ""
      blank_text p h = str_true p "" (ground arith)

      starts :
          (e : RunEvent) (p : String)
          → has_wildcard p ≡ false
          → has_prefix db events (some p) e ≡ true
          → starts_with e.event_type p ≡ true
      starts e p plain has = elim (Bool-cases (non_empty p)) [
        | inl filled ↦ sym (like_law e.event_type p plain) ∙ rw (filled) at has
        | inr blank ↦
            subst (λ x. starts_with e.event_type x ≡ true) (sym (blank_text p blank))
              (subst (λ x. starts_with x "" ≡ true) (nil-append e.event_type)
                (starts_with-append "" e.event_type))
      ]

      of_page :
          (e : RunEvent)
          → Memᴰ e (page db events s run_id prefix limit offset)
          → Memᴰ e (events_desc s)
            × (e.run_id ≡ run_id)
            × ((p : String)
                → prefix ≡ some p
                → has_wildcard p ≡ false
                → starts_with e.event_type p ≡ true)
      of_page e m =
          let (stored, good) =
            mem-select (wanted db events run_id prefix) (events_desc s) e
              (mem-skip rows offset e (mem-take (skip rows offset) (at_least_one limit) e m)) in
          let (same_run, has) =
            and-true (str_eq e.run_id run_id) (has_prefix db events prefix e) good in
          (
            stored,
            str_true e.run_id run_id same_run,
            λ p asked plain.
                starts e p plain (ap (λ o. has_prefix db events o e) (sym asked) ∙ has),
          )

  -- An event that was created on a run is in the listing of that run's events, for a company that
  -- may see the run and a limit that reaches all of them.
  pub create_run_event-listed :
      (s s' : State) (run_id : String) (q : CreateRunEventRequest) (now : String)
      (company : Option String) (run : RunOrm) (limit : ℕ)
      → create_run_event db events s run_id q now ≡ ok s' tt
      → get s run_id ≡ some run
      → ensure_run_company_scope (some run) company ≡ true
      → length (select (wanted db events run_id none) (events_desc s')) ≤ at_least_one limit
      → (l : List RunEvent) × (list_run_events db events s' run_id company none limit 0 ≡ ok s' l)
        × Memᴰ (new_event q run_id now) l
  unfolding create_run_event list_run_events new_event
  create_run_event-listed s s' run_id q now company run limit h there granted enough =
      (page db events s' run_id none limit 0, answer, subst (λ x. Memᴰ event x) (sym all) selected)
    where
      event : RunEvent
      event = new_event q run_id now

      added : add_event s event ≡ s'
      added = ok_state (rw (create_run_event, there) at h)

      still : get s' run_id ≡ some run
      still = ap (λ x. get x run_id) (sym added) ∙ runs_kept s event run_id ∙ there

      answer :
          list_run_events db events s' run_id company none limit 0
          ≡ ok s' (page db events s' run_id none limit 0)
      answer = rw (list_run_events, still, granted) refl

      stored : Memᴰ event (events_desc s')
      stored = subst (λ x. Memᴰ event (events_desc x)) added ((add_law s event event).1 (inl refl))

      selected : Memᴰ event (select (wanted db events run_id none) (events_desc s'))
      selected =
          select_keeps (wanted db events run_id none) (events_desc s') event stored
            (rw (eq_refl run_id) refl)

      all :
          page db events s' run_id none limit 0
          ≡ select (wanted db events run_id none) (events_desc s')
      all =
          take_all (select (wanted db events run_id none) (events_desc s')) (at_least_one limit)
            enough
