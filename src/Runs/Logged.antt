-- ===== src/Runs/Logged.antt =====
-- A session in memory that also holds events: the laws of `EventTable` can be met.
use mathlib.Core.List.{Memᴰ}
use mathlib.Core.List.Memᴰ
use Prim.Native.String.{len, slice, ◌++◌ as text_append}
use text.Mathlib.Text.{starts_with}
use text.Mathlib.TextPositions.{len-append, slice-append_left}
use canon_systems.Base.{
  ℕ, String, Bool, ◌-◌, ◌∙◌, arith, ◌≡◌, ◌↔◌, refl, ap, ◌⊎◌, inl, inr, true, List, ◌∷◌,
}
use canon_systems.Runs.{Session}
use canon_systems.Runs.Memory.{
  Rows, find_run, visible, update_run, find_run-id, find_run-save, find_run-visible, update_run-hit,
  update_run-miss,
}
use canon_systems.Runs.Events.{RunEvent, EventTable}

abbrev pub Logged : Type 0
Logged = Rows × List RunEvent

abbrev with_log : List RunEvent → Rows × ℕ → Logged × ℕ
with_log log (s, n) = ((s, log), n)

abbrev pub logged_memory : Session
logged_memory = record {
  State = Logged;
  get = λ (s : Logged) k. find_run s.0 k;
  exists = λ s t id. true;
  save = λ (s : Logged) r. (r ∷ s.0, s.1);
  update_dispatch = λ (s : Logged) k expected f. with_log s.1 (update_run s.0 k expected f);
  runs_desc = λ (s : Logged). visible s.0;
  get_law = λ (s : Logged). find_run-id s.0;
  save_law = λ (s : Logged). find_run-save s.0;
  hit_law = λ (s : Logged) k expected f r got same keeps.
      let (s', hit, now, other) = update_run-hit s.0 k expected f r got same keeps in
      ((s', s.1), ap (with_log s.1) hit, now, other);
  miss_law = λ (s : Logged) k expected f r got other.
      ap (with_log s.1) (update_run-miss s.0 k expected f r got other);
  runs_law = λ (s : Logged). find_run-visible s.0;
}

pub mem-cons : (e x : RunEvent) (log : List RunEvent) → Memᴰ x (e ∷ log) ↔ ((x ≡ e) ⊎ Memᴰ x log)
mem-cons e x log =
    (λ m. Memᴰ.cases_cons m, λ h. elim h [ inl same ↦ Memᴰ.head same | inr m ↦ Memᴰ.tail m ])

-- `LIKE` of the patterns that are used: the text starts with the pattern without its last character.
abbrev pub like_prefix : String → String → Bool
like_prefix text pattern = starts_with text (slice pattern 0 (len pattern - 1))

pub like_prefix_law :
    (text prefix : String) → like_prefix text (text_append prefix "%") ≡ starts_with text prefix
like_prefix_law text prefix =
    ap (λ n. starts_with text (slice (text_append prefix "%") 0 n))
      (ap (λ n. n - 1) (len-append prefix "%") ∙ omega arith)
    ∙ ap (starts_with text) (slice-append_left prefix "%")

abbrev pub event_log : EventTable logged_memory
event_log = record {
  add_event = λ (s : Logged) e. (s.0, e ∷ s.1);
  events_desc = λ (s : Logged). s.1;
  like = like_prefix;
  like_law = λ text prefix plain. like_prefix_law text prefix;
  add_law = λ (s : Logged) e x. mem-cons e x s.1;
  runs_kept = λ (s : Logged) e k. refl;
}
