-- ===== src/TaskPlane/Keys.antt =====
-- The keys of task events: `event_keys` of backend/shared/canon_backend_shared/tasks.py.
use Prim.Native.Char.{Char, char}
use Prim.Native.String.{◌∷◌, [], ◌++◌}
use text.Mathlib.TextLemmas.{cons-append, nil-append, append_cancel_left}
use mathlib.Core.Option.{some-injective}
use canon_systems.Base.{
  String, ◌≡◌, refl, sym, ap, ◌∙◌, inl, inr, Bool, true, false, ◌||◌, some, str_eq, Bool-cases,
  Option-cases,
}
use canon_systems.Base.Text.{strip}
use canon_systems.TaskPlane.{
  ServerEvent, is_forbidden, any_forbidden, checked, sanitize_segment, hashed, build_tasks_pk,
  build_task_event_sk, event_keys,
}

abbrev hash : Char
hash = char 35 tt

hash-append : (b : String) → "#" ++ b ≡ hash ∷ b
hash-append b = cons-append hash "" b ∙ ap (λ s. hash ∷ s) (nil-append b)

head_eq : {x y : Char} {s t : String} → x ∷ s ≡ y ∷ t → x ≡ y
head_eq e = cc e

tail_eq : {x y : Char} {s t : String} → x ∷ s ≡ y ∷ t → s ≡ t
tail_eq e = cc e

or_right : (a b : Bool) → (a || b) ≡ false → b ≡ false
or_right true b h = cc h
or_right false b h = h

-- A text that starts with `#` is no segment.
hash_forbidden : (y : Char) (ys : String) → hash ≡ y → any_forbidden (y ∷ ys) ≡ true
unfolding any_forbidden
hash_forbidden y ys e = rw (← e)

-- The first `#` of a text stands after its first segment.
pub hashed_inj :
    (a b c d : String)
    → any_forbidden a ≡ false
    → any_forbidden c ≡ false
    → hashed a b ≡ hashed c d
    → (a ≡ c) × (b ≡ d)
unfolding any_forbidden
hashed_inj [] b [] d h k e =
    (refl, append_cancel_left "#" b d (append_cancel_left "" ("#" ++ b) ("#" ++ d) e))
hashed_inj [] b (y ∷ ys) d h k e =
    let start : hash ∷ b ≡ y ∷ (ys ++ ("#" ++ d)) =
      sym (hash-append b) ∙ sym (nil-append ("#" ++ b)) ∙ e ∙ cons-append y ys ("#" ++ d) in
    cc (hash_forbidden y ys (head_eq start), k)
hashed_inj (x ∷ xs) b [] d h k e =
    let start : hash ∷ d ≡ x ∷ (xs ++ ("#" ++ b)) =
      sym (hash-append d) ∙ sym (nil-append ("#" ++ d)) ∙ sym e ∙ cons-append x xs ("#" ++ b) in
    cc (hash_forbidden x xs (head_eq start), h)
hashed_inj (x ∷ xs) b (y ∷ ys) d h k e =
    let start : x ∷ (xs ++ ("#" ++ b)) ≡ y ∷ (ys ++ ("#" ++ d)) =
      sym (cons-append x xs ("#" ++ b)) ∙ e ∙ cons-append y ys ("#" ++ d) in
    let rest =
      hashed_inj xs b ys d (or_right (is_forbidden x) (any_forbidden xs) h)
        (or_right (is_forbidden y) (any_forbidden ys) k) (tail_eq start) in
    (cc (head_eq start, rest.0), rest.1)

checked-some : (s t : String) → checked s ≡ some t → (s ≡ t) × (any_forbidden t ≡ false)
checked-some s t h = elim (Bool-cases (str_eq s "")) [
  | inl empty ↦ cc (rw empty at h)
  | inr filled ↦ elim (Bool-cases (any_forbidden s)) [
    | inl bad ↦ cc (rw (filled, bad) at h)
    | inr fine ↦
        let same : s ≡ t = some-injective s t (rw (filled, fine) at h) in
        (same, ap any_forbidden (sym same) ∙ fine)
  ]
]

-- What a segment is made of.
segment :
    (value t : String)
    → sanitize_segment value ≡ some t
    → (strip value ≡ t) × (any_forbidden t ≡ false)
unfolding sanitize_segment
segment value t h = checked-some (strip value) t h

-- The parts of the keys of an event.
abbrev Parts : ServerEvent → String × String → Type 0
Parts e k =
    (c : String) × (t : String) × (i : String) × (sanitize_segment e.company_id ≡ some c)
    × (sanitize_segment e.task_ref ≡ some t)
    × (sanitize_segment e.event_id ≡ some i)
    × (k ≡ (hashed c "tasks", hashed t (hashed "evt" i)))

event_keys-Parts : (e : ServerEvent) (k : String × String) → event_keys e ≡ some k → Parts e k
unfolding event_keys build_tasks_pk build_task_event_sk
event_keys-Parts e k h = elim (Option-cases (sanitize_segment e.company_id)) [
  | inl a ↦ cc (rw (event_keys, build_tasks_pk, a) at h)
  | inr (c, a) ↦ elim (Option-cases (sanitize_segment e.task_ref)) [
    | inl b ↦ cc (rw (event_keys, build_tasks_pk, build_task_event_sk, a, b) at h)
    | inr (t, b) ↦ elim (Option-cases (sanitize_segment e.event_id)) [
      | inl d ↦ cc (rw (event_keys, build_tasks_pk, build_task_event_sk, a, b, d) at h)
      | inr (i, d) ↦ (
        c,
        t,
        i,
        a,
        b,
        d,
        sym (
            some-injective (hashed c "tasks", hashed t (hashed "evt" i)) k
              (rw (event_keys, build_tasks_pk, build_task_event_sk, a, b, d) at h)),
      )
    ]
  ]
]

-- Two events that have keys and have the same ones agree, up to surrounding spaces, in their
-- company, their task reference and their event id.
pub event_keys_inj :
    (e f : ServerEvent) (k : String × String)
    → event_keys e ≡ some k
    → event_keys f ≡ some k
    → (strip e.company_id ≡ strip f.company_id)
      × (strip e.task_ref ≡ strip f.task_ref)
      × (strip e.event_id ≡ strip f.event_id)
event_keys_inj e f k h g =
    let (c, t, i, hc, ht, hi, hk) = event_keys-Parts e k h in
    let (c', t', i', gc, gt, gi, gk) = event_keys-Parts f k g in
    let keys = sym hk ∙ gk in
    let pk =
      hashed_inj c "tasks" c' "tasks" (segment e.company_id c hc).1 (segment f.company_id c' gc).1
        (ap (λ (p : String × String). p.0) keys) in
    let sk =
      hashed_inj t (hashed "evt" i) t' (hashed "evt" i') (segment e.task_ref t ht).1
        (segment f.task_ref t' gt).1 (ap (λ (p : String × String). p.1) keys) in
    let id = append_cancel_left "#" i i' (append_cancel_left "evt" ("#" ++ i) ("#" ++ i') sk.1) in
    (
      (segment e.company_id c hc).0 ∙ pk.0 ∙ sym (segment f.company_id c' gc).0,
      (segment e.task_ref t ht).0 ∙ sk.0 ∙ sym (segment f.task_ref t' gt).0,
      (segment e.event_id i hi).0 ∙ id ∙ sym (segment f.event_id i' gi).0,
    )
