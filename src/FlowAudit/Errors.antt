-- ===== src/FlowAudit/Errors.antt =====
-- When the lists of errors are empty.
use mathlib.Core.List.{Memᴰ}
use mathlib.Core.List.Memᴰ
use canon_systems.Base.{
  String, ◌≡◌, ◌↔◌, refl, sym, ap, ◌∙◌, inl, inr, Bool, true, false, not, List, [], ◌∷◌, ◌++◌,
  str_eq, str_true, eq_refl, subst,
}
use canon_systems.Base.Json.{Json, Members, null, boolean, number, negative, string, array, object}
use canon_systems.FlowAudit.{
  File, absent, unreadable, content, with_object, Error, unless, each_error, is_text,
}

append_none : (xs ys : List Error) → xs ++ ys ≡ [] → (xs ≡ []) × (ys ≡ [])
append_none [] ys h = (refl, h)
append_none (x ∷ xs) ys h = cc

-- There is no error in two lists of errors exactly when there is none in either.
pub no_errors {ℓ κ} :
    {P : Type ℓ} {Q : Type κ} {xs ys : List Error}
    → ((xs ≡ []) ↔ P)
    → ((ys ≡ []) ↔ Q)
    → (xs ++ ys ≡ []) ↔ (P × Q)
no_errors {xs} {ys} p q = (
  λ h. (p.0 (append_none xs ys h).0, q.0 (append_none xs ys h).1),
  λ h. ap (λ l. l ++ ys) (p.1 h.0) ∙ q.1 h.1,
)

pub unless-none : (b : Bool) (e : Error) → (unless b e ≡ []) ↔ (b ≡ true)
unless-none true e = (λ h. refl, λ h. refl)
unless-none false e = (λ h. cc, λ h. cc)

pub iff_trans {ℓ κ μ} : {P : Type ℓ} {Q : Type κ} {R : Type μ} → (P ↔ Q) → (Q ↔ R) → P ↔ R
iff_trans p q = (λ h. q.0 (p.0 h), λ h. p.1 (q.1 h))

pub iff_refl {ℓ} : {P : Type ℓ} → P ↔ P
iff_refl = (λ h. h, λ h. h)

pub each_error-none {ℓ} :
    {A : Type ℓ} (f : A → List Error) (l : List A)
    → (each_error f l ≡ []) ↔ ((a : A) → Memᴰ a l → f a ≡ [])
unfolding each_error
each_error-none {A = A} f l = (of_each l, to_each l)
  where
    of_each : (l : List A) → each_error f l ≡ [] → (a : A) → Memᴰ a l → f a ≡ []
    of_each [] h a m = elim m [ ]
    of_each (x ∷ xs) h a m = elim (Memᴰ.cases_cons m) [
      | inl e ↦ subst (λ y. f y ≡ []) (sym e) (append_none (f x) (each_error f xs) h).0
      | inr m' ↦ of_each xs (append_none (f x) (each_error f xs) h).1 a m'
    ]

    to_each : (l : List A) → ((a : A) → Memᴰ a l → f a ≡ []) → each_error f l ≡ []
    to_each [] h = refl
    to_each (x ∷ xs) h =
        ap (λ k. k ++ each_error f xs) (h x (Memᴰ.head refl))
        ∙ to_each xs (λ a m. h a (Memᴰ.tail m))

pub is_text_iff : (v : Json) (s : String) → (is_text v s ≡ true) ↔ (v ≡ string s)
is_text_iff (string t) s =
    (λ h. ap string (str_true t s h), λ h. subst (λ v. is_text v s ≡ true) (sym h) (eq_refl s))
is_text_iff null s = (λ h. cc, λ h. cc)
is_text_iff (boolean b) s = (λ h. cc, λ h. cc)
is_text_iff (number n) s = (λ h. cc, λ h. cc)
is_text_iff (negative n) s = (λ h. cc, λ h. cc)
is_text_iff (array l) s = (λ h. cc, λ h. cc)
is_text_iff (object l) s = (λ h. cc, λ h. cc)

pub str_eq_iff : (s t : String) → (str_eq s t ≡ true) ↔ (s ≡ t)
str_eq_iff s t = (str_true s t, λ h. rw h (eq_refl t))

pub not-true : (b : Bool) → (not b ≡ true) ↔ (b ≡ false)
not-true true = (λ h. cc, λ h. cc)
not-true false = (λ h. refl, λ h. refl)

members_equal : (ms : Members) {ns : Members} → content (object ms) ≡ content (object ns) → ms ≡ ns
members_equal ms e = ap (λ f. elim f [ content v ↦ elim v [ object xs ↦ xs | _ ↦ ms ] | _ ↦ ms ]) e

-- A file has no error exactly when it is a JSON object that has none.
pub with_object-none {ℓ} :
    {P : Members → Type ℓ} (missing invalid not_object : Error) (look : Members → List Error)
    → ((ms : Members) → (look ms ≡ []) ↔ P ms)
    → (f : File)
    → (with_object missing invalid not_object look f ≡ [])
      ↔ ((ms : Members) × (f ≡ content (object ms)) × P ms)
unfolding with_object
with_object-none {P = P} missing invalid not_object look p (content (object ms)) =
    (λ h. (ms, refl, (p ms).0 h), λ (ns, e, a). (p ms).1 (subst P (sym (members_equal ms e)) a))
with_object-none missing invalid not_object look p absent = (λ h. cc, λ (ms, e, a). cc)
with_object-none missing invalid not_object look p unreadable = (λ h. cc, λ (ms, e, a). cc)
with_object-none missing invalid not_object look p (content null) = (λ h. cc, λ (ms, e, a). cc)
with_object-none missing invalid not_object look p (content (boolean b)) =
    (λ h. cc, λ (ms, e, a). cc)
with_object-none missing invalid not_object look p (content (number b)) =
    (λ h. cc, λ (ms, e, a). cc)
with_object-none missing invalid not_object look p (content (negative b)) =
    (λ h. cc, λ (ms, e, a). cc)
with_object-none missing invalid not_object look p (content (string b)) =
    (λ h. cc, λ (ms, e, a). cc)
with_object-none missing invalid not_object look p (content (array b)) = (λ h. cc, λ (ms, e, a). cc)
