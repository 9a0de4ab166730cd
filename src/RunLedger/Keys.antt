-- ===== src/RunLedger/Keys.antt =====
-- The keys of the run ledger, of backend/shared/canon_backend_shared/run_ledger.py, read back: the
-- company and the repository from the one, the plan, task, workstream and run from the other. The
-- handoff and the phase are in no key.
use Prim.Native.Char.{Char, char, code}
use Prim.Native.String.{◌∷◌ as text_cons, [] as text_nil, ◌++◌ as text_append}
use text.Mathlib.TextLemmas.{cons-append, nil-append}
use canon_systems.Base.{
  List, [], ◌∷◌, String, ◌≡◌, refl, sym, ap, ◌∙◌, Bool, true, false, not, ◌||◌, eqb, leb, str_eq,
  non_empty, if◌then◌else◌, subst,
}
use canon_systems.Base.Text.{strip}
use canon_systems.Base.Json.{contains_text}
use canon_systems.TaskPlane.{is_forbidden, any_forbidden, hashed}
use canon_systems.RunLedger.{
  Raised, ledger_error, archive_error, Outcome, good, raise, ◌>>=◌, ◌>>◌, fail_if, text_length,
  after_dots, after_paths, after_empty, sanitize_key_segment, sanitize_ledger_segment,
  build_run_ledger_pk, build_run_ledger_sk,
}

-- Inversion of a chain of fallible steps.
pub bind-good {ℓ κ} :
    {A : Type ℓ} {B : Type κ} (m : Outcome A) (f : A → Outcome B) {b : B}
    → (m >>= f) ≡ good b
    → (a : A) × (m ≡ good a) × (f a ≡ good b)
bind-good (good a) f h = (a, refl, h)
bind-good (raise e) f h = cc

pub guard-good {ℓ} :
    {B : Type ℓ} (t : Bool) (e : Raised) (m : Outcome B) {b : B}
    → (fail_if t e >> m) ≡ good b
    → (t ≡ false) × (m ≡ good b)
guard-good true e m h = cc
guard-good false e m h = (refl, h)

pub good-injective {ℓ} : {A : Type ℓ} {a b : A} → good a ≡ good b → a ≡ b
good-injective {a} h = ap (λ r. elim r [ good x ↦ x | raise e ↦ a ]) h

-- What a segment of a key is: not empty, no `#`, `|`, `/` or `\`, and at most 256 characters.
pub record IsSegment (s : String) : Type 0 where
  pub filled : non_empty s ≡ true
  pub plain : any_forbidden s ≡ false
  pub bounded : leb (text_length s) 256 ≡ true

pub not-false : (b : Bool) → not b ≡ false → b ≡ true
not-false true h = refl
not-false false h = cc

pub sanitize_ledger_segment-IsSegment :
    (raw s : String) → sanitize_ledger_segment raw ≡ good s → (strip raw ≡ s) × IsSegment s
unfolding sanitize_ledger_segment sanitize_key_segment
sanitize_ledger_segment-IsSegment raw s h =
    let (s1, key, rest) =
      bind-good (sanitize_key_segment raw) (λ x. fail_if (any_forbidden x) ledger_error >> good x)
        h in
    let (plain, same) = guard-good (any_forbidden s1) ledger_error (good s1) rest in
    let (filled, h1) =
      guard-good (not (non_empty (strip raw))) archive_error (after_empty (strip raw)) key in
    let (a, h2) =
      guard-good (contains_text (strip raw) "/" || contains_text (strip raw) "\\") archive_error
        (after_paths (strip raw)) h1 in
    let (b, h3) =
      guard-good (str_eq (strip raw) "." || contains_text (strip raw) "..") archive_error
        (after_dots (strip raw)) h2 in
    let (short, h4) =
      guard-good (not (leb (text_length (strip raw)) 256)) archive_error (good (strip raw)) h3 in
    let same1 : strip raw ≡ s1 = good-injective h4 in
    let same2 : strip raw ≡ s = same1 ∙ good-injective same in
    (
      same2,
      record {
        filled = subst (λ x. non_empty x ≡ true) same2 (not-false (non_empty (strip raw)) filled);
        plain = subst (λ x. any_forbidden x ≡ false) (good-injective same) plain;
        bounded =
            subst (λ x. leb (text_length x) 256 ≡ true) same2
              (not-false (leb (text_length (strip raw)) 256) short);
      },
    )

-- The parts of a key between its `#`.
abbrev push : Char → List String → List String
push c [] = text_cons c "" ∷ []
push c (w ∷ ws) = text_cons c w ∷ ws

unfoldable pub split_hash : String → List String
split_hash text_nil = "" ∷ []
split_hash (text_cons c s) =
    let rest = split_hash s in if eqb (code c) 35 then "" ∷ rest else push c rest

abbrev hash : Char
hash = char 35 tt

or_left : (a b : Bool) → (a || b) ≡ false → a ≡ false
or_left true b h = h
or_left false b h = refl

or_right : (a b : Bool) → (a || b) ≡ false → b ≡ false
or_right true b h = cc
or_right false b h = h

not_hash : (c : Char) → is_forbidden c ≡ false → eqb (code c) 35 ≡ false
not_hash c h =
    or_left (eqb (code c) 35) (eqb (code c) 124 || (eqb (code c) 92 || eqb (code c) 47)) h

split_plain : (a : String) → any_forbidden a ≡ false → split_hash a ≡ a ∷ []
unfolding split_hash any_forbidden
split_plain text_nil h = refl
split_plain (text_cons c s) h =
    rw
      (
        split_hash,
        not_hash c (or_left (is_forbidden c) (any_forbidden s) h),
        split_plain s (or_right (is_forbidden c) (any_forbidden s) h),
      )
      refl

split_hashed : (a b : String) → any_forbidden a ≡ false → split_hash (hashed a b) ≡ a ∷ split_hash b
unfolding split_hash any_forbidden
split_hashed text_nil b h = ap split_hash (
    nil-append (text_append "#" b)
    ∙ cons-append hash "" b
    ∙ ap (λ s. text_cons hash s) (nil-append b))
split_hashed (text_cons c s) b h =
    ap split_hash (cons-append c s (text_append "#" b))
    ∙ rw
        (
          split_hash,
          not_hash c (or_left (is_forbidden c) (any_forbidden s) h),
          split_hashed s b (or_right (is_forbidden c) (any_forbidden s) h),
        )
        refl

three_equal : {a a' b b' c : String} → a ≡ a' → b ≡ b' → a ∷ b ∷ c ∷ [] ≡ a' ∷ b' ∷ c ∷ []
three_equal p q = rw (p, q) refl

four_equal :
    {a a' b b' c c' d d' : String}
    → a ≡ a'
    → b ≡ b'
    → c ≡ c'
    → d ≡ d'
    → a ∷ b ∷ c ∷ d ∷ [] ≡ a' ∷ b' ∷ c' ∷ d' ∷ []
four_equal p q r s = rw (p, q, r, s) refl

pk_parts :
    (company_id repository_id pk : String)
    → build_run_ledger_pk company_id repository_id ≡ good pk
    → split_hash pk ≡ strip company_id ∷ strip repository_id ∷ "run_ledger" ∷ []
unfolding build_run_ledger_pk
pk_parts company_id repository_id pk h =
    let (c, hc, h1) =
      bind-good (sanitize_ledger_segment company_id)
        (λ c.
          sanitize_ledger_segment repository_id >>= λ r. good (hashed c (hashed r "run_ledger")))
        h in
    let (r, hr, h2) =
      bind-good (sanitize_ledger_segment repository_id)
        (λ r. good (hashed c (hashed r "run_ledger"))) h1 in
    let (same_c, seg_c) = sanitize_ledger_segment-IsSegment company_id c hc in
    let (same_r, seg_r) = sanitize_ledger_segment-IsSegment repository_id r hr in
    ap split_hash (sym (good-injective h2))
    ∙ split_hashed c (hashed r "run_ledger") seg_c.plain
    ∙ ap (λ l. c ∷ l)
        (split_hashed r "run_ledger" seg_r.plain ∙ ap (λ l. r ∷ l) (split_plain "run_ledger" refl))
    ∙ three_equal (sym same_c) (sym same_r)

sk_parts :
    (plan_id task_id workstream_id ledger_run_id sk : String)
    → build_run_ledger_sk plan_id task_id workstream_id ledger_run_id ≡ good sk
    → split_hash sk ≡ strip plan_id ∷ strip task_id ∷ strip workstream_id ∷ strip ledger_run_id ∷ []
unfolding build_run_ledger_sk
sk_parts plan_id task_id workstream_id ledger_run_id sk h =
    let (p, hp, h1) =
      bind-good (sanitize_ledger_segment plan_id)
        (λ p. sanitize_ledger_segment task_id >>= λ t.
          sanitize_ledger_segment workstream_id >>= λ w.
          sanitize_ledger_segment ledger_run_id >>= λ r. good (hashed p (hashed t (hashed w r))))
        h in
    let (t, ht, h2) =
      bind-good (sanitize_ledger_segment task_id)
        (λ t. sanitize_ledger_segment workstream_id >>= λ w.
          sanitize_ledger_segment ledger_run_id >>= λ r. good (hashed p (hashed t (hashed w r))))
        h1 in
    let (w, hw, h3) =
      bind-good (sanitize_ledger_segment workstream_id)
        (λ w.
          sanitize_ledger_segment ledger_run_id >>= λ r. good (hashed p (hashed t (hashed w r))))
        h2 in
    let (r, hr, h4) =
      bind-good (sanitize_ledger_segment ledger_run_id)
        (λ r. good (hashed p (hashed t (hashed w r)))) h3 in
    let (same_p, seg_p) = sanitize_ledger_segment-IsSegment plan_id p hp in
    let (same_t, seg_t) = sanitize_ledger_segment-IsSegment task_id t ht in
    let (same_w, seg_w) = sanitize_ledger_segment-IsSegment workstream_id w hw in
    let (same_r, seg_r) = sanitize_ledger_segment-IsSegment ledger_run_id r hr in
    ap split_hash (sym (good-injective h4))
    ∙ split_hashed p (hashed t (hashed w r)) seg_p.plain
    ∙ ap (λ l. p ∷ l)
        (split_hashed t (hashed w r) seg_t.plain
          ∙ ap (λ l. t ∷ l)
              (split_hashed w r seg_w.plain ∙ ap (λ l. w ∷ l) (split_plain r seg_r.plain)))
    ∙ four_equal (sym same_p) (sym same_t) (sym same_w) (sym same_r)

-- The keys of a ledger row give back what they were built from, up to surrounding spaces: their
-- parts between `#` are the company, the repository and the mark of the ledger, and the plan, the
-- task, the workstream and the run.
pub build_run_ledger_keys_split :
    (company_id repository_id plan_id task_id workstream_id ledger_run_id pk sk : String)
    → build_run_ledger_pk company_id repository_id ≡ good pk
    → build_run_ledger_sk plan_id task_id workstream_id ledger_run_id ≡ good sk
    → (split_hash pk ≡ strip company_id ∷ strip repository_id ∷ "run_ledger" ∷ [])
      × (split_hash sk
          ≡ strip plan_id ∷ strip task_id ∷ strip workstream_id ∷ strip ledger_run_id ∷ [])
build_run_ledger_keys_split c r p t w i pk sk h k = (pk_parts c r pk h, sk_parts p t w i sk k)
