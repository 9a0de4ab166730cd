-- ===== src/FlowAudit/Attested.antt =====
-- What the deploy attestation shows that has no error.
use mathlib.Core.List.{Memᴰ}
use canon_systems.Base.{
  String, ◌≡◌, ◌≢◌, ◌↔◌, refl, inl, inr, true, false, some, [], ◌∷◌, str_eq, str_true, non_empty,
  if◌then◌else◌, Bool-cases,
}
use canon_systems.Base.Text.{strip}
use canon_systems.Base.Json.{
  Json, Members, Elements, null, boolean, number, negative, string, array, object, get, has,
  no_members, member,
}
use canon_systems.FlowAudit.{attestation_mismatch}
use canon_systems.FlowAudit.Errors.{unless-none, str_eq_iff}
use canon_systems.FlowAudit.Deploy.{
  stale_deploy_verdict, str_field, deploy_str_field_any, normalize_git_sha, stripped,
  identity_errors, refs_errors, required_fields, deployed_sha,
}

-- A text that is not blank.
pub Filled : Json → Type 0
Filled v = non_empty (stripped v) ≡ true

-- The value under the key, or under its older name if there is no such key.
abbrev pub either_field : Members → String → String → Json
either_field ms key alias = if has ms key then get ms key else get ms alias

pub data Proof (ms : Members) (expected : String) : Type 0 where
  same_sha :
      non_empty (deployed_sha ms) ≡ true
      → normalize_git_sha (strip expected) ≡ normalize_git_sha (deployed_sha ms)
      → Proof ms expected
  same_build :
      non_empty (deployed_sha ms) ≡ false
      → non_empty (stripped (get ms "deployed_build_id")) ≡ true
      → stripped (get ms "deployed_build_id") ≡ stripped (get ms "expected_build_id")
      → Proof ms expected

pub IsArray : Json → Type 0
IsArray v = (vs : Elements) × (v ≡ array vs)

-- What `deployment-smoke.json` promises.
pub record IsAttested (handoff_id task_id : String) (ms : Members) : Type 0 where
  pub version : get ms "schema_version" ≡ string "1"
  pub handoff : Filled (get ms "handoff_id") × (stripped (get ms "handoff_id") ≡ handoff_id)
  pub task : Filled (get ms "task_id") × (stripped (get ms "task_id") ≡ task_id)
  pub fields : (key : String) → Memᴰ key required_fields → Filled (get ms key)
  pub url : Filled (either_field ms "base_url" "deployment_url")
  pub sha : Filled (either_field ms "expected_head_sha" "expected_git_sha")
  pub refs : IsArray (get ms "evidence_refs")
  pub verdict : stripped (get ms "smoke_verdict") ≢ stale_deploy_verdict
  pub reason : stripped (get ms "verdict_reason") ≢ stale_deploy_verdict
  pub proof : Proof ms (stripped (either_field ms "expected_head_sha" "expected_git_sha"))

pub str_field-none : (key : String) (v : Json) → ((str_field key v).1 ≡ []) ↔ Filled v
unfolding str_field Filled
str_field-none key (string s) = elim (Bool-cases (non_empty (strip s))) [
  | inl h ↦ (λ _. h, λ _. rw (str_field, h) refl)
  | inr h ↦ (λ k. cc (rw (str_field, h) at k), λ k. cc)
]
str_field-none key null = (λ h. cc, λ h. cc)
str_field-none key (boolean b) = (λ h. cc, λ h. cc)
str_field-none key (number b) = (λ h. cc, λ h. cc)
str_field-none key (negative b) = (λ h. cc, λ h. cc)
str_field-none key (array b) = (λ h. cc, λ h. cc)
str_field-none key (object b) = (λ h. cc, λ h. cc)

get-missing : (ms : Members) (key : String) → has ms key ≡ false → get ms key ≡ null
get-missing no_members key h = refl
get-missing (member j v ms) key h = elim (Bool-cases (str_eq j key)) [
  | inl e ↦ cc (rw e at h)
  | inr e ↦ rw e (get-missing ms key (rw e at h))
]

str_field_value : (key : String) (v : Json) → Filled v → (str_field key v).0 ≡ some (stripped v)
unfolding str_field Filled
str_field_value key (string s) h = rw (str_field, h) refl
str_field_value key null h = cc
str_field_value key (boolean b) h = cc
str_field_value key (number b) h = cc
str_field_value key (negative b) h = cc
str_field_value key (array b) h = cc
str_field_value key (object b) h = cc

pub deploy_str_field_any-none :
    (ms : Members) (key alias : String)
    → ((deploy_str_field_any ms key (alias ∷ [])).1 ≡ []) ↔ Filled (either_field ms key alias)
unfolding deploy_str_field_any Filled
deploy_str_field_any-none ms key alias = elim (Bool-cases (has ms key)) [
  | inl h ↦ rw (deploy_str_field_any, h) (str_field-none key (get ms key))
  | inr h ↦ elim (Bool-cases (has ms alias)) [
    | inl k ↦ rw (deploy_str_field_any, h, k) (str_field-none alias (get ms alias))
    | inr k ↦ rw (deploy_str_field_any, h, k, get-missing ms alias k) (λ x. cc, λ x. cc)
  ]
]

pub deploy_str_field_any-value :
    (ms : Members) (key alias : String)
    → Filled (either_field ms key alias)
    → (deploy_str_field_any ms key (alias ∷ [])).0 ≡ some (stripped (either_field ms key alias))
unfolding deploy_str_field_any Filled
deploy_str_field_any-value ms key alias f = elim (Bool-cases (has ms key)) [
  | inl h ↦ rw (deploy_str_field_any, h) (str_field_value key (get ms key) (rw h at f))
  | inr h ↦ elim (Bool-cases (has ms alias)) [
    | inl k ↦ rw (deploy_str_field_any, h, k) (str_field_value alias (get ms alias) (rw h at f))
    | inr k ↦ cc (rw (h, get-missing ms alias k) at f)
  ]
]

pub identity_errors-none :
    (key expected : String) (v : Json)
    → (identity_errors key expected v ≡ []) ↔ (Filled v × (stripped v ≡ expected))
unfolding identity_errors Filled
identity_errors-none key expected (string s) = elim (Bool-cases (non_empty (strip s))) [
  | inr h ↦ (λ k. cc (rw (identity_errors, h) at k), λ k. cc)
  | inl h ↦ (
    λ k. (
      h,
      str_true (strip s) expected (
          (unless-none (str_eq (strip s) expected) (attestation_mismatch key)).0
            (rw (identity_errors, h) at k)),
    ),
    λ k.
        rw (identity_errors, h)
          ((unless-none (str_eq (strip s) expected) (attestation_mismatch key)).1
            ((str_eq_iff (strip s) expected).1 k.1)),
  )
]
identity_errors-none key expected null = (λ h. cc, λ h. cc)
identity_errors-none key expected (boolean b) = (λ h. cc, λ h. cc)
identity_errors-none key expected (number b) = (λ h. cc, λ h. cc)
identity_errors-none key expected (negative b) = (λ h. cc, λ h. cc)
identity_errors-none key expected (array b) = (λ h. cc, λ h. cc)
identity_errors-none key expected (object b) = (λ h. cc, λ h. cc)

pub refs_errors-none : (v : Json) → (refs_errors v ≡ []) ↔ IsArray v
unfolding refs_errors IsArray
refs_errors-none (array vs) = (λ h. (vs, refl), λ h. refl)
refs_errors-none null = (λ h. cc, λ (vs, e). cc)
refs_errors-none (boolean b) = (λ h. cc, λ (vs, e). cc)
refs_errors-none (number b) = (λ h. cc, λ (vs, e). cc)
refs_errors-none (negative b) = (λ h. cc, λ (vs, e). cc)
refs_errors-none (string b) = (λ h. cc, λ (vs, e). cc)
refs_errors-none (object b) = (λ h. cc, λ (vs, e). cc)
