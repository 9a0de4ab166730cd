-- ===== src/Dynamo.antt =====
-- The DynamoDB table service, which the repository calls through boto3 and does not implement:
-- `get_item` and `update_item` of backend/state-api/state_api/storage.py.
--
-- The condition and update expressions that the code writes as texts are data here, and the
-- table itself is a parameter, the record `Dynamo`. Its law is the documented behaviour of
-- `update_item`: it is atomic, it writes when the condition holds of the stored row, it fails
-- with `ConditionalCheckFailedException` when the condition does not hold, and it may fail with
-- another code (throttling, an outage) without writing. The child `Memory` is an instance.
pub mod Memory
pub mod Expressions
pub mod Absent
use canon_systems.Base.{
  ℕ, ◌+◌, String, ◌≡◌, ◌≢◌, ◌⊎◌, Bool, true, false, ◌&&◌, ◌||◌, Option, none, some, List, [], ◌∷◌,
  leb, ltb, eqb, str_eq, if◌then◌else◌,
}

-- A JSON document by its kind and its serialized text.
pub data Doc : Type 0 where
  mapping : String → Doc
  sequence : String → Doc

-- A row's attributes, by their type and name. The key attributes `pk` and `sk` are apart.
pub record Item : Type 0 where
  pub str : String → Option String
  pub num : String → Option ℕ
  pub doc : String → Option Doc

abbrev pub blank : Item
blank = record { str = λ _. none; num = λ _. none; doc = λ _. none }

abbrev pub Key : Type 0
Key = String × String

abbrev pub same_key : Key → Key → Bool
same_key (a, b) (c, d) = str_eq a c && str_eq b d

-- Condition expressions. A comparison with an attribute that is missing does not hold.
pub data Condition : Type 0 where
  key_not_exists : Condition
  num_not_exists : String → Condition
  num_is num_above num_at_most : String → ℕ → Condition
  str_is : String → String → Condition
  both either : Condition → Condition → Condition

abbrev pub num_test : (ℕ → Bool) → Option ℕ → Bool
num_test p none = false
num_test p (some n) = p n

abbrev pub str_test : String → Option String → Bool
str_test v none = false
str_test v (some s) = str_eq s v

abbrev pub row : Option Item → Item
row none = blank
row (some i) = i

abbrev pub holds : Condition → Option Item → Bool
holds key_not_exists none = true
holds key_not_exists (some i) = false
holds (num_not_exists a) r = elim ((row r).num a) [ none ↦ true | some n ↦ false ]
holds (num_is a v) r = num_test (λ n. eqb n v) ((row r).num a)
holds (num_above a v) r = num_test (λ n. ltb v n) ((row r).num a)
holds (num_at_most a v) r = num_test (λ n. leb n v) ((row r).num a)
holds (str_is a v) r = str_test v ((row r).str a)
holds (both c d) r = holds c r && holds d r
holds (either c d) r = holds c r || holds d r

-- The actions of an update expression.
pub data Action : Type 0 where
  set_str default_str : String → String → Action
  set_num default_num increment : String → ℕ → Action
  set_doc : String → Doc → Action
  remove_str remove_num : String → Action

abbrev pub update_at {ℓ} :
    {A : Type ℓ} → String → Option A → (String → Option A) → String → Option A
update_at a v f b = if str_eq b a then v else f b

abbrev pub or_default {ℓ} : {A : Type ℓ} → Option A → A → Option A
or_default none v = some v
or_default (some w) v = some w

abbrev pub plus : Option ℕ → ℕ → Option ℕ
plus none n = none
plus (some m) n = some (m + n)

-- One action: the right sides read the row as it was before the update.
abbrev pub act : Item → Action → Item → Item
act old (set_str a v) i = record i { str = update_at a (some v) i.str }
act old (default_str a v) i = record i { str = update_at a (or_default (old.str a) v) i.str }
act old (set_num a v) i = record i { num = update_at a (some v) i.num }
act old (default_num a v) i = record i { num = update_at a (or_default (old.num a) v) i.num }
act old (increment a n) i = record i { num = update_at a (plus (old.num a) n) i.num }
act old (set_doc a d) i = record i { doc = update_at a (some d) i.doc }
act old (remove_str a) i = record i { str = update_at a none i.str }
act old (remove_num a) i = record i { num = update_at a none i.num }

abbrev pub act_all : Item → List Action → Item → Item
act_all old [] i = i
act_all old (a ∷ as') i = act_all old as' (act old a i)

-- The row after an update; a missing row starts blank.
abbrev pub updated : List Action → Option Item → Item
updated u r = act_all (row r) u (row r)

-- What a call of `update_item` ends with: the table with the new row, or an error code.
pub data Reply (T : Type 0) : Type 0 where
  done : T → Item → Reply T
  failed : String → Reply T

abbrev pub conditional_check_failed : String
conditional_check_failed = "ConditionalCheckFailedException"

-- The service. `update_law` says what a call does, case by case.
pub record Dynamo : Type 1 where
  pub Table : Type 0
  pub get : Table → Key → Option Item
  pub update : Table → Key → Condition → List Action → Reply Table
  pub update_law :
      (t : Table) (k : Key) (c : Condition) (u : List Action)
      → ((t' : Table) × (update t k c u ≡ done t' (updated u (get t k)))
          × (holds c (get t k) ≡ true)
          × (get t' k ≡ some (updated u (get t k)))
          × ((j : Key) → j ≢ k → get t' j ≡ get t j))
        ⊎ ((update t k c u ≡ failed conditional_check_failed) × (holds c (get t k) ≡ false)
            ⊎ ((code : String) × (update t k c u ≡ failed code)
                × (code ≢ conditional_check_failed)))
