-- ===== src/Dynamo/Expressions.antt =====
-- `put_item` with a condition on the key attributes, and `query` with a key condition, of DynamoDB:
-- what the stores of backend/state-api/state_api/storage.py write as texts is data here.
use text.Mathlib.Text.{starts_with}
use canon_systems.Base.{String, ◌≡◌, ◌≢◌, ◌⊎◌, Bool, true, false, ◌&&◌, Option, none, some, str_eq}
use canon_systems.Dynamo.{Key}

-- The condition of a put; `no_condition` is a call without `ConditionExpression`.
pub data PutCondition : Type 0 where
  no_condition pk_not_exists sk_not_exists : PutCondition
  and_also : PutCondition → PutCondition → PutCondition

-- Every stored row has both key attributes, so the tests fail on each row that is there.
abbrev pub passes : {R : Type 0} → PutCondition → Option R → Bool
passes no_condition r = true
passes pk_not_exists none = true
passes pk_not_exists (some r) = false
passes sk_not_exists none = true
passes sk_not_exists (some r) = false
passes (and_also c d) r = passes c r && passes d r

-- What a put ends with.
pub data Put (T : Type 0) : Type 0 where
  stored : T → Put T
  condition_failed : Put T
  failed : String → Put T

-- The documented behaviour of `put_item`: it stores the row and leaves the others if the condition
-- holds of the row at its key, it fails if the condition does not hold, and it may fail with
-- another error and then writes nothing. A put without a condition replaces a row.
abbrev pub PutLaw :
    (T R : Type 0) → (T → Key → Option R) → (T → Key → PutCondition → R → Put T) → Type 0
PutLaw T R get put =
    (t : T) (k : Key) (c : PutCondition) (r : R)
    → ((t' : T) × (put t k c r ≡ stored t')
        × (passes c (get t k) ≡ true)
        × (get t' k ≡ some r)
        × ((j : Key) → j ≢ k → get t' j ≡ get t j))
      ⊎ (((put t k c r ≡ condition_failed) × (passes c (get t k) ≡ false))
          ⊎ ((code : String) × (put t k c r ≡ failed code)))

-- The key condition of a query.
pub data KeyCondition : Type 0 where
  pk_is sk_begins_with : String → KeyCondition
  both_keys : KeyCondition → KeyCondition → KeyCondition

abbrev pub selects : KeyCondition → Key → Bool
selects (pk_is v) (p, s) = str_eq p v
selects (sk_begins_with v) (p, s) = starts_with s v
selects (both_keys c d) k = selects c k && selects d k
