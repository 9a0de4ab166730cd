-- ===== src/StateApi/Store.antt =====
-- `StateStore` of backend/state-api/state_api/storage.py: the condition and update expressions
-- of each method, and the calls of the table with them.
use canon_systems.Base.{ℕ, String, Bool, true, false, Option, List, [], ◌∷◌, str_eq, if◌then◌else◌}
use canon_systems.Dynamo.{
  Doc, Item, Key, Condition, key_not_exists, num_not_exists, num_is, num_above, num_at_most, str_is,
  both, either, Action, set_str, default_str, set_num, default_num, increment, set_doc, remove_str,
  remove_num, Reply, done, failed, conditional_check_failed, Dynamo,
}
use canon_systems.StateApi.Rows.{ScopeIds}

-- `#sv = :esv AND #lt = :ltok AND #le > :now`
unfoldable pub put_condition : ℕ → String → ℕ → Condition
put_condition expected lease_token now_epoch =
    both (num_is "state_version" expected)
      (both (str_is "lease_token" lease_token) (num_above "lease_expires_at" now_epoch))

-- What `put_checkpoint` writes beside the version.
pub record PutFields : Type 0 where
  pub phase : String
  pub phase_status : String
  pub updated_at : String
  pub new_last_event_id : String
  pub handoff_id : String

abbrev pub set_docs : List (String × Doc) → List Action
set_docs [] = []
set_docs ((k, d) ∷ r) = set_doc k d ∷ set_docs r

unfoldable pub put_update : PutFields → List (String × Doc) → List Action
put_update f optional_sets =
    increment "state_version" 1
    ∷ set_str "phase" f.phase
    ∷ set_str "phase_status" f.phase_status
    ∷ set_str "updated_at" f.updated_at
    ∷ set_str "last_event_id" f.new_last_event_id
    ∷ set_str "handoff_id" f.handoff_id
    ∷ set_docs optional_sets

-- `attribute_not_exists(#pk) OR attribute_not_exists(#leexp) OR #leexp <= :now`
unfoldable pub fresh_condition : ℕ → Condition
fresh_condition now_epoch =
    either key_not_exists
      (either (num_not_exists "lease_expires_at") (num_at_most "lease_expires_at" now_epoch))

-- The attributes of a claim.
pub record Claim : Type 0 where
  pub token : String
  pub owner_agent_run_id : String
  pub owner_actor_id : String
  pub acquired_at : ℕ
  pub expires_at : ℕ

unfoldable pub fresh_update : Claim → ScopeIds → List Action
fresh_update c base =
    default_num "schema_version" 1
    ∷ default_str "company_id" base.company_id
    ∷ default_str "repository_id" base.repository_id
    ∷ default_str "plan_id" base.plan_id
    ∷ default_str "task_id" base.task_id
    ∷ default_str "workstream_id" base.workstream_id
    ∷ default_num "state_version" 0
    ∷ set_str "lease_token" c.token
    ∷ set_str "lease_owner_agent_run_id" c.owner_agent_run_id
    ∷ set_str "lease_owner_actor_id" c.owner_actor_id
    ∷ set_num "lease_acquired_at" c.acquired_at
    ∷ set_num "lease_expires_at" c.expires_at
    ∷ []

-- `#lt = :tok AND #lo = :lo AND #le > :now`
unfoldable pub extend_condition : String → String → ℕ → Condition
extend_condition token owner now_epoch =
    both (str_is "lease_token" token)
      (both (str_is "lease_owner_agent_run_id" owner) (num_above "lease_expires_at" now_epoch))

-- `SET #le = :le`
unfoldable pub expiry_update : ℕ → List Action
expiry_update expires_at = set_num "lease_expires_at" expires_at ∷ []

-- `#lt = :tok AND #le > :now`
unfoldable pub renew_condition : String → ℕ → Condition
renew_condition lease_token now_epoch =
    both (str_is "lease_token" lease_token) (num_above "lease_expires_at" now_epoch)

-- `REMOVE #lt, #lo, #la, #lac, #le`
unfoldable pub release_update : List Action
release_update =
    remove_str "lease_token"
    ∷ remove_str "lease_owner_agent_run_id"
    ∷ remove_str "lease_owner_actor_id"
    ∷ remove_num "lease_acquired_at"
    ∷ remove_num "lease_expires_at"
    ∷ []

-- What `release_lease` ends with: its Boolean and the table, or an error that is raised on.
pub data Released (T : Type 0) : Type 0 where
  answer : Bool → T → Released T
  raised : String → Released T

module _ (db : Dynamo) where
  open db use {Table, get, update}

  unfoldable pub get_item : Table → Key → Option Item
  get_item t k = get t k

  unfoldable pub put_checkpoint :
      Table → Key → ℕ → String → ℕ → PutFields → List (String × Doc) → Reply Table
  put_checkpoint t k expected lease_token now_epoch f optional_sets =
      update t k (put_condition expected lease_token now_epoch) (put_update f optional_sets)

  unfoldable pub acquire_lease_fresh : Table → Key → Claim → ℕ → ScopeIds → Reply Table
  acquire_lease_fresh t k c now_epoch base =
      update t k (fresh_condition now_epoch) (fresh_update c base)

  unfoldable pub acquire_lease_extend_same_owner :
      Table → Key → String → String → ℕ → ℕ → Reply Table
  acquire_lease_extend_same_owner t k token owner expires_at now_epoch =
      update t k (extend_condition token owner now_epoch) (expiry_update expires_at)

  -- The extending call is given an empty `base_item`, which it does not read.
  unfoldable pub acquire_lease : Table → Key → Claim → ℕ → ScopeIds → Bool → Reply Table
  unfolding acquire_lease_fresh acquire_lease_extend_same_owner
  acquire_lease t k c now_epoch base extend_same_owner =
      if extend_same_owner
      then acquire_lease_extend_same_owner t k c.token c.owner_agent_run_id c.expires_at now_epoch
      else acquire_lease_fresh t k c now_epoch base

  unfoldable pub renew_lease : Table → Key → String → ℕ → ℕ → Reply Table
  renew_lease t k lease_token expires_at now_epoch =
      update t k (renew_condition lease_token now_epoch) (expiry_update expires_at)

  -- A failed condition is the answer `False`; the table stays.
  abbrev released : Table → Reply Table → Released Table
  released t (done t' i) = answer true t'
  released t (failed code) =
      if str_eq code conditional_check_failed then answer false t else raised code

  unfoldable pub release_lease : Table → Key → String → Released Table
  release_lease t k lease_token =
      released t (update t k (str_is "lease_token" lease_token) release_update)
