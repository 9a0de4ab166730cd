-- ===== src/StateApi/Keys.antt =====
-- `pk_sk` of backend/state-api/state_api/models.py.
use Prim.Native.String.{◌++◌}
use text.Mathlib.TextLemmas.{append_assoc}
use canon_systems.Base.{String, ◌≡◌, ap, ◌∙◌}
use canon_systems.StateApi.Rows.{ScopeIds, pk_sk}

abbrev pub scope_ids : String → String → String → String → String → ScopeIds
scope_ids c r p t w = record {
  company_id = c;
  repository_id = r;
  plan_id = p;
  task_id = t;
  workstream_id = w;
}

-- Two scopes that differ in where a `#` stands share one row: the company `a#b` with the
-- repository `c`, and the company `a` with the repository `b#c`.
pub pk_sk_collides :
    (a b c plan_id task_id workstream_id : String)
    → pk_sk (scope_ids (a ++ ("#" ++ b)) c plan_id task_id workstream_id)
      ≡ pk_sk (scope_ids a (b ++ ("#" ++ c)) plan_id task_id workstream_id)
unfolding pk_sk
pk_sk_collides a b c plan_id task_id workstream_id =
    ap (λ (k : String). (k, plan_id ++ ("#" ++ (task_id ++ ("#" ++ workstream_id)))))
      (append_assoc a ("#" ++ b) ("#" ++ c)
        ∙ ap (λ (s : String). a ++ s) (append_assoc "#" b ("#" ++ c)))
