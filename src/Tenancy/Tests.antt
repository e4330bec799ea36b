-- ===== src/Tenancy/Tests.antt =====
-- Two tenants, `a` with an approved request for a task of `b`.
use residual_agent_harness.Prelude.{
  ◌≡◌, refl, String, true, none, some, List, [], ◌∷◌, all, contains, find, string_eq,
}
use residual_agent_harness.Prelude.Dict.{lookup, insert, remove}
use residual_agent_harness.Prelude.Result.{ok}
use residual_agent_harness.Core.Identifier.{is_identifier}
use residual_agent_harness.Tenancy.{HitlRequest, Tenant, Digests, empty_state}
use residual_agent_harness.Tenancy.Delegation.{
  DelegationGrant, DelegationEngine, permits, is_request, execute, receipt_of, with_state,
}
use residual_agent_harness.Tenancy.Approval.{IsAuthorized, execute-IsAuthorized}
use residual_agent_harness.Tenancy.Recording.{received}
use residual_agent_harness.Tenancy.Execution.{execute_all, execute-received, execute-replayed}
use residual_agent_harness.Tenancy.Lifecycle.{
  PlatformOperator, TenantLifecycle, archive_of, delete_tenant, Operation, create, delete,
  apply_all,
}
use residual_agent_harness.Tenancy.Deletion.{delete_tenant-archived}

abbrev digests : Digests String
digests = record {
  chain = λ hashes r. "chain";
  approval = λ g t r now n. "approval";
  receipt = λ r. r.task_type;
  value = λ v. v;
  hashes = λ hs. "hashes";
  observations = λ os. "observations";
  deletion = λ id n k r o. id;
}

abbrev request : HitlRequest
request = record {
  kind = some "delegation-approval";
  approval_id = some "approval";
  grant_id = some "g";
  grantee = some "b";
  task_type = some "deploy";
  resource = some "web";
  approved = true;
}

abbrev grantor : Tenant String
grantor = record { id = "a"; quota = 1; state = record empty_state { hitl_queue = request ∷ [] } }

abbrev grantee : Tenant String
grantee = record { id = "b"; quota = 1; state = empty_state }

abbrev grant : DelegationGrant
grant = record {
  id = "g";
  grantor = "a";
  grantee = "b";
  task_types = "deploy" ∷ [];
  resources = "web" ∷ [];
  expires_at = 9;
}

abbrev engine : DelegationEngine String
engine = record { tenants = ("a", grantor) ∷ ("b", grantee) ∷ []; grants = ("g", grant) ∷ [] }

authorized : IsAuthorized digests engine "g" "deploy" "web" 3 "approval"
unfolding lookup permits contains find is_request
authorized = record {
  grant = grant;
  registered = refl;
  permitted = refl;
  grantor = grantor;
  is_grantor = refl;
  request = request;
  requested = refl;
  is_approved = refl;
}

there : lookup "b" engine.tenants ≡ some grantee
unfolding lookup
there = refl

in_time : permits grant "deploy" "web" 9 ≡ true
unfolding permits contains
in_time = refl

is_executed :
    (execute digests engine "g" "deploy" "web" 3 "approval" "done").1
    ≡ ok (receipt_of digests grant "deploy" "web" 3 "approval" "done")
unfolding execute lookup contains find is_request insert with_state
is_executed = refl

execute-IsAuthorized_example : IsAuthorized digests engine "g" "deploy" "web" 3 "approval"
execute-IsAuthorized_example =
    execute-IsAuthorized digests engine "g" "deploy" "web" 3 "approval" "done"
      (receipt_of digests grant "deploy" "web" 3 "approval" "done") is_executed

execute-received_example :
    (let r = receipt_of digests grant "deploy" "web" 3 "approval" "done" in
      let after = execute digests engine "g" "deploy" "web" 3 "approval" "done" in
      (after.1 ≡ ok r)
      × (lookup "a" after.0.tenants ≡ received digests r (some grantor))
      × (lookup "b" after.0.tenants ≡ received digests r (some grantee)))
unfolding authorized
execute-received_example =
    execute-received digests engine "g" "deploy" "web" 3 "approval" "done" authorized grantee there
      refl

execute-replayed_example :
    execute_all digests engine "g" "deploy" "web" "approval" ((3, "done") ∷ (9, "again") ∷ [])
    ≡ ok (receipt_of digests grant "deploy" "web" 3 "approval" "done")
      ∷ ok (receipt_of digests grant "deploy" "web" 9 "approval" "again")
      ∷ []
unfolding authorized
execute-replayed_example =
    execute-replayed digests ((3, "done") ∷ (9, "again") ∷ []) engine "g" "deploy" "web" 3
      "approval" authorized grantee there refl (refl, (in_time, tt))

abbrev operator : PlatformOperator
operator = record { id = "op"; platform_admin = true }

abbrev tenants : TenantLifecycle String
tenants = record { tenants = engine.tenants; archives = [] }

abbrev without : TenantLifecycle String
without = record {
  tenants = ("b", grantee) ∷ [];
  archives = ("a", archive_of digests "a" grantor) ∷ [];
}

is_deleted : delete_tenant digests tenants operator "a" ≡ ok without
unfolding delete_tenant lookup insert remove is_identifier all
is_deleted = refl

abbrev operations : List Operation
operations = create operator "a" 1 ∷ delete operator "b" ∷ []

delete_tenant-archived_example :
    (true ≡ true)
    × ((t : Tenant String) × (lookup "a" tenants.tenants ≡ some t)
        × (lookup "a" (apply_all digests without operations).archives
            ≡ some (archive_of digests "a" t))
        × (lookup "a" (apply_all digests without operations).tenants ≡ none))
delete_tenant-archived_example =
    delete_tenant-archived digests tenants without operator "a" operations is_deleted
