-- ===== src/Tenancy/Delegation.antt =====
-- residual/tenancy/delegation.py: grants and their execution with the grantor's approval. An
-- operation gives the engine behind it too, since it may change before an error.
use residual_agent_harness.Prelude.{
  ℕ, String, Bool, true, false, not, ◌&&◌, Option, none, some, List, all, contains, is_empty, leb,
  length, string_eq, ◌==◌, if◌then◌else◌, find,
}
use residual_agent_harness.Prelude.Dict.{Dict, lookup, insert}
use residual_agent_harness.Prelude.Result.{Result, ok, err, guard, ◌>>=◌, ◌>>◌}
use residual_agent_harness.Core.Identifier.{is_identifier}
use residual_agent_harness.Tenancy.{
  DelegationReceipt, delegation, HitlRequest, Tenant, TenantState, Digests, append_receipt,
  enqueue_hitl,
}

pub record DelegationGrant : Type 0 where
  pub id : String
  pub grantor : String
  pub grantee : String
  pub task_types : List String
  pub resources : List String
  pub expires_at : ℕ

-- The messages of the `ContractError`s, and `KeyError` for a tenant that is gone.
pub data DelegationError : Type 0 where
  invalid_identifier one_tenant no_task_types no_resources : DelegationError
  duplicate_grant unknown_tenant unknown_grant expired out_of_scope : DelegationError
  approval_pending no_approval key_error : DelegationError

-- `DelegationGrant.__post_init__`
unfoldable pub check_grant : DelegationGrant → Result DelegationError (Unit {0})
check_grant g = do
  guard (is_identifier g.id) invalid_identifier
  guard (is_identifier g.grantor) invalid_identifier
  guard (is_identifier g.grantee) invalid_identifier
  guard (not (g.grantor == g.grantee)) one_tenant
  guard (not (is_empty g.task_types) && all (λ t. not (t == "")) g.task_types) no_task_types
  guard (not (is_empty g.resources) && all (λ r. not (r == "")) g.resources) no_resources

unfoldable pub permits : DelegationGrant → String → String → ℕ → Bool
permits g task_type resource now =
    leb now g.expires_at && contains task_type g.task_types && contains resource g.resources

pub record DelegationEngine (V : Type 0) : Type 0 where
  pub tenants : Dict (Tenant V)
  pub grants : Dict DelegationGrant

-- request.get(…) == value
is_at : Option String → String → Bool
is_at none value = false
is_at (some v) value = v == value

-- The request that an approval is looked for in.
unfoldable pub is_request : String → String → String → String → HitlRequest → Bool
unfolding is_at
is_request grant_id approval_id task_type resource r =
    is_at r.approval_id approval_id
    && is_at r.grant_id grant_id
    && is_at r.task_type task_type
    && is_at r.resource resource

-- By the first request that fits.
unfoldable pub approved_by : Option HitlRequest → Result DelegationError (Unit {0})
approved_by none = err no_approval
approved_by (some r) = guard r.approved approval_pending

abbrev pub is_known {ℓ} : {A : Type ℓ} → Option A → Bool
is_known none = false
is_known (some a) = true

module _ {V : Type 0} (digests : Digests V) where
  unfoldable pub add_grant :
      DelegationEngine V → DelegationGrant → Result DelegationError (DelegationEngine V)
  add_grant e grant = do
    guard (not (is_known (lookup grant.id e.grants))) duplicate_grant
    guard (is_known (lookup grant.grantor e.tenants)) unknown_tenant
    guard (is_known (lookup grant.grantee e.tenants)) unknown_tenant
    ok (record e { grants = insert grant.id grant e.grants })

  unfoldable pub scoped :
      Option DelegationGrant → String → String → ℕ → Result DelegationError DelegationGrant
  scoped none task_type resource now = err unknown_grant
  scoped (some grant) task_type resource now = do
    guard (leb now grant.expires_at) expired
    guard (contains task_type grant.task_types && contains resource grant.resources) out_of_scope
    ok grant

  -- `_scoped_grant`
  unfoldable pub scoped_grant :
      DelegationEngine V → String → String → String → ℕ → Result DelegationError DelegationGrant
  unfolding scoped
  scoped_grant e grant_id task_type resource now =
      scoped (lookup grant_id e.grants) task_type resource now

  unfoldable pub tenant_at : Option (Tenant V) → Result DelegationError (Tenant V)
  tenant_at none = err key_error
  tenant_at (some t) = ok t

  -- self.tenants[tenant_id]
  unfoldable pub tenant_of : DelegationEngine V → String → Result DelegationError (Tenant V)
  unfolding tenant_at
  tenant_of e tenant_id = tenant_at (lookup tenant_id e.tenants)

  unfoldable pub with_state :
      DelegationEngine V → Tenant V → String → TenantState V → DelegationEngine V
  with_state e t tenant_id s = record e {
    tenants = insert tenant_id (record t { state = s }) e.tenants;
  }

  unfoldable pub request_approval :
      DelegationEngine V
      → String
      → String
      → String
      → ℕ
      → Result DelegationError (DelegationEngine V × String)
  unfolding scoped_grant tenant_of with_state
  request_approval e grant_id task_type resource now = do
    grant ← scoped_grant e grant_id task_type resource now
    tenant ← tenant_of e grant.grantor
    let approval_id =
        digests.approval grant.id task_type resource now (length tenant.state.hitl_queue)
    ok (
      with_state e tenant grant.grantor (
          enqueue_hitl tenant.state (record {
            kind = some "delegation-approval";
            approval_id = some approval_id;
            grant_id = some grant.id;
            grantee = some grant.grantee;
            task_type = some task_type;
            resource = some resource;
            approved = false;
          })),
      approval_id,
    )

  -- `_approved`
  unfoldable pub approved_in :
      Result DelegationError (Tenant V)
      → DelegationGrant
      → String
      → String
      → String
      → Result DelegationError (Unit {0})
  unfolding approved_by
  approved_in (err x) grant approval_id task_type resource = err x
  approved_in (ok t) grant approval_id task_type resource =
      approved_by (find (is_request grant.id approval_id task_type resource) t.state.hitl_queue)

  unfoldable pub approved :
      DelegationEngine V
      → DelegationGrant
      → String
      → String
      → String
      → Result DelegationError (Unit {0})
  unfolding approved_in tenant_of
  approved e grant approval_id task_type resource =
      approved_in (tenant_of e grant.grantor) grant approval_id task_type resource

  unfoldable pub receipt_to :
      DelegationEngine V → DelegationReceipt → Option (Tenant V) → String → DelegationEngine V
  receipt_to e r none tenant_id = e
  receipt_to e r (some t) tenant_id =
      with_state e t tenant_id (append_receipt digests t.state (delegation (digests.receipt r) r))

  -- One turn of the loop at the end of `execute`; without the tenant, nothing is appended.
  unfoldable pub append_to : DelegationEngine V → DelegationReceipt → String → DelegationEngine V
  unfolding receipt_to
  append_to e r tenant_id = receipt_to e r (lookup tenant_id e.tenants) tenant_id

  unfoldable pub receipt_of : DelegationGrant → String → String → ℕ → String → V → DelegationReceipt
  receipt_of grant task_type resource now approval_id result = record {
    grant_id = grant.id;
    task_type = task_type;
    resource = resource;
    executed_at = now;
    approval_id = approval_id;
    result_digest = digests.value result;
  }

  -- Where the grantee is gone, the `KeyError` comes behind the grantor's receipt; the grantor is
  -- there, since its queue was read.
  unfoldable pub record_execution :
      DelegationEngine V
      → DelegationGrant
      → DelegationReceipt
      → DelegationEngine V × Result DelegationError DelegationReceipt
  unfolding append_to
  record_execution e grant r =
      let e' = append_to e r grant.grantor in
      if is_known (lookup grant.grantee e'.tenants)
      then (append_to e' r grant.grantee, ok r)
      else (e', err key_error)

  -- The rest of `execute` behind the search for the approval, and behind that for the grant.
  unfoldable pub execute_approved :
      DelegationEngine V
      → DelegationGrant
      → Result DelegationError (Unit {0})
      → DelegationReceipt
      → DelegationEngine V × Result DelegationError DelegationReceipt
  unfolding record_execution
  execute_approved e grant (err x) r = (e, err x)
  execute_approved e grant (ok _) r = record_execution e grant r

  unfoldable pub execute_scoped :
      DelegationEngine V
      → Result DelegationError DelegationGrant
      → String
      → String
      → ℕ
      → String
      → V
      → DelegationEngine V × Result DelegationError DelegationReceipt
  unfolding execute_approved approved receipt_of
  execute_scoped e (err x) task_type resource now approval_id result = (e, err x)
  execute_scoped e (ok grant) task_type resource now approval_id result =
      execute_approved e grant (approved e grant approval_id task_type resource)
        (receipt_of grant task_type resource now approval_id result)

  unfoldable pub execute :
      DelegationEngine V
      → String
      → String
      → String
      → ℕ
      → String
      → V
      → DelegationEngine V × Result DelegationError DelegationReceipt
  unfolding execute_scoped scoped_grant
  execute e grant_id task_type resource now approval_id result =
      execute_scoped e (scoped_grant e grant_id task_type resource now) task_type resource now
        approval_id result
