-- ===== src/Tenancy/Approval.antt =====
-- What the execution of a delegated task takes.
use residual_agent_harness.Prelude.{
  ℕ, ◌≡◌, refl, String, true, Option, none, some, arith, find, string_eq,
}
use residual_agent_harness.Prelude.Dict.{lookup}
use residual_agent_harness.Prelude.Result.{Result, ok, err}
use residual_agent_harness.Tenancy.{DelegationReceipt, HitlRequest, Tenant, Digests}
use residual_agent_harness.Tenancy.Delegation.{
  DelegationGrant, DelegationEngine, DelegationError, permits, is_request, approved_by, approved_in,
  approved, scoped, scoped_grant, tenant_of, tenant_at, execute_approved, execute_scoped, execute,
}

module _ {V : Type 0} (digests : Digests V) where
  -- A grant that covers the task at this time, and a request for it in the grantor's queue that is
  -- approved.
  pub record IsAuthorized (e : DelegationEngine V) (grant_id task_type resource : String) (now : ℕ)
      (approval_id : String) : Type 0 where
    pub grant : DelegationGrant
    pub registered : lookup grant_id e.grants ≡ some grant
    pub permitted : permits grant task_type resource now ≡ true
    pub grantor : Tenant V
    pub is_grantor : lookup grant.grantor e.tenants ≡ some grantor
    pub request : HitlRequest
    pub requested :
        find (is_request grant.id approval_id task_type resource) grantor.state.hitl_queue
        ≡ some request
    pub is_approved : request.approved ≡ true

  scoped_ok :
      (m : Option DelegationGrant) (task_type resource : String) (now : ℕ) (grant : DelegationGrant)
      → scoped digests m task_type resource now ≡ ok grant
      → (m ≡ some grant) × (permits grant task_type resource now ≡ true)
  unfolding scoped permits
  scoped_ok none task_type resource now grant e = absurd (cc)
  scoped_ok (some g) task_type resource now grant e = (ground arith, ground arith)

  approved_by-ok :
      (m : Option HitlRequest)
      → approved_by m ≡ ok tt
      → (r : HitlRequest) × (m ≡ some r) × (r.approved ≡ true)
  unfolding approved_by
  approved_by-ok none e = absurd (cc)
  approved_by-ok (some r) e = (r, refl, ground arith)

  tenant_at-ok : (m : Option (Tenant V)) (t : Tenant V) → tenant_at digests m ≡ ok t → m ≡ some t
  unfolding tenant_at
  tenant_at-ok none t e = absurd (cc)
  tenant_at-ok (some u) t e = cc

  authorized :
      (e : DelegationEngine V) (grant_id task_type resource : String) (now : ℕ)
      (approval_id : String) (grant : DelegationGrant) (m : Result DelegationError (Tenant V))
      → scoped_grant digests e grant_id task_type resource now ≡ ok grant
      → tenant_of digests e grant.grantor ≡ m
      → approved_in digests m grant approval_id task_type resource ≡ ok tt
      → IsAuthorized e grant_id task_type resource now approval_id
  unfolding scoped_grant approved_in tenant_of
  authorized e grant_id task_type resource now approval_id grant (err x) in_scope there ok' =
      absurd (cc)
  authorized e grant_id task_type resource now approval_id grant (ok t) in_scope there ok' =
      let (registered, permitted) =
        scoped_ok (lookup grant_id e.grants) task_type resource now grant in_scope in
      let (r, found, is_approved) = approved_by-ok _ ok' in
      record {
        grant = grant;
        registered = registered;
        permitted = permitted;
        grantor = t;
        is_grantor = tenant_at-ok (lookup grant.grantor e.tenants) t there;
        request = r;
        requested = found;
        is_approved = is_approved;
      }

  approved_step :
      (e : DelegationEngine V) (grant_id task_type resource : String) (now : ℕ)
      (approval_id : String) (grant : DelegationGrant) (receipt : DelegationReceipt)
      (m : Result DelegationError (Unit {0})) (r : DelegationReceipt)
      → scoped_grant digests e grant_id task_type resource now ≡ ok grant
      → approved digests e grant approval_id task_type resource ≡ m
      → (execute_approved digests e grant m receipt).1 ≡ ok r
      → IsAuthorized e grant_id task_type resource now approval_id
  unfolding execute_approved approved
  approved_step e grant_id task_type resource now approval_id grant receipt (err x) r in_scope found
        done =
      absurd (cc)
  approved_step e grant_id task_type resource now approval_id grant receipt (ok u) r in_scope found
        done =
      authorized e grant_id task_type resource now approval_id grant
        (tenant_of digests e grant.grantor) in_scope refl found

  scoped_step :
      (e : DelegationEngine V) (grant_id task_type resource : String) (now : ℕ)
      (approval_id : String) (result : V) (m : Result DelegationError DelegationGrant)
      (r : DelegationReceipt)
      → scoped_grant digests e grant_id task_type resource now ≡ m
      → (execute_scoped digests e m task_type resource now approval_id result).1 ≡ ok r
      → IsAuthorized e grant_id task_type resource now approval_id
  unfolding execute_scoped
  scoped_step e grant_id task_type resource now approval_id result (err x) r in_scope done =
      absurd (cc)
  scoped_step e grant_id task_type resource now approval_id result (ok grant) r in_scope done =
      approved_step e grant_id task_type resource now approval_id grant _
        (approved digests e grant approval_id task_type resource) r in_scope refl done

  -- A delegated task is executed only under a registered grant that covers the task and the
  -- resource at this time, and with an approved request for just this grant, task, resource and
  -- approval in the grantor's queue.
  pub execute-IsAuthorized :
      (e : DelegationEngine V) (grant_id task_type resource : String) (now : ℕ)
      (approval_id : String) (result : V) (r : DelegationReceipt)
      → (execute digests e grant_id task_type resource now approval_id result).1 ≡ ok r
      → IsAuthorized e grant_id task_type resource now approval_id
  unfolding execute
  execute-IsAuthorized e grant_id task_type resource now approval_id result r done =
      scoped_step e grant_id task_type resource now approval_id result
        (scoped_grant digests e grant_id task_type resource now) r refl done
