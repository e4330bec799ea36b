-- ===== src/Tenancy/Recording.antt =====
-- What the receipt of an execution does to the engine.
use residual_agent_harness.Prelude.{
  ℕ, ◌≡◌, refl, String, Bool, true, false, Option, none, some, arith, find, string_eq, ◌==◌, ==_iff,
  if◌then◌else◌,
}
use residual_agent_harness.Prelude.Dict.{lookup, lookup-insert}
use residual_agent_harness.Prelude.Result.{ok}
use residual_agent_harness.Tenancy.{
  DelegationReceipt, delegation, HitlRequest, Tenant, Digests, append_receipt,
}
use residual_agent_harness.Tenancy.Delegation.{
  DelegationGrant, DelegationEngine, is_known, permits, is_request, approved_by, approved_in,
  approved, scoped, scoped_grant, tenant_of, tenant_at, with_state, receipt_to, append_to,
  record_execution,
}

module _ {V : Type 0} (digests : Digests V) where
  -- The tenant with the receipt at the end of its chain.
  unfoldable pub received : DelegationReceipt → Option (Tenant V) → Option (Tenant V)
  received r none = none
  received r (some t) =
      some (record t { state = append_receipt digests t.state (delegation (digests.receipt r) r) })

  receipt_to-lookup :
      (e : DelegationEngine V) (r : DelegationReceipt) (m : Option (Tenant V)) (k n : String)
      → lookup k e.tenants ≡ m
      → lookup n (receipt_to digests e r m k).tenants
        ≡ (if k == n then received r m else lookup n e.tenants)
  unfolding receipt_to received with_state
  receipt_to-lookup e r none k n there = ground (arith, ==_iff k n)
  receipt_to-lookup e r (some t) k n there =
      lookup-insert k n
        (record t { state = append_receipt digests t.state (delegation (digests.receipt r) r) })
        e.tenants

  pub append_to-lookup :
      (e : DelegationEngine V) (r : DelegationReceipt) (k n : String)
      → lookup n (append_to digests e r k).tenants
        ≡ (if k == n then received r (lookup k e.tenants) else lookup n e.tenants)
  unfolding append_to
  append_to-lookup e r k n = receipt_to-lookup e r (lookup k e.tenants) k n refl

  pub receipt_to-grants :
      (e : DelegationEngine V) (r : DelegationReceipt) (m : Option (Tenant V)) (k : String)
      → (receipt_to digests e r m k).grants ≡ e.grants
  unfolding receipt_to with_state
  receipt_to-grants e r none k = refl
  receipt_to-grants e r (some t) k = refl

  pub scoped_grant-ok :
      (e : DelegationEngine V) (grant_id task_type resource : String) (now : ℕ)
      (grant : DelegationGrant)
      → lookup grant_id e.grants ≡ some grant
      → permits grant task_type resource now ≡ true
      → scoped_grant digests e grant_id task_type resource now ≡ ok grant
  unfolding scoped_grant scoped permits
  scoped_grant-ok e grant_id task_type resource now grant there permitted = rw there (ground arith)

  pub approved-ok :
      (e : DelegationEngine V) (grant : DelegationGrant) (approval_id task_type resource : String)
      (t : Tenant V) (q : HitlRequest)
      → lookup grant.grantor e.tenants ≡ some t
      → find (is_request grant.id approval_id task_type resource) t.state.hitl_queue ≡ some q
      → q.approved ≡ true
      → approved digests e grant approval_id task_type resource ≡ ok tt
  unfolding approved approved_in approved_by tenant_of tenant_at
  approved-ok e grant approval_id task_type resource t q there found yes' =
      rw (there, found, yes') refl

  still_known :
      (c : Bool) (r : DelegationReceipt) (m n : Option (Tenant V))
      → is_known m ≡ true
      → is_known n ≡ true
      → is_known (if c then received r m else n) ≡ true
  unfolding received
  still_known true r none n h k = h
  still_known true r (some t) n h k = refl
  still_known false r m n h k = k

  -- The engine behind an execution.
  abbrev pub recorded :
      DelegationEngine V → DelegationGrant → DelegationReceipt → DelegationEngine V
  recorded e grant r = append_to digests (append_to digests e r grant.grantor) r grant.grantee

  pub record_execution-ok :
      (e : DelegationEngine V) (grant : DelegationGrant) (r : DelegationReceipt) (t b : Tenant V)
      → lookup grant.grantor e.tenants ≡ some t
      → lookup grant.grantee e.tenants ≡ some b
      → record_execution digests e grant r ≡ (recorded e grant r, ok r)
  unfolding record_execution
  record_execution-ok e grant r t b here there =
      let known : is_known (lookup grant.grantee (append_to digests e r grant.grantor).tenants)
          ≡ true =
        rw (append_to-lookup e r grant.grantor grant.grantee) (
          still_known (grant.grantor == grant.grantee) r (lookup grant.grantor e.tenants)
            (lookup grant.grantee e.tenants) (rw here refl) (rw there refl)) in
      rw known refl
