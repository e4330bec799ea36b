-- ===== src/Tenancy/Execution.antt =====
-- What an execution leaves, and that its approval can be used again.
use residual_agent_harness.Prelude.{
  ℕ, List, [], ◌∷◌, map, All, ◌≡◌, refl, sym, ◌∙◌, String, true, false, some, arith, string_eq,
  ◌==◌, ==_refl, ==_sym,
}
use residual_agent_harness.Prelude.Dict.{lookup}
use residual_agent_harness.Prelude.Result.{Result, ok}
use residual_agent_harness.Tenancy.{DelegationReceipt, delegation, Tenant, Digests, append_receipt}
use residual_agent_harness.Tenancy.Approval.{IsAuthorized}
use residual_agent_harness.Tenancy.Delegation.{
  DelegationError, DelegationGrant, DelegationEngine, permits, append_to, receipt_of,
  execute_approved, execute_scoped, execute,
}
use residual_agent_harness.Tenancy.Recording.{
  received, append_to-lookup, receipt_to-grants, scoped_grant-ok, approved-ok, recorded,
  record_execution-ok,
}

module _ {V : Type 0} (digests : Digests V) where
  execute-authorized :
      (e : DelegationEngine V) (grant_id task_type resource : String) (now : ℕ)
      (approval_id : String) (result : V)
      (a : IsAuthorized digests e grant_id task_type resource now approval_id) (b : Tenant V)
      → lookup a.grant.grantee e.tenants ≡ some b
      → execute digests e grant_id task_type resource now approval_id result ≡ (
          let r = receipt_of digests a.grant task_type resource now approval_id result in
          (recorded digests e a.grant r, ok r))
  unfolding execute execute_scoped execute_approved
  execute-authorized e grant_id task_type resource now approval_id result a b there =
      let r = receipt_of digests a.grant task_type resource now approval_id result in
      rw
        (scoped_grant-ok digests e grant_id task_type resource now a.grant a.registered a.permitted)
        (rw
          (approved-ok digests e a.grant approval_id task_type resource a.grantor a.request
            a.is_grantor a.requested a.is_approved)
          (record_execution-ok digests e a.grant r a.grantor b a.is_grantor there))

  recorded-lookup :
      (e : DelegationEngine V) (grant : DelegationGrant) (r : DelegationReceipt)
      → (grant.grantor == grant.grantee) ≡ false
      → (lookup grant.grantor (recorded digests e grant r).tenants
          ≡ received digests r (lookup grant.grantor e.tenants))
        × (lookup grant.grantee (recorded digests e grant r).tenants
            ≡ received digests r (lookup grant.grantee e.tenants))
  recorded-lookup e grant r apart =
      let e' = append_to digests e r grant.grantor in
      (
        ground (
          arith,
          append_to-lookup digests e' r grant.grantee grant.grantor,
          append_to-lookup digests e r grant.grantor grant.grantor,
          ==_sym grant.grantor grant.grantee,
          ==_refl grant.grantor,
        ),
        ground (
          arith,
          append_to-lookup digests e' r grant.grantee grant.grantee,
          append_to-lookup digests e r grant.grantor grant.grantee,
          ==_refl grant.grantee,
        ),
      )

  -- Where the grant, the approval and both tenants are there and the tenants differ, the execution
  -- gives its receipt, and leaves it at the end of the chains of both tenants.
  pub execute-received :
      (e : DelegationEngine V) (grant_id task_type resource : String) (now : ℕ)
      (approval_id : String) (result : V)
      (a : IsAuthorized digests e grant_id task_type resource now approval_id) (b : Tenant V)
      → lookup a.grant.grantee e.tenants ≡ some b
      → (a.grant.grantor == a.grant.grantee) ≡ false
      → (let r = receipt_of digests a.grant task_type resource now approval_id result in
          let after = execute digests e grant_id task_type resource now approval_id result in
          (after.1 ≡ ok r)
          × (lookup a.grant.grantor after.0.tenants ≡ received digests r (some a.grantor))
          × (lookup a.grant.grantee after.0.tenants ≡ received digests r (some b)))
  execute-received e grant_id task_type resource now approval_id result a b there apart =
      let r = receipt_of digests a.grant task_type resource now approval_id result in
      let (first, second) = recorded-lookup e a.grant r apart in
      rw (execute-authorized e grant_id task_type resource now approval_id result a b there)
        (refl, (rw (sym a.is_grantor) first), (rw (sym there) second))

  recorded-grants :
      (e : DelegationEngine V) (grant : DelegationGrant) (r : DelegationReceipt)
      → (recorded digests e grant r).grants ≡ e.grants
  unfolding append_to
  recorded-grants e grant r =
      let e' = append_to digests e r grant.grantor in
      receipt_to-grants digests e' r (lookup grant.grantee e'.tenants) grant.grantee
      ∙ receipt_to-grants digests e r (lookup grant.grantor e.tenants) grant.grantor

  -- The approval stands after the execution as before it.
  recorded-IsAuthorized :
      (e : DelegationEngine V) (grant_id task_type resource : String) (now later : ℕ)
      (approval_id : String) (r : DelegationReceipt)
      (a : IsAuthorized digests e grant_id task_type resource now approval_id)
      → (a.grant.grantor == a.grant.grantee) ≡ false
      → permits a.grant task_type resource later ≡ true
      → IsAuthorized digests
          (recorded digests e a.grant r)
          grant_id
          task_type
          resource
          later
          approval_id
  unfolding received append_receipt
  recorded-IsAuthorized e grant_id task_type resource now later approval_id r a apart permitted =
      record {
        grant = a.grant;
        registered = rw (recorded-grants e a.grant r) a.registered;
        permitted = permitted;
        grantor = record a.grantor {
          state = append_receipt digests a.grantor.state (delegation (digests.receipt r) r);
        };
        is_grantor = (recorded-lookup e a.grant r apart).0 ∙ rw a.is_grantor refl;
        request = a.request;
        requested = a.requested;
        is_approved = a.is_approved;
      }

  -- Executions one after the other with one grant, task and approval, each at its time and with
  -- its result, and their answers.
  unfoldable pub execute_all :
      DelegationEngine V
      → String
      → String
      → String
      → String
      → List (ℕ × V)
      → List (Result DelegationError DelegationReceipt)
  execute_all e grant_id task_type resource approval_id [] = []
  execute_all e grant_id task_type resource approval_id ((now, result) ∷ calls) =
      let (e', answer) = execute digests e grant_id task_type resource now approval_id result in
      answer ∷ execute_all e' grant_id task_type resource approval_id calls

  -- One approval is enough for any number of executions: wherever a first one is authorized and
  -- grantor and grantee are two known tenants, the task is executed again and again with the
  -- same approval, each time with any result and at any time that the grant covers, and every
  -- call gives its receipt.
  pub execute-replayed :
      (calls : List (ℕ × V)) (e : DelegationEngine V) (grant_id task_type resource : String)
      (now : ℕ) (approval_id : String)
      (a : IsAuthorized digests e grant_id task_type resource now approval_id) (b : Tenant V)
      → lookup a.grant.grantee e.tenants ≡ some b
      → (a.grant.grantor == a.grant.grantee) ≡ false
      → All (λ call. permits a.grant task_type resource call.0 ≡ true) calls
      → execute_all e grant_id task_type resource approval_id calls
        ≡ map
            (λ call. ok (receipt_of digests a.grant task_type resource call.0 approval_id call.1))
            calls
  unfolding execute_all received recorded-IsAuthorized
  execute-replayed [] e grant_id task_type resource now approval_id a b there apart permitted = refl
  execute-replayed ((at, result) ∷ calls) e grant_id task_type resource now approval_id a b there
        apart permitted =
      let here : IsAuthorized digests e grant_id task_type resource at approval_id = record {
        grant = a.grant;
        registered = a.registered;
        permitted = permitted.0;
        grantor = a.grantor;
        is_grantor = a.is_grantor;
        request = a.request;
        requested = a.requested;
        is_approved = a.is_approved;
      } in
      let r = receipt_of digests a.grant task_type resource at approval_id result in
      let again =
        recorded-IsAuthorized e grant_id task_type resource at at approval_id r here apart
          permitted.0 in
      let left : lookup a.grant.grantee (recorded digests e a.grant r).tenants
          ≡ received digests r (some b) =
        (recorded-lookup e a.grant r apart).1 ∙ rw there refl in
      rw
        (
          execute-authorized e grant_id task_type resource at approval_id result here b there,
          execute-replayed calls (recorded digests e a.grant r) grant_id task_type resource at
              approval_id again _ left apart permitted.1,
        )
        refl
