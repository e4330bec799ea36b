-- ===== src/Tenancy/Lifecycle.antt =====
-- residual/tenancy/lifecycle.py: the creation and the deletion of tenants.
use residual_agent_harness.Prelude.{
  ℕ, String, Bool, true, false, Option, none, some, List, [], ◌∷◌, map, length,
}
use residual_agent_harness.Prelude.Dict.{Dict, lookup, insert, remove}
use residual_agent_harness.Prelude.Result.{Result, ok, err, guard, ◌>>◌}
use residual_agent_harness.Core.Identifier.{is_identifier}
use residual_agent_harness.Tenancy.{Entry, receipt_hash, Tenant, TenantError, Digests, new_tenant}

pub record PlatformOperator : Type 0 where
  pub id : String
  pub platform_admin : Bool

-- The mapping `deletion_receipt`.
pub record DeletionReceipt : Type 0 where
  pub tenant_id : String
  pub receipt_count : ℕ
  pub observation_count : ℕ
  pub receipts_digest : String
  pub observations_digest : String
  pub receipt_hash : String

pub record DeletionRecord (V : Type 0) : Type 0 where
  pub tenant_id : String
  pub archived_receipts : List (Entry V)
  pub archived_observations : List V
  pub deletion_receipt : DeletionReceipt

pub record TenantLifecycle (V : Type 0) : Type 0 where
  pub tenants : Dict (Tenant V)
  pub archives : Dict (DeletionRecord V)

pub data LifecycleError : Type 0 where
  not_privileged invalid_identifier tenant_exists was_deleted unknown_tenant : LifecycleError
  invalid_tenant : TenantError → LifecycleError

-- `_require_platform_admin`
abbrev pub require_platform_admin : PlatformOperator → Result LifecycleError (Unit {0})
require_platform_admin operator = guard operator.platform_admin not_privileged

abbrev pub is_absent {ℓ} : {A : Type ℓ} → Option A → Bool
is_absent none = true
is_absent (some a) = false

module _ {V : Type 0} (digests : Digests V) where
  unfoldable pub created :
      TenantLifecycle V
      → String
      → Result TenantError (Tenant V)
      → Result LifecycleError (TenantLifecycle V)
  created l tenant_id (err e) = err (invalid_tenant e)
  created l tenant_id (ok t) = ok (record l { tenants = insert tenant_id t l.tenants })

  unfoldable pub create_tenant :
      TenantLifecycle V → PlatformOperator → String → ℕ → Result LifecycleError (TenantLifecycle V)
  unfolding created
  create_tenant l operator tenant_id quota = do
    require_platform_admin operator
    guard (is_identifier tenant_id) invalid_identifier
    guard (is_absent (lookup tenant_id l.tenants)) tenant_exists
    guard (is_absent (lookup tenant_id l.archives)) was_deleted
    created l tenant_id (new_tenant tenant_id quota)

  unfoldable pub deletion_receipt : String → Tenant V → DeletionReceipt
  deletion_receipt tenant_id t =
      let receipts = digests.hashes (map (λ e. receipt_hash e.receipt) t.state.receipt_chain) in
      let observations = digests.observations t.state.observation_log in
      let n = length t.state.receipt_chain in
      let k = length t.state.observation_log in
      record {
        tenant_id = tenant_id;
        receipt_count = n;
        observation_count = k;
        receipts_digest = receipts;
        observations_digest = observations;
        receipt_hash = digests.deletion tenant_id n k receipts observations;
      }

  unfoldable pub archive_of : String → Tenant V → DeletionRecord V
  unfolding deletion_receipt
  archive_of tenant_id t = record {
    tenant_id = tenant_id;
    archived_receipts = t.state.receipt_chain;
    archived_observations = t.state.observation_log;
    deletion_receipt = deletion_receipt tenant_id t;
  }

  -- The tenant's state is cleared; the model has it no more.
  unfoldable pub deleted :
      TenantLifecycle V → String → Option (Tenant V) → Result LifecycleError (TenantLifecycle V)
  unfolding archive_of
  deleted l tenant_id none = err unknown_tenant
  deleted l tenant_id (some t) = ok (record l {
    tenants = remove tenant_id l.tenants;
    archives = insert tenant_id (archive_of tenant_id t) l.archives;
  })

  unfoldable pub delete_tenant :
      TenantLifecycle V → PlatformOperator → String → Result LifecycleError (TenantLifecycle V)
  unfolding deleted
  delete_tenant l operator tenant_id = do
    require_platform_admin operator
    guard (is_identifier tenant_id) invalid_identifier
    deleted l tenant_id (lookup tenant_id l.tenants)

-- The calls of the two operations, and what any sequence of them leaves; one that raises changes
-- nothing.
pub data Operation : Type 0 where
  create : PlatformOperator → String → ℕ → Operation
  delete : PlatformOperator → String → Operation

module _ {V : Type 0} (digests : Digests V) where
  unfoldable pub kept :
      TenantLifecycle V → Result LifecycleError (TenantLifecycle V) → TenantLifecycle V
  kept l (ok l') = l'
  kept l (err e) = l

  unfoldable pub apply : TenantLifecycle V → Operation → TenantLifecycle V
  unfolding kept
  apply l (create operator tenant_id quota) =
      kept l (create_tenant digests l operator tenant_id quota)
  apply l (delete operator tenant_id) = kept l (delete_tenant digests l operator tenant_id)

  unfoldable pub apply_all : TenantLifecycle V → List Operation → TenantLifecycle V
  unfolding apply
  apply_all l [] = l
  apply_all l (o ∷ os) = apply_all (apply l o) os
