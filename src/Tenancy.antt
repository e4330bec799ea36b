-- ===== src/Tenancy.antt =====
-- residual/tenancy/tenant.py: tenants and the state that each has to itself. JSON values are a
-- parameter `V`; of a receipt that is not a delegation's, the model knows its hash.
pub mod Delegation
pub mod Approval
pub mod Recording
pub mod Execution
pub mod Lifecycle
pub mod Deletion
pub mod Scheduler
pub mod Policies
pub mod Isolation
mod Tests
use residual_agent_harness.Prelude.{
  ℕ, zero, suc, String, Bool, true, false, not, ◌&&◌, Option, none, some, List, [], ◌∷◌, ◌++◌, map,
  leb, length,
}
use residual_agent_harness.Prelude.Dict.{Dict, lookup, insert}
use residual_agent_harness.Prelude.Result.{Result, ok, err, guard, ◌>>=◌, ◌>>◌}
use residual_agent_harness.Core.Identifier.{is_identifier}

pub record DelegationReceipt : Type 0 where
  pub grant_id : String
  pub task_type : String
  pub resource : String
  pub executed_at : ℕ
  pub approval_id : String
  pub result_digest : String

-- `to_dict()` of a delegation's receipt with its hash, or another mapping.
pub data Receipt (V : Type 0) : Type 0 where
  delegation : String → DelegationReceipt → Receipt V
  other : Option String → V → Receipt V

-- r.get("receipt_hash")
abbrev pub receipt_hash : {V : Type 0} → Receipt V → Option String
receipt_hash (delegation hash r) = some hash
receipt_hash (other hash v) = hash

-- An entry of the receipt chain.
pub record Entry (V : Type 0) : Type 0 where
  pub receipt : Receipt V
  pub sequence : ℕ
  pub chain_digest : String

-- What `_approved` reads of a request, each entry absent where it is not there.
pub record HitlRequest : Type 0 where
  pub kind : Option String
  pub approval_id : Option String
  pub grant_id : Option String
  pub grantee : Option String
  pub task_type : Option String
  pub resource : Option String
  pub approved : Bool

pub record TenantState (V : Type 0) : Type 0 where
  pub goalspec_registry : Dict V
  pub module_registry : Dict V
  pub receipt_chain : List (Entry V)
  pub observation_log : List V
  pub hitl_queue : List HitlRequest
  pub quarantine_policies : List String
  pub brake_config : Dict V

pub record Tenant (V : Type 0) : Type 0 where
  pub id : String
  pub quota : ℕ
  pub state : TenantState V

-- The digests of core.py, by what they are taken of.
pub record Digests (V : Type 0) : Type 0 where
  pub chain : List (Option String) → Receipt V → String
  pub approval : String → String → String → ℕ → ℕ → String
  pub receipt : DelegationReceipt → String
  pub value : V → String
  pub hashes : List (Option String) → String
  pub observations : List V → String
  pub deletion : String → ℕ → ℕ → String → String → String

pub data TenantError : Type 0 where
  invalid_identifier invalid_quota duplicate_goalspec duplicate_module : TenantError

abbrev pub empty_state : {V : Type 0} → TenantState V
empty_state = record {
  goalspec_registry = [];
  module_registry = [];
  receipt_chain = [];
  observation_log = [];
  hitl_queue = [];
  quarantine_policies = [];
  brake_config = [];
}

module _ {V : Type 0} where
  unfoldable pub append_receipt : Digests V → TenantState V → Receipt V → TenantState V
  append_receipt digests s receipt = record s {
    receipt_chain =
        s.receipt_chain
        ++ (record {
          receipt = receipt;
          sequence = length s.receipt_chain;
          chain_digest = digests.chain (map (λ e. receipt_hash e.receipt) s.receipt_chain) receipt;
        })
          ∷ [];
  }

  unfoldable pub append_observation : TenantState V → V → TenantState V
  append_observation s observation = record s {
    observation_log = s.observation_log ++ observation ∷ [];
  }

  unfoldable pub enqueue_hitl : TenantState V → HitlRequest → TenantState V
  enqueue_hitl s request = record s { hitl_queue = s.hitl_queue ++ request ∷ [] }

  -- `Tenant(id, quota)`
  unfoldable pub new_tenant : String → ℕ → Result TenantError (Tenant V)
  new_tenant id quota = do
    guard (is_identifier id) invalid_identifier
    guard (leb 1 quota) invalid_quota
    ok (record { id = id; quota = quota; state = empty_state })

  is_free : Dict V → String → Bool
  is_free d k = elim (lookup k d) [ none ↦ true | some v ↦ false ]

  unfoldable pub register_goalspec : TenantState V → String → V → Result TenantError (TenantState V)
  unfolding is_free
  register_goalspec s spec_id spec = do
    guard (is_identifier spec_id) invalid_identifier
    guard (is_free s.goalspec_registry spec_id) duplicate_goalspec
    ok (record s { goalspec_registry = insert spec_id spec s.goalspec_registry })

  unfoldable pub register_module : TenantState V → String → V → Result TenantError (TenantState V)
  unfolding is_free
  register_module s module_id module' = do
    guard (is_identifier module_id) invalid_identifier
    guard (is_free s.module_registry module_id) duplicate_module
    ok (record s { module_registry = insert module_id module' s.module_registry })
