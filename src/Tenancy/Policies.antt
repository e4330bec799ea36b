-- ===== src/Tenancy/Policies.antt =====
-- residual/tenancy/policies.py: a tenant's policy against the floors of the platform. Thresholds
-- are natural numbers of a smallest unit, sets are lists.
use residual_agent_harness.Prelude.{
  ℕ, String, Bool, not, List, all, any, contains, is_empty, leb, string_eq, ◌==◌, select,
}
use residual_agent_harness.Prelude.Result.{Result, ok, guard, ◌>>◌}
use residual_agent_harness.Core.Identifier.{is_identifier}

pub record PlatformFloors : Type 0 where
  pub brake_floor : ℕ
  pub verification_minimum : ℕ
  pub default_quarantine : List String

pub record TenantPolicy : Type 0 where
  pub tenant_id : String
  pub brake_threshold : ℕ
  pub verification_level : ℕ
  pub quarantine_policies : List String
  pub module_allowlist : List String
  pub module_denylist : List String

-- The last one carries the policies that are missing.
pub data PolicyError : Type 0 where
  invalid_identifier invalid_brake invalid_level empty_entry allowed_and_denied : PolicyError
  brake_loosened level_below_minimum : PolicyError
  quarantine_dropped : List String → PolicyError

named : List String → Bool
named entries = all (λ p. not (p == "")) entries

-- `PlatformFloors.__post_init__`
unfoldable pub check_floors : PlatformFloors → Result PolicyError (Unit {0})
unfolding named
check_floors f = do
  guard (leb 1 f.brake_floor) invalid_brake
  guard (leb 1 f.verification_minimum) invalid_level
  guard (named f.default_quarantine) empty_entry

-- `TenantPolicy.__post_init__`
unfoldable pub check_policy : TenantPolicy → Result PolicyError (Unit {0})
unfolding named
check_policy p = do
  guard (is_identifier p.tenant_id) invalid_identifier
  guard (leb 1 p.brake_threshold) invalid_brake
  guard (leb 1 p.verification_level) invalid_level
  guard (named p.quarantine_policies) empty_entry
  guard (named p.module_allowlist) empty_entry
  guard (named p.module_denylist) empty_entry
  guard (not (any (λ m. contains m p.module_denylist) p.module_allowlist)) allowed_and_denied

unfoldable pub missing : TenantPolicy → PlatformFloors → List String
missing policy floors =
    select (λ q. not (contains q policy.quarantine_policies)) floors.default_quarantine

unfoldable pub validate_policy : TenantPolicy → PlatformFloors → Result PolicyError TenantPolicy
unfolding missing
validate_policy policy floors = do
  guard (leb policy.brake_threshold floors.brake_floor) brake_loosened
  guard (leb floors.verification_minimum policy.verification_level) level_below_minimum
  guard (is_empty (missing policy floors)) (quarantine_dropped (missing policy floors))
  ok policy
