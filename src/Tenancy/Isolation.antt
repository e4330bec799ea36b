-- ===== src/Tenancy/Isolation.antt =====
-- residual/tenancy/isolation.py: the records of tenants, and who may read and write them.
pub mod Flow
mod Tests
use residual_agent_harness.Prelude.{
  String, Bool, true, false, not, ◌&&◌, Option, none, some, List, [], ◌∷◌, ◌++◌, all, any, contains,
  is_empty, string_eq, ◌==◌, if◌then◌else◌,
}
use residual_agent_harness.Prelude.Dict.{Dict, lookup, insert}
use residual_agent_harness.Prelude.Result.{Result, ok, err, guard, ◌>>=◌, ◌>>◌}
use residual_agent_harness.Core.Identifier.{is_identifier}

pub record Principal : Type 0 where
  pub tenant_id : String
  pub admin : Bool

pub record FederationAgreement : Type 0 where
  pub grantor : String
  pub grantee : String
  pub resources : List String
  pub bilateral : Bool

pub data IsolationError : Type 0 where
  invalid_identifier one_tenant no_resources not_bilateral : IsolationError
  write_denied access_denied query_denied no_record : IsolationError

-- `Principal.__post_init__` and `FederationAgreement.__post_init__`
unfoldable pub check_principal : Principal → Result IsolationError (Unit {0})
check_principal p = guard (is_identifier p.tenant_id) invalid_identifier

unfoldable pub check_agreement : FederationAgreement → Result IsolationError (Unit {0})
check_agreement a = do
  guard (is_identifier a.grantor) invalid_identifier
  guard (is_identifier a.grantee) invalid_identifier
  guard (not (a.grantor == a.grantee)) one_tenant
  guard (not (is_empty a.resources) && all (λ r. not (r == "")) a.resources) no_resources
  guard a.bilateral not_bilateral

unfoldable pub covers : FederationAgreement → String → String → String → Bool
covers a grantor grantee resource =
    a.grantor == grantor && a.grantee == grantee && contains resource a.resources

pub record TenantStore (V : Type 0) : Type 0 where
  pub data' : Dict (Dict V)
  pub agreements : List FederationAgreement

module _ {V : Type 0} where
  unfoldable pub add_federation : TenantStore V → FederationAgreement → TenantStore V
  add_federation s a = record s { agreements = s.agreements ++ a ∷ [] }

  -- `_authorize`
  unfoldable pub authorize :
      TenantStore V → Principal → String → String → Bool → Result IsolationError (Unit {0})
  authorize s p owner key write =
      if not (is_identifier owner)
      then err invalid_identifier
      else if p.tenant_id == owner
      then ok tt
      else if write
      then err write_denied
      else if any (λ a. covers a owner p.tenant_id key) s.agreements
      then ok tt
      else err access_denied

  -- self._data.get(owner, {})
  unfoldable pub records_at : Option (Dict V) → Dict V
  records_at none = []
  records_at (some d) = d

  unfoldable pub records_of : TenantStore V → String → Dict V
  unfolding records_at
  records_of s owner = records_at (lookup owner s.data')

  unfoldable pub put :
      TenantStore V → Principal → String → String → V → Result IsolationError (TenantStore V)
  unfolding authorize
  put s p owner key value = do
    authorize s p owner key true
    ok (record s { data' = insert owner (insert key value (records_of s owner)) s.data' })

  unfoldable pub found : Option V → Result IsolationError V
  found none = err no_record
  found (some v) = ok v

  unfoldable pub get : TenantStore V → Principal → String → String → Result IsolationError V
  unfolding authorize found
  get s p owner key = do authorize s p owner key false; found (lookup key (records_of s owner))

  unfoldable pub query : TenantStore V → Principal → String → Result IsolationError (Dict V)
  query s p owner = do
    guard (is_identifier owner) invalid_identifier
    guard (p.tenant_id == owner) query_denied
    ok (records_of s owner)
