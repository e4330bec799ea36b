-- ===== src/Tenancy/Isolation/Tests.antt =====
-- Tenant `a` shares the record `report` with `b`; `c` has no agreement.
use residual_agent_harness.Prelude.{
  ◌≡◌, refl, String, true, false, ◌&&◌, some, [], ◌∷◌, all, any, arith, string_eq, ◌==◌, ==_sym,
  if◌then◌else◌,
}
use residual_agent_harness.Prelude.Dict.{lookup, insert}
use residual_agent_harness.Prelude.Result.{ok}
use residual_agent_harness.Core.Identifier.{is_identifier}
use residual_agent_harness.Tenancy.Isolation.{
  Principal, FederationAgreement, covers, TenantStore, records_of, put, get, query,
}
use residual_agent_harness.Tenancy.Isolation.Flow.{IsAlikeBut, get-IsAlikeBut, put-records_of}

abbrev agreement : FederationAgreement
agreement = record { grantor = "a"; grantee = "b"; resources = "report" ∷ []; bilateral = true }

abbrev store : TenantStore String
store = record {
  data' = ("a", ("report", "r") ∷ ("secret", "s") ∷ []) ∷ ("c", []) ∷ [];
  agreements = agreement ∷ [];
}

abbrev other_store : TenantStore String
other_store = record store { data' = ("a", ("secret", "t") ∷ []) ∷ ("c", []) ∷ [] }

abbrev visitor : Principal
visitor = record { tenant_id = "c"; admin = true }

alike : IsAlikeBut "a" store other_store
unfolding records_of lookup
alike = record { agreements = refl; records = λ n apart. ground (arith, apart, ==_sym n "a") }

no_agreement : (key : String) → any (λ a. covers a "a" "c" key) store.agreements ≡ false
unfolding any covers
no_agreement key = refl

get-IsAlikeBut_example :
    (get store visitor "a" "secret" ≡ get other_store visitor "a" "secret")
    × (query store visitor "a" ≡ query other_store visitor "a")
get-IsAlikeBut_example =
    get-IsAlikeBut "a" store other_store visitor alike refl no_agreement "a" "secret"

abbrev written : TenantStore String
written = record store {
  data' = ("a", ("report", "r") ∷ ("secret", "s") ∷ []) ∷ ("c", ("note", "n") ∷ []) ∷ [];
}

is_written : put store visitor "c" "note" "n" ≡ ok written
unfolding put is_identifier all lookup insert records_of
is_written = refl

put-records_of_example :
    (visitor.tenant_id ≡ "c")
    × ((n k : String)
        → lookup k (records_of written n)
          ≡ (if "c" == n && "note" == k then some "n" else lookup k (records_of store n)))
put-records_of_example = put-records_of store written visitor "c" "note" "n" is_written
