-- ===== src/Runtime/Policy/Tests.antt =====
-- A configuration and a result whose values are texts, where "" is false.
use residual_agent_harness.Prelude.{
  ◌≡◌, ◌↔◌, String, false, not, none, some, [], ◌∷◌, All, contains, string_eq, ◌==◌, ==_sym, arith,
  if◌then◌else◌,
}
use residual_agent_harness.Prelude.Dict.{Dict, lookup}
use residual_agent_harness.Prelude.Result.{ok}
use residual_agent_harness.Runtime.Policy.{
  Objects, provider_authority_keys, switch_keys, marker, PolicyAuthority, EngineResult, has_truthy,
  sanitize_dispatch_config, decide, apply,
}
use residual_agent_harness.Runtime.Policy.Authority.{
  off_if_there, lookup-sanitize, decide-claims, apply-ok_iff,
}

abbrev texts : Objects String
texts = record { truthy = λ v. not (v == ""); no = ""; yes = "yes" }

abbrev config : Dict String
config = ("model", "m") ∷ ("yolo", "yes") ∷ ("self_approved", "yes") ∷ []

lookup-sanitize_example : lookup "yolo" (sanitize_dispatch_config texts config) ≡ (
    if "yolo" == marker
    then some texts.yes
    else if contains "yolo" provider_authority_keys
    then some texts.no
    else if contains "yolo" switch_keys
    then off_if_there texts (lookup "yolo" config)
    else lookup "yolo" config)
lookup-sanitize_example = lookup-sanitize texts "yolo" config

abbrev policy : PolicyAuthority
policy = record { deny_capabilities = "shell" ∷ []; escalate_capabilities = "net" ∷ [] }

abbrev claim : Dict String
claim = ("self_approved", "yes") ∷ []

claim_only :
    (key : String) → contains key provider_authority_keys ≡ false → lookup key claim ≡ lookup key []
unfolding lookup contains
claim_only key other = ground (arith, ==_sym "self_approved" key)

decide-claims_example :
    (decide texts policy "read" claim).verdict ≡ (decide texts policy "read" []).verdict
decide-claims_example = decide-claims texts policy "read" claim [] claim_only

abbrev result : EngineResult String
result = record {
  candidate = "c";
  tool_calls = [];
  token_usage = none;
  wall_clock_ms = 1;
  engine_trace = [];
  raw_metadata = claim;
}

apply-ok_iff_example :
    ((r' : EngineResult String) × (apply texts result ≡ ok r'))
    ↔ All (λ k. has_truthy texts claim k ≡ false) provider_authority_keys
apply-ok_iff_example = apply-ok_iff texts result
