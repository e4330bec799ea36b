-- ===== src/Core/Obligation.antt =====
-- residual/core.py: `Obligation`, with the canonical text of its parameters in their place.
use residual_agent_harness.Prelude.{String, Bool, Option, List}

pub record Obligation : Type 0 where
  pub id : String
  pub instruction : String
  pub check : String
  pub evidence : List String
  pub depends_on : List String
  pub parameters : String
  pub solver : Option String
  pub cloud : Bool
