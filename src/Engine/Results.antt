-- ===== src/Engine/Results.antt =====
-- residual/engine.py: the result of `run`, without the times and what a structural plan adds.
use residual_agent_harness.Prelude.{
  ℕ, ◌+◌, String, Bool, false, not, ◌&&◌, Option, none, some, List, [], ◌∷◌, ◌++◌, map, any,
  contains, count, is_empty, length, select, nat_eq, string_eq, ◌==◌, if◌then◌else◌,
}
use residual_agent_harness.Prelude.Dict.{Dict, lookup}
use residual_agent_harness.Core.Obligation.{Obligation}
use residual_agent_harness.Core.Context.{is_pass}
use residual_agent_harness.Engine.{
  Failure, Usage, Call, Receipt, StationReceipt, LedgerEvent, verification, Harness, Run,
}
use residual_agent_harness.Engine.Accept.{is_there}

-- What the result says of an obligation that was not accepted.
pub data Unresolved : Type 0 where
  dependency_blocked : List String → Unresolved
  failed : Failure → Unresolved
  no_verified_candidate : Unresolved

pub data RunStatus : Type 0 where
  passed partial blocked : RunStatus

pub record Metrics : Type 0 where
  pub calls : ℕ
  pub expert_calls : ℕ
  pub remote_calls : ℕ
  pub remote_request_bytes : ℕ
  pub remote_input_tokens_reported : ℕ
  pub remote_output_tokens_reported : ℕ
  pub remote_usage_complete : Bool
  pub remote_cost_usd : Option ℕ
  pub remote_cost_known_subtotal_usd : ℕ
  pub cache_hits : ℕ
  pub deterministic_accepts : ℕ
  pub accepted_obligations : ℕ
  pub total_obligations : ℕ
  pub dependency_blocked_obligations : ℕ
  pub candidate_rejections : ℕ
  pub repeated_dispatch_calls : ℕ

pub record RunResult (V : Type 0) : Type 0 where
  pub status : RunStatus
  pub success : Bool
  pub values : Dict V
  pub unresolved : Dict Unresolved
  pub receipts : Dict Receipt
  pub station_receipts : Dict StationReceipt
  pub metrics : Metrics
  pub calls : List (Call V)

-- u["code"]
code_of : Unresolved → String
code_of (dependency_blocked missing) = "dependency_blocked"
code_of (failed f) = f.code
code_of no_verified_candidate = "no_verified_candidate"

is_rejection : LedgerEvent → Bool
is_rejection (verification id source status code) = not (is_pass status)
is_rejection event = false

sum : List ℕ → ℕ
sum [] = 0
sum (n ∷ ns) = n + sum ns

or_zero : Option ℕ → ℕ
or_zero none = 0
or_zero (some n) = n

module _ {V W : Type 0} (h : Harness V W) where
  -- The usage of a call, where the provider reported both counts.
  reported_usage : Option Usage → Option Usage
  reported_usage none = none
  reported_usage (some u) =
      if u.is_reported && is_there u.input_tokens && is_there u.output_tokens then some u else none

  reported : List (Call V) → List Usage
  unfolding reported_usage
  reported [] = []
  reported (c ∷ cs) = elim (reported_usage c.usage) [
    | none ↦ reported cs
    | some u ↦ u ∷ reported cs
  ]

  priced : List (Call V) → List ℕ
  priced [] = []
  priced (c ∷ cs) = elim c.cost [ none ↦ priced cs | some cost ↦ cost ∷ priced cs ]

  -- The calls with an obligation that was sent before.
  repeated_dispatches : List String → List (Call V) → ℕ
  repeated_dispatches dispatched [] = 0
  repeated_dispatches dispatched (c ∷ cs) =
      (if any (λ n. contains n dispatched) c.obligation_ids then 1 else 0)
      + repeated_dispatches (dispatched ++ c.obligation_ids) cs

  metrics : Run V W → Dict Unresolved → Metrics
  unfolding reported priced repeated_dispatches code_of is_rejection sum or_zero
  metrics s unresolved =
      let remote_calls = select (λ c. c.is_remote) s.calls in
      let known = reported remote_calls in
      let prices = priced remote_calls in
      record {
        calls = length s.calls;
        expert_calls = s.expert_calls;
        remote_calls = length remote_calls;
        remote_request_bytes = s.remote_bytes;
        remote_input_tokens_reported = sum (map (λ u. or_zero u.input_tokens) known);
        remote_output_tokens_reported = sum (map (λ u. or_zero u.output_tokens) known);
        remote_usage_complete = length known == length remote_calls;
        remote_cost_usd = if length prices == length remote_calls then some (sum prices) else none;
        remote_cost_known_subtotal_usd = sum prices;
        cache_hits = s.cache_hits;
        deterministic_accepts = s.deterministic_accepts;
        accepted_obligations = length s.accepted;
        total_obligations = length h.task.obligations;
        dependency_blocked_obligations =
            count (λ u. code_of u.1 == "dependency_blocked") unresolved;
        candidate_rejections = count is_rejection s.ledger;
        repeated_dispatch_calls = repeated_dispatches [] s.calls;
      }

  unresolved_of : Run V W → Obligation → Unresolved
  unresolved_of s o =
      let missing = select (λ d. not (is_there (lookup d s.accepted))) o.depends_on in
      if not (is_empty missing)
      then dependency_blocked missing
      else elim (lookup o.id s.failures) [ none ↦ no_verified_candidate | some f ↦ failed f ]

  unfoldable pub result : Run V W → RunResult V
  unfolding unresolved_of metrics
  result s =
      let left = select (λ o. not (is_there (lookup o.id s.accepted))) h.task.obligations in
      let unresolved = map (λ o. (o.id, unresolved_of s o)) left in
      record {
        status = if is_empty left then passed else if is_empty s.accepted then blocked else partial;
        success = is_empty left;
        values = s.accepted;
        unresolved = unresolved;
        receipts = s.receipts;
        station_receipts = s.station_receipts;
        metrics = metrics s unresolved;
        calls = s.calls;
      }
