-- ===== src/Engine/Tests.antt =====
-- A run of two obligations at a remote expert that answers 7, the second behind the first.
use residual_agent_harness.Prelude.{
  ℕ, suc, ◌≤◌, ◌≡◌, refl, true, false, none, some, List, [], ◌∷◌, arith, All, all, length, nat_eq,
  string_eq, ◌==◌, select, contains, find, if◌then◌else◌,
}
use residual_agent_harness.Prelude.Dict.{lookup, insert}
use residual_agent_harness.Prelude.Result.{ok, err}
use residual_agent_harness.Core.Obligation.{Obligation}
use residual_agent_harness.Core.Task.Cloud.{cloud_allowed}
use residual_agent_harness.Core.Context.{pass, fail}
use residual_agent_harness.Engine.{residual, replied, returned, Host, Harness, Run}
use residual_agent_harness.Engine.Intervals.{Interval, IsSeparated, covers, merge, covers-merge}
use residual_agent_harness.Engine.Rounds.{is_registered, run, start}
use residual_agent_harness.Engine.Accept.{accept, failure, record_accepted}
use residual_agent_harness.Engine.Packets.{packet, unique, present}
use residual_agent_harness.Engine.Work.{
  open_ids, fail_private, is_blocked, parse, failures, requests, updates,
}
use residual_agent_harness.Engine.Steps.{view, IsPublic, Steps}
use residual_agent_harness.Engine.Steps.Runs.{new_view, run-Steps}
use residual_agent_harness.Engine.Steps.Invariants.{
  total_bytes, total_expert, run-limits, run-private,
}
use residual_agent_harness.Engine.Steps.Verified.{IsVouched, run-verified}

abbrev first : Obligation
first = record {
  id = "a";
  instruction = "do";
  check = "unit";
  evidence = "e" ∷ [];
  depends_on = [];
  parameters = "{}";
  solver = none;
  cloud = true;
}

abbrev second : Obligation
second = record first { id = "b"; depends_on = "a" ∷ [] }

abbrev harness : Harness ℕ ℕ
harness = record {
  task = record {
    id = "t";
    goal = "g";
    artifacts = ("e", record { id = "e"; text = "x"; cloud = true }) ∷ [];
    obligations = first ∷ second ∷ [];
    structure = none;
  };
  limits = record {
    local_rounds = 1;
    expert_rounds = 1;
    max_calls = 4;
    max_expert_calls = 2;
    max_remote_input_bytes = 100;
    max_request_bytes = 50;
    max_output_tokens = 10;
    max_requested_lines = 5;
    seed_lines = 1;
    max_structural_nodes = 1;
  };
  mode = residual;
  has_cache = false;
  local = none;
  expert = some (record {
    name = "far";
    is_remote = true;
    wire_size = λ p n. 20;
    generate = λ p n w. (
      replied (record {
        text = elim p.obligations [ [] ↦ "" | o ∷ os ↦ o.id ];
        usage = record { input_tokens = none; output_tokens = none; is_reported = false };
        finish_reason = none;
      }),
      suc w,
    );
    cost = none;
  });
}

abbrev host : Host ℕ ℕ
host = record {
  revision = λ c. some "1";
  identity = λ c. none;
  check = λ c v k.
      returned (record { status = if v == 7 then pass else fail; code = ""; message = "" });
  has_solver = λ n. false;
  solve = λ n c. none;
  cache_get = λ k w. none;
  cache_put = λ k v w. w;
  copy = λ v. some v;
  read_response = λ text.
      some (record { updates = if text == "nothing" then [] else (text, 7) ∷ []; requests = [] });
  split_lines = λ t. t ∷ [];
  join_lines = λ ls. "x";
  byte_size = λ t. 1;
  sha256 = λ t. t;
  value_digest = λ v. "v";
  key_digest = λ m. m.task_id;
  binding_digest = λ b. b.task_id;
  receipt_digest = λ r. r.binding;
  station_digest = λ r. r.cache_key;
  identity_digest = λ i r. i.check_type;
}

-- The state that a run ends with.
abbrev ended : Run ℕ ℕ
ended = elim (run host harness 0) [ ok s ↦ s | err e ↦ start host harness 0 ]

ended-is : run host harness 0 ≡ ok ended
unfolding run all select lookup contains open_ids cloud_allowed find fail_private is_blocked parse
    failures failure requests updates packet unique present accept insert record_accepted
ended-is = refl

ended-calls : length ended.calls ≡ 2
unfolding run all select lookup contains open_ids cloud_allowed find fail_private is_blocked parse
    failures failure requests updates packet unique present accept insert record_accepted
ended-calls = refl

ended-accepted : lookup "b" ended.accepted ≡ some 7
unfolding run all select lookup contains open_ids cloud_allowed find fail_private is_blocked parse
    failures failure requests updates packet unique present accept insert record_accepted
ended-accepted = refl

run-Steps_example :
    (s : Run ℕ ℕ) × (run host harness 0 ≡ ok s) × Steps host harness new_view (view s)
unfolding is_registered all
run-Steps_example = run-Steps host harness 0 refl

run-limits_example :
    (length ended.calls ≤ 4)
    × (total_bytes host harness ended.calls ≤ 100)
    × (total_expert host harness ended.calls ≤ 2)
run-limits_example = run-limits host harness 0 ended ended-is

run-private_example : All (λ c. c.is_remote ≡ true → IsPublic harness.task c.packet) ended.calls
run-private_example = run-private host harness 0 ended ended-is

run-verified_example : IsVouched host harness ended.accepted "b" 7
run-verified_example = run-verified host harness 0 ended ended-is "b" 7 ended-accepted

abbrev supplied_lines : List Interval
supplied_lines = (4, 6) ∷ (1, 2) ∷ (7, 9) ∷ []

covers-merge_example :
    ((n : ℕ) → covers (merge supplied_lines) n ≡ covers supplied_lines n)
    × IsSeparated (merge supplied_lines)
covers-merge_example = covers-merge supplied_lines (omega arith, (omega arith, (omega arith, tt)))
