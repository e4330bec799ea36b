-- ===== src/Core/Task/Tests.antt =====
-- A task of two obligations, and the same with a cycle.
use residual_agent_harness.Prelude.{
  true, count, ◌≡◌, ◌≢◌, ◌↔◌, refl, none, [], ◌∷◌, contains, distinct, all, select,
}
use residual_agent_harness.Prelude.Result.{ok, err}
use residual_agent_harness.Core.Identifier.{
  is_identifier, is_blank, matches, is_word, is_space, is_letter,
}
use residual_agent_harness.Core.Obligation.{Obligation}
use residual_agent_harness.Core.Task.{
  Artifact, Task, out_of_fuel, dependency_cycle, check_task, check_obligation, ids, is_subset,
  newly_ready, resolve,
}
use residual_agent_harness.Core.Task.Validity.{IsValid, check_task-ok_iff, check_task-in_fuel}

abbrev source : Artifact
source = record { id = "source"; text = "text"; cloud = true }

abbrev read_first : Obligation
read_first = record {
  id = "read";
  instruction = "Read it";
  check = "core:same";
  evidence = "source" ∷ [];
  depends_on = [];
  parameters = "{}";
  solver = none;
  cloud = true;
}

-- It stands before the obligation that it depends on.
abbrev sum_up : Obligation
sum_up = record read_first { id = "sum"; depends_on = "read" ∷ [] }

abbrev two_steps : Task
two_steps = record {
  id = "task";
  goal = "Sum up";
  artifacts = ("source", source) ∷ [];
  obligations = sum_up ∷ read_first ∷ [];
  structure = none;
}

abbrev circular : Task
circular = record two_steps {
  obligations = sum_up ∷ record read_first { depends_on = "sum" ∷ [] } ∷ [];
}

check_obligation-sum : check_obligation sum_up ≡ ok tt
unfolding check_obligation is_identifier matches is_word is_letter is_blank is_space all distinct
    contains count
check_obligation-sum = refl

check_task-circular : check_task circular ≡ err dependency_cycle
unfolding check_task is_identifier matches is_word is_letter is_blank is_space all distinct contains
    ids is_subset resolve newly_ready select
check_task-circular = refl

check_task-ok_iff_example : (check_task two_steps ≡ ok tt) ↔ IsValid two_steps
check_task-ok_iff_example = check_task-ok_iff two_steps

check_task-in_fuel_example : check_task circular ≢ err out_of_fuel
check_task-in_fuel_example = check_task-in_fuel circular
