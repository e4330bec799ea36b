-- ===== src/Dsm/Store/Tests.antt =====
-- Runs of the store, and the theorems at inputs.
use mathlib.Core.List.Perm
use mathlib.Core.List.{Perm}
use residual_agent_harness.Prelude.{
  ℕ, nat_eq, all, not, String, true, false, ◌≡◌, refl, ap, none, some, [], ◌∷◌, map, contains,
  select, find, distinct, string_eq,
}
use residual_agent_harness.Prelude.Text.{str_lt, codes}
use residual_agent_harness.Prelude.Dict.{lookup}
use residual_agent_harness.Prelude.Result.{ok, err}
use residual_agent_harness.Dsm.Errors.{crash, not_authoritative}
use residual_agent_harness.Dsm.Lease
use residual_agent_harness.Dsm.Journal
use residual_agent_harness.Dsm.Journal.{Codec, garbled, Record, genesis}
use residual_agent_harness.Dsm.Ownership.{
  registry, check_writer, terminal_transitions, terminal_states,
}
use residual_agent_harness.Dsm.Store.{
  Proposal, Event, DistributedStateStore, accepted, duplicate, Ack, required_fields,
  transition_records, find_event, transition, key_lt, winner, accepted_events, current_value,
  check_fencing, check_terminal, submit, recover,
}
use residual_agent_harness.Dsm.Store.Order.{current_value-perm}
use residual_agent_harness.Dsm.Store.Admission.{IsAdmissible, written}
use residual_agent_harness.Dsm.Store.Recovery.{
  Reachable, opened, submitted, reopened, event_ids, Reachable-distinct, recover-Reachable,
  submit_retry,
}
use residual_agent_harness.Dsm.Store.Finality
use residual_agent_harness.Dsm.Store.Finality.{Later, now, answer_to, terminal_absorbing}
use residual_agent_harness.Dsm.Store.Terminal.{deciding, terminal_not_absorbing}

program : Unit {0}
unfolding lookup contains select find distinct str_lt registry check_writer terminal_transitions
    key_lt winner required_fields transition_records find_event accepted_events current_value
    check_fencing check_terminal submit recover Journal.replay Journal.append Journal.next_record
    Journal.open_journal Journal.load Journal.links Journal.last_hash
program = tt

-- A digest that is good enough for a test.
-- A value with a line separator is no plain text.
abbrev id_of : Codec Event
id_of = record {
  digest = λ b. b.payload.event_id;
  is_plain = λ k e. not (contains 8232 (codes e.value));
  rest = λ r. garbled ∷ [];
}

abbrev terminal : String → String → Proposal
terminal id value = record {
  event_id = some id;
  domain = some "task.terminal";
  entity = some "task-1";
  value = some value;
  writer = some "orchestrator";
  writer_holder = none;
  fencing_token = none;
  now_ms = none;
}

abbrev event : String → String → Event
event id value = record {
  event_id = id;
  domain = "task.terminal";
  entity = "task-1";
  value = value;
  writer = "orchestrator";
  writer_holder = none;
  fencing_token = none;
  now_ms = none;
}

abbrev empty : DistributedStateStore
empty = reopened (record { lines = []; records = []; head = genesis }) (registry none) Lease.new

-- "b" is journaled as running.
abbrev running : DistributedStateStore
running = written id_of empty (event "b" "running") 7

abbrev receipt_of : ℕ → String → Ack
receipt_of seq hash = record { seq = seq; hash = hash; disposition = accepted }

submit-running :
    submit id_of empty (terminal "b" "running") false 7 ≡ (running, ok (receipt_of 0 "b"))
unfolding program
submit-running = refl

-- The end is acknowledged under an id below "b", and the task stays running.
submit_end_below :
    submit id_of running (terminal "a" "succeeded") false 8
    ≡ (written id_of running (event "a" "succeeded") 8, ok (receipt_of 1 "a"))
unfolding program
submit_end_below = refl

submit_end_above :
    submit id_of running (terminal "c" "succeeded") false 8
    ≡ (written id_of running (event "c" "succeeded") 8, ok (receipt_of 1 "c"))
unfolding program
submit_end_above = refl

intruder : Proposal
intruder = record (terminal "c" "failed") { writer = some "worker" }

submit-intruder : submit id_of running intruder false 8 ≡ (running, err not_authoritative)
unfolding program intruder
submit-intruder = refl

running-IsAdmissible : IsAdmissible running (event "a" "succeeded")
unfolding program
running-IsAdmissible = record { fresh = refl; owned = refl; fenced = refl; legal = refl }

empty-Reachable : Reachable id_of empty
unfolding program
empty-Reachable = opened (registry none) Lease.new refl

running-Reachable : Reachable id_of running
running-Reachable =
    submitted (terminal "b" "running") false 7 empty-Reachable (ap (λ x. x.0) submit-running)

Reachable-distinct_example : distinct (event_ids running) ≡ true
Reachable-distinct_example = Reachable-distinct id_of running-Reachable

recover-Reachable_example :
    recover id_of running.journal.lines (registry none) Lease.new
    ≡ ok (reopened running.journal (registry none) Lease.new)
unfolding program all
recover-Reachable_example = recover-Reachable id_of (registry none) Lease.new running-Reachable

crashed : submit id_of empty (terminal "b" "running") true 7 ≡ (running, err crash)
unfolding program
crashed = refl

submit_retry_example :
    (ack : Ack) × (submit id_of running (terminal "b" "running") false 9 ≡ (running, ok ack))
    × (ack.disposition ≡ duplicate)
    × (ack.seq ≡ 0)
submit_retry_example =
    submit_retry id_of empty running running (terminal "b" "running") (registry none) Lease.new 7 9
      false empty-Reachable crashed recover-Reachable_example

decided : deciding running "task-1" ≡ some (event "b" "running")
unfolding program
decided = refl

below : key_lt (event "b" "running") (event "a" "succeeded") ≡ false
unfolding program
below = refl

above : key_lt (event "b" "running") (event "c" "succeeded") ≡ true
unfolding program
above = refl

ends : contains "succeeded" terminal_states ≡ true
unfolding contains
ends = refl

-- The store behind the end of the task, and in a new process.
abbrev ended : DistributedStateStore
ended = written id_of running (event "c" "succeeded") 8

ended-Later : Later id_of ended ended
unfolding program
ended-Later = Finality.restarted (registry none) Lease.new now refl

terminal_absorbing_example :
    (current_value ended.journal "task.terminal" "task-1" ≡ some "succeeded")
    × (submit id_of ended (terminal "d" "failed") false 9
        ≡ (ended, answer_to id_of ended (event "d" "failed") (find_event ended.journal "d")))
unfolding required_fields
terminal_absorbing_example =
    terminal_absorbing id_of running ended ended (terminal "c" "succeeded") (terminal "d" "failed")
      (event "c" "succeeded") (event "d" "failed") 8 9 (receipt_of 1 "c") false running-Reachable
      refl submit_end_above refl refl (λ w p. cc (above, decided)) ends ended-Later refl refl refl

terminal_not_absorbing_example :
    (current_value
        (written id_of running (event "a" "succeeded") 8).journal
        "task.terminal"
        "task-1"
      ≡ some "running")
    × ((e : Event)
        → e.domain ≡ "task.terminal"
        → e.entity ≡ "task-1"
        → contains e.value terminal_states ≡ true
        → check_terminal (written id_of running (event "a" "succeeded") 8).journal e ≡ ok tt)
unfolding required_fields
terminal_not_absorbing_example =
    terminal_not_absorbing id_of running (written id_of running (event "a" "succeeded") 8)
      (terminal "a" "succeeded") (event "a" "succeeded") 8 (receipt_of 1 "a") refl submit_end_below
      refl refl (event "b" "running") decided refl below

abbrev record_of : ℕ → Event → Record Event
record_of seq e = record {
  body = record { seq = seq; kind = transition; time_ns = 0; prev_hash = genesis; payload = e };
  hash = e.event_id;
}

abbrev one_way : Journal.Journal Event
one_way = record {
  lines = [];
  records = record_of 0 (event "a" "running") ∷ record_of 1 (event "b" "failed") ∷ [];
  head = "b";
}

abbrev other_way : Journal.Journal Event
other_way = record {
  lines = [];
  records = record_of 0 (event "b" "failed") ∷ record_of 1 (event "a" "running") ∷ [];
  head = "a";
}

same_events :
    Perm
      (accepted_events one_way "task.terminal" "task-1")
      (accepted_events other_way "task.terminal" "task-1")
unfolding program
same_events = Perm.swap (event "b" "failed") (event "a" "running") []

ids_distinct :
    distinct (map (λ e. e.event_id) (accepted_events one_way "task.terminal" "task-1")) ≡ true
unfolding program
ids_distinct = refl

current_value-perm_example :
    current_value one_way "task.terminal" "task-1"
    ≡ current_value other_way "task.terminal" "task-1"
current_value-perm_example =
    current_value-perm one_way other_way "task.terminal" "task-1" ids_distinct same_events
