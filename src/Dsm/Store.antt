-- ===== src/Dsm/Store.antt =====
-- residual/dsm/store.py: admission of events, and the projection of the journal.
pub mod Order
pub mod Admission
pub mod Recovery
pub mod Terminal
pub mod Finality
mod Tests
use residual_agent_harness.Prelude.{
  ℕ, String, Bool, true, false, ◌&&◌, ◌||◌, Option, none, some, List, [], ◌∷◌, map, contains,
  select, find, ltb, ◌==◌, nat_eq, string_eq, if◌then◌else◌,
}
use residual_agent_harness.Prelude.Int
use residual_agent_harness.Prelude.Text.{str_lt}
use residual_agent_harness.Prelude.Result.{Result, ok, err, ◌>>=◌, ◌>>◌, guard}
use residual_agent_harness.Dsm.Errors.{
  Error, missing_field, key_error, illegal_transition, crash, unknown_event,
}
use residual_agent_harness.Dsm.Lease
use residual_agent_harness.Dsm.Lease.{LeaseManager}
use residual_agent_harness.Dsm.Journal
use residual_agent_harness.Dsm.Journal.{Record, Line, Codec, Journal}
use residual_agent_harness.Dsm.Ownership.{OwnershipRegistry, check_writer, terminal_transitions}

-- A proposed transition as it comes in: any key may be missing.
pub record Proposal : Type 0 where
  pub event_id : Option String
  pub domain : Option String
  pub entity : Option String
  pub value : Option String
  pub writer : Option String
  pub writer_holder : Option String
  pub fencing_token : Option ℕ
  pub now_ms : Option ℕ

-- An event with the five required fields.
pub record Event : Type 0 where
  pub event_id : String
  pub domain : String
  pub entity : String
  pub value : String
  pub writer : String
  pub writer_holder : Option String
  pub fencing_token : Option ℕ
  pub now_ms : Option ℕ

pub record DistributedStateStore : Type 0 where
  pub journal : Journal Event
  pub ownership : OwnershipRegistry
  pub leases : LeaseManager

pub data Disposition : Type 0 where
  accepted duplicate : Disposition

pub record Ack : Type 0 where
  pub seq : ℕ
  pub hash : String
  pub disposition : Disposition

-- `event[field]`
abbrev pub require {ℓ} : {A : Type ℓ} → Error → Option A → Result Error A
require e none = err e
require e (some a) = ok a

-- The loop over the required fields.
unfoldable pub required_fields : Proposal → Result Error Event
required_fields p = do
  event_id ← require missing_field p.event_id
  domain ← require missing_field p.domain
  entity ← require missing_field p.entity
  value ← require missing_field p.value
  writer ← require missing_field p.writer
  ok (record {
    event_id = event_id;
    domain = domain;
    entity = entity;
    value = value;
    writer = writer;
    writer_holder = p.writer_holder;
    fencing_token = p.fencing_token;
    now_ms = p.now_ms;
  })

abbrev pub transition : String
transition = "transition"

unfoldable pub transition_records : Journal Event → List (Record Event)
transition_records j = select (λ r. r.kind == transition) (Journal.replay (Int.negsuc 0) j)

unfoldable pub find_event : Journal Event → String → Option (Record Event)
unfolding transition_records
find_event j event_id = find (λ r. r.payload.event_id == event_id) (transition_records j)

or_zero : Option ℕ → ℕ
or_zero none = 0
or_zero (some n) = n

-- `_order_key(a) < _order_key(b)`, the order of Python's tuples
unfoldable pub key_lt : Event → Event → Bool
unfolding or_zero
key_lt a b =
    let s = or_zero a.fencing_token in
    let t = or_zero b.fencing_token in
    if ltb s t
    then true
    else if s == t
    then (if str_lt a.writer b.writer
        then true
        else if a.writer == b.writer
        then str_lt a.event_id b.event_id
        else false)
    else false

-- `max`: the first of the greatest
unfoldable pub winner : Event → List Event → Event
winner best [] = best
winner best (e ∷ es) = winner (if key_lt best e then e else best) es

unfoldable pub accepted_events : Journal Event → String → String → List Event
unfolding transition_records
accepted_events j domain entity =
    select (λ e. e.domain == domain && e.entity == entity)
      (map (λ r. r.payload) (transition_records j))

value_of_winner : List Event → Option String
value_of_winner [] = none
value_of_winner (e ∷ es) = some (winner e es).value

unfoldable pub current_value : Journal Event → String → String → Option String
unfolding accepted_events value_of_winner
current_value j domain entity = value_of_winner (accepted_events j domain entity)

-- Rule 3: writes to the lease domain need a live fencing token.
unfoldable pub check_fencing : LeaseManager → Event → Result Error (Unit {0})
check_fencing leases e =
    if e.domain == "task.lease"
    then (do
      holder ← require key_error e.writer_holder
      fencing_token ← require key_error e.fencing_token
      now_ms ← require key_error e.now_ms
      Lease.check leases e.entity holder fencing_token now_ms)
    else ok tt

-- Rule 4: terminal transitions must be legal.
unfoldable pub check_terminal : Journal Event → Event → Result Error (Unit {0})
unfolding current_value
check_terminal j e =
    if e.domain == "task.terminal"
    then guard (contains e.value (terminal_transitions (current_value j "task.terminal" e.entity)))
        illegal_transition
    else ok tt

module _ (codec : Codec Event) where
  -- The journal write and the acknowledgement, with the simulated death between them.
  write : DistributedStateStore → Event → Bool → ℕ → DistributedStateStore × Result Error Ack
  write s e crash_after time_ns =
      let r = Journal.next_record codec.digest s.journal transition e time_ns in
      (
        record s { journal = Journal.append codec s.journal transition e time_ns },
        if crash_after
            then err crash
            else ok (record { seq = r.seq; hash = r.hash; disposition = accepted }),
      )

  -- Rules 2 to 4, and the write.
  admit : DistributedStateStore → Event → Bool → ℕ → DistributedStateStore × Result Error Ack
  unfolding write check_fencing check_terminal
  admit s e crash_after time_ns =
      elim (do
        owner ← check_writer s.ownership e.domain e.writer
        check_fencing s.leases e
        check_terminal s.journal e) [ err x ↦ (s, err x) | ok _ ↦ write s e crash_after time_ns ]

  -- Rule 1: a journaled event is a duplicate.
  submit_event : DistributedStateStore → Event → Bool → ℕ → DistributedStateStore × Result Error Ack
  unfolding admit find_event
  submit_event s e crash_after time_ns = elim (find_event s.journal e.event_id) [
    | some r ↦ (s, ok (record { seq = r.seq; hash = r.hash; disposition = duplicate }))
    | none ↦ admit s e crash_after time_ns
  ]

  -- `crash_after` stands for crash_after == "journal_write".
  unfoldable pub submit :
      DistributedStateStore → Proposal → Bool → ℕ → DistributedStateStore × Result Error Ack
  unfolding submit_event required_fields
  submit s p crash_after time_ns = elim (required_fields p) [
    | err x ↦ (s, err x)
    | ok e ↦ submit_event s e crash_after time_ns
  ]

  -- A new process on the file that is left.
  unfoldable pub recover :
      List (Line Event) → OwnershipRegistry → LeaseManager → Result Error DistributedStateStore
  recover lines ownership leases = do
    j ← Journal.open_journal codec.digest lines
    ok (record { journal = j; ownership = ownership; leases = leases })

unfoldable pub provenance : DistributedStateStore → String → Result Error (Record Event)
provenance s event_id = require unknown_event (find_event s.journal event_id)
