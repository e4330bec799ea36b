-- ===== src/Dsm/Store/Finality.antt =====
-- Where the event that ends a task is the greatest of the task, the end is final: in every later
-- state of the store, across crashes and restarts.
use text.Mathlib.TextEquality.{eq_iff}
use mathlib.Core.List.{append-nil}
use residual_agent_harness.Prelude.{
  ℕ, String, Bool, true, false, ◌≡◌, refl, ap, ◌∙◌, Option, none, some, map-append, arith, contains,
  ◌==◌, ◌&&◌, string_eq, Bool-cases, Option-cases, inl, inr, select, select-append,
}
use residual_agent_harness.Prelude.Result.{Result, ok, err, ◌>>=◌, Result-cases}
use residual_agent_harness.Dsm.Errors.{Error, illegal_transition}
use residual_agent_harness.Dsm.Lease.{LeaseManager}
use residual_agent_harness.Dsm.Journal
use residual_agent_harness.Dsm.Journal.{Codec, Record}
use residual_agent_harness.Dsm.Ownership.{OwnershipRegistry, check_writer, terminal_states}
use residual_agent_harness.Dsm.Store.{
  Event, DistributedStateStore, accepted_events, current_value, key_lt, check_fencing,
  check_terminal, find_event, Proposal, Ack, accepted, duplicate, required_fields, submit, recover,
}
use residual_agent_harness.Dsm.Store.Admission.{
  IsAdmissible, written, submit-Outcome, submit_duplicate, refused, repeated, admitted,
}
use residual_agent_harness.Dsm.Store.Recovery
use residual_agent_harness.Dsm.Store.Recovery.{
  Reachable, Reachable-IsSound, recover-eq, reopened, transition_records-append,
}
use residual_agent_harness.Dsm.Store.Terminal.{
  winner_of, deciding, current_value-deciding, check_terminal-ended, deciding-greatest,
}

module _ (codec : Codec Event) where
  -- What calls, crashes and restarts make of a store.
  pub data Later (s : DistributedStateStore) : DistributedStateStore → Type 0 where
    now : Later s s
    submitted :
        {s' s'' : DistributedStateStore} (p : Proposal) (crash_after : Bool) (time_ns : ℕ)
        → Later s s'
        → (submit codec s' p crash_after time_ns).0 ≡ s''
        → Later s s''
    restarted :
        {s' s'' : DistributedStateStore} (o : OwnershipRegistry) (l : LeaseManager)
        → Later s s'
        → recover codec s'.journal.lines o l ≡ ok s''
        → Later s s''

  Later-Reachable :
      {s s' : DistributedStateStore} → Reachable codec s → Later s s' → Reachable codec s'
  Later-Reachable r now = r
  Later-Reachable r (submitted p crash_after time_ns later e) =
      Recovery.submitted p crash_after time_ns (Later-Reachable r later) e
  Later-Reachable r (restarted o l later e) = Recovery.restarted o l (Later-Reachable r later) e

  -- An event of another entity or domain leaves the events of the task as they are.
  deciding-other :
      (s : DistributedStateStore) (e : Event) (time_ns : ℕ) (entity : String)
      → (e.domain == "task.terminal" && e.entity == entity) ≡ false
      → deciding (written codec s e time_ns) entity ≡ deciding s entity
  unfolding accepted_events Journal.next_record select
  deciding-other s e time_ns entity other = ap winner_of (
      rw (transition_records-append codec s e time_ns, map-append, select-append, other)
        (append-nil (accepted_events s.journal "task.terminal" entity)))

  -- What is admitted behind the end of a task is about something else.
  admitted-other :
      (s : DistributedStateStore) (e e' : Event)
      → deciding s e.entity ≡ some e
      → contains e.value terminal_states ≡ true
      → IsAdmissible s e'
      → (e'.domain == "task.terminal" && e'.entity == e.entity) ≡ false
  admitted-other s e e' decided ends a =
      elim (Bool-cases (e'.domain == "task.terminal" && e'.entity == e.entity)) [
        | inr other ↦ other
        | inl here ↦
            let d' : e'.domain ≡ "task.terminal" =
              ground (arith, eq_iff e'.domain "task.terminal") in
            let same : e'.entity ≡ e.entity = ground (arith, eq_iff e'.entity e.entity) in
            absurd (ground (arith, check_terminal-ended s e e' decided ends d' same, a.legal))
      ]

  deciding-submit :
      (s : DistributedStateStore) (e : Event) (p : Proposal) (crash_after : Bool) (time_ns : ℕ)
      → deciding s e.entity ≡ some e
      → contains e.value terminal_states ≡ true
      → deciding (submit codec s p crash_after time_ns).0 e.entity ≡ some e
  deciding-submit s e p crash_after time_ns decided ends =
      elim (submit-Outcome codec s p crash_after time_ns) [
        | refused x ne out ↦ rw out decided
        | repeated e' r fields found out ↦ rw out decided
        | admitted e' fields a out ↦
            rw out (
              deciding-other s e' time_ns e.entity (admitted-other s e e' decided ends a) ∙ decided)
      ]

  deciding-Later :
      {s s' : DistributedStateStore} (e : Event)
      → Reachable codec s
      → deciding s e.entity ≡ some e
      → contains e.value terminal_states ≡ true
      → Later s s'
      → deciding s' e.entity ≡ some e
  deciding-Later e r decided ends now = decided
  deciding-Later e r decided ends (submitted {s'} {s''} p crash_after time_ns later same) =
      rw (← same)
        (deciding-submit s' e p crash_after time_ns (deciding-Later e r decided ends later) ends)
  deciding-Later e r decided ends (restarted {s'} {s''} o l later read) =
      let kept = (Reachable-IsSound codec (Later-Reachable r later)).kept in
      rw (← recover-eq codec s' s'' o l kept read) (deciding-Later e r decided ends later)

  -- The answer to an event of a task that has ended: to a journaled id as to any duplicate.
  abbrev pub answer_to : DistributedStateStore → Event → Option (Record Event) → Result Error Ack
  answer_to s e none =
      check_writer s.ownership e.domain e.writer >>= λ owner. err illegal_transition
  answer_to s e (some r) = ok (record { seq = r.seq; hash = r.hash; disposition = duplicate })

  check_fencing-terminal :
      (l : LeaseManager) (e : Event) → e.domain ≡ "task.terminal" → check_fencing l e ≡ ok tt
  unfolding check_fencing
  check_fencing-terminal l e d = rw d refl

  submit-ended :
      (s : DistributedStateStore) (e e' : Event) (p : Proposal) (crash_after : Bool) (time_ns : ℕ)
      → required_fields p ≡ ok e'
      → e'.domain ≡ "task.terminal"
      → check_terminal s.journal e' ≡ err illegal_transition
      → submit codec s p crash_after time_ns
        ≡ (s, answer_to s e' (find_event s.journal e'.event_id))
  unfolding submit
  submit-ended s e e' p crash_after time_ns fields d' illegal =
      elim (Option-cases (find_event s.journal e'.event_id)) [
        | inr (r, found) ↦
            rw (submit_duplicate codec s p e' r crash_after time_ns fields found, found) refl
        | inl fresh ↦ elim (Result-cases (check_writer s.ownership e'.domain e'.writer)) [
          | inl (owner, owned) ↦
              ground (arith, fields, fresh, owned, check_fencing-terminal s.leases e' d', illegal)
          | inr (x, not_owned) ↦ ground (arith, fields, fresh, not_owned)
        ]
      ]

  -- Where a store reached from a new one accepts an event that is greater than all before of its
  -- task and ends the task, the end is final. In every later state, whatever calls, crashes and
  -- successful restarts came between, its value is the current one, and a complete proposal of a
  -- transition of the task changes nothing: one with a journaled id is acknowledged as a
  -- duplicate, and any other is refused, as an illegal transition where its writer owns the
  -- domain.
  pub terminal_absorbing :
      (s s' s'' : DistributedStateStore) (p p' : Proposal) (e e' : Event) (time_ns time_ns' : ℕ)
      (ack : Ack) (crash_after : Bool)
      → Reachable codec s
      → required_fields p ≡ ok e
      → submit codec s p false time_ns ≡ (s', ok ack)
      → ack.disposition ≡ accepted
      → e.domain ≡ "task.terminal"
      → ((w : Event) → deciding s e.entity ≡ some w → key_lt w e ≡ true)
      → contains e.value terminal_states ≡ true
      → Later s' s''
      → required_fields p' ≡ ok e'
      → e'.domain ≡ "task.terminal"
      → e'.entity ≡ e.entity
      → (current_value s''.journal "task.terminal" e.entity ≡ some e.value)
        × (submit codec s'' p' crash_after time_ns'
            ≡ (s'', answer_to s'' e' (find_event s''.journal e'.event_id)))
  terminal_absorbing s s' s'' p p' e e' time_ns time_ns' ack crash_after reach fields answered
        is_accepted terminal greatest ends later fields' d' same =
      let reach' : Reachable codec s' =
        Recovery.submitted p false time_ns reach (ap (λ x. x.0) answered) in
      let decided =
        deciding-Later e reach'
          (deciding-greatest codec s s' p e time_ns ack fields answered is_accepted terminal
            greatest)
          ends later in
      (
        rw (current_value-deciding s'' e.entity, decided) refl,
        submit-ended s'' e e' p' crash_after time_ns' fields' d'
            (check_terminal-ended s'' e e' decided ends d' same),
      )
