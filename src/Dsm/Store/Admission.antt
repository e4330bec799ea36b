-- ===== src/Dsm/Store/Admission.antt =====
-- Which proposals are written, and what a refusal leaves behind.
use text.Mathlib.TextEquality.{eq_iff}
use residual_agent_harness.Prelude.{
  ℕ, String, Bool, ◌≡◌, ◌≢◌, none, some, arith, inl, inr, Option-cases, if◌then◌else◌,
}
use residual_agent_harness.Prelude.Result.{Result, ok, err, Result-cases}
use residual_agent_harness.Dsm.Errors.{Error, crash}
use residual_agent_harness.Dsm.Lease
use residual_agent_harness.Dsm.Journal
use residual_agent_harness.Dsm.Journal.{Codec, Record}
use residual_agent_harness.Dsm.Ownership.{check_writer}
use residual_agent_harness.Dsm.Store.{
  Proposal, Event, DistributedStateStore, accepted, duplicate, Ack, required_fields, find_event,
  transition, check_fencing, check_terminal, submit,
}

-- All four rules hold of the event.
pub record IsAdmissible (s : DistributedStateStore) (e : Event) : Type 0 where
  pub fresh : find_event s.journal e.event_id ≡ none
  pub owned : check_writer s.ownership e.domain e.writer ≡ ok e.writer
  pub fenced : check_fencing s.leases e ≡ ok tt
  pub legal : check_terminal s.journal e ≡ ok tt

check_writer-eq :
    (s : DistributedStateStore) (e : Event) (owner : String)
    → check_writer s.ownership e.domain e.writer ≡ ok owner
    → owner ≡ e.writer
unfolding check_writer
check_writer-eq s e owner h = ground (arith, eq_iff e.writer owner)

required_fields-err : (p : Proposal) (x : Error) → required_fields p ≡ err x → x ≢ crash
unfolding required_fields
required_fields-err p x h = ground arith

check_writer-err :
    (s : DistributedStateStore) (e : Event) (x : Error)
    → check_writer s.ownership e.domain e.writer ≡ err x
    → x ≢ crash
unfolding check_writer
check_writer-err s e x h = ground arith

check_fencing-err :
    (s : DistributedStateStore) (e : Event) (x : Error)
    → check_fencing s.leases e ≡ err x
    → x ≢ crash
unfolding check_fencing Lease.check
check_fencing-err s e x h = ground arith

check_terminal-err :
    (s : DistributedStateStore) (e : Event) (x : Error)
    → check_terminal s.journal e ≡ err x
    → x ≢ crash
unfolding check_terminal
check_terminal-err s e x h = ground arith

module _ (codec : Codec Event) where
  -- The store with the event at the end of its journal.
  abbrev pub written : DistributedStateStore → Event → ℕ → DistributedStateStore
  written s e time_ns = record s { journal = Journal.append codec s.journal transition e time_ns }

  abbrev pub receipt : DistributedStateStore → Event → ℕ → Ack
  receipt s e time_ns =
      let r = Journal.next_record codec.digest s.journal transition e time_ns in
      record { seq = r.seq; hash = r.hash; disposition = accepted }

  -- The four ways in which a call can end, each with the state and the answer.
  pub data Outcome (s : DistributedStateStore) (p : Proposal) (crash_after : Bool) (time_ns : ℕ)
      : Type 0 where
    refused :
        (x : Error)
        → x ≢ crash
        → submit codec s p crash_after time_ns ≡ (s, err x)
        → Outcome s p crash_after time_ns
    repeated :
        (e : Event) (r : Record Event)
        → required_fields p ≡ ok e
        → find_event s.journal e.event_id ≡ some r
        → submit codec s p crash_after time_ns
          ≡ (s, ok (record { seq = r.seq; hash = r.hash; disposition = duplicate }))
        → Outcome s p crash_after time_ns
    admitted :
        (e : Event)
        → required_fields p ≡ ok e
        → IsAdmissible s e
        → submit codec s p crash_after time_ns
          ≡ (written s e time_ns, if crash_after then err crash else ok (receipt s e time_ns))
        → Outcome s p crash_after time_ns

  -- An admissible event is written; only the simulated crash keeps the acknowledgement back.
  pub submit_admissible :
      (s : DistributedStateStore) (p : Proposal) (e : Event) (crash_after : Bool) (time_ns : ℕ)
      → required_fields p ≡ ok e
      → IsAdmissible s e
      → submit codec s p crash_after time_ns
        ≡ (written s e time_ns, if crash_after then err crash else ok (receipt s e time_ns))
  unfolding submit
  submit_admissible s p e crash_after time_ns fields a =
      ground (arith, fields, a.fresh, a.owned, a.fenced, a.legal)

  -- Sending a journaled event again is answered by the number and hash of its record, whatever
  -- the other fields say, and writes nothing.
  pub submit_duplicate :
      (s : DistributedStateStore) (p : Proposal) (e : Event) (r : Record Event) (crash_after : Bool)
      (time_ns : ℕ)
      → required_fields p ≡ ok e
      → find_event s.journal e.event_id ≡ some r
      → submit codec s p crash_after time_ns
        ≡ (s, ok (record { seq = r.seq; hash = r.hash; disposition = duplicate }))
  unfolding submit
  submit_duplicate s p e r crash_after time_ns fields found = ground arith

  admit-Outcome :
      (s : DistributedStateStore) (p : Proposal) (crash_after : Bool) (time_ns : ℕ) (e : Event)
      → required_fields p ≡ ok e
      → find_event s.journal e.event_id ≡ none
      → Outcome s p crash_after time_ns
  unfolding submit
  admit-Outcome s p crash_after time_ns e fields fresh =
      elim (Result-cases (check_writer s.ownership e.domain e.writer)) [
        | inr (x, not_owned) ↦ refused x (check_writer-err s e x not_owned) (ground arith)
        | inl (owner, is_owned) ↦ elim (Result-cases (check_fencing s.leases e)) [
          | inr (x, not_fenced) ↦ refused x (check_fencing-err s e x not_fenced) (ground arith)
          | inl (tt, fenced) ↦ elim (Result-cases (check_terminal s.journal e)) [
            | inr (x, illegal) ↦ refused x (check_terminal-err s e x illegal) (ground arith)
            | inl (tt, legal) ↦
                let same = check_writer-eq s e owner is_owned in
                let a : IsAdmissible s e = record {
                  fresh = fresh;
                  owned = rw same at is_owned;
                  fenced = fenced;
                  legal = legal;
                } in
                admitted e fields a (submit_admissible s p e crash_after time_ns fields a)
          ]
        ]
      ]

  pub submit-Outcome :
      (s : DistributedStateStore) (p : Proposal) (crash_after : Bool) (time_ns : ℕ)
      → Outcome s p crash_after time_ns
  unfolding submit
  submit-Outcome s p crash_after time_ns = elim (Result-cases (required_fields p)) [
    | inr (x, bad) ↦ refused x (required_fields-err p x bad) (ground arith)
    | inl (e, fields) ↦ elim (Option-cases (find_event s.journal e.event_id)) [
      | inl fresh ↦ admit-Outcome s p crash_after time_ns e fields fresh
      | inr (r, found) ↦ repeated e r fields found (ground arith)
    ]
  ]

  -- An acknowledgement as accepted is given only to an admissible event, which is then the last
  -- of the journal.
  pub submit-accepted :
      (s s' : DistributedStateStore) (p : Proposal) (crash_after : Bool) (time_ns : ℕ) (ack : Ack)
      → submit codec s p crash_after time_ns ≡ (s', ok ack)
      → ack.disposition ≡ accepted
      → (e : Event) × (required_fields p ≡ ok e)
        × IsAdmissible s e
        × (s' ≡ written s e time_ns)
        × (ack ≡ receipt s e time_ns)
  submit-accepted s s' p crash_after time_ns ack h d =
      elim (submit-Outcome s p crash_after time_ns) [
        | refused x ne o ↦ absurd (ground arith)
        | repeated e r fields found o ↦ absurd (ground arith)
        | admitted e fields a o ↦ (e, fields, a, ground arith, ground arith)
      ]

  -- Whatever is refused, or acknowledged as a duplicate, leaves the store as it was.
  pub submit_unchanged :
      (s s' : DistributedStateStore) (p : Proposal) (crash_after : Bool) (time_ns : ℕ)
      (answer : Result Error Ack)
      → submit codec s p crash_after time_ns ≡ (s', answer)
      → answer ≢ err crash
      → ((ack : Ack) → answer ≡ ok ack → ack.disposition ≡ duplicate)
      → s' ≡ s
  submit_unchanged s s' p crash_after time_ns answer h not_crash dup =
      elim (submit-Outcome s p crash_after time_ns) [
        | refused x ne o ↦ ground arith
        | repeated e r fields found o ↦ ground arith
        | admitted e fields a o ↦ absurd (ground (arith, dup (receipt s e time_ns)))
      ]
