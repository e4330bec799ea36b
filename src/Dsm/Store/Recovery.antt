-- ===== src/Dsm/Store/Recovery.antt =====
-- Restarts and crashes: no event is accepted twice, and nothing that was written is lost.
use text.Mathlib.TextEquality.{eq_iff}
use residual_agent_harness.Prelude.{
  ℕ, String, Bool, true, ◌≡◌, refl, sym, subst, if◌then◌else◌, none, some, List, [], ◌∷◌, ◌++◌, map,
  arith, length, distinct, select, select-append, map-append, find, find-append, find-none,
  distinct-snoc, string_eq,
}
use residual_agent_harness.Prelude.Result.{ok, err}
use residual_agent_harness.Dsm.Errors.{crash, malformed_line}
use residual_agent_harness.Dsm.Lease.{LeaseManager}
use residual_agent_harness.Dsm.Journal
use residual_agent_harness.Dsm.Journal.{Codec, Record, Line, genesis}
use residual_agent_harness.Dsm.Journal.Restart.{
  IsKept, all_plain, append-IsKept, empty-IsKept, open_journal-IsKept,
}
use residual_agent_harness.Dsm.Ownership.{OwnershipRegistry}
use residual_agent_harness.Dsm.Store.{
  Proposal, Event, DistributedStateStore, duplicate, Ack, required_fields, transition_records,
  find_event, transition, submit, recover,
}
use residual_agent_harness.Dsm.Store.Admission.{
  written, submit-Outcome, submit_duplicate, refused, repeated, admitted,
}

-- A store on the journal, in a new process.
abbrev pub reopened :
    Journal.Journal Event → OwnershipRegistry → LeaseManager → DistributedStateStore
reopened j o l = record { journal = j; ownership = o; leases = l }

abbrev pub event_ids : DistributedStateStore → List String
event_ids s = map (λ r. r.payload.event_id) (transition_records s.journal)

module _ (codec : Codec Event) where
  pub transition_records-append :
      (s : DistributedStateStore) (e : Event) (time_ns : ℕ)
      → transition_records (written codec s e time_ns).journal
        ≡ transition_records s.journal
          ++ Journal.next_record codec.digest s.journal transition e time_ns ∷ []
  unfolding transition_records Journal.append Journal.replay Journal.next_record select
  transition_records-append s e time_ns = simp select-append (ground arith)

  pub record IsSound (s : DistributedStateStore) : Type 0 where
    pub kept : IsKept codec s.journal
    pub distinct_ids : distinct (event_ids s) ≡ true

  written-IsSound :
      (s : DistributedStateStore) (e : Event) (time_ns : ℕ)
      → IsSound s
      → find_event s.journal e.event_id ≡ none
      → IsSound (written codec s e time_ns)
  unfolding find_event Journal.next_record
  written-IsSound s e time_ns v fresh = record {
    kept = append-IsKept codec s.journal transition e time_ns v.kept;
    distinct_ids =
        rw (transition_records-append s e time_ns, map-append)
          (distinct-snoc (event_ids s) e.event_id v.distinct_ids
            (find-none (λ r. r.payload.event_id) e.event_id (transition_records s.journal) fresh));
  }

  -- A new store, or one that a call or a restart leaves behind. A restart may bring another
  -- registry and another lease table.
  pub data Reachable : DistributedStateStore → Type 0 where
    opened :
        {s : DistributedStateStore} (o : OwnershipRegistry) (l : LeaseManager)
        → recover codec [] o l ≡ ok s
        → Reachable s
    submitted :
        {s s' : DistributedStateStore} (p : Proposal) (crash_after : Bool) (time_ns : ℕ)
        → Reachable s
        → (submit codec s p crash_after time_ns).0 ≡ s'
        → Reachable s'
    restarted :
        {s s' : DistributedStateStore} (o : OwnershipRegistry) (l : LeaseManager)
        → Reachable s
        → recover codec s.journal.lines o l ≡ ok s'
        → Reachable s'

  submit-IsSound :
      (s : DistributedStateStore) (p : Proposal) (crash_after : Bool) (time_ns : ℕ)
      → IsSound s
      → IsSound (submit codec s p crash_after time_ns).0
  submit-IsSound s p crash_after time_ns v = elim (submit-Outcome codec s p crash_after time_ns) [
    | refused x ne o ↦ rw o v
    | repeated e r fields found o ↦ rw o v
    | admitted e fields a o ↦ rw o (written-IsSound s e time_ns v a.fresh)
  ]

  recover_lem :
      (s : DistributedStateStore) (o : OwnershipRegistry) (l : LeaseManager)
      → IsKept codec s.journal
      → recover codec s.journal.lines o l
        ≡ (if all_plain codec s.journal then ok (reopened s.journal o l) else err malformed_line)
  unfolding recover
  recover_lem s o l v = rw (open_journal-IsKept codec s.journal v) (ground arith)

  -- A recovery that succeeds finds the journal as it was.
  pub recover-eq :
      (s s' : DistributedStateStore) (o : OwnershipRegistry) (l : LeaseManager)
      → IsKept codec s.journal
      → recover codec s.journal.lines o l ≡ ok s'
      → reopened s.journal o l ≡ s'
  recover-eq s s' o l v e = ground (arith, recover_lem s o l v)

  opened-IsSound :
      (s : DistributedStateStore) (o : OwnershipRegistry) (l : LeaseManager)
      → recover codec [] o l ≡ ok s
      → IsSound s
  unfolding recover Journal.open_journal Journal.load Journal.last_hash transition_records select
      Journal.replay distinct
  opened-IsSound s o l e =
      let same : reopened (record { lines = []; records = []; head = genesis }) o l ≡ s = cc in
      rw (← same) (record { kept = empty-IsKept codec; distinct_ids = refl })

  pub Reachable-IsSound : {s : DistributedStateStore} → Reachable s → IsSound s
  Reachable-IsSound {s} (opened o l e) = opened-IsSound s o l e
  Reachable-IsSound (submitted p crash_after time_ns r e) =
      rw (← e) (submit-IsSound _ p crash_after time_ns (Reachable-IsSound r))
  Reachable-IsSound (restarted {s} {s'} o l r e) =
      let v = Reachable-IsSound r in
      let same : reopened s.journal o l ≡ s' = recover-eq s s' o l v.kept e in
      rw (← same) (record { kept = v.kept; distinct_ids = v.distinct_ids })

  -- Whatever calls, crashes and restarts came before, no event id stands twice in the journal.
  pub Reachable-distinct : {s : DistributedStateStore} → Reachable s → distinct (event_ids s) ≡ true
  Reachable-distinct r = (Reachable-IsSound r).distinct_ids

  -- Recovery rebuilds the journal as it was, with the same projection, if the text of no
  -- journaled event holds a line boundary; otherwise it fails.
  pub recover-Reachable :
      {s : DistributedStateStore} (o : OwnershipRegistry) (l : LeaseManager)
      → Reachable s
      → recover codec s.journal.lines o l
        ≡ (if all_plain codec s.journal then ok (reopened s.journal o l) else err malformed_line)
  recover-Reachable {s} o l r = recover_lem s o l (Reachable-IsSound r).kept

  find_event-written :
      (s : DistributedStateStore) (e : Event) (time_ns : ℕ)
      → find_event s.journal e.event_id ≡ none
      → find_event (written codec s e time_ns).journal e.event_id
        ≡ some (Journal.next_record codec.digest s.journal transition e time_ns)
  unfolding find_event Journal.next_record find
  find_event-written s e time_ns fresh =
      rw (transition_records-append s e time_ns, find-append _ _ _ fresh)
        (ground (arith, eq_iff e.event_id e.event_id))

  -- If the process dies between the journal write and the acknowledgement, the same proposal,
  -- sent again after a recovery with any registry and leases, is acknowledged as a duplicate
  -- under the number that the first write got, and changes nothing.
  pub submit_retry :
      (s s' s'' : DistributedStateStore) (p : Proposal) (o : OwnershipRegistry) (l : LeaseManager)
      (time_ns time_ns' : ℕ) (crash_after : Bool)
      → Reachable s
      → submit codec s p true time_ns ≡ (s', err crash)
      → recover codec s'.journal.lines o l ≡ ok s''
      → (ack : Ack) × (submit codec s'' p crash_after time_ns' ≡ (s'', ok ack))
        × (ack.disposition ≡ duplicate)
        × (ack.seq ≡ length s.journal.records)
  unfolding Journal.next_record
  submit_retry s s' s'' p o l time_ns time_ns' crash_after reach h again =
      elim (submit-Outcome codec s p true time_ns) [
        | refused x ne out ↦ absurd (ground arith)
        | repeated e r fields found out ↦ absurd (ground arith)
        | admitted e fields a out ↦
            let v = written-IsSound s e time_ns (Reachable-IsSound reach) a.fresh in
            let same : written codec s e time_ns ≡ s' = cc (out) in
            retry e fields a.fresh (
              sym (
                recover-eq (written codec s e time_ns) s'' o l v.kept (
                  subst (λ (x : DistributedStateStore). recover codec x.journal.lines o l ≡ ok s'')
                    (sym same) again)))
      ]
    where
      retry :
          (e : Event)
          → required_fields p ≡ ok e
          → find_event s.journal e.event_id ≡ none
          → s'' ≡ reopened (written codec s e time_ns).journal o l
          → (ack : Ack) × (submit codec s'' p crash_after time_ns' ≡ (s'', ok ack))
            × (ack.disposition ≡ duplicate)
            × (ack.seq ≡ length s.journal.records)
      retry e fields fresh same =
          let r = Journal.next_record codec.digest s.journal transition e time_ns in
          (
            record { seq = r.seq; hash = r.hash; disposition = duplicate },
            submit_duplicate codec s'' p e r crash_after time_ns' fields
                (rw same (find_event-written s e time_ns fresh)),
            refl,
            refl,
          )
