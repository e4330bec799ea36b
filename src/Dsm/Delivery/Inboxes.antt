-- ===== src/Dsm/Delivery/Inboxes.antt =====
-- An id is accepted once, whatever is delivered and however often the receiver restarts.
use residual_agent_harness.Prelude.{
  ℕ, String, Bool, all, true, false, ◌≡◌, refl, ◌∙◌, List, [], ◌∷◌, ◌++◌, arith, if◌then◌else◌,
  contains, select, string_eq, Bool-cases, inl, inr, ==_sym,
}
use residual_agent_harness.Prelude.Dict.{Dict, lookup, insert, lookup-insert}
use residual_agent_harness.Prelude.Result.{Result, ok, ◌>>=◌}
use residual_agent_harness.Dsm.Errors.{Error}
use residual_agent_harness.Dsm.Journal
use residual_agent_harness.Dsm.Journal.{Codec, Record, Line, genesis}
use residual_agent_harness.Dsm.Journal.Reading.{IsLoaded, IsDense, open_journal_lem}
use residual_agent_harness.Dsm.Journal.Restart.{append-IsLoaded}
use residual_agent_harness.Dsm.Journal.Replay.{replay_all}
use residual_agent_harness.Dsm.Delivery.{
  Inbox, Delivery, accepted, duplicate, has, seen_of, open_inbox, deliver,
}

module _ {E : Type 0} (event_id : E → String) where
  seen_of-append :
      (rs : List (Record (E × String))) (d : Dict String) (r : Record (E × String))
      → r.kind ≡ "deliver"
      → seen_of event_id (rs ++ r ∷ []) d
        ≡ insert (event_id r.payload.0) r.payload.1 (seen_of event_id rs d)
  unfolding seen_of
  seen_of-append [] d r k = rw k
  seen_of-append (x ∷ rs) d r k = seen_of-append rs _ r k

  -- A delivery, or a new process on the file that is there.
  pub data Turn : Type 0 where
    delivers : E → ℕ → Turn
    restarts : Turn

  module _ (codec : Codec (E × String)) where
    pub record IsSynced (i : Inbox E) : Type 0 where
      pub loaded : IsLoaded codec.digest i.journal
      pub dense : IsDense i.journal
      pub seen : i.seen ≡ seen_of event_id i.journal.records []

    open_inbox_lem : (i : Inbox E) → IsSynced i → open_inbox event_id codec i.journal.lines ≡ ok i
    unfolding open_inbox
    open_inbox_lem i v =
        rw (open_journal_lem codec.digest i.journal v.loaded, replay_all) (cc (v.seen))

    delivered-seen :
        (i : Inbox E) (e : E) (time_ns : ℕ)
        → i.seen ≡ seen_of event_id i.journal.records []
        → insert (event_id e) "accepted" i.seen
          ≡ seen_of event_id
              (Journal.append codec i.journal "deliver" (e, "accepted") time_ns).records
              []
    unfolding Journal.append Journal.next_record
    delivered-seen i e time_ns v =
        let r = Journal.next_record codec.digest i.journal "deliver" (e, "accepted") time_ns in
        rw (seen_of-append i.journal.records [] r refl, ← v)

    deliver-IsSynced :
        (i : Inbox E) (e : E) (time_ns : ℕ)
        → codec.is_plain "deliver" (e, "accepted") ≡ true
        → IsSynced i
        → IsSynced (deliver event_id codec i e time_ns).0
    unfolding deliver
    deliver-IsSynced i e time_ns plain v = elim (Bool-cases (has (lookup (event_id e) i.seen))) [
      | inl old ↦ rw old v
      | inr new ↦
          let (loaded, dense) =
            append-IsLoaded codec i.journal "deliver" (e, "accepted") time_ns plain v.loaded
              v.dense in
          rw new
            (record { loaded = loaded; dense = dense; seen = delivered-seen i e time_ns v.seen })
    ]

    -- The text of the record of a delivered event holds no line boundary.
    unfoldable pub is_plain_turn : Turn → Bool
    is_plain_turn (delivers e time_ns) = codec.is_plain "deliver" (e, "accepted")
    is_plain_turn restarts = true

    pub turn : Inbox E → Turn → Result Error (Inbox E × List Delivery)
    turn i (delivers e time_ns) =
        let (i', answer) = deliver event_id codec i e time_ns in ok (i', answer ∷ [])
    turn i restarts = do i' ← open_inbox event_id codec i.journal.lines; ok (i', [])

    -- The answers to the deliveries, in order.
    pub run : Inbox E → List Turn → Result Error (List Delivery)
    run i [] = ok []
    run i (t ∷ turns) = do (i', answers) ← turn i t; rest ← run i' turns; ok (answers ++ rest)

  -- The first delivery of an id is accepted, and each later one is a duplicate.
  unfoldable pub expected : List String → List Turn → List Delivery
  expected known [] = []
  expected known (delivers e time_ns ∷ turns) =
      if contains (event_id e) known
      then duplicate ∷ expected known turns
      else accepted ∷ expected (event_id e ∷ known) turns
  expected known (restarts ∷ turns) = expected known turns

  module _ (codec : Codec (E × String)) where
    -- `known` lists the ids that the inbox has seen.
    abbrev pub Knows : List String → Inbox E → Type 0
    Knows known i = (id : String) → has (lookup id i.seen) ≡ contains id known

    Knows-deliver :
        (known : List String) (i : Inbox E) (e : E) (time_ns : ℕ)
        → Knows known i
        → has (lookup (event_id e) i.seen) ≡ false
        → Knows (event_id e ∷ known) (deliver event_id codec i e time_ns).0
    unfolding deliver contains
    Knows-deliver known i e time_ns k new id =
        rw (new, lookup-insert (event_id e) id "accepted" i.seen, ==_sym (event_id e) id)
          (ground (arith, k id))

    deliver-old :
        (i : Inbox E) (e : E) (time_ns : ℕ)
        → has (lookup (event_id e) i.seen) ≡ true
        → deliver event_id codec i e time_ns ≡ (i, duplicate)
    unfolding deliver
    deliver-old i e time_ns old = rw old

    deliver-new :
        (i : Inbox E) (e : E) (time_ns : ℕ)
        → has (lookup (event_id e) i.seen) ≡ false
        → (deliver event_id codec i e time_ns).1 ≡ accepted
    unfolding deliver
    deliver-new i e time_ns new = rw new

    run-expected :
        (turns : List (Turn)) (known : List String) (i : Inbox E)
        → IsSynced codec i
        → Knows known i
        → all (is_plain_turn codec) turns ≡ true
        → run codec i turns ≡ ok (expected known turns)
    unfolding run turn expected is_plain_turn all
    run-expected [] known i v k plain = refl
    run-expected (restarts ∷ turns) known i v k plain =
        rw (open_inbox_lem codec i v, run-expected turns known i v k plain)
    run-expected (delivers e time_ns ∷ turns) known i v k plain =
        elim (Bool-cases (contains (event_id e) known)) [
          | inl old ↦ rw (
            deliver-old i e time_ns (k (event_id e) ∙ old),
            run-expected turns known i v k (ground arith),
            old,
          )
          | inr new ↦
              let fresh = k (event_id e) ∙ new in
              rw (
                run-expected turns (event_id e ∷ known) (deliver event_id codec i e time_ns).0
                    (deliver-IsSynced codec i e time_ns (ground arith) v)
                    (Knows-deliver known i e time_ns k fresh) (ground arith),
                deliver-new i e time_ns fresh,
                new,
              )
        ]

    opened-IsSynced :
        (i : Inbox E) → open_inbox event_id codec [] ≡ ok i → IsSynced codec i × Knows [] i
    unfolding open_inbox Journal.open_journal Journal.load Journal.last_hash Journal.replay select
        seen_of lookup contains
    opened-IsSynced i e =
        let same : record {
          journal = record { lines = []; records = []; head = genesis };
          seen = [];
        }
            ≡ i =
          cc in
        rw (← same) (
          record { loaded = record { loads = refl; head = refl }; dense = refl; seen = refl },
          λ id. refl,
        )

    -- From a new inbox on, restarts in between or not, if no delivered event has a text that
    -- breaks into lines, no call fails, and the answers are "accepted" to the first delivery of
    -- an id and "duplicate" to every later one.
    pub deliver_once :
        (turns : List Turn) (i : Inbox E)
        → open_inbox event_id codec [] ≡ ok i
        → all (is_plain_turn codec) turns ≡ true
        → run codec i turns ≡ ok (expected [] turns)
    deliver_once turns i e plain =
        let (v, k) = opened-IsSynced i e in run-expected turns [] i v k plain
