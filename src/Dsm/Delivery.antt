-- ===== src/Dsm/Delivery.antt =====
-- residual/dsm/delivery.py: durable acknowledgements and idempotent delivery. An event is any
-- value with an id; each log has a journal of its own.
pub mod Inboxes
pub mod Outboxes
pub mod Pending
mod Tests
use residual_agent_harness.Prelude.{
  ℕ, String, Bool, true, false, not, Option, none, some, List, [], ◌∷◌, ◌++◌, map, contains, length,
  select, ◌==◌, string_eq, if◌then◌else◌,
}
use residual_agent_harness.Prelude.Int
use residual_agent_harness.Prelude.Text.{str_lt}
use residual_agent_harness.Prelude.Dict.{Dict, lookup, insert}
use residual_agent_harness.Prelude.Result.{Result, ok, err, ◌>>=◌}
use residual_agent_harness.Dsm.Errors.{Error}
use residual_agent_harness.Dsm.Journal
use residual_agent_harness.Dsm.Journal.{Record, Line, Codec}

-- The durable set of acknowledged ids.
pub record AckLog : Type 0 where
  pub journal : Journal.Journal String
  pub acked : List String

module _ (codec : Codec String) where
  unfoldable pub open_acks : List (Line String) → Result Error AckLog
  open_acks lines = do
    j ← Journal.open_journal codec.digest lines
    ok (record { journal = j; acked = map (λ r. r.payload) (Journal.replay (Int.negsuc 0) j) })

  -- True if the acknowledgement is new.
  unfoldable pub ack : AckLog → String → ℕ → AckLog × Bool
  ack a event_id time_ns = if contains event_id a.acked then (a, false) else (
    record {
      journal = Journal.append codec a.journal "ack" event_id time_ns;
      acked = a.acked ++ event_id ∷ [];
    },
    true,
  )

unfoldable pub is_acked : AckLog → String → Bool
is_acked a event_id = contains event_id a.acked

abbrev pub has {ℓ} : {A : Type ℓ} → Option A → Bool
has none = false
has (some a) = true

-- `sorted` of the items of a dict, whose keys are distinct
place {ℓ} : {V : Type ℓ} → String × V → Dict V → Dict V
place (k, v) [] = (k, v) ∷ []
place (k, v) ((j, w) ∷ d) = if str_lt j k then (j, w) ∷ place (k, v) d else (k, v) ∷ (j, w) ∷ d

unfoldable pub sorted_items {ℓ} : {V : Type ℓ} → Dict V → Dict V
unfolding place
sorted_items [] = []
sorted_items (i ∷ d) = place i (sorted_items d)

pub record Outbox (E : Type 0) : Type 0 where
  pub journal : Journal.Journal E
  pub acks : AckLog
  pub sent : Dict E

pub record Inbox (E : Type 0) : Type 0 where
  pub journal : Journal.Journal (E × String)
  pub seen : Dict String

pub data Delivery : Type 0 where
  accepted duplicate : Delivery

module _ {E : Type 0} (event_id : E → String) where
  -- `{id: event for the "send" records}`: a later record overrides an earlier one
  unfoldable pub sent_of : List (Record E) → Dict E → Dict E
  sent_of [] d = d
  sent_of (r ∷ rs) d =
      sent_of rs (if r.kind == "send" then insert (event_id r.payload) r.payload d else d)

  unfoldable pub seen_of : List (Record (E × String)) → Dict String → Dict String
  seen_of [] d = d
  seen_of (r ∷ rs) d =
      seen_of rs (if r.kind == "deliver" then insert (event_id r.payload.0) r.payload.1 d else d)

  module _ (codec : Codec E) where
    unfoldable pub publish : Outbox E → E → ℕ → Outbox E × String
    publish o event time_ns =
        if has (lookup (event_id event) o.sent) then (o, event_id event) else (
          record o {
            journal = Journal.append codec o.journal "send" event time_ns;
            sent = insert (event_id event) event o.sent;
          },
          event_id event,
        )

  -- Both journals are read again.
  unfoldable pub open_outbox :
      Codec E → Codec String → List (Line E) → List (Line String) → Result Error (Outbox E)
  open_outbox codec ack_codec lines ack_lines = do
    j ← Journal.open_journal codec.digest lines
    a ← open_acks ack_codec ack_lines
    ok (record { journal = j; acks = a; sent = sent_of (Journal.replay (Int.negsuc 0) j) [] })

  module _ (codec : Codec (E × String)) where
    unfoldable pub open_inbox : List (Line (E × String)) → Result Error (Inbox E)
    open_inbox lines = do
      j ← Journal.open_journal codec.digest lines
      ok (record { journal = j; seen = seen_of (Journal.replay (Int.negsuc 0) j) [] })

    unfoldable pub deliver : Inbox E → E → ℕ → Inbox E × Delivery
    deliver i event time_ns = if has (lookup (event_id event) i.seen) then (i, duplicate) else (
      record {
        journal = Journal.append codec i.journal "deliver" (event, "accepted") time_ns;
        seen = insert (event_id event) "accepted" i.seen;
      },
      accepted,
    )

unfoldable pub is_seen : {E : Type 0} → Inbox E → String → Bool
is_seen i event_id = has (lookup event_id i.seen)

-- The events sent but not acknowledged, by id.
unfoldable pub pending : {E : Type 0} → Outbox E → List E
unfolding is_acked sorted_items
pending o = map (λ i. i.1) (select (λ i. not (is_acked o.acks i.0)) (sorted_items o.sent))

unfoldable pub ack_outbox : {E : Type 0} → Codec String → Outbox E → String → ℕ → Outbox E × Bool
unfolding ack
ack_outbox codec o id time_ns =
    let (a, is_new) = ack codec o.acks id time_ns in (record o { acks = a }, is_new)
