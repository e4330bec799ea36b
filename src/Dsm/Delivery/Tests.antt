-- ===== src/Dsm/Delivery/Tests.antt =====
-- Runs of the delivery logs, and the theorems at inputs.
use residual_agent_harness.Prelude.{
  String, nat_eq, all, true, not, ◌&&◌, ◌≡◌, refl, List, [], ◌∷◌, map, contains, select, string_eq,
}
use residual_agent_harness.Prelude.Text.{codes}
use residual_agent_harness.Prelude.Result.{ok}
use residual_agent_harness.Dsm.Journal
use residual_agent_harness.Dsm.Journal.{Codec, garbled, genesis}
use residual_agent_harness.Dsm.Delivery.{
  Inbox, Outbox, accepted, duplicate, seen_of, sent_of, open_acks, open_inbox, open_outbox, pending,
}
use residual_agent_harness.Dsm.Delivery.Inboxes
use residual_agent_harness.Dsm.Delivery.Inboxes.{
  Turn, delivers, is_plain_turn, run, expected, deliver_once,
}
use residual_agent_harness.Dsm.Delivery.Pending
use residual_agent_harness.Dsm.Delivery.Pending.{
  Move, publishes, acks, is_plain_move, published, acknowledged, move_all, empty_outbox,
  pending-move_all,
}

program : Unit {0}
unfolding select seen_of sent_of open_acks open_inbox open_outbox Journal.open_journal Journal.load
    Journal.last_hash Journal.replay
program = tt

-- An event that is its own id.
abbrev self : String → String
self e = e

-- A text with a line separator is not plain.
abbrev kind_of : Codec (String × String)
kind_of = record {
  digest = λ b. b.kind;
  is_plain = λ kind p. not (contains 8232 (codes p.0));
  rest = λ r. garbled ∷ [];
}

abbrev payload_of : Codec String
payload_of = record {
  digest = λ b. b.payload;
  is_plain = λ kind id. not (contains 8232 (codes id));
  rest = λ r. garbled ∷ [];
}

abbrev empty_inbox : Inbox String
empty_inbox = record { journal = record { lines = []; records = []; head = genesis }; seen = [] }

abbrev turns : List (Turn self)
turns = delivers "a" 1 ∷ Inboxes.restarts ∷ delivers "b" 2 ∷ delivers "a" 3 ∷ []

open_empty_inbox : open_inbox self kind_of [] ≡ ok empty_inbox
unfolding program
open_empty_inbox = refl

plain_turns : all (is_plain_turn self kind_of) turns ≡ true
unfolding is_plain_turn all contains
plain_turns = refl

deliver_once_example :
    run self kind_of empty_inbox turns ≡ ok (accepted ∷ accepted ∷ duplicate ∷ [])
unfolding expected contains
deliver_once_example = deliver_once self kind_of turns empty_inbox open_empty_inbox plain_turns

abbrev moves : List (Move String)
moves = publishes "a" 1 ∷ acks "a" 2 ∷ Pending.restarts ∷ publishes "b" 3 ∷ []

open_empty_outbox :
    open_outbox self payload_of payload_of [] [] ≡ ok (empty_outbox self payload_of payload_of)
unfolding program
open_empty_outbox = refl

plain_moves : all (is_plain_move self payload_of payload_of) moves ≡ true
unfolding is_plain_move all contains
plain_moves = refl

pending-move_all_example :
    (o : Outbox String) × (move_all self payload_of payload_of
        (empty_outbox self payload_of payload_of)
        moves
      ≡ ok o)
    × (contains "b" (map self (pending o))
        ≡ (contains "b" (published self moves) && not (contains "b" (acknowledged self moves))))
pending-move_all_example =
    pending-move_all self payload_of payload_of "b" moves (empty_outbox self payload_of payload_of)
      open_empty_outbox plain_moves
