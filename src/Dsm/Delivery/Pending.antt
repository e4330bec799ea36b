-- ===== src/Dsm/Delivery/Pending.antt =====
-- An event stays pending from its publication to its acknowledgement, restarts or not.
use text.Mathlib.TextEquality.{eq_iff}
use residual_agent_harness.Prelude.{
  ℕ, String, Bool, true, all, not, ◌&&◌, ◌||◌, ◌≡◌, refl, ap, ◌∙◌, List, [], ◌∷◌, map, arith,
  contains, contains-append, ◌==◌, string_eq, select,
}
use residual_agent_harness.Prelude.Dict.{lookup, lookup-insert}
use residual_agent_harness.Prelude.Result.{Result, ok, ◌>>=◌}
use residual_agent_harness.Dsm.Errors.{Error}
use residual_agent_harness.Dsm.Journal
use residual_agent_harness.Dsm.Journal.{Codec, genesis}
use residual_agent_harness.Dsm.Delivery.{
  Outbox, has, sent_of, open_acks, open_outbox, publish, ack_outbox, pending,
}
use residual_agent_harness.Dsm.Delivery.Outboxes.{
  IsSynced, contains-pending, open_outbox_lem, publish-IsSynced, ack_outbox-IsSynced,
}

-- What happens to an outbox; a restart reads both files anew.
pub data Move (E : Type 0) : Type 0 where
  publishes : E → ℕ → Move E
  acks : String → ℕ → Move E
  restarts : Move E

module _ {E : Type 0} (event_id : E → String) where
  -- The ids published, and those acknowledged.
  unfoldable pub published : List (Move E) → List String
  published [] = []
  published (publishes e t ∷ moves) = event_id e ∷ published moves
  published (acks id t ∷ moves) = published moves
  published (restarts ∷ moves) = published moves

  unfoldable pub acknowledged : List (Move E) → List String
  acknowledged [] = []
  acknowledged (publishes e t ∷ moves) = acknowledged moves
  acknowledged (acks id t ∷ moves) = id ∷ acknowledged moves
  acknowledged (restarts ∷ moves) = acknowledged moves

  module _ (codec : Codec E) (ack_codec : Codec String) where
    pub move : Outbox E → Move E → Result Error (Outbox E)
    move o (publishes e t) = ok (publish event_id codec o e t).0
    move o (acks id t) = ok (ack_outbox ack_codec o id t).0
    move o restarts = open_outbox event_id codec ack_codec o.journal.lines o.acks.journal.lines

    -- The texts of what is published and acknowledged hold no line boundary.
    unfoldable pub is_plain_move : Move E → Bool
    is_plain_move (publishes e t) = codec.is_plain "send" e
    is_plain_move (acks id t) = ack_codec.is_plain "ack" id
    is_plain_move restarts = true

    unfoldable pub move_all : Outbox E → List (Move E) → Result Error (Outbox E)
    unfolding move
    move_all o [] = ok o
    move_all o (m ∷ moves) = do o' ← move o m; move_all o' moves

    abbrev pub empty_outbox : Outbox E
    empty_outbox = record {
      journal = record { lines = []; records = []; head = genesis };
      acks = record { journal = record { lines = []; records = []; head = genesis }; acked = [] };
      sent = [];
    }

    contains_one : (id id' : String) → contains id (id' ∷ []) ≡ (id == id')
    unfolding contains
    contains_one id id' = ground arith

    sent-ack : (o : Outbox E) (id : String) (t : ℕ) → (ack_outbox ack_codec o id t).0.sent ≡ o.sent
    unfolding ack_outbox
    sent-ack o id t = refl

    acks-publish : (o : Outbox E) (e : E) (t : ℕ) → (publish event_id codec o e t).0.acks ≡ o.acks
    unfolding publish
    acks-publish o e t = ground arith

    has-publish :
        (o : Outbox E) (e : E) (t : ℕ) (id : String)
        → has (lookup id (publish event_id codec o e t).0.sent)
          ≡ (id == event_id e || has (lookup id o.sent))
    unfolding publish
    has-publish o e t id = ground (
      arith,
      lookup-insert (event_id e) id e o.sent,
      eq_iff id (event_id e),
      eq_iff (event_id e) id,
    )

    acked-ack :
        (o : Outbox E) (id' : String) (t : ℕ) (id : String)
        → contains id (ack_outbox ack_codec o id' t).0.acks.acked
          ≡ (id == id' || contains id o.acks.acked)
    unfolding ack_outbox
    acked-ack o id' t id =
        ground
          (arith, contains-append id o.acks.acked (id' ∷ []), eq_iff id id', contains_one id id')

    -- The id is among the first list exactly if it was before the moves or is in the second.
    record Tracks (id : String) (o o' : Outbox E) (moves : List (Move E)) : Type 0 where
      synced : IsSynced event_id codec ack_codec o'
      sent : has (lookup id o'.sent) ≡ (has (lookup id o.sent) || contains id (published moves))
      acked :
          contains id o'.acks.acked ≡ (contains id o.acks.acked || contains id (acknowledged moves))

    move_all-Tracks :
        (id : String) (moves : List (Move E)) (o : Outbox E)
        → all is_plain_move moves ≡ true
        → IsSynced event_id codec ack_codec o
        → (o' : Outbox E) × (move_all o moves ≡ ok o') × Tracks id o o' moves
    unfolding move_all published acknowledged contains is_plain_move all
    move_all-Tracks id [] o plain v =
        (o, refl, record { synced = v; sent = ground arith; acked = ground arith })
    move_all-Tracks id (publishes e t ∷ moves) o plain v =
        let (o', moved, k) =
          move_all-Tracks id moves (publish event_id codec o e t).0 (ground arith)
            (publish-IsSynced event_id codec ack_codec o e t (ground arith) v) in
        (
          o',
          moved,
          record {
            synced = k.synced;
            sent = k.sent ∙ ground (arith, has-publish o e t id);
            acked =
                k.acked
                ∙ ap (λ a. contains id a.acked || contains id (acknowledged moves))
                    (acks-publish o e t);
          },
        )
    move_all-Tracks id (acks id' t ∷ moves) o plain v =
        let (o', moved, k) =
          move_all-Tracks id moves (ack_outbox ack_codec o id' t).0 (ground arith)
            (ack_outbox-IsSynced event_id codec ack_codec o id' t (ground arith) v) in
        (
          o',
          moved,
          record {
            synced = k.synced;
            sent =
                k.sent
                ∙ ap (λ d. has (lookup id d) || contains id (published moves)) (sent-ack o id' t);
            acked = k.acked ∙ ground (arith, acked-ack o id' t id);
          },
        )
    move_all-Tracks id (restarts ∷ moves) o plain v =
        let (o', moved, k) = move_all-Tracks id moves o plain v in
        (
          o',
          rw (open_outbox_lem event_id codec ack_codec o v) moved,
          record { synced = k.synced; sent = k.sent; acked = k.acked },
        )

    opened-IsSynced :
        (o : Outbox E)
        → open_outbox event_id codec ack_codec [] [] ≡ ok o
        → IsSynced event_id codec ack_codec o
    unfolding open_outbox open_acks Journal.open_journal Journal.load Journal.last_hash
        Journal.replay select sent_of
    opened-IsSynced o e =
        let same : empty_outbox ≡ o = cc in
        rw (← same) (record {
          loaded = record { loads = refl; head = refl };
          dense = refl;
          acks_loaded = record { loads = refl; head = refl };
          acks_dense = refl;
          sent = refl;
          acked = refl;
          keyed = tt;
        })

    pending-moved :
        (id : String) (moves : List (Move E)) (o o' : Outbox E)
        → open_outbox event_id codec ack_codec [] [] ≡ ok o
        → Tracks id o o' moves
        → contains id (map event_id (pending o'))
          ≡ (contains id (published moves) && not (contains id (acknowledged moves)))
    unfolding open_outbox open_acks Journal.open_journal Journal.load Journal.last_hash
        Journal.replay select sent_of lookup contains
    pending-moved id moves o o' e k =
        let same : empty_outbox ≡ o = cc in
        contains-pending event_id o' id k.synced.keyed ∙ ground (arith, k.sent, k.acked, same)

    -- From a new outbox on, however it is published, acknowledged and restarted, if no text
    -- of a record breaks into lines, no call fails, and an id is pending exactly if it was published
    -- and has not been acknowledged.
    pub pending-move_all :
        (id : String) (moves : List (Move E)) (o : Outbox E)
        → open_outbox event_id codec ack_codec [] [] ≡ ok o
        → all is_plain_move moves ≡ true
        → (o' : Outbox E) × (move_all o moves ≡ ok o')
          × (contains id (map event_id (pending o'))
              ≡ (contains id (published moves) && not (contains id (acknowledged moves))))
    pending-move_all id moves o e plain =
        let (o', moved, k) = move_all-Tracks id moves o plain (opened-IsSynced o e) in
        (o', moved, pending-moved id moves o o' e k)
