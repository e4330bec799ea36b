-- ===== src/Dsm/Delivery/Outboxes.antt =====
-- The outbox agrees with its two journals, and what `pending` lists.
use text.Mathlib.TextEquality.{eq_iff}
use residual_agent_harness.Prelude.{
  ℕ, String, Bool, true, not, ◌&&◌, ◌||◌, ◌≡◌, refl, sym, ap, ◌∙◌, List, [], ◌∷◌, ◌++◌, map,
  map-append, arith, contains, select, ◌==◌, string_eq, Bool-cases, inl, inr, ==_sym, All,
}
use residual_agent_harness.Prelude.Dict.{Dict, lookup, insert}
use residual_agent_harness.Prelude.Result.{ok}
use residual_agent_harness.Dsm.Journal
use residual_agent_harness.Dsm.Journal.{Codec, Record}
use residual_agent_harness.Dsm.Journal.Reading.{IsLoaded, IsDense, open_journal_lem}
use residual_agent_harness.Dsm.Journal.Restart.{append-IsLoaded}
use residual_agent_harness.Dsm.Journal.Replay.{replay_all}
use residual_agent_harness.Dsm.Delivery.{
  AckLog, Outbox, has, place, sorted_items, is_acked, open_acks, sent_of, open_outbox, publish,
  ack_outbox, pending,
}

module _ {V : Type 0} where
  abbrev pub keys : Dict V → List String
  keys = map (λ i. i.0)

  pub has-lookup : (id : String) (d : Dict V) → has (lookup id d) ≡ contains id (keys d)
  unfolding lookup contains
  has-lookup id [] = refl
  has-lookup id ((j, v) ∷ d) = ground (arith, has-lookup id d, ==_sym id j)

  contains-place :
      (id k : String) (v : V) (d : Dict V)
      → contains id (keys (place (k, v) d)) ≡ (id == k || contains id (keys d))
  unfolding place contains
  contains-place id k v [] = refl
  contains-place id k v ((j, w) ∷ d) = ground (arith, contains-place id k v d)

  contains-sorted_items :
      (id : String) (d : Dict V) → contains id (keys (sorted_items d)) ≡ contains id (keys d)
  unfolding sorted_items contains
  contains-sorted_items id [] = refl
  contains-sorted_items id ((k, v) ∷ d) =
      contains-place id k v (sorted_items d) ∙ ap (λ b. id == k || b) (contains-sorted_items id d)

  contains-select :
      (p : String → Bool) (id : String) (d : Dict V)
      → contains id (keys (select (λ i. p i.0) d)) ≡ (contains id (keys d) && p id)
  unfolding select contains
  contains-select p id [] = refl
  contains-select p id ((j, v) ∷ d) = ground (arith, contains-select p id d, eq_iff id j)

module _ {E : Type 0} (event_id : E → String) where
  -- Each event stands under its own id.
  abbrev pub IsKeyed : Dict E → Type 0
  IsKeyed = All (λ i. event_id i.1 ≡ i.0)

  IsKeyed-place :
      (k : String) (e : E) (d : Dict E) → event_id e ≡ k → IsKeyed d → IsKeyed (place (k, e) d)
  unfolding place
  IsKeyed-place k e [] h v = (h, tt)
  IsKeyed-place k e ((j, w) ∷ d) h v = ground (arith, IsKeyed-place k e d h v.1)

  IsKeyed-sorted_items : (d : Dict E) → IsKeyed d → IsKeyed (sorted_items d)
  unfolding sorted_items
  IsKeyed-sorted_items [] v = tt
  IsKeyed-sorted_items ((k, e) ∷ d) v =
      IsKeyed-place k e (sorted_items d) v.0 (IsKeyed-sorted_items d v.1)

  IsKeyed-select : (p : String × E → Bool) (d : Dict E) → IsKeyed d → IsKeyed (select p d)
  unfolding select
  IsKeyed-select p [] v = tt
  IsKeyed-select p (i ∷ d) v = ground (arith, IsKeyed-select p d v.1)

  IsKeyed-insert : (e : E) (d : Dict E) → IsKeyed d → IsKeyed (insert (event_id e) e d)
  unfolding insert
  IsKeyed-insert e [] v = (refl, tt)
  IsKeyed-insert e ((j, w) ∷ d) v = ground (arith, IsKeyed-insert e d v.1, eq_iff j (event_id e))

  ids-keys : (d : Dict E) → IsKeyed d → map event_id (map (λ i. i.1) d) ≡ keys d
  ids-keys [] v = refl
  ids-keys (i ∷ d) v = cc (v.0, ids-keys d v.1)

  -- The pending ids are those sent and not acknowledged.
  pub contains-pending :
      (o : Outbox E) (id : String)
      → IsKeyed o.sent
      → contains id (map event_id (pending o))
        ≡ (has (lookup id o.sent) && not (contains id o.acks.acked))
  unfolding pending is_acked
  contains-pending o id v =
      let still = λ (k : String). not (contains k o.acks.acked) in
      let d = select (λ i. still i.0) (sorted_items o.sent) in
      ap (contains id) (ids-keys d (IsKeyed-select _ _ (IsKeyed-sorted_items o.sent v)))
      ∙ contains-select still id (sorted_items o.sent)
      ∙ ap (λ b. b && still id) (contains-sorted_items id o.sent ∙ sym (has-lookup id o.sent))

  sent_of-append :
      (rs : List (Record E)) (d : Dict E) (r : Record E)
      → r.kind ≡ "send"
      → sent_of event_id (rs ++ r ∷ []) d
        ≡ insert (event_id r.payload) r.payload (sent_of event_id rs d)
  unfolding sent_of
  sent_of-append [] d r k = rw k
  sent_of-append (x ∷ rs) d r k = sent_of-append rs _ r k

  module _ (codec : Codec E) (ack_codec : Codec String) where
    pub record IsSynced (o : Outbox E) : Type 0 where
      pub loaded : IsLoaded codec.digest o.journal
      pub dense : IsDense o.journal
      pub acks_loaded : IsLoaded ack_codec.digest o.acks.journal
      pub acks_dense : IsDense o.acks.journal
      pub sent : o.sent ≡ sent_of event_id o.journal.records []
      pub acked : o.acks.acked ≡ map (λ r. r.payload) o.acks.journal.records
      pub keyed : IsKeyed o.sent

    pub open_outbox_lem :
        (o : Outbox E)
        → IsSynced o
        → open_outbox event_id codec ack_codec o.journal.lines o.acks.journal.lines ≡ ok o
    unfolding open_outbox open_acks
    open_outbox_lem o v = rw (
      open_journal_lem codec.digest o.journal v.loaded,
      open_journal_lem ack_codec.digest o.acks.journal v.acks_loaded,
      replay_all o.journal,
      replay_all o.acks.journal,
      ← v.sent,
      ← v.acked,
    )

    published-sent :
        (o : Outbox E) (e : E) (time_ns : ℕ)
        → o.sent ≡ sent_of event_id o.journal.records []
        → insert (event_id e) e o.sent
          ≡ sent_of event_id (Journal.append codec o.journal "send" e time_ns).records []
    unfolding Journal.append Journal.next_record
    published-sent o e time_ns v = rw (
      sent_of-append o.journal.records []
          (Journal.next_record codec.digest o.journal "send" e time_ns) refl,
      ← v,
    )

    pub publish-IsSynced :
        (o : Outbox E) (e : E) (time_ns : ℕ)
        → codec.is_plain "send" e ≡ true
        → IsSynced o
        → IsSynced (publish event_id codec o e time_ns).0
    unfolding publish
    publish-IsSynced o e time_ns plain v = elim (Bool-cases (has (lookup (event_id e) o.sent))) [
      | inl old ↦ rw old v
      | inr new ↦
          let (loaded, dense) =
            append-IsLoaded codec o.journal "send" e time_ns plain v.loaded v.dense in
          rw new (record {
            loaded = loaded;
            dense = dense;
            acks_loaded = v.acks_loaded;
            acks_dense = v.acks_dense;
            sent = published-sent o e time_ns v.sent;
            acked = v.acked;
            keyed = IsKeyed-insert e o.sent v.keyed;
          })
    ]

    acked-payloads :
        (a : AckLog) (id : String) (time_ns : ℕ)
        → a.acked ≡ map (λ r. r.payload) a.journal.records
        → a.acked ++ id ∷ []
          ≡ map (λ r. r.payload) (Journal.append ack_codec a.journal "ack" id time_ns).records
    unfolding Journal.append Journal.next_record
    acked-payloads a id time_ns v = rw (map-append, ← v)

    pub ack_outbox-IsSynced :
        (o : Outbox E) (id : String) (time_ns : ℕ)
        → ack_codec.is_plain "ack" id ≡ true
        → IsSynced o
        → IsSynced (ack_outbox ack_codec o id time_ns).0
    unfolding ack_outbox
    ack_outbox-IsSynced o id time_ns plain v = elim (Bool-cases (contains id o.acks.acked)) [
      | inl old ↦ rw old v
      | inr new ↦
          let (loaded, dense) =
            append-IsLoaded ack_codec o.acks.journal "ack" id time_ns plain v.acks_loaded
              v.acks_dense in
          rw new (record {
            loaded = v.loaded;
            dense = v.dense;
            acks_loaded = loaded;
            acks_dense = dense;
            sent = v.sent;
            acked = acked-payloads o.acks id time_ns v.acked;
            keyed = v.keyed;
          })
    ]
