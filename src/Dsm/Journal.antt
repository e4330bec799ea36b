-- ===== src/Dsm/Journal.antt =====
-- residual/dsm/journal.py: the hash-chained journal. A file is the list of the lines that
-- `splitlines` gives, each read as JSON, and the last one is ended. What the canonical text of a
-- record is, is a parameter.
pub mod Chain
pub mod Reading
pub mod Restart
pub mod Replay
mod Tests
use residual_agent_harness.Prelude.{
  ℕ, suc, ◌-◌, String, Bool, ◌&&◌, List, [], ◌∷◌, ◌++◌, length, select, ◌==◌, nat_eq, string_eq,
  if◌then◌else◌,
}
use residual_agent_harness.Prelude.Int.{ℤ, pos, ltb_ℤ, ◌-ℤ◌}
use residual_agent_harness.Prelude.Result.{Result, ok, err, ◌>>=◌}
use residual_agent_harness.Dsm.Errors.{Error, integrity_mismatch, malformed_line}

abbrev pub genesis : String
genesis = "0000000000000000000000000000000000000000000000000000000000000000"

pub record Body (P : Type 0) : Type 0 where
  pub seq : ℕ
  pub kind : String
  pub time_ns : ℕ
  pub prev_hash : String
  pub payload : P

pub record Record (P : Type 0) : Type 0 where
  pub body : Body P
  pub open body use *
  pub hash : String

-- `garbled`: the text is no JSON, or lacks a key.
pub data Line (P : Type 0) : Type 0 where
  blank garbled : Line P
  entry : Record P → Line P

-- What the journal relies on of `canonical_json`, which leaves the characters of a text as they
-- are, of SHA-256 and of `splitlines`: `digest` is the hash of a body. `is_plain` tells whether
-- the text of a kind and a payload is free of the line boundaries that JSON does not escape (the
-- characters U+0085, U+2028 and U+2029). A text that holds one is read as several lines: the
-- first ends inside a string, so it is no JSON, and the others are `rest`.
pub record Codec (P : Type 0) : Type 0 where
  pub digest : Body P → String
  pub is_plain : String → P → Bool
  pub rest : Record P → List (Line P)

pub record Journal (P : Type 0) : Type 0 where
  pub lines : List (Line P)
  pub records : List (Record P)
  pub head : String

module _ {P : Type 0} where
  -- `records[-1]["hash"] if records else previous`
  unfoldable pub last_hash : String → List (Record P) → String
  last_hash previous [] = previous
  last_hash previous (r ∷ rs) = last_hash r.hash rs

  -- The highest durable sequence number, -1 if there is none.
  unfoldable pub cursor : Journal P → ℤ
  unfolding ◌-ℤ◌
  cursor j = pos (length j.records) -ℤ pos 1

  -- The records with seq > from_seq.
  unfoldable pub replay : ℤ → Journal P → List (Record P)
  replay from_seq j = select (λ r. ltb_ℤ from_seq (pos r.seq)) j.records

module _ {P : Type 0} (digest : Body P → String) where
  -- The test of `_load` on the record of line `index`.
  unfoldable pub links : ℕ → String → Record P → Bool
  links index previous r = r.seq == index && r.prev_hash == previous && digest r.body == r.hash

  -- The loop of `_load`. A blank line is passed over, but counted by `enumerate`.
  unfoldable pub load : ℕ → String → List (Line P) → Result Error (List (Record P))
  load index previous [] = ok []
  load index previous (blank ∷ ls) = load (suc index) previous ls
  load index previous (garbled ∷ ls) = err malformed_line
  load index previous (entry r ∷ ls) =
      let rest = load (suc index) r.hash ls in
      if links index previous r then (rest >>= λ rs. ok (r ∷ rs)) else err integrity_mismatch

  -- `Journal(path)` on the lines of the file
  unfoldable pub open_journal : List (Line P) → Result Error (Journal P)
  open_journal ls = do
    rs ← load 0 genesis ls
    ok (record { lines = ls; records = rs; head = last_hash genesis rs })

  -- The record that `append` writes.
  unfoldable pub next_record : Journal P → String → P → ℕ → Record P
  next_record j kind payload time_ns =
      let body : Body P = record {
        seq = length j.records;
        kind = kind;
        time_ns = time_ns;
        prev_hash = j.head;
        payload = payload;
      } in
      record { body = body; hash = digest body }

  -- `verify` loads the file anew.
  unfoldable pub verify : Journal P → Result Error ℕ
  verify j = do rs ← load 0 genesis j.lines; ok (length rs)

module _ {P : Type 0} (codec : Codec P) where
  -- What a later reader finds where the text of the record was written.
  unfoldable pub lines_of : Record P → List (Line P)
  lines_of r = if codec.is_plain r.kind r.payload then entry r ∷ [] else garbled ∷ codec.rest r

  unfoldable pub append : Journal P → String → P → ℕ → Journal P
  unfolding lines_of
  append j kind payload time_ns =
      let r = next_record codec.digest j kind payload time_ns in
      record { lines = j.lines ++ lines_of r; records = j.records ++ r ∷ []; head = r.hash }
