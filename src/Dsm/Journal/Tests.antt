-- ===== src/Dsm/Journal/Tests.antt =====
-- Runs of the journal, and the theorems at inputs.
use residual_agent_harness.Prelude.{
  String, nat_eq, not, contains, String-discrete, ◌≡◌, refl, ◌⊎◌, [], ◌∷◌, select, arith,
}
use residual_agent_harness.Prelude.Int.{pos, negsuc}
use residual_agent_harness.Prelude.Text.{codes}
use residual_agent_harness.Prelude.Result.{ok, err}
use residual_agent_harness.Dsm.Errors.{integrity_mismatch, malformed_line}
use residual_agent_harness.Dsm.Journal.{
  Body, Record, blank, garbled, entry, Codec, lines_of, Journal, genesis, last_hash, cursor, replay,
  links, load, open_journal, next_record, append, verify,
}
use residual_agent_harness.Dsm.Journal.Restart.{open_journal-append, open_journal-append_blank}
use residual_agent_harness.Dsm.Journal.Replay.{replay-behind}
use residual_agent_harness.Dsm.Journal.Chain.{Collision, head_determines_records}

program : Unit {0}
unfolding last_hash cursor replay links load open_journal next_record append verify select lines_of
    contains
program = tt

abbrev text_of : Body String → String
text_of b = b.payload

-- A text with a line separator is not plain.
abbrev codec : Codec String
codec = record {
  digest = text_of;
  is_plain = λ kind payload. not (contains 8232 (codes payload));
  rest = λ r. garbled ∷ [];
}

abbrev first : Record String
first = record {
  body = record { seq = 0; kind = "k"; time_ns = 1; prev_hash = genesis; payload = "x" };
  hash = "x";
}

abbrev second : Record String
second = record {
  body = record { seq = 1; kind = "k"; time_ns = 2; prev_hash = "x"; payload = "y" };
  hash = "y";
}

abbrev two : Journal String
two = record { lines = entry first ∷ entry second ∷ []; records = first ∷ second ∷ []; head = "y" }

abbrev with_separator : String
with_separator = "a\u{2028}b"

-- What is written with a line separator cannot be opened again.
open_split : open_journal text_of (append codec two "k" with_separator 3).lines ≡ err malformed_line
unfolding program
open_split = refl

abbrev spaced : Journal String
spaced = record { lines = entry first ∷ blank ∷ []; records = first ∷ []; head = "x" }

open_two : open_journal text_of two.lines ≡ ok two
unfolding program
open_two = refl

open_spaced : open_journal text_of spaced.lines ≡ ok spaced
unfolding program
open_spaced = refl

open_garbled : open_journal text_of (garbled ∷ []) ≡ err malformed_line
unfolding program
open_garbled = refl

open_swapped : open_journal text_of (entry second ∷ entry first ∷ []) ≡ err integrity_mismatch
unfolding program
open_swapped = refl

cursor-two :
    (cursor two ≡ pos 1) × (replay (negsuc 0) two ≡ two.records) × (verify text_of two ≡ ok 2)
unfolding program
cursor-two = (refl, refl, refl)

open_journal-append_example :
    open_journal text_of (append codec two "k" "z" 3).lines ≡ ok (append codec two "k" "z" 3)
unfolding contains
open_journal-append_example = open_journal-append codec two.lines two "k" "z" 3 open_two refl

open_journal-append_blank_example :
    open_journal text_of (append codec spaced "k" "z" 3).lines ≡ err integrity_mismatch
unfolding contains
open_journal-append_blank_example =
    open_journal-append_blank codec spaced.lines spaced "k" "z" 3 open_spaced (omega arith)

replay-behind_example : replay (pos 0) two ≡ second ∷ []
replay-behind_example = replay-behind text_of two.lines two [] first (second ∷ []) open_two refl

head_determines_records_example : (two.records ≡ two.records) ⊎ Collision text_of
head_determines_records_example =
    head_determines_records text_of String-discrete two.lines two.lines two two open_two open_two
      refl
