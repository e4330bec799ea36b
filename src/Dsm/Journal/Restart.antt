-- ===== src/Dsm/Journal/Restart.antt =====
-- What is written is read back, unless the file holds blank lines or a text a line boundary.
use residual_agent_harness.Prelude.{
  ℕ, ◌<◌, String, ◌≡◌, refl, sym, ◌∙◌, ap, inl, inr, List, [], ◌∷◌, ◌++◌, length, length-append,
  arith, Bool, true, false, ◌&&◌, all, all-append, ◌==◌, nat_eq, string_eq, if◌then◌else◌,
  Bool-cases,
}
use residual_agent_harness.Prelude.Result.{ok, err}
use residual_agent_harness.Dsm.Errors.{integrity_mismatch, malformed_line}
use residual_agent_harness.Dsm.Journal.{
  Line, entry, Codec, Journal, genesis, last_hash, load, open_journal, next_record, lines_of,
  append,
}
use residual_agent_harness.Dsm.Journal.Reading.{
  IsLoaded, IsDense, last_hash-append, load-append, links-next_record, load-garbled, load-err,
  open_journal-IsLoaded, open_journal_lem,
}

module _ {P : Type 0} (codec : Codec P) where
  -- What a restart reads after one more record.
  load_appended :
      (j : Journal P) (kind : String) (payload : P) (time_ns : ℕ)
      → IsLoaded codec.digest j
      → load codec.digest 0 genesis (append codec j kind payload time_ns).lines ≡ (
          if codec.is_plain kind payload
          then (if length j.records == length j.lines
              then ok (append codec j kind payload time_ns).records
              else err integrity_mismatch)
          else err malformed_line)
  unfolding append lines_of next_record
  load_appended j kind payload time_ns v =
      let r = next_record codec.digest j kind payload time_ns in
      elim (Bool-cases (codec.is_plain kind payload)) [
        | inl plain ↦ rw plain (
            load-append codec.digest j.lines 0 genesis j.records r v.loads
            ∙ ap (λ b. if b then ok (j.records ++ r ∷ []) else err integrity_mismatch)
                (links-next_record codec.digest j kind payload time_ns v.head))
        | inr broken ↦
            rw broken (load-garbled codec.digest j.lines (codec.rest r) 0 genesis j.records v.loads)
      ]

  pub append-IsLoaded :
      (j : Journal P) (kind : String) (payload : P) (time_ns : ℕ)
      → codec.is_plain kind payload ≡ true
      → IsLoaded codec.digest j
      → IsDense j
      → IsLoaded codec.digest (append codec j kind payload time_ns)
        × IsDense (append codec j kind payload time_ns)
  unfolding append lines_of next_record
  append-IsLoaded j kind payload time_ns plain v d =
      let r = next_record codec.digest j kind payload time_ns in
      (
        record {
          loads = ground (arith, load_appended j kind payload time_ns v);
          head = sym (last_hash-append j.records genesis r);
        },
        rw plain
            (omega (arith, length-append j.lines (entry r ∷ []), length-append j.records (r ∷ []))),
      )

  -- No text of the journal holds a line boundary.
  abbrev pub all_plain : Journal P → Bool
  all_plain j = all (λ r. codec.is_plain r.kind r.payload) j.records

  -- A journal that was written from an empty file on: the file can be read, and agrees with it,
  -- exactly if all its texts are plain.
  pub record IsKept (j : Journal P) : Type 0 where
    pub intact : all_plain j ≡ true → IsLoaded codec.digest j × IsDense j
    pub split : all_plain j ≡ false → load codec.digest 0 genesis j.lines ≡ err malformed_line

  all_plain-append :
      (j : Journal P) (kind : String) (payload : P) (time_ns : ℕ)
      → all_plain (append codec j kind payload time_ns)
        ≡ (all_plain j && codec.is_plain kind payload)
  unfolding append next_record all
  all_plain-append j kind payload time_ns =
      all-append (λ r. codec.is_plain r.kind r.payload) j.records _ ∙ ground (arith)

  load-split :
      (j : Journal P) (kind : String) (payload : P) (time_ns : ℕ)
      → load codec.digest 0 genesis j.lines ≡ err malformed_line
      → load codec.digest 0 genesis (append codec j kind payload time_ns).lines ≡ err malformed_line
  unfolding append
  load-split j kind payload time_ns e = load-err codec.digest j.lines _ 0 genesis malformed_line e

  pub append-IsKept :
      (j : Journal P) (kind : String) (payload : P) (time_ns : ℕ)
      → IsKept j
      → IsKept (append codec j kind payload time_ns)
  append-IsKept j kind payload time_ns v = elim (Bool-cases (all_plain j)) [
    | inl plain ↦
        let (loaded, dense) = v.intact plain in
        record {
          intact = λ h.
              append-IsLoaded j kind payload time_ns
                (ground (arith, all_plain-append j kind payload time_ns)) loaded dense;
          split = λ h. ground (
            arith,
            all_plain-append j kind payload time_ns,
            load_appended j kind payload time_ns loaded,
          );
        }
    | inr broken ↦ record {
      intact = λ h. absurd (ground (arith, all_plain-append j kind payload time_ns));
      split = λ h. load-split j kind payload time_ns (v.split broken);
    }
  ]

  pub empty-IsKept : IsKept (record { lines = []; records = []; head = genesis })
  unfolding load last_hash all
  empty-IsKept = record {
    intact = λ h. (record { loads = refl; head = refl }, refl);
    split = λ h. absurd (ground arith);
  }

  -- What a restart makes of such a journal.
  pub open_journal-IsKept :
      (j : Journal P)
      → IsKept j
      → open_journal codec.digest j.lines ≡ (if all_plain j then ok j else err malformed_line)
  unfolding open_journal
  open_journal-IsKept j v = elim (Bool-cases (all_plain j)) [
    | inl plain ↦ rw plain (open_journal_lem codec.digest j (v.intact plain).0)
    | inr broken ↦ rw (broken, v.split broken)
  ]

  -- A journal opened on a file without blank lines is the same after a record is appended and
  -- the file is opened anew, if the text of the record is free of line boundaries; otherwise the
  -- file cannot be opened again.
  pub open_journal-append :
      (ls : List (Line P)) (j : Journal P) (kind : String) (payload : P) (time_ns : ℕ)
      → open_journal codec.digest ls ≡ ok j
      → length ls ≡ length j.records
      → open_journal codec.digest (append codec j kind payload time_ns).lines ≡ (
          if codec.is_plain kind payload
          then ok (append codec j kind payload time_ns)
          else err malformed_line)
  unfolding open_journal
  open_journal-append ls j kind payload time_ns e d =
      let (v, same) = open_journal-IsLoaded codec.digest ls j e in
      elim (Bool-cases (codec.is_plain kind payload)) [
        | inl plain ↦
            let (v', d') = append-IsLoaded j kind payload time_ns plain v (ap length same ∙ d) in
            rw plain (open_journal_lem codec.digest _ v')
        | inr broken ↦ ground (arith, load_appended j kind payload time_ns v)
      ]

  -- A blank line is passed over when the file is opened, but counted: where a file with blank
  -- lines opens, one append leaves a file that cannot be opened again, whatever is appended.
  pub open_journal-append_blank :
      (ls : List (Line P)) (j : Journal P) (kind : String) (payload : P) (time_ns : ℕ)
      → open_journal codec.digest ls ≡ ok j
      → length j.records < length ls
      → open_journal codec.digest (append codec j kind payload time_ns).lines
        ≡ (if codec.is_plain kind payload then err integrity_mismatch else err malformed_line)
  unfolding open_journal
  open_journal-append_blank ls j kind payload time_ns e lt =
      let (v, same) = open_journal-IsLoaded codec.digest ls j e in
      ground (arith, load_appended j kind payload time_ns v, ap length same)
