-- ===== src/Dsm/Journal/Reading.antt =====
-- What a file with one more line reads as, by what it read as before.
use text.Mathlib.TextEquality.{eq_iff}
use residual_agent_harness.Prelude.{
  ℕ, suc, ◌+◌, String, ◌≡◌, refl, inl, inr, List, [], ◌∷◌, ◌++◌, length, arith, ◌==◌, nat_eq,
  string_eq, if◌then◌else◌, Bool-cases,
}
use residual_agent_harness.Prelude.Result.{ok, err, ◌>>=◌, >>=-eq-ok, Result-cases}
use residual_agent_harness.Dsm.Errors.{Error, integrity_mismatch, malformed_line}
use residual_agent_harness.Dsm.Journal.{
  Body, Record, Line, blank, garbled, entry, Journal, genesis, last_hash, links, load, open_journal,
  next_record,
}

module _ {P : Type 0} where
  pub last_hash-append :
      (rs : List (Record P)) (previous : String) (r : Record P)
      → last_hash previous (rs ++ r ∷ []) ≡ r.hash
  unfolding last_hash
  last_hash-append [] previous r = refl
  last_hash-append (x ∷ rs) previous r = last_hash-append rs x.hash r

  -- No line is blank or garbled: each holds a record.
  abbrev pub IsDense : Journal P → Type 0
  IsDense j = length j.lines ≡ length j.records

module _ {P : Type 0} (digest : Body P → String) where
  -- One more line is judged by the number of lines before it and the last hash.
  pub load-append :
      (ls : List (Line P)) (i : ℕ) (previous : String) (rs : List (Record P)) (r : Record P)
      → load digest i previous ls ≡ ok rs
      → load digest i previous (ls ++ entry r ∷ []) ≡ (
          if links digest (i + length ls) (last_hash previous rs) r
          then ok (rs ++ r ∷ [])
          else err integrity_mismatch)
  unfolding load last_hash
  load-append [] i previous rs r e =
      let nil : ◌≡◌ {A = List (Record P)} [] rs = cc in
      let here : i + 0 ≡ i = omega arith in rw (← nil, here) refl
  load-append (blank ∷ ls) i previous rs r e =
      let shift : i + suc (length ls) ≡ suc i + length ls = omega arith in
      rw shift (load-append ls (suc i) previous rs r e)
  load-append (garbled ∷ ls) i previous rs r e = cc
  load-append (entry x ∷ ls) i previous rs r e = elim (Bool-cases (links digest i previous x)) [
    | inr broken ↦ absurd (ground arith)
    | inl linked ↦
        let loaded : (load digest (suc i) x.hash ls >>= λ rs. ok (x ∷ rs)) ≡ ok rs = ground arith in
        let (xs, tail, e') = >>=-eq-ok (load digest (suc i) x.hash ls) _ loaded in
        let split : x ∷ xs ≡ rs = cc in
        let shift : i + suc (length ls) ≡ suc i + length ls = omega arith in
        rw (← split, shift, linked, load-append ls (suc i) x.hash xs r tail) (ground arith)
  ]

  -- A journal that agrees with its file.
  pub record IsLoaded (j : Journal P) : Type 0 where
    pub loads : load digest 0 genesis j.lines ≡ ok j.records
    pub head : j.head ≡ last_hash genesis j.records

  pub open_journal-IsLoaded :
      (ls : List (Line P)) (j : Journal P)
      → open_journal digest ls ≡ ok j
      → IsLoaded j × (j.lines ≡ ls)
  unfolding open_journal
  open_journal-IsLoaded ls j e =
      let (rs, loaded, built) = >>=-eq-ok (load digest 0 genesis ls) _ e in
      (record { loads = cc; head = cc }, cc)

  pub links-next_record :
      (j : Journal P) (kind : String) (payload : P) (time_ns : ℕ)
      → j.head ≡ last_hash genesis j.records
      → links digest
          (0 + length j.lines)
          (last_hash genesis j.records)
          (next_record digest j kind payload time_ns)
        ≡ (length j.records == length j.lines)
  unfolding links next_record
  links-next_record j kind payload time_ns h =
      let r = next_record digest j kind payload time_ns in
      rw (← h) (ground (arith, eq_iff j.head j.head, eq_iff (digest r.body) (digest r.body)))

  pub open_journal_lem : (j : Journal P) → IsLoaded j → open_journal digest j.lines ≡ ok j
  unfolding open_journal
  open_journal_lem j v = ground (arith, v.loads, v.head)

  -- A line that cannot be read is not passed, whatever stands behind it.
  pub load-garbled :
      (ls more : List (Line P)) (i : ℕ) (previous : String) (rs : List (Record P))
      → load digest i previous ls ≡ ok rs
      → load digest i previous (ls ++ garbled ∷ more) ≡ err malformed_line
  unfolding load
  load-garbled [] more i previous rs e = refl
  load-garbled (blank ∷ ls) more i previous rs e = load-garbled ls more (suc i) previous rs e
  load-garbled (garbled ∷ ls) more i previous rs e = refl
  load-garbled (entry x ∷ ls) more i previous rs e = elim (Bool-cases (links digest i previous x)) [
    | inr broken ↦ absurd (ground arith)
    | inl linked ↦
        let loaded : (load digest (suc i) x.hash ls >>= λ rs. ok (x ∷ rs)) ≡ ok rs = ground arith in
        let (xs, tail, e') = >>=-eq-ok (load digest (suc i) x.hash ls) _ loaded in
        rw (linked, load-garbled ls more (suc i) x.hash xs tail)
  ]

  -- A file that cannot be read stays so, whatever is appended.
  pub load-err :
      (ls more : List (Line P)) (i : ℕ) (previous : String) (x : Error)
      → load digest i previous ls ≡ err x
      → load digest i previous (ls ++ more) ≡ err x
  unfolding load
  load-err [] more i previous x e = absurd (ground arith)
  load-err (blank ∷ ls) more i previous x e = load-err ls more (suc i) previous x e
  load-err (garbled ∷ ls) more i previous x e = e
  load-err (entry r ∷ ls) more i previous x e = elim (Bool-cases (links digest i previous r)) [
    | inr broken ↦ rw broken (ground arith)
    | inl linked ↦ elim (Result-cases (load digest (suc i) r.hash ls)) [
      | inl (rs, read) ↦ absurd (ground arith)
      | inr (y, unread) ↦ rw (linked, load-err ls more (suc i) r.hash y unread) (ground arith)
    ]
  ]
