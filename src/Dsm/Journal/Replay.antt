-- ===== src/Dsm/Journal/Replay.antt =====
-- Sequence numbers ascend, so that a cursor splits the records into the old and the new.
use residual_agent_harness.Prelude.{
  ℕ, suc, ◌≤◌, String, ◌≡◌, refl, inl, inr, true, List, [], ◌∷◌, ◌++◌, arith, select, Bool-cases,
  nat_eq,
}
use residual_agent_harness.Prelude.Int.{pos, negsuc, ltb_ℤ}
use residual_agent_harness.Prelude.Result.{ok, ◌>>=◌, >>=-eq-ok}
use residual_agent_harness.Dsm.Journal.Reading.{open_journal-IsLoaded}
use residual_agent_harness.Dsm.Journal.{
  Body, Record, Line, blank, garbled, entry, Journal, genesis, links, load, open_journal, replay,
}

module _ {P : Type 0} where
  abbrev Ascends : ℕ → List (Record P) → Type 0
  Ascends i [] = Unit {0}
  Ascends i (r ∷ rs) = (i ≤ r.seq) × Ascends (suc r.seq) rs

  Ascends-weaken : (i j : ℕ) (rs : List (Record P)) → i ≤ j → Ascends j rs → Ascends i rs
  Ascends-weaken i j [] h a = tt
  Ascends-weaken i j (r ∷ rs) h a = (omega arith, a.1)

  abbrev after : ℕ → List (Record P) → List (Record P)
  after n = select (λ r. ltb_ℤ (pos n) (pos r.seq))

  after-later : (n : ℕ) (rs : List (Record P)) → Ascends (suc n) rs → after n rs ≡ rs
  unfolding select
  after-later n [] a = refl
  after-later n (r ∷ rs) a =
      ground (arith, after-later n rs (Ascends-weaken (suc n) (suc r.seq) rs (omega arith) a.1))

  Ascends-bound :
      (i : ℕ) (xs : List (Record P)) (r : Record P) (ys : List (Record P))
      → Ascends i (xs ++ r ∷ ys)
      → i ≤ r.seq
  Ascends-bound i [] r ys a = a.0
  Ascends-bound i (x ∷ xs) r ys a = omega (arith, Ascends-bound (suc x.seq) xs r ys a.1)

  after-split :
      (i : ℕ) (xs : List (Record P)) (r : Record P) (ys : List (Record P))
      → Ascends i (xs ++ r ∷ ys)
      → after r.seq (xs ++ r ∷ ys) ≡ ys
  unfolding select
  after-split i [] r ys a = ground (arith, after-later r.seq ys a.1)
  after-split i (x ∷ xs) r ys a =
      ground (arith, Ascends-bound (suc x.seq) xs r ys a.1, after-split (suc x.seq) xs r ys a.1)

  select-all : (rs : List (Record P)) → select (λ r. ltb_ℤ (negsuc 0) (pos r.seq)) rs ≡ rs
  unfolding select
  select-all [] = refl
  select-all (r ∷ rs) = ground (arith, select-all rs)

  -- A replay from -1 yields every record.
  pub replay_all : (j : Journal P) → replay (negsuc 0) j ≡ j.records
  unfolding replay
  replay_all j = select-all j.records

module _ {P : Type 0} (digest : Body P → String) where
  links-seq :
      (i : ℕ) (previous : String) (r : Record P) → links digest i previous r ≡ true → r.seq ≡ i
  unfolding links
  links-seq i previous r h = ground arith

  load-Ascends :
      (ls : List (Line P)) (i : ℕ) (previous : String) (rs : List (Record P))
      → load digest i previous ls ≡ ok rs
      → Ascends i rs
  unfolding load
  load-Ascends [] i previous rs e = let nil : [] ≡ rs = cc in rw (← nil) tt
  load-Ascends (blank ∷ ls) i previous rs e =
      Ascends-weaken i (suc i) rs (omega arith) (load-Ascends ls (suc i) previous rs e)
  load-Ascends (garbled ∷ ls) i previous rs e = absurd (cc)
  load-Ascends (entry r ∷ ls) i previous rs e = elim (Bool-cases (links digest i previous r)) [
    | inr broken ↦ absurd (ground arith)
    | inl linked ↦
        let loaded : (load digest (suc i) r.hash ls >>= λ xs. ok (r ∷ xs)) ≡ ok rs = ground arith in
        let (xs, tail, e') = >>=-eq-ok (load digest (suc i) r.hash ls) _ loaded in
        let split : r ∷ xs ≡ rs = cc in
        let at : r.seq ≡ i = links-seq i previous r linked in
        rw (← split) (
          omega (arith, at),
          Ascends-weaken (suc r.seq) (suc i) xs (omega (arith, at))
              (load-Ascends ls (suc i) r.hash xs tail),
        )
  ]

  -- In a journal that was opened, a replay from the number of a record yields exactly the
  -- records behind it, in order.
  pub replay-behind :
      (ls : List (Line P)) (j : Journal P) (xs : List (Record P)) (r : Record P)
      (ys : List (Record P))
      → open_journal digest ls ≡ ok j
      → j.records ≡ xs ++ r ∷ ys
      → replay (pos r.seq) j ≡ ys
  unfolding replay
  replay-behind ls j xs r ys e parts =
      let (v, same) = open_journal-IsLoaded digest ls j e in
      let a = load-Ascends j.lines 0 genesis j.records v.loads in
      rw parts (after-split 0 xs r ys (rw parts at a))
