-- ===== src/Dsm/Journal/Chain.antt =====
-- The head of a journal stands for its whole history, short of a collision of the digest.
use mathlib.Core.List.{reverse, reverse_aux, reverse-reverse}
use native.Mathlib.Decide.{ℕ_discrete}
use text.Mathlib.TextEquality.{eq_iff}
use residual_agent_harness.Prelude.{
  ℕ, suc, String, ◌≡◌, ◌≢◌, refl, sym, ap, ◌∙◌, ◌⊎◌, inl, inr, List, [], ◌∷◌, arith, true, nat_eq,
  string_eq, Bool-cases, String-discrete,
}
use residual_agent_harness.Prelude.Result.{ok, ◌>>=◌, >>=-eq-ok}
use residual_agent_harness.Dsm.Journal.Reading.{open_journal-IsLoaded}
use residual_agent_harness.Dsm.Journal.{
  Body, Record, Line, blank, garbled, entry, Journal, genesis, last_hash, links, load, open_journal,
}

Body-discrete : {P : Type 0} → Discrete P → Discrete (Body P)
Body-discrete d = hlevel (ℕ_discrete, String-discrete, d)

module _ {P : Type 0} (digest : Body P → String) where
  -- Two bodies with one digest, or a body whose digest is the genesis value.
  pub data Collision : Type 0 where
    pair : (b b' : Body P) → digest b ≡ digest b' → b ≢ b' → Collision
    of_genesis : (b : Body P) → digest b ≡ genesis → Collision

  -- The newest record first.
  abbrev newest : List (Record P) → String
  newest [] = genesis
  newest (r ∷ rs) = r.hash

  abbrev IsChain : List (Record P) → Type 0
  IsChain [] = Unit {0}
  IsChain (r ∷ rs) = (digest r.body ≡ r.hash) × (r.prev_hash ≡ newest rs) × IsChain rs

  IsChain-eq :
      Discrete P
      → (rs rs' : List (Record P)) → IsChain rs
      → IsChain rs'
      → newest rs ≡ newest rs'
      → (rs ≡ rs') ⊎ Collision
  IsChain-eq d [] [] c c' e = inl refl
  IsChain-eq d [] (r' ∷ rs') c c' e = inr (of_genesis r'.body (cc (c'.0)))
  IsChain-eq d (r ∷ rs) [] c c' e = inr (of_genesis r.body (cc (c.0)))
  IsChain-eq d (r ∷ rs) (r' ∷ rs') c c' e = elim (Body-discrete d r.body r'.body) [
    | no other ↦ inr (pair r.body r'.body (cc (c.0, c'.0)) other)
    | yes same ↦ elim (IsChain-eq d rs rs' c.2 c'.2 (cc (c.1, c'.1))) [
      | inr found ↦ inr found
      | inl tails ↦ inl (λ i. record { body = same i; hash = e i } ∷ tails i)
    ]
  ]

  links-hash :
      (i : ℕ) (previous : String) (r : Record P)
      → links digest i previous r ≡ true
      → (digest r.body ≡ r.hash) × (r.prev_hash ≡ previous)
  unfolding links
  links-hash i previous r h =
      ground (arith, eq_iff r.prev_hash previous, eq_iff (digest r.body) r.hash)

  load-IsChain :
      (ls : List (Line P)) (i : ℕ) (before rs : List (Record P))
      → IsChain before
      → load digest i (newest before) ls ≡ ok rs
      → IsChain (reverse_aux rs before)
        × (newest (reverse_aux rs before) ≡ last_hash (newest before) rs)
  unfolding load last_hash
  load-IsChain [] i before rs c e = let nil : [] ≡ rs = cc in rw (← nil) (c, refl)
  load-IsChain (blank ∷ ls) i before rs c e = load-IsChain ls (suc i) before rs c e
  load-IsChain (garbled ∷ ls) i before rs c e = absurd (cc)
  load-IsChain (entry r ∷ ls) i before rs c e =
      elim (Bool-cases (links digest i (newest before) r)) [
        | inr broken ↦ absurd (ground arith)
        | inl linked ↦
            let loaded : (load digest (suc i) r.hash ls >>= λ xs. ok (r ∷ xs)) ≡ ok rs =
              ground arith in
            let (xs, tail, e') = >>=-eq-ok (load digest (suc i) r.hash ls) _ loaded in
            let split : r ∷ xs ≡ rs = cc in
            let (hashed, prev) = links-hash i (newest before) r linked in
            rw (← split) (load-IsChain ls (suc i) (r ∷ before) xs (hashed, prev, c) tail)
      ]

  open_journal-IsChain :
      (ls : List (Line P)) (j : Journal P)
      → open_journal digest ls ≡ ok j
      → IsChain (reverse j.records) × (newest (reverse j.records) ≡ j.head)
  open_journal-IsChain ls j e =
      let (v, same) = open_journal-IsLoaded digest ls j e in
      let (chain, last) = load-IsChain j.lines 0 [] j.records tt v.loads in
      (chain, last ∙ sym v.head)

  -- Two journals that open and have the same head hold the same records, or a collision of the
  -- digest is at hand.
  pub head_determines_records :
      Discrete P
      → (ls ls' : List (Line P)) (j j' : Journal P) → open_journal digest ls ≡ ok j
      → open_journal digest ls' ≡ ok j'
      → j.head ≡ j'.head
      → (j.records ≡ j'.records) ⊎ Collision
  head_determines_records d ls ls' j j' e e' heads =
      let (chain, last) = open_journal-IsChain ls j e in
      let (chain', last') = open_journal-IsChain ls' j' e' in
      elim (IsChain-eq d (reverse j.records) (reverse j'.records) chain chain'
        (last ∙ heads ∙ sym last')) [
          | inr found ↦ inr found
          | inl same ↦
              inl (sym (reverse-reverse j.records) ∙ ap reverse same ∙ reverse-reverse j'.records)
        ]
