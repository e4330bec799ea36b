-- ===== src/Prelude/Subsets.antt =====
-- Lists of distinct elements as finite sets.
use Prim.Native.Nat.{suc, ◌≤◌}
use mathlib.Core.Path.{◌≡◌, refl, sym, subst}
use mathlib.Core.List.{List, [], ◌∷◌, ◌++◌}
use mathlib.Core.Bool.{Bool, true, false}
use mathlib.Core.Logic.{inl, inr}
use native.Mathlib.Omega.{arith}
use residual_agent_harness.Prelude.Tests.{if◌then◌else◌, Eq, ◌==◌, ==_iff, ==_refl, Bool-cases}
use residual_agent_harness.Prelude.Lists.{length, select, contains, contains-append, distinct}

module _ {ℓ} {A : Type ℓ} ⦃e : Eq A⦄ where
  pub contains-select :
      (a : A) (p : A → Bool) (xs : List A)
      → contains a (select p xs) ≡ true
      → (contains a xs ≡ true) × (p a ≡ true)
  unfolding contains select
  contains-select a p [] h = absurd (cc)
  contains-select a p (x ∷ xs) h =
      (ground (arith, contains-select a p xs), ground (arith, contains-select a p xs, ==_iff a x))

  pub distinct-select :
      (p : A → Bool) (xs : List A) → distinct xs ≡ true → distinct (select p xs) ≡ true
  unfolding distinct select
  distinct-select p [] d = refl
  distinct-select p (x ∷ xs) d = ground (arith, distinct-select p xs, contains-select x p xs)

  pub distinct-append :
      (xs ys : List A)
      → distinct xs ≡ true
      → distinct ys ≡ true
      → ((a : A) → contains a ys ≡ true → contains a xs ≡ false)
      → distinct (xs ++ ys) ≡ true
  unfolding distinct contains
  distinct-append [] ys d d' apart = d'
  distinct-append (x ∷ xs) ys d d' apart =
      let rest = distinct-append xs ys (ground arith) d' (λ a h. ground (arith, apart a h)) in
      ground (arith, contains-append x xs ys, apart x, ==_refl x)

  -- The list without the first place of an element.
  without : A → List A → List A
  without a [] = []
  without a (y ∷ ys) = if a == y then ys else y ∷ without a ys

  length-without :
      (a : A) (ys : List A) → contains a ys ≡ true → length ys ≡ suc (length (without a ys))
  unfolding contains without
  length-without a [] h = cc
  length-without a (y ∷ ys) h = ground (arith, length-without a ys)

  contains-without :
      (a b : A) (ys : List A)
      → (b == a) ≡ false
      → contains b ys ≡ true
      → contains b (without a ys) ≡ true
  unfolding contains without
  contains-without a b [] other h = h
  contains-without a b (y ∷ ys) other h = ground (arith, contains-without a b ys, ==_iff a y)

  -- A set is no longer than one that it is part of.
  pub length-subset :
      (xs ys : List A)
      → distinct xs ≡ true
      → ((a : A) → contains a xs ≡ true → contains a ys ≡ true)
      → length xs ≤ length ys
  unfolding distinct contains
  length-subset [] ys d part = omega arith
  length-subset (x ∷ xs) ys d part =
      let here : contains x ys ≡ true = part x (ground (arith, ==_refl x)) in
      let unlike : (a : A) → contains a xs ≡ true → (a == x) ≡ false = λ a h.
        elim (Bool-cases (a == x)) [
          | inr other ↦ other
          | inl same ↦
              let twice : contains x xs ≡ true =
                subst (λ t. contains t xs ≡ true) ((==_iff a x).0 same) h in
              absurd (ground arith)
        ] in
      let rest : length xs ≤ length (without x ys) =
        length-subset xs (without x ys) (ground arith)
          (λ a h. contains-without x a ys (unlike a h) (part a (ground arith))) in
      omega (arith, length-without x ys here)

  -- A part that is as long is the whole.
  pub subset-whole :
      (xs ys : List A)
      → distinct xs ≡ true
      → ((a : A) → contains a xs ≡ true → contains a ys ≡ true)
      → length ys ≤ length xs
      → (a : A) → contains a ys ≡ true
      → contains a xs ≡ true
  unfolding distinct contains
  subset-whole xs ys d part long a h = elim (Bool-cases (contains a xs)) [
    | inl there ↦ there
    | inr absent ↦
        let more : length (a ∷ xs) ≤ length ys = length-subset (a ∷ xs) ys (ground arith) (λ b k.
          elim (Bool-cases (b == a)) [
            | inl same ↦ subst (λ t. contains t ys ≡ true) (sym ((==_iff b a).0 same)) h
            | inr other ↦ part b (ground arith)
          ]) in
        absurd (omega arith)
  ]
