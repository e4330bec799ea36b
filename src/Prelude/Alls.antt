-- ===== src/Prelude/Alls.antt =====
-- A predicate on all elements of a list, through the functions on lists.
use mathlib.Core.Path.{◌≡◌, refl}
use mathlib.Core.List.{List, [], ◌∷◌, ◌++◌, map}
use mathlib.Core.Bool.{Bool, true, ◌&&◌}
use mathlib.Core.Logic.{inl, inr}
use native.Mathlib.Omega.{arith}
use residual_agent_harness.Prelude.Tests.{Bool-cases}
use residual_agent_harness.Prelude.Lists.{All, all, select, place, sorted}

pub All-map {ℓ κ μ} :
    {A : Type ℓ} (P : A → Type κ) (Q : A → Type μ)
    → ((x : A) → P x → Q x)
    → (xs : List A) → All P xs
    → All Q xs
All-map P Q f [] h = tt
All-map P Q f (x ∷ xs) h = (f x h.0, All-map P Q f xs h.1)

pub All-zip {ℓ κ μ ν} :
    {A : Type ℓ} (P : A → Type κ) (Q : A → Type μ) (R : A → Type ν)
    → ((x : A) → P x → Q x → R x)
    → (xs : List A) → All P xs
    → All Q xs
    → All R xs
All-zip P Q R f [] h k = tt
All-zip P Q R f (x ∷ xs) h k = (f x h.0 k.0, All-zip P Q R f xs h.1 k.1)

pub all-append {ℓ} :
    {A : Type ℓ} (p : A → Bool) (xs ys : List A) → all p (xs ++ ys) ≡ (all p xs && all p ys)
unfolding all
all-append p [] ys = refl
all-append p (x ∷ xs) ys = ground (arith, all-append p xs ys)

-- The Boolean test of all elements, as a predicate, and back.
pub all-All {ℓ} :
    {A : Type ℓ} (p : A → Bool) (xs : List A) → all p xs ≡ true → All (λ x. p x ≡ true) xs
unfolding all
all-All p [] h = tt
all-All p (x ∷ xs) h = (ground arith, all-All p xs (ground arith))

pub All-all {ℓ} :
    {A : Type ℓ} (p : A → Bool) (xs : List A) → All (λ x. p x ≡ true) xs → all p xs ≡ true
unfolding all
All-all p [] h = refl
All-all p (x ∷ xs) h = ground (arith, All-all p xs h.1, h.0)

module _ {ℓ κ} {A : Type ℓ} (P : A → Type κ) where
  pub All-select : (p : A → Bool) (xs : List A) → All P xs → All P (select p xs)
  unfolding select
  All-select p [] h = tt
  All-select p (x ∷ xs) h = elim (Bool-cases (p x)) [
    | inl yes' ↦ rw yes' (h.0, All-select p xs h.1)
    | inr no' ↦ rw no' (All-select p xs h.1)
  ]

  pub All-place : (lt : A → A → Bool) (x : A) (xs : List A) → P x → All P xs → All P (place lt x xs)
  unfolding place
  All-place lt x [] h hs = (h, tt)
  All-place lt x (y ∷ xs) h hs = elim (Bool-cases (lt y x)) [
    | inl before ↦ rw before (hs.0, All-place lt x xs h hs.1)
    | inr behind ↦ rw behind (h, hs)
  ]

  pub All-sorted : (lt : A → A → Bool) (xs : List A) → All P xs → All P (sorted lt xs)
  unfolding sorted
  All-sorted lt [] h = tt
  All-sorted lt (x ∷ xs) h = All-place lt x (sorted lt xs) h.0 (All-sorted lt xs h.1)

pub select-All {ℓ} : {A : Type ℓ} (p : A → Bool) (xs : List A) → All (λ x. p x ≡ true) (select p xs)
unfolding select
select-All p [] = tt
select-All p (x ∷ xs) = elim (Bool-cases (p x)) [
  | inl yes' ↦ rw yes' (yes', select-All p xs)
  | inr no' ↦ rw no' (select-All p xs)
]

pub All-mapped {ℓ κ μ} :
    {A : Type ℓ} {B : Type κ} (P : B → Type μ) (f : A → B) (xs : List A)
    → All (λ x. P (f x)) xs
    → All P (map f xs)
All-mapped P f [] h = tt
All-mapped P f (x ∷ xs) h = (h.0, All-mapped P f xs h.1)
