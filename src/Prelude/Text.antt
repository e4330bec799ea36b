-- ===== src/Prelude/Text.antt =====
-- Python orders texts by their code points, lexicographically.
use Prim.Native.Char.{code}
use Prim.Native.Nat.{ℕ}
use Prim.Native.String.{String}
use mathlib.Core.Path.{◌≡◌, refl}
use mathlib.Core.List.{List, [], ◌∷◌}
use mathlib.Core.Bool.{Bool, true, false}
use native.Mathlib.Omega.{arith}
use text.Mathlib.TextEquality.{Char-path}
use residual_agent_harness.Prelude.Tests.{ltb, if◌then◌else◌, ◌==◌, nat_eq}

abbrev pub codes : String → List ℕ
codes String.[] = []
codes (String.◌∷◌ c s) = code c ∷ codes s

pub lex_lt : List ℕ → List ℕ → Bool
lex_lt [] [] = false
lex_lt [] (b ∷ bs) = true
lex_lt (a ∷ as') [] = false
lex_lt (a ∷ as') (b ∷ bs) = if ltb a b then true else if a == b then lex_lt as' bs else false

lex_lt_irrefl : (a : List ℕ) → lex_lt a a ≡ false
unfolding lex_lt
lex_lt_irrefl [] = refl
lex_lt_irrefl (a ∷ as') = ground (arith, lex_lt_irrefl as')

lex_lt_trans : (a b c : List ℕ) → lex_lt a b ≡ true → lex_lt b c ≡ true → lex_lt a c ≡ true
unfolding lex_lt
lex_lt_trans [] [] c h k = cc
lex_lt_trans [] (y ∷ b) [] h k = cc
lex_lt_trans [] (y ∷ b) (z ∷ c) h k = refl
lex_lt_trans (x ∷ a) [] c h k = cc
lex_lt_trans (x ∷ a) (y ∷ b) [] h k = cc
lex_lt_trans (x ∷ a) (y ∷ b) (z ∷ c) h k = ground (arith, lex_lt_trans a b c)

-- Two lists that are not ordered either way are equal.
lex_lt_total : (a b : List ℕ) → lex_lt a b ≡ false → lex_lt b a ≡ false → a ≡ b
unfolding lex_lt
lex_lt_total [] [] h k = refl
lex_lt_total [] (y ∷ b) h k = cc
lex_lt_total (x ∷ a) [] h k = cc
lex_lt_total (x ∷ a) (y ∷ b) h k = ground (arith, lex_lt_total a b)

codes-injective : (s t : String) → codes s ≡ codes t → s ≡ t
codes-injective String.[] String.[] h = refl
codes-injective String.[] (String.◌∷◌ d t) h = cc
codes-injective (String.◌∷◌ c s) String.[] h = cc
codes-injective (String.◌∷◌ c s) (String.◌∷◌ d t) h =
    λ i. String.◌∷◌ (Char-path c d (cc) i) (codes-injective s t (cc) i)

-- s < t
unfoldable pub str_lt : String → String → Bool
unfolding lex_lt
str_lt s t = lex_lt (codes s) (codes t)

pub str_lt_irrefl : (s : String) → str_lt s s ≡ false
unfolding str_lt
str_lt_irrefl s = lex_lt_irrefl (codes s)

pub str_lt_trans : (s t u : String) → str_lt s t ≡ true → str_lt t u ≡ true → str_lt s u ≡ true
unfolding str_lt
str_lt_trans s t u h k = lex_lt_trans (codes s) (codes t) (codes u) h k

pub str_lt_total : (s t : String) → str_lt s t ≡ false → str_lt t s ≡ false → s ≡ t
unfolding str_lt
str_lt_total s t h k = codes-injective s t (lex_lt_total (codes s) (codes t) h k)

lex_lt_cut : (a b c : List ℕ) → lex_lt a c ≡ true → lex_lt a b ≡ false → lex_lt b c ≡ true
unfolding lex_lt
lex_lt_cut a b [] h k = absurd (no_lt_nil a h)
  where
    no_lt_nil : (a : List ℕ) → lex_lt a [] ≡ true → ⊥
    no_lt_nil [] h = cc
    no_lt_nil (x ∷ a) h = cc
lex_lt_cut a [] (z ∷ c) h k = refl
lex_lt_cut [] (y ∷ b) (z ∷ c) h k = cc
lex_lt_cut (x ∷ a) (y ∷ b) (z ∷ c) h k = ground (arith, lex_lt_cut a b c)

-- Whatever lies between: if s < u and not s < t then t < u.
pub str_lt_cut : (s t u : String) → str_lt s u ≡ true → str_lt s t ≡ false → str_lt t u ≡ true
unfolding str_lt
str_lt_cut s t u h k = lex_lt_cut (codes s) (codes t) (codes u) h k

-- s + t
unfoldable pub append : String → String → String
append String.[] t = t
append (String.◌∷◌ c s) t = String.◌∷◌ c (append s t)
