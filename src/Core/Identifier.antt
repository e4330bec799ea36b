-- ===== src/Core/Identifier.antt =====
-- residual/core.py: `identifier`, and the test `value.strip()` for a text that is not blank.
use residual_agent_harness.Prelude.{
  ℕ, String, Bool, false, ◌&&◌, ◌||◌, List, [], ◌∷◌, all, length, leb, ◌==◌, nat_eq,
}
use residual_agent_harness.Prelude.Text.{codes}

abbrev between : ℕ → ℕ → ℕ → Bool
between lo hi c = leb lo c && leb c hi

-- [a-zA-Z]
unfoldable pub is_letter : ℕ → Bool
is_letter c = between b'a' b'z' c || between b'A' b'Z' c

-- [a-zA-Z0-9_.-]
unfoldable pub is_word : ℕ → Bool
unfolding is_letter
is_word c = is_letter c || between b'0' b'9' c || c == b'_' || c == b'.' || c == b'-'

unfoldable pub matches : List ℕ → Bool
matches [] = false
matches (c ∷ cs) = is_letter c && all is_word cs && leb (length cs) 95

-- The match of [a-zA-Z][a-zA-Z0-9_.-]{0,95} with the whole text.
unfoldable pub is_identifier : String → Bool
unfolding matches is_word
is_identifier s = matches (codes s)

-- The code points that `str.strip` removes.
unfoldable pub is_space : ℕ → Bool
is_space c =
    between 9 13 c
    || between 28 32 c
    || c == 0x85
    || c == 0xa0
    || c == 0x1680
    || between 0x2000 0x200a c
    || between 0x2028 0x2029 c
    || c == 0x202f
    || c == 0x205f
    || c == 0x3000

-- `not s.strip()`
unfoldable pub is_blank : String → Bool
unfolding is_space
is_blank s = all is_space (codes s)
