-- ===== src/Engine/Intervals.antt =====
-- residual/engine.py: `_merge`, on line intervals with both ends in them.
use residual_agent_harness.Prelude.{
  ℕ, ◌+◌, ◌≤◌, ◌≡◌, refl, subst, ◌∙◌, Bool, List, [], ◌∷◌, All, any, arith, ltb, leb, sorted, place,
  nat_eq, ◌==◌, ◌||◌, ◌&&◌, if◌then◌else◌, Bool-cases, inl, inr,
}

abbrev pub Interval : Type 0
Interval = ℕ × ℕ

-- The order of Python's pairs of numbers
abbrev pub interval_lt : Interval → Interval → Bool
interval_lt (a, b) (c, d) = ltb a c || (a == c && ltb b d)

abbrev pub max : ℕ → ℕ → ℕ
max a b = if ltb a b then b else a

-- The loop, with the last interval of `merged` in hand.
unfoldable pub join : Interval → List Interval → List Interval
join last [] = last ∷ []
join (a, b) ((start, end) ∷ rest) =
    let longer = join (a, max end b) rest in
    let further = join (start, end) rest in if leb start (b + 1) then longer else (a, b) ∷ further

join_all : List Interval → List Interval
unfolding join
join_all [] = []
join_all (x ∷ xs) = join x xs

unfoldable pub merge : List Interval → List Interval
unfolding join_all
merge intervals = join_all (sorted interval_lt intervals)

abbrev pub is_in : ℕ → Interval → Bool
is_in n (start, end) = leb start n && leb n end

unfoldable pub covers : List Interval → ℕ → Bool
covers xs n = any (is_in n) xs

abbrev pub IsInterval : Interval → Type 0
IsInterval (start, end) = start ≤ end

-- Each interval starts at least two lines behind the end of the one before.
pub data IsSeparated : List Interval → Type 0 where
  none : IsSeparated []
  one : (x : Interval) → IsSeparated (x ∷ [])
  more :
      (a b c d : ℕ) (xs : List Interval)
      → b + 2 ≤ c
      → IsSeparated ((c, d) ∷ xs)
      → IsSeparated ((a, b) ∷ (c, d) ∷ xs)

data IsAscending : ℕ → List Interval → Type 0 where
  end : (a : ℕ) → IsAscending a []
  step : (a b d : ℕ) (xs : List Interval) → a ≤ b → IsAscending b xs → IsAscending a ((b, d) ∷ xs)

covers-join :
    (n a b : ℕ) (xs : List Interval)
    → a ≤ b
    → All IsInterval xs
    → IsAscending a xs
    → covers (join (a, b) xs) n ≡ covers ((a, b) ∷ xs) n
unfolding covers join any
covers-join n a b [] ab v s = refl
covers-join n a b ((c, d) ∷ xs) ab v (step _ _ _ _ ac s) = elim (Bool-cases (leb c (b + 1))) [
  | inl near ↦
      rw near
        (covers-join n a (max d b) xs (ground arith) v.1 (lower a c xs ac s) ∙ ground (arith, v.0))
  | inr far ↦ rw far (ground (arith, covers-join n c d xs v.0 v.1 s))
]
  where
    lower : (a c : ℕ) (xs : List Interval) → a ≤ c → IsAscending c xs → IsAscending a xs
    lower a c [] h (end _) = end a
    lower a c ((b, d) ∷ xs) h (step _ _ _ _ le s) = step a b d xs (omega arith) s

-- The first interval of a joined list starts where it did.
join-first :
    (a b : ℕ) (xs : List Interval)
    → (d : ℕ) × (rest : List Interval) × (join (a, b) xs ≡ (a, d) ∷ rest)
unfolding join
join-first a b [] = (b, [], refl)
join-first a b ((c, d) ∷ xs) = elim (Bool-cases (leb c (b + 1))) [
  | inl near ↦ rw near (join-first a (max d b) xs)
  | inr far ↦ rw far (b, join (c, d) xs, refl)
]

join-IsSeparated : (a b : ℕ) (xs : List Interval) → IsSeparated (join (a, b) xs)
unfolding join
join-IsSeparated a b [] = one (a, b)
join-IsSeparated a b ((c, d) ∷ xs) = elim (Bool-cases (leb c (b + 1))) [
  | inl near ↦ rw near (join-IsSeparated a (max d b) xs)
  | inr far ↦
      let (e, rest, first) = join-first c d xs in
      let behind : IsSeparated (join (c, d) xs) = join-IsSeparated c d xs in
      let apart : b + 2 ≤ c = ground arith in
      rw (far, first) (more a b c e rest apart (subst IsSeparated first behind))
]

covers-place :
    (n : ℕ) (x : Interval) (xs : List Interval)
    → covers (place interval_lt x xs) n ≡ covers (x ∷ xs) n
unfolding covers place any
covers-place n x [] = refl
covers-place n x (y ∷ xs) = ground (arith, covers-place n x xs)

covers-sorted : (n : ℕ) (xs : List Interval) → covers (sorted interval_lt xs) n ≡ covers xs n
unfolding covers sorted any
covers-sorted n [] = refl
covers-sorted n (x ∷ xs) =
    ground (arith, covers-place n x (sorted interval_lt xs), covers-sorted n xs)

place-ascends :
    (a b d : ℕ) (xs : List Interval)
    → a ≤ b
    → IsAscending a xs
    → IsAscending a (place interval_lt (b, d) xs)
unfolding place
place-ascends a b d [] ab s = step a b d [] ab (end b)
place-ascends a b d ((c, e) ∷ xs) ab (step _ _ _ _ ac s) =
    elim (Bool-cases (interval_lt (c, e) (b, d))) [
      | inl before ↦ rw before (step a c e _ ac (place-ascends c b d xs (ground arith) s))
      | inr behind ↦ rw behind (step a b d _ ab (step b c e xs (ground arith) s))
    ]

sorted-IsAscending : (xs : List Interval) → IsAscending 0 (sorted interval_lt xs)
unfolding sorted
sorted-IsAscending [] = end 0
sorted-IsAscending ((b, d) ∷ xs) =
    place-ascends 0 b d (sorted interval_lt xs) (omega arith) (sorted-IsAscending xs)

place-All :
    (x : Interval) (xs : List Interval)
    → IsInterval x
    → All IsInterval xs
    → All IsInterval (place interval_lt x xs)
unfolding place
place-All x [] h v = (h, tt)
place-All x (y ∷ xs) h v = elim (Bool-cases (interval_lt y x)) [
  | inl before ↦ rw before (v.0, place-All x xs h v.1)
  | inr behind ↦ rw behind (h, v)
]

sorted-All : (xs : List Interval) → All IsInterval xs → All IsInterval (sorted interval_lt xs)
unfolding sorted
sorted-All [] v = tt
sorted-All (x ∷ xs) v = place-All x (sorted interval_lt xs) v.0 (sorted-All xs v.1)

covers-join_all :
    (n a : ℕ) (xs : List Interval)
    → All IsInterval xs
    → IsAscending a xs
    → covers (join_all xs) n ≡ covers xs n
unfolding join_all
covers-join_all n a [] v s = refl
covers-join_all n a ((b, d) ∷ xs) v (step _ _ _ _ le s) = covers-join n b d xs v.0 v.1 s

join_all-IsSeparated : (xs : List Interval) → IsSeparated (join_all xs)
unfolding join_all
join_all-IsSeparated [] = none
join_all-IsSeparated ((b, d) ∷ xs) = join-IsSeparated b d xs

-- Merged intervals cover exactly the lines of the given ones, and stand in order with at least a
-- line between each and the next.
pub covers-merge :
    (xs : List Interval)
    → All IsInterval xs
    → ((n : ℕ) → covers (merge xs) n ≡ covers xs n) × IsSeparated (merge xs)
unfolding merge
covers-merge xs v = (
  λ n.
      covers-join_all n 0 (sorted interval_lt xs) (sorted-All xs v) (sorted-IsAscending xs)
      ∙ covers-sorted n xs,
  join_all-IsSeparated (sorted interval_lt xs),
)
