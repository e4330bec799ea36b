-- ===== src/Core/Task/Ranks.antt =====
-- The `while` loop of `Task.__post_init__` against the existence of a rank, by which every
-- obligation stands above those it depends on.
use residual_agent_harness.Prelude.{
  ℕ, zero, suc, ◌+◌, ◌≤◌, ◌<◌, ◌≡◌, refl, String, true, List, [], ◌∷◌, ◌++◌, All, All-map, All-zip,
  arith, all, contains, contains-append, distinct, distinct-append, subset-whole, length, ltb,
  string_eq, if◌then◌else◌, Bool-cases, inl, inr,
}
use residual_agent_harness.Prelude.Result.{ok}
use residual_agent_harness.Core.Obligation.{Obligation}
use residual_agent_harness.Core.Task.{is_subset, ids, newly_ready, resolve}
use residual_agent_harness.Core.Task.Cycles.{
  All-contains, newly_ready-IsReady, newly_ready-fresh, newly_ready-distinct,
}

-- Each obligation stands above those it depends on.
abbrev pub IsRank : List Obligation → (String → ℕ) → Type 0
IsRank os rank = All (λ o. All (λ d. rank d < rank o.id) o.depends_on) os

pub subset-All : (xs rs : List String) → is_subset xs rs ≡ true → All (λ d. contains d rs ≡ true) xs
unfolding is_subset all
subset-All [] rs h = tt
subset-All (x ∷ xs) rs h = (ground arith, subset-All xs rs (ground arith))

pub All-subset : (xs rs : List String) → All (λ d. contains d rs ≡ true) xs → is_subset xs rs ≡ true
unfolding is_subset all
All-subset [] rs h = refl
All-subset (x ∷ xs) rs h = ground (arith, All-subset xs rs h.1, h.0)

pub length-ids : (os : List Obligation) → length (ids os) ≡ length os
unfolding ids
length-ids [] = refl
length-ids (o ∷ os) = omega (arith, length-ids os)

-- The ranks of what is resolved after some rounds: a round's number.
record Layers (os : List Obligation) (rs : List String) : Type 0 where
  rank : String → ℕ
  bound : ℕ
  below : (x : String) → contains x rs ≡ true → rank x < bound
  ordered :
      All
        (λ o.
          contains o.id rs ≡ true
          → All (λ d. (contains d rs ≡ true) × (rank d < rank o.id)) o.depends_on)
        os

no-Layers : (os : List Obligation) → Layers os []
unfolding contains
no-Layers os = record {
  rank = λ x. 0;
  bound = 0;
  below = λ x h. absurd (cc);
  ordered =
      All-map (λ o. contains o.id (ids os) ≡ true) _ (λ o h k. absurd (cc)) os (All-contains os);
}

module _ (os : List Obligation) (no_twice : distinct (ids os) ≡ true) where
  next_layer : (rs : List String) → Layers os rs → Layers os (rs ++ newly_ready os rs)
  next_layer rs l = record {
    rank = rank';
    bound = l.bound + 1;
    below = λ x h. elim (Bool-cases (contains x rs)) [
      | inl old ↦ let lt = l.below x old in ground arith
      | inr new ↦ ground arith
    ];
    ordered = All-zip _ _ _ ordered' os l.ordered (newly_ready-IsReady os rs no_twice);
  }
    where
      rank' : String → ℕ
      rank' x = if contains x rs then l.rank x else l.bound

      ordered' :
          (o : Obligation)
          → (contains o.id rs ≡ true
              → All (λ d. (contains d rs ≡ true) × (l.rank d < l.rank o.id)) o.depends_on)
          → (contains o.id (newly_ready os rs) ≡ true → is_subset o.depends_on rs ≡ true)
          → contains o.id (rs ++ newly_ready os rs) ≡ true
          → All
              (λ d. (contains d (rs ++ newly_ready os rs) ≡ true) × (rank' d < rank' o.id))
              o.depends_on
      ordered' o old ready member = elim (Bool-cases (contains o.id rs)) [
        | inl there ↦
            All-map _ _
              (λ d (c, lt).
                (ground (arith, contains-append d rs (newly_ready os rs)), ground arith))
              o.depends_on (old there)
        | inr absent ↦
            let deps =
              subset-All o.depends_on rs
                (ready (ground (arith, contains-append o.id rs (newly_ready os rs)))) in
            All-map _ _
              (λ d c.
                let lt = l.below d c in
                (ground (arith, contains-append d rs (newly_ready os rs)), ground arith))
              o.depends_on deps
      ]

  -- The set of the resolved ids.
  record IsResolved (rs : List String) : Type 0 where
    once : distinct rs ≡ true
    known : (x : String) → contains x rs ≡ true → contains x (ids os) ≡ true

  next-IsResolved : (rs : List String) → IsResolved rs → IsResolved (rs ++ newly_ready os rs)
  next-IsResolved rs r = record {
    once =
        distinct-append rs (newly_ready os rs) r.once (newly_ready-distinct os rs no_twice)
          (λ x h. (newly_ready-fresh os rs x h).1);
    known = λ x h. elim (Bool-cases (contains x rs)) [
      | inl old ↦ r.known x old
      | inr new ↦
          (newly_ready-fresh os rs x (ground (arith, contains-append x rs (newly_ready os rs)))).0
    ];
  }

  whole-IsRank :
      (rs : List String)
      → IsResolved rs
      → Layers os rs
      → length os ≤ length rs
      → (rank : String → ℕ) × IsRank os rank
  whole-IsRank rs r l long =
      let whole = subset-whole rs (ids os) r.once r.known (omega (arith, length-ids os)) in
      (
        l.rank,
        All-zip _ _ _
            (λ o ordered member.
              All-map _ _ (λ d (c, lt). lt) o.depends_on (ordered (whole o.id member)))
            os l.ordered (All-contains os),
      )

  resolve-IsRank :
      (fuel : ℕ) (rs : List String)
      → IsResolved rs
      → Layers os rs
      → resolve fuel os rs ≡ ok tt
      → (rank : String → ℕ) × IsRank os rank
  unfolding resolve
  resolve-IsRank zero rs r l h = whole-IsRank rs r l (ground arith)
  resolve-IsRank (suc fuel) rs r l h = elim (Bool-cases (ltb (length rs) (length os))) [
    | inr done ↦ whole-IsRank rs r l (ground arith)
    | inl more ↦
        resolve-IsRank fuel (rs ++ newly_ready os rs) (next-IsResolved rs r) (next_layer rs l)
          (ground arith)
  ]

  pub resolved-IsRank :
      (fuel : ℕ) → resolve fuel os [] ≡ ok tt → (rank : String → ℕ) × IsRank os rank
  unfolding distinct contains
  resolved-IsRank fuel h =
      resolve-IsRank fuel [] (record { once = refl; known = λ x k. absurd (cc) }) (no-Layers os) h
