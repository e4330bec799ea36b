-- ===== src/Core/Task/Progress.antt =====
-- Where there is a rank, the `while` loop of `Task.__post_init__` never stops for a cycle.
use residual_agent_harness.Prelude.{
  ℕ, zero, suc, ◌≤◌, ◌<◌, ◌≡◌, ◌≢◌, String, Bool, true, not, List, [], ◌∷◌, ◌++◌, All, All-map,
  All-zip, arith, contains, distinct, length-subset, is_empty, length, select, string_eq, ◌==◌,
  ==_iff, ==_refl, subst, sym, Bool-cases, inl, inr,
}
use residual_agent_harness.Prelude.Result.{err}
use residual_agent_harness.Core.Obligation.{Obligation}
use residual_agent_harness.Core.Task.{dependency_cycle, is_subset, ids, newly_ready, resolve}
use residual_agent_harness.Core.Task.Cycles.{All-contains}
use residual_agent_harness.Core.Task.Ranks.{IsRank, subset-All, All-subset, length-ids}

All-ids {ℓ} :
    (P : String → Type ℓ) (os : List Obligation)
    → All (λ o. P o.id) os
    → (x : String) → contains x (ids os) ≡ true
    → P x
unfolding ids contains
All-ids P [] h x m = absurd (cc)
All-ids P (o ∷ os) h x m = elim (Bool-cases (x == o.id)) [
  | inl same ↦ subst P (sym ((==_iff x o.id).0 same)) h.0
  | inr other ↦ All-ids P os h.1 x (ground arith)
]

pub ids-select :
    (p : Obligation → Bool) (os : List Obligation)
    → All (λ o. p o ≡ true → contains o.id (ids (select p os)) ≡ true) os
unfolding ids contains select
ids-select p [] = tt
ids-select p (o ∷ os) =
    (λ h. ground (arith, ==_refl o.id), All-map _ _ (λ x h k. ground arith) os (ids-select p os))

select-contains :
    (x : String) (p : String → Bool) (xs : List String)
    → contains x xs ≡ true
    → p x ≡ true
    → contains x (select p xs) ≡ true
unfolding contains select
select-contains x p [] h k = h
select-contains x p (y ∷ xs) h k = elim (Bool-cases (x == y)) [
  | inl same ↦
      let there : p y ≡ true = subst (λ t. p t ≡ true) ((==_iff x y).0 same) k in
      rw there (ground arith)
  | inr other ↦ ground (arith, select-contains x p xs)
]

-- Where a round finds nothing, what is ready is resolved.
stuck-resolved :
    (os : List Obligation) (rs : List String)
    → is_empty (newly_ready os rs) ≡ true
    → All (λ o. is_subset o.depends_on rs ≡ true → contains o.id rs ≡ true) os
unfolding newly_ready contains
stuck-resolved os rs stuck =
    All-map _ _
      (λ o there ready. elim (Bool-cases (contains o.id rs)) [
        | inl old ↦ old
        | inr absent ↦
            let fresh =
              select-contains o.id (λ x. not (contains x rs))
                (ids (select (λ o. is_subset o.depends_on rs) os)) (there ready) (ground arith) in
            absurd (nothing (newly_ready os rs) stuck o.id fresh)
      ])
      os (ids-select (λ o. is_subset o.depends_on rs) os)
  where
    nothing : (xs : List String) → is_empty xs ≡ true → (x : String) → contains x xs ≡ true → ⊥
    nothing [] e x h = cc
    nothing (y ∷ xs) e x h = cc

module _ (os : List Obligation) (rank : String → ℕ) (ranked : IsRank os rank)
    (known : All (λ o. is_subset o.depends_on (ids os) ≡ true) os)
    (no_twice : distinct (ids os) ≡ true) where
  -- By induction on the rank, all is resolved.
  below-resolved :
      (rs : List String)
      → is_empty (newly_ready os rs) ≡ true
      → (n : ℕ) → All (λ o. rank o.id < n → contains o.id rs ≡ true) os
  below-resolved rs stuck zero =
      All-map _ _ (λ o member lt. absurd (omega arith)) os (All-contains os)
  below-resolved rs stuck (suc n) =
      let before =
        All-ids (λ x. rank x < n → contains x rs ≡ true) os (below-resolved rs stuck n) in
      let deps : All (λ o. rank o.id < suc n → is_subset o.depends_on rs ≡ true) os =
        All-zip _ _ _
          (λ o lower listed top. All-subset o.depends_on rs (
            All-zip _ _ _ (λ d lt member. before d member (omega arith)) o.depends_on lower
              (subset-All o.depends_on (ids os) listed)))
          os ranked known in
      All-zip _ _ _ (λ o closed ready top. closed (ready top)) os (stuck-resolved os rs stuck) deps

  stuck-whole : (rs : List String) → is_empty (newly_ready os rs) ≡ true → length os ≤ length rs
  stuck-whole rs stuck =
      let all_resolved : (x : String) → contains x (ids os) ≡ true → contains x rs ≡ true =
        λ x member.
          All-ids (λ y. rank y < suc (rank x) → contains y rs ≡ true) os
            (below-resolved rs stuck (suc (rank x))) x member (omega arith) in
      let shorter : length (ids os) ≤ length rs = length-subset (ids os) rs no_twice all_resolved in
      omega (arith, length-ids os, shorter)

  pub resolve-no_cycle : (fuel : ℕ) (rs : List String) → resolve fuel os rs ≢ err dependency_cycle
  unfolding resolve
  resolve-no_cycle zero rs h = ground arith
  resolve-no_cycle (suc fuel) rs h = elim (Bool-cases (is_empty (newly_ready os rs))) [
    | inl stuck ↦ let long = stuck-whole rs stuck in ground arith
    | inr more ↦ ground (arith, resolve-no_cycle fuel (rs ++ newly_ready os rs))
  ]
