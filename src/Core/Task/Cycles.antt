-- ===== src/Core/Task/Cycles.antt =====
-- A validated task has no dependency cycle: the `while` loop of `Task.__post_init__`.
use residual_agent_harness.Prelude.{
  ℕ, zero, suc, ◌+◌, ◌≤◌, ◌≡◌, ◌≢◌, refl, String, Bool, true, false, not, List, [], ◌∷◌, ◌++◌, All,
  All-map, All-zip, arith, contains, contains-select, distinct-select, subst, distinct, is_empty,
  length, length-append, ltb, select, string_eq, ◌==◌, ==_iff, ==_refl, Bool-cases, inl, inr, ◌⊎◌,
}
use residual_agent_harness.Prelude.Result.{ok, err}
use residual_agent_harness.Core.Obligation.{Obligation}
use residual_agent_harness.Core.Task.{
  out_of_fuel, dependency_cycle, is_subset, ids, newly_ready, resolve,
}

-- Every round takes in a new id, so the fuel lasts.
pub resolve-fuel :
    (fuel : ℕ) (os : List Obligation) (rs : List String)
    → length os ≤ length rs + fuel
    → resolve fuel os rs ≢ err out_of_fuel
unfolding resolve
resolve-fuel zero os rs enough h = ground arith
resolve-fuel (suc fuel) os rs enough h = elim (Bool-cases (is_empty (newly_ready os rs))) [
  | inl stuck ↦ ground arith
  | inr more ↦
      let longer : 1 ≤ length (newly_ready os rs) = nonempty (newly_ready os rs) more in
      let rest =
        resolve-fuel fuel os (rs ++ newly_ready os rs)
          (omega (arith, length-append rs (newly_ready os rs))) in
      ground (arith, rest)
]
  where
    nonempty : (xs : List String) → is_empty xs ≡ false → 1 ≤ length xs
    nonempty [] h = cc
    nonempty (x ∷ xs) h = omega arith

-- The ids stand in their own list.
pub All-contains : (os : List Obligation) → All (λ o. contains o.id (ids os) ≡ true) os
unfolding ids contains
All-contains [] = tt
All-contains (o ∷ os) =
    (ground (arith, ==_refl o.id), All-map _ _ (λ x h. ground arith) os (All-contains os))

contains-ids :
    (x : String) (p : Obligation → Bool) (os : List Obligation)
    → contains x (ids (select p os)) ≡ true
    → contains x (ids os) ≡ true
unfolding ids contains select
contains-ids x p [] h = h
contains-ids x p (o ∷ os) h = ground (arith, contains-ids x p os)

distinct-ids :
    (p : Obligation → Bool) (os : List Obligation)
    → distinct (ids os) ≡ true
    → distinct (ids (select p os)) ≡ true
unfolding ids distinct select
distinct-ids p [] d = refl
distinct-ids p (o ∷ os) d = ground (arith, distinct-ids p os, contains-ids o.id p os)

-- Where no id stands twice, the selected ids are those of the selected obligations.
select-ids :
    (p : Obligation → Bool) (os : List Obligation)
    → distinct (ids os) ≡ true
    → All (λ o. contains o.id (ids (select p os)) ≡ true → p o ≡ true) os
unfolding ids contains select distinct
select-ids p [] d = tt
select-ids p (o ∷ os) d = (
  λ h. ground (arith, contains-ids o.id p os),
  All-zip _ _ _ (λ x member h k. other x member h k) os (All-contains os)
      (select-ids p os (ground arith)),
)
  where
    other :
        (x : Obligation)
        → contains x.id (ids os) ≡ true
        → (contains x.id (ids (select p os)) ≡ true → p x ≡ true)
        → contains x.id (ids (select p (o ∷ os))) ≡ true
        → p x ≡ true
    other x member h k = elim (Bool-cases (x.id == o.id)) [
      | inr unlike ↦ ground arith
      | inl same ↦
          let twice : contains o.id (ids os) ≡ true =
            subst (λ t. contains t (ids os) ≡ true) ((==_iff x.id o.id).0 same) member in
          absurd (ground arith)
    ]

-- What a round takes in.
pub newly_ready-IsReady :
    (os : List Obligation) (rs : List String)
    → distinct (ids os) ≡ true
    → All (λ o. contains o.id (newly_ready os rs) ≡ true → is_subset o.depends_on rs ≡ true) os
unfolding newly_ready
newly_ready-IsReady os rs d =
    All-map _ _ (λ o h k. h (contains-select o.id (λ x. not (contains x rs)) _ k).0) os
      (select-ids (λ o. is_subset o.depends_on rs) os d)

pub newly_ready-fresh :
    (os : List Obligation) (rs : List String) (x : String)
    → contains x (newly_ready os rs) ≡ true
    → (contains x (ids os) ≡ true) × (contains x rs ≡ false)
unfolding newly_ready
newly_ready-fresh os rs x h =
    let (ready, fresh) =
      contains-select x (λ x. not (contains x rs))
        (ids (select (λ o. is_subset o.depends_on rs) os)) h in
    (contains-ids x _ os ready, ground arith)

pub newly_ready-distinct :
    (os : List Obligation) (rs : List String)
    → distinct (ids os) ≡ true
    → distinct (newly_ready os rs) ≡ true
unfolding newly_ready
newly_ready-distinct os rs d = distinct-select _ _ (distinct-ids _ os d)

pub resolve-cases :
    (fuel : ℕ) (os : List Obligation) (rs : List String)
    → (resolve fuel os rs ≡ ok tt)
      ⊎ ((resolve fuel os rs ≡ err dependency_cycle) ⊎ (resolve fuel os rs ≡ err out_of_fuel))
unfolding resolve
resolve-cases zero os rs = elim (Bool-cases (ltb (length rs) (length os))) [
  | inl more ↦ inr (inr (rw more refl))
  | inr done ↦ inl (rw done refl)
]
resolve-cases (suc fuel) os rs = elim (Bool-cases (ltb (length rs) (length os))) [
  | inr done ↦ inl (rw done refl)
  | inl more ↦ elim (Bool-cases (is_empty (newly_ready os rs))) [
    | inl stuck ↦ inr (inl (rw (more, stuck) refl))
    | inr ready ↦ rw (more, ready) (resolve-cases fuel os (rs ++ newly_ready os rs))
  ]
]
