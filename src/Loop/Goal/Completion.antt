-- ===== src/Loop/Goal/Completion.antt =====
-- When a goal counts as complete.
use residual_agent_harness.Prelude.{
  String, true, false, ◌≡◌, ◌↔◌, refl, ◌∙◌, inl, inr, Option, none, some, List, [], ◌∷◌, All, arith,
  if◌then◌else◌, ◌==◌, string_eq, option_eq, option_beq_iff, Option-cases, Bool-cases, ◌||◌,
}
use residual_agent_harness.Prelude.Dict.{Dict, lookup, insert, lookup-insert}
use residual_agent_harness.Loop.State.{pass, VerificationResultRef, FactoryResultSet}
use residual_agent_harness.Loop.Goal.{
  GoalContract, is_falsy, by_id, judge, Finding, is_passed, Findings, file_under, collect,
  evaluation_of, evaluate,
}

-- The last result with the id.
unfoldable pub last_result : String → List VerificationResultRef → Option VerificationResultRef
last_result id [] = none
last_result id (x ∷ xs) = elim (last_result id xs) [
  | some y ↦ some y
  | none ↦ if x.verification_id == id then some x else none
]

or_else : Option VerificationResultRef → Option VerificationResultRef → Option VerificationResultRef
or_else none o = o
or_else (some x) o = some x

lookup-by_id :
    (id : String) (items : List VerificationResultRef) (d : Dict VerificationResultRef)
    → lookup id (by_id items d) ≡ or_else (last_result id items) (lookup id d)
unfolding by_id last_result or_else
lookup-by_id id [] d = refl
lookup-by_id id (x ∷ xs) d = ground (
  arith,
  lookup-by_id id xs (insert x.verification_id x d),
  lookup-insert x.verification_id id x d,
)

-- The last result with the id passed, at the accepted tree and evidence root.
pub record IsVerified (r : FactoryResultSet) (id : String) : Type 0 where
  pub item : VerificationResultRef
  pub found : last_result id r.verification_results ≡ some item
  pub tree : item.accepted_tree_hash ≡ r.accepted_tree_hash
  pub root : item.evidence_root ≡ r.accepted_evidence_root
  pub passed : item.status ≡ pass

lookup-results :
    (id : String) (items : List VerificationResultRef)
    → lookup id (by_id items []) ≡ last_result id items
unfolding lookup or_else
lookup-results id items = lookup-by_id id items [] ∙ ground arith

-- The three conditions on an item that pass it.
judge-passed :
    (r : FactoryResultSet) (item : VerificationResultRef)
    → (judge r (some item) ≡ is_passed) ↔ (
        (item.accepted_tree_hash ≡ r.accepted_tree_hash)
        × (item.evidence_root ≡ r.accepted_evidence_root)
        × (item.status ≡ pass))
unfolding judge
judge-passed r item =
    let tree = option_beq_iff item.accepted_tree_hash r.accepted_tree_hash in
    let root = option_beq_iff item.evidence_root r.accepted_evidence_root in
    elim (Bool-cases (item.accepted_tree_hash == r.accepted_tree_hash)) [
      | inr other ↦ (λ h. absurd (ground arith), λ (t, _, _). absurd (cc (tree.1 t)))
      | inl same ↦ elim (Bool-cases (item.evidence_root == r.accepted_evidence_root)) [
        | inr other ↦ (λ h. absurd (ground arith), λ (_, e, _). absurd (cc (root.1 e)))
        | inl same' ↦
            (λ h. (tree.0 same, root.0 same', ground arith), λ (_, _, p). rw (same, same', p))
      ]
    ]

judge-none : (r : FactoryResultSet) → judge r none ≡ is_passed → ⊥
unfolding judge
judge-none r h = cc

judge-IsVerified :
    (r : FactoryResultSet) (id : String)
    → judge r (lookup id (by_id r.verification_results [])) ≡ is_passed
    → IsVerified r id
judge-IsVerified r id h = elim (Option-cases (last_result id r.verification_results)) [
  | inl absent ↦ absurd (judge-none r (rw (lookup-results id r.verification_results, absent) at h))
  | inr (item, found) ↦
      let (tree, root, passed) =
        (judge-passed r item).0 (rw (lookup-results id r.verification_results, found) at h) in
      record { item = item; found = found; tree = tree; root = root; passed = passed }
]

IsVerified-judge :
    (r : FactoryResultSet) (id : String)
    → IsVerified r id
    → judge r (lookup id (by_id r.verification_results [])) ≡ is_passed
IsVerified-judge r id v =
    rw (lookup-results id r.verification_results, v.found)
      ((judge-passed r v.item).1 (v.tree, v.root, v.passed))

filed-complete :
    (f : Finding) (id : String) (rest : Findings)
    → (evaluation_of (file_under f id rest)).complete ≡ true
    → (f ≡ is_passed) × ((evaluation_of rest).complete ≡ true)
unfolding evaluation_of file_under
filed-complete f id rest h = ground arith

-- Nothing is filed exactly if every id passes.
collect_passed :
    (r : FactoryResultSet) (ids : List String)
    → All (IsVerified r) ids
    → (evaluation_of (collect r (by_id r.verification_results []) ids)).complete ≡ true
unfolding collect evaluation_of
collect_passed r [] v = refl
collect_passed r (id ∷ ids) v = rw (IsVerified-judge r id v.0) (collect_passed r ids v.1)

collect_complete :
    (r : FactoryResultSet) (ids : List String)
    → (evaluation_of (collect r (by_id r.verification_results []) ids)).complete ≡ true
    → All (IsVerified r) ids
unfolding collect evaluation_of
collect_complete r [] h = tt
collect_complete r (id ∷ ids) h =
    let (first, rest) =
      filed-complete (judge r (lookup id (by_id r.verification_results []))) id _ h in
    (judge-IsVerified r id first, collect_complete r ids rest)

-- The evaluation is complete exactly if there is an accepted tree with its evidence, both with a
-- hash that is not empty, and each required id has its last result passed at just that tree and
-- evidence.
pub evaluate-complete_iff :
    (c : GoalContract) (r : FactoryResultSet)
    → ((evaluate c r).complete ≡ true) ↔ (
        (is_falsy r.accepted_tree_hash ≡ false)
        × (is_falsy r.accepted_evidence_root ≡ false)
        × All (IsVerified r) c.required_verification_ids)
unfolding evaluate
evaluate-complete_iff c r =
    elim (Bool-cases (is_falsy r.accepted_tree_hash || is_falsy r.accepted_evidence_root)) [
      | inl absent ↦ (λ h. absurd (ground arith), λ (t, e, _). absurd (ground arith))
      | inr present ↦ (
        λ h. (
          ground arith,
          ground arith,
          collect_complete r c.required_verification_ids (rw present at h),
        ),
        λ (t, e, v). rw present (collect_passed r c.required_verification_ids v),
      )
    ]
