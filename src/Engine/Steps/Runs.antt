-- ===== src/Engine/Steps/Runs.antt =====
-- A run is a sequence of steps, and it ends.
use residual_agent_harness.Prelude.{
  ℕ, zero, suc, ◌+◌, ◌≤◌, ◌<◌, ◌≡◌, refl, String, true, false, not, some, List, [], ◌∷◌, ◌++◌,
  arith, map, All, all, contains, contains-append, count, is_empty, length, select, string_eq,
  if◌then◌else◌, Bool-cases, inl, inr,
}
use residual_agent_harness.Prelude.Result.{ok}
use residual_agent_harness.Core.Obligation.{Obligation}
use residual_agent_harness.Core.Task.{ids}
use residual_agent_harness.Core.Task.Progress.{ids-select}
use residual_agent_harness.Engine.{local, expert, Host, Harness, Run, run_finished}
use residual_agent_harness.Engine.Accept.{add}
use residual_agent_harness.Engine.Calls.{dispatch_to}
use residual_agent_harness.Engine.Rounds.{
  is_full_cloud, is_local_only, try_all, is_ready, ready_ids, attempt, loop, is_registered, start,
  run,
}
use residual_agent_harness.Engine.Results.{result}
use residual_agent_harness.Engine.Steps.{View, view, Steps, stay, Steps-trans}
use residual_agent_harness.Engine.Steps.Accepts.{try_all-Steps}
use residual_agent_harness.Engine.Steps.Calls.{either-Steps, dispatch_to-Steps}

-- The view of a run that starts.
abbrev pub new_view : {V : Type 0} → View V
new_view = record { accepted = []; calls = []; remote_bytes = 0; expert_calls = 0 }

module _ {V W : Type 0} (host : Host V W) (h : Harness V W) where
  attempt-Steps :
      (s : Run V W) (ready : List String) → Steps host h (view s) (view (attempt host h s ready))
  unfolding attempt
  attempt-Steps s ready =
      let s1 = try_all host h s ready in
      let near = dispatch_to host h h.local ready local h.limits.local_rounds s1 in
      let s2 : Run V W = if is_full_cloud h.mode then s1 else near in
      let first : Steps host h (view s1) (view s2) =
        either-Steps host h (is_full_cloud h.mode) s1 s1 near (stay refl)
          (dispatch_to-Steps host h h.local ready local h.limits.local_rounds s1) in
      let far = dispatch_to host h h.expert ready expert h.limits.expert_rounds s2 in
      Steps-trans host h (try_all-Steps host h s ready) (
        Steps-trans host h first (
          either-Steps host h (is_local_only h.mode) s2 s2 far (stay refl)
            (dispatch_to-Steps host h h.expert ready expert h.limits.expert_rounds s2)))

  loop-Steps :
      (fuel : ℕ) (s s' : Run V W) (attempted : List String)
      → loop host h fuel s attempted ≡ some s'
      → Steps host h (view s) (view s')
  unfolding loop
  loop-Steps zero s s' attempted e = absurd (cc)
  loop-Steps (suc fuel) s s' attempted e =
      let ready = ready_ids host h s attempted in
      elim (Bool-cases (is_empty ready)) [
        | inl idle ↦ let same : s ≡ s' = ground arith in stay (λ i. view (same i))
        | inr busy ↦
            Steps-trans host h (attempt-Steps s ready)
              (loop-Steps fuel (attempt host h s ready) s' (attempted ++ ready) (ground arith))
      ]

  -- Every round attempts what was not attempted.
  fresh_count : List String → List Obligation → ℕ
  fresh_count attempted os = count (λ o. not (contains o.id attempted)) os

  count-drop :
      (s : Run V W) (attempted ready : List String) (os : List Obligation)
      → All (λ o. is_ready host h s attempted o ≡ true → contains o.id ready ≡ true) os
      → fresh_count (attempted ++ ready) os + length (select (is_ready host h s attempted) os)
        ≤ fresh_count attempted os
  unfolding fresh_count count select is_ready
  count-drop s attempted ready [] all_in = omega arith
  count-drop s attempted ready (o ∷ os) all_in =
      let rest = count-drop s attempted ready os all_in.1 in
      ground (arith, rest, all_in.0, contains-append o.id attempted ready)

  ready_ids-length :
      (s : Run V W) (attempted : List String)
      → length (ready_ids host h s attempted)
        ≡ length (select (is_ready host h s attempted) h.task.obligations)
  unfolding ready_ids
  ready_ids-length s attempted =
      length-map (select (is_ready host h s attempted) h.task.obligations)
    where
      length-map : (os : List Obligation) → length (map (λ o. o.id) os) ≡ length os
      length-map [] = refl
      length-map (o ∷ os) = omega (arith, length-map os)

  ready_ids-contains :
      (s : Run V W) (attempted : List String)
      → All
          (λ o.
            is_ready host h s attempted o ≡ true
            → contains o.id (ready_ids host h s attempted) ≡ true)
          h.task.obligations
  unfolding ready_ids ids
  ready_ids-contains s attempted = ids-select (is_ready host h s attempted) h.task.obligations

  nonempty : (xs : List String) → is_empty xs ≡ false → 1 ≤ length xs
  nonempty [] e = absurd (cc)
  nonempty (x ∷ xs) e = omega arith

  loop-ends :
      (fuel : ℕ) (s : Run V W) (attempted : List String)
      → fresh_count attempted h.task.obligations < fuel
      → (s' : Run V W) × (loop host h fuel s attempted ≡ some s')
  unfolding loop
  loop-ends zero s attempted enough = absurd (omega arith)
  loop-ends (suc fuel) s attempted enough =
      let ready = ready_ids host h s attempted in
      elim (Bool-cases (is_empty ready)) [
        | inl idle ↦ (s, rw idle refl)
        | inr busy ↦
            let drop =
              count-drop s attempted ready h.task.obligations (ready_ids-contains s attempted) in
            let some_ready : 1 ≤ length ready = nonempty ready busy in
            rw busy (
              loop-ends fuel (attempt host h s ready) (attempted ++ ready)
                (omega (arith, drop, some_ready, ready_ids-length s attempted, enough)))
      ]

  fresh_count-le : (os : List Obligation) → fresh_count [] os ≤ length os
  unfolding fresh_count count contains
  fresh_count-le [] = omega arith
  fresh_count-le (o ∷ os) = omega (arith, fresh_count-le os)

  -- Where every verifier and solver is registered, a run ends with a state that is reached from the
  -- empty one by accepting values that their verifiers pass and by calls that keep to the limits,
  -- the remote ones with nothing private in them.
  pub run-Steps :
      (w : W)
      → all (is_registered host h) h.task.obligations ≡ true
      → (s : Run V W) × (run host h w ≡ ok s) × Steps host h new_view (view s)
  unfolding run start
  run-Steps w registered =
      let (s, ended) =
        loop-ends (suc (length h.task.obligations)) (start host h w) []
          (omega (arith, fresh_count-le h.task.obligations)) in
      (
        add host h s (run_finished (result h s).success),
        rw (registered, ended) refl,
        loop-Steps (suc (length h.task.obligations)) (start host h w) s [] ended,
      )
