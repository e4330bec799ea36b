-- ===== src/Engine/Steps/Accepts.antt =====
-- The parts of `run` that make no call: they only accept what is passed.
use residual_agent_harness.Prelude.{
  ◌||◌, ◌==◌, string_eq, ◌≡◌, refl, subst, sym, ◌∙◌, String, true, not, Option, none, some, List,
  [], ◌∷◌, arith, find, string_eq, nat_eq, ◌==◌, ==_iff, if◌then◌else◌, Bool-cases, Option-cases,
  inl, inr, select,
}
use residual_agent_harness.Prelude.Dict.{Dict, lookup}
use residual_agent_harness.Core.Obligation.{Obligation}
use residual_agent_harness.Core.Task.{Artifact}
use residual_agent_harness.Core.Task.Cloud.{by_id, cloud_allowed}
use residual_agent_harness.Core.Context.{Verdict, is_pass}
use residual_agent_harness.Engine.{
  Role, from_worker, Source, from_cache, deterministic, Checked, returned, other_value, raised,
  Request, Provider, Host, Harness, Run,
}
use residual_agent_harness.Engine.Accept.{
  is_there, failure, context, verdict_of, verdict_on, settle, record_accepted, accept,
}
use residual_agent_harness.Engine.Work.{
  failures, denied, supply, request_artifact, request_of, request_evidence, requests, request_at,
  accept_found, updates, local_only_failures, fail_private,
}
use residual_agent_harness.Engine.Rounds.{
  skips_solvers, solved, solve_with, try_cached, try_found, try_all,
}
use residual_agent_harness.Engine.Steps.{view, IsPassed, accepts, Steps, stay, go, Steps-trans}

pub by_id-eq : (os : List Obligation) (n : String) (o : Obligation) → by_id os n ≡ some o → o.id ≡ n
unfolding by_id find
by_id-eq [] n o h = absurd (cc)
by_id-eq (x ∷ os) n o h = elim (Bool-cases (x.id == n)) [
  | inl same ↦ let e : x ≡ o = ground arith in subst (λ y. y.id ≡ n) e ((==_iff x.id n).0 same)
  | inr other ↦ by_id-eq os n o (ground arith)
]

pub by_id-own :
    (os : List Obligation) (n : String) (o : Obligation)
    → by_id os n ≡ some o
    → by_id os o.id ≡ some o
by_id-own os n o h = subst (λ m. by_id os m ≡ some o) (sym (by_id-eq os n o h)) h

module _ {V W : Type 0} (host : Host V W) (h : Harness V W) where
  -- A failure, and any number of them, changes nothing of the view.
  pub failures-view :
      (s : Run V W) (ns : List String) (code message : String)
      → view (failures host h s ns code message) ≡ view s
  unfolding failures failure
  failures-view s [] code message = refl
  failures-view s (n ∷ ns) code message =
      failures-view (failure host h s n code message) ns code message

  verdict_on-IsPassed :
      (s : Run V W) (o : Obligation) (value : V)
      → is_pass (verdict_on host h s o (some value)).status ≡ true
      → IsPassed host h o value s.accepted
  unfolding verdict_on verdict_of context
  verdict_on-IsPassed s o value p = by_cases (host.check o.check value (context host h s o)) refl p
    where
      by_cases :
          (c : Checked)
          → host.check o.check value (context host h s o) ≡ c
          → is_pass (verdict_of c).status ≡ true
          → IsPassed host h o value s.accepted
      by_cases (returned v) e p = record { verdict = v; checked = e; passed = p }
      by_cases other_value e p = absurd (cc)
      by_cases raised e p = absurd (cc)

  settle-Steps :
      (s : Run V W) (o : Obligation) (copied : Option V) (source : Source) (v : Verdict)
      → by_id h.task.obligations o.id ≡ some o
      → lookup o.id s.accepted ≡ none
      → ((value : V)
          → copied ≡ some value
          → is_pass v.status ≡ true
          → IsPassed host h o value s.accepted)
      → Steps host h (view s) (view (settle host h s o copied source v).0)
  unfolding settle record_accepted failure
  settle-Steps s o none source v own fresh checked = elim (Bool-cases (is_pass v.status)) [
    | inr not_passed ↦ rw not_passed (stay refl)
    | inl passed ↦ rw passed (stay refl)
  ]
  settle-Steps s o (some value) source v own fresh checked = elim (Bool-cases (is_pass v.status)) [
    | inr not_passed ↦ rw not_passed (stay refl)
    | inl passed ↦
        rw passed (go (stay refl) (accepts (view s) o value own fresh (checked value refl passed)))
  ]

  accept-Steps :
      (s : Run V W) (o : Obligation) (value : V) (source : Source)
      → by_id h.task.obligations o.id ≡ some o
      → Steps host h (view s) (view (accept host h s o value source).0)
  unfolding accept
  accept-Steps s o value source own = elim (Option-cases (lookup o.id s.accepted)) [
    | inr (old, there) ↦ rw there (stay refl)
    | inl fresh ↦ rw fresh (
        settle-Steps s o (host.copy value) source (verdict_on host h s o (host.copy value)) own
          fresh (λ copied e p. verdict_on-IsPassed s o copied (rw e at p)))
  ]

  accept_found-Steps :
      (s : Run V W) (id : String) (m : Option Obligation) (value : V) (role : Role)
      → by_id h.task.obligations id ≡ m
      → Steps host h (view s) (view (accept_found host h s m value role))
  unfolding accept_found
  accept_found-Steps s id none value role e = stay refl
  accept_found-Steps s id (some o) value role e =
      accept-Steps s o value (from_worker role) (by_id-own h.task.obligations id o e)

  pub updates-Steps :
      (s : Run V W) (us : Dict V) (role : Role)
      → Steps host h (view s) (view (updates host h s us role))
  unfolding updates
  updates-Steps s [] role = stay refl
  updates-Steps s ((id, value) ∷ us) role =
      let m = by_id h.task.obligations id in
      Steps-trans host h (accept_found-Steps s id m value role refl)
        (updates-Steps (accept_found host h s m value role) us role)

  solved-Steps :
      (s : Run V W) (o : Obligation) (m : Option V)
      → by_id h.task.obligations o.id ≡ some o
      → Steps host h (view s) (view (solved host h s o m))
  unfolding solved failure
  solved-Steps s o none own = stay refl
  solved-Steps s o (some value) own = accept-Steps s o value deterministic own

  solve_with-Steps :
      (s : Run V W) (o : Obligation) (m : Option String)
      → by_id h.task.obligations o.id ≡ some o
      → Steps host h (view s) (view (solve_with host h s o m))
  unfolding solve_with
  solve_with-Steps s o none own = stay refl
  solve_with-Steps s o (some name) own = elim (Bool-cases (name == "" || skips_solvers h.mode)) [
    | inl skipped ↦ rw skipped (stay refl)
    | inr used ↦ rw used (solved-Steps s o (host.solve name (context host h s o)) own)
  ]

  try_cached-Steps :
      (s : Run V W) (o : Obligation) (m : Option V)
      → by_id h.task.obligations o.id ≡ some o
      → Steps host h (view s) (view (try_cached host h s o m))
  unfolding try_cached
  try_cached-Steps s o none own = solve_with-Steps s o o.solver own
  try_cached-Steps s o (some value) own =
      let accepted = accept-Steps s o value from_cache own in
      elim (Bool-cases (accept host h s o value from_cache).1) [
        | inl hit ↦ rw hit accepted
        | inr miss ↦ rw miss (
            Steps-trans host h accepted
              (solve_with-Steps (accept host h s o value from_cache).0 o o.solver own))
      ]

  try_found-Steps :
      (s : Run V W) (id : String) (m : Option Obligation)
      → by_id h.task.obligations id ≡ m
      → Steps host h (view s) (view (try_found host h s m))
  unfolding try_found
  try_found-Steps s id none e = stay refl
  try_found-Steps s id (some o) e = try_cached-Steps s o _ (by_id-own h.task.obligations id o e)

  pub try_all-Steps :
      (s : Run V W) (ns : List String) → Steps host h (view s) (view (try_all host h s ns))
  unfolding try_all
  try_all-Steps s [] = stay refl
  try_all-Steps s (n ∷ ns) =
      let m = by_id h.task.obligations n in
      Steps-trans host h (try_found-Steps s n m refl) (try_all-Steps (try_found host h s m) ns)

  -- Requests for evidence change nothing of the view.
  request_artifact-view :
      (provider : Provider V W) (s : Run V W) (r : Request) (a : Artifact)
      → view (request_artifact host h provider s r a) ≡ view s
  unfolding request_artifact supply denied failure
  request_artifact-view provider s r a = ground arith

  request_of-view :
      (provider : Provider V W) (s : Run V W) (r : Request) (m : Option Obligation)
      → view (request_of host h provider s r m) ≡ view s
  unfolding request_of denied failure request_at
  request_of-view provider s r none = refl
  request_of-view provider s r (some o) =
      let found = at (lookup r.artifact_id h.task.artifacts) in ground arith
    where
      at : (m : Option Artifact) → view (request_at host h provider s r m) ≡ view s
      at none = refl
      at (some a) = request_artifact-view provider s r a

  pub requests-view :
      (provider : Provider V W) (s : Run V W) (rs : List Request)
      → view (requests host h provider s rs) ≡ view s
  unfolding requests request_evidence
  requests-view provider s [] = refl
  requests-view provider s (r ∷ rs) =
      requests-view provider (request_evidence host h provider s r) rs
      ∙ ground (arith, request_of-view provider s r (by_id h.task.obligations r.obligation_id))

  local_only_failures-view :
      (s : Run V W) (ns : List String) → view (local_only_failures host h s ns) ≡ view s
  unfolding local_only_failures failure
  local_only_failures-view s [] = refl
  local_only_failures-view s (n ∷ ns) =
      local_only_failures-view
        (if cloud_allowed h.task n
          then s
          else failure host h s n "local_only"
              "This obligation or its dependencies cannot be sent remotely.")
        ns
      ∙ ground arith

  pub fail_private-view :
      (provider : Provider V W) (s : Run V W) (ns : List String)
      → view (fail_private host h provider s ns) ≡ view s
  unfolding fail_private
  fail_private-view provider s ns =
      ground
        (arith, local_only_failures-view s (select (λ n. not (is_there (lookup n s.accepted))) ns))
