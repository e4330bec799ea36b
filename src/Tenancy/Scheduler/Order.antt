-- ===== src/Tenancy/Scheduler/Order.antt =====
-- No job is lost or done twice, and the jobs of a tenant are done in their order.
use residual_agent_harness.Prelude.{
  ℕ, zero, suc, ◌+◌, ◌≡◌, refl, sym, subst, ◌∙◌, ap, String, false, not, ◌&&◌, List, [], ◌∷◌, ◌++◌,
  All, arith, is_empty, leb, select, select-append, string_eq, ◌==◌, ==_iff, Bool-cases, inl, inr,
}
use mathlib.Core.List.{append_assoc, append-nil}
use residual_agent_harness.Prelude.Result.{ok}
use residual_agent_harness.Tenancy.Scheduler.{
  Job, FairScheduler, queue_of, deficit_of, quota_of, Turn, settle, visit, pass, is_busy, loop,
}
use residual_agent_harness.Tenancy.Scheduler.Serve.{serve-append}
use residual_agent_harness.Tenancy.Scheduler.Pass.{served, queue_own, queue_other}
use residual_agent_harness.Tenancy.Scheduler.Effect.{visit_idle, visit_busy}

-- The jobs that a tenant had done, in their order.
unfoldable pub done_of : FairScheduler → String → List Job
done_of s tenant = select (λ j. j.tenant_id == tenant) s.completed

-- Every queue holds jobs of its tenant.
abbrev pub IsTagged : FairScheduler → Type 0
IsTagged s = (n : String) → All (λ j. j.tenant_id ≡ n) (queue_of s n)

-- Done and to do, each tenant has the same jobs in the same order.
pub record IsKept (s s' : FairScheduler) : Type 0 where
  pub tagged : IsTagged s'
  pub jobs : (n : String) → done_of s' n ++ queue_of s' n ≡ done_of s n ++ queue_of s n

select_own :
    (n : String) (js : List Job)
    → All (λ j. j.tenant_id ≡ n) js
    → select (λ j. j.tenant_id == n) js ≡ js
unfolding select
select_own n [] h = refl
select_own n (j ∷ js) h = ground (arith, select_own n js h.1, ==_iff j.tenant_id n, h.0)

select_other :
    (m n : String) (js : List Job)
    → (m == n) ≡ false
    → All (λ j. j.tenant_id ≡ m) js
    → select (λ j. j.tenant_id == n) js ≡ []
unfolding select
select_other m n [] e h = refl
select_other m n (j ∷ js) e h =
    let here : (j.tenant_id == n) ≡ false = subst (λ x. (x == n) ≡ false) (sym h.0) e in
    rw here (select_other m n js e h.1)

All_left : {A : Type 0} (P : A → Type 0) (xs ys : List A) → All P (xs ++ ys) → All P xs
All_left P [] ys h = tt
All_left P (x ∷ xs) ys h = (h.0, All_left P xs ys h.1)

All_right : {A : Type 0} (P : A → Type 0) (xs ys : List A) → All P (xs ++ ys) → All P ys
All_right P [] ys h = h
All_right P (x ∷ xs) ys h = All_right P xs ys h.1

module _ (max_steps : ℕ) where
  settle-IsKept :
      (t : Turn) (tenant : String)
      → IsTagged t.scheduler
      → IsKept t.scheduler (settle t tenant (served max_steps t tenant)).scheduler
  unfolding settle done_of
  settle-IsKept t tenant tagged =
      let r = served max_steps t tenant in
      let t' : Turn = settle t tenant r in
      let queue = queue_of t.scheduler tenant in
      let credit = deficit_of t.scheduler tenant + quota_of t.scheduler tenant in
      let parts = serve-append max_steps queue credit t.steps in
      let whole : All (λ j. j.tenant_id ≡ tenant) (r.jobs ++ r.queue) =
        subst (λ q. All (λ j. j.tenant_id ≡ tenant) q) (sym parts) (tagged tenant) in
      let done = All_left (λ j. j.tenant_id ≡ tenant) r.jobs r.queue whole in
      let left = All_right (λ j. j.tenant_id ≡ tenant) r.jobs r.queue whole in
      let completed = t.scheduler.completed in
      record {
        tagged = λ n. elim (Bool-cases (tenant == n)) [
          | inl same ↦
              subst (λ m. All (λ j. j.tenant_id ≡ m) (queue_of t'.scheduler m))
                ((==_iff tenant n).0 same) (rw (queue_own max_steps t tenant r) left)
          | inr other ↦ rw (queue_other max_steps t tenant n r other) (tagged n)
        ];
        jobs = λ n. elim (Bool-cases (tenant == n)) [
          | inl same ↦
              subst
                (λ m.
                  done_of t'.scheduler m ++ queue_of t'.scheduler m
                  ≡ done_of t.scheduler m ++ queue_of t.scheduler m)
                ((==_iff tenant n).0 same)
                (rw (queue_own max_steps t tenant r) (
                  rw (select-append (λ j. j.tenant_id == tenant) completed r.jobs) (
                    rw (select_own tenant r.jobs done) (
                      append_assoc (done_of t.scheduler tenant) r.jobs r.queue
                      ∙ ap (λ q. done_of t.scheduler tenant ++ q) parts))))
          | inr other ↦ rw (queue_other max_steps t tenant n r other) (
              rw (select-append (λ j. j.tenant_id == n) completed r.jobs) (
                rw (select_other tenant n r.jobs other done)
                  (ap (λ l. l ++ queue_of t.scheduler n) (append-nil (done_of t.scheduler n)))))
        ];
      }

  IsKept-refl : (s : FairScheduler) → IsTagged s → IsKept s s
  IsKept-refl s tagged = record { tagged = tagged; jobs = λ n. refl }

  IsKept-trans : (a b c : FairScheduler) → IsKept a b → IsKept b c → IsKept a c
  IsKept-trans a b c p q = record { tagged = q.tagged; jobs = λ n. q.jobs n ∙ p.jobs n }

  visit-IsKept :
      (t : Turn) (tenant : String)
      → IsTagged t.scheduler
      → IsKept t.scheduler (visit max_steps t tenant).scheduler
  visit-IsKept t tenant tagged = elim (Bool-cases (is_empty (queue_of t.scheduler tenant))) [
    | inl none_left ↦ rw (visit_idle max_steps t tenant none_left) (IsKept-refl t.scheduler tagged)
    | inr some_left ↦ rw (visit_busy max_steps t tenant some_left) (settle-IsKept t tenant tagged)
  ]

  pass-IsKept :
      (t : Turn) (tenants : List String)
      → IsTagged t.scheduler
      → IsKept t.scheduler (pass max_steps t tenants).scheduler
  unfolding pass
  pass-IsKept t [] tagged = IsKept-refl t.scheduler tagged
  pass-IsKept t (n ∷ tenants) tagged =
      let t' : Turn = visit max_steps t n in
      let first = visit-IsKept t n tagged in
      IsKept-trans t.scheduler t'.scheduler (pass max_steps t' tenants).scheduler first
        (pass-IsKept t' tenants first.tagged)

  pub loop-IsKept :
      (fuel : ℕ) (s s' : FairScheduler) (steps : ℕ)
      → IsTagged s
      → loop fuel max_steps s steps ≡ ok s'
      → IsKept s s'
  unfolding loop
  loop-IsKept zero s s' steps tagged e = absurd (cc)
  loop-IsKept (suc fuel) s s' steps tagged e =
      let start : Turn = record { scheduler = s; steps = steps; progressed = false } in
      let t : Turn = pass max_steps start s.round_order in
      let first = pass-IsKept start s.round_order tagged in
      elim (Bool-cases (is_busy s s.round_order)) [
        | inr calm ↦
            let same : s ≡ s' = ground (arith, e, calm) in
            subst (IsKept s) same (IsKept-refl s tagged)
        | inl busy ↦ elim (Bool-cases (not t.progressed && leb max_steps t.steps)) [
          | inl stop ↦ absurd (ground (arith, e, busy, stop))
          | inr going ↦ IsKept-trans s t.scheduler s' first (
              loop-IsKept fuel t.scheduler s' t.steps first.tagged (ground (arith, e, busy, going)))
        ]
      ]
