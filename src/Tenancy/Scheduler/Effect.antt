-- ===== src/Tenancy/Scheduler/Effect.antt =====
-- What a pass over the tenants changes, as numbers.
use residual_agent_harness.Prelude.{
  ℕ, ◌+◌, ◌≤◌, ◌<◌, ◌≡◌, refl, sym, subst, ◌∙◌, ap, String, true, false, inl, inr, List, [], ◌∷◌,
  All, arith, any, contains, is_empty, length, string_eq, ◌==◌, ==_iff, if◌then◌else◌, Bool-cases,
}
use residual_agent_harness.Prelude.Dict.{Dict, lookup}
use residual_agent_harness.Tenancy.Scheduler.{
  Job, or_else, queue_of, deficit_of, quota_of, Turn, settle, visit, pass, is_busy, sum_of, need,
}
use residual_agent_harness.Tenancy.Scheduler.Serve.{serve-steps, serve-exhausted}
use residual_agent_harness.Tenancy.Scheduler.Pass.{
  sum_of-drop, waiting, served, queue_other, settle-need_own, settle-need_other, settle-waiting_own,
}

module _ (max_steps : ℕ) where
  pub visit_idle :
      (t : Turn) (tenant : String)
      → is_empty (queue_of t.scheduler tenant) ≡ true
      → visit max_steps t tenant ≡ t
  unfolding visit
  visit_idle t tenant e = rw e refl

  pub visit_busy :
      (t : Turn) (tenant : String)
      → is_empty (queue_of t.scheduler tenant) ≡ false
      → visit max_steps t tenant ≡ settle t tenant (served max_steps t tenant)
  unfolding visit
  visit_busy t tenant e = rw e refl

  -- For the tenants of an order: `drop` is what the sum of their needs loses at least.
  pub record Effect (order : List String) (drop : ℕ) (t t' : Turn) : Type 0 where
    pub steps : t.steps ≤ t'.steps
    pub done :
        sum_of (waiting t'.scheduler) order + t'.steps
        ≤ sum_of (waiting t.scheduler) order + t.steps
    pub needed :
        t'.steps < max_steps
        → sum_of (need t'.scheduler) order + drop ≤ sum_of (need t.scheduler) order
    pub idle : max_steps ≤ t.steps → (t'.steps ≡ t.steps) × (t'.progressed ≡ t.progressed)
    pub still : t'.progressed ≡ false → (t'.steps ≡ t.steps) × (t.progressed ≡ false)
    pub quotas : t'.scheduler.quotas ≡ t.scheduler.quotas
    pub same_order : t'.scheduler.round_order ≡ t.scheduler.round_order

  Effect-refl : (order : List String) (t : Turn) → Effect order 0 t t
  Effect-refl order t = record {
    steps = omega arith;
    done = omega arith;
    needed = λ _. omega arith;
    idle = λ _. (refl, refl);
    still = λ h. (refl, h);
    quotas = refl;
    same_order = refl;
  }

  Effect-trans :
      (order : List String) (j k : ℕ) (a b c : Turn)
      → Effect order j a b
      → Effect order k b c
      → Effect order (j + k) a c
  Effect-trans order j k a b c e f = record {
    steps = omega (arith, e.steps, f.steps);
    done = omega (arith, e.done, f.done);
    needed = λ below. omega (arith, f.needed below, e.needed (omega (arith, f.steps, below)));
    idle = λ over.
        let first = e.idle over in
        let second = f.idle (omega (arith, over, e.steps)) in
        (second.0 ∙ first.0, second.1 ∙ first.1);
    still = λ h.
        let second = f.still h in let first = e.still second.1 in (second.0 ∙ first.0, first.1);
    quotas = f.quotas ∙ e.quotas;
    same_order = f.same_order ∙ e.same_order;
  }

  Effect-weaken :
      (order : List String) (j k : ℕ) (a b : Turn) → k ≤ j → Effect order j a b → Effect order k a b
  Effect-weaken order j k a b le e = record {
    steps = e.steps;
    done = e.done;
    needed = λ below. omega (arith, le, e.needed below);
    idle = e.idle;
    still = e.still;
    quotas = e.quotas;
    same_order = e.same_order;
  }

  no_jobs : (jobs : List Job) → is_empty jobs ≡ true → length jobs ≡ 0
  no_jobs [] e = refl
  no_jobs (j ∷ jobs) e = absurd (cc)

  settle-Effect :
      (order : List String) (t : Turn) (tenant : String)
      → contains tenant order ≡ true
      → 1 ≤ quota_of t.scheduler tenant
      → is_empty (queue_of t.scheduler tenant) ≡ false
      → Effect order 1 t (settle t tenant (served max_steps t tenant))
  unfolding settle
  settle-Effect order t tenant there some_quota some_jobs =
      let r = served max_steps t tenant in
      let t' : Turn = settle t tenant r in
      let credit = deficit_of t.scheduler tenant + quota_of t.scheduler tenant in
      let counted = serve-steps max_steps (queue_of t.scheduler tenant) credit t.steps in
      let own = settle-waiting_own max_steps t tenant in
      let less : (n : String) → waiting t'.scheduler n ≤ waiting t.scheduler n = λ n.
        elim (Bool-cases (tenant == n)) [
          | inl same ↦
              subst (λ m. waiting t'.scheduler m ≤ waiting t.scheduler m) ((==_iff tenant n).0 same)
                (omega (arith, own, counted))
          | inr other ↦ rw (queue_other max_steps t tenant n r other) (omega arith)
        ] in
      record {
        steps = omega (arith, counted);
        done =
            let drop =
              sum_of-drop (waiting t'.scheduler) (waiting t.scheduler) (length r.jobs) tenant order
                less (omega (arith, own, counted)) there in
            omega (arith, drop, counted);
        needed = λ below.
            let own_need = settle-need_own max_steps t tenant some_quota some_jobs below in
            sum_of-drop (need t'.scheduler) (need t.scheduler) 1 tenant order
              (λ n. elim (Bool-cases (tenant == n)) [
                | inl same ↦
                    subst (λ m. need t'.scheduler m ≤ need t.scheduler m) ((==_iff tenant n).0 same)
                      (omega (arith, own_need))
                | inr other ↦ rw (settle-need_other max_steps t tenant n r other) (omega arith)
              ])
              own_need there;
        idle = λ over.
            let nothing =
              serve-exhausted max_steps (queue_of t.scheduler tenant) credit t.steps over in
            (omega (arith, counted, ap (λ l. length l) nothing), rw nothing (ground arith));
        still =
            λ h. (omega (arith, counted, no_jobs r.jobs (ground (arith, h))), ground (arith, h));
        quotas = refl;
        same_order = refl;
      }

  -- Every quota is positive.
  abbrev pub IsFunded : Dict ℕ → Type 0
  IsFunded quotas = (n : String) → 1 ≤ or_else 1 (lookup n quotas)

  pub pass-Effect :
      (order : List String) (t : Turn) (tenants : List String)
      → All (λ n. contains n order ≡ true) tenants
      → IsFunded t.scheduler.quotas
      → Effect order (if is_busy t.scheduler tenants then 1 else 0) t (pass max_steps t tenants)
  unfolding pass is_busy any quota_of
  pass-Effect order t [] there funded = Effect-refl order t
  pass-Effect order t (n ∷ tenants) there funded =
      elim (Bool-cases (is_empty (queue_of t.scheduler n))) [
        | inl none_left ↦
            rw (visit_idle t n none_left)
              (rw none_left (pass-Effect order t tenants there.1 funded))
        | inr some_left ↦
            let t' : Turn = settle t n (served max_steps t n) in
            let first = settle-Effect order t n there.0 (funded n) some_left in
            let rest =
              pass-Effect order t' tenants there.1 (subst IsFunded (sym first.quotas) funded) in
            let k : ℕ = if is_busy t'.scheduler tenants then 1 else 0 in
            rw (visit_busy t n some_left) (
              rw some_left (
                Effect-weaken order (1 + k) 1 t (pass max_steps t' tenants) (omega arith)
                  (Effect-trans order 1 k t t' (pass max_steps t' tenants) first rest)))
      ]
