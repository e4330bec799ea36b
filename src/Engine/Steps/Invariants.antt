-- ===== src/Engine/Steps/Invariants.antt =====
-- What the steps keep: the limits, the privacy of what is sent, and that what is accepted has
-- been passed.
use residual_agent_harness.Prelude.{
  ℕ, ◌+◌, ◌≤◌, ◌≡◌, refl, subst, true, List, [], ◌∷◌, ◌++◌, arith, All, All-append, all, length,
  length-append, string_eq, Bool-cases, inl, inr,
}
use residual_agent_harness.Prelude.Result.{ok}
use residual_agent_harness.Engine.{Call, Host, Harness, Run}
use residual_agent_harness.Engine.Packets.{is_expert}
use residual_agent_harness.Engine.Rounds.{is_registered, run}
use residual_agent_harness.Engine.Steps.{
  View, view, IsPublic, IsPermitted, bytes_of, expert_of, Step, accepts, calls, Steps, stay, go,
}
use residual_agent_harness.Engine.Steps.Runs.{new_view, run-Steps}

module _ {V W : Type 0} (host : Host V W) (h : Harness V W) where
  pub Steps_ind {ℓ} :
      (P : View V → Type ℓ)
      → ((a b : View V) → P a → Step host h a b → P b)
      → {a b : View V} → Steps host h a b
      → P a
      → P b
  Steps_ind P step (stay e) p = subst P e p
  Steps_ind P step (go q r) p = step _ _ (Steps_ind P step q p) r

  -- The bytes that went to remote providers, and the calls of the expert.
  unfoldable pub total_bytes : List (Call V) → ℕ
  total_bytes [] = 0
  total_bytes (c ∷ cs) = bytes_of host h c + total_bytes cs

  unfoldable pub total_expert : List (Call V) → ℕ
  total_expert [] = 0
  total_expert (c ∷ cs) = expert_of host h c + total_expert cs

  record IsWithin (a : View V) : Type 0 where
    calls : length a.calls ≤ h.limits.max_calls
    bytes : total_bytes a.calls ≤ h.limits.max_remote_input_bytes
    expert : total_expert a.calls ≤ h.limits.max_expert_calls
    counted_bytes : a.remote_bytes ≡ total_bytes a.calls
    counted_expert : a.expert_calls ≡ total_expert a.calls
    public : All (λ c. c.is_remote ≡ true → IsPublic h.task c.packet) a.calls

  total_bytes-snoc :
      (cs : List (Call V)) (c : Call V)
      → total_bytes (cs ++ c ∷ []) ≡ total_bytes cs + bytes_of host h c
  unfolding total_bytes
  total_bytes-snoc [] c = omega arith
  total_bytes-snoc (x ∷ cs) c = omega (arith, total_bytes-snoc cs c)

  total_expert-snoc :
      (cs : List (Call V)) (c : Call V)
      → total_expert (cs ++ c ∷ []) ≡ total_expert cs + expert_of host h c
  unfolding total_expert
  total_expert-snoc [] c = omega arith
  total_expert-snoc (x ∷ cs) c = omega (arith, total_expert-snoc cs c)

  step_bytes-le :
      (a : View V) (c : Call V)
      → IsPermitted host h a c
      → a.remote_bytes ≤ h.limits.max_remote_input_bytes
      → a.remote_bytes + bytes_of host h c ≤ h.limits.max_remote_input_bytes
  step_bytes-le a c p low = elim (Bool-cases c.is_remote) [
    | inl remote ↦ let more = p.within_bytes remote in ground (arith, remote, more)
    | inr near ↦ ground (arith, near, low)
  ]

  step_expert-le :
      (a : View V) (c : Call V)
      → IsPermitted host h a c
      → a.expert_calls ≤ h.limits.max_expert_calls
      → a.expert_calls + expert_of host h c ≤ h.limits.max_expert_calls
  step_expert-le a c p low = elim (Bool-cases (is_expert c.role)) [
    | inl is ↦ let more = p.within_expert is in ground (arith, is, more)
    | inr other ↦ ground (arith, other, low)
  ]

  step-IsWithin : (a b : View V) → IsWithin a → Step host h a b → IsWithin b
  step-IsWithin _ _ i (accepts a o value own fresh passed) = record {
    calls = i.calls;
    bytes = i.bytes;
    expert = i.expert;
    counted_bytes = i.counted_bytes;
    counted_expert = i.counted_expert;
    public = i.public;
  }
  step-IsWithin _ _ i (calls a c p) =
      let bytes = total_bytes-snoc a.calls c in
      let experts = total_expert-snoc a.calls c in
      record {
        calls = omega (arith, length-append a.calls (c ∷ []), p.within_calls);
        bytes = omega (
          arith,
          bytes,
          i.counted_bytes,
          step_bytes-le a c p (omega (arith, i.counted_bytes, i.bytes)),
        );
        expert = omega (
          arith,
          experts,
          i.counted_expert,
          step_expert-le a c p (omega (arith, i.counted_expert, i.expert)),
        );
        counted_bytes = omega (arith, bytes, i.counted_bytes);
        counted_expert = omega (arith, experts, i.counted_expert);
        public =
            All-append (λ c. c.is_remote ≡ true → IsPublic h.task c.packet) a.calls (c ∷ [])
              i.public (p.public, tt);
      }

  -- The run's own steps.
  pub ok-Steps : (w : W) (s : Run V W) → run host h w ≡ ok s → Steps host h new_view (view s)
  unfolding run
  ok-Steps w s e = elim (Bool-cases (all (is_registered host h) h.task.obligations)) [
    | inl registered ↦
        let (s', ended, steps) = run-Steps host h w registered in
        let same : s' ≡ s = cc in subst (λ x. Steps host h new_view (view x)) same steps
    | inr other ↦ absurd (ground arith)
  ]

  run-IsWithin : (w : W) (s : Run V W) → run host h w ≡ ok s → IsWithin (view s)
  unfolding total_bytes total_expert
  run-IsWithin w s e = Steps_ind IsWithin step-IsWithin (ok-Steps w s e) (record {
    calls = omega arith;
    bytes = omega arith;
    expert = omega arith;
    counted_bytes = refl;
    counted_expert = refl;
    public = tt;
  })

  -- A run makes at most as many calls as the limits say, sends remote providers at most as many
  -- bytes, and calls the expert at most as often.
  pub run-limits :
      (w : W) (s : Run V W)
      → run host h w ≡ ok s
      → (length s.calls ≤ h.limits.max_calls)
        × (total_bytes s.calls ≤ h.limits.max_remote_input_bytes)
        × (total_expert s.calls ≤ h.limits.max_expert_calls)
  run-limits w s e = let i = run-IsWithin w s e in (i.calls, i.bytes, i.expert)

  -- Of every call that a run made to a remote provider, the packet has only evidence, manifest
  -- entries, dependencies and obligations that may leave the machine.
  pub run-private :
      (w : W) (s : Run V W)
      → run host h w ≡ ok s
      → All (λ c. c.is_remote ≡ true → IsPublic h.task c.packet) s.calls
  run-private w s e = let i = run-IsWithin w s e in i.public
