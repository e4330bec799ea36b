-- ===== src/Engine/Steps/Calls.antt =====
-- The work with a provider: it makes only permitted calls.
use residual_agent_harness.Prelude.{
  ℕ, zero, suc, ◌+◌, ◌≡◌, refl, sym, String, Bool, true, false, not, ◌&&◌, Option, none, some, List,
  [], ◌∷◌, ◌++◌, arith, All, select-All, is_empty, select, if◌then◌else◌, Bool-cases, inl, inr,
}
use residual_agent_harness.Core.Task.Cloud.{cloud_allowed}
use residual_agent_harness.Engine.{
  Role, Response, Usage, Generated, replied, provider_error, raised, no_reply, Packet, Provider,
  Call, context_plan, Host, Harness, Run,
}
use residual_agent_harness.Engine.Accept.{add}
use residual_agent_harness.Engine.Packets.{packet}
use residual_agent_harness.Engine.Work.{requests, updates, open_ids, fail_private, is_blocked}
use residual_agent_harness.Engine.Calls.{
  reserve, call_record, respond, answered, call, turn, work, dispatch, dispatch_to,
}
use residual_agent_harness.Engine.Steps.{
  View, view, IsPublic, IsPermitted, bytes_of, expert_of, calls, Steps, stay, go, Steps-trans,
}
use residual_agent_harness.Engine.Steps.Accepts.{
  failures-view, updates-Steps, requests-view, fail_private-view,
}
use residual_agent_harness.Engine.Steps.Public.{packet-IsPublic}

module _ {V W : Type 0} (host : Host V W) (h : Harness V W) where
  respond-Steps :
      (provider : Provider V W) (s : Run V W) (ids : List String) (role : Role)
      (m : Option (Response V))
      → Steps host h (view s) (view (respond host h provider s ids role m).0)
  unfolding respond
  respond-Steps provider s ids role none = stay (sym (failures-view host h s ids _ _))
  respond-Steps provider s ids role (some r) =
      let s' = requests host h provider (updates host h s r.updates role) r.requests in
      let moved : Steps host h (view s) (view s') =
        Steps-trans host h (updates-Steps host h s r.updates role) (
          stay
            (sym (requests-view host h provider (updates host h s r.updates role) r.requests))) in
      elim (Bool-cases (is_empty r.updates && is_empty r.requests)) [
        | inl idle ↦
            rw idle (Steps-trans host h moved (stay (sym (failures-view host h s' ids _ _))))
        | inr busy ↦ rw busy moved
      ]

  answered-Steps :
      (a : View V) (provider : Provider V W) (s : Run V W) (ids : List String) (role : Role)
      (record_of : Option Usage → Option ℕ → Option String → Call V) (g : Generated)
      → ((u : Option Usage) (c : Option ℕ) (e : Option String)
          → Steps host h a (record (view s) { calls = s.calls ++ record_of u c e ∷ [] }))
      → Steps host h a (view (answered host h provider s ids role record_of g).0)
  unfolding answered
  answered-Steps a provider s ids role record_of (replied r) made =
      Steps-trans host h (made _ _ _) (respond-Steps provider _ ids role _)
  answered-Steps a provider s ids role record_of (provider_error code) made =
      Steps-trans host h (made _ _ _) (stay (sym (failures-view host h _ ids _ _)))
  answered-Steps a provider s ids role record_of raised made =
      Steps-trans host h (made _ _ _) (stay (sym (failures-view host h _ ids _ _)))
  answered-Steps a provider s ids role record_of no_reply made =
      Steps-trans host h (made _ _ _) (stay (sym (failures-view host h _ ids _ _)))

  -- What is not blocked is within the limits.
  unblocked-IsPermitted :
      (provider : Provider V W) (s : Run V W) (ids : List String) (role : Role) (p : Packet V)
      (size : ℕ) (u : Option Usage) (c : Option ℕ) (e : Option String)
      → is_blocked host h provider s role size ≡ false
      → (provider.is_remote ≡ true → IsPublic h.task p)
      → IsPermitted host h (view s) (call_record host h provider ids role p size u c e)
  unfolding is_blocked call_record
  unblocked-IsPermitted provider s ids role p size u c e free public = record {
    within_calls = ground arith;
    within_request = ground arith;
    within_expert = λ k. ground arith;
    within_bytes = λ k. ground arith;
    public = public;
  }

  call-Steps :
      (provider : Provider V W) (s : Run V W) (ids : List String) (role : Role) (p : Packet V)
      (size : ℕ)
      → is_blocked host h provider s role size ≡ false
      → (provider.is_remote ≡ true → IsPublic h.task p)
      → Steps host h (view s) (view (call host h provider s ids role p size).0)
  unfolding call reserve
  call-Steps provider s ids role p size free public =
      let g = provider.generate p h.limits.max_output_tokens s.world in
      let s' : Run V W = record (reserve host h provider s ids role p size) { world = g.1 } in
      let of = call_record host h provider ids role p size in
      let counted : (u : Option Usage) (c : Option ℕ) (e : Option String)
          → record {
            accepted = s.accepted;
            calls = s.calls ++ of u c e ∷ [];
            remote_bytes = s.remote_bytes + bytes_of host h (of u c e);
            expert_calls = s.expert_calls + expert_of host h (of u c e);
          }
            ≡ record (view s') { calls = s.calls ++ of u c e ∷ [] } =
        λ u c e. ground arith in
      answered-Steps (view s) provider s' ids role of g.0 (λ u c e.
        Steps-trans host h
          (go (stay refl) (
            calls (view s) (of u c e)
              (unblocked-IsPermitted provider s ids role p size u c e free public)))
          (stay (counted u c e)))

  open_ids-allowed :
      (provider : Provider V W) (s : Run V W) (ready : List String)
      → provider.is_remote ≡ true
      → All (λ n. cloud_allowed h.task n ≡ true) (open_ids host h provider s ready)
  unfolding open_ids
  open_ids-allowed provider s ready remote = rw remote (select-All (cloud_allowed h.task) _)

  turn-Steps :
      (provider : Provider V W) (s : Run V W) (ready : List String) (role : Role)
      → Steps host h (view s) (view (turn host h provider s ready role).0)
  unfolding turn
  turn-Steps provider s ready role =
      let s1 = fail_private host h provider s ready in
      let ids = open_ids host h provider s ready in
      let failed = fail_private-view host h provider s ready in
      let planned = packet host h provider s1 ids role in
      let s2 = add host h s1 (context_plan role planned.1 ids) in
      let size = provider.wire_size planned.0 h.limits.max_output_tokens in
      elim (Bool-cases (is_empty ids)) [
        | inl idle ↦ rw idle (stay (sym failed))
        | inr busy ↦ elim (Bool-cases (is_blocked host h provider s2 role size)) [
          | inl blocked ↦
              rw (busy, blocked)
                (Steps-trans host h (stay (sym failed))
                  (stay (sym (failures-view host h s2 ids _ _))))
          | inr free ↦
              rw (busy, free)
                (Steps-trans host h (stay (sym failed)) (
                  call-Steps provider s2 ids role planned.0 size free (λ remote.
                    packet-IsPublic host h provider s1 ids role remote
                      (open_ids-allowed provider s ready remote))))
        ]
      ]

  work-Steps :
      (provider : Provider V W) (ready : List String) (role : Role) (rounds : ℕ) (s : Run V W)
      → Steps host h (view s) (view (work host h provider ready role rounds s))
  unfolding work
  work-Steps provider ready role zero s = stay refl
  work-Steps provider ready role (suc rounds) s =
      let first = turn-Steps provider s ready role in
      let s' = (turn host h provider s ready role).0 in
      elim (Bool-cases (turn host h provider s ready role).1) [
        | inl left ↦ rw left first
        | inr on ↦ rw on (Steps-trans host h first (work-Steps provider ready role rounds s'))
      ]

  pub either-Steps :
      (b : Bool) (s t u : Run V W)
      → Steps host h (view s) (view t)
      → Steps host h (view s) (view u)
      → Steps host h (view s) (view (if b then t else u))
  either-Steps true s t u p q = p
  either-Steps false s t u p q = q

  dispatch-Steps :
      (provider : Provider V W) (ready : List String) (role : Role) (rounds : ℕ) (s : Run V W)
      → Steps host h (view s) (view (dispatch host h provider ready role rounds s))
  unfolding dispatch
  dispatch-Steps provider ready role rounds s =
      let public = work host h provider (select (cloud_allowed h.task) ready) role rounds s in
      either-Steps provider.is_remote s (work host h provider ready role rounds s)
        (work host h provider (select (λ n. not (cloud_allowed h.task n)) ready) role rounds public)
        (work-Steps provider ready role rounds s)
        (Steps-trans host h (work-Steps provider _ role rounds s)
          (work-Steps provider _ role rounds public))

  pub dispatch_to-Steps :
      (m : Option (Provider V W)) (ready : List String) (role : Role) (rounds : ℕ) (s : Run V W)
      → Steps host h (view s) (view (dispatch_to host h m ready role rounds s))
  unfolding dispatch_to
  dispatch_to-Steps none ready role rounds s = stay refl
  dispatch_to-Steps (some provider) ready role rounds s =
      dispatch-Steps provider ready role rounds s
