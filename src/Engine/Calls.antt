-- ===== src/Engine/Calls.antt =====
-- residual/engine.py: the calls of `_work`, and `_dispatch`.
use residual_agent_harness.Prelude.{
  ℕ, zero, suc, ◌+◌, String, Bool, true, false, not, ◌&&◌, Option, none, some, List, [], ◌∷◌, ◌++◌,
  is_empty, select, nat_eq, string_eq, if◌then◌else◌,
}
use residual_agent_harness.Core.Task.Cloud.{cloud_allowed}
use residual_agent_harness.Engine.{
  Role, Response, Usage, Generated, replied, provider_error, raised, no_reply, Packet, Provider,
  Call, context_plan, budget_blocked, call_reserved, provider_failed, call_completed, Host, Harness,
  Run,
}
use residual_agent_harness.Engine.Accept.{add}
use residual_agent_harness.Engine.Packets.{is_expert, packet}
use residual_agent_harness.Engine.Work.{
  is_code, is_truncated, failures, parse, requests, updates, open_ids, fail_private, is_blocked,
}

-- The code of an exception, which must not leak its text.
unfoldable pub error_code : Generated → String
unfolding is_code
error_code (provider_error code) = if is_code code then code else "provider_error"
error_code raised = "provider_exception"
error_code no_reply = "invalid_reply_type"
error_code (replied r) = ""

module _ {V W : Type 0} (host : Host V W) (h : Harness V W) where
  -- The call is counted before it is made.
  unfoldable pub reserve : Provider V W → Run V W → List String → Role → Packet V → ℕ → Run V W
  reserve provider s ids role p size = record s {
    remote_bytes = if provider.is_remote then s.remote_bytes + size else s.remote_bytes;
    expert_calls = if is_expert role then s.expert_calls + 1 else s.expert_calls;
    ledger = s.ledger ++ call_reserved role provider.name size ids ∷ [];
  }

  unfoldable pub call_record :
      Provider V W
      → List String
      → Role
      → Packet V
      → ℕ
      → Option Usage
      → Option ℕ
      → Option String
      → Call V
  call_record provider ids role p size usage cost error = record {
    role = role;
    provider = provider.name;
    is_remote = provider.is_remote;
    obligation_ids = ids;
    request_bytes = size;
    packet = p;
    usage = usage;
    cost = cost;
    error = error;
  }

  cost_of : Provider V W → Usage → Option ℕ
  cost_of provider usage = elim provider.cost [ none ↦ none | some price ↦ price usage ]

  -- The candidates and requests of a response; it ends the work if there are none.
  unfoldable pub respond :
      Provider V W → Run V W → List String → Role → Option (Response V) → Run V W × Bool
  respond provider s ids role none = (
    failures host h s ids "invalid_protocol"
        "Return exactly the documented updates/requests JSON object.",
    false,
  )
  respond provider s ids role (some response) =
      let s' =
        requests host h provider (updates host h s response.updates role) response.requests in
      if is_empty response.updates && is_empty response.requests
      then (
        failures host h s' ids "worker_abstained"
            "The worker returned no candidate or evidence request.",
        true,
      )
      else (s', false)

  -- What follows the call, by how it ended.
  unfoldable pub answered :
      Provider V W
      → Run V W
      → List String
      → Role
      → (Option Usage → Option ℕ → Option String → Call V)
      → Generated
      → Run V W × Bool
  unfolding respond cost_of error_code is_truncated
  answered provider s ids role call (replied reply) =
      let done =
        add host h
          (record s {
            calls = s.calls ++ call (some reply.usage) (cost_of provider reply.usage) none ∷ [];
          })
          (call_completed role reply.usage) in
      respond provider done ids role
        (if is_truncated reply.finish_reason then none else parse host h reply.text ids)
  answered provider s ids role call g =
      let code = error_code g in
      let lost =
        add host h (record s { calls = s.calls ++ call none none (some code) ∷ [] })
          (provider_failed role code) in
      (failures host h lost ids code "The provider call failed; no candidate was accepted.", false)

  unfoldable pub call : Provider V W → Run V W → List String → Role → Packet V → ℕ → Run V W × Bool
  unfolding reserve call_record answered
  call provider s ids role p size =
      let (g, w) = provider.generate p h.limits.max_output_tokens s.world in
      answered provider (record (reserve provider s ids role p size) { world = w }) ids role
        (call_record provider ids role p size) g

  -- One turn of the loop of `_work`, and whether the loop is left.
  unfoldable pub turn : Provider V W → Run V W → List String → Role → Run V W × Bool
  unfolding call
  turn provider s0 ready role =
      let s1 = fail_private host h provider s0 ready in
      let ids = open_ids host h provider s0 ready in
      if is_empty ids
      then (s1, true)
      else (let (p, plan) = packet host h provider s1 ids role in
          let s2 = add host h s1 (context_plan role plan ids) in
          let size = provider.wire_size p h.limits.max_output_tokens in
          if is_blocked host h provider s2 role size
          then (
            add host h
                (failures host h s2 ids "budget_exhausted"
                  "A call or request-body byte limit prevents the next request.")
                (budget_blocked role size),
            true,
          )
          else call provider s2 ids role p size)

  unfoldable pub work : Provider V W → List String → Role → ℕ → Run V W → Run V W
  unfolding turn
  work provider ready role zero s = s
  work provider ready role (suc rounds) s =
      let (s', left) = turn provider s ready role in
      let rest = work provider ready role rounds s' in if left then s' else rest

  unfoldable pub dispatch : Provider V W → List String → Role → ℕ → Run V W → Run V W
  unfolding work
  dispatch provider ready role rounds s =
      if provider.is_remote
      then work provider ready role rounds s
      else work provider (select (λ n. not (cloud_allowed h.task n)) ready) role rounds
          (work provider (select (cloud_allowed h.task) ready) role rounds s)

  unfoldable pub dispatch_to : Option (Provider V W) → List String → Role → ℕ → Run V W → Run V W
  unfolding dispatch
  dispatch_to none ready role rounds s = s
  dispatch_to (some provider) ready role rounds s = dispatch provider ready role rounds s
