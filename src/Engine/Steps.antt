-- ===== src/Engine/Steps.antt =====
-- What a harness may do: accept a value that its verifier passes, and make a call within the
-- limits, a remote one with nothing private in it. The run is a sequence of such steps.
pub mod Public
pub mod Accepts
pub mod Calls
pub mod Runs
pub mod Invariants
pub mod Verified
use residual_agent_harness.Prelude.{
  ℕ, zero, suc, ◌+◌, ◌≤◌, ◌<◌, ◌≡◌, refl, subst, String, Bool, true, false, Option, none, some,
  List, [], ◌∷◌, ◌++◌, All, length, if◌then◌else◌,
}
use residual_agent_harness.Prelude.Dict.{Dict, lookup, insert}
use residual_agent_harness.Core.Obligation.{Obligation}
use residual_agent_harness.Core.Task.{Task}
use residual_agent_harness.Core.Task.Cloud.{by_id, is_public, cloud_allowed}
use residual_agent_harness.Core.Context.{Verdict, is_pass, Context}
use residual_agent_harness.Engine.{Checked, returned, Packet, Call, Host, Harness, Run}
use residual_agent_harness.Engine.Packets.{is_expert}

-- The part of the state that the steps change.
pub record View (V : Type 0) : Type 0 where
  pub accepted : Dict V
  pub calls : List (Call V)
  pub remote_bytes : ℕ
  pub expert_calls : ℕ

abbrev pub view : {V W : Type 0} → Run V W → View V
view s = record {
  accepted = s.accepted;
  calls = s.calls;
  remote_bytes = s.remote_bytes;
  expert_calls = s.expert_calls;
}

-- Every artifact, dependency and obligation in a packet may leave the machine.
pub record IsPublic {V : Type 0} (t : Task) (p : Packet V) : Type 0 where
  pub evidence : All (λ e. is_public t.artifacts e.artifact_id ≡ true) p.evidence
  pub manifest : All (λ m. is_public t.artifacts m.artifact_id ≡ true) p.manifest
  pub dependencies : All (λ d. cloud_allowed t d.id ≡ true) p.accepted_dependencies
  pub obligations : All (λ o. cloud_allowed t o.id ≡ true) p.obligations

module _ {V W : Type 0} (host : Host V W) (h : Harness V W) where
  abbrev pub bytes_of : Call V → ℕ
  bytes_of c = if c.is_remote then c.request_bytes else 0

  abbrev pub expert_of : Call V → ℕ
  expert_of c = if is_expert c.role then 1 else 0

  -- The call keeps to the limits and to what is public.
  pub record IsPermitted (a : View V) (c : Call V) : Type 0 where
    pub within_calls : length a.calls < h.limits.max_calls
    pub within_request : c.request_bytes ≤ h.limits.max_request_bytes
    pub within_expert : is_expert c.role ≡ true → a.expert_calls < h.limits.max_expert_calls
    pub within_bytes :
        c.is_remote ≡ true → a.remote_bytes + c.request_bytes ≤ h.limits.max_remote_input_bytes
    pub public : c.is_remote ≡ true → IsPublic h.task c.packet

  -- The verifier passes the value in this context.
  pub record IsPassed (o : Obligation) (value : V) (accepted : Dict V) : Type 0 where
    pub verdict : Verdict
    pub checked :
        host.check o.check value
          (record { obligation = o; artifacts = h.task.artifacts; accepted = accepted })
        ≡ returned verdict
    pub passed : is_pass verdict.status ≡ true

  pub data Step : View V → View V → Type 0 where
    accepts :
        (a : View V) (o : Obligation) (value : V)
        → by_id h.task.obligations o.id ≡ some o
        → lookup o.id a.accepted ≡ none
        → IsPassed o value a.accepted
        → Step a (record a { accepted = insert o.id value a.accepted })
    calls :
        (a : View V) (c : Call V)
        → IsPermitted a c
        → Step a (record a {
          calls = a.calls ++ c ∷ [];
          remote_bytes = a.remote_bytes + bytes_of c;
          expert_calls = a.expert_calls + expert_of c;
        })

  pub data Steps : View V → View V → Type 0 where
    stay : {a b : View V} → a ≡ b → Steps a b
    go : {a b c : View V} → Steps a b → Step b c → Steps a c

  pub Steps-trans : {a b c : View V} → Steps a b → Steps b c → Steps a c
  Steps-trans {a} p (stay e) = subst (λ x. Steps a x) e p
  Steps-trans p (go q r) = go (Steps-trans p q) r
