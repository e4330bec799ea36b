-- ===== src/Engine/Work.antt =====
-- residual/engine.py: `_parse`, `_request_evidence`, `_work` and `_dispatch`.
use residual_agent_harness.Prelude.{
  ℕ, ◌+◌, ◌-◌, String, Bool, true, false, not, ◌&&◌, ◌||◌, Option, none, some, List, [], ◌∷◌, ◌++◌,
  all, contains, leb, length, ltb, select, nat_eq, string_eq, ◌==◌, if◌then◌else◌,
}
use residual_agent_harness.Prelude.Dict.{Dict, lookup}
use residual_agent_harness.Prelude.Text.{codes}
use residual_agent_harness.Core.Obligation.{Obligation}
use residual_agent_harness.Core.Task.{Artifact}
use residual_agent_harness.Core.Task.Cloud.{by_id, cloud_allowed}
use residual_agent_harness.Engine.{
  Role, from_worker, Request, Response, Provider, evidence_requested, evidence_denied, Host,
  Harness, WindowKey, Run,
}
use residual_agent_harness.Engine.Accept.{is_there, add, failure, accept}
use residual_agent_harness.Engine.Intervals.{merge}
use residual_agent_harness.Engine.Packets.{windows_at, set_windows, is_expert, pulls, lines}

-- A code of at most 100 characters a-z, 0-9 and _.
unfoldable pub is_code : String → Bool
is_code s =
    leb (length (codes s)) 100
    && all (λ c. leb b'a' c && leb c b'z' || leb b'0' c && leb c b'9' || c == b'_') (codes s)

same_windows : List (ℕ × ℕ) → List (ℕ × ℕ) → Bool
same_windows [] [] = true
same_windows ((a, b) ∷ xs) ((c, d) ∷ ys) = a == c && b == d && same_windows xs ys
same_windows _ _ = false

-- finish_reason in {"length", "max_tokens"}
unfoldable pub is_truncated : Option String → Bool
is_truncated none = false
is_truncated (some reason) = reason == "length" || reason == "max_tokens"

module _ {V W : Type 0} (host : Host V W) (h : Harness V W) where
  unfoldable pub failures : Run V W → List String → String → String → Run V W
  failures s [] code message = s
  failures s (n ∷ ns) code message = failures (failure host h s n code message) ns code message

  is_scoped : List String → Request → Bool
  is_scoped ids r = contains r.obligation_id ids && leb 1 r.start_line && leb 1 r.end_line

  -- The response, if it is one for these obligations.
  unfoldable pub parse : String → List String → Option (Response V)
  unfolding is_scoped
  parse text ids =
      if ltb 2000000 (host.byte_size text) then none else elim (host.read_response text) [
        | none ↦ none
        | some response ↦
            if all (λ u. contains u.0 ids) response.updates
              && leb (length response.requests) 8
              && all (is_scoped ids) response.requests
            then some response
            else none
      ]

  unfoldable pub denied : Run V W → String → String → Run V W
  denied s node_id code =
      add host h
        (failure host h s node_id code
          "Choose a permitted, unseen evidence interval within the request limits.")
        (evidence_denied node_id code)

  -- The window is joined to those that were supplied.
  unfoldable pub supply : Provider V W → Run V W → Request → Run V W
  unfolding denied same_windows
  supply provider s r =
      let key : WindowKey = record {
        provider = provider.name;
        node_id = r.obligation_id;
        artifact_id = r.artifact_id;
      } in
      let old = windows_at key s.windows in
      let merged = merge (old ++ (r.start_line, r.end_line) ∷ []) in
      if same_windows merged old
      then denied s r.obligation_id "evidence_already_supplied"
      else add host h (record s { windows = set_windows key merged s.windows })
          (evidence_requested r)

  -- The tests of a request for the evidence of an artifact.
  unfoldable pub request_artifact : Provider V W → Run V W → Request → Artifact → Run V W
  unfolding denied supply
  request_artifact provider s r artifact =
      if provider.is_remote && not artifact.cloud
      then denied s r.obligation_id "private_evidence"
      else if ltb r.end_line r.start_line
          || ltb h.limits.max_requested_lines (r.end_line - r.start_line + 1)
      then denied s r.obligation_id "evidence_window_limit"
      else if ltb (length (lines host h artifact)) r.end_line
      then denied s r.obligation_id "evidence_window_out_of_range"
      else supply provider s r

  -- The artifact is there, since a valid task names no other.
  unfoldable pub request_at : Provider V W → Run V W → Request → Option Artifact → Run V W
  unfolding request_artifact
  request_at provider s r none = s
  request_at provider s r (some artifact) = request_artifact provider s r artifact

  unfoldable pub request_of : Provider V W → Run V W → Request → Option Obligation → Run V W
  unfolding denied request_at
  request_of provider s r none = s
  request_of provider s r (some o) =
      if not (pulls h.mode)
      then denied s r.obligation_id "evidence_pull_disabled"
      else if not (contains r.artifact_id o.evidence)
      then denied s r.obligation_id "undeclared_evidence"
      else request_at provider s r (lookup r.artifact_id h.task.artifacts)

  unfoldable pub request_evidence : Provider V W → Run V W → Request → Run V W
  unfolding request_of
  request_evidence provider s r =
      if is_there (lookup r.obligation_id s.accepted)
      then s
      else request_of provider s r (by_id h.task.obligations r.obligation_id)

  unfoldable pub requests : Provider V W → Run V W → List Request → Run V W
  requests provider s [] = s
  requests provider s (r ∷ rs) = requests provider (request_evidence provider s r) rs

  unfoldable pub accept_found : Run V W → Option Obligation → V → Role → Run V W
  accept_found s none value role = s
  accept_found s (some o) value role = (accept host h s o value (from_worker role)).0

  unfoldable pub updates : Run V W → Dict V → Role → Run V W
  unfolding accept_found
  updates s [] role = s
  updates s ((id, value) ∷ rest) role =
      updates (accept_found s (by_id h.task.obligations id) value role) rest role

  -- What is left to do, and for a remote provider what of it may be sent; the rest has failed.
  unfoldable pub local_only_failures : Run V W → List String → Run V W
  local_only_failures s [] = s
  local_only_failures s (n ∷ ns) =
      local_only_failures
        (if cloud_allowed h.task n
          then s
          else failure host h s n "local_only"
              "This obligation or its dependencies cannot be sent remotely.")
        ns

  unfoldable pub open_ids : Provider V W → Run V W → List String → List String
  open_ids provider s ready =
      let ids = select (λ n. not (is_there (lookup n s.accepted))) ready in
      if provider.is_remote then select (cloud_allowed h.task) ids else ids

  -- `for n in ids: if not self.task.cloud_allowed(n): …`
  unfoldable pub fail_private : Provider V W → Run V W → List String → Run V W
  unfolding local_only_failures
  fail_private provider s ready =
      if provider.is_remote
      then local_only_failures s (select (λ n. not (is_there (lookup n s.accepted))) ready)
      else s

  -- A limit prevents the request.
  unfoldable pub is_blocked : Provider V W → Run V W → Role → ℕ → Bool
  is_blocked provider s role size =
      leb h.limits.max_calls (length s.calls)
      || ltb h.limits.max_request_bytes size
      || (is_expert role && leb h.limits.max_expert_calls s.expert_calls)
      || (provider.is_remote && ltb h.limits.max_remote_input_bytes (s.remote_bytes + size))
