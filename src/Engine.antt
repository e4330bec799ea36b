-- ===== src/Engine.antt =====
-- residual/engine.py: the parts of `Harness`. The modes with a structural plan, which cic.py
-- prepares, are not modelled. Providers, verifiers, solvers, the cache and the digests are
-- parameters; `V` are the JSON values of candidates, `W` is what providers and cache change.
pub mod Intervals
pub mod Accept
pub mod Packets
pub mod Work
pub mod Calls
pub mod Results
pub mod Rounds
pub mod Steps
mod Tests
use residual_agent_harness.Prelude.{
  ℕ, String, Bool, true, false, Option, none, some, List, [], ◌∷◌, ◌&&◌, ◌||◌, all, leb,
}
use residual_agent_harness.Prelude.Dict.{Dict}
use residual_agent_harness.Core.Obligation.{Obligation}
use residual_agent_harness.Core.Task.{Artifact, Task}
use residual_agent_harness.Core.Context.{Status, Verdict, Context}

pub record Limits : Type 0 where
  pub local_rounds : ℕ
  pub expert_rounds : ℕ
  pub max_calls : ℕ
  pub max_expert_calls : ℕ
  pub max_remote_input_bytes : ℕ
  pub max_request_bytes : ℕ
  pub max_output_tokens : ℕ
  pub max_requested_lines : ℕ
  pub seed_lines : ℕ
  pub max_structural_nodes : ℕ

-- `Limits.__post_init__`
unfoldable pub is_valid_limits : Limits → Bool
is_valid_limits l =
    leb 1 l.max_calls
    && leb 1 l.max_request_bytes
    && leb 1 l.max_output_tokens
    && leb 1 l.max_requested_lines
    && leb l.max_structural_nodes 1000000

pub data Mode : Type 0 where
  residual residual_fixed cascade full_cloud local_only no_pull no_feedback no_solvers : Mode

pub data Role : Type 0 where
  local expert : Role

-- Where an accepted value comes from.
pub data Source : Type 0 where
  from_cache deterministic : Source
  from_worker : Role → Source

pub record Failure : Type 0 where
  pub code : String
  pub message : String

pub record Request : Type 0 where
  pub obligation_id : String
  pub artifact_id : String
  pub start_line : ℕ
  pub end_line : ℕ

pub record Response (V : Type 0) : Type 0 where
  pub updates : Dict V
  pub requests : List Request

pub record Usage : Type 0 where
  pub input_tokens : Option ℕ
  pub output_tokens : Option ℕ
  pub is_reported : Bool

pub record Reply : Type 0 where
  pub text : String
  pub usage : Usage
  pub finish_reason : Option String

-- How `provider.generate` ends: with a reply, a `ProviderError`, another exception, or a value
-- that is no reply.
pub data Generated : Type 0 where
  replied : Reply → Generated
  provider_error : String → Generated
  raised no_reply : Generated

-- How a verifier ends.
pub data Checked : Type 0 where
  returned : Verdict → Checked
  other_value raised : Checked

pub record Excerpt : Type 0 where
  pub artifact_id : String
  pub artifact_sha256 : String
  pub start_line : ℕ
  pub end_line : ℕ
  pub text : String

pub record PacketObligation : Type 0 where
  pub id : String
  pub instruction : String
  pub evidence_ids : List String
  pub depends_on : List String

pub record ManifestEntry : Type 0 where
  pub artifact_id : String
  pub sha256 : String
  pub line_count : ℕ

pub record PacketDependency (V : Type 0) : Type 0 where
  pub id : String
  pub value : Option V
  pub receipt : Option String

pub record Packet (V : Type 0) : Type 0 where
  pub task_id : String
  pub goal : String
  pub obligations : List PacketObligation
  pub accepted_dependencies : List (PacketDependency V)
  pub counterexamples : Dict Failure
  pub manifest : List ManifestEntry
  pub evidence : List Excerpt
  pub max_lines : ℕ
  pub pull_enabled : Bool

pub record Provider (V W : Type 0) : Type 0 where
  pub name : String
  pub is_remote : Bool
  pub wire_size : Packet V → ℕ → ℕ
  pub generate : Packet V → ℕ → W → Generated × W
  pub cost : Option (Usage → Option ℕ)

-- A record of `self.calls`, with the packet itself in the place of its digest.
pub record Call (V : Type 0) : Type 0 where
  pub role : Role
  pub provider : String
  pub is_remote : Bool
  pub obligation_ids : List String
  pub request_bytes : ℕ
  pub packet : Packet V
  pub usage : Option Usage
  pub cost : Option ℕ
  pub error : Option String

pub record ReceiptReference : Type 0 where
  pub task_id : String
  pub receipt_hash : String

-- A receipt of receipts.py; its verdict is always a pass here.
pub record StationReceipt : Type 0 where
  pub task_id : String
  pub cache_key : String
  pub value_hash : String
  pub verifier_name : String
  pub verifier_revision : String
  pub parents : List ReceiptReference

pub record Receipt : Type 0 where
  pub binding : String
  pub value_sha256 : String
  pub verifier : String
  pub revision : Option String

-- An entry of the cache as it is read: the whole JSON value, and the value and receipt in it if it
-- is an entry of the station whose receipt is intact.
pub record CacheEntry (V : Type 0) : Type 0 where
  pub whole : V
  pub station : Option (V × StationReceipt)

-- What is written to the cache.
pub data CacheValue (V : Type 0) : Type 0 where
  plain : V → CacheValue V
  station : V → StationReceipt → CacheValue V

-- The events of the ledger, without their times and hashes.
pub data LedgerEvent : Type 0 where
  run_started : LedgerEvent
  verification : String → Source → Status → String → LedgerEvent
  counterexample : String → String → LedgerEvent
  obligation_accepted : String → Source → LedgerEvent
  station_receipt_issued : String → StationReceipt → LedgerEvent
  context_plan : Role → String → List String → LedgerEvent
  budget_blocked : Role → ℕ → LedgerEvent
  call_reserved : Role → String → ℕ → List String → LedgerEvent
  provider_failed : Role → String → LedgerEvent
  call_completed : Role → Usage → LedgerEvent
  evidence_requested : Request → LedgerEvent
  evidence_denied : String → String → LedgerEvent
  run_finished : Bool → LedgerEvent

pub record Identity : Type 0 where
  pub effective_revision : String
  pub check_type : String

-- What `_cache_key` hands to the digests, by obligations with and without an identity.
pub record KeyMaterial : Type 0 where
  pub task_id : String
  pub goal : String
  pub obligation : Obligation
  pub verifier_name : String
  pub verifier_revision : String
  pub check_type : String
  pub artifacts : Dict (Option String)
  pub parents : List ReceiptReference

pub record Binding : Type 0 where
  pub task_id : String
  pub goal : String
  pub obligation : Obligation
  pub check_revision : Option String
  pub evidence : Dict (Option String)
  pub dependencies : Dict (Option String)

-- The registry, the cache, and the functions of the Python library.
pub record Host (V W : Type 0) : Type 0 where
  -- The name's label in `registry.checks`.
  pub revision : String → Option String
  pub identity : String → Option Identity
  pub check : String → V → Context V → Checked
  pub has_solver : String → Bool
  -- Absent where the solver raises.
  pub solve : String → Context V → Option V
  pub cache_get : String → W → Option (CacheEntry V)
  pub cache_put : String → CacheValue V → W → W
  -- strict_json(canonical(value)), absent where it raises
  pub copy : V → Option V
  -- The response in a text, absent where it is not JSON of that shape.
  pub read_response : String → Option (Response V)
  pub split_lines : String → List String
  pub join_lines : List String → String
  pub byte_size : String → ℕ
  pub sha256 : String → String
  pub value_digest : V → String
  pub key_digest : KeyMaterial → String
  pub binding_digest : Binding → String
  pub receipt_digest : Receipt → String
  pub station_digest : StationReceipt → String
  pub identity_digest : Identity → Option String → String

pub record Harness (V W : Type 0) : Type 0 where
  pub task : Task
  pub limits : Limits
  pub mode : Mode
  pub has_cache : Bool
  pub local : Option (Provider V W)
  pub expert : Option (Provider V W)

-- The key of `self.windows`.
pub record WindowKey : Type 0 where
  pub provider : String
  pub node_id : String
  pub artifact_id : String

-- What `run` changes.
pub record Run (V W : Type 0) : Type 0 where
  pub accepted : Dict V
  pub receipts : Dict Receipt
  pub station_receipts : Dict StationReceipt
  pub failures : Dict Failure
  pub windows : List (WindowKey × List (ℕ × ℕ))
  pub calls : List (Call V)
  pub ledger : List LedgerEvent
  pub cache_hits : ℕ
  pub deterministic_accepts : ℕ
  pub remote_bytes : ℕ
  pub expert_calls : ℕ
  pub world : W
