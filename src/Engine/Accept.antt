-- ===== src/Engine/Accept.antt =====
-- residual/engine.py: what accepts a candidate: `_failure`, `_identity`, `_parents`, `_binding`,
-- `_cache_key`, `_cached_candidate` and `_accept`.
use residual_agent_harness.Prelude.{
  String, Bool, true, false, not, ◌&&◌, ◌||◌, Option, none, some, List, [], ◌∷◌, ◌++◌, map, all,
  contains, sorted, nat_eq, string_eq, option_eq, ◌==◌, if◌then◌else◌,
}
use residual_agent_harness.Prelude.Dict.{Dict, lookup, insert, remove}
use residual_agent_harness.Prelude.Text.{str_lt, append, codes}
use residual_agent_harness.Core.Obligation.{Obligation}
use residual_agent_harness.Core.Context.{unknown, Verdict, is_pass, Context}
use residual_agent_harness.Engine.{
  Source, from_cache, Checked, returned, other_value, raised, ReceiptReference, StationReceipt,
  Receipt, CacheEntry, CacheValue, plain, station, verification, counterexample,
  obligation_accepted, station_receipt_issued, LedgerEvent, Binding, Host, Harness, Run,
}

abbrev pub is_there {ℓ} : {A : Type ℓ} → Option A → Bool
is_there none = false
is_there (some a) = true

-- o.check if ":" in o.check else "host:" + o.check
qualified_name : String → String
qualified_name check = if contains b':' (codes check) then check else append "host:" check

reference_lt : ReceiptReference → ReceiptReference → Bool
reference_lt a b =
    str_lt a.task_id b.task_id || (a.task_id == b.task_id && str_lt a.receipt_hash b.receipt_hash)

is_cache : Source → Bool
is_cache from_cache = true
is_cache _ = false

verifier_error : Verdict
verifier_error = record {
  status = unknown;
  code = "verifier_error";
  message = "The host verifier could not establish this obligation.";
}

unfoldable pub verdict_of : Checked → Verdict
unfolding verifier_error
verdict_of (returned v) = v
verdict_of other_value = record { status = unknown; code = "invalid_verifier_result"; message = "" }
verdict_of raised = verifier_error

module _ {V W : Type 0} (host : Host V W) (h : Harness V W) where
  abbrev pub add : Run V W → LedgerEvent → Run V W
  add s event = record s { ledger = s.ledger ++ event ∷ [] }

  unfoldable pub failure : Run V W → String → String → String → Run V W
  failure s node_id code message =
      add
        (record s {
          failures = insert node_id (record { code = code; message = message }) s.failures;
        })
        (counterexample node_id code)

  unfoldable pub context : Run V W → Obligation → Context V
  context s o = record { obligation = o; artifacts = h.task.artifacts; accepted = s.accepted }

  -- The identity's name, revision and kind, where there is one and all dependencies have station
  -- receipts.
  pub identity : Run V W → Obligation → Option (String × String × String)
  unfolding qualified_name
  identity s o = elim (host.identity o.check) [
    | none ↦ none
    | some i ↦
        if all (λ d. is_there (lookup d s.station_receipts)) o.depends_on
        then some
            (qualified_name o.check, host.identity_digest i (host.revision o.check), i.check_type)
        else none
  ]

  hash_of : Option StationReceipt → String
  hash_of none = ""
  hash_of (some r) = host.station_digest r

  -- Every dependency has a receipt where this is called.
  pub parents : Run V W → Obligation → List ReceiptReference
  unfolding hash_of reference_lt
  parents s o = sorted reference_lt (
      map (λ d. record { task_id = d; receipt_hash = hash_of (lookup d s.station_receipts) })
        o.depends_on)

  evidence_hashes : Obligation → Dict (Option String)
  evidence_hashes o =
      map
        (λ a. (
          a,
          elim (lookup a h.task.artifacts) [ none ↦ none | some x ↦ some (host.sha256 x.text) ],
        ))
        o.evidence

  binding : Run V W → Obligation → Binding
  unfolding evidence_hashes
  binding s o = record {
    task_id = h.task.id;
    goal = h.task.goal;
    obligation = o;
    check_revision = host.revision o.check;
    evidence = evidence_hashes o;
    dependencies =
        map
          (λ d.
            (d, elim (lookup d s.receipts) [ none ↦ none | some r ↦ some (host.receipt_digest r) ]))
          o.depends_on;
  }

  unfoldable pub cache_key : Run V W → Obligation → String
  unfolding identity binding parents
  cache_key s o = elim (identity s o) [
    | none ↦ host.binding_digest (binding s o)
    | some (name, revision, check_type) ↦ host.key_digest (record {
      task_id = h.task.id;
      goal = h.task.goal;
      obligation = o;
      verifier_name = name;
      verifier_revision = revision;
      check_type = check_type;
      artifacts = evidence_hashes o;
      parents = parents s o;
    })
  ]

  same_references : List ReceiptReference → List ReceiptReference → Bool
  same_references [] [] = true
  same_references (a ∷ xs) (b ∷ ys) =
      a.task_id == b.task_id && a.receipt_hash == b.receipt_hash && same_references xs ys
  same_references _ _ = false

  -- An entry of the station counts only with a receipt for just this use.
  unfoldable pub cached_candidate : Run V W → Obligation → CacheEntry V → Option V
  unfolding identity parents same_references
  cached_candidate s o entry = elim (identity s o) [
    | none ↦ some entry.whole
    | some (name, revision, check_type) ↦ elim entry.station [
      | none ↦ none
      | some (value, r) ↦
          if r.task_id == o.id
            && r.value_hash == host.value_digest value
            && r.cache_key == cache_key s o
            && r.verifier_name == name
            && r.verifier_revision == revision
            && same_references r.parents (parents s o)
          then some value
          else none
    ]
  ]

  -- The verdict on the copy of a value; whatever goes wrong is no pass.
  unfoldable pub verdict_on : Run V W → Obligation → Option V → Verdict
  unfolding context verdict_of verifier_error
  verdict_on s o none = verifier_error
  verdict_on s o (some value) = verdict_of (host.check o.check value (context s o))

  station_receipt : Run V W → Obligation → V → Option StationReceipt
  unfolding identity parents
  station_receipt s o value = elim (identity s o) [
    | none ↦ none
    | some (name, revision, check_type) ↦ some (record {
      task_id = o.id;
      cache_key = cache_key s o;
      value_hash = host.value_digest value;
      verifier_name = name;
      verifier_revision = revision;
      parents = parents s o;
    })
  ]

  with_receipt : Run V W → String → Option StationReceipt → Run V W
  with_receipt s id modern = record s {
    station_receipts = elim modern [
      | none ↦ s.station_receipts
      | some r ↦ insert id r s.station_receipts
    ];
  }

  cache_value : V → Option StationReceipt → CacheValue V
  cache_value value none = plain value
  cache_value value (some r) = station value r

  issued : String → Option StationReceipt → List LedgerEvent
  issued id none = []
  issued id (some r) = station_receipt_issued id r ∷ []

  -- The part of `_accept` behind a pass. The key is computed again behind the new receipt, which
  -- does not change it, since no obligation depends on itself.
  unfoldable pub record_accepted : Run V W → Obligation → V → Source → Run V W
  unfolding station_receipt with_receipt cache_value issued is_cache
  record_accepted s0 o value source =
      let modern = station_receipt s0 o value in
      let s = with_receipt s0 o.id modern in
      let key = cache_key s o in
      let receipt : Receipt = record {
        binding = key;
        value_sha256 = host.value_digest value;
        verifier = o.check;
        revision = host.revision o.check;
      } in
      record s {
        accepted = insert o.id value s.accepted;
        receipts = insert o.id receipt s.receipts;
        failures = remove o.id s.failures;
        world =
            if h.has_cache && not (is_cache source)
            then host.cache_put key (cache_value value modern) s.world
            else s.world;
        ledger = s.ledger ++ obligation_accepted o.id source ∷ issued o.id modern;
      }

  -- The second part of `_accept`, by the copy and the verdict.
  unfoldable pub settle : Run V W → Obligation → Option V → Source → Verdict → Run V W × Bool
  settle s0 o copied source verdict =
      let s = add s0 (verification o.id source verdict.status verdict.code) in
      if is_pass verdict.status
      then elim copied [
        | none ↦ (failure s o.id verdict.code verdict.message, false)
        | some value ↦ (record_accepted s o value source, true)
      ]
      else (failure s o.id verdict.code verdict.message, false)

  -- An id that is accepted already raises: there the run ends, which the callers rule out.
  unfoldable pub accept : Run V W → Obligation → V → Source → Run V W × Bool
  unfolding settle verdict_on
  accept s o candidate source =
      if is_there (lookup o.id s.accepted)
      then (s, false)
      else (let copied = host.copy candidate in settle s o copied source (verdict_on s o copied))
