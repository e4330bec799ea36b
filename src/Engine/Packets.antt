-- ===== src/Engine/Packets.antt =====
-- residual/engine.py: `_packet`, what a provider is sent; and `Artifact.excerpt` of core.py.
use residual_agent_harness.Prelude.{
  ℕ, zero, suc, ◌+◌, ◌-◌, ◌*◌, String, Bool, true, false, not, ◌&&◌, ◌||◌, Option, none, some, List,
  [], ◌∷◌, ◌++◌, map, all, contains, is_empty, leb, length, ltb, select, sorted, nat_eq, string_eq,
  ◌==◌, if◌then◌else◌,
}
use residual_agent_harness.Prelude.Dict.{lookup}
use residual_agent_harness.Prelude.Text.{str_lt}
use residual_agent_harness.Core.Task.{Artifact}
use residual_agent_harness.Core.Task.Cloud.{by_id, is_public, cloud_allowed}
use residual_agent_harness.Engine.{
  Mode, residual, cascade, full_cloud, no_pull, no_feedback, no_solvers, Role, local, expert,
  Excerpt, ManifestEntry, PacketDependency, Packet, Provider, Host, Harness, WindowKey, Run,
}
use residual_agent_harness.Engine.Intervals.{merge}

-- `set` of a list: the last of equal elements stays.
unfoldable pub unique : List String → List String
unique [] = []
unique (x ∷ xs) = let rest = unique xs in if contains x xs then rest else x ∷ rest

unfoldable pub concat {ℓ} : {A : Type ℓ} → List (List A) → List A
concat [] = []
concat (xs ∷ rest) = xs ++ concat rest

abbrev pub min : ℕ → ℕ → ℕ
min a b = if ltb b a then b else a

-- `xs[first : last]`
slice : ℕ → ℕ → List String → List String
slice first last [] = []
slice zero zero (x ∷ xs) = []
slice zero (suc last) (x ∷ xs) = x ∷ slice zero last xs
slice (suc first) zero (x ∷ xs) = []
slice (suc first) (suc last) (x ∷ xs) = slice first last xs

same_key : WindowKey → WindowKey → Bool
same_key a b = a.provider == b.provider && a.node_id == b.node_id && a.artifact_id == b.artifact_id

-- `self.windows.get(key, [])`, and the assignment of an entry.
unfoldable pub windows_at : WindowKey → List (WindowKey × List (ℕ × ℕ)) → List (ℕ × ℕ)
unfolding same_key
windows_at key [] = []
windows_at key ((k, w) ∷ rest) = if same_key k key then w else windows_at key rest

unfoldable pub set_windows :
    WindowKey → List (ℕ × ℕ) → List (WindowKey × List (ℕ × ℕ)) → List (WindowKey × List (ℕ × ℕ))
unfolding same_key
set_windows key value [] = (key, value) ∷ []
set_windows key value ((k, w) ∷ rest) =
    if same_key k key then (k, value) ∷ rest else (k, w) ∷ set_windows key value rest

abbrev pub is_expert : Role → Bool
is_expert local = false
is_expert expert = true

-- self.mode in {"full_cloud", "cascade"}
abbrev pub sends_all : Mode → Bool
sends_all full_cloud = true
sends_all cascade = true
sends_all _ = false

-- self.mode in {"residual", "no_feedback", "no_solvers"}
abbrev pub may_inline : Mode → Bool
may_inline residual = true
may_inline no_feedback = true
may_inline no_solvers = true
may_inline _ = false

abbrev pub pulls : Mode → Bool
pulls no_pull = false
pulls _ = true

abbrev pub gives_feedback : Mode → Bool
gives_feedback no_feedback = false
gives_feedback _ = true

unfoldable pub cons_there {ℓ} : {A : Type ℓ} → Option A → List A → List A
cons_there none xs = xs
cons_there (some x) xs = x ∷ xs

-- The results that are there.
unfoldable pub present {ℓ κ} : {A : Type ℓ} {B : Type κ} → (A → Option B) → List A → List B
unfolding cons_there
present f [] = []
present f (x ∷ xs) = cons_there (f x) (present f xs)

module _ {V W : Type 0} (host : Host V W) (h : Harness V W) where
  unfoldable pub lines : Artifact → List String
  lines a = let found = host.split_lines a.text in if is_empty found then "" ∷ [] else found

  -- `Artifact.excerpt`. The ranges that reach it lie in the artifact.
  unfoldable pub excerpt : String → Artifact → ℕ → ℕ → Excerpt
  unfolding slice
  excerpt id a start end = record {
    artifact_id = id;
    artifact_sha256 = host.sha256 a.text;
    start_line = start;
    end_line = end;
    text = host.join_lines (slice (start - 1) end (lines a));
  }

  unfoldable pub whole_of : String → Option Artifact → Option Excerpt
  unfolding excerpt lines
  whole_of id none = none
  whole_of id (some a) = some (excerpt id a 1 (length (lines a)))

  unfoldable pub whole : String → Option Excerpt
  unfolding whole_of
  whole id = whole_of id (lookup id h.task.artifacts)

  -- The seed, and what was asked for of one artifact.
  asked_of : Provider V W → Run V W → List String → String → List (ℕ × ℕ)
  unfolding concat
  asked_of provider s ids id = concat (
      map
        (λ n.
          windows_at (record { provider = provider.name; node_id = n; artifact_id = id }) s.windows)
        ids)

  unfoldable pub supplied_of :
      Provider V W → Run V W → List String → String → Option Artifact → List Excerpt
  unfolding excerpt lines asked_of
  supplied_of provider s ids id none = []
  supplied_of provider s ids id (some a) =
      let seed =
        if h.limits.seed_lines == 0
        then []
        else (1, min h.limits.seed_lines (length (lines a))) ∷ [] in
      map (λ i. excerpt id a i.0 i.1) (merge (seed ++ asked_of provider s ids id))

  unfoldable pub supplied : Provider V W → Run V W → List String → String → List Excerpt
  unfolding supplied_of
  supplied provider s ids id = supplied_of provider s ids id (lookup id h.task.artifacts)

  unfoldable pub evidence_of : List String → List String
  unfolding concat
  evidence_of ids = unique (concat (map (λ o. o.evidence) (present (by_id h.task.obligations) ids)))

  unfoldable pub dependencies_of : List String → List String
  unfolding concat
  dependencies_of ids =
      unique (concat (map (λ o. o.depends_on) (present (by_id h.task.obligations) ids)))

  -- Everything at this call is public: the provider is remote, or it is a local call for an
  -- exportable value.
  unfoldable pub public_only : Provider V W → List String → Bool
  public_only provider ids = provider.is_remote || all (cloud_allowed h.task) ids

  unfoldable pub is_full : Role → Bool
  is_full role = is_expert role && sends_all h.mode

  unfoldable pub artifact_ids : Provider V W → List String → Role → List String
  unfolding evidence_of public_only is_full
  artifact_ids provider ids role =
      let chosen =
        if is_full role then unique (map (λ e. e.0) h.task.artifacts) else evidence_of ids in
      sorted str_lt
        (select (λ a. not (public_only provider ids) || is_public h.task.artifacts a) chosen)

  unfoldable pub entry_of : String → Option Artifact → Option ManifestEntry
  unfolding lines
  entry_of id none = none
  entry_of id (some a) =
      some (record { artifact_id = id; sha256 = host.sha256 a.text; line_count = length (lines a) })

  unfoldable pub manifest_entry : String → Option ManifestEntry
  unfolding entry_of
  manifest_entry id = entry_of id (lookup id h.task.artifacts)

  unfoldable pub dependency_entry : Run V W → String → PacketDependency V
  dependency_entry s d = record {
    id = d;
    value = lookup d s.accepted;
    receipt = elim (lookup d s.receipts) [ none ↦ none | some r ↦ some (host.receipt_digest r) ];
  }

  unfoldable pub evidence_for :
      Bool → Provider V W → Run V W → List String → List String → List Excerpt
  unfolding whole supplied concat
  evidence_for true provider s ids chosen = present whole chosen
  evidence_for false provider s ids chosen = concat (map (supplied provider s ids) chosen)

  -- The packet with the seed, or with all of the artifacts.
  unfoldable pub seed_packet : Provider V W → Run V W → List String → Role → Packet V
  unfolding artifact_ids manifest_entry dependency_entry dependencies_of public_only is_full
      evidence_for
  seed_packet provider s ids role =
      let deps = if is_full role then unique (map (λ e. e.0) s.accepted) else dependencies_of ids in
      record {
        task_id = h.task.id;
        goal = h.task.goal;
        obligations =
            map
              (λ o. record {
                id = o.id;
                instruction = o.instruction;
                evidence_ids = o.evidence;
                depends_on = o.depends_on;
              })
              (present (by_id h.task.obligations) ids);
        accepted_dependencies = map (dependency_entry s) (
            select (λ d. not (public_only provider ids) || cloud_allowed h.task d)
              (sorted str_lt deps));
        counterexamples =
            if gives_feedback h.mode
            then present (λ n. elim (lookup n s.failures) [ none ↦ none | some f ↦ some (n, f) ])
                ids
            else [];
        manifest = present manifest_entry (artifact_ids provider ids role);
        evidence = evidence_for (is_full role) provider s ids (artifact_ids provider ids role);
        max_lines = h.limits.max_requested_lines;
        pull_enabled = pulls h.mode;
      }

  sum_sizes : List String → ℕ
  sum_sizes [] = 0
  sum_sizes (id ∷ ids) =
      elim (lookup id h.task.artifacts) [ none ↦ 0 | some a ↦ host.byte_size a.text ]
      + sum_sizes ids

  -- The same with all of the evidence needed.
  unfoldable pub scoped_packet : Provider V W → Run V W → List String → Role → Packet V
  unfolding seed_packet whole evidence_of
  scoped_packet provider s ids role = record (seed_packet provider s ids role) {
    evidence = present whole (sorted str_lt (evidence_of ids));
  }

  -- That packet is small: not more than twice the seed's.
  is_inlined : Provider V W → Run V W → List String → Role → Bool
  unfolding seed_packet scoped_packet evidence_of sum_sizes
  is_inlined provider s ids role =
      let seed_size =
        provider.wire_size (seed_packet provider s ids role) h.limits.max_output_tokens in
      let scoped_size =
        provider.wire_size (scoped_packet provider s ids role) h.limits.max_output_tokens in
      may_inline h.mode
      && is_expert role
      && leb (sum_sizes (evidence_of ids)) (2 * seed_size)
      && leb scoped_size (2 * seed_size)
      && leb scoped_size h.limits.max_request_bytes
      && (not provider.is_remote
          || leb scoped_size (h.limits.max_remote_input_bytes - s.remote_bytes))

  unfoldable pub packet_of : Bool → Provider V W → Run V W → List String → Role → Packet V × String
  unfolding scoped_packet seed_packet is_full
  packet_of true provider s ids role =
      (scoped_packet provider s ids role, "inline_complete_scoped_evidence")
  packet_of false provider s ids role =
      (seed_packet provider s ids role, if is_full role then "full_context" else "seed_and_pull")

  unfoldable pub packet : Provider V W → Run V W → List String → Role → Packet V × String
  unfolding packet_of is_inlined
  packet provider s ids role = packet_of (is_inlined provider s ids role) provider s ids role
