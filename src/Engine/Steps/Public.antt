-- ===== src/Engine/Steps/Public.antt =====
-- What a remote provider is sent is public.
use residual_agent_harness.Prelude.{
  ℕ, zero, suc, ◌≡◌, refl, subst, sym, String, Bool, true, false, Option, none, some, List, [], ◌∷◌,
  arith, map, All, All-append, All-map, all-All, select-All, All-sorted, All-mapped, contains,
  string_eq, nat_eq, Bool-cases, inl, inr, length,
}
use residual_agent_harness.Prelude.Dict.{lookup}
use residual_agent_harness.Prelude.Text.{str_lt}
use residual_agent_harness.Core.Obligation.{Obligation}
use residual_agent_harness.Core.Task.{Artifact, Task}
use residual_agent_harness.Core.Task.Cloud.{by_id, is_public, allows, allowed, cloud_allowed}
use residual_agent_harness.Engine.{Role, Excerpt, ManifestEntry, Provider, Host, Harness, Run}
use residual_agent_harness.Engine.Packets.{
  unique, concat, cons_there, present, whole_of, whole, excerpt, supplied_of, supplied, entry_of,
  evidence_of, public_only, is_full, artifact_ids, manifest_entry, dependency_entry, evidence_for,
  scoped_packet, packet_of, seed_packet, packet,
}
use residual_agent_harness.Engine.Steps.{IsPublic}
use residual_agent_harness.Engine.Steps.Accepts.{by_id-eq}

module _ {ℓ κ} {A : Type ℓ} (P : A → Type κ) where
  All-concat : (xss : List (List A)) → All (λ xs. All P xs) xss → All P (concat xss)
  unfolding concat
  All-concat [] h = tt
  All-concat (xs ∷ xss) h = All-append P xs (concat xss) h.0 (All-concat xss h.1)

All-unique {κ} : (P : String → Type κ) (xs : List String) → All P xs → All P (unique xs)
unfolding unique
All-unique P [] h = tt
All-unique P (x ∷ xs) h = elim (Bool-cases (contains x xs)) [
  | inl again ↦ rw again (All-unique P xs h.1)
  | inr first ↦ rw first (h.0, All-unique P xs h.1)
]

All-const {ℓ κ} : {A : Type ℓ} (P : Type κ) (xs : List A) → P → All (λ x. P) xs
All-const P [] p = tt
All-const P (x ∷ xs) p = (p, All-const P xs p)

All-there {ℓ κ} :
    {A : Type ℓ} (Q : A → Type κ) (m : Option A) (xs : List A)
    → ((y : A) → m ≡ some y → Q y)
    → All Q xs
    → All Q (cons_there m xs)
unfolding cons_there
All-there Q none xs step h = h
All-there Q (some y) xs step h = (step y refl, h)

All-present {ℓ κ μ ν} :
    {A : Type ℓ} {B : Type κ} (P : A → Type μ) (Q : B → Type ν) (f : A → Option B)
    → ((x : A) (y : B) → P x → f x ≡ some y → Q y)
    → (xs : List A) → All P xs
    → All Q (present f xs)
unfolding present
All-present P Q f step [] h = tt
All-present P Q f step (x ∷ xs) h =
    All-there Q (f x) (present f xs) (λ y e. step x y h.0 e) (All-present P Q f step xs h.1)

-- An obligation that may leave the machine has only public evidence.
allowed-evidence :
    (fuel : ℕ) (t : Task) (n : String) (o : Obligation)
    → allowed fuel t n ≡ true
    → by_id t.obligations n ≡ some o
    → All (λ a. is_public t.artifacts a ≡ true) o.evidence
unfolding allowed allows
allowed-evidence zero t n o h e = absurd (cc)
allowed-evidence (suc fuel) t n o h e =
    let k : allows t (allowed fuel t) (some o) ≡ true =
      subst (λ m. allows t (allowed fuel t) m ≡ true) e h in
    all-All (is_public t.artifacts) o.evidence (ground arith)

module _ {V W : Type 0} (host : Host V W) (h : Harness V W) where
  abbrev IsOpen : String → Type 0
  IsOpen a = is_public h.task.artifacts a ≡ true

  evidence_of-IsOpen :
      (ids : List String)
      → All (λ n. cloud_allowed h.task n ≡ true) ids
      → All IsOpen (evidence_of host h ids)
  unfolding evidence_of cloud_allowed
  evidence_of-IsOpen ids ok = All-unique IsOpen _ (
      All-concat IsOpen _ (
        All-mapped (λ xs. All IsOpen xs) (λ o. o.evidence) _
          (All-present (λ n. cloud_allowed h.task n ≡ true) (λ o. All IsOpen o.evidence)
            (by_id h.task.obligations)
            (λ n o allowed' found.
              allowed-evidence (length h.task.obligations) h.task n o allowed' found)
            ids ok)))

  -- What is selected for a remote provider is public.
  artifact_ids-IsOpen :
      (provider : Provider V W) (ids : List String) (role : Role)
      → provider.is_remote ≡ true
      → All IsOpen (artifact_ids host h provider ids role)
  unfolding artifact_ids public_only
  artifact_ids-IsOpen provider ids role remote =
      All-sorted IsOpen str_lt _ (All-map _ IsOpen (λ a k. ground arith) _ (select-All _ _))

  excerpt_of-IsOpen :
      (id : String) (m : Option Artifact) (x : Excerpt)
      → IsOpen id
      → whole_of host h id m ≡ some x
      → IsOpen x.artifact_id
  unfolding whole_of excerpt
  excerpt_of-IsOpen id none x o e = absurd (cc)
  excerpt_of-IsOpen id (some a) x o e = let same : id ≡ x.artifact_id = cc in subst IsOpen same o

  supplied_of-IsOpen :
      (provider : Provider V W) (s : Run V W) (ids : List String) (id : String)
      (m : Option Artifact)
      → IsOpen id
      → All (λ e. IsOpen e.artifact_id) (supplied_of host h provider s ids id m)
  unfolding supplied_of excerpt
  supplied_of-IsOpen provider s ids id none o = tt
  supplied_of-IsOpen provider s ids id (some a) o =
      All-mapped (λ e. IsOpen e.artifact_id) _ _ (All-const (IsOpen id) _ o)

  entry_of-IsOpen :
      (id : String) (m : Option Artifact) (x : ManifestEntry)
      → IsOpen id
      → entry_of host h id m ≡ some x
      → IsOpen x.artifact_id
  unfolding entry_of
  entry_of-IsOpen id none x o e = absurd (cc)
  entry_of-IsOpen id (some a) x o e = let same : id ≡ x.artifact_id = cc in subst IsOpen same o

  wholes-IsOpen :
      (ids : List String)
      → All IsOpen ids
      → All (λ e. IsOpen e.artifact_id) (present (whole host h) ids)
  unfolding whole
  wholes-IsOpen ids ok =
      All-present IsOpen (λ e. IsOpen e.artifact_id) (whole host h)
        (λ id x o e. excerpt_of-IsOpen id (lookup id h.task.artifacts) x o e) ids ok

  all_supplied-IsOpen :
      (provider : Provider V W) (s : Run V W) (ids chosen : List String)
      → All IsOpen chosen
      → All (λ e. IsOpen e.artifact_id) (concat (map (supplied host h provider s ids) chosen))
  unfolding supplied
  all_supplied-IsOpen provider s ids chosen ok =
      All-concat (λ e. IsOpen e.artifact_id) _
        (All-mapped (λ xs. All (λ e. IsOpen e.artifact_id) xs) (supplied host h provider s ids)
          chosen
          (All-map IsOpen _
            (λ id o. supplied_of-IsOpen provider s ids id (lookup id h.task.artifacts) o) chosen
            ok))

  evidence_for-IsOpen :
      (full : Bool) (provider : Provider V W) (s : Run V W) (ids chosen : List String)
      → All IsOpen chosen
      → All (λ e. IsOpen e.artifact_id) (evidence_for host h full provider s ids chosen)
  unfolding evidence_for
  evidence_for-IsOpen true provider s ids chosen ok = wholes-IsOpen chosen ok
  evidence_for-IsOpen false provider s ids chosen ok = all_supplied-IsOpen provider s ids chosen ok

  seed-IsPublic :
      (provider : Provider V W) (s : Run V W) (ids : List String) (role : Role)
      → provider.is_remote ≡ true
      → All (λ n. cloud_allowed h.task n ≡ true) ids
      → IsPublic h.task (seed_packet host h provider s ids role)
  unfolding seed_packet manifest_entry dependency_entry public_only
  seed-IsPublic provider s ids role remote ok =
      let chosen = artifact_ids-IsOpen provider ids role remote in
      record {
        evidence = evidence_for-IsOpen (is_full host h role) provider s ids _ chosen;
        manifest =
            All-present IsOpen (λ m. IsOpen m.artifact_id) (manifest_entry host h)
              (λ id x o e. entry_of-IsOpen id (lookup id h.task.artifacts) x o e) _ chosen;
        dependencies =
            All-mapped (λ d. cloud_allowed h.task d.id ≡ true) (dependency_entry host h s) _
              (All-map _ (λ d. cloud_allowed h.task d ≡ true) (λ d k. ground arith) _
                (select-All _ _));
        obligations =
            All-mapped (λ o. cloud_allowed h.task o.id ≡ true) _ _
              (All-present (λ n. cloud_allowed h.task n ≡ true)
                (λ o. cloud_allowed h.task o.id ≡ true) (by_id h.task.obligations)
                (λ n o allowed' found.
                  subst (λ m. cloud_allowed h.task m ≡ true)
                    (sym (by_id-eq h.task.obligations n o found)) allowed')
                ids ok);
      }

  packet_of-IsPublic :
      (inlined : Bool) (provider : Provider V W) (s : Run V W) (ids : List String) (role : Role)
      → provider.is_remote ≡ true
      → All (λ n. cloud_allowed h.task n ≡ true) ids
      → IsPublic h.task (packet_of host h inlined provider s ids role).0
  unfolding packet_of scoped_packet
  packet_of-IsPublic false provider s ids role remote ok =
      seed-IsPublic provider s ids role remote ok
  packet_of-IsPublic true provider s ids role remote ok =
      let seed = seed-IsPublic provider s ids role remote ok in
      record {
        evidence = wholes-IsOpen _ (All-sorted IsOpen str_lt _ (evidence_of-IsOpen ids ok));
        manifest = seed.manifest;
        dependencies = seed.dependencies;
        obligations = seed.obligations;
      }

  pub packet-IsPublic :
      (provider : Provider V W) (s : Run V W) (ids : List String) (role : Role)
      → provider.is_remote ≡ true
      → All (λ n. cloud_allowed h.task n ≡ true) ids
      → IsPublic h.task (packet host h provider s ids role).0
  unfolding packet
  packet-IsPublic provider s ids role remote ok = packet_of-IsPublic _ provider s ids role remote ok
