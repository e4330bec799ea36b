-- ===== src/Runtime/Policy/Authority.antt =====
-- The harness's policy has the only say.
use residual_agent_harness.Prelude.{
  ℕ, ◌≤◌, ◌≡◌, ◌↔◌, refl, String, true, false, Option, none, some, List, [], ◌∷◌, All, arith,
  contains, is_empty, select, string_eq, ◌==◌, ==_iff, ==_sym, if◌then◌else◌, Bool-cases, inl, inr,
}
use residual_agent_harness.Prelude.Dict.{Dict, lookup, insert, lookup-insert}
use residual_agent_harness.Prelude.Result.{ok}
use residual_agent_harness.Runtime.Policy.{
  Objects, provider_authority_keys, switch_keys, marker, Verdict, allow, deny, escalate,
  PolicyAuthority, EngineResult, has_truthy, turn_off, turn_off_present, sanitize_dispatch_config,
  leaked, decide, apply,
}

-- How strict a verdict is.
unfoldable pub strictness : Verdict → ℕ
strictness allow = 0
strictness escalate = 1
strictness deny = 2

module _ {V : Type 0} (objects : Objects V) where
  lookup-turn_off :
      (key : String) (keys : List String) (d : Dict V)
      → lookup key (turn_off objects keys d)
        ≡ (if contains key keys then some objects.no else lookup key d)
  unfolding turn_off contains
  lookup-turn_off key [] d = refl
  lookup-turn_off key (k ∷ keys) d = ground (
    arith,
    lookup-turn_off key keys (insert k objects.no d),
    lookup-insert k key objects.no d,
    ==_sym k key,
  )

  -- `False` where something stood.
  abbrev pub off_if_there : Option V → Option V
  off_if_there none = none
  off_if_there (some v) = some objects.no

  lookup-present :
      (k key : String) (d : Dict V)
      → lookup key (elim (lookup k d) [ none ↦ d | some v ↦ insert k objects.no d ])
        ≡ (if key == k then off_if_there (lookup key d) else lookup key d)
  lookup-present k key d = elim (Bool-cases (key == k)) [
    | inl same ↦ let p = (==_iff key k).0 same in ground (arith, lookup-insert k key objects.no d)
    | inr other ↦ ground (arith, lookup-insert k key objects.no d, ==_sym k key)
  ]

  lookup-turn_off_present :
      (key : String) (keys : List String) (d : Dict V)
      → lookup key (turn_off_present objects keys d)
        ≡ (if contains key keys then off_if_there (lookup key d) else lookup key d)
  unfolding turn_off_present contains
  lookup-turn_off_present key [] d = refl
  lookup-turn_off_present key (k ∷ keys) d = ground (
    arith,
    lookup-turn_off_present key keys
        (elim (lookup k d) [ none ↦ d | some v ↦ insert k objects.no d ]),
    lookup-present k key d,
  )

  -- What the engine is handed under each key: the marker is set, the provider's claims of
  -- authority are all `False`, its switches are `False` where they are there, and any other entry
  -- is as it was.
  pub lookup-sanitize :
      (key : String) (config : Dict V)
      → lookup key (sanitize_dispatch_config objects config) ≡ (
          if key == marker
          then some objects.yes
          else if contains key provider_authority_keys
          then some objects.no
          else if contains key switch_keys
          then off_if_there (lookup key config)
          else lookup key config)
  unfolding sanitize_dispatch_config
  lookup-sanitize key config =
      let d = turn_off objects provider_authority_keys config in
      ground (
        arith,
        lookup-insert marker key objects.yes (turn_off_present objects switch_keys d),
        lookup-turn_off_present key switch_keys d,
        lookup-turn_off key provider_authority_keys config,
        ==_sym key marker,
      )

  -- Entries under the provider's authority keys, whatever they say, do not change the verdict:
  -- two mappings that differ there only get the same one.
  pub decide-claims :
      (policy : PolicyAuthority) (capability : String) (m m' : Dict V)
      → ((key : String)
          → contains key provider_authority_keys ≡ false
          → lookup key m ≡ lookup key m')
      → (decide objects policy capability m).verdict ≡ (decide objects policy capability m').verdict
  unfolding decide has_truthy contains
  decide-claims policy capability m m' same =
      let advisory : lookup "sdk_refusal_advisory" m ≡ lookup "sdk_refusal_advisory" m' =
        same "sdk_refusal_advisory" refl in
      ground arith

  -- What the provider reports never makes the verdict milder than it is without a report.
  pub decide-strictness :
      (policy : PolicyAuthority) (capability : String) (m : Dict V)
      → strictness (decide objects policy capability []).verdict
        ≤ strictness (decide objects policy capability m).verdict
  unfolding decide strictness has_truthy lookup
  decide-strictness policy capability m = ground arith

  leaked-none :
      (d : Dict V) (keys : List String)
      → All (λ k. has_truthy objects d k ≡ false) keys
      → is_empty (select (has_truthy objects d) keys) ≡ true
  unfolding select
  leaked-none d [] h = refl
  leaked-none d (k ∷ keys) h = ground (arith, h.0, leaked-none d keys h.1)

  none-leaked :
      (d : Dict V) (keys : List String)
      → is_empty (select (has_truthy objects d) keys) ≡ true
      → All (λ k. has_truthy objects d k ≡ false) keys
  unfolding select
  none-leaked d [] h = tt
  none-leaked d (k ∷ keys) h = (ground arith, none-leaked d keys (ground arith))

  -- A result is accepted exactly if none of the provider's authority keys holds a true value in
  -- its metadata.
  pub apply-ok_iff :
      (r : EngineResult V)
      → ((r' : EngineResult V) × (apply objects r ≡ ok r'))
        ↔ All (λ k. has_truthy objects r.raw_metadata k ≡ false) provider_authority_keys
  unfolding apply leaked
  apply-ok_iff r = (
    λ (r', h). none-leaked r.raw_metadata provider_authority_keys (ground arith),
    λ h. (
      record r { raw_metadata = insert marker objects.yes r.raw_metadata },
      rw (leaked-none r.raw_metadata provider_authority_keys h) refl,
    ),
  )
