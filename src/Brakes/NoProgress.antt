-- ===== src/Brakes/NoProgress.antt =====
-- residual/brakes.py: `NoProgressBrake`.
use residual_agent_harness.Prelude.{
  ℕ, ◌+◌, ◌≡◌, refl, String, ◌&&◌, Option, none, some, List, [], ◌∷◌, arith, suc, ==_iff, leb,
  nat_eq, option_eq, string_eq, ◌==◌, if◌then◌else◌, Bool-cases, inl, inr,
}
use residual_agent_harness.Brakes.{
  BrakeTrip, identical_call_repeated, escalate, ToolCall, Event, is_invocation, feed, is_tripped,
}
use residual_agent_harness.Prelude.Result.{Result, ok, guard, ◌>>◌}

pub record NoProgressBrake : Type 0 where
  pub threshold : ℕ
  pub last_fingerprint : Option String
  pub streak : ℕ

pub data BrakeError : Type 0 where
  not_positive below_two : BrakeError

-- `NoProgressBrake.__init__`
unfoldable pub new : ℕ → Result BrakeError NoProgressBrake
new threshold = do
  guard (leb 1 threshold) not_positive
  guard (leb 2 threshold) below_two
  ok (record { threshold = threshold; last_fingerprint = none; streak = 0 })

unfoldable pub reset : NoProgressBrake → NoProgressBrake
reset b = record b { last_fingerprint = none; streak = 0 }

-- `payload.get("fingerprint") or …`
unfoldable pub fingerprint_of : (ToolCall → String) → Event → String
fingerprint_of digest_call e = elim e.fingerprint [
  | none ↦ digest_call e.call
  | some fp ↦ if fp == "" then digest_call e.call else fp
]

-- How often the first element stands at the front.
leading : String → List String → ℕ
leading x [] = 0
leading x (y ∷ ys) = if x == y then suc (leading x ys) else 0

unfoldable pub run_length : List String → ℕ
unfolding leading
run_length [] = 0
run_length (x ∷ xs) = suc (leading x xs)

newest : List String → Option String
newest [] = none
newest (x ∷ xs) = some x

leading-run :
    (x : String) (xs : List String)
    → leading x xs ≡ (if some x == newest xs then run_length xs else 0)
unfolding leading newest run_length
leading-run x [] = refl
leading-run x (y ∷ ys) = elim (Bool-cases (x == y)) [
  | inl same ↦ let p = (==_iff x y).0 same in ground arith
  | inr other ↦ ground arith
]

module _ (obs_hash : Event → String) (digest_call : ToolCall → String) where
  unfoldable pub update : NoProgressBrake → Event → NoProgressBrake × Option BrakeTrip
  unfolding fingerprint_of
  update b e =
      let fp = fingerprint_of digest_call e in
      let streak = if some fp == b.last_fingerprint then b.streak + 1 else 1 in
      if is_invocation e
      then (
        record b { last_fingerprint = some fp; streak = streak },
        if leb b.threshold streak
            then some (record {
              brake_name = "no_progress";
              trip_reason = identical_call_repeated streak;
              triggering_obs_hash = obs_hash e;
              recommended_action = escalate;
            })
            else none,
      )
      else (b, none)

  -- The fingerprints of the tool calls, the newest first.
  unfoldable pub calls : List Event → List String → List String
  calls [] before = before
  calls (e ∷ es) before =
      calls es (if is_invocation e then fingerprint_of digest_call e ∷ before else before)

  record Counts (b : NoProgressBrake) (before : List String) : Type 0 where
    last : b.last_fingerprint ≡ newest before
    run : b.streak ≡ run_length before

  Counts-update :
      (b : NoProgressBrake) (before : List String) (e : Event)
      → Counts b before
      → Counts (update b e).0 (calls (e ∷ []) before)
  unfolding update newest run_length calls
  Counts-update b before e c = elim (Bool-cases (is_invocation e)) [
    | inl call ↦
        let fp = fingerprint_of digest_call e in
        rw call (record { last = refl; run = ground (arith, leading-run fp before, c.run, c.last) })
    | inr other ↦ rw other c
  ]

  Counts-feed :
      (b : NoProgressBrake) (before : List String) (es : List Event)
      → Counts b before
      → Counts (feed update b es).0 (calls es before)
        × ((feed update b es).0.threshold ≡ b.threshold)
  unfolding feed calls update
  Counts-feed b before [] c = (c, refl)
  Counts-feed b before (e ∷ es) c =
      let (counts, kept) =
        Counts-feed (update b e).0 (calls (e ∷ []) before) es (Counts-update b before e c) in
      (counts, ground arith)

  -- After a reset and any events, a further event trips the brake exactly if it is a tool call and
  -- at least the last `threshold` tool calls, this one included, have one fingerprint.
  pub update-repeated :
      (b : NoProgressBrake) (es : List Event) (e : Event)
      → is_tripped (update (feed update (reset b) es).0 e).1 ≡ (
          is_invocation e
          && leb b.threshold (run_length (fingerprint_of digest_call e ∷ calls es [])))
  unfolding update reset newest run_length
  update-repeated b es e =
      let (c, kept) = Counts-feed (reset b) [] es (record { last = refl; run = refl }) in
      ground (arith, c.last, c.run, kept, leading-run (fingerprint_of digest_call e) (calls es []))
