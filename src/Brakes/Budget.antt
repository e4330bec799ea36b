-- ===== src/Brakes/Budget.antt =====
-- residual/brakes.py: `BudgetBrake`.
use residual_agent_harness.Prelude.{
  ℕ, ◌+◌, ◌-◌, ◌≡◌, refl, ◌∙◌, String, Bool, true, ◌&&◌, ◌||◌, Option, none, some, List, [], ◌∷◌,
  arith, leb, nat_eq, option_eq, string_eq, if◌then◌else◌,
}
use residual_agent_harness.Brakes.{
  BrakeTrip, Reason, usage_unknown_or_invalid, tokens_used_up, time_used_up, abort, Event, GoalSpec,
  is_response, feed, is_tripped,
}

pub record BudgetBrake : Type 0 where
  pub spec : GoalSpec
  pub tokens_used : ℕ
  pub start_ns : Option ℕ

unfoldable pub reset : BudgetBrake → BudgetBrake
reset b = record b { tokens_used = 0; start_ns = none }

abbrev pub or_zero : Option ℕ → ℕ
or_zero none = 0
or_zero (some n) = n

module _ (obs_hash : Event → String) where
  started : BudgetBrake → ℕ → ℕ
  started b now = elim b.start_ns [ none ↦ now | some start ↦ start ]

  trip : Event → Reason → Option BrakeTrip
  trip e reason = some (record {
    brake_name = "budget";
    trip_reason = reason;
    triggering_obs_hash = obs_hash e;
    recommended_action = abort;
  })

  -- The test of the time, in nanoseconds, with the second reading of the clock.
  check_time : BudgetBrake → Event → ℕ → ℕ → BudgetBrake × Option BrakeTrip
  unfolding trip
  check_time b e start later =
      let elapsed = later - start in
      (
        b,
        if leb b.spec.wall_clock_budget_s elapsed
            then trip e (time_used_up elapsed b.spec.wall_clock_budget_s)
            else none,
      )

  -- `now` and `later` are the readings of the clock at the start and behind the tokens.
  unfoldable pub update : BudgetBrake → Event → ℕ → ℕ → BudgetBrake × Option BrakeTrip
  unfolding started check_time
  update b0 e now later =
      let start = started b0 now in
      let b : BudgetBrake = record b0 { start_ns = some start } in
      if is_response e
      then elim e.total_tokens [
        | none ↦ (b, trip e usage_unknown_or_invalid)
        | some tokens ↦
            let used = b.tokens_used + tokens in
            let b' : BudgetBrake = record b { tokens_used = used } in
            if leb b.spec.token_budget used
            then (b', trip e (tokens_used_up used b.spec.token_budget))
            else check_time b' e start later
      ]
      else check_time b e start later

  -- The tokens of the responses that say how many they took.
  abbrev tokens_of : Event → ℕ
  tokens_of e = if is_response e then or_zero e.total_tokens else 0

  unfoldable pub total : List (Event × ℕ × ℕ) → ℕ
  total [] = 0
  total ((e, _, _) ∷ es) = tokens_of e + total es

  -- The first reading of the clock since the reset.
  unfoldable pub first_reading : List (Event × ℕ × ℕ) → ℕ → ℕ
  first_reading [] now = now
  first_reading ((_, now', _) ∷ es) now = now'

  unfoldable pub update_at : BudgetBrake → Event × ℕ × ℕ → BudgetBrake × Option BrakeTrip
  update_at b (e, now, later) = update b e now later

  tokens-update :
      (b : BudgetBrake) (e : Event) (now later : ℕ)
      → ((update b e now later).0.tokens_used ≡ b.tokens_used + tokens_of e)
        × ((update b e now later).0.spec ≡ b.spec)
        × ((update b e now later).0.start_ns ≡ some (started b now))
  unfolding update check_time
  tokens-update b e now later = (ground arith, ground arith, ground arith)

  tokens-feed :
      (b : BudgetBrake) (start : ℕ) (es : List (Event × ℕ × ℕ))
      → b.start_ns ≡ some start
      → ((feed update_at b es).0.tokens_used ≡ b.tokens_used + total es)
        × ((feed update_at b es).0.spec ≡ b.spec)
        × ((feed update_at b es).0.start_ns ≡ some start)
  unfolding feed update_at total started
  tokens-feed b start [] s = (omega arith, refl, s)
  tokens-feed b start ((e, now, later) ∷ es) s =
      let (counted, kept, begun) = tokens-update b e now later in
      let (counted', kept', begun') =
        tokens-feed (update b e now later).0 start es (ground (arith, begun, s)) in
      (ground arith, ground arith, begun')

  -- The tokens of the response are unknown, or with those before they reach the budget.
  abbrev pub is_over : GoalSpec → ℕ → Option ℕ → Bool
  is_over spec used none = true
  is_over spec used (some n) = leb spec.token_budget (used + n)

  update-over :
      (b : BudgetBrake) (e : Event) (now later : ℕ)
      → is_tripped (update b e now later).1 ≡ (
          is_response e && is_over b.spec b.tokens_used e.total_tokens
          || leb b.spec.wall_clock_budget_s (later - started b now))
  unfolding update check_time trip
  update-over b e now later = ground arith

  -- After a reset and any events, a further event trips the brake exactly if it is a response
  -- whose tokens are unknown or reach the budget together with all before, or if the time since
  -- the first event has reached its budget.
  pub update-budget :
      (b : BudgetBrake) (es : List (Event × ℕ × ℕ)) (e : Event) (now later : ℕ)
      → is_tripped (update (feed update_at (reset b) es).0 e now later).1 ≡ (
          is_response e && is_over b.spec (total es) e.total_tokens
          || leb b.spec.wall_clock_budget_s (later - first_reading es now))
  unfolding feed update_at total first_reading reset started
  update-budget b [] e now later = update-over (reset b) e now later
  update-budget b ((e0, now0, later0) ∷ es) e now later =
      let b' : BudgetBrake = (update (reset b) e0 now0 later0).0 in
      let last : BudgetBrake = (feed update_at b' es).0 in
      let (counted, kept, begun) = tokens-update (reset b) e0 now0 later0 in
      let (counted', kept', begun') = tokens-feed b' now0 es begun in
      let same : last.spec ≡ b.spec = kept' ∙ kept in
      let used : last.tokens_used ≡ total ((e0, now0, later0) ∷ es) =
        omega (arith, counted, counted') in
      let since : started last now ≡ now0 = rw (begun', started) refl in
      update-over last e now later ∙ rw (same, used, since) refl
