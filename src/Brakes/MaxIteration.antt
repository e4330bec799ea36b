-- ===== src/Brakes/MaxIteration.antt =====
-- residual/brakes.py: `MaxIterationBrake`.
use residual_agent_harness.Prelude.{
  ℕ, ◌+◌, ◌≡◌, refl, String, not, ◌&&◌, Option, none, some, List, [], ◌∷◌, arith, leb, count,
  nat_eq, option_eq, string_eq, if◌then◌else◌,
}
use residual_agent_harness.Brakes.{
  BrakeTrip, passes_used_up, escalate, Event, GoalSpec, is_pass_complete, feed, is_tripped,
}

pub record MaxIterationBrake : Type 0 where
  pub spec : GoalSpec
  pub pass_count : ℕ

unfoldable pub reset : MaxIterationBrake → MaxIterationBrake
reset b = record b { pass_count = 0 }

module _ (obs_hash : Event → String) where
  unfoldable pub update : MaxIterationBrake → Event → MaxIterationBrake × Option BrakeTrip
  update b e =
      let pass_count = b.pass_count + 1 in
      if is_pass_complete e
      then (
        record b { pass_count = pass_count },
        if leb b.spec.max_passes pass_count && not e.overall_pass
            then some (record {
              brake_name = "max_iteration";
              trip_reason = passes_used_up pass_count b.spec.max_passes;
              triggering_obs_hash = obs_hash e;
              recommended_action = escalate;
            })
            else none,
      )
      else (b, none)

  -- After any events, the count is the number of completed passes since the reset.
  pass_count-feed :
      (b : MaxIterationBrake) (es : List Event)
      → ((feed update b es).0.pass_count ≡ b.pass_count + count is_pass_complete es)
        × ((feed update b es).0.spec ≡ b.spec)
  unfolding feed update count
  pass_count-feed b [] = (omega arith, refl)
  pass_count-feed b (e ∷ es) =
      let (counted, kept) = pass_count-feed (update b e).0 es in (ground arith, ground arith)

  -- After a reset and any events, a further event trips the brake exactly if it completes a pass
  -- that is not an overall success and at least `max_passes` passes have been completed, this one
  -- included.
  pub update-pass_limit :
      (b : MaxIterationBrake) (es : List Event) (e : Event)
      → is_tripped (update (feed update (reset b) es).0 e).1 ≡ (
          is_pass_complete e
          && not e.overall_pass
          && leb b.spec.max_passes (count is_pass_complete es + 1))
  unfolding update reset
  update-pass_limit b es e =
      let (counted, kept) = pass_count-feed (reset b) es in ground (arith, counted, kept)
