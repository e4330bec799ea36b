-- ===== src/Loop/Progress.antt =====
-- residual/factory/loop_runtime/progress.py
use residual_agent_harness.Prelude.{
  ℕ, ◌+◌, ◌-◌, String, Bool, true, false, not, ◌&&◌, ◌||◌, Option, none, some, List, map, ltb,
  nat_eq, ◌==◌, string_eq, option_eq, count, select, sorted, ◌≡◌, arith,
}
use residual_agent_harness.Prelude.Int.{pos, sub_ℕ, leb_ℤ}
use residual_agent_harness.Prelude.Text.{str_lt}
use residual_agent_harness.Loop.State.{
  VerificationStatus, pass, fail, unknown, status_value, ObligationState, unresolved, accepted,
  rejected, undetermined, FactoryResultSet, ProgressVector,
}

abbrev pub is_fail : VerificationStatus → Bool
is_fail fail = true
is_fail _ = false

abbrev pub is_unknown : VerificationStatus → Bool
is_unknown unknown = true
is_unknown _ = false

abbrev pub is_pass : VerificationStatus → Bool
is_pass pass = true
is_pass _ = false

abbrev pub is_open : ObligationState → Bool
is_open unresolved = true
is_open rejected = true
is_open undetermined = true
is_open _ = false

abbrev pub is_accepted : ObligationState → Bool
is_accepted accepted = true
is_accepted _ = false

unfoldable pub residual_mass : FactoryResultSet → ℕ
residual_mass r =
    let failed = count (λ i. is_fail i.status) r.verification_results in
    let undecided = count (λ i. is_unknown i.status) r.verification_results in
    let still_open = count (λ e. is_open e.1) r.obligation_states in failed + undecided + still_open

-- What `failure_fingerprint` hands to the digest. Receipts and run ids are not part of it.
pub record FingerprintInput : Type 0 where
  pub residual_ids : List String
  pub verification_failures : List (String × String)
  pub accepted_tree_hash : Option String

-- The order of Python's pairs of texts
abbrev pub pair_lt : String × String → String × String → Bool
pair_lt (a, b) (c, d) = str_lt a c || (a == c && str_lt b d)

unfoldable pub fingerprint_input : FactoryResultSet → FingerprintInput
fingerprint_input r = record {
  residual_ids = sorted str_lt (map (λ o. o.id) r.residual_obligations);
  verification_failures = sorted pair_lt (
      map (λ i. (i.verification_id, status_value i.status))
        (select (λ i. not (is_pass i.status)) r.verification_results));
  accepted_tree_hash = r.accepted_tree_hash;
}

unfoldable pub failure_fingerprint : (FingerprintInput → String) → FactoryResultSet → String
unfolding fingerprint_input
failure_fingerprint digest r = digest (fingerprint_input r)

unfoldable pub count_accepted : FactoryResultSet → ℕ
count_accepted r = count (λ e. is_accepted e.1) r.obligation_states

-- The mass and the accepted obligations of the previous result, and its tree.
pub record Before : Type 0 where
  pub mass : ℕ
  pub accepted : ℕ
  pub tree_changed : Bool
  pub exists : Bool

before : Option FactoryResultSet → FactoryResultSet → Before
unfolding residual_mass count_accepted
before none current = record {
  mass = residual_mass current;
  accepted = 0;
  tree_changed = true;
  exists = false;
}
before (some previous) current = record {
  mass = residual_mass previous;
  accepted = count_accepted previous;
  tree_changed = not (current.accepted_tree_hash == previous.accepted_tree_hash);
  exists = true;
}

unfoldable pub measure_progress : Option FactoryResultSet → FactoryResultSet → ℕ → ProgressVector
unfolding before
measure_progress previous current fingerprint_seen =
    let b = before previous current in
    let mass = residual_mass current in
    let accepted = count_accepted current in
    let resolved = accepted - b.accepted in
    record {
      residual_mass = mass;
      progress_delta = sub_ℕ b.mass mass;
      accepted_obligations = accepted;
      obligation_resolved_delta = resolved;
      tree_changed = b.tree_changed;
      churn = b.exists && b.tree_changed && resolved == 0 && not (ltb mass b.mass);
      repeated_failure = ltb 0 fingerprint_seen;
    }

-- progress_delta <= 0 and obligation_resolved_delta == 0
abbrev pub is_no_progress : ProgressVector → Bool
is_no_progress p = leb_ℤ p.progress_delta (pos 0) && p.obligation_resolved_delta == 0

-- A first result is no churn and has no delta; after that, churn is a changed tree without
-- progress, so that it always counts as a round without progress.
pub measure_progress-churn :
    (previous : Option FactoryResultSet) (current : FactoryResultSet) (seen : ℕ)
    → (measure_progress previous current seen).churn ≡ true
    → is_no_progress (measure_progress previous current seen) ≡ true
unfolding measure_progress
measure_progress-churn previous current seen h = ground arith
