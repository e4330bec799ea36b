-- ===== src/Dsm/Lease/Tests.antt =====
-- Runs of the lease manager, and the theorems at inputs.
use text.Mathlib.TextEquality.{eq_iff}
use residual_agent_harness.Prelude.{ℕ, ◌≡◌, ◌≢◌, String, refl, List, [], ◌∷◌, arith}
use residual_agent_harness.Prelude.Dict.{lookup, insert, remove}
use residual_agent_harness.Prelude.Result.{ok, err}
use residual_agent_harness.Dsm.Errors.{stale_token, no_active_lease, token_mismatch, lease_expired}
use residual_agent_harness.Dsm.Lease.{
  LeaseManager, Grant, Call, acquires, renews, releases, new, current_token, acquire, check, renew,
  release, perform, perform_all,
}
use residual_agent_harness.Dsm.Lease.Fencing.{check-acquire_stale}
use residual_agent_harness.Dsm.Lease.Exclusion.{check_exclusive, check_newest}

program : Unit {0}
unfolding lookup insert remove current_token acquire check renew release perform perform_all
program = tt

-- "a" holds the resource with token 1 until 15.
abbrev held : LeaseManager
held = record {
  leases = ("r", record { holder = "a"; until = 15; token = 1 }) ∷ [];
  tokens = ("r", 1) ∷ [];
}

abbrev held_grant : Grant
held_grant = record { resource = "r"; holder = "a"; fencing_token = 1; expires_at_ms = 15 }

abbrev taken : LeaseManager
taken = record {
  leases = ("r", record { holder = "b"; until = 30; token = 2 }) ∷ [];
  tokens = ("r", 2) ∷ [];
}

abbrev taken_grant : Grant
taken_grant = record { resource = "r"; holder = "b"; fencing_token = 2; expires_at_ms = 30 }

acquire-new : acquire new "r" "a" 10 5 ≡ ok (held, held_grant)
unfolding program
acquire-new = refl

acquire_expired : acquire held "r" "b" 10 20 ≡ ok (taken, taken_grant)
unfolding program
acquire_expired = refl

check_held : check held "r" "a" 1 14 ≡ ok tt
unfolding program
check_held = refl

refusals :
    (check held "r" "a" 0 14 ≡ err stale_token)
    × (check held "q" "a" 1 14 ≡ err no_active_lease)
    × (check held "r" "b" 1 14 ≡ err token_mismatch)
    × (check held "r" "a" 1 15 ≡ err lease_expired)
    × (check (release held "r" "a" 1) "r" "a" 1 14 ≡ err no_active_lease)
unfolding program
refusals = (refl, refl, refl, refl, refl)

abbrev script : List Call
script = acquires "r" "a" 10 5 ∷ releases "r" "a" 1 ∷ acquires "r" "b" 10 20 ∷ []

check_script : check (perform_all new script) "r" "b" 2 25 ≡ ok tt
unfolding program
check_script = refl

check-acquire_stale_example :
    check (perform_all taken (renews "r" "b" 2 10 25 ∷ [])) "r" "a" 1 21 ≡ err stale_token
check-acquire_stale_example =
    check-acquire_stale held "r" "b" 10 20 taken taken_grant acquire_expired
      (renews "r" "b" 2 10 25 ∷ []) "a" 1 21 (omega arith)

check_exclusive_example : (◌≡◌ {A = String} "a" "a") × (◌≡◌ {A = ℕ} 1 1)
check_exclusive_example = check_exclusive held "r" "a" "a" 1 1 14 14 check_held check_held

a_not_b : ◌≢◌ {A = String} "a" "b"
a_not_b = ground (arith, eq_iff "a" "b")

check_newest_example : 2 ≡ current_token (perform_all new script) "r"
check_newest_example = check_newest script "r" "b" 2 25 check_script
