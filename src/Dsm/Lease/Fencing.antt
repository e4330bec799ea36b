-- ===== src/Dsm/Lease/Fencing.antt =====
-- Tokens of a resource only grow, so that a token which was passed over stays stale.
use text.Mathlib.TextEquality.{eq_iff}
use residual_agent_harness.Prelude.{
  ℕ, ◌+◌, ◌≤◌, ◌<◌, String, ◌≡◌, inl, inr, some, List, [], ◌∷◌, arith, ◌==◌, nat_eq, string_eq,
  if◌then◌else◌,
}
use residual_agent_harness.Prelude.Dict.{lookup, lookup-insert}
use residual_agent_harness.Prelude.Result.{ok, err, Result-cases}
use residual_agent_harness.Dsm.Errors.{stale_token}
use residual_agent_harness.Dsm.Lease.{
  Lease, LeaseManager, Grant, Call, acquires, renews, releases, current_token, acquire, check,
  renew, release, perform, perform_all,
}

-- A grant moves its own resource one token on, and no other.
pub current_token-acquire :
    (m : LeaseManager) (q h : String) (ttl now : ℕ) (m' : LeaseManager) (g : Grant) (r : String)
    → acquire m q h ttl now ≡ ok (m', g)
    → current_token m' r ≡ (if q == r then current_token m q + 1 else current_token m r)
unfolding current_token acquire
current_token-acquire m q h ttl now m' g r e =
    ground (arith, lookup-insert q r (current_token m q + 1) m.tokens, eq_iff q r)

pub current_token-renew :
    (m : LeaseManager) (q h : String) (t ttl now : ℕ) (m' : LeaseManager) (g : Grant) (r : String)
    → renew m q h t ttl now ≡ ok (m', g)
    → current_token m' r ≡ (if q == r then current_token m q + 1 else current_token m r)
unfolding current_token renew
current_token-renew m q h t ttl now m' g r e =
    ground (arith, lookup-insert q r (current_token m q + 1) m.tokens, eq_iff q r)

pub current_token-release :
    (m : LeaseManager) (q h : String) (t : ℕ) (r : String)
    → current_token (release m q h t) r ≡ current_token m r
unfolding current_token release
current_token-release m q h t r = ground arith

-- The lease that a grant leaves behind.
abbrev pub granted : String → ℕ → ℕ → ℕ → Lease
granted holder token ttl_ms now_ms = record {
  holder = holder;
  until = now_ms + ttl_ms;
  token = token;
}

module _ (m : LeaseManager) (q h : String) (ttl now : ℕ) {m' : LeaseManager} {g : Grant} where
  pub lookup-acquire :
      (r : String)
      → acquire m q h ttl now ≡ ok (m', g)
      → lookup r m'.leases
        ≡ (if q == r then some (granted h (current_token m q + 1) ttl now) else lookup r m.leases)
  unfolding acquire
  lookup-acquire r e =
      ground
        (arith, lookup-insert q r (granted h (current_token m q + 1) ttl now) m.leases, eq_iff q r)

  pub token-acquire : acquire m q h ttl now ≡ ok (m', g) → g.fencing_token ≡ current_token m q + 1
  unfolding acquire
  token-acquire e = ground arith

  pub lookup-renew :
      (t : ℕ) (r : String)
      → renew m q h t ttl now ≡ ok (m', g)
      → lookup r m'.leases
        ≡ (if q == r then some (granted h (current_token m q + 1) ttl now) else lookup r m.leases)
  unfolding renew current_token
  lookup-renew t r e =
      ground
        (arith, lookup-insert q r (granted h (current_token m q + 1) ttl now) m.leases, eq_iff q r)

pub current_token-perform-le :
    (m : LeaseManager) (c : Call) (r : String) → current_token m r ≤ current_token (perform m c) r
unfolding perform
current_token-perform-le m (acquires q h ttl now) r = elim (Result-cases (acquire m q h ttl now)) [
  | inl ((m', g), e) ↦
      rw e (ground (arith, current_token-acquire m q h ttl now m' g r e, eq_iff q r))
  | inr (x, e) ↦ rw e (omega arith)
]
current_token-perform-le m (renews q h t ttl now) r = elim (Result-cases (renew m q h t ttl now)) [
  | inl ((m', g), e) ↦
      rw e (ground (arith, current_token-renew m q h t ttl now m' g r e, eq_iff q r))
  | inr (x, e) ↦ rw e (omega arith)
]
current_token-perform-le m (releases q h t) r = omega (arith, current_token-release m q h t r)

current_token-perform_all-le :
    (cs : List Call) (m : LeaseManager) (r : String)
    → current_token m r ≤ current_token (perform_all m cs) r
unfolding perform_all
current_token-perform_all-le [] m r = omega arith
current_token-perform_all-le (c ∷ cs) m r =
    omega (arith, current_token-perform-le m c r, current_token-perform_all-le cs (perform m c) r)

-- After a successful `acquire`, whatever calls follow, every token below the granted one is refused as stale,
-- for any holder and at any time.
pub check-acquire_stale :
    (m : LeaseManager) (q h : String) (ttl now : ℕ) (m' : LeaseManager) (g : Grant)
    → acquire m q h ttl now ≡ ok (m', g)
    → (cs : List Call) (h' : String) (t time : ℕ) → t < g.fencing_token
    → check (perform_all m' cs) q h' t time ≡ err stale_token
unfolding check acquire
check-acquire_stale m q h ttl now m' g e cs h' t time lt = ground (
  arith,
  current_token-acquire m q h ttl now m' g q e,
  current_token-perform_all-le cs m' q,
  eq_iff q q,
)
