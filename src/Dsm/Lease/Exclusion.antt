-- ===== src/Dsm/Lease/Exclusion.antt =====
-- At most one holder and one token of a resource pass `check`, and for how long.
use text.Mathlib.TextEquality.{eq_iff}
use residual_agent_harness.Prelude.{
  ℕ, ◌+◌, ◌≤◌, ◌<◌, String, ◌≡◌, ◌≢◌, inl, inr, ◌↔◌, some, List, [], ◌∷◌, arith, ◌==◌, nat_eq,
  string_eq, if◌then◌else◌, Option-cases,
}
use residual_agent_harness.Prelude.Dict.{lookup, lookup-remove}
use residual_agent_harness.Prelude.Result.{ok, err, Result-cases}
use residual_agent_harness.Dsm.Errors.{leased_to_other}
use residual_agent_harness.Dsm.Lease.{
  Lease, LeaseManager, Grant, Call, acquires, renews, releases, new, current_token, acquire, check,
  renew, release, perform, perform_all,
}
use residual_agent_harness.Dsm.Lease.Fencing.{
  granted, lookup-acquire, token-acquire, lookup-renew, current_token-acquire, current_token-renew,
  current_token-release,
}

-- The lease that lets `check` pass.
pub record Holds (m : LeaseManager) (r h : String) (t time : ℕ) : Type 0 where
  pub lease : Lease
  pub found : lookup r m.leases ≡ some lease
  pub holder : lease.holder ≡ h
  pub token : lease.token ≡ t
  pub live : time < lease.until
  pub fresh : current_token m r ≤ t

check-Holds :
    (m : LeaseManager) (r h : String) (t time : ℕ) → check m r h t time ≡ ok tt → Holds m r h t time
unfolding check
check-Holds m r h t time e = elim (Option-cases (lookup r m.leases)) [
  | inl none_found ↦ absurd (ground arith)
  | inr (l, found) ↦ record {
    lease = l;
    found = found;
    holder = ground (arith, eq_iff l.holder h);
    token = ground (arith, eq_iff l.holder h);
    live = ground (arith, eq_iff l.holder h);
    fresh = ground (arith, eq_iff l.holder h);
  }
]

Holds-check :
    (m : LeaseManager) (r h : String) (t time : ℕ) → Holds m r h t time → check m r h t time ≡ ok tt
unfolding check
Holds-check m r h t time (k) = ground (arith, k.found, eq_iff k.lease.holder h)

-- `check` passes exactly when the resource has a live lease of this holder with this token,
-- and no later token has been issued.
pub check-ok_iff :
    (m : LeaseManager) (r h : String) (t time : ℕ)
    → (check m r h t time ≡ ok tt) ↔ Holds m r h t time
check-ok_iff m r h t time = (check-Holds m r h t time, Holds-check m r h t time)

-- Two callers that pass `check` for one resource, at whatever times, are the same holder with
-- the same token.
pub check_exclusive :
    (m : LeaseManager) (r h h' : String) (t t' time time' : ℕ)
    → check m r h t time ≡ ok tt
    → check m r h' t' time' ≡ ok tt
    → (h ≡ h') × (t ≡ t')
check_exclusive m r h h' t t' time time' e e' =
    let a = check-Holds m r h t time e in
    let b = check-Holds m r h' t' time' e' in
    (cc (a.found, b.found, a.holder, b.holder), cc (a.found, b.found, a.token, b.token))

-- A grant is good for its holder from now until exactly its expiry.
pub check-acquire_iff :
    (m : LeaseManager) (r h : String) (ttl now : ℕ) (m' : LeaseManager) (g : Grant) (time : ℕ)
    → acquire m r h ttl now ≡ ok (m', g)
    → (check m' r h g.fencing_token time ≡ ok tt) ↔ (time < now + ttl)
unfolding check acquire
check-acquire_iff m r h ttl now m' g time e = ground (
  arith,
  lookup-acquire m r h ttl now r e,
  token-acquire m r h ttl now e,
  current_token-acquire m r h ttl now m' g r e,
  eq_iff r r,
  eq_iff h h,
)

-- While a holder passes `check`, nobody else acquires the resource.
pub acquire-held :
    (m : LeaseManager) (r h h' : String) (t ttl now : ℕ)
    → check m r h t now ≡ ok tt
    → h ≢ h'
    → acquire m r h' ttl now ≡ err leased_to_other
unfolding acquire
acquire-held m r h h' t ttl now e ne =
    let k = check-Holds m r h t now e in
    ground (arith, k.found, k.holder, k.live, eq_iff k.lease.holder h')

-- No lease carries a token above the counter of its resource.
pub record IsFenced (m : LeaseManager) : Type 0 where
  pub bounded : (r : String) (l : Lease) → lookup r m.leases ≡ some l → l.token ≤ current_token m r

module _ (m : LeaseManager) (f : IsFenced m) where
  IsFenced-grant :
      (m' : LeaseManager) (q h : String) (ttl now : ℕ)
      → ((r : String)
          → lookup r m'.leases ≡ (
              if q == r
              then some (granted h (current_token m q + 1) ttl now)
              else lookup r m.leases))
      → ((r : String)
          → current_token m' r ≡ (if q == r then current_token m q + 1 else current_token m r))
      → IsFenced m'
  IsFenced-grant m' q h ttl now leases tokens = record {
    bounded = λ r l p. ground (arith, leases r, tokens r, f.bounded r l);
  }

  lookup-release :
      (q h : String) (t : ℕ) (r : String) (l : Lease)
      → lookup r (release m q h t).leases ≡ some l
      → lookup r m.leases ≡ some l
  unfolding release
  lookup-release q h t r l p = ground (arith, lookup-remove q r m.leases)

  perform-IsFenced : (c : Call) → IsFenced (perform m c)
  unfolding perform
  perform-IsFenced (acquires q h ttl now) = elim (Result-cases (acquire m q h ttl now)) [
    | inl ((m', g), e) ↦ rw e (
        IsFenced-grant m' q h ttl now (λ r. lookup-acquire m q h ttl now r e)
          (λ r. current_token-acquire m q h ttl now m' g r e))
    | inr (x, e) ↦ rw e f
  ]
  perform-IsFenced (renews q h t ttl now) = elim (Result-cases (renew m q h t ttl now)) [
    | inl ((m', g), e) ↦ rw e (
        IsFenced-grant m' q h ttl now (λ r. lookup-renew m q h ttl now t r e)
          (λ r. current_token-renew m q h t ttl now m' g r e))
    | inr (x, e) ↦ rw e f
  ]
  perform-IsFenced (releases q h t) = record {
    bounded = λ r l p.
        omega (arith, current_token-release m q h t r, f.bounded r l (lookup-release q h t r l p));
  }

-- Whatever calls are made of a new manager, no lease has a token above its resource's counter.
pub perform_all-IsFenced :
    (cs : List Call) (m : LeaseManager) → IsFenced m → IsFenced (perform_all m cs)
unfolding perform_all
perform_all-IsFenced [] m f = f
perform_all-IsFenced (c ∷ cs) m f = perform_all-IsFenced cs (perform m c) (perform-IsFenced m f c)

new-IsFenced : IsFenced new
unfolding lookup
new-IsFenced = record { bounded = λ r l p. cc }

-- From a new manager on, whatever the calls, a token that passes `check` is the resource's
-- newest one.
pub check_newest :
    (cs : List Call) (r h : String) (t time : ℕ)
    → check (perform_all new cs) r h t time ≡ ok tt
    → t ≡ current_token (perform_all new cs) r
check_newest cs r h t time e =
    let m = perform_all new cs in
    let k = check-Holds m r h t time e in
    let f = perform_all-IsFenced cs new new-IsFenced in omega (arith, f.bounded r k.lease k.found)
