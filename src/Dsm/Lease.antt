-- ===== src/Dsm/Lease.antt =====
-- residual/dsm/lease.py: leases with monotonic fencing tokens.
pub mod Fencing
pub mod Exclusion
mod Tests
use residual_agent_harness.Prelude.{
  ℕ, ◌+◌, String, Bool, ◌&&◌, ◌||◌, not, Option, none, some, List, [], ◌∷◌, ltb, ◌==◌, nat_eq,
  string_eq, if◌then◌else◌,
}
use residual_agent_harness.Prelude.Dict.{Dict, lookup, insert, remove}
use residual_agent_harness.Prelude.Result.{Result, ok, err, ◌>>=◌, ◌>>◌}
use residual_agent_harness.Dsm.Errors.{
  Error, leased_to_other, stale_token, no_active_lease, token_mismatch, lease_expired, key_error,
}

pub record Lease : Type 0 where
  pub holder : String
  pub until : ℕ
  pub token : ℕ

pub record LeaseManager : Type 0 where
  pub leases : Dict Lease
  pub tokens : Dict ℕ

pub record Grant : Type 0 where
  pub resource : String
  pub holder : String
  pub fencing_token : ℕ
  pub expires_at_ms : ℕ

abbrev pub new : LeaseManager
new = record { leases = []; tokens = [] }

or_zero : Option ℕ → ℕ
or_zero none = 0
or_zero (some n) = n

unfoldable pub current_token : LeaseManager → String → ℕ
unfolding or_zero
current_token m resource = or_zero (lookup resource m.tokens)

-- The four assignments that `acquire` and `renew` end with.
grant : LeaseManager → String → String → ℕ → ℕ → ℕ → LeaseManager × Grant
grant m resource holder token ttl_ms now_ms = (
  record {
    leases =
        insert resource (record { holder = holder; until = now_ms + ttl_ms; token = token })
          m.leases;
    tokens = insert resource token m.tokens;
  },
  record {
    resource = resource;
    holder = holder;
    fencing_token = token;
    expires_at_ms = now_ms + ttl_ms;
  },
)

-- The lease is live and another's.
blocks : Option Lease → String → ℕ → Bool
blocks none holder now_ms = Bool.false
blocks (some l) holder now_ms = not (l.holder == holder) && ltb now_ms l.until

unfoldable pub acquire :
    LeaseManager → String → String → ℕ → ℕ → Result Error (LeaseManager × Grant)
unfolding current_token grant blocks
acquire m resource holder ttl_ms now_ms =
    if blocks (lookup resource m.leases) holder now_ms
    then err leased_to_other
    else ok (grant m resource holder (current_token m resource + 1) ttl_ms now_ms)

-- The part of `check` behind the comparison with the current token.
check_lease : Option Lease → String → ℕ → ℕ → Result Error (Unit {0})
check_lease none holder fencing_token now_ms = err no_active_lease
check_lease (some l) holder fencing_token now_ms =
    if not (l.holder == holder) || not (l.token == fencing_token)
    then err token_mismatch
    else if ltb now_ms l.until
    then ok tt
    else err lease_expired

unfoldable pub check : LeaseManager → String → String → ℕ → ℕ → Result Error (Unit {0})
unfolding current_token check_lease
check m resource holder fencing_token now_ms =
    if ltb fencing_token (current_token m resource)
    then err stale_token
    else check_lease (lookup resource m.leases) holder fencing_token now_ms

-- `self._tokens[resource]`
token_of : LeaseManager → String → Result Error ℕ
token_of m resource = elim (lookup resource m.tokens) [ none ↦ err key_error | some n ↦ ok n ]

unfoldable pub renew :
    LeaseManager → String → String → ℕ → ℕ → ℕ → Result Error (LeaseManager × Grant)
unfolding check token_of grant
renew m resource holder fencing_token ttl_ms now_ms = do
  check m resource holder fencing_token now_ms
  token ← token_of m resource
  ok (grant m resource holder (token + 1) ttl_ms now_ms)

unfoldable pub release : LeaseManager → String → String → ℕ → LeaseManager
release m resource holder fencing_token = elim (lookup resource m.leases) [
  | none ↦ m
  | some l ↦
      if l.holder == holder && l.token == fencing_token
      then record m { leases = remove resource m.leases }
      else m
]

-- The calls that change a manager.
pub data Call : Type 0 where
  acquires : (resource holder : String) (ttl_ms now_ms : ℕ) → Call
  renews : (resource holder : String) (fencing_token ttl_ms now_ms : ℕ) → Call
  releases : (resource holder : String) (fencing_token : ℕ) → Call

-- A call that raises has changed nothing.
or_unchanged : LeaseManager → Result Error (LeaseManager × Grant) → LeaseManager
or_unchanged m (ok (m', g)) = m'
or_unchanged m (err e) = m

unfoldable pub perform : LeaseManager → Call → LeaseManager
unfolding or_unchanged
perform m (acquires resource holder ttl_ms now_ms) =
    or_unchanged m (acquire m resource holder ttl_ms now_ms)
perform m (renews resource holder fencing_token ttl_ms now_ms) =
    or_unchanged m (renew m resource holder fencing_token ttl_ms now_ms)
perform m (releases resource holder fencing_token) = release m resource holder fencing_token

unfoldable pub perform_all : LeaseManager → List Call → LeaseManager
perform_all m [] = m
perform_all m (c ∷ cs) = perform_all (perform m c) cs
