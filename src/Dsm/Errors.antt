-- ===== src/Dsm/Errors.antt =====
-- The exceptions of residual/dsm. A `FencingError` is told apart by the message that it carries.
pub data Error : Type 0 where
  -- lease.py
  leased_to_other stale_token no_active_lease token_mismatch lease_expired : Error
  -- ownership.py
  unknown_domain not_authoritative : Error
  -- journal.py
  integrity_mismatch malformed_line : Error
  -- store.py
  missing_field key_error illegal_transition crash unknown_event : Error
