-- ===== src/World/Broker.antt =====
-- The messages of internal/events that the modelled services hand to the broker.
use identity_hub.Base.{Bool, Bytes, ℕ}

pub data Event : Type 0 where
  -- security.account_locked: user, lockedUntil, failedAttempts
  account_locked_event : ℕ → ℕ → ℕ → Event
  -- security.refresh_reuse_detected: user, family, revoked tokens
  refresh_reuse_event : ℕ → ℕ → ℕ → Event
  -- mfa.challenge_issued: user, address, code, expiry
  challenge_event : ℕ → Bytes → Bytes → ℕ → Event
  -- user.password_reset_requested: address, token, expiry, accountExists
  reset_requested_event : Bytes → Bytes → ℕ → Bool → Event
  -- user.password_reset_completed: user, unlocked
  reset_completed_event : ℕ → Bool → Event
  -- user.email_verified: user
  email_verified_event : ℕ → Event
  -- user.invited: user, address, name, token, expiry
  invited_event : ℕ → Bytes → Bytes → Bytes → ℕ → Event
