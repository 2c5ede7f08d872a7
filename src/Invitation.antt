-- ===== src/Invitation.antt =====
-- backend/internal/auth/invitation/invitation.go: an invitation is accepted with a first password, over
-- the writer of backend/internal/store/invitations.go.
pub mod Accepted
pub mod Activates
mod Tests
use identity_hub.Base.{Bytes, Option, if◌then◌else◌, is_empty, ltb, none, some, ℕ, ◌||◌}
use identity_hub.World.{
  Action, External, Result, autocommit, bad_hash, delivery_unavailable, email_verified_event, err,
  fail, invalid_input, invitation_accepted, map_error, no_rows_as, ok, publish, pure, statement,
  token_invalid, token_required, transaction, ◌>>=◌, ◌>>◌,
}
use identity_hub.Sql.Audit.{insert_audit_event}
use identity_hub.Sql.Reset.{consume_invitation_token, invitation_token_is_usable}

-- `trim` and `rune_count` are strings.TrimSpace and utf8.RuneCountInString; the two limits are those of
-- the package password.
pub record Service : Type 0 where
  pub ext : External
  pub trim : Bytes → Bytes
  pub rune_count : Bytes → ℕ
  pub min_runes : ℕ
  pub max_runes : ℕ

pub record Input : Type 0 where
  pub token : Bytes
  pub password : Bytes
  pub ip : Option ℕ
  pub user_agent : Option Bytes

-- validateInput
pub validate_input : Service → Input → Result (Unit {0})
validate_input s input =
    if is_empty (s.trim input.token)
    then err token_required
    else if ltb (s.rune_count input.password) s.min_runes
        || ltb s.max_runes (s.rune_count input.password)
    then err invalid_input
    else ok tt

-- usableTokenHash
pub usable_token_hash : Service → Bytes → Action Bytes
usable_token_hash s token = elim (s.ext.decode token) [
  | none ↦ fail token_invalid
  | some raw ↦ (do
    usable ← autocommit (invitation_token_is_usable (s.ext.sha256 raw))
    if usable then pure (s.ext.sha256 raw) else fail token_invalid)
]

-- consumeAndPublish: the publication comes before the commit.
pub consume_and_publish : Input → Bytes → Bytes → Action (Unit {0})
consume_and_publish input token_hash hash = do
  u ← map_error (no_rows_as token_invalid) (statement (consume_invitation_token token_hash hash))
  statement (
      insert_audit_event (record {
        actor = some u.id;
        action = invitation_accepted;
        reason = none;
        resource_id = some u.id;
        ip = input.ip;
        user_agent = input.user_agent;
      }))
  map_error (λ _. delivery_unavailable) (publish (email_verified_event u.id))

-- Accept after the check of the token.
pub accept_usable : Service → Input → Bytes → Action (Unit {0})
accept_usable s input token_hash = elim (s.ext.hash input.password) [
  | none ↦ fail bad_hash
  | some hash ↦ transaction (consume_and_publish input token_hash hash)
]

-- Accept
pub accept : Service → Input → Action (Unit {0})
accept s input = elim (validate_input s input) [
  | err e ↦ fail e
  | ok _ ↦ (do token_hash ← usable_token_hash s input.token; accept_usable s input token_hash)
]
