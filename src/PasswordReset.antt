-- ===== src/PasswordReset.antt =====
-- backend/internal/auth/passwordreset/password_reset.go: the reset of a forgotten password, over the
-- writers of backend/internal/store/password_resets.go.
pub mod Steps
pub mod Closes
pub mod Trail
mod Tests
use identity_hub.Base.{Bytes, if◌then◌else◌, is_empty, ltb, minute, none, some, ℕ, ◌*◌, ◌+◌, ◌||◌}
use identity_hub.World.{
  Action, External, Result, autocommit, bad_hash, delivery_unavailable, err, fail, invalid_input,
  map_error, no_rows_as, now, ok, password_reset_completed, publish, pure, read_random,
  reset_completed_event, reset_requested_event, statement, statement_with_id, token_invalid,
  token_required, transaction, ◌>>=◌, ◌>>◌,
}
use identity_hub.Sql.Audit.{insert_audit_event}
use identity_hub.Sql.Reset.{
  ResetUser, consume_password_reset_token, create_password_reset_token,
  password_reset_token_is_usable,
}

-- resetTTL
abbrev pub reset_ttl : ℕ
reset_ttl = 60 * minute

-- `trim`, `lower` and `rune_count` are strings.TrimSpace, strings.ToLower and
-- utf8.RuneCountInString; the two limits are those of the package password.
pub record Service : Type 0 where
  pub ext : External
  pub trim : Bytes → Bytes
  pub lower : Bytes → Bytes
  pub rune_count : Bytes → ℕ
  pub min_runes : ℕ
  pub max_runes : ℕ

-- The callback of Request; the publication comes before the commit.
pub store_and_publish : Service → Bytes → Bytes → ℕ → Action (Unit {0})
store_and_publish s raw email expires_at = do
  account_exists ←
      statement_with_id (create_password_reset_token s.ext.fold email (s.ext.sha256 raw) expires_at)
  map_error (λ _. delivery_unavailable)
      (publish (reset_requested_event email (s.ext.encode raw) expires_at account_exists))

-- Request
pub request : Service → Bytes → Action (Unit {0})
request s email = do
  raw ← read_random
  at ← now
  transaction (store_and_publish s raw (s.lower (s.trim email)) (at + reset_ttl))

-- decodeConfirmInput
pub decode_confirm_input : Service → Bytes → Bytes → Result Bytes
decode_confirm_input s token new_password =
    if is_empty (s.trim token)
    then err token_required
    else if ltb (s.rune_count new_password) s.min_runes
        || ltb s.max_runes (s.rune_count new_password)
    then err invalid_input
    else elim (s.ext.decode token) [ none ↦ err token_invalid | some raw ↦ ok raw ]

-- consumeReset; the audit's metadata, whether the account was unlocked, is left out.
pub consume_reset : Bytes → Bytes → Action ResetUser
consume_reset token_hash hash = do
  o ←
      map_error (no_rows_as token_invalid)
        (statement (consume_password_reset_token token_hash hash))
  statement (
      insert_audit_event (record {
        actor = some o.account.id;
        action = password_reset_completed;
        reason = none;
        resource_id = some o.account.id;
        ip = none;
        user_agent = none;
      }))
  pure o

-- publishResetCompleted: a failure is only logged.
pub publish_reset_completed : ResetUser → Action (Unit {0})
publish_reset_completed o w =
    (ok tt, (publish (reset_completed_event o.account.id o.unlocked_now) w).1)

-- Confirm after the precheck.
pub confirm_usable : Service → Bytes → Bytes → Action (Unit {0})
confirm_usable s token_hash new_password = elim (s.ext.hash new_password) [
  | none ↦ fail bad_hash
  | some hash ↦ (do o ← transaction (consume_reset token_hash hash); publish_reset_completed o)
]

-- Confirm of a request that decodes.
pub confirm_decoded : Service → Bytes → Bytes → Action (Unit {0})
confirm_decoded s raw new_password = do
  usable ← autocommit (password_reset_token_is_usable (s.ext.sha256 raw))
  if usable then confirm_usable s (s.ext.sha256 raw) new_password else fail token_invalid

-- Confirm
pub confirm : Service → Bytes → Bytes → Action (Unit {0})
confirm s token new_password = elim (decode_confirm_input s token new_password) [
  | err e ↦ fail e
  | ok raw ↦ confirm_decoded s raw new_password
]
