-- ===== src/Mfa.antt =====
-- backend/internal/auth/mfa/mfa.go: the second factor, a six-digit code sent by mail. This file holds
-- what the operations share: the configuration, the code and the request's validation.
pub mod Verify
pub mod Issue
pub mod Resend
pub mod Code
mod Tests
use identity_hub.Sql.Mfa.{Joined, get_mfa_challenge_for_update}
use identity_hub.Sql.Audit.{insert_audit_event}
use identity_hub.World.{
  Action, AuditAction, Event, External, Result, User, challenge_event, challenge_invalid,
  code_invalid, delivery_unavailable, err, map_error, no_rows_as, ok, publish, pure, read_random,
  statement, ◌>>=◌,
}
use identity_hub.Base.{
  Bool, Bytes, Option, [], if◌then◌else◌, leb, length, ltb, minute, none, some, suc, true, zero, ℕ,
  ◌%◌, ◌&&◌, ◌*◌, ◌+◌, ◌-◌, ◌/◌, ◌==◌, ◌^◌, ◌∷◌,
}
use identity_hub.Token
use identity_hub.Lockout

abbrev pub challenge_ttl : ℕ
challenge_ttl = 5 * minute

abbrev pub max_attempts : ℕ
max_attempts = 5

abbrev pub resend_interval : ℕ
resend_interval = minute

abbrev pub issuance_window : ℕ
issuance_window = 15 * minute

abbrev pub max_issuances_per_window : ℕ
max_issuances_per_window = 5

abbrev pub code_digits : ℕ
code_digits = 6

-- codeSpace
abbrev pub code_space : ℕ
code_space = 10 ^ code_digits

-- challengeExpiresIn, in seconds.
abbrev pub challenge_expires_in : ℕ
challenge_expires_in = 300

-- The repository, the publisher and the token service are wired.
pub record Service : Type 0 where
  pub ext : External
  pub tokens : Token.Service
  pub refresh_ttl : ℕ
  pub hub_session_ttl : ℕ
  pub lockout : Lockout.Config

pub record VerifyInput : Type 0 where
  pub token : Bytes
  pub code : Bytes
  pub ip : Option ℕ
  pub user_agent : Option Bytes

-- Result, whose TokenType is always "Bearer".
pub record Session : Type 0 where
  pub access_token : Bytes
  pub refresh_token : Bytes
  pub hub_session_token : Bytes
  pub expires_in : ℕ

-- The decimal digits of a number, put before the bytes that are written already.
pub write_decimal : ℕ → ℕ → Bytes → Bytes
write_decimal zero n written = written
write_decimal (suc fuel) n written =
    let rest = write_decimal fuel (n / 10) ((b'0' + n % 10) ∷ written) in
    if ltb n 10 then (b'0' + n) ∷ written else rest

abbrev pub zeros_before : ℕ → Bytes → Bytes
zeros_before zero written = written
zeros_before (suc k) written = b'0' ∷ zeros_before k written

-- `%0*d`: padded with zeros to the width, and as long as it is where it is longer.
abbrev pub pad_zeros : ℕ → Bytes → Bytes
pad_zeros width written = zeros_before (width - length written) written

-- An int64 has 19 decimal digits at most.
abbrev pub int64_digits : ℕ
int64_digits = 19

-- fmt.Sprintf("%0*d", codeDigits, n)
pub format_code : ℕ → Bytes
format_code n = pad_zeros code_digits (write_decimal int64_digits n [])

-- generateCode
abbrev pub generate_code : External → Action Bytes
generate_code ext = do raw ← read_random; pure (format_code (ext.rand_int code_space raw))

-- hashCode: keyed with the raw challenge token.
abbrev pub hash_code : External → Bytes → Bytes → Bytes
hash_code ext raw_token code = ext.hmac raw_token code

abbrev pub all_digits : Bytes → Bool
all_digits [] = true
all_digits (c ∷ cs) = leb b'0' c && leb c b'9' && all_digits cs

-- The checks on the code in decodeVerifyInput. A byte outside ASCII is no digit, nor is the character
-- that it is part of.
pub valid_code : Bytes → Bool
valid_code code = length code == code_digits && all_digits code

-- decodeVerifyInput
pub decode_verify_input : External → VerifyInput → Result Bytes
decode_verify_input ext input = elim (ext.decode input.token) [
  | none ↦ err challenge_invalid
  | some raw ↦ if valid_code input.code then ok raw else err code_invalid
]

-- An audit event of this package.
abbrev pub audit : ℕ → AuditAction → Option Bytes → Option ℕ → Option Bytes → Action (Unit {0})
audit user_id action reason ip user_agent = statement (
    insert_audit_event (record {
      actor = some user_id;
      action = action;
      reason = reason;
      resource_id = none;
      ip = ip;
      user_agent = user_agent;
    }))

-- challengeLookupError, with the writer's reading of pgx.ErrNoRows.
abbrev pub get_challenge : Bytes → Action Joined
get_challenge hash =
    map_error (no_rows_as challenge_invalid) (statement (get_mfa_challenge_for_update hash))

abbrev pub challenge_message : User → Bytes → ℕ → Event
challenge_message u code expires_at = challenge_event u.id u.email code expires_at

-- publishCode
abbrev pub publish_code : Event → Action (Unit {0})
publish_code event = map_error (λ _. delivery_unavailable) (publish event)
