-- ===== src/OAuth/Exchange.antt =====
-- oauth.go, Exchange: an authorization code for the user's roles and permissions.
pub mod Steps
pub mod Once
mod Tests
use identity_hub.Base.{
  Bool, Bytes, List, Option, bytes_eq, false, if◌then◌else◌, is_empty, none, not, some, ℕ, ◌&&◌,
  ◌==◌,
}
use identity_hub.World.{
  Action, External, Result, World, authorization_code_exchanged, authorization_code_reused,
  code_unusable, err, fail, no_rows, now, ok, pure, statement, transaction, ◌>>=◌, ◌>>◌,
}
use identity_hub.Sql.Audit.{insert_audit_event}
use identity_hub.Sql.Codes.{
  Locked, get_authorization_code_for_update, get_used_authorization_code_owner,
  list_application_roles_for_user, list_permission_keys, mark_authorization_code_used,
}
use identity_hub.OAuth.{Client, Service, audit_event, client_of}

pub record ExchangeInput : Type 0 where
  pub code : Bytes
  pub client_id : Bytes
  pub redirect_uri : Bytes
  pub code_verifier : Bytes

pub record ExchangeResult : Type 0 where
  pub user_id : ℕ
  pub client_id : Bytes
  pub roles : List Bytes
  pub permissions : List Bytes

-- What ExchangeAuthorizationCode of the writer tells apart, with the code's owner.
pub data Redemption : Type 0 where
  redeemed replayed : ℕ → Redemption
  unusable : Redemption

-- The row is the client's, and the verifier's challenge is the stored one.
abbrev pub is_bound : Bytes → Bytes → Bytes → Locked → Bool
is_bound client_id redirect_uri challenge l =
    bytes_eq l.client_id client_id
    && bytes_eq l.code.redirect_uri redirect_uri
    && bytes_eq challenge l.code.code_challenge

-- The end of ExchangeAuthorizationCode, on the locked row.
abbrev pub redeem : Bytes → Bytes → Bytes → ℕ → Locked → Action Redemption
redeem client_id redirect_uri challenge used_at l =
    if is_bound client_id redirect_uri challenge l
    then (do
      count ← statement (mark_authorization_code_used l.code.id used_at)
      if count == 1 then pure (redeemed l.code.user_id) else pure unusable)
    else pure unusable

-- The lookup of the owner of a code that is not usable.
abbrev pub tell_replay : Result ℕ × World → Result Redemption × World
tell_replay (ok owner, w) = (ok (replayed owner), w)
tell_replay (err no_rows, w) = (ok unusable, w)
tell_replay (err e, w) = (err e, w)

abbrev pub after_lock :
    Bytes → Bytes → Bytes → Bytes → ℕ → Result Locked × World → Result Redemption × World
after_lock hash client_id redirect_uri challenge used_at (ok l, w) =
    redeem client_id redirect_uri challenge used_at l w
after_lock hash client_id redirect_uri challenge used_at (err no_rows, w) =
    tell_replay (statement (get_used_authorization_code_owner hash) w)
after_lock hash client_id redirect_uri challenge used_at (err e, w) = (err e, w)

-- ExchangeAuthorizationCode of the writer.
pub exchange_authorization_code : Bytes → Bytes → Bytes → Bytes → ℕ → Action Redemption
exchange_authorization_code hash client_id redirect_uri challenge used_at w =
    after_lock hash client_id redirect_uri challenge used_at
      (statement (get_authorization_code_for_update hash used_at) w)

-- exchangeResult
pub exchange_result : ℕ → Bytes → Action (Option ExchangeResult)
exchange_result user_id client_id = do
  granted ← statement (list_application_roles_for_user user_id client_id)
  statement (insert_audit_event (audit_event user_id authorization_code_exchanged none))
  keys ← statement (list_permission_keys granted client_id)
  pure (
      some
        (record { user_id = user_id; client_id = client_id; roles = granted; permissions = keys }))

-- exchangeCode after the writer's call; `none` is the domain error.
pub settle : Bytes → Redemption → Action (Option ExchangeResult)
settle client_id (redeemed owner) = exchange_result owner client_id
settle client_id (replayed owner) =
    statement (insert_audit_event (audit_event owner authorization_code_reused none)) >> pure none
settle client_id unusable = pure none

-- pkceS256Challenge
abbrev pub pkce_s256_challenge : External → Bytes → Bytes
pkce_s256_challenge ext verifier = ext.encode (ext.sha256 verifier)

-- exchangeCode
pub exchange_code : Service → Bytes → ExchangeInput → ℕ → Action (Option ExchangeResult)
exchange_code s raw input at = do
  redemption ←
      exchange_authorization_code (s.ext.sha256 raw) input.client_id input.redirect_uri
        (pkce_s256_challenge s.ext input.code_verifier) at
  settle input.client_id redemption

abbrev pub has_redirect : Bytes → Option Client → Bool
has_redirect redirect_uri none = false
has_redirect redirect_uri (some c) = bytes_eq redirect_uri c.redirect_uri

-- validExchangeInput
pub valid_exchange_input : Service → ExchangeInput → Bool
valid_exchange_input s input =
    has_redirect input.redirect_uri (client_of s input.client_id)
    && not (is_empty input.code)
    && not (is_empty input.code_verifier)

-- The return of Exchange.
abbrev pub finish_exchange : Option ExchangeResult → Action ExchangeResult
finish_exchange none = fail code_unusable
finish_exchange (some result) = pure result

-- Exchange of a code that decodes.
abbrev pub exchange_decoded : Service → Bytes → ExchangeInput → Action ExchangeResult
exchange_decoded s raw input = do
  at ← now
  outcome ← transaction (exchange_code s raw input at)
  finish_exchange outcome

-- Exchange
pub exchange : Service → ExchangeInput → Action ExchangeResult
exchange s input =
    if not (valid_exchange_input s input)
    then fail code_unusable
    else elim (s.ext.decode input.code) [
      | none ↦ fail code_unusable
      | some raw ↦ exchange_decoded s raw input
    ]
