-- ===== src/ServiceKey.antt =====
-- backend/internal/auth/servicekey/servicekey.go: keys of machine clients, over the repository of
-- backend/internal/store/service_keys.go.
pub mod Format
pub mod Authentic
pub mod Lifecycle
mod Tests
use identity_hub.Base.{
  Bool, Bytes, List, Option, [], bytes_eq, codes, cut_prefix, elem, if◌then◌else◌, is_empty,
  is_some, leb, length, ltb, minute, none, not, some, ℕ, ◌&&◌, ◌*◌, ◌++◌, ◌+◌, ◌==◌, ◌||◌, ◌∷◌,
}
use identity_hub.World.{
  Action, AuditAction, Error, External, Result, ServiceKeyRow, World, autocommit, done, err, fail,
  insufficient_scope, invalid_input, key_not_found, key_unauthenticated, map_error, no_rows,
  no_rows_as, now, ok, pure, read_random, service_key_created, service_key_rejected,
  service_key_revoked, statement, statement_with_id, transaction, ◌>>=◌, ◌>>◌,
}
use identity_hub.Sql.Audit.{AuditEvent, insert_audit_event}
use identity_hub.Sql.Keys.{
  NewKey, get_service_key_by_public_id, get_service_key_for_update, insert_service_key,
  is_public_id, revoke_service_key, touch_service_key_last_used,
}

-- ScopeAuditLogRead
abbrev pub audit_log_read : Bytes
audit_log_read = codes "audit-log:read"

-- KeyPrefix
abbrev pub key_prefix : Bytes
key_prefix = codes "ihk_"

-- base64.RawURLEncoding.EncodedLen(secretBytes)
abbrev pub secret_length : ℕ
secret_length = 43

-- `trim` and `rune_count` are strings.TrimSpace and utf8.RuneCountInString. The repository is there.
pub record Service : Type 0 where
  pub ext : External
  pub trim : Bytes → Bytes
  pub rune_count : Bytes → ℕ

pub record CreateInput : Type 0 where
  pub actor_user_id : ℕ
  pub name : Bytes
  pub scopes : List Bytes
  pub expires_in_days : ℕ
  pub ip : Option ℕ
  pub user_agent : Option Bytes

pub record Created : Type 0 where
  pub key : ServiceKeyRow
  pub full_key : Bytes

pub record RequestMeta : Type 0 where
  pub ip : Option ℕ
  pub user_agent : Option Bytes

pub record Principal : Type 0 where
  pub key_id : ℕ
  pub public_id : Bytes
  pub scopes : List Bytes

abbrev pub map_option : {A B : Type 0} → (A → B) → Option A → Option B
map_option f none = none
map_option f (some a) = some (f a)

-- strings.Cut by a character.
abbrev pub cut : ℕ → Bytes → Option (Bytes × Bytes)
cut c [] = none
cut c (x ∷ xs) = if x == c then some ([], xs) else map_option (λ p. (x ∷ p.0, p.1)) (cut c xs)

-- The last checks of parse: hex.DecodeString accepts the id, and it is in lower case.
abbrev pub check_parts : Option (Bytes × Bytes) → Option (Bytes × Bytes)
check_parts none = none
check_parts (some (public_id, secret)) =
    if is_public_id public_id && length secret == secret_length
    then some (public_id, secret)
    else none

abbrev pub parse_rest : Option Bytes → Option (Bytes × Bytes)
parse_rest none = none
parse_rest (some rest) = if ltb 81 (length rest) then none else check_parts (cut b'_' rest)

-- parse
pub parse : Bytes → Option (Bytes × Bytes)
parse raw = parse_rest (cut_prefix key_prefix raw)

-- The key that Create returns.
abbrev pub full_key : Bytes → Bytes → Bytes
full_key public_id secret = key_prefix ++ (public_id ++ b'_' ∷ secret)

-- The loop of normalizeScopes.
abbrev pub normalize_from : List Bytes → List Bytes → Option (List Bytes)
normalize_from result [] = some result
normalize_from result (s ∷ ss) =
    if bytes_eq s audit_log_read
    then normalize_from (if elem s result then result else result ++ s ∷ []) ss
    else none

-- normalizeScopes
pub normalize_scopes : List Bytes → Option (List Bytes)
normalize_scopes [] = none
normalize_scopes (s ∷ ss) = normalize_from [] (s ∷ ss)

-- insertServiceKeyAudit, for an event with a key. Of the metadata, only the reason is kept.
abbrev pub key_audit : Option ℕ → AuditAction → ℕ → Option Bytes → RequestMeta → AuditEvent
key_audit actor action key_id reason meta = record {
  actor = actor;
  action = action;
  reason = reason;
  resource_id = some key_id;
  ip = meta.ip;
  user_agent = meta.user_agent;
}

-- The transaction of the repository's Create.
pub store_key : NewKey → RequestMeta → Action ServiceKeyRow
store_key new meta = do
  row ← statement_with_id (insert_service_key new)
  statement
      (insert_audit_event (key_audit (some new.created_by) service_key_created row.id none meta))
  pure row

-- 24 * time.Hour
abbrev pub day : ℕ
day = 1440 * minute

-- Create of a request that is in order. generate reads the id and the secret.
pub create_key : Service → CreateInput → Bytes → List Bytes → Action Created
create_key s input name scopes = do
  id ← read_random
  raw ← read_random
  at ← now
  row ← transaction (
      store_key
        (record {
          public_id = s.ext.hex id;
          secret_hash = s.ext.sha256 (s.ext.encode raw);
          name = name;
          scopes = scopes;
          created_by = input.actor_user_id;
          expires_at = at + input.expires_in_days * day;
        })
        (record { ip = input.ip; user_agent = input.user_agent }))
  pure (record { key = row; full_key = full_key (s.ext.hex id) (s.ext.encode raw) })

abbrev pub is_name : Service → Bytes → Bool
is_name s name = not (is_empty name) && leb (s.rune_count name) 100

-- Create; a number of days that is negative in Go is refused just as 0 is.
pub create : Service → CreateInput → Action Created
create s input =
    if not (is_name s (s.trim input.name))
    then fail invalid_input
    else elim (normalize_scopes input.scopes) [
      | none ↦ fail invalid_input
      | some scopes ↦
          if ltb input.expires_in_days 1 || ltb 365 input.expires_in_days
          then fail invalid_input
          else create_key s input (s.trim input.name) scopes
    ]

-- Revoke, with the repository's: a key that is revoked already is left alone.
pub revoke_locked : ℕ → ℕ → RequestMeta → Action (Unit {0})
revoke_locked id actor meta = do
  row ← map_error (no_rows_as key_not_found) (statement (get_service_key_for_update id))
  if is_some row.revoked_at then done else do
    statement (revoke_service_key id)
    statement (insert_audit_event (key_audit (some actor) service_key_revoked id none meta))

pub revoke : ℕ → ℕ → RequestMeta → Action (Unit {0})
revoke id actor meta = transaction (revoke_locked id actor meta)

-- An action whose failure is only logged.
unfoldable pub best_effort : Action (Unit {0}) → Action (Unit {0})
best_effort m w = (ok tt, (m w).1)

-- auditRejection, for a rejection that is tied to a key; the others are only logged.
pub audit_rejection : ℕ → Bytes → RequestMeta → Action (Unit {0})
audit_rejection key_id reason meta = best_effort (
    autocommit (insert_audit_event (key_audit none service_key_rejected key_id (some reason) meta)))

abbrev pub reject : ℕ → Bytes → RequestMeta → Error → Action Principal
reject key_id reason meta e = audit_rejection key_id reason meta >> fail e

-- The hash to compare with: a stored one of another length than SHA-256's is replaced.
abbrev pub stored_hash : Service → ServiceKeyRow → Bytes
stored_hash s row =
    if length row.secret_hash == 32
    then row.secret_hash
    else s.ext.sha256 (codes "service-key-decoy")

-- The end of Authenticate, for a key that is neither revoked nor refuted.
pub use_key : ServiceKeyRow → Bytes → RequestMeta → Action Principal
use_key row required meta = do
  at ← now
  if not (ltb at row.expires_at)
      then reject row.id (codes "expired") meta key_unauthenticated
      else if not (elem required row.scopes)
      then reject row.id (codes "insufficient_scope") meta insufficient_scope
      else do
        used_at ← now
        best_effort (autocommit (touch_service_key_last_used row.id used_at))
        pure (record { key_id = row.id; public_id = row.public_id; scopes = row.scopes })

-- The switch of Authenticate, for a key that was found.
pub check_key : Service → ServiceKeyRow → Bytes → Bytes → RequestMeta → Action Principal
check_key s row secret required meta =
    if not (bytes_eq (s.ext.sha256 secret) (stored_hash s row))
    then reject row.id (codes "bad_secret") meta key_unauthenticated
    else if is_some row.revoked_at
    then reject row.id (codes "revoked") meta key_unauthenticated
    else use_key row required meta

abbrev pub after_load :
    Service → Bytes → Bytes → RequestMeta → Result ServiceKeyRow × World → Result Principal × World
after_load s secret required meta (ok row, w) = check_key s row secret required meta w
after_load s secret required meta (err no_rows, w) = (err key_unauthenticated, w)
after_load s secret required meta (err e, w) = (err e, w)

-- Authenticate
pub authenticate : Service → Bytes → Bytes → RequestMeta → Action Principal
authenticate s raw_key required meta = elim (parse raw_key) [
  | none ↦ fail key_unauthenticated
  | some (public_id, secret) ↦
      λ w. after_load s secret required meta (autocommit (get_service_key_by_public_id public_id) w)
]
