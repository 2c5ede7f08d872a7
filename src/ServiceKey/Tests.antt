-- ===== src/ServiceKey/Tests.antt =====
-- servicekey.go: a key of an audit reader, its use and its revocation.
use identity_hub.Sql.Keys.{
  get_service_key_by_public_id, get_service_key_for_update, insert_service_key, is_public_id,
  revoke_service_key, touch_service_key_last_used,
}
use identity_hub.Base.{
  Bytes, [], arith, bytes_eq, codes, find, length, minute, none, refl, some, suc, true, zero, ℕ,
  ◌*◌, ◌+◌, ◌∷◌, ◌≡◌, ◌≢◌,
}
use identity_hub.World.{ServiceKeyRow, World, calm, ok, transaction, ◌>>=◌}
use identity_hub.Sql.Audit.{insert_audit_event}
use identity_hub.ServiceKey.{
  CreateInput, Created, Principal, RequestMeta, Service, audit_log_read, authenticate, best_effort,
  check_key, create, create_key, full_key, normalize_scopes, parse, revoke, revoke_locked,
  secret_length, store_key, use_key,
}
use identity_hub.ServiceKey.Format.{parse-full_key, parse_sound}
use identity_hub.ServiceKey.Authentic.{Authentic, unknown_key_writes_nothing}
use identity_hub.ServiceKey.Lifecycle.{created_key_works, revoked_for_good}
use identity_hub.Fixtures.{env, ext, tables, world}

abbrev repeat : ℕ → ℕ → Bytes
repeat c zero = []
repeat c (suc n) = c ∷ repeat c n

-- A hash of 32 bytes, an id of 16 and a secret of 43, as the real functions give them.
abbrev service : Service
service = record {
  ext = record ext {
    sha256 = λ b. repeat (length b) 32;
    hex = λ b. repeat 97 16;
    encode = λ b. repeat 65 43;
  };
  trim = λ b. b;
  rune_count = λ b. length b;
}

abbrev public_id : Bytes
public_id = repeat 97 16

abbrev secret : Bytes
secret = repeat 65 43

abbrev meta : RequestMeta
meta = record { ip = none; user_agent = none }

abbrev input : CreateInput
input = record {
  actor_user_id = 1;
  name = codes "reader";
  scopes = audit_log_read ∷ [];
  expires_in_days = 30;
  ip = none;
  user_agent = none;
}

abbrev row : ServiceKeyRow
row = record {
  id = 204;
  public_id = public_id;
  secret_hash = repeat 43 32;
  name = codes "reader";
  scopes = audit_log_read ∷ [];
  created_by = some 1;
  created_at = 1000 * minute + 3;
  expires_at = 44200 * minute + 2;
  last_used_at = none;
  revoked_at = none;
}

abbrev start : World
start = world tables

abbrev made : World
made = (create service input start).1

abbrev created : Created
created = record { key = row; full_key = full_key public_id secret }

abbrev principal : Principal
principal = record { key_id = 204; public_id = public_id; scopes = audit_log_read ∷ [] }

creates : create service input start ≡ (ok created, made)
unfolding create create_key normalize_scopes ◌>>=◌ transaction store_key insert_service_key
    insert_audit_event
creates = refl

abbrev after_use : World
after_use = (authenticate service (full_key public_id secret) audit_log_read meta made).1

created_key_works_example :
    (authenticate service created.full_key audit_log_read meta (calm env made)).0 ≡ ok principal
unfolding create normalize_scopes create_key ◌>>=◌ transaction store_key insert_service_key
    insert_audit_event
created_key_works_example =
    created_key_works service input meta audit_log_read env start made made created refl creates
      refl refl (omega arith)

parse-full_key_example : parse (full_key public_id secret) ≡ some (public_id, secret)
parse-full_key_example = parse-full_key public_id secret refl refl

parses : parse (full_key public_id secret) ≡ some (public_id, secret)
unfolding parse
parses = refl

parse_sound_example :
    (full_key public_id secret ≡ full_key public_id secret)
    × (is_public_id public_id ≡ true)
    × (length secret ≡ secret_length)
parse_sound_example = parse_sound (full_key public_id secret) public_id secret parses

none_stored :
    (i s : Bytes)
    → parse (full_key public_id secret) ≡ some (i, s)
    → find (λ q. bytes_eq q.public_id i) start.tables.service_keys ≡ none
none_stored i s h = refl

unknown_key_writes_nothing_example :
    ((authenticate service (full_key public_id secret) audit_log_read meta start).1.tables ≡ tables)
    × ((p : Principal)
        → (authenticate service (full_key public_id secret) audit_log_read meta start).0 ≢ ok p)
unknown_key_writes_nothing_example =
    unknown_key_writes_nothing service (full_key public_id secret) audit_log_read meta start
      none_stored

-- Two keys; the first is revoked, and the second is used afterwards.
abbrev other : ServiceKeyRow
other = record row { id = 9; public_id = repeat 98 16 }

abbrev two : World
two = world (record tables { service_keys = row ∷ other ∷ [] })

abbrev after_revoke : World
after_revoke = (revoke 204 1 meta two).1

revokes : revoke 204 1 meta two ≡ (ok tt, after_revoke)
unfolding revoke revoke_locked ◌>>=◌ transaction get_service_key_for_update revoke_service_key
    insert_audit_event
revokes = refl

abbrev other_principal : Principal
other_principal = record { key_id = 9; public_id = repeat 98 16; scopes = audit_log_read ∷ [] }

abbrev after_other : World
after_other =
    (authenticate service (full_key (repeat 98 16) secret) audit_log_read meta after_revoke).1

other_accepted :
    authenticate service (full_key (repeat 98 16) secret) audit_log_read meta after_revoke
    ≡ (ok other_principal, after_other)
unfolding authenticate parse check_key use_key best_effort ◌>>=◌ transaction revoke revoke_locked
    get_service_key_by_public_id get_service_key_for_update revoke_service_key
    touch_service_key_last_used insert_audit_event
other_accepted = refl

revoked_for_good_example : other_principal.key_id ≢ 204
revoked_for_good_example =
    revoked_for_good service 204 1 meta meta (full_key (repeat 98 16) secret) audit_log_read two
      after_revoke after_revoke after_other tt other_principal (omega arith) revokes refl
      other_accepted
