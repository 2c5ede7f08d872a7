-- ===== src/Sql/Keys.antt =====
-- service_keys.sql.go: the keys of machine clients.
use identity_hub.Base.{
  Bool, Bytes, List, Option, [], bytes_eq, count_where, exists_where, find, if◌then◌else◌, is_some,
  leb, length, ltb, minute, none, not, some, true, update_where, ℕ, ◌&&◌, ◌+◌, ◌==◌, ◌||◌, ◌∷◌,
}
use identity_hub.World.{Query, Result, ServiceKeyRow, err, no_rows, ok, storage}

-- '[0-9a-f]'
abbrev pub is_lower_hex : ℕ → Bool
is_lower_hex c = leb b'0' c && leb c b'9' || leb b'a' c && leb c b'f'

abbrev pub all_lower_hex : Bytes → Bool
all_lower_hex [] = true
all_lower_hex (c ∷ cs) = is_lower_hex c && all_lower_hex cs

-- CHECK (public_id ~ '^[0-9a-f]{16}$')
abbrev pub is_public_id : Bytes → Bool
is_public_id id = length id == 16 && all_lower_hex id

pub record NewKey : Type 0 where
  pub public_id : Bytes
  pub secret_hash : Bytes
  pub name : Bytes
  pub scopes : List Bytes
  pub created_by : ℕ
  pub expires_at : ℕ

abbrev pub key_row : NewKey → ℕ → ℕ → ServiceKeyRow
key_row new id at = record {
  id = id;
  public_id = new.public_id;
  secret_hash = new.secret_hash;
  name = new.name;
  scopes = new.scopes;
  created_by = some new.created_by;
  created_at = at;
  expires_at = new.expires_at;
  last_used_at = none;
  revoked_at = none;
}

abbrev pub is_storable : NewKey → ℕ → Bool
is_storable new at =
    is_public_id new.public_id
    && length new.secret_hash == 32
    && ltb 0 (length new.scopes)
    && ltb at new.expires_at

-- InsertServiceKey, with the table's constraints, but for the length of the name in characters, and
-- with public_id unique.
unfoldable pub insert_service_key : NewKey → ℕ → Query ServiceKeyRow
insert_service_key new id at t =
    if not (is_storable new at)
      || exists_where (λ k. bytes_eq k.public_id new.public_id) t.service_keys
    then (err storage, t)
    else (ok (key_row new id at), record t { service_keys = key_row new id at ∷ t.service_keys })

abbrev pub or_no_rows : {A : Type 0} → Option A → Result A
or_no_rows none = err no_rows
or_no_rows (some a) = ok a

-- GetServiceKeyByPublicID
unfoldable pub get_service_key_by_public_id : Bytes → Query ServiceKeyRow
get_service_key_by_public_id public_id at t =
    (or_no_rows (find (λ k. bytes_eq k.public_id public_id) t.service_keys), t)

-- GetServiceKeyForUpdate
unfoldable pub get_service_key_for_update : ℕ → Query ServiceKeyRow
get_service_key_for_update id at t = (or_no_rows (find (λ k. k.id == id) t.service_keys), t)

abbrev pub is_live_key : ℕ → ServiceKeyRow → Bool
is_live_key id k = k.id == id && not (is_some k.revoked_at)

abbrev pub revoke_key : ℕ → ServiceKeyRow → ServiceKeyRow
revoke_key at k = record k { revoked_at = some at }

-- RevokeServiceKey: the number of rows.
unfoldable pub revoke_service_key : ℕ → Query ℕ
revoke_service_key id at t = (
  ok (count_where (is_live_key id) t.service_keys),
  record t { service_keys = update_where (is_live_key id) (revoke_key at) t.service_keys },
)

-- last_used_at IS NULL OR last_used_at < used_at - interval '1 minute'
abbrev pub is_stale : ℕ → Option ℕ → Bool
is_stale used_at none = true
is_stale used_at (some last) = ltb (last + minute) used_at

abbrev pub touch_key : ℕ → ServiceKeyRow → ServiceKeyRow
touch_key used_at k = record k { last_used_at = some used_at }

-- TouchServiceKeyLastUsed
unfoldable pub touch_service_key_last_used : ℕ → ℕ → Query (Unit {0})
touch_service_key_last_used id used_at at t = (
  ok tt,
  record t {
    service_keys =
        update_where (λ k. k.id == id && is_stale used_at k.last_used_at) (touch_key used_at)
          t.service_keys;
  },
)
