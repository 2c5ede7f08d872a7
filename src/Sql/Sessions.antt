-- ===== src/Sql/Sessions.antt =====
-- users.sql.go: refresh-token families and the Hub sessions bound to them.
use identity_hub.Base.{
  Bool, Bytes, List, Option, bytes_eq, count_where, eq_some, exists_where, false, find,
  if◌then◌else◌, is_some, ltb, none, not, some, true, update_where, ℕ, ◌&&◌, ◌==◌, ◌||◌, ◌∷◌,
}
use identity_hub.World.{
  HubSession, Query, RefreshRow, RefreshStatus, Result, User, err, fresh, no_rows, ok, revoked,
  rotated, storage,
}
use identity_hub.Sql.Users.{is_active_user}

abbrev pub is_fresh : RefreshStatus → Bool
is_fresh fresh = true
is_fresh rotated = false
is_fresh revoked = false

abbrev pub is_revoked : RefreshStatus → Bool
is_revoked revoked = true
is_revoked fresh = false
is_revoked rotated = false

-- The constraints of db/migrations/000001_initial_schema.up.sql that an INSERT of a fresh token meets:
-- UNIQUE (token_hash), and the partial index refresh_tokens_one_active_per_family. A violation is an
-- error of the statement.
abbrev pub violates : RefreshRow → List RefreshRow → Bool
violates new rows =
    exists_where (λ r. bytes_eq r.token_hash new.token_hash) rows
    || exists_where (λ r. r.family_id == new.family_id && is_fresh r.status) rows

abbrev pub insert_fresh : RefreshRow → List RefreshRow → Result (List RefreshRow)
insert_fresh new rows = if violates new rows then err storage else ok (new ∷ rows)

pub record NewToken : Type 0 where
  pub token_hash : Bytes
  pub ip : Option ℕ
  pub user_agent : Option Bytes
  pub expires_at : ℕ

-- CreateRefreshToken: the first token of a family.
unfoldable pub create_refresh_token : ℕ → ℕ → NewToken → ℕ → Query (Unit {0})
create_refresh_token user_id family_id new id at t = elim (insert_fresh row t.refresh_tokens) [
  | ok rows ↦ (ok tt, record t { refresh_tokens = rows })
  | err e ↦ (err e, t)
]
  where
    row : RefreshRow
    row = record {
      id = id;
      user_id = user_id;
      token_hash = new.token_hash;
      family_id = family_id;
      parent_id = none;
      status = fresh;
      ip = new.ip;
      user_agent = new.user_agent;
      expires_at = new.expires_at;
      created_at = at;
      last_used_at = none;
    }

-- RotateRefreshTokenRow
pub record Rotated : Type 0 where
  pub user_id : ℕ
  pub family_id : ℕ
  pub parent_id : ℕ
  pub status : RefreshStatus
  pub rotated_now : Bool

-- The row that the CTE `created` inserts.
abbrev pub successor : ℕ → RefreshRow → NewToken → ℕ → RefreshRow
successor id c new at = record {
  id = id;
  user_id = c.user_id;
  token_hash = new.token_hash;
  family_id = c.family_id;
  parent_id = some c.id;
  status = fresh;
  ip = new.ip;
  user_agent = new.user_agent;
  expires_at = new.expires_at;
  created_at = at;
  last_used_at = none;
}

abbrev pub mark_rotated : ℕ → RefreshRow → RefreshRow
mark_rotated at r = record r { status = rotated; last_used_at = some at }

abbrev pub rotated_row : RefreshRow → Bool → Rotated
rotated_row c b = record {
  user_id = c.user_id;
  family_id = c.family_id;
  parent_id = c.id;
  status = c.status;
  rotated_now = b;
}

-- The CTEs `rotated` and `created`, for the row of the CTE `candidate`.
abbrev pub rotate_candidate : RefreshRow → NewToken → ℕ → Query Rotated
rotate_candidate c new id at t =
    if is_fresh c.status && ltb at c.expires_at
    then elim (insert_fresh (successor id c new at)
        (update_where (λ r. r.id == c.id) (mark_rotated at) t.refresh_tokens)) [
          | ok rows ↦ (ok (rotated_row c true), record t { refresh_tokens = rows })
          | err e ↦ (err e, t)
        ]
    else (ok (rotated_row c false), t)

abbrev pub is_candidate : Bytes → List User → RefreshRow → Bool
is_candidate hash us r = bytes_eq r.token_hash hash && is_active_user r.user_id us

-- RotateRefreshToken
unfoldable pub rotate_refresh_token : Bytes → NewToken → ℕ → Query Rotated
rotate_refresh_token hash new id at t = elim (find (is_candidate hash t.users) t.refresh_tokens) [
  | none ↦ (err no_rows, t)
  | some c ↦ rotate_candidate c new id at t
]

abbrev pub revoke : RefreshRow → RefreshRow
revoke r = record r { status = revoked }

abbrev pub revoke_hub : ℕ → HubSession → HubSession
revoke_hub at h = record h { revoked_at = some at }

-- UPDATE hub_sessions … WHERE family_id = $1 AND revoked_at IS NULL
abbrev pub revoke_hub_of_family : ℕ → ℕ → List HubSession → List HubSession
revoke_hub_of_family family at hs =
    update_where (λ h. eq_some h.family_id family && not (is_some h.revoked_at)) (revoke_hub at) hs

abbrev pub in_family : ℕ → RefreshRow → Bool
in_family family r = r.family_id == family && not (is_revoked r.status)

-- RevokeRefreshFamily
unfoldable pub revoke_refresh_family : ℕ → Query ℕ
revoke_refresh_family family at t = (
  ok (count_where (in_family family) t.refresh_tokens),
  record t {
    refresh_tokens = update_where (in_family family) revoke t.refresh_tokens;
    hub_sessions =
        if exists_where (in_family family) t.refresh_tokens
        then revoke_hub_of_family family at t.hub_sessions
        else t.hub_sessions;
  },
)

abbrev pub is_open_session : ℕ → ℕ → ℕ → RefreshRow → Bool
is_open_session user_id family at r =
    r.user_id == user_id && r.family_id == family && is_fresh r.status && ltb at r.expires_at

-- RevokeActiveRefreshSession
unfoldable pub revoke_active_refresh_session : ℕ → ℕ → Query Bool
revoke_active_refresh_session user_id family at t =
    let hit = exists_where (is_open_session user_id family at) t.refresh_tokens in
    (
      ok hit,
      record t {
        refresh_tokens = update_where (is_open_session user_id family at) revoke t.refresh_tokens;
        hub_sessions =
            if hit then revoke_hub_of_family family at t.hub_sessions else t.hub_sessions;
      },
    )

abbrev pub is_usable : Bytes → ℕ → RefreshRow → Bool
is_usable hash at r = bytes_eq r.token_hash hash && is_fresh r.status && ltb at r.expires_at

-- RevokeRefreshToken
unfoldable pub revoke_refresh_token : Bytes → Query ℕ
revoke_refresh_token hash at t = elim (find (is_usable hash at) t.refresh_tokens) [
  | none ↦ (err no_rows, t)
  | some r ↦ (
    ok r.user_id,
    record t {
      refresh_tokens =
          update_where (is_usable hash at)
            (λ q. record q { status = revoked; last_used_at = some at }) t.refresh_tokens;
    },
  )
]

-- CreateHubSession
unfoldable pub create_hub_session : HubSession → Query (Unit {0})
create_hub_session h at t =
    if exists_where (λ g. bytes_eq g.token_hash h.token_hash) t.hub_sessions
    then (err storage, t)
    else (ok tt, record t { hub_sessions = h ∷ t.hub_sessions })

-- RevokeHubSessionsForUser
unfoldable pub revoke_hub_sessions_for_user : ℕ → Query (Unit {0})
revoke_hub_sessions_for_user user_id at t = (
  ok tt,
  record t {
    hub_sessions =
        update_where (λ h. h.user_id == user_id && not (is_some h.revoked_at)) (revoke_hub at)
          t.hub_sessions;
  },
)

abbrev pub is_live : Bytes → ℕ → List User → HubSession → Bool
is_live hash at us h =
    bytes_eq h.token_hash hash
    && not (is_some h.revoked_at)
    && ltb at h.expires_at
    && is_active_user h.user_id us

-- GetHubSessionUser
unfoldable pub get_hub_session_user : Bytes → Query ℕ
get_hub_session_user hash at t = elim (find (is_live hash at t.users) t.hub_sessions) [
  | none ↦ (err no_rows, t)
  | some h ↦ (ok h.user_id, t)
]
