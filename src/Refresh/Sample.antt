-- ===== src/Refresh/Sample.antt =====
-- refresh.go: one rotation, for the tests.
use identity_hub.Base.{[], minute, none, refl, some, true, ◌*◌, ◌∷◌, ◌≡◌}
use identity_hub.World.{RefreshRow, World, fresh, ok, transaction, ◌>>=◌}
use identity_hub.Refresh.{
  Input, Service, Session, finish_after_commit, handle_reuse, issue_rotated_session, refresh,
  rotate_within_transaction,
}
use identity_hub.Sql.Sessions.{rotate_refresh_token}
use identity_hub.Sql.Users.{list_roles_for_user}
use identity_hub.Roles.{directory}
use identity_hub.Token
use identity_hub.Fixtures.{ext, tables, tokens, world}

abbrev pub sample_tokens : Token.Service
sample_tokens = tokens

abbrev pub service : Service
service = record { ext = ext; tokens = some tokens; publisher = true; refresh_ttl = 60 * minute }

abbrev pub input : Input
input = record { refresh_token = 5 ∷ []; ip = none; user_agent = none }

abbrev pub row : RefreshRow
row = record {
  id = 10;
  user_id = 1;
  token_hash = 1 ∷ 5 ∷ [];
  family_id = 9;
  parent_id = none;
  status = fresh;
  ip = none;
  user_agent = none;
  expires_at = 2000 * minute;
  created_at = 0;
  last_used_at = none;
}

abbrev pub start : World
start = world (record tables { refresh_tokens = row ∷ [] })

abbrev pub session : Session
session = record { access_token = 1 ∷ []; refresh_token = 7000 ∷ []; expires_in = 900 }

abbrev pub rotated_world : World
rotated_world = (refresh service input start).1

pub rotates : refresh service input start ≡ (ok session, rotated_world)
unfolding refresh ◌>>=◌ transaction rotate_within_transaction issue_rotated_session handle_reuse
    finish_after_commit rotate_refresh_token list_roles_for_user directory Token.issue_for_session
    Token.or_fail
rotates = refl
