-- ===== src/Session/Tests.antt =====
-- session.go: a user revokes the one session of the fixtures.
use identity_hub.Base.{List, [], exists_where, false, minute, none, select, ◌*◌, ◌∷◌, ◌≡◌}
use identity_hub.World.{RefreshRow, World, calm, fresh, ok}
use identity_hub.Sql.Sessions.{is_open_session}
use identity_hub.Session.{revoke_session}
use identity_hub.Session.Own.{elsewhere, of_others, revoke_session_lem}
use identity_hub.Fixtures.{env, tables, world}

abbrev row : RefreshRow
row = record {
  id = 10;
  user_id = 1;
  token_hash = 1 ∷ 5 ∷ [];
  family_id = 9;
  parent_id = none;
  status = fresh;
  ip = none;
  user_agent = none;
  expires_at = 2000 * minute;
  created_at = 0;
  last_used_at = none;
}

abbrev start : World
start = world (record tables { refresh_tokens = row ∷ [] })

abbrev after : List RefreshRow
after = (revoke_session 1 9 (calm env start)).1.tables.refresh_tokens

revoke_session_example :
    ((revoke_session 1 9 (calm env start)).0 ≡ ok tt)
    × (exists_where (is_open_session 1 9 (env.db_clock 0)) after ≡ false)
    × (select (of_others 1) after ≡ select (of_others 1) start.tables.refresh_tokens)
    × (select (elsewhere 1 9) after ≡ select (elsewhere 1 9) start.tables.refresh_tokens)
revoke_session_example = revoke_session_lem 1 9 start env
