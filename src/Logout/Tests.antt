-- ===== src/Logout/Tests.antt =====
-- logout.go: a token of the fixtures is logged out.
use identity_hub.Base.{[], arith, minute, none, refl, some, true, ◌*◌, ◌∷◌, ◌≡◌, ◌≢◌}
use identity_hub.World.{RefreshRow, World, fresh, ok, transaction, ◌>>=◌}
use identity_hub.Sql.Audit.{insert_audit_event}
use identity_hub.Sql.Sessions.{revoke_hub_sessions_for_user, revoke_refresh_token}
use identity_hub.Logout.{Input, logout, revoke_presented}
use identity_hub.Logout.Ends.{logout_ends_refresh}
use identity_hub.Refresh
use identity_hub.Fixtures.{ext, tables, tokens, world}

abbrev service : Refresh.Service
service = record { ext = ext; tokens = some tokens; publisher = true; refresh_ttl = 60 * minute }

abbrev row : RefreshRow
row = record {
  id = 10;
  user_id = 1;
  token_hash = 1 ∷ 5 ∷ [];
  family_id = 9;
  parent_id = none;
  status = fresh;
  ip = none;
  user_agent = none;
  expires_at = 2000 * minute;
  created_at = 0;
  last_used_at = none;
}

abbrev start : World
start = world (record tables { refresh_tokens = row ∷ [] })

abbrev leaving : Input
leaving = record { refresh_token = 5 ∷ []; ip = none; user_agent = none }

abbrev again : Refresh.Input
again = record { refresh_token = 5 ∷ []; ip = none; user_agent = none }

abbrev session : Refresh.Session
session = record { access_token = 1 ∷ []; refresh_token = 7000 ∷ []; expires_in = 900 }

abbrev after : World
after = (logout ext leaving start).1

leaves : logout ext leaving start ≡ (ok tt, after)
unfolding logout ◌>>=◌ transaction revoke_presented revoke_refresh_token
    revoke_hub_sessions_for_user insert_audit_event
leaves = refl

abbrev back : World
back = record start { tables = after.tables; tick = 9 }

logout_ends_refresh_example : Refresh.refresh service again back ≢ (ok session, back)
logout_ends_refresh_example =
    logout_ends_refresh service leaving again (5 ∷ []) start after back back tt session refl refl
      refl (omega arith) leaves
