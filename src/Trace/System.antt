-- ===== src/Trace/System.antt =====
-- The services together: any sequence of sign-ins, refreshes and ends of sessions, by any users, and
-- with any failures.
use identity_hub.Base.{Bytes, List, [], ap, some, ℕ, ◌∙◌, ◌∷◌, ◌≡◌, ◌≢◌}
use identity_hub.World.{External, World, ok}
use identity_hub.Mfa
use identity_hub.Mfa.Verify
use identity_hub.Mfa.Verify.Trail.{verify-Moves}
use identity_hub.Refresh
use identity_hub.Refresh.Trail.{refresh-Moves}
use identity_hub.Refresh.Once.{Spent-refresh, refresh-Spent}
use identity_hub.Logout
use identity_hub.Logout.Trail.{logout-Moves}
use identity_hub.Session.{revoke_session}
use identity_hub.Session.Trail.{revoke_session-Moves}
use identity_hub.PasswordReset
use identity_hub.PasswordReset.Trail.{confirm-Moves}
use identity_hub.Trace.Steps.{Steps, Steps-trans, WellFormed, stay}
use identity_hub.Trace.Moves.{refresh_rows}
use identity_hub.Trace.Preserved.{Steps-Spent, Steps-WellFormed}

-- A call of one of the services that write refresh tokens.
pub data Call : Type 0 where
  verify_call : Mfa.Service → Mfa.VerifyInput → Call
  refresh_call : Refresh.Service → Refresh.Input → Call
  logout_call : External → Logout.Input → Call
  revoke_call : ℕ → ℕ → Call
  reset_call : PasswordReset.Service → Bytes → Bytes → Call

-- The world after a call, whatever it returned.
unfoldable pub perform : Call → World → World
perform (verify_call s input) w = (Mfa.Verify.verify s input w).1
perform (refresh_call s input) w = (Refresh.refresh s input w).1
perform (logout_call ext input) w = (Logout.logout ext input w).1
perform (revoke_call user_id family_id) w = (revoke_session user_id family_id w).1
perform (reset_call s token password) w = (PasswordReset.confirm s token password w).1

unfoldable pub run : List Call → World → World
unfolding perform
run [] w = w
run (c ∷ cs) w = run cs (perform c w)

perform-Steps :
    (c : Call) (w : World) → Steps (refresh_rows w.tables) (refresh_rows (perform c w).tables)
unfolding perform
perform-Steps (verify_call s input) w = (verify-Moves s input).at w
perform-Steps (refresh_call s input) w = (refresh-Moves s input).at w
perform-Steps (logout_call ext input) w = (logout-Moves ext input).at w
perform-Steps (revoke_call user_id family_id) w = (revoke_session-Moves user_id family_id).at w
perform-Steps (reset_call s token password) w = (confirm-Moves s token password).at w

-- Whatever calls of Verify, Refresh, Logout, Revoke and a password reset's Confirm are made, and
-- whatever fails in them, the table of refresh tokens takes only the steps of its abstract machine: it
-- gets new tokens, with a hash that no token has and in a family without a fresh one, and rows of it
-- end.
pub run-Steps :
    (cs : List Call) (w : World) → Steps (refresh_rows w.tables) (refresh_rows (run cs w).tables)
unfolding run
run-Steps [] w = stay
run-Steps (c ∷ cs) w = Steps-trans (perform-Steps c w) (run-Steps cs (perform c w))

-- Whatever calls of Verify, Refresh, Logout, Revoke and a password reset's Confirm are made, and
-- whatever fails in them, two refresh tokens never come to have the same hash, and no family comes to
-- have two fresh ones, if that was so before.
pub run-WellFormed :
    (cs : List Call) (w : World)
    → WellFormed (refresh_rows w.tables)
    → WellFormed (refresh_rows (run cs w).tables)
run-WellFormed cs w h = Steps-WellFormed (run-Steps cs w) h

-- When a refresh token, which decodes, has bought a session, from a table in which no hash stands twice
-- and no family has two fresh tokens, then after any sequence of calls of Verify, Refresh, Logout,
-- Revoke and a password reset's Confirm, by anyone and with any failures, the same token buys no
-- session.
pub refresh_once :
    (s : Refresh.Service) (input again : Refresh.Input) (raw : Bytes) (cs : List Call)
    (w w' v' : World) (session other : Refresh.Session)
    → s.ext.decode input.refresh_token ≡ some raw
    → again.refresh_token ≡ input.refresh_token
    → WellFormed (refresh_rows w.tables)
    → Refresh.refresh s input w ≡ (ok session, w')
    → Refresh.refresh s again (run cs w') ≢ (ok other, v')
refresh_once s input again raw cs w w' v' session other d same fine h =
    Spent-refresh s again raw (run cs w') v' other (ap s.ext.decode same ∙ d) (
      Steps-Spent (s.ext.sha256 raw) (run-Steps cs w')
        (refresh-Spent s input raw w w' session d fine h))
