-- ===== src/Session/Trail.antt =====
-- session.go: Revoke and the table refresh_tokens.
use identity_hub.Base.{ℕ}
use identity_hub.World.{session_not_found}
use identity_hub.Trace.Moves.{
  Moves, audit-Moves, bind-Moves, fail-Moves, if-Moves, statement-Moves, transaction-Moves,
}
use identity_hub.Trace.Statements.{revoke_active_refresh_session-Steps}
use identity_hub.Session.{revoke_session}

pub revoke_session-Moves : (user_id family_id : ℕ) → Moves (revoke_session user_id family_id)
unfolding revoke_session
revoke_session-Moves user_id family_id = transaction-Moves (
    bind-Moves (statement-Moves _ (revoke_active_refresh_session-Steps user_id family_id))
      λ hit. if-Moves hit (audit-Moves _) (fail-Moves session_not_found))
