-- ===== src/Logout/Trail.antt =====
-- logout.go: Logout and the table refresh_tokens.
use identity_hub.Base.{Bytes, is_empty, refl, ℕ}
use identity_hub.World.{External, invalid_refresh_token, statement}
use identity_hub.Sql.Sessions.{revoke_hub_sessions_for_user}
use identity_hub.Trace.Moves.{
  Moves, audit-Moves, bind-Moves, fail-Moves, if-Moves, map_error-Moves, option-Moves, quiet-Moves,
  statement-Moves, transaction-Moves,
}
use identity_hub.Trace.Statements.{revoke_refresh_token-Steps}
use identity_hub.Logout.{Input, logout, revoke_presented}

hub-Moves : (user_id : ℕ) → Moves (statement (revoke_hub_sessions_for_user user_id))
unfolding revoke_hub_sessions_for_user
hub-Moves user_id = quiet-Moves (revoke_hub_sessions_for_user user_id) (λ at t. refl)

revoke_presented-Moves : (hash : Bytes) (input : Input) → Moves (revoke_presented hash input)
unfolding revoke_presented
revoke_presented-Moves hash input =
    bind-Moves (map_error-Moves _ (statement-Moves _ (revoke_refresh_token-Steps hash)))
      λ user_id. bind-Moves (hub-Moves user_id) λ _. audit-Moves _

pub logout-Moves : (ext : External) (input : Input) → Moves (logout ext input)
unfolding logout
logout-Moves ext input =
    if-Moves (is_empty input.refresh_token) (fail-Moves invalid_refresh_token) (
      option-Moves (ext.decode input.refresh_token) (fail-Moves invalid_refresh_token)
        λ raw. transaction-Moves (revoke_presented-Moves (ext.sha256 raw) input))
