-- ===== src/PasswordReset/Trail.antt =====
-- password_reset.go: Confirm and the table refresh_tokens.
use identity_hub.Base.{Bytes, refl}
use identity_hub.World.{autocommit, bad_hash, token_invalid, ◌>>=◌}
use identity_hub.Sql.Reset.{ResetUser, password_reset_token_is_usable}
use identity_hub.Trace.Moves.{
  Moves, audit-Moves, bind-Moves, fail-Moves, if-Moves, map_error-Moves, option-Moves,
  publish-Moves, pure-Moves, quiet-Moves, result-Moves, statement-Moves, transaction-Moves,
}
use identity_hub.Trace.Statements.{consume_password_reset_token-Steps}
use identity_hub.PasswordReset.{
  Service, confirm, confirm_decoded, confirm_usable, consume_reset, decode_confirm_input,
  publish_reset_completed,
}

consume_reset-Moves : (token_hash hash : Bytes) → Moves (consume_reset token_hash hash)
unfolding consume_reset
consume_reset-Moves token_hash hash =
    bind-Moves
      (map_error-Moves _ (statement-Moves _ (consume_password_reset_token-Steps token_hash hash)))
      λ o. bind-Moves (audit-Moves _) λ _. pure-Moves o

completed-Moves : (o : ResetUser) → Moves (publish_reset_completed o)
unfolding publish_reset_completed
completed-Moves o = record { at = λ w. (publish-Moves _).at w }

usable-Moves : (hash : Bytes) → Moves (autocommit (password_reset_token_is_usable hash))
unfolding password_reset_token_is_usable ◌>>=◌
usable-Moves hash = record {
  at = λ w.
      (quiet-Moves (password_reset_token_is_usable hash) (λ at t. refl)).at
        (record w { tx_now = w.env.db_clock w.tick });
}

confirm_usable-Moves :
    (s : Service) (token_hash new_password : Bytes)
    → Moves (confirm_usable s token_hash new_password)
unfolding confirm_usable
confirm_usable-Moves s token_hash new_password =
    option-Moves (s.ext.hash new_password) (fail-Moves bad_hash)
      λ hash. bind-Moves (transaction-Moves (consume_reset-Moves token_hash hash)) completed-Moves

confirm_decoded-Moves :
    (s : Service) (raw new_password : Bytes) → Moves (confirm_decoded s raw new_password)
unfolding confirm_decoded
confirm_decoded-Moves s raw new_password = bind-Moves (usable-Moves (s.ext.sha256 raw)) λ usable.
    if-Moves usable (confirm_usable-Moves s (s.ext.sha256 raw) new_password)
      (fail-Moves token_invalid)

pub confirm-Moves :
    (s : Service) (token new_password : Bytes) → Moves (confirm s token new_password)
unfolding confirm
confirm-Moves s token new_password =
    result-Moves (decode_confirm_input s token new_password) fail-Moves
      λ raw. confirm_decoded-Moves s raw new_password
