-- ===== src/Refresh/Trail.antt =====
-- refresh.go: Refresh and the table refresh_tokens.
use identity_hub.Base.{Bytes, is_empty, ◌==◌, ◌||◌}
use identity_hub.World.{External, fail, invalid_refresh_token, no_rows_as, refresh_reuse}
use identity_hub.Trace.Moves.{
  Keeps-Moves, Moves, audit-Moves, bind-Moves, fail-Moves, if-Moves, list_roles-Moves,
  map_error-Moves, now-Moves, option-Moves, publish-Moves, pure-Moves, read_random-Moves,
  statement-Moves, transaction-Moves, with_id-Moves,
}
use identity_hub.Trace.Statements.{revoke_refresh_family-Steps, rotate_refresh_token-Steps}
use identity_hub.Token
use identity_hub.Token.Reads.{issue_for_session-Keeps}
use identity_hub.Refresh.{
  Input, Outcome, Rotation, RotationStatus, Service, finish_after_commit, handle_reuse,
  hash_refresh_token, invalid, issue_rotated_session, issued, refresh, refresh_with, reuse, reused,
  rotate_within_transaction, rotation, succeeded,
}

issue_rotated_session-Moves :
    (s : Service) (ts : Token.Service) (r : Rotation) (raw : Bytes)
    → Moves (issue_rotated_session s ts r raw)
unfolding issue_rotated_session
issue_rotated_session-Moves s ts r raw =
    bind-Moves (list_roles-Moves r.user_id)
      λ names. bind-Moves (Keeps-Moves (issue_for_session-Keeps _ _ _ _)) λ access. pure-Moves _

handle_reuse-Moves : (r : Rotation) (input : Input) → Moves (handle_reuse r input)
unfolding handle_reuse
handle_reuse-Moves r input =
    bind-Moves (statement-Moves _ (revoke_refresh_family-Steps r.family_id))
      λ count. bind-Moves (audit-Moves _) λ _. pure-Moves _

dispatch-Moves :
    (s : Service) (ts : Token.Service) (r : Rotation) (input : Input) (raw : Bytes)
    (st : RotationStatus)
    → Moves (elim st [
      | succeeded ↦ issue_rotated_session s ts r raw
      | reused ↦ handle_reuse r input
      | invalid ↦ fail invalid_refresh_token
    ])
dispatch-Moves s ts r input raw succeeded = issue_rotated_session-Moves s ts r raw
dispatch-Moves s ts r input raw reused = handle_reuse-Moves r input
dispatch-Moves s ts r input raw invalid = fail-Moves invalid_refresh_token

hash-Moves : (ext : External) (raw : Bytes) → Moves (hash_refresh_token ext raw)
unfolding hash_refresh_token
hash-Moves ext raw =
    option-Moves (ext.decode raw) (fail-Moves invalid_refresh_token) λ b. pure-Moves _

rotate-Moves :
    (s : Service) (ts : Token.Service) (input : Input) (raw next_hash : Bytes)
    → Moves (rotate_within_transaction s ts input raw next_hash)
unfolding rotate_within_transaction
rotate-Moves s ts input raw next_hash =
    bind-Moves (hash-Moves s.ext input.refresh_token) λ presented. bind-Moves now-Moves λ at.
      bind-Moves
        (map_error-Moves (no_rows_as invalid_refresh_token)
          (with_id-Moves _ (rotate_refresh_token-Steps presented _)))
        λ row. dispatch-Moves s ts (rotation row) input raw (rotation row).status

finish-Moves : (s : Service) (o : Outcome) → Moves (finish_after_commit s o)
unfolding finish_after_commit
finish-Moves s (issued session) = pure-Moves session
finish-Moves s (reuse event) =
    if-Moves s.publisher
      (bind-Moves (map_error-Moves _ (publish-Moves event)) λ _. fail-Moves refresh_reuse)
      (fail-Moves refresh_reuse)

refresh_with-Moves :
    (s : Service) (ts : Token.Service) (input : Input) → Moves (refresh_with s ts input)
refresh_with-Moves s ts input = bind-Moves read_random-Moves λ raw.
    bind-Moves (transaction-Moves (rotate-Moves s ts input raw (s.ext.sha256 raw)))
      λ o. finish-Moves s o

pub refresh-Moves : (s : Service) (input : Input) → Moves (refresh s input)
unfolding refresh
refresh-Moves s input = option-Moves s.tokens (fail-Moves invalid_refresh_token) λ ts.
    if-Moves (s.refresh_ttl == 0 || is_empty input.refresh_token) (fail-Moves invalid_refresh_token)
      (refresh_with-Moves s ts input)
