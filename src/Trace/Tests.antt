-- ===== src/Trace/Tests.antt =====
-- A refresh, a logout and a revocation; then the first token again.
use identity_hub.Base.{List, [], arith, none, refl, ◌∷◌, ◌≢◌}
use identity_hub.World.{ok}
use identity_hub.Refresh.Sample.{input, rotated_world, rotates, row, service, session, start}
use identity_hub.Refresh.{refresh}
use identity_hub.Trace.Steps.{Steps, WellFormed}
use identity_hub.Trace.Moves.{refresh_rows}
use identity_hub.Trace.System.{
  Call, logout_call, refresh_call, refresh_once, revoke_call, run, run-Steps, run-WellFormed,
}

fine : WellFormed (row ∷ [])
fine = record { one_hash = λ hash. ground arith; one_fresh = λ family. ground arith }

-- The new token is logged out, and its family revoked.
abbrev calls : List Call
calls =
    logout_call service.ext (record { refresh_token = 7000 ∷ []; ip = none; user_agent = none })
    ∷ revoke_call 1 9
    ∷ refresh_call service input
    ∷ []

refresh_once_example : refresh service input (run calls rotated_world) ≢ (ok session, rotated_world)
refresh_once_example =
    refresh_once service input input (5 ∷ []) calls start rotated_world rotated_world session
      session refl refl fine rotates

run-WellFormed_example : WellFormed (refresh_rows (run calls start).tables)
run-WellFormed_example = run-WellFormed calls start fine

run-Steps_example : Steps (row ∷ []) (refresh_rows (run calls start).tables)
run-Steps_example = run-Steps calls start
