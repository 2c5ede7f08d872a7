-- ===== src/Refresh/Tests.antt =====
-- refresh.go: a rotation and the reuse of the rotated token.
use identity_hub.Base.{All, [], refl, ◌∷◌, ◌≡◌}
use identity_hub.World.{calm, err, refresh_reuse}
use identity_hub.Refresh.{refresh}
use identity_hub.Refresh.Reuse.{IsRevoked, replay_revokes_family}
use identity_hub.Refresh.Sample.{input, rotated_world, rotates, row, service, session, start}

replay_revokes_family_example :
    ((refresh service input (calm start.env rotated_world)).0 ≡ err refresh_reuse)
    × All
        (IsRevoked 9)
        (refresh service input (calm start.env rotated_world)).1.tables.refresh_tokens
replay_revokes_family_example =
    replay_revokes_family service input (5 ∷ []) start rotated_world start.env session row refl refl
      rotates
