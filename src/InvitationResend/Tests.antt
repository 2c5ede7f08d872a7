-- ===== src/InvitationResend/Tests.antt =====
-- resend.go: a second invitation for a guest.
use identity_hub.Base.{[], find, minute, none, refl, select, some, true, ◌*◌, ◌==◌, ◌∷◌, ◌≡◌}
use identity_hub.World.{
  User, VerificationRow, World, begin, next, ok, pending_verification, transaction, ◌>>=◌,
}
use identity_hub.Sql.Audit.{insert_audit_event}
use identity_hub.Sql.Reset.{
  create_invitation_token, invalidate_invitation_tokens, invitation_row, is_open_invitation,
  is_pending,
}
use identity_hub.Sql.Directory.{get_user_by_id_for_update}
use identity_hub.InvitationResend.{
  Input, Service, audit_and_publish, load_pending_user, replace_token, resend, resend_within,
}
use identity_hub.InvitationResend.Single.{new_letter, resend_single}
use identity_hub.Fixtures.{ana, ext, tables, world}

abbrev guest : User
guest = record ana { id = 3; status = pending_verification }

abbrev row : VerificationRow
row = invitation_row 3 (1 ∷ 5 ∷ []) (2000 * minute) 40

abbrev start : World
start = world (record tables { users = guest ∷ []; verification_tokens = row ∷ [] })

abbrev service : Service
service = record { ext = ext }

abbrev input : Input
input = record { actor_user_id = 1; user_id = 3; ip = none; user_agent = none }

abbrev sent : World
sent = (resend service input start).1

sends : resend service input start ≡ (ok tt, sent)
unfolding resend resend_within load_pending_user replace_token audit_and_publish ◌>>=◌ transaction
    get_user_by_id_for_update invalidate_invitation_tokens create_invitation_token
    insert_audit_event
sends = refl

resend_single_example :
    (account : User) × (find (λ (q : User). q.id == 3) start.tables.users ≡ some account)
    × (is_pending account ≡ true)
    × (select (is_open_invitation 3) sent.tables.verification_tokens
        ≡ new_letter service 3 (next (begin start)) ∷ [])
resend_single_example = resend_single service input start sent tt sends
