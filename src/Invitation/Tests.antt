-- ===== src/Invitation/Tests.antt =====
-- invitation.go: an invitation is accepted; another one's message is not delivered.
use identity_hub.Base.{Bytes, [], codes, length, minute, none, refl, some, ◌*◌, ◌==◌, ◌∷◌, ◌≡◌}
use identity_hub.World.{
  Purpose, User, VerificationRow, World, delivery_unavailable, email_verification, err, invitation,
  ok, password_reset, pending_verification, token_invalid, transaction, ◌>>=◌,
}
use identity_hub.Sql.Audit.{insert_audit_event}
use identity_hub.Sql.Reset.{consume_invitation_token, invitation_token_is_usable}
use identity_hub.Invitation.{
  Input, Service, accept, accept_usable, consume_and_publish, usable_token_hash, validate_input,
}
use identity_hub.Invitation.Accepted.{accept_rolls_back}
use identity_hub.Invitation.Activates.{Activated, accept-Activated}
use identity_hub.Fixtures.{ana, env, ext, tables, world}

abbrev service : Service
service = record {
  ext = ext;
  trim = λ b. b;
  rune_count = λ b. length b;
  min_runes = 12;
  max_runes = 128;
}

abbrev input : Input
input = record { token = 5 ∷ []; password = codes "a new passphrase"; ip = none; user_agent = none }

abbrev guest : User
guest = record ana { id = 3; status = pending_verification }

abbrev row : VerificationRow
row = record {
  id = 40;
  user_id = 3;
  token_hash = 1 ∷ 5 ∷ [];
  purpose = invitation;
  expires_at = 2000 * minute;
  used_at = none;
}

abbrev invited_world : World
invited_world = world (record tables { users = guest ∷ []; verification_tokens = row ∷ [] })

abbrev accepted_world : World
accepted_world = (accept service input invited_world).1

accepts : accept service input invited_world ≡ (ok tt, accepted_world)
unfolding accept ◌>>=◌ transaction validate_input usable_token_hash accept_usable
    consume_and_publish invitation_token_is_usable consume_invitation_token insert_audit_event
accepts = refl

accept-Activated_example :
    (hash : Bytes) × (ext.hash input.password ≡ some hash)
    × ((r : VerificationRow) × Activated
          (1 ∷ 5 ∷ [])
          hash
          (env.db_clock 1)
          invited_world.tables
          accepted_world.tables
          r)
accept-Activated_example =
    accept-Activated service input (5 ∷ []) invited_world accepted_world tt refl accepts

-- A token that was made to verify an address or to reset a password.
abbrev with_purpose : Purpose → World
with_purpose p =
    world
      (record tables { users = guest ∷ []; verification_tokens = record row { purpose = p } ∷ [] })

other_purpose :
    ((accept service input (with_purpose email_verification)).0 ≡ err token_invalid)
    × ((accept service input (with_purpose password_reset)).0 ≡ err token_invalid)
unfolding accept ◌>>=◌ validate_input usable_token_hash invitation_token_is_usable
other_purpose = (refl, refl)

-- The call at tick 4 is the publication.
abbrev start : World
start = record invited_world { env = record env { fails = λ t. t == 4 } }

undelivered : (accept service input start).0 ≡ err delivery_unavailable
unfolding accept ◌>>=◌ transaction validate_input usable_token_hash accept_usable
    consume_and_publish invitation_token_is_usable consume_invitation_token insert_audit_event
undelivered = refl

accept_rolls_back_example : (accept service input start).1.tables ≡ start.tables
accept_rolls_back_example = accept_rolls_back service input start delivery_unavailable undelivered
