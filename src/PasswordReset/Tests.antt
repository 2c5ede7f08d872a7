-- ===== src/PasswordReset/Tests.antt =====
-- password_reset.go: a reset of the fixtures.
use identity_hub.Base.{
  Bytes, [], bytes_eq, codes, find, length, minute, none, refl, some, true, ◌*◌, ◌∷◌, ◌≡◌, ◌≢◌,
}
use identity_hub.World.{VerificationRow, World, ok, password_reset, transaction, ◌>>=◌}
use identity_hub.Sql.Audit.{insert_audit_event}
use identity_hub.Sql.Reset.{
  consume_password_reset_token, is_unspent, password_reset_token_is_usable,
}
use identity_hub.PasswordReset.{
  Service, confirm, confirm_decoded, confirm_usable, consume_reset, decode_confirm_input,
  publish_reset_completed,
}
use identity_hub.PasswordReset.Closes.{Closed, confirm-Closed, confirm_once}
use identity_hub.Fixtures.{ext, tables, world}

abbrev service : Service
service = record {
  ext = ext;
  trim = λ b. b;
  lower = λ b. b;
  rune_count = λ b. length b;
  min_runes = 12;
  max_runes = 128;
}

abbrev raw : Bytes
raw = 5 ∷ []

abbrev row : VerificationRow
row = record {
  id = 40;
  user_id = 1;
  token_hash = 1 ∷ raw;
  purpose = password_reset;
  expires_at = 2000 * minute;
  used_at = none;
}

abbrev start : World
start = world (record tables { verification_tokens = row ∷ [] })

abbrev new_password : Bytes
new_password = codes "a new passphrase"

abbrev after : World
after = (confirm service raw new_password start).1

confirms : confirm service raw new_password start ≡ (ok tt, after)
unfolding confirm ◌>>=◌ transaction decode_confirm_input confirm_decoded confirm_usable
    consume_reset publish_reset_completed password_reset_token_is_usable
    consume_password_reset_token insert_audit_event
confirms = refl

confirm-Closed_example :
    (r : VerificationRow) × (hash : Bytes) × (find
        (λ q. bytes_eq q.token_hash (1 ∷ raw))
        start.tables.verification_tokens
      ≡ some r)
    × (is_unspent r ≡ true)
    × (ext.hash new_password ≡ some hash)
    × Closed r.user_id hash after.tables
confirm-Closed_example = confirm-Closed service raw new_password raw start after tt refl confirms

confirm_once_example : confirm service raw (codes "another passphrase") after ≢ (ok tt, after)
confirm_once_example =
    confirm_once service raw new_password (codes "another passphrase") raw start after after after
      tt tt refl refl confirms
