-- ===== src/Mfa/Tests.antt =====
-- mfa.go: codes.
use identity_hub.Base.{
  [], arith, codes, count_where, find, leb, length, minute, none, refl, some, ◌&&◌, ◌*◌, ◌-◌, ◌<◌,
  ◌==◌, ◌∷◌, ◌≡◌,
}
use identity_hub.Mfa.{
  VerifyInput, code_digits, decode_verify_input, format_code, generate_code, issuance_window,
  max_issuances_per_window, write_decimal,
}
use identity_hub.World.{ChallengeRow, Tables, World, ok, ◌>>=◌}
use identity_hub.Sql.Mfa.{
  count_mfa_challenges_since, create_mfa_challenge, is_open_of, lock_mfa_challenge_issuance,
  resend_mfa_challenge, restore_mfa_challenge, supersede_open_mfa_challenges,
}
use identity_hub.Sql.Audit.{insert_audit_event}
use identity_hub.Mfa.Issue.{store_challenge}
use identity_hub.Mfa.Issue.Limit.{store_challenge_lem}
use identity_hub.Mfa.Resend.Restore.{restore-resend}
use identity_hub.Fixtures.{ext, tables, world}
use identity_hub.Mfa.Code.{format_code_lem, generated_code_accepted, read_after}

format_code_example : (length (format_code 42) ≡ code_digits) × (read_after 0 (format_code 42) ≡ 42)
format_code_example = format_code_lem 42 (omega arith)

seven_digits : format_code 1234567 ≡ codes "1234567"
unfolding format_code write_decimal
seven_digits = refl

abbrev input : VerifyInput
input = record { token = 5 ∷ []; code = codes "123456"; ip = none; user_agent = none }

generates : generate_code ext (world tables) ≡ (ok input.code, (generate_code ext (world tables)).1)
unfolding ◌>>=◌ format_code write_decimal
generates = refl

generated_code_example : decode_verify_input ext input ≡ ok (5 ∷ [])
generated_code_example =
    generated_code_accepted ext (world tables) (generate_code ext (world tables)).1 input (5 ∷ [])
      (λ b. omega arith) generates refl

abbrev open_challenge : ChallengeRow
open_challenge = record {
  id = 30;
  user_id = 1;
  token_hash = 1 ∷ [];
  code_hash = 2 ∷ [];
  expires_at = 2000 * minute;
  attempts_left = 5;
  created_at = 4;
  last_sent_at = 4;
  used_at = none;
}

abbrev with_challenge : Tables
with_challenge = record tables { mfa_challenges = open_challenge ∷ [] }

restore-resend_example :
    (restore_mfa_challenge 30
      (3 ∷ [])
      (2 ∷ [])
      90
      4
      91
      (resend_mfa_challenge 30 (3 ∷ []) 90 90 with_challenge).1).1.mfa_challenges
    ≡ with_challenge.mfa_challenges
restore-resend_example =
    restore-resend 30 (3 ∷ []) (2 ∷ []) 90 4 90 91 with_challenge ((λ _. (refl, refl)), tt)
      (refl, tt)

abbrev second : ChallengeRow
second = record open_challenge { id = 31; token_hash = 9 ∷ [] }

abbrev start : World
start = world with_challenge

abbrev after : World
after = (store_challenge 1 second 100 start).1

stores : store_challenge 1 second 100 start ≡ (ok tt, after)
unfolding store_challenge ◌>>=◌ lock_mfa_challenge_issuance count_mfa_challenges_since
    supersede_open_mfa_challenges create_mfa_challenge insert_audit_event
stores = refl

store_challenge_example :
    (count_where
        (λ c. c.user_id == 1 && leb (100 - issuance_window) c.created_at)
        start.tables.mfa_challenges
      < max_issuances_per_window)
    × (count_where (is_open_of 1) after.tables.mfa_challenges ≡ 1)
    × (find (is_open_of 1) after.tables.mfa_challenges ≡ some second)
store_challenge_example = store_challenge_lem 1 100 second start after tt refl refl stores
