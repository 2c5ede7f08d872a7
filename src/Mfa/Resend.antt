-- ===== src/Mfa/Resend.antt =====
-- mfa.go, Resend: a fresh code for an open challenge.
pub mod Restore
use identity_hub.Sql.Mfa.{Joined, is_open, resend_mfa_challenge, restore_mfa_challenge}
use identity_hub.Sql.Users.{is_active}
use identity_hub.World.{
  Action, Error, Event, Result, World, challenge_invalid, err, fail, mfa_code_resent, now, ok, pure,
  resend_too_soon, statement, transaction, ◌>>=◌, ◌>>◌,
}
use identity_hub.Base.{Bool, Bytes, if◌then◌else◌, ltb, none, some, ℕ, ◌&&◌, ◌-◌}
use identity_hub.Mfa.{
  Service, audit, challenge_message, generate_code, get_challenge, hash_code, publish_code,
  resend_interval,
}

-- resendOutcome
pub record Outcome : Type 0 where
  pub event : Event
  pub challenge_id : ℕ
  pub new_hash : Bytes
  pub previous_hash : Bytes
  pub sent_at : ℕ
  pub previous_sent_at : ℕ

-- The first checks of resendChallenge: it does not look at the attempts left.
abbrev pub is_resendable : Joined → ℕ → Bool
is_resendable j at = is_open j.challenge && ltb at j.challenge.expires_at && is_active j.account

-- The rest of resendChallenge. The window's difference is negative in Go where it is 0 here; both are
-- below the interval.
abbrev pub recode_challenge : Service → Bytes → Joined → ℕ → Action Outcome
recode_challenge s raw j at =
    if ltb (at - j.challenge.last_sent_at) resend_interval then fail resend_too_soon else do
      code ← generate_code s.ext
      statement (resend_mfa_challenge j.challenge.id (hash_code s.ext raw code) at)
      audit j.account.id mfa_code_resent none none none
      pure (record {
        event = challenge_message j.account code j.challenge.expires_at;
        challenge_id = j.challenge.id;
        new_hash = hash_code s.ext raw code;
        previous_hash = j.challenge.code_hash;
        sent_at = at;
        previous_sent_at = j.challenge.last_sent_at;
      })

-- resendChallenge
pub resend_challenge : Service → Bytes → Bytes → Action Outcome
resend_challenge s raw token_hash = do
  j ← get_challenge token_hash
  at ← now
  if is_resendable j at then recode_challenge s raw j at else fail challenge_invalid

-- restoreUndeliveredResend
pub restore_undelivered : Outcome → Error → Action (Unit {0})
restore_undelivered o e =
    transaction (
      statement (
        restore_mfa_challenge o.challenge_id o.new_hash o.previous_hash o.sent_at
          o.previous_sent_at))
    >> fail e

abbrev pub deliver_again : Outcome → Result (Unit {0}) × World → Result (Unit {0}) × World
deliver_again o (ok _, w) = (ok tt, w)
deliver_again o (err e, w) = restore_undelivered o e w

-- Resend
pub resend : Service → Bytes → Action (Unit {0})
resend s token = elim (s.ext.decode token) [
  | none ↦ fail challenge_invalid
  | some raw ↦ (do
    o ← transaction (resend_challenge s raw (s.ext.sha256 raw))
    λ w. deliver_again o (publish_code o.event w))
]
