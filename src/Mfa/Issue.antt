-- ===== src/Mfa/Issue.antt =====
-- mfa.go, Issue: a new challenge for an account.
pub mod Limit
use identity_hub.Sql.Mfa.{
  count_mfa_challenges_since, create_mfa_challenge, delete_mfa_challenge,
  lock_mfa_challenge_issuance, supersede_open_mfa_challenges,
}
use identity_hub.World.{
  Action, ChallengeRow, Error, Result, User, World, err, fail, issuance_limited,
  mfa_challenge_issued, new_uuid, now, ok, read_random, statement, transaction, ◌>>=◌, ◌>>◌,
}
use identity_hub.Base.{Bytes, if◌then◌else◌, leb, none, ℕ, ◌+◌, ◌-◌}
use identity_hub.Mfa.{
  Service, audit, challenge_expires_in, challenge_message, challenge_ttl, generate_code, hash_code,
  issuance_window, max_attempts, max_issuances_per_window, publish_code,
}

pub record Challenge : Type 0 where
  pub token : Bytes
  pub expires_in : ℕ

-- CreateParams, as the row that the INSERT makes: created_at and last_sent_at are the service's clock.
abbrev pub new_row : ℕ → ℕ → Bytes → Bytes → ℕ → ChallengeRow
new_row id user_id token_hash code_hash at = record {
  id = id;
  user_id = user_id;
  token_hash = token_hash;
  code_hash = code_hash;
  expires_at = at + challenge_ttl;
  attempts_left = max_attempts;
  created_at = at;
  last_sent_at = at;
  used_at = none;
}

-- storeChallenge
unfoldable pub store_challenge : ℕ → ChallengeRow → ℕ → Action (Unit {0})
store_challenge user_id row at = do
  statement (lock_mfa_challenge_issuance user_id)
  issued ← statement (count_mfa_challenges_since user_id (at - issuance_window))
  if leb max_issuances_per_window issued then fail issuance_limited else do
    statement (supersede_open_mfa_challenges user_id at)
    statement (create_mfa_challenge row)
    audit user_id mfa_challenge_issued none none none

-- cancelUndelivered: the publication's error, or that of the deletion.
pub cancel_undelivered : ℕ → Error → Action Challenge
cancel_undelivered id e = transaction (statement (delete_mfa_challenge id)) >> fail e

-- The publication after the commit, and the compensation when it fails.
abbrev pub deliver : ℕ → Challenge → Result (Unit {0}) × World → Result Challenge × World
deliver id c (ok _, w) = (ok c, w)
deliver id c (err e, w) = cancel_undelivered id e w

-- Issue
unfoldable pub issue : Service → User → Action Challenge
issue s u = do
  raw ← read_random
  code ← generate_code s.ext
  id ← new_uuid
  at ← now
  transaction
      (store_challenge u.id (new_row id u.id (s.ext.sha256 raw) (hash_code s.ext raw code) at) at)
  λ w.
      deliver id (record { token = s.ext.encode raw; expires_in = challenge_expires_in })
        (publish_code (challenge_message u code (at + challenge_ttl)) w)
