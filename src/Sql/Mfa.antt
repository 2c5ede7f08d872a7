-- ===== src/Sql/Mfa.antt =====
-- users.sql.go: the MFA challenges. A challenge is open while used_at is NULL.
use identity_hub.Base.{
  Bool, Bytes, Option, bytes_eq, count_where, exists_where, find, if◌then◌else◌, is_some, leb, ltb,
  none, not, select, some, update_where, ℕ, ◌&&◌, ◌-◌, ◌==◌, ◌||◌, ◌∷◌,
}
use identity_hub.World.{ChallengeRow, Query, Result, User, err, no_rows, ok, storage}

abbrev pub is_open : ChallengeRow → Bool
is_open c = not (is_some c.used_at)

abbrev pub is_open_id : ℕ → ChallengeRow → Bool
is_open_id id c = c.id == id && is_open c

-- LockMfaChallengeIssuance: an advisory lock, which the serial transactions of the model do without.
unfoldable pub lock_mfa_challenge_issuance : ℕ → Query (Unit {0})
lock_mfa_challenge_issuance user_id at t = (ok tt, t)

-- CountMfaChallengesSince
unfoldable pub count_mfa_challenges_since : ℕ → ℕ → Query ℕ
count_mfa_challenges_since user_id since at t =
    (ok (count_where (λ c. c.user_id == user_id && leb since c.created_at) t.mfa_challenges), t)

abbrev pub is_open_of : ℕ → ChallengeRow → Bool
is_open_of user_id c = c.user_id == user_id && is_open c

abbrev pub use_at : ℕ → ChallengeRow → ChallengeRow
use_at at c = record c { used_at = some at }

-- SupersedeOpenMfaChallenges
unfoldable pub supersede_open_mfa_challenges : ℕ → ℕ → Query (Unit {0})
supersede_open_mfa_challenges user_id used_at at t = (
  ok tt,
  record t { mfa_challenges = update_where (is_open_of user_id) (use_at used_at) t.mfa_challenges },
)

-- The primary key and UNIQUE (token_hash).
abbrev pub collides : ChallengeRow → ChallengeRow → Bool
collides new c = c.id == new.id || bytes_eq c.token_hash new.token_hash

-- CreateMfaChallenge; user_id is a foreign key.
unfoldable pub create_mfa_challenge : ChallengeRow → Query (Unit {0})
create_mfa_challenge new at t =
    if exists_where (collides new) t.mfa_challenges
      || not (exists_where (λ u. u.id == new.user_id) t.users)
    then (err storage, t)
    else (ok tt, record t { mfa_challenges = new ∷ t.mfa_challenges })

-- DeleteMfaChallenge
unfoldable pub delete_mfa_challenge : ℕ → Query (Unit {0})
delete_mfa_challenge id at t =
    (ok tt, record t { mfa_challenges = select (λ c. not (c.id == id)) t.mfa_challenges })

-- A challenge with the account of the JOIN.
pub record Joined : Type 0 where
  pub challenge : ChallengeRow
  pub account : User

abbrev pub with_account : ChallengeRow → Option User → Result Joined
with_account c none = err no_rows
with_account c (some u) = ok (record { challenge = c; account = u })

-- GetMfaChallengeForUpdate
unfoldable pub get_mfa_challenge_for_update : Bytes → Query Joined
get_mfa_challenge_for_update hash at t =
    elim (find (λ c. bytes_eq c.token_hash hash) t.mfa_challenges) [
      | none ↦ (err no_rows, t)
      | some c ↦ (with_account c (find (λ u. u.id == c.user_id) t.users), t)
    ]

-- ConsumeMfaChallenge
unfoldable pub consume_mfa_challenge : ℕ → Query (Unit {0})
consume_mfa_challenge id at t =
    (ok tt, record t { mfa_challenges = update_where (is_open_id id) (use_at at) t.mfa_challenges })

abbrev pub can_reject : ℕ → ChallengeRow → Bool
can_reject id c = is_open_id id c && ltb 0 c.attempts_left

-- One attempt less; the last one closes the challenge.
abbrev pub spend : ℕ → ChallengeRow → ChallengeRow
spend at c = record c {
  attempts_left = c.attempts_left - 1;
  used_at = if c.attempts_left == 1 then some at else c.used_at;
}

-- RejectMfaChallenge
unfoldable pub reject_mfa_challenge : ℕ → Query ℕ
reject_mfa_challenge id at t = elim (find (can_reject id) t.mfa_challenges) [
  | none ↦ (err no_rows, t)
  | some c ↦ (
    ok (c.attempts_left - 1),
    record t { mfa_challenges = update_where (can_reject id) (spend at) t.mfa_challenges },
  )
]

abbrev pub recode : Bytes → ℕ → ChallengeRow → ChallengeRow
recode code_hash sent_at c = record c { code_hash = code_hash; last_sent_at = sent_at }

-- ResendMfaChallenge
unfoldable pub resend_mfa_challenge : ℕ → Bytes → ℕ → Query (Unit {0})
resend_mfa_challenge id code_hash sent_at at t = (
  ok tt,
  record t {
    mfa_challenges = update_where (is_open_id id) (recode code_hash sent_at) t.mfa_challenges;
  },
)

abbrev pub is_resent : ℕ → Bytes → ℕ → ChallengeRow → Bool
is_resent id code_hash sent_at c =
    is_open_id id c && bytes_eq c.code_hash code_hash && c.last_sent_at == sent_at

-- RestoreMfaChallengeAfterFailedResend: the number of rows.
unfoldable pub restore_mfa_challenge : ℕ → Bytes → Bytes → ℕ → ℕ → Query ℕ
restore_mfa_challenge id expected previous sent_at previous_sent_at at t = (
  ok (count_where (is_resent id expected sent_at) t.mfa_challenges),
  record t {
    mfa_challenges =
        update_where (is_resent id expected sent_at) (recode previous previous_sent_at)
          t.mfa_challenges;
  },
)
