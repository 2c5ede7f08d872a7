-- ===== src/Mfa/Verify/Once.antt =====
-- mfa.go, Verify: a session and its challenge.
use identity_hub.Sql.Users.{is_active}
use identity_hub.Base.{
  Bytes, List, Option-cases, ap, arith, bytes_eq, false, find, find-update_where, inl, inr, none,
  refl, some, suc, true, update_where, ℕ, ◌<◌, ◌==◌, ◌∙◌, ◌≡◌, ◌≢◌,
}
use identity_hub.World.{
  Action, ChallengeRow, Result-cases, Tables, User, World, begin, next, ok, transaction,
  transaction-ok, ◌>>=◌,
}
use identity_hub.Sql.Mfa.{Joined, get_mfa_challenge_for_update, is_open, is_open_id, use_at}
use identity_hub.Mfa.{Service, Session, VerifyInput, decode_verify_input, hash_code}
use identity_hub.Mfa.Verify.{
  Outcome, check_code, finish_verify, is_verifiable, issue_session, proven, rejected, verify,
  verify_challenge, verify_decoded,
}
use identity_hub.Mfa.Verify.Frame.{challenges, issue_session-challenges}

pub get_challenge-tables :
    (hash : Bytes) (at : ℕ) (t : Tables) → (get_mfa_challenge_for_update hash at t).1 ≡ t
unfolding get_mfa_challenge_for_update
get_challenge-tables hash at t = ground arith

check_code-ok :
    (s : Service) (code_hash : Bytes) (input : VerifyInput) (j : Joined) (at : ℕ) (w w' : World)
    (session : Session)
    → check_code s code_hash input j at w ≡ (ok (proven session), w')
    → (bytes_eq j.challenge.code_hash code_hash ≡ true)
      × (issue_session s j input at w ≡ (ok session, w'))
unfolding check_code ◌>>=◌
check_code-ok s code_hash input j at w w' session h = (ground arith, ground arith)

verify_challenge-ok :
    (s : Service) (token_hash code_hash : Bytes) (input : VerifyInput) (w w' : World)
    (session : Session)
    → verify_challenge s token_hash code_hash input w ≡ (ok (proven session), w')
    → (j : Joined) × ((get_mfa_challenge_for_update token_hash w.tx_now w.tables).0 ≡ ok j)
      × (is_verifiable j (w.env.clock (suc w.tick)) ≡ true)
      × (check_code s code_hash input j (w.env.clock (suc w.tick)) (next (next w))
          ≡ (ok (proven session), w'))
unfolding verify_challenge ◌>>=◌
verify_challenge-ok s token_hash code_hash input w w' session h =
    elim (Result-cases (get_mfa_challenge_for_update token_hash w.tx_now w.tables).0) [
      | inl (j, e) ↦ (
        j,
        e,
        ground (arith, get_challenge-tables token_hash w.tx_now w.tables),
        ground (arith, get_challenge-tables token_hash w.tx_now w.tables),
      )
      | inr (x, e) ↦ ground arith
    ]

-- What stands in the database when a session is issued.
pub record Proven (s : Service) (raw : Bytes) (input : VerifyInput) (at : ℕ) (t : Tables)
    (j : Joined) : Type 0 where
  pub stored :
      find (λ c. bytes_eq c.token_hash (s.ext.sha256 raw)) t.mfa_challenges ≡ some j.challenge
  pub owner : find (λ u. u.id == j.challenge.user_id) t.users ≡ some j.account
  pub unused : is_open j.challenge ≡ true
  pub unexpired : at < j.challenge.expires_at
  pub attempts : 0 < j.challenge.attempts_left
  pub account_active : is_active j.account ≡ true
  pub code_matches : bytes_eq j.challenge.code_hash (hash_code s.ext raw input.code) ≡ true

pub get_challenge-ok :
    (hash : Bytes) (at : ℕ) (t : Tables) (j : Joined)
    → (get_mfa_challenge_for_update hash at t).0 ≡ ok j
    → (find (λ c. bytes_eq c.token_hash hash) t.mfa_challenges ≡ some j.challenge)
      × (find (λ u. u.id == j.challenge.user_id) t.users ≡ some j.account)
unfolding get_mfa_challenge_for_update
get_challenge-ok hash at t j h =
    elim (Option-cases (find (λ (c : ChallengeRow). bytes_eq c.token_hash hash) t.mfa_challenges)) [
      | inl e ↦ ground arith
      | inr (c, e) ↦ elim (Option-cases (find (λ (u : User). u.id == c.user_id) t.users)) [
        | inl f ↦ ground arith
        | inr (u, f) ↦ ground arith
      ]
    ]

finish_verify-ok :
    (o : Outcome) (w w' : World) (session : Session)
    → finish_verify o w ≡ (ok session, w')
    → (o ≡ proven session) × (w' ≡ w)
unfolding finish_verify ◌>>=◌
finish_verify-ok (proven x) w w' session h = (ground arith, ground arith)
finish_verify-ok (rejected none) w w' session h = ground arith
finish_verify-ok (rejected (some event)) w w' session h = ground arith

abbrev body : Service → Bytes → VerifyInput → Action Outcome
body s raw input = verify_challenge s (s.ext.sha256 raw) (hash_code s.ext raw input.code) input

verify_decoded-ok :
    (s : Service) (raw : Bytes) (input : VerifyInput) (w w' : World) (session : Session)
    → verify_decoded s raw input w ≡ (ok session, w')
    → (w₁ : World) × (body s raw input (begin w) ≡ (ok (proven session), w₁)) × (w' ≡ next w₁)
unfolding ◌>>=◌
verify_decoded-ok s raw input w w' session h =
    elim (Result-cases (transaction (body s raw input) w).0) [
      | inr (x, f) ↦ ground arith
      | inl (o, f) ↦
          let z = (transaction (body s raw input) w).1 in
          let (w₁, ran, kept) = transaction-ok (body s raw input) w z o (ground arith) in
          let (same, left) = finish_verify-ok o z w' session (ground arith) in
          (w₁, rw (← same) ran, left ∙ kept)
    ]

verify-decoded :
    (s : Service) (raw : Bytes) (input : VerifyInput) (w w' : World) (session : Session)
    → s.ext.decode input.token ≡ some raw
    → verify s input w ≡ (ok session, w')
    → verify_decoded s raw input w ≡ (ok session, w')
unfolding verify decode_verify_input ◌>>=◌
verify-decoded s raw input w w' session d h = ground arith

body-Proven :
    (s : Service) (raw : Bytes) (input : VerifyInput) (w w' : World) (session : Session)
    → body s raw input w ≡ (ok (proven session), w')
    → (j : Joined) × Proven s raw input (w.env.clock (suc w.tick)) w.tables j
      × (challenges w'.tables
          ≡ update_where (is_open_id j.challenge.id) (use_at w.tx_now) (challenges w.tables))
body-Proven s raw input w w' session h =
    let (j, got, fine, checked) = verify_challenge-ok s _ _ input w w' session h in
    let (matches_code, issued) = check_code-ok s _ input j _ (next (next w)) w' session checked in
    let (stored, owner) = get_challenge-ok _ w.tx_now w.tables j got in
    (
      j,
      record {
        stored = stored;
        owner = owner;
        unused = ground arith;
        unexpired = ground arith;
        attempts = ground arith;
        account_active = ground arith;
        code_matches = matches_code;
      },
      issue_session-challenges s j input _ (next (next w)) w' session issued,
    )

-- When verify returns a session for a token that decodes, the challenge with the token's hash is
-- stored, is unused, unexpired by the service's clock and has attempts left, its account is stored and
-- active, and the keyed hash of the code that was sent is the stored one.
pub verify-Proven :
    (s : Service) (raw : Bytes) (input : VerifyInput) (w w' : World) (session : Session)
    → s.ext.decode input.token ≡ some raw
    → verify s input w ≡ (ok session, w')
    → (j : Joined) × Proven s raw input (w.env.clock (suc (suc w.tick))) w.tables j
verify-Proven s raw input w w' session d h =
    let (w₁, ran, kept) =
      verify_decoded-ok s raw input w w' session (verify-decoded s raw input w w' session d h) in
    let (j, p, closed) = body-Proven s raw input (begin w) w₁ session ran in (j, p)

-- Closing a row by its id closes the row that the search finds.
closed_row :
    (hash : Bytes) (at : ℕ) (before after : List ChallengeRow) (c : ChallengeRow)
    → find (λ q. bytes_eq q.token_hash hash) before ≡ some c
    → is_open c ≡ true
    → after ≡ update_where (is_open_id c.id) (use_at at) before
    → find (λ q. bytes_eq q.token_hash hash) after ≡ some (use_at at c)
closed_row hash at before after c stored unused e = ground (
  arith,
  find-update_where (λ (q : ChallengeRow). bytes_eq q.token_hash hash) (is_open_id c.id) (use_at at)
      before c (λ q. refl) stored,
)

open_and_closed :
    (rows rows' : List ChallengeRow) (hash : Bytes) {c d : ChallengeRow}
    → rows ≡ rows'
    → find (λ q. bytes_eq q.token_hash hash) rows ≡ some c
    → find (λ q. bytes_eq q.token_hash hash) rows' ≡ some d
    → is_open c ≡ true
    → is_open d ≡ false
    → ⊥
open_and_closed rows rows' hash same found found' p q = ground arith

-- After a session the challenge is closed.
verify_closes :
    (s : Service) (raw : Bytes) (input : VerifyInput) (w w' : World) (session : Session)
    → s.ext.decode input.token ≡ some raw
    → verify s input w ≡ (ok session, w')
    → (c : ChallengeRow) × (find
          (λ q. bytes_eq q.token_hash (s.ext.sha256 raw))
          w'.tables.mfa_challenges
        ≡ some c)
      × (is_open c ≡ false)
verify_closes s raw input w w' session d h =
    let (w₁, ran, kept) =
      verify_decoded-ok s raw input w w' session (verify-decoded s raw input w w' session d h) in
    let (j, p, closed) = body-Proven s raw input (begin w) w₁ session ran in
    let at = w.env.db_clock w.tick in
    (
      use_at at j.challenge,
      closed_row (s.ext.sha256 raw) at (challenges w.tables) (challenges w'.tables) j.challenge
          p.stored p.unused
          (ap {B = List ChallengeRow} (λ (z : World). challenges z.tables) kept ∙ closed),
      refl,
    )

decode-cases :
    (s : Service) (input : VerifyInput) (w w' : World) (session : Session)
    → verify s input w ≡ (ok session, w')
    → (raw : Bytes) × (s.ext.decode input.token ≡ some raw)
unfolding verify decode_verify_input ◌>>=◌
decode-cases s input w w' session h = elim (Option-cases (s.ext.decode input.token)) [
  | inl e ↦ ground arith
  | inr (raw, e) ↦ (raw, e)
]

-- No challenge buys two sessions: after a call of verify that returned one, no call with the same
-- token returns another, whatever its code, the clocks and the failures, as long as the challenges
-- are as the first call left them.
pub verify_once :
    (s : Service) (first second : VerifyInput) (w w' v v' : World) (session again : Session)
    → second.token ≡ first.token
    → v.tables.mfa_challenges ≡ w'.tables.mfa_challenges
    → verify s first w ≡ (ok session, w')
    → verify s second v ≢ (ok again, v')
verify_once s first second w w' v v' session again same kept h h' =
    let (raw, d) = decode-cases s first w w' session h in
    let (c, found, closed) = verify_closes s raw first w w' session d h in
    let (j, p) = verify-Proven s raw second v v' again (ap s.ext.decode same ∙ d) h' in
    open_and_closed (challenges v.tables) (challenges w'.tables) _ kept p.stored found p.unused
      closed
