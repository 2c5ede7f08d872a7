-- ===== src/Mfa/Verify/Wrong.antt =====
-- mfa.go, Verify: a wrong code.
use identity_hub.Base.{
  Bytes, List, Option, Option-cases, arith, bytes_eq, false, find, find-update_where, inl, inr, ltb,
  refl, some, suc, true, update_where, ℕ, ◌==◌, ◌∙◌, ◌≡◌,
}
use identity_hub.World.{
  ChallengeRow, Event, Result-cases, User, World, done, next, ok, statement, ◌>>=◌,
}
use identity_hub.World.Keeps.{Keeps, bind-Keeps, first_step, if-Keeps, pure-Keeps, statement-Keeps}
use identity_hub.Sql.Users.{lock_login_user}
use identity_hub.Sql.Audit.{count_login_failures_by_account}
use identity_hub.Sql.Mfa.{
  Joined, can_reject, get_mfa_challenge_for_update, is_open, reject_mfa_challenge, spend,
}
use identity_hub.Mfa.{Service, VerifyInput}
use identity_hub.Mfa.Verify.{
  check_code, is_verifiable, reject_code, rejected, report_lock, verify_challenge,
}
use identity_hub.Mfa.Verify.Frame.{audit-Keeps, challenges}
use identity_hub.Mfa.Verify.Once.{get_challenge-ok, get_challenge-tables}
use identity_hub.Lockout

evaluate-Keeps :
    (c : Lockout.Config) (user_id at : ℕ) → Keeps challenges (Lockout.evaluate_account c user_id at)
unfolding Lockout.evaluate_account count_login_failures_by_account lock_login_user
evaluate-Keeps c user_id at = bind-Keeps (statement-Keeps _ (λ at t. refl)) λ failures.
    if-Keeps (ltb failures c.account_max_failures) (pure-Keeps _)
      (bind-Keeps (statement-Keeps _ (λ at t. refl)) λ _. pure-Keeps _)

report_lock-Keeps :
    (o : Lockout.Outcome) (u : User) (input : VerifyInput)
    → Keeps challenges (report_lock o u input)
unfolding report_lock
report_lock-Keeps Lockout.Outcome.unlocked u input = pure-Keeps _
report_lock-Keeps (Lockout.Outcome.locked_out until failures) u input =
    bind-Keeps (audit-Keeps _ _ _ _ _) λ _. pure-Keeps _

done-Keeps : Keeps challenges done
unfolding ◌>>=◌
done-Keeps = record { at = λ w. refl }

reject-challenges :
    (id : ℕ) (w : World) (a : ℕ)
    → (statement (reject_mfa_challenge id) w).0 ≡ ok a
    → challenges (statement (reject_mfa_challenge id) w).1.tables
      ≡ update_where (can_reject id) (spend w.tx_now) (challenges w.tables)
unfolding reject_mfa_challenge ◌>>=◌
reject-challenges id w a h = elim (Option-cases (find (can_reject id) w.tables.mfa_challenges)) [
  | inl e ↦ ground arith
  | inr (c, e) ↦ ground arith
]

reject_code-challenges :
    (s : Service) (j : Joined) (input : VerifyInput) (at : ℕ) (w w' : World) (event : Option Event)
    → reject_code s j input at w ≡ (ok event, w')
    → challenges w'.tables
      ≡ update_where (can_reject j.challenge.id) (spend w.tx_now) (challenges w.tables)
unfolding reject_code
reject_code-challenges s j input at w w' event h =
    let (a, ran, left) = first_step _ _ w w' event h λ remaining.
      bind-Keeps (audit-Keeps _ _ _ _ _) λ _.
        bind-Keeps (if-Keeps (remaining == 0) (audit-Keeps _ _ _ _ _) done-Keeps)
          λ _. bind-Keeps (evaluate-Keeps s.lockout _ at) λ o. report_lock-Keeps o _ input in
    left ∙ reject-challenges j.challenge.id w a ran

check_code-rejected :
    (s : Service) (code_hash : Bytes) (input : VerifyInput) (j : Joined) (at : ℕ) (w w' : World)
    (event : Option Event)
    → check_code s code_hash input j at w ≡ (ok (rejected event), w')
    → reject_code s j input at w ≡ (ok event, w')
unfolding check_code ◌>>=◌
check_code-rejected s code_hash input j at w w' event h = ground arith

verify_challenge-rejected :
    (s : Service) (token_hash code_hash : Bytes) (input : VerifyInput) (w w' : World)
    (event : Option Event)
    → verify_challenge s token_hash code_hash input w ≡ (ok (rejected event), w')
    → (j : Joined) × ((get_mfa_challenge_for_update token_hash w.tx_now w.tables).0 ≡ ok j)
      × (is_verifiable j (w.env.clock (suc w.tick)) ≡ true)
      × (check_code s code_hash input j (w.env.clock (suc w.tick)) (next (next w))
          ≡ (ok (rejected event), w'))
unfolding verify_challenge ◌>>=◌
verify_challenge-rejected s token_hash code_hash input w w' event h =
    elim (Result-cases (get_mfa_challenge_for_update token_hash w.tx_now w.tables).0) [
      | inl (j, e) ↦ (
        j,
        e,
        ground (arith, get_challenge-tables token_hash w.tx_now w.tables),
        ground (arith, get_challenge-tables token_hash w.tx_now w.tables),
      )
      | inr (x, e) ↦ ground arith
    ]

spent_row :
    (hash : Bytes) (at : ℕ) (before after : List ChallengeRow) (c : ChallengeRow)
    → find (λ q. bytes_eq q.token_hash hash) before ≡ some c
    → can_reject c.id c ≡ true
    → after ≡ update_where (can_reject c.id) (spend at) before
    → find (λ q. bytes_eq q.token_hash hash) after ≡ some (spend at c)
spent_row hash at before after c stored open_ e = ground (
  arith,
  find-update_where (λ (q : ChallengeRow). bytes_eq q.token_hash hash) (can_reject c.id) (spend at)
      before c (λ q. refl) stored,
)

-- When verifyChallenge rejects a code, the challenge with the token's hash was open and had attempts
-- left; afterwards it has one attempt less, and it is closed when that was the last one.
pub rejection_spends :
    (s : Service) (token_hash code_hash : Bytes) (input : VerifyInput) (w w' : World)
    (event : Option Event)
    → verify_challenge s token_hash code_hash input w ≡ (ok (rejected event), w')
    → (c : ChallengeRow) × (d : ChallengeRow) × (find
          (λ q. bytes_eq q.token_hash token_hash)
          w.tables.mfa_challenges
        ≡ some c)
      × (find (λ q. bytes_eq q.token_hash token_hash) w'.tables.mfa_challenges ≡ some d)
      × (is_open c ≡ true)
      × (c.attempts_left ≡ suc d.attempts_left)
      × (d.attempts_left ≡ 0 → is_open d ≡ false)
rejection_spends s token_hash code_hash input w w' event h =
    let (j, got, fine, checked) = verify_challenge-rejected s _ _ input w w' event h in
    let (stored, owner) = get_challenge-ok _ w.tx_now w.tables j got in
    let ran = check_code-rejected s _ input j _ (next (next w)) w' event checked in
    let moved = reject_code-challenges s j input _ (next (next w)) w' event ran in
    let c = j.challenge in
    (
      c,
      spend w.tx_now c,
      stored,
      spent_row token_hash w.tx_now (challenges w.tables) (challenges w'.tables) c stored
          (ground arith) moved,
      ground arith,
      ground arith,
      λ last. ground arith,
    )
