-- ===== src/Mfa/Verify/Frame.antt =====
-- mfa.go: the challenges during issueSession.
use identity_hub.Sql.Users.{list_roles_for_user, update_last_login}
use identity_hub.Sql.Audit.{insert_audit_event}
use identity_hub.Base.{Bytes, List, Option, [], arith, refl, update_where, ℕ, ◌==◌, ◌∙◌, ◌≡◌}
use identity_hub.World.{AuditAction, ChallengeRow, HubSession, Tables, World, ok, statement, ◌>>=◌}
use identity_hub.World.Keeps.{
  Keeps, bind-Keeps, first_step, if-Keeps, new_uuid-Keeps, pure-Keeps, read_random-Keeps,
  statement-Keeps, with_id-Keeps,
}
use identity_hub.Sql.Mfa.{Joined, consume_mfa_challenge, is_open_id, use_at}
use identity_hub.Sql.Sessions.{NewToken, create_hub_session, create_refresh_token}
use identity_hub.Mfa.{Service, Session, VerifyInput, audit}
use identity_hub.Mfa.Verify.{create_hub, create_refresh, issue_session}
use identity_hub.Token.Reads.{issue_for_session-Keeps}

abbrev pub challenges : Tables → List ChallengeRow
challenges t = t.mfa_challenges

create_refresh_token-challenges :
    (user_id family_id : ℕ) (new : NewToken) (id at : ℕ) (t : Tables)
    → challenges (create_refresh_token user_id family_id new id at t).1 ≡ challenges t
unfolding create_refresh_token
create_refresh_token-challenges user_id family_id new id at t = ground arith

create_hub_session-challenges :
    (h : HubSession) (at : ℕ) (t : Tables) → challenges (create_hub_session h at t).1 ≡ challenges t
unfolding create_hub_session
create_hub_session-challenges h at t = ground arith

create_refresh-Keeps :
    (s : Service) (user_id family_id : ℕ) (input : VerifyInput) (at : ℕ)
    → Keeps challenges (create_refresh s user_id family_id input at)
unfolding create_refresh
create_refresh-Keeps s user_id family_id input at = bind-Keeps read_random-Keeps λ raw.
    bind-Keeps (with_id-Keeps _ (create_refresh_token-challenges user_id family_id _))
      λ _. pure-Keeps _

create_hub-Keeps :
    (s : Service) (user_id family_id at : ℕ) → Keeps challenges (create_hub s user_id family_id at)
unfolding create_hub
create_hub-Keeps s user_id family_id at = if-Keeps (s.hub_session_ttl == 0) (pure-Keeps []) (
    bind-Keeps read_random-Keeps
      λ raw. bind-Keeps (statement-Keeps _ (create_hub_session-challenges _)) λ _. pure-Keeps _)

pub audit-Keeps :
    (user_id : ℕ) (action : AuditAction) (reason : Option Bytes) (ip : Option ℕ)
    (user_agent : Option Bytes)
    → Keeps challenges (audit user_id action reason ip user_agent)
unfolding insert_audit_event
audit-Keeps user_id action reason ip user_agent = statement-Keeps _ (λ at t. refl)

consume-challenges :
    (id : ℕ) (w : World) (a : Unit {0})
    → (statement (consume_mfa_challenge id) w).0 ≡ ok a
    → challenges (statement (consume_mfa_challenge id) w).1.tables
      ≡ update_where (is_open_id id) (use_at w.tx_now) (challenges w.tables)
unfolding consume_mfa_challenge ◌>>=◌
consume-challenges id w a h = ground arith

-- After its first statement, issueSession leaves the challenges alone.
pub issue_session-challenges :
    (s : Service) (j : Joined) (input : VerifyInput) (at : ℕ) (w w' : World) (session : Session)
    → issue_session s j input at w ≡ (ok session, w')
    → challenges w'.tables
      ≡ update_where (is_open_id j.challenge.id) (use_at w.tx_now) (challenges w.tables)
unfolding issue_session list_roles_for_user update_last_login
issue_session-challenges s j input at w w' session h =
    let (a, ran, left) = first_step _ _ w w' session h λ _.
      bind-Keeps (statement-Keeps _ (λ at t. refl)) λ user_roles.
        bind-Keeps new_uuid-Keeps λ family_id.
          bind-Keeps (issue_for_session-Keeps s.tokens _ _ _) λ access.
            bind-Keeps (create_refresh-Keeps s _ family_id input at) λ refresh.
              bind-Keeps (create_hub-Keeps s _ family_id at) λ hub.
                bind-Keeps (statement-Keeps _ (λ at t. refl)) λ _.
                  bind-Keeps (audit-Keeps _ _ _ _ _)
                    λ _. bind-Keeps (audit-Keeps _ _ _ _ _) λ _. pure-Keeps _ in
    left ∙ consume-challenges j.challenge.id w a ran
