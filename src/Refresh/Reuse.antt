-- ===== src/Refresh/Reuse.antt =====
-- refresh.go: a refresh token that is presented again.
use identity_hub.Sql.Users.{list_roles_for_user}
use identity_hub.Base.{
  All, Bytes, List, Option-cases, [], ap, arith, bytes_eq, bytes_eq_refl, bytes_eq_sound, false,
  find, find-exists_where, find-update_where, find_sound, inl, inr, is_empty, refl, some, suc, sym,
  true, update_where, ℕ, ◌+◌, ◌==◌, ◌||◌, ◌∙◌, ◌∷◌, ◌≡◌, ◌≢◌,
}
use identity_hub.World.{
  Action, Env, RefreshRow, Result, Result-cases, Tables, User, World, begin, calm, err, next, ok,
  refresh_reuse, rotated, transaction, transaction-ok, ◌>>=◌,
}
use identity_hub.Sql.Sessions.{
  NewToken, Rotated, in_family, is_candidate, is_revoked, mark_rotated, revoke,
  revoke_refresh_family, rotate_refresh_token, successor, violates,
}
use identity_hub.World.Keeps.{Keeps, bind-Keeps, pure-Keeps, statement-Keeps}
use identity_hub.Token
use identity_hub.Token.Reads.{issue_for_session-Keeps}
use identity_hub.Refresh.{
  Input, Outcome, Rotation, Service, Session, finish_after_commit, handle_reuse,
  issue_rotated_session, issued, refresh, refresh_with, reuse, rotate_within_transaction, rotation,
}
use identity_hub.Sql.Audit.{insert_audit_event}

-- The row of a rotated token, seen again.
abbrev seen_again : Rotated → Rotated
seen_again row = record row { status = rotated; rotated_now = false }

-- A new token never takes over the hash of the one that it replaces.
pub successor_differs :
    (c : RefreshRow) (hash : Bytes) (new : NewToken) (id at : ℕ) (us : List User)
    (rows : List RefreshRow)
    → find (is_candidate hash us) rows ≡ some c
    → violates (successor id c new at) (update_where (λ r. r.id == c.id) (mark_rotated at) rows)
      ≡ false
    → bytes_eq new.token_hash hash ≡ false
successor_differs c hash new id at us rows found free = ground (
  arith,
  bytes_eq_sound new.token_hash hash,
  bytes_eq_sound c.token_hash hash,
  bytes_eq_refl hash,
  find_sound (is_candidate hash us) rows c found,
  find-exists_where (is_candidate hash us)
      (λ (r : RefreshRow). bytes_eq r.token_hash new.token_hash)
      (update_where (λ (r : RefreshRow). r.id == c.id) (mark_rotated at) rows) (mark_rotated at c),
  find-update_where (is_candidate hash us) (λ (r : RefreshRow). r.id == c.id) (mark_rotated at) rows
      c (λ r. refl) found,
)

rotate_again :
    (hash : Bytes) (new later : NewToken) (id id' at at' : ℕ) (t t' : Tables) {row : Rotated}
    → rotate_refresh_token hash new id at t ≡ (ok row, t')
    → row.rotated_now ≡ true
    → rotate_refresh_token hash later id' at' t' ≡ (ok (seen_again row), t')
unfolding rotate_refresh_token
rotate_again hash new later id id' at at' t t' {row} h e =
    elim (Option-cases (find (is_candidate hash t.users) t.refresh_tokens)) [
      | inl missing ↦ ground arith
      | inr (c, found) ↦ ground (
        arith,
        successor_differs c hash new id at t.users t.refresh_tokens found,
        find-update_where (is_candidate hash t.users) (λ (r : RefreshRow). r.id == c.id)
            (mark_rotated at) t.refresh_tokens c (λ r. refl) found,
      )
    ]

-- The statement that `rotate_within_transaction` makes, when the cookie decodes to `raw` and the new
-- token is `bytes`.
abbrev pub attempt_at : Service → Input → Bytes → Bytes → World → Result Rotated × Tables
attempt_at s input raw bytes w =
    rotate_refresh_token (s.ext.sha256 raw)
      (record {
        token_hash = s.ext.sha256 bytes;
        ip = input.ip;
        user_agent = input.user_agent;
        expires_at = w.env.clock w.tick + s.refresh_ttl;
      })
      (w.env.db_uuid (suc w.tick)) w.tx_now w.tables

abbrev whole : Tables → Tables
whole t = t

-- Issuing the session reads the tables only.
issue_rotated_session-Keeps :
    (s : Service) (tokens : Token.Service) (r : Rotation) (raw : Bytes)
    → Keeps whole (issue_rotated_session s tokens r raw)
unfolding issue_rotated_session list_roles_for_user
issue_rotated_session-Keeps s tokens r raw =
    bind-Keeps (statement-Keeps _ (λ at t. refl))
      λ user_roles. bind-Keeps (issue_for_session-Keeps tokens _ _ _) λ access. pure-Keeps _

issue_rotated_session-tables :
    (s : Service) (tokens : Token.Service) (r : Rotation) (raw : Bytes) (w : World)
    → (issue_rotated_session s tokens r raw w).1.tables ≡ w.tables
issue_rotated_session-tables s tokens r raw w = (issue_rotated_session-Keeps s tokens r raw).at w

handle_reuse-outcome :
    (r : Rotation) (input : Input) (w w' : World) (session : Session)
    → handle_reuse r input w ≢ (ok (issued session), w')
unfolding ◌>>=◌ handle_reuse revoke_refresh_family insert_audit_event
handle_reuse-outcome r input w w' session h = ground arith

-- A session is issued only by a rotation, and the tables are those that the rotation left.
rotate-attempt :
    (s : Service) (tokens : Token.Service) (input : Input) (raw bytes : Bytes) (w w' : World)
    (session : Session)
    → s.ext.decode input.refresh_token ≡ some raw
    → rotate_within_transaction s tokens input bytes (s.ext.sha256 bytes) w
      ≡ (ok (issued session), w')
    → (row : Rotated) × (attempt_at s input raw bytes w ≡ (ok row, w'.tables))
      × (row.rotated_now ≡ true)
unfolding ◌>>=◌ rotate_within_transaction
rotate-attempt s tokens input raw bytes w w' session d h =
    elim (Result-cases (attempt_at s input raw bytes w).0) [
      | inl (row, e) ↦ (
        row,
        ground (
          arith,
          issue_rotated_session-tables s tokens (rotation row) bytes
              (record w { tick = suc (suc w.tick); tables = (attempt_at s input raw bytes w).1 }),
          handle_reuse-outcome (rotation row) input
              (record w { tick = suc (suc w.tick); tables = (attempt_at s input raw bytes w).1 }) w'
              session,
        ),
        ground (
          arith,
          handle_reuse-outcome (rotation row) input
              (record w { tick = suc (suc w.tick); tables = (attempt_at s input raw bytes w).1 }) w'
              session,
        ),
      )
      | inr (e, f) ↦ ground arith
    ]

finish_after_commit-ok :
    (s : Service) (o : Outcome) (w w' : World) (session : Session)
    → finish_after_commit s o w ≡ (ok session, w')
    → (o ≡ issued session) × (w' ≡ w)
unfolding ◌>>=◌ finish_after_commit
finish_after_commit-ok s (issued x) w w' session h = (ground arith, ground arith)
finish_after_commit-ok s (reuse event) w w' session h = ground arith

module _ (s : Service) (tokens : Token.Service) (input : Input) (w : World) where
  abbrev rotation_body : Action Outcome
  rotation_body =
      rotate_within_transaction s tokens input (w.env.random w.tick)
        (s.ext.sha256 (w.env.random w.tick))

  refresh_with-ok :
      (w' : World) (session : Session)
      → refresh_with s tokens input w ≡ (ok session, w')
      → (w₁ : World) × (rotation_body (begin (next w)) ≡ (ok (issued session), w₁)) × (w' ≡ next w₁)
  unfolding ◌>>=◌
  refresh_with-ok w' session h = elim (Result-cases (transaction rotation_body (next w)).0) [
    | inr (x, f) ↦ ground arith
    | inl (o, f) ↦
        let z = (transaction rotation_body (next w)).1 in
        let (w₁, ran, kept) = transaction-ok rotation_body (next w) z o (ground arith) in
        let (same, left) = finish_after_commit-ok s o z w' session (ground arith) in
        (w₁, rw (← same) ran, left ∙ kept)
  ]

-- What a session that `refresh` returned says of the call.
pub refresh-attempt :
    (s : Service) (input : Input) (raw : Bytes) (w w' : World) (session : Session)
    → s.ext.decode input.refresh_token ≡ some raw
    → refresh s input w ≡ (ok session, w')
    → (row : Rotated) × (attempt_at s input raw (w.env.random w.tick) (begin (next w))
        ≡ (ok row, w'.tables))
      × (row.rotated_now ≡ true)
unfolding ◌>>=◌ refresh
refresh-attempt s input raw w w' session d h = elim (Option-cases s.tokens) [
  | inl e ↦ ground arith
  | inr (tokens, e) ↦
      let (w₁, ran, kept) = refresh_with-ok s tokens input w w' session (ground arith) in
      let (row, made, turned) =
        rotate-attempt s tokens input raw (w.env.random w.tick) (begin (next w)) w₁ session d ran in
      (row, made ∙ ap {B = Result Rotated × Tables} (λ z. (ok row, z.tables)) (sym kept), turned)
]

-- No live token is left in a family.
abbrev pub IsRevoked : ℕ → RefreshRow → Type 0
IsRevoked family r = r.family_id ≡ family → is_revoked r.status ≡ true

revoke-IsRevoked :
    (family : ℕ) (rows : List RefreshRow)
    → All (IsRevoked family) (update_where (in_family family) revoke rows)
revoke-IsRevoked family [] = tt
revoke-IsRevoked family (r ∷ rs) = (λ e. ground arith, revoke-IsRevoked family rs)

-- In a calm world a reused token ends in `refresh_reuse`, and its family is revoked.
refresh_reused :
    (s : Service) (tokens : Token.Service) (input : Input) (raw : Bytes) (w : World) (e : Env)
    (row : Rotated)
    → s.tokens ≡ some tokens
    → (s.refresh_ttl == 0 || is_empty input.refresh_token) ≡ false
    → s.ext.decode input.refresh_token ≡ some raw
    → attempt_at s input raw (e.random w.tick) (begin (next (calm e w))) ≡ (ok row, w.tables)
    → row.rotated_now ≡ false
    → row.status ≡ rotated
    → ((refresh s input (calm e w)).0 ≡ err refresh_reuse)
      × ((refresh s input (calm e w)).1.tables.refresh_tokens
          ≡ update_where (in_family row.family_id) revoke w.tables.refresh_tokens)
unfolding ◌>>=◌ refresh finish_after_commit transaction rotate_within_transaction handle_reuse
    revoke_refresh_family insert_audit_event
refresh_reused s tokens input raw w e row some_tokens wired d made unrotated was = ground arith

rotate-family :
    (hash : Bytes) (new : NewToken) (id at : ℕ) (t t' : Tables) (row : Rotated) (c : RefreshRow)
    → rotate_refresh_token hash new id at t ≡ (ok row, t')
    → find (is_candidate hash t.users) t.refresh_tokens ≡ some c
    → row.family_id ≡ c.family_id
unfolding rotate_refresh_token
rotate-family hash new id at t t' row c h found = ground arith

refresh-IsWired :
    (s : Service) (input : Input) (w w' : World) (session : Session)
    → refresh s input w ≡ (ok session, w')
    → (tokens : Token.Service) × (s.tokens ≡ some tokens)
      × ((s.refresh_ttl == 0 || is_empty input.refresh_token) ≡ false)
unfolding ◌>>=◌ refresh
refresh-IsWired s input w w' session h = elim (Option-cases s.tokens) [
  | inl e ↦ ground arith
  | inr (tokens, e) ↦ (tokens, e, ground arith)
]

-- When a refresh token that decodes, and whose row of an active user is stored, has bought a session,
-- the same request made to the tables that the session left, in a world where no call fails, ends in
-- `refresh_reuse`, and every token of its family is revoked, the new one too.
pub replay_revokes_family :
    (s : Service) (input : Input) (raw : Bytes) (w w' : World) (e : Env) (session : Session)
    (c : RefreshRow)
    → s.ext.decode input.refresh_token ≡ some raw
    → find (is_candidate (s.ext.sha256 raw) w.tables.users) w.tables.refresh_tokens ≡ some c
    → refresh s input w ≡ (ok session, w')
    → ((refresh s input (calm e w')).0 ≡ err refresh_reuse)
      × All (IsRevoked c.family_id) (refresh s input (calm e w')).1.tables.refresh_tokens
replay_revokes_family s input raw w w' e session c d found h =
    let (row, made, turned) = refresh-attempt s input raw w w' session d h in
    let (tokens, some_tokens, wired) = refresh-IsWired s input w w' session h in
    let again = rotate_again _ _ _ _ _ _ _ w.tables w'.tables made turned in
    let (refused, rows) =
      refresh_reused s tokens input raw w' e (seen_again row) some_tokens wired d again refl refl in
    (
      refused,
      rw (rows, rotate-family _ _ _ _ w.tables w'.tables row c made found)
          (revoke-IsRevoked c.family_id w'.tables.refresh_tokens),
    )
