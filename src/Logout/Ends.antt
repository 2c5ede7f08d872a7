-- ===== src/Logout/Ends.antt =====
-- logout.go: a logout and the refreshes after it.
use identity_hub.Base.{
  Bytes, List, Option, Option-cases, [], ap, arith, false, find, inl, inr, ltb, refl, some, suc,
  sym, update_where, ℕ, ◌&&◌, ◌∙◌, ◌∷◌, ◌≡◌, ◌≢◌, ◌≤◌,
}
use identity_hub.World.{
  Action, External, RefreshRow, Result-cases, Tables, User, World, begin, invalid_refresh_token,
  map_error, no_rows_as, ok, revoked, statement, transaction-ok, ◌>>=◌,
}
use identity_hub.World.Keeps.{bind-Keeps, first_step, statement-Keeps}
use identity_hub.Sql.Audit.{insert_audit_event}
use identity_hub.Sql.Sessions.{
  is_candidate, is_fresh, is_usable, revoke_hub_sessions_for_user, revoke_refresh_token,
}
use identity_hub.Logout.{Input, logout, revoke_presented}
use identity_hub.Refresh.Once.{rotated-fresh}
use identity_hub.Refresh.Reuse.{refresh-attempt}
use identity_hub.Refresh

abbrev tokens_of : Tables → List RefreshRow
tokens_of t = t.refresh_tokens

abbrev log_out : ℕ → RefreshRow → RefreshRow
log_out at r = record r { status = revoked; last_used_at = some at }

revoke_token-rows :
    (hash : Bytes) (w : World) (user_id : ℕ)
    → (statement (revoke_refresh_token hash) w).0 ≡ ok user_id
    → tokens_of (statement (revoke_refresh_token hash) w).1.tables
      ≡ update_where (is_usable hash w.tx_now) (log_out w.tx_now) (tokens_of w.tables)
unfolding revoke_refresh_token ◌>>=◌
revoke_token-rows hash w user_id h =
    elim (Option-cases (find (is_usable hash w.tx_now) w.tables.refresh_tokens)) [
      | inl e ↦ ground arith
      | inr (r, e) ↦ ground arith
    ]

abbrev revoke_presented_token : Bytes → Action ℕ
revoke_presented_token hash =
    map_error (no_rows_as invalid_refresh_token) (statement (revoke_refresh_token hash))

presented-rows :
    (hash : Bytes) (w : World) (user_id : ℕ)
    → (revoke_presented_token hash w).0 ≡ ok user_id
    → tokens_of (revoke_presented_token hash w).1.tables
      ≡ update_where (is_usable hash w.tx_now) (log_out w.tx_now) (tokens_of w.tables)
unfolding ◌>>=◌
presented-rows hash w user_id h = elim (Result-cases (statement (revoke_refresh_token hash) w).0) [
  | inr (x, e) ↦ ground arith
  | inl (u, e) ↦ ground (arith, revoke_token-rows hash w u e)
]

revoke_presented-rows :
    (hash : Bytes) (input : Input) (w w' : World) (u : Unit {0})
    → revoke_presented hash input w ≡ (ok u, w')
    → tokens_of w'.tables
      ≡ update_where (is_usable hash w.tx_now) (log_out w.tx_now) (tokens_of w.tables)
unfolding revoke_presented revoke_hub_sessions_for_user insert_audit_event
revoke_presented-rows hash input w w' u h =
    let (user_id, ran, left) = first_step {f = tokens_of} _ _ w w' u h λ user_id.
      bind-Keeps (statement-Keeps _ (λ at t. refl)) λ _. statement-Keeps _ (λ at t. refl) in
    left ∙ presented-rows hash w user_id ran

logout-rows :
    (ext : External) (input : Input) (raw : Bytes) (w w' : World) (u : Unit {0})
    → ext.decode input.refresh_token ≡ some raw
    → logout ext input w ≡ (ok u, w')
    → tokens_of w'.tables
      ≡ update_where
          (is_usable (ext.sha256 raw) (w.env.db_clock w.tick))
          (log_out (w.env.db_clock w.tick))
          (tokens_of w.tables)
unfolding logout ◌>>=◌
logout-rows ext input raw w w' u d h =
    let (w₁, ran, kept) =
      transaction-ok (revoke_presented (ext.sha256 raw) input) w w' u (ground arith) in
    ap {B = List RefreshRow} (λ (z : World). tokens_of z.tables) kept
    ∙ revoke_presented-rows (ext.sha256 raw) input (begin w) w₁ u ran

-- After the update no row with the hash is usable at a later time.
no_candidate :
    (hash : Bytes) (at later : ℕ) (us : List User) (rows : List RefreshRow) (c : RefreshRow)
    → at ≤ later
    → find (is_candidate hash us) (update_where (is_usable hash at) (log_out at) rows) ≡ some c
    → (is_fresh c.status && ltb later c.expires_at) ≡ false
no_candidate hash at later us [] c le h = ground arith
no_candidate hash at later us (r ∷ rows) c le h =
    ground (arith, no_candidate hash at later us rows c le)

-- After a logout that succeeded, no refresh with the same token, which decodes, returns a session, as
-- long as the refresh tokens are as the logout left them and the database's clock has not gone back.
pub logout_ends_refresh :
    (s : Refresh.Service) (input : Input) (again : Refresh.Input) (raw : Bytes) (w w' v v' : World)
    (u : Unit {0}) (session : Refresh.Session)
    → s.ext.decode input.refresh_token ≡ some raw
    → again.refresh_token ≡ input.refresh_token
    → v.tables.refresh_tokens ≡ w'.tables.refresh_tokens
    → w.env.db_clock w.tick ≤ v.env.db_clock (suc v.tick)
    → logout s.ext input w ≡ (ok u, w')
    → Refresh.refresh s again v ≢ (ok session, v')
logout_ends_refresh s input again raw w w' v v' u session d same kept le h h' =
    let (row, made, turned) =
      refresh-attempt s again raw v v' session (ap s.ext.decode same ∙ d) h' in
    let (c, found, usable) = rotated-fresh _ _ _ _ v.tables v'.tables row made turned in
    let rows = kept ∙ logout-rows s.ext input raw w w' u d h in
    ground (
      arith,
      no_candidate (s.ext.sha256 raw) (w.env.db_clock w.tick) (v.env.db_clock (suc v.tick))
          v.tables.users w.tables.refresh_tokens c le
          (ap {B = Option RefreshRow} (find (is_candidate (s.ext.sha256 raw) v.tables.users))
              (sym rows)
            ∙ found),
    )
