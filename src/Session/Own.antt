-- ===== src/Session/Own.antt =====
-- session.go: the revocation of one session.
use identity_hub.Base.{
  Bool, arith, exists_where, exists_where-update_where, false, if◌then◌else◌, not, select,
  select-update_where, ℕ, ◌&&◌, ◌==◌, ◌≡◌,
}
use identity_hub.World.{
  Env, RefreshRow, World, calm, err, ok, session_not_found, transaction, ◌>>=◌,
}
use identity_hub.Sql.Audit.{insert_audit_event}
use identity_hub.Sql.Sessions.{is_open_session, revoke, revoke_active_refresh_session}
use identity_hub.Session.{revoke_session}

abbrev pub of_others : ℕ → RefreshRow → Bool
of_others user_id r = not (r.user_id == user_id)

abbrev pub elsewhere : ℕ → ℕ → RefreshRow → Bool
elsewhere user_id family r = not (r.user_id == user_id && r.family_id == family)

-- Where no call fails, revoking a session succeeds exactly when the user has an active, unexpired
-- token of the family, and is not found otherwise; afterwards there is no such token, and the tokens of
-- all other users and those of the user's other families are as before.
pub revoke_session_lem :
    (user_id family : ℕ) (w : World) (e : Env)
    → let at = e.db_clock w.tick in
      let open_ = is_open_session user_id family at in
      let after = (revoke_session user_id family (calm e w)).1.tables.refresh_tokens in
      ((revoke_session user_id family (calm e w)).0
        ≡ (if exists_where open_ w.tables.refresh_tokens then ok tt else err session_not_found))
      × (exists_where open_ after ≡ false)
      × (select (of_others user_id) after ≡ select (of_others user_id) w.tables.refresh_tokens)
      × (select (elsewhere user_id family) after
          ≡ select (elsewhere user_id family) w.tables.refresh_tokens)
unfolding revoke_session ◌>>=◌ transaction revoke_active_refresh_session insert_audit_event
revoke_session_lem user_id family w e =
    let at = e.db_clock w.tick in
    let open_ = is_open_session user_id family at in
    let rows = w.tables.refresh_tokens in
    (
      ground arith,
      ground (arith, exists_where-update_where open_ revoke rows (λ r h. ground arith)),
      ground (
        arith,
        select-update_where open_ (of_others user_id) revoke rows (λ r h. ground arith)
            (λ r h. ground arith),
      ),
      ground (
        arith,
        select-update_where open_ (elsewhere user_id family) revoke rows (λ r h. ground arith)
            (λ r h. ground arith),
      ),
    )
