-- ===== src/Trace/Statements.antt =====
-- users.sql.go: the statements that write refresh_tokens, as steps of its machine.
use identity_hub.Base.{
  Bool, Bool-cases, Bytes, List, Option, Option-cases, arith, bytes_eq, false, find, inl, inr, ltb,
  none, refl, some, subst, sym, update_where, ℕ, ◌&&◌, ◌==◌, ◌∷◌, ◌≡◌,
}
use identity_hub.World.{RefreshRow, Tables, User, VerificationRow, fresh, revoked}
use identity_hub.Sql.Sessions.{
  NewToken, create_refresh_token, in_family, is_candidate, is_fresh, is_open_session, is_usable,
  mark_rotated, revoke, revoke_active_refresh_session, revoke_refresh_family, revoke_refresh_token,
  rotate_refresh_token, successor, violates,
}
use identity_hub.Sql.Reset.{
  consume_password_reset_token, is_live_token_of, is_unspent, reset_account,
}
use identity_hub.Trace.Steps.{Revokes, Steps, end, insert, next_step, stay}
use identity_hub.Trace.Moves.{refresh_rows}

by_stay : {rows rows' : List RefreshRow} → rows' ≡ rows → Steps rows rows'
by_stay {rows} e = subst (Steps rows) (sym e) stay

by_insert :
    {rows rows' mid : List RefreshRow} (new : RefreshRow)
    → Steps rows mid
    → violates new mid ≡ false
    → rows' ≡ new ∷ mid
    → Steps rows rows'
by_insert {rows} new s v e = subst (Steps rows) (sym e) (next_step s (insert new v))

by_end :
    {rows rows' : List RefreshRow} (p : RefreshRow → Bool) (f : RefreshRow → RefreshRow)
    → Revokes f
    → rows' ≡ update_where p f rows
    → Steps rows rows'
by_end {rows} p f r e = subst (Steps rows) (sym e) (next_step stay (end p f r))

revoke-Revokes : Revokes revoke
revoke-Revokes = record { keeps_hash = λ r. refl; keeps_family = λ r. refl; ends = λ r. refl }

mark_rotated-Revokes : (at : ℕ) → Revokes (mark_rotated at)
mark_rotated-Revokes at = record {
  keeps_hash = λ r. refl;
  keeps_family = λ r. refl;
  ends = λ r. refl;
}

pub create_refresh_token-Steps :
    (user_id family_id : ℕ) (new : NewToken) (id at : ℕ) (t : Tables)
    → Steps (refresh_rows t) (refresh_rows (create_refresh_token user_id family_id new id at t).1)
unfolding create_refresh_token
create_refresh_token-Steps user_id family_id new id at t =
    let row : RefreshRow = record {
      id = id;
      user_id = user_id;
      token_hash = new.token_hash;
      family_id = family_id;
      parent_id = none;
      status = fresh;
      ip = new.ip;
      user_agent = new.user_agent;
      expires_at = new.expires_at;
      created_at = at;
      last_used_at = none;
    } in
    elim (Bool-cases (violates row t.refresh_tokens)) [
      | inl e ↦ by_stay (ground arith)
      | inr e ↦ by_insert row stay e (ground arith)
    ]

pub rotate_refresh_token-Steps :
    (hash : Bytes) (new : NewToken) (id at : ℕ) (t : Tables)
    → Steps (refresh_rows t) (refresh_rows (rotate_refresh_token hash new id at t).1)
unfolding rotate_refresh_token
rotate_refresh_token-Steps hash new id at t =
    elim (Option-cases (find (is_candidate hash t.users) t.refresh_tokens)) [
      | inl e ↦ by_stay (ground arith)
      | inr (c, e) ↦ elim (Bool-cases (is_fresh c.status && ltb at c.expires_at)) [
        | inr f ↦ by_stay (ground arith)
        | inl f ↦
            let mid =
              update_where (λ (r : RefreshRow). r.id == c.id) (mark_rotated at) t.refresh_tokens in
            elim (Bool-cases (violates (successor id c new at) mid)) [
              | inl v ↦ by_stay (ground arith)
              | inr v ↦
                  by_insert (successor id c new at)
                    (next_step stay (
                      end (λ (r : RefreshRow). r.id == c.id) (mark_rotated at)
                        (mark_rotated-Revokes at)))
                    v (ground arith)
            ]
      ]
    ]

pub revoke_refresh_family-Steps :
    (family at : ℕ) (t : Tables)
    → Steps (refresh_rows t) (refresh_rows (revoke_refresh_family family at t).1)
unfolding revoke_refresh_family
revoke_refresh_family-Steps family at t = by_end (in_family family) revoke revoke-Revokes refl

pub revoke_active_refresh_session-Steps :
    (user_id family at : ℕ) (t : Tables)
    → Steps (refresh_rows t) (refresh_rows (revoke_active_refresh_session user_id family at t).1)
unfolding revoke_active_refresh_session
revoke_active_refresh_session-Steps user_id family at t =
    by_end (is_open_session user_id family at) revoke revoke-Revokes refl

abbrev end_at : ℕ → RefreshRow → RefreshRow
end_at at q = record q { status = revoked; last_used_at = some at }

pub revoke_refresh_token-Steps :
    (hash : Bytes) (at : ℕ) (t : Tables)
    → Steps (refresh_rows t) (refresh_rows (revoke_refresh_token hash at t).1)
unfolding revoke_refresh_token
revoke_refresh_token-Steps hash at t =
    elim (Option-cases (find (is_usable hash at) t.refresh_tokens)) [
      | inl e ↦ by_stay (ground arith)
      | inr (r, e) ↦
          by_end (is_usable hash at) (end_at at)
            (record { keeps_hash = λ r. refl; keeps_family = λ r. refl; ends = λ r. refl })
            (ground arith)
    ]

reset_account-Steps :
    (r : VerificationRow) (hash : Bytes) (at : ℕ) (t : Tables) (u : Option User)
    → Steps (refresh_rows t) (refresh_rows (reset_account r hash at t u).1)
reset_account-Steps r hash at t none = stay
reset_account-Steps r hash at t (some u) =
    by_end (is_live_token_of r.user_id) revoke revoke-Revokes refl

pub consume_password_reset_token-Steps :
    (token_hash hash : Bytes) (at : ℕ) (t : Tables)
    → Steps (refresh_rows t) (refresh_rows (consume_password_reset_token token_hash hash at t).1)
unfolding consume_password_reset_token
consume_password_reset_token-Steps token_hash hash at t =
    elim (Option-cases
      (find (λ (r : VerificationRow). bytes_eq r.token_hash token_hash) t.verification_tokens)) [
        | inl e ↦ by_stay (ground arith)
        | inr (r, e) ↦ elim (Bool-cases (is_unspent r && ltb at r.expires_at)) [
          | inr f ↦ by_stay (ground arith)
          | inl f ↦
              subst (Steps (refresh_rows t)) (ground arith)
                (reset_account-Steps r hash at t (find (λ (u : User). u.id == r.user_id) t.users))
        ]
      ]
