-- ===== src/InvitationResend/Single.antt =====
-- resend.go: the invitations of an account after a resend.
use identity_hub.Base.{
  List, Option-cases, [], ap, arith, find, find_sound, inl, inr, refl, select, some, suc, true,
  update_where, ℕ, ◌+◌, ◌==◌, ◌∙◌, ◌∷◌, ◌≡◌,
}
use identity_hub.World.{
  Tables, User, VerificationRow, World, begin, bind-ok, next, ok, transaction-ok, ◌>>=◌,
}
use identity_hub.World.Keeps.{Keeps, Keeps-same}
use identity_hub.Sql.Audit.{insert_audit_event}
use identity_hub.Sql.Reset.{
  create_invitation_token, invalidate_invitation_tokens, invitation_row, is_open_invitation,
  is_pending, spend_token,
}
use identity_hub.Sql.Directory.{get_user_by_id_for_update}
use identity_hub.InvitationResend.{
  Fresh, Input, Service, audit_and_publish, invitation_ttl, load_pending_user, replace_token,
  resend, resend_within,
}

abbrev letters : Tables → List VerificationRow
letters t = t.verification_tokens

pending_loaded :
    (user_id : ℕ) (w w' : World) (u : User)
    → load_pending_user user_id w ≡ (ok u, w')
    → (find (λ (q : User). q.id == user_id) w.tables.users ≡ some u)
      × (is_pending u ≡ true)
      × (w' ≡ next w)
unfolding load_pending_user get_user_by_id_for_update ◌>>=◌
pending_loaded user_id w w' u h =
    elim (Option-cases (find (λ (q : User). q.id == user_id) w.tables.users)) [
      | inl e ↦ ground arith
      | inr (q, e) ↦ (ground arith, ground arith, ground arith)
    ]

none_open :
    (user_id at : ℕ) (rows : List VerificationRow)
    → select
        (is_open_invitation user_id)
        (update_where (is_open_invitation user_id) (spend_token at) rows)
      ≡ []
none_open user_id at [] = refl
none_open user_id at (r ∷ rows) = ground (arith, none_open user_id at rows)

abbrev pub new_letter : Service → ℕ → World → VerificationRow
new_letter s user_id w =
    invitation_row user_id (s.ext.sha256 (w.env.random (suc w.tick)))
      (w.env.clock (suc (suc w.tick)) + invitation_ttl) (w.env.db_uuid (suc (suc (suc w.tick))))

-- The table that replaceToken writes.
abbrev written : Service → ℕ → World → List VerificationRow
written s user_id w =
    new_letter s user_id w
    ∷ update_where (is_open_invitation user_id) (spend_token w.tx_now) (letters w.tables)

replaced :
    (s : Service) (user_id : ℕ) (w w' : World) (f : Fresh)
    → replace_token s user_id w ≡ (ok f, w')
    → letters w'.tables
      ≡ new_letter s user_id w
        ∷ update_where (is_open_invitation user_id) (spend_token w.tx_now) (letters w.tables)
unfolding replace_token invalidate_invitation_tokens create_invitation_token ◌>>=◌
replaced s user_id w w' f h = ground arith

audit_and_publish-Keeps :
    (s : Service) (input : Input) (u : User) (f : Fresh)
    → Keeps letters (audit_and_publish s input u f)
unfolding audit_and_publish insert_audit_event ◌>>=◌
audit_and_publish-Keeps s input u f = record { at = λ w. ground arith }

-- When Resend succeeds, the account was pending, its one open invitation is the new one, whose token
-- was drawn by this call, and it expires a day after the call's clock.
pub resend_single :
    (s : Service) (input : Input) (w w' : World) (u : Unit {0})
    → resend s input w ≡ (ok u, w')
    → (account : User) × (find (λ (q : User). q.id == input.user_id) w.tables.users ≡ some account)
      × (is_pending account ≡ true)
      × (select (is_open_invitation input.user_id) w'.tables.verification_tokens
          ≡ new_letter s input.user_id (next (begin w)) ∷ [])
unfolding resend resend_within
resend_single s input w w' u h =
    let (w₁, ran, left) = transaction-ok (resend_within s input) w w' u h in
    let (account, w₂, loading, rest) =
      bind-ok (load_pending_user input.user_id)
        (λ a. replace_token s a.id >>= audit_and_publish s input a) (begin w) w₁ u ran in
    let (found, pending, same) = pending_loaded input.user_id (begin w) w₂ account loading in
    let (f, w₃, replacing, end) =
      bind-ok (replace_token s account.id) (audit_and_publish s input account) w₂ w₁ u rest in
    let owner = find_sound (λ (q : User). q.id == input.user_id) w.tables.users account found in
    let rows = replaced s account.id w₂ w₃ f replacing in
    let kept =
      Keeps-same {f = letters} (audit_and_publish-Keeps s input account f) w₃ w₁ (ok u) end in
    let id : account.id ≡ input.user_id = ground (arith, owner) in
    let table : letters w'.tables
        ≡ new_letter s input.user_id (next (begin w))
          ∷ update_where (is_open_invitation input.user_id) (spend_token (begin w).tx_now)
              (letters w.tables) =
      ap {B = List VerificationRow} (λ (z : World). letters z.tables) left
      ∙ kept
      ∙ rows
      ∙ ap {B = List VerificationRow} (λ (i : ℕ). written s i w₂) id
      ∙ ap {B = List VerificationRow} (λ (z : World). written s input.user_id z) same in
    (
      account,
      found,
      pending,
      ground (arith, table, none_open input.user_id (begin w).tx_now (letters w.tables)),
    )
