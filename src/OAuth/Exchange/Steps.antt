-- ===== src/OAuth/Exchange/Steps.antt =====
-- oauth.go, Exchange: the writer's calls.
use identity_hub.Base.{
  Bytes, List, Option-cases, arith, bytes_eq, find, inl, inr, is_some, refl, some, true,
  update_where, ℕ, ◌&&◌, ◌<◌, ◌==◌, ◌≡◌,
}
use identity_hub.World.{
  Application, CodeRow, Error, Result-cases, Tables, World, err, next, no_rows, ok, statement,
  ◌>>=◌,
}
use identity_hub.World.Keeps.{Keeps, bind-Keeps, pure-Keeps, statement-Keeps}
use identity_hub.Sql.Audit.{insert_audit_event}
use identity_hub.Sql.Codes.{
  Locked, get_authorization_code_for_update, get_used_authorization_code_owner, is_unused,
  is_unused_id, list_application_roles_for_user, list_permission_keys, mark_authorization_code_used,
  mark_used,
}
use identity_hub.OAuth.Exchange.{
  ExchangeResult, Redemption, exchange_authorization_code, exchange_result, is_bound, redeem,
  redeemed, replayed, settle, tell_replay, unusable,
}

abbrev pub codes_of : Tables → List CodeRow
codes_of t = t.authorization_codes

exchange_result-Keeps :
    (user_id : ℕ) (client_id : Bytes) → Keeps codes_of (exchange_result user_id client_id)
unfolding exchange_result list_application_roles_for_user list_permission_keys insert_audit_event
exchange_result-Keeps user_id client_id = bind-Keeps (statement-Keeps _ (λ at t. refl)) λ granted.
    bind-Keeps (statement-Keeps _ (λ at t. refl))
      λ _. bind-Keeps (statement-Keeps _ (λ at t. refl)) λ _. pure-Keeps _

pub settle-Keeps : (client_id : Bytes) (r : Redemption) → Keeps codes_of (settle client_id r)
unfolding settle insert_audit_event
settle-Keeps client_id (redeemed owner) = exchange_result-Keeps owner client_id
settle-Keeps client_id (replayed owner) =
    bind-Keeps (statement-Keeps _ (λ at t. refl)) λ _. pure-Keeps _
settle-Keeps client_id unusable = pure-Keeps _

pub settle-redeemed :
    (client_id : Bytes) (r : Redemption) (w w' : World) (result : ExchangeResult)
    → settle client_id r w ≡ (ok (some result), w')
    → (owner : ℕ) × (r ≡ redeemed owner)
unfolding settle ◌>>=◌
settle-redeemed client_id (redeemed owner) w w' result h = (owner, refl)
settle-redeemed client_id (replayed owner) w w' result h = ground arith
settle-redeemed client_id unusable w w' result h = ground arith

get_code-tables :
    (hash : Bytes) (used_at at : ℕ) (t : Tables)
    → (get_authorization_code_for_update hash used_at at t).1 ≡ t
unfolding get_authorization_code_for_update
get_code-tables hash used_at at t = ground arith

pub get_code-ok :
    (hash : Bytes) (used_at at : ℕ) (t : Tables) (l : Locked)
    → (get_authorization_code_for_update hash used_at at t).0 ≡ ok l
    → (find (λ c. bytes_eq c.code_hash hash) t.authorization_codes ≡ some l.code)
      × (is_unused l.code ≡ true)
      × (used_at < l.code.expires_at)
      × ((a : Application) × (find (λ q. q.id == l.code.application_id) t.applications ≡ some a)
          × (l.client_id ≡ a.client_id))
unfolding get_authorization_code_for_update
get_code-ok hash used_at at t l h =
    elim (Option-cases (find (λ (c : CodeRow). bytes_eq c.code_hash hash) t.authorization_codes)) [
      | inl e ↦ ground arith
      | inr (c, e) ↦
          elim (Option-cases
            (find (λ (a : Application). a.id == c.application_id) t.applications)) [
              | inl f ↦ ground arith
              | inr (a, f) ↦
                  (ground arith, ground arith, ground arith, (a, ground arith, ground arith))
            ]
    ]

pub redeem-redeemed :
    (client_id redirect_uri challenge : Bytes) (used_at : ℕ) (l : Locked) (w w' : World) (owner : ℕ)
    → redeem client_id redirect_uri challenge used_at l w ≡ (ok (redeemed owner), w')
    → (is_bound client_id redirect_uri challenge l ≡ true)
      × (owner ≡ l.code.user_id)
      × (codes_of w'.tables
          ≡ update_where (is_unused_id l.code.id) (mark_used used_at) (codes_of w.tables))
unfolding ◌>>=◌ mark_authorization_code_used
redeem-redeemed client_id redirect_uri challenge used_at l w w' owner h =
    (ground arith, ground arith, ground arith)

get_code-err :
    (hash : Bytes) (used_at at : ℕ) (t : Tables) (e : Error)
    → (get_authorization_code_for_update hash used_at at t).0 ≡ err e
    → e ≡ no_rows
unfolding get_authorization_code_for_update
get_code-err hash used_at at t e h =
    elim (Option-cases (find (λ (c : CodeRow). bytes_eq c.code_hash hash) t.authorization_codes)) [
      | inl f ↦ ground arith
      | inr (c, f) ↦
          elim (Option-cases
            (find (λ (a : Application). a.id == c.application_id) t.applications)) [
              | inl g ↦ ground arith
              | inr (a, g) ↦ ground arith
            ]
    ]

tell_replay_redeemed :
    (hash : Bytes) (w w' : World) (owner : ℕ)
    → tell_replay (statement (get_used_authorization_code_owner hash) w) ≡ (ok (redeemed owner), w')
    → ⊥
unfolding ◌>>=◌ get_used_authorization_code_owner
tell_replay_redeemed hash w w' owner h =
    elim (Option-cases (
      find (λ (c : CodeRow). bytes_eq c.code_hash hash && is_some c.used_at)
        w.tables.authorization_codes)) [ inl f ↦ ground arith | inr (c, f) ↦ ground arith ]

pub exchange_code-redeemed :
    (hash client_id redirect_uri challenge : Bytes) (used_at : ℕ) (w w' : World) (owner : ℕ)
    → exchange_authorization_code hash client_id redirect_uri challenge used_at w
      ≡ (ok (redeemed owner), w')
    → (l : Locked) × ((get_authorization_code_for_update hash used_at w.tx_now w.tables).0 ≡ ok l)
      × (redeem client_id redirect_uri challenge used_at l (next w) ≡ (ok (redeemed owner), w'))
unfolding exchange_authorization_code ◌>>=◌
exchange_code-redeemed hash client_id redirect_uri challenge used_at w w' owner h =
    elim (Result-cases (get_authorization_code_for_update hash used_at w.tx_now w.tables).0) [
      | inl (l, e) ↦ (l, e, ground (arith, get_code-tables hash used_at w.tx_now w.tables))
      | inr (x, e) ↦ ground (
        arith,
        get_code-err hash used_at w.tx_now w.tables x e,
        get_code-tables hash used_at w.tx_now w.tables,
        tell_replay_redeemed hash (next w) w' owner,
      )
    ]
