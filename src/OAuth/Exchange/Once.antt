-- ===== src/OAuth/Exchange/Once.antt =====
-- oauth.go, Exchange: an exchange and its authorization code.
use identity_hub.Base.{
  Bytes, List, Option, Option-cases, ap, arith, bytes_eq, false, find, find-update_where, inl, inr,
  none, refl, some, sym, true, update_where, ℕ, ◌<◌, ◌==◌, ◌∙◌, ◌≡◌, ◌≢◌,
}
use identity_hub.World.{
  Application, CodeRow, Result, Result-cases, Tables, World, begin, next, ok, transaction,
  transaction-ok, ◌>>=◌,
}
use identity_hub.Sql.Codes.{Locked, is_unused, is_unused_id, mark_used}
use identity_hub.OAuth.{Service}
use identity_hub.OAuth.Exchange.{
  ExchangeInput, ExchangeResult, Redemption, exchange, exchange_authorization_code, exchange_code,
  exchange_decoded, finish_exchange, pkce_s256_challenge, redeemed, settle,
}
use identity_hub.OAuth.Exchange.Steps.{
  codes_of, exchange_code-redeemed, get_code-ok, redeem-redeemed, settle-Keeps, settle-redeemed,
}

-- What stands in the database when a code is exchanged at a time of the service's clock.
pub record Redeemed (s : Service) (raw : Bytes) (input : ExchangeInput) (at : ℕ) (t : Tables)
    (l : Locked) : Type 0 where
  pub stored :
      find (λ c. bytes_eq c.code_hash (s.ext.sha256 raw)) t.authorization_codes ≡ some l.code
  pub unused : is_unused l.code ≡ true
  pub unexpired : at < l.code.expires_at
  pub owner : Application
  pub owned : find (λ a. a.id == l.code.application_id) t.applications ≡ some owner
  pub of_client : bytes_eq owner.client_id input.client_id ≡ true
  pub redirected : bytes_eq l.code.redirect_uri input.redirect_uri ≡ true
  pub proven :
      bytes_eq (s.ext.encode (s.ext.sha256 input.code_verifier)) l.code.code_challenge ≡ true

finish_exchange-ok :
    (o : Option ExchangeResult) (w w' : World) (result : ExchangeResult)
    → finish_exchange o w ≡ (ok result, w')
    → (o ≡ some result) × (w' ≡ w)
unfolding finish_exchange ◌>>=◌
finish_exchange-ok none w w' result h = ground arith
finish_exchange-ok (some r) w w' result h = (ground arith, ground arith)

exchange_decoded-ok :
    (s : Service) (raw : Bytes) (input : ExchangeInput) (w w' : World) (result : ExchangeResult)
    → exchange_decoded s raw input w ≡ (ok result, w')
    → (w₁ : World) × (exchange_code s raw input (w.env.clock w.tick) (begin (next w))
        ≡ (ok (some result), w₁))
      × (w' ≡ next w₁)
unfolding ◌>>=◌
exchange_decoded-ok s raw input w w' result h =
    let body = exchange_code s raw input (w.env.clock w.tick) in
    elim (Result-cases (transaction body (next w)).0) [
      | inr (x, f) ↦ ground arith
      | inl (o, f) ↦
          let z = (transaction body (next w)).1 in
          let (w₁, ran, kept) = transaction-ok body (next w) z o (ground arith) in
          let (same, left) = finish_exchange-ok o z w' result (ground arith) in
          (w₁, rw (← same) ran, left ∙ kept)
    ]

exchange-decoded :
    (s : Service) (input : ExchangeInput) (w w' : World) (result : ExchangeResult)
    → exchange s input w ≡ (ok result, w')
    → (raw : Bytes) × (s.ext.decode input.code ≡ some raw)
      × (exchange_decoded s raw input w ≡ (ok result, w'))
unfolding exchange ◌>>=◌
exchange-decoded s input w w' result h = elim (Option-cases (s.ext.decode input.code)) [
  | inl e ↦ ground arith
  | inr (raw, e) ↦ (raw, e, ground arith)
]

settle-codes :
    (client_id : Bytes) (r : Redemption) (w w' : World) (result : ExchangeResult)
    → settle client_id r w ≡ (ok (some result), w')
    → codes_of w'.tables ≡ codes_of w.tables
settle-codes client_id r w w' result h =
    ap {B = List CodeRow} (λ (q : Result (Option ExchangeResult) × World). codes_of q.1.tables)
      (sym h)
    ∙ (settle-Keeps client_id r).at w

settled :
    (s : Service) (raw : Bytes) (input : ExchangeInput) (at : ℕ) (w w' : World)
    (result : ExchangeResult)
    → exchange_code s raw input at w ≡ (ok (some result), w')
    → (w₁ : World) × (owner : ℕ) × (exchange_authorization_code
          (s.ext.sha256 raw)
          input.client_id
          input.redirect_uri
          (pkce_s256_challenge s.ext input.code_verifier)
          at
          w
        ≡ (ok (redeemed owner), w₁))
      × (codes_of w'.tables ≡ codes_of w₁.tables)
unfolding exchange_code ◌>>=◌
settled s raw input at w w' result h =
    let m =
      exchange_authorization_code (s.ext.sha256 raw) input.client_id input.redirect_uri
        (pkce_s256_challenge s.ext input.code_verifier) at in
    elim (Result-cases (m w).0) [
      | inr (x, e) ↦ ground arith
      | inl (r, e) ↦
          let z = (m w).1 in
          let (owner, same) = settle-redeemed input.client_id r z w' result (ground arith) in
          (z, owner, ground arith, settle-codes input.client_id r z w' result (ground arith))
    ]

exchange_code-Redeemed :
    (s : Service) (raw : Bytes) (input : ExchangeInput) (at : ℕ) (w w' : World)
    (result : ExchangeResult)
    → exchange_code s raw input at w ≡ (ok (some result), w')
    → (l : Locked) × Redeemed s raw input at w.tables l
      × (codes_of w'.tables
          ≡ update_where (is_unused_id l.code.id) (mark_used at) (codes_of w.tables))
exchange_code-Redeemed s raw input at w w' result h =
    let (w₁, owner, ran, kept) = settled s raw input at w w' result h in
    let (l, got, closed) = exchange_code-redeemed _ _ _ _ at w w₁ owner ran in
    let (stored, unused, unexpired, (owner_app, owned, named)) =
      get_code-ok _ at w.tx_now w.tables l got in
    let (bound, same, marked) = redeem-redeemed _ _ _ at l (next w) w₁ owner closed in
    (
      l,
      record {
        stored = stored;
        unused = unused;
        unexpired = unexpired;
        owner = owner_app;
        owned = owned;
        of_client = ground (arith, named, bound);
        redirected = ground arith;
        proven = ground arith;
      },
      kept ∙ marked,
    )

-- When an exchange of a code that decodes succeeds, the row with the code's hash is stored, unused and
-- unexpired by the service's clock; the application that the row names is stored and has the client id
-- of the request; the row has the redirect URI of the request, and its challenge is the encoded
-- SHA-256 hash of the verifier that was sent.
pub exchange-Redeemed :
    (s : Service) (raw : Bytes) (input : ExchangeInput) (w w' : World) (result : ExchangeResult)
    → s.ext.decode input.code ≡ some raw
    → exchange s input w ≡ (ok result, w')
    → (l : Locked) × Redeemed s raw input (w.env.clock w.tick) w.tables l
unfolding exchange ◌>>=◌
exchange-Redeemed s raw input w w' result d h =
    let (w₁, body, kept) = exchange_decoded-ok s raw input w w' result (ground arith) in
    let (l, r, marked) = exchange_code-Redeemed s raw input _ (begin (next w)) w₁ result body in
    (l, r)

used_row :
    (hash : Bytes) (at : ℕ) (before after : List CodeRow) (c : CodeRow)
    → find (λ q. bytes_eq q.code_hash hash) before ≡ some c
    → is_unused c ≡ true
    → after ≡ update_where (is_unused_id c.id) (mark_used at) before
    → find (λ q. bytes_eq q.code_hash hash) after ≡ some (mark_used at c)
used_row hash at before after c stored unused e = ground (
  arith,
  find-update_where (λ (q : CodeRow). bytes_eq q.code_hash hash) (is_unused_id c.id) (mark_used at)
      before c (λ q. refl) stored,
)

unused_and_used :
    (rows rows' : List CodeRow) (hash : Bytes) {c d : CodeRow}
    → rows ≡ rows'
    → find (λ q. bytes_eq q.code_hash hash) rows ≡ some c
    → find (λ q. bytes_eq q.code_hash hash) rows' ≡ some d
    → is_unused c ≡ true
    → is_unused d ≡ false
    → ⊥
unused_and_used rows rows' hash same found found' p q = ground arith

-- No code is exchanged twice: after an exchange that succeeded, no exchange of the same code succeeds,
-- whatever its other fields, the clocks and the failures, as long as the codes are as the first one
-- left them.
pub exchange_once :
    (s : Service) (first second : ExchangeInput) (w w' v v' : World) (result again : ExchangeResult)
    → second.code ≡ first.code
    → v.tables.authorization_codes ≡ w'.tables.authorization_codes
    → exchange s first w ≡ (ok result, w')
    → exchange s second v ≢ (ok again, v')
exchange_once s first second w w' v v' result again same kept h h' =
    let (raw, d, ran) = exchange-decoded s first w w' result h in
    let (w₁, body, left) = exchange_decoded-ok s raw first w w' result ran in
    let (l, r, marked) = exchange_code-Redeemed s raw first _ (begin (next w)) w₁ result body in
    let (l', r') = exchange-Redeemed s raw second v v' again (ap s.ext.decode same ∙ d) h' in
    let at = w.env.clock w.tick in
    unused_and_used (codes_of v.tables) (codes_of w'.tables) (s.ext.sha256 raw) kept r'.stored
      (used_row (s.ext.sha256 raw) at (codes_of w.tables) (codes_of w'.tables) l.code r.stored
        r.unused (ap {B = List CodeRow} (λ (z : World). codes_of z.tables) left ∙ marked))
      r'.unused refl
