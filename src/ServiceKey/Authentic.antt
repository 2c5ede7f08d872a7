-- ===== src/ServiceKey/Authentic.antt =====
-- servicekey.go, Authenticate: keys that are accepted and keys that are not.
use identity_hub.Base.{
  Bool-cases, Bytes, Option-cases, arith, bytes_eq, codes, elem, false, find, inl, inr, is_some,
  none, some, suc, true, ℕ, ◌<◌, ◌≡◌, ◌≢◌, ◌⊎◌,
}
use identity_hub.World.{
  Action, Env, Error, Result-cases, ServiceKeyRow, Tables, World, autocommit, calm, err,
  insufficient_scope, key_unauthenticated, next, no_rows, ok, storage, ◌>>=◌,
}
use identity_hub.Sql.Keys.{get_service_key_by_public_id}
use identity_hub.ServiceKey.{
  Principal, RequestMeta, Service, after_load, audit_rejection, authenticate, best_effort,
  check_key, parse, reject, stored_hash, use_key,
}

-- What stands in the database when a key is accepted, at a time of the service's clock.
pub record Authentic (s : Service) (public_id secret required : Bytes) (at : ℕ) (t : Tables)
    (k : ServiceKeyRow) : Type 0 where
  pub stored : find (λ q. bytes_eq q.public_id public_id) t.service_keys ≡ some k
  pub hash_matches : bytes_eq (s.ext.sha256 secret) (stored_hash s k) ≡ true
  pub unrevoked : is_some k.revoked_at ≡ false
  pub unexpired : at < k.expires_at
  pub in_scope : elem required k.scopes ≡ true

reject-fails :
    (key_id : ℕ) (reason : Bytes) (meta : RequestMeta) (e : Error) (w w' : World) (p : Principal)
    → reject key_id reason meta e w ≢ (ok p, w')
unfolding audit_rejection best_effort ◌>>=◌
reject-fails key_id reason meta e w w' p h = ground arith

use_key-ok :
    (k : ServiceKeyRow) (required : Bytes) (meta : RequestMeta) (w w' : World) (p : Principal)
    → use_key k required meta w ≡ (ok p, w')
    → (w.env.clock w.tick < k.expires_at) × (elem required k.scopes ≡ true) × (p.key_id ≡ k.id)
unfolding use_key best_effort ◌>>=◌
use_key-ok k required meta w w' p h =
    let expired = reject-fails k.id (codes "expired") meta key_unauthenticated (next w) w' p in
    let out_of_scope =
      reject-fails k.id (codes "insufficient_scope") meta insufficient_scope (next w) w' p in
    (
      ground (arith, expired),
      ground (arith, expired, out_of_scope),
      ground (arith, expired, out_of_scope),
    )

check_key-ok :
    (s : Service) (k : ServiceKeyRow) (secret required : Bytes) (meta : RequestMeta) (w w' : World)
    (p : Principal)
    → check_key s k secret required meta w ≡ (ok p, w')
    → (bytes_eq (s.ext.sha256 secret) (stored_hash s k) ≡ true)
      × (is_some k.revoked_at ≡ false)
      × (use_key k required meta w ≡ (ok p, w'))
unfolding check_key
check_key-ok s k secret required meta w w' p h =
    let bad = reject-fails k.id (codes "bad_secret") meta key_unauthenticated w w' p in
    let gone = reject-fails k.id (codes "revoked") meta key_unauthenticated w w' p in
    (ground (arith, bad, gone), ground (arith, bad, gone), ground (arith, bad, gone))

-- The call of the repository, for a key that parses.
abbrev load : Bytes → Action ServiceKeyRow
load public_id = autocommit (get_service_key_by_public_id public_id)

load-ok :
    (public_id : Bytes) (w : World) (k : ServiceKeyRow)
    → (load public_id w).0 ≡ ok k
    → find (λ q. bytes_eq q.public_id public_id) w.tables.service_keys ≡ some k
unfolding get_service_key_by_public_id ◌>>=◌
load-ok public_id w k h =
    elim (Option-cases
      (find (λ (q : ServiceKeyRow). bytes_eq q.public_id public_id) w.tables.service_keys)) [
        | inl e ↦ ground arith
        | inr (q, e) ↦ ground arith
      ]

load-tick :
    (public_id : Bytes) (w : World)
    → ((load public_id w).1.tick ≡ suc w.tick)
      × ((load public_id w).1.env ≡ w.env)
      × ((load public_id w).1.tables ≡ w.tables)
unfolding get_service_key_by_public_id ◌>>=◌
load-tick public_id w = (ground arith, ground arith, ground arith)

load-err :
    (public_id : Bytes) (w : World) (e : Error)
    → (load public_id w).0 ≡ err e
    → (e ≡ no_rows) ⊎ (e ≡ storage)
unfolding get_service_key_by_public_id ◌>>=◌
load-err public_id w e h = elim (Bool-cases (w.env.fails w.tick)) [
  | inl b ↦ inr (ground arith)
  | inr b ↦
      elim (Option-cases
        (find (λ (q : ServiceKeyRow). bytes_eq q.public_id public_id) w.tables.service_keys)) [
          | inl f ↦ inl (ground arith)
          | inr (q, f) ↦ ground arith
        ]
]

after_load-err :
    (s : Service) (secret required : Bytes) (meta : RequestMeta) (e : Error) (w : World)
    → (e ≡ no_rows) ⊎ (e ≡ storage)
    → ((after_load s secret required meta (err e, w)).1 ≡ w)
      × ((p : Principal) → (after_load s secret required meta (err e, w)).0 ≢ ok p)
after_load-err s secret required meta e w (inl h) = (ground arith, λ p k. ground arith)
after_load-err s secret required meta e w (inr h) = (ground arith, λ p k. ground arith)

pub authenticate-Authentic :
    (s : Service) (raw required : Bytes) (meta : RequestMeta) (w w' : World) (p : Principal)
    → authenticate s raw required meta w ≡ (ok p, w')
    → (public_id : Bytes) × (secret : Bytes) × (k : ServiceKeyRow) × (parse raw
        ≡ some (public_id, secret))
      × (p.key_id ≡ k.id)
      × Authentic s public_id secret required (w.env.clock (suc w.tick)) w.tables k
unfolding authenticate ◌>>=◌
authenticate-Authentic s raw required meta w w' p h = elim (Option-cases (parse raw)) [
  | inl e ↦ ground arith
  | inr ((public_id, secret), e) ↦ elim (Result-cases (load public_id w).0) [
    | inr (x, f) ↦ ground (
      arith,
      (after_load-err s secret required meta x (load public_id w).1 (load-err public_id w x f)).1 p,
    )
    | inl (k, f) ↦
        let loaded = (load public_id w).1 in
        let (hash, live, used) = check_key-ok s k secret required meta loaded w' p (ground arith) in
        let (unexpired, scope, same) = use_key-ok k required meta loaded w' p used in
        (
          public_id,
          secret,
          k,
          e,
          same,
          record {
            stored = load-ok public_id w k f;
            hash_matches = hash;
            unrevoked = live;
            unexpired = ground (arith, load-tick public_id w);
            in_scope = scope;
          },
        )
  ]
]

-- A text that is no key, or whose public id no stored key has, is never accepted and writes nothing:
-- the tables, the audit log among them, are as they were.
pub unknown_key_writes_nothing :
    (s : Service) (raw required : Bytes) (meta : RequestMeta) (w : World)
    → ((public_id secret : Bytes)
        → parse raw ≡ some (public_id, secret)
        → find (λ q. bytes_eq q.public_id public_id) w.tables.service_keys ≡ none)
    → ((authenticate s raw required meta w).1.tables ≡ w.tables)
      × ((p : Principal) → (authenticate s raw required meta w).0 ≢ ok p)
unfolding authenticate ◌>>=◌
unknown_key_writes_nothing s raw required meta w h = elim (Option-cases (parse raw)) [
  | inl e ↦ (ground arith, λ p k. ground arith)
  | inr ((public_id, secret), e) ↦ elim (Result-cases (load public_id w).0) [
    | inr (x, f) ↦
        let (same, refused) =
          after_load-err s secret required meta x (load public_id w).1 (load-err public_id w x f) in
        (ground (arith, same, load-tick public_id w), λ p k. ground (arith, refused p))
    | inl (k, f) ↦ absurd (ground (arith, load-ok public_id w k f, h public_id secret e))
  ]
]

-- Where no call fails, a text that parses to an authentic key is accepted.
pub Authentic-authenticate :
    (s : Service) (raw public_id secret required : Bytes) (meta : RequestMeta) (e : Env) (w : World)
    (k : ServiceKeyRow)
    → parse raw ≡ some (public_id, secret)
    → Authentic s public_id secret required (e.clock (suc w.tick)) w.tables k
    → (authenticate s raw required meta (calm e w)).0
      ≡ ok (record { key_id = k.id; public_id = k.public_id; scopes = k.scopes })
unfolding authenticate check_key use_key best_effort ◌>>=◌ get_service_key_by_public_id
Authentic-authenticate s raw public_id secret required meta e w k h a =
    ground (arith, a.stored, a.hash_matches, a.unrevoked, a.unexpired, a.in_scope)
