-- ===== src/ServiceKey/Lifecycle.antt =====
-- servicekey.go: creation, use and revocation of a key.
use identity_hub.Base.{
  Bool, Bool-cases, Bytes, List, Option, Option-cases, [], ap, arith, bytes_eq, bytes_eq_refl,
  count_where, elem, exists_where, exists_where-update_where, false, find, find-exists_where, inl,
  inr, is_some, length, refl, some, suc, true, update_where, ℕ, ◌*◌, ◌+◌, ◌<◌, ◌==◌, ◌∙◌, ◌∷◌, ◌≡◌,
  ◌≢◌, ◌≤◌,
}
use identity_hub.World.{
  Env, Result-cases, ServiceKeyRow, Tables, World, begin, calm, next, ok, transaction,
  transaction-ok, ◌>>=◌,
}
use identity_hub.Sql.Audit.{insert_audit_event}
use identity_hub.Sql.Keys.{
  NewKey, get_service_key_for_update, insert_service_key, is_live_key, is_storable, key_row,
  revoke_key, revoke_service_key,
}
use identity_hub.ServiceKey.{
  CreateInput, Created, Principal, RequestMeta, Service, authenticate, create, create_key, day,
  full_key, normalize_scopes, parse, revoke, revoke_locked, secret_length, store_key,
}
use identity_hub.ServiceKey.Format.{parse-full_key}
use identity_hub.ServiceKey.Authentic.{Authentic-authenticate, authenticate-Authentic}

abbrev keys : Tables → List ServiceKeyRow
keys t = t.service_keys

abbrev pub has_id : ℕ → ServiceKeyRow → Bool
has_id id k = k.id == id

none_live :
    (id : ℕ) (ks : List ServiceKeyRow)
    → count_where (has_id id) ks ≡ 0
    → exists_where (is_live_key id) ks ≡ false
none_live id [] h = refl
none_live id (k ∷ ks) h = ground (arith, none_live id ks)

only_revoked :
    (id : ℕ) (ks : List ServiceKeyRow) (k : ServiceKeyRow)
    → find (has_id id) ks ≡ some k
    → count_where (has_id id) ks ≤ 1
    → is_some k.revoked_at ≡ true
    → exists_where (is_live_key id) ks ≡ false
only_revoked id [] k h c r = refl
only_revoked id (q ∷ ks) k h c r = ground (arith, only_revoked id ks k, none_live id ks)

no_live_after :
    (id at : ℕ) (ks : List ServiceKeyRow)
    → exists_where (is_live_key id) (update_where (is_live_key id) (revoke_key at) ks) ≡ false
no_live_after id at ks =
    exists_where-update_where (is_live_key id) (revoke_key at) ks (λ k h. ground arith)

revoke_locked-dead :
    (id actor : ℕ) (meta : RequestMeta) (w w' : World) (u : Unit {0})
    → count_where (has_id id) (keys w.tables) ≤ 1
    → revoke_locked id actor meta w ≡ (ok u, w')
    → exists_where (is_live_key id) (keys w'.tables) ≡ false
unfolding revoke_locked ◌>>=◌ get_service_key_for_update revoke_service_key insert_audit_event
revoke_locked-dead id actor meta w w' u c h =
    elim (Option-cases (find (has_id id) w.tables.service_keys)) [
      | inl e ↦ ground arith
      | inr (k, e) ↦ elim (Bool-cases (is_some k.revoked_at)) [
        | inl r ↦ ground (arith, only_revoked id w.tables.service_keys k)
        | inr r ↦ ground (arith, no_live_after id w.tx_now w.tables.service_keys)
      ]
    ]

-- When a key was revoked, in a table where no two keys have its id, no later call of Authenticate
-- accepts it, whatever the key's text, the scope, the clocks and the failures, as long as the keys are
-- as the revocation left them.
pub revoked_for_good :
    (s : Service) (id actor : ℕ) (meta again : RequestMeta) (raw required : Bytes)
    (w w' v v' : World) (u : Unit {0}) (p : Principal)
    → count_where (has_id id) w.tables.service_keys ≤ 1
    → revoke id actor meta w ≡ (ok u, w')
    → v.tables.service_keys ≡ w'.tables.service_keys
    → authenticate s raw required again v ≡ (ok p, v')
    → p.key_id ≢ id
unfolding revoke
revoked_for_good s id actor meta again raw required w w' v v' u p c h kept h' same =
    let (w₁, ran, left) = transaction-ok (revoke_locked id actor meta) w w' u h in
    let dead = revoke_locked-dead id actor meta (begin w) w₁ u c ran in
    let (public_id, secret, k, parsed, is_k, a) =
      authenticate-Authentic s raw required again v v' p h' in
    let live =
      find-exists_where (λ (q : ServiceKeyRow). bytes_eq q.public_id public_id) (is_live_key id)
        (keys v.tables) k a.stored (ground (arith, a.unrevoked)) in
    ground
      (arith, live, dead, ap {B = List ServiceKeyRow} (λ (z : World). keys z.tables) left, kept)

insert-ok :
    (new : NewKey) (id at : ℕ) (t t' : Tables) (k : ServiceKeyRow)
    → insert_service_key new id at t ≡ (ok k, t')
    → (k ≡ key_row new id at) × (keys t' ≡ key_row new id at ∷ keys t) × (is_storable new at ≡ true)
unfolding insert_service_key
insert-ok new id at t t' k h = (ground arith, ground arith, ground arith)

store_key-ok :
    (new : NewKey) (meta : RequestMeta) (w w' : World) (k : ServiceKeyRow)
    → store_key new meta w ≡ (ok k, w')
    → (keys w'.tables ≡ k ∷ keys w.tables)
      × (k ≡ key_row new (w.env.db_uuid w.tick) w.tx_now)
      × (is_storable new w.tx_now ≡ true)
unfolding store_key ◌>>=◌ insert_audit_event
store_key-ok new meta w w' k h =
    let q = insert_service_key new (w.env.db_uuid w.tick) w.tx_now w.tables in
    elim (Result-cases q.0) [
      | inr (x, e) ↦ ground arith
      | inl (r, e) ↦
          let (same, rows, fits) =
            insert-ok new (w.env.db_uuid w.tick) w.tx_now w.tables q.1 r (ground arith) in
          (ground (arith, same, rows), ground (arith, same), fits)
    ]

abbrev new_of : Service → CreateInput → Bytes → List Bytes → World → NewKey
new_of s input name scopes w = record {
  public_id = s.ext.hex (w.env.random w.tick);
  secret_hash = s.ext.sha256 (s.ext.encode (w.env.random (suc w.tick)));
  name = name;
  scopes = scopes;
  created_by = input.actor_user_id;
  expires_at = w.env.clock (suc (suc w.tick)) + input.expires_in_days * day;
}

abbrev meta_of : CreateInput → RequestMeta
meta_of input = record { ip = input.ip; user_agent = input.user_agent }

create_key-ok :
    (s : Service) (input : CreateInput) (name : Bytes) (scopes : List Bytes) (w w' : World)
    (c : Created)
    → create_key s input name scopes w ≡ (ok c, w')
    → (c.full_key
        ≡ full_key (s.ext.hex (w.env.random w.tick)) (s.ext.encode (w.env.random (suc w.tick))))
      × (transaction
            (store_key (new_of s input name scopes w) (meta_of input))
            (next (next (next w)))
          ≡ (ok c.key, w'))
unfolding create_key ◌>>=◌
create_key-ok s input name scopes w w' c h =
    elim (Result-cases
      (transaction (store_key (new_of s input name scopes w) (meta_of input))
        (next (next (next w)))).0) [
          | inr (x, e) ↦ ground arith
          | inl (k, e) ↦ (ground arith, ground arith)
        ]

create-ok :
    (s : Service) (input : CreateInput) (w w' : World) (c : Created)
    → create s input w ≡ (ok c, w')
    → (name : Bytes) × (scopes : List Bytes) × (create_key s input name scopes w ≡ (ok c, w'))
unfolding create ◌>>=◌
create-ok s input w w' c h = elim (Option-cases (normalize_scopes input.scopes)) [
  | inl e ↦ ground arith
  | inr (scopes, e) ↦ (s.trim input.name, scopes, ground arith)
]

-- The key that Create returned, whose secret has a key's length, is accepted where no call fails, for
-- each of its scopes and until it expires, as long as the keys are as its creation left them; the
-- principal is the key that was created.
pub created_key_works :
    (s : Service) (input : CreateInput) (meta : RequestMeta) (required : Bytes) (e : Env)
    (w w' v : World) (c : Created)
    → length (s.ext.encode (w.env.random (suc w.tick))) ≡ secret_length
    → create s input w ≡ (ok c, w')
    → v.tables.service_keys ≡ w'.tables.service_keys
    → elem required c.key.scopes ≡ true
    → e.clock (suc v.tick) < c.key.expires_at
    → (authenticate s c.full_key required meta (calm e v)).0
      ≡ ok (record { key_id = c.key.id; public_id = c.key.public_id; scopes = c.key.scopes })
created_key_works s input meta required e w w' v c size h kept scope early =
    let (name, scopes, made) = create-ok s input w w' c h in
    let (text, stored) = create_key-ok s input name scopes w w' c made in
    let start = next (next (next w)) in
    let new = new_of s input name scopes w in
    let (w₁, ran, left) = transaction-ok (store_key new (meta_of input)) start w' c.key stored in
    let (rows, is_row, fits) = store_key-ok new (meta_of input) (begin start) w₁ c.key ran in
    let secret = s.ext.encode (w.env.random (suc w.tick)) in
    let present = kept ∙ ap {B = List ServiceKeyRow} (λ (z : World). keys z.tables) left ∙ rows in
    let same_id = ap {B = Bytes} (λ (k : ServiceKeyRow). k.public_id) is_row in
    let same_hash = ap {B = Bytes} (λ (k : ServiceKeyRow). k.secret_hash) is_row in
    let same_state = ap {B = Option ℕ} (λ (k : ServiceKeyRow). k.revoked_at) is_row in
    let found = bytes_eq_refl new.public_id in
    Authentic-authenticate s c.full_key new.public_id secret required meta e v c.key
      (ap parse text ∙ parse-full_key new.public_id secret (ground (arith, fits)) size)
      (record {
        stored = ground (arith, present, same_id, found);
        hash_matches = ground (arith, same_hash, fits, bytes_eq_refl new.secret_hash);
        unrevoked = ground (arith, same_state);
        unexpired = early;
        in_scope = scope;
      })
