-- ===== src/Fixtures.antt =====
-- A small directory: one application, two users, one of them an administrator.
use identity_hub.Base.{
  Bytes, Option, [], bytes_eq, codes, false, if◌then◌else◌, minute, none, some, true, ℕ, ◌%◌, ◌*◌,
  ◌++◌, ◌+◌, ◌∷◌,
}
use identity_hub.World.{
  Env, External, RoleRow, Tables, User, UserRole, World, active, differs, matches,
}
use identity_hub.Token

-- Functions that meet what the services rely on; they stand for no real algorithm.
abbrev pub ext : External
ext = record {
  sha256 = λ b. 1 ∷ b;
  hmac = λ k m. k ++ m;
  encode = λ b. b;
  decode = λ b. some b;
  hex = λ b. b;
  uuid_string = λ n. n ∷ [];
  fold = λ b. b;
  verify = λ p h. if bytes_eq p h then matches else differs;
  verify_decoy = λ p. differs;
  needs_rehash = λ h. false;
  hash = λ p. some p;
  sign = λ c. some c.subject;
  rand_int = λ max b. 123456 % max;
}

abbrev pub env : Env
env = record {
  fails = λ t. false;
  clock = λ t. 1000 * minute + t;
  db_clock = λ t. 1000 * minute + t;
  random = λ t. (7000 + t) ∷ [];
  uuid = λ t. 100 + t;
  db_uuid = λ t. 200 + t;
}

abbrev pub ana : User
ana = record {
  id = 1;
  email = codes "ana@example.test";
  password_hash = codes "correct horse";
  display_name = codes "Ana";
  status = active;
  locked_until = none;
  last_login_at = none;
  organization_id = 1;
}

abbrev pub luis : User
luis = record {
  id = 2;
  email = codes "luis@example.test";
  password_hash = codes "battery staple";
  display_name = codes "Luis";
  status = active;
  locked_until = none;
  last_login_at = none;
  organization_id = 1;
}

abbrev pub role : ℕ → Bytes → Option ℕ → RoleRow
role id name app = record {
  id = id;
  name = name;
  description = [];
  application_id = app;
  is_system = elim app [ none ↦ true | some a ↦ false ];
}

abbrev pub grant : ℕ → ℕ → UserRole
grant user_id role_id = record { user_id = user_id; role_id = role_id; granted_by = none }

abbrev pub tables : Tables
tables = record {
  users = ana ∷ luis ∷ [];
  roles =
      role 1 (codes "admin") none
      ∷ role 2 (codes "user") none
      ∷ role 3 (codes "contabilidad.senior") (some 50)
      ∷ [];
  user_roles = grant 1 1 ∷ grant 1 2 ∷ grant 2 2 ∷ grant 2 3 ∷ [];
  refresh_tokens = [];
  hub_sessions = [];
  mfa_challenges = [];
  verification_tokens = [];
  applications =
      record {
        id = 50;
        client_id = codes "contabilidad";
        redirect_uri = codes "https://c.test/cb";
        allowed_origin = codes "https://c.test";
        organization_id = 1;
      }
      ∷ [];
  permissions = record { id = 70; key = codes "facturas:leer"; application_id = 50 } ∷ [];
  role_permissions = record { role_id = 3; permission_id = 70 } ∷ [];
  authorization_codes = [];
  service_keys = [];
  audit_log = [];
}

abbrev pub world : Tables → World
world t = record { env = env; tables = t; published = []; tick = 0; tx_now = 0 }

abbrev pub tokens : Token.Service
tokens = record { ext = ext; issuer = codes "hub"; audience = codes "console" }
