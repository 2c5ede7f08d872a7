-- ===== src/Http/Tests.antt =====
-- clientip.go, rbac.go: an address behind one proxy, and an administrator.
use identity_hub.Base.{
  Bytes, List, Option, [], codes, elem, find, none, refl, some, true, ℕ, ◌==◌, ◌∷◌, ◌≡◌,
}
use identity_hub.World.{User, World, ok, ◌>>=◌}
use identity_hub.Sql.Users.{get_user_by_id, is_active, list_roles_for_user, role_names}
use identity_hub.Http.ClientIp.{
  Net, forwarded_not_spoofed, parse_address, parse_forwarded_for, parse_remote_addr,
  resolve_client_ip,
}
use identity_hub.Http.Rbac.{allowed, allowed_lem, authorize_role}
use identity_hub.Fixtures.{tables, world}

abbrev first_byte : Bytes → Option ℕ
first_byte [] = none
first_byte (c ∷ cs) = some c

-- An address is its first byte, and a prefix contains itself only.
abbrev net : Net
net = record {
  split_host_port = λ b. some b;
  trim_space = λ b. b;
  trim_brackets = λ b. b;
  parse = first_byte;
  contains = λ p a. p == a;
}

abbrev header : List Bytes
header = codes "x,y,p" ∷ []

forwarded_not_spoofed_example : resolve_client_ip net (b'p' ∷ []) (codes "p") header ≡ some b'y'
unfolding parse_remote_addr parse_address parse_forwarded_for
forwarded_not_spoofed_example =
    forwarded_not_spoofed net (b'p' ∷ []) (b'x' ∷ []) (b'p' ∷ []) b'y' b'p' (codes "p") header refl
      refl refl refl (refl, tt)

abbrev start : World
start = world tables

abbrev after : World
after = (authorize_role (some 1) true (codes "admin") start).1

allows : authorize_role (some 1) true (codes "admin") start ≡ (ok allowed, after)
unfolding authorize_role ◌>>=◌ get_user_by_id list_roles_for_user
allows = refl

allowed_example :
    (u : User) × (find (λ q. q.id == 1) start.tables.users ≡ some u)
    × (is_active u ≡ true)
    × (elem (codes "admin") (role_names 1 start.tables.user_roles start.tables.roles) ≡ true)
allowed_example = allowed_lem 1 true (codes "admin") start after allows
