-- ===== src/Roles.antt =====
-- backend/internal/auth/roles/roles.go: directory roles and the roles of an application.
pub mod Separation
mod Tests
use identity_hub.Base.{
  Bool, Bytes, List, Option, [], bytes_eq, codes, if◌then◌else◌, none, some, ℕ, ◌==◌, ◌||◌, ◌∷◌,
}

abbrev pub admin : Bytes
admin = codes "admin"

abbrev pub user : Bytes
user = codes "user"

unfoldable pub is_directory : Bytes → Bool
is_directory role = bytes_eq role admin || bytes_eq role user

abbrev pub prepend : ℕ → Option Bytes → Option Bytes
prepend c none = none
prepend c (some cs) = some (c ∷ cs)

abbrev pub or_empty : Option Bytes → Bytes
or_empty none = []
or_empty (some cs) = cs

-- strings.IndexByte(role, '.') and the slice before it; `none` when there is no dot.
abbrev pub before_dot : Bytes → Option Bytes
before_dot [] = none
before_dot (c ∷ cs) = if c == b'.' then some [] else prepend c (before_dot cs)

-- The application prefix, or the empty string.
unfoldable pub application : Bytes → Bytes
unfolding is_directory
application role = if is_directory role then [] else or_empty (before_dot role)

unfoldable pub directory : List Bytes → List Bytes
unfolding is_directory
directory [] = []
directory (role ∷ rest) = if is_directory role then role ∷ directory rest else directory rest

unfoldable pub for_application : List Bytes → Bytes → List Bytes
unfolding application
for_application [] app = []
for_application (role ∷ rest) app =
    if bytes_eq (application role) app
    then role ∷ for_application rest app
    else for_application rest app
