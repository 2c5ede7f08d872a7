-- ===== src/Roles/Separation.antt =====
-- roles.go: the filters Directory and ForApplication.
use identity_hub.Base.{Bytes, List, [], arith, bytes_eq_sound, elem, false, refl, ◌∷◌, ◌≡◌, ◌≢◌}
use identity_hub.Roles.{application, directory, for_application}

-- Of the roles that ForApplication keeps for an application with a name, Directory keeps none.
pub directory-for_application :
    (role : Bytes) (rs : List Bytes) (app : Bytes)
    → app ≢ []
    → elem role (directory (for_application rs app)) ≡ false
unfolding directory for_application application
directory-for_application role [] app h = refl
directory-for_application role (r ∷ rs) app h =
    ground (arith, directory-for_application role rs app h, bytes_eq_sound [] app)
