-- ===== src/Roles/Tests.antt =====
-- roles.go: a list of roles of both kinds.
use identity_hub.Base.{Bool, Bytes, List, [], ap, arith, codes, elem, false, true, ◌∷◌, ◌≡◌, ◌≢◌}
use identity_hub.Roles.{directory, for_application}
use identity_hub.Roles.Separation.{directory-for_application}

abbrev mixed : List Bytes
mixed = codes "admin" ∷ codes "contabilidad.senior" ∷ []

abbrev is_nonempty : Bytes → Bool
is_nonempty [] = false
is_nonempty (c ∷ cs) = true

contabilidad-nonempty : codes "contabilidad" ≢ []
contabilidad-nonempty h = ground (arith, ap is_nonempty h)

directory-for_application_example :
    elem (codes "contabilidad.senior") (directory (for_application mixed (codes "contabilidad")))
    ≡ false
directory-for_application_example =
    directory-for_application (codes "contabilidad.senior") mixed (codes "contabilidad")
      contabilidad-nonempty
