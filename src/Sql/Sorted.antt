-- ===== src/Sql/Sorted.antt =====
-- users.sql.go: ORDER BY name.
use identity_hub.Base.{Bytes, List, [], arith, bytes_eq, elem, if◌then◌else◌, refl, true, ◌∷◌, ◌≡◌}
use identity_hub.Sql.Users.{insert_name, sort_names}

pub elem-insert_name :
    (x n : Bytes) (ms : List Bytes)
    → elem x (insert_name n ms) ≡ (if bytes_eq n x then true else elem x ms)
unfolding insert_name
elem-insert_name x n [] = refl
elem-insert_name x n (m ∷ ms) = ground (arith, elem-insert_name x n ms)

-- Sorting keeps the names.
pub elem-sort_names : (x : Bytes) (ns : List Bytes) → elem x (sort_names ns) ≡ elem x ns
unfolding sort_names
elem-sort_names x [] = refl
elem-sort_names x (n ∷ ns) =
    ground (arith, elem-insert_name x n (sort_names ns), elem-sort_names x ns)
