-- ===== src/Admin/Names.antt =====
-- admin.go, deduplicate and sameRoles: lists of names as sets.
use identity_hub.Base.{
  Bool, Bool-cases, Bytes, List, [], arith, bytes_eq, bytes_eq_refl, bytes_eq_sound, elem, false,
  if◌then◌else◌, inl, inr, length, not, refl, suc, sym, true, ◌&&◌, ◌++◌, ◌||◌, ◌↔◌, ◌∙◌, ◌∷◌, ◌≡◌,
  ◌≤◌,
}
use identity_hub.Admin.{deduplicate, deduplicate_from, includes, same_roles}

-- No name stands twice.
abbrev pub distinct : List Bytes → Bool
distinct [] = true
distinct (x ∷ xs) = not (elem x xs) && distinct xs

abbrev remove : Bytes → List Bytes → List Bytes
remove x [] = []
remove x (y ∷ ys) = if bytes_eq y x then ys else y ∷ remove x ys

length-remove :
    (x : Bytes) (ys : List Bytes) → elem x ys ≡ true → length ys ≡ suc (length (remove x ys))
length-remove x [] h = ground arith
length-remove x (y ∷ ys) h = ground (arith, length-remove x ys)

elem-remove :
    (n x : Bytes) (ys : List Bytes) → bytes_eq x n ≡ false → elem n (remove x ys) ≡ elem n ys
elem-remove n x [] h = refl
elem-remove n x (y ∷ ys) h = ground (arith, elem-remove n x ys h, bytes_eq_sound y x)

remove-less : (n x : Bytes) (ys : List Bytes) → elem n (remove x ys) ≡ true → elem n ys ≡ true
remove-less n x [] h = h
remove-less n x (y ∷ ys) h = ground (arith, remove-less n x ys)

-- Every name of the first list is in the second.
Within : List Bytes → List Bytes → Type 0
Within xs ys = (n : Bytes) → elem n xs ≡ true → elem n ys ≡ true

tail-Within :
    (x : Bytes) (xs ys : List Bytes)
    → elem x xs ≡ false
    → Within (x ∷ xs) ys
    → Within xs (remove x ys)
unfolding Within
tail-Within x xs ys apart h n k = elim (Bool-cases (bytes_eq x n)) [
  | inl e ↦ absurd (ground (arith, apart, k, bytes_eq_sound x n e))
  | inr e ↦ elem-remove n x ys e ∙ h n (ground (arith, e, k))
]

head-Within : (x : Bytes) (xs ys : List Bytes) → Within (x ∷ xs) ys → elem x ys ≡ true
unfolding Within
head-Within x xs ys h = h x (ground (arith, bytes_eq_refl x))

Within-length : (xs ys : List Bytes) → distinct xs ≡ true → Within xs ys → length xs ≤ length ys
Within-length [] ys d h = omega arith
Within-length (x ∷ xs) ys d h = ground (
  arith,
  length-remove x ys (head-Within x xs ys h),
  Within-length xs (remove x ys) (ground (arith, d)) (tail-Within x xs ys (ground (arith, d)) h),
)

-- A list of distinct names that fills another of no more names is all of it.
Within-full :
    (xs ys : List Bytes) → distinct xs ≡ true → length ys ≤ length xs → Within xs ys → Within ys xs
unfolding Within
Within-full [] [] d c h n k = k
Within-full [] (y ∷ ys) d c h n k = ground (arith, c)
Within-full (x ∷ xs) ys d c h n k = elim (Bool-cases (bytes_eq x n)) [
  | inl e ↦ ground (arith, e)
  | inr e ↦
      let rest = tail-Within x xs ys (ground (arith, d)) h in
      let small = length-remove x ys (head-Within x xs ys h) in
      ground (
        arith,
        e,
        Within-full xs (remove x ys) (ground (arith, d)) (ground (arith, small, c)) rest n
            (elem-remove n x ys e ∙ k),
      )
]

includes-Within :
    (right left : List Bytes) (n : Bytes)
    → includes right left ≡ true
    → elem n left ≡ true
    → elem n right ≡ true
includes-Within right [] n h k = ground arith
includes-Within right (x ∷ xs) n h k = elim (Bool-cases (bytes_eq x n)) [
  | inl e ↦ ground (arith, h, bytes_eq_sound x n e)
  | inr e ↦ ground (arith, e, includes-Within right xs n)
]

Within-includes : (right left : List Bytes) → Within left right → includes right left ≡ true
unfolding Within
Within-includes right [] h = refl
Within-includes right (x ∷ xs) h = ground (
  arith,
  head-Within x xs right h,
  Within-includes right xs (λ n k. h n (elim (Bool-cases (bytes_eq x n)) [
    | inl e ↦ ground (arith, e)
    | inr e ↦ ground (arith, e, k)
  ])),
)

bool_iff : (a b : Bool) → (a ≡ true → b ≡ true) → (b ≡ true → a ≡ true) → a ≡ b
bool_iff true b f g = sym (f refl)
bool_iff false true f g = g refl
bool_iff false false f g = refl

-- Between lists without repeated names, sameRoles tells whether they have the same names.
pub same_roles_iff :
    (left right : List Bytes)
    → distinct left ≡ true
    → distinct right ≡ true
    → (same_roles left right ≡ true) ↔ ((n : Bytes) → elem n left ≡ elem n right)
unfolding same_roles Within
same_roles_iff left right d d' = (
  λ h n.
      let forth = λ (m : Bytes). includes-Within right left m (ground (arith, h)) in
      bool_iff (elem n left) (elem n right) (forth n)
        (Within-full left right d (ground (arith, h)) forth n),
  λ h. ground (
    arith,
    Within-length left right d (λ n k. sym (h n) ∙ k),
    Within-length right left d' (λ n k. h n ∙ k),
    Within-includes right left (λ n k. sym (h n) ∙ k),
  ),
)

elem-append : (n x : Bytes) (xs : List Bytes) → elem n (xs ++ x ∷ []) ≡ (elem n xs || bytes_eq x n)
elem-append n x [] = ground arith
elem-append n x (y ∷ ys) = ground (arith, elem-append n x ys)

distinct-append :
    (x : Bytes) (xs : List Bytes)
    → elem x xs ≡ false
    → distinct xs ≡ true
    → distinct (xs ++ x ∷ []) ≡ true
distinct-append x [] h d = refl
distinct-append x (y ∷ ys) h d =
    ground (arith, distinct-append x ys, elem-append y x ys, bytes_eq_sound x y, bytes_eq_refl y)

elem-deduplicate_from :
    (n : Bytes) (result roles : List Bytes)
    → elem n (deduplicate_from result roles) ≡ (elem n result || elem n roles)
elem-deduplicate_from n result [] = ground arith
elem-deduplicate_from n result (r ∷ rs) = ground (
  arith,
  elem-deduplicate_from n result rs,
  elem-deduplicate_from n (result ++ r ∷ []) rs,
  elem-append n r result,
  bytes_eq_sound r n,
)

distinct-deduplicate_from :
    (result roles : List Bytes)
    → distinct result ≡ true
    → distinct (deduplicate_from result roles) ≡ true
distinct-deduplicate_from result [] d = d
distinct-deduplicate_from result (r ∷ rs) d = ground (
  arith,
  distinct-deduplicate_from result rs d,
  distinct-deduplicate_from (result ++ r ∷ []) rs,
  distinct-append r result,
)

-- deduplicate keeps the names of its argument, each once.
pub deduplicate_lem :
    (roles : List Bytes)
    → (distinct (deduplicate roles) ≡ true)
      × ((n : Bytes) → elem n (deduplicate roles) ≡ elem n roles)
unfolding deduplicate
deduplicate_lem roles =
    (distinct-deduplicate_from [] roles refl, λ n. elem-deduplicate_from n [] roles)
