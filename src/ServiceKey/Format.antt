-- ===== src/ServiceKey/Format.antt =====
-- servicekey.go: the text of a key.
use identity_hub.Base.{
  Bytes, Option, Option-cases, [], ap, arith, cut_prefix, cut_prefix_sound, inl, inr, length, none,
  refl, some, true, ◌++◌, ◌+◌, ◌∙◌, ◌∷◌, ◌≡◌,
}
use identity_hub.Sql.Keys.{all_lower_hex, is_public_id}
use identity_hub.ServiceKey.{check_parts, cut, full_key, key_prefix, parse, secret_length}

cut-append :
    (id secret : Bytes)
    → all_lower_hex id ≡ true
    → cut b'_' (id ++ b'_' ∷ secret) ≡ some (id, secret)
cut-append [] secret h = refl
cut-append (c ∷ cs) secret h = ground (arith, cut-append cs secret)

length-key : (id secret : Bytes) → length (id ++ b'_' ∷ secret) ≡ length id + 1 + length secret
length-key [] secret = omega arith
length-key (c ∷ cs) secret = omega (arith, length-key cs secret)

-- What Create prints, parse reads back, when the id and the secret have the lengths of keys and the id
-- is in lower-case hex.
pub parse-full_key :
    (id secret : Bytes)
    → is_public_id id ≡ true
    → length secret ≡ secret_length
    → parse (full_key id secret) ≡ some (id, secret)
unfolding parse
parse-full_key id secret h k = ground (arith, cut-append id secret, length-key id secret)

cut_sound : (s id secret : Bytes) → cut b'_' s ≡ some (id, secret) → s ≡ id ++ b'_' ∷ secret
cut_sound [] id secret h = ground arith
cut_sound (x ∷ xs) id secret h = elim (Option-cases (cut b'_' xs)) [
  | inl e ↦ ground arith
  | inr ((i, t), e) ↦ ground (arith, cut_sound xs i t)
]

check_parts-some :
    (p : Option (Bytes × Bytes)) (id secret : Bytes)
    → check_parts p ≡ some (id, secret)
    → (p ≡ some (id, secret)) × (is_public_id id ≡ true) × (length secret ≡ secret_length)
check_parts-some none id secret h = ground arith
check_parts-some (some (i, t)) id secret h = (ground arith, ground arith, ground arith)

-- Whatever parse accepts is the printed form of the parts that it returns, which have the form of a
-- key's: no two texts stand for the same key.
pub parse_sound :
    (raw id secret : Bytes)
    → parse raw ≡ some (id, secret)
    → (raw ≡ full_key id secret) × (is_public_id id ≡ true) × (length secret ≡ secret_length)
unfolding parse
parse_sound raw id secret h = elim (Option-cases (cut_prefix key_prefix raw)) [
  | inl e ↦ ground arith
  | inr (rest, e) ↦
      let (parts, is_id, is_secret) = check_parts-some (cut b'_' rest) id secret (ground arith) in
      (
        cut_prefix_sound key_prefix raw rest e
            ∙ ap {B = Bytes} (λ (q : Bytes). key_prefix ++ q) (cut_sound rest id secret parts),
        is_id,
        is_secret,
      )
]
