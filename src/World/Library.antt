-- ===== src/World/Library.antt =====
-- What the services call and this library does not define: hashes, the codecs of the standard
-- library, the Argon2id hasher and the JWT signer, as a record of functions.
use identity_hub.Base.{Bool, Bytes, List, Option, ℕ}

-- What password.Verify reports: the comparison's outcome, an InvalidPasswordError, which the login
-- tolerates, or another failure.
pub data Verdict : Type 0 where
  matches differs unacceptable malformed : Verdict

-- The claims of an access token.
pub record Claims : Type 0 where
  pub roles : List Bytes
  pub permissions : Option (List Bytes)
  pub session_id : Bytes
  pub issuer : Bytes
  pub subject : Bytes
  pub audience : Bytes
  pub expires_at : ℕ
  pub issued_at : ℕ
  pub jti : Bytes

pub record External : Type 0 where
  pub sha256 : Bytes → Bytes
  -- HMAC-SHA256 by key and message.
  pub hmac : Bytes → Bytes → Bytes
  -- base64.RawURLEncoding
  pub encode : Bytes → Bytes
  pub decode : Bytes → Option Bytes
  pub hex : Bytes → Bytes
  pub uuid_string : ℕ → Bytes
  -- citext compares the lower-cased texts.
  pub fold : Bytes → Bytes
  pub verify : Bytes → Bytes → Verdict
  pub verify_decoy : Bytes → Verdict
  pub needs_rehash : Bytes → Bool
  pub hash : Bytes → Option Bytes
  pub sign : Claims → Option Bytes
  -- crypto/rand.Int below its second argument, from the bytes that were read.
  pub rand_int : ℕ → Bytes → ℕ
