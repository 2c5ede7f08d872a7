-- ===== src/Refresh/Works.antt =====
-- refresh.go: the rotation of a usable refresh token.
use identity_hub.Base.{Bool, Bytes, bytes_eq, false, is_some, true, ℕ, ◌≡◌}
use identity_hub.World.{Claims, RefreshRow, World}
use identity_hub.Token
use identity_hub.Refresh.{Service}

abbrev has_hash : Bytes → RefreshRow → Bool
has_hash hash r = bytes_eq r.token_hash hash

abbrev Calm : World → Type 0
Calm v = (n : ℕ) → v.env.fails n ≡ false

-- What the signer and the texts of identifiers must give.
pub record Signs (ts : Token.Service) : Type 0 where
  pub signs : (c : Claims) → is_some (ts.ext.sign c) ≡ true
