-- ===== src/Http/ClientIp.antt =====
-- clientip.go: the client's address behind trusted proxies. Addresses and prefixes are numbers.
use identity_hub.Base.{
  All, Bool, Bytes, List, Option, [], arith, false, if◌then◌else◌, none, refl, some, true, ℕ, ◌++◌,
  ◌==◌, ◌∷◌, ◌≡◌,
}

-- The functions of net, netip and strings that the file calls. `parse` is netip.ParseAddr and Unmap.
pub record Net : Type 0 where
  pub split_host_port : Bytes → Option Bytes
  pub trim_space : Bytes → Bytes
  pub trim_brackets : Bytes → Bytes
  pub parse : Bytes → Option ℕ
  pub contains : ℕ → ℕ → Bool

-- The part of a text before a character, or all of it: strings.Cut.
abbrev pub before_char : ℕ → Bytes → Bytes
before_char c [] = []
before_char c (x ∷ xs) = if x == c then [] else x ∷ before_char c xs

abbrev pub cons_head : ℕ → List Bytes → List Bytes
cons_head x [] = (x ∷ []) ∷ []
cons_head x (w ∷ ws) = (x ∷ w) ∷ ws

-- strings.Split by a character.
abbrev pub split_on : ℕ → Bytes → List Bytes
split_on c [] = [] ∷ []
split_on c (x ∷ xs) = if x == c then [] ∷ split_on c xs else cons_head x (split_on c xs)

-- parseAddress
unfoldable pub parse_address : Net → Bytes → Option ℕ
parse_address n value = n.parse (before_char b'%' (n.trim_brackets (n.trim_space value)))

abbrev pub host_of : Net → Bytes → Option Bytes → Bytes
host_of n remote none = n.trim_brackets (n.trim_space remote)
host_of n remote (some host) = host

-- parseRemoteAddr
unfoldable pub parse_remote_addr : Net → Bytes → Option ℕ
parse_remote_addr n remote =
    parse_address n (host_of n remote (n.split_host_port (n.trim_space remote)))

abbrev pub cons_address : Option ℕ → Option (List ℕ) → Option (List ℕ)
cons_address none later = none
cons_address (some a) none = none
cons_address (some a) (some later) = some (a ∷ later)

-- The inner loop of parseForwardedFor, with the rest of the outer loop as its last argument.
abbrev pub parse_entries : Net → List Bytes → Option (List ℕ) → Option (List ℕ)
parse_entries n [] rest = rest
parse_entries n (e ∷ es) rest = cons_address (parse_address n e) (parse_entries n es rest)

-- parseForwardedFor
unfoldable pub parse_forwarded_for : Net → List Bytes → Option (List ℕ)
parse_forwarded_for n [] = some []
parse_forwarded_for n (v ∷ vs) = parse_entries n (split_on b',' v) (parse_forwarded_for n vs)

-- isTrusted
abbrev pub is_trusted : Net → ℕ → List ℕ → Bool
is_trusted n address [] = false
is_trusted n address (p ∷ ps) = if n.contains p address then true else is_trusted n address ps

-- The loop of resolveClientIP from the last address to the first.
abbrev pub last_untrusted : Net → List ℕ → List ℕ → Option ℕ
last_untrusted n trusted [] = none
last_untrusted n trusted (a ∷ later) = elim (last_untrusted n trusted later) [
  | some b ↦ some b
  | none ↦ if is_trusted n a trusted then none else some a
]

abbrev pub or_peer : ℕ → Option ℕ → ℕ
or_peer peer none = peer
or_peer peer (some a) = a

abbrev pub from_forwarded : Net → List ℕ → ℕ → Option (List ℕ) → ℕ
from_forwarded n trusted peer none = peer
from_forwarded n trusted peer (some later) = or_peer peer (last_untrusted n trusted later)

-- The rest of resolveClientIP, for a peer that was parsed.
abbrev pub resolve_peer : Net → List ℕ → List Bytes → ℕ → ℕ
resolve_peer n trusted values peer =
    if is_trusted n peer trusted
    then from_forwarded n trusted peer (parse_forwarded_for n values)
    else peer

abbrev pub map_peer : (ℕ → ℕ) → Option ℕ → Option ℕ
map_peer f none = none
map_peer f (some a) = some (f a)

-- resolveClientIP: the peer's address and the values of X-Forwarded-For.
pub resolve_client_ip : Net → List ℕ → Bytes → List Bytes → Option ℕ
resolve_client_ip n trusted remote values =
    map_peer (resolve_peer n trusted values) (parse_remote_addr n remote)

abbrev pub IsTrusted : Net → List ℕ → ℕ → Type 0
IsTrusted n trusted a = is_trusted n a trusted ≡ true

last_untrusted_trusted :
    (n : Net) (trusted later : List ℕ)
    → All (IsTrusted n trusted) later
    → last_untrusted n trusted later ≡ none
last_untrusted_trusted n trusted [] h = refl
last_untrusted_trusted n trusted (a ∷ later) h =
    ground (arith, last_untrusted_trusted n trusted later h.1)

last_untrusted_lem :
    (n : Net) (trusted before proxies : List ℕ) (a : ℕ)
    → is_trusted n a trusted ≡ false
    → All (IsTrusted n trusted) proxies
    → last_untrusted n trusted (before ++ a ∷ proxies) ≡ some a
last_untrusted_lem n trusted [] proxies a h k =
    ground (arith, last_untrusted_trusted n trusted proxies k)
last_untrusted_lem n trusted (b ∷ before) proxies a h k =
    ground (arith, last_untrusted_lem n trusted before proxies a h k)

-- When the peer is a trusted proxy and the header parses to any addresses, then one that is not
-- trusted, then trusted ones, the client's address is the one that is not trusted, whatever the client
-- wrote before it.
pub forwarded_not_spoofed :
    (n : Net) (trusted before proxies : List ℕ) (a peer : ℕ) (remote : Bytes) (values : List Bytes)
    → parse_remote_addr n remote ≡ some peer
    → is_trusted n peer trusted ≡ true
    → parse_forwarded_for n values ≡ some (before ++ a ∷ proxies)
    → is_trusted n a trusted ≡ false
    → All (IsTrusted n trusted) proxies
    → resolve_client_ip n trusted remote values ≡ some a
unfolding resolve_client_ip
forwarded_not_spoofed n trusted before proxies a peer remote values p t f h k =
    ground (arith, last_untrusted_lem n trusted before proxies a h k)
