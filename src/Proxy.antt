-- ===== src/Proxy.antt =====
-- proxy/proxy.go: which headers a request is sent on with, and the connections that are open.
pub mod Given
pub mod Merged
pub mod Shuffled
pub mod Connections
pub mod Closing
mod Examples
use tls_forge.Base.{
  ℕ, ◌-◌, Bool, true, false, ◌&&◌, ◌||◌, List, [], ◌∷◌, leb, ◌==◌, if◌then◌else◌, Text, codes,
  text_eq, to_lower, lower_byte, contains, all, any, sort, text_leb,
}
use tls_forge.Header.{Header, has, add, clone}

-- `http.Header`: its keys are distinct, and come in any order.
abbrev pub Incoming : Type 0
Incoming = List (Text × List Text)

abbrev pub is_letter : ℕ → Bool
is_letter c = leb b'A' c && leb c b'Z' || leb b'a' c && leb c b'z'

-- `textproto.CanonicalMIMEHeaderKey`: a letter is upper case at the start and behind a dash; a name
-- with a byte that is none of a token is left alone.
abbrev pub is_token_byte : ℕ → Bool
is_token_byte c =
    is_letter c || leb b'0' c && leb c b'9' || any (λ d. d == c) (codes "!#$%&'*+-.^_`|~")

abbrev pub upper_byte : ℕ → ℕ
upper_byte c = if leb b'a' c && leb c b'z' then c - 32 else c

unfoldable pub canonical_loop : Bool → Text → Text
unfolding lower_byte
canonical_loop upper [] = []
canonical_loop upper (c ∷ s) =
    (if upper then upper_byte c else lower_byte c) ∷ canonical_loop (c == b'-') s

unfoldable pub canonical_key : Text → Text
unfolding canonical_loop
canonical_key name = if all is_token_byte name then canonical_loop true name else name

unfoldable pub at_key : Text → Incoming → List Text
unfolding text_eq
at_key k [] = []
at_key k ((j, vs) ∷ incoming) = if text_eq j k then vs else at_key k incoming

-- `incoming.Values(name)`
unfoldable pub incoming_values : Incoming → Text → List Text
unfolding at_key canonical_key
incoming_values incoming name = at_key (canonical_key name) incoming

-- The headers of the connection to the proxy, or recomputed, or meant for the proxy itself.
unfoldable pub is_dropped : Text → Bool
unfolding contains
is_dropped lower = contains lower (
    codes "proxy-connection"
    ∷ codes "connection"
    ∷ codes "keep-alive"
    ∷ codes "transfer-encoding"
    ∷ codes "upgrade"
    ∷ codes "host"
    ∷ codes "content-length"
    ∷ codes "proxy-authorization"
    ∷ codes "proxy-authenticate"
    ∷ [])

-- The first loop of `mergeHeaders`.
unfoldable pub extras_of : Header → Incoming → List Text
unfolding is_dropped has to_lower
extras_of out [] = []
extras_of out ((name, vs) ∷ incoming) =
    let lower = to_lower name in
    let extras = extras_of out incoming in
    if is_dropped lower then extras else if has out lower then extras else lower ∷ extras

unfoldable pub add_values : Header → Text → List Text → Header
unfolding add
add_values out name [] = out
add_values out name (v ∷ vs) = add_values (add out name v) name vs

-- The second loop.
unfoldable pub add_extras : Incoming → Header → List Text → Header
unfolding add_values incoming_values
add_extras incoming out [] = out
add_extras incoming out (name ∷ extras) =
    add_extras incoming (add_values out name (incoming_values incoming name)) extras

unfoldable pub merge_headers : Header → Incoming → Header
unfolding add_extras extras_of
merge_headers profile incoming =
    let out = clone profile in add_extras incoming out (sort text_leb (extras_of out incoming))
