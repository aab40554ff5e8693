-- ===== src/Client.antt =====
-- client.go: the header blocks that a request is sent with. The client of tls-client, its jar and
-- its connections are a library.
pub mod Replayed
pub mod Redirect
mod Examples
use tls_forge.Base.{
  Bool, List, [], ◌∷◌, ◌++◌, map, Option, none, some, if◌then◌else◌, Text, codes, to_lower,
  equal_fold,
}
use tls_forge.Header.{Header, field, merge, values}
use tls_forge.Profile.{Http1}

-- The loop over the order of the HTTP/1.1 block.
unfoldable pub resolved_loop : Header → List Text → Header
unfolding equal_fold to_lower values
resolved_loop resolved [] = []
resolved_loop resolved (wire ∷ order) =
    let rest = resolved_loop resolved order in
    if equal_fold wire (codes "host")
    then rest
    else map (field (to_lower wire)) (values resolved wire) ++ rest

-- `profileHTTP1Headers`, of the shared headers and the block.
abbrev pub profile_http1_headers : Header → Option Http1 → Header
profile_http1_headers shared none = shared
profile_http1_headers shared (some b) = resolved_loop (merge shared b.headers) b.header_order
