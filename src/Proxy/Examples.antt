-- ===== src/Proxy/Examples.antt =====
-- A request that goes through the proxy, and a server that is closed over an open connection.
use mathlib.Core.List.{Permᴰ}
use tls_forge.Base.{
  true, List, [], ◌∷◌, ◌++◌, ◌≡◌, ◌⊎◌, refl, if◌then◌else◌, Text, codes, to_lower, contains, sort,
  text_leb, text_eq,
}
use tls_forge.Header.{Header, field, values}
use tls_forge.Proxy.{Incoming, incoming_values, merge_headers}
use tls_forge.Proxy.Given.{lower_names, DistinctNames, goes_on}
use tls_forge.Proxy.Merged.{values-merge_headers}
use tls_forge.Proxy.Shuffled.{DistinctKeys, merge_headers-perm}
use tls_forge.Proxy.Connections.{
  Server, contains_conn, start, track, admitted, close_lock, handled, locked, Reachable, started,
  step,
}
use tls_forge.Proxy.Closing.{conns_covered}

abbrev chrome : Header
chrome = field (codes "user-agent") (codes "Chrome") ∷ field (codes "accept") (codes "*/*") ∷ []

abbrev agent : Text × List Text
agent = (codes "User-Agent", codes "curl" ∷ [])

abbrev cookies : Text × List Text
cookies = (codes "Cookie", codes "a=1" ∷ codes "b=2" ∷ [])

abbrev secret : Text × List Text
secret = (codes "Proxy-Authorization", codes "Basic x" ∷ [])

abbrev incoming : Incoming
incoming = secret ∷ cookies ∷ agent ∷ []

abbrev other_way : Incoming
other_way = cookies ∷ secret ∷ agent ∷ []

names_differ : DistinctNames incoming
unfolding contains lower_names to_lower
names_differ = (refl, (refl, (refl, tt)))

keys_differ : DistinctKeys incoming
unfolding text_eq
keys_differ = (refl, (refl, (refl, tt)))

merged_runs :
    merge_headers chrome incoming
    ≡ field (codes "user-agent") (codes "Chrome")
      ∷ field (codes "accept") (codes "*/*")
      ∷ field (codes "cookie") (codes "a=1")
      ∷ field (codes "cookie") (codes "b=2")
      ∷ []
unfolding merge_headers sort text_leb
merged_runs = refl

values-merge_headers_example :
    values (merge_headers chrome incoming) (codes "proxy-authorization")
    ≡ values chrome (codes "proxy-authorization")
      ++ (if goes_on chrome incoming (to_lower (codes "proxy-authorization"))
          then incoming_values incoming (to_lower (codes "proxy-authorization"))
          else [])
values-merge_headers_example =
    values-merge_headers chrome incoming (codes "proxy-authorization") names_differ

merge_headers-perm_example : merge_headers chrome incoming ≡ merge_headers chrome other_way
merge_headers-perm_example = merge_headers-perm chrome (Permᴰ.swap refl refl) keys_differ

abbrev opened : Server
opened = admitted 7 (track start 7)

abbrev shutting : Server
shutting = close_lock opened

shutting-Reachable : Reachable shutting
unfolding track
shutting-Reachable = step (step started (handled start 7)) (locked opened refl)

conns_covered_example :
    (contains_conn 7 shutting.ended ≡ true) ⊎ (contains_conn 7 shutting.snapshot ≡ true)
unfolding track close_lock
conns_covered_example = conns_covered shutting 7 shutting-Reachable refl refl
