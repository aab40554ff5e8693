-- ===== src/Client/Examples.antt =====
-- A measured request over HTTP/1.1 and the headers of one over HTTP/2, and what a client of the
-- profile sends.
use tls_forge.Base.{
  false, List, [], ◌∷◌, some, ◌≡◌, refl, text_eq, codes, contains, to_lower, equal_fold, has_prefix,
}
use tls_forge.Capture as Capture_
use tls_forge.Header.{
  field, values, merge, collect, append_to, lookup, has, keep_base, keep_bases, append_new,
  append_news,
}
use tls_forge.Profile.FromCapture.{
  http1_from_capture, kept_headers, per_request, group_loop, group_at, put_group, own_headers,
  same_field_values, field_values,
}
use tls_forge.Client.{profile_http1_headers, resolved_loop}
use tls_forge.Base.{sort, text_leb}
use tls_forge.Proxy.{canonical_key}
use tls_forge.Client.Redirect.{
  Layout, redirect_http1_layout, header_layout_key, gathered, follow, add_new, set_header,
  delete_header, keys, values_under, put, without, wire_under, texts_eq,
}
use tls_forge.Client.Redirect.Carried.{carries}
use tls_forge.Client.Redirect.Dropped.{redirect_http1_layout-drops}
use tls_forge.Client.Replayed.{Replays, http1_from_capture-Replays}

abbrev measured : Capture_.Http1
measured = record {
  method = codes "GET";
  path = codes "/";
  proto = codes "HTTP/1.1";
  header_order = [];
  header_names = codes "Host" ∷ codes "Accept" ∷ codes "Connection" ∷ codes "Cookie" ∷ [];
  headers =
      record { name = codes "host"; value = codes "a.test" }
      ∷ record { name = codes "accept"; value = codes "text/html" }
      ∷ record { name = codes "connection"; value = codes "keep-alive" }
      ∷ record { name = codes "cookie"; value = codes "x=1" }
      ∷ [];
}

abbrev shared : List Capture_.HeaderField
shared =
    record { name = codes "accept"; value = codes "*/*" }
    ∷ record { name = codes "priority"; value = codes "u=0" }
    ∷ []

http1_from_capture-Replays_example :
    Replays measured shared (http1_from_capture (some measured) (kept_headers shared))
unfolding to_lower
http1_from_capture-Replays_example =
    http1_from_capture-Replays measured shared (refl, (refl, (refl, (refl, tt))))

-- The block has what is not shared, and the order as it was spelled.
block_made :
    http1_from_capture (some measured) (kept_headers shared)
    ≡ some (
        some (record {
          header_order = codes "Host" ∷ codes "Accept" ∷ codes "Connection" ∷ [];
          headers =
              field (codes "Accept") (codes "text/html")
              ∷ field (codes "Connection") (codes "keep-alive")
              ∷ [];
        }))
unfolding http1_from_capture kept_headers per_request contains text_eq to_lower has_prefix
    group_loop group_at put_group own_headers same_field_values field_values
block_made = refl

sent_headers :
    profile_http1_headers
      (field (codes "accept") (codes "*/*") ∷ field (codes "priority") (codes "u=0") ∷ [])
      (some (record {
        header_order = codes "Host" ∷ codes "Accept" ∷ codes "Connection" ∷ [];
        headers =
            field (codes "Accept") (codes "text/html")
            ∷ field (codes "Connection") (codes "keep-alive")
            ∷ [];
      }))
    ≡ field (codes "accept") (codes "text/html")
      ∷ field (codes "connection") (codes "keep-alive")
      ∷ []
unfolding resolved_loop merge values contains text_eq to_lower equal_fold collect append_to lookup
    has keep_base keep_bases append_new append_news
sent_headers = refl

-- A redirect to another origin: fhttp has dropped the credentials.
abbrev asked : Layout
asked =
    (codes "Host", codes "a.test" ∷ [])
    ∷ (codes "Authorization", codes "Basic eA==" ∷ [])
    ∷ (codes "Accept", codes "*/*" ∷ [])
    ∷ []

abbrev redirected : Layout
redirected = (codes "Accept", codes "*/*" ∷ []) ∷ []

redirect_http1_layout-drops_example :
    carries (codes "authorization") (
      redirect_http1_layout
        (codes "Header-Order:")
        (codes "PHeader-Order:")
        asked
        asked
        redirected
        (codes "b.test"))
    ≡ false
unfolding to_lower text_eq carries header_layout_key equal_fold
redirect_http1_layout-drops_example =
    redirect_http1_layout-drops (codes "Header-Order:") (codes "PHeader-Order:") asked asked
      redirected (codes "b.test") (codes "Authorization") refl refl refl refl

block_redirected :
    redirect_http1_layout
      (codes "Header-Order:")
      (codes "PHeader-Order:")
      asked
      asked
      redirected
      (codes "b.test")
    ≡ (codes "Host", codes "b.test" ∷ [])
      ∷ (codes "Accept", codes "*/*" ∷ [])
      ∷ (codes "Header-Order:", [])
      ∷ []
unfolding redirect_http1_layout gathered follow add_new set_header delete_header keys sort text_leb
    to_lower text_eq header_layout_key equal_fold values_under put without wire_under texts_eq
    canonical_key
block_redirected = refl
