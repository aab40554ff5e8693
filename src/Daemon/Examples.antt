-- ===== src/Daemon/Examples.antt =====
-- Two lines of input, a client that counts what it is asked, and the theorems at them.
use tls_forge.Base.{
  ℕ, ◌+◌, List, [], ◌∷◌, Option, none, some, ◌≡◌, refl, if◌then◌else◌, Text, codes, to_lower,
  text_eq, trim_space, sort, text_leb,
}
use tls_forge.Header.{Header, field, values}
use tls_forge.Daemon.{Request, ok, Base64}
use tls_forge.Daemon.Serve.{Outgoing, Outcome, replied, serve_lines}
use tls_forge.Daemon.HeaderMap.{ordered_headers}
use tls_forge.Daemon.Answers.{ids, requested, ids-serve_lines}
use tls_forge.Daemon.Headers.{named, values-ordered_headers}
use tls_forge.Daemon.Order.{listed}

abbrev blank : Request
blank = record {
  id = 7;
  method = [];
  url = [];
  headers = [];
  order = [];
  body = [];
  body_encoding = [];
  set_cookie = [];
}

abbrev visit : Request
visit = record blank {
  id = 8;
  url = codes "https://a.b";
  headers = (codes "X-B", codes "1") ∷ (codes "Accept", codes "*") ∷ (codes "x-a", codes "2") ∷ [];
}

abbrev decode : Text → Request × Option Text
decode line = if text_eq line (codes "go") then (visit, none) else (blank, none)

abbrev unquote : Text → Option Text
unquote [] = none
unquote (c ∷ s) = some s

-- Not base64, but it is undone as that is.
abbrev quoted : Base64
quoted = record { encode = λ s. b'q' ∷ s; decode = unquote }

abbrev chrome : Header
chrome = field (codes "accept") (codes "image/*") ∷ []

abbrev send : ℕ → Outgoing → Outcome × ℕ
send n request = (
  replied (record { status = 200; url = request.url; header = []; body = 0xff ∷ []; cookies = [] }),
  n + 1,
)

abbrev input : List (Option Text)
input = some (codes " go ") ∷ some [] ∷ some (codes "no") ∷ none ∷ some (codes "go") ∷ []

abbrev sent : Header
sent =
    field (codes "accept") (codes "*")
    ∷ field (codes "x-a") (codes "2")
    ∷ field (codes "x-b") (codes "1")
    ∷ []

headers_run : ordered_headers visit chrome ≡ ok sent
unfolding ordered_headers to_lower sort text_leb
headers_run = refl

ids-serve_lines_example :
    ids (serve_lines quoted decode chrome send input 0).0
    ≡ requested quoted decode chrome send input
ids-serve_lines_example = ids-serve_lines quoted decode chrome send input 0

requested_run : requested quoted decode chrome send input ≡ 8 ∷ 7 ∷ []
unfolding requested trim_space text_eq
requested_run = refl

values-ordered_headers_example :
    values sent (codes "X-A") ≡ listed (named (to_lower (codes "X-A")) visit.headers)
values-ordered_headers_example = values-ordered_headers visit chrome sent (codes "X-A") headers_run
