-- ===== src/Daemon/Serve.antt =====
-- daemon/daemon.go: `handle` and `Serve`.
use tls_forge.Base.{
  ℕ, true, false, List, [], ◌∷◌, Option, none, some, if◌then◌else◌, Text, trim_space, scan_lines,
}
use tls_forge.Header.{Header}
use tls_forge.Daemon.{
  Request, no_url, line_too_long, malformed, client_failed, Result, ok, err, ◌>>=◌, Response,
  failed, is_blank, Base64, decode_body, encode_body, validate_response_headers, parse_cookies,
}
use tls_forge.Daemon.HeaderMap.{ordered_headers}

-- What the client is asked for, and what it answers.
pub record Outgoing : Type 0 where
  pub method : Text
  pub url : Text
  pub header : Header
  pub body : Text
  pub cookies : List (Text × Text)

pub record Reply : Type 0 where
  pub status : ℕ
  pub url : Text
  pub header : List (Text × List Text)
  pub body : Text
  pub cookies : List Text

pub data Outcome : Type 0 where
  replied : Reply → Outcome
  refused : Text → Outcome

-- The request that `handle` makes of a line, as far as it gets.
unfoldable pub outgoing : Base64 → Header → Request → Option Text → Result Outgoing
unfolding ordered_headers parse_cookies decode_body
outgoing base64 profile req (some message) = err (malformed message)
outgoing base64 profile req none = if is_blank req.url then err no_url else (do
  header ← ordered_headers req profile
  cookies ← parse_cookies req.set_cookie
  body ← decode_body base64 req.body req.body_encoding
  ok (record {
    method = req.method;
    url = req.url;
    header = header;
    body = body;
    cookies = cookies;
  }))

abbrev pub response_of : Base64 → ℕ → Reply → Result (Unit {0}) → Response
response_of base64 id res (err e) = failed id e
response_of base64 id res (ok _) =
    let (text, encoding) = encode_body base64 res.body in
    record {
      id = id;
      status = res.status;
      url = res.url;
      body = text;
      body_encoding = encoding;
      headers = res.header;
      cookies = res.cookies;
      error = none;
    }

abbrev pub answer : Base64 → ℕ → Outcome → Response
answer base64 id (refused message) = failed id (client_failed message)
answer base64 id (replied res) = response_of base64 id res (validate_response_headers res.header)

module _ {σ : Type 0} (base64 : Base64) (decode : Text → Request × Option Text) (profile : Header)
    (send : σ → Outgoing → Outcome × σ) where
  -- The client is asked only for a request that was made.
  abbrev pub answered : ℕ → σ → Result Outgoing → Response × σ
  answered id client (err e) = (failed id e, client)
  answered id client (ok request) =
      let (outcome, after) = send client request in (answer base64 id outcome, after)

  unfoldable pub handle : Text → σ → Response × σ
  unfolding outgoing encode_body validate_response_headers
  handle line client =
      let (req, message) = decode line in
      answered req.id client (outgoing base64 profile req message)

  -- The loop of `Serve`: the responses, and how it ends.
  unfoldable pub serve_lines : List (Option Text) → σ → List Response × Result (Unit {0})
  unfolding handle trim_space
  serve_lines [] client = ([], ok tt)
  serve_lines (none ∷ lines) client = ([], err line_too_long)
  serve_lines (some text ∷ lines) client = elim (is_blank (trim_space text)) [
    | true ↦ serve_lines lines client
    | false ↦
        let (response, after) = handle (trim_space text) client in
        let (responses, end) = serve_lines lines after in (response ∷ responses, end)
  ]

  unfoldable pub serve : Text → σ → List Response × Result (Unit {0})
  unfolding serve_lines scan_lines
  serve input client = serve_lines (scan_lines 16777216 input) client
