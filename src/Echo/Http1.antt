-- ===== src/Echo/Http1.antt =====
-- echo/h1.go: requests of HTTP/1.1 read from a connection, which is the bytes that come until its
-- end. The text of an error is not modelled, its kind is.
pub mod Lines
pub mod RoundTrip
pub mod Framing
pub mod Bounds
use tls_forge.Base.{
  ℕ, zero, suc, ◌+◌, ◌-◌, ◌*◌, Bool, true, false, not, ◌&&◌, ◌||◌, List, [], ◌∷◌, ◌++◌, map, Option,
  none, some, length, take, drop, ltb, leb, ◌==◌, if◌then◌else◌, Text, text_eq, codes, to_lower,
  cut_text, trim_right, trim_space, ℤ, pos, negsuc, parse_int, decimal,
}
use tls_forge.Capture.{Http1, HeaderField}

pub data Error : Type 0 where
  end_of_input unexpected_end line_too_long malformed_request malformed_header : Error
  too_many_headers transfer_encoding duplicate_length unusable_length out_of_fuel : Error

pub data Result {ℓ} (A : Type ℓ) : Type ℓ where
  ok : A → Result A
  err : Error → Result A

infixl 5 ◌>>=◌
abbrev pub ◌>>=◌ {ℓ κ} : {A : Type ℓ} {B : Type κ} → Result A → (A → Result B) → Result B
ok a >>= f = f a
err e >>= f = err e

abbrev pub or_fail {ℓ} : {A : Type ℓ} → Error → Option A → Result A
or_fail e none = err e
or_fail e (some a) = ok a

-- `maxHTTP1Line`
abbrev pub max_line : ℕ
max_line = 8192

-- `maxHTTP1Headers`
abbrev pub max_headers : ℕ
max_headers = 100

-- `maxResponseBody`
abbrev pub max_body : ℕ
max_body = 65535

abbrev pub is_line_end : ℕ → Bool
is_line_end c = c == 13 || c == 10

-- A line that the buffer of the reader holds whole, its end cut off.
abbrev pub line_of : Text → Option (Text × Text) → Result (Text × Text)
unfolding trim_right
line_of s none = if ltb (length s) max_line then err end_of_input else err line_too_long
line_of s (some (line, rest)) =
    if ltb (length line) max_line then ok (trim_right is_line_end line, rest) else err line_too_long

unfoldable pub read_line : Text → Result (Text × Text)
unfolding cut_text trim_right
read_line s = line_of s (cut_text 10 s)

-- `strings.SplitN(line, " ", 3)` with three parts.
abbrev pub last_two : Text → Option (Text × Text) → Option (Text × Text × Text)
last_two method none = none
last_two method (some (path, proto)) = some (method, path, proto)

abbrev pub after_first : Option (Text × Text) → Option (Text × Text × Text)
after_first none = none
after_first (some (method, rest)) = last_two method (cut_text b' ' rest)

unfoldable pub three_parts : Text → Option (Text × Text × Text)
unfolding cut_text
three_parts line = after_first (cut_text b' ' line)

-- A header as it came: its name as it was spelled, and its value.
abbrev pub Line : Type 0
Line = Text × Text

abbrev pub line_parts : Text × Text → Line
line_parts (name, value) = (trim_space name, trim_space value)

-- What the loop does with a line, going on by `again`.
abbrev pub header_step :
    (Text → Result (List Line × Text)) → ℕ → Text × Text → Result (List Line × Text)
header_step again count ([], rest) = ok ([], rest)
header_step again count (c ∷ line, rest) =
    if leb max_headers count
    then err too_many_headers
    else or_fail malformed_header (cut_text b':' (c ∷ line)) >>= λ parts.
        again rest >>= λ (more : List Line × Text). ok (line_parts parts ∷ more.0, more.1)

-- The loop over the headers; each round takes at least one byte.
unfoldable pub header_loop : ℕ → ℕ → Text → Result (List Line × Text)
header_loop zero count s = err out_of_fuel
header_loop (suc fuel) count s = read_line s >>= header_step (header_loop fuel (suc count)) count

-- `length < 0 || length > maxResponseBody`
abbrev pub usable : Option ℤ → Option ℕ
usable none = none
usable (some (negsuc n)) = none
usable (some (pos n)) = if ltb max_body n then none else some n

abbrev pub framed : Option ℕ → Option ℕ → Result (Option ℕ) → Result (Option ℕ)
framed (some n) length_ rest = err duplicate_length
framed none none rest = err unusable_length
framed none (some n) rest = rest

-- The loop over the headers for the length of the body.
unfoldable pub length_loop : Option ℕ → List Line → Result (Option ℕ)
unfolding to_lower text_eq parse_int
length_loop found [] = ok found
length_loop found ((wire, value) ∷ lines) =
    let name = to_lower wire in
    if text_eq name (codes "transfer-encoding")
    then err transfer_encoding
    else (let next =
          if text_eq name (codes "content-length") then usable (parse_int value) else found in
        let rest = length_loop next lines in
        if text_eq name (codes "content-length")
        then framed found (usable (parse_int value)) rest
        else rest)

-- `io.ReadFull`
abbrev pub read_body : Option ℕ → Text → Result (Text × Text)
read_body none s = ok ([], s)
read_body (some n) s =
    if leb n (length s)
    then ok (take n s, drop n s)
    else if length s == 0
    then err end_of_input
    else err unexpected_end

pub record Request : Type 0 where
  pub seen : Http1
  pub body : Text

abbrev pub seen_of : Text × Text × Text → List Line → Http1
seen_of (method, path, proto) lines = record {
  method = method;
  path = path;
  proto = proto;
  header_order = map (λ (l : Line). to_lower (l.0)) lines;
  header_names = map (λ (l : Line). l.0) lines;
  headers = map (λ (l : Line). record { name = to_lower (l.0); value = l.1 }) lines;
}

-- The request, and what is behind it.
unfoldable pub read_request : Text → Result (Request × Text)
read_request s = do
  (line, s1) ← read_line s
  parts ← or_fail malformed_request (three_parts line)
  (lines, s2) ← header_loop (suc (length s1)) 0 s1
  length_ ← length_loop none lines
  (body, s3) ← read_body length_ s2
  ok (record { seen = seen_of parts lines; body = body }, s3)

unfoldable pub status_text : Text → Text
unfolding text_eq
status_text status =
    if text_eq status (codes "200")
    then codes "OK"
    else if text_eq status (codes "302")
    then codes "Found"
    else if text_eq status (codes "400")
    then codes "Bad Request"
    else if text_eq status (codes "404")
    then codes "Not Found"
    else codes "Error"

abbrev pub crlf : Text
crlf = 13 ∷ 10 ∷ []

-- What `serveHTTP1` writes for a request.
unfoldable pub response : Text → Text → Text → Text
unfolding status_text decimal
response status content_type body =
    codes "HTTP/1.1 "
    ++ (status
        ++ (codes " "
            ++ (status_text status
                ++ (crlf
                    ++ (codes "Content-Type: "
                        ++ (content_type
                            ++ (crlf
                                ++ (codes "Content-Length: "
                                    ++ (decimal (length body)
                                        ++ (crlf
                                            ++ (codes "Cache-Control: no-store"
                                                ++ (crlf
                                                    ++ (codes "Connection: keep-alive"
                                                        ++ (crlf ++ (crlf ++ body)))))))))))))))

-- `recordHTTP1` keeps the first request.
abbrev pub record_http1 : Option Http1 → Request → Option Http1
record_http1 none r = some r.seen
record_http1 (some h) r = some h
