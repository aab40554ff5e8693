-- ===== src/Echo/Http1/RoundTrip.antt =====
-- echo/h1.go: a request written as a client writes it, and read.
use tls_forge.Base.{
  ℕ, suc, zero, ◌+◌, ◌<◌, ◌≤◌, Bool, true, false, not, ◌&&◌, List, [], ◌∷◌, ◌++◌, append_assoc,
  none, some, ◌≡◌, refl, ap, ap₂, sym, ◌∙◌, arith, length, length-append, take-append, drop-append,
  ltb, leb, Text, text_eq, codes, to_lower, is_free_of, cut_text, cut_text-append, trim_space,
  trim_left, decimal, decimal-digits, digits-all, decimal-is_free_of, length-decimal,
  trim_space-none_of, is_space, trim_right, parse_int-decimal, All, All-append,
}
use tls_forge.Echo.Http1.{
  Result, ok, ◌>>=◌, read_line, three_parts, Line, line_parts, header_loop, length_loop, seen_of,
  read_request, max_line, max_headers, max_body, crlf,
}
use tls_forge.Echo.Http1.Lines.{is_line, read_line-crlf}

abbrev pub request_line : Text → Text → Text → Text
request_line method path proto = method ++ (b' ' ∷ (path ++ (b' ' ∷ proto)))

abbrev pub header_line : Line → Text
header_line (wire, value) = wire ++ (b':' ∷ (b' ' ∷ value))

abbrev pub header_lines : List Line → Text → Text
header_lines [] rest = crlf ++ rest
header_lines (l ∷ lines) rest = header_line l ++ (crlf ++ header_lines lines rest)

abbrev pub content_length : Text → Line
content_length body = (codes "Content-Length", decimal (length body))

abbrev pub encode : Text → Text → Text → List Line → Text → Text
encode method path proto lines body =
    request_line method path proto
    ++ (crlf ++ header_lines (lines ++ content_length body ∷ []) body)

-- A header that a line can hold.
abbrev pub IsHeader : Line → Type 0
IsHeader (wire, value) =
    (is_free_of b':' wire ≡ true)
    × (is_line (header_line (wire, value)) ≡ true)
    × (suc (length (header_line (wire, value))) < max_line)
    × (trim_space wire ≡ wire)
    × (trim_space value ≡ value)

-- A header that does not frame the body.
abbrev pub is_plain : Line → Bool
is_plain (wire, value) =
    not (text_eq (to_lower wire) (codes "transfer-encoding"))
    && not (text_eq (to_lower wire) (codes "content-length"))

three_parts-request_line :
    (method path proto : Text)
    → is_free_of b' ' method ≡ true
    → is_free_of b' ' path ≡ true
    → three_parts (request_line method path proto) ≡ some (method, path, proto)
unfolding three_parts
three_parts-request_line method path proto m p =
    rw (cut_text-append b' ' method (path ++ (b' ' ∷ proto)) m, cut_text-append b' ' path proto p)
      refl

header_line-some : (l : Line) (t : Text) → (c : ℕ) × (s : Text) × (header_line l ≡ c ∷ s)
header_line-some ([], value) t = (b':', b' ' ∷ value, refl)
header_line-some (c ∷ wire, value) t = (c, wire ++ (b':' ∷ (b' ' ∷ value)), refl)

line_parts-header : (l : Line) → IsHeader l → line_parts (l.0, b' ' ∷ l.1) ≡ l
unfolding trim_space trim_left
line_parts-header (wire, value) (colon, line, short, w, v) = ap₂ (λ (a b : Text). (a, b)) w v

-- One header of the loop.
header_loop-line :
    (fuel count : ℕ) (l : Line) (rest : Text)
    → IsHeader l
    → count < max_headers
    → header_loop (suc fuel) count (header_line l ++ (crlf ++ rest))
      ≡ (header_loop fuel (suc count) rest >>= λ (more : List Line × Text). ok (l ∷ more.0, more.1))
unfolding header_loop
header_loop-line fuel count (wire, value) rest (colon, line, short, w, v) few =
    let (c, s, e) = header_line-some (wire, value) rest in
    let fits : leb max_headers count ≡ false = ground arith in
    let cut : cut_text b':' (c ∷ s) ≡ some (wire, b' ' ∷ value) =
      ap (cut_text b':') (sym e) ∙ cut_text-append b':' wire (b' ' ∷ value) colon in
    rw
      (
        read_line-crlf (header_line (wire, value)) rest line short,
        e,
        fits,
        cut,
        line_parts-header (wire, value) (colon, line, short, w, v),
      )
      refl

header_loop-end :
    (fuel count : ℕ) (rest : Text) → header_loop (suc fuel) count (crlf ++ rest) ≡ ok ([], rest)
unfolding header_loop
header_loop-end fuel count rest =
    let e : read_line (crlf ++ rest) ≡ ok ([], rest) =
      read_line-crlf [] rest (unfold is_free_of in refl) (omega arith) in
    rw e refl

header_loop-header_lines :
    (fuel count : ℕ) (lines : List Line) (rest : Text)
    → All IsHeader lines
    → count + length lines ≤ max_headers
    → length lines < fuel
    → header_loop fuel count (header_lines lines rest) ≡ ok (lines, rest)
header_loop-header_lines zero count lines rest h few enough = absurd (omega arith)
header_loop-header_lines (suc fuel) count [] rest h few enough = header_loop-end fuel count rest
header_loop-header_lines (suc fuel) count (l ∷ lines) rest (here, h) few enough =
    header_loop-line fuel count l (header_lines lines rest) here (omega arith)
    ∙ ap
        (λ (r : Result (List Line × Text)).
          r >>= λ (more : List Line × Text). ok (l ∷ more.0, more.1))
        (header_loop-header_lines fuel (suc count) lines rest h (omega arith) (omega arith))

plain-parts : (t c : Bool) → (not t && not c) ≡ true → (t ≡ false) × (c ≡ false)
plain-parts false false h = (refl, refl)
plain-parts false true h = cc
plain-parts true c h = cc

length_loop_skip :
    (l : Line) (lines : List Line)
    → is_plain l ≡ true
    → length_loop none (l ∷ lines) ≡ length_loop none lines
unfolding length_loop
length_loop_skip (wire, value) lines plain =
    let (t, c) =
      plain-parts (text_eq (to_lower wire) (codes "transfer-encoding"))
        (text_eq (to_lower wire) (codes "content-length")) plain in
    rw (t, c) refl

length_loop-plain :
    (lines more : List Line)
    → All (λ l. is_plain l ≡ true) lines
    → length_loop none (lines ++ more) ≡ length_loop none more
length_loop-plain [] more h = refl
length_loop-plain (l ∷ lines) more (plain, h) =
    length_loop_skip l (lines ++ more) plain ∙ length_loop-plain lines more h

length_loop-content_length :
    (body : Text)
    → length body ≤ max_body
    → length_loop none (content_length body ∷ []) ≡ ok (some (length body))
length_loop-content_length body small =
    let n = parse_int-decimal (length body) (omega arith) in
    let fits : ltb max_body (length body) ≡ false = ground arith in
    unfold length_loop text_eq to_lower in rw (n, fits) refl

length-header_lines :
    (lines : List Line) (rest : Text) → length lines < length (header_lines lines rest)
length-header_lines [] rest = omega arith
length-header_lines (l ∷ lines) rest = omega (
  arith,
  length-append (header_line l) (crlf ++ header_lines lines rest),
  length-header_lines lines rest,
)

header_lines-append :
    (lines : List Line) (body rest : Text)
    → header_lines lines body ++ rest ≡ header_lines lines (body ++ rest)
header_lines-append [] body rest = refl
header_lines-append (l ∷ lines) body rest =
    append_assoc (header_line l) (crlf ++ header_lines lines body) rest
    ∙ ap (λ t. header_line l ++ (crlf ++ t)) (header_lines-append lines body rest)

content_length-IsHeader : (body : Text) → length body ≤ max_body → IsHeader (content_length body)
content_length-IsHeader body small =
    let n = length body in
    let free = decimal-is_free_of 10 n refl in
    let free' = decimal-is_free_of 13 n refl in
    let long = length-decimal n in
    (
      unfold is_free_of in refl,
      unfold is_free_of in rw (free, free') refl,
      omega arith,
      unfold trim_space trim_left trim_right in refl,
      trim_space-none_of (decimal n)
          (digits-all (λ c. not (is_space c)) (decimal n) (λ c h. ground arith) (decimal-digits n)),
    )

-- A request that a client writes, with the length of its body in the last header, is read as it
-- was written, and what is behind it is left for the next, if its method and its path have no
-- space in them and its lines no line end, no line is longer than the buffer, the other headers are
-- fewer than a hundred, with trimmed names and values, no colon in a name and none that says how
-- long the body is, and the body has at most 65,535 bytes.
pub read_request-encode :
    (method path proto : Text) (lines : List Line) (body rest : Text)
    → is_free_of b' ' method ≡ true
    → is_free_of b' ' path ≡ true
    → is_line (request_line method path proto) ≡ true
    → suc (length (request_line method path proto)) < max_line
    → All IsHeader lines
    → All (λ l. is_plain l ≡ true) lines
    → length lines < max_headers
    → length body ≤ max_body
    → read_request (encode method path proto lines body ++ rest)
      ≡ ok (
        record {
          seen = seen_of (method, path, proto) (lines ++ content_length body ∷ []);
          body = body;
        },
        rest,
      )
unfolding read_request
read_request-encode method path proto lines body rest m p line short headers plain few small =
    let all_ = lines ++ content_length body ∷ [] in
    let first = request_line method path proto in
    let input : encode method path proto lines body ++ rest
        ≡ first ++ (crlf ++ header_lines all_ (body ++ rest)) =
      append_assoc first (crlf ++ header_lines all_ body) rest
      ∙ ap (λ t. first ++ (crlf ++ t)) (header_lines-append all_ body rest) in
    let count = length-append lines (content_length body ∷ []) in
    let loop =
      header_loop-header_lines (suc (length (header_lines all_ (body ++ rest)))) 0 all_
        (body ++ rest)
        (All-append IsHeader lines (content_length body ∷ []) headers
          (content_length-IsHeader body small, tt))
        (omega arith) (omega (arith, length-header_lines all_ (body ++ rest))) in
    let framing =
      length_loop-plain lines (content_length body ∷ []) plain
      ∙ length_loop-content_length body small in
    let fits : leb (length body) (length (body ++ rest)) ≡ true =
      ground (arith, length-append body rest) in
    rw
      (
        input,
        read_line-crlf first (header_lines all_ (body ++ rest)) line short,
        three_parts-request_line method path proto m p,
        loop,
        framing,
        fits,
        take-append body rest,
        drop-append body rest,
      )
      refl
